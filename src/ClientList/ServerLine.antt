-- ===== src/ClientList/ServerLine.antt =====
-- When the buffer of `server_stat_line` is large enough.
use csse2310_assignment.Base.{
  ℕ, ◌+◌, ◌≤◌, ◌<◌, ◌≡◌, refl, some, ◌++◌, true, arith, leb, length, length-append,
}
use csse2310_assignment.Libc.{Text, codes}
use csse2310_assignment.Libc.Decimal.{decimal}
use csse2310_assignment.Libc.Decimal.Numerals.{length-decimal}
use csse2310_assignment.World.{ServerStats}
use csse2310_assignment.ClientList.{server_stat_text, server_stat_size, server_stat_line}

-- Each count is below 100000.
pub record IsShort (s : ServerStats) : Type 0 where
  pub say : s.say_count < 100000
  pub kick : s.kick_count < 100000
  pub list : s.list_count < 100000
  pub auth : s.auth_count < 100000
  pub name : s.name_count < 100000
  pub leave : s.leave_count < 100000

-- A label, a count of at most five digits, and what follows.
field_le :
    (label rest : Text) (n k : ℕ)
    → n < 100000
    → length rest ≤ k
    → length (label ++ (decimal n ++ rest)) ≤ length label + (5 + k)
field_le label rest n k small le = omega (
  arith,
  length-append label (decimal n ++ rest),
  length-append (decimal n) rest,
  length-decimal n 4 small,
  le,
)

pub server_stat_line-IsShort :
    (s : ServerStats) → IsShort s → server_stat_line s ≡ some (server_stat_text s)
unfolding server_stat_line server_stat_text
server_stat_line-IsShort s h =
    let leave_le = field_le (codes ":LEAVE:") (codes "\n") s.leave_count 1 h.leave (omega arith) in
    let leave_on = codes ":LEAVE:" ++ (decimal s.leave_count ++ codes "\n") in
    let list_le = field_le (codes ":LIST:") leave_on s.list_count _ h.list leave_le in
    let list_on = codes ":LIST:" ++ (decimal s.list_count ++ leave_on) in
    let kick_le = field_le (codes ":KICK:") list_on s.kick_count _ h.kick list_le in
    let kick_on = codes ":KICK:" ++ (decimal s.kick_count ++ list_on) in
    let say_le = field_le (codes ":SAY:") kick_on s.say_count _ h.say kick_le in
    let say_on = codes ":SAY:" ++ (decimal s.say_count ++ kick_on) in
    let name_le = field_le (codes ":NAME:") say_on s.name_count _ h.name say_le in
    let name_on = codes ":NAME:" ++ (decimal s.name_count ++ say_on) in
    let auth_le = field_le (codes "server:AUTH:") name_on s.auth_count _ h.auth name_le in
    let fits : leb (length (server_stat_text s) + 1) server_stat_size ≡ true =
      ground (arith, auth_le) in
    rw (server_stat_line, fits) refl
