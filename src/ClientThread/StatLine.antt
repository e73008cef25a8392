-- ===== src/ClientThread/StatLine.antt =====
-- When the buffer of `client_stat_line` is large enough.
use csse2310_assignment.Base.{
  ◌+◌, ◌≤◌, ◌<◌, ◌≡◌, refl, none, some, ◌++◌, true, false, arith, leb, length, length-append,
}
use csse2310_assignment.Libc.{Text, codes}
use csse2310_assignment.Libc.Decimal.{decimal}
use csse2310_assignment.Libc.Decimal.Numerals.{length-decimal, length-decimal_gt}
use csse2310_assignment.ClientThread.{
  ClientStats, ClientThread, client_stat_text, client_stat_size, client_stat_line,
}

length-client_stat_text :
    (name : Text) (s : ClientStats)
    → length (client_stat_text name s)
      ≡ length name
        + (length (decimal s.say_count)
            + (length (decimal s.kick_count) + (length (decimal s.list_count) + 18)))
unfolding client_stat_text
length-client_stat_text name s = omega (
  arith,
  length-append name (
      codes ":SAY:"
      ++ (decimal s.say_count
          ++ (codes ":KICK:"
              ++ (decimal s.kick_count
                  ++ (codes ":LIST:" ++ (decimal s.list_count ++ codes "\n")))))),
  length-append (decimal s.say_count) (
      codes ":KICK:"
      ++ (decimal s.kick_count ++ (codes ":LIST:" ++ (decimal s.list_count ++ codes "\n")))),
  length-append (decimal s.kick_count) (codes ":LIST:" ++ (decimal s.list_count ++ codes "\n")),
  length-append (decimal s.list_count) (codes "\n"),
)

-- The report on a client is its name and its counts, if each count is below 100000.
pub client_stat_line-fits :
    (c : ClientThread) (name : Text)
    → c.name ≡ some name
    → c.stats.say_count < 100000
    → c.stats.kick_count < 100000
    → c.stats.list_count < 100000
    → client_stat_line c ≡ some (client_stat_text name c.stats)
unfolding client_stat_line
client_stat_line-fits c name named say kick list =
    let s = c.stats in
    let fits : leb (length (client_stat_text name s) + 1) (client_stat_size name) ≡ true = ground (
      arith,
      length-client_stat_text name s,
      length-decimal s.say_count 4 say,
      length-decimal s.kick_count 4 kick,
      length-decimal s.list_count 4 list,
    ) in
    rw (client_stat_line, named, fits) refl

-- If each count is 100000 or more, the text of the report runs over its buffer.
pub client_stat_line-overflow :
    (c : ClientThread) (name : Text)
    → c.name ≡ some name
    → 100000 ≤ c.stats.say_count
    → 100000 ≤ c.stats.kick_count
    → 100000 ≤ c.stats.list_count
    → client_stat_line c ≡ none
unfolding client_stat_line
client_stat_line-overflow c name named say kick list =
    let s = c.stats in
    let over : leb (length (client_stat_text name s) + 1) (client_stat_size name) ≡ false = ground (
      arith,
      length-client_stat_text name s,
      length-decimal_gt s.say_count 5 say,
      length-decimal_gt s.kick_count 5 kick,
      length-decimal_gt s.list_count 5 list,
    ) in
    rw (client_stat_line, named, over) refl
