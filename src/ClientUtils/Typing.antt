-- ===== src/ClientUtils/Typing.antt =====
-- What the client does with a line of its user, `send_user_msg` of clientUtils.c, and what the server
-- reads of it.
use csse2310_assignment.Base.{
  ℕ, ◌≡◌, ◌≢◌, inl, inr, refl, Bool, true, false, Option, none, some, [], ◌∷◌, ◌++◌, arith, ◌==◌,
  Bool-cases,
}
use csse2310_assignment.Libc.{Text, codes}
use csse2310_assignment.Libc.Compare.{text_eq, text_eq_iff}
use csse2310_assignment.Libc.Format.{expand}
use csse2310_assignment.Libc.Token.{skip_delimiters}
use csse2310_assignment.Commands.{server, get_cmd_no, cmd_to_lines}
use csse2310_assignment.Commands.Accepts.{bare, argument, one, two}
use csse2310_assignment.Commands.Accepts.Sound.{cmd_to_lines_iff}
use csse2310_assignment.ClientData.{
  ClientData, Run, ok, fault, normal, disabled, disable_client, send_to_server,
}
use csse2310_assignment.ClientUtils.{send_line, send_user_msg}
use csse2310_assignment.ClientUtils.Messages.{printed}

-- The client once it sent a line.
abbrev pub sent : ClientData → Text → ClientData
sent d line = record d { write_to = d.write_to ++ (line ++ codes "\n") }

-- The client once it sent LEAVE.
abbrev pub left : ClientData → ClientData
left d =
    printed (disabled normal (sent d (codes "LEAVE:")))
      (codes "(" ++ (d.name ++ codes " has left the chat)\n"))

-- What a line of the user does.
pub data Typed (msg : Text) (d : ClientData) (r : Run (Unit {0})) : Type 0 where
  says_nothing : msg ≡ [] → r ≡ ok tt (sent d (codes "SAY:")) → Typed msg d r
  says :
      (c : ℕ) (s : Text)
      → msg ≡ c ∷ s
      → (c == b'*') ≡ false
      → r ≡ ok tt (sent d (codes "SAY:" ++ msg))
      → cmd_to_lines (some (codes "SAY:" ++ msg)) server ≡ some (two (codes "SAY") msg)
      → Typed msg d r
  leaves :
      msg ≡ codes "*LEAVE:"
      → r ≡ ok tt (left d)
      → cmd_to_lines (some (codes "LEAVE:")) server ≡ some (one (codes "LEAVE"))
      → Typed msg d r
  commands :
      (s text : Text)
      → msg ≡ b'*' ∷ s
      → msg ≢ codes "*LEAVE:"
      → expand s ≡ some text
      → r ≡ ok tt (sent d text)
      → Typed msg d r
  crashes : (s : Text) → msg ≡ b'*' ∷ s → expand s ≡ none → r ≡ fault → Typed msg d r

says-parsed :
    (msg : Text)
    → msg ≢ []
    → cmd_to_lines (some (codes "SAY:" ++ msg)) server ≡ some (two (codes "SAY") msg)
unfolding get_cmd_no text_eq skip_delimiters
says-parsed msg some_line =
    (cmd_to_lines_iff (codes "SAY:" ++ msg) (two (codes "SAY") msg)).1
      (argument (codes "SAY") msg 2 refl refl refl some_line (inl refl) refl)

leave-parsed : cmd_to_lines (some (codes "LEAVE:")) server ≡ some (one (codes "LEAVE"))
unfolding get_cmd_no text_eq skip_delimiters
leave-parsed =
    (cmd_to_lines_iff (codes "LEAVE:") (one (codes "LEAVE"))).1
      (bare (codes "LEAVE") 5 refl refl (inl refl) refl)

star-head : (c : ℕ) (s : Text) → c ∷ s ≡ codes "*LEAVE:" → c ≡ b'*'
star-head c s is = cc

star-tail : (s : Text) → b'*' ∷ s ≡ codes "*LEAVE:" → s ≡ codes "LEAVE:"
star-tail s is = cc

not_leave : (c : ℕ) (s : Text) → (c == b'*') ≡ false → text_eq (c ∷ s) (codes "*LEAVE:") ≡ false
not_leave c s other = elim (Bool-cases (text_eq (c ∷ s) (codes "*LEAVE:"))) [
  | inl same ↦
      let star = star-head c s ((text_eq_iff (c ∷ s) (codes "*LEAVE:")).0 same) in
      absurd (ground (arith, star, other))
  | inr apart ↦ apart
]

module _ (d : ClientData) (open_lock : d.locked ≡ false) where
  leave-run : send_user_msg (codes "*LEAVE:") d ≡ ok tt (left d)
  unfolding send_user_msg send_line send_to_server disable_client text_eq expand
  leave-run = rw (send_user_msg, open_lock) refl

  star-Typed :
      (s : Text) (text : Option Text) (is_leave : Bool)
      → expand s ≡ text
      → text_eq (b'*' ∷ s) (codes "*LEAVE:") ≡ is_leave
      → Typed (b'*' ∷ s) d (send_user_msg (b'*' ∷ s) d)
  unfolding send_user_msg send_line send_to_server
  star-Typed s none is_leave e l = crashes s refl e (rw (send_user_msg, send_line, e) refl)
  star-Typed s (some text) true e l =
      let is = (text_eq_iff (b'*' ∷ s) (codes "*LEAVE:")).0 l in
      leaves is (rw (star-tail s is) leave-run) leave-parsed
  star-Typed s (some text) false e l =
      commands s text refl (λ is. absurd (cc ((text_eq_iff (b'*' ∷ s) (codes "*LEAVE:")).1 is, l)))
        e (rw (send_user_msg, send_line, e, l) refl)

  plain-Typed : (c : ℕ) (s : Text) → (c == b'*') ≡ false → Typed (c ∷ s) d (send_user_msg (c ∷ s) d)
  unfolding send_user_msg send_line send_to_server
  plain-Typed c s other =
      says c s refl other (rw (send_user_msg, send_line, other, not_leave c s other) refl)
        (says-parsed (c ∷ s) (cc))

  byte-Typed : (c : ℕ) (s : Text) → Typed (c ∷ s) d (send_user_msg (c ∷ s) d)
  byte-Typed c s = elim (Bool-cases (c == b'*')) [
    | inl star ↦
        let is : c ≡ b'*' = ground (arith, star) in
        rw is (star-Typed s (expand s) (text_eq (b'*' ∷ s) (codes "*LEAVE:")) refl refl)
    | inr other ↦ plain-Typed c s other
  ]

  -- While `end_client` does not hold the lock, a line of the user that does not begin with an asterisk
  -- is sent behind SAY:, and the server parses it as SAY with this line, unless it is empty. The line
  -- *LEAVE: sends LEAVE:, which the server parses as that command, disables the client as ended normally,
  -- and prints that it has left. Any other line behind an asterisk is sent with its percent signs taken for
  -- those of a format, and what this does not define is a fault.
  pub send_user_msg-Typed : (msg : Text) → Typed msg d (send_user_msg msg d)
  unfolding send_user_msg send_line send_to_server text_eq
  send_user_msg-Typed [] = says_nothing refl refl
  send_user_msg-Typed (c ∷ s) = byte-Typed c s
