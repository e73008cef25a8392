-- ===== src/ClientUtils/Asking.antt =====
-- The names that the client asks for, one after another, in `name_negotiate` of clientUtils.c.
use mathlib.Core.List.{append_assoc}
use csse2310_assignment.Base.{
  ℕ, zero, suc, ◌+◌, ◌≤◌, ◌<◌, ◌≡◌, refl, ap, ◌∙◌, ◌||◌, true, false, Option, some, [], ◌∷◌, ◌++◌,
  arith, if◌then◌else◌, length,
}
use csse2310_assignment.Base.Int.{ℤ}
use csse2310_assignment.Libc.{Text, codes}
use csse2310_assignment.Libc.Compare.{text_eq}
use csse2310_assignment.Libc.Token.{strtok_r}
use csse2310_assignment.LineList.{
  Stream, get_line, read_file_line, add_to_lines, pattern_match_string,
}
use csse2310_assignment.LineList.Reading.{IsLine, read_line, get_line-newline}
use csse2310_assignment.Commands.{
  client, get_cmd_no, cmd_to_lines, check_args, get_cmd_args, args_of, all_args,
}
use csse2310_assignment.ClientData.{
  ClientData, ok, name_text, successor, next_client_no, read_server_line, next_error, read_after,
}
use csse2310_assignment.ClientData.Reading.{tries, tries-successor, get_name-fits}
use csse2310_assignment.ClientUtils.{number_of, name_reply, negotiate_walk, name_negotiate}
use csse2310_assignment.ClientUtils.Naming.{
  named_to, answer_who-step, negotiate_walk-step, name_negotiate-end,
}

number_of-who : number_of (cmd_to_lines (some (codes "WHO:")) client) ≡ some 0
unfolding get_cmd_no cmd_to_lines check_args get_cmd_args args_of all_args text_eq strtok_r
    pattern_match_string add_to_lines
number_of-who = refl

number_of-taken : number_of (cmd_to_lines (some (codes "NAME_TAKEN:")) client) ≡ some 1
unfolding get_cmd_no cmd_to_lines check_args get_cmd_args args_of all_args text_eq strtok_r
    pattern_match_string add_to_lines
number_of-taken = refl

number_of-ok : number_of (cmd_to_lines (some (codes "OK:")) client) ≡ some 3
unfolding get_cmd_no cmd_to_lines check_args get_cmd_args args_of all_args text_eq strtok_r
    pattern_match_string add_to_lines
number_of-ok = refl

no_error-step :
    (d : ClientData) → d.sock_errors ≡ [] → read_server_line false d ≡ read_after false false d
unfolding read_server_line next_error
no_error-step d no_error = ground (arith, no_error)

line-step :
    (d : ClientData) (line : Text) (s : Stream)
    → get_line d.read_from ≡ (read_line line false, false, s)
    → read_after false false d ≡ ok (some line, false) (record d { read_from = s })
unfolding read_after read_file_line
line-step d line s h = ap (λ x. ok (some x.0.line, false || x.1) (record d { read_from = x.2 })) h

reads :
    (d : ClientData) (line : Text) (s : Stream)
    → IsLine line
    → d.sock_errors ≡ []
    → d.read_from ≡ line ++ (b'\n' ∷ s)
    → read_server_line false d ≡ ok (some line, false) (record d { read_from = s })
reads d line s is_line no_error e =
    no_error-step d no_error ∙ line-step d line s (ap get_line e ∙ get_line-newline line s is_line)

-- One round with the reply `reply`, whose number is `n`.
round :
    (k : ℕ) (d d2 : ClientData) (reply : Text) (s : Stream) (n : Option ℕ)
    → IsLine reply
    → number_of (cmd_to_lines (some reply) client) ≡ n
    → d.sock_errors ≡ []
    → tries d.client_no ≤ 1000000000
    → d.read_from ≡ codes "WHO:" ++ (b'\n' ∷ (reply ++ (b'\n' ∷ s)))
    → name_reply n (record (named_to d (name_text d.name d.client_no)) { read_from = s }) ≡ ok tt d2
    → negotiate_walk (suc k) d
      ≡ (if d2.authenticated || false then ok false d2 else negotiate_walk k d2)
round k d d2 reply s n is_line number no_error small e r =
    let d1 : ClientData = record d { read_from = reply ++ (b'\n' ∷ s) } in
    let name = name_text d.name d.client_no in
    let asked = named_to d1 name in
    negotiate_walk-step k d (some (codes "WHO:")) false false d1 d2
      (reads d (codes "WHO:") (reply ++ (b'\n' ∷ s)) (refl, refl) no_error e)
      (answer_who-step (number_of (cmd_to_lines (some (codes "WHO:")) client)) false d1 name
        (some reply) false (record asked { read_from = s }) d2 (rw number_of-who refl)
        (get_name-fits d1 small) (reads asked reply s is_line no_error refl) (rw number r))

-- A server that refuses so many names and then takes one, in front of `rest`.
abbrev pub turns : ℕ → Stream → Stream
turns zero rest = codes "WHO:" ++ (b'\n' ∷ (codes "OK:" ++ (b'\n' ∷ rest)))
turns (suc k) rest = codes "WHO:" ++ (b'\n' ∷ (codes "NAME_TAKEN:" ++ (b'\n' ∷ turns k rest)))

-- The number of the client after so many refusals.
abbrev pub moved_on : ℕ → ℤ → ℤ
moved_on zero z = z
moved_on (suc k) z = moved_on k (successor z)

-- The lines that ask for the names in turn, from the one with number `z` on.
abbrev pub asked_names : Text → ℤ → ℕ → Text
asked_names name z zero = (codes "NAME:" ++ name_text name z) ++ codes "\n"
asked_names name z (suc k) =
    ((codes "NAME:" ++ name_text name z) ++ codes "\n") ++ asked_names name (successor z) k

-- The client when its last name was taken.
abbrev pub negotiated : ClientData → ℕ → Stream → ClientData
negotiated d k rest = record d {
  authenticated = true;
  client_no = moved_on k d.client_no;
  write_to = d.write_to ++ asked_names d.name d.client_no k;
  read_from = rest;
}

-- The client after a refusal.
abbrev refused : ClientData → Stream → ClientData
refused d s = record (named_to d (name_text d.name d.client_no)) {
  read_from = s;
  client_no = successor d.client_no;
}

refused-negotiated :
    (d : ClientData) (k : ℕ) (rest : Stream)
    → negotiated (refused d (turns k rest)) k rest ≡ negotiated d (suc k) rest
refused-negotiated d k rest =
    ap (λ t. record (negotiated d (suc k) rest) { write_to = t })
      (append_assoc d.write_to ((codes "NAME:" ++ name_text d.name d.client_no) ++ codes "\n")
        (asked_names d.name (successor d.client_no) k))

negotiate_walk-turns :
    (k f : ℕ) (d : ClientData) (rest : Stream)
    → d.authenticated ≡ false
    → d.sock_errors ≡ []
    → tries d.client_no + k ≤ 1000000000
    → d.read_from ≡ turns k rest
    → k < f
    → negotiate_walk f d ≡ ok false (negotiated d k rest)
unfolding name_reply next_client_no
negotiate_walk-turns k zero d rest new no_error small e enough = absurd (omega arith)
negotiate_walk-turns zero (suc f) d rest new no_error small e enough =
    round f d (negotiated d 0 rest) (codes "OK:") rest (some 3) (refl, refl) number_of-ok no_error
      (omega arith) e refl
negotiate_walk-turns (suc k) (suc f) d rest new no_error small e enough =
    let d2 = refused d (turns k rest) in
    let step =
      round f d d2 (codes "NAME_TAKEN:") (turns k rest) (some 1) (refl, refl) number_of-taken
        no_error (omega arith) e refl in
    let rest_of =
      negotiate_walk-turns k f d2 rest new no_error
        (omega (arith, small, tries-successor d.client_no)) refl (omega (arith, enough)) in
    step ∙ (rw new refl ∙ (rest_of ∙ ap (ok false) (refused-negotiated d k rest)))

length-turns : (k : ℕ) (rest : Stream) → k < length (turns k rest)
length-turns zero rest = omega arith
length-turns (suc k) rest = omega (arith, length-turns k rest)

-- A client whose socket has no errors, and whose server refuses its first `k` names and takes the next
-- one, asks for its name and then for the name with the numbers that follow, one after another. It is
-- then authenticated under the last of these names, and has read nothing behind the server's OK:. Its number
-- must stay at most 10 to the 9 so that it fits its buffer.
pub name_negotiate-asks :
    (k : ℕ) (d : ClientData) (rest : Stream)
    → d.authenticated ≡ false
    → d.sock_errors ≡ []
    → tries d.client_no + k ≤ 1000000000
    → d.read_from ≡ turns k rest
    → name_negotiate d ≡ ok tt (negotiated d k rest)
name_negotiate-asks k d rest new no_error small e =
    name_negotiate-end d (negotiated d k rest) false new (
      negotiate_walk-turns k (suc (length d.read_from)) d rest new no_error small e
        (rw e (omega (arith, length-turns k rest))))
