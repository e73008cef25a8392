-- ===== src/ServerUtils/Authenticate.antt =====
-- Who passes `authenticate_client`.
use csse2310_assignment.Base.{
  ℕ, ◌≡◌, ◌≢◌, ◌↔◌, Option-cases, inl, inr, refl, sym, subst, ◌∙◌, Bool, true, false, ◌&&◌, Option,
  none, some, [], ◌++◌, arith, ◌==◌,
}
use csse2310_assignment.Libc.{Text, codes, Lacks}
use csse2310_assignment.Libc.Compare.{text_eq, text_eq_iff, text_eq_refl}
use csse2310_assignment.Libc.Token.{skip_delimiters}
use csse2310_assignment.LineList.{LineList, get_line, read_file_line}
use csse2310_assignment.Commands.{server, get_cmd_no, colon, cmd_to_lines}
use csse2310_assignment.Commands.Accepts.{Accepts, bare, argument, one, two}
use csse2310_assignment.Commands.Accepts.Words.{get_cmd_no-word}
use csse2310_assignment.Commands.Accepts.Sound.{cmd_to_lines_iff}
use csse2310_assignment.ClientThread.{ClientThread, send, deactivate, read_client_line}
use csse2310_assignment.World.{Ptr, World, Outcome, done, set_thread}
use csse2310_assignment.ServerUtils.Steps.{
  write_self, send_client-step, disable_client-step, read_line-step,
}
use csse2310_assignment.ServerUtils.{
  auth_argument, finish_authentication, check_password, challenge, authenticate_client,
}

-- The line is `AUTH:` and the password, which is not empty and has no colon; colons may stand in front.
abbrev pub IsPassword : Text → Text → Type 0
IsPassword password line =
    (skip_delimiters colon line ≡ codes "AUTH:" ++ password) × (password ≢ []) × Lacks b':' password

abbrev fits : Text → Option Text → Bool
fits password none = false
fits password (some given) = text_eq password given

-- What the parsed lines of a command with an argument give.
auth_argument-two :
    (password w arg : Text) (n : ℕ)
    → get_cmd_no (some w) server ≡ some n
    → fits password (auth_argument (some (two w arg))) ≡ (n == 1 && text_eq password arg)
unfolding auth_argument
auth_argument-two password w arg n e = ground (arith, e)

matches : Text → Option LineList → Bool
matches password l = fits password (auth_argument l)

matches-bare : (password w : Text) → matches password (some (one w)) ≡ false
unfolding matches auth_argument
matches-bare password w = refl

matches-Accepts :
    (password s : Text) (l : LineList)
    → Accepts server s l
    → matches password (some l) ≡ true
    → (s ≡ codes "AUTH:" ++ password) × (password ≢ []) × Lacks b':' password
unfolding matches
matches-Accepts password s l (bare w n e least form is) h = absurd (cc (matches-bare password w))
matches-Accepts password s l (argument w arg n e most form ne plain is) h =
    let tests : (n == 1 && text_eq password arg) ≡ true =
      sym (auth_argument-two password w arg n e) ∙ (rw is at h) in
    let auth : n ≡ 1 = ground arith in
    let same : password ≡ arg = (text_eq_iff password arg).0 (ground arith) in
    let word : some (codes "AUTH") ≡ some w = rw auth at (get_cmd_no-word server w n e) in
    let named : codes "AUTH" ≡ w = cc in rw same (form ∙ rw (← named), ne, ground arith)

matches-none : (password : Text) → matches password none ≡ false
unfolding matches auth_argument
matches-none password = refl

matches-IsPassword :
    (password line : Text)
    → matches password (cmd_to_lines (some line) server) ≡ true
    → IsPassword password line
matches-IsPassword password line h = elim (Option-cases (cmd_to_lines (some line) server)) [
  | inl e ↦ absurd (cc (rw e at h, matches-none password))
  | inr (l, e) ↦
      matches-Accepts password (skip_delimiters colon line) l ((cmd_to_lines_iff line l).0 e)
        (rw e at h)
]

auth_number : get_cmd_no (some (codes "AUTH")) server ≡ some 1
unfolding get_cmd_no text_eq
auth_number = refl

IsPassword-matches :
    (password line : Text)
    → IsPassword password line
    → matches password (cmd_to_lines (some line) server) ≡ true
unfolding matches
IsPassword-matches password line (is, ne, lacks) =
    let accepted : Accepts server (skip_delimiters colon line) (two (codes "AUTH") password) =
      argument (codes "AUTH") password 1 auth_number refl is ne (inr lacks) refl in
    rw ((cmd_to_lines_iff line (two (codes "AUTH") password)).1 accepted)
      (auth_argument-two password (codes "AUTH") password 1 auth_number ∙ text_eq_refl password)

-- The client after the challenge, its reply and the verdict.
abbrev pub challenged : ClientThread → ClientThread
challenged c = (read_client_line (send c (codes "AUTH:")) false).2

abbrev pub verdict : Bool → ClientThread → ClientThread
verdict true c = send c (codes "OK:")
verdict false c = deactivate c

-- Its reply.
abbrev reply_of : ClientThread → Text
reply_of c = (read_client_line (send c (codes "AUTH:")) false).0

reply_of_lem : (c : ClientThread) → reply_of c ≡ (get_line c.read_from).0.line
unfolding read_client_line read_file_line
reply_of_lem c = refl

finish_authentication-step :
    (w : World) (client : Ptr) (c : ClientThread) (passed : Bool)
    → w.threads client ≡ some c
    → finish_authentication client passed w ≡ done tt (set_thread w client (verdict passed c))
unfolding finish_authentication
finish_authentication-step w client c true at = send_client-step w client c at (codes "OK:")
finish_authentication-step w client c false at = disable_client-step w client c at

-- The outcome of an authentication: the client's record is that after the verdict.
abbrev pub Verdict : Ptr → ClientThread → Bool → Outcome (Unit {0}) → Type 0
Verdict client c passed r =
    (w' : World) × (r ≡ done tt w') × (w'.threads client ≡ some (verdict passed c))

check_password-Verdict :
    (w : World) (client : Ptr) (c : ClientThread) (password : Text) (argument : Option Text)
    → w.threads client ≡ some c
    → Verdict client c (fits password argument) (check_password client password argument w)
unfolding check_password
check_password-Verdict w client c password none at = (
  set_thread w client (deactivate c),
  disable_client-step w client c at,
  write_self w.threads client _,
)
check_password-Verdict w client c password (some given) at = (
  _,
  finish_authentication-step _ client c (text_eq password given) at,
  write_self w.threads client _,
)

challenge-Verdict :
    (w : World) (client : Ptr) (c : ClientThread) (password : Text)
    → w.threads client ≡ some c
    → Verdict client
        (challenged c)
        (matches password (cmd_to_lines (some (reply_of c)) server))
        (challenge client (some password) w)
unfolding challenge matches
challenge-Verdict w client c password at =
    let c1 = send c (codes "AUTH:") in
    let w1 = set_thread w client c1 in
    let at1 = write_self w.threads client c1 in
    let w2 = set_thread w1 client (challenged c) in
    rw (send_client-step w client c at (codes "AUTH:"), read_line-step w1 client c1 at1)
      (check_password-Verdict w2 client (challenged c) password
        (auth_argument (cmd_to_lines (some (reply_of c)) server))
        (write_self w1.threads client (challenged c)))

-- With a password the client is sent `AUTH:`, and its next line decides: it is sent `OK:` if the line
-- is `AUTH:` and the password, where the password is not empty and has no colon and colons may stand
-- in front of the line; and else it is disabled. The call always returns.
pub authenticate_client-Verdict :
    (w : World) (client : Ptr) (c : ClientThread) (password : Text)
    → w.threads client ≡ some c
    → w.clients.password ≡ some password
    → (passed : Bool) × ((passed ≡ true) ↔ IsPassword password (get_line c.read_from).0.line)
      × Verdict client (challenged c) passed (authenticate_client client w)
unfolding authenticate_client
authenticate_client-Verdict w client c password at needs = (
  matches password (cmd_to_lines (some (reply_of c)) server),
  rw (← reply_of_lem c)
      (matches-IsPassword password (reply_of c), IsPassword-matches password (reply_of c)),
  subst
      (λ p.
        Verdict client (challenged c) (matches password (cmd_to_lines (some (reply_of c)) server))
          (challenge client p w))
      (sym needs) (challenge-Verdict w client c password at),
)

-- With no password every client is sent `OK:`, and nothing of its input is read.
pub authenticate_client-open :
    (w : World) (client : Ptr) (c : ClientThread)
    → w.threads client ≡ some c
    → w.clients.password ≡ none
    → authenticate_client client w ≡ done tt (set_thread w client (send c (codes "OK:")))
unfolding authenticate_client
authenticate_client-open w client c at open_to_all =
    subst (λ p. challenge client p w ≡ done tt (set_thread w client (send c (codes "OK:"))))
      (sym open_to_all) (unfold challenge in finish_authentication-step w client c true at)
