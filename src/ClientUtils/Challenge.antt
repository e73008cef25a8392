-- ===== src/ClientUtils/Challenge.antt =====
-- The client's side of authentication, `authenticate_client` of clientUtils.c.
use csse2310_assignment.Base.{
  ℕ, zero, suc, ◌<◌, ◌≡◌, ◌≢◌, ◌⊎◌, inl, inr, refl, sym, subst, ◌∙◌, Bool, true, false, not, ◌||◌,
  Option, none, some, ◌++◌, arith, get_elem?, Option-cases, if◌then◌else◌, Bool-cases, length,
}
use csse2310_assignment.Libc.{Text, codes}
use csse2310_assignment.Libc.Compare.{text_eq, text_eq_iff}
use csse2310_assignment.Commands.{client, get_cmd_no, cmd_to_lines}
use csse2310_assignment.Commands.Accepts.Words.{get_cmd_no-word}
use csse2310_assignment.LineList.{LineList}
use csse2310_assignment.ClientData.{
  ExitCode, ClientData, Run, ok, fault, send_to_server, read_server_line, disable_client, disabled,
  comms, failed_auth,
}
use csse2310_assignment.ClientData.Reading.{HasRead, read_server_line-HasRead}
use csse2310_assignment.ClientUtils.{
  number_of, is_number, shown, check_reply, answer_challenge, authenticate_walk,
  authenticate_client,
}

-- The answer to the challenge.
abbrev pub answer : ClientData → Text
answer d = (codes "AUTH:" ++ shown d.password) ++ codes "\n"

-- The client goes on as it was.
abbrev Same : ClientData → ClientData → Type 0
Same d d' = (d'.is_active ≡ d.is_active) × (d'.exit_code ≡ d.exit_code)

-- The client is disabled, with this exit code unless one was set before.
abbrev Disabled : ExitCode → ClientData → ClientData → Type 0
Disabled c d d' = (d'.is_active ≡ false) × (d'.exit_code ≡ (disabled c d).exit_code)

-- The client once it sent the password.
abbrev answered : ClientData → ClientData
answered d = record d { write_to = d.write_to ++ answer d }

-- The line is the challenge: it parses as a command with the word AUTH.
abbrev pub IsChallenge : Option Text → Type 0
IsChallenge line =
    (l : LineList) × (cmd_to_lines line client ≡ some l)
    × (get_elem? l.lines 0 ≡ some (codes "AUTH"))

-- What the client has become once it read lines that are no challenge.
pub data Waits (last : ClientData) : ClientData → Type 0 where
  here : Waits last last
  skip :
      {d : ClientData} (line : Option Text) (next : ClientData)
      → read_server_line false d ≡ ok (line, false) next
      → ¬ IsChallenge line
      → Waits last next
      → Waits last d

-- The same, and then the challenge.
pub record Asked (d asked : ClientData) : Type 0 where
  pub waiting : ClientData
  pub waits : Waits waiting d
  pub line : Option Text
  pub reads : read_server_line false waiting ≡ ok (line, false) asked
  pub challenge : IsChallenge line

-- How authentication of `d` ends, and which of its reads decides it.
pub data Answers (d : ClientData) (r : Run (Unit {0})) : Type 0 where
  closed :
      (line : Option Text) (before read after : ClientData)
      → Waits before d
      → read_server_line false before ≡ ok (line, true) read
      → r ≡ ok tt after
      → Disabled comms d after
      → after.write_to ≡ d.write_to
      → Answers d r
  admitted :
      (asked after : ClientData)
      → Asked d asked
      → read_server_line false (answered asked) ≡ ok (some (codes "OK:"), false) after
      → r ≡ ok tt after
      → Same d after
      → after.write_to ≡ d.write_to ++ answer d
      → Answers d r
  refused :
      (reply : Text) (at_end : Bool) (asked read after : ClientData)
      → Asked d asked
      → read_server_line false (answered asked) ≡ ok (some reply, at_end) read
      → (reply ≢ codes "OK:") ⊎ (at_end ≡ true)
      → r ≡ ok tt after
      → Disabled failed_auth d after
      → after.write_to ≡ d.write_to ++ answer d
      → Answers d r
  crashed :
      (at_end : Bool) (asked read : ClientData)
      → Asked d asked
      → read_server_line false (answered asked) ≡ ok (none, at_end) read
      → r ≡ fault
      → Answers d r

answer-step :
    (d d1 : ClientData) (reply : Option Text) (at_end : Bool)
    → read_server_line false (answered d) ≡ ok (reply, at_end) d1
    → answer_challenge d ≡ check_reply reply at_end d1
unfolding answer_challenge send_to_server
answer-step d d1 reply at_end r = rw (answer_challenge, r) refl

-- The test of the code for the challenge.
abbrev asks : Option Text → Bool
asks line = is_number 2 (number_of (cmd_to_lines line client))

auth_number : get_cmd_no (some (codes "AUTH")) client ≡ some 2
unfolding get_cmd_no text_eq
auth_number = refl

number-word : (word : Option Text) → get_cmd_no word client ≡ some 2 → word ≡ some (codes "AUTH")
unfolding get_cmd_no
number-word none h = cc
number-word (some word) h = sym (get_cmd_no-word client word 2 h)

is_number-some : (n : ℕ) (o : Option ℕ) → is_number n o ≡ true → o ≡ some n
is_number-some n none h = cc
is_number-some n (some m) h = ground (arith, h)

asks-IsChallenge : (line : Option Text) → asks line ≡ true → IsChallenge line
asks-IsChallenge line h = elim (Option-cases (cmd_to_lines line client)) [
  | inl e ↦ absurd (cc (rw e at h))
  | inr (l, e) ↦
      (l, e, number-word (get_elem? l.lines 0) (is_number-some 2 (number_of (some l)) (rw e at h)))
]

IsChallenge-asks : (line : Option Text) → IsChallenge line → asks line ≡ true
IsChallenge-asks line (l, e, word) = rw (e, word, auth_number) refl

no_challenge : (line : Option Text) → asks line ≡ false → ¬ IsChallenge line
no_challenge line h is = cc (h, IsChallenge-asks line is)

not_ok :
    (reply : Text) (at_end : Bool)
    → (not (text_eq reply (codes "OK:")) || at_end) ≡ true
    → (reply ≢ codes "OK:") ⊎ (at_end ≡ true)
not_ok reply at_end bad = elim (Bool-cases at_end) [
  | inl over ↦ inr over
  | inr more ↦ inl (λ is. ground (arith, bad, more, (text_eq_iff reply (codes "OK:")).1 is))
]

-- The challenge was the next line of `d`.
module _ (d : ClientData) (h0 : HasRead false d (read_server_line false d))
    (asked : Asked d h0.after) (open_lock : h0.after.locked ≡ false) where
  reply-Answers :
      (reply : Option Text) (at_end : Bool) (r : Run (Unit {0}))
      → (h : HasRead false (answered h0.after) (read_server_line false (answered h0.after)))
      → h.line ≡ reply
      → h.at_end ≡ at_end
      → r ≡ check_reply reply at_end h.after
      → Answers d r
  unfolding check_reply disable_client
  reply-Answers none at_end r h l e result =
      crashed at_end h0.after h.after asked (cc (h.returns, l, e)) result
  reply-Answers (some reply) at_end r h l e result =
      let read : read_server_line false (answered h0.after) ≡ ok (some reply, at_end) h.after =
        cc (h.returns, l, e) in
      let sent : h.after.write_to ≡ d.write_to ++ answer d =
        h.write_to ∙ rw (h0.write_to, h0.password) refl in
      elim (Bool-cases (not (text_eq reply (codes "OK:")) || at_end)) [
        | inl bad ↦
            refused reply at_end h0.after h.after (disabled failed_auth h.after) asked read
              (not_ok reply at_end bad) (result ∙ rw (bad, h.locked, open_lock) refl)
              (refl, rw (h.exit_code, h0.exit_code) refl) sent
        | inr good ↦
            let same = (text_eq_iff reply (codes "OK:")).0 (ground arith) in
            let more : at_end ≡ false = ground arith in
            admitted h0.after h.after asked (cc (read, same, more)) (result ∙ rw good refl)
              (h.is_active ∙ h0.is_active, h.exit_code ∙ h0.exit_code) sent
      ]

  answer_challenge-Answers : Answers d (answer_challenge h0.after)
  answer_challenge-Answers =
      let h = read_server_line-HasRead false (answered h0.after) in
      reply-Answers h.line h.at_end (answer_challenge h0.after) h refl refl
        (answer-step h0.after h.after h.line h.at_end h.returns)

-- A line in front of the challenge changes nothing that the verdict is about.
module _ {d : ClientData} (h : HasRead false d (read_server_line false d)) (more : h.at_end ≡ false)
    (other : ¬ IsChallenge h.line) where
  Waits-read : {last : ClientData} → Waits last h.after → Waits last d
  Waits-read w = skip h.line h.after (h.returns ∙ rw more refl) other w

  Asked-read : {asked : ClientData} → Asked h.after asked → Asked d asked
  Asked-read a = record {
    waiting = a.waiting;
    waits = Waits-read a.waits;
    line = a.line;
    reads = a.reads;
    challenge = a.challenge;
  }

  Answers-read : (r : Run (Unit {0})) → Answers h.after r → Answers d r
  Answers-read r (closed line before read after w e result (off, code) sent) =
      closed line before read after (Waits-read w) e result (off, code ∙ rw h.exit_code refl)
        (sent ∙ h.write_to)
  Answers-read r (admitted asked after a e result (on, code) sent) =
      admitted asked after (Asked-read a) e result (on ∙ h.is_active, code ∙ h.exit_code)
        (sent ∙ rw (h.write_to, h.password) refl)
  Answers-read r (refused reply at_end asked read after a e bad result (off, code) sent) =
      refused reply at_end asked read after (Asked-read a) e bad result
        (off, code ∙ rw h.exit_code refl) (sent ∙ rw (h.write_to, h.password) refl)
  Answers-read r (crashed at_end asked read a e result) =
      crashed at_end asked read (Asked-read a) e result

authenticate_walk-step :
    (k : ℕ) (d d1 : ClientData) (line : Option Text) (at_end : Bool)
    → read_server_line false d ≡ ok (line, at_end) d1
    → authenticate_walk (suc k) d ≡ (
        if at_end
        then disable_client comms d1
        else if is_number 2 (number_of (cmd_to_lines line client))
        then answer_challenge d1
        else authenticate_walk k d1)
unfolding authenticate_walk
authenticate_walk-step k d d1 line at_end r = ground (arith, r)

authenticate_walk-Answers :
    (k : ℕ) (d : ClientData)
    → d.locked ≡ false
    → length d.read_from < k
    → Answers d (authenticate_walk k d)
unfolding disable_client
authenticate_walk-Answers zero d open_lock enough = absurd (omega arith)
authenticate_walk-Answers (suc k) d open_lock enough =
    let h = read_server_line-HasRead false d in
    let step = authenticate_walk-step k d h.after h.line h.at_end h.returns in
    let still = h.locked ∙ open_lock in
    elim (Bool-cases h.at_end) [
      | inl over ↦
          closed h.line d h.after (disabled comms h.after) here (h.returns ∙ rw over refl)
            (step ∙ rw (over, disable_client, still) refl) (refl, rw h.exit_code refl) h.write_to
      | inr more ↦ elim (Bool-cases (asks h.line)) [
        | inl auth ↦
            let asked : Asked d h.after = record {
              waiting = d;
              waits = here;
              line = h.line;
              reads = h.returns ∙ rw more refl;
              challenge = asks-IsChallenge h.line auth;
            } in
            subst (Answers d) (sym (step ∙ rw (more, auth) refl))
              (answer_challenge-Answers d h asked still)
        | inr other ↦
            let less : length h.after.read_from < length d.read_from = elim h.progress [
              | inl e ↦ absurd (cc (e, more))
              | inr less ↦ less
            ] in
            subst (Answers d) (sym (step ∙ rw (more, other) refl)) (
              Answers-read h more (no_challenge h.line other) (authenticate_walk k h.after)
                (authenticate_walk-Answers k h.after still (omega (arith, less, enough))))
      ]
    ]

-- Authentication on the client's side always returns or has a fault, while `end_client` does not hold the
-- lock, and ends in one of four ways. The client reads lines until one parses as a command with the word
-- AUTH. If a read meets the end before, the client is disabled with a communications error and has sent
-- nothing. Otherwise it has sent AUTH: and its password once, and the read behind decides: it goes on as it was
-- if the line is OK: and not the end, it is disabled with an authentication error if the line is another one
-- or the end, and it has a fault if the read is one that meets a socket error. An exit code that was set
-- before is kept.
pub authenticate_client-Answers :
    (d : ClientData) → d.locked ≡ false → Answers d (authenticate_client d)
unfolding authenticate_client
authenticate_client-Answers d open_lock =
    authenticate_walk-Answers (suc (length d.read_from)) d open_lock (omega arith)
