-- ===== src/Commands/Accepts/Sound.antt =====
-- `cmd_to_lines` decides the language of the requests to the server.
use csse2310_assignment.Base.{
  ℕ, zero, suc, ◌≤◌, ◌<◌, ◌≡◌, ◌≢◌, ◌⊎◌, inl, inr, ◌↔◌, refl, sym, ◌∙◌, true, false, none, some, [],
  ◌∷◌, ◌++◌, arith, ◌==◌, Option-cases,
}
use csse2310_assignment.Libc.{Text, contains, Lacks}
use csse2310_assignment.Libc.Token.{
  strtok_r, skip_delimiters, skip_delimiters-head, split_token, SplitsAt, split_token-SplitsAt,
  strtok_r-split,
}
use csse2310_assignment.LineList.{LineList}
use csse2310_assignment.Commands.Accepts.Words.{get_cmd_no-lt}
use csse2310_assignment.Commands.Accepts.{
  Accepts, bare, argument, one, two, outcome, cmd_to_lines-outcome, strtok_r-word, strtok_r-alone,
  ends_in_colon-append, ends_in_colon-Lacks,
}
use csse2310_assignment.Commands.Colons.{cmd_to_lines-skip}
use csse2310_assignment.Commands.{
  CmdSentTo, client, server, max_length, min_length, get_cmd_no, colon, args_of, get_cmd_args,
  ends_in_colon, takes_colons, check_args, cmd_to_lines,
}

max_length-server : (n : ℕ) → max_length server n ≤ 2
max_length-server zero = omega arith
max_length-server (suc zero) = omega arith
max_length-server (suc (suc zero)) = omega arith
max_length-server (suc (suc (suc zero))) = omega arith
max_length-server (suc (suc (suc (suc zero)))) = omega arith
max_length-server (suc (suc (suc (suc (suc zero))))) = omega arith
max_length-server (suc (suc (suc (suc (suc (suc n)))))) = omega arith

min_max-server : (n : ℕ) → min_length server n ≤ max_length server n
min_max-server zero = omega arith
min_max-server (suc zero) = omega arith
min_max-server (suc (suc zero)) = omega arith
min_max-server (suc (suc (suc zero))) = omega arith
min_max-server (suc (suc (suc (suc zero)))) = omega arith
min_max-server (suc (suc (suc (suc (suc zero))))) = omega arith
min_max-server (suc (suc (suc (suc (suc (suc n)))))) = omega arith

min_max-client : (n : ℕ) → min_length client n ≤ max_length client n
min_max-client zero = omega arith
min_max-client (suc zero) = omega arith
min_max-client (suc (suc zero)) = omega arith
min_max-client (suc (suc (suc zero))) = omega arith
min_max-client (suc (suc (suc (suc zero)))) = omega arith
min_max-client (suc (suc (suc (suc (suc zero))))) = omega arith
min_max-client (suc (suc (suc (suc (suc (suc zero)))))) = omega arith
min_max-client (suc (suc (suc (suc (suc (suc (suc zero))))))) = omega arith
min_max-client (suc (suc (suc (suc (suc (suc (suc (suc zero)))))))) = omega arith
min_max-client (suc (suc (suc (suc (suc (suc (suc (suc (suc n))))))))) = omega arith

min_max : (to : CmdSentTo) (n : ℕ) → min_length to n ≤ max_length to n
min_max client n = min_max-client n
min_max server n = min_max-server n

-- A command with no argument is parsed: its word, and a colon unless it can have no argument.
pub cmd_to_lines-one :
    (to : CmdSentTo) (n : ℕ) (w cmd : Text)
    → max_length to n ≤ 2
    → get_cmd_no (some w) to ≡ some n
    → min_length to n ≡ 1
    → (cmd ≡ w ++ colon) ⊎ ((cmd ≡ w) × (max_length to n ≡ 1))
    → cmd_to_lines (some cmd) to ≡ some (one w)
cmd_to_lines-one to n [] cmd small e least form = absurd (unfold get_cmd_no in cc)
cmd_to_lines-one to n (c ∷ s) cmd small e least (inl closed) =
    rw
      (
        closed,
        cmd_to_lines-outcome to n c (s ++ colon) (c ∷ s) [] (strtok_r-word to (c ∷ s) [] e) e small,
        ends_in_colon-append (c ∷ s),
      )
      (ground (arith, min_max to n))
cmd_to_lines-one to n (c ∷ s) cmd small e least (inr (alone, single)) =
    rw (alone, cmd_to_lines-outcome to n c s (c ∷ s) [] (strtok_r-alone to (c ∷ s) e) e small)
      (ground arith)

pub cmd_to_lines-two :
    (to : CmdSentTo) (n : ℕ) (w arg : Text)
    → get_cmd_no (some w) to ≡ some n
    → max_length to n ≡ 2
    → min_length to n ≤ 2
    → arg ≢ []
    → (takes_colons to n ≡ true) ⊎ Lacks b':' arg
    → cmd_to_lines (some (w ++ (b':' ∷ arg))) to ≡ some (two w arg)
cmd_to_lines-two to n [] arg e two_args least ne plain = absurd (unfold get_cmd_no in cc)
cmd_to_lines-two to n (c ∷ s) [] e two_args least ne plain = absurd (ne refl)
cmd_to_lines-two to n (c ∷ s) (d ∷ r) e two_args least ne plain =
    rw
      (cmd_to_lines-outcome to n c (s ++ (b':' ∷ d ∷ r)) (c ∷ s) (d ∷ r)
        (strtok_r-word to (c ∷ s) (d ∷ r) e) e (omega arith))
      (ground arith)

min_pos-server : (n : ℕ) → n < 6 → 1 ≤ min_length server n
min_pos-server zero h = omega arith
min_pos-server (suc zero) h = omega arith
min_pos-server (suc (suc zero)) h = omega arith
min_pos-server (suc (suc (suc zero))) h = omega arith
min_pos-server (suc (suc (suc (suc zero)))) h = omega arith
min_pos-server (suc (suc (suc (suc (suc zero))))) h = omega arith
min_pos-server (suc (suc (suc (suc (suc (suc n)))))) h = absurd (omega arith)

-- What an outcome says of the text.
outcome-Accepts :
    (n : ℕ) (cmd w rest : Text) (l : LineList)
    → get_cmd_no (some w) server ≡ some n
    → SplitsAt b':' cmd w rest
    → outcome server n w rest (ends_in_colon cmd) ≡ some l
    → Accepts server cmd l
outcome-Accepts n cmd w [] l e (lacks, inl (whole, nothing)) h =
    let open_end : ends_in_colon cmd ≡ false = rw whole (ends_in_colon-Lacks w lacks) in
    bare w n e (ground (arith, min_pos-server n (get_cmd_no-lt server w n e)))
      (inr (whole, ground (arith, max_length-server n))) (ground arith)
outcome-Accepts n cmd w [] l e (lacks, inr split) h =
    bare w n e (ground (arith, min_pos-server n (get_cmd_no-lt server w n e))) (inl split)
      (ground arith)
outcome-Accepts n cmd w (d ∷ r) l e (lacks, inl (whole, nothing)) h = cc
outcome-Accepts n cmd w (d ∷ r) l e (lacks, inr split) h =
    argument w (d ∷ r) n e (ground (arith, max_length-server n)) split (cc) (ground arith)
      (ground arith)

-- A line whose first token is no command word is refused.
pub cmd_to_lines-unknown :
    (to : CmdSentTo) (c : ℕ) (s : Text)
    → get_cmd_no (strtok_r colon (c ∷ s)).0 to ≡ none
    → cmd_to_lines (some (c ∷ s)) to ≡ none
unfolding cmd_to_lines get_cmd_args args_of check_args
cmd_to_lines-unknown to c s e = rw e

head-Accepts :
    (c : ℕ) (s : Text) (l : LineList)
    → (c == b':') ≡ false
    → cmd_to_lines (some (c ∷ s)) server ≡ some l
    → Accepts server (c ∷ s) l
head-Accepts c s l other h =
    let t = (split_token colon (c ∷ s)).0 in
    let r = (split_token colon (c ∷ s)).1 in
    let tokens = strtok_r-split b':' c s other in
    elim (Option-cases (get_cmd_no (some t) server)) [
      | inl e ↦ absurd (cc (cmd_to_lines-unknown server c s (rw tokens e)))
      | inr (n, e) ↦
          outcome-Accepts n (c ∷ s) t r l e (split_token-SplitsAt b':' (c ∷ s))
            (rw (cmd_to_lines-outcome server n c s t r tokens e (max_length-server n)) at h)
    ]

skip-Accepts :
    (s : Text) (l : LineList)
    → (s ≡ []) ⊎ ((c : ℕ) × (t : Text) × (s ≡ c ∷ t) × (contains c colon ≡ false))
    → cmd_to_lines (some s) server ≡ some l
    → Accepts server s l
skip-Accepts s l (inl none_left) h = absurd (unfold cmd_to_lines in (cc (rw none_left at h)))
skip-Accepts s l (inr (c, t, is, other)) h = rw is (head-Accepts c t l (ground arith) (rw is at h))

Accepts-cmd_to_lines :
    (s : Text) (l : LineList) → Accepts server s l → cmd_to_lines (some s) server ≡ some l
Accepts-cmd_to_lines s l (bare w n e least form is) =
    rw is (cmd_to_lines-one server n w s (max_length-server n) e least form)
Accepts-cmd_to_lines s l (argument w arg n e most form ne plain is) =
    rw (is, form)
      (cmd_to_lines-two server n w arg e most (omega (arith, min_max server n)) ne plain)

-- `cmd_to_lines` accepts a line for the server exactly if, behind any colons in front, it is a
-- command word and a colon, with an argument that is not empty where the word takes one and that
-- has no colon but in SAY; a word that takes no argument may stand without its colon, and KICK
-- needs its argument. The parsed lines are the word and the argument.
pub cmd_to_lines_iff :
    (cmd : Text) (l : LineList)
    → (cmd_to_lines (some cmd) server ≡ some l) ↔ Accepts server (skip_delimiters colon cmd) l
cmd_to_lines_iff cmd l = (
  λ h.
      skip-Accepts (skip_delimiters colon cmd) l (skip_delimiters-head colon cmd)
        (cmd_to_lines-skip cmd server ∙ h),
  λ a. sym (cmd_to_lines-skip cmd server) ∙ Accepts-cmd_to_lines (skip_delimiters colon cmd) l a,
)
