-- ===== src/Commands/Accepts.antt =====
-- The language of the commands with at most one argument, and what `cmd_to_lines` does with them.
pub mod Words
pub mod Sound
use csse2310_assignment.Base.{
  ℕ, zero, suc, ◌+◌, ◌-◌, ◌≤◌, ◌<◌, ◌≡◌, ◌≢◌, ◌⊎◌, inl, inr, refl, sym, ap, ◌∙◌, Bool, true, false,
  ◌||◌, ◌&&◌, not, Option, none, some, List, [], ◌∷◌, ◌++◌, arith, ltb, ◌==◌, if◌then◌else◌,
  Bool-cases, Option-cases, length, get_elem?, get_or, is_nil,
}
use csse2310_assignment.Libc.{Text, contains, Lacks}
use csse2310_assignment.Libc.Token.{
  strtok_r, strtok_r-rest, strtok_r-rest_nil, strtok_r-split, split_token-append, split_token-whole,
  split_token,
}
use csse2310_assignment.LineList.{
  LineList, init_line_list, add_to_lines, pattern_match_string, last_byte,
}
use csse2310_assignment.LineList.Match.{pattern_match_string-byte}
use csse2310_assignment.LineList.Reading.{contains-last_byte}
use csse2310_assignment.Commands.{
  CmdSentTo, max_length, min_length, get_cmd_no, colon, args_loop, add_rest, args_of, all_args,
  get_cmd_args, ends_in_colon, takes_colons, has_extra, check_args, cmd_to_lines,
}
use Words.{last_byte-append, word-Lacks, word-cons}

abbrev pub one : Text → LineList
one w = record { lines = w ∷ []; num_lines = 1 }

abbrev pub two : Text → Text → LineList
two w arg = record { lines = w ∷ arg ∷ []; num_lines = 2 }

-- A line that is a command with no argument, or with one.
pub data Accepts (to : CmdSentTo) (cmd : Text) (l : LineList) : Type 0 where
  bare :
      (w : Text) (n : ℕ)
      → get_cmd_no (some w) to ≡ some n
      → min_length to n ≡ 1
      → (cmd ≡ w ++ colon) ⊎ ((cmd ≡ w) × (max_length to n ≡ 1))
      → l ≡ one w
      → Accepts to cmd l
  argument :
      (w arg : Text) (n : ℕ)
      → get_cmd_no (some w) to ≡ some n
      → max_length to n ≡ 2
      → cmd ≡ w ++ (b':' ∷ arg)
      → arg ≢ []
      → (takes_colons to n ≡ true) ⊎ Lacks b':' arg
      → l ≡ two w arg
      → Accepts to cmd l

abbrev with_rest : Text → Text → LineList
with_rest w [] = one w
with_rest w (c ∷ r) = two w (c ∷ r)

add_rest-with_rest : (w rest : Text) → add_rest (one w) rest ≡ with_rest w rest
unfolding add_rest add_to_lines
add_rest-with_rest w [] = rw (strtok_r-rest_nil, add_rest)
add_rest-with_rest w (c ∷ r) = rw (strtok_r-rest c r, add_rest)

args_loop-one :
    (left : ℕ) (w rest : Text)
    → left ≤ 1
    → args_loop left init_line_list (some w, rest) ≡ (one w, rest)
unfolding args_loop add_to_lines
args_loop-one zero w rest h = refl
args_loop-one (suc zero) w rest h = refl
args_loop-one (suc (suc left)) w rest h = absurd (omega arith)

args_of-with_rest :
    (to : CmdSentTo) (n : ℕ) (cmd w rest : Text)
    → max_length to n ≤ 2
    → args_of cmd to (some n) (some w, rest) ≡ (
      with_rest w rest,
      ltb (with_rest w rest).num_lines (max_length to n) && not (ends_in_colon cmd),
    )
unfolding args_of all_args
args_of-with_rest to n cmd w rest h =
    rw (args_loop-one (max_length to n - 1) w rest (omega arith), add_rest-with_rest w rest)

get_cmd_args-with_rest :
    (to : CmdSentTo) (n : ℕ) (cmd w rest : Text)
    → strtok_r colon cmd ≡ (some w, rest)
    → get_cmd_no (some w) to ≡ some n
    → max_length to n ≤ 2
    → get_cmd_args cmd to ≡ (
      with_rest w rest,
      ltb (with_rest w rest).num_lines (max_length to n) && not (ends_in_colon cmd),
    )
unfolding get_cmd_args ends_in_colon
get_cmd_args-with_rest to n cmd w rest t e h =
    rw (get_cmd_args, t, e) (args_of-with_rest to n cmd w rest h)

-- The outcome of the checks on the lines of a token and what stands behind it.
abbrev pub outcome : CmdSentTo → ℕ → Text → Text → Bool → Option LineList
outcome to n w [] closed =
    if (ltb 1 (max_length to n) && not closed)
      || (not (takes_colons to n) && ltb (max_length to n) 1)
      || ltb 1 (min_length to n)
    then none
    else some (one w)
outcome to n w (c ∷ r) closed =
    if (ltb 2 (max_length to n) && not closed)
      || (not (takes_colons to n) && (contains b':' (c ∷ r) || ltb (max_length to n) 2))
      || ltb 2 (min_length to n)
    then none
    else some (two w (c ∷ r))

check_args-outcome :
    (to : CmdSentTo) (n : ℕ) (w rest : Text) (closed : Bool)
    → get_cmd_no (some w) to ≡ some n
    → check_args
        (with_rest w rest, ltb (with_rest w rest).num_lines (max_length to n) && not closed)
        to
      ≡ outcome to n w rest closed
unfolding check_args
check_args-outcome to n w [] closed e = rw (e) (rw (pattern_match_string-byte w, word-Lacks to w e))
check_args-outcome to n w (d ∷ r) closed e = rw (e) (rw (pattern_match_string-byte (d ∷ r)))

pub cmd_to_lines-outcome :
    (to : CmdSentTo) (n : ℕ) (c : ℕ) (s w rest : Text)
    → strtok_r colon (c ∷ s) ≡ (some w, rest)
    → get_cmd_no (some w) to ≡ some n
    → max_length to n ≤ 2
    → cmd_to_lines (some (c ∷ s)) to ≡ outcome to n w rest (ends_in_colon (c ∷ s))
unfolding cmd_to_lines
cmd_to_lines-outcome to n c s w rest t e h =
    rw (get_cmd_args-with_rest to n (c ∷ s) w rest t e h)
      (check_args-outcome to n w rest (ends_in_colon (c ∷ s)) e)

-- A word, alone or with a colon behind it and more text, is the first token.
pub strtok_r-word :
    (to : CmdSentTo) (w arg : Text) {n : ℕ}
    → get_cmd_no (some w) to ≡ some n
    → strtok_r colon (w ++ (b':' ∷ arg)) ≡ (some w, arg)
strtok_r-word to [] arg e = absurd (unfold get_cmd_no in cc)
strtok_r-word to (c ∷ s) arg e =
    let lacks = word-Lacks to (c ∷ s) e in
    rw (
      strtok_r-split b':' c (s ++ (b':' ∷ arg)) (ground arith),
      split_token-append b':' (c ∷ s) arg lacks,
    )

pub strtok_r-alone :
    (to : CmdSentTo) (w : Text) {n : ℕ}
    → get_cmd_no (some w) to ≡ some n
    → strtok_r colon w ≡ (some w, [])
strtok_r-alone to [] e = absurd (unfold get_cmd_no in cc)
strtok_r-alone to (c ∷ s) e =
    let lacks = word-Lacks to (c ∷ s) e in
    rw (strtok_r-split b':' c s (ground arith), split_token-whole b':' (c ∷ s) lacks)

pub ends_in_colon-append : (s : Text) → ends_in_colon (s ++ colon) ≡ true
unfolding ends_in_colon
ends_in_colon-append s = rw (last_byte-append s b':', ends_in_colon)

pub ends_in_colon-Lacks : (s : Text) → Lacks b':' s → ends_in_colon s ≡ false
unfolding ends_in_colon
ends_in_colon-Lacks s h = ground (arith, contains-last_byte b':' s)
