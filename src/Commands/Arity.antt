-- ===== src/Commands/Arity.antt =====
-- What `cmd_to_lines` returns has the form that the tables ask for.
use csse2310_assignment.Base.{
  ℕ, zero, suc, ◌+◌, ◌-◌, ◌≤◌, ◌<◌, ◌≡◌, inl, inr, refl, Bool, true, false, Option, none, some,
  List, [], ◌∷◌, ◌++◌, arith, Option-cases, length, length-append, get_elem?, get_or,
}
use csse2310_assignment.Libc.{Text, Lacks}
use csse2310_assignment.Libc.Token.{strtok_r}
use csse2310_assignment.LineList.{LineList, init_line_list, add_to_lines}
use csse2310_assignment.LineList.Match.{pattern_match_string-byte}
use csse2310_assignment.Commands.{
  CmdSentTo, client, server, max_length, min_length, get_cmd_no, colon, args_loop, add_rest,
  args_of, all_args, get_cmd_args, takes_colons, check_args, cmd_to_lines,
}

-- A parsed command: its first line is a word of the table, the number of its lines lies between
-- the two bounds of that word, and only SAY to the server and MSG to a client have a colon in the
-- last line.
pub record IsCommand (to : CmdSentTo) (l : LineList) : Type 0 where
  pub counted : l.num_lines ≡ length l.lines
  pub number : ℕ
  pub is_number : get_cmd_no (get_elem? l.lines 0) to ≡ some number
  pub enough : min_length to number ≤ l.num_lines
  pub few : l.num_lines ≤ max_length to number
  pub plain : takes_colons to number ≡ false → Lacks b':' (get_or l.lines (l.num_lines - 1) [])

abbrev IsCounted : LineList → Type 0
IsCounted l = l.num_lines ≡ length l.lines

args_loop-IsCounted :
    (left : ℕ) (lines : LineList) (first : Option Text × Text)
    → IsCounted lines
    → IsCounted (args_loop left lines first).0
unfolding args_loop add_to_lines
args_loop-IsCounted left lines (none, rest) h = h
args_loop-IsCounted zero lines (some token, rest) h =
    omega (arith, length-append lines.lines (token ∷ []))
args_loop-IsCounted (suc zero) lines (some token, rest) h =
    omega (arith, length-append lines.lines (token ∷ []))
args_loop-IsCounted (suc (suc left)) lines (some token, rest) h =
    args_loop-IsCounted (suc left) (add_to_lines lines token) (strtok_r colon rest)
      (omega (arith, length-append lines.lines (token ∷ [])))

-- The loop adds at most as many lines as there are rounds left.
args_loop-le :
    (left : ℕ) (lines : LineList) (first : Option Text × Text)
    → (args_loop (suc left) lines first).0.num_lines ≤ lines.num_lines + suc left
unfolding args_loop add_to_lines
args_loop-le left lines (none, rest) = omega arith
args_loop-le zero lines (some token, rest) = omega arith
args_loop-le (suc left) lines (some token, rest) =
    omega (arith, args_loop-le left (add_to_lines lines token) (strtok_r colon rest))

add_rest-IsCounted : (l : LineList) (rest : Text) → IsCounted l → IsCounted (add_rest l rest)
unfolding add_rest add_to_lines
add_rest-IsCounted l rest h = elim (Option-cases (strtok_r [] rest).0) [
  | inl e ↦ rw (e, add_rest) h
  | inr (t, e) ↦ rw (e, add_rest) (omega (arith, length-append l.lines (t ∷ [])))
]

add_rest-le : (l : LineList) (rest : Text) → (add_rest l rest).num_lines ≤ suc l.num_lines
unfolding add_rest add_to_lines
add_rest-le l rest = ground arith

abbrev StartsWith : Text → LineList → Type 0
StartsWith w l = get_elem? l.lines 0 ≡ some w

first-append :
    (w : Text) (xs ys : List Text) → get_elem? xs 0 ≡ some w → get_elem? (xs ++ ys) 0 ≡ some w
first-append w [] ys h = cc
first-append w (x ∷ xs) ys h = h

add_to_lines-StartsWith :
    (w : Text) (l : LineList) (line : Text) → StartsWith w l → StartsWith w (add_to_lines l line)
unfolding add_to_lines
add_to_lines-StartsWith w l line h = first-append w l.lines (line ∷ []) h

args_loop-StartsWith :
    (w : Text) (left : ℕ) (lines : LineList) (first : Option Text × Text)
    → StartsWith w lines
    → StartsWith w (args_loop left lines first).0
unfolding args_loop
args_loop-StartsWith w left lines (none, rest) h = h
args_loop-StartsWith w zero lines (some token, rest) h = add_to_lines-StartsWith w lines token h
args_loop-StartsWith w (suc zero) lines (some token, rest) h =
    add_to_lines-StartsWith w lines token h
args_loop-StartsWith w (suc (suc left)) lines (some token, rest) h =
    args_loop-StartsWith w (suc left) (add_to_lines lines token) (strtok_r colon rest)
      (add_to_lines-StartsWith w lines token h)

args_loop-first :
    (left : ℕ) (w rest : Text) → StartsWith w (args_loop left init_line_list (some w, rest)).0
unfolding args_loop add_to_lines
args_loop-first zero w rest = refl
args_loop-first (suc zero) w rest = refl
args_loop-first (suc (suc left)) w rest =
    args_loop-StartsWith w (suc left) (add_to_lines init_line_list w) (strtok_r colon rest) refl

add_rest-StartsWith :
    (w : Text) (l : LineList) (rest : Text) → StartsWith w l → StartsWith w (add_rest l rest)
unfolding add_rest
add_rest-StartsWith w l rest h = elim (Option-cases (strtok_r [] rest).0) [
  | inl e ↦ rw (e, add_rest) h
  | inr (t, e) ↦ rw (e, add_rest) (add_to_lines-StartsWith w l t h)
]

-- What `get_cmd_args` makes of a line whose first token has number `n`.
record IsParse (to : CmdSentTo) (n : ℕ) (l : LineList) : Type 0 where
  same_number : get_cmd_no (get_elem? l.lines 0) to ≡ some n
  counted : IsCounted l
  bounded : 1 < max_length to n → l.num_lines ≤ max_length to n

all_args-le :
    (to : CmdSentTo) (n : ℕ) (first : Option Text × Text)
    → 1 < max_length to n
    → (all_args to n first).num_lines ≤ max_length to n
unfolding all_args
all_args-le to n first h =
    let e : max_length to n - 1 ≡ suc (max_length to n - 2) = omega arith in
    let made = args_loop (max_length to n - 1) init_line_list first in
    let few : made.0.num_lines ≤ max_length to n - 1 =
      rw e (omega (arith, args_loop-le (max_length to n - 2) init_line_list first)) in
    omega (arith, few, add_rest-le made.0 made.1)

all_args-IsParse :
    (to : CmdSentTo) (n : ℕ) (first : Option Text × Text)
    → get_cmd_no first.0 to ≡ some n
    → IsParse to n (all_args to n first)
unfolding all_args get_cmd_no
all_args-IsParse to n (none, rest) h = cc
all_args-IsParse to n (some w, rest) h =
    let made = args_loop (max_length to n - 1) init_line_list (some w, rest) in
    record {
      same_number =
          rw (add_rest-StartsWith w made.0 made.1 (args_loop-first (max_length to n - 1) w rest)) h;
      counted =
          add_rest-IsCounted made.0 made.1
            (args_loop-IsCounted (max_length to n - 1) init_line_list (some w, rest) refl);
      bounded = all_args-le to n (some w, rest);
    }

-- The checks pass only what has the form.
check_args-IsCommand :
    (to : CmdSentTo) (n : ℕ) (parsed : LineList) (invalid : Bool) (l : LineList)
    → IsParse to n parsed
    → (takes_colons to n ≡ true → 1 < max_length to n)
    → check_args (parsed, invalid) to ≡ some l
    → IsCommand to l
unfolding check_args
check_args-IsCommand to n parsed invalid l p wide h =
    let same = rw p.same_number at h in
    let colons = pattern_match_string-byte (get_or parsed.lines (parsed.num_lines - 1) []) in
    let is : l ≡ parsed = ground (arith) in
    rw is (record {
      counted = p.counted;
      number = n;
      is_number = p.same_number;
      enough = ground arith;
      few = ground (arith, p.bounded);
      plain = λ no. ground (arith, colons);
    })

colons-wide : (to : CmdSentTo) (n : ℕ) → takes_colons to n ≡ true → 1 < max_length to n
colons-wide client n h = let e : n ≡ 6 = ground arith in rw e (omega arith)
colons-wide server n h = let e : n ≡ 2 = ground arith in rw e (omega arith)

get_cmd_args-IsCommand :
    (to : CmdSentTo) (cmd : Text) (l : LineList) (first : Option Text × Text) (number : Option ℕ)
    → get_cmd_no first.0 to ≡ number
    → check_args (args_of cmd to number first) to ≡ some l
    → IsCommand to l
unfolding args_of
get_cmd_args-IsCommand to cmd l first none e h = absurd (unfold check_args in cc)
get_cmd_args-IsCommand to cmd l first (some n) e h =
    check_args-IsCommand to n _ _ l (all_args-IsParse to n first e) (colons-wide to n) h

-- Every command that `cmd_to_lines` returns has the form that the tables ask for: its first line
-- is a command word, it has at least as many lines as the minimum of that word and at most as many
-- as its maximum, and its last line has no colon but in SAY to the server and MSG to a client.
pub cmd_to_lines-IsCommand :
    (to : CmdSentTo) (cmd : Option Text) {l : LineList}
    → cmd_to_lines cmd to ≡ some l
    → IsCommand to l
unfolding cmd_to_lines get_cmd_args
cmd_to_lines-IsCommand to none h = cc
cmd_to_lines-IsCommand to (some []) h = cc
cmd_to_lines-IsCommand to (some (c ∷ s)) {l} h =
    get_cmd_args-IsCommand to (c ∷ s) l (strtok_r colon (c ∷ s)) _ refl h
