-- ===== src/Commands/Client.antt =====
-- The MSG command to a client, which has up to two arguments.
use csse2310_assignment.Base.{ℕ, ◌≡◌, ◌≢◌, refl, none, some, [], ◌∷◌, ◌++◌, arith}
use csse2310_assignment.Libc.{Text, codes, Lacks}
use csse2310_assignment.Libc.Compare.{text_eq}
use csse2310_assignment.Libc.Token.{
  strtok_r, strtok_r-rest, strtok_r-rest_nil, strtok_r-split, split_token-append, split_token-whole,
}
use csse2310_assignment.LineList.{LineList, init_line_list, add_to_lines}
use csse2310_assignment.Commands.Accepts.{two, ends_in_colon-Lacks, ends_in_colon-append}
use csse2310_assignment.Commands.{
  client, get_cmd_no, colon, args_loop, add_rest, all_args, args_of, ends_in_colon, get_cmd_args,
  check_args, cmd_to_lines,
}

abbrev pub msg : Text → Text
msg rest = codes "MSG:" ++ rest

abbrev pub three : Text → Text → LineList
three name body = record { lines = codes "MSG" ∷ name ∷ body ∷ []; num_lines = 3 }

get_cmd_args-msg :
    (rest : Text)
    → get_cmd_args (msg rest) client ≡ args_of (msg rest) client (some 6) (some (codes "MSG"), rest)
unfolding get_cmd_args get_cmd_no strtok_r text_eq
get_cmd_args-msg rest = refl

strtok_r-name :
    (c : ℕ) (s body : Text)
    → Lacks b':' (c ∷ s)
    → strtok_r colon (c ∷ (s ++ (b':' ∷ body))) ≡ (some (c ∷ s), body)
strtok_r-name c s body lacks = rw (
  strtok_r-split b':' c (s ++ (b':' ∷ body)) (ground arith),
  split_token-append b':' (c ∷ s) body lacks,
)

args_loop-two :
    (w name : Text) (rest body : Text)
    → strtok_r colon rest ≡ (some name, body)
    → args_loop 2 init_line_list (some w, rest) ≡ (two w name, body)
unfolding args_loop add_to_lines
args_loop-two w name rest body e = rw (args_loop, e)

add_rest-three :
    (name : Text) (d : ℕ) (r : Text)
    → add_rest (two (codes "MSG") name) (d ∷ r) ≡ three name (d ∷ r)
unfolding add_rest add_to_lines
add_rest-three name d r = rw (strtok_r-rest d r, add_rest)

add_rest-nothing : (l : LineList) → add_rest l [] ≡ l
unfolding add_rest
add_rest-nothing l = rw (strtok_r-rest_nil, add_rest)

-- MSG with a name and a message that is not empty gives both, whatever the message holds.
pub cmd_to_lines-msg :
    (name body : Text)
    → name ≢ []
    → Lacks b':' name
    → body ≢ []
    → cmd_to_lines (some (msg (name ++ (b':' ∷ body)))) client ≡ some (three name body)
unfolding cmd_to_lines args_of all_args
cmd_to_lines-msg [] body some_name lacks some_body = absurd (some_name refl)
cmd_to_lines-msg (c ∷ s) [] some_name lacks some_body = absurd (some_body refl)
cmd_to_lines-msg (c ∷ s) (d ∷ r) some_name lacks some_body =
    rw
      (
        get_cmd_args-msg (c ∷ (s ++ (b':' ∷ d ∷ r))),
        args_loop-two (codes "MSG") (c ∷ s) _ (d ∷ r) (strtok_r-name c s (d ∷ r) lacks),
        add_rest-three (c ∷ s) d r,
      )
      (unfold check_args get_cmd_no text_eq in refl)

ends_in_colon-msg : (c : ℕ) (s : Text) → ends_in_colon (msg (c ∷ s)) ≡ ends_in_colon (c ∷ s)
unfolding ends_in_colon
ends_in_colon-msg c s = refl

-- MSG with a name and nothing behind it is refused: it wants a colon behind the name.
pub cmd_to_lines-msg_name :
    (name : Text) → Lacks b':' name → cmd_to_lines (some (msg name)) client ≡ none
unfolding cmd_to_lines args_of all_args
cmd_to_lines-msg_name [] lacks =
    unfold check_args get_cmd_args get_cmd_no text_eq strtok_r args_loop add_rest add_to_lines in
    refl
cmd_to_lines-msg_name (c ∷ s) lacks =
    rw
      (
        get_cmd_args-msg (c ∷ s),
        args_loop-two (codes "MSG") (c ∷ s) (c ∷ s) []
            (rw (strtok_r-split b':' c s (ground arith), split_token-whole b':' (c ∷ s) lacks)),
        add_rest-nothing,
        ends_in_colon-msg c s,
        ends_in_colon-Lacks (c ∷ s) lacks,
      )
      (unfold check_args get_cmd_no text_eq in refl)

-- With that colon, and nothing behind it, it is accepted with two lines.
pub cmd_to_lines-msg-colon :
    (name : Text)
    → name ≢ []
    → Lacks b':' name
    → cmd_to_lines (some (msg (name ++ colon))) client ≡ some (two (codes "MSG") name)
unfolding cmd_to_lines args_of all_args
cmd_to_lines-msg-colon [] some_name lacks = absurd (some_name refl)
cmd_to_lines-msg-colon (c ∷ s) some_name lacks =
    rw
      (
        get_cmd_args-msg (c ∷ (s ++ colon)),
        args_loop-two (codes "MSG") (c ∷ s) _ [] (strtok_r-name c s [] lacks),
        add_rest-nothing,
        ends_in_colon-msg c (s ++ colon),
        ends_in_colon-append (c ∷ s),
      )
      (unfold check_args get_cmd_no text_eq in refl)
