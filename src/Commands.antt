-- ===== src/Commands.antt =====
-- commands.c and commands.h: the command tables, and parsing a line into a command.
pub mod Arity
pub mod Colons
pub mod Accepts
pub mod Client
pub mod Password
use csse2310_assignment.Base.{
  ℕ, zero, suc, ◌+◌, ◌-◌, ◌≡◌, Bool, true, false, ◌&&◌, ◌||◌, not, Option, none, some, List, [],
  ◌∷◌, ◌++◌, ltb, ◌==◌, if◌then◌else◌, get_or, get_elem?, is_nil,
}
use csse2310_assignment.Libc.{Text, codes}
use csse2310_assignment.Libc.Compare.{text_eq}
use csse2310_assignment.Libc.Token.{strtok_r, skip_delimiters}
use csse2310_assignment.LineList.{
  LineList, init_line_list, add_to_lines, last_byte, pattern_match_string, Stream, file_to_lines,
}

pub data CmdSentTo : Type 0 where
  client server : CmdSentTo

abbrev pub cmd_words : CmdSentTo → List Text
cmd_words client =
    codes "WHO"
    ∷ codes "NAME_TAKEN"
    ∷ codes "AUTH"
    ∷ codes "OK"
    ∷ codes "KICK"
    ∷ codes "LIST"
    ∷ codes "MSG"
    ∷ codes "ENTER"
    ∷ codes "LEAVE"
    ∷ []
cmd_words server =
    codes "NAME" ∷ codes "AUTH" ∷ codes "SAY" ∷ codes "KICK" ∷ codes "LIST" ∷ codes "LEAVE" ∷ []

abbrev pub max_cmd_lengths : CmdSentTo → List ℕ
max_cmd_lengths client = 1 ∷ 1 ∷ 1 ∷ 1 ∷ 1 ∷ 2 ∷ 3 ∷ 2 ∷ 2 ∷ []
max_cmd_lengths server = 2 ∷ 2 ∷ 2 ∷ 2 ∷ 1 ∷ 1 ∷ []

abbrev pub min_cmd_lengths : CmdSentTo → List ℕ
min_cmd_lengths client = 1 ∷ 1 ∷ 1 ∷ 1 ∷ 1 ∷ 1 ∷ 2 ∷ 2 ∷ 2 ∷ []
min_cmd_lengths server = 1 ∷ 1 ∷ 1 ∷ 2 ∷ 1 ∷ 1 ∷ []

-- A read of a table at a command number, which is always inside it.
abbrev pub max_length : CmdSentTo → ℕ → ℕ
max_length to n = get_or (max_cmd_lengths to) n 0

abbrev pub min_length : CmdSentTo → ℕ → ℕ
min_length to n = get_or (min_cmd_lengths to) n 0

-- The loop over the words from index `i` on.
unfoldable pub find_word : Text → ℕ → List Text → Option ℕ
find_word cmd i [] = none
find_word cmd i (w ∷ ws) = if text_eq cmd w then some i else find_word cmd (suc i) ws

-- `none` is -1, and a command that is `none` is `NULL`.
unfoldable pub get_cmd_no : Option Text → CmdSentTo → Option ℕ
unfolding find_word
get_cmd_no none to = none
get_cmd_no (some []) to = none
get_cmd_no (some (c ∷ s)) to = find_word (c ∷ s) 0 (cmd_words to)

abbrev pub colon : Text
colon = b':' ∷ []

-- The `while` loop: `left` is `maxCmdArgs - argCount`. What is returned beside the lines is the text
-- that `strtok_r` has left.
unfoldable pub args_loop : ℕ → LineList → Option Text × Text → LineList × Text
args_loop left lines (none, rest) = (lines, rest)
args_loop zero lines (some token, rest) = (add_to_lines lines token, rest)
args_loop (suc zero) lines (some token, rest) = (add_to_lines lines token, rest)
args_loop (suc (suc left)) lines (some token, rest) =
    args_loop (suc left) (add_to_lines lines token) (strtok_r colon rest)

-- What is left becomes the last argument, if there is anything.
unfoldable pub add_rest : LineList → Text → LineList
add_rest lines rest = elim (strtok_r [] rest).0 [
  | none ↦ lines
  | some token ↦ add_to_lines lines token
]

-- `cmd[strlen(cmd) - 1] == ':'`
unfoldable pub ends_in_colon : Text → Bool
unfolding last_byte
ends_in_colon cmd = elim (last_byte cmd) [ none ↦ false | some c ↦ c == b':' ]

-- The tokens of a command that takes up to `max_length` of them, and the rest of the text.
unfoldable pub all_args : CmdSentTo → ℕ → Option Text × Text → LineList
unfolding args_loop add_rest
all_args to n first =
    let (lines, rest) = args_loop (max_length to n - 1) init_line_list first in add_rest lines rest

-- What follows the first token and its number.
unfoldable pub args_of : Text → CmdSentTo → Option ℕ → Option Text × Text → LineList × Bool
unfolding ends_in_colon
args_of cmd to none first = (init_line_list, false)
args_of cmd to (some n) first =
    let all = all_args to n first in
    (all, ltb all.num_lines (max_length to n) && not (ends_in_colon cmd))

-- The arguments, and whether the call sets the flag `*invalidCmd`.
unfoldable pub get_cmd_args : Text → CmdSentTo → LineList × Bool
get_cmd_args cmd to = let first = strtok_r colon cmd in args_of cmd to (get_cmd_no first.0 to) first

-- SAY to the server and MSG to a client may have colons in their last argument.
abbrev pub takes_colons : CmdSentTo → ℕ → Bool
takes_colons client n = n == 6
takes_colons server n = n == 2

-- Too many arguments, or a colon in the last.
unfoldable pub has_extra : LineList → CmdSentTo → ℕ → Bool
has_extra parsed to n =
    pattern_match_string colon (get_or parsed.lines (parsed.num_lines - 1) [])
    || ltb (max_length to n) parsed.num_lines

-- The checks on the parsed lines, whose first has this number.
unfoldable pub check_number : LineList → Bool → CmdSentTo → Option ℕ → Option LineList
check_number parsed invalid to none = none
check_number parsed invalid to (some n) =
    if invalid
      || (not (takes_colons to n) && has_extra parsed to n)
      || ltb parsed.num_lines (min_length to n)
    then none
    else some parsed

-- The checks behind `get_cmd_args`, on what it returned. An empty list is refused first.
unfoldable pub check_args : LineList × Bool → CmdSentTo → Option LineList
unfolding has_extra check_number
check_args (parsed, invalid) to =
    if ltb parsed.num_lines 1
    then none
    else check_number parsed invalid to (get_cmd_no (get_elem? parsed.lines 0) to)

unfoldable pub cmd_to_lines : Option Text → CmdSentTo → Option LineList
cmd_to_lines none to = none
cmd_to_lines (some []) to = none
cmd_to_lines (some (c ∷ s)) to = check_args (get_cmd_args (c ∷ s) to) to

-- The outcome of `get_password`: the password, or `NULL`, and whether the flag is set.
pub record AuthFile : Type 0 where
  pub password : Option Text
  pub invalid : Bool

abbrev pub first_line : LineList → Option Text
first_line l = if ltb 0 l.num_lines then get_elem? l.lines 0 else none

-- The file is `none` if `fopen` fails, and else its content.
unfoldable pub get_password : Option Stream → Option AuthFile
get_password none = some (record { password = none; invalid = true })
get_password (some doc) = elim (file_to_lines doc) [
  | none ↦ none
  | some l ↦ some (record { password = first_line l; invalid = false })
]
