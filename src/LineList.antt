-- ===== src/LineList.antt =====
-- lineList.c and lineList.h: lists of lines, reading lines from a stream, and the text helpers.
pub mod Match
pub mod Printable
pub mod Reading
pub mod Progress
use csse2310_assignment.Base.{
  ℕ, zero, suc, ◌+◌, ◌≡◌, Bool, true, false, ◌&&◌, ◌||◌, not, Option, none, some, List, [], ◌∷◌,
  ◌++◌, ◌==◌, if◌then◌else◌, length, is_nil,
}
use csse2310_assignment.Base.Int.{pos, ltb_ℤ}
use csse2310_assignment.Libc.{Text, signed_char}
use csse2310_assignment.Libc.Compare.{case_eq}

-- The array of lines and its length, which the code keeps beside it.
pub record LineList : Type 0 where
  pub lines : List Text
  pub num_lines : ℕ

abbrev pub init_line_list : LineList
init_line_list = record { lines = []; num_lines = 0 }

-- The copy of the line goes behind the others.
unfoldable pub add_to_lines : LineList → Text → LineList
add_to_lines target line = record {
  lines = target.lines ++ line ∷ [];
  num_lines = target.num_lines + 1;
}

-- What `fgetc` has still to return of a stream before it returns `EOF`.
abbrev pub Stream : Type 0
Stream = List ℕ

pub record ReadLine : Type 0 where
  pub line : Text
  pub is_last_line : Bool

-- The bytes up to a newline or the end; the flag says whether the end was met.
unfoldable pub collect : Text → Stream → Text × Bool × Stream
collect buf [] = (buf, true, [])
collect buf (c ∷ s) = if c == b'\n' then (buf, false, s) else collect (buf ++ c ∷ []) s

-- The last byte of the buffer, if there is one.
unfoldable pub last_byte : Text → Option ℕ
last_byte [] = none
last_byte (c ∷ []) = some c
last_byte (c ∷ d ∷ s) = last_byte (d ∷ s)

-- The buffer as it is in memory: a 0 is put behind it unless it ends in one. The buffer of an
-- empty line is the one byte that `calloc` cleared.
unfoldable pub terminate : Text → Text
unfolding last_byte
terminate buf = elim (last_byte buf) [
  | none ↦ 0 ∷ []
  | some c ↦ if c == 0 then buf else buf ++ 0 ∷ []
]

-- The string that stands at an address: the bytes before the first 0.
unfoldable pub c_string : Text → Text
c_string [] = []
c_string (c ∷ s) = let rest = c_string s in if c == 0 then [] else c ∷ rest

-- The line, what the call stores through `isLineEmpty` if it stores anything (`true`, when the
-- first read gives `EOF`), and the rest of the stream.
unfoldable pub get_line : Stream → ReadLine × Bool × Stream
unfolding collect terminate c_string
get_line doc =
    let (buf, is_last, rest) = collect [] doc in
    (record { line = c_string (terminate buf); is_last_line = is_last }, is_nil doc, rest)

-- The flag `isLineEmpty` keeps its value unless the line holds `EOF` only.
unfoldable pub read_file_line : Stream → Bool → Text × Bool × Stream
unfolding get_line
read_file_line doc is_line_empty =
    let (read, at_end, rest) = get_line doc in (read.line, is_line_empty || at_end, rest)

-- The stream is standard input.
unfoldable pub read_line_stdin : Stream → Bool → Text × Bool × Stream
unfolding read_file_line
read_line_stdin stdin is_line_empty = read_file_line stdin is_line_empty

-- Whether a line begins with 0 or with `EOF`, which a byte 255 is as a signed `char`.
unfoldable pub is_blank_line : Text → Bool
is_blank_line [] = true
is_blank_line (c ∷ s) = c == 255

-- `numLines--` on the line that was read last
unfoldable pub drop_last : List Text → List Text
drop_last [] = []
drop_last (x ∷ []) = []
drop_last (x ∷ y ∷ s) = x ∷ drop_last (y ∷ s)

-- The loop of `file_to_lines`, with the test behind it; `none` means that the fuel ran out.
unfoldable pub lines_loop : ℕ → List Text → Stream → Option LineList
unfolding is_blank_line drop_last
lines_loop zero lines doc = none
lines_loop (suc f) lines doc =
    let (read, _, rest) = get_line doc in
    let grown = lines ++ read.line ∷ [] in
    let more = lines_loop f grown rest in
    if not read.is_last_line
    then more
    else if is_blank_line read.line
    then some (record { lines = drop_last grown; num_lines = length lines })
    else some (record { lines = grown; num_lines = length grown })

-- Every round but the last reads a byte.
unfoldable pub file_to_lines : Stream → Option LineList
unfolding lines_loop
file_to_lines doc = lines_loop (suc (length doc)) [] doc

abbrev pub add_to_string : Text → Text → Text
add_to_string target words = target ++ words

-- The loop over `offset`: the text is `target + offset`.
unfoldable pub match_from : Text → Text → Bool
match_from pattern_text [] = false
match_from pattern_text (c ∷ s) =
    let later = match_from pattern_text s in
    if case_eq pattern_text (c ∷ s) (length pattern_text) then true else later

unfoldable pub pattern_match_string : Text → Text → Bool
unfolding match_from case_eq
pattern_match_string pattern_text target = match_from pattern_text target

-- A control code, or a byte that is negative as a signed `char`.
abbrev pub is_unprintable : ℕ → Bool
is_unprintable c = ltb_ℤ (signed_char c) (pos 32)

unfoldable pub get_printable : Text → Text
get_printable [] = []
get_printable (c ∷ s) = (if is_unprintable c then b'?' else c) ∷ get_printable s
