-- ===== src/Tests/Parsing.antt =====
-- The parser and the text helpers.
use csse2310_assignment.Base.{◌≡◌, ◌↔◌, refl, true, false, none, some, [], ◌∷◌, length, All}
use csse2310_assignment.Libc.{codes}
use csse2310_assignment.Libc.Compare.{text_eq}
use csse2310_assignment.Libc.Token.{strtok_r, skip_delimiters}
use csse2310_assignment.LineList.{
  LineList, add_to_lines, is_blank_line, file_to_lines, pattern_match_string, get_printable,
}
use csse2310_assignment.LineList.Reading.{IsFile, file_to_lines-total, file_to_lines-unlines}
use csse2310_assignment.LineList.Match.{Occurs, pattern_match_string_iff}
use csse2310_assignment.LineList.Printable.{IsPrintable, get_printable_lem}
use csse2310_assignment.Commands.Accepts.{Accepts, one, two}
use csse2310_assignment.Commands.Accepts.Sound.{cmd_to_lines_iff}
use csse2310_assignment.Commands.Arity.{IsCommand, cmd_to_lines-IsCommand}
use csse2310_assignment.Commands.Colons.{cmd_to_lines-colon}
use csse2310_assignment.Commands.Password.{get_password-unlines, get_password-line}
use csse2310_assignment.Commands.{
  server, colon, get_cmd_no, get_cmd_args, args_of, all_args, check_args, cmd_to_lines,
  get_password,
}

say_colons :
    cmd_to_lines (some (codes "::SAY::hi:")) server ≡ some (two (codes "SAY") (codes ":hi:"))
unfolding cmd_to_lines get_cmd_args args_of all_args check_args get_cmd_no strtok_r add_to_lines
    text_eq pattern_match_string
say_colons = refl

list_alone : cmd_to_lines (some (codes "LIST")) server ≡ some (one (codes "LIST"))
unfolding cmd_to_lines get_cmd_args args_of all_args check_args get_cmd_no strtok_r add_to_lines
    text_eq pattern_match_string
list_alone = refl

two_colons : cmd_to_lines (some (codes "NAME:a:b")) server ≡ none
unfolding cmd_to_lines get_cmd_args args_of all_args check_args get_cmd_no strtok_r add_to_lines
    text_eq pattern_match_string
two_colons = refl

cmd_to_lines_iff_example :
    (cmd_to_lines (some (codes ":KICK:bob")) server ≡ some (two (codes "KICK") (codes "bob")))
    ↔ Accepts server (skip_delimiters colon (codes ":KICK:bob")) (two (codes "KICK") (codes "bob"))
cmd_to_lines_iff_example = cmd_to_lines_iff (codes ":KICK:bob") (two (codes "KICK") (codes "bob"))

cmd_to_lines-IsCommand_example : IsCommand server (two (codes "SAY") (codes ":hi:"))
cmd_to_lines-IsCommand_example =
    cmd_to_lines-IsCommand server (some (codes "::SAY::hi:")) say_colons

cmd_to_lines-colon_example :
    cmd_to_lines (some (codes ":LEAVE:")) server ≡ cmd_to_lines (some (codes "LEAVE:")) server
cmd_to_lines-colon_example = cmd_to_lines-colon (codes "LEAVE:") server

file_to_lines-total_example : (l : LineList) × (file_to_lines (codes "a\n\nb") ≡ some l) × IsFile l
file_to_lines-total_example = file_to_lines-total (codes "a\n\nb")

file_to_lines-unlines_example :
    file_to_lines (codes "a\n\nb\n")
    ≡ some (record { lines = codes "a" ∷ [] ∷ codes "b" ∷ []; num_lines = 3 })
file_to_lines-unlines_example =
    file_to_lines-unlines (codes "a" ∷ [] ∷ codes "b" ∷ [])
      ((refl, refl), ((refl, refl), ((refl, refl), tt)))

pattern_match_string_iff_example :
    (pattern_match_string (codes "oB") (codes "Bobby") ≡ true) ↔ Occurs (codes "oB") (codes "Bobby")
pattern_match_string_iff_example = pattern_match_string_iff (codes "oB") (codes "Bobby")

get_printable_lem_example :
    (length (get_printable (codes "a\tb")) ≡ length (codes "a\tb"))
    × All IsPrintable (get_printable (codes "a\tb"))
    × ((get_printable (codes "a\tb") ≡ codes "a\tb") ↔ All IsPrintable (codes "a\tb"))
get_printable_lem_example = get_printable_lem (codes "a\tb")

get_password-unlines_example :
    get_password (some (codes "sesame\nrest\n"))
    ≡ some (record { password = some (codes "sesame"); invalid = false })
get_password-unlines_example =
    get_password-unlines (codes "sesame") (codes "rest" ∷ []) ((refl, refl), ((refl, refl), tt))

get_password-line_example :
    get_password (some (255 ∷ codes "x")) ≡ some (record { password = none; invalid = false })
unfolding is_blank_line
get_password-line_example = get_password-line (255 ∷ codes "x") (refl, refl)
