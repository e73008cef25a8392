-- ===== src/Commands/Password.antt =====
-- `get_password` of commands.c.
use csse2310_assignment.Base.{
  ◌≡◌, ◌↔◌, refl, true, false, Option, none, some, List, [], ◌∷◌, arith, if◌then◌else◌, All,
}
use csse2310_assignment.Libc.{Text}
use csse2310_assignment.LineList.{Stream, is_blank_line, lines_loop, file_to_lines}
use csse2310_assignment.LineList.Reading.{
  IsLine, unlines, get_line-end, file_to_lines-unlines, file_to_lines-total,
}
use csse2310_assignment.Commands.{AuthFile, get_password, first_line}

-- The password of an authfile is its first line, however many lines follow it, and the file is not
-- refused.
pub get_password-unlines :
    (l : Text) (ls : List Text)
    → All IsLine (l ∷ ls)
    → get_password (some (unlines (l ∷ ls))) ≡ some (record { password = some l; invalid = false })
unfolding get_password
get_password-unlines l ls all = rw (file_to_lines-unlines (l ∷ ls) all, get_password) (ground arith)

-- The flag is set exactly if the file cannot be opened, and a call always returns.
pub get_password-total :
    (file : Option Stream)
    → (r : AuthFile) × (get_password file ≡ some r) × ((r.invalid ≡ true) ↔ (file ≡ none))
unfolding get_password
get_password-total none = (record { password = none; invalid = true }, refl, (λ _. refl, λ _. refl))
get_password-total (some doc) =
    let (l, e, _) = file_to_lines-total doc in
    (record { password = first_line l; invalid = false }, rw (e, get_password), (λ x. cc, λ x. cc))

file_to_lines-line :
    (l : Text)
    → IsLine l
    → file_to_lines l
      ≡ some (
          if is_blank_line l
          then record { lines = []; num_lines = 0 }
          else record { lines = l ∷ []; num_lines = 1 })
unfolding file_to_lines lines_loop
file_to_lines-line l h = rw (get_line-end l h) (ground arith)

-- A file that is one line with no newline behind it: its password is that line, but there is none
-- if the line begins with the byte 255, which as a `char` is `EOF`, or is empty.
pub get_password-line :
    (l : Text)
    → IsLine l
    → get_password (some l)
      ≡ some (record { password = if is_blank_line l then none else some l; invalid = false })
unfolding get_password
get_password-line l h = rw (file_to_lines-line l h, get_password) (ground arith)
