-- ===== src/Commands/Colons.antt =====
-- Colons in front of a command: `strtok_r` skips them.
use csse2310_assignment.Base.{
  ◌≡◌, refl, sym, ◌∙◌, ◌==◌, inl, inr, Bool-cases, ==_iff, some, [], ◌∷◌,
}
use csse2310_assignment.Libc.{Text}
use csse2310_assignment.Libc.Token.{strtok_r, skip_delimiters}
use csse2310_assignment.Commands.{
  CmdSentTo, colon, get_cmd_no, args_of, get_cmd_args, check_args, cmd_to_lines,
}

-- A colon in front of a line changes nothing: the line is refused, or accepted as the same command
-- with the same arguments.
pub cmd_to_lines-colon :
    (cmd : Text) (to : CmdSentTo) → cmd_to_lines (some (b':' ∷ cmd)) to ≡ cmd_to_lines (some cmd) to
unfolding cmd_to_lines get_cmd_args args_of check_args get_cmd_no strtok_r
cmd_to_lines-colon [] to = refl
cmd_to_lines-colon (c ∷ s) to = refl

-- So the colons in front can all go.
pub cmd_to_lines-skip :
    (cmd : Text) (to : CmdSentTo)
    → cmd_to_lines (some (skip_delimiters colon cmd)) to ≡ cmd_to_lines (some cmd) to
unfolding skip_delimiters
cmd_to_lines-skip [] to = refl
cmd_to_lines-skip (c ∷ s) to = elim (Bool-cases (b':' == c)) [
  | inl same ↦
      let e = (==_iff b':' c).0 same in
      rw (← e) (cmd_to_lines-skip s to ∙ sym (cmd_to_lines-colon s to))
  | inr other ↦ rw other
]
