-- ===== src/Errors.antt =====
-- errors.c: how the two programs end.
use csse2310_assignment.Base.{ℕ, Option, none, some, List, [], ◌∷◌, ◌++◌, get_elem?}
use csse2310_assignment.Base.Int.{ℤ, pos, negsuc}
use csse2310_assignment.Libc.{Text, codes}
use csse2310_assignment.Commands.{CmdSentTo, client, server}

-- The tables of messages; an inner `none` is `NULL`.
abbrev pub messages : CmdSentTo → List (Option Text)
messages client =
    none
    ∷ some (codes "Usage: client name authfile port")
    ∷ some (codes "Communications error")
    ∷ some (codes "Kicked")
    ∷ some (codes "Authentication error")
    ∷ []
messages server =
    none ∷ some (codes "Usage: server authfile [port]") ∷ some (codes "Communications error") ∷ []

-- The status of the process and what it wrote to standard error.
pub record Exit : Type 0 where
  pub status : ℕ
  pub stderr : Text

exit_line : ℕ → Option (Option Text) → Option Exit
exit_line status none = none
exit_line status (some none) = some (record { status = status; stderr = [] })
exit_line status (some (some msg)) = some (record { status = status; stderr = msg ++ codes "\n" })

-- `none` is a fault: a read behind the end of the table.
unfoldable pub exit_with_msg : ℤ → CmdSentTo → Option Exit
unfolding exit_line
exit_with_msg (negsuc n) to = some (record { status = 0; stderr = [] })
exit_with_msg (pos n) to = exit_line n (get_elem? (messages to) n)

-- How far a `main` comes: it goes on with what it has set up, or the process ends.
pub data Launch (A : Type 0) : Type 0 where
  launched : A → Launch A
  quits : Exit → Launch A
  crashes : Launch A

-- The call of `exit_with_msg`, behind which nothing runs.
abbrev pub quit_with : {A : Type 0} → Option Exit → Launch A
quit_with none = crashes
quit_with (some e) = quits e
