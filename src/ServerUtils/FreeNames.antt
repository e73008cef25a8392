-- ===== src/ServerUtils/FreeNames.antt =====
-- The names that clients ask for in `name_negotiate`, and which of them are free.
use csse2310_assignment.Base.{
  ◌≡◌, ◌≢◌, inl, inr, false, none, some, [], ◌∷◌, arith, Bool-cases, Option-cases,
}
use csse2310_assignment.Libc.{Text, Lacks}
use csse2310_assignment.Libc.Token.{skip_delimiters}
use csse2310_assignment.LineList.{LineList}
use csse2310_assignment.Commands.{server, colon, cmd_to_lines}
use csse2310_assignment.Commands.Accepts.{Accepts, bare, argument, one, two}
use csse2310_assignment.Commands.Accepts.Sound.{cmd_to_lines_iff}
use csse2310_assignment.ClientThread.{ClientThread}
use csse2310_assignment.World.{Ptr, null, Memory}
use csse2310_assignment.ClientList.{has_name}
use csse2310_assignment.ClientList.Chain.{Cells}
use csse2310_assignment.ClientList.Find.{AllHeld, name_at, first_named}
use csse2310_assignment.ServerUtils.{is_command, name_request}

-- No client of the list has the name.
abbrev pub Unused : Memory ClientThread → Text → Cells → Type 0
Unused t name [] = Unit
Unused t name ((p, c) ∷ xs) = (has_name name (name_at t c) ≡ false) × Unused t name xs

name_request-Accepts :
    (name s : Text) (l : LineList)
    → Accepts server s l
    → name_request (some l) ≡ some (some name)
    → (name ≢ []) × Lacks b':' name
unfolding name_request is_command
name_request-Accepts name s l (bare w n e least form is) h =
    let asked : name_request (some (one w)) ≡ some (some name) = rw is at h in
    absurd (ground (arith, e, asked))
name_request-Accepts name s l (argument w arg n e most form ne plain is) h =
    let asked : name_request (some (two w arg)) ≡ some (some name) = rw is at h in
    let number : n ≡ 0 = ground (arith, e, asked) in
    let same : arg ≡ name = ground (arith, e, asked) in
    elim plain [
      | inl takes ↦ absurd (ground (arith, takes, number))
      | inr lacks ↦ (rw same at ne, rw same at lacks)
    ]

-- The name of a NAME request is not empty, and has no colon.
pub name_request-name :
    (name line : Text)
    → name_request (cmd_to_lines (some line) server) ≡ some (some name)
    → (name ≢ []) × Lacks b':' name
unfolding name_request
name_request-name name line h = elim (Option-cases (cmd_to_lines (some line) server)) [
  | inl e ↦ absurd (cc (rw e at h))
  | inr (l, e) ↦
      name_request-Accepts name (skip_delimiters colon line) l ((cmd_to_lines_iff line l).0 e)
        (rw e at h)
]

pub first_named-Unused :
    (t : Memory ClientThread) (name : Text) (xs : Cells)
    → t null ≡ none
    → AllHeld t xs
    → first_named t name xs ≡ null
    → Unused t name xs
unfolding first_named
first_named-Unused t name [] no_null all h = tt
first_named-Unused t name ((p, c) ∷ xs) no_null ((thread, at), all) h =
    elim (Bool-cases (has_name name (name_at t c))) [
      | inl taken ↦ let zero : c ≡ null = rw taken at h in absurd (cc (rw zero at at, no_null))
      | inr free ↦ (free, first_named-Unused t name xs no_null all (rw free at h))
    ]

pub Unused-same :
    (t t' : Memory ClientThread) (name : Text) (xs : Cells)
    → ((a : Ptr) → name_at t' a ≡ name_at t a)
    → Unused t' name xs
    → Unused t name xs
Unused-same t t' name [] same u = tt
Unused-same t t' name ((p, c) ∷ xs) same (now, u) =
    (rw same at now, Unused-same t t' name xs same u)
