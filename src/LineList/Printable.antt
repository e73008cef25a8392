-- ===== src/LineList/Printable.antt =====
-- `get_printable` of lineList.c.
use csse2310_assignment.Base.{
  ℕ, suc, ◌≤◌, ◌<◌, ◌≡◌, refl, ap, ◌↔◌, false, [], ◌∷◌, arith, ◌==◌, length, All,
}
use csse2310_assignment.Libc.{Text, contains}
use csse2310_assignment.LineList.{get_printable}

-- A byte of plain text; those from 128 on are negative as a `char`.
abbrev pub IsPrintable : ℕ → Type 0
IsPrintable c = (32 ≤ c) × (c < 128)

get_printable-length : (s : Text) → length (get_printable s) ≡ length s
unfolding get_printable
get_printable-length [] = refl
get_printable-length (c ∷ s) = ap suc (get_printable-length s)

get_printable-All : (s : Text) → All IsPrintable (get_printable s)
unfolding get_printable
get_printable-All [] = tt
get_printable-All (c ∷ s) = ground (arith, get_printable-All s)

get_printable-eq : (s : Text) → All IsPrintable s → get_printable s ≡ s
unfolding get_printable
get_printable-eq [] h = refl
get_printable-eq (c ∷ s) h = ground (arith, get_printable-eq s)

-- The copy is as long as the text, holds printable bytes only, and is the text itself exactly if
-- that held no others.
pub get_printable_lem :
    (s : Text)
    → (length (get_printable s) ≡ length s)
      × All IsPrintable (get_printable s)
      × ((get_printable s ≡ s) ↔ All IsPrintable s)
get_printable_lem s = (
  get_printable-length s,
  get_printable-All s,
  (λ e. rw e at (get_printable-All s), get_printable-eq s),
)

-- No colon, comma or newline comes in that was not there.
pub contains-get_printable :
    (b : ℕ) (s : Text)
    → IsPrintable b
    → (b == b'?') ≡ false
    → contains b (get_printable s) ≡ contains b s
unfolding get_printable
contains-get_printable b [] h k = refl
contains-get_printable b (c ∷ s) h k = ground (arith, contains-get_printable b s h k)
