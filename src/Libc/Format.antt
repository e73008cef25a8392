-- ===== src/Libc/Format.antt =====
-- `fprintf` with a format and no arguments.
use csse2310_assignment.Base.{ℕ, ◌≡◌, refl, Option, none, some, [], ◌∷◌, arith, ◌==◌, if◌then◌else◌}
use csse2310_assignment.Libc.{Text, Lacks}

abbrev push : ℕ → Option Text → Option Text
push c none = none
push c (some s) = some (c ∷ s)

-- Two percent signs print one. Any other conversion reads an argument that is not there, which is
-- undefined: `none`.
unfoldable pub expand : Text → Option Text
expand [] = some []
expand (c ∷ []) = if c == b'%' then none else some (c ∷ [])
expand (c ∷ d ∷ s) =
    let plain = push c (expand (d ∷ s)) in
    let escaped = push b'%' (expand s) in
    if c == b'%' then (if d == b'%' then escaped else none) else plain

-- A text with no percent sign prints as it is.
pub expand-Lacks : (s : Text) → Lacks b'%' s → expand s ≡ some s
unfolding expand
expand-Lacks [] h = refl
expand-Lacks (c ∷ []) h = ground arith
expand-Lacks (c ∷ d ∷ s) h = ground (arith, expand-Lacks (d ∷ s))
