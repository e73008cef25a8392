-- ===== src/Libc/Decimal.antt =====
-- `%d` of a number that is not negative.
pub mod Numerals
use csse2310_assignment.Base.{ℕ, zero, suc, ◌+◌, ◌/◌, ◌%◌, [], ◌∷◌, ◌++◌, ltb, if◌then◌else◌}
use csse2310_assignment.Libc.{Text}

-- The digits of `n`, most significant first; `n + 1` rounds are more than enough.
digits : ℕ → ℕ → Text
digits zero n = []
digits (suc f) n =
    let rest = digits f (n / 10) in
    if ltb n 10 then (b'0' + n) ∷ [] else rest ++ (b'0' + n % 10) ∷ []

unfoldable pub decimal : ℕ → Text
unfolding digits
decimal n = digits (suc n) n
