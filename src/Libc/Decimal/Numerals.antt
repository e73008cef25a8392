-- ===== src/Libc/Decimal/Numerals.antt =====
-- How many digits `%d` writes.
use csse2310_assignment.Base.{
  ℕ, zero, suc, ◌+◌, ◌*◌, ◌/◌, ◌%◌, ◌≤◌, ◌<◌, ◌≢◌, ◌⊎◌, [], ◌∷◌, refl, inl, inr, arith, ltb,
  Bool-cases, length, length-append,
}
use csse2310_assignment.Libc.{Lacks, Lacks-append}
use csse2310_assignment.Libc.Decimal.{digits, decimal}

-- A power of ten, by recursion.
abbrev pub ten_to : ℕ → ℕ
ten_to zero = 1
ten_to (suc k) = 10 * ten_to k

digits-le : (f n k : ℕ) → n < f → n < ten_to (suc k) → length (digits f n) ≤ suc k
unfolding digits
digits-le zero n k h below = absurd (omega arith)
digits-le (suc f) n zero h below = ground arith
digits-le (suc f) n (suc k) h below = elim (Bool-cases (ltb n 10)) [
  | inl small ↦ rw small (omega arith)
  | inr large ↦
      let ge : 10 ≤ n = ground arith in
      rw large (
        omega (
          arith,
          length-append (digits f (n / 10)) ((b'0' + n % 10) ∷ []),
          digits-le f (n / 10) k (omega arith) (omega arith),
        ))
]

ten_to-positive : (k : ℕ) → 1 ≤ ten_to k
ten_to-positive zero = omega arith
ten_to-positive (suc k) = omega (arith, ten_to-positive k)

digits-gt : (f n k : ℕ) → n < f → ten_to k ≤ n → suc k ≤ length (digits f n)
unfolding digits
digits-gt zero n k h above = absurd (omega arith)
digits-gt (suc f) n zero h above = elim (Bool-cases (ltb n 10)) [
  | inl small ↦ rw small (omega arith)
  | inr large ↦ rw large (omega (arith, length-append (digits f (n / 10)) ((b'0' + n % 10) ∷ [])))
]
digits-gt (suc f) n (suc k) h above = elim (Bool-cases (ltb n 10)) [
  | inl small ↦ let less : n < 10 = ground arith in absurd (omega (arith, ten_to-positive k))
  | inr large ↦
      let ge : 10 ≤ n = ground arith in
      rw large (
        omega (
          arith,
          length-append (digits f (n / 10)) ((b'0' + n % 10) ∷ []),
          digits-gt f (n / 10) k (omega arith) (omega arith),
        ))
]

-- A number below 10 to the `k` has at most `k` digits.
pub length-decimal : (n k : ℕ) → n < ten_to (suc k) → length (decimal n) ≤ suc k
unfolding decimal
length-decimal n k below = digits-le (suc n) n k (omega arith) below

-- A number from 10 to the `k` on has more than `k` digits.
pub length-decimal_gt : (n k : ℕ) → ten_to k ≤ n → k < length (decimal n)
unfolding decimal
length-decimal_gt n k above = digits-gt (suc n) n k (omega arith) above

-- The bytes that are no digit.
abbrev pub NoDigit : ℕ → Type 0
NoDigit b = (b < b'0') ⊎ (b'9' < b)

NoDigit-ne : (b d : ℕ) → d < 10 → NoDigit b → b ≢ b'0' + d
NoDigit-ne b d h (inl below) e = omega (arith, below, e)
NoDigit-ne b d h (inr above) e = omega (arith, above, e, h)

digit-Lacks : (b d : ℕ) → d < 10 → NoDigit b → Lacks b ((b'0' + d) ∷ [])
digit-Lacks b d h no_digit = ground (arith, NoDigit-ne b d h no_digit)

digits-Lacks : (b f n : ℕ) → NoDigit b → Lacks b (digits f n)
unfolding digits
digits-Lacks b zero n h = refl
digits-Lacks b (suc f) n h = elim (Bool-cases (ltb n 10)) [
  | inl small ↦ rw small (digit-Lacks b n (ground arith) h)
  | inr large ↦ rw large (
      Lacks-append b (digits f (n / 10)) ((b'0' + n % 10) ∷ []) (digits-Lacks b f (n / 10) h)
        (digit-Lacks b (n % 10) (omega arith) h))
]

-- A numeral is digits only.
pub decimal-Lacks : (b n : ℕ) → NoDigit b → Lacks b (decimal n)
unfolding decimal
decimal-Lacks b n h = digits-Lacks b (suc n) n h
