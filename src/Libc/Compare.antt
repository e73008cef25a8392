-- ===== src/Libc/Compare.antt =====
-- `strcmp` and `strncasecmp`. Bytes compare as unsigned numbers.
use csse2310_assignment.Base.{
  ℕ, zero, suc, ◌+◌, ◌≡◌, refl, ◌↔◌, ◌⊎◌, inl, inr, Bool, true, false, ◌&&◌, [], ◌∷◌, arith,
  compare, Ordering, ◌==◌, leb, if◌then◌else◌,
}
use csse2310_assignment.Libc.{Text}

-- The sign of what `strcmp` returns.
unfoldable pub strcmp : Text → Text → Ordering
strcmp [] [] = Ordering.eq
strcmp [] (y ∷ ys) = Ordering.lt
strcmp (x ∷ xs) [] = Ordering.gt
strcmp (x ∷ xs) (y ∷ ys) =
    let rest = strcmp xs ys in
    elim (compare x y) [
      | Ordering.eq ↦ rest
      | Ordering.lt ↦ Ordering.lt
      | Ordering.gt ↦ Ordering.gt
    ]

-- `!strcmp(a, b)`
unfoldable pub text_eq : Text → Text → Bool
unfolding strcmp
text_eq a b = elim (strcmp a b) [ Ordering.eq ↦ true | _ ↦ false ]

-- `strcmp(a, b) < 0`
unfoldable pub text_lt : Text → Text → Bool
unfolding strcmp
text_lt a b = elim (strcmp a b) [ Ordering.lt ↦ true | _ ↦ false ]

strcmp-eq : (a b : Text) → strcmp a b ≡ Ordering.eq → a ≡ b
unfolding strcmp
strcmp-eq [] [] h = refl
strcmp-eq [] (y ∷ ys) h = cc
strcmp-eq (x ∷ xs) [] h = cc
strcmp-eq (x ∷ xs) (y ∷ ys) h = ground (arith, strcmp-eq xs ys)

strcmp_refl : (a : Text) → strcmp a a ≡ Ordering.eq
unfolding strcmp
strcmp_refl [] = refl
strcmp_refl (x ∷ xs) = ground (arith, strcmp_refl xs)

pub text_eq_iff : (a b : Text) → (text_eq a b ≡ true) ↔ (a ≡ b)
unfolding text_eq
text_eq_iff a b = (λ h. strcmp-eq a b (ground arith), λ e. rw e (rw (strcmp_refl b, text_eq)))

pub text_eq_refl : (a : Text) → text_eq a a ≡ true
text_eq_refl a = (text_eq_iff a a).1 refl

-- `strcmp(a, b) < 0` is a strict order, total on different strings.
pub text_lt_trans : (a b c : Text) → text_lt a b ≡ true → text_lt b c ≡ true → text_lt a c ≡ true
unfolding text_lt
text_lt_trans [] [] c h k = cc
text_lt_trans [] (y ∷ ys) [] h k = cc
text_lt_trans [] (y ∷ ys) (z ∷ zs) h k = refl
text_lt_trans (x ∷ xs) [] c h k = cc
text_lt_trans (x ∷ xs) (y ∷ ys) [] h k = cc
text_lt_trans (x ∷ xs) (y ∷ ys) (z ∷ zs) h k = ground (arith, text_lt_trans xs ys zs)

pub text_lt_irrefl : (a : Text) → text_lt a a ≡ false
unfolding text_lt
text_lt_irrefl a = rw (strcmp_refl a, text_lt)

pub text_lt-total : (a b : Text) → text_lt a b ≡ false → (text_lt b a ≡ true) ⊎ (a ≡ b)
unfolding text_lt
text_lt-total [] [] h = inr refl
text_lt-total [] (y ∷ ys) h = cc
text_lt-total (x ∷ xs) [] h = inl refl
text_lt-total (x ∷ xs) (y ∷ ys) h = ground (arith, text_lt-total xs ys)

-- `tolower` of the C locale
abbrev pub to_lower : ℕ → ℕ
to_lower c = if leb b'A' c && leb c b'Z' then c + 32 else c

-- `strncasecmp(a, b, n) == 0`
unfoldable pub case_eq : Text → Text → ℕ → Bool
case_eq a b zero = true
case_eq [] [] (suc n) = true
case_eq [] (y ∷ ys) (suc n) = false
case_eq (x ∷ xs) [] (suc n) = false
case_eq (x ∷ xs) (y ∷ ys) (suc n) = to_lower x == to_lower y && case_eq xs ys n
