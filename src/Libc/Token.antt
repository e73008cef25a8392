-- ===== src/Libc/Token.antt =====
-- `strtok_r`: the saved pointer is the text that is left.
use csse2310_assignment.Base.{
  ℕ, ◌≡◌, ◌⊎◌, inl, inr, refl, arith, false, ◌==◌, ◌++◌, Bool-cases, Option, none, some, [], ◌∷◌,
  if◌then◌else◌,
}
use csse2310_assignment.Libc.{Text, contains, Lacks}

-- Leading delimiters are skipped.
unfoldable pub skip_delimiters : Text → Text → Text
skip_delimiters d [] = []
skip_delimiters d (c ∷ s) = if contains c d then skip_delimiters d s else c ∷ s

-- The bytes before the first delimiter, and those behind it.
unfoldable pub split_token : Text → Text → Text × Text
split_token d [] = ([], [])
split_token d (c ∷ s) =
    let (token, rest) = split_token d s in if contains c d then ([], s) else (c ∷ token, rest)

token_of : Text → Text → Option Text × Text
unfolding split_token
token_of d [] = (none, [])
token_of d (c ∷ s) = let (token, rest) = split_token d (c ∷ s) in (some token, rest)

unfoldable pub strtok_r : Text → Text → Option Text × Text
unfolding skip_delimiters token_of
strtok_r d s = token_of d (skip_delimiters d s)

-- `t` is the part of `s` before its first byte `b`, and `r` the part behind it.
abbrev pub SplitsAt : ℕ → Text → Text → Text → Type 0
SplitsAt b s t r = Lacks b t × (((s ≡ t) × (r ≡ [])) ⊎ (s ≡ t ++ (b ∷ r)))

pub split_token-SplitsAt :
    (b : ℕ) (s : Text) → SplitsAt b s (split_token (b ∷ []) s).0 (split_token (b ∷ []) s).1
unfolding split_token
split_token-SplitsAt b [] = (refl, inl (refl, refl))
split_token-SplitsAt b (c ∷ s) = ground (arith, split_token-SplitsAt b s)

pub split_token-append :
    (b : ℕ) (t r : Text) → Lacks b t → split_token (b ∷ []) (t ++ (b ∷ r)) ≡ (t, r)
unfolding split_token
split_token-append b [] r h = ground arith
split_token-append b (c ∷ t) r h = ground (arith, split_token-append b t r)

pub split_token-whole : (b : ℕ) (t : Text) → Lacks b t → split_token (b ∷ []) t ≡ (t, [])
unfolding split_token
split_token-whole b [] h = refl
split_token-whole b (c ∷ t) h = ground (arith, split_token-whole b t)

-- The text that is left when the leading delimiters are gone does not begin with one.
pub skip_delimiters-head :
    (d s : Text)
    → (skip_delimiters d s ≡ [])
      ⊎ ((c : ℕ) × (t : Text) × (skip_delimiters d s ≡ c ∷ t) × (contains c d ≡ false))
unfolding skip_delimiters
skip_delimiters-head d [] = inl refl
skip_delimiters-head d (c ∷ s) = elim (Bool-cases (contains c d)) [
  | inl delimiter ↦ rw delimiter (skip_delimiters-head d s)
  | inr other ↦ rw other (inr (c, s, refl, other))
]

skip_none : (s : Text) → skip_delimiters [] s ≡ s
unfolding skip_delimiters
skip_none [] = refl
skip_none (c ∷ s) = refl

split_none : (s : Text) → split_token [] s ≡ (s, [])
unfolding split_token
split_none [] = refl
split_none (c ∷ s) = rw (split_none s)

-- With no delimiter the token is all of the text, if there is any.
pub strtok_r-rest : (c : ℕ) (s : Text) → strtok_r [] (c ∷ s) ≡ (some (c ∷ s), [])
unfolding strtok_r
strtok_r-rest c s = rw (split_none s)

pub strtok_r-rest_nil : strtok_r [] [] ≡ (none, [])
unfolding strtok_r
strtok_r-rest_nil = refl

-- A token that does not begin with the delimiter, and what it leaves.
pub strtok_r-split :
    (b c : ℕ) (s : Text)
    → (c == b) ≡ false
    → strtok_r (b ∷ []) (c ∷ s)
      ≡ (some (split_token (b ∷ []) (c ∷ s)).0, (split_token (b ∷ []) (c ∷ s)).1)
unfolding strtok_r
strtok_r-split b c s h = ground arith
