-- ===== src/LineList/Match.antt =====
-- Pattern matching: `pattern_match_string` of lineList.c.
use csse2310_assignment.Base.{
  ◌≡◌, ◌≢◌, refl, ap, inl, inr, ◌↔◌, true, [], ◌∷◌, ◌++◌, map, arith, ==_iff, Bool-cases, length,
}
use csse2310_assignment.Libc.{Text, contains}
use csse2310_assignment.Libc.Compare.{to_lower, case_eq}
use csse2310_assignment.LineList.{match_from, pattern_match_string}

-- `s` begins with `p`, but for the case of letters.
abbrev pub BeginsWith : Text → Text → Type 0
BeginsWith p s = (mid post : Text) × (s ≡ mid ++ post) × (map to_lower mid ≡ map to_lower p)

-- `p` stands somewhere in `t`, but for the case of letters, at a place before its end.
abbrev pub Occurs : Text → Text → Type 0
Occurs p t = (pre rest : Text) × (t ≡ pre ++ rest) × (rest ≢ []) × BeginsWith p rest

case_eq-BeginsWith : (p s : Text) → case_eq p s (length p) ≡ true → BeginsWith p s
unfolding case_eq
case_eq-BeginsWith [] s h = ([], s, refl, refl)
case_eq-BeginsWith (x ∷ p) [] h = cc
case_eq-BeginsWith (x ∷ p) (c ∷ s) h =
    let later : case_eq p s (length p) ≡ true = ground arith in
    let same : to_lower x ≡ to_lower c = ground arith in
    let (mid, post, split, lowered) = case_eq-BeginsWith p s later in
    (c ∷ mid, post, ap (◌∷◌ c) split, cc)

BeginsWith-case_eq :
    (p mid post : Text)
    → map to_lower mid ≡ map to_lower p
    → case_eq p (mid ++ post) (length p) ≡ true
unfolding case_eq
BeginsWith-case_eq [] mid post h = refl
BeginsWith-case_eq (x ∷ p) [] post h = cc
BeginsWith-case_eq (x ∷ p) (c ∷ mid) post h =
    let same : to_lower x ≡ to_lower c = cc in
    let later : map to_lower mid ≡ map to_lower p = cc in
    rw ((==_iff (to_lower x) (to_lower c)).1 same) (BeginsWith-case_eq p mid post later)

match_from-Occurs : (p t : Text) → match_from p t ≡ true → Occurs p t
unfolding match_from
match_from-Occurs p [] h = cc
match_from-Occurs p (c ∷ s) h = elim (Bool-cases (case_eq p (c ∷ s) (length p))) [
  | inl here ↦ ([], c ∷ s, refl, (cc), case_eq-BeginsWith p (c ∷ s) here)
  | inr later ↦
      let (pre, rest, split, ne, begins) = match_from-Occurs p s (rw later at h) in
      (c ∷ pre, rest, ap (◌∷◌ c) split, ne, begins)
]

match_from-rest :
    (p pre rest : Text)
    → rest ≢ []
    → case_eq p rest (length p) ≡ true
    → match_from p (pre ++ rest) ≡ true
unfolding match_from
match_from-rest p [] [] ne h = absurd (ne refl)
match_from-rest p [] (c ∷ s) ne h = rw h
match_from-rest p (c ∷ pre) rest ne h = rw (match_from-rest p pre rest ne h) (ground arith)

-- `pattern_match_string` finds a pattern exactly where it occurs, whatever the case of letters, at
-- some place before the end of the target.
pub pattern_match_string_iff : (p t : Text) → (pattern_match_string p t ≡ true) ↔ Occurs p t
unfolding pattern_match_string
pattern_match_string_iff p t = (
  match_from-Occurs p t,
  λ (pre, rest, split, ne, begins). rw split (
      match_from-rest p pre rest ne
        (rw begins.2 (BeginsWith-case_eq p begins.0 begins.1 begins.3))),
)

-- Of one byte that is no letter the search is `strchr`.
pub pattern_match_string-byte : (t : Text) → pattern_match_string (b':' ∷ []) t ≡ contains b':' t
unfolding pattern_match_string
pattern_match_string-byte [] = refl
pattern_match_string-byte (c ∷ s) = ground (arith, pattern_match_string-byte s)
