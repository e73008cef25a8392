-- ===== src/Commands/Accepts/Words.antt =====
-- Command words hold no colon and are not empty; the last byte of a text.
use csse2310_assignment.Base.{
  ℕ, suc, ◌+◌, ◌<◌, ◌≡◌, length, get_elem?, Bool-cases, inl, inr, refl, some, List, [], ◌∷◌, ◌++◌,
  arith, All,
}
use csse2310_assignment.Libc.{Text, Lacks}
use csse2310_assignment.Libc.Compare.{text_eq, text_eq_iff}
use csse2310_assignment.LineList.{last_byte}
use csse2310_assignment.Commands.{CmdSentTo, client, server, cmd_words, find_word, get_cmd_no}

pub last_byte-append : (s : Text) (c : ℕ) → last_byte (s ++ c ∷ []) ≡ some c
unfolding last_byte
last_byte-append [] c = refl
last_byte-append (d ∷ []) c = refl
last_byte-append (d ∷ e ∷ s) c = last_byte-append (e ∷ s) c

find_word-Lacks :
    (cmd : Text) (i : ℕ) (ws : List Text) (n : ℕ)
    → All (Lacks b':') ws
    → find_word cmd i ws ≡ some n
    → Lacks b':' cmd
unfolding find_word
find_word-Lacks cmd i [] n all h = cc
find_word-Lacks cmd i (w ∷ ws) n (now, all) h =
    ground (arith, text_eq_iff cmd w, find_word-Lacks cmd (suc i) ws n all)

words-Lacks : (to : CmdSentTo) → All (Lacks b':') (cmd_words to)
words-Lacks client = (refl, (refl, (refl, (refl, (refl, (refl, (refl, (refl, (refl, tt)))))))))
words-Lacks server = (refl, (refl, (refl, (refl, (refl, (refl, tt))))))

pub word-Lacks :
    (to : CmdSentTo) (w : Text) {n : ℕ} → get_cmd_no (some w) to ≡ some n → Lacks b':' w
unfolding get_cmd_no
word-Lacks to [] h = refl
word-Lacks to (c ∷ s) {n} h = find_word-Lacks (c ∷ s) 0 (cmd_words to) n (words-Lacks to) h

pub word-cons :
    (to : CmdSentTo) (w : Text) {n : ℕ}
    → get_cmd_no (some w) to ≡ some n
    → (c : ℕ) × (s : Text) × (w ≡ c ∷ s)
unfolding get_cmd_no
word-cons to [] h = cc
word-cons to (c ∷ s) h = (c, s, refl)

find_word-lt :
    (cmd : Text) (i : ℕ) (ws : List Text) (n : ℕ) → find_word cmd i ws ≡ some n → n < i + length ws
unfolding find_word
find_word-lt cmd i [] n h = cc
find_word-lt cmd i (w ∷ ws) n h = ground (arith, find_word-lt cmd (suc i) ws n)

-- The number of a command is an index of the tables.
pub get_cmd_no-lt :
    (to : CmdSentTo) (w : Text) (n : ℕ)
    → get_cmd_no (some w) to ≡ some n
    → n < length (cmd_words to)
unfolding get_cmd_no
get_cmd_no-lt to [] n h = cc
get_cmd_no-lt to (c ∷ s) n h = omega (arith, find_word-lt (c ∷ s) 0 (cmd_words to) n h)

find_word-get_elem? :
    (cmd : Text) (i : ℕ) (ws : List Text) (n : ℕ)
    → find_word cmd i ws ≡ some n
    → (j : ℕ) × (n ≡ i + j) × (get_elem? ws j ≡ some cmd)
unfolding find_word
find_word-get_elem? cmd i [] n h = cc
find_word-get_elem? cmd i (w ∷ ws) n h = elim (Bool-cases (text_eq cmd w)) [
  | inl same ↦ (0, ground arith, ground (arith, text_eq_iff cmd w))
  | inr other ↦
      let (j, e, at) = find_word-get_elem? cmd (suc i) ws n (rw other at h) in
      (suc j, omega arith, at)
]

-- The number of a word is where it stands in the table.
pub get_cmd_no-word :
    (to : CmdSentTo) (w : Text) (n : ℕ)
    → get_cmd_no (some w) to ≡ some n
    → get_elem? (cmd_words to) n ≡ some w
unfolding get_cmd_no
get_cmd_no-word to [] n h = cc
get_cmd_no-word to (c ∷ s) n h =
    let (j, e, at) = find_word-get_elem? (c ∷ s) 0 (cmd_words to) n h in
    let same : n ≡ j = omega arith in rw same at
