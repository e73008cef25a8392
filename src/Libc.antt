-- ===== src/Libc.antt =====
-- What the program uses of the C library, over strings as lists of bytes.
pub mod Compare
pub mod Format
pub mod Decimal
pub mod Token
use Prim.Native.Char.{code}
use Prim.Native.String.{String}
use csse2310_assignment.Base.{
  ℕ, ◌+◌, ◌-◌, ◌≡◌, Bool, true, false, ◌||◌, List, [], ◌∷◌, ◌++◌, refl, arith, ltb, ◌==◌,
  if◌then◌else◌,
}
use csse2310_assignment.Base.Int.{ℤ, pos, negsuc}

-- A string: its bytes, without the terminating 0.
abbrev pub Text : Type 0
Text = List ℕ

-- The bytes of a literal, every one of which is ASCII.
abbrev pub codes : String → Text
codes String.[] = []
codes (String.◌∷◌ c s) = code c ∷ codes s

-- `char` is signed for gcc on x86: a byte from 128 on is negative.
abbrev pub signed_char : ℕ → ℤ
signed_char c = if ltb c 128 then pos c else negsuc (255 - c)

-- `strchr`, as a test
abbrev pub contains : ℕ → Text → Bool
contains b [] = false
contains b (c ∷ s) = c == b || contains b s

abbrev pub Lacks : ℕ → Text → Type 0
Lacks b s = contains b s ≡ false

pub Lacks-append : (b : ℕ) (s t : Text) → Lacks b s → Lacks b t → Lacks b (s ++ t)
Lacks-append b [] t hs ht = ht
Lacks-append b (c ∷ s) t hs ht = ground (arith, Lacks-append b s t)
