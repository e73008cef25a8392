-- ===== src/LineList/Reading.antt =====
-- Reading lines: `get_line` and `file_to_lines` of lineList.c.
use mathlib.Core.List.{append-nil, append_assoc}
use csse2310_assignment.Base.{
  ℕ, zero, suc, ◌<◌, ◌≡◌, ◌⊎◌, refl, ap, ◌∙◌, inl, inr, Bool, true, false, Option, none, some, List,
  [], ◌∷◌, ◌++◌, arith, Bool-cases, length, length-append, is_nil, All, All-append,
}
use csse2310_assignment.Libc.{Text, contains, Lacks}
use csse2310_assignment.LineList.{
  LineList, Stream, ReadLine, collect, last_byte, terminate, c_string, get_line, is_blank_line,
  drop_last, lines_loop, file_to_lines,
}

-- What a line of a stream can be as a string.
abbrev pub IsLine : Text → Type 0
IsLine l = Lacks b'\n' l × Lacks 0 l

abbrev pub unlines : List Text → Stream
unlines [] = []
unlines (l ∷ ls) = l ++ (b'\n' ∷ unlines ls)

collect-newline :
    (buf body rest : Text)
    → Lacks b'\n' body
    → collect buf (body ++ (b'\n' ∷ rest)) ≡ (buf ++ body, false, rest)
unfolding collect
collect-newline buf [] rest h = rw append-nil
collect-newline buf (c ∷ body) rest h =
    ground (arith, collect-newline (buf ++ c ∷ []) body rest, append_assoc buf (c ∷ []) body)

collect-end : (buf body : Text) → Lacks b'\n' body → collect buf body ≡ (buf ++ body, true, [])
unfolding collect
collect-end buf [] h = rw append-nil
collect-end buf (c ∷ body) h =
    ground (arith, collect-end (buf ++ c ∷ []) body, append_assoc buf (c ∷ []) body)

c_string_lem : (s : Text) → Lacks 0 s → c_string s ≡ s
unfolding c_string
c_string_lem [] h = refl
c_string_lem (c ∷ s) h = ground (arith, c_string_lem s)

c_string-append_zero : (s : Text) → c_string (s ++ 0 ∷ []) ≡ c_string s
unfolding c_string
c_string-append_zero [] = refl
c_string-append_zero (c ∷ s) = ground (arith, c_string-append_zero s)

Lacks-c_string : (s : Text) → Lacks 0 (c_string s)
unfolding c_string
Lacks-c_string [] = refl
Lacks-c_string (c ∷ s) = ground (arith, Lacks-c_string s)

Lacks-c_string_of : (b : ℕ) (s : Text) → Lacks b s → Lacks b (c_string s)
unfolding c_string
Lacks-c_string_of b [] h = refl
Lacks-c_string_of b (c ∷ s) h = ground (arith, Lacks-c_string_of b s)

contains-append_self : (b : ℕ) (s : Text) → contains b (s ++ b ∷ []) ≡ true
contains-append_self b [] = ground arith
contains-append_self b (c ∷ s) = ground (arith, contains-append_self b s)

pub contains-last_byte : (b : ℕ) (s : Text) → last_byte s ≡ some b → contains b s ≡ true
unfolding last_byte
contains-last_byte b [] h = cc
contains-last_byte b (c ∷ []) h = ground arith
contains-last_byte b (c ∷ d ∷ s) h = ground (arith, contains-last_byte b (d ∷ s))

last_byte-none : (s : Text) → last_byte s ≡ none → s ≡ []
unfolding last_byte
last_byte-none [] h = refl
last_byte-none (c ∷ []) h = cc
last_byte-none (c ∷ d ∷ s) h = absurd (ground (arith, last_byte-none (d ∷ s)))

-- The buffer of a line always ends its string inside it, and the string is that of the bytes read.
pub terminate_lem :
    (buf : Text) → (contains 0 (terminate buf) ≡ true) × (c_string (terminate buf) ≡ c_string buf)
unfolding terminate c_string
terminate_lem buf = ground (
  arith,
  last_byte-none buf,
  contains-last_byte 0 buf,
  contains-append_self 0 buf,
  c_string-append_zero buf,
)

is_nil-append_cons : (s : Text) (c : ℕ) (rest : Text) → is_nil (s ++ (c ∷ rest)) ≡ false
is_nil-append_cons [] c rest = refl
is_nil-append_cons (d ∷ s) c rest = refl

abbrev pub read_line : Text → Bool → ReadLine
read_line l b = record { line = l; is_last_line = b }

-- A stream that begins with a line and a newline gives the line, and leaves what is behind it.
pub get_line-newline :
    (line rest : Text)
    → IsLine line
    → get_line (line ++ (b'\n' ∷ rest)) ≡ (read_line line false, false, rest)
unfolding get_line
get_line-newline line rest h = rw (
  collect-newline [] line rest h.0,
  (terminate_lem line).1,
  c_string_lem line h.1,
  is_nil-append_cons line b'\n' rest,
)

-- The bytes behind the last newline are the last line; the flag says whether there are none.
pub get_line-end :
    (line : Text) → IsLine line → get_line line ≡ (read_line line true, is_nil line, [])
unfolding get_line
get_line-end line h = rw (collect-end [] line h.0, (terminate_lem line).1, c_string_lem line h.1)

-- What is left of the stream is shorter, unless the line is the last.
Shorter : Stream → Text × Bool × Stream → Type 0
Shorter doc r = (r.1 ≡ true) ⊎ (length r.2 < length doc)

collect-Shorter : (buf : Text) (doc : Stream) → Shorter doc (collect buf doc)
unfolding collect Shorter
collect-Shorter buf [] = inl refl
collect-Shorter buf (c ∷ s) = ground (arith, collect-Shorter (buf ++ c ∷ []) s)

Lacks-append : (b : ℕ) (s t : Text) → Lacks b s → Lacks b t → Lacks b (s ++ t)
Lacks-append b [] t h k = k
Lacks-append b (c ∷ s) t h k = ground (arith, Lacks-append b s t)

Lacks-collect : (buf : Text) (doc : Stream) → Lacks b'\n' buf → Lacks b'\n' (collect buf doc).0
unfolding collect
Lacks-collect buf [] h = h
Lacks-collect buf (c ∷ s) h =
    ground (arith, Lacks-append b'\n' buf (c ∷ []), Lacks-collect (buf ++ c ∷ []) s)

pub get_line-IsLine : (doc : Stream) → IsLine (get_line doc).0.line
unfolding get_line
get_line-IsLine doc = rw ((terminate_lem (collect [] doc).0).1) (
  Lacks-c_string_of b'\n' (collect [] doc).0 (Lacks-collect [] doc refl),
  Lacks-c_string (collect [] doc).0,
)

get_line-shorter :
    (doc : Stream) → ((get_line doc).0.is_last_line ≡ true) ⊎ (length (get_line doc).2 < length doc)
unfolding get_line Shorter
get_line-shorter doc = collect-Shorter [] doc

drop_last-append : (xs : List Text) (x : Text) → drop_last (xs ++ x ∷ []) ≡ xs
unfolding drop_last
drop_last-append [] x = refl
drop_last-append (y ∷ []) x = refl
drop_last-append (y ∷ z ∷ xs) x = ap (◌∷◌ y) (drop_last-append (z ∷ xs) x)

-- The list that `file_to_lines` returns counts its lines, and each of them is one line.
pub record IsFile (l : LineList) : Type 0 where
  pub counted : l.num_lines ≡ length l.lines
  pub each : All IsLine l.lines

abbrev Reads : Option LineList → Type 0
Reads r = (l : LineList) × (r ≡ some l) × IsFile l

lines_loop-last :
    (f : ℕ) (lines : List Text) (doc : Stream)
    → All IsLine lines
    → (get_line doc).0.is_last_line ≡ true
    → Reads (lines_loop (suc f) lines doc)
unfolding lines_loop
lines_loop-last f lines doc all last =
    let line = (get_line doc).0.line in
    let grown = All-append IsLine lines (line ∷ []) all (get_line-IsLine doc, tt) in
    elim (Bool-cases (is_blank_line line)) [
      | inl blank ↦ (
        record { lines = lines; num_lines = length lines },
        ground (arith, drop_last-append lines line),
        record { counted = refl; each = all },
      )
      | inr text ↦ (
        record { lines = lines ++ line ∷ []; num_lines = length (lines ++ line ∷ []) },
        ground arith,
        record { counted = refl; each = grown },
      )
    ]

lines_loop-Reads :
    (f : ℕ) (lines : List Text) (doc : Stream)
    → length doc < f
    → All IsLine lines
    → Reads (lines_loop f lines doc)
unfolding lines_loop
lines_loop-Reads zero lines doc h all = absurd (omega arith)
lines_loop-Reads (suc f) lines doc h all = elim (Bool-cases (get_line doc).0.is_last_line) [
  | inl last ↦ lines_loop-last f lines doc all last
  | inr more ↦
      let later =
        lines_loop-Reads f (lines ++ (get_line doc).0.line ∷ []) (get_line doc).2
          (ground (arith, get_line-shorter doc))
          (All-append IsLine lines ((get_line doc).0.line ∷ []) all (get_line-IsLine doc, tt)) in
      rw more later
]

-- `file_to_lines` returns for every file: its count is the number of its lines, and no line holds
-- a newline or a 0.
pub file_to_lines-total : (doc : Stream) → (l : LineList) × (file_to_lines doc ≡ some l) × IsFile l
unfolding file_to_lines
file_to_lines-total doc = lines_loop-Reads (suc (length doc)) [] doc (omega arith) tt

lines_loop-unlines :
    (ls lines : List Text) (f : ℕ)
    → All IsLine ls
    → length (unlines ls) < f
    → lines_loop f lines (unlines ls)
      ≡ some (record { lines = lines ++ ls; num_lines = length (lines ++ ls) })
unfolding lines_loop
lines_loop-unlines ls lines zero all h = absurd (omega arith)
lines_loop-unlines [] lines (suc f) all h =
    rw (get_line-end [] (refl, refl), append-nil) (ground (arith, drop_last-append lines []))
lines_loop-unlines (l ∷ ls) lines (suc f) (now, all) h = rw (get_line-newline l (unlines ls) now) (
    lines_loop-unlines ls (lines ++ l ∷ []) f all
      (omega (arith, length-append l (b'\n' ∷ unlines ls)))
    ∙ rw append_assoc)

-- Lines that are each written with a newline behind them are read back as they were.
pub file_to_lines-unlines :
    (ls : List Text)
    → All IsLine ls
    → file_to_lines (unlines ls) ≡ some (record { lines = ls; num_lines = length ls })
unfolding file_to_lines
file_to_lines-unlines ls all =
    lines_loop-unlines ls [] (suc (length (unlines ls))) all (omega arith)
