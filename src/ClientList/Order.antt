-- ===== src/ClientList/Order.antt =====
-- The order of the names, and what an insertion does to it.
use mathlib.Core.List.{Perm}
use mathlib.Core.List.Perm
use csse2310_assignment.Base.{◌≡◌, inl, inr, true, false, List, [], ◌∷◌, Bool-cases}
use csse2310_assignment.Libc.{Text}
use csse2310_assignment.Libc.Compare.{text_lt, text_lt_trans, text_lt_irrefl}
use csse2310_assignment.ClientThread.{ClientThread}
use csse2310_assignment.World.{Ptr, World, Memory, done}
use csse2310_assignment.ClientList.{add_client}
use csse2310_assignment.ClientList.Chain.{Cells, IsList}
use csse2310_assignment.ClientList.Names.{IsNamed, name_or, names, insert_cell}
use csse2310_assignment.ClientList.Add.{CanAdd, add_client-insert}

-- No name is smaller than the one before it.
abbrev pub IsSorted : List Text → Type 0
IsSorted [] = Unit
IsSorted (a ∷ []) = Unit
IsSorted (a ∷ b ∷ rest) = (text_lt b a ≡ false) × IsSorted (b ∷ rest)

text_lt-asymm : (a b : Text) → text_lt a b ≡ true → text_lt b a ≡ false
text_lt-asymm a b h = elim (Bool-cases (text_lt b a)) [
  | inl k ↦ cc (text_lt_trans a b a h k, text_lt_irrefl a)
  | inr k ↦ k
]

module _ (t : Memory ClientThread) (p c : Ptr) where
  insert_behind-IsSorted :
      (q d : Ptr) (xs : Cells)
      → text_lt (name_or t c) (name_or t d) ≡ false
      → IsSorted (names t ((q, d) ∷ xs))
      → IsSorted (names t ((q, d) ∷ insert_cell t (p, c) xs))
  unfolding insert_cell
  insert_behind-IsSorted q d [] h s = (h, tt)
  insert_behind-IsSorted q d ((r, e) ∷ xs) h (now, s) =
      elim (Bool-cases (text_lt (name_or t c) (name_or t e))) [
        | inl less ↦ rw less (h, (text_lt-asymm _ _ less, s))
        | inr more ↦ rw more (now, insert_behind-IsSorted r e xs more s)
      ]

  pub insert_cell-IsSorted :
      (xs : Cells) → IsSorted (names t xs) → IsSorted (names t (insert_cell t (p, c) xs))
  unfolding insert_cell
  insert_cell-IsSorted [] s = tt
  insert_cell-IsSorted ((q, d) ∷ xs) s = elim (Bool-cases (text_lt (name_or t c) (name_or t d))) [
    | inl less ↦ rw less (text_lt-asymm _ _ less, s)
    | inr more ↦ rw more (insert_behind-IsSorted q d xs more s)
  ]

  pub insert_cell-perm : (xs : Cells) → Perm (insert_cell t (p, c) xs) ((p, c) ∷ xs)
  unfolding insert_cell
  insert_cell-perm [] = Perm.refl _
  insert_cell-perm ((q, d) ∷ xs) = elim (Bool-cases (text_lt (name_or t c) (name_or t d))) [
    | inl less ↦ rw less (Perm.refl _)
    | inr more ↦ rw more (Perm.trans (Perm.cons (q, d) (insert_cell-perm xs)) (Perm.swap _ _ _))
  ]

-- `add_client` keeps a sorted list sorted, and its nodes are the old ones and one for the new client.
pub add_client-IsSorted :
    (w : World) (nc : Ptr) {xs : Cells}
    → CanAdd w xs
    → IsNamed w.threads nc
    → IsSorted (names w.threads xs)
    → (w' : World) × (ys : Cells) × (add_client nc w ≡ done tt w')
      × IsList w' ys
      × IsSorted (names w'.threads ys)
      × Perm ys ((w.fresh, nc) ∷ xs)
add_client-IsSorted w nc {xs} can named sorted =
    let (w', r, l, keeps) = add_client-insert w nc can named in
    (
      w',
      insert_cell w.threads (w.fresh, nc) xs,
      r,
      l,
      rw keeps.threads (insert_cell-IsSorted w.threads w.fresh nc xs sorted),
      insert_cell-perm w.threads w.fresh nc xs,
    )
