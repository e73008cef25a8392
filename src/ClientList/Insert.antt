-- ===== src/ClientList/Insert.antt =====
-- `add_node` puts the node in its place by name.
use csse2310_assignment.Base.{
  ℕ, zero, suc, ◌<◌, ◌≡◌, ◌≢◌, inl, inr, refl, ◌||◌, some, [], ◌∷◌, arith, ◌==◌, if◌then◌else◌,
  Bool-cases, length,
}
use csse2310_assignment.Libc.Compare.{text_lt}
use csse2310_assignment.World.{Ptr, null, ClientNode, World, Memory, Outcome, done, write}
use csse2310_assignment.ClientList.{node, put_before, insert_walk}
use csse2310_assignment.ClientList.Chain.{Cells, is_node, ◌∉◌, ChangesOnly, Chain, nil, cons, frame}
use csse2310_assignment.ClientList.Names.{IsNamed, AllNamed, name_or, insert_cell, is_before_lem}

abbrev pub with_nodes : World → Memory ClientNode → World
with_nodes w g = record w { nodes = g }

abbrev linked :
    Memory ClientNode → Ptr → Ptr → Ptr → Ptr → Ptr → Ptr → Ptr → Ptr → Memory ClientNode
linked h new nc cur c q p d nx =
    write
      (write (write (write h new (some (node nc null p))) new (some (node nc cur p))) cur
        (some (node c q new)))
      p (some (node d new nx))

put_before_lem :
    (w : World) (new nc cur c q p d nx : Ptr)
    → w.nodes new ≡ some (node nc null null)
    → w.nodes cur ≡ some (node c q p)
    → w.nodes p ≡ some (node d cur nx)
    → new ≢ cur
    → new ≢ p
    → cur ≢ p
    → put_before new p w ≡ done tt (with_nodes w (linked w.nodes new nc cur c q p d nx))
unfolding put_before write
put_before_lem w new nc cur c q p d nx at_new at_cur at_p x y z = ground arith

-- The state is as before but for the nodes, which now hold the segment `result` from `p`.
abbrev pub Makes : World → Ptr → Ptr → Cells → Cells → Outcome (Unit {0}) → Type 0
Makes w before p result touched r =
    (g : Memory ClientNode) × (r ≡ done tt (with_nodes w g))
    × Chain g before p result
    × ChangesOnly touched w.nodes g

module _ (w : World) (new nc : Ptr) (new_ne : new ≢ null)
    (at_new : w.nodes new ≡ some (node nc null null)) (named : IsNamed w.threads nc) where
  append_last :
      (k : ℕ) {cur c q : Ptr}
      → cur ≢ null
      → w.nodes cur ≡ some (node c q null)
      → new ≢ cur
      → Makes w q cur
          ((cur, c) ∷ (new, nc) ∷ [])
          ((new, nc) ∷ (cur, c) ∷ [])
          (insert_walk (suc k) new cur w)
  unfolding insert_walk write
  append_last k {cur} {c} {q} ne e other = (
    write (write w.nodes cur (some (node c q new))) new (some (node nc cur null)),
    ground arith,
    cons ne (ground arith) (ground arith) (cons new_ne (ground arith) refl nil),
    ground arith,
  )

  put_here :
      {cur c q p d nx : Ptr} {xs : Cells}
      → cur ≢ null
      → w.nodes cur ≡ some (node c q p)
      → cur ∉ (p, d) ∷ xs
      → p ≢ null
      → w.nodes p ≡ some (node d cur nx)
      → p ∉ xs
      → Chain w.nodes p nx xs
      → new ∉ (cur, c) ∷ (p, d) ∷ xs
      → Makes w q cur
          ((cur, c) ∷ (new, nc) ∷ (p, d) ∷ xs)
          ((new, nc) ∷ (cur, c) ∷ (p, d) ∷ xs)
          (put_before new p w)
  unfolding write
  put_here {cur} {c} {q} {p} {d} {nx} {xs} ne e out p_ne at_p p_out s fresh = (
    linked w.nodes new nc cur c q p d nx,
    put_before_lem w new nc cur c q p d nx at_new e at_p (ground arith) (ground arith)
        (ground arith),
    cons ne (ground arith) (ground arith) (
        cons new_ne (ground arith) (ground arith)
          (cons p_ne (ground arith) p_out (frame s (ground arith)))),
    ground arith,
  )

  insert_walk-step :
      (k : ℕ) {cur c q p d nx : Ptr}
      → w.nodes cur ≡ some (node c q p)
      → p ≢ null
      → w.nodes p ≡ some (node d cur nx)
      → IsNamed w.threads d
      → insert_walk (suc k) new cur w ≡ (
          if text_lt (name_or w.threads nc) (name_or w.threads d)
          then put_before new p w
          else insert_walk k new p w)
  unfolding insert_walk
  insert_walk-step k {p} e p_ne at_p d_named =
      ground (arith, is_before_lem w new p at_new at_p named d_named)

  is_node-insert_cell :
      (a : Ptr) (xs : Cells)
      → is_node a (insert_cell w.threads (new, nc) xs) ≡ ((a == new) || is_node a xs)
  unfolding insert_cell
  is_node-insert_cell a [] = refl
  is_node-insert_cell a ((p, c) ∷ xs) = ground (arith, is_node-insert_cell a xs)

  -- From a node that is not behind the new one in the order, the walk puts the new one in its place.
  pub insert_walk-Makes :
      (k : ℕ) {cur c q p : Ptr} {xs : Cells}
      → cur ≢ null
      → w.nodes cur ≡ some (node c q p)
      → cur ∉ xs
      → Chain w.nodes cur p xs
      → new ∉ (cur, c) ∷ xs
      → AllNamed w.threads xs
      → length xs < k
      → Makes w q cur
          ((cur, c) ∷ insert_cell w.threads (new, nc) xs)
          ((new, nc) ∷ (cur, c) ∷ xs)
          (insert_walk k new cur w)
  unfolding insert_cell
  insert_walk-Makes zero ne e out s fresh all h = absurd (omega arith)
  insert_walk-Makes (suc k) ne e out nil fresh all h = append_last k ne e (ground arith)
  insert_walk-Makes (suc k) {cur} {c} ne e out (cons {p} {c = d} {xs = ys} p_ne at_p p_out s) fresh
        (d_named, all) h =
      elim (Bool-cases (text_lt (name_or w.threads nc) (name_or w.threads d))) [
        | inl less ↦
            rw (insert_walk-step k e p_ne at_p d_named, less)
              (put_here ne e out p_ne at_p p_out s fresh)
        | inr more ↦
            let (g, r, chain, same) =
              insert_walk-Makes k p_ne at_p p_out s (ground arith) all (omega arith) in
            rw (insert_walk-step k e p_ne at_p d_named, more)
              (
                g,
                r,
                cons ne (ground (arith, same cur)) (ground (arith, is_node-insert_cell cur ys))
                    chain,
                λ a o. same a (ground arith),
              )
      ]
