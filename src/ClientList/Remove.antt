-- ===== src/ClientList/Remove.antt =====
-- `remove_client` takes a client out of the list and frees it and its node.
use csse2310_assignment.Base.{
  true, ℕ, zero, suc, ◌<◌, ◌≡◌, ◌≢◌, inl, inr, refl, false, none, some, [], ◌∷◌, arith, ◌==◌,
  ==_iff, if◌then◌else◌, Bool-cases, length,
}
use csse2310_assignment.ClientThread.{ClientThread}
use csse2310_assignment.World.{Ptr, null, ClientNode, World, Memory, Outcome, done, write}
use csse2310_assignment.ClientList.{node, remove_node, remove_walk}
use csse2310_assignment.ClientList.Chain.{Cells, is_node, ◌∉◌, ChangesOnly, Chain, nil, cons, frame}
use csse2310_assignment.ClientList.Find.{IsHeld}
use csse2310_assignment.ClientList.Broadcast.{has_client}

-- Drops the first node of that client.
unfoldable pub remove_cell : Ptr → Cells → Cells
remove_cell client [] = []
remove_cell client ((p, c) ∷ xs) = if c == client then xs else (p, c) ∷ remove_cell client xs

-- The client behind an address is gone if the list had it.
abbrev pub freed : Ptr → Cells → Memory ClientThread → Memory ClientThread
freed client xs t = if has_client client xs then write t client none else t

-- The state is as before but for the nodes, which hold the segment `result` from `p`, and the client.
abbrev pub Leaves : World → Ptr → Ptr → Ptr → Cells → Cells → Outcome (Unit {0}) → Type 0
Leaves w client before p result touched r =
    (g : Memory ClientNode) × (r
      ≡ done tt (record w { nodes = g; threads = freed client touched w.threads }))
    × Chain g before p result
    × ChangesOnly touched w.nodes g
    × ((a : Ptr) → is_node a touched ≡ true → a ∉ result → g a ≡ none)

module _ (w : World) (client : Ptr) (held : IsHeld w.threads client) where
  -- A node behind another one that is not the head is unlinked and freed.
  remove_last :
      {cur c q p : Ptr}
      → cur ≢ null
      → w.nodes cur ≡ some (node c q p)
      → p ≢ null
      → w.nodes p ≡ some (node client cur null)
      → cur ≢ p
      → w.clients.head ≢ p
      → Leaves w client q cur ((cur, c) ∷ []) ((cur, c) ∷ (p, client) ∷ []) (remove_node p w)
  unfolding remove_node write
  remove_last {cur} {c} {q} {p} ne e p_ne at_p other not_head = (
    write (write w.nodes cur (some (node c q null))) p none,
    ground arith,
    cons ne (ground arith) refl nil,
    ground arith,
    λ a i o. ground arith,
  )

  remove_inner :
      {cur c q p d nx nnx : Ptr} {xs : Cells}
      → cur ≢ null
      → w.nodes cur ≡ some (node c q p)
      → cur ∉ (p, client) ∷ (nx, d) ∷ xs
      → p ≢ null
      → w.nodes p ≡ some (node client cur nx)
      → p ∉ (nx, d) ∷ xs
      → nx ≢ null
      → w.nodes nx ≡ some (node d p nnx)
      → nx ∉ xs
      → Chain w.nodes nx nnx xs
      → w.clients.head ≢ p
      → Leaves w client q cur
          ((cur, c) ∷ (nx, d) ∷ xs)
          ((cur, c) ∷ (p, client) ∷ (nx, d) ∷ xs)
          (remove_node p w)
  unfolding remove_node write
  remove_inner {cur} {c} {q} {p} {d} {nx} {nnx} ne e out p_ne at_p p_out nx_ne at_nx nx_out s
        not_head =
      (
        write (write (write w.nodes cur (some (node c q nx))) nx (some (node d cur nnx))) p none,
        ground arith,
        cons ne (ground arith) (ground arith)
            (cons nx_ne (ground arith) nx_out (frame s (ground arith))),
        ground arith,
        λ a i o. ground arith,
      )

  remove_here :
      {cur c q p nx : Ptr} {xs : Cells}
      → cur ≢ null
      → w.nodes cur ≡ some (node c q p)
      → cur ∉ (p, client) ∷ xs
      → p ≢ null
      → w.nodes p ≡ some (node client cur nx)
      → p ∉ xs
      → Chain w.nodes p nx xs
      → w.clients.head ≢ p
      → Leaves w client q cur ((cur, c) ∷ xs) ((cur, c) ∷ (p, client) ∷ xs) (remove_node p w)
  remove_here ne e out p_ne at_p p_out nil not_head =
      remove_last ne e p_ne at_p (ground arith) not_head
  remove_here ne e out p_ne at_p p_out (cons nx_ne at_nx nx_out s) not_head =
      remove_inner ne e out p_ne at_p p_out nx_ne at_nx nx_out s not_head

  is_node-remove_cell : (a : Ptr) (xs : Cells) → a ∉ xs → a ∉ remove_cell client xs
  unfolding remove_cell
  is_node-remove_cell a [] out = refl
  is_node-remove_cell a ((p, c) ∷ xs) out = ground (arith, is_node-remove_cell a xs)

  pub remove_walk-step :
      (k : ℕ) {p d q nx : Ptr}
      → p ≢ null
      → w.nodes p ≡ some (node d q nx)
      → remove_walk (suc k) client p w
        ≡ (if d == client then remove_node p w else remove_walk k client nx w)
  unfolding remove_walk
  remove_walk-step k p_ne at_p = ground arith

  freed-skip :
      (p c : Ptr) (xs : Cells)
      → (c == client) ≡ false
      → freed client ((p, c) ∷ xs) w.threads ≡ freed client xs w.threads
  freed-skip p c xs miss = let other : (client == c) ≡ false = ground arith in rw other

  pub remove_walk-Leaves :
      (k : ℕ) {cur c q p : Ptr} {xs : Cells}
      → cur ≢ null
      → w.nodes cur ≡ some (node c q p)
      → cur ∉ xs
      → Chain w.nodes cur p xs
      → (c == client) ≡ false
      → w.clients.head ∉ xs
      → length xs < k
      → Leaves w client q cur
          ((cur, c) ∷ remove_cell client xs)
          ((cur, c) ∷ xs)
          (remove_walk k client p w)
  unfolding remove_cell
  remove_walk-Leaves zero ne e out s miss not_head h = absurd (omega arith)
  remove_walk-Leaves (suc k) ne e out nil miss not_head h = (
    w.nodes,
    unfold remove_walk in ground arith,
    cons ne e out nil,
    λ a o. refl,
    λ a i o. ground arith,
  )
  remove_walk-Leaves (suc k) {cur} {c} ne e out (cons {p} {c = d} {xs = ys} p_ne at_p p_out s) miss
        not_head h =
      elim (Bool-cases (d == client)) [
        | inl hit ↦
            let same = (==_iff d client).0 hit in
            rw (remove_walk-step k p_ne at_p, hit)
              (rw same (remove_here ne e out p_ne (rw same at at_p) p_out s (ground arith)))
        | inr more ↦
            let (g, r, chain, same, gone) =
              remove_walk-Leaves k p_ne at_p p_out s more (ground arith) (omega arith) in
            rw (remove_walk-step k p_ne at_p, more)
              (
                g,
                rw (freed-skip cur c ((p, d) ∷ ys) miss) r,
                cons ne (ground (arith, same cur)) (ground (arith, is_node-remove_cell cur ys))
                    chain,
                λ a o. same a (ground arith),
                λ a i o. ground (arith, gone a),
              )
      ]
