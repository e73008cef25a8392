-- ===== src/ClientList/Chain.antt =====
-- Doubly linked segments of nodes in memory, and what they stand for.
use csse2310_assignment.Base.{
  ◌≤◌, ◌≡◌, ◌≢◌, refl, Bool, true, false, ◌||◌, Option, none, some, List, [], ◌∷◌, arith, ◌==◌,
  length,
}
use csse2310_assignment.World.{Ptr, null, ClientNode, Memory, World, write}
use csse2310_assignment.ClientList.{node}

-- The nodes of a list in order: where each stands, and its client.
abbrev pub Cells : Type 0
Cells = List (Ptr × Ptr)

abbrev pub is_node : Ptr → Cells → Bool
is_node a [] = false
is_node a (x ∷ rest) = (a == x.0) || is_node a rest

infix 40 ◌∉◌
abbrev pub ◌∉◌ : Ptr → Cells → Type 0
p ∉ xs = is_node p xs ≡ false

-- `g` differs from `h` at most at the nodes of `xs`.
abbrev pub ChangesOnly : Cells → Memory ClientNode → Memory ClientNode → Type 0
ChangesOnly xs h g = (a : Ptr) → a ∉ xs → g a ≡ h a

-- From `p` the `next` pointers lead through the nodes of `xs`, which are distinct, to `NULL`. Each
-- `prev` pointer leads back; that of the first node is `before`.
pub data Chain (h : Memory ClientNode) : Ptr → Ptr → Cells → Type 0 where
  nil : {before : Ptr} → Chain h before null []
  cons :
      {before p c q : Ptr} {xs : Cells}
      → p ≢ null
      → h p ≡ some (node c before q)
      → p ∉ xs
      → Chain h p q xs
      → Chain h before p ((p, c) ∷ xs)

-- The list in memory holds these nodes. The head's `prev` pointer is of no use, and may be anything.
pub record IsList (w : World) (xs : Cells) : Type 0 where
  pub before : Ptr
  pub chain : Chain w.nodes before w.clients.head xs
  pub fits : length xs ≤ w.fresh

module _ {h g : Memory ClientNode} where
  pub frame :
      {before p : Ptr} {xs : Cells}
      → Chain h before p xs
      → ((a : Ptr) → is_node a xs ≡ true → g a ≡ h a)
      → Chain g before p xs
  frame nil same = nil
  frame (cons {p} ne e out s) same =
      cons ne (ground (arith, same p)) out (frame s λ a i. same a (ground arith))

module _ {h : Memory ClientNode} where
  pub frame-write :
      {before p : Ptr} {xs : Cells} (a : Ptr) (c : Option ClientNode)
      → Chain h before p xs
      → a ∉ xs
      → Chain (write h a c) before p xs
  unfolding write
  frame-write a c s out = frame s (ground arith)

  pub head-cons : {before p c : Ptr} {x : Ptr} {xs : Cells} → Chain h before p ((x, c) ∷ xs) → p ≡ x
  head-cons (cons ne e out s) = refl

  -- The first node's `prev` pointer can be set.
  pub Chain-set_prev :
      {p c q : Ptr} {xs : Cells} (new : Ptr)
      → p ≢ null
      → p ∉ xs
      → Chain h p q xs
      → Chain (write h p (some (node c new q))) new p ((p, c) ∷ xs)
  unfolding write
  Chain-set_prev {p} {xs} new ne out s = cons ne (ground arith) out (frame-write p _ s out)

  pub not-mem_of_none :
      {before p : Ptr} {xs : Cells} (a : Ptr) → Chain h before p xs → h a ≡ none → a ∉ xs
  not-mem_of_none a nil unused = refl
  not-mem_of_none a (cons ne e out s) unused = ground (arith, not-mem_of_none a s unused)
