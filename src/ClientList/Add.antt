-- ===== src/ClientList/Add.antt =====
-- `add_client`: the whole of the insertion, from any list.
use csse2310_assignment.Base.{
  ℕ, suc, ◌≤◌, ◌<◌, ◌≡◌, ◌≢◌, inl, inr, refl, sym, subst, ◌∙◌, true, false, none, some, [], ◌∷◌,
  arith, if◌then◌else◌, Bool-cases, length,
}
use csse2310_assignment.Libc.Compare.{text_lt}
use csse2310_assignment.ClientThread.{ClientThread}
use csse2310_assignment.World.{Ptr, null, World, Memory, Outcome, done, write}
use csse2310_assignment.ClientList.{
  node, init_node, set_prev, set_next, add_behind, add_node, add_client,
}
use csse2310_assignment.ClientList.Chain.{
  Cells, ◌∉◌, ChangesOnly, Chain, nil, cons, frame, frame-write, IsList, not-mem_of_none,
}
use csse2310_assignment.ClientList.Names.{IsNamed, AllNamed, name_or, insert_cell, is_before_lem}
use csse2310_assignment.ClientList.Insert.{insert_walk-Makes}

-- All but the nodes and the head pointer is as before.
pub record KeepsRest (w w' : World) : Type 0 where
  pub threads : w'.threads ≡ w.threads
  pub password : w'.clients.password ≡ w.clients.password
  pub stats : w'.clients.stats ≡ w.clients.stats
  pub stdout : w'.stdout ≡ w.stdout

-- The outcome of an insertion into a list whose nodes are `xs`.
abbrev pub Added : World → Cells → Cells → ℕ → Outcome (Unit {0}) → Type 0
Added w result touched bound r =
    (w' : World) × (before : Ptr) × (r ≡ done tt w')
    × Chain w'.nodes before w'.clients.head result
    × KeepsRest w w'
    × (w'.fresh ≡ bound)
    × ChangesOnly touched w.nodes w'.nodes

length-insert_cell :
    (t : Memory ClientThread) (x : Ptr × Ptr) (xs : Cells)
    → length (insert_cell t x xs) ≡ suc (length xs)
unfolding insert_cell
length-insert_cell t (p, c) [] = refl
length-insert_cell t (p, c) ((q, d) ∷ xs) = ground (arith, length-insert_cell t (p, c) xs)

insert_cell-cons :
    (t : Memory ClientThread) (x y : Ptr × Ptr) (xs : Cells)
    → insert_cell t x (y ∷ xs)
      ≡ (if text_lt (name_or t x.1) (name_or t y.1) then x ∷ y ∷ xs else y ∷ insert_cell t x xs)
unfolding insert_cell
insert_cell-cons t x y xs = refl

module _ (w : World) (new nc : Ptr) (new_ne : new ≢ null)
    (at_new : w.nodes new ≡ some (node nc null null)) (named : IsNamed w.threads nc) where
  add_behind-front :
      {head c q before : Ptr} {xs : Cells}
      → head ≢ null
      → w.nodes head ≡ some (node c before q)
      → head ∉ xs
      → Chain w.nodes head q xs
      → new ∉ (head, c) ∷ xs
      → IsNamed w.threads c
      → text_lt (name_or w.threads nc) (name_or w.threads c) ≡ true
      → Added w
          ((new, nc) ∷ (head, c) ∷ xs)
          ((new, nc) ∷ (head, c) ∷ xs)
          w.fresh
          (add_behind new head w)
  unfolding add_behind set_prev set_next write
  add_behind-front {head} {c} {q} ne e out s fresh c_named less = (
    record w {
      nodes = write (write w.nodes head (some (node c new q))) new (some (node nc null head));
      clients = record w.clients { head = new };
    },
    null,
    ground (arith, is_before_lem w new head at_new e named c_named),
    cons new_ne (ground arith) (ground arith) (cons ne (ground arith) out (frame s (ground arith))),
    record { threads = refl; password = refl; stats = refl; stdout = refl },
    refl,
    λ a o. ground arith,
  )

  add_behind-walk :
      {head c q before : Ptr} {xs : Cells}
      → head ≢ null
      → w.clients.head ≡ head
      → w.nodes head ≡ some (node c before q)
      → head ∉ xs
      → Chain w.nodes head q xs
      → new ∉ (head, c) ∷ xs
      → IsNamed w.threads c
      → AllNamed w.threads xs
      → length xs < w.fresh
      → text_lt (name_or w.threads nc) (name_or w.threads c) ≡ false
      → Added w
          ((head, c) ∷ insert_cell w.threads (new, nc) xs)
          ((new, nc) ∷ (head, c) ∷ xs)
          w.fresh
          (add_behind new head w)
  unfolding add_behind
  add_behind-walk {head} {c} {before} {xs} ne at_head e out s fresh c_named all fits more =
      let (g, r, chain, same) =
        insert_walk-Makes w new nc new_ne at_new named (suc w.fresh) ne e out s fresh all
          (omega arith) in
      (
        record w { nodes = g },
        before,
        ground (arith, is_before_lem w new head at_new e named c_named),
        subst (λ x. Chain g before x ((head, c) ∷ insert_cell w.threads (new, nc) xs)) (sym at_head)
            chain,
        record { threads = refl; password = refl; stats = refl; stdout = refl },
        refl,
        same,
      )

  add_node-behind :
      {head : Ptr} → w.clients.head ≡ head → head ≢ null → add_node new w ≡ add_behind new head w
  unfolding add_node
  add_node-behind at_head ne = rw at_head (ground arith)

  pub add_node-Added :
      {before head : Ptr} {xs : Cells}
      → w.clients.head ≡ head
      → Chain w.nodes before head xs
      → new ∉ xs
      → AllNamed w.threads xs
      → length xs ≤ w.fresh
      → Added w (insert_cell w.threads (new, nc) xs) ((new, nc) ∷ xs) w.fresh (add_node new w)
  add_node-Added at_head nil fresh all fits =
      unfold add_node insert_cell in
      (
        record w { clients = record w.clients { head = new } },
        null,
        ground arith,
        cons new_ne at_new refl nil,
        record { threads = refl; password = refl; stats = refl; stdout = refl },
        refl,
        λ a o. refl,
      )
  add_node-Added at_head (cons {p} {c} {xs = ys} ne e out s) fresh (c_named, all) fits =
      elim (Bool-cases (text_lt (name_or w.threads nc) (name_or w.threads c))) [
        | inl less ↦
            rw (insert_cell-cons w.threads (new, nc) (p, c) ys, less, add_node-behind at_head ne)
              (add_behind-front ne e out s fresh c_named less)
        | inr more ↦
            rw (insert_cell-cons w.threads (new, nc) (p, c) ys, more, add_node-behind at_head ne)
              (add_behind-walk ne at_head e out s fresh c_named all fits more)
      ]

-- What `add_client` needs of the world: a list of named clients, and unused addresses from `fresh` on.
pub record CanAdd (w : World) (xs : Cells) : Type 0 where
  pub is_list : IsList w xs
  pub named : AllNamed w.threads xs
  pub fresh_ne : w.fresh ≢ null
  pub unused : w.nodes w.fresh ≡ none

-- All but the head pointer, the new node and the nodes of the list is as before.
pub record Grown (w : World) (nc : Ptr) (xs : Cells) (w' : World) : Type 0 where
  pub threads : w'.threads ≡ w.threads
  pub password : w'.clients.password ≡ w.clients.password
  pub stats : w'.clients.stats ≡ w.clients.stats
  pub stdout : w'.stdout ≡ w.stdout
  pub fresh : w'.fresh ≡ suc w.fresh
  pub nodes : ChangesOnly ((w.fresh, nc) ∷ xs) w.nodes w'.nodes

-- `add_client` puts a named client, in a new node, in front of the first one whose name is greater.
-- The nodes stay linked both ways, and all else stays as it was.
pub add_client-insert :
    (w : World) (nc : Ptr) {xs : Cells}
    → CanAdd w xs
    → IsNamed w.threads nc
    → (w' : World) × (add_client nc w ≡ done tt w')
      × IsList w' (insert_cell w.threads (w.fresh, nc) xs)
      × Grown w nc xs w'
unfolding add_client init_node write
add_client-insert w nc {xs} can named =
    let l = can.is_list in
    let new = w.fresh in
    let w1 : World = record w {
      nodes = write w.nodes new (some (node nc null null));
      fresh = suc new;
    } in
    let out = not-mem_of_none new l.chain can.unused in
    let (w', before, r, chain, keeps, fresh, same) =
      add_node-Added w1 new nc can.fresh_ne (ground arith) named refl
        (frame-write new (some (node nc null null)) l.chain out) out can.named (omega arith) in
    (
      w',
      r,
      record {
        before = before;
        chain = chain;
        fits = omega (arith, length-insert_cell w.threads (new, nc) xs);
      },
      record {
        threads = keeps.threads;
        password = keeps.password;
        stats = keeps.stats;
        stdout = keeps.stdout;
        fresh = fresh;
        nodes = λ a o. same a o ∙ ground arith;
      },
    )
