-- ===== src/ClientList/RemoveClient.antt =====
-- `remove_client` as a whole, from any list.
use csse2310_assignment.Base.{
  suc, ◌≤◌, ◌≡◌, ◌≢◌, inl, inr, refl, sym, subst, true, false, none, some, [], ◌∷◌, arith, ◌==◌,
  ==_iff, if◌then◌else◌, Bool-cases, length,
}
use csse2310_assignment.World.{Ptr, null, World, done, write}
use csse2310_assignment.ClientList.{node, remove_node, remove_walk, remove_client}
use csse2310_assignment.ClientList.Chain.{
  Cells, is_node, ◌∉◌, ChangesOnly, Chain, nil, cons, frame-write, IsList,
}
use csse2310_assignment.ClientList.Find.{IsHeld}
use csse2310_assignment.ClientList.Remove.{remove_cell, freed, remove_walk-step, remove_walk-Leaves}

-- What is left of a world whose list held the nodes `xs` when `client` is removed.
pub record Removed (w : World) (client : Ptr) (xs : Cells) (w' : World) : Type 0 where
  pub is_list : IsList w' (remove_cell client xs)
  pub same : ChangesOnly xs w.nodes w'.nodes
  pub gone : (a : Ptr) → is_node a xs ≡ true → a ∉ remove_cell client xs → w'.nodes a ≡ none
  pub threads : w'.threads ≡ freed client xs w.threads
  pub password : w'.clients.password ≡ w.clients.password
  pub stats : w'.clients.stats ≡ w.clients.stats
  pub stdout : w'.stdout ≡ w.stdout
  pub fresh : w'.fresh ≡ w.fresh

length-remove_cell : (client : Ptr) (xs : Cells) → length (remove_cell client xs) ≤ length xs
unfolding remove_cell
length-remove_cell client [] = omega arith
length-remove_cell client ((p, c) ∷ xs) = ground (arith, length-remove_cell client xs)

remove_cell-miss :
    (client p c : Ptr) (xs : Cells)
    → (c == client) ≡ false
    → remove_cell client ((p, c) ∷ xs) ≡ (p, c) ∷ remove_cell client xs
unfolding remove_cell
remove_cell-miss client p c xs miss = rw miss

module _ (w : World) (client : Ptr) (held : IsHeld w.threads client) where
  -- The head goes: the list begins with the next node, whose `prev` pointer dangles.
  remove_head :
      {p q before : Ptr}
      → w.nodes p ≡ some (node client before q)
      → w.clients.head ≡ p
      → remove_node p w
        ≡ done tt (record w {
          nodes = write w.nodes p none;
          threads = write w.threads client none;
          clients = record w.clients { head = q };
        })
  unfolding remove_node
  remove_head at_p is_head = ground arith

  remove_client-step :
      {p d q nx : Ptr}
      → w.clients.head ≡ p
      → p ≢ null
      → w.nodes p ≡ some (node d q nx)
      → remove_client client w
        ≡ (if d == client then remove_node p w else remove_walk w.fresh client nx w)
  unfolding remove_client
  remove_client-step {p} {d} {nx} at_head p_ne at_p =
      subst
        (λ x.
          remove_walk (suc w.fresh) client x w
          ≡ (if d == client then remove_node p w else remove_walk w.fresh client nx w))
        (sym at_head) (remove_walk-step w client held w.fresh p_ne at_p)

  without_head : Ptr → Ptr → World
  without_head p q = record w {
    nodes = write w.nodes p none;
    threads = write w.threads client none;
    clients = record w.clients { head = q };
  }

  without_head-Removed :
      {p q : Ptr} {xs : Cells}
      → Chain w.nodes p q xs
      → p ∉ xs
      → length xs ≤ w.fresh
      → Removed w client ((p, client) ∷ xs) (without_head p q)
  unfolding remove_cell write without_head
  without_head-Removed {p} s out fits =
      let hit : (client == client) ≡ true = ground arith in
      record {
        is_list = record {
          before = p;
          chain = rw hit (frame-write p none s out);
          fits = rw hit fits;
        };
        same = ground arith;
        gone = λ a i o. ground arith;
        threads = rw hit;
        password = refl;
        stats = refl;
        stdout = refl;
        fresh = refl;
      }

  remove_from :
      {before head : Ptr} {xs : Cells}
      → w.clients.head ≡ head
      → Chain w.nodes before head xs
      → length xs ≤ w.fresh
      → (w' : World) × (remove_client client w ≡ done tt w') × Removed w client xs w'
  unfolding without_head
  remove_from {before} at_head nil fits =
      unfold remove_cell remove_client remove_walk in
      (
        w,
        ground arith,
        record {
          is_list = record {
            before = before;
            chain = subst (λ x. Chain w.nodes before x []) (sym at_head) nil;
            fits = omega arith;
          };
          same = λ a o. refl;
          gone = λ a i o. ground arith;
          threads = refl;
          password = refl;
          stats = refl;
          stdout = refl;
          fresh = refl;
        },
      )
  remove_from {before} at_head (cons {p} {c} {q} {xs = ys} ne e out s) fits =
      elim (Bool-cases (c == client)) [
        | inl hit ↦
            let same = (==_iff c client).0 hit in
            let at_p : w.nodes p ≡ some (node client before q) = rw same at e in
            (
              without_head p q,
              rw (remove_client-step at_head ne e, hit) (remove_head at_p at_head),
              rw same (without_head-Removed s out (omega arith)),
            )
        | inr miss ↦
            let (g, r, chain, same, gone) =
              remove_walk-Leaves w client held w.fresh ne e out s miss
                (subst (λ x. x ∉ ys) (sym at_head) out) (omega arith) in
            (
              record w { nodes = g; threads = freed client ((p, c) ∷ ys) w.threads },
              rw (remove_client-step at_head ne e, miss) r,
              record {
                is_list = record {
                  before = before;
                  chain = rw (remove_cell-miss client p c ys miss) (
                      subst (λ x. Chain g before x ((p, c) ∷ remove_cell client ys)) (sym at_head)
                        chain);
                  fits = omega (arith, length-remove_cell client ((p, c) ∷ ys));
                };
                same = same;
                gone = rw (remove_cell-miss client p c ys miss) gone;
                threads = refl;
                password = refl;
                stats = refl;
                stdout = refl;
                fresh = refl;
              },
            )
      ]

  -- `remove_client` takes the client out of the list, frees its record and its node, and keeps the
  -- other nodes linked both ways; a client that is not in the list changes nothing.
  pub remove_client-Removed :
      {xs : Cells}
      → IsList w xs
      → (w' : World) × (remove_client client w ≡ done tt w') × Removed w client xs w'
  remove_client-Removed l = remove_from refl l.chain l.fits
