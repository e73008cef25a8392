-- ===== src/ClientList/FreeList.antt =====
-- What `free_client_list` gives back.
use csse2310_assignment.Base.{
  ℕ, zero, suc, ◌<◌, ◌≡◌, refl, ◌∙◌, false, none, some, [], ◌∷◌, arith, ◌==◌, if◌then◌else◌, length,
}
use csse2310_assignment.World.{
  Ptr, null, ClientNode, World, Memory, Outcome, done, write, load_node, load_thread,
  free_client_thread,
}
use csse2310_assignment.ClientThread.{ClientThread}
use csse2310_assignment.ClientList.{free_node, free_walk, free_client_list, node}
use csse2310_assignment.ClientList.Broadcast.{has_client, Distinct}
use csse2310_assignment.ClientList.Chain.{Cells, Chain, nil, cons, IsList, is_node, frame-write}
use csse2310_assignment.ClientList.Find.{IsHeld, AllHeld}

-- The nodes and the clients of the list are gone, and nothing else is.
pub record Freed (w : World) (xs : Cells) (r : Outcome (Unit {0})) : Type 0 where
  pub nodes : Memory ClientNode
  pub threads : Memory ClientThread
  pub returns : r ≡ done tt (record w { nodes = nodes; threads = threads })
  pub nodes_gone : (a : Ptr) → nodes a ≡ (if is_node a xs then none else w.nodes a)
  pub threads_gone : (a : Ptr) → threads a ≡ (if has_client a xs then none else w.threads a)

AllHeld-write :
    (t : Memory ClientThread) (c : Ptr) (xs : Cells)
    → has_client c xs ≡ false
    → AllHeld t xs
    → AllHeld (write t c none) xs
unfolding write
AllHeld-write t c [] away all = tt
AllHeld-write t c ((p, d) ∷ xs) away ((thread, at), all) =
    ((thread, ground arith), AllHeld-write t c xs (ground arith) all)

abbrev without : World → Ptr → Ptr → World
without w cur c = record w { nodes = write w.nodes cur none; threads = write w.threads c none }

free_walk-step :
    (w : World) (k : ℕ) {cur c before q : Ptr}
    → (cur == null) ≡ false
    → w.nodes cur ≡ some (node c before q)
    → IsHeld w.threads c
    → free_walk (suc k) cur w ≡ free_walk k q (without w cur c)
unfolding free_walk free_node load_node load_thread free_client_thread
free_walk-step w k ne at (thread, holds) = ground (arith, ne, at, holds)

free_walk-Freed :
    (k : ℕ) (w : World) {before cur : Ptr} {xs : Cells}
    → Chain w.nodes before cur xs
    → AllHeld w.threads xs
    → Distinct xs
    → length xs < k
    → Freed w xs (free_walk k cur w)
unfolding free_walk write
free_walk-Freed zero w s all distinct h = absurd (omega arith)
free_walk-Freed (suc k) w nil all distinct h = record {
  nodes = w.nodes;
  threads = w.threads;
  returns = refl;
  nodes_gone = λ a. refl;
  threads_gone = λ a. refl;
}
free_walk-Freed (suc k) w (cons {p} {c} {xs = ys} ne at out s) (held, all) (once, distinct) h =
    let rest =
      free_walk-Freed k (without w p c) (frame-write p none s out)
        (AllHeld-write w.threads c ys once all) distinct (omega (arith, h)) in
    record {
      nodes = rest.nodes;
      threads = rest.threads;
      returns = free_walk-step w k (ground arith) at held ∙ rest.returns;
      nodes_gone = λ a. rest.nodes_gone a ∙ ground arith;
      threads_gone = λ a. rest.threads_gone a ∙ ground arith;
    }

-- A list that is linked well, and whose clients are allocated and distinct, can be freed: no node and no
-- client is used after it was given back or given back twice, all of them are given back, and nothing
-- else is.
pub free_client_list-Freed :
    (w : World) {xs : Cells}
    → IsList w xs
    → AllHeld w.threads xs
    → Distinct xs
    → Freed w xs (free_client_list w)
unfolding free_client_list
free_client_list-Freed w l all distinct =
    free_walk-Freed (suc w.fresh) w l.chain all distinct (omega (arith, l.fits))
