-- ===== src/Session/Joining.antt =====
-- What `spawn_client_thread` does with a client behind its name negotiation.
use csse2310_assignment.Base.{suc, ◌≡◌, ◌≢◌, refl, ◌∙◌, true, false, none, some, ◌++◌, arith}
use csse2310_assignment.Libc.{Text, codes}
use csse2310_assignment.ClientThread.{ClientThread}
use csse2310_assignment.World.{
  Ptr, null, ClientNode, World, Memory, Outcome, done, fault, write, load_node, load_thread, ◌>>◌,
}
use csse2310_assignment.ClientList.{
  init_node, add_behind, add_node, add_client, is_before, name_of, node,
}
use csse2310_assignment.ClientList.Broadcast.{has_client}
use csse2310_assignment.ClientList.Chain.{Cells, Chain, nil, cons}
use csse2310_assignment.ClientList.Names.{HasName, name_or, name_or-HasName, insert_cell}
use csse2310_assignment.ServerUtils.{name_negotiate, printable_name}
use csse2310_assignment.ServerUtils.Negotiate.{Named}
use csse2310_assignment.ServerUtils.FreeNames.{Unused}
use csse2310_assignment.ServerThreads.{announce}
use csse2310_assignment.Session.{IsServing}
use csse2310_assignment.Session.Frame.{Quiet-IsServing}
use csse2310_assignment.Session.Quietly.{
  Quietly, Anything, Quietly-then, Quietly-print, Ensures-done,
}
use csse2310_assignment.Session.Calls.{Quietly-printable_name, Quietly-send_all_clients}
use csse2310_assignment.Session.Insertion.{has_client-insert_cell, add_client-IsServing}

Quietly-announce :
    {xs : Cells} (client : Ptr)
    → has_client client xs ≡ true
    → Quietly xs Anything (announce client)
unfolding announce
Quietly-announce client within = Quietly-then _ _ (Quietly-printable_name client within) λ name.
    Quietly-then _ _ (Quietly-send_all_clients (codes "ENTER:" ++ name))
      λ _. Quietly-print (codes "(" ++ (name ++ codes " has entered the chat)\n"))

module _ (w : World) (client : Ptr) (c : ClientThread) (at : w.threads client ≡ some c)
    (no_name : c.name ≡ none) where
  announce-nameless : announce client w ≡ fault
  unfolding announce printable_name load_thread
  announce-nameless = ground (arith, at, no_name)

  name_of-nameless : name_of client w ≡ fault
  unfolding name_of load_thread
  name_of-nameless = ground (arith, at, no_name)

  add_client-nameless :
      (n : ClientNode)
      → w.clients.head ≢ null
      → w.nodes w.clients.head ≡ some n
      → w.nodes w.fresh ≡ none
      → add_client client w ≡ fault
  unfolding add_client init_node write add_node add_behind is_before load_node load_thread name_of
  add_client-nameless n ne e unused =
      let differs : w.clients.head ≢ w.fresh = λ q. cc (rw q at e, unused) in
      ground (arith, at, no_name, e)

add_client-empty :
    (w : World) (client : Ptr)
    → w.clients.head ≡ null
    → add_client client w
      ≡ done tt (record w {
        nodes = write w.nodes w.fresh (some (node client null null));
        fresh = suc w.fresh;
        clients = record w.clients { head = w.fresh };
      })
unfolding add_client init_node add_node
add_client-empty w client e = ground (arith, e)

-- A client with no name crashes the server: its name is read, by the comparison with the name of the
-- head or by the announcement.
pub nameless-fault :
    (w : World) {before head : Ptr} {xs : Cells} (client : Ptr) (c : ClientThread)
    → w.clients.head ≡ head
    → Chain w.nodes before head xs
    → w.nodes w.fresh ≡ none
    → w.threads client ≡ some c
    → c.name ≡ none
    → (add_client client >> announce client) w ≡ fault
nameless-fault w client c at_head nil unused at no_name =
    rw (add_client-empty w client at_head) (announce-nameless _ client c at no_name)
nameless-fault w client c at_head (cons {before} {c = d} {q} p_ne e out s) unused at no_name =
    let ne : w.clients.head ≢ null = rw at_head p_ne in
    let found = rw (← at_head) at e in
    rw (add_client-nameless w client c at no_name _ ne found unused) refl

-- The negotiation that starts from `before` gave the client no name, and the server crashed on it.
pub record Crashed (client : Ptr) (before : World) (r : Outcome (Unit {0})) : Type 0 where
  pub refused : World
  pub negotiated : name_negotiate client before ≡ done tt refused
  pub after : ClientThread
  pub holds : refused.threads client ≡ some after
  pub no_name : after.name ≡ none
  pub inactive : after.is_active ≡ false
  pub crashes : r ≡ fault

-- The negotiation that starts from `before` gave the client a name that no client of the list had, and it
-- is in the list, in the place of its name.
pub record Joined (client : Ptr) (before : World) (xs : Cells) (r : Outcome (Unit {0}))
    : Type 0 where
  pub named_world : World
  pub negotiated : name_negotiate client before ≡ done tt named_world
  pub name : Text
  pub has_name : HasName named_world.threads client name
  pub unused : Unused named_world.threads name xs
  pub w' : World
  pub returns : r ≡ done tt w'
  pub at : Ptr
  pub is_serving : IsServing w' (insert_cell named_world.threads (at, client) xs)

-- The client is gone.
pub record TurnedAway (client : Ptr) (xs : Cells) (r : Outcome (Unit {0})) : Type 0 where
  pub w' : World
  pub returns : r ≡ done tt w'
  pub freed : w'.threads client ≡ none
  pub is_serving : IsServing w' xs

-- What `admit` does after the negotiation.
pub negotiated-Joined :
    (before w : World) (client : Ptr) (c after : ClientThread) {xs : Cells}
    {t : Memory ClientThread}
    → name_negotiate client before ≡ done tt w
    → IsServing w xs
    → has_client client xs ≡ false
    → w.threads client ≡ some after
    → (n : Named t xs c after) → Unused w.threads n.name xs
    → Joined client before xs ((add_client client >> announce client) w)
negotiated-Joined before w client c after {xs} run s away holds n unused =
    let has : HasName w.threads client n.name = record {
      thread = after;
      holds = holds;
      named = n.named;
    } in
    let is : name_or w.threads client ≡ n.name = name_or-HasName has in
    let (w1, r, s1, same) = add_client-IsServing w client s (n.name, has) away (rw is unused) in
    let xs1 = insert_cell w.threads (w.fresh, client) xs in
    let within : has_client client xs1 ≡ true =
      has_client-insert_cell w.threads w.fresh client client xs ∙ ground arith in
    let (u, w2, r2, q) =
      Ensures-done (announce client w1) ((Quietly-announce client within).run w1 s1) in
    record {
      named_world = w;
      negotiated = run;
      name = n.name;
      has_name = has;
      unused = unused;
      w' = w2;
      returns = rw r r2;
      at = w.fresh;
      is_serving = Quiet-IsServing q.1 s1;
    }
