-- ===== src/Session/Spawning.antt =====
-- `spawn_client_thread`: a new client is turned away, or joins the list, or crashes the server.
use csse2310_assignment.Base.{
  suc, ◌≡◌, ◌≢◌, ◌⊎◌, ◌↔◌, refl, sym, subst, ◌∙◌, Bool, true, false, none, some, arith, inl, inr,
}
use csse2310_assignment.LineList.{Stream}
use csse2310_assignment.ClientThread.{ClientThread, init_client_thread}
use csse2310_assignment.World.{Ptr, World, Outcome, done, write, load_thread, set_thread}
use csse2310_assignment.ClientList.Chain.{Cells}
use csse2310_assignment.ClientList.Find.{AllNamed-AllHeld}
use csse2310_assignment.ServerUtils.{authenticate_client}
use csse2310_assignment.ServerUtils.Steps.{write_self, get_active_status-step}
use csse2310_assignment.ServerUtils.Negotiate.Walk.{name_negotiate-Negotiated}
use csse2310_assignment.ServerThreads.{admit, spawn_client_thread}
use csse2310_assignment.Session.{IsServing}
use csse2310_assignment.Session.Admission.{Own, Own-trans, authenticate_client-Touched}
use csse2310_assignment.Session.Insertion.{has_client-unheld, Unused-beside, IsServing-beside}
use csse2310_assignment.Session.Judging.{Passes, judged}
use csse2310_assignment.Session.Joining.{
  TurnedAway, Joined, Crashed, negotiated-Joined, nameless-fault,
}

-- The memory when the new client's record has been set up.
abbrev pub started : Stream → World → World
started stream w = set_thread (record w { fresh = suc w.fresh }) w.fresh (init_client_thread stream)

spawn_client_thread-step :
    (w : World) (stream : Stream) (w2 : World) (c : ClientThread)
    → authenticate_client w.fresh (started stream w) ≡ done tt w2
    → w2.threads w.fresh ≡ some c
    → spawn_client_thread stream w ≡ admit w.fresh c.is_active w2
unfolding spawn_client_thread
spawn_client_thread-step w stream w2 c r at = rw (r, get_active_status-step w2 w.fresh c at) refl

-- The record of the new client is the only one that changed.
started-others :
    (w : World) (stream : Stream) (a : Ptr)
    → a ≢ w.fresh
    → (started stream w).threads a ≡ w.threads a
unfolding write
started-others w stream a other = ground (arith, other)

-- Any world that differs from the one before in the new client's record.
beside-IsServing :
    {w w2 : World} {xs : Cells} (stream : Stream)
    → IsServing w xs
    → Own w.fresh (started stream w) w2
    → IsServing w2 xs
beside-IsServing {w} stream s own =
    IsServing-beside s (λ a other. own.others a other ∙ started-others w stream a other) own.nodes
      own.head own.fresh

admit-away :
    (w2 : World) (client : Ptr) (c : ClientThread)
    → w2.threads client ≡ some c
    → admit client false w2 ≡ done tt (record w2 { threads = write w2.threads client none })
unfolding admit load_thread
admit-away w2 client c at = ground (arith, at)

free-Own :
    (w2 : World) (client : Ptr)
    → Own client w2 (record w2 { threads = write w2.threads client none })
unfolding write
free-Own w2 client = record {
  others = λ a other. ground (arith, other);
  nodes = refl;
  head = refl;
  fresh = refl;
}

new-nameless : (stream : Stream) → (init_client_thread stream).name ≡ none
unfolding init_client_thread
new-nameless stream = refl

-- What the verdict of the authentication leads to.
abbrev pub Ends : Bool → Ptr → World → Cells → Outcome (Unit {0}) → Type 0
Ends false client before xs r = TurnedAway client xs r
Ends true client before xs r = Joined client before xs r ⊎ Crashed client before r

-- How the call ends, with the verdict of the authentication and the memory that it leaves.
pub record Spawned (w : World) (stream : Stream) (xs : Cells) (r : Outcome (Unit {0}))
    : Type 0 where
  pub passed : Bool
  pub means : (passed ≡ true) ↔ Passes w.clients.password stream
  pub before : World
  pub authenticates : authenticate_client w.fresh (started stream w) ≡ done tt before
  pub ends : Ends passed w.fresh before xs r

module _ (w : World) (stream : Stream) {xs : Cells} (s : IsServing w xs) where
  -- The client is not active after its authentication.
  turned_away :
      (w2 : World) (c : ClientThread)
      → Own w.fresh (started stream w) w2
      → w2.threads w.fresh ≡ some c
      → TurnedAway w.fresh xs (admit w.fresh false w2)
  unfolding write
  turned_away w2 c own at = record {
    w' = record w2 { threads = write w2.threads w.fresh none };
    returns = admit-away w2 w.fresh c at;
    freed = ground arith;
    is_serving = beside-IsServing stream s (Own-trans own (free-Own w2 w.fresh));
  }

  -- The client is active after its authentication.
  admitted :
      (w2 : World) (c : ClientThread)
      → Own w.fresh (started stream w) w2
      → w2.threads w.fresh ≡ some c
      → c.name ≡ none
      → Joined w.fresh w2 xs (admit w.fresh true w2) ⊎ Crashed w.fresh w2 (admit w.fresh true w2)
  unfolding admit
  admitted w2 c own at no_name =
      let s2 = beside-IsServing stream s own in
      let n = name_negotiate-Negotiated w.fresh xs w2 c (record {
        at = at;
        is_list = s2.is_list;
        held = AllNamed-AllHeld w2.threads xs s2.named;
        no_null = s2.no_null;
      }) in
      let own3 : Own w.fresh w2 n.w' = record {
        others = n.keeps.others;
        nodes = n.keeps.nodes;
        head = n.keeps.head;
        fresh = n.keeps.fresh;
      } in
      let s3 = beside-IsServing stream s (Own-trans own own3) in
      let away =
        has_client-unheld w.threads w.fresh xs s.named (s.unused w.fresh (omega arith)).1 in
      elim n.result [
        | inl named ↦
            let unused =
              Unused-beside w2.threads n.w'.threads w.fresh n.keeps.others named.name xs away
                named.unused in
            inl (
              rw n.returns (
                negotiated-Joined w2 n.w' w.fresh c n.after n.returns s3 away n.holds named unused))
        | inr (kept, off) ↦ inr (record {
          refused = n.w';
          negotiated = n.returns;
          after = n.after;
          holds = n.holds;
          no_name = kept ∙ no_name;
          inactive = off;
          crashes = rw n.returns (
              nameless-fault n.w' w.fresh n.after refl s3.is_list.chain
                (s3.unused n.w'.fresh (omega arith)).0 n.holds (kept ∙ no_name));
        })
      ]

  admit-Ends :
      (passed : Bool) (w2 : World) (c : ClientThread)
      → Own w.fresh (started stream w) w2
      → w2.threads w.fresh ≡ some c
      → c.name ≡ none
      → Ends passed w.fresh w2 xs (admit w.fresh passed w2)
  admit-Ends true w2 c own at no_name = admitted w2 c own at no_name
  admit-Ends false w2 c own at no_name = turned_away w2 c own at

  -- A client passes authentication exactly if the server has no password, or its first line is AUTH: and the
  -- password, where the password is not empty and has no colon and colons may stand in front of the line. One
  -- that does not pass is freed, and the list is as it was. One that passes and is given a name by the
  -- negotiation, which no client of the list had, is put into the list, which stays linked well, with names
  -- that are sorted and distinct. One that passes and is disabled by the negotiation has no name, and the
  -- server crashes on it.
  pub spawn_client_thread-outcome : Spawned w stream xs (spawn_client_thread stream w)
  unfolding write
  spawn_client_thread-outcome =
      let w1 = started stream w in
      let new = init_client_thread stream in
      let at = write_self w.threads w.fresh new in
      let j = judged w1 w.fresh stream w.clients.password at refl in
      let a = authenticate_client-Touched w.fresh w1 new at in
      let same_world : j.before ≡ a.w' = cc (j.authenticates, a.returns) in
      let own = rw (← same_world) at a.own in
      let holds = rw (← same_world) at a.holds in
      let step = spawn_client_thread-step w stream j.before j.after j.authenticates j.holds in
      record {
        passed = j.passed;
        means = j.means;
        before = j.before;
        authenticates = j.authenticates;
        ends =
            subst (Ends j.passed w.fresh j.before xs) (sym (step ∙ rw j.active refl))
              (admit-Ends j.passed j.before a.after own holds (a.same_name ∙ new-nameless stream));
      }
