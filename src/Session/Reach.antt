-- ===== src/Session/Reach.antt =====
-- The server from its start: new clients, and the threads of those in the list, in any order.
use csse2310_assignment.Base.{
  ◌≡◌, refl, sym, subst, Bool, true, false, Option, none, [], arith, inl, inr,
}
use csse2310_assignment.Libc.{Text}
use csse2310_assignment.LineList.{Stream}
use csse2310_assignment.World.{Ptr, null, ClientNode, World, Memory, Outcome, done}
use csse2310_assignment.ClientList.{init_client_list}
use csse2310_assignment.ClientList.Broadcast.{has_client}
use csse2310_assignment.ClientList.Chain.{Cells, Chain, nil, cons, IsList}
use csse2310_assignment.ServerThreads.{
  spawn_client_thread, handler_round, handler_end, report_stats,
}
use csse2310_assignment.Session.{IsServing}
use csse2310_assignment.Session.Handling.{handler_round-IsServing}
use csse2310_assignment.Session.Leaving.{handler_end-IsServing}
use csse2310_assignment.Session.Watching.{report_stats-same}
use csse2310_assignment.Session.Spawning.{Ends, spawn_client_thread-outcome}

-- What a list holds is given by the memory.
Chain-unique :
    {h : Memory ClientNode} {before before' p : Ptr} {xs ys : Cells}
    → Chain h before p xs
    → Chain h before' p ys
    → xs ≡ ys
Chain-unique nil nil = refl
Chain-unique nil (cons ne e out s) = absurd (ne refl)
Chain-unique (cons ne e out s) nil = absurd (ne refl)
Chain-unique {h} (cons {p} {c} {q} {xs} ne e out s)
      (cons {c = d} {q = r} {xs = ys} ne' e' out' s') =
    let client : c ≡ d = cc in
    let next : r ≡ q = cc in let rest : Chain h p q ys = rw next at s' in cc (Chain-unique s rest)

-- One call of a thread: the main thread takes in a client that will send `stream`, or the thread of
-- a client in the list takes one round of its loop, or ends, or the thread of the report prints it.
pub data Step (w w' : World) : Type 0 where
  takes_in : (stream : Stream) → spawn_client_thread stream w ≡ done tt w' → Step w w'
  reads :
      (client : Ptr) (xs : Cells)
      → IsList w xs
      → has_client client xs ≡ true
      → handler_round client w ≡ done tt w'
      → Step w w'
  ends :
      (client : Ptr) (xs : Cells)
      → IsList w xs
      → has_client client xs ≡ true
      → handler_end client w ≡ done tt w'
      → Step w w'
  reports : (text : Text) → report_stats w ≡ done text w' → Step w w'

pub data Reach (w : World) : World → Type 0 where
  start : Reach w w
  step : {u v : World} → Reach w u → Step u v → Reach w v

-- The memory of `main` when it begins to accept clients.
abbrev pub first_world : Option Text → World
first_world password = record {
  nodes = λ a. none;
  threads = λ a. none;
  clients = record init_client_list { password = password };
  stdout = [];
  fresh = 1;
}

abbrev pub Serves : World → Type 0
Serves w = (xs : Cells) × IsServing w xs

first_world-Serves : (password : Option Text) → Serves (first_world password)
first_world-Serves password = (
  [],
  record {
    is_list = record { before = null; chain = nil; fits = omega arith };
    named = tt;
    distinct = tt;
    increasing = tt;
    no_null = refl;
    fresh_ne = omega arith;
    unused = λ a h. (refl, refl);
  },
)

same_end :
    {v w : World} {r : Outcome (Unit {0})} → r ≡ done tt v → r ≡ done tt w → Serves w → Serves v
same_end {v} {w} h k s = let same : w ≡ v = cc in subst Serves same s

Ends-Serves :
    (passed : Bool) (client : Ptr) (before : World) (xs : Cells) {w' : World}
    {r : Outcome (Unit {0})}
    → Ends passed client before xs r
    → r ≡ done tt w'
    → Serves w'
Ends-Serves false client before xs gone r = same_end r gone.returns (_, gone.is_serving)
Ends-Serves true client before xs (inl came) r = same_end r came.returns (_, came.is_serving)
Ends-Serves true client before xs (inr crash) r = absurd (cc (r, crash.crashes))

Step-Serves : {w w' : World} → Step w w' → Serves w → Serves w'
Step-Serves {w} (takes_in stream r) (xs, s) =
    let spawned = spawn_client_thread-outcome w stream s in
    Ends-Serves spawned.passed w.fresh spawned.before xs spawned.ends r
Step-Serves {w} (reads client ys l within r) (xs, s) =
    let same = Chain-unique l.chain s.is_list.chain in
    let (w1, r1, quiet, s1) = handler_round-IsServing w client s (rw same at within) in
    same_end r r1 (xs, s1)
Step-Serves {w} (ends client ys l within r) (xs, s) =
    let same = Chain-unique l.chain s.is_list.chain in
    let (w1, r1, s1, gone) = handler_end-IsServing w client s (rw same at within) in
    same_end r r1 (_, s1)
Step-Serves {w} {w'} (reports text r) s =
    let same : w ≡ w' = sym (report_stats-same w w' text r) in subst Serves same s

-- In every state that the server reaches, the list is linked well, its clients are allocated and
-- distinct, and their names are sorted, with no two the same.
pub Reach-Serves : (password : Option Text) {w : World} → Reach (first_world password) w → Serves w
Reach-Serves password start = first_world-Serves password
Reach-Serves password (step r s) = Step-Serves s (Reach-Serves password r)
