-- ===== src/Session/Watching.antt =====
-- The thread of `sighup_stats_handler` changes nothing, whatever it finds.
use csse2310_assignment.Base.{
  ℕ, zero, suc, ◌≡◌, refl, subst, Bool, true, false, Option, none, some, ◌==◌, if◌then◌else◌,
}
use csse2310_assignment.Libc.{Text, codes}
use csse2310_assignment.LineList.{add_to_string}
use csse2310_assignment.ClientThread.{client_stat_line}
use csse2310_assignment.World.{
  Ptr, null, World, Outcome, done, fault, out_of_fuel, M, and_then, from_some, load_node,
  load_thread,
}
use csse2310_assignment.ClientList.{server_stat_line}
use csse2310_assignment.ServerThreads.{stats_walk, report_stats}

-- If the run ends with no fault, it ends in the world `w`.
abbrev Stays : {A : Type 0} → World → Outcome A → Type 0
Stays w (done a w') = w' ≡ w
Stays w fault = Unit
Stays w out_of_fuel = Unit

Stays-bind :
    {A B : Type 0} (w : World) (r : Outcome A) (k : A → M B)
    → Stays w r
    → ((a : A) → Stays w (k a w))
    → Stays w (and_then r k)
Stays-bind w (done a w') k same next = rw same (next a)
Stays-bind w fault k same next = tt
Stays-bind w out_of_fuel k same next = tt

Stays-if :
    {A : Type 0} (w : World) (b : Bool) (m n : M A)
    → Stays w (m w)
    → Stays w (n w)
    → Stays w ((if b then m else n) w)
Stays-if w true m n x y = x
Stays-if w false m n x y = y

Stays-from_some : {A : Type 0} (w : World) (o : Option A) → Stays w (from_some o w)
Stays-from_some w none = tt
Stays-from_some w (some a) = refl

found :
    {A : Type 0} (w : World) (o : Option A) → Stays w (elim o [ none ↦ fault | some a ↦ done a w ])
found w none = tt
found w (some a) = refl

Stays-stats_walk : (w : World) (k : ℕ) (text : Text) (p : Ptr) → Stays w (stats_walk k text p w)
unfolding stats_walk load_node load_thread
Stays-stats_walk w zero text p = tt
Stays-stats_walk w (suc k) text p = Stays-if w (p == null) _ _ refl (
    Stays-bind w (load_node p w) _ (found w (w.nodes p)) λ n.
      Stays-bind w (load_thread n.client w) _ (found w (w.threads n.client)) λ c.
        Stays-bind w (from_some (client_stat_line c) w) _ (Stays-from_some w (client_stat_line c))
          λ line. Stays-stats_walk w k (add_to_string text line) n.next)

Stays-report_stats : (w : World) → Stays w (report_stats w)
unfolding report_stats
Stays-report_stats w =
    Stays-bind w (stats_walk (suc w.fresh) (codes "@CLIENTS@\n") w.clients.head w) _
      (Stays-stats_walk w (suc w.fresh) (codes "@CLIENTS@\n") w.clients.head)
      λ text.
        Stays-bind w (from_some (server_stat_line w.clients.stats) w) _
          (Stays-from_some w (server_stat_line w.clients.stats)) λ line. Stays-from_some w _

-- A report that was made leaves the server's memory as it was.
pub report_stats-same : (w w' : World) (text : Text) → report_stats w ≡ done text w' → w' ≡ w
report_stats-same w w' text r = subst (Stays w) r (Stays-report_stats w)
