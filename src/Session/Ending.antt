-- ===== src/Session/Ending.antt =====
-- The thread of a client, run alone, comes to its end.
use csse2310_assignment.Base.{
  ℕ, zero, suc, ◌+◌, ◌≤◌, ◌<◌, ◌≡◌, ◌⊎◌, inl, inr, refl, Bool, true, false, none, some, arith,
  if◌then◌else◌, Bool-cases, length,
}
use csse2310_assignment.LineList.{get_line, read_file_line}
use csse2310_assignment.LineList.Progress.{get_line-progress, get_line-length}
use csse2310_assignment.ClientThread.{ClientThread, deactivate, read_client_line}
use csse2310_assignment.World.{Ptr, World, Memory, Outcome, done, load_thread, set_thread}
use csse2310_assignment.ClientList.Broadcast.{has_client}
use csse2310_assignment.ClientList.Chain.{Cells}
use csse2310_assignment.ClientList.Remove.{remove_cell}
use csse2310_assignment.Handlers.{handle_cmd}
use csse2310_assignment.ServerUtils.{disable_client}
use csse2310_assignment.ServerUtils.Steps.{
  write_self, disable_client-step, get_active_status-step, read_line-step,
}
use csse2310_assignment.ServerThreads.{handler_round, handler_loop, client_thread_handler}
use csse2310_assignment.Session.{IsServing, left_at, Quiet}
use csse2310_assignment.Session.Calls.{IsNamed-client, Quiet-set_thread}
use csse2310_assignment.Session.Frame.{Quiet-trans, Quiet-IsServing}
use csse2310_assignment.Session.Handling.{Quietly-handle_cmd}
use csse2310_assignment.Session.Leaving.{handler_end-IsServing}
use csse2310_assignment.Session.Quietly.{Ensures-done}

abbrev pub active_at : Memory ClientThread → Ptr → Bool
active_at t a = elim (t a) [ none ↦ false | some thread ↦ thread.is_active ]

-- A round takes something from the client's stream, or the client is no longer active.
abbrev Progress : Ptr → World → Outcome (Unit {0}) → Type 0
Progress client w r =
    (w' : World) × (r ≡ done tt w')
    × Quiet w w'
    × ((left_at w'.threads client < left_at w.threads client)
        ⊎ (active_at w'.threads client ≡ false))

-- Enough rounds for what is left of the stream.
abbrev Enough : Ptr → World → ℕ → Type 0
Enough client w k =
    (left_at w.threads client + 2 ≤ k) ⊎ ((active_at w.threads client ≡ false) × (1 ≤ k))

abbrev Ends : Cells → Outcome (Unit {0}) → Type 0
Ends xs r = (w' : World) × (r ≡ done tt w') × IsServing w' xs

module _ (client : Ptr) {xs : Cells} (within : has_client client xs ≡ true) where
  after_read-Progress :
      (w : World) (c : ClientThread) (at_end : Bool)
      → IsServing w xs
      → w.threads client ≡ some c
      → (get_line c.read_from).1 ≡ at_end
      → Progress client w (
          (if at_end
              then disable_client client
              else handle_cmd client (get_line c.read_from).0.line)
            (set_thread w client (read_client_line c false).2))
  unfolding read_client_line read_file_line
  after_read-Progress w c true s at is_end =
      let c1 = (read_client_line c false).2 in
      let w1 = set_thread w client c1 in
      let at1 = write_self w.threads client c1 in
      let w2 = set_thread w1 client (deactivate c1) in
      (
        w2,
        disable_client-step w1 client c1 at1,
        Quiet-trans (Quiet-set_thread w client c c1 at refl (get_line-length c.read_from))
            (Quiet-set_thread w1 client c1 (deactivate c1) at1 refl (omega arith)),
        inr (rw (active_at, write_self w1.threads client (deactivate c1)) refl),
      )
  after_read-Progress w c false s at more =
      let c1 = (read_client_line c false).2 in
      let w1 = set_thread w client c1 in
      let q = Quiet-set_thread w client c c1 at refl (get_line-length c.read_from) in
      let line = (get_line c.read_from).0.line in
      let (u, w2, r, q2) =
        Ensures-done (handle_cmd client line w1)
          ((Quietly-handle_cmd client line within).run w1 (Quiet-IsServing q s)) in
      let old : left_at w.threads client ≡ length c.read_from = rw (left_at, at) refl in
      let new : left_at w1.threads client ≡ length c1.read_from =
        rw (left_at, write_self w.threads client c1) refl in
      (
        w2,
        r,
        Quiet-trans q q2.1,
        inl (omega (arith, old, new, q2.1.left_le client, get_line-progress c.read_from more)),
      )

  handler_round-Progress : (w : World) → IsServing w xs → Progress client w (handler_round client w)
  unfolding handler_round read_client_line read_file_line
  handler_round-Progress w s =
      let (name, h) = IsNamed-client w.threads client xs s.named within in
      rw (handler_round, read_line-step w client h.thread h.holds)
        (after_read-Progress w h.thread (get_line h.thread.read_from).1 s h.holds refl)

  handler_loop-Ends :
      (k : ℕ) (w : World) → IsServing w xs → Enough client w k → Ends xs (handler_loop k client w)
  unfolding handler_loop
  handler_loop-Ends zero w s (inl enough) = absurd (omega arith)
  handler_loop-Ends zero w s (inr (off, enough)) = absurd (omega arith)
  handler_loop-Ends (suc k) w s enough =
      let (name, h) = IsNamed-client w.threads client xs s.named within in
      let active = get_active_status-step w client h.thread h.holds in
      elim (Bool-cases h.thread.is_active) [
        | inr off ↦ rw (active, off) (w, refl, s)
        | inl on ↦
            let (w1, r, q, progress) = handler_round-Progress w s in
            let left : left_at w.threads client + 2 ≤ suc k = elim enough [
              | inl most ↦ most
              | inr (off, some_round) ↦ absurd (cc (rw (active_at, h.holds) at off, on))
            ] in
            rw (active, on, r)
              (handler_loop-Ends k w1 (Quiet-IsServing q s) (elim progress [
                | inl less ↦ inl (omega (arith, less, left))
                | inr off ↦ inr (off, omega (arith, left))
              ]))
      ]

  -- The thread of a client in the list, run alone, ends with no fault, whatever the client sends: the
  -- client is freed and no longer in the list, which stays linked well, with names that are sorted
  -- and distinct.
  pub client_thread_handler-Ends :
      (w : World)
      → IsServing w xs
      → (w' : World) × (client_thread_handler client w ≡ done tt w')
        × IsServing w' (remove_cell client xs)
        × (w'.threads client ≡ none)
  unfolding client_thread_handler load_thread
  client_thread_handler-Ends w s =
      let (name, h) = IsNamed-client w.threads client xs s.named within in
      let left : left_at w.threads client ≡ length h.thread.read_from =
        rw (left_at, h.holds) refl in
      let (w1, r, s1) =
        handler_loop-Ends (suc (suc (length h.thread.read_from))) w s (inl (omega (arith, left))) in
      let (w2, r2, s2, gone) = handler_end-IsServing w1 client s1 within in
      (w2, rw (client_thread_handler, load_thread, h.holds, r) r2, s2, gone)
