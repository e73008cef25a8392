-- ===== src/ClientProcess/Resting.antt =====
-- When no thread of the client program can take a step.
use csse2310_assignment.Base.{
  ◌≡◌, refl, ap, ◌||◌, ◌⊎◌, inl, inr, Bool, true, false, Option, none, some, arith,
}
use csse2310_assignment.LineList.{Stream}
use csse2310_assignment.Commands.{client}
use csse2310_assignment.ClientData.{ClientData, Run, ok, blocked, fault, out_of_fuel, C}
use csse2310_assignment.Errors.{Exit, exit_with_msg}
use csse2310_assignment.ClientProcess.{
  Process, CommsAt, comms_ended, UserAt, user_ended, MainAt, watching, leaving, joining_comms,
  joining_user, exited, runs, waits, Thread, Move, moved, halts, breaks, after_run, go_on,
  comms_goes, comms_stops, user_goes, user_stops, comms_move, user_move, comms_run, user_run,
  main_move, main_run, join_comms, join_user, end_client, server_comms_handler, user_input_handler,
}
use csse2310_assignment.ClientProcess.Invariant.{holds_lock}

abbrev goes : Move → Bool
goes halts = false
goes _ = true

-- A thread can take a step, or has a fault.
abbrev pub goes_on : Process → Bool
goes_on p = goes (comms_move true p) || goes (user_move true p) || goes (main_move p)

-- `end_client` holds the lock, and a thread that it waits for waits for the lock.
abbrev pub Hung : Process → Type 0
Hung p = (holds_lock p.main_at ≡ true) × ((p.comms_at ≡ waits) ⊎ (p.user_at ≡ waits))

module _ {A : Type 0} (next : A → ClientData → Process) (stops : ClientData → Process) where
  after_run-goes : (r : Run A) → after_run next stops r ≡ halts → ⊥
  after_run-goes (ok a d) e = absurd (cc e)
  after_run-goes (blocked d) e = absurd (cc e)
  after_run-goes fault e = absurd (cc e)
  after_run-goes out_of_fuel e = absurd (cc e)

  go_on-halts : (d : ClientData) (o : Option (C A)) → go_on next stops d o ≡ halts → o ≡ none
  go_on-halts d none e = refl
  go_on-halts d (some m) e = absurd (after_run-goes (m d) e)

server_comms_handler-none : (at : CommsAt) → server_comms_handler true at ≡ none → at ≡ comms_ended
unfolding server_comms_handler
server_comms_handler-none comms_ended e = refl
server_comms_handler-none at e = cc

user_input_handler-none :
    (at : UserAt) (stdin : Stream) → user_input_handler true at stdin ≡ none → at ≡ user_ended
unfolding user_input_handler
user_input_handler-none user_ended stdin e = refl
user_input_handler-none at stdin e = cc

comms_run-rests :
    (p : Process) (t : Thread CommsAt)
    → comms_run true t p ≡ halts
    → (t ≡ waits) ⊎ (t ≡ runs comms_ended)
unfolding comms_run
comms_run-rests p waits h = inl refl
comms_run-rests p (runs at) h =
    let none_left =
      go_on-halts (comms_goes p) (comms_stops p) p.client_data (server_comms_handler true at) h in
    inr (ap runs (server_comms_handler-none at none_left))

user_run-rests :
    (p : Process) (t : Thread UserAt)
    → user_run true t p ≡ halts
    → (t ≡ waits) ⊎ (t ≡ runs user_ended)
unfolding user_run
user_run-rests p waits h = inl refl
user_run-rests p (runs at) h =
    let none_left =
      go_on-halts (user_goes p) (user_stops p) p.client_data (user_input_handler true at p.stdin)
        h in
    inr (ap runs (user_input_handler-none at p.stdin none_left))

-- The program has exited, or it waits for ever.
abbrev pub IsOver : Process → Type 0
IsOver p = ((e : Exit) × (p.main_at ≡ exited e)) ⊎ Hung p

end_client-goes : (p : Process) (o : Option Exit) → end_client p o ≡ halts → ⊥
unfolding end_client
end_client-goes p none e = absurd (cc e)
end_client-goes p (some x) e = absurd (cc e)

join_comms-goes :
    (p : Process) (t : Thread CommsAt) → t ≡ runs comms_ended → join_comms t p ≡ halts → ⊥
unfolding join_comms
join_comms-goes p t e h =
    let gone : join_comms (runs comms_ended) p ≡ halts = rw e at h in absurd (cc gone)

join_user-goes : (p : Process) (t : Thread UserAt) → t ≡ runs user_ended → join_user t p ≡ halts → ⊥
unfolding join_user
join_user-goes p t e h =
    let gone : join_user (runs user_ended) p ≡ halts = rw e at h in
    end_client-goes p (exit_with_msg p.client_data.exit_code client) gone

joins-IsOver :
    (p : Process)
    → (p.comms_at ≡ waits) ⊎ (p.comms_at ≡ runs comms_ended)
    → (p.user_at ≡ waits) ⊎ (p.user_at ≡ runs user_ended)
    → (m : MainAt) → p.main_at ≡ m
    → main_run m p ≡ halts
    → IsOver p
unfolding main_run
joins-IsOver p cs us watching e h = absurd (cc h)
joins-IsOver p cs us leaving e h = absurd (cc h)
joins-IsOver p (inl w) us joining_comms e h = inr (rw e refl, inl w)
joins-IsOver p (inr over) us joining_comms e h = absurd (join_comms-goes p p.comms_at over h)
joins-IsOver p cs (inl w) joining_user e h = inr (rw e refl, inr w)
joins-IsOver p cs (inr over) joining_user e h = absurd (join_user-goes p p.user_at over h)
joins-IsOver p cs us (exited x) e h = inl (x, e)

goes-halts : (m : Move) → goes m ≡ false → m ≡ halts
goes-halts halts e = refl
goes-halts (moved p) e = cc
goes-halts breaks e = cc

pub goes_on-IsOver : (p : Process) → goes_on p ≡ false → IsOver p
unfolding comms_move user_move main_move
goes_on-IsOver p h =
    joins-IsOver p (comms_run-rests p p.comms_at (goes-halts (comms_move true p) (ground arith)))
      (user_run-rests p p.user_at (goes-halts (user_move true p) (ground arith))) p.main_at refl
      (goes-halts (main_move p) (ground arith))
