-- ===== src/ClientProcess/Settling.antt =====
-- A disabled client comes to its end, unless a thread waits for the lock that `end_client` holds.
use csse2310_assignment.Base.{
  ℕ, ◌+◌, ◌<◌, ◌≤◌, ◌≡◌, refl, Bool-cases, List, ◌⊎◌, inl, inr, Bool, true, false, Option, none,
  some, arith,
}
use csse2310_assignment.Libc.{Text}
use csse2310_assignment.LineList.{Stream}
use csse2310_assignment.Commands.{client}
use csse2310_assignment.ClientData.{ClientData, Run, ok, blocked, fault, out_of_fuel, C}
use csse2310_assignment.Errors.{Exit, exit_with_msg}
use csse2310_assignment.ClientProcess.{
  Process, CommsAt, comms_ended, UserAt, user_ended, MainAt, watching, leaving, joining_comms,
  joining_user, exited, runs, waits, Thread, Move, after_run, go_on, comms_goes, comms_stops,
  user_goes, user_stops, comms_move, user_move, comms_run, user_run, main_move, main_run,
  join_comms, join_user, end_client, server_comms_handler, user_input_handler, Reach, start, step,
  Step, comms_steps, user_steps, main_steps,
}
use csse2310_assignment.ClientProcess.Invariant.{Inv, OnMove, OnMove-moved}
use csse2310_assignment.ClientProcess.Ending.{first_process, first_process-Inv}
use csse2310_assignment.ClientProcess.Moves.{Reach-Next}
use csse2310_assignment.ClientProcess.Resting.{goes_on, IsOver, goes_on-IsOver}
use csse2310_assignment.ClientProcess.Rank.{
  rank_le, comms_rank, user_rank, rank, Yields, Below, UserBelow, Falls, server_comms_handler-Falls,
  user_input_handler-Falls,
}

-- A thread that cannot go on leaves the number as it is, and any other makes it smaller.
abbrev OnFall : ℕ → Move → Type 0
OnFall n m = OnMove (λ q. rank q < n) m

module _ {A : Type 0} (P : A → Type 0) (next : A → ClientData → Process)
    (stops : ClientData → Process) (n : ℕ)
    (go : (a : A) (d : ClientData) → P a → rank (next a d) < n)
    (stop : (d : ClientData) → rank (stops d) < n) where
  after_run-OnFall : (r : Run A) → Yields P r → OnFall n (after_run next stops r)
  after_run-OnFall (ok a d) h = go a d h
  after_run-OnFall (blocked d) h = stop d
  after_run-OnFall fault h = tt
  after_run-OnFall out_of_fuel h = tt

  go_on-OnFall : (d : ClientData) (o : Option (C A)) → Falls P d o → OnFall n (go_on next stops d o)
  go_on-OnFall d none h = tt
  go_on-OnFall d (some m) h = after_run-OnFall (m d) h

comms_goes-falls :
    (ready : Bool) (p : Process) (at : CommsAt)
    → p.client_data.is_active ≡ false
    → p.comms_at ≡ runs at
    → 0 < comms_rank (runs at)
    → OnFall
        (rank p)
        (go_on (comms_goes p) (comms_stops p) p.client_data (server_comms_handler ready at))
comms_goes-falls ready p at off e more =
    go_on-OnFall (Below (comms_rank (runs at))) (comms_goes p) (comms_stops p) (rank p)
      (λ at' d less. rw e (omega (arith, less))) (λ d. rw e (omega (arith, more))) p.client_data
      (server_comms_handler ready at) (server_comms_handler-Falls ready at p.client_data off)

comms_thread-falls :
    (ready : Bool) (p : Process) (t : Thread CommsAt)
    → p.client_data.is_active ≡ false
    → p.comms_at ≡ t
    → OnFall (rank p) (comms_run ready t p)
unfolding comms_run server_comms_handler
comms_thread-falls ready p waits off e = tt
comms_thread-falls ready p (runs comms_ended) off e = tt
comms_thread-falls ready p (runs at) off e = comms_goes-falls ready p at off e (omega arith)

user_goes-falls :
    (ready : Bool) (p : Process) (at : UserAt)
    → p.client_data.is_active ≡ false
    → p.user_at ≡ runs at
    → 0 < user_rank (runs at)
    → OnFall
        (rank p)
        (go_on (user_goes p) (user_stops p) p.client_data (user_input_handler ready at p.stdin))
user_goes-falls ready p at off e more =
    go_on-OnFall (UserBelow (user_rank (runs at))) (user_goes p) (user_stops p) (rank p)
      (λ at' d less. rw e (omega (arith, less))) (λ d. rw e (omega (arith, more))) p.client_data
      (user_input_handler ready at p.stdin)
      (user_input_handler-Falls ready at p.stdin p.client_data off)

user_thread-falls :
    (ready : Bool) (p : Process) (t : Thread UserAt)
    → p.client_data.is_active ≡ false
    → p.user_at ≡ t
    → OnFall (rank p) (user_run ready t p)
unfolding user_run user_input_handler
user_thread-falls ready p waits off e = tt
user_thread-falls ready p (runs user_ended) off e = tt
user_thread-falls ready p (runs at) off e = user_goes-falls ready p at off e (omega arith)

join_comms-falls :
    (p : Process) (t : Thread CommsAt)
    → p.main_at ≡ joining_comms
    → OnFall (rank p) (join_comms t p)
unfolding join_comms
join_comms-falls p (runs comms_ended) e = rw e (omega arith)
join_comms-falls p (runs at) e = tt
join_comms-falls p waits e = tt

end_client-falls :
    (p : Process) (o : Option Exit) → p.main_at ≡ joining_user → OnFall (rank p) (end_client p o)
unfolding end_client
end_client-falls p none e = tt
end_client-falls p (some out) e = rw e (omega arith)

join_user-falls :
    (p : Process) (t : Thread UserAt) → p.main_at ≡ joining_user → OnFall (rank p) (join_user t p)
unfolding join_user
join_user-falls p (runs user_ended) e =
    end_client-falls p (exit_with_msg p.client_data.exit_code client) e
join_user-falls p (runs at) e = tt
join_user-falls p waits e = tt

main_run-falls :
    (p : Process) (m : MainAt)
    → p.client_data.is_active ≡ false
    → p.main_at ≡ m
    → OnFall (rank p) (main_run m p)
unfolding main_run
main_run-falls p watching off e = rw (off, e) (omega arith)
main_run-falls p leaving off e = rw e (omega arith)
main_run-falls p joining_comms off e = join_comms-falls p p.comms_at e
main_run-falls p joining_user off e = join_user-falls p p.user_at e
main_run-falls p (exited x) off e = tt

Step-falls : {p q : Process} → Step p q → p.client_data.is_active ≡ false → rank q < rank p
unfolding comms_move user_move main_move
Step-falls {p} {q} (comms_steps ready e) off =
    OnMove-moved (λ q. rank q < rank p) (comms_move ready p) q e
      (comms_thread-falls ready p p.comms_at off refl)
Step-falls {p} {q} (user_steps ready e) off =
    OnMove-moved (λ q. rank q < rank p) (user_move ready p) q e
      (user_thread-falls ready p p.user_at off refl)
Step-falls {p} {q} (main_steps e) off =
    OnMove-moved (λ q. rank q < rank p) (main_move p) q e (main_run-falls p p.main_at off refl)

Reach-falls :
    {p : Process} {n : ℕ} {q : Process}
    → Reach p n q
    → Inv p
    → p.client_data.is_active ≡ false
    → n + rank q ≤ rank p
Reach-falls start i off = omega arith
Reach-falls (step r s) i off =
    omega (arith, Reach-falls r i off, Step-falls s ((Reach-Next r i).inactive off))

-- Once the client is disabled, its threads and `main` take at most 11 more steps together, in whatever
-- order. In every state on the way one of them can take a step or has undefined behaviour, or the
-- program has exited, or `end_client` holds the lock and waits for a thread that waits for the lock.
pub Reach-settles :
    (name : Text) (password : Option Text) (stream : Stream) (errors : List Bool) (stdin : Stream)
    {n k : ℕ} {p q : Process}
    → Reach (first_process name password stream errors stdin) n p
    → p.client_data.is_active ≡ false
    → Reach p k q
    → (k ≤ 11) × ((goes_on q ≡ true) ⊎ IsOver q)
Reach-settles name password stream errors stdin {k} {p} {q} r off later =
    let i = (Reach-Next r (first_process-Inv name password stream errors stdin)).inv in
    (
      omega (arith, Reach-falls later i off, rank_le p),
      elim (Bool-cases (goes_on q)) [
        | inl more ↦ inl more
        | inr rest ↦ inr (goes_on-IsOver q rest)
      ],
    )
