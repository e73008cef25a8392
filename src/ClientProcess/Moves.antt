-- ===== src/ClientProcess/Moves.antt =====
-- Every step of a thread keeps the invariant of the client program.
use csse2310_assignment.Base.{
  ℕ, ◌≡◌, refl, ◌∙◌, Bool, true, false, Option, none, some, if◌then◌else◌, Bool-cases, inl, inr,
}
use csse2310_assignment.Commands.{client}
use csse2310_assignment.Errors.{Exit, exit_with_msg}
use csse2310_assignment.ClientProcess.{
  Process, CommsAt, comms_ended, UserAt, user_ended, MainAt, watching, leaving, joining_comms,
  joining_user, exited, runs, waits, Thread, go_on, comms_goes, comms_stops, user_goes, user_stops,
  comms_move, user_move, comms_run, user_run, main_move, main_run, join_comms, join_user,
  end_client, server_comms_handler, user_input_handler, Step, comms_steps, user_steps, main_steps,
  Reach, start, step,
}
use csse2310_assignment.ClientProcess.Invariant.{
  Inv, Next, OnMove, OnMove-moved, on_next, comms_went, user_went, main_went, joined_comms, exit_of,
}
use csse2310_assignment.ClientProcess.Calls.{
  KeepsNext-server_comms_handler, KeepsNext-user_input_handler,
}

exit_of-some : (m : MainAt) (e : Exit) → exit_of m ≡ some e → m ≡ exited e
exit_of-some watching e h = cc
exit_of-some leaving e h = cc
exit_of-some joining_comms e h = cc
exit_of-some joining_user e h = cc
exit_of-some (exited x) e h = cc

comms_runs-Next :
    (ready : Bool) (p : Process) (at : CommsAt)
    → Inv p
    → joined_comms p.main_at ≡ false
    → OnMove
        (Next p)
        (go_on (comms_goes p) (comms_stops p) p.client_data (server_comms_handler ready at))
comms_runs-Next ready p at i apart =
    on_next (Next p) (comms_goes p) (comms_stops p) p.client_data (server_comms_handler ready at)
      (KeepsNext-server_comms_handler ready at)
      (λ at' d k. comms_went p i d k (runs at') apart (λ e. absurd (cc e)))
      (λ d k held. comms_went p i d k waits apart (λ e. held))

comms_thread-Next :
    (ready : Bool) (p : Process) (t : Thread CommsAt)
    → Inv p
    → p.comms_at ≡ t
    → OnMove (Next p) (comms_run ready t p)
unfolding comms_run server_comms_handler
comms_thread-Next ready p waits i e = tt
comms_thread-Next ready p (runs comms_ended) i e = tt
comms_thread-Next ready p (runs at) i e = elim (Bool-cases (joined_comms p.main_at)) [
  | inr apart ↦ comms_runs-Next ready p at i apart
  | inl joined ↦ absurd (cc (e, i.comms_joined joined))
]

comms_move-Next : (ready : Bool) (p : Process) → Inv p → OnMove (Next p) (comms_move ready p)
unfolding comms_move
comms_move-Next ready p i = comms_thread-Next ready p p.comms_at i refl

user_runs-Next :
    (ready : Bool) (p : Process) (at : UserAt)
    → Inv p
    → exit_of p.main_at ≡ none
    → OnMove
        (Next p)
        (go_on (user_goes p) (user_stops p) p.client_data (user_input_handler ready at p.stdin))
user_runs-Next ready p at i apart =
    on_next (Next p) (user_goes p) (user_stops p) p.client_data
      (user_input_handler ready at p.stdin) (KeepsNext-user_input_handler ready at p.stdin)
      (λ (at', s) d k. user_went p i d k (runs at') s apart (λ e. absurd (cc e)))
      (λ d k held. user_went p i d k waits p.stdin apart (λ e. held))

user_thread-Next :
    (ready : Bool) (p : Process) (t : Thread UserAt) (exit : Option Exit)
    → Inv p
    → p.user_at ≡ t
    → exit_of p.main_at ≡ exit
    → OnMove (Next p) (user_run ready t p)
unfolding user_run user_input_handler
user_thread-Next ready p waits exit i e m = tt
user_thread-Next ready p (runs at) none i e m = user_runs-Next ready p at i m
user_thread-Next ready p (runs user_ended) (some x) i e m = tt
user_thread-Next ready p (runs at) (some x) i e m =
    absurd (cc (e, i.user_joined x (exit_of-some p.main_at x m)))

user_move-Next : (ready : Bool) (p : Process) → Inv p → OnMove (Next p) (user_move ready p)
unfolding user_move
user_move-Next ready p i = user_thread-Next ready p p.user_at (exit_of p.main_at) i refl refl

join_comms-Next :
    (p : Process) (t : Thread CommsAt)
    → Inv p
    → p.comms_at ≡ t
    → p.main_at ≡ joining_comms
    → OnMove (Next p) (join_comms t p)
unfolding join_comms
join_comms-Next p (runs comms_ended) i e m =
    main_went p joining_user p.client_data.locked i (rw (i.lock, m) refl) (i.stopped (rw m refl))
      i.comms_locked i.user_locked (λ j. e) (λ x at. cc)
join_comms-Next p (runs at) i e m = tt
join_comms-Next p waits i e m = tt

end_client-Next :
    (p : Process) (o : Option Exit)
    → Inv p
    → p.user_at ≡ runs user_ended
    → p.main_at ≡ joining_user
    → exit_with_msg p.client_data.exit_code client ≡ o
    → OnMove (Next p) (end_client p o)
unfolding end_client
end_client-Next p none i e m x = tt
end_client-Next p (some out) i e m x =
    let joined = i.comms_joined (rw m refl) in
    main_went p (exited out) false i refl (i.stopped (rw m refl)) (λ h. absurd (cc (h, joined)))
      (λ h. absurd (cc (h, e))) (λ j. joined) (λ y at. (e, cc (x, at)))

join_user-Next :
    (p : Process) (t : Thread UserAt)
    → Inv p
    → p.user_at ≡ t
    → p.main_at ≡ joining_user
    → OnMove (Next p) (join_user t p)
unfolding join_user
join_user-Next p (runs user_ended) i e m =
    end_client-Next p (exit_with_msg p.client_data.exit_code client) i e m refl
join_user-Next p (runs at) i e m = tt
join_user-Next p waits i e m = tt

watching-Next :
    (p : Process) (active : Bool)
    → Inv p
    → p.client_data.is_active ≡ active
    → p.main_at ≡ watching
    → Next p (if active then p else record p { main_at = leaving })
watching-Next p true i a m = record { inv = i; inactive = λ e. e; first_code = λ e. refl }
watching-Next p false i a m =
    main_went p leaving p.client_data.locked i (rw (i.lock, m) refl) a i.comms_locked i.user_locked
      (λ j. cc) (λ x at. cc)

main_run-Next : (p : Process) (m : MainAt) → Inv p → p.main_at ≡ m → OnMove (Next p) (main_run m p)
unfolding main_run
main_run-Next p watching i m = watching-Next p p.client_data.is_active i refl m
main_run-Next p leaving i m =
    main_went p joining_comms true i refl (i.stopped (rw m refl)) (λ e. refl) (λ e. refl) (λ j. cc)
      (λ x at. cc)
main_run-Next p joining_comms i m = join_comms-Next p p.comms_at i refl m
main_run-Next p joining_user i m = join_user-Next p p.user_at i refl m
main_run-Next p (exited x) i m = tt

main_move-Next : (p : Process) → Inv p → OnMove (Next p) (main_move p)
unfolding main_move
main_move-Next p i = main_run-Next p p.main_at i refl

pub Step-Next : {p p' : Process} → Step p p' → Inv p → Next p p'
Step-Next {p} {p'} (comms_steps ready e) i =
    OnMove-moved (Next p) (comms_move ready p) p' e (comms_move-Next ready p i)
Step-Next {p} {p'} (user_steps ready e) i =
    OnMove-moved (Next p) (user_move ready p) p' e (user_move-Next ready p i)
Step-Next {p} {p'} (main_steps e) i = OnMove-moved (Next p) (main_move p) p' e (main_move-Next p i)

pub Reach-Next : {p : Process} {n : ℕ} {q : Process} → Reach p n q → Inv p → Next p q
Reach-Next start i = record { inv = i; inactive = λ e. e; first_code = λ e. refl }
Reach-Next (step r s) i =
    let a = Reach-Next r i in
    let b = Step-Next s a.inv in
    record {
      inv = b.inv;
      inactive = λ e. b.inactive (a.inactive e);
      first_code = λ e. b.first_code (a.inactive e) ∙ a.first_code e;
    }
