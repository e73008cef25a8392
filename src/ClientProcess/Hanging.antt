-- ===== src/ClientProcess/Hanging.antt =====
-- A client that is kicked while its user's input has just ended.
use csse2310_assignment.Base.{
  ℕ, suc, inr, ◌≡◌, refl, true, false, Option, some, List, [], ◌++◌, Bool,
}
use csse2310_assignment.Base.Int.{pos, negsuc}
use csse2310_assignment.Libc.{Text, codes}
use csse2310_assignment.LineList.{Stream, read_file_line}
use csse2310_assignment.ClientData.{
  ClientData, kicked, disabled, disable_client, ok, read_server_line, next_error, read_after,
}
use csse2310_assignment.ClientUtils.Messages.{handle_cmd-kick}
use csse2310_assignment.ClientProcess.{
  Process, receiving, listening, comms_ended, delaying, watching, leaving, joining_comms,
  joining_user, runs, waits, comms_move, user_move, main_move, comms_run, user_run, main_run,
  join_comms, join_user, server_comms_handler, receive, user_input_handler, Reach, start, step,
  comms_steps, user_steps, main_steps, moved,
}
use csse2310_assignment.ClientProcess.Ending.{first_process, first_process-Inv}
use csse2310_assignment.ClientProcess.Kept.{going, over}
use csse2310_assignment.ClientProcess.Moves.{Reach-Next}
use csse2310_assignment.ClientProcess.Resting.{goes_on, Hung}

read-kick :
    (d : ClientData) (rest : Stream)
    → d.sock_errors ≡ []
    → d.read_from ≡ codes "KICK:\n" ++ rest
    → read_server_line false d ≡ ok (some (codes "KICK:"), false) (record d { read_from = rest })
unfolding read_server_line next_error read_after read_file_line
read-kick d rest none_left line = rw (read_server_line, none_left, line) refl

-- The client's data once it has read the line and handled it.
abbrev kicked_data : ClientData → Stream → ClientData
kicked_data d rest = disabled kicked (record d { read_from = rest })

receive-kick :
    (d : ClientData) (rest : Stream)
    → d.sock_errors ≡ []
    → d.read_from ≡ codes "KICK:\n" ++ rest
    → d.locked ≡ false
    → receive d ≡ ok listening (kicked_data d rest)
unfolding receive disable_client
receive-kick d rest no_error line open_lock =
    rw (receive, read-kick d rest no_error line, handle_cmd-kick, disable_client, open_lock) refl

-- The states behind the KICK.
module _ (p : Process) (rest : Stream) where
  abbrev after_kick : Process
  after_kick = record p {
    client_data = kicked_data p.client_data rest;
    comms_at = runs listening;
    user_at = runs delaying;
    main_at = watching;
  }

  abbrev locking : Process
  locking = record after_kick {
    client_data = record after_kick.client_data { locked = true };
    main_at = joining_comms;
  }

  abbrev joined : Process
  joined = record locking { comms_at = runs comms_ended; main_at = joining_user }

  abbrev hanging : Process
  hanging = record joined { user_at = waits }

  reads_kick :
      p.comms_at ≡ runs receiving
      → p.user_at ≡ runs delaying
      → p.main_at ≡ watching
      → p.client_data.sock_errors ≡ []
      → p.client_data.read_from ≡ codes "KICK:\n" ++ rest
      → p.client_data.locked ≡ false
      → comms_move true p ≡ moved after_kick
  unfolding comms_move comms_run server_comms_handler
  reads_kick at user main no_error line open_lock =
      rw (comms_move, at, receive-kick p.client_data rest no_error line open_lock, user, main) refl

  Reach-hanging : {n : ℕ} → Reach p n after_kick → Reach p (suc (suc (suc (suc (suc n))))) hanging
  unfolding comms_move comms_run server_comms_handler user_move user_run user_input_handler
      main_move main_run join_comms disable_client
  Reach-hanging r =
      let r1 = step {r = record after_kick { main_at = leaving }} r (main_steps refl) in
      let r2 = step {r = locking} r1 (main_steps refl) in
      let r3 =
        step {r = record locking { comms_at = runs comms_ended }} r2 (comms_steps true refl) in
      let r4 = step {r = joined} r3 (main_steps refl) in step r4 (user_steps true refl)

  hanging-stops : goes_on hanging ≡ false
  unfolding comms_move comms_run server_comms_handler user_move user_run main_move main_run
      join_user
  hanging-stops = refl

-- A program that is at the delay behind the end of its user's input, and whose server then sends KICK:,
-- can come to a state where it hangs for ever, with the exit code of a client that was kicked:
-- `end_client` holds the lock while it waits for the thread of the input, and that thread waits for
-- the lock.
pub Reach-hangs :
    (name : Text) (password : Option Text) (stream : Stream) (errors : List Bool) (stdin : Stream)
    {n : ℕ} {p : Process} (rest : Stream)
    → Reach (first_process name password stream errors stdin) n p
    → p.client_data.is_active ≡ true
    → p.comms_at ≡ runs receiving
    → p.user_at ≡ runs delaying
    → p.main_at ≡ watching
    → p.client_data.sock_errors ≡ []
    → p.client_data.read_from ≡ codes "KICK:\n" ++ rest
    → (q : Process) × Reach p 6 q × (goes_on q ≡ false) × Hung q × (q.client_data.exit_code ≡ pos 3)
Reach-hangs name password stream errors stdin {p} rest r on at user main no_error line =
    let i = (Reach-Next r (first_process-Inv name password stream errors stdin)).inv in
    let open_lock : p.client_data.locked ≡ false = rw (i.lock, main) refl in
    let code : p.client_data.exit_code ≡ negsuc 0 = elim i.sound [
      | going a c ↦ c
      | over c a same ne ↦ absurd (cc (a, on))
    ] in
    (
      hanging p rest,
      Reach-hanging p rest
          (step start (comms_steps true (reads_kick p rest at user main no_error line open_lock))),
      hanging-stops p rest,
      (refl, inr refl),
      rw code refl,
    )
