-- ===== src/ClientProcess/Ending.antt =====
-- What the client program exits with.
use csse2310_assignment.Base.{
  ℕ, ◌≡◌, refl, ◌≢◌, ◌⊎◌, inl, inr, none, ◌∙◌, false, Option, some, List, Bool,
}
use csse2310_assignment.Libc.{Text, codes}
use csse2310_assignment.LineList.{Stream}
use csse2310_assignment.Commands.{client}
use csse2310_assignment.ClientData.{
  ExitCode, normal, usage, comms, kicked, failed_auth, code_of, init_client_data,
}
use csse2310_assignment.Errors.{Exit, exit_with_msg}
use csse2310_assignment.ClientProcess.{
  Process, MainAt, start_client, exited, runs, comms_ended, user_ended, Reach,
}
use csse2310_assignment.ClientProcess.Kept.{going, over}
use csse2310_assignment.ClientProcess.Invariant.{Inv, exit_of}
use csse2310_assignment.ClientProcess.Moves.{Reach-Next}

-- The process behind `start_client`: what the server and the user will send, and the errors that the
-- socket will have, are given.
abbrev pub first_process : Text → Option Text → Stream → List Bool → Stream → Process
first_process name password stream errors stdin =
    start_client (init_client_data name password stream errors) stdin

pub first_process-Inv :
    (name : Text) (password : Option Text) (stream : Stream) (errors : List Bool) (stdin : Stream)
    → Inv (first_process name password stream errors stdin)
unfolding start_client init_client_data
first_process-Inv name password stream errors stdin = record {
  sound = going refl refl;
  lock = refl;
  stopped = λ e. cc;
  comms_locked = λ e. absurd (cc e);
  user_locked = λ e. absurd (cc e);
  comms_joined = λ e. cc;
  user_joined = λ x e. cc;
  exit = λ x e. cc;
}

-- The status and the message of each exit code.
abbrev pub ending : ExitCode → Exit
ending normal = record { status = 0; stderr = codes "" }
ending usage = record { status = 1; stderr = codes "Usage: client name authfile port\n" }
ending comms = record { status = 2; stderr = codes "Communications error\n" }
ending kicked = record { status = 3; stderr = codes "Kicked\n" }
ending failed_auth = record { status = 4; stderr = codes "Authentication error\n" }

pub exit_with_msg-ending : (c : ExitCode) → exit_with_msg (code_of c) client ≡ some (ending c)
unfolding exit_with_msg
exit_with_msg-ending normal = refl
exit_with_msg-ending usage = refl
exit_with_msg-ending comms = refl
exit_with_msg-ending kicked = refl
exit_with_msg-ending failed_auth = refl

-- The process has exited with `c`, when both threads had ended.
pub record ExitedWith (c : ExitCode) (q : Process) : Type 0 where
  pub is_ending : q.main_at ≡ exited (ending c)
  pub comms_over : q.comms_at ≡ runs comms_ended
  pub user_over : q.user_at ≡ runs user_ended

Inv-ExitedWith :
    (c : ExitCode) (q : Process)
    → Inv q
    → q.client_data.exit_code ≡ code_of c
    → (m : MainAt) → q.main_at ≡ m
    → (exit_of q.main_at ≡ none) ⊎ ExitedWith c q
Inv-ExitedWith c q i code (exited e) at =
    let out : exit_with_msg (code_of c) client ≡ some e = rw code at i.exit e at in
    inr (record {
      is_ending = cc (at, out, exit_with_msg-ending c);
      comms_over = i.comms_joined (rw at refl);
      user_over = i.user_joined e at;
    })
Inv-ExitedWith c q i code m at = inl (rw at refl)

-- Once the client is disabled its exit code is one of normal, comms, kicked and failed_auth, and stays the
-- same: whatever the threads do from then on, and in whatever order, the program has not exited, or it
-- has exited with the status and the message of that code, when both threads had ended.
pub Reach-first_code :
    (name : Text) (password : Option Text) (stream : Stream) (errors : List Bool) (stdin : Stream)
    {n k : ℕ} {p q : Process}
    → Reach (first_process name password stream errors stdin) n p
    → p.client_data.is_active ≡ false
    → Reach p k q
    → (c : ExitCode) × (c ≢ usage)
      × (p.client_data.exit_code ≡ code_of c)
      × (q.client_data.exit_code ≡ code_of c)
      × ((exit_of q.main_at ≡ none) ⊎ ExitedWith c q)
Reach-first_code name password stream errors stdin {p} {q} r off later =
    let i = (Reach-Next r (first_process-Inv name password stream errors stdin)).inv in
    let n = Reach-Next later i in
    elim i.sound [
      | going a code ↦ absurd (cc (a, off))
      | over c a code ne ↦
          let same = n.first_code off ∙ code in
          (c, ne, code, same, Inv-ExitedWith c q n.inv same q.main_at refl)
    ]
