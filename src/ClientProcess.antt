-- ===== src/ClientProcess.antt =====
-- clientUtils.c and the loop of `main` in client.c: the client program as a process of three threads
-- that share the client's data.
pub mod Kept
pub mod Calls
pub mod Invariant
pub mod Moves
pub mod Ending
pub mod Rank
pub mod Resting
pub mod Settling
pub mod Hanging
use csse2310_assignment.Base.{
  ℕ, suc, Bool, true, false, not, ◌&&◌, ◌≡◌, Option, none, some, if◌then◌else◌,
}
use csse2310_assignment.Libc.{Text}
use csse2310_assignment.LineList.{Stream, read_line_stdin}
use csse2310_assignment.Commands.{client}
use csse2310_assignment.ClientData.{
  normal, comms, ClientData, Run, ok, blocked, fault, out_of_fuel, C, pure, ◌>>=◌, ◌>>◌, get,
  read_server_line, disable_client,
}
use csse2310_assignment.ClientUtils.{authenticate_client, name_negotiate, handle_cmd, send_user_msg}
use csse2310_assignment.Errors.{Exit, exit_with_msg}

-- Where `server_comms_handler` is.
pub data CommsAt : Type 0 where
  authenticating naming listening receiving comms_ended : CommsAt

-- Where `user_input_handler` is; `looping` has the flag `isLineEmpty`, and `sending` what was read.
pub data UserAt : Type 0 where
  idling : UserAt
  looping : Bool → UserAt
  inputting : UserAt
  sending : Text → Bool → UserAt
  delaying user_ended : UserAt

-- Where `main` is: in its loop, in front of `end_client`, at the two joins, or past `exit`.
pub data MainAt : Type 0 where
  watching leaving joining_comms joining_user : MainAt
  exited : Exit → MainAt

-- A thread that waits for the lock which `end_client` holds does so for ever.
pub data Thread (A : Type 0) : Type 0 where
  runs : A → Thread A
  waits : Thread A

pub record Process : Type 0 where
  pub client_data : ClientData
  pub stdin : Stream
  pub comms_at : Thread CommsAt
  pub user_at : Thread UserAt
  pub main_at : MainAt

-- `start_client` creates the two threads.
unfoldable pub start_client : ClientData → Stream → Process
start_client d stdin = record {
  client_data = d;
  stdin = stdin;
  comms_at = runs authenticating;
  user_at = runs idling;
  main_at = watching;
}

-- One line from the server in the loop of `server_comms_handler`; the `break` ends the thread.
unfoldable pub receive : C CommsAt
receive = do
  (msg, left) ← read_server_line false
  d ← get
  if left && d.is_active
      then (do disable_client comms; pure comms_ended)
      else (do handle_cmd msg; pure listening)

-- What the thread does next, `none` if it cannot go on; `ready` is what `poll_stream` returns.
unfoldable pub server_comms_handler : Bool → CommsAt → Option (C CommsAt)
unfolding receive
server_comms_handler ready authenticating = some (do authenticate_client; pure naming)
server_comms_handler ready naming =
    some (do d ← get; if d.is_active then name_negotiate else pure tt; pure listening)
server_comms_handler ready listening =
    some (do d ← get; pure (if d.is_active then receiving else comms_ended))
server_comms_handler ready receiving = some (if ready then receive else pure listening)
server_comms_handler ready comms_ended = none

-- A line of the user is sent unless standard input or the client has ended.
unfoldable pub send_input : Text → Bool → C (Unit {0})
send_input msg at_end = do d ← get; if not at_end && d.is_active then send_user_msg msg else pure tt

-- The same of the thread that reads standard input, whose rest it also gives.
unfoldable pub user_input_handler : Bool → UserAt → Stream → Option (C (UserAt × Stream))
unfolding send_input
user_input_handler ready idling stdin =
    some (do
      d ← get
      pure (if not d.authenticated && d.is_active then idling else looping false, stdin))
user_input_handler ready (looping at_end) stdin = some (do
  d ← get
  let next = if at_end then delaying else user_ended
  pure (if d.is_active && not at_end then inputting else next, stdin))
user_input_handler ready inputting stdin = some (
    let (msg, at_end, rest) = read_line_stdin stdin false in
    pure (if ready then (sending msg at_end, rest) else (looping false, stdin)))
user_input_handler ready (sending msg at_end) stdin =
    some (do send_input msg at_end; pure (looping at_end, stdin))
user_input_handler ready delaying stdin = some (do disable_client normal; pure (user_ended, stdin))
user_input_handler ready user_ended stdin = none

-- What a thread makes of the process: it cannot go on, or its behaviour is undefined.
pub data Move : Type 0 where
  moved : Process → Move
  halts breaks : Move

abbrev pub after_run :
    {A : Type 0} → (A → ClientData → Process) → (ClientData → Process) → Run A → Move
after_run next stops (ok a d) = moved (next a d)
after_run next stops (blocked d) = moved (stops d)
after_run next stops fault = breaks
after_run next stops out_of_fuel = breaks

abbrev pub go_on :
    {A : Type 0}
    → (A → ClientData → Process)
    → (ClientData → Process)
    → ClientData
    → Option (C A)
    → Move
go_on next stops d none = halts
go_on next stops d (some m) = after_run next stops (m d)

abbrev pub comms_goes : Process → CommsAt → ClientData → Process
comms_goes p at d = record p { client_data = d; comms_at = runs at }

abbrev pub comms_stops : Process → ClientData → Process
comms_stops p d = record p { client_data = d; comms_at = waits }

unfoldable pub comms_run : Bool → Thread CommsAt → Process → Move
unfolding server_comms_handler
comms_run ready waits p = halts
comms_run ready (runs at) p =
    go_on (comms_goes p) (comms_stops p) p.client_data (server_comms_handler ready at)

unfoldable pub comms_move : Bool → Process → Move
unfolding comms_run
comms_move ready p = comms_run ready p.comms_at p

abbrev pub user_goes : Process → UserAt × Stream → ClientData → Process
user_goes p at d = record p { client_data = d; user_at = runs at.0; stdin = at.1 }

abbrev pub user_stops : Process → ClientData → Process
user_stops p d = record p { client_data = d; user_at = waits }

unfoldable pub user_run : Bool → Thread UserAt → Process → Move
unfolding user_input_handler
user_run ready waits p = halts
user_run ready (runs at) p =
    go_on (user_goes p) (user_stops p) p.client_data (user_input_handler ready at p.stdin)

unfoldable pub user_move : Bool → Process → Move
unfolding user_run
user_move ready p = user_run ready p.user_at p

-- `end_client` takes the lock, joins both threads, gives the lock back, and exits.
unfoldable pub end_client : Process → Option Exit → Move
end_client p none = breaks
end_client p (some e) =
    moved (record p { client_data = record p.client_data { locked = false }; main_at = exited e })

unfoldable pub join_comms : Thread CommsAt → Process → Move
join_comms (runs comms_ended) p = moved (record p { main_at = joining_user })
join_comms _ p = halts

unfoldable pub join_user : Thread UserAt → Process → Move
unfolding end_client
join_user (runs user_ended) p = end_client p (exit_with_msg p.client_data.exit_code client)
join_user _ p = halts

-- The loop of `main` looks at the flag under the lock, which nothing holds between two steps.
unfoldable pub main_run : MainAt → Process → Move
unfolding join_comms join_user
main_run watching p = moved (if p.client_data.is_active then p else record p { main_at = leaving })
main_run leaving p =
    moved
      (record p { client_data = record p.client_data { locked = true }; main_at = joining_comms })
main_run joining_comms p = join_comms p.comms_at p
main_run joining_user p = join_user p.user_at p
main_run (exited e) p = halts

unfoldable pub main_move : Process → Move
unfolding main_run
main_move p = main_run p.main_at p

pub data Step (p p' : Process) : Type 0 where
  comms_steps : (ready : Bool) → comms_move ready p ≡ moved p' → Step p p'
  user_steps : (ready : Bool) → user_move ready p ≡ moved p' → Step p p'
  main_steps : main_move p ≡ moved p' → Step p p'

-- So many steps of the threads, in any order.
pub data Reach (p : Process) : ℕ → Process → Type 0 where
  start : Reach p 0 p
  step : {n : ℕ} {q r : Process} → Reach p n q → Step q r → Reach p (suc n) r
