-- ===== src/ClientProcess/Rank.antt =====
-- How many steps the threads of the client take once it is disabled.
use csse2310_assignment.Base.{
  ℕ, ◌+◌, ◌<◌, ◌≤◌, ◌≡◌, ◌&&◌, not, Bool, true, false, Option, none, some, arith, if◌then◌else◌,
}
use csse2310_assignment.Libc.{Text}
use csse2310_assignment.LineList.{Stream, read_line_stdin}
use csse2310_assignment.ClientData.{
  comms, ClientData, Run, ok, pure, normal, blocked, fault, out_of_fuel, C, and_then,
  read_server_line, disable_client,
}
use csse2310_assignment.ClientUtils.{authenticate_client, name_negotiate, handle_cmd}
use csse2310_assignment.ClientProcess.{
  Process, CommsAt, authenticating, naming, listening, receiving, comms_ended, UserAt, idling,
  looping, inputting, sending, delaying, user_ended, MainAt, watching, leaving, joining_comms,
  joining_user, exited, runs, waits, Thread, server_comms_handler, user_input_handler, send_input,
  receive,
}

-- The steps that a thread of a disabled client has still to take, at most.
abbrev pub comms_rank : Thread CommsAt → ℕ
comms_rank (runs authenticating) = 3
comms_rank (runs naming) = 2
comms_rank (runs receiving) = 2
comms_rank (runs listening) = 1
comms_rank (runs comms_ended) = 0
comms_rank waits = 0

abbrev pub user_rank : Thread UserAt → ℕ
user_rank (runs inputting) = 4
user_rank (runs idling) = 3
user_rank (runs (sending msg at_end)) = 3
user_rank (runs (looping at_end)) = 2
user_rank (runs delaying) = 1
user_rank (runs user_ended) = 0
user_rank waits = 0

abbrev pub main_rank : MainAt → ℕ
main_rank watching = 4
main_rank leaving = 3
main_rank joining_comms = 2
main_rank joining_user = 1
main_rank (exited e) = 0

abbrev pub rank : Process → ℕ
rank p = comms_rank p.comms_at + user_rank p.user_at + main_rank p.main_at

comms_rank_le : (t : Thread CommsAt) → comms_rank t ≤ 3
comms_rank_le (runs authenticating) = omega arith
comms_rank_le (runs at) = omega arith
comms_rank_le waits = omega arith

user_rank_le : (t : Thread UserAt) → user_rank t ≤ 4
user_rank_le (runs idling) = omega arith
user_rank_le (runs at) = omega arith
user_rank_le waits = omega arith

main_rank_le : (m : MainAt) → main_rank m ≤ 4
main_rank_le m = ground arith

pub rank_le : (p : Process) → rank p ≤ 11
rank_le p = omega (arith, comms_rank_le p.comms_at, user_rank_le p.user_at, main_rank_le p.main_at)

-- If the run returns, its result satisfies `P`.
abbrev pub Yields : {A : Type 0} → (A → Type 0) → Run A → Type 0
Yields P (ok a d) = P a
Yields P (blocked d) = Unit
Yields P fault = Unit
Yields P out_of_fuel = Unit

Yields-then :
    {A B : Type 0} (P : B → Type 0) (r : Run A) (k : A → C B)
    → ((a : A) (d : ClientData) → Yields P (k a d))
    → Yields P (and_then r k)
Yields-then P (ok a d) k h = h a d
Yields-then P (blocked d) k h = tt
Yields-then P fault k h = tt
Yields-then P out_of_fuel k h = tt

abbrev pub Below : ℕ → CommsAt → Type 0
Below n at = comms_rank (runs at) < n

Yields-if :
    {A : Type 0} (P : A → Type 0) (b : Bool) (m n : C A) (d : ClientData)
    → Yields P (m d)
    → Yields P (n d)
    → Yields P ((if b then m else n) d)
Yields-if P true m n d x y = x
Yields-if P false m n d x y = y

receive-Below : (d : ClientData) → Yields (Below 2) (receive d)
unfolding receive
receive-Below d = Yields-then (Below 2) (read_server_line false d) _ λ (msg, left) d1.
    Yields-if (Below 2) (left && d1.is_active) _ _ d1
      (Yields-then (Below 2) (disable_client comms d1) _ λ u d2. omega arith)
      (Yields-then (Below 2) (handle_cmd msg d1) _ λ u d2. omega arith)

-- The thread of a disabled client has ended, or its next call brings it nearer to its end.
abbrev pub Falls : {A : Type 0} → (A → Type 0) → ClientData → Option (C A) → Type 0
Falls P d none = Unit
Falls P d (some m) = Yields P (m d)

pub server_comms_handler-Falls :
    (ready : Bool) (at : CommsAt) (d : ClientData)
    → d.is_active ≡ false
    → Falls (Below (comms_rank (runs at))) d (server_comms_handler ready at)
unfolding server_comms_handler
server_comms_handler-Falls ready authenticating d off =
    Yields-then (Below 3) (authenticate_client d) _ λ u d1. omega arith
server_comms_handler-Falls ready naming d off =
    Yields-then (Below 2) ((if d.is_active then name_negotiate else pure tt) d) _
      λ u d1. omega arith
server_comms_handler-Falls ready listening d off = rw off (omega arith)
server_comms_handler-Falls ready receiving d off =
    Yields-if (Below 2) ready _ _ d (receive-Below d) (omega arith)
server_comms_handler-Falls ready comms_ended d off = tt

abbrev pub UserBelow : ℕ → UserAt × Stream → Type 0
UserBelow n at = user_rank (runs at.0) < n

idle-next :
    (authenticated active : Bool)
    → active ≡ false
    → user_rank (runs (if not authenticated && active then idling else looping false)) < 3
idle-next authenticated active off = ground arith

loop-next :
    (active at_end : Bool)
    → active ≡ false
    → user_rank (
        runs
          (if active && not at_end then inputting else (if at_end then delaying else user_ended)))
      < 2
loop-next active at_end off = ground arith

input-next :
    (ready at_end : Bool) (msg : Text) (rest stdin : Stream)
    → UserBelow 4 (if ready then (sending msg at_end, rest) else (looping false, stdin))
input-next true at_end msg rest stdin = omega arith
input-next false at_end msg rest stdin = omega arith

pub user_input_handler-Falls :
    (ready : Bool) (at : UserAt) (stdin : Stream) (d : ClientData)
    → d.is_active ≡ false
    → Falls (UserBelow (user_rank (runs at))) d (user_input_handler ready at stdin)
unfolding user_input_handler
user_input_handler-Falls ready idling stdin d off = idle-next d.authenticated d.is_active off
user_input_handler-Falls ready (looping at_end) stdin d off = loop-next d.is_active at_end off
user_input_handler-Falls ready inputting stdin d off =
    let r = read_line_stdin stdin false in input-next ready r.1 r.0 r.2 stdin
user_input_handler-Falls ready (sending msg at_end) stdin d off =
    Yields-then (UserBelow 3) (send_input msg at_end d) _ λ u d1. omega arith
user_input_handler-Falls ready delaying stdin d off =
    Yields-then (UserBelow 1) (disable_client normal d) _ λ u d1. omega arith
user_input_handler-Falls ready user_ended stdin d off = tt
