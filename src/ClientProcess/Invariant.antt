-- ===== src/ClientProcess/Invariant.antt =====
-- The invariant of the client program, over all orders of the steps of its threads.
use csse2310_assignment.Base.{◌≡◌, refl, ◌∙◌, subst, Bool, true, false, arith, Option, none, some}
use csse2310_assignment.LineList.{Stream}
use csse2310_assignment.Commands.{client}
use csse2310_assignment.ClientData.{ClientData, Run, ok, blocked, fault, out_of_fuel, C}
use csse2310_assignment.Errors.{Exit, exit_with_msg}
use csse2310_assignment.ClientProcess.{
  Process, CommsAt, comms_ended, UserAt, user_ended, MainAt, watching, joining_comms, joining_user,
  exited, runs, waits, Thread, Move, moved, halts, breaks, after_run, go_on,
}
use csse2310_assignment.ClientProcess.Kept.{Sound, going, over, Kept, After}
use csse2310_assignment.ClientProcess.Calls.{KeepsNext}

abbrev pub holds_lock : MainAt → Bool
holds_lock joining_comms = true
holds_lock joining_user = true
holds_lock _ = false

abbrev pub is_watching : MainAt → Bool
is_watching watching = true
is_watching _ = false

abbrev pub joined_comms : MainAt → Bool
joined_comms joining_user = true
joined_comms (exited e) = true
joined_comms _ = false

abbrev pub exit_of : MainAt → Option Exit
exit_of (exited e) = some e
exit_of _ = none

pub record Inv (p : Process) : Type 0 where
  pub sound : Sound p.client_data
  pub lock : p.client_data.locked ≡ holds_lock p.main_at
  pub stopped : is_watching p.main_at ≡ false → p.client_data.is_active ≡ false
  pub comms_locked : p.comms_at ≡ waits → p.client_data.locked ≡ true
  pub user_locked : p.user_at ≡ waits → p.client_data.locked ≡ true
  pub comms_joined : joined_comms p.main_at ≡ true → p.comms_at ≡ runs comms_ended
  pub user_joined : (e : Exit) → p.main_at ≡ exited e → p.user_at ≡ runs user_ended
  pub exit :
      (e : Exit) → p.main_at ≡ exited e → exit_with_msg p.client_data.exit_code client ≡ some e

-- The step keeps the invariant, and an exit code once the client is disabled.
pub record Next (p p' : Process) : Type 0 where
  pub inv : Inv p'
  pub inactive : p.client_data.is_active ≡ false → p'.client_data.is_active ≡ false
  pub first_code :
      p.client_data.is_active ≡ false → p'.client_data.exit_code ≡ p.client_data.exit_code

abbrev pub OnMove : (Process → Type 0) → Move → Type 0
OnMove P (moved p) = P p
OnMove P halts = Unit
OnMove P breaks = Unit

pub OnMove-moved : (P : Process → Type 0) (m : Move) (p : Process) → m ≡ moved p → OnMove P m → P p
OnMove-moved P m p e h = subst (OnMove P) e h

module _ {A : Type 0} (P : Process → Type 0) where
  on_run :
      (next : A → ClientData → Process) (stops : ClientData → Process) (d : ClientData) (r : Run A)
      → After d r
      → ((a : A) (d' : ClientData) → Kept d d' → P (next a d'))
      → ((d' : ClientData) → Kept d d' → d.locked ≡ true → P (stops d'))
      → OnMove P (after_run next stops r)
  on_run next stops d (ok a d') h goes stop = goes a d' h
  on_run next stops d (blocked d') (h, held) goes stop = stop d' h held
  on_run next stops d fault h goes stop = tt
  on_run next stops d out_of_fuel h goes stop = tt

  pub on_next :
      (next : A → ClientData → Process) (stops : ClientData → Process) (d : ClientData)
      (o : Option (C A))
      → KeepsNext o
      → ((a : A) (d' : ClientData) → Kept d d' → P (next a d'))
      → ((d' : ClientData) → Kept d d' → d.locked ≡ true → P (stops d'))
      → OnMove P (go_on next stops d o)
  on_next next stops d none h goes stop = tt
  on_next next stops d (some m) h goes stop = on_run next stops d (m d) (h.run d) goes stop

-- The thread of the server's lines moves only before `main` has joined it.
module _ (p : Process) (i : Inv p) (d : ClientData) (k : Kept p.client_data d) where
  pub comms_went :
      (t : Thread CommsAt)
      → joined_comms p.main_at ≡ false
      → (t ≡ waits → p.client_data.locked ≡ true)
      → Next p (record p { client_data = d; comms_at = t })
  comms_went t apart held = record {
    inv = record {
      sound = k.sound i.sound;
      lock = k.locked ∙ i.lock;
      stopped = λ e. k.inactive (i.stopped e);
      comms_locked = λ e. k.locked ∙ held e;
      user_locked = λ e. k.locked ∙ i.user_locked e;
      comms_joined = λ e. absurd (cc (e, apart));
      user_joined = i.user_joined;
      exit = λ e at. absurd (ground (arith, at, apart));
    };
    inactive = k.inactive;
    first_code = λ e. k.first_code e i.sound;
  }

  pub user_went :
      (t : Thread UserAt) (s : Stream)
      → exit_of p.main_at ≡ none
      → (t ≡ waits → p.client_data.locked ≡ true)
      → Next p (record p { client_data = d; user_at = t; stdin = s })
  user_went t s apart held = record {
    inv = record {
      sound = k.sound i.sound;
      lock = k.locked ∙ i.lock;
      stopped = λ e. k.inactive (i.stopped e);
      comms_locked = λ e. k.locked ∙ i.comms_locked e;
      user_locked = λ e. k.locked ∙ held e;
      comms_joined = i.comms_joined;
      user_joined = λ e at. absurd (ground (arith, at, apart));
      exit = λ e at. absurd (ground (arith, at, apart));
    };
    inactive = k.inactive;
    first_code = λ e. k.first_code e i.sound;
  }

-- `main` goes on with the same data, but for the lock.
pub main_went :
    (p : Process) (m : MainAt) (held : Bool)
    → Inv p
    → held ≡ holds_lock m
    → p.client_data.is_active ≡ false
    → (p.comms_at ≡ waits → held ≡ true)
    → (p.user_at ≡ waits → held ≡ true)
    → (joined_comms m ≡ true → p.comms_at ≡ runs comms_ended)
    → ((e : Exit)
        → m ≡ exited e
        → (p.user_at ≡ runs user_ended) × (exit_with_msg p.client_data.exit_code client ≡ some e))
    → Next p (record p { client_data = record p.client_data { locked = held }; main_at = m })
main_went p m held i lock off comms user joined exit = record {
  inv = record {
    sound = elim i.sound [ going a c ↦ absurd (cc (a, off)) | over c a code ne ↦ over c a code ne ];
    lock = lock;
    stopped = λ e. off;
    comms_locked = comms;
    user_locked = user;
    comms_joined = joined;
    user_joined = λ e at. (exit e at).0;
    exit = λ e at. (exit e at).1;
  };
  inactive = λ e. e;
  first_code = λ e. refl;
}
