-- ===== src/Session/Calls.antt =====
-- The calls that the handlers make: none has a fault, and none changes the list of clients.
use csse2310_assignment.Base.{
  ◌≤◌, length, ◌≡◌, ◌⊎◌, inl, inr, refl, ap, sym, subst, true, some, [], ◌∷◌, arith, Bool-cases,
  Option-cases, ◌==◌,
}
use csse2310_assignment.Libc.{Text}
use csse2310_assignment.LineList.{read_file_line}
use csse2310_assignment.LineList.Progress.{get_line-length}
use csse2310_assignment.ClientThread.{ClientThread, deactivate, send, read_client_line}
use csse2310_assignment.World.{Ptr, null, World, Memory, write, load_thread, set_thread}
use csse2310_assignment.ClientList.{has_name, send_all_clients, get_client_by_name, get_names}
use csse2310_assignment.ClientList.Broadcast.{
  has_client, deliver-name, deliver-read_from, delivered, send_all_clients-delivered,
}
use csse2310_assignment.ClientList.Chain.{Cells}
use csse2310_assignment.ClientList.Find.{
  AllNamed-AllHeld, first_named, name_at, get_client_by_name-first_named, get_names_lem,
}
use csse2310_assignment.ClientList.Names.{IsNamed, AllNamed}
use csse2310_assignment.ServerUtils.{
  change_thread, send_client, disable_client, read_line, printable_name,
}
use csse2310_assignment.ServerUtils.Steps.{read_line-step}
use csse2310_assignment.Session.{left_at, named_at, Quiet}
use csse2310_assignment.Session.Frame.{Quiet-refl}
use csse2310_assignment.Session.Quietly.{Quietly, Anything, Quiet-same}

pub IsNamed-client :
    (t : Memory ClientThread) (c : Ptr) (xs : Cells)
    → AllNamed t xs
    → has_client c xs ≡ true
    → IsNamed t c
IsNamed-client t c [] all h = cc
IsNamed-client t c ((p, d) ∷ xs) (now, all) h = elim (Bool-cases (c == d)) [
  | inl here ↦ let is : c ≡ d = ground (arith, here) in rw is now
  | inr away ↦ IsNamed-client t c xs all (ground arith)
]

named_at-write :
    (t : Memory ClientThread) (client : Ptr) (c d : ClientThread) (a : Ptr)
    → t client ≡ some c
    → d.name ≡ c.name
    → named_at (write t client (some d)) a ≡ named_at t a
unfolding write
named_at-write t client c d a holds same = elim (Bool-cases (a == client)) [
  | inl here ↦
      let is : a ≡ client = ground (arith, here) in
      let old : t a ≡ some c = rw is holds in rw (here, named_at, old, same) refl
  | inr away ↦ rw (away, named_at) refl
]

left_at-write :
    (t : Memory ClientThread) (client : Ptr) (c d : ClientThread) (a : Ptr)
    → t client ≡ some c
    → length d.read_from ≤ length c.read_from
    → left_at (write t client (some d)) a ≤ left_at t a
unfolding write
left_at-write t client c d a holds less = elim (Bool-cases (a == client)) [
  | inl here ↦
      let is : a ≡ client = ground (arith, here) in
      let old : t a ≡ some c = rw is holds in rw (here, left_at, old) less
  | inr away ↦ rw (away, left_at) (omega arith)
]

pub Quiet-set_thread :
    (w : World) (client : Ptr) (c d : ClientThread)
    → w.threads client ≡ some c
    → d.name ≡ c.name
    → length d.read_from ≤ length c.read_from
    → Quiet w (set_thread w client d)
Quiet-set_thread w client c d at same less = record {
  nodes = refl;
  head = refl;
  fresh = refl;
  password = refl;
  names_kept = λ a. named_at-write w.threads client c d a at same;
  left_le = λ a. left_at-write w.threads client c d a at less;
}

left_at-delivered :
    (text : Text) (xs : Cells) (t : Memory ClientThread) (a : Ptr)
    → left_at (delivered text xs t) a ≤ left_at t a
left_at-delivered text xs t a = elim (Option-cases (t a)) [
  | inl e ↦ rw (left_at, delivered, e) (omega arith)
  | inr (d, e) ↦ elim (Bool-cases (has_client a xs)) [
    | inl there ↦
        rw (left_at, delivered, e, there) (omega (arith, ap length (deliver-read_from text d)))
    | inr away ↦ rw (left_at, delivered, e, away) (omega arith)
  ]
]

named_at-delivered :
    (text : Text) (xs : Cells) (t : Memory ClientThread) (a : Ptr)
    → named_at (delivered text xs t) a ≡ named_at t a
named_at-delivered text xs t a = elim (Option-cases (t a)) [
  | inl e ↦ rw (named_at, delivered, e) refl
  | inr (d, e) ↦ elim (Bool-cases (has_client a xs)) [
    | inl there ↦ rw (named_at, delivered, e, there) (ap some (deliver-name text d))
    | inr away ↦ rw (named_at, delivered, e, away) refl
  ]
]

-- A pointer is `NULL`, or one to a client of the list.
abbrev pub IsFound : Cells → Ptr → Type 0
IsFound xs a = ((a == null) ≡ true) ⊎ (has_client a xs ≡ true)

IsFound-cons : (p c a : Ptr) (xs : Cells) → IsFound xs a → IsFound ((p, c) ∷ xs) a
IsFound-cons p c a xs (inl e) = inl e
IsFound-cons p c a xs (inr there) = inr (ground arith)

first_named-IsFound :
    (t : Memory ClientThread) (name : Text) (xs : Cells) → IsFound xs (first_named t name xs)
unfolding first_named
first_named-IsFound t name [] = inl refl
first_named-IsFound t name ((p, c) ∷ xs) = elim (Bool-cases (has_name name (name_at t c))) [
  | inl hit ↦
      let first : first_named t name ((p, c) ∷ xs) ≡ c = rw (hit, first_named) refl in
      subst (IsFound ((p, c) ∷ xs)) (sym first) (inr (ground arith))
  | inr miss ↦
      let later : first_named t name ((p, c) ∷ xs) ≡ first_named t name xs =
        rw (miss, first_named) refl in
      subst (IsFound ((p, c) ∷ xs)) (sym later)
        (IsFound-cons p c (first_named t name xs) xs (first_named-IsFound t name xs))
]

module _ {xs : Cells} where
  pub Quietly-change_thread :
      (f : ClientThread → ClientThread) (client : Ptr)
      → has_client client xs ≡ true
      → ((c : ClientThread) → (f c).name ≡ c.name)
      → ((c : ClientThread) → length (f c).read_from ≤ length c.read_from)
      → Quietly xs Anything (change_thread f client)
  unfolding load_thread
  Quietly-change_thread f client within same less = record {
    run = λ w s.
        let (name, h) = IsNamed-client w.threads client xs s.named within in
        rw (change_thread, load_thread, h.holds)
          (
            tt,
            Quiet-set_thread w client h.thread (f h.thread) h.holds (same h.thread) (less h.thread),
          );
  }

  pub Quietly-send_client :
      (text : Text) (client : Ptr)
      → has_client client xs ≡ true
      → Quietly xs Anything (send_client client text)
  unfolding send_client
  Quietly-send_client text client within =
      Quietly-change_thread (λ c. send c text) client within (λ c. refl) λ c. omega arith

  pub Quietly-disable_client :
      (client : Ptr) → has_client client xs ≡ true → Quietly xs Anything (disable_client client)
  unfolding disable_client
  Quietly-disable_client client within =
      Quietly-change_thread deactivate client within (λ c. refl) λ c. omega arith

  pub Quietly-printable_name :
      (client : Ptr) → has_client client xs ≡ true → Quietly xs Anything (printable_name client)
  unfolding printable_name load_thread
  Quietly-printable_name client within = record {
    run = λ w s.
        let (name, h) = IsNamed-client w.threads client xs s.named within in
        rw (printable_name, load_thread, h.holds, h.named) (tt, Quiet-refl w);
  }

  pub Quietly-read_line :
      (client : Ptr) → has_client client xs ≡ true → Quietly xs Anything (read_line client)
  unfolding read_client_line read_file_line
  Quietly-read_line client within = record {
    run = λ w s.
        let (name, h) = IsNamed-client w.threads client xs s.named within in
        rw (read_line-step w client h.thread h.holds) (
          tt,
          Quiet-set_thread w client h.thread _ h.holds refl (get_line-length h.thread.read_from),
        );
  }

  pub Quietly-get_client_by_name : (name : Text) → Quietly xs (IsFound xs) (get_client_by_name name)
  Quietly-get_client_by_name name = record {
    run = λ w s.
        rw (get_client_by_name-first_named w name s.is_list (AllNamed-AllHeld w.threads xs s.named))
          (first_named-IsFound w.threads name xs, Quiet-refl w);
  }

  pub Quietly-get_names : Quietly xs Anything get_names
  Quietly-get_names = record {
    run = λ w s. rw (get_names_lem w s.is_list s.named) (tt, Quiet-refl w);
  }

  pub Quietly-send_all_clients : (text : Text) → Quietly xs Anything (send_all_clients text)
  Quietly-send_all_clients text = record {
    run = λ w s.
        let (t, r, all) =
          send_all_clients-delivered w text s.is_list (AllNamed-AllHeld w.threads xs s.named)
            s.distinct in
        rw r (
          tt,
          Quiet-same w _ (λ a. rw (named_at, all a) (named_at-delivered text xs w.threads a))
              (λ a. rw (left_at, all a) (left_at-delivered text xs w.threads a)) refl refl refl
              refl,
        );
  }
