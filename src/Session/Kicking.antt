-- ===== src/Session/Kicking.antt =====
-- What KICK makes the server send, and what the client program makes of it.
use csse2310_assignment.Base.{
  ◌+◌, ◌≡◌, ◌≢◌, ◌⊎◌, inl, inr, refl, ap, ◌∙◌, Option, none, true, false, some, [], ◌∷◌, ◌++◌,
  arith, ◌==◌, if◌then◌else◌, Bool-cases,
}
use csse2310_assignment.Libc.{Text, codes, Lacks}
use csse2310_assignment.Libc.Compare.{text_eq, text_eq_iff}
use csse2310_assignment.Libc.Token.{skip_delimiters}
use csse2310_assignment.Commands.{get_cmd_no}
use csse2310_assignment.Commands.Accepts.{argument, two}
use csse2310_assignment.Commands.Accepts.Sound.{cmd_to_lines_iff}
use csse2310_assignment.ClientThread.{ClientThread, send}
use csse2310_assignment.World.{Ptr, null, World, Memory, Outcome, done, load_thread, set_thread}
use csse2310_assignment.ClientList.{has_name, get_client_by_name}
use csse2310_assignment.ClientList.Broadcast.{has_client}
use csse2310_assignment.ClientList.Chain.{Cells}
use csse2310_assignment.ClientList.Find.{
  AllHeld, AllNamed-AllHeld, first_named, name_at, get_client_by_name-first_named,
}
use csse2310_assignment.ServerUtils.{send_client}
use csse2310_assignment.Handlers.{count_kick, handle_kick, handle_number, handle_parsed, handle_cmd}
use csse2310_assignment.Session.{IsServing}
use csse2310_assignment.Session.Frame.{Quiet-IsServing, Quiet-trans}
use csse2310_assignment.Session.Quietly.{Quiet-same}
use csse2310_assignment.Session.Calls.{Quiet-set_thread}
use csse2310_assignment.ClientData.{ClientData, kicked}
use csse2310_assignment.ClientData as ClientState
use csse2310_assignment.ClientUtils.Messages.{handle_cmd-kick}
use csse2310_assignment.ClientUtils as ClientSide

-- The world once the command is counted, for the client and for the server.
abbrev pub kick_counted : World → Ptr → ClientThread → World
kick_counted w client c =
    set_thread
      (record w {
        clients = record w.clients {
          stats = record w.clients.stats { kick_count = w.clients.stats.kick_count + 1 };
        };
      })
      client (count_kick c)

pub kick_counted-IsServing :
    (w : World) (client : Ptr) (c : ClientThread) {xs : Cells}
    → w.threads client ≡ some c
    → IsServing w xs
    → IsServing (kick_counted w client c) xs
kick_counted-IsServing w client c at s =
    let w1 : World = record w {
      clients = record w.clients {
        stats = record w.clients.stats { kick_count = w.clients.stats.kick_count + 1 };
      };
    } in
    Quiet-IsServing
      (Quiet-trans (Quiet-same w w1 (λ a. refl) (λ a. omega arith) refl refl refl refl)
        (Quiet-set_thread w1 client c (count_kick c) at refl (omega arith)))
      s

-- The client of that name in the list.
pub record Target (t : Memory ClientThread) (name : Text) (xs : Cells) (p : Ptr) : Type 0 where
  pub thread : ClientThread
  pub holds : t p ≡ some thread
  pub named : thread.name ≡ some name
  pub within : has_client p xs ≡ true

-- No client of the list has the name.
abbrev pub NoneNamed : Memory ClientThread → Text → Cells → Type 0
NoneNamed t name [] = Unit
NoneNamed t name ((p, c) ∷ xs) = (has_name name (name_at t c) ≡ false) × NoneNamed t name xs

has_name-named : (name : Text) (o : Option Text) → has_name name o ≡ true → o ≡ some name
unfolding has_name
has_name-named name none h = cc
has_name-named name (some n) h = ap some ((text_eq_iff n name).0 h)

pub first_named-Target :
    (t : Memory ClientThread) (name : Text) (xs : Cells)
    → AllHeld t xs
    → ((first_named t name xs ≡ null) × NoneNamed t name xs)
      ⊎ Target t name xs (first_named t name xs)
unfolding first_named
first_named-Target t name [] all = inl (refl, tt)
first_named-Target t name ((p, c) ∷ xs) ((thread, at), all) =
    elim (Bool-cases (has_name name (name_at t c))) [
      | inl here ↦ rw here (
          inr (record {
            thread = thread;
            holds = at;
            named = has_name-named name thread.name (rw (name_at, at) at here);
            within = ground arith;
          }))
      | inr away ↦ rw away (elim (first_named-Target t name xs all) [
        | inl (nobody, none_named) ↦ inl (nobody, (refl, none_named))
        | inr k ↦ inr (record {
          thread = k.thread;
          holds = k.holds;
          named = k.named;
          within = ground (arith, k.within);
        })
      ])
    ]

pub handle_kick-step :
    (w : World) (client : Ptr) (c : ClientThread) (word name : Text) (other : Ptr)
    → w.threads client ≡ some c
    → get_client_by_name name (kick_counted w client c) ≡ done other (kick_counted w client c)
    → handle_kick client (two word name) w ≡ (
        if other == null
        then done tt (kick_counted w client c)
        else send_client other (codes "KICK:") (kick_counted w client c))
unfolding handle_kick load_thread
handle_kick-step w client c word name other at r = ground (arith, at, r)

handle_cmd-kick_step :
    (w : World) (client : Ptr) (name : Text)
    → name ≢ []
    → Lacks b':' name
    → handle_cmd client (codes "KICK:" ++ name) w ≡ handle_kick client (two (codes "KICK") name) w
unfolding handle_cmd handle_parsed handle_number get_cmd_no text_eq skip_delimiters
handle_cmd-kick_step w client name some_name lacks =
    let parsed =
      (cmd_to_lines_iff (codes "KICK:" ++ name) (two (codes "KICK") name)).1
        (argument (codes "KICK") name 3 refl refl refl some_name (inr lacks) refl) in
    rw (handle_cmd, parsed, handle_parsed) refl

-- What a KICK with this name does, from the world in which it is counted: nobody has the name and that is
-- all, or the one client of the list that has it is sent KICK:, and that is all.
pub data Kicks (w : World) (name : Text) (xs : Cells) (r : Outcome (Unit {0})) : Type 0 where
  nobody : NoneNamed w.threads name xs → r ≡ done tt w → Kicks w name xs r
  sends :
      (other : Ptr) (thread : ClientThread)
      → has_client other xs ≡ true
      → w.threads other ≡ some thread
      → thread.name ≡ some name
      → r ≡ done tt (set_thread w other (send thread (codes "KICK:")))
      → Kicks w name xs r

send_client-step :
    (w : World) (other : Ptr) (thread : ClientThread) (text : Text)
    → w.threads other ≡ some thread
    → send_client other text w ≡ done tt (set_thread w other (send thread text))
unfolding send_client load_thread
send_client-step w other thread text at = ground (arith, at)

pub not_null :
    (t : Memory ClientThread) (p : Ptr) (thread : ClientThread)
    → t null ≡ none
    → t p ≡ some thread
    → (p == null) ≡ false
not_null t p thread free at = elim (Bool-cases (p == null)) [
  | inl is ↦ let same : p ≡ null = ground (arith, is) in absurd (cc (free, at, same))
  | inr other ↦ other
]

-- A client of the list kicks a name that is not empty and has no colon: the command is counted for the client
-- and for the server; if no client of the list has the name nothing else happens, and otherwise a client of
-- the list with that name is sent KICK:, once, and nothing else changes. A client program that reads the
-- line is disabled as kicked.
pub handle_cmd-Kicks :
    (w : World) (client : Ptr) (c : ClientThread) (name : Text) (d : ClientData) {xs : Cells}
    → IsServing w xs
    → w.threads client ≡ some c
    → name ≢ []
    → Lacks b':' name
    → Kicks (kick_counted w client c) name xs (handle_cmd client (codes "KICK:" ++ name) w)
      × (ClientSide.handle_cmd (some (codes "KICK:")) d ≡ ClientState.disable_client kicked d)
handle_cmd-Kicks w client c name d {xs} s at some_name lacks =
    let w1 = kick_counted w client c in
    let s1 = kick_counted-IsServing w client c at s in
    let held = AllNamed-AllHeld w1.threads xs s1.named in
    let other = first_named w1.threads name xs in
    let step =
      handle_cmd-kick_step w client name some_name lacks
      ∙ handle_kick-step w client c (codes "KICK") name other at
          (get_client_by_name-first_named w1 name s1.is_list held) in
    (
      elim (first_named-Target w1.threads name xs held) [
        | inl (is_null, none_named) ↦ nobody none_named (step ∙ rw is_null refl)
        | inr k ↦ sends other k.thread k.within k.holds k.named (
            step
            ∙ rw (not_null w1.threads other k.thread s1.no_null k.holds)
                (send_client-step w1 other k.thread (codes "KICK:") k.holds))
      ],
      handle_cmd-kick d,
    )
