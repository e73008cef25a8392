-- ===== src/ClientList/Broadcast.antt =====
-- `send_all_clients`: what each client gets.
use csse2310_assignment.Base.{
  ℕ, zero, suc, ◌<◌, ◌≡◌, inl, inr, refl, Bool, true, false, ◌&&◌, ◌||◌, Option, none, some, [],
  ◌∷◌, arith, ◌==◌, if◌then◌else◌, Bool-cases, length,
}
use csse2310_assignment.Libc.{Text}
use csse2310_assignment.ClientThread.{ClientThread, send}
use csse2310_assignment.World.{Ptr, World, Memory, Outcome, done, write}
use csse2310_assignment.ClientList.{is_listening, send_walk, send_all_clients}
use csse2310_assignment.ClientList.Chain.{Cells, Chain, nil, cons, IsList}
use csse2310_assignment.ClientList.Find.{AllHeld}

abbrev pub has_client : Ptr → Cells → Bool
has_client a [] = false
has_client a ((p, c) ∷ xs) = (a == c) || has_client a xs

-- No client stands in the list twice.
abbrev pub Distinct : Cells → Type 0
Distinct [] = Unit
Distinct ((p, c) ∷ xs) = (has_client c xs ≡ false) × Distinct xs

-- A client that has a name and is active gets the text and a newline; any other gets nothing.
abbrev pub deliver_to : Option Text → Bool → Text → ClientThread → ClientThread
deliver_to none active text thread = thread
deliver_to (some name) false text thread = thread
deliver_to (some name) true text thread = send thread text

abbrev pub deliver : Text → ClientThread → ClientThread
deliver text thread = deliver_to thread.name thread.is_active text thread

deliver_to_lem :
    (name : Option Text) (active : Bool) (text : Text) (thread : ClientThread)
    → (if active && elim name [ none ↦ false | some _ ↦ true ] then send thread text else thread)
      ≡ deliver_to name active text thread
deliver_to_lem none true text thread = refl
deliver_to_lem none false text thread = refl
deliver_to_lem (some name) true text thread = refl
deliver_to_lem (some name) false text thread = refl

-- The test of the code decides the same.
is_listening-deliver :
    (text : Text) (thread : ClientThread)
    → (if is_listening thread then send thread text else thread) ≡ deliver text thread
unfolding is_listening
is_listening-deliver text thread = deliver_to_lem thread.name thread.is_active text thread

deliver_to-name :
    (name : Option Text) (active : Bool) (text : Text) (d : ClientThread)
    → (deliver_to name active text d).name ≡ d.name
deliver_to-name none active text d = refl
deliver_to-name (some name) true text d = refl
deliver_to-name (some name) false text d = refl

pub deliver-name : (text : Text) (d : ClientThread) → (deliver text d).name ≡ d.name
deliver-name text d = deliver_to-name d.name d.is_active text d

deliver_to-read_from :
    (name : Option Text) (active : Bool) (text : Text) (d : ClientThread)
    → (deliver_to name active text d).read_from ≡ d.read_from
deliver_to-read_from none active text d = refl
deliver_to-read_from (some name) true text d = refl
deliver_to-read_from (some name) false text d = refl

pub deliver-read_from : (text : Text) (d : ClientThread) → (deliver text d).read_from ≡ d.read_from
deliver-read_from text d = deliver_to-read_from d.name d.is_active text d

-- What a broadcast makes of the memory at an address.
abbrev pub delivered : Text → Cells → Memory ClientThread → Memory ClientThread
delivered text xs t a = elim (t a) [
  | none ↦ none
  | some thread ↦ some (if has_client a xs then deliver text thread else thread)
]

pub AllHeld-write :
    (t : Memory ClientThread) (c : Ptr) (thread : ClientThread) (xs : Cells)
    → AllHeld t xs
    → AllHeld (write t c (some thread)) xs
unfolding write
AllHeld-write t c thread [] all = tt
AllHeld-write t c thread ((p, d) ∷ xs) ((old, at), all) = (
  elim (Bool-cases (d == c)) [ inl same ↦ (thread, rw same) | inr other ↦ (old, rw other at) ],
  AllHeld-write t c thread xs all,
)

abbrev pub with_threads : World → Memory ClientThread → World
with_threads w t = record w { threads = t }

abbrev pub Sends : World → Text → Cells → Outcome (Unit {0}) → Type 0
Sends w text xs r =
    (t : Memory ClientThread) × (r ≡ done tt (with_threads w t))
    × ((a : Ptr) → t a ≡ delivered text xs w.threads a)

send_walk-Sends :
    (k : ℕ) (w : World) (text : Text) {before cur : Ptr} {xs : Cells}
    → Chain w.nodes before cur xs
    → AllHeld w.threads xs
    → Distinct xs
    → length xs < k
    → Sends w text xs (send_walk k text cur w)
unfolding send_walk write
send_walk-Sends zero w text s all distinct h = absurd (omega arith)
send_walk-Sends (suc k) w text nil all distinct h = (w.threads, refl, λ a. ground arith)
send_walk-Sends (suc k) w text (cons {c} {xs = ys} ne e out s) ((thread, at), all) (once, distinct)
      h =
    let got = deliver text thread in
    let w1 = with_threads w (write w.threads c (some got)) in
    let (t, r, all_got) =
      send_walk-Sends k w1 text s (AllHeld-write w.threads c got ys all) distinct (omega arith) in
    (t, ground (arith, is_listening-deliver text thread), λ a. ground (arith, all_got a))

-- `send_all_clients` sends its text, and a newline, once to each active client of the list that has
-- a name; it sends nothing to any other, and changes nothing else.
pub send_all_clients-delivered :
    (w : World) (text : Text) {xs : Cells}
    → IsList w xs
    → AllHeld w.threads xs
    → Distinct xs
    → Sends w text xs (send_all_clients text w)
unfolding send_all_clients
send_all_clients-delivered w text l all distinct =
    send_walk-Sends (suc w.fresh) w text l.chain all distinct (omega (arith, l.fits))
