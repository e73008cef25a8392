-- ===== src/World.antt =====
-- The server's memory: the nodes and records that `malloc` gave out, the list of clients, and what
-- was printed; and the commands that read and write it.
use csse2310_assignment.Base.{ℕ, suc, Option, none, some, ◌++◌, ◌==◌, if◌then◌else◌}
use csse2310_assignment.Libc.{Text}
use csse2310_assignment.ClientThread.{ClientThread}

abbrev pub Ptr : Type 0
Ptr = ℕ

abbrev pub null : Ptr
null = 0

pub record ClientNode : Type 0 where
  pub client : Ptr
  pub prev : Ptr
  pub next : Ptr

-- `int stats[6]`. A count stays below 2^31.
pub record ServerStats : Type 0 where
  pub say_count : ℕ
  pub kick_count : ℕ
  pub list_count : ℕ
  pub auth_count : ℕ
  pub name_count : ℕ
  pub leave_count : ℕ

pub record ClientList : Type 0 where
  pub password : Option Text
  pub stats : ServerStats
  pub head : Ptr

-- What each address holds; `none` where nothing is allocated.
abbrev pub Memory : Type 0 → Type 0
Memory A = Ptr → Option A

pub record World : Type 0 where
  pub nodes : Memory ClientNode
  pub threads : Memory ClientThread
  pub clients : ClientList
  pub stdout : Text
  pub fresh : Ptr

unfoldable pub write : {A : Type 0} → Memory A → Ptr → Option A → Memory A
write m p c a = if a == p then c else m a

-- `fault` is undefined behaviour: a read or write through `NULL` or a dangling pointer, a string
-- function on `NULL`, or a buffer that is too small.
pub data Outcome (A : Type 0) : Type 0 where
  done : A → World → Outcome A
  fault : Outcome A
  out_of_fuel : Outcome A

abbrev pub M : Type 0 → Type 0
M A = World → Outcome A

abbrev pub pure : {A : Type 0} → A → M A
pure = done

module _ {A B : Type 0} where
  abbrev pub and_then : Outcome A → (A → M B) → Outcome B
  and_then (done a w) k = k a w
  and_then fault k = fault
  and_then out_of_fuel k = out_of_fuel

  infixl 5 ◌>>=◌ ◌>>◌
  abbrev pub ◌>>=◌ : M A → (A → M B) → M B
  m >>= k = λ w. and_then (m w) k

  abbrev pub ◌>>◌ : M A → M B → M B
  m >> n = m >>= λ _. n

abbrev pub crash : {A : Type 0} → M A
crash _ = fault

abbrev pub stuck : {A : Type 0} → M A
stuck _ = out_of_fuel

-- A pointer to a string that must not be `NULL`.
abbrev pub from_some : {A : Type 0} → Option A → M A
from_some none = crash
from_some (some a) = pure a

unfoldable pub load_node : Ptr → M ClientNode
load_node p w = elim (w.nodes p) [ none ↦ fault | some n ↦ done n w ]

unfoldable pub load_thread : Ptr → M ClientThread
load_thread p w = elim (w.threads p) [ none ↦ fault | some c ↦ done c w ]

abbrev pub store_node : Ptr → ClientNode → M (Unit {0})
store_node p n w = done tt (record w { nodes = write w.nodes p (some n) })

abbrev pub store_thread : Ptr → ClientThread → M (Unit {0})
store_thread p c w = done tt (record w { threads = write w.threads p (some c) })

abbrev pub free_node_at : Ptr → M (Unit {0})
free_node_at p w = done tt (record w { nodes = write w.nodes p none })

abbrev pub free_thread_at : Ptr → M (Unit {0})
free_thread_at p w = done tt (record w { threads = write w.threads p none })

-- `free_client_thread`: its lock is read first, so that the client must be allocated.
unfoldable pub free_client_thread : Ptr → M (Unit {0})
unfolding load_thread
free_client_thread p = do load_thread p; free_thread_at p

-- `malloc` returns an address that was not used before. It does not fail.
abbrev pub malloc : M Ptr
malloc w = done w.fresh (record w { fresh = suc w.fresh })

abbrev pub get_clients : M ClientList
get_clients w = done w.clients w

abbrev pub set_head : Ptr → M (Unit {0})
set_head p w = done tt (record w { clients = record w.clients { head = p } })

abbrev pub set_server_stats : ServerStats → M (Unit {0})
set_server_stats s w = done tt (record w { clients = record w.clients { stats = s } })

-- `printf` and `fflush` on standard output
abbrev pub print : Text → M (Unit {0})
print text w = done tt (record w { stdout = w.stdout ++ text })

-- The rounds that are enough for a walk along nodes that were all allocated.
abbrev pub rounds : M ℕ
rounds w = done (suc w.fresh) w

-- The run ends, with no fault, in a world and with a result that satisfy `P`.
abbrev pub Ensures : {A : Type 0} → (A → World → Type 0) → Outcome A → Type 0
Ensures P (done a w) = P a w
Ensures P fault = ⊥
Ensures P out_of_fuel = ⊥

pub Ensures-bind :
    {A B : Type 0} (P : A → World → Type 0) (Q : B → World → Type 0) (m : Outcome A) (k : A → M B)
    → Ensures P m
    → ((a : A) (w : World) → P a w → Ensures Q (k a w))
    → Ensures Q (and_then m k)
Ensures-bind P Q (done a w) k h next = next a w h
Ensures-bind P Q fault k h next = absurd h
Ensures-bind P Q out_of_fuel k h next = absurd h

-- The world with one record replaced.
abbrev pub set_thread : World → Ptr → ClientThread → World
set_thread w p c = record w { threads = write w.threads p (some c) }
