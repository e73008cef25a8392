-- ===== src/ClientList.antt =====
-- clientList.c and clientList.h: the sorted, doubly linked list of clients. Each function runs with
-- the list's lock held, so it is one step. A walk takes `rounds` rounds at most.
pub mod Chain
pub mod Names
pub mod Insert
pub mod Order
pub mod Add
pub mod Remove
pub mod RemoveClient
pub mod FreeList
pub mod ServerLine
pub mod Find
pub mod Broadcast
use csse2310_assignment.Base.{
  ℕ, zero, suc, ◌+◌, ◌≡◌, Bool, true, false, ◌&&◌, Option, none, some, List, [], ◌∷◌, ◌++◌, ◌==◌,
  if◌then◌else◌, length, leb, ◌*◌,
}
use csse2310_assignment.Libc.{Text, codes}
use csse2310_assignment.Libc.Compare.{text_eq, text_lt}
use csse2310_assignment.Libc.Decimal.{decimal}
use csse2310_assignment.LineList.{LineList, init_line_list, add_to_lines}
use csse2310_assignment.ClientThread.{ClientThread, send, max_digs}
use csse2310_assignment.World.{
  Ptr, null, ClientNode, ServerStats, ClientList, World, done, M, pure, ◌>>=◌, ◌>>◌, crash, stuck,
  from_some, load_node, load_thread, store_node, store_thread, free_node_at, free_client_thread,
  malloc, get_clients, set_head, rounds,
}

abbrev pub node : Ptr → Ptr → Ptr → ClientNode
node client prev next = record { client = client; prev = prev; next = next }

unfoldable pub init_node : Ptr → M Ptr
init_node client = do p ← malloc; store_node p (node client null null); pure p

-- `free_client_thread` and `free`
unfoldable pub free_node : Ptr → M (Unit {0})
unfolding load_node free_client_thread
free_node p = do n ← load_node p; free_client_thread n.client; free_node_at p

-- `client->name`, which must not be `NULL`
unfoldable pub name_of : Ptr → M Text
unfolding load_thread
name_of client = do c ← load_thread client; from_some c.name

-- `compare_node_names(node1, node2) < 0`
unfoldable pub is_before : Ptr → Ptr → M Bool
unfolding load_node name_of
is_before node1 node2 = do
  n1 ← load_node node1
  n2 ← load_node node2
  a ← name_of n1.client
  b ← name_of n2.client
  pure (text_lt a b)

unfoldable pub set_prev : Ptr → Ptr → M (Unit {0})
unfolding load_node
set_prev p q = do n ← load_node p; store_node p (record n { prev = q })

unfoldable pub set_next : Ptr → Ptr → M (Unit {0})
unfolding load_node
set_next p q = do n ← load_node p; store_node p (record n { next = q })

-- The node goes between `current` and the one before it.
unfoldable pub put_before : Ptr → Ptr → M (Unit {0})
unfolding set_prev set_next
put_before new current = do
  set_next new current
  c ← load_node current
  set_prev new c.prev
  set_next c.prev new
  set_prev current new

-- The `while` loop of `add_node` and what follows it.
unfoldable pub insert_walk : ℕ → Ptr → Ptr → M (Unit {0})
unfolding put_before
insert_walk zero new current = stuck
insert_walk (suc k) new current = do
  c ← load_node current
  if c.next == null then (do set_next current new; set_prev new current) else do
    before ← is_before new c.next
    if before then put_before new c.next else insert_walk k new c.next

-- The list is not empty: the node goes before the head, or the walk finds its place.
unfoldable pub add_behind : Ptr → Ptr → M (Unit {0})
add_behind new head = do
  before ← is_before new head
  if before
      then (do set_prev head new; set_next new head; set_head new)
      else do k ← rounds; insert_walk k new head

unfoldable pub add_node : Ptr → M (Unit {0})
unfolding add_behind
add_node new = do l ← get_clients; if l.head == null then set_head new else add_behind new l.head

unfoldable pub add_client : Ptr → M (Unit {0})
unfolding init_node add_node
add_client client = do new ← init_node client; add_node new

-- Links the nodes around the one that goes.
unfoldable pub unlink : Ptr → M (Unit {0})
unfolding set_prev set_next load_node
unlink p = do
  n ← load_node p
  set_next n.prev n.next
  if n.next == null then pure tt else set_prev n.next n.prev

unfoldable pub remove_node : Ptr → M (Unit {0})
unfolding unlink free_node
remove_node p = do
  l ← get_clients
  n ← load_node p
  if l.head == p then set_head n.next else unlink p
  free_node p

unfoldable pub remove_walk : ℕ → Ptr → Ptr → M (Unit {0})
unfolding remove_node load_node
remove_walk zero client current = stuck
remove_walk (suc k) client current = if current == null then pure tt else do
  n ← load_node current
  if n.client == client then remove_node current else remove_walk k client n.next

unfoldable pub remove_client : Ptr → M (Unit {0})
remove_client client = do l ← get_clients; k ← rounds; remove_walk k client l.head

-- Each node's `next` is read before the node is freed.
unfoldable pub free_walk : ℕ → Ptr → M (Unit {0})
unfolding free_node load_node
free_walk zero current = stuck
free_walk (suc k) current =
    if current == null
    then pure tt
    else do n ← load_node current; free_node current; free_walk k n.next

-- The struct itself is given back too, so that nothing may use the list behind this.
unfoldable pub free_client_list : M (Unit {0})
unfolding free_walk
free_client_list = do l ← get_clients; k ← rounds; free_walk k l.head

unfoldable pub names_walk : ℕ → LineList → Ptr → M LineList
unfolding load_node name_of
names_walk zero names current = stuck
names_walk (suc k) names current = if current == null then pure names else do
  n ← load_node current
  name ← name_of n.client
  names_walk k (add_to_lines names name) n.next

unfoldable pub get_names : M LineList
unfolding names_walk
get_names = do l ← get_clients; k ← rounds; names_walk k init_line_list l.head

-- `currentName != NULL && !strcmp(currentName, name)`
unfoldable pub has_name : Text → Option Text → Bool
has_name name none = false
has_name name (some n) = text_eq n name

unfoldable pub find_walk : ℕ → Text → Ptr → M Ptr
unfolding load_node load_thread has_name
find_walk zero name current = stuck
find_walk (suc k) name current = if current == null then pure null else do
  n ← load_node current
  c ← load_thread n.client
  if has_name name c.name then pure n.client else find_walk k name n.next

-- The first client of that name, or `NULL`.
unfoldable pub get_client_by_name : Text → M Ptr
unfolding find_walk
get_client_by_name name = do l ← get_clients; k ← rounds; find_walk k name l.head

-- `client->isActive && client->name != NULL`
unfoldable pub is_listening : ClientThread → Bool
is_listening c = c.is_active && elim c.name [ none ↦ false | some _ ↦ true ]

unfoldable pub send_walk : ℕ → Text → Ptr → M (Unit {0})
unfolding load_node load_thread is_listening
send_walk zero text current = stuck
send_walk (suc k) text current = if current == null then pure tt else do
  n ← load_node current
  c ← load_thread n.client
  store_thread n.client (if is_listening c then send c text else c)
  send_walk k text n.next

-- The argument is the formatted text, without the newline.
unfoldable pub send_all_clients : Text → M (Unit {0})
unfolding send_walk
send_all_clients text = do l ← get_clients; k ← rounds; send_walk k text l.head

-- What `sprintf` writes, and the size of its buffer.
unfoldable pub server_stat_text : ServerStats → Text
server_stat_text s =
    codes "server:AUTH:"
    ++ (decimal s.auth_count
        ++ (codes ":NAME:"
            ++ (decimal s.name_count
                ++ (codes ":SAY:"
                    ++ (decimal s.say_count
                        ++ (codes ":KICK:"
                            ++ (decimal s.kick_count
                                ++ (codes ":LIST:"
                                    ++ (decimal s.list_count
                                        ++ (codes ":LEAVE:"
                                            ++ (decimal s.leave_count ++ codes "\n")))))))))))

abbrev pub server_stat_size : ℕ
server_stat_size = length (codes "server:AUTH::NAME::SAY::KICK::LIST::LEAVE:\n") + max_digs * 6 + 1

-- `none` is a fault: the text and its final 0 run over the buffer.
unfoldable pub server_stat_line : ServerStats → Option Text
unfolding server_stat_text
server_stat_line stats =
    let text = server_stat_text stats in
    if leb (length text + 1) server_stat_size then some text else none

-- Sets the password when the server starts. The lock is given back twice, which has no effect in
-- the model.
unfoldable pub set_password : Option Text → M (Unit {0})
set_password password w = done tt (record w { clients = record w.clients { password = password } })

abbrev pub zero_stats : ServerStats
zero_stats = record {
  say_count = 0;
  kick_count = 0;
  list_count = 0;
  auth_count = 0;
  name_count = 0;
  leave_count = 0;
}

abbrev pub init_client_list : ClientList
init_client_list = record { password = none; stats = zero_stats; head = null }
