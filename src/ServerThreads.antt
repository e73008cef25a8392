-- ===== src/ServerThreads.antt =====
-- The threads of the server, from serverUtils.c and server.c: a new client, the loop of a client's
-- thread, and the report on SIGHUP.
use csse2310_assignment.Base.{
  ℕ, zero, suc, Bool, true, false, Option, none, some, ◌++◌, ◌==◌, if◌then◌else◌, length,
}
use csse2310_assignment.Libc.{Text, codes}
use csse2310_assignment.Libc.Format.{expand}
use csse2310_assignment.LineList.{Stream, add_to_string, get_printable}
use csse2310_assignment.ClientThread.{init_client_thread, client_stat_line}
use csse2310_assignment.World.{
  Ptr, null, M, pure, ◌>>=◌, ◌>>◌, stuck, from_some, load_node, load_thread, store_thread,
  free_client_thread, malloc, get_clients, print, rounds,
}
use csse2310_assignment.ClientList.{add_client, remove_client, send_all_clients, server_stat_line}
use csse2310_assignment.ServerUtils.{
  authenticate_client, name_negotiate, get_active_status, disable_client, read_line, printable_name,
}
use csse2310_assignment.Handlers.{handle_cmd}

-- The ENTER broadcast and the line on standard output.
unfoldable pub announce : Ptr → M (Unit {0})
unfolding printable_name
announce client = do
  name ← printable_name client
  send_all_clients (codes "ENTER:" ++ name)
  print (codes "(" ++ (name ++ codes " has entered the chat)\n"))

-- What follows authentication, for a client that is still active, or is not.
unfoldable pub admit : Ptr → Bool → M (Unit {0})
unfolding announce free_client_thread
admit client false = free_client_thread client
admit client true = do name_negotiate client; add_client client; announce client

-- The argument is what the client will send. The thread that `pthread_create` starts takes its first
-- step behind this one.
unfoldable pub spawn_client_thread : Stream → M (Unit {0})
unfolding admit get_active_status
spawn_client_thread stream = do
  client ← malloc
  store_thread client (init_client_thread stream)
  authenticate_client client
  active ← get_active_status client
  admit client active

-- One round of the loop of `client_thread_handler`.
unfoldable pub handler_round : Ptr → M (Unit {0})
unfolding read_line disable_client
handler_round client = do
  (msg, empty) ← read_line client
  if empty then disable_client client else handle_cmd client msg

-- The LEAVE broadcast, which a client without a name does not cause.
unfoldable pub farewell : Option Text → M (Unit {0})
farewell none = pure tt
farewell (some text) = do
  let name = get_printable text
  send_all_clients (codes "LEAVE:" ++ name)
  print (codes "(" ++ (name ++ codes " has left the chat)\n"))

unfoldable pub handler_end : Ptr → M (Unit {0})
unfolding farewell load_thread
handler_end client = do c ← load_thread client; farewell c.name; remove_client client

-- The loop, run alone: no other thread takes a step.
unfoldable pub handler_loop : ℕ → Ptr → M (Unit {0})
unfolding get_active_status handler_round
handler_loop zero client = stuck
handler_loop (suc k) client = do
  active ← get_active_status client
  if active then (do handler_round client; handler_loop k client) else pure tt

-- Every round but the last reads at least one byte.
unfoldable pub client_thread_handler : Ptr → M (Unit {0})
unfolding handler_loop handler_end load_thread
client_thread_handler client = do
  c ← load_thread client
  handler_loop (suc (suc (length c.read_from))) client
  handler_end client

unfoldable pub stats_walk : ℕ → Text → Ptr → M Text
unfolding load_node load_thread
stats_walk zero text current = stuck
stats_walk (suc k) text current = if current == null then pure text else do
  n ← load_node current
  c ← load_thread n.client
  line ← from_some (client_stat_line c)
  stats_walk k (add_to_string text line) n.next

-- What one SIGHUP prints to standard error: the text is the format of `fprintf`.
unfoldable pub report_stats : M Text
unfolding stats_walk
report_stats = do
  l ← get_clients
  k ← rounds
  text ← stats_walk k (codes "@CLIENTS@\n") l.head
  line ← from_some (server_stat_line l.stats)
  from_some (expand (add_to_string (add_to_string text (codes "@SERVER@\n")) line))
