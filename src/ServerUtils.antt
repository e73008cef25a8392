-- ===== src/ServerUtils.antt =====
-- serverUtils.c: authentication, name negotiation, and the handlers of the clients' commands. Each
-- function is one step of the thread that runs it, and what another thread can do between two steps
-- is not part of it.
pub mod CmdNumbers
pub mod Steps
pub mod Authenticate
pub mod FreeNames
pub mod Negotiate
use csse2310_assignment.Base.{
  ℕ, zero, suc, ◌+◌, ◌-◌, ◌≡◌, Bool, true, false, ◌&&◌, Option, none, some, List, [], ◌∷◌, ◌++◌,
  ltb, ◌==◌, if◌then◌else◌, length, get_elem?,
}
use csse2310_assignment.Libc.{Text, codes}
use csse2310_assignment.Libc.Compare.{text_eq}
use csse2310_assignment.Libc.Format.{expand}
use csse2310_assignment.LineList.{LineList, Stream, add_to_string, get_printable}
use csse2310_assignment.Commands.{server, get_cmd_no, cmd_to_lines}
use csse2310_assignment.ServerUtils.CmdNumbers as Cmd
use csse2310_assignment.ServerUtils.CmdNumbers.{number}
use csse2310_assignment.ClientThread.{
  ClientThread, init_client_thread, set_name, deactivate, send, read_client_line, client_stat_line,
}
use csse2310_assignment.World.{
  Ptr, null, ServerStats, World, Outcome, done, M, pure, ◌>>=◌, ◌>>◌, crash, stuck, from_some,
  load_node, load_thread, store_thread, free_thread_at, malloc, get_clients, set_server_stats,
  print, rounds,
}
use csse2310_assignment.ClientList.{
  add_client, remove_client, get_client_by_name, get_names, send_all_clients, server_stat_line,
}

abbrev pub change_thread : (ClientThread → ClientThread) → Ptr → M (Unit {0})
change_thread f client = do c ← load_thread client; store_thread client (f c)

unfoldable pub send_client : Ptr → Text → M (Unit {0})
unfolding load_thread
send_client client text = change_thread (λ c. send c text) client

unfoldable pub disable_client : Ptr → M (Unit {0})
unfolding load_thread
disable_client = change_thread deactivate

unfoldable pub set_client_name : Ptr → Text → M (Unit {0})
unfolding load_thread
set_client_name client name = change_thread (λ c. set_name c name) client

unfoldable pub get_active_status : Ptr → M Bool
unfolding load_thread
get_active_status client = do c ← load_thread client; pure c.is_active

-- The line, and whether it was `EOF` only.
unfoldable pub read_line : Ptr → M (Text × Bool)
unfolding load_thread read_client_line
read_line client = do
  c ← load_thread client
  let (line, empty, c') = read_client_line c false
  store_thread client c'
  pure (line, empty)

abbrev pub change_stats : (ServerStats → ServerStats) → M (Unit {0})
change_stats f = do l ← get_clients; set_server_stats (f l.stats)

-- Whether the parsed command has this number.
unfoldable pub is_command : ℕ → LineList → Bool
is_command n l = elim (get_cmd_no (get_elem? l.lines 0) server) [ none ↦ false | some m ↦ m == n ]

-- The password of a valid `AUTH:`.
unfoldable pub auth_argument : Option LineList → Option Text
unfolding is_command
auth_argument none = none
auth_argument (some l) =
    if ltb 1 l.num_lines && is_command (number Cmd.auth) l then get_elem? l.lines 1 else none

-- `OK:` if authenticated, and else the client is disabled.
unfoldable pub finish_authentication : Ptr → Bool → M (Unit {0})
finish_authentication client true = send_client client (codes "OK:")
finish_authentication client false = disable_client client

unfoldable pub check_password : Ptr → Text → Option Text → M (Unit {0})
unfolding finish_authentication
check_password client password none = finish_authentication client false
check_password client password (some given) = do
  change_stats (λ s. record s { auth_count = s.auth_count + 1 })
  finish_authentication client (text_eq password given)

unfoldable pub challenge : Ptr → Option Text → M (Unit {0})
unfolding check_password auth_argument
challenge client none = finish_authentication client true
challenge client (some password) = do
  send_client client (codes "AUTH:")
  (reply, _) ← read_line client
  check_password client password (auth_argument (cmd_to_lines (some reply) server))

unfoldable pub authenticate_client : Ptr → M (Unit {0})
unfolding challenge
authenticate_client client = do l ← get_clients; challenge client l.password

-- A valid `NAME:` and its argument, if there is one. The code reads `lines[1]` before it knows
-- whether there is one, and does not use what it read if there is not.
unfoldable pub name_request : Option LineList → Option (Option Text)
unfolding is_command
name_request none = none
name_request (some l) =
    if is_command (number Cmd.name) l
    then some (if ltb 1 l.num_lines then get_elem? l.lines 1 else none)
    else none

-- `cmdArgs->numLines > 1 && get_client_by_name(clients, name) == NULL`
unfoldable pub is_free_name : Option Text → M Bool
is_free_name none = pure false
is_free_name (some name) = do other ← get_client_by_name name; pure (other == null)

unfoldable pub negotiate_round : Ptr → Option (Option Text) → M (Unit {0}) → M (Unit {0})
unfolding is_free_name
negotiate_round client none again = disable_client client
negotiate_round client (some name) again = do
  change_stats (λ s. record s { name_count = s.name_count + 1 })
  free ← is_free_name name
  if free
      then (do n ← from_some name; set_client_name client n; send_client client (codes "OK:"))
      else (do send_client client (codes "NAME_TAKEN:"); again)

unfoldable pub negotiate_walk : ℕ → Ptr → M (Unit {0})
unfolding negotiate_round
negotiate_walk zero client = stuck
negotiate_walk (suc k) client = do
  send_client client (codes "WHO:")
  (reply, empty) ← read_line client
  if empty
      then disable_client client
      else negotiate_round client (name_request (cmd_to_lines (some reply) server))
          (negotiate_walk k client)

-- Every round but the last reads at least one byte.
unfoldable pub name_negotiate : Ptr → M (Unit {0})
unfolding load_thread
name_negotiate client = do c ← load_thread client; negotiate_walk (suc (length c.read_from)) client

-- `client->name` as it is printed; `NULL` is a fault.
unfoldable pub printable_name : Ptr → M Text
unfolding load_thread
printable_name client = do
  c ← load_thread client
  name ← from_some c.name
  pure (get_printable name)
