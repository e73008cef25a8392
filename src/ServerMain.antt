-- ===== src/ServerMain.antt =====
-- server.c: how the server starts, and its loop that takes in clients.
pub mod Starting
use csse2310_assignment.Base.{
  ℕ, true, false, Bool, Option, none, some, List, [], ◌∷◌, ◌++◌, if◌then◌else◌,
}
use csse2310_assignment.Libc.{Text, codes}
use csse2310_assignment.Libc.Decimal.{decimal}
use csse2310_assignment.LineList.{Stream}
use csse2310_assignment.Commands.{server, AuthFile, get_password}
use csse2310_assignment.ClientData.{usage, comms, code_of}
use csse2310_assignment.World.{World, Outcome, done, M, pure, ◌>>◌}
use csse2310_assignment.ClientList.{init_client_list, set_password}
use csse2310_assignment.ServerThreads.{spawn_client_thread}
use csse2310_assignment.Errors.{exit_with_msg, Launch, launched, crashes, quit_with}

-- The calls of the system: `fopen` as for the client; `getaddrinfo` of a port to listen on; whether
-- `bind` of a new socket succeeds; and the number of the port that `getsockname` then reports.
pub record System (Address : Type 0) : Type 0 where
  pub fopen : Text → Option Stream
  pub getaddrinfo : Text → Option Address
  pub bind : Address → Bool
  pub port_of : Address → ℕ

-- The memory when `init_client_list` has returned.
abbrev pub empty_world : World
empty_world = record {
  nodes = λ a. none;
  threads = λ a. none;
  clients = init_client_list;
  stdout = [];
  fresh = 1;
}

-- The server in front of its loop, and what it wrote to standard error.
pub record Server : Type 0 where
  pub world : World
  pub stderr : Text

-- What follows `open_listen`: the number of the port goes to standard error, and the password into
-- the list of clients.
unfoldable pub enter_loop : Option Text → Option ℕ → Launch Server
unfolding set_password
enter_loop password none = quit_with (exit_with_msg (code_of comms) server)
enter_loop password (some port) = elim (set_password password empty_world) [
  | done u w ↦ launched (record { world = w; stderr = decimal port ++ codes "\n" })
  | _ ↦ crashes
]

module _ {Address : Type 0} (system : System Address) where
  -- The port that the socket listens on, and -1 as `none`.
  unfoldable pub open_listen : Text → Option ℕ
  open_listen port = elim (system.getaddrinfo port) [
    | none ↦ none
    | some address ↦ if system.bind address then some (system.port_of address) else none
  ]

  -- What follows `get_password`.
  unfoldable pub listen_with : Text → Option AuthFile → Launch Server
  unfolding open_listen enter_loop
  listen_with port none = crashes
  listen_with port (some auth) =
      if auth.invalid
      then quit_with (exit_with_msg (code_of usage) server)
      else enter_loop auth.password (open_listen port)

  -- The arguments with the name of the program in front; `argc` must be 2 or 3. Port 0 lets the system
  -- choose.
  unfoldable pub setup_server : List Text → Launch Server
  unfolding listen_with
  setup_server (program ∷ authfile ∷ []) =
      listen_with (codes "0") (get_password (system.fopen authfile))
  setup_server (program ∷ authfile ∷ port ∷ []) =
      listen_with port (get_password (system.fopen authfile))
  setup_server argv = quit_with (exit_with_msg (code_of usage) server)

-- The loop of `main`, for the clients that `accept` gives, while no other thread takes a step.
unfoldable pub accept_clients : List Stream → M (Unit {0})
unfolding spawn_client_thread
accept_clients [] = pure tt
accept_clients (stream ∷ rest) = do spawn_client_thread stream; accept_clients rest
