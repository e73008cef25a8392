-- ===== src/ClientMain.antt =====
-- client.c: how the client program starts.
pub mod Starting
use csse2310_assignment.Base.{
  zero, Bool, true, false, Option, none, some, List, [], ◌∷◌, if◌then◌else◌,
}
use csse2310_assignment.Libc.{Text}
use csse2310_assignment.LineList.{Stream}
use csse2310_assignment.Commands.{client, AuthFile, get_password}
use csse2310_assignment.ClientData.{usage, comms, code_of, init_client_data}
use csse2310_assignment.ClientProcess.{Process, start_client}
use csse2310_assignment.Errors.{exit_with_msg, Launch, launched, crashes, quit_with}

-- A connection: what the server will send, and what `getsockopt` will report.
pub record Connection : Type 0 where
  pub stream : Stream
  pub errors : List Bool

-- The calls of the system: `fopen` gives a file's content, or `none` if it cannot be opened;
-- `getaddrinfo`, of localhost and a port, gives an address, or `none` for an error; and `connect` of a
-- new socket gives `none` if it fails.
pub record System (Address : Type 0) : Type 0 where
  pub fopen : Text → Option Stream
  pub getaddrinfo : Text → Option Address
  pub connect : Address → Option Connection

-- What follows `connect_to_server`.
unfoldable pub enter_server : Text → Option Text → Stream → Option Connection → Launch Process
unfolding init_client_data start_client
enter_server name password stdin none = quit_with (exit_with_msg (code_of comms) client)
enter_server name password stdin (some c) =
    launched (start_client (init_client_data name password c.stream c.errors) stdin)

module _ {Address : Type 0} (system : System Address) where
  -- The socket, and -1 as `none`.
  unfoldable pub connect_to_server : Text → Option Connection
  connect_to_server port = elim (system.getaddrinfo port) [
    | none ↦ none
    | some address ↦ system.connect address
  ]

  -- What follows `get_password`.
  unfoldable pub enter_with : Text → Text → Stream → Option AuthFile → Launch Process
  unfolding connect_to_server enter_server
  enter_with name port stdin none = crashes
  enter_with name port stdin (some auth) =
      if auth.invalid
      then quit_with (exit_with_msg (code_of usage) client)
      else enter_server name auth.password stdin (connect_to_server port)

  -- The arguments with the name of the program in front; `argc` must be 4.
  unfoldable pub main : List Text → Stream → Launch Process
  unfolding enter_with
  main (program ∷ name ∷ authfile ∷ port ∷ []) stdin =
      enter_with name port stdin (get_password (system.fopen authfile))
  main argv stdin = quit_with (exit_with_msg (code_of usage) client)
