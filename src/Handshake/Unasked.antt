-- ===== src/Handshake/Unasked.antt =====
-- A server with no password and a client program: `authenticate_client` and `name_negotiate` of serverUtils.c, and
-- `authenticate_client` of clientUtils.c.
use csse2310_assignment.Base.{◌≡◌, refl, false, Option, none, some, []}
use csse2310_assignment.Base.Int.{pos}
use csse2310_assignment.Libc.{Text, codes}
use csse2310_assignment.Libc.Compare.{text_eq}
use csse2310_assignment.Libc.Token.{strtok_r}
use csse2310_assignment.LineList.{read_file_line, add_to_lines, pattern_match_string}
use csse2310_assignment.Commands.{
  get_cmd_no, cmd_to_lines, check_args, get_cmd_args, args_of, all_args,
}
use csse2310_assignment.ClientThread.{
  ClientThread, init_client_thread, send, deactivate, read_client_line,
}
use csse2310_assignment.World.{Ptr, World, Outcome, done, set_thread, load_thread, ◌>>◌}
use csse2310_assignment.ServerUtils.{authenticate_client, name_negotiate, negotiate_walk}
use csse2310_assignment.ServerUtils.Authenticate.{authenticate_client-open}
use csse2310_assignment.ServerUtils.Steps.{
  write_self, send_client-step, disable_client-step, read_line-step,
}
use csse2310_assignment.ClientData.{
  ClientData, Run, ok, init_client_data, read_server_line, read_after, next_error, disable_client,
}
use csse2310_assignment.ClientUtils as ClientSide

-- All that the server sends to a client that sends nothing.
abbrev pub unasked : Text
unasked = codes "OK:\nWHO:\n"

-- The server's side: it asked for a name, and closed the connection.
pub record ServerLeaves (client : Ptr) (r : Outcome (Unit {0})) : Type 0 where
  pub world_after : World
  pub thread : ClientThread
  pub returns : r ≡ done tt world_after
  pub holds : world_after.threads client ≡ some thread
  pub active : thread.is_active ≡ false
  pub name : thread.name ≡ none
  pub sends : thread.write_to ≡ unasked

-- The client's side: it is disabled, and answered nothing.
pub record ClientLeaves (r : Run (Unit {0})) : Type 0 where
  pub data_after : ClientData
  pub returns : r ≡ ok tt data_after
  pub active : data_after.is_active ≡ false
  pub code : data_after.exit_code ≡ pos 2
  pub sends : data_after.write_to ≡ []

client-ClientLeaves :
    (name : Text) (password : Option Text)
    → ClientLeaves (ClientSide.authenticate_client (init_client_data name password unasked []))
unfolding init_client_data ClientSide.authenticate_client ClientSide.authenticate_walk
    read_server_line read_after next_error read_file_line get_cmd_no cmd_to_lines check_args
    get_cmd_args args_of all_args text_eq strtok_r pattern_match_string add_to_lines disable_client
client-ClientLeaves name password = record {
  data_after = _;
  returns = refl;
  active = refl;
  code = refl;
  sends = refl;
}

-- A client that sends nothing, when it was sent `OK:`.
abbrev greeted : ClientThread
greeted = send (init_client_thread []) (codes "OK:")

name_negotiate-silent :
    (w : World) (client : Ptr)
    → w.threads client ≡ some greeted
    → ServerLeaves client (name_negotiate client w)
unfolding name_negotiate negotiate_walk load_thread init_client_thread read_client_line
    read_file_line
name_negotiate-silent w client at =
    let asked = send greeted (codes "WHO:") in
    let w1 = set_thread w client asked in
    let at1 = write_self w.threads client asked in
    let heard = (read_client_line asked false).2 in
    let w2 = set_thread w1 client heard in
    let at2 = write_self w1.threads client heard in
    record {
      world_after = set_thread w2 client (deactivate heard);
      thread = deactivate heard;
      returns =
          rw
            (
              name_negotiate,
              load_thread,
              at,
              send_client-step w client greeted at (codes "WHO:"),
              read_line-step w1 client asked at1,
              disable_client-step w2 client heard at2,
            )
            refl;
      holds = write_self w2.threads client _;
      active = refl;
      name = refl;
      sends = refl;
    }

-- A server with no password, and a client program with any name, and with a password or none, each given what
-- the other sends. The server sends OK: and WHO: and reads nothing; at the end of its input its thread for the
-- client is disabled and has no name. The client program takes neither line for the challenge: it sends
-- nothing, and at the end of its input it is disabled with a communications error.
pub open_server-refuses :
    (name : Text) (password : Option Text) (w : World) (client : Ptr)
    → w.clients.password ≡ none
    → w.threads client ≡ some (init_client_thread [])
    → ServerLeaves client ((authenticate_client client >> name_negotiate client) w)
      × ClientLeaves (ClientSide.authenticate_client (init_client_data name password unasked []))
open_server-refuses name password w client open_to_all at =
    let w1 = set_thread w client greeted in
    (
      rw (authenticate_client-open w client (init_client_thread []) at open_to_all)
          (name_negotiate-silent w1 client (write_self w.threads client greeted)),
      client-ClientLeaves name password,
    )
