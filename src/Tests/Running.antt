-- ===== src/Tests/Running.antt =====
-- A run of the server: its first client joins.
use csse2310_assignment.Base.{◌≡◌, refl, none, some}
use csse2310_assignment.Libc.{codes}
use csse2310_assignment.Session.Reach.{first_world, start, step, takes_in, Serves, Reach-Serves}
use csse2310_assignment.ServerUtils.{
  authenticate_client, send_client, read_line, name_negotiate, name_request, negotiate_walk,
  set_client_name,
}
use csse2310_assignment.World.{write, World, done}
use csse2310_assignment.Commands.{
  cmd_to_lines, check_args, get_cmd_args, args_of, get_cmd_no, all_args,
}
use csse2310_assignment.LineList.{read_file_line, add_to_lines, pattern_match_string, Stream}
use csse2310_assignment.ClientThread.{init_client_thread}
use csse2310_assignment.Libc.Token.{strtok_r}
use csse2310_assignment.Libc.Compare.{text_eq}
use csse2310_assignment.ClientList.{add_client, get_client_by_name, send_all_clients}
use csse2310_assignment.ServerThreads.{spawn_client_thread}

abbrev newcomer : Stream
newcomer = codes "AUTH:sesame\nNAME:bob\n"

-- The server when its first client has joined.
abbrev opened : World
opened = elim (spawn_client_thread newcomer (first_world (some (codes "sesame")))) [
  | done u w ↦ w
  | _ ↦ first_world none
]

opened-step : spawn_client_thread newcomer (first_world (some (codes "sesame"))) ≡ done tt opened
unfolding authenticate_client send_client write read_line cmd_to_lines read_file_line
    init_client_thread check_args get_cmd_args args_of get_cmd_no strtok_r text_eq all_args
    add_to_lines pattern_match_string name_negotiate add_client get_client_by_name send_all_clients
    name_request negotiate_walk set_client_name spawn_client_thread
opened-step = refl

Reach-Serves_example : Serves opened
Reach-Serves_example =
    Reach-Serves (some (codes "sesame")) (step start (takes_in newcomer opened-step))
