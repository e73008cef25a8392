-- ===== src/Tests/Starting.antt =====
-- How the two programs start, on a small system, and how they meet.
use csse2310_assignment.Base.{ℕ, refl, true, Option, none, some, [], ◌∷◌, ◌++◌, ◌==◌, if◌then◌else◌}
use csse2310_assignment.Libc.{Text, codes}
use csse2310_assignment.Libc.Compare.{text_eq}
use csse2310_assignment.LineList.{Stream}
use csse2310_assignment.ClientData.{init_client_data}
use csse2310_assignment.ClientUtils as ClientSide
use csse2310_assignment.ClientUtils.Challenge.{Answers, authenticate_client-Answers}
use csse2310_assignment.ClientMain as ClientProgram
use csse2310_assignment.ClientMain.Starting.{main-Started}
use csse2310_assignment.ClientMain.Starting as ClientStarting
use csse2310_assignment.Handshake.{
  knocks, knocking, server_sends, ServerEnds, ClientEnds, handshake-passes,
}
use csse2310_assignment.Handshake.Unasked.{unasked, ServerLeaves, ClientLeaves, open_server-refuses}
use csse2310_assignment.ClientThread.{init_client_thread}
use csse2310_assignment.World.{World, ◌>>◌}
use csse2310_assignment.Session.Reach.{first_world}
use csse2310_assignment.ServerUtils as ServerSide
use csse2310_assignment.ServerMain as ServerProgram
use csse2310_assignment.ServerMain.Starting.{setup_server-Started}
use csse2310_assignment.ServerMain.Starting as ServerStarting

-- One file, whose only line is the password.
abbrev files : Text → Option Stream
files path = if text_eq path (codes "auth") then some (codes "sesame\n") else none

-- One port, 4000, on which a server listens that closes each connection.
abbrev client_system : ClientProgram.System ℕ
client_system = record {
  fopen = files;
  getaddrinfo = λ port. if text_eq port (codes "4000") then some 4000 else none;
  connect = λ address. some (record { stream = []; errors = [] });
}

abbrev server_system : ServerProgram.System ℕ
server_system = record {
  fopen = files;
  getaddrinfo = λ port. if text_eq port (codes "0") then some 0 else none;
  bind = λ address. true;
  port_of = λ address. 4000;
}

main-Started_example :
    ClientStarting.Started client_system
      (codes "client" ∷ codes "carol" ∷ codes "auth" ∷ codes "4000" ∷ [])
      []
      (ClientProgram.main client_system
        (codes "client" ∷ codes "carol" ∷ codes "auth" ∷ codes "4000" ∷ [])
        [])
main-Started_example =
    main-Started client_system (codes "client" ∷ codes "carol" ∷ codes "auth" ∷ codes "4000" ∷ [])
      []

setup_server-Started_example :
    ServerStarting.Started server_system
      (codes "server" ∷ codes "auth" ∷ [])
      (ServerProgram.setup_server server_system (codes "server" ∷ codes "auth" ∷ []))
setup_server-Started_example =
    setup_server-Started server_system (codes "server" ∷ codes "auth" ∷ [])

authenticate_client-Answers_example :
    Answers
      (init_client_data (codes "carol") (some (codes "sesame")) (codes "KICK:\nAUTH:\nOK:\n") [])
      (ClientSide.authenticate_client
        (init_client_data (codes "carol") (some (codes "sesame")) (codes "KICK:\nAUTH:\nOK:\n") []))
unfolding init_client_data
authenticate_client-Answers_example =
    authenticate_client-Answers
      (init_client_data (codes "carol") (some (codes "sesame")) (codes "KICK:\nAUTH:\nOK:\n") [])
      refl

-- A server with a password whose next client has just connected.
abbrev porch : World
porch = record (first_world (some (codes "sesame"))) {
  threads = λ a. if a == 1 then some (knocks (codes "sesame") []) else none;
  fresh = 2;
}

handshake-passes_example :
    ServerEnds 1
      (text_eq (codes "sesame") (codes "sesame"))
      []
      (ServerSide.authenticate_client 1 porch)
    × ClientEnds (codes "sesame") (text_eq (codes "sesame") (codes "sesame")) (codes "WHO:\n") (
        ClientSide.authenticate_client (
          knocking (codes "carol") (codes "sesame") (
            server_sends (text_eq (codes "sesame") (codes "sesame"))
            ++ (if text_eq (codes "sesame") (codes "sesame") then codes "WHO:\n" else []))))
handshake-passes_example =
    handshake-passes (codes "carol") (codes "sesame") (codes "sesame") (codes "WHO:\n") [] porch 1
      (cc) refl (refl, refl) refl refl

-- A server with no password, and a client that has just connected.
abbrev open_porch : World
open_porch = record (first_world none) {
  threads = λ a. if a == 1 then some (init_client_thread []) else none;
  fresh = 2;
}

open_server-refuses_example :
    ServerLeaves 1 ((ServerSide.authenticate_client 1 >> ServerSide.name_negotiate 1) open_porch)
    × ClientLeaves
        (ClientSide.authenticate_client (init_client_data (codes "carol") none unasked []))
open_server-refuses_example = open_server-refuses (codes "carol") none open_porch 1 refl refl
