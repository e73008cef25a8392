-- ===== src/ClientMain/Starting.antt =====
-- How the client program starts, on every branch of `main` in client.c.
use csse2310_assignment.Base.{◌≡◌, ◌≢◌, refl, ◌∙◌, false, Option, none, some, List, [], ◌∷◌, length}
use csse2310_assignment.Libc.{Text}
use csse2310_assignment.LineList.{Stream}
use csse2310_assignment.Commands.{first_line, get_password, client}
use csse2310_assignment.LineList.Reading.{file_to_lines-total}
use csse2310_assignment.ClientData.{ExitCode, usage, comms, code_of}
use csse2310_assignment.ClientProcess.{Process}
use csse2310_assignment.ClientProcess.Ending.{first_process, ending, exit_with_msg-ending}
use csse2310_assignment.Errors.{exit_with_msg, quit_with, Launch, launched, quits}
use csse2310_assignment.ClientMain.{
  Connection, System, connect_to_server, enter_server, enter_with, main,
}

exit_launch :
    (c : ExitCode) → quit_with {A = Process} (exit_with_msg (code_of c) client) ≡ quits (ending c)
exit_launch c = rw (exit_with_msg-ending c) refl

module _ {Address : Type 0} (system : System Address) where
  -- What the client program does with its arguments.
  pub data Started (argv : List Text) (stdin : Stream) (r : Launch Process) : Type 0 where
    wrong_count : length argv ≢ 4 → r ≡ quits (ending usage) → Started argv stdin r
    no_authfile :
        (program name authfile port : Text)
        → argv ≡ program ∷ name ∷ authfile ∷ port ∷ []
        → system.fopen authfile ≡ none
        → r ≡ quits (ending usage)
        → Started argv stdin r
    no_server :
        (program name authfile port : Text) (doc : Stream)
        → argv ≡ program ∷ name ∷ authfile ∷ port ∷ []
        → system.fopen authfile ≡ some doc
        → connect_to_server system port ≡ none
        → r ≡ quits (ending comms)
        → Started argv stdin r
    starts :
        (program name authfile port : Text) (doc : Stream) (password : Option Text) (c : Connection)
        → argv ≡ program ∷ name ∷ authfile ∷ port ∷ []
        → system.fopen authfile ≡ some doc
        → get_password (some doc) ≡ some (record { password = password; invalid = false })
        → connect_to_server system port ≡ some c
        → r ≡ launched (first_process name password c.stream c.errors stdin)
        → Started argv stdin r

  module _ (program name authfile port : Text) (stdin : Stream) where
    some_authfile :
        (doc : Stream)
        → system.fopen authfile ≡ some doc
        → (password : Option Text) × (get_password (some doc)
            ≡ some (record { password = password; invalid = false }))
          × (main system (program ∷ name ∷ authfile ∷ port ∷ []) stdin
              ≡ enter_server name password stdin (connect_to_server system port))
    unfolding main enter_with get_password
    some_authfile doc f =
        let (l, e, same) = file_to_lines-total doc in
        (first_line l, rw (get_password, e) refl, rw (main, f, get_password, e, enter_with) refl)

    four-Started :
        (file : Option Stream) (conn : Option Connection)
        → system.fopen authfile ≡ file
        → connect_to_server system port ≡ conn
        → let argv = program ∷ name ∷ authfile ∷ port ∷ [] in
          Started argv stdin (main system argv stdin)
    unfolding main enter_with enter_server get_password
    four-Started none conn f c =
        no_authfile program name authfile port refl f (rw (main, f, enter_with) (exit_launch usage))
    four-Started (some doc) none f c =
        let (password, g, e) = some_authfile doc f in
        no_server program name authfile port doc refl f c
          (e ∙ rw (c, enter_server) (exit_launch comms))
    four-Started (some doc) (some conn) f c =
        let (password, g, e) = some_authfile doc f in
        starts program name authfile port doc password conn refl f g c
          (e ∙ rw (c, enter_server) refl)

  -- The program exits with the usage message and status 1 unless it has three arguments and its
  -- authfile can be opened, and then with the communications error and status 2 unless it can connect
  -- to the port. Otherwise it starts its threads with the name and the password that were given.
  pub main-Started :
      (argv : List Text) (stdin : Stream) → Started argv stdin (main system argv stdin)
  unfolding main
  main-Started (program ∷ name ∷ authfile ∷ port ∷ []) stdin =
      four-Started program name authfile port stdin (system.fopen authfile)
        (connect_to_server system port) refl refl
  main-Started argv stdin = wrong_count (cc) (exit_launch usage)
