-- ===== src/ServerMain/Starting.antt =====
-- How the server starts, on every branch of `main` and `setup_server` in server.c.
use csse2310_assignment.Base.{
  ℕ, ◌≡◌, ◌≢◌, refl, ◌∙◌, false, Option, none, some, List, [], ◌∷◌, ◌++◌, length,
}
use csse2310_assignment.Libc.{Text, codes}
use csse2310_assignment.Libc.Decimal.{decimal}
use csse2310_assignment.LineList.{Stream}
use csse2310_assignment.LineList.Reading.{file_to_lines-total}
use csse2310_assignment.Commands.{first_line, get_password}
use csse2310_assignment.ClientList.{set_password}
use csse2310_assignment.Errors.{Exit, exit_with_msg, Launch, launched, quits}
use csse2310_assignment.Session.Reach.{first_world, Serves, start, Reach-Serves}
use csse2310_assignment.ServerMain.{
  System, Server, open_listen, enter_loop, listen_with, setup_server,
}

abbrev pub usage_exit : Exit
usage_exit = record { status = 1; stderr = codes "Usage: server authfile [port]\n" }

abbrev pub comms_exit : Exit
comms_exit = record { status = 2; stderr = codes "Communications error\n" }

-- The authfile and the port that the arguments name.
abbrev pub arguments : List Text → Option (Text × Text)
arguments (program ∷ authfile ∷ []) = some (authfile, codes "0")
arguments (program ∷ authfile ∷ port ∷ []) = some (authfile, port)
arguments argv = none

module _ {Address : Type 0} (system : System Address) where
  -- What the server does with its arguments.
  pub data Started (argv : List Text) (r : Launch Server) : Type 0 where
    wrong_count : length argv ≢ 2 → length argv ≢ 3 → r ≡ quits usage_exit → Started argv r
    no_authfile :
        (authfile port : Text)
        → arguments argv ≡ some (authfile, port)
        → system.fopen authfile ≡ none
        → r ≡ quits usage_exit
        → Started argv r
    no_port :
        (authfile port : Text) (doc : Stream)
        → arguments argv ≡ some (authfile, port)
        → system.fopen authfile ≡ some doc
        → open_listen system port ≡ none
        → r ≡ quits comms_exit
        → Started argv r
    serves :
        (authfile port : Text) (doc : Stream) (password : Option Text) (number : ℕ) (s : Server)
        → arguments argv ≡ some (authfile, port)
        → system.fopen authfile ≡ some doc
        → get_password (some doc) ≡ some (record { password = password; invalid = false })
        → open_listen system port ≡ some number
        → r ≡ launched s
        → s.world ≡ first_world password
        → s.stderr ≡ decimal number ++ codes "\n"
        → Serves s.world
        → Started argv r

  module _ (argv : List Text) (authfile port : Text) where
    some_authfile :
        (doc : Stream)
        → system.fopen authfile ≡ some doc
        → (password : Option Text) × (get_password (some doc)
            ≡ some (record { password = password; invalid = false }))
          × (listen_with system port (get_password (system.fopen authfile))
              ≡ enter_loop password (open_listen system port))
    unfolding listen_with get_password
    some_authfile doc f =
        let (l, e, same) = file_to_lines-total doc in
        (first_line l, rw (get_password, e) refl, rw (f, get_password, e, listen_with) refl)

    listen_with-Started :
        (file : Option Stream) (number : Option ℕ)
        → arguments argv ≡ some (authfile, port)
        → system.fopen authfile ≡ file
        → open_listen system port ≡ number
        → Started argv (listen_with system port (get_password (system.fopen authfile)))
    unfolding listen_with enter_loop get_password exit_with_msg set_password
    listen_with-Started none number a f c = no_authfile authfile port a f (rw (f, listen_with) refl)
    listen_with-Started (some doc) none a f c =
        let (password, g, e) = some_authfile doc f in
        no_port authfile port doc a f c (e ∙ rw (c, enter_loop) refl)
    listen_with-Started (some doc) (some n) a f c =
        let (password, g, e) = some_authfile doc f in
        serves authfile port doc password n
          (record { world = first_world password; stderr = decimal n ++ codes "\n" }) a f g c
          (e ∙ rw (c, enter_loop) refl) refl refl (Reach-Serves password start)

  -- The server exits with the usage message and status 1 unless it has one or two arguments and its
  -- authfile can be opened, and then with the communications error and status 2 unless it can listen on
  -- the port, which is 0 if none was given. Otherwise it prints the number of the port that it has got, and
  -- begins with an empty list of clients that holds the password and satisfies the invariant.
  pub setup_server-Started : (argv : List Text) → Started argv (setup_server system argv)
  unfolding setup_server exit_with_msg
  setup_server-Started (program ∷ authfile ∷ []) =
      listen_with-Started (program ∷ authfile ∷ []) authfile (codes "0") (system.fopen authfile)
        (open_listen system (codes "0")) refl refl refl
  setup_server-Started (program ∷ authfile ∷ port ∷ []) =
      listen_with-Started (program ∷ authfile ∷ port ∷ []) authfile port (system.fopen authfile)
        (open_listen system port) refl refl refl
  setup_server-Started argv = wrong_count (cc) (cc) refl
