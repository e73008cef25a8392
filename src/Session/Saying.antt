-- ===== src/Session/Saying.antt =====
-- What SAY and LIST make the server send and print, and what the clients make of it.
use csse2310_assignment.Base.{◌+◌, ◌≡◌, ◌≢◌, refl, ◌∙◌, some, [], ◌∷◌, ◌++◌, inl, arith}
use csse2310_assignment.Libc.{Text, codes, Lacks}
use csse2310_assignment.Libc.Compare.{text_eq}
use csse2310_assignment.Libc.Token.{skip_delimiters}
use csse2310_assignment.LineList.{get_printable}
use csse2310_assignment.LineList.Printable.{contains-get_printable}
use csse2310_assignment.Commands.{get_cmd_no}
use csse2310_assignment.Commands.Accepts.{argument, two}
use csse2310_assignment.Commands.Accepts.Sound.{cmd_to_lines_iff}
use csse2310_assignment.ClientThread.{ClientThread}
use csse2310_assignment.World.{
  Ptr, World, Memory, Outcome, done, write, load_thread, set_thread, print, ◌>>◌,
}
use csse2310_assignment.ClientList.{send_all_clients}
use csse2310_assignment.ClientList.Broadcast.{delivered, send_all_clients-delivered}
use csse2310_assignment.ClientList.Chain.{Cells}
use csse2310_assignment.ClientList.Find.{AllNamed-AllHeld}
use csse2310_assignment.ServerUtils.{printable_name}
use csse2310_assignment.Handlers.{
  say, say_line, count_say, handle_say, handle_number, handle_parsed, handle_cmd,
}
use csse2310_assignment.Session.{IsServing}
use csse2310_assignment.Session.Frame.{Quiet-IsServing, Quiet-trans}
use csse2310_assignment.Session.Quietly.{Quiet-same}
use csse2310_assignment.Session.Calls.{Quiet-set_thread}
use csse2310_assignment.ClientData.{ClientData, ok}
use csse2310_assignment.ClientUtils.Messages.{printed, handle_cmd-msg}
use csse2310_assignment.ClientUtils as ClientSide

-- From `w`, every listening client of the list is sent `text`, `out` is printed, and that is all.
pub record Broadcasts (w : World) (xs : Cells) (text out : Text) (r : Outcome (Unit {0}))
    : Type 0 where
  pub t : Memory ClientThread
  pub returns : r ≡ done tt (record w { threads = t; stdout = w.stdout ++ out })
  pub sent : (a : Ptr) → t a ≡ delivered text xs w.threads a

pub send-Broadcasts :
    (w : World) {xs : Cells} (text out : Text)
    → IsServing w xs
    → Broadcasts w xs text out ((send_all_clients text >> print out) w)
send-Broadcasts w {xs} text out s =
    let (t, r, all) =
      send_all_clients-delivered w text s.is_list (AllNamed-AllHeld w.threads xs s.named)
        s.distinct in
    record { t = t; returns = rw r refl; sent = all }

-- The world once the message is counted, for the client and for the server.
abbrev pub counted : World → Ptr → ClientThread → World
counted w client c =
    set_thread
      (record w {
        clients = record w.clients {
          stats = record w.clients.stats { say_count = w.clients.stats.say_count + 1 };
        };
      })
      client (count_say c)

handle_say-step :
    (w : World) (client : Ptr) (c : ClientThread) (name word line : Text)
    → w.threads client ≡ some c
    → c.name ≡ some name
    → handle_say client (two word line) w
      ≡ say (get_printable name) (some line) (counted w client c)
unfolding handle_say load_thread printable_name write
handle_say-step w client c name word line at named = ground (arith, at, named)

handle_cmd-say_step :
    (w : World) (client : Ptr) (line : Text)
    → line ≢ []
    → handle_cmd client (codes "SAY:" ++ line) w ≡ handle_say client (two (codes "SAY") line) w
unfolding handle_cmd handle_parsed handle_number get_cmd_no text_eq skip_delimiters
handle_cmd-say_step w client line some_line =
    let parsed =
      (cmd_to_lines_iff (codes "SAY:" ++ line) (two (codes "SAY") line)).1
        (argument (codes "SAY") line 2 refl refl refl some_line (inl refl) refl) in
    rw (handle_cmd, parsed, handle_parsed) refl

counted-IsServing :
    (w : World) (client : Ptr) (c : ClientThread) {xs : Cells}
    → w.threads client ≡ some c
    → IsServing w xs
    → IsServing (counted w client c) xs
counted-IsServing w client c at s =
    let w1 : World = record w {
      clients = record w.clients {
        stats = record w.clients.stats { say_count = w.clients.stats.say_count + 1 };
      };
    } in
    Quiet-IsServing
      (Quiet-trans (Quiet-same w w1 (λ a. refl) (λ a. omega arith) refl refl refl refl)
        (Quiet-set_thread w1 client c (count_say c) at refl (omega arith)))
      s

get_printable-cons : (s : Text) → s ≢ [] → get_printable s ≢ []
unfolding get_printable
get_printable-cons [] some_byte e = some_byte refl
get_printable-cons (x ∷ s) some_byte e = cc

-- `printf("%s: %s\n", name, msg)`
abbrev pub spoken : Text → Text → Text
spoken name message = name ++ (codes ": " ++ (message ++ codes "\n"))

-- A client of the list says something: each listening client is sent one line, the server prints the
-- name, a colon and the message, with their unprintable bytes replaced, and nothing else changes but
-- the two counts. A client program that reads the line prints the same as the server.
pub handle_cmd-say :
    (w : World) (client : Ptr) (c : ClientThread) (name line : Text) (d : ClientData) {xs : Cells}
    → IsServing w xs
    → w.threads client ≡ some c
    → c.name ≡ some name
    → name ≢ []
    → Lacks b':' name
    → line ≢ []
    → Broadcasts
        (counted w client c)
        xs
        (say_line (get_printable name) (get_printable line))
        (spoken (get_printable name) (get_printable line))
        (handle_cmd client (codes "SAY:" ++ line) w)
      × (ClientSide.handle_cmd (some (say_line (get_printable name) (get_printable line))) d
          ≡ ok tt (printed d (spoken (get_printable name) (get_printable line))))
unfolding say
handle_cmd-say w client c name line d s at named some_name lacks some_line =
    let shown = get_printable name in
    let message = get_printable line in
    let no_colon : Lacks b':' shown =
      contains-get_printable b':' name (omega arith, omega arith) refl ∙ lacks in
    (
      rw
          (
            handle_cmd-say_step w client line some_line,
            handle_say-step w client c name (codes "SAY") line at named,
          )
          (send-Broadcasts (counted w client c) (say_line shown message) (spoken shown message)
            (counted-IsServing w client c at s)),
      (handle_cmd-msg shown message d (get_printable-cons name some_name) no_colon
          (get_printable-cons line some_line)).0,
    )
