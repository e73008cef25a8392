-- ===== src/Handshake.antt =====
-- Both sides of authentication: `authenticate_client` of serverUtils.c and that of clientUtils.c.
pub mod Unasked
use mathlib.Core.List.{append_assoc}
use csse2310_assignment.Base.{
  ◌≡◌, ◌≢◌, ◌↔◌, refl, sym, ap, Bool, true, false, some, [], ◌++◌, if◌then◌else◌,
}
use csse2310_assignment.Base.Int.{pos, negsuc}
use csse2310_assignment.Libc.{Text, codes, Lacks}
use csse2310_assignment.Libc.Compare.{text_eq, text_eq_iff}
use csse2310_assignment.Libc.Token.{skip_delimiters, strtok_r}
use csse2310_assignment.LineList.{
  Stream, ReadLine, get_line, read_file_line, add_to_lines, pattern_match_string,
}
use csse2310_assignment.LineList.Reading.{IsLine, read_line, get_line-newline}
use csse2310_assignment.Commands.{
  get_cmd_no, cmd_to_lines, check_args, get_cmd_args, args_of, all_args,
}
use csse2310_assignment.ClientThread.{ClientThread, init_client_thread, send, read_client_line}
use csse2310_assignment.World.{Ptr, World, Outcome, done}
use csse2310_assignment.ServerUtils.{authenticate_client}
use csse2310_assignment.ServerUtils.Authenticate.{
  Verdict, IsPassword, authenticate_client-Verdict, challenged,
}
use csse2310_assignment.ClientData.{
  ClientData, Run, ok, init_client_data, send_to_server, read_server_line, read_after, next_error,
  disable_client,
}
use csse2310_assignment.ClientUtils as ClientSide

-- What the server sends, and what the client does; the server closes the connection if it refuses.
abbrev pub server_sends : Bool → Text
server_sends passed = codes "AUTH:\n" ++ (if passed then codes "OK:\n" else [])

abbrev pub client_sends : Text → Text
client_sends password = (codes "AUTH:" ++ password) ++ codes "\n"

-- The client program in front of its authentication.
abbrev pub knocking : Text → Text → Stream → ClientData
knocking name password stream = init_client_data name (some password) stream []

-- The client's side.
pub record ClientEnds (password : Text) (passed : Bool) (rest : Stream) (r : Run (Unit {0}))
    : Type 0 where
  pub data_after : ClientData
  pub returns : r ≡ ok tt data_after
  pub active : data_after.is_active ≡ passed
  pub code : data_after.exit_code ≡ (if passed then negsuc 0 else pos 4)
  pub sends : data_after.write_to ≡ client_sends password
  pub left : data_after.read_from ≡ (if passed then rest else [])

client-ClientEnds :
    (name password : Text) (passed : Bool) (rest : Stream)
    → ClientEnds password passed rest (
        ClientSide.authenticate_client
          (knocking name password (server_sends passed ++ (if passed then rest else []))))
unfolding init_client_data ClientSide.authenticate_client ClientSide.authenticate_walk
    ClientSide.answer_challenge ClientSide.check_reply read_server_line read_after next_error
    read_file_line send_to_server get_cmd_no cmd_to_lines check_args get_cmd_args args_of all_args
    text_eq strtok_r pattern_match_string add_to_lines disable_client
client-ClientEnds name password true rest = record {
  data_after = _;
  returns = refl;
  active = refl;
  code = refl;
  sends = refl;
  left = refl;
}
client-ClientEnds name password false rest = record {
  data_after = _;
  returns = refl;
  active = refl;
  code = refl;
  sends = refl;
  left = refl;
}

-- The server's side.
pub record ServerEnds (client : Ptr) (passed : Bool) (more : Stream) (r : Outcome (Unit {0}))
    : Type 0 where
  pub world_after : World
  pub thread : ClientThread
  pub returns : r ≡ done tt world_after
  pub holds : world_after.threads client ≡ some thread
  pub active : thread.is_active ≡ passed
  pub sends : thread.write_to ≡ server_sends passed
  pub left : thread.read_from ≡ more

client_line :
    (password more : Text)
    → IsLine password
    → get_line (client_sends password ++ more)
      ≡ (read_line (codes "AUTH:" ++ password) false, false, more)
client_line password more is_line =
    rw (append_assoc (codes "AUTH:" ++ password) (codes "\n") more)
      (get_line-newline (codes "AUTH:" ++ password) more is_line)

same_tail : (mine given : Text) → codes "AUTH:" ++ given ≡ codes "AUTH:" ++ mine → mine ≡ given
same_tail mine given is = cc

auth-IsPassword :
    (mine given : Text)
    → mine ≢ []
    → Lacks b':' mine
    → (text_eq mine given ≡ true) ↔ IsPassword mine (codes "AUTH:" ++ given)
unfolding skip_delimiters
auth-IsPassword mine given ne lacks = (
  λ h. (ap (λ s. codes "AUTH:" ++ s) (sym ((text_eq_iff mine given).0 h)), ne, lacks),
  λ (is, _, _). (text_eq_iff mine given).1 (same_tail mine given is),
)

-- The thread of a client program that answers with `password`.
abbrev pub knocks : Text → Stream → ClientThread
knocks password more = init_client_thread (client_sends password ++ more)

challenged-step :
    (c : ClientThread) (line : ReadLine) (at_end : Bool) (rest : Stream)
    → get_line c.read_from ≡ (line, at_end, rest)
    → challenged c ≡ record (send c (codes "AUTH:")) { read_from = rest }
unfolding read_client_line read_file_line
challenged-step c line at_end rest h =
    ap (λ x. record (send c (codes "AUTH:")) { read_from = x.2 }) h

challenged-knocks :
    (password more : Text)
    → IsLine password
    → challenged (knocks password more)
      ≡ record (knocks password more) { read_from = more; write_to = codes "AUTH:\n" }
unfolding init_client_thread
challenged-knocks password more is_line =
    challenged-step (knocks password more) (read_line (codes "AUTH:" ++ password) false) false more
      (client_line password more is_line)

knocks_line :
    (password more : Text)
    → IsLine password
    → (get_line (knocks password more).read_from).0.line ≡ codes "AUTH:" ++ password
unfolding init_client_thread
knocks_line password more is_line = ap (λ x. x.0.line) (client_line password more is_line)

Verdict-ServerEnds :
    (client : Ptr) (given more : Text) (passed : Bool) (r : Outcome (Unit {0}))
    → IsLine given
    → Verdict client (challenged (knocks given more)) passed r
    → ServerEnds client passed more r
unfolding init_client_thread
Verdict-ServerEnds client given more true r is_line (w', e, at) =
    let at' = rw (challenged-knocks given more is_line) at at in
    record {
      world_after = w';
      thread = _;
      returns = e;
      holds = at';
      active = refl;
      sends = refl;
      left = refl;
    }
Verdict-ServerEnds client given more false r is_line (w', e, at) =
    let at' = rw (challenged-knocks given more is_line) at at in
    record {
      world_after = w';
      thread = _;
      returns = e;
      holds = at';
      active = refl;
      sends = refl;
      left = refl;
    }

same_truth : (a b : Bool) → ((a ≡ true) ↔ (b ≡ true)) → a ≡ b
same_truth true true h = refl
same_truth true false h = cc (h.0 refl)
same_truth false true h = cc (h.1 refl)
same_truth false false h = refl

-- A server with a password that is not empty and has no colon, and a client program whose password is one
-- line, each given what the other sends: if the passwords are the same, both are in the same state of having
-- passed; the server has sent AUTH: and OK:, the client has sent its password, and nothing further of
-- what is sent is read. Otherwise the server disables its thread for the client without an OK:, and
-- the client program, when the connection is closed, is disabled with an authentication error.
pub handshake-passes :
    (name mine given : Text) (rest more : Stream) (w : World) (client : Ptr)
    → mine ≢ []
    → Lacks b':' mine
    → IsLine given
    → w.clients.password ≡ some mine
    → w.threads client ≡ some (knocks given more)
    → let passed = text_eq mine given in
      ServerEnds client passed more (authenticate_client client w)
      × ClientEnds given passed rest (
          ClientSide.authenticate_client
            (knocking name given (server_sends passed ++ (if passed then rest else []))))
handshake-passes name mine given rest more w client ne lacks is_line needs at =
    let (passed, means, v) =
      authenticate_client-Verdict w client (knocks given more) mine at needs in
    let means' : (passed ≡ true) ↔ IsPassword mine (codes "AUTH:" ++ given) =
      rw (knocks_line given more is_line) at means in
    let auth = auth-IsPassword mine given ne lacks in
    let same : passed ≡ text_eq mine given =
      same_truth passed (text_eq mine given) (λ h. auth.1 (means'.0 h), λ h. means'.1 (auth.0 h)) in
    (
      rw (← same)
          (Verdict-ServerEnds client given more passed (authenticate_client client w) is_line v),
      client-ClientEnds name given (text_eq mine given) rest,
    )
