-- ===== src/Negotiation/Rounds.antt =====
-- One round of the server's `name_negotiate` in serverUtils.c, with a client that asks for a name.
use mathlib.Core.List.{append_assoc}
use csse2310_assignment.Base.{
  ℕ, suc, ◌≡◌, refl, ap, ◌∙◌, ◌||◌, true, false, some, inr, [], ◌∷◌, ◌++◌, ◌==◌,
}
use csse2310_assignment.Base.Int.{ℤ}
use csse2310_assignment.Libc.{Text, codes}
use csse2310_assignment.Libc.Token.{skip_delimiters}
use csse2310_assignment.Libc.Compare.{text_eq}
use csse2310_assignment.LineList.{Stream, get_line, read_file_line}
use csse2310_assignment.LineList.Reading.{IsLine, get_line-newline}
use csse2310_assignment.Commands.{server, cmd_to_lines, get_cmd_no}
use csse2310_assignment.Commands.Accepts.{argument, two}
use csse2310_assignment.Commands.Accepts.Sound.{cmd_to_lines_iff}
use csse2310_assignment.ClientThread.{ClientThread, set_name, send, read_client_line}
use csse2310_assignment.World.{Ptr, null, World, Memory, done, M, set_thread}
use csse2310_assignment.ClientList.Chain.{Cells}
use csse2310_assignment.ClientList.Find.{name_at, first_named, get_client_by_name-first_named}
use csse2310_assignment.ServerUtils.{
  name_request, is_command, is_free_name, negotiate_round, negotiate_walk,
}
use csse2310_assignment.ServerUtils.Steps.{
  write_self, send_client-step, set_client_name-step, read_line-step,
}
use csse2310_assignment.ServerUtils.Negotiate.{count_name}
use csse2310_assignment.ServerUtils.Negotiate.Walk.{
  Ready, Ready-set_thread, Ready-count_name, name_at-write,
}
use csse2310_assignment.ClientData.{name_text}
use csse2310_assignment.Negotiation.{Sendable}

name_request-asked :
    (name : Text)
    → Sendable name
    → name_request (cmd_to_lines (some (codes "NAME:" ++ name)) server) ≡ some (some name)
unfolding name_request is_command get_cmd_no text_eq skip_delimiters
name_request-asked name s =
    let accepted : cmd_to_lines (some (codes "NAME:" ++ name)) server
        ≡ some (two (codes "NAME") name) =
      (cmd_to_lines_iff (codes "NAME:" ++ name) (two (codes "NAME") name)).1
        (argument (codes "NAME") name 0 refl refl refl s.not_empty (inr s.no_colon) refl) in
    rw accepted refl

pub first_named-same :
    (t t' : Memory ClientThread) (name : Text) (xs : Cells)
    → ((a : Ptr) → name_at t' a ≡ name_at t a)
    → first_named t' name xs ≡ first_named t name xs
unfolding first_named
first_named-same t t' name [] same = refl
first_named-same t t' name ((p, c) ∷ xs) same = rw (same c, first_named-same t t' name xs same) refl

asked_line-step :
    (c : ClientThread) (line : Text) (rest : Stream)
    → IsLine line
    → c.read_from ≡ line ++ (b'\n' ∷ rest)
    → read_client_line (send c (codes "WHO:")) false
      ≡ (line, false, record (send c (codes "WHO:")) { read_from = rest })
unfolding read_client_line read_file_line
asked_line-step c line rest is_line e =
    ap (λ x. (x.0.line, false || x.1, record (send c (codes "WHO:")) { read_from = x.2 }))
      (ap get_line e ∙ get_line-newline line rest is_line)

pub asked_names-line :
    (name : Text) (z : ℤ) (rest more : Text)
    → (((codes "NAME:" ++ name_text name z) ++ codes "\n") ++ rest) ++ more
      ≡ (codes "NAME:" ++ name_text name z) ++ (b'\n' ∷ (rest ++ more))
asked_names-line name z rest more =
    append_assoc ((codes "NAME:" ++ name_text name z) ++ codes "\n") rest more
    ∙ append_assoc (codes "NAME:" ++ name_text name z) (codes "\n") (rest ++ more)

-- The record of the client once its line was read.
abbrev pub heard : ClientThread → Stream → ClientThread
heard c rest = record (send c (codes "WHO:")) { read_from = rest }

abbrev pub heard_world : World → Ptr → ClientThread → Stream → World
heard_world w client c rest =
    set_thread (set_thread w client (send c (codes "WHO:"))) client (heard c rest)

module _ (client : Ptr) (xs : Cells) where
  pub negotiate_walk-heard :
      (f : ℕ) (w : World) (c : ClientThread) (name : Text) (rest : Stream)
      → Ready client xs w c
      → Sendable name
      → c.read_from ≡ (codes "NAME:" ++ name) ++ (b'\n' ∷ rest)
      → negotiate_walk (suc f) client w
        ≡ negotiate_round client
            (some (some name))
            (negotiate_walk f client)
            (heard_world w client c rest)
  unfolding negotiate_walk
  negotiate_walk-heard f w c name rest r s e =
      let w1 = set_thread w client (send c (codes "WHO:")) in
      rw
        (
          send_client-step w client c r.at (codes "WHO:"),
          read_line-step w1 client (send c (codes "WHO:")) (write_self w.threads client _),
          asked_line-step c (codes "NAME:" ++ name) rest s.is_line e,
          name_request-asked name s,
        )
        refl

  pub heard-Ready :
      {w : World} {c : ClientThread} (rest : Stream)
      → Ready client xs w c
      → Ready client xs (heard_world w client c rest) (heard c rest)
  heard-Ready {w} {c} rest r =
      Ready-set_thread client xs (heard c rest)
        (Ready-set_thread client xs (send c (codes "WHO:")) r)

  pub name_at-heard :
      (w : World) (c : ClientThread) (rest : Stream) (a : Ptr)
      → w.threads client ≡ some c
      → name_at (heard_world w client c rest).threads a ≡ name_at w.threads a
  name_at-heard w c rest a at =
      name_at-write (set_thread w client (send c (codes "WHO:"))).threads client
        (send c (codes "WHO:")) (heard c rest) a (write_self w.threads client _) refl
      ∙ name_at-write w.threads client c (send c (codes "WHO:")) a at refl

  pub free_round :
      (w : World) (c : ClientThread) (name : Text) (again : M (Unit {0}))
      → Ready client xs w c
      → (first_named w.threads name xs == null) ≡ true
      → negotiate_round client (some (some name)) again w
        ≡ done tt (
            set_thread
              (set_thread (count_name w) client (set_name c name))
              client
              (send (set_name c name) (codes "OK:")))
  unfolding negotiate_round is_free_name
  free_round w c name again r free =
      let w1 = count_name w in
      let r1 = Ready-count_name client xs r in
      let call = get_client_by_name-first_named w1 name r1.is_list r1.held in
      let w2 = set_thread w1 client (set_name c name) in
      rw
        (
          call,
          free,
          set_client_name-step w1 client c r.at name,
          send_client-step w2 client (set_name c name) (write_self w.threads client _)
              (codes "OK:"),
        )
        refl

  pub taken_round :
      (w : World) (c : ClientThread) (name : Text) (again : M (Unit {0}))
      → Ready client xs w c
      → (first_named w.threads name xs == null) ≡ false
      → negotiate_round client (some (some name)) again w
        ≡ again (set_thread (count_name w) client (send c (codes "NAME_TAKEN:")))
  unfolding negotiate_round is_free_name
  taken_round w c name again r taken =
      let w1 = count_name w in
      let r1 = Ready-count_name client xs r in
      let call = get_client_by_name-first_named w1 name r1.is_list r1.held in
      rw (call, taken, send_client-step w1 client c r.at (codes "NAME_TAKEN:")) refl
