-- ===== src/ServerUtils/Negotiate.antt =====
-- Name negotiation on the server, `name_negotiate` of serverUtils.c.
pub mod Walk
use csse2310_assignment.Base.{
  ℕ, zero, suc, ◌+◌, ◌<◌, ◌≡◌, ◌≢◌, ◌⊎◌, inl, inr, refl, ◌∙◌, Bool, true, false, Option, none, some,
  List, [], ◌∷◌, ◌++◌, arith, ◌==◌, if◌then◌else◌, Bool-cases, Option-cases, length, is_nil,
}
use csse2310_assignment.Libc.{Text, codes, Lacks}
use csse2310_assignment.Libc.Token.{skip_delimiters}
use csse2310_assignment.LineList.{LineList, get_line, read_file_line}
use csse2310_assignment.LineList.Progress.{get_line-progress}
use csse2310_assignment.Commands.{server, colon, cmd_to_lines}
use csse2310_assignment.Commands.Accepts.{Accepts, bare, argument, one, two}
use csse2310_assignment.Commands.Accepts.Sound.{cmd_to_lines_iff}
use csse2310_assignment.ClientThread.{ClientThread, set_name, deactivate, send, read_client_line}
use csse2310_assignment.World.{Ptr, null, World, Memory, Outcome, done, M, write, set_thread}
use csse2310_assignment.ClientList.{has_name}
use csse2310_assignment.ClientList.Chain.{Cells, IsList}
use csse2310_assignment.ClientList.Find.{
  AllHeld, name_at, first_named, get_client_by_name-first_named,
}
use csse2310_assignment.ClientList.Broadcast.{AllHeld-write}
use csse2310_assignment.ServerUtils.{
  is_command, name_request, is_free_name, negotiate_round, negotiate_walk, name_negotiate,
}
use csse2310_assignment.ServerUtils.FreeNames.{Unused, Unused-same}
use csse2310_assignment.ServerUtils.Steps.{
  write_self, send_client-step, disable_client-step, set_client_name-step, read_line-step,
}

-- Nothing changed but the record of the client and the server's count of NAME.
pub record Keeps (client : Ptr) (w w' : World) : Type 0 where
  pub others : (a : Ptr) → a ≢ client → w'.threads a ≡ w.threads a
  pub nodes : w'.nodes ≡ w.nodes
  pub fresh : w'.fresh ≡ w.fresh
  pub stdout : w'.stdout ≡ w.stdout
  pub head : w'.clients.head ≡ w.clients.head
  pub password : w'.clients.password ≡ w.clients.password
  pub stats :
      (record w'.clients.stats { name_count = 0 }) ≡ (record w.clients.stats { name_count = 0 })

-- The client has a name that is free, and was told `OK:` last.
pub record Named (t : Memory ClientThread) (xs : Cells) (c after : ClientThread) : Type 0 where
  pub name : Text
  pub named : after.name ≡ some name
  pub not_empty : name ≢ []
  pub no_colon : Lacks b':' name
  pub unused : Unused t name xs
  pub active : after.is_active ≡ c.is_active
  pub said : Text
  pub last : after.write_to ≡ said ++ codes "OK:\n"

-- The client was given no name, and is disabled.
abbrev pub Refused : ClientThread → ClientThread → Type 0
Refused c after = (after.name ≡ c.name) × (after.is_active ≡ false)

pub record Negotiated (client : Ptr) (xs : Cells) (w : World) (c : ClientThread)
    (r : Outcome (Unit {0})) : Type 0 where
  pub w' : World
  pub returns : r ≡ done tt w'
  pub keeps : Keeps client w w'
  pub after : ClientThread
  pub holds : w'.threads client ≡ some after
  pub result : Named w.threads xs c after ⊎ Refused c after

Keeps-refl : (client : Ptr) (w : World) → Keeps client w w
Keeps-refl client w = record {
  others = λ a h. refl;
  nodes = refl;
  fresh = refl;
  stdout = refl;
  head = refl;
  password = refl;
  stats = refl;
}

Keeps-trans :
    {client : Ptr} {u v w : World} → Keeps client u v → Keeps client v w → Keeps client u w
Keeps-trans j k = record {
  others = λ a h. k.others a h ∙ j.others a h;
  nodes = k.nodes ∙ j.nodes;
  fresh = k.fresh ∙ j.fresh;
  stdout = k.stdout ∙ j.stdout;
  head = k.head ∙ j.head;
  password = k.password ∙ j.password;
  stats = k.stats ∙ j.stats;
}

Keeps-set_thread :
    (client : Ptr) (w : World) (c : ClientThread) → Keeps client w (set_thread w client c)
unfolding write
Keeps-set_thread client w c = record {
  others = λ a h. ground arith;
  nodes = refl;
  fresh = refl;
  stdout = refl;
  head = refl;
  password = refl;
  stats = refl;
}

abbrev pub count_name : World → World
count_name w = record w {
  clients = record w.clients {
    stats = record w.clients.stats { name_count = w.clients.stats.name_count + 1 };
  };
}

Keeps-count_name : (client : Ptr) (w : World) → Keeps client w (count_name w)
Keeps-count_name client w = record {
  others = λ a h. refl;
  nodes = refl;
  fresh = refl;
  stdout = refl;
  head = refl;
  password = refl;
  stats = refl;
}

-- The record after `WHO:` and the client's line.
abbrev asked : ClientThread → ClientThread
asked c = (read_client_line (send c (codes "WHO:")) false).2

abbrev settled : ClientThread → Text → ClientThread
settled c name = send (set_name c name) (codes "OK:")

asked_lem :
    (c : ClientThread)
    → ((asked c).name ≡ c.name)
      × ((asked c).is_active ≡ c.is_active)
      × ((asked c).read_from ≡ (get_line c.read_from).2)
unfolding read_client_line read_file_line
asked_lem c = (refl, refl, refl)

module _ (client : Ptr) (xs : Cells) where
  -- What a round does is part of the negotiation.
  Negotiated-after :
      {u w : World} {b c : ClientThread} {r : Outcome (Unit {0})}
      → Keeps client u w
      → ((a : Ptr) → name_at w.threads a ≡ name_at u.threads a)
      → c.name ≡ b.name
      → c.is_active ≡ b.is_active
      → Negotiated client xs w c r
      → Negotiated client xs u b r
  Negotiated-after {u} {w} keeps same name active n = record {
    w' = n.w';
    returns = n.returns;
    keeps = Keeps-trans keeps n.keeps;
    after = n.after;
    holds = n.holds;
    result = elim n.result [
      | inl f ↦ inl (record {
        name = f.name;
        named = f.named;
        not_empty = f.not_empty;
        no_colon = f.no_colon;
        unused = Unused-same u.threads w.threads f.name xs same f.unused;
        active = f.active ∙ active;
        said = f.said;
        last = f.last;
      })
      | inr (kept, off) ↦ inr (kept ∙ name, off)
    ];
  }

  Negotiated-refuse :
      (w : World) (c : ClientThread)
      → w.threads client ≡ some c
      → Negotiated client xs w c (done tt (set_thread w client (deactivate c)))
  Negotiated-refuse w c at = record {
    w' = set_thread w client (deactivate c);
    returns = refl;
    keeps = Keeps-set_thread client w (deactivate c);
    after = deactivate c;
    holds = write_self w.threads client (deactivate c);
    result = inr (refl, refl);
  }

  Negotiated-settle :
      (w : World) (c : ClientThread) (name : Text)
      → name ≢ []
      → Lacks b':' name
      → Unused w.threads name xs
      → Negotiated client xs w c
          (done tt (set_thread (set_thread w client (set_name c name)) client (settled c name)))
  Negotiated-settle w c name ne lacks unused = record {
    w' = set_thread (set_thread w client (set_name c name)) client (settled c name);
    returns = refl;
    keeps =
        Keeps-trans (Keeps-set_thread client w (set_name c name))
          (Keeps-set_thread client (set_thread w client (set_name c name)) (settled c name));
    after = settled c name;
    holds = write_self _ client (settled c name);
    result = inl (record {
      name = name;
      named = refl;
      not_empty = ne;
      no_colon = lacks;
      unused = unused;
      active = refl;
      said = c.write_to;
      last = refl;
    });
  }
