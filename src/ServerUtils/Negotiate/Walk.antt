-- ===== src/ServerUtils/Negotiate/Walk.antt =====
-- The rounds of `name_negotiate`, and what it comes to.
use csse2310_assignment.Base.{
  ℕ, zero, suc, ◌<◌, ◌≡◌, ◌≢◌, refl, ap, ◌∙◌, Bool, true, false, Option, none, some, [], inl, inr,
  arith, ◌==◌, if◌then◌else◌, Bool-cases, length,
}
use csse2310_assignment.Libc.{Text, codes, Lacks}
use csse2310_assignment.LineList.{read_file_line}
use csse2310_assignment.LineList.Progress.{get_line-progress}
use csse2310_assignment.Commands.{server, cmd_to_lines}
use csse2310_assignment.ClientThread.{ClientThread, set_name, send, read_client_line}
use csse2310_assignment.World.{Ptr, null, World, Memory, load_thread, M, write, set_thread, ◌>>◌}
use csse2310_assignment.ClientList.Chain.{Cells, IsList}
use csse2310_assignment.ClientList.Find.{
  AllHeld, name_at, first_named, get_client_by_name-first_named,
}
use csse2310_assignment.ClientList.Broadcast.{AllHeld-write}
use csse2310_assignment.ServerUtils.{
  name_request, is_free_name, negotiate_round, negotiate_walk, name_negotiate, send_client,
  disable_client,
}
use csse2310_assignment.ServerUtils.Steps.{
  write_self, send_client-step, disable_client-step, set_client_name-step, read_line-step,
}
use csse2310_assignment.ServerUtils.Negotiate.{
  Negotiated, Keeps-trans, Keeps-set_thread, Keeps-count_name, count_name, asked, asked_lem,
  Negotiated-after, Negotiated-refuse, Negotiated-settle,
}
use csse2310_assignment.ServerUtils.FreeNames.{name_request-name, first_named-Unused}

-- The client is allocated, the list is linked well, and nothing stands at `NULL`.
pub record Ready (client : Ptr) (xs : Cells) (w : World) (c : ClientThread) : Type 0 where
  pub at : w.threads client ≡ some c
  pub is_list : IsList w xs
  pub held : AllHeld w.threads xs
  pub no_null : w.threads null ≡ none

pub name_at-write :
    (t : Memory ClientThread) (client : Ptr) (c d : ClientThread) (a : Ptr)
    → t client ≡ some c
    → d.name ≡ c.name
    → name_at (write t client (some d)) a ≡ name_at t a
unfolding write
name_at-write t client c d a holds same = elim (Bool-cases (a == client)) [
  | inl here ↦
      let is : a ≡ client = ground (arith, here) in
      let old : t a ≡ some c = rw is holds in rw (here, name_at, old) same
  | inr away ↦ rw (away, name_at) refl
]

module _ (client : Ptr) (xs : Cells) where
  pub Ready-set_thread :
      {w : World} {c : ClientThread} (d : ClientThread)
      → Ready client xs w c
      → Ready client xs (set_thread w client d) d
  unfolding write
  Ready-set_thread {w} {c} d r = record {
    at = write_self w.threads client d;
    is_list = record { before = r.is_list.before; chain = r.is_list.chain; fits = r.is_list.fits };
    held = AllHeld-write w.threads client d xs r.held;
    no_null = ground (arith, r.at, r.no_null);
  }

  pub Ready-count_name :
      {w : World} {c : ClientThread} → Ready client xs w c → Ready client xs (count_name w) c
  Ready-count_name r = record {
    at = r.at;
    is_list = record { before = r.is_list.before; chain = r.is_list.chain; fits = r.is_list.fits };
    held = r.held;
    no_null = r.no_null;
  }

  -- What the next rounds do, from any world that is ready for them.
  abbrev Continues : ClientThread → M (Unit {0}) → Type 0
  Continues c again =
      (w : World) (d : ClientThread)
      → Ready client xs w d
      → d.read_from ≡ c.read_from
      → Negotiated client xs w d (again w)

  taken-Negotiated :
      (w : World) (c : ClientThread) (again : M (Unit {0}))
      → Ready client xs w c
      → Continues c again
      → Negotiated client xs w c
          ((send_client client (codes "NAME_TAKEN:") >> again) (count_name w))
  taken-Negotiated w c again r go =
      let d = send c (codes "NAME_TAKEN:") in
      rw (send_client-step (count_name w) client c r.at (codes "NAME_TAKEN:")) (
        Negotiated-after client xs
          (Keeps-trans (Keeps-count_name client w) (Keeps-set_thread client (count_name w) d))
          (λ a. name_at-write w.threads client c d a r.at refl) refl refl
          (go _ d (Ready-set_thread d (Ready-count_name r)) refl))

  negotiate_round-Negotiated :
      (w : World) (c : ClientThread) (request : Option (Option Text)) (again : M (Unit {0}))
      → Ready client xs w c
      → ((name : Text) → request ≡ some (some name) → (name ≢ []) × Lacks b':' name)
      → Continues c again
      → Negotiated client xs w c (negotiate_round client request again w)
  unfolding negotiate_round is_free_name
  negotiate_round-Negotiated w c none again r fit go =
      rw (disable_client-step w client c r.at) (Negotiated-refuse client xs w c r.at)
  negotiate_round-Negotiated w c (some none) again r fit go = taken-Negotiated w c again r go
  negotiate_round-Negotiated w c (some (some name)) again r fit go =
      let w1 = count_name w in
      let r1 = Ready-count_name r in
      let call = get_client_by_name-first_named w1 name r1.is_list r1.held in
      rw call (elim (Bool-cases (first_named w.threads name xs == null)) [
        | inl free ↦
            let (ne, lacks) = fit name refl in
            let w2 = set_thread w1 client (set_name c name) in
            rw
              (
                free,
                set_client_name-step w1 client c r.at name,
                send_client-step w2 client (set_name c name) (write_self w.threads client _)
                    (codes "OK:"),
              )
              (Negotiated-after client xs (Keeps-count_name client w) (λ a. refl) refl refl
                (Negotiated-settle client xs w1 c name ne lacks
                  (first_named-Unused w.threads name xs r.no_null r.held (ground arith))))
        | inr taken ↦ rw taken (taken-Negotiated w c again r go)
      ])

  -- What is left to do, once a line was read.
  after_line-Negotiated :
      (k : ℕ) (w : World) (c : ClientThread) (line : Text) (at_end : Bool)
      → Ready client xs w c
      → (at_end ≡ false → length c.read_from < k)
      → ((w' : World) (d : ClientThread)
          → Ready client xs w' d
          → length d.read_from < k
          → Negotiated client xs w' d (negotiate_walk k client w'))
      → Negotiated client xs w c (
          (if at_end
              then disable_client client
              else negotiate_round client
                  (name_request (cmd_to_lines (some line) server))
                  (negotiate_walk k client))
            w)
  after_line-Negotiated k w c line true r less go =
      rw (disable_client-step w client c r.at) (Negotiated-refuse client xs w c r.at)
  after_line-Negotiated k w c line false r less go =
      negotiate_round-Negotiated w c _ (negotiate_walk k client) r
        (λ name is. name_request-name name line is)
        λ w' d ready same. go w' d ready (omega (arith, less refl, ap length same))

  negotiate_walk-Negotiated :
      (k : ℕ) (w : World) (c : ClientThread)
      → Ready client xs w c
      → length c.read_from < k
      → Negotiated client xs w c (negotiate_walk k client w)
  unfolding negotiate_walk read_client_line read_file_line
  negotiate_walk-Negotiated zero w c r h = absurd (omega arith)
  negotiate_walk-Negotiated (suc k) w c r h =
      let said = send c (codes "WHO:") in
      let w1 = set_thread w client said in
      let r1 = Ready-set_thread said r in
      let w2 = set_thread w1 client (asked c) in
      let r2 = Ready-set_thread (asked c) r1 in
      rw (send_client-step w client c r.at (codes "WHO:"), read_line-step w1 client said r1.at)
        (Negotiated-after client xs {c = asked c}
          (Keeps-trans (Keeps-set_thread client w said) (Keeps-set_thread client w1 (asked c)))
          (λ a.
            name_at-write w1.threads client said (asked c) a r1.at (asked_lem c).0
            ∙ name_at-write w.threads client c said a r.at refl)
          (asked_lem c).0 (asked_lem c).1
          (after_line-Negotiated k w2 (asked c) _ _ r2
            (λ more. omega (arith, get_line-progress c.read_from more, ap length (asked_lem c).2))
            (negotiate_walk-Negotiated k)))

  -- `name_negotiate` always returns. It changes nothing but the record of its client and the count
  -- of NAME, and afterwards the client has a name that is not empty, holds no colon and that no
  -- client of the list has, and was told `OK:` last; or it has been given no name, and is disabled.
  pub name_negotiate-Negotiated :
      (w : World) (c : ClientThread)
      → Ready client xs w c
      → Negotiated client xs w c (name_negotiate client w)
  unfolding name_negotiate load_thread
  name_negotiate-Negotiated w c r =
      rw (name_negotiate, load_thread, r.at)
        (negotiate_walk-Negotiated (suc (length c.read_from)) w c r (omega arith))
