-- ===== src/Negotiation/Agreement.antt =====
-- The two sides of `name_negotiate`, in serverUtils.c and clientUtils.c, each given what the other sends.
use mathlib.Core.List.{append_assoc}
use csse2310_assignment.Base.{
  ℕ, zero, suc, ◌+◌, ◌≤◌, ◌<◌, ◌≡◌, refl, ap, ◌∙◌, true, false, some, [], ◌∷◌, ◌++◌, arith, ◌==◌,
  length, length-append,
}
use csse2310_assignment.Base.Int.{ℤ}
use csse2310_assignment.Libc.{Text, codes}
use csse2310_assignment.LineList.{Stream}
use csse2310_assignment.Commands.Accepts.{two}
use csse2310_assignment.ClientThread.{ClientThread, send}
use csse2310_assignment.World.{Ptr, null, World, Memory, load_thread, set_thread}
use csse2310_assignment.ClientList.Chain.{Cells}
use csse2310_assignment.ClientList.Find.{name_at, first_named}
use csse2310_assignment.ServerUtils.{negotiate_walk, name_negotiate}
use csse2310_assignment.ServerUtils.Steps.{write_self}
use csse2310_assignment.ServerUtils.Negotiate.{count_name}
use csse2310_assignment.ServerUtils.Negotiate.Walk.{
  Ready, Ready-set_thread, Ready-count_name, name_at-write,
}
use csse2310_assignment.ClientData.{ClientData, ok, name_text, successor}
use csse2310_assignment.ClientData.Reading.{tries}
use csse2310_assignment.ClientUtils as ClientSide
use csse2310_assignment.ClientUtils.Asking.{
  turns, moved_on, asked_names, negotiated, name_negotiate-asks,
}
use csse2310_assignment.Negotiation.{Taken, Sendable, Sendable-name_text, ServerNames}
use csse2310_assignment.Negotiation.Rounds.{
  first_named-same, asked_names-line, heard, heard_world, negotiate_walk-heard, heard-Ready,
  name_at-heard, free_round, taken_round,
}

last_line :
    (name : Text) (z : ℤ) (more : Text)
    → asked_names name z 0 ++ more ≡ (codes "NAME:" ++ name_text name z) ++ (b'\n' ∷ more)
last_line name z more = append_assoc (codes "NAME:" ++ name_text name z) (codes "\n") more

said_twice : (s one two rest : Text) → ((s ++ one) ++ two) ++ rest ≡ s ++ (one ++ (two ++ rest))
said_twice s one two rest = append_assoc (s ++ one) two rest ∙ append_assoc s one (two ++ rest)

Taken-same :
    (t t' : Memory ClientThread) (xs : Cells) (name : Text) (z : ℤ) (k : ℕ)
    → ((a : Ptr) → name_at t' a ≡ name_at t a)
    → Taken t xs name z k
    → Taken t' xs name z k
Taken-same t t' xs name z zero same free =
    rw (first_named-same t t' (name_text name z) xs same) free
Taken-same t t' xs name z (suc k) same (taken, later) = (
  rw (first_named-same t t' (name_text name z) xs same) taken,
  Taken-same t t' xs name (successor z) k same later,
)

turns-append : (k : ℕ) (rest : Stream) → turns k [] ++ rest ≡ turns k rest
turns-append zero rest = refl
turns-append (suc k) rest = ap (λ t. codes "WHO:\nNAME_TAKEN:\n" ++ t) (turns-append k rest)

module _ (client : Ptr) (xs : Cells) (name : Text) (s : Sendable name) where
  last-ServerNames :
      (f : ℕ) (w : World) (c : ClientThread) (z : ℤ) (more : Stream)
      → Ready client xs w c
      → (first_named w.threads (name_text name z) xs == null) ≡ true
      → c.read_from ≡ asked_names name z 0 ++ more
      → ServerNames client name z 0 c more w (negotiate_walk (suc f) client w)
  last-ServerNames f w c z more r free e =
      let n = name_text name z in
      let r1 = heard-Ready client xs more r in
      let free' =
        first_named-same w.threads (heard_world w client c more).threads n xs
          (λ a. name_at-heard client xs w c more a r.at) in
      record {
        world_after = _;
        returns =
            negotiate_walk-heard client xs f w c n more r (Sendable-name_text name z s)
              (e ∙ last_line name z more)
            ∙ free_round client xs (heard_world w client c more) (heard c more) n
                (negotiate_walk f client) r1 (rw free' free);
        holds =
            write_self _ client _
            ∙ ap (λ t. some (record (heard c more) { name = some n; write_to = t }))
                (append_assoc c.write_to (codes "WHO:\n") (codes "OK:\n"));
        counts = refl;
      }

  negotiate_walk-ServerNames :
      (k f : ℕ) (w : World) (c : ClientThread) (z : ℤ) (more : Stream)
      → Ready client xs w c
      → Taken w.threads xs name z k
      → c.read_from ≡ asked_names name z k ++ more
      → k < f
      → ServerNames client name z k c more w (negotiate_walk f client w)
  negotiate_walk-ServerNames k zero w c z more r taken e enough = absurd (omega arith)
  negotiate_walk-ServerNames zero (suc f) w c z more r free e enough =
      last-ServerNames f w c z more r free e
  negotiate_walk-ServerNames (suc k) (suc f) w c z more r (taken, later) e enough =
      let n = name_text name z in
      let rest = asked_names name (successor z) k ++ more in
      let u = heard_world w client c rest in
      let d = heard c rest in
      let r1 = heard-Ready client xs rest r in
      let refused = send d (codes "NAME_TAKEN:") in
      let w3 = set_thread (count_name u) client refused in
      let r3 : Ready client xs w3 refused =
        Ready-set_thread client xs refused (Ready-count_name client xs r1) in
      let heard_same = λ (a : Ptr). name_at-heard client xs w c rest a r.at in
      let same =
        λ (a : Ptr). name_at-write u.threads client d refused a r1.at refl ∙ heard_same a in
      let taken' = first_named-same w.threads u.threads n xs heard_same in
      let later_rounds =
        negotiate_walk-ServerNames k f w3 refused (successor z) more r3
          (Taken-same w.threads w3.threads xs name (successor z) k same later) refl
          (omega (arith, enough)) in
      record {
        world_after = later_rounds.world_after;
        returns =
            negotiate_walk-heard client xs f w c n rest r (Sendable-name_text name z s)
              (e ∙ asked_names-line name z (asked_names name (successor z) k) more)
            ∙ (taken_round client xs u d n (negotiate_walk f client) r1 (rw taken' taken)
                ∙ later_rounds.returns);
        holds =
            later_rounds.holds
            ∙ ap
                (λ t. some (record c {
                  name = some (name_text name (moved_on k (successor z)));
                  write_to = t;
                  read_from = more;
                }))
                (said_twice c.write_to (codes "WHO:\n") (codes "NAME_TAKEN:\n") (turns k []));
        counts = omega (arith, later_rounds.counts);
      }

  length-asked_names : (z : ℤ) (k : ℕ) (more : Text) → k < length (asked_names name z k ++ more)
  length-asked_names z zero more = omega arith
  length-asked_names z (suc k) more =
      let rest = asked_names name (successor z) k ++ more in
      omega (
        arith,
        length-asked_names (successor z) k more,
        ap length (asked_names-line name z (asked_names name (successor z) k) more),
        length-append (name_text name z) (b'\n' ∷ rest),
      )

-- A thread of the server with a client program on its other side, whose name is not empty, has no
-- colon and is one line. Of the names that the program tries, from its number on, the first `k`
-- are those of clients of the list, and the next one is free. Each side is given what the other
-- sends. Then both sides return: the server's record and the client program have that next name,
-- the server counts `k` + 1 requests and has sent what the client read, the client has sent what
-- the server read, and nothing behind that is read on either side. The list is linked well and its
-- clients are allocated, the program is not authenticated yet, its socket has no errors, and its
-- number stays at most 10 to the 9.
pub negotiation-agrees :
    (client : Ptr) (xs : Cells) (k : ℕ) (w : World) (c : ClientThread) (d : ClientData)
    (more rest : Stream)
    → Ready client xs w c
    → Sendable d.name
    → Taken w.threads xs d.name d.client_no k
    → d.authenticated ≡ false
    → d.sock_errors ≡ []
    → tries d.client_no + k ≤ 1000000000
    → c.read_from ≡ asked_names d.name d.client_no k ++ more
    → d.read_from ≡ turns k [] ++ rest
    → ServerNames client d.name d.client_no k c more w (name_negotiate client w)
      × (ClientSide.name_negotiate d ≡ ok tt (negotiated d k rest))
unfolding name_negotiate load_thread
negotiation-agrees client xs k w c d more rest r s taken new no_error small e e' = (
  rw (name_negotiate, load_thread, r.at)
      (negotiate_walk-ServerNames client xs d.name s k (suc (length c.read_from)) w c d.client_no
        more r taken e
        (rw e (omega (arith, length-asked_names client xs d.name s d.client_no k more)))),
  name_negotiate-asks k d rest new no_error small (e' ∙ turns-append k rest),
)
