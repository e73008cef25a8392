-- ===== src/Negotiation.antt =====
-- Both sides of name negotiation: `name_negotiate` of serverUtils.c and that of clientUtils.c.
pub mod Rounds
pub mod Agreement
use csse2310_assignment.Base.{
  ℕ, zero, suc, ◌+◌, ◌≡◌, ◌≢◌, refl, true, false, some, inl, inr, [], ◌∷◌, ◌++◌, arith, ◌==◌,
}
use csse2310_assignment.Base.Int.{ℤ, pos, negsuc}
use csse2310_assignment.Libc.{Text, Lacks, Lacks-append}
use csse2310_assignment.Libc.Decimal.{decimal}
use csse2310_assignment.Libc.Decimal.Numerals.{NoDigit, decimal-Lacks}
use csse2310_assignment.LineList.{Stream}
use csse2310_assignment.LineList.Reading.{IsLine}
use csse2310_assignment.ClientThread.{ClientThread}
use csse2310_assignment.World.{Ptr, null, World, Memory, Outcome, done}
use csse2310_assignment.ClientList.Chain.{Cells}
use csse2310_assignment.ClientList.Find.{first_named}
use csse2310_assignment.ClientData.{name_text, successor}
use csse2310_assignment.ClientUtils.Asking.{turns, moved_on}

-- Of the names from the one with number `z` on, so many are taken, and the next one is free.
abbrev pub Taken : Memory ClientThread → Cells → Text → ℤ → ℕ → Type 0
Taken t xs name z zero = (first_named t (name_text name z) xs == null) ≡ true
Taken t xs name z (suc k) =
    ((first_named t (name_text name z) xs == null) ≡ false) × Taken t xs name (successor z) k

-- A name that can be sent: one line, with no colon.
pub record Sendable (name : Text) : Type 0 where
  pub not_empty : name ≢ []
  pub no_colon : Lacks b':' name
  pub is_line : IsLine name

append-ne_nil : (s t : Text) → s ≢ [] → s ++ t ≢ []
append-ne_nil [] t h e = h refl
append-ne_nil (c ∷ s) t h e = cc

Sendable-name_text : (name : Text) (z : ℤ) → Sendable name → Sendable (name_text name z)
unfolding name_text
Sendable-name_text name (negsuc n) s = record {
  not_empty = s.not_empty;
  no_colon = s.no_colon;
  is_line = s.is_line;
}
Sendable-name_text name (pos n) s =
    let lacks = λ (b : ℕ) (small : NoDigit b) (h : Lacks b name).
      Lacks-append b name (decimal n) h (decimal-Lacks b n small) in
    record {
      not_empty = append-ne_nil name (decimal n) s.not_empty;
      no_colon = lacks b':' (inr (omega arith)) s.no_colon;
      is_line =
          (lacks b'\n' (inl (omega arith)) s.is_line.0, lacks 0 (inl (omega arith)) s.is_line.1);
    }

-- The server's side, once the name with so many refusals in front of it was taken.
pub record ServerNames (client : Ptr) (name : Text) (z : ℤ) (k : ℕ) (c : ClientThread)
    (more : Stream) (w : World) (r : Outcome (Unit {0})) : Type 0 where
  pub world_after : World
  pub returns : r ≡ done tt world_after
  pub holds :
      world_after.threads client
      ≡ some (record c {
        name = some (name_text name (moved_on k z));
        write_to = c.write_to ++ turns k [];
        read_from = more;
      })
  pub counts : world_after.clients.stats.name_count ≡ w.clients.stats.name_count + suc k
