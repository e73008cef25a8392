-- ===== src/Session.antt =====
-- The server as a whole: the invariant of its memory, and the steps of its threads, from
-- serverUtils.c.
pub mod Frame
pub mod Quietly
pub mod Calls
pub mod Handling
pub mod Saying
pub mod Listing
pub mod Kicking
pub mod Racing
pub mod Reporting
pub mod Leaving
pub mod Ending
pub mod Admission
pub mod Insertion
pub mod Joining
pub mod Judging
pub mod Spawning
pub mod Watching
pub mod Reach
use csse2310_assignment.Base.{
  ℕ, length, ◌≤◌, ◌≢◌, ◌≡◌, refl, ◌∙◌, true, Option, none, some, List, [], ◌∷◌, arith,
}
use csse2310_assignment.Libc.{Text}
use csse2310_assignment.Libc.Compare.{text_lt}
use csse2310_assignment.ClientThread.{ClientThread}
use csse2310_assignment.World.{Ptr, null, World, Memory}
use csse2310_assignment.ClientList.Broadcast.{has_client, Distinct}
use csse2310_assignment.ClientList.Chain.{Cells, IsList}
use csse2310_assignment.ClientList.Names.{AllNamed, names}

-- Each name is greater than the one before it, so that no two are the same.
abbrev pub IsIncreasing : List Text → Type 0
IsIncreasing [] = Unit
IsIncreasing (a ∷ []) = Unit
IsIncreasing (a ∷ b ∷ rest) = (text_lt a b ≡ true) × IsIncreasing (b ∷ rest)

-- The list is linked well, its clients are allocated and distinct, and their names are sorted and
-- distinct. Nothing stands at `NULL`, and from `fresh` on nothing was allocated.
pub record IsServing (w : World) (xs : Cells) : Type 0 where
  pub is_list : IsList w xs
  pub named : AllNamed w.threads xs
  pub distinct : Distinct xs
  pub increasing : IsIncreasing (names w.threads xs)
  pub no_null : w.threads null ≡ none
  pub fresh_ne : w.fresh ≢ null
  pub unused : (a : Ptr) → w.fresh ≤ a → (w.nodes a ≡ none) × (w.threads a ≡ none)

-- What the list and its order depend on: whether a client is allocated, and its name.
abbrev pub named_at : Memory ClientThread → Ptr → Option (Option Text)
named_at t a = elim (t a) [ none ↦ none | some thread ↦ some thread.name ]

-- How many bytes a client's stream has still to give.
abbrev pub left_at : Memory ClientThread → Ptr → ℕ
left_at t a = elim (t a) [ none ↦ 0 | some thread ↦ length thread.read_from ]

-- No client came, went, or changed its name, and the list is as it was. What was read of a stream does
-- not come back.
pub record Quiet (w w' : World) : Type 0 where
  pub nodes : w'.nodes ≡ w.nodes
  pub head : w'.clients.head ≡ w.clients.head
  pub fresh : w'.fresh ≡ w.fresh
  pub password : w'.clients.password ≡ w.clients.password
  pub names_kept : (a : Ptr) → named_at w'.threads a ≡ named_at w.threads a
  pub left_le : (a : Ptr) → left_at w'.threads a ≤ left_at w.threads a
