-- ===== src/ClientList/Find.antt =====
-- Walks that only read: `get_client_by_name` and `get_names`.
use mathlib.Core.List.{append-nil, append_assoc}
use csse2310_assignment.Base.{
  ℕ, zero, suc, ◌+◌, ◌<◌, ◌≡◌, refl, ◌∙◌, Option, none, some, [], ◌∷◌, ◌++◌, arith, if◌then◌else◌,
  length,
}
use csse2310_assignment.Libc.{Text}
use csse2310_assignment.LineList.{LineList, init_line_list, add_to_lines}
use csse2310_assignment.ClientThread.{ClientThread}
use csse2310_assignment.World.{Ptr, null, World, Memory, done}
use csse2310_assignment.ClientList.{has_name, find_walk, get_client_by_name, names_walk, get_names}
use csse2310_assignment.ClientList.Chain.{Cells, Chain, nil, cons, IsList}
use csse2310_assignment.ClientList.Names.{AllNamed, name_or, names, name_of_lem}

-- Every client of the list is allocated.
abbrev pub IsHeld : Memory ClientThread → Ptr → Type 0
IsHeld t c = (thread : ClientThread) × (t c ≡ some thread)

abbrev pub AllHeld : Memory ClientThread → Cells → Type 0
AllHeld t [] = Unit
AllHeld t ((p, c) ∷ xs) = IsHeld t c × AllHeld t xs

pub AllNamed-AllHeld : (t : Memory ClientThread) (xs : Cells) → AllNamed t xs → AllHeld t xs
AllNamed-AllHeld t [] all = tt
AllNamed-AllHeld t ((p, c) ∷ xs) ((name, h), all) = ((h.thread, h.holds), AllNamed-AllHeld t xs all)

-- `client->name`
abbrev pub name_at : Memory ClientThread → Ptr → Option Text
name_at t c = elim (t c) [ none ↦ none | some thread ↦ thread.name ]

-- The first client of that name.
unfoldable pub first_named : Memory ClientThread → Text → Cells → Ptr
first_named t name [] = null
first_named t name ((p, c) ∷ xs) = if has_name name (name_at t c) then c else first_named t name xs

module _ (w : World) where
  find_walk-first_named :
      (k : ℕ) (name : Text) {before cur : Ptr} {xs : Cells}
      → Chain w.nodes before cur xs
      → AllHeld w.threads xs
      → length xs < k
      → find_walk k name cur w ≡ done (first_named w.threads name xs) w
  unfolding find_walk first_named
  find_walk-first_named zero name s all h = absurd (omega arith)
  find_walk-first_named (suc k) name nil all h = refl
  find_walk-first_named (suc k) name (cons {xs = ys} ne e out s) ((thread, at), all) h =
      ground (arith, find_walk-first_named k name s all)

  pub get_client_by_name-first_named :
      (name : Text) {xs : Cells}
      → IsList w xs
      → AllHeld w.threads xs
      → get_client_by_name name w ≡ done (first_named w.threads name xs) w
  unfolding get_client_by_name
  get_client_by_name-first_named name l all =
      find_walk-first_named (suc w.fresh) name l.chain all (omega (arith, l.fits))

  names_walk-names :
      (k : ℕ) (found : LineList) {before cur : Ptr} {xs : Cells}
      → Chain w.nodes before cur xs
      → AllNamed w.threads xs
      → length xs < k
      → names_walk k found cur w
        ≡ done
            (record {
              lines = found.lines ++ names w.threads xs;
              num_lines = found.num_lines + length xs;
            })
            w
  unfolding names_walk add_to_lines
  names_walk-names zero found s all h = absurd (omega arith)
  names_walk-names (suc k) found nil all h = ground (arith, append-nil found.lines)
  names_walk-names (suc k) found (cons {c} {xs = ys} ne e out s) (named, all) h = ground (
    arith,
    name_of_lem w named,
    append_assoc found.lines (name_or w.threads c ∷ []) (names w.threads ys),
    names_walk-names k (add_to_lines found (name_or w.threads c)) s all,
  )

  -- `get_names` returns the names of the clients in the order of the list, and their number.
  pub get_names_lem :
      {xs : Cells}
      → IsList w xs
      → AllNamed w.threads xs
      → get_names w ≡ done (record { lines = names w.threads xs; num_lines = length xs }) w
  unfolding get_names
  get_names_lem l all =
      names_walk-names (suc w.fresh) init_line_list l.chain all (omega (arith, l.fits))
      ∙ ground arith
