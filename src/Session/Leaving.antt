-- ===== src/Session/Leaving.antt =====
-- The end of a client's thread: the LEAVE broadcast, and the removal of the client.
use csse2310_assignment.Base.{
  ◌≡◌, refl, ap, ◌∙◌, true, false, Option, none, some, List, [], ◌∷◌, ◌++◌, arith, inl, inr,
  Bool-cases, ◌==◌,
}
use csse2310_assignment.Libc.{Text, codes}
use csse2310_assignment.Libc.Compare.{text_lt, text_lt_trans}
use csse2310_assignment.ClientThread.{ClientThread}
use csse2310_assignment.World.{Ptr, World, Memory, done, write, load_thread, and_then}
use csse2310_assignment.ClientList.{remove_client}
use csse2310_assignment.ClientList.Broadcast.{has_client, Distinct}
use csse2310_assignment.ClientList.Chain.{Cells, not-mem_of_none}
use csse2310_assignment.ClientList.Names.{AllNamed, name_or, names}
use csse2310_assignment.ClientList.Remove.{remove_cell, freed}
use csse2310_assignment.ClientList.RemoveClient.{Removed, remove_client-Removed}
use csse2310_assignment.ServerThreads.{farewell, handler_end}
use csse2310_assignment.LineList.{get_printable}
use csse2310_assignment.Session.{IsIncreasing, IsServing}
use csse2310_assignment.Session.Frame.{name_or-same, Quiet-IsServing}
use csse2310_assignment.Session.Quietly.{
  Quietly, Anything, Quietly-pure, Quietly-print, Quietly-then, Ensures-done,
}
use csse2310_assignment.Session.Calls.{IsNamed-client, Quietly-send_all_clients}

has_client-remove_cell :
    (client a : Ptr) (xs : Cells)
    → has_client a xs ≡ false
    → has_client a (remove_cell client xs) ≡ false
unfolding remove_cell
has_client-remove_cell client a [] h = refl
has_client-remove_cell client a ((p, c) ∷ xs) h = elim (Bool-cases (c == client)) [
  | inl hit ↦ rw hit (ground arith)
  | inr miss ↦ rw miss (ground (arith, has_client-remove_cell client a xs))
]

has_client-removed :
    (client : Ptr) (xs : Cells) → Distinct xs → has_client client (remove_cell client xs) ≡ false
unfolding remove_cell
has_client-removed client [] d = refl
has_client-removed client ((p, c) ∷ xs) (once, d) = elim (Bool-cases (c == client)) [
  | inl hit ↦ let is : c ≡ client = ground (arith, hit) in rw hit (rw is at once)
  | inr miss ↦ rw miss (ground (arith, has_client-removed client xs d))
]

Distinct-remove_cell : (client : Ptr) (xs : Cells) → Distinct xs → Distinct (remove_cell client xs)
unfolding remove_cell
Distinct-remove_cell client [] d = tt
Distinct-remove_cell client ((p, c) ∷ xs) (once, d) = elim (Bool-cases (c == client)) [
  | inl hit ↦ rw hit d
  | inr miss ↦ rw miss (has_client-remove_cell client c xs once, Distinct-remove_cell client xs d)
]

module _ (t : Memory ClientThread) where
  AllNamed-remove_cell :
      (client : Ptr) (xs : Cells) → AllNamed t xs → AllNamed t (remove_cell client xs)
  unfolding remove_cell
  AllNamed-remove_cell client [] all = tt
  AllNamed-remove_cell client ((p, c) ∷ xs) (now, all) = elim (Bool-cases (c == client)) [
    | inl hit ↦ rw hit all
    | inr miss ↦ rw miss (now, AllNamed-remove_cell client xs all)
  ]

  IsIncreasing-skip :
      (a b : Text) (rest : List Text)
      → text_lt a b ≡ true
      → IsIncreasing (b ∷ rest)
      → IsIncreasing (a ∷ rest)
  IsIncreasing-skip a b [] h s = tt
  IsIncreasing-skip a b (c ∷ rest) h (now, s) = (text_lt_trans a b c h now, s)

  IsIncreasing-tail : (a : Text) (rest : List Text) → IsIncreasing (a ∷ rest) → IsIncreasing rest
  IsIncreasing-tail a [] s = tt
  IsIncreasing-tail a (b ∷ rest) (now, s) = s

  IsIncreasing-remove_behind :
      (client p c : Ptr) (xs : Cells)
      → IsIncreasing (names t ((p, c) ∷ xs))
      → IsIncreasing (names t ((p, c) ∷ remove_cell client xs))
  unfolding remove_cell
  IsIncreasing-remove_behind client p c [] s = s
  IsIncreasing-remove_behind client p c ((q, d) ∷ xs) (now, s) = elim (Bool-cases (d == client)) [
    | inl hit ↦ rw hit (IsIncreasing-skip (name_or t c) (name_or t d) (names t xs) now s)
    | inr miss ↦ rw miss (now, IsIncreasing-remove_behind client q d xs s)
  ]

  IsIncreasing-remove_cell :
      (client : Ptr) (xs : Cells)
      → IsIncreasing (names t xs)
      → IsIncreasing (names t (remove_cell client xs))
  unfolding remove_cell
  IsIncreasing-remove_cell client [] s = tt
  IsIncreasing-remove_cell client ((p, c) ∷ xs) s = elim (Bool-cases (c == client)) [
    | inl hit ↦ rw hit (IsIncreasing-tail (name_or t c) (names t xs) s)
    | inr miss ↦ rw miss (IsIncreasing-remove_behind client p c xs s)
  ]

module _ (t : Memory ClientThread) (client : Ptr) where
  names-freed :
      (xs : Cells) → has_client client xs ≡ false → names (write t client none) xs ≡ names t xs
  unfolding write
  names-freed [] away = refl
  names-freed ((p, c) ∷ xs) away =
      let other : (c == client) ≡ false = ground (arith, away) in
      let rest : has_client client xs ≡ false = ground (arith, away) in
      let kept : write t client none c ≡ t c = rw (other, write) refl in
      cc (name_or-same t (write t client none) c kept, names-freed xs rest)

  AllNamed-freed :
      (xs : Cells)
      → has_client client xs ≡ false
      → AllNamed t xs
      → AllNamed (write t client none) xs
  unfolding write
  AllNamed-freed [] away all = tt
  AllNamed-freed ((p, c) ∷ xs) away ((name, h), all) = (
    (name, record { thread = h.thread; holds = ground (arith, h.holds); named = h.named }),
    AllNamed-freed xs (ground arith) all,
  )

Removed-IsServing :
    {w w' : World} {client : Ptr} {xs : Cells}
    → IsServing w xs
    → has_client client xs ≡ true
    → Removed w client xs w'
    → IsServing w' (remove_cell client xs)
unfolding write
Removed-IsServing {w} {w'} {client} {xs} s within r =
    let left = remove_cell client xs in
    let away = has_client-removed client xs s.distinct in
    let threads : w'.threads ≡ write w.threads client none = r.threads ∙ rw (within, freed) refl in
    record {
      is_list = r.is_list;
      named = rw threads (
          AllNamed-freed w.threads client left away
            (AllNamed-remove_cell w.threads client xs s.named));
      distinct = Distinct-remove_cell client xs s.distinct;
      increasing =
          rw (threads, names-freed w.threads client left away)
            (IsIncreasing-remove_cell w.threads client xs s.increasing);
      no_null = rw threads (ground (arith, s.no_null));
      fresh_ne = rw r.fresh s.fresh_ne;
      unused = λ a h.
          let (no_node, no_thread) = s.unused a (rw (← r.fresh) h) in
          let out = not-mem_of_none a s.is_list.chain no_node in
          (r.same a out ∙ no_node, rw threads (ground (arith, no_thread)));
    }

farewell_lem : {xs : Cells} (name : Option Text) → Quietly xs Anything (farewell name)
unfolding farewell
farewell_lem none = Quietly-pure Anything tt tt
farewell_lem (some text) =
    Quietly-then _ _ (Quietly-send_all_clients (codes "LEAVE:" ++ get_printable text))
      λ _. Quietly-print _

write-none : {A : Type 0} (m : Memory A) (p : Ptr) → write m p none p ≡ none
unfolding write
write-none m p = ground arith

handler_end-step :
    (w : World) (client : Ptr) (c : ClientThread)
    → w.threads client ≡ some c
    → handler_end client w ≡ and_then (farewell c.name w) (λ _. remove_client client)
unfolding handler_end load_thread
handler_end-step w client c at = ground (arith, at)

-- The end of the thread of a client in the list returns with no fault. It frees that client and takes
-- it out of the list, which stays linked well, with names that are sorted and distinct.
pub handler_end-IsServing :
    (w : World) (client : Ptr) {xs : Cells}
    → IsServing w xs
    → has_client client xs ≡ true
    → (w' : World) × (handler_end client w ≡ done tt w')
      × IsServing w' (remove_cell client xs)
      × (w'.threads client ≡ none)
handler_end-IsServing w client {xs} s within =
    let (name, h) = IsNamed-client w.threads client xs s.named within in
    let (u, w1, r, q) =
      Ensures-done (farewell h.thread.name w) ((farewell_lem h.thread.name).run w s) in
    let s1 = Quiet-IsServing q.1 s in
    let (name1, h1) = IsNamed-client w1.threads client xs s1.named within in
    let (w2, r2, removed) = remove_client-Removed w1 client (h1.thread, h1.holds) s1.is_list in
    (
      w2,
      handler_end-step w client h.thread h.holds ∙ rw r r2,
      Removed-IsServing s1 within removed,
      ap (λ t. t client) removed.threads ∙ rw (within, freed) (write-none w1.threads client),
    )
