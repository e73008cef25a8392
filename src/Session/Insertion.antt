-- ===== src/Session/Insertion.antt =====
-- A new client in the list: the invariant with its record beside the list, and in it.
use csse2310_assignment.Base.{
  suc, ◌<◌, ◌≡◌, ◌≢◌, refl, ap, sym, ◌∙◌, true, false, Option, none, some, [], ◌∷◌, arith, inl, inr,
  Bool-cases, ◌==◌, ◌||◌,
}
use csse2310_assignment.Libc.{Text}
use csse2310_assignment.Libc.Compare.{text_eq, text_lt, text_lt-total, text_eq_refl}
use csse2310_assignment.ClientThread.{ClientThread}
use csse2310_assignment.World.{Ptr, null, World, Memory, done}
use csse2310_assignment.ClientList.{add_client, has_name}
use csse2310_assignment.ClientList.Add.{CanAdd, add_client-insert}
use csse2310_assignment.ClientList.Broadcast.{has_client, Distinct}
use csse2310_assignment.ClientList.Chain.{Cells, not-mem_of_none}
use csse2310_assignment.ClientList.Find.{name_at}
use csse2310_assignment.ClientList.Names.{
  IsNamed, AllNamed, name_or, name_or-HasName, names, insert_cell,
}
use csse2310_assignment.ServerUtils.FreeNames.{Unused}
use csse2310_assignment.Session.{IsIncreasing, IsServing}
use csse2310_assignment.Session.Frame.{name_or-same}

pub has_client-unheld :
    (t : Memory ClientThread) (p : Ptr) (xs : Cells)
    → AllNamed t xs
    → t p ≡ none
    → has_client p xs ≡ false
has_client-unheld t p [] all h = refl
has_client-unheld t p ((q, c) ∷ xs) ((name, k), all) h =
    ground (arith, k.holds, has_client-unheld t p xs all h)

module _ (t t' : Memory ClientThread) (p : Ptr) (same : (a : Ptr) → a ≢ p → t' a ≡ t a) where
  names-beside : (xs : Cells) → has_client p xs ≡ false → names t' xs ≡ names t xs
  names-beside [] away = refl
  names-beside ((q, c) ∷ xs) away =
      let other : c ≢ p = ground (arith, away) in
      let rest : has_client p xs ≡ false = ground (arith, away) in
      cc (name_or-same t t' c (same c other), names-beside xs rest)

  AllNamed-beside : (xs : Cells) → has_client p xs ≡ false → AllNamed t xs → AllNamed t' xs
  AllNamed-beside [] away all = tt
  AllNamed-beside ((q, c) ∷ xs) away ((name, h), all) =
      let other : c ≢ p = ground (arith, away) in
      (
        (name, record { thread = h.thread; holds = same c other ∙ h.holds; named = h.named }),
        AllNamed-beside xs (ground (arith, away)) all,
      )

  pub Unused-beside :
      (name : Text) (xs : Cells) → has_client p xs ≡ false → Unused t name xs → Unused t' name xs
  Unused-beside name [] away u = tt
  Unused-beside name ((q, c) ∷ xs) away (now, u) =
      let other : c ≢ p = ground (arith, away) in
      let kept : name_at t' c ≡ name_at t c =
        ap (λ (o : Option ClientThread). elim o [ none ↦ none | some d ↦ d.name ]) (same c other) in
      (rw kept now, Unused-beside name xs (ground (arith, away)) u)

-- The record at the first unused address can be anything.
pub IsServing-beside :
    {w w' : World} {xs : Cells}
    → IsServing w xs
    → ((a : Ptr) → a ≢ w.fresh → w'.threads a ≡ w.threads a)
    → w'.nodes ≡ w.nodes
    → w'.clients.head ≡ w.clients.head
    → w'.fresh ≡ suc w.fresh
    → IsServing w' xs
IsServing-beside {w} {w'} {xs} s same nodes head fresh =
    let away = has_client-unheld w.threads w.fresh xs s.named (s.unused w.fresh (omega arith)).1 in
    record {
      is_list = record {
        before = s.is_list.before;
        chain = rw (nodes, head) s.is_list.chain;
        fits = omega (arith, s.is_list.fits, fresh);
      };
      named = AllNamed-beside w.threads w'.threads w.fresh same xs away s.named;
      distinct = s.distinct;
      increasing = rw (names-beside w.threads w'.threads w.fresh same xs away) s.increasing;
      no_null = same null (λ e. s.fresh_ne (sym e)) ∙ s.no_null;
      fresh_ne = omega (arith, fresh);
      unused = λ a h.
          let (no_node, no_thread) = s.unused a (omega (arith, h, fresh)) in
          (rw nodes no_node, same a (omega (arith, h, fresh)) ∙ no_thread);
    }

module _ (t : Memory ClientThread) (p c : Ptr) where
  pub has_client-insert_cell :
      (a : Ptr) (xs : Cells)
      → has_client a (insert_cell t (p, c) xs) ≡ ((a == c) || has_client a xs)
  unfolding insert_cell
  has_client-insert_cell a [] = refl
  has_client-insert_cell a ((q, d) ∷ xs) = ground (arith, has_client-insert_cell a xs)

  Distinct-insert_cell :
      (xs : Cells) → has_client c xs ≡ false → Distinct xs → Distinct (insert_cell t (p, c) xs)
  unfolding insert_cell
  Distinct-insert_cell [] away d = (refl, tt)
  Distinct-insert_cell ((q, d) ∷ xs) away (once, ds) =
      elim (Bool-cases (text_lt (name_or t c) (name_or t d))) [
        | inl less ↦ rw less (away, (once, ds))
        | inr more ↦ rw more (
          has_client-insert_cell d xs ∙ ground (arith, away, once),
          Distinct-insert_cell xs (ground (arith, away)) ds,
        )
      ]

  AllNamed-insert_cell :
      (xs : Cells) → IsNamed t c → AllNamed t xs → AllNamed t (insert_cell t (p, c) xs)
  unfolding insert_cell
  AllNamed-insert_cell [] now all = (now, tt)
  AllNamed-insert_cell ((q, d) ∷ xs) now (first, all) =
      elim (Bool-cases (text_lt (name_or t c) (name_or t d))) [
        | inl less ↦ rw less (now, (first, all))
        | inr more ↦ rw more (first, AllNamed-insert_cell xs now all)
      ]

-- A client of the list that does not have the name has another one.
apart :
    (t : Memory ClientThread) (d : Ptr) (name : Text)
    → IsNamed t d
    → has_name name (name_at t d) ≡ false
    → name_or t d ≢ name
unfolding has_name
apart t d name (old, h) differs e =
    let is : old ≡ name = sym (name_or-HasName h) ∙ e in
    let found : name_at t d ≡ some old = rw (name_at, h.holds) h.named in
    let eq : text_eq old name ≡ false = rw (found, has_name) at differs in
    cc (rw is at eq, text_eq_refl name)

above :
    (t : Memory ClientThread) (c d : Ptr)
    → IsNamed t d
    → has_name (name_or t c) (name_at t d) ≡ false
    → text_lt (name_or t c) (name_or t d) ≡ false
    → text_lt (name_or t d) (name_or t c) ≡ true
above t c d now differs more = elim (text_lt-total (name_or t c) (name_or t d) more) [
  | inl less ↦ less
  | inr same ↦ absurd (apart t d (name_or t c) now differs (sym same))
]

module _ (t : Memory ClientThread) (p c : Ptr) where
  insert_behind-IsIncreasing :
      (q d : Ptr) (xs : Cells)
      → text_lt (name_or t d) (name_or t c) ≡ true
      → IsIncreasing (names t ((q, d) ∷ xs))
      → AllNamed t xs
      → Unused t (name_or t c) xs
      → IsIncreasing (names t ((q, d) ∷ insert_cell t (p, c) xs))
  unfolding insert_cell
  insert_behind-IsIncreasing q d [] h s all u = (h, tt)
  insert_behind-IsIncreasing q d ((r, e) ∷ xs) h (now, s) (named, all) (differs, u) =
      elim (Bool-cases (text_lt (name_or t c) (name_or t e))) [
        | inl less ↦ rw less (h, (less, s))
        | inr more ↦
            rw more
              (now, insert_behind-IsIncreasing r e xs (above t c e named differs more) s all u)
      ]

  insert_cell-IsIncreasing :
      (xs : Cells)
      → IsIncreasing (names t xs)
      → AllNamed t xs
      → Unused t (name_or t c) xs
      → IsIncreasing (names t (insert_cell t (p, c) xs))
  unfolding insert_cell
  insert_cell-IsIncreasing [] s all u = tt
  insert_cell-IsIncreasing ((q, d) ∷ xs) s (named, all) (differs, u) =
      elim (Bool-cases (text_lt (name_or t c) (name_or t d))) [
        | inl less ↦ rw less (less, s)
        | inr more ↦
            rw more (insert_behind-IsIncreasing q d xs (above t c d named differs more) s all u)
      ]

-- A client whose name is free joins the list.
pub add_client-IsServing :
    (w : World) (c : Ptr) {xs : Cells}
    → IsServing w xs
    → IsNamed w.threads c
    → has_client c xs ≡ false
    → Unused w.threads (name_or w.threads c) xs
    → (w' : World) × (add_client c w ≡ done tt w')
      × IsServing w' (insert_cell w.threads (w.fresh, c) xs)
      × (w'.threads ≡ w.threads)
add_client-IsServing w c {xs} s named away unused =
    let can : CanAdd w xs = record {
      is_list = s.is_list;
      named = s.named;
      fresh_ne = s.fresh_ne;
      unused = (s.unused w.fresh (omega arith)).0;
    } in
    let (w', r, l, grown) = add_client-insert w c can named in
    let t = w.threads in
    let p = w.fresh in
    (
      w',
      r,
      record {
        is_list = l;
        named = rw grown.threads (AllNamed-insert_cell t p c xs named s.named);
        distinct = Distinct-insert_cell t p c xs away s.distinct;
        increasing =
            rw grown.threads (insert_cell-IsIncreasing t p c xs s.increasing s.named unused);
        no_null = rw grown.threads s.no_null;
        fresh_ne = omega (arith, grown.fresh);
        unused = λ a h.
            let (no_node, no_thread) = s.unused a (omega (arith, h, grown.fresh)) in
            let out = not-mem_of_none a s.is_list.chain no_node in
            let far : w.fresh < a = omega (arith, h, grown.fresh) in
            (grown.nodes a (ground (arith, out, far)) ∙ no_node, rw grown.threads no_thread);
      },
      grown.threads,
    )
