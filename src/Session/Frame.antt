-- ===== src/Session/Frame.antt =====
-- Steps that leave the list of clients as it is keep the invariant.
use csse2310_assignment.Base.{
  ◌≡◌, refl, ap, sym, subst, ◌∙◌, Option, none, some, [], ◌∷◌, arith, inl, inr, Option-cases,
}
use csse2310_assignment.Libc.{Text}
use csse2310_assignment.ClientThread.{ClientThread}
use csse2310_assignment.World.{Ptr, null, World, Memory}
use csse2310_assignment.ClientList.Chain.{Cells, Chain, IsList}
use csse2310_assignment.ClientList.Names.{IsNamed, AllNamed, name_or, names}
use csse2310_assignment.Session.{IsServing, named_at, Quiet}

pub Quiet-refl : (w : World) → Quiet w w
Quiet-refl w = record {
  nodes = refl;
  head = refl;
  fresh = refl;
  password = refl;
  names_kept = λ a. refl;
  left_le = λ a. omega arith;
}

pub Quiet-trans : {u v w : World} → Quiet u v → Quiet v w → Quiet u w
Quiet-trans j k = record {
  nodes = k.nodes ∙ j.nodes;
  head = k.head ∙ j.head;
  fresh = k.fresh ∙ j.fresh;
  password = k.password ∙ j.password;
  names_kept = λ a. k.names_kept a ∙ j.names_kept a;
  left_le = λ a. omega (arith, j.left_le a, k.left_le a);
}

pub name_or-same : (t t' : Memory ClientThread) (c : Ptr) → t' c ≡ t c → name_or t' c ≡ name_or t c
name_or-same t t' c e =
    ap
      (λ (o : Option ClientThread). elim o [
        | none ↦ []
        | some thread ↦ elim thread.name [ none ↦ [] | some name ↦ name ]
      ])
      e

IsNamed-kept :
    (t t' : Memory ClientThread) (c : Ptr)
    → named_at t' c ≡ named_at t c
    → IsNamed t c
    → IsNamed t' c
IsNamed-kept t t' c same (name, h) = elim (Option-cases (t' c)) [
  | inl e ↦ absurd (ground (arith, e, same, h.holds))
  | inr (d, e) ↦
      (name, record { thread = d; holds = e; named = ground (arith, e, same, h.holds, h.named) })
]

abbrev shown_name : Option (Option Text) → Text
shown_name none = []
shown_name (some none) = []
shown_name (some (some name)) = name

name_or_lem : (t : Memory ClientThread) (c : Ptr) → name_or t c ≡ shown_name (named_at t c)
name_or_lem t c = elim (Option-cases (t c)) [
  | inl e ↦ rw (e, name_or, named_at) refl
  | inr (d, e) ↦ elim (Option-cases d.name) [
    | inl n ↦ rw (e, name_or, named_at, n) refl
    | inr (name, n) ↦ rw (e, name_or, named_at, n) refl
  ]
]

module _ (t t' : Memory ClientThread) (same : (a : Ptr) → named_at t' a ≡ named_at t a) where
  names-kept : (xs : Cells) → names t' xs ≡ names t xs
  names-kept [] = refl
  names-kept ((p, c) ∷ xs) = rw (name_or_lem t' c, name_or_lem t c, same c, names-kept xs) refl

  AllNamed-kept : (xs : Cells) → AllNamed t xs → AllNamed t' xs
  AllNamed-kept [] all = tt
  AllNamed-kept ((p, c) ∷ xs) (now, all) = (IsNamed-kept t t' c (same c) now, AllNamed-kept xs all)

  none-kept : (a : Ptr) → t a ≡ none → t' a ≡ none
  none-kept a h = elim (Option-cases (t' a)) [
    | inl e ↦ e
    | inr (d, e) ↦ absurd (ground (arith, same a, e, h))
  ]

IsList-kept :
    {w w' : World} {xs : Cells}
    → w'.nodes ≡ w.nodes
    → w'.clients.head ≡ w.clients.head
    → w'.fresh ≡ w.fresh
    → IsList w xs
    → IsList w' xs
IsList-kept {w} {w'} {xs} nodes head fresh l = record {
  before = l.before;
  chain =
      subst (λ m. Chain m l.before w'.clients.head xs) (sym nodes)
        (subst (λ h. Chain w.nodes l.before h xs) (sym head) l.chain);
  fits = omega (arith, l.fits, fresh);
}

-- A step that changes neither the list nor a name keeps the invariant.
pub Quiet-IsServing : {w w' : World} {xs : Cells} → Quiet w w' → IsServing w xs → IsServing w' xs
Quiet-IsServing {w} {w'} {xs} q s = record {
  is_list = IsList-kept q.nodes q.head q.fresh s.is_list;
  named = AllNamed-kept w.threads w'.threads q.names_kept xs s.named;
  distinct = s.distinct;
  increasing = rw (names-kept w.threads w'.threads q.names_kept xs) s.increasing;
  no_null = none-kept w.threads w'.threads q.names_kept null s.no_null;
  fresh_ne = rw q.fresh s.fresh_ne;
  unused = λ a h.
      let (no_node, no_thread) = s.unused a (rw (← q.fresh) h) in
      (rw q.nodes no_node, none-kept w.threads w'.threads q.names_kept a no_thread);
}
