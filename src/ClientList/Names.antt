-- ===== src/ClientList/Names.antt =====
-- The names of the clients in the list, their order, and the list with a client put in its place.
use csse2310_assignment.Base.{◌≡◌, none, some, List, [], ◌∷◌, arith, if◌then◌else◌}
use csse2310_assignment.Libc.{Text}
use csse2310_assignment.Libc.Compare.{text_lt}
use csse2310_assignment.ClientThread.{ClientThread}
use csse2310_assignment.World.{Ptr, ClientNode, World, Memory, done}
use csse2310_assignment.ClientList.{name_of, is_before}
use csse2310_assignment.ClientList.Chain.{Cells}

-- The client at `c` is allocated and has completed name negotiation with this name.
pub record HasName (t : Memory ClientThread) (c : Ptr) (name : Text) : Type 0 where
  pub thread : ClientThread
  pub holds : t c ≡ some thread
  pub named : thread.name ≡ some name

abbrev pub IsNamed : Memory ClientThread → Ptr → Type 0
IsNamed t c = (name : Text) × HasName t c name

abbrev pub AllNamed : Memory ClientThread → Cells → Type 0
AllNamed t [] = Unit
AllNamed t ((p, c) ∷ xs) = IsNamed t c × AllNamed t xs

-- The name of a client, or the empty text if it has none.
abbrev pub name_or : Memory ClientThread → Ptr → Text
name_or t c = elim (t c) [
  | none ↦ []
  | some thread ↦ elim thread.name [ none ↦ [] | some name ↦ name ]
]

-- The names in the order of the list.
abbrev pub names : Memory ClientThread → Cells → List Text
names t [] = []
names t ((p, c) ∷ xs) = name_or t c ∷ names t xs

-- The place of a new client: in front of the first whose name is greater.
unfoldable pub insert_cell : Memory ClientThread → Ptr × Ptr → Cells → Cells
insert_cell t (p, c) [] = (p, c) ∷ []
insert_cell t (p, c) ((q, d) ∷ xs) =
    if text_lt (name_or t c) (name_or t d)
    then (p, c) ∷ (q, d) ∷ xs
    else (q, d) ∷ insert_cell t (p, c) xs

pub name_or-HasName :
    {t : Memory ClientThread} {c : Ptr} {name : Text} → HasName t c name → name_or t c ≡ name
name_or-HasName h = ground arith

pub name_of_lem :
    (w : World) {c : Ptr} → IsNamed w.threads c → name_of c w ≡ done (name_or w.threads c) w
unfolding name_of
name_of_lem w (name, h) = ground arith

pub is_before_lem :
    (w : World) (p q : Ptr) {m n : ClientNode}
    → w.nodes p ≡ some m
    → w.nodes q ≡ some n
    → IsNamed w.threads m.client
    → IsNamed w.threads n.client
    → is_before p q w ≡ done (text_lt (name_or w.threads m.client) (name_or w.threads n.client)) w
unfolding is_before
is_before_lem w p q at_p at_q (a, h) (b, k) = ground arith
