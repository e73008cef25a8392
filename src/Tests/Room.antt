-- ===== src/Tests/Room.antt =====
-- A world with two clients in the list, and a third that has just chosen its name.
use csse2310_assignment.Base.{refl, true, Option, none, some, [], ◌∷◌, arith, ◌==◌, if◌then◌else◌}
use csse2310_assignment.Libc.{Text, codes}
use csse2310_assignment.ClientThread.{ClientThread}
use csse2310_assignment.World.{World}
use csse2310_assignment.ClientList.{node, zero_stats}
use csse2310_assignment.ClientList.Chain.{Cells, nil, cons, IsList}
use csse2310_assignment.ClientList.Names.{IsNamed, AllNamed}
use csse2310_assignment.ClientList.Add.{CanAdd}

abbrev pub guest : Option Text → Text → ClientThread
guest name input = record {
  is_active = true;
  name = name;
  stats = record { say_count = 0; kick_count = 0; list_count = 0 };
  read_from = input;
  write_to = [];
}

abbrev pub alice : ClientThread
alice = guest (some (codes "alice")) []

abbrev pub bob : ClientThread
bob = guest (some (codes "bob")) []

abbrev pub carol : ClientThread
carol = guest (some (codes "carol")) []

abbrev pub room : World
room = record {
  nodes = λ a. if a == 1 then some (node 2 0 3) else if a == 3 then some (node 4 1 0) else none;
  threads = λ a.
      if a == 2
      then some alice
      else if a == 4
      then some carol
      else if a == 5
      then some bob
      else none;
  clients = record { password = some (codes "sesame"); stats = zero_stats; head = 1 };
  stdout = [];
  fresh = 7;
}

abbrev pub cells : Cells
cells = (1, 2) ∷ (3, 4) ∷ []

pub room-IsList : IsList room cells
room-IsList = record {
  before = 0;
  chain = cons (omega arith) refl refl (cons (omega arith) refl refl nil);
  fits = omega arith;
}

pub bob-IsNamed : IsNamed room.threads 5
bob-IsNamed = (codes "bob", record { thread = bob; holds = refl; named = refl })

pub room-AllNamed : AllNamed room.threads cells
room-AllNamed = (
  (codes "alice", record { thread = alice; holds = refl; named = refl }),
  ((codes "carol", record { thread = carol; holds = refl; named = refl }), tt),
)

pub room-CanAdd : CanAdd room cells
room-CanAdd = record {
  is_list = room-IsList;
  named = room-AllNamed;
  fresh_ne = omega arith;
  unused = refl;
}
