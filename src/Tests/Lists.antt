-- ===== src/Tests/Lists.antt =====
-- The list of clients.
use mathlib.Core.List.{Perm}
use csse2310_assignment.Base.{◌≡◌, refl, List, [], ◌∷◌}
use csse2310_assignment.Libc.{codes}
use csse2310_assignment.Libc.Compare.{text_lt}
use csse2310_assignment.ClientThread.{ClientThread}
use csse2310_assignment.World.{World, Ptr, Memory, done}
use csse2310_assignment.ClientList.{add_client, remove_client, send_all_clients}
use csse2310_assignment.ClientList.Add.{Grown, add_client-insert}
use csse2310_assignment.ClientList.Broadcast.{delivered, send_all_clients-delivered, with_threads}
use csse2310_assignment.ClientList.Chain.{IsList}
use csse2310_assignment.ClientList.Find.{AllNamed-AllHeld}
use csse2310_assignment.ClientList.Names.{names, insert_cell}
use csse2310_assignment.ClientList.Order.{IsSorted, add_client-IsSorted}
use csse2310_assignment.ClientList.RemoveClient.{Removed, remove_client-Removed}
use csse2310_assignment.Tests.Room.{
  carol, room, cells, room-IsList, room-AllNamed, room-CanAdd, bob-IsNamed,
}

-- bob goes between alice and carol.
insert_middle : insert_cell room.threads (7, 5) cells ≡ (1, 2) ∷ (7, 5) ∷ (3, 4) ∷ []
unfolding insert_cell text_lt
insert_middle = refl

add_client-insert_example :
    (w' : World) × (add_client 5 room ≡ done tt w')
    × IsList w' (insert_cell room.threads (7, 5) cells)
    × Grown room 5 cells w'
add_client-insert_example = add_client-insert room 5 room-CanAdd bob-IsNamed

room-IsSorted : IsSorted (names room.threads cells)
unfolding text_lt
room-IsSorted = (refl, tt)

add_client-IsSorted_example :
    (w' : World) × (ys : List (Ptr × Ptr)) × (add_client 5 room ≡ done tt w')
    × IsList w' ys
    × IsSorted (names w'.threads ys)
    × Perm ys ((7, 5) ∷ cells)
add_client-IsSorted_example = add_client-IsSorted room 5 room-CanAdd bob-IsNamed room-IsSorted

remove_client-Removed_example :
    (w' : World) × (remove_client 4 room ≡ done tt w') × Removed room 4 cells w'
remove_client-Removed_example = remove_client-Removed room 4 (carol, refl) room-IsList

send_all_clients-delivered_example :
    (t : Memory ClientThread) × (send_all_clients (codes "LEAVE:dan") room
      ≡ done tt (with_threads room t))
    × ((a : Ptr) → t a ≡ delivered (codes "LEAVE:dan") cells room.threads a)
send_all_clients-delivered_example =
    send_all_clients-delivered room (codes "LEAVE:dan") room-IsList
      (AllNamed-AllHeld room.threads cells room-AllNamed) (refl, (refl, tt))
