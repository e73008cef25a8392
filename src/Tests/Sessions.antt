-- ===== src/Tests/Sessions.antt =====
-- The server's session: negotiation, a client's thread, and new clients.
use csse2310_assignment.Base.{[], ◌∷◌, ◌++◌, map, ◌≡◌, refl, none, some, arith, ◌==◌, if◌then◌else◌}
use csse2310_assignment.Libc.{codes}
use csse2310_assignment.Libc.Compare.{text_lt}
use csse2310_assignment.LineList.{Stream}
use csse2310_assignment.ClientThread.{ClientThread}
use csse2310_assignment.World.{World, done}
use csse2310_assignment.ClientList.Remove.{remove_cell}
use csse2310_assignment.ServerUtils.{name_negotiate}
use csse2310_assignment.ServerUtils.Negotiate.{Negotiated}
use csse2310_assignment.ServerUtils.Negotiate.Walk.{name_negotiate-Negotiated}
use csse2310_assignment.ServerThreads.{
  spawn_client_thread, handler_round, handler_end, client_thread_handler,
}
use csse2310_assignment.Session.{IsServing, Quiet}
use csse2310_assignment.Session.Ending.{client_thread_handler-Ends}
use csse2310_assignment.Session.Handling.{handler_round-IsServing}
use csse2310_assignment.LineList.{LineList, get_printable}
use csse2310_assignment.ClientList.Names.{names}
use csse2310_assignment.Handlers.{handle_list}
use csse2310_assignment.Session.Saying.{Broadcasts}
use csse2310_assignment.Session.Listing.{commas, list_counted, handle_list-names}
use csse2310_assignment.Session.Leaving.{handler_end-IsServing}
use csse2310_assignment.Session.Spawning.{Spawned, spawn_client_thread-outcome}
use csse2310_assignment.Tests.Room.{guest, alice, carol, room, cells, room-IsList}

-- A client that asks for a name that is taken, and then for a free one.
abbrev dora : ClientThread
dora = guest none (codes "NAME:carol\nNAME:dora\n")

abbrev hall : World
hall = record room {
  threads = λ a.
      if a == 2
      then some alice
      else if a == 4
      then some carol
      else if a == 5
      then some dora
      else none;
}

name_negotiate-Negotiated_example : Negotiated 5 cells hall dora (name_negotiate 5 hall)
name_negotiate-Negotiated_example = name_negotiate-Negotiated 5 cells hall dora (record {
  at = refl;
  is_list = record {
    before = room-IsList.before;
    chain = room-IsList.chain;
    fits = room-IsList.fits;
  };
  held = ((alice, refl), ((carol, refl), tt));
  no_null = refl;
})

-- alice says something that has control codes, and kicks somebody who is not there.
abbrev pub busy : World
busy = record room {
  threads = λ a.
      if a == 2
      then some (guest (some (codes "alice")) (codes "SAY:a:\tb\nKICK:zoe\n"))
      else if a == 4
      then some carol
      else none;
}

pub busy-IsServing : IsServing busy cells
unfolding text_lt
busy-IsServing = record {
  is_list = record {
    before = room-IsList.before;
    chain = room-IsList.chain;
    fits = room-IsList.fits;
  };
  named = (
    (
      codes "alice",
      record {
        thread = guest (some (codes "alice")) (codes "SAY:a:\tb\nKICK:zoe\n");
        holds = refl;
        named = refl;
      },
    ),
    ((codes "carol", record { thread = carol; holds = refl; named = refl }), tt),
  );
  distinct = (refl, (refl, tt));
  increasing = (refl, tt);
  no_null = refl;
  fresh_ne = omega arith;
  unused = λ a h. (ground (arith, h), ground (arith, h));
}

handler_round-IsServing_example :
    (w' : World) × (handler_round 2 busy ≡ done tt w') × Quiet busy w' × IsServing w' cells
handler_round-IsServing_example = handler_round-IsServing busy 2 busy-IsServing refl

handler_end-IsServing_example :
    (w' : World) × (handler_end 4 busy ≡ done tt w')
    × IsServing w' (remove_cell 4 cells)
    × (w'.threads 4 ≡ none)
handler_end-IsServing_example = handler_end-IsServing busy 4 busy-IsServing refl

abbrev newcomer : Stream
newcomer = codes "AUTH:sesame\nNAME:bob\n"

spawn_client_thread-outcome_example :
    Spawned busy newcomer cells (spawn_client_thread newcomer busy)
spawn_client_thread-outcome_example = spawn_client_thread-outcome busy newcomer busy-IsServing

client_thread_handler-Ends_example :
    (w' : World) × (client_thread_handler 2 busy ≡ done tt w')
    × IsServing w' (remove_cell 2 cells)
    × (w'.threads 2 ≡ none)
client_thread_handler-Ends_example = client_thread_handler-Ends 2 refl busy busy-IsServing

-- A LIST from carol.
abbrev list_args : LineList
list_args = record { lines = codes "LIST" ∷ []; num_lines = 1 }

handle_list-names_example :
    Broadcasts
      (list_counted busy 4 carol)
      cells
      (codes "LIST:"
        ++ commas (map get_printable (names (list_counted busy 4 carol).threads cells)))
      (codes "(current chatters: "
        ++ (commas (map get_printable (names (list_counted busy 4 carol).threads cells))
            ++ codes ")\n"))
      (handle_list 4 list_args busy)
handle_list-names_example = handle_list-names busy 4 carol list_args busy-IsServing refl
