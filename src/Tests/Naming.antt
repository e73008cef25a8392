-- ===== src/Tests/Naming.antt =====
-- Name negotiation, on both sides.
use csse2310_assignment.Base.{none, some, [], ◌≡◌, refl, arith, ◌==◌, if◌then◌else◌}
use csse2310_assignment.Base.Int.{negsuc}
use csse2310_assignment.Libc.{codes}
use csse2310_assignment.Libc.Decimal.{decimal}
use csse2310_assignment.Libc.Compare.{text_eq}
use csse2310_assignment.ClientThread.{ClientThread}
use csse2310_assignment.World.{World}
use csse2310_assignment.ClientData.{ClientData, ok, init_client_data, name_text}
use csse2310_assignment.ServerUtils as ServerSide
use csse2310_assignment.ClientUtils as ClientSide
use csse2310_assignment.ClientUtils.Asking.{negotiated}
use csse2310_assignment.ClientList.{has_name}
use csse2310_assignment.ClientList.Find.{first_named}
use csse2310_assignment.Negotiation.{ServerNames}
use csse2310_assignment.Negotiation.Agreement.{negotiation-agrees}
use csse2310_assignment.Tests.Room.{guest, alice, carol, room, cells, room-IsList}

-- Another client that would be carol, and is carol0.
abbrev second_carol : ClientThread
second_carol = guest none (codes "NAME:carol\nNAME:carol0\nSAY:hi\n")

abbrev lobby : World
lobby = record room {
  threads = λ a.
      if a == 2
      then some alice
      else if a == 4
      then some carol
      else if a == 5
      then some second_carol
      else none;
}

abbrev carol_program : ClientData
carol_program =
    init_client_data (codes "carol") none (codes "WHO:\nNAME_TAKEN:\nWHO:\nOK:\nENTER:carol0\n") []

negotiation-agrees_example :
    ServerNames 5
      (codes "carol")
      (negsuc 0)
      1
      second_carol
      (codes "SAY:hi\n")
      lobby
      (ServerSide.name_negotiate 5 lobby)
    × (ClientSide.name_negotiate carol_program
        ≡ ok tt (negotiated carol_program 1 (codes "ENTER:carol0\n")))
unfolding init_client_data first_named has_name text_eq name_text decimal
negotiation-agrees_example =
    negotiation-agrees 5 cells 1 lobby second_carol carol_program (codes "SAY:hi\n")
      (codes "ENTER:carol0\n")
      (record {
        at = refl;
        is_list = record {
          before = room-IsList.before;
          chain = room-IsList.chain;
          fits = room-IsList.fits;
        };
        held = ((alice, refl), ((carol, refl), tt));
        no_null = refl;
      })
      (record { not_empty = cc; no_colon = refl; is_line = (refl, refl) }) (refl, refl) refl refl
      (omega arith) refl refl
