-- ===== src/Tests/Serving.antt =====
-- Authentication and what follows it.
use csse2310_assignment.Base.{◌≡◌, ◌↔◌, refl, Bool, true, none, some}
use csse2310_assignment.Libc.{codes}
use csse2310_assignment.LineList.{get_line}
use csse2310_assignment.ClientThread.{ClientThread}
use csse2310_assignment.World.{World, done}
use csse2310_assignment.ServerUtils.{authenticate_client}
use csse2310_assignment.ServerUtils.Authenticate.{
  IsPassword, challenged, verdict, authenticate_client-Verdict,
}
use csse2310_assignment.Tests.Room.{guest, room}

abbrev dan : ClientThread
dan = guest none (codes "AUTH:sesame\nNAME:dan\n")

abbrev knocking : World
knocking = record room { threads = λ a. some dan }

authenticate_client-Verdict_example :
    (passed : Bool) × ((passed ≡ true)
      ↔ IsPassword (codes "sesame") (get_line dan.read_from).0.line)
    × ((w' : World) × (authenticate_client 5 knocking ≡ done tt w')
        × (w'.threads 5 ≡ some (verdict passed (challenged dan))))
authenticate_client-Verdict_example =
    authenticate_client-Verdict knocking 5 dan (codes "sesame") refl refl
