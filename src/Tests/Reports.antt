-- ===== src/Tests/Reports.antt =====
-- KICK, SIGHUP, the end of the list, and a line of the user.
use csse2310_assignment.Base.{◌≡◌, refl, some, ◌++◌, arith}
use csse2310_assignment.Libc.{codes}
use csse2310_assignment.World.{done}
use csse2310_assignment.ClientData as ClientState
use csse2310_assignment.ClientUtils as ClientSide
use csse2310_assignment.ServerThreads.{report_stats}
use csse2310_assignment.Handlers.{handle_cmd}
use csse2310_assignment.Session.Kicking.{Kicks, kick_counted, handle_cmd-Kicks}
use csse2310_assignment.Commands.Accepts.{two}
use csse2310_assignment.Session.Racing.{Race, handle_kick-Race}
use csse2310_assignment.Session.Reporting.{report, report_stats-report}
use csse2310_assignment.ClientList.{free_client_list}
use csse2310_assignment.ClientList.Find.{AllNamed-AllHeld}
use csse2310_assignment.ClientList.FreeList.{Freed, free_client_list-Freed}
use csse2310_assignment.ClientUtils.Typing.{Typed, send_user_msg-Typed}
use csse2310_assignment.Tests.Room.{carol, cells, room, room-IsList, room-AllNamed}
use csse2310_assignment.Tests.Sessions.{busy, busy-IsServing}
use csse2310_assignment.Tests.Talking.{reader}

handle_cmd-Kicks_example :
    Kicks
      (kick_counted busy 4 carol)
      (codes "alice")
      cells
      (handle_cmd 4 (codes "KICK:" ++ codes "alice") busy)
    × (ClientSide.handle_cmd (some (codes "KICK:")) reader
        ≡ ClientState.disable_client ClientState.kicked reader)
handle_cmd-Kicks_example =
    handle_cmd-Kicks busy 4 carol (codes "alice") reader busy-IsServing refl (cc) refl

handle_kick-Race_example :
    Race 4
      (two (codes "KICK") (codes "alice"))
      busy
      (kick_counted busy 4 carol)
      (codes "alice")
      cells
handle_kick-Race_example =
    handle_kick-Race busy 4 carol (codes "KICK") (codes "alice") busy-IsServing refl

report_stats-report_example : report_stats busy ≡ done (report busy cells) busy
report_stats-report_example =
    report_stats-report busy busy-IsServing
      (
        record {
          thread = _;
          name = codes "alice";
          holds = refl;
          named = refl;
          plain = refl;
          say = omega arith;
          kick = omega arith;
          list = omega arith;
        },
        (
          record {
            thread = _;
            name = codes "carol";
            holds = refl;
            named = refl;
            plain = refl;
            say = omega arith;
            kick = omega arith;
            list = omega arith;
          },
          tt,
        ),
      )
      (record {
        say = omega arith;
        kick = omega arith;
        list = omega arith;
        auth = omega arith;
        name = omega arith;
        leave = omega arith;
      })

free_client_list-Freed_example : Freed room cells (free_client_list room)
free_client_list-Freed_example =
    free_client_list-Freed room room-IsList (AllNamed-AllHeld room.threads cells room-AllNamed)
      (refl, (refl, tt))

send_user_msg-Typed_example :
    Typed (codes "*LEAVE:") reader (ClientSide.send_user_msg (codes "*LEAVE:") reader)
unfolding ClientState.init_client_data
send_user_msg-Typed_example = send_user_msg-Typed reader refl (codes "*LEAVE:")
