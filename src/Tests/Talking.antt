-- ===== src/Tests/Talking.antt =====
-- What clients say, and the report on them.
use csse2310_assignment.Base.{true, false, ◌⊎◌, ◌≡◌, refl, none, some, [], ◌∷◌, ◌++◌, arith}
use csse2310_assignment.Libc.{codes}
use csse2310_assignment.LineList.{get_printable}
use csse2310_assignment.Commands.{colon}
use csse2310_assignment.Commands.Client.{msg}
use csse2310_assignment.ClientData.{ClientData, ok, fault, init_client_data}
use csse2310_assignment.ClientThread.{ClientThread, client_stat_line}
use csse2310_assignment.ClientThread.StatLine.{client_stat_line-overflow}
use csse2310_assignment.ClientUtils as ClientSide
use csse2310_assignment.ClientUtils.Naming.{name_negotiate-Settled}
use csse2310_assignment.ClientUtils.Messages.{printed, handle_cmd-msg}
use csse2310_assignment.Handlers.{say_line, handle_cmd}
use csse2310_assignment.Session.Saying.{Broadcasts, counted, spoken, handle_cmd-say}
use csse2310_assignment.Tests.Room.{alice, carol, cells}
use csse2310_assignment.Tests.Sessions.{busy, busy-IsServing}

abbrev pub reader : ClientData
reader = init_client_data (codes "carol") (some (codes "sesame")) [] []

handle_cmd-msg_example :
    (ClientSide.handle_cmd (some (msg (codes "bob" ++ (b':' ∷ codes "hi")))) reader
      ≡ ok tt (printed reader (codes "bob" ++ (codes ": " ++ (codes "hi" ++ codes "\n")))))
    × (ClientSide.handle_cmd (some (msg (codes "bob" ++ colon))) reader ≡ fault)
    × (ClientSide.handle_cmd (some (msg (codes "bob"))) reader ≡ ok tt reader)
handle_cmd-msg_example = handle_cmd-msg (codes "bob") (codes "hi") reader (cc) refl (cc)

handle_cmd-say_example :
    Broadcasts
      (counted busy 4 carol)
      cells
      (say_line (get_printable (codes "carol")) (get_printable (codes "a:\tb")))
      (spoken (get_printable (codes "carol")) (get_printable (codes "a:\tb")))
      (handle_cmd 4 (codes "SAY:" ++ codes "a:\tb") busy)
    × (ClientSide.handle_cmd
          (some (say_line (get_printable (codes "carol")) (get_printable (codes "a:\tb"))))
          reader
        ≡ ok tt (
            printed reader
              (spoken (get_printable (codes "carol")) (get_printable (codes "a:\tb")))))
handle_cmd-say_example =
    handle_cmd-say busy 4 carol (codes "carol") (codes "a:\tb") reader busy-IsServing refl refl (cc)
      refl (cc)

abbrev noisy : ClientThread
noisy = record alice {
  stats = record { say_count = 100000; kick_count = 2000000; list_count = 100000 };
}

client_stat_line-overflow_example : client_stat_line noisy ≡ none
client_stat_line-overflow_example =
    client_stat_line-overflow noisy (codes "alice") refl (omega arith) (omega arith) (omega arith)

-- A server that takes the second name.
abbrev asked_twice : ClientData
asked_twice =
    init_client_data (codes "carol") (some (codes "sesame"))
      (codes "WHO:\nNAME_TAKEN:\nWHO:\nOK:\n") []

name_negotiate-Settled_example :
    (d' : ClientData) × (ClientSide.name_negotiate asked_twice ≡ ok tt d')
    × ((d'.authenticated ≡ true) ⊎ (d'.is_active ≡ false))
unfolding init_client_data
name_negotiate-Settled_example = name_negotiate-Settled asked_twice refl refl (omega arith)
