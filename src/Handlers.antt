-- ===== src/Handlers.antt =====
-- The handlers of serverUtils.c for SAY, KICK, LIST and LEAVE, and `handle_cmd`, which calls them.
use csse2310_assignment.Base.{
  ℕ, suc, ◌+◌, ◌-◌, Option, none, some, List, [], ◌∷◌, ◌++◌, ltb, ◌==◌, if◌then◌else◌, get_elem?,
}
use csse2310_assignment.Libc.{Text, codes}
use csse2310_assignment.LineList.{LineList, add_to_string, get_printable}
use csse2310_assignment.Commands.{server, get_cmd_no, cmd_to_lines}
use csse2310_assignment.ClientThread.{ClientThread}
use csse2310_assignment.World.{Ptr, null, M, pure, ◌>>=◌, ◌>>◌, crash, from_some, print}
use csse2310_assignment.ClientList.{get_client_by_name, get_names, send_all_clients}
use csse2310_assignment.ServerUtils.CmdNumbers as Cmd
use csse2310_assignment.ServerUtils.CmdNumbers.{number}
use csse2310_assignment.ServerUtils.{
  change_stats, change_thread, send_client, disable_client, printable_name,
}

-- `MSG:` and the name, and the message behind a colon.
abbrev pub say_line : Text → Text → Text
say_line name msg = codes "MSG:" ++ (name ++ (codes ":" ++ msg))

abbrev pub count_say : ClientThread → ClientThread
count_say c = record c { stats = record c.stats { say_count = c.stats.say_count + 1 } }

abbrev pub count_kick : ClientThread → ClientThread
count_kick c = record c { stats = record c.stats { kick_count = c.stats.kick_count + 1 } }

abbrev pub count_list : ClientThread → ClientThread
count_list c = record c { stats = record c.stats { list_count = c.stats.list_count + 1 } }

-- With a message, or with none.
unfoldable pub say : Text → Option Text → M (Unit {0})
say name none = do send_all_clients (codes "MSG:" ++ name); print (name ++ codes ":\n")
say name (some line) = do
  let msg = get_printable line
  send_all_clients (say_line name msg)
  print (name ++ (codes ": " ++ (msg ++ codes "\n")))

unfoldable pub handle_say : Ptr → LineList → M (Unit {0})
unfolding say printable_name
handle_say client args = do
  change_stats (λ s. record s { say_count = s.say_count + 1 })
  change_thread count_say client
  name ← printable_name client
  if ltb 1 args.num_lines
      then (do line ← from_some (get_elem? args.lines 1); say name (some line))
      else say name none

unfoldable pub handle_kick : Ptr → LineList → M (Unit {0})
unfolding send_client
handle_kick client args = do
  name ← from_some (get_elem? args.lines 1)
  change_stats (λ s. record s { kick_count = s.kick_count + 1 })
  change_thread count_kick client
  other ← get_client_by_name name
  if other == null then pure tt else send_client other (codes "KICK:")

-- The loop that builds the line of names, from the name at index `i` of `n` on.
unfoldable pub names_loop : Text → ℕ → ℕ → List Text → Text
names_loop line i n [] = line
names_loop line i n (name ∷ names) =
    let grown = add_to_string line (get_printable name) in
    names_loop (if ltb i (n - 1) then add_to_string grown (codes ",") else grown) (suc i) n names

unfoldable pub handle_list : Ptr → LineList → M (Unit {0})
unfolding names_loop
handle_list client args = do
  change_stats (λ s. record s { list_count = s.list_count + 1 })
  change_thread count_list client
  names ← get_names
  let line = names_loop [] 0 names.num_lines names.lines
  send_all_clients (codes "LIST:" ++ line)
  print (codes "(current chatters: " ++ (line ++ codes ")\n"))

unfoldable pub handle_leave : Ptr → LineList → M (Unit {0})
unfolding disable_client
handle_leave client args = do
  change_stats (λ s. record s { leave_count = s.leave_count + 1 })
  disable_client client

-- The table `handlers`, read at a number from 2 on.
unfoldable pub call_handler : ℕ → Ptr → LineList → M (Unit {0})
call_handler n client args =
    if n == number Cmd.say
    then handle_say client args
    else if n == number Cmd.kick
    then handle_kick client args
    else if n == number Cmd.list
    then handle_list client args
    else if n == number Cmd.leave
    then handle_leave client args
    else crash

-- NAME and AUTH, with the numbers 0 and 1, are not handled here.
unfoldable pub handle_number : Option ℕ → Ptr → LineList → M (Unit {0})
unfolding call_handler
handle_number none client args = pure tt
handle_number (some n) client args =
    if ltb (number Cmd.auth) n then call_handler n client args else pure tt

unfoldable pub handle_parsed : Option LineList → Ptr → M (Unit {0})
unfolding handle_number
handle_parsed none client = pure tt
handle_parsed (some args) client =
    handle_number (get_cmd_no (get_elem? args.lines 0) server) client args

unfoldable pub handle_cmd : Ptr → Text → M (Unit {0})
handle_cmd client cmd = handle_parsed (cmd_to_lines (some cmd) server) client
