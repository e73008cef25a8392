-- ===== src/ClientUtils.antt =====
-- clientUtils.c: the client's side of authentication and name negotiation, its handlers of the
-- server's commands, and what it does with the user's lines.
pub mod CmdNumbers
pub mod Messages
pub mod Naming
pub mod Challenge
pub mod Typing
pub mod Asking
use csse2310_assignment.Base.{
  ℕ, zero, suc, Bool, true, false, not, ◌||◌, ◌&&◌, Option, none, some, [], ◌∷◌, ◌++◌, ltb, ◌==◌,
  if◌then◌else◌, length, get_elem?,
}
use csse2310_assignment.Libc.{Text, codes}
use csse2310_assignment.Libc.Compare.{text_eq}
use csse2310_assignment.Libc.Format.{expand}
use csse2310_assignment.LineList.{LineList}
use csse2310_assignment.Commands.{client, get_cmd_no, cmd_to_lines}
use csse2310_assignment.ClientUtils.CmdNumbers as Cmd
use csse2310_assignment.ClientUtils.CmdNumbers.{number}
use csse2310_assignment.ClientData.{
  normal, comms, kicked, failed_auth, C, pure, ◌>>=◌, ◌>>◌, crash, stuck, from_some, get, modify,
  print, next_client_no, send_to_server, read_server_line, get_name, disable_client,
}

-- The number of a parsed command, and -1 as `none`.
abbrev pub number_of : Option LineList → Option ℕ
number_of none = none
number_of (some l) = get_cmd_no (get_elem? l.lines 0) client

abbrev pub is_number : ℕ → Option ℕ → Bool
is_number n none = false
is_number n (some m) = m == n

-- `printf` of a `NULL` password writes "(null)" with glibc.
abbrev pub shown : Option Text → Text
shown none = codes "(null)"
shown (some text) = text

-- The reply to the password: anything but `OK:` ends the client.
unfoldable pub check_reply : Option Text → Bool → C (Unit {0})
check_reply none at_end = crash
check_reply (some reply) at_end =
    if not (text_eq reply (codes "OK:")) || at_end then disable_client failed_auth else pure tt

unfoldable pub answer_challenge : C (Unit {0})
unfolding check_reply
answer_challenge = do
  d ← get
  send_to_server (codes "AUTH:" ++ shown d.password)
  (reply, at_end) ← read_server_line false
  check_reply reply at_end

unfoldable pub authenticate_walk : ℕ → C (Unit {0})
unfolding answer_challenge
authenticate_walk zero = stuck
authenticate_walk (suc k) = do
  (reply, at_end) ← read_server_line false
  if at_end
      then disable_client comms
      else if is_number (number Cmd.auth) (number_of (cmd_to_lines reply client))
      then answer_challenge
      else authenticate_walk k

-- Every round but the last reads at least one byte.
unfoldable pub authenticate_client : C (Unit {0})
authenticate_client = do d ← get; authenticate_walk (suc (length d.read_from))

-- The reply to the name: `OK:`, `NAME_TAKEN:`, or something that is ignored.
unfoldable pub name_reply : Option ℕ → C (Unit {0})
name_reply n =
    if is_number (number Cmd.ok) n
    then modify (λ d. record d { authenticated = true })
    else if is_number (number Cmd.name_taken) n
    then next_client_no
    else pure tt

-- A line that is `WHO:` is answered; the flag says whether the last read met the end.
unfoldable pub answer_who : Option ℕ → Bool → C Bool
unfolding name_reply
answer_who n at_end =
    if is_number (number Cmd.who) n
    then (do
      d ← get
      name ← from_some (get_name d)
      send_to_server (codes "NAME:" ++ name)
      (reply, ended) ← read_server_line at_end
      name_reply (number_of (cmd_to_lines reply client))
      pure ended)
    else pure at_end

unfoldable pub negotiate_walk : ℕ → C Bool
unfolding answer_who
negotiate_walk zero = stuck
negotiate_walk (suc k) = do
  (line, at_end) ← read_server_line false
  ended ← answer_who (number_of (cmd_to_lines line client)) at_end
  d ← get
  if d.authenticated || ended then pure ended else negotiate_walk k

-- The loop is entered only by a client that is not authenticated.
unfoldable pub name_negotiate : C (Unit {0})
name_negotiate = do
  d ← get
  ended ← (if d.authenticated then pure false else negotiate_walk (suc (length d.read_from)))
  if ended then disable_client comms else pure tt

abbrev line_at : LineList → ℕ → C Text
line_at args n = from_some (get_elem? args.lines n)

unfoldable pub handle_kick : LineList → C (Unit {0})
handle_kick args = disable_client kicked

unfoldable pub handle_list : LineList → C (Unit {0})
handle_list args = do
  names ← line_at args 1
  print (codes "(current chatters: " ++ (names ++ codes ")\n"))

-- A read behind the end of the array is a fault.
unfoldable pub handle_msg : LineList → C (Unit {0})
handle_msg args = do
  name ← line_at args 1
  if ltb 1 args.num_lines
      then (do msg ← line_at args 2; print (name ++ (codes ": " ++ (msg ++ codes "\n"))))
      else print (name ++ codes ":\n")

unfoldable pub handle_enter : LineList → C (Unit {0})
handle_enter args = do
  name ← line_at args 1
  print (codes "(" ++ (name ++ codes " has entered the chat)\n"))

unfoldable pub handle_leave : LineList → C (Unit {0})
handle_leave args = do
  name ← line_at args 1
  print (codes "(" ++ (name ++ codes " has left the chat)\n"))

-- A command of the negotiation, behind it: only its arguments are freed.
abbrev pub handle_unused : LineList → C (Unit {0})
handle_unused args = pure tt

-- The table `handlers`; the numbers up to that of OK have `handle_unused`.
unfoldable pub call_handler : ℕ → LineList → C (Unit {0})
unfolding handle_kick handle_list handle_msg handle_enter handle_leave
call_handler n args =
    if ltb n (number Cmd.kick)
    then handle_unused args
    else if n == number Cmd.kick
    then handle_kick args
    else if n == number Cmd.list
    then handle_list args
    else if n == number Cmd.msg
    then handle_msg args
    else if n == number Cmd.enter
    then handle_enter args
    else if n == number Cmd.leave
    then handle_leave args
    else crash

unfoldable pub handle_parsed : Option LineList → C (Unit {0})
unfolding call_handler
handle_parsed none = pure tt
handle_parsed (some args) = do n ← from_some (number_of (some args)); call_handler n args

unfoldable pub handle_cmd : Option Text → C (Unit {0})
unfolding handle_parsed
handle_cmd cmd = handle_parsed (cmd_to_lines cmd client)

-- A line behind an asterisk goes out as it is, as a format with no arguments; any other as SAY.
unfoldable pub send_line : Text → C (Unit {0})
send_line [] = send_to_server (codes "SAY:")
send_line (c ∷ s) =
    if c == b'*'
    then (do text ← from_some (expand s); send_to_server text)
    else send_to_server (codes "SAY:" ++ (c ∷ s))

unfoldable pub send_user_msg : Text → C (Unit {0})
unfolding send_line
send_user_msg msg = do
  send_line msg
  if text_eq msg (codes "*LEAVE:")
      then (do
        disable_client normal
        d ← get
        print (codes "(" ++ (d.name ++ codes " has left the chat)\n")))
      else pure tt
