-- ===== src/Tests/Clients.antt =====
-- A run of the client program: its user's input ends at once, and the server has a KICK on its way.
use csse2310_assignment.Base.{◌≡◌, ◌≢◌, ◌≤◌, ◌⊎◌, refl, true, false, none, some, []}
use csse2310_assignment.Base.Int.{pos, negsuc}
use csse2310_assignment.Libc.{codes}
use csse2310_assignment.Libc.Compare.{text_eq}
use csse2310_assignment.Libc.Token.{strtok_r}
use csse2310_assignment.LineList.{
  Stream, read_line_stdin, read_file_line, add_to_lines, pattern_match_string,
}
use csse2310_assignment.Commands.{
  get_cmd_no, cmd_to_lines, check_args, get_cmd_args, args_of, all_args,
}
use csse2310_assignment.ClientData.{
  ClientData, ExitCode, usage, code_of, init_client_data, send_to_server, read_server_line,
  read_after, next_error, get_name, name_text, disable_client,
}
use csse2310_assignment.ClientUtils.{
  authenticate_client, authenticate_walk, answer_challenge, check_reply, name_negotiate,
  negotiate_walk, answer_who, name_reply,
}
use csse2310_assignment.Errors.{exit_with_msg}
use csse2310_assignment.ClientProcess.{
  Process, UserAt, idling, looping, inputting, sending, delaying, user_ended, naming, listening,
  receiving, comms_ended, runs, watching, leaving, joining_comms, joining_user, start_client,
  exited, comms_move, comms_run, user_move, user_run, main_move, main_run, join_comms, join_user,
  end_client, server_comms_handler, user_input_handler, send_input, Reach, start, step, comms_steps,
  user_steps, main_steps,
}
use csse2310_assignment.ClientProcess.Ending.{first_process, ExitedWith, Reach-first_code}
use csse2310_assignment.ClientProcess.Invariant.{exit_of}
use csse2310_assignment.ClientProcess.Resting.{goes_on, Hung, IsOver}
use csse2310_assignment.ClientProcess.Settling.{Reach-settles}
use csse2310_assignment.ClientProcess.Hanging.{Reach-hangs}

abbrev server_lines : Stream
server_lines = codes "AUTH:\nOK:\nWHO:\nOK:\nKICK:\n"

abbrev beginning : Process
beginning = first_process (codes "carol") (some (codes "sesame")) server_lines [] []

abbrev admitted_data : ClientData
admitted_data = record {
  is_active = true;
  authenticated = false;
  name = codes "carol";
  password = some (codes "sesame");
  exit_code = negsuc 0;
  client_no = negsuc 0;
  write_to = codes "AUTH:sesame\n";
  read_from = codes "WHO:\nOK:\nKICK:\n";
  sock_errors = [];
  stdout = [];
  locked = false;
}

abbrev chat_data : ClientData
chat_data = record admitted_data {
  authenticated = true;
  write_to = codes "AUTH:sesame\nNAME:carol\n";
  read_from = codes "KICK:\n";
}

abbrev admitted : Process
admitted = record {
  client_data = admitted_data;
  stdin = [];
  comms_at = runs naming;
  user_at = runs idling;
  main_at = watching;
}

abbrev chatting : UserAt → Process
chatting at = record admitted {
  client_data = chat_data;
  comms_at = runs receiving;
  user_at = runs at;
}

named-step : Reach beginning 3 (chatting idling)
unfolding comms_move comms_run server_comms_handler start_client init_client_data
    authenticate_client authenticate_walk answer_challenge check_reply read_server_line read_after
    next_error read_file_line send_to_server get_cmd_no cmd_to_lines check_args get_cmd_args args_of
    all_args text_eq strtok_r pattern_match_string add_to_lines name_negotiate negotiate_walk
    answer_who name_reply get_name name_text disable_client
named-step =
    let r1 = step {r = admitted} start (comms_steps true refl) in
    let r2 =
      step {r = record (chatting idling) { comms_at = runs listening }} r1
        (comms_steps true refl) in
    step r2 (comms_steps true refl)

-- The user's input ends, and the thread is at its delay.
Reach-waiting : Reach beginning 8 (chatting delaying)
unfolding user_move user_run user_input_handler read_line_stdin read_file_line send_input
    disable_client
Reach-waiting =
    let r1 = step {r = chatting (looping false)} named-step (user_steps true refl) in
    let r2 = step {r = chatting inputting} r1 (user_steps true refl) in
    let r3 = step {r = chatting (sending [] true)} r2 (user_steps true refl) in
    let r4 = step {r = chatting (looping true)} r3 (user_steps true refl) in
    step r4 (user_steps true refl)

-- Here the delay is over before the line is read.
abbrev over : Process
over = record (chatting user_ended) {
  client_data = record chat_data { is_active = false; exit_code = pos 0 };
}

abbrev locking : Process
locking = record over {
  client_data = record over.client_data { locked = true };
  main_at = joining_comms;
}

abbrev gone : Process
gone = record over {
  comms_at = runs comms_ended;
  main_at = exited (record { status = 0; stderr = [] });
}

Reach-over : Reach beginning 9 over
unfolding user_move user_run user_input_handler read_line_stdin read_file_line send_input
    disable_client
Reach-over = step Reach-waiting (user_steps true refl)

Reach-locking : Reach over 2 locking
unfolding main_move main_run join_comms join_user end_client exit_with_msg
Reach-locking =
    step (step {r = record over { main_at = leaving }} start (main_steps refl)) (main_steps refl)

Reach-ended : Reach over 4 (record locking { comms_at = runs comms_ended })
unfolding comms_move comms_run server_comms_handler
Reach-ended =
    step
      (step {r = record locking { comms_at = runs listening }} Reach-locking
        (comms_steps false refl))
      (comms_steps false refl)

Reach-gone : Reach over 6 gone
unfolding main_move main_run join_comms join_user end_client exit_with_msg
Reach-gone =
    step
      (step {r = record locking { comms_at = runs comms_ended; main_at = joining_user }} Reach-ended
        (main_steps refl))
      (main_steps refl)

Reach-first_code_example :
    (c : ExitCode) × (c ≢ usage)
    × (over.client_data.exit_code ≡ code_of c)
    × (gone.client_data.exit_code ≡ code_of c)
    × ((exit_of gone.main_at ≡ none) ⊎ ExitedWith c gone)
Reach-first_code_example =
    Reach-first_code (codes "carol") (some (codes "sesame")) server_lines [] [] Reach-over refl
      Reach-gone

Reach-settles_example : (6 ≤ 11) × ((goes_on gone ≡ true) ⊎ IsOver gone)
Reach-settles_example =
    Reach-settles (codes "carol") (some (codes "sesame")) server_lines [] [] Reach-over refl
      Reach-gone

Reach-hangs_example :
    (q : Process) × Reach (chatting delaying) 6 q
    × (goes_on q ≡ false)
    × Hung q
    × (q.client_data.exit_code ≡ pos 3)
Reach-hangs_example =
    Reach-hangs (codes "carol") (some (codes "sesame")) server_lines [] [] [] Reach-waiting refl
      refl refl refl refl refl
