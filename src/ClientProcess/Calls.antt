-- ===== src/ClientProcess/Calls.antt =====
-- The calls of clientData.c and clientUtils.c keep what `Keeps` says.
use csse2310_assignment.Base.{
  ℕ, zero, suc, refl, Bool, true, false, ◌||◌, ◌&&◌, Option, none, some, List, [], ◌∷◌, ltb, ◌==◌,
  not, if◌then◌else◌,
}
use csse2310_assignment.Libc.{Text, codes}
use csse2310_assignment.Libc.Compare.{text_eq}
use csse2310_assignment.Libc.Format.{expand}
use csse2310_assignment.LineList.{LineList, Stream}
use csse2310_assignment.Commands.{client, cmd_to_lines}
use csse2310_assignment.ClientData.{
  normal, comms, kicked, failed_auth, ClientData, ok, C, print, send_to_server, next_client_no,
  read_after, next_error, read_server_line, get_name,
}
use csse2310_assignment.ClientUtils.{
  number_of, is_number, check_reply, answer_challenge, authenticate_walk, authenticate_client,
  name_reply, answer_who, negotiate_walk, name_negotiate, handle_parsed, handle_cmd, call_handler,
  handle_kick, handle_list, handle_msg, handle_enter, handle_leave, send_line, send_user_msg,
}
use csse2310_assignment.ClientProcess.{
  CommsAt, authenticating, naming, listening, receiving, comms_ended, receive, server_comms_handler,
  UserAt, idling, looping, inputting, sending, delaying, user_ended, send_input, user_input_handler,
}
use csse2310_assignment.ClientProcess.Kept.{
  Kept-refl, After, Kept-same, Keeps, Keeps-bind, Keeps-pure, Keeps-stuck, Keeps-crash,
  Keeps-from_some, Keeps-if, Keeps-get, Kept-same, Keeps-disable_client,
}

Keeps-print : (text : Text) → Keeps (print text)
Keeps-print text = record { run = λ d. Kept-same d _ refl refl refl }

pub Keeps-send_to_server : (text : Text) → Keeps (send_to_server text)
unfolding send_to_server
Keeps-send_to_server text = record { run = λ d. Kept-same d _ refl refl refl }

Keeps-next_client_no : Keeps next_client_no
unfolding next_client_no
Keeps-next_client_no = record { run = λ d. Kept-same d _ refl refl refl }

next_error-After :
    (d : ClientData) (errors : List Bool)
    → After d (elim errors [ [] ↦ ok false d | e ∷ es ↦ ok e (record d { sock_errors = es }) ])
next_error-After d [] = Kept-refl d
next_error-After d (e ∷ es) = Kept-same d _ refl refl refl

Keeps-next_error : Keeps next_error
unfolding next_error
Keeps-next_error = record { run = λ d. next_error-After d d.sock_errors }

Keeps-read_after : (error flag : Bool) → Keeps (read_after error flag)
unfolding read_after
Keeps-read_after true flag = record { run = λ d. Kept-same d _ refl refl refl }
Keeps-read_after false flag = record { run = λ d. Kept-same d _ refl refl refl }

pub Keeps-read_server_line : (flag : Bool) → Keeps (read_server_line flag)
unfolding read_server_line
Keeps-read_server_line flag = Keeps-bind _ _ Keeps-next_error (λ e. Keeps-read_after e flag)

Keeps-check_reply : (reply : Option Text) (at_end : Bool) → Keeps (check_reply reply at_end)
unfolding check_reply
Keeps-check_reply none at_end = Keeps-crash
Keeps-check_reply (some reply) at_end =
    Keeps-if _ _ _ (Keeps-disable_client failed_auth (cc)) (Keeps-pure tt)

Keeps-answer_challenge : Keeps answer_challenge
unfolding answer_challenge
Keeps-answer_challenge = Keeps-bind _ _ Keeps-get λ d. Keeps-bind _ _ (Keeps-send_to_server _) λ u.
    Keeps-bind _ _ (Keeps-read_server_line false) λ (reply, at_end). Keeps-check_reply reply at_end

Keeps-authenticate_walk : (k : ℕ) → Keeps (authenticate_walk k)
unfolding authenticate_walk
Keeps-authenticate_walk zero = Keeps-stuck
Keeps-authenticate_walk (suc k) = Keeps-bind _ _ (Keeps-read_server_line false) λ (reply, at_end).
    Keeps-if at_end _ _ (Keeps-disable_client comms (cc)) (
      Keeps-if (is_number 2 (number_of (cmd_to_lines reply client))) _ _ Keeps-answer_challenge
        (Keeps-authenticate_walk k))

pub Keeps-authenticate_client : Keeps authenticate_client
unfolding authenticate_client
Keeps-authenticate_client = Keeps-bind _ _ Keeps-get λ d. Keeps-authenticate_walk _

Keeps-name_reply : (n : Option ℕ) → Keeps (name_reply n)
unfolding name_reply
Keeps-name_reply n =
    Keeps-if (is_number 3 n) _ _ (record { run = λ d. Kept-same d _ refl refl refl })
      (Keeps-if (is_number 1 n) _ _ Keeps-next_client_no (Keeps-pure tt))

Keeps-answer_who : (n : Option ℕ) (at_end : Bool) → Keeps (answer_who n at_end)
unfolding answer_who
Keeps-answer_who n at_end =
    Keeps-if (is_number 0 n) _ _
      (Keeps-bind _ _ Keeps-get λ d. Keeps-bind _ _ (Keeps-from_some (get_name d)) λ name.
        Keeps-bind _ _ (Keeps-send_to_server _) λ u.
          Keeps-bind _ _ (Keeps-read_server_line at_end) λ (reply, ended).
            Keeps-bind _ _ (Keeps-name_reply (number_of (cmd_to_lines reply client)))
              λ v. Keeps-pure ended)
      (Keeps-pure at_end)

Keeps-negotiate_walk : (k : ℕ) → Keeps (negotiate_walk k)
unfolding negotiate_walk
Keeps-negotiate_walk zero = Keeps-stuck
Keeps-negotiate_walk (suc k) = Keeps-bind _ _ (Keeps-read_server_line false) λ (line, at_end).
    Keeps-bind _ _ (Keeps-answer_who (number_of (cmd_to_lines line client)) at_end) λ ended.
      Keeps-bind _ _ Keeps-get
        λ d. Keeps-if (d.authenticated || ended) _ _ (Keeps-pure ended) (Keeps-negotiate_walk k)

pub Keeps-name_negotiate : Keeps name_negotiate
unfolding name_negotiate
Keeps-name_negotiate = Keeps-bind _ _ Keeps-get λ d.
    Keeps-bind _ _ (Keeps-if d.authenticated _ _ (Keeps-pure false) (Keeps-negotiate_walk _))
      λ ended. Keeps-if ended _ _ (Keeps-disable_client comms (cc)) (Keeps-pure tt)

Keeps-handle_msg : (args : LineList) → Keeps (handle_msg args)
unfolding handle_msg
Keeps-handle_msg args = Keeps-bind _ _ (Keeps-from_some _) λ name.
    Keeps-if (ltb 1 args.num_lines) _ _ (Keeps-bind _ _ (Keeps-from_some _) λ msg. Keeps-print _)
      (Keeps-print _)

Keeps-call_handler : (n : ℕ) (args : LineList) → Keeps (call_handler n args)
unfolding call_handler handle_kick handle_list handle_enter handle_leave
Keeps-call_handler n args = Keeps-if (ltb n 4) _ _ (Keeps-pure tt) (
    Keeps-if (n == 4) _ _ (Keeps-disable_client kicked (cc)) (
      Keeps-if (n == 5) _ _ (Keeps-bind _ _ (Keeps-from_some _) λ name. Keeps-print _) (
        Keeps-if (n == 6) _ _ (Keeps-handle_msg args) (
          Keeps-if (n == 7) _ _ (Keeps-bind _ _ (Keeps-from_some _) λ name. Keeps-print _) (
            Keeps-if (n == 8) _ _ (Keeps-bind _ _ (Keeps-from_some _) λ name. Keeps-print _)
              Keeps-crash)))))

Keeps-handle_parsed : (args : Option LineList) → Keeps (handle_parsed args)
unfolding handle_parsed
Keeps-handle_parsed none = Keeps-pure tt
Keeps-handle_parsed (some args) =
    Keeps-bind _ _ (Keeps-from_some (number_of (some args))) λ n. Keeps-call_handler n args

pub Keeps-handle_cmd : (cmd : Option Text) → Keeps (handle_cmd cmd)
unfolding handle_cmd
Keeps-handle_cmd cmd = Keeps-handle_parsed (cmd_to_lines cmd client)

Keeps-send_line : (msg : Text) → Keeps (send_line msg)
unfolding send_line
Keeps-send_line [] = Keeps-send_to_server _
Keeps-send_line (c ∷ s) =
    Keeps-if (c == b'*') _ _
      (Keeps-bind _ _ (Keeps-from_some (expand s)) λ text. Keeps-send_to_server text)
      (Keeps-send_to_server _)

pub Keeps-send_user_msg : (msg : Text) → Keeps (send_user_msg msg)
unfolding send_user_msg
Keeps-send_user_msg msg = Keeps-bind _ _ (Keeps-send_line msg) λ u.
    Keeps-if (text_eq msg (codes "*LEAVE:")) _ _
      (Keeps-bind _ _ (Keeps-disable_client normal (cc))
        λ v. Keeps-bind _ _ Keeps-get λ d. Keeps-print _)
      (Keeps-pure tt)

Keeps-receive : Keeps receive
unfolding receive
Keeps-receive = Keeps-bind _ _ (Keeps-read_server_line false) λ (msg, left).
    Keeps-bind _ _ Keeps-get λ d.
      Keeps-if (left && d.is_active) _ _
        (Keeps-bind _ _ (Keeps-disable_client comms (cc)) λ u. Keeps-pure comms_ended)
        (Keeps-bind _ _ (Keeps-handle_cmd msg) λ u. Keeps-pure listening)

-- The thread cannot go on, or its next call keeps the data.
abbrev pub KeepsNext : {A : Type 0} → Option (C A) → Type 0
KeepsNext none = Unit
KeepsNext (some m) = Keeps m

pub KeepsNext-server_comms_handler :
    (ready : Bool) (at : CommsAt) → KeepsNext (server_comms_handler ready at)
unfolding server_comms_handler
KeepsNext-server_comms_handler ready authenticating =
    Keeps-bind _ _ Keeps-authenticate_client λ u. Keeps-pure naming
KeepsNext-server_comms_handler ready naming = Keeps-bind _ _ Keeps-get λ d.
    Keeps-bind _ _ (Keeps-if d.is_active _ _ Keeps-name_negotiate (Keeps-pure tt))
      λ u. Keeps-pure listening
KeepsNext-server_comms_handler ready listening = Keeps-bind _ _ Keeps-get λ d. Keeps-pure _
KeepsNext-server_comms_handler ready receiving =
    Keeps-if ready _ _ Keeps-receive (Keeps-pure listening)
KeepsNext-server_comms_handler ready comms_ended = tt

Keeps-send_input : (msg : Text) (at_end : Bool) → Keeps (send_input msg at_end)
unfolding send_input
Keeps-send_input msg at_end =
    Keeps-bind _ _ Keeps-get
      λ d. Keeps-if (not at_end && d.is_active) _ _ (Keeps-send_user_msg msg) (Keeps-pure tt)

pub KeepsNext-user_input_handler :
    (ready : Bool) (at : UserAt) (stdin : Stream) → KeepsNext (user_input_handler ready at stdin)
unfolding user_input_handler
KeepsNext-user_input_handler ready idling stdin =
    Keeps-bind _ _ Keeps-get
      λ d. Keeps-pure (if not d.authenticated && d.is_active then idling else looping false, stdin)
KeepsNext-user_input_handler ready (looping at_end) stdin =
    Keeps-bind _ _ Keeps-get λ d. Keeps-pure _
KeepsNext-user_input_handler ready inputting stdin = Keeps-pure _
KeepsNext-user_input_handler ready (sending msg at_end) stdin =
    Keeps-bind _ _ (Keeps-send_input msg at_end) λ u. Keeps-pure (looping at_end, stdin)
KeepsNext-user_input_handler ready delaying stdin =
    Keeps-bind _ _ (Keeps-disable_client normal (cc)) λ u. Keeps-pure (user_ended, stdin)
KeepsNext-user_input_handler ready user_ended stdin = tt
