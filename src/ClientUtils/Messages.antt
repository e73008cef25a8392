-- ===== src/ClientUtils/Messages.antt =====
-- What the client does with the lines that `handle_say` of the server broadcasts.
use csse2310_assignment.Base.{◌≡◌, ◌≢◌, refl, some, [], ◌∷◌, ◌++◌}
use csse2310_assignment.Libc.{Text, codes, Lacks}
use csse2310_assignment.Libc.Compare.{text_eq}
use csse2310_assignment.Libc.Token.{strtok_r}
use csse2310_assignment.LineList.{pattern_match_string, add_to_lines}
use csse2310_assignment.Commands.{
  colon, get_cmd_no, cmd_to_lines, check_args, get_cmd_args, args_of, all_args,
}
use csse2310_assignment.Commands.Accepts.{two}
use csse2310_assignment.Commands.Client.{
  msg, three, cmd_to_lines-msg, cmd_to_lines-msg_name, cmd_to_lines-msg-colon,
}
use csse2310_assignment.ClientData.{ClientData, ok, fault, kicked, disable_client}
use csse2310_assignment.ClientUtils.{handle_parsed, handle_cmd, handle_kick, call_handler}

-- The client after it printed a text.
abbrev pub printed : ClientData → Text → ClientData
printed d text = record d { stdout = d.stdout ++ text }

parsed-three :
    (name body : Text) (d : ClientData)
    → handle_parsed (some (three name body)) d
      ≡ ok tt (printed d (name ++ (codes ": " ++ (body ++ codes "\n"))))
unfolding handle_parsed get_cmd_no text_eq
parsed-three name body d = refl

parsed-two :
    (name : Text) (d : ClientData) → handle_parsed (some (two (codes "MSG") name)) d ≡ fault
unfolding handle_parsed get_cmd_no text_eq
parsed-two name d = refl

-- A message with a name and a text is printed as the name, a colon and the text, whatever the text
-- holds. With no text behind the name's colon the client reads behind the end of an array, and with no
-- colon behind the name it does nothing.
pub handle_cmd-msg :
    (name body : Text) (d : ClientData)
    → name ≢ []
    → Lacks b':' name
    → body ≢ []
    → (handle_cmd (some (msg (name ++ (b':' ∷ body)))) d
        ≡ ok tt (printed d (name ++ (codes ": " ++ (body ++ codes "\n")))))
      × (handle_cmd (some (msg (name ++ colon))) d ≡ fault)
      × (handle_cmd (some (msg name)) d ≡ ok tt d)
unfolding handle_cmd
handle_cmd-msg name body d ne lacks some_body = (
  rw (handle_cmd, cmd_to_lines-msg name body ne lacks some_body) (parsed-three name body d),
  rw (handle_cmd, cmd_to_lines-msg-colon name ne lacks) (parsed-two name d),
  rw (handle_cmd, cmd_to_lines-msg_name name lacks, handle_parsed) refl,
)

-- KICK: disables the client.
pub handle_cmd-kick :
    (d : ClientData) → handle_cmd (some (codes "KICK:")) d ≡ disable_client kicked d
unfolding handle_cmd handle_parsed handle_kick call_handler get_cmd_no cmd_to_lines check_args
    get_cmd_args args_of all_args text_eq strtok_r pattern_match_string disable_client add_to_lines
handle_cmd-kick d = refl
