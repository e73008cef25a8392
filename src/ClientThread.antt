-- ===== src/ClientThread.antt =====
-- clientThread.c and clientThread.h: the server's record of one client.
pub mod StatLine
use csse2310_assignment.Base.{
  ℕ, ◌+◌, ◌*◌, Bool, true, false, Option, none, some, [], ◌∷◌, ◌++◌, leb, if◌then◌else◌, length,
}
use csse2310_assignment.Libc.{Text, codes}
use csse2310_assignment.Libc.Decimal.{decimal}
use csse2310_assignment.LineList.{Stream, read_file_line}

-- `int stats[3]`: the commands that the client has sent. A count stays below 2^31.
pub record ClientStats : Type 0 where
  pub say_count : ℕ
  pub kick_count : ℕ
  pub list_count : ℕ

-- The stream from the client is what it has still to send; that to it, all that was sent so far.
pub record ClientThread : Type 0 where
  pub is_active : Bool
  pub name : Option Text
  pub stats : ClientStats
  pub read_from : Stream
  pub write_to : Text

unfoldable pub init_client_thread : Stream → ClientThread
init_client_thread read_from = record {
  is_active = true;
  name = none;
  stats = record { say_count = 0; kick_count = 0; list_count = 0 };
  read_from = read_from;
  write_to = [];
}

abbrev pub set_name : ClientThread → Text → ClientThread
set_name client name = record client { name = some name }

abbrev pub deactivate : ClientThread → ClientThread
deactivate client = record client { is_active = false }

-- The formatted text and a newline.
abbrev pub send : ClientThread → Text → ClientThread
send client text = record client { write_to = client.write_to ++ (text ++ b'\n' ∷ []) }

-- `*isLineEmpty` as it is after the call, and the line.
unfoldable pub read_client_line : ClientThread → Bool → Text × Bool × ClientThread
read_client_line client is_line_empty =
    let (line, flag, rest) = read_file_line client.read_from is_line_empty in
    (line, flag, record client { read_from = rest })

abbrev pub max_digs : ℕ
max_digs = 5

-- What `sprintf` writes, for a client with this name.
unfoldable pub client_stat_text : Text → ClientStats → Text
client_stat_text name stats =
    name
    ++ (codes ":SAY:"
        ++ (decimal stats.say_count
            ++ (codes ":KICK:"
                ++ (decimal stats.kick_count
                    ++ (codes ":LIST:" ++ (decimal stats.list_count ++ codes "\n"))))))

-- The size of the buffer that `calloc` gives.
abbrev pub client_stat_size : Text → ℕ
client_stat_size name = length name + length (codes ":SAY::KICK::LIST:\n") + max_digs * 3 + 1

-- `none` is a fault: the name is `NULL`, or the text and its final 0 run over the buffer.
unfoldable pub client_stat_line : ClientThread → Option Text
unfolding client_stat_text
client_stat_line client = elim client.name [
  | none ↦ none
  | some name ↦
      let text = client_stat_text name client.stats in
      if leb (length text + 1) (client_stat_size name) then some text else none
]
