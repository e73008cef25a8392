-- ===== src/ClientData.antt =====
-- clientData.c, clientData.h and the exit codes of errors.h: the state of the client program.
pub mod Reading
use csse2310_assignment.Base.{
  zero, suc, ◌+◌, Bool, true, false, Option, none, some, List, [], ◌∷◌, ◌++◌, leb, if◌then◌else◌,
  length,
}
use csse2310_assignment.Base.Int.{ℤ, pos, negsuc, ltb_ℤ}
use csse2310_assignment.Libc.{Text, codes}
use csse2310_assignment.Libc.Decimal.{decimal}
use csse2310_assignment.LineList.{Stream, read_file_line}

pub data ExitCode : Type 0 where
  normal usage comms kicked failed_auth : ExitCode

abbrev pub code_of : ExitCode → ℤ
code_of normal = pos 0
code_of usage = pos 1
code_of comms = pos 2
code_of kicked = pos 3
code_of failed_auth = pos 4

-- `sock_errors` are the answers that `getsockopt` has still to give, `true` for an error; when they
-- are used up there is none. `stdout` is what was printed. `locked` says that `end_client` holds the
-- lock; every other function gives it back before it returns.
pub record ClientData : Type 0 where
  pub is_active : Bool
  pub authenticated : Bool
  pub name : Text
  pub password : Option Text
  pub exit_code : ℤ
  pub client_no : ℤ
  pub write_to : Text
  pub read_from : Stream
  pub sock_errors : List Bool
  pub stdout : Text
  pub locked : Bool

-- `fault` is undefined behaviour. `blocked` waits for the lock while `end_client` holds it, which it
-- does until the thread that waits has ended, so that the call never returns.
pub data Run (A : Type 0) : Type 0 where
  ok : A → ClientData → Run A
  blocked : ClientData → Run A
  fault : Run A
  out_of_fuel : Run A

abbrev pub C : Type 0 → Type 0
C A = ClientData → Run A

abbrev pub pure : {A : Type 0} → A → C A
pure = ok

module _ {A B : Type 0} where
  abbrev pub and_then : Run A → (A → C B) → Run B
  and_then (ok a d) k = k a d
  and_then (blocked d) k = blocked d
  and_then fault k = fault
  and_then out_of_fuel k = out_of_fuel

  infixl 5 ◌>>=◌ ◌>>◌
  abbrev pub ◌>>=◌ : C A → (A → C B) → C B
  m >>= k = λ d. and_then (m d) k

  abbrev pub ◌>>◌ : C A → C B → C B
  m >> n = m >>= λ _. n

abbrev pub crash : {A : Type 0} → C A
crash _ = fault

abbrev pub stuck : {A : Type 0} → C A
stuck _ = out_of_fuel

abbrev pub from_some : {A : Type 0} → Option A → C A
from_some none = crash
from_some (some a) = pure a

abbrev pub get : C ClientData
get d = ok d d

abbrev pub modify : (ClientData → ClientData) → C (Unit {0})
modify f d = ok tt (f d)

abbrev pub print : Text → C (Unit {0})
print text = modify λ d. record d { stdout = d.stdout ++ text }

unfoldable pub init_client_data : Text → Option Text → Stream → List Bool → ClientData
init_client_data name password stream sock_errors = record {
  is_active = true;
  authenticated = false;
  name = name;
  password = password;
  exit_code = negsuc 0;
  client_no = negsuc 0;
  write_to = [];
  read_from = stream;
  sock_errors = sock_errors;
  stdout = [];
  locked = false;
}

-- `clientNo++`, from -1 on
abbrev pub successor : ℤ → ℤ
successor (pos n) = pos (n + 1)
successor (negsuc zero) = pos 0
successor (negsuc (suc n)) = negsuc n

unfoldable pub next_client_no : C (Unit {0})
next_client_no = modify λ d. record d { client_no = successor d.client_no }

-- The formatted text and a newline.
unfoldable pub send_to_server : Text → C (Unit {0})
send_to_server text = modify λ d. record d { write_to = d.write_to ++ (text ++ b'\n' ∷ []) }

unfoldable pub read_after : Bool → Bool → C (Option Text × Bool)
read_after true flag = do print (codes "got sock error\n"); pure (none, true)
read_after false flag = λ d.
    let (line, flag', rest) = read_file_line d.read_from flag in
    ok (some line, flag') (record d { read_from = rest })

-- What `getsockopt` reports next.
unfoldable pub next_error : C Bool
next_error d = elim d.sock_errors [
  | [] ↦ ok false d
  | e ∷ es ↦ ok e (record d { sock_errors = es })
]

-- The line, or `NULL` on a socket error, and the flag after the call.
unfoldable pub read_server_line : Bool → C (Option Text × Bool)
unfolding read_after next_error
read_server_line flag = do error ← next_error; read_after error flag

-- What `get_name` writes, and the size of its buffer.
unfoldable pub name_text : Text → ℤ → Text
name_text name (pos n) = name ++ decimal n
name_text name (negsuc n) = name

-- `none` is a fault: the text and its final 0 run over the buffer.
unfoldable pub get_name : ClientData → Option Text
unfolding name_text
get_name d =
    let text = name_text d.name d.client_no in
    if leb (length text + 1) (length d.name + 10) then some text else none

-- The critical section: the first exit code that is set is kept.
abbrev pub disabled : ExitCode → ClientData → ClientData
disabled c d = record d {
  is_active = false;
  exit_code = if ltb_ℤ d.exit_code (pos 0) then code_of c else d.exit_code;
}

unfoldable pub disable_client : ExitCode → C (Unit {0})
disable_client c d = if d.locked then blocked d else ok tt (disabled c d)
