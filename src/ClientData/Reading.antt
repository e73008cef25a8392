-- ===== src/ClientData/Reading.antt =====
-- What a read from the server leaves, and when the name fits its buffer.
use csse2310_assignment.Base.{
  ℕ, zero, suc, ◌+◌, ◌≤◌, ◌<◌, ◌≡◌, ◌⊎◌, inl, inr, refl, sym, subst, Bool, true, false, ◌||◌,
  Option, none, some, List, [], ◌∷◌, arith, leb, Bool-cases, length, length-append,
}
use csse2310_assignment.Base.Int.{ℤ, pos, negsuc}
use csse2310_assignment.Libc.{Text}
use csse2310_assignment.Libc.Decimal.{decimal}
use csse2310_assignment.Libc.Decimal.Numerals.{length-decimal}
use csse2310_assignment.LineList.{get_line, read_file_line}
use csse2310_assignment.LineList.Progress.{get_line-length, get_line-progress}
use csse2310_assignment.ClientData.{
  ClientData, Run, ok, read_after, next_error, read_server_line, name_text, get_name, successor,
}

-- Nothing of the client's state changed but the stream, the errors to come and what was printed; the
-- flag says whether a read met its end, or an error.
pub record HasRead (flag : Bool) (d : ClientData) (r : Run (Option Text × Bool)) : Type 0 where
  pub line : Option Text
  pub at_end : Bool
  pub after : ClientData
  pub returns : r ≡ ok (line, at_end) after
  pub client_no : after.client_no ≡ d.client_no
  pub authenticated : after.authenticated ≡ d.authenticated
  pub locked : after.locked ≡ d.locked
  pub password : after.password ≡ d.password
  pub write_to : after.write_to ≡ d.write_to
  pub is_active : after.is_active ≡ d.is_active
  pub exit_code : after.exit_code ≡ d.exit_code
  pub left : length after.read_from ≤ length d.read_from
  pub sticky : flag ≡ true → at_end ≡ true
  pub progress : (at_end ≡ true) ⊎ (length after.read_from < length d.read_from)

read_after-HasRead : (error flag : Bool) (d : ClientData) → HasRead flag d (read_after error flag d)
unfolding read_after read_file_line
read_after-HasRead true flag d = record {
  line = none;
  at_end = true;
  after = record d { stdout = _ };
  returns = refl;
  client_no = refl;
  authenticated = refl;
  locked = refl;
  password = refl;
  write_to = refl;
  is_active = refl;
  exit_code = refl;
  left = omega arith;
  sticky = λ _. refl;
  progress = inl refl;
}
read_after-HasRead false flag d = record {
  line = some (get_line d.read_from).0.line;
  at_end = flag || (get_line d.read_from).1;
  after = record d { read_from = (get_line d.read_from).2 };
  returns = refl;
  client_no = refl;
  authenticated = refl;
  locked = refl;
  password = refl;
  write_to = refl;
  is_active = refl;
  exit_code = refl;
  left = get_line-length d.read_from;
  sticky = λ e. ground arith;
  progress = elim (Bool-cases (get_line d.read_from).1) [
    | inl e ↦ inl (ground arith)
    | inr more ↦ inr (get_line-progress d.read_from more)
  ];
}

next_read :
    (flag : Bool) (errors : List Bool) (d : ClientData)
    → d.sock_errors ≡ errors
    → HasRead flag d (read_server_line flag d)
unfolding read_server_line next_error
next_read flag [] d e =
    let step : read_server_line flag d ≡ read_after false flag d = ground (arith, e) in
    subst (HasRead flag d) (sym step) (read_after-HasRead false flag d)
next_read flag (error ∷ errors) d e =
    let rest : ClientData = record d { sock_errors = errors } in
    let step : read_server_line flag d ≡ read_after error flag rest = ground (arith, e) in
    let h = read_after-HasRead error flag rest in
    subst (HasRead flag d) (sym step) (record {
      line = h.line;
      at_end = h.at_end;
      after = h.after;
      returns = h.returns;
      client_no = h.client_no;
      authenticated = h.authenticated;
      locked = h.locked;
      password = h.password;
      write_to = h.write_to;
      is_active = h.is_active;
      exit_code = h.exit_code;
      left = h.left;
      sticky = h.sticky;
      progress = h.progress;
    })

pub read_server_line-HasRead :
    (flag : Bool) (d : ClientData) → HasRead flag d (read_server_line flag d)
read_server_line-HasRead flag d = next_read flag d.sock_errors d refl

-- How often the client has asked for another name.
abbrev pub tries : ℤ → ℕ
tries (pos n) = suc n
tries (negsuc n) = 0

pub tries-successor : (z : ℤ) → tries (successor z) ≤ suc (tries z)
tries-successor (pos n) = omega arith
tries-successor (negsuc zero) = omega arith
tries-successor (negsuc (suc n)) = omega arith

name_text-fits :
    (name : Text) (z : ℤ) → tries z ≤ 1000000000 → length (name_text name z) + 1 ≤ length name + 10
unfolding name_text
name_text-fits name (pos n) h =
    omega (arith, length-append name (decimal n), length-decimal n 8 (omega arith))
name_text-fits name (negsuc n) h = omega arith

-- Up to 10 to the 9 the name and its number fit the buffer.
pub get_name-fits :
    (d : ClientData)
    → tries d.client_no ≤ 1000000000
    → get_name d ≡ some (name_text d.name d.client_no)
unfolding get_name
get_name-fits d h =
    let fits : leb (length (name_text d.name d.client_no) + 1) (length d.name + 10) ≡ true =
      ground (arith, name_text-fits d.name d.client_no h) in
    rw (get_name, fits) refl
