-- ===== src/ClientProcess/Kept.antt =====
-- What every call of the client's threads keeps of the client's data.
use csse2310_assignment.Base.{
  ◌≡◌, refl, sym, ◌∙◌, Bool, true, false, Option, none, some, if◌then◌else◌,
}
use csse2310_assignment.Base.Int.{ℤ, pos, negsuc, ltb_ℤ}
use csse2310_assignment.ClientData.{
  ExitCode, normal, usage, comms, kicked, failed_auth, code_of, ClientData, Run, ok, blocked, fault,
  out_of_fuel, C, pure, and_then, ◌>>=◌, crash, stuck, from_some, get, disabled, disable_client,
}

-- The exit code is unset exactly as long as the client is active, and is then one of four.
pub data Sound (d : ClientData) : Type 0 where
  going : d.is_active ≡ true → d.exit_code ≡ negsuc 0 → Sound d
  over : (c : ExitCode) → d.is_active ≡ false → d.exit_code ≡ code_of c → (c ≡ usage → ⊥) → Sound d

pub record Kept (d d' : ClientData) : Type 0 where
  pub locked : d'.locked ≡ d.locked
  pub inactive : d.is_active ≡ false → d'.is_active ≡ false
  pub first_code : d.is_active ≡ false → Sound d → d'.exit_code ≡ d.exit_code
  pub sound : Sound d → Sound d'

pub Kept-refl : (d : ClientData) → Kept d d
Kept-refl d = record { locked = refl; inactive = λ e. e; first_code = λ e s. refl; sound = λ s. s }

pub Kept-trans : {d e f : ClientData} → Kept d e → Kept e f → Kept d f
Kept-trans a b = record {
  locked = b.locked ∙ a.locked;
  inactive = λ e. b.inactive (a.inactive e);
  first_code = λ e s. b.first_code (a.inactive e) (a.sound s) ∙ a.first_code e s;
  sound = λ s. b.sound (a.sound s);
}

-- The call keeps the data, and waits for the lock only while it is held.
abbrev pub After : {A : Type 0} → ClientData → Run A → Type 0
After d (ok a d') = Kept d d'
After d (blocked d') = Kept d d' × (d.locked ≡ true)
After d fault = Unit
After d out_of_fuel = Unit

pub record Keeps {A : Type 0} (m : C A) : Type 0 where
  pub run : (d : ClientData) → After d (m d)

After-weaken : {A : Type 0} (d e : ClientData) (r : Run A) → Kept d e → After e r → After d r
After-weaken d e (ok a d') k h = Kept-trans k h
After-weaken d e (blocked d') k (h, held) = (Kept-trans k h, sym k.locked ∙ held)
After-weaken d e fault k h = tt
After-weaken d e out_of_fuel k h = tt

module _ {A B : Type 0} where
  After-bind :
      (d : ClientData) (r : Run A) (k : A → C B)
      → After d r
      → ((a : A) → Keeps (k a))
      → After d (and_then r k)
  After-bind d (ok a d') k h next = After-weaken d d' (k a d') h ((next a).run d')
  After-bind d (blocked d') k h next = h
  After-bind d fault k h next = tt
  After-bind d out_of_fuel k h next = tt

  pub Keeps-bind : (m : C A) (k : A → C B) → Keeps m → ((a : A) → Keeps (k a)) → Keeps (m >>= k)
  Keeps-bind m k first next = record { run = λ d. After-bind d (m d) k (first.run d) next }

module _ {A : Type 0} where
  pub Keeps-pure : (a : A) → Keeps (pure a)
  Keeps-pure a = record { run = Kept-refl }

  pub Keeps-stuck : Keeps (stuck {A = A})
  Keeps-stuck = record { run = λ d. tt }

  pub Keeps-crash : Keeps (crash {A = A})
  Keeps-crash = record { run = λ d. tt }

  pub Keeps-from_some : (o : Option A) → Keeps (from_some o)
  Keeps-from_some none = Keeps-crash
  Keeps-from_some (some a) = Keeps-pure a

  pub Keeps-if : (b : Bool) (m n : C A) → Keeps m → Keeps n → Keeps (if b then m else n)
  Keeps-if true m n hm hn = hm
  Keeps-if false m n hm hn = hn

pub Keeps-get : Keeps get
Keeps-get = record { run = Kept-refl }

-- A change that leaves the flag, the exit code and the lock alone.
pub Kept-same :
    (d d' : ClientData)
    → d'.locked ≡ d.locked
    → d'.is_active ≡ d.is_active
    → d'.exit_code ≡ d.exit_code
    → Kept d d'
Kept-same d d' locked active code = record {
  locked = locked;
  inactive = λ e. active ∙ e;
  first_code = λ e s. code;
  sound = λ s. elim s [
    | going e c ↦ going (active ∙ e) (code ∙ c)
    | over c e same ne ↦ over c (active ∙ e) (code ∙ same) ne
  ];
}

set_code : ExitCode → ℤ → ℤ
set_code c z = if ltb_ℤ z (pos 0) then code_of c else z

set_code-code_of : (c old : ExitCode) → set_code c (code_of old) ≡ code_of old
unfolding set_code
set_code-code_of c normal = refl
set_code-code_of c usage = refl
set_code-code_of c comms = refl
set_code-code_of c kicked = refl
set_code-code_of c failed_auth = refl

set_code_again : (c old : ExitCode) (z : ℤ) → z ≡ code_of old → set_code c z ≡ z
set_code_again c old z e = rw e (set_code-code_of c old)

set_code_first : (c : ExitCode) (z : ℤ) → z ≡ negsuc 0 → set_code c z ≡ code_of c
unfolding set_code
set_code_first c z e = rw e refl

disabled_again :
    (c : ExitCode) (d : ClientData)
    → d.is_active ≡ false
    → Sound d
    → (disabled c d).exit_code ≡ d.exit_code
unfolding set_code
disabled_again c d a (going e code) = absurd (cc (a, e))
disabled_again c d a (over old e code ne) = set_code_again c old d.exit_code code

Sound-disabled : (c : ExitCode) (d : ClientData) → (c ≡ usage → ⊥) → Sound d → Sound (disabled c d)
unfolding set_code
Sound-disabled c d ne (going e code) = over c refl (set_code_first c d.exit_code code) ne
Sound-disabled c d ne (over old e code ne') =
    over old refl (set_code_again c old d.exit_code code ∙ code) ne'

-- A lock that is held keeps the data as it is.
disable_client-After :
    (c : ExitCode) (d : ClientData)
    → (c ≡ usage → ⊥)
    → (held : Bool) → d.locked ≡ held
    → After d (if held then blocked d else ok tt (disabled c d))
disable_client-After c d ne true e = (Kept-refl d, e)
disable_client-After c d ne false e = record {
  locked = refl;
  inactive = λ a. refl;
  first_code = disabled_again c d;
  sound = Sound-disabled c d ne;
}

pub Keeps-disable_client : (c : ExitCode) → (c ≡ usage → ⊥) → Keeps (disable_client c)
unfolding disable_client
Keeps-disable_client c ne = record { run = λ d. disable_client-After c d ne d.locked refl }
