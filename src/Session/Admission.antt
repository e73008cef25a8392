-- ===== src/Session/Admission.antt =====
-- A new client up to its name: authentication touches nothing but its record and the counts.
use csse2310_assignment.Base.{
  ◌+◌, ◌≡◌, ◌≢◌, refl, ◌∙◌, Bool, true, false, Option, none, some, arith,
}
use csse2310_assignment.Libc.{Text, codes}
use csse2310_assignment.Libc.Compare.{text_eq}
use csse2310_assignment.ClientThread.{ClientThread, deactivate, send, read_client_line}
use csse2310_assignment.World.{Ptr, World, Outcome, done, write, set_thread}
use csse2310_assignment.ServerUtils.{
  finish_authentication, check_password, challenge, authenticate_client,
}
use csse2310_assignment.ServerUtils.Steps.{
  write_self, send_client-step, disable_client-step, read_line-step,
}

-- Nothing changed but the record of the client, the counts and standard output.
pub record Own (client : Ptr) (w w' : World) : Type 0 where
  pub others : (a : Ptr) → a ≢ client → w'.threads a ≡ w.threads a
  pub nodes : w'.nodes ≡ w.nodes
  pub head : w'.clients.head ≡ w.clients.head
  pub fresh : w'.fresh ≡ w.fresh

pub Own-trans : {client : Ptr} {u v w : World} → Own client u v → Own client v w → Own client u w
Own-trans j k = record {
  others = λ a h. k.others a h ∙ j.others a h;
  nodes = k.nodes ∙ j.nodes;
  head = k.head ∙ j.head;
  fresh = k.fresh ∙ j.fresh;
}

Own-set_thread :
    (client : Ptr) (w : World) (c : ClientThread) → Own client w (set_thread w client c)
unfolding write
Own-set_thread client w c = record {
  others = λ a h. ground arith;
  nodes = refl;
  head = refl;
  fresh = refl;
}

-- The call returns, and the client keeps its name.
pub record Touched (client : Ptr) (c : ClientThread) (w : World) (r : Outcome (Unit {0}))
    : Type 0 where
  pub w' : World
  pub returns : r ≡ done tt w'
  pub own : Own client w w'
  pub after : ClientThread
  pub holds : w'.threads client ≡ some after
  pub same_name : after.name ≡ c.name

abbrev count_auth : World → World
count_auth w = record w {
  clients = record w.clients {
    stats = record w.clients.stats { auth_count = w.clients.stats.auth_count + 1 };
  };
}

module _ (client : Ptr) where
  Touched-set_thread :
      (w : World) (c d : ClientThread)
      → d.name ≡ c.name
      → Touched client c w (done tt (set_thread w client d))
  Touched-set_thread w c d same = record {
    w' = set_thread w client d;
    returns = refl;
    own = Own-set_thread client w d;
    after = d;
    holds = write_self w.threads client d;
    same_name = same;
  }

  Touched-after :
      {u w : World} {b c : ClientThread} {r : Outcome (Unit {0})}
      → Own client u w
      → c.name ≡ b.name
      → Touched client c w r
      → Touched client b u r
  Touched-after own same t = record {
    w' = t.w';
    returns = t.returns;
    own = Own-trans own t.own;
    after = t.after;
    holds = t.holds;
    same_name = t.same_name ∙ same;
  }

  finish_authentication-Touched :
      (w : World) (c : ClientThread) (passed : Bool)
      → w.threads client ≡ some c
      → Touched client c w (finish_authentication client passed w)
  unfolding finish_authentication
  finish_authentication-Touched w c true at =
      rw (send_client-step w client c at (codes "OK:"))
        (Touched-set_thread w c (send c (codes "OK:")) refl)
  finish_authentication-Touched w c false at =
      rw (disable_client-step w client c at) (Touched-set_thread w c (deactivate c) refl)

  check_password-Touched :
      (w : World) (c : ClientThread) (password : Text) (given : Option Text)
      → w.threads client ≡ some c
      → Touched client c w (check_password client password given w)
  unfolding check_password
  check_password-Touched w c password none at = finish_authentication-Touched w c false at
  check_password-Touched w c password (some text) at =
      Touched-after {w = count_auth w}
        (record { others = λ a h. refl; nodes = refl; head = refl; fresh = refl }) refl
        (finish_authentication-Touched (count_auth w) c (text_eq password text) at)

  challenge-Touched :
      (w : World) (c : ClientThread) (password : Option Text)
      → w.threads client ≡ some c
      → Touched client c w (challenge client password w)
  unfolding challenge read_client_line
  challenge-Touched w c none at = finish_authentication-Touched w c true at
  challenge-Touched w c (some password) at =
      let asked = send c (codes "AUTH:") in
      let w1 = set_thread w client asked in
      let answered = (read_client_line asked false).2 in
      let at1 = write_self w.threads client asked in
      rw (send_client-step w client c at (codes "AUTH:"), read_line-step w1 client asked at1)
        (Touched-after {w = set_thread w1 client answered} {c = answered}
          (Own-trans (Own-set_thread client w asked) (Own-set_thread client w1 answered)) refl
          (check_password-Touched (set_thread w1 client answered) answered password _
            (write_self w1.threads client answered)))

  pub authenticate_client-Touched :
      (w : World) (c : ClientThread)
      → w.threads client ≡ some c
      → Touched client c w (authenticate_client client w)
  unfolding authenticate_client
  authenticate_client-Touched w c at = challenge-Touched w c w.clients.password at
