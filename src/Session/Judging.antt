-- ===== src/Session/Judging.antt =====
-- Whether a new client passes `authenticate_client` of serverUtils.c.
use csse2310_assignment.Base.{◌≡◌, ◌↔◌, refl, Bool, true, false, Option, none, some}
use csse2310_assignment.Libc.{Text, codes}
use csse2310_assignment.LineList.{Stream, get_line}
use csse2310_assignment.ClientThread.{ClientThread, init_client_thread, send, read_client_line}
use csse2310_assignment.World.{Ptr, World, Outcome, done, set_thread}
use csse2310_assignment.ServerUtils.{authenticate_client}
use csse2310_assignment.ServerUtils.Steps.{write_self}
use csse2310_assignment.ServerUtils.Authenticate.{
  IsPassword, verdict, challenged, authenticate_client-Verdict, authenticate_client-open,
}

-- Whether a client that sends `stream` passes: the server has no password, or the first line is AUTH: and the
-- password.
abbrev pub Passes : Option Text → Stream → Type 0
Passes none stream = Unit
Passes (some password) stream = IsPassword password (get_line stream).0.line

-- The verdict, and the record that it leaves.
pub record Judged (client : Ptr) (password : Option Text) (stream : Stream) (r : Outcome (Unit {0}))
    : Type 0 where
  pub passed : Bool
  pub means : (passed ≡ true) ↔ Passes password stream
  pub before : World
  pub authenticates : r ≡ done tt before
  pub after : ClientThread
  pub holds : before.threads client ≡ some after
  pub active : after.is_active ≡ passed

verdict-active :
    (passed : Bool) (c : ClientThread) → c.is_active ≡ true → (verdict passed c).is_active ≡ passed
verdict-active true c active = active
verdict-active false c active = refl

challenged-new : (stream : Stream) → (challenged (init_client_thread stream)).is_active ≡ true
unfolding init_client_thread read_client_line
challenged-new stream = refl

new-stream : (stream : Stream) → (init_client_thread stream).read_from ≡ stream
unfolding init_client_thread
new-stream stream = refl

new-active : (stream : Stream) → (init_client_thread stream).is_active ≡ true
unfolding init_client_thread
new-active stream = refl

pub judged :
    (w : World) (client : Ptr) (stream : Stream) (password : Option Text)
    → w.threads client ≡ some (init_client_thread stream)
    → w.clients.password ≡ password
    → Judged client password stream (authenticate_client client w)
judged w client stream none at is =
    let new = init_client_thread stream in
    record {
      passed = true;
      means = (λ h. tt, λ h. refl);
      before = set_thread w client (send new (codes "OK:"));
      authenticates = authenticate_client-open w client new at is;
      after = send new (codes "OK:");
      holds = write_self w.threads client _;
      active = new-active stream;
    }
judged w client stream (some password) at is =
    let new = init_client_thread stream in
    let (passed, means, (before, r, holds)) =
      authenticate_client-Verdict w client new password at is in
    record {
      passed = passed;
      means = rw (new-stream stream) at means;
      before = before;
      authenticates = r;
      after = verdict passed (challenged new);
      holds = holds;
      active = verdict-active passed (challenged new) (challenged-new stream);
    }
