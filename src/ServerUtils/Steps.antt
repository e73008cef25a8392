-- ===== src/ServerUtils/Steps.antt =====
-- One lemma for each step on a client's record.
use csse2310_assignment.Base.{◌≡◌, false, some, arith}
use csse2310_assignment.Libc.{Text}
use csse2310_assignment.ClientThread.{ClientThread, set_name, deactivate, send, read_client_line}
use csse2310_assignment.World.{Ptr, World, Memory, done, write, set_thread}
use csse2310_assignment.ServerUtils.{
  send_client, disable_client, set_client_name, get_active_status, read_line,
}

pub write_self : {A : Type 0} (m : Memory A) (p : Ptr) (a : A) → write m p (some a) p ≡ some a
unfolding write
write_self m p a = ground arith

module _ (w : World) (client : Ptr) (c : ClientThread) (at : w.threads client ≡ some c) where
  pub send_client-step :
      (text : Text) → send_client client text w ≡ done tt (set_thread w client (send c text))
  unfolding send_client
  send_client-step text = ground arith

  pub disable_client-step : disable_client client w ≡ done tt (set_thread w client (deactivate c))
  unfolding disable_client
  disable_client-step = ground arith

  pub set_client_name-step :
      (name : Text)
      → set_client_name client name w ≡ done tt (set_thread w client (set_name c name))
  unfolding set_client_name
  set_client_name-step name = ground arith

  pub get_active_status-step : get_active_status client w ≡ done c.is_active w
  unfolding get_active_status
  get_active_status-step = ground arith

  pub read_line-step :
      read_line client w
      ≡ done
          ((read_client_line c false).0, (read_client_line c false).1)
          (set_thread w client (read_client_line c false).2)
  unfolding read_line
  read_line-step = ground arith
