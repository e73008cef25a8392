-- ===== src/Session/Racing.antt =====
-- A KICK whose client leaves between the lookup and the send of `handle_kick` in serverUtils.c, between
-- which no lock is held.
use csse2310_assignment.Base.{◌≡◌, inl, inr, refl, ◌∙◌, arith, none, some, true}
use csse2310_assignment.Libc.{Text, codes}
use csse2310_assignment.World.{Ptr, World, done, fault, load_thread}
use csse2310_assignment.ClientList.{get_client_by_name}
use csse2310_assignment.ClientList.Broadcast.{has_client}
use csse2310_assignment.ClientList.Chain.{Cells}
use csse2310_assignment.ClientList.Find.{
  AllNamed-AllHeld, first_named, get_client_by_name-first_named,
}
use csse2310_assignment.ServerUtils.{send_client}
use csse2310_assignment.ServerThreads.{handler_end}
use csse2310_assignment.Session.{IsServing}
use csse2310_assignment.Session.Kicking.{
  NoneNamed, first_named-Target, kick_counted, kick_counted-IsServing, handle_kick-step, not_null,
}
use csse2310_assignment.Commands.Accepts.{two}
use csse2310_assignment.Handlers.{handle_kick}
use csse2310_assignment.LineList.{LineList}
use csse2310_assignment.ClientThread.{ClientThread}
use csse2310_assignment.Session.Leaving.{handler_end-IsServing}

-- What `handle_kick` does from `w`, which comes to a send from the world `u` in which the KICK is counted, and
-- what the same send does if the thread of the client that was found ends in front of it.
pub data Race (client : Ptr) (args : LineList) (w u : World) (name : Text) (xs : Cells)
    : Type 0 where
  nobody :
      NoneNamed u.threads name xs
      → handle_kick client args w ≡ done tt u
      → Race client args w u name xs
  dangles :
      (other : Ptr) (thread : ClientThread) (w' : World)
      → has_client other xs ≡ true
      → u.threads other ≡ some thread
      → thread.name ≡ some name
      → get_client_by_name name u ≡ done other u
      → handle_kick client args w ≡ send_client other (codes "KICK:") u
      → handler_end other u ≡ done tt w'
      → send_client other (codes "KICK:") w' ≡ fault
      → Race client args w u name xs

send_client-gone :
    (w : World) (other : Ptr) (text : Text)
    → w.threads other ≡ none
    → send_client other text w ≡ fault
unfolding send_client load_thread
send_client-gone w other text gone = ground (arith, gone)

-- A KICK from a client of the list is counted, looks up its name, and then sends KICK: to the client that it
-- found. If a client of the list has the name, that send is all that is left to do, and the thread of that
-- client can end in front of it: the same send then goes through a pointer to a client that was freed.
-- If no client of the list has the name nothing is sent.
pub handle_kick-Race :
    (w : World) (client : Ptr) (c : ClientThread) (word name : Text) {xs : Cells}
    → IsServing w xs
    → w.threads client ≡ some c
    → Race client (two word name) w (kick_counted w client c) name xs
handle_kick-Race w client c word name {xs} s at =
    let u = kick_counted w client c in
    let s1 = kick_counted-IsServing w client c at s in
    let held = AllNamed-AllHeld u.threads xs s1.named in
    let other = first_named u.threads name xs in
    let look = get_client_by_name-first_named u name s1.is_list held in
    let step = handle_kick-step w client c word name other at look in
    elim (first_named-Target u.threads name xs held) [
      | inl (is_null, none_named) ↦ nobody none_named (step ∙ rw is_null refl)
      | inr k ↦
          let (w', ends, serving, gone) = handler_end-IsServing u other s1 k.within in
          dangles other k.thread w' k.within k.holds k.named look
            (step ∙ rw (not_null u.threads other k.thread s1.no_null k.holds) refl) ends
            (send_client-gone w' other (codes "KICK:") gone)
    ]
