-- ===== src/ClientUtils/Naming.antt =====
-- The client's side of name negotiation, `name_negotiate` of clientUtils.c.
use csse2310_assignment.Base.{
  ℕ, zero, suc, ◌+◌, ◌≤◌, ◌<◌, ◌≡◌, ◌⊎◌, inl, inr, refl, ap, ◌∙◌, Bool, true, false, ◌||◌, Option,
  some, ◌++◌, arith, if◌then◌else◌, Bool-cases, length,
}
use csse2310_assignment.Libc.{Text, codes}
use csse2310_assignment.Commands.{client, cmd_to_lines}
use csse2310_assignment.ClientData.{
  ClientData, Run, ok, name_text, get_name, next_client_no, send_to_server, read_server_line,
  disable_client, disabled, comms,
}
use csse2310_assignment.ClientData.Reading.{
  read_server_line-HasRead, tries, tries-successor, get_name-fits,
}
use csse2310_assignment.ClientUtils.{
  number_of, is_number, name_reply, answer_who, negotiate_walk, name_negotiate,
}

abbrev budget : ClientData → ℕ
budget d = tries d.client_no + length d.read_from

record Replied (d : ClientData) (r : Run (Unit {0})) : Type 0 where
  after : ClientData
  returns : r ≡ ok tt after
  same_left : length after.read_from ≡ length d.read_from
  locked : after.locked ≡ d.locked
  one_try : tries after.client_no ≤ suc (tries d.client_no)

name_reply-Replied : (n : Option ℕ) (d : ClientData) → Replied d (name_reply n d)
unfolding name_reply next_client_no
name_reply-Replied n d = elim (Bool-cases (is_number 3 n)) [
  | inl yes_ok ↦ record {
    after = record d { authenticated = true };
    returns = rw (name_reply, yes_ok) refl;
    same_left = refl;
    locked = refl;
    one_try = omega arith;
  }
  | inr not_ok ↦ elim (Bool-cases (is_number 1 n)) [
    | inl taken ↦ record {
      after = record d { client_no = _ };
      returns = rw (name_reply, not_ok, taken) refl;
      same_left = refl;
      locked = refl;
      one_try = tries-successor d.client_no;
    }
    | inr other ↦ record {
      after = d;
      returns = rw (name_reply, not_ok, other) refl;
      same_left = refl;
      locked = refl;
      one_try = omega arith;
    }
  ]
]

-- What a round does with the line that it read.
record Answered (at_end : Bool) (d : ClientData) (r : Run Bool) : Type 0 where
  ended : Bool
  after : ClientData
  returns : r ≡ ok ended after
  left : length after.read_from ≤ length d.read_from
  locked : after.locked ≡ d.locked
  sticky : at_end ≡ true → ended ≡ true
  within : ended ≡ false → budget after ≤ budget d

-- The client once it sent its name.
abbrev pub named_to : ClientData → Text → ClientData
named_to d name = record d { write_to = d.write_to ++ ((codes "NAME:" ++ name) ++ codes "\n") }

pub answer_who-step :
    (n : Option ℕ) (at_end : Bool) (d : ClientData) (name : Text) (line : Option Text)
    (ended : Bool) (d1 d2 : ClientData)
    → is_number 0 n ≡ true
    → get_name d ≡ some name
    → read_server_line at_end (named_to d name) ≡ ok (line, ended) d1
    → name_reply (number_of (cmd_to_lines line client)) d1 ≡ ok tt d2
    → answer_who n at_end d ≡ ok ended d2
unfolding answer_who send_to_server
answer_who-step n at_end d name line ended d1 d2 who got r r2 =
    rw (answer_who, who, got, r, r2) refl

answer_who-Answered :
    (n : Option ℕ) (at_end : Bool) (d : ClientData)
    → budget d ≤ 1000000000
    → Answered at_end d (answer_who n at_end d)
unfolding answer_who
answer_who-Answered n at_end d small = elim (Bool-cases (is_number 0 n)) [
  | inr other ↦ record {
    ended = at_end;
    after = d;
    returns = rw (answer_who, other) refl;
    left = omega arith;
    locked = refl;
    sticky = λ e. e;
    within = λ e. omega arith;
  }
  | inl who ↦
      let name = name_text d.name d.client_no in
      let sent = named_to d name in
      let h = read_server_line-HasRead at_end sent in
      let p = name_reply-Replied (number_of (cmd_to_lines h.line client)) h.after in
      record {
        ended = h.at_end;
        after = p.after;
        returns =
            answer_who-step n at_end d name h.line h.at_end h.after p.after who
              (get_name-fits d (omega (arith, small))) h.returns p.returns;
        left = omega (arith, p.same_left, h.left);
        locked = p.locked ∙ h.locked;
        sticky = h.sticky;
        within = λ more. elim h.progress [
          | inl e ↦ absurd (cc (e, more))
          | inr less ↦ omega (arith, p.one_try, ap tries h.client_no, p.same_left, less)
        ];
      }
]

-- The walk comes to an end: the client is authenticated, or a read met the end.
record Walked (d : ClientData) (r : Run Bool) : Type 0 where
  ended : Bool
  after : ClientData
  returns : r ≡ ok ended after
  locked : after.locked ≡ d.locked
  result : (after.authenticated ≡ true) ⊎ (ended ≡ true)

pub negotiate_walk-step :
    (k : ℕ) (d : ClientData) (line : Option Text) (at_end ended : Bool) (d1 d2 : ClientData)
    → read_server_line false d ≡ ok (line, at_end) d1
    → answer_who (number_of (cmd_to_lines line client)) at_end d1 ≡ ok ended d2
    → negotiate_walk (suc k) d
      ≡ (if d2.authenticated || ended then ok ended d2 else negotiate_walk k d2)
unfolding negotiate_walk
negotiate_walk-step k d line at_end ended d1 d2 r r2 = ground (arith, r, r2)

negotiate_walk-Walked :
    (k : ℕ) (d : ClientData)
    → budget d ≤ 1000000000
    → length d.read_from < k
    → Walked d (negotiate_walk k d)
negotiate_walk-Walked zero d small enough = absurd (omega arith)
negotiate_walk-Walked (suc k) d small enough =
    let h = read_server_line-HasRead false d in
    let a =
      answer_who-Answered (number_of (cmd_to_lines h.line client)) h.at_end h.after
        (omega (arith, small, ap tries h.client_no, h.left)) in
    let step =
      negotiate_walk-step k d h.line h.at_end a.ended h.after a.after h.returns a.returns in
    elim (Bool-cases (a.after.authenticated || a.ended)) [
      | inl over ↦ record {
        ended = a.ended;
        after = a.after;
        returns = step ∙ rw over refl;
        locked = a.locked ∙ h.locked;
        result = ground arith;
      }
      | inr goes_on ↦
          let more : a.ended ≡ false = ground arith in
          let less : length h.after.read_from < length d.read_from = elim h.progress [
            | inl e ↦ absurd (cc (a.sticky e, more))
            | inr less ↦ less
          ] in
          let w =
            negotiate_walk-Walked k a.after
              (omega (arith, a.within more, small, ap tries h.client_no, h.left))
              (omega (arith, a.left, less, enough)) in
          record {
            ended = w.ended;
            after = w.after;
            returns = step ∙ rw goes_on w.returns;
            locked = w.locked ∙ (a.locked ∙ h.locked);
            result = w.result;
          }
    ]

pub name_negotiate-end :
    (d d1 : ClientData) (ended : Bool)
    → d.authenticated ≡ false
    → negotiate_walk (suc (length d.read_from)) d ≡ ok ended d1
    → name_negotiate d ≡ (if ended then disable_client comms d1 else ok tt d1)
unfolding name_negotiate
name_negotiate-end d d1 ended new r = ground (arith, new, r)

after_walk :
    (ended : Bool) (d : ClientData)
    → d.locked ≡ false
    → (d.authenticated ≡ true) ⊎ (ended ≡ true)
    → (d' : ClientData) × ((if ended then disable_client comms d else ok tt d) ≡ ok tt d')
      × ((d'.authenticated ≡ true) ⊎ (d'.is_active ≡ false))
unfolding disable_client
after_walk true d open_lock result =
    (disabled comms d, rw (disable_client, open_lock) refl, inr refl)
after_walk false d open_lock (inl named) = (d, refl, inl named)
after_walk false d open_lock (inr over) = cc

-- The negotiation of a client that is not authenticated yet always returns, whatever the server sends
-- and whenever its socket fails: afterwards the client is authenticated, or it is disabled. This
-- holds while `end_client` does not hold the lock, and if the client's number and what is left of the
-- stream are at most 10 to the 9 together, so that the number fits its buffer.
pub name_negotiate-Settled :
    (d : ClientData)
    → d.authenticated ≡ false
    → d.locked ≡ false
    → tries d.client_no + length d.read_from ≤ 1000000000
    → (d' : ClientData) × (name_negotiate d ≡ ok tt d')
      × ((d'.authenticated ≡ true) ⊎ (d'.is_active ≡ false))
name_negotiate-Settled d new open_lock small =
    let w = negotiate_walk-Walked (suc (length d.read_from)) d small (omega arith) in
    let (d', r, result) = after_walk w.ended w.after (w.locked ∙ open_lock) w.result in
    (d', name_negotiate-end d w.after w.ended new w.returns ∙ r, result)
