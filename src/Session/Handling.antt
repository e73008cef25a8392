-- ===== src/Session/Handling.antt =====
-- A line from a client of the list: `handle_cmd` and its handlers return, with no fault, and leave
-- the list as it is.
use csse2310_assignment.Base.{
  ℕ, zero, suc, ◌+◌, ◌≤◌, ◌<◌, ◌≡◌, inl, inr, refl, Bool, true, false, Option, none, some, List, [],
  ◌∷◌, ◌++◌, arith, Bool-cases, Option-cases, ◌==◌, ltb, if◌then◌else◌, length, get_elem?,
}
use csse2310_assignment.Libc.{Text, codes}
use csse2310_assignment.LineList.{LineList}
use csse2310_assignment.Commands.{server, min_length, max_length, get_cmd_no, cmd_to_lines}
use csse2310_assignment.Commands.Arity.{IsCommand, cmd_to_lines-IsCommand}
use csse2310_assignment.World.{Ptr, null, World, done, pure, from_some, ◌>>=◌, ◌>>◌}
use csse2310_assignment.ClientList.Broadcast.{has_client}
use csse2310_assignment.ClientList.Chain.{Cells}
use csse2310_assignment.Handlers.{
  say, handle_say, handle_kick, handle_list, handle_leave, call_handler, handle_number,
  handle_parsed, handle_cmd, count_say, count_kick, count_list, names_loop,
}
use csse2310_assignment.ClientList.{get_client_by_name}
use csse2310_assignment.ServerUtils.{send_client, disable_client, change_stats, change_thread}
use csse2310_assignment.ServerThreads.{handler_round}
use csse2310_assignment.Session.{IsServing, Quiet}
use csse2310_assignment.Session.Frame.{Quiet-IsServing}
use csse2310_assignment.Session.Quietly.{
  Quietly, Anything, Quietly-then, Ensures-done, Quietly-bind, Quietly-pure, Quietly-print,
  Quietly-change_stats,
}
use csse2310_assignment.Session.Calls.{
  IsFound, Quietly-change_thread, Quietly-send_client, Quietly-disable_client,
  Quietly-printable_name, Quietly-read_line, Quietly-get_client_by_name, Quietly-get_names,
  Quietly-send_all_clients,
}

get_elem?-some :
    (lines : List Text) (n : ℕ) → n < length lines → (x : Text) × (get_elem? lines n ≡ some x)
get_elem?-some [] n h = absurd (omega arith)
get_elem?-some (x ∷ xs) zero h = (x, refl)
get_elem?-some (x ∷ xs) (suc n) h = get_elem?-some xs n (omega arith)

first-le :
    (lines : List Text) (n : ℕ) → get_cmd_no (get_elem? lines 0) server ≡ some n → 1 ≤ length lines
unfolding get_cmd_no
first-le [] n h = cc
first-le (x ∷ xs) n h = omega arith

module _ {xs : Cells} where
  Quietly-say : (name : Text) (line : Option Text) → Quietly xs Anything (say name line)
  unfolding say
  Quietly-say name none = Quietly-then _ _ (Quietly-send_all_clients _) λ _. Quietly-print _
  Quietly-say name (some line) = Quietly-then _ _ (Quietly-send_all_clients _) λ _. Quietly-print _

  Quietly-kick :
      (other : Ptr)
      → IsFound xs other
      → Quietly xs Anything (if other == null then pure tt else send_client other (codes "KICK:"))
  Quietly-kick other (inl nobody) = rw nobody (Quietly-pure Anything tt tt)
  Quietly-kick other (inr there) = elim (Bool-cases (other == null)) [
    | inl nobody ↦ rw nobody (Quietly-pure Anything tt tt)
    | inr somebody ↦ rw somebody (Quietly-send_client (codes "KICK:") other there)
  ]

  module _ (client : Ptr) (within : has_client client xs ≡ true) (args : LineList) where
    Quietly-say_line :
        (name : Text)
        → args.num_lines ≡ length args.lines
        → Quietly xs Anything (
            if ltb 1 args.num_lines
            then (do line ← from_some (get_elem? args.lines 1); say name (some line))
            else say name none)
    Quietly-say_line name counted = elim (Bool-cases (ltb 1 args.num_lines)) [
      | inl some_line ↦
          let (line, at) = get_elem?-some args.lines 1 (ground arith) in
          rw (some_line, at) (Quietly-say name (some line))
      | inr no_line ↦ rw no_line (Quietly-say name none)
    ]

    Quietly-handle_say :
        args.num_lines ≡ length args.lines → Quietly xs Anything (handle_say client args)
    unfolding handle_say
    Quietly-handle_say counted = Quietly-then _ _ (Quietly-change_stats _) λ _.
        Quietly-then _ _
          (Quietly-change_thread count_say client within (λ c. refl) λ c. omega arith)
          λ _.
            Quietly-then _ _ (Quietly-printable_name client within)
              λ name. Quietly-say_line name counted

    Quietly-kick_name :
        (name : Text)
        → Quietly xs Anything (
            change_stats (λ s. record s { kick_count = s.kick_count + 1 })
            >> (change_thread count_kick client
                >> (get_client_by_name name >>= λ other.
                    if other == null then pure tt else send_client other (codes "KICK:"))))
    Quietly-kick_name name = Quietly-then _ _ (Quietly-change_stats _) λ _.
        Quietly-then _ _
          (Quietly-change_thread count_kick client within (λ c. refl) λ c. omega arith)
          λ _. Quietly-bind (IsFound xs) Anything _ _ (Quietly-get_client_by_name name) Quietly-kick

    Quietly-handle_kick : 2 ≤ length args.lines → Quietly xs Anything (handle_kick client args)
    unfolding handle_kick
    Quietly-handle_kick enough =
        let (name, at) = get_elem?-some args.lines 1 (omega arith) in rw at (Quietly-kick_name name)

    Quietly-handle_list : Quietly xs Anything (handle_list client args)
    unfolding handle_list
    Quietly-handle_list = Quietly-then _ _ (Quietly-change_stats _) λ _.
        Quietly-then _ _
          (Quietly-change_thread count_list client within (λ c. refl) λ c. omega arith)
          λ _. Quietly-then _ _ Quietly-get_names λ names.
            let line = names_loop [] 0 names.num_lines names.lines in
            Quietly-then _ _ (Quietly-send_all_clients (codes "LIST:" ++ line))
              λ _. Quietly-print (codes "(current chatters: " ++ (line ++ codes ")\n"))

    Quietly-handle_leave : Quietly xs Anything (handle_leave client args)
    unfolding handle_leave
    Quietly-handle_leave =
        Quietly-then _ _ (Quietly-change_stats _) λ _. Quietly-disable_client client within

    Quietly-number :
        (n : ℕ)
        → args.num_lines ≡ length args.lines
        → min_length server n ≤ args.num_lines
        → 1 ≤ max_length server n
        → Quietly xs Anything (handle_number (some n) client args)
    unfolding handle_number call_handler
    Quietly-number zero counted enough some_length = Quietly-pure Anything tt tt
    Quietly-number (suc zero) counted enough some_length = Quietly-pure Anything tt tt
    Quietly-number (suc (suc zero)) counted enough some_length = Quietly-handle_say counted
    Quietly-number (suc (suc (suc zero))) counted enough some_length =
        Quietly-handle_kick (omega arith)
    Quietly-number (suc (suc (suc (suc zero)))) counted enough some_length = Quietly-handle_list
    Quietly-number (suc (suc (suc (suc (suc zero))))) counted enough some_length =
        Quietly-handle_leave
    Quietly-number (suc (suc (suc (suc (suc (suc n)))))) counted enough some_length =
        absurd (omega arith)

    Quietly-handle_number :
        IsCommand server args
        → Quietly xs Anything
            (handle_number (get_cmd_no (get_elem? args.lines 0) server) client args)
    Quietly-handle_number c =
        let lines = first-le args.lines c.number c.is_number in
        rw c.is_number
          (Quietly-number c.number c.counted c.enough (omega (arith, c.counted, c.few)))

  pub Quietly-handle_cmd :
      (client : Ptr) (cmd : Text)
      → has_client client xs ≡ true
      → Quietly xs Anything (handle_cmd client cmd)
  unfolding handle_cmd handle_parsed
  Quietly-handle_cmd client cmd within = elim (Option-cases (cmd_to_lines (some cmd) server)) [
    | inl e ↦ rw (handle_cmd, e, handle_parsed) (Quietly-pure Anything tt tt)
    | inr (args, e) ↦
        rw (handle_cmd, e, handle_parsed)
          (Quietly-handle_number client within args (cmd_to_lines-IsCommand server (some cmd) e))
  ]

  Quietly-read :
      (client : Ptr) (msg : Text) (at_end : Bool)
      → has_client client xs ≡ true
      → Quietly xs Anything (if at_end then disable_client client else handle_cmd client msg)
  Quietly-read client msg true within = Quietly-disable_client client within
  Quietly-read client msg false within = Quietly-handle_cmd client msg within

  pub Quietly-handler_round :
      (client : Ptr) → has_client client xs ≡ true → Quietly xs Anything (handler_round client)
  unfolding handler_round
  Quietly-handler_round client within =
      Quietly-then _ _ (Quietly-read_line client within)
        λ read. Quietly-read client read.0 read.1 within

-- One round of a client's thread, whatever the client sent, returns with no fault: it adds and
-- removes no client and changes no name, and the list stays linked well, with names that are sorted
-- and distinct.
pub handler_round-IsServing :
    (w : World) (client : Ptr) {xs : Cells}
    → IsServing w xs
    → has_client client xs ≡ true
    → (w' : World) × (handler_round client w ≡ done tt w') × Quiet w w' × IsServing w' xs
handler_round-IsServing w client {xs} s within =
    let (u, w', r, q) =
      Ensures-done (handler_round client w) ((Quietly-handler_round client within).run w s) in
    (w', r, q.1, Quiet-IsServing q.1 s)
