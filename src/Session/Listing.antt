-- ===== src/Session/Listing.antt =====
-- What LIST makes the server send and print.
use mathlib.Core.List.{append-nil, append_assoc}
use csse2310_assignment.Base.{
  ℕ, suc, ◌+◌, ◌-◌, ◌≡◌, refl, ap, sym, ◌∙◌, Bool, true, false, some, List, [], ◌∷◌, ◌++◌, arith,
  ltb, if◌then◌else◌, length, map,
}
use csse2310_assignment.Libc.{Text, codes}
use csse2310_assignment.LineList.{LineList, get_printable}
use csse2310_assignment.ClientThread.{ClientThread}
use csse2310_assignment.World.{Ptr, World, Memory, done, load_thread, set_thread, print, ◌>>◌}
use csse2310_assignment.ClientList.{get_names, send_all_clients}
use csse2310_assignment.ClientList.Chain.{Cells}
use csse2310_assignment.ClientList.Find.{get_names_lem}
use csse2310_assignment.ClientList.Names.{names}
use csse2310_assignment.Handlers.{count_list, names_loop, handle_list}
use csse2310_assignment.Session.{IsServing}
use csse2310_assignment.Session.Frame.{Quiet-IsServing, Quiet-trans}
use csse2310_assignment.Session.Quietly.{Quiet-same}
use csse2310_assignment.Session.Calls.{Quiet-set_thread}
use csse2310_assignment.Session.Saying.{Broadcasts, send-Broadcasts}

-- Names with commas between them.
abbrev pub commas : List Text → Text
commas [] = []
commas (a ∷ []) = a
commas (a ∷ b ∷ rest) = a ++ (codes "," ++ commas (b ∷ rest))

-- A round of the loop, by the outcome of its test.
names_loop-step :
    (line : Text) (i n : ℕ) (a : Text) (rest : List Text) (b : Bool)
    → ltb i (n - 1) ≡ b
    → names_loop line i n (a ∷ rest)
      ≡ names_loop
          (if b then (line ++ get_printable a) ++ codes "," else line ++ get_printable a)
          (suc i)
          n
          rest
unfolding names_loop
names_loop-step line i n a rest b is =
    ap
      (λ t.
        names_loop (if t then (line ++ get_printable a) ++ codes "," else line ++ get_printable a)
          (suc i) n rest)
      is

names_loop-nil : (line : Text) (i n : ℕ) → names_loop line i n [] ≡ line
unfolding names_loop
names_loop-nil line i n = refl

names_loop-commas :
    (line : Text) (i n : ℕ) (xs : List Text)
    → i + length xs ≡ n
    → names_loop line i n xs ≡ line ++ commas (map get_printable xs)
names_loop-commas line i n [] h = names_loop-nil line i n ∙ sym (append-nil line)
names_loop-commas line i n (a ∷ []) h =
    names_loop-step line i n a [] false (ground arith)
    ∙ names_loop-nil (line ++ get_printable a) (suc i) n
names_loop-commas line i n (a ∷ b ∷ xs) h =
    let rest = commas (map get_printable (b ∷ xs)) in
    names_loop-step line i n a (b ∷ xs) true (ground arith)
    ∙ (names_loop-commas ((line ++ get_printable a) ++ codes ",") (suc i) n (b ∷ xs) (omega arith)
        ∙ (append_assoc (line ++ get_printable a) (codes ",") rest
            ∙ append_assoc line (get_printable a) (codes "," ++ rest)))

length-names : (t : Memory ClientThread) (xs : Cells) → length (names t xs) ≡ length xs
length-names t [] = refl
length-names t ((p, c) ∷ xs) = omega (arith, length-names t xs)

-- The world once the command is counted, for the client and for the server.
abbrev pub list_counted : World → Ptr → ClientThread → World
list_counted w client c =
    set_thread
      (record w {
        clients = record w.clients {
          stats = record w.clients.stats { list_count = w.clients.stats.list_count + 1 };
        };
      })
      client (count_list c)

list_counted-IsServing :
    (w : World) (client : Ptr) (c : ClientThread) {xs : Cells}
    → w.threads client ≡ some c
    → IsServing w xs
    → IsServing (list_counted w client c) xs
list_counted-IsServing w client c at s =
    let w1 : World = record w {
      clients = record w.clients {
        stats = record w.clients.stats { list_count = w.clients.stats.list_count + 1 };
      };
    } in
    Quiet-IsServing
      (Quiet-trans (Quiet-same w w1 (λ a. refl) (λ a. omega arith) refl refl refl refl)
        (Quiet-set_thread w1 client c (count_list c) at refl (omega arith)))
      s

handle_list-step :
    (w : World) (client : Ptr) (c : ClientThread) (args found : LineList)
    → w.threads client ≡ some c
    → get_names (list_counted w client c) ≡ done found (list_counted w client c)
    → handle_list client args w
      ≡ (send_all_clients (codes "LIST:" ++ names_loop [] 0 found.num_lines found.lines)
            >> print (
                codes "(current chatters: "
                ++ (names_loop [] 0 found.num_lines found.lines ++ codes ")\n")))
          (list_counted w client c)
unfolding handle_list load_thread
handle_list-step w client c args found at r = ground (arith, at, r)

-- LIST from a client of the list: each listening client is sent the names of all clients in the order
-- of the list, printable and with commas between them, the server prints them too, and nothing else
-- changes but the two counts.
pub handle_list-names :
    (w : World) (client : Ptr) (c : ClientThread) (args : LineList) {xs : Cells}
    → IsServing w xs
    → w.threads client ≡ some c
    → Broadcasts
        (list_counted w client c)
        xs
        (codes "LIST:" ++ commas (map get_printable (names (list_counted w client c).threads xs)))
        (codes "(current chatters: "
          ++ (commas (map get_printable (names (list_counted w client c).threads xs))
              ++ codes ")\n"))
        (handle_list client args w)
handle_list-names w client c args {xs} s at =
    let w1 = list_counted w client c in
    let s1 = list_counted-IsServing w client c at s in
    let all = names w1.threads xs in
    let found : LineList = record { lines = all; num_lines = length xs } in
    let line : names_loop [] 0 (length xs) all ≡ commas (map get_printable all) =
      names_loop-commas [] 0 (length xs) all (omega (arith, length-names w1.threads xs)) in
    rw (handle_list-step w client c args found at (get_names_lem w1 s1.is_list s1.named), line)
      (send-Broadcasts w1 _ _ s1)
