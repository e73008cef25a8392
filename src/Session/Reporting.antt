-- ===== src/Session/Reporting.antt =====
-- What a SIGHUP makes the server print, `sighup_stats_handler` of serverUtils.c.
use mathlib.Core.List.{append-nil, append_assoc}
use csse2310_assignment.Base.{
  ℕ, zero, suc, ◌<◌, ◌≡◌, refl, inl, none, some, [], ◌∷◌, ◌++◌, arith, length,
}
use csse2310_assignment.Libc.{Text, codes, Lacks, Lacks-append}
use csse2310_assignment.Libc.Decimal.{decimal}
use csse2310_assignment.Libc.Decimal.Numerals.{decimal-Lacks}
use csse2310_assignment.Libc.Format.{expand-Lacks}
use csse2310_assignment.ClientThread.{ClientStats, ClientThread, client_stat_text}
use csse2310_assignment.ClientThread.StatLine.{client_stat_line-fits}
use csse2310_assignment.World.{Ptr, World, Memory, ServerStats, done, load_node, load_thread}
use csse2310_assignment.ClientList.{server_stat_text}
use csse2310_assignment.ClientList.Chain.{Cells, Chain, nil, cons}
use csse2310_assignment.ClientList.ServerLine.{IsShort, server_stat_line-IsShort}
use csse2310_assignment.ServerThreads.{stats_walk, report_stats}
use csse2310_assignment.Session.{IsServing}

-- A client whose line fits its buffer and holds no percent sign.
pub record IsReportable (t : Memory ClientThread) (c : Ptr) : Type 0 where
  pub thread : ClientThread
  pub name : Text
  pub holds : t c ≡ some thread
  pub named : thread.name ≡ some name
  pub plain : Lacks b'%' name
  pub say : thread.stats.say_count < 100000
  pub kick : thread.stats.kick_count < 100000
  pub list : thread.stats.list_count < 100000

abbrev pub AllReportable : Memory ClientThread → Cells → Type 0
AllReportable t [] = Unit
AllReportable t ((p, c) ∷ xs) = IsReportable t c × AllReportable t xs

abbrev named_line : ClientThread → Text
named_line thread = elim thread.name [ none ↦ [] | some name ↦ client_stat_text name thread.stats ]

-- The line of a client, and the lines of the clients in the order of the list.
abbrev pub line_at : Memory ClientThread → Ptr → Text
line_at t c = elim (t c) [ none ↦ [] | some thread ↦ named_line thread ]

abbrev pub lines_of : Memory ClientThread → Cells → Text
lines_of t [] = []
lines_of t ((p, c) ∷ xs) = line_at t c ++ lines_of t xs

line_at-IsReportable :
    {t : Memory ClientThread} {c : Ptr}
    → (r : IsReportable t c) → line_at t c ≡ client_stat_text r.name r.thread.stats
line_at-IsReportable r = ground (arith, r.holds, r.named)

-- A label, a count and what follows, for a byte in front of the digits.
field-Lacks :
    (label : Text) (n : ℕ) (rest : Text)
    → Lacks b'%' label
    → Lacks b'%' rest
    → Lacks b'%' (label ++ (decimal n ++ rest))
field-Lacks label n rest hl hr =
    Lacks-append b'%' label (decimal n ++ rest) hl
      (Lacks-append b'%' (decimal n) rest (decimal-Lacks b'%' n (inl (omega arith))) hr)

client_stat_text-Lacks :
    (name : Text) (s : ClientStats) → Lacks b'%' name → Lacks b'%' (client_stat_text name s)
unfolding client_stat_text
client_stat_text-Lacks name s plain = Lacks-append b'%' name _ plain (
    field-Lacks (codes ":SAY:") s.say_count _ refl (
      field-Lacks (codes ":KICK:") s.kick_count _ refl
        (field-Lacks (codes ":LIST:") s.list_count (codes "\n") refl refl)))

server_stat_text-Lacks : (s : ServerStats) → Lacks b'%' (server_stat_text s)
unfolding server_stat_text
server_stat_text-Lacks s = field-Lacks (codes "server:AUTH:") s.auth_count _ refl (
    field-Lacks (codes ":NAME:") s.name_count _ refl (
      field-Lacks (codes ":SAY:") s.say_count _ refl (
        field-Lacks (codes ":KICK:") s.kick_count _ refl (
          field-Lacks (codes ":LIST:") s.list_count _ refl
            (field-Lacks (codes ":LEAVE:") s.leave_count (codes "\n") refl refl)))))

lines_of-Lacks :
    (t : Memory ClientThread) (xs : Cells) → AllReportable t xs → Lacks b'%' (lines_of t xs)
lines_of-Lacks t [] all = refl
lines_of-Lacks t ((p, c) ∷ xs) (r, all) =
    Lacks-append b'%' (line_at t c) (lines_of t xs)
      (rw (line_at-IsReportable r) (client_stat_text-Lacks r.name r.thread.stats r.plain))
      (lines_of-Lacks t xs all)

module _ (w : World) where
  stats_walk-lines :
      (k : ℕ) (text : Text) {before cur : Ptr} {xs : Cells}
      → Chain w.nodes before cur xs
      → AllReportable w.threads xs
      → length xs < k
      → stats_walk k text cur w ≡ done (text ++ lines_of w.threads xs) w
  unfolding stats_walk load_node load_thread
  stats_walk-lines zero text s all h = absurd (omega arith)
  stats_walk-lines (suc k) text nil all h = ground (arith, append-nil text)
  stats_walk-lines (suc k) text (cons {c} {xs = ys} ne e out s) (r, all) h = ground (
    arith,
    r.holds,
    client_stat_line-fits r.thread r.name r.named r.say r.kick r.list,
    line_at-IsReportable r,
    append_assoc text (line_at w.threads c) (lines_of w.threads ys),
    stats_walk-lines k (text ++ line_at w.threads c) s all,
  )

-- What is printed.
abbrev pub report : World → Cells → Text
report w xs =
    ((codes "@CLIENTS@\n" ++ lines_of w.threads xs) ++ codes "@SERVER@\n")
    ++ server_stat_text w.clients.stats

report-Lacks : (w : World) (xs : Cells) → AllReportable w.threads xs → Lacks b'%' (report w xs)
report-Lacks w xs all =
    Lacks-append b'%' ((codes "@CLIENTS@\n" ++ lines_of w.threads xs) ++ codes "@SERVER@\n")
      (server_stat_text w.clients.stats)
      (Lacks-append b'%' (codes "@CLIENTS@\n" ++ lines_of w.threads xs) (codes "@SERVER@\n")
        (Lacks-append b'%' (codes "@CLIENTS@\n") (lines_of w.threads xs) refl
          (lines_of-Lacks w.threads xs all))
        refl)
      (server_stat_text-Lacks w.clients.stats)

-- If every count is below 100000 and no name has a percent sign, a SIGHUP prints the clients' lines in the
-- order of the list between the two headings, and then the counts of the server, and changes nothing.
pub report_stats-report :
    (w : World) {xs : Cells}
    → IsServing w xs
    → AllReportable w.threads xs
    → IsShort w.clients.stats
    → report_stats w ≡ done (report w xs) w
unfolding report_stats
report_stats-report w {xs} s all short =
    let walk =
      stats_walk-lines w (suc w.fresh) (codes "@CLIENTS@\n") s.is_list.chain all
        (omega (arith, s.is_list.fits)) in
    rw
      (
        report_stats,
        walk,
        server_stat_line-IsShort w.clients.stats short,
        expand-Lacks (report w xs) (report-Lacks w xs all),
      )
      refl
