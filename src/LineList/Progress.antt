-- ===== src/LineList/Progress.antt =====
-- Each line that is read takes at least one byte from its stream, unless that is at its end.
use csse2310_assignment.Base.{◌≤◌, ◌<◌, ◌≡◌, false, [], ◌∷◌, ◌++◌, arith, length}
use csse2310_assignment.Libc.{Text}
use csse2310_assignment.LineList.{Stream, collect, get_line}

collect-length : (buf : Text) (doc : Stream) → length (collect buf doc).2 ≤ length doc
unfolding collect
collect-length buf [] = omega arith
collect-length buf (c ∷ s) = ground (arith, collect-length (buf ++ c ∷ []) s)

pub get_line-progress :
    (doc : Stream) → (get_line doc).1 ≡ false → length (get_line doc).2 < length doc
unfolding get_line collect
get_line-progress [] h = cc
get_line-progress (c ∷ s) h = ground (arith, collect-length (c ∷ []) s)

pub get_line-length : (doc : Stream) → length (get_line doc).2 ≤ length doc
unfolding get_line
get_line-length doc = collect-length [] doc
