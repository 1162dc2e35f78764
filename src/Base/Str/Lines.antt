-- ===== src/Base/Str/Lines.antt =====
-- `lines` of a text whose lines are known.
use mathlib.Core.Path.{◌≡◌, refl, ap, ◌∙◌}
use mathlib.Core.List.{[], ◌∷◌, ◌++◌, append-nil, append_assoc}
use native.Mathlib.Omega.{arith}
use wg_ondemand.Base.Tests.{Text}
use wg_ondemand.Base.Str.{strip_cr, lines_from, lines}
use wg_ondemand.Base.Str.Split.{Lacks}

strip_cr-Lacks : (s : Text) → Lacks 13 s → strip_cr s ≡ s
unfolding strip_cr
strip_cr-Lacks [] h = refl
strip_cr-Lacks (c ∷ []) h = ground arith
strip_cr-Lacks (c ∷ d ∷ s) h = ap (λ t. c ∷ t) (strip_cr-Lacks (d ∷ s) h.1)

lines_from-append :
    (acc line s : Text)
    → Lacks 10 line
    → lines_from acc (line ++ 10 ∷ s) ≡ strip_cr (acc ++ line) ∷ lines_from [] s
unfolding lines_from
lines_from-append acc [] s h = rw append-nil refl
lines_from-append acc (c ∷ line) s h =
    ground (arith, lines_from-append (acc ++ c ∷ []) line s h.1, append_assoc acc (c ∷ []) line)

-- A line that ends in a line feed, and the lines behind it.
pub lines-append :
    (line s : Text) → Lacks 10 line → Lacks 13 line → lines (line ++ 10 ∷ s) ≡ line ∷ lines s
lines-append line s h cr =
    unfold lines in
    lines_from-append [] line s h ∙ ap (λ t. t ∷ lines_from [] s) (strip_cr-Lacks line cr)
