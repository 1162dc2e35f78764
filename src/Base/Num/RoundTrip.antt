-- ===== src/Base/Num/RoundTrip.antt =====
-- `parse_uint` and `show` against each other.
use Prim.Native.Nat.{ℕ, zero, suc, ◌+◌, ◌-◌, ◌*◌, ◌/◌, ◌^◌, ◌≤◌, ◌<◌}
use mathlib.Core.Path.{◌≡◌, refl, ◌∙◌}
use mathlib.Core.Logic.{inl, inr, ◌≢◌}
use mathlib.Core.Bool.{true}
use mathlib.Core.List.{[], ◌∷◌, ◌++◌, cons-ne-nil, concat-ne-nil}
use mathlib.Core.Option.{some}
use native.Mathlib.Nat.{pow-suc}
use native.Mathlib.Omega.{arith}
use wg_ondemand.Base.Tests.{Text, ltb, Bool-cases}
use wg_ondemand.Base.Lists.{All, All-append}
use wg_ondemand.Base.Num.{is_digit, scan, parse_uint, show_from, show, max_u64}

abbrev pub IsDigit : ℕ → Type 0
IsDigit c = is_digit c ≡ true

scan-append :
    (limit a b : ℕ) (s t : Text) → scan limit a s ≡ some b → scan limit a (s ++ t) ≡ scan limit b t
unfolding scan
scan-append limit a b [] t h = ground arith
scan-append limit a b (c ∷ s) t h = ground (arith, scan-append limit (a * 10 + (c - b'0')) b s t)

show_from-IsDigit : (f n : ℕ) → All IsDigit (show_from f n)
unfolding show_from
show_from-IsDigit zero n = tt
show_from-IsDigit (suc f) n = elim (Bool-cases (ltb n 10)) [
  | inl small ↦ rw small (ground arith, tt)
  | inr big ↦ rw big (All-append IsDigit _ _ (show_from-IsDigit f (n / 10)) (ground arith, tt))
]

scan-show_from : (limit f n : ℕ) → n < 10 ^ f → n ≤ limit → scan limit 0 (show_from f n) ≡ some n
unfolding show_from
scan-show_from limit zero n h fits = unfold scan in ground arith
scan-show_from limit (suc f) n h fits = elim (Bool-cases (ltb n 10)) [
  | inl small ↦ rw small (unfold scan in ground arith)
  | inr big ↦
      let before = scan-show_from limit f (n / 10) (omega (arith, pow-suc 10 f)) (omega arith) in
      rw (big, scan-append limit 0 (n / 10) _ _ before) (unfold scan in ground arith)
]

parse_uint-scan_digits :
    (limit : ℕ) (s : Text) → s ≢ [] → All IsDigit s → parse_uint limit s ≡ scan limit 0 s
unfolding parse_uint
parse_uint-scan_digits limit [] ne h = absurd (ne refl)
parse_uint-scan_digits limit (c ∷ s) ne h = ground arith

show-ne-nil : (n : ℕ) → show n ≢ []
unfolding show
show-ne-nil n = elim (Bool-cases (ltb n 10)) [
  | inl small ↦ rw small (cons-ne-nil _ _)
  | inr big ↦ rw big (concat-ne-nil _ _)
]

pub show-IsDigit : (n : ℕ) → All IsDigit (show n)
unfolding show
show-IsDigit n = show_from-IsDigit 20 n

-- `to_string` then `parse` of a u64.
pub parse_uint-show : (limit n : ℕ) → n ≤ limit → n ≤ max_u64 → parse_uint limit (show n) ≡ some n
parse_uint-show limit n fits small =
    parse_uint-scan_digits limit (show n) (show-ne-nil n) (show-IsDigit n)
    ∙ unfold show in scan-show_from limit 20 n (omega arith) fits

-- A number that was read is one that the type holds.
pub scan-le : (limit n r : ℕ) (s : Text) → n ≤ limit → scan limit n s ≡ some r → r ≤ limit
unfolding scan
scan-le limit n r [] fits h = ground arith
scan-le limit n r (c ∷ s) fits h = ground (arith, scan-le limit (n * 10 + (c - b'0')) r s)

pub parse_uint-le : (limit r : ℕ) (s : Text) → parse_uint limit s ≡ some r → r ≤ limit
unfolding parse_uint
parse_uint-le limit r [] h = cc
parse_uint-le limit r (c ∷ []) h = unfold scan in ground arith
parse_uint-le limit r (c ∷ d ∷ s) h =
    ground (arith, scan-le limit 0 r (c ∷ d ∷ s), scan-le limit 0 r (d ∷ s))
