-- ===== src/Base/Num.antt =====
-- Decimal numbers: `str::parse` of an unsigned integer type, and `to_string`.
pub mod RoundTrip
use Prim.Native.Nat.{ℕ, zero, suc, ◌+◌, ◌-◌, ◌*◌, ◌/◌, ◌%◌, ◌^◌}
use mathlib.Core.Bool.{Bool, true, false, ◌&&◌}
use mathlib.Core.List.{List, [], ◌∷◌, ◌++◌}
use mathlib.Core.Option.{Option, none, some}
use wg_ondemand.Base.Tests.{Text, ltb, leb, ◌==◌, if◌then◌else◌}

abbrev pub max_u8 : ℕ
max_u8 = 2 ^ 8 - 1

abbrev pub max_u64 : ℕ
max_u64 = 2 ^ 64 - 1

abbrev pub is_digit : ℕ → Bool
is_digit c = leb b'0' c && leb c b'9'

-- The digits behind the value read so far, with checked multiplication and addition.
unfoldable pub scan : ℕ → ℕ → Text → Option ℕ
scan limit n [] = some n
scan limit n (c ∷ s) =
    let m = n * 10 + (c - b'0') in if is_digit c && leb m limit then scan limit m s else none

unfoldable pub scan_digits : ℕ → Text → Option ℕ
scan_digits limit [] = none
scan_digits limit (c ∷ s) = scan limit 0 (c ∷ s)

-- `s.parse::<uN>()`, where the type's largest value is `limit`: one plus sign may stand first.
unfoldable pub parse_uint : ℕ → Text → Option ℕ
unfolding scan_digits
parse_uint limit [] = none
parse_uint limit (c ∷ s) = if c == b'+' then scan_digits limit s else scan_digits limit (c ∷ s)

show_from : ℕ → ℕ → Text
show_from zero n = []
show_from (suc f) n =
    let more = show_from f (n / 10) in
    if ltb n 10 then (b'0' + n) ∷ [] else more ++ (b'0' + n % 10) ∷ []

-- `n.to_string()`: 20 digits are enough for a u64.
unfoldable pub show : ℕ → Text
unfolding show_from
show n = show_from 20 n
