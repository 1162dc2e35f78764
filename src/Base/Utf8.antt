-- ===== src/Base/Utf8.antt =====
-- `String::from_utf8`: the characters that well-formed UTF-8 spells.
use Prim.Native.Nat.{ℕ, zero, suc, ◌+◌, ◌-◌, ◌*◌}
use mathlib.Core.Bool.{Bool, ◌&&◌}
use mathlib.Core.List.{List, [], ◌∷◌}
use mathlib.Core.Option
use mathlib.Core.Option.{Option, none, some}
use wg_ondemand.Base.Tests.{Text, leb, ◌==◌, if◌then◌else◌}

-- What the decoder waits for: the lead byte of a character, or `suc more` continuation bytes, the
-- first of them from `lo` to `hi`.
pub data Wait : Type 0 where
  lead : Wait
  rest : ℕ → ℕ → ℕ → ℕ → Wait

abbrev between : ℕ → ℕ → ℕ → Bool
between lo hi b = leb lo b && leb b hi

-- The byte that a character begins with: an ASCII character, or what must follow. `none` is a byte
-- that begins no character.
pub data Lead : Type 0 where
  ascii bad : Lead
  wait : ℕ → ℕ → ℕ → ℕ → Lead

lead_of : ℕ → Lead
lead_of b =
    if leb b 0x7f
    then ascii
    else if between 0xc2 0xdf b
    then wait 0 0x80 0xbf (b - 0xc0)
    else if b == 0xe0
    then wait 1 0xa0 0xbf 0
    else if b == 0xed
    then wait 1 0x80 0x9f 0xd
    else if between 0xe1 0xef b
    then wait 1 0x80 0xbf (b - 0xe0)
    else if b == 0xf0
    then wait 2 0x90 0xbf 0
    else if between 0xf1 0xf3 b
    then wait 2 0x80 0xbf (b - 0xf0)
    else if b == 0xf4
    then wait 2 0x80 0x8f 4
    else bad

decode : Wait → List ℕ → Option Text
decode lead [] = some []
decode (rest more lo hi acc) [] = none
decode lead (b ∷ s) = elim (lead_of b) [
  | ascii ↦ Option.map (λ t. b ∷ t) (decode lead s)
  | bad ↦ none
  | wait more lo hi acc ↦ decode (rest more lo hi acc) s
]
decode (rest zero lo hi acc) (b ∷ s) =
    let c = acc * 64 + (b - 0x80) in
    let later = Option.map (λ t. c ∷ t) (decode lead s) in if between lo hi b then later else none
decode (rest (suc more) lo hi acc) (b ∷ s) =
    let later = decode (rest more 0x80 0xbf (acc * 64 + (b - 0x80))) s in
    if between lo hi b then later else none

unfoldable pub from_utf8 : List ℕ → Option Text
unfolding decode lead_of
from_utf8 bytes = decode lead bytes
