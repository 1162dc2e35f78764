-- ===== src/Base/Str.antt =====
-- What the program uses of `str`: `split`, `lines`, `split_whitespace`, `find` and `contains`.
pub mod Split
pub mod Lines
use Prim.Native.Nat.{ℕ}
use Prim.Native.Char.{code}
use Prim.Native.String.{String}
use mathlib.Core.Bool.{Bool, true, false, ◌&&◌, ◌||◌}
use mathlib.Core.List.{List, [], ◌∷◌, ◌++◌}
use mathlib.Core.Option.{Option, none, some}
use wg_ondemand.Base.Tests.{Text, leb, ◌==◌, if◌then◌else◌}

-- The characters of a literal.
abbrev pub codes : String → Text
codes String.[] = []
codes (String.◌∷◌ c s) = code c ∷ codes s

abbrev cons_head : ℕ → List Text → List Text
cons_head c [] = (c ∷ []) ∷ []
cons_head c (p ∷ ps) = (c ∷ p) ∷ ps

-- `s.split(c)`: always one part at least.
unfoldable pub split : ℕ → Text → List Text
split c [] = [] ∷ []
split c (x ∷ s) = let rest = split c s in if x == c then [] ∷ rest else cons_head x rest

-- A line without the carriage return that stands before its line feed.
strip_cr : Text → Text
strip_cr [] = []
strip_cr (c ∷ []) = if c == 13 then [] else c ∷ []
strip_cr (c ∷ d ∷ s) = c ∷ strip_cr (d ∷ s)

last_line : Text → List Text
last_line [] = []
last_line (c ∷ line) = (c ∷ line) ∷ []

lines_from : Text → Text → List Text
lines_from line [] = last_line line
lines_from line (x ∷ s) =
    let ended = lines_from [] s in
    let longer = lines_from (line ++ x ∷ []) s in if x == 10 then strip_cr line ∷ ended else longer

-- `s.lines()`: an empty last line is no line.
unfoldable pub lines : Text → List Text
unfolding lines_from last_line strip_cr
lines s = lines_from [] s

-- `char::is_whitespace`, the Unicode property White_Space.
unfoldable pub is_whitespace : ℕ → Bool
is_whitespace c =
    (leb 9 c && leb c 13)
    || c == 32
    || c == 0x85
    || c == 0xa0
    || c == 0x1680
    || (leb 0x2000 c && leb c 0x200a)
    || c == 0x2028
    || c == 0x2029
    || c == 0x202f
    || c == 0x205f
    || c == 0x3000

word : Text → Text
word [] = []
word (c ∷ s) = if is_whitespace c then [] else c ∷ word s

-- `s.split_whitespace().next()`
unfoldable pub first_word : Text → Option Text
unfolding word is_whitespace
first_word [] = none
first_word (c ∷ s) = if is_whitespace c then first_word s else some (c ∷ word s)

-- What stands behind `p`, if the text begins with `p`.
strip_prefix : Text → Text → Option Text
strip_prefix [] s = some s
strip_prefix (c ∷ p) [] = none
strip_prefix (c ∷ p) (x ∷ s) = if c == x then strip_prefix p s else none

-- `&s[s.find(p)? + p.len() ..]`: what stands behind the first occurrence of `p`.
unfoldable pub after_first : Text → Text → Option Text
unfolding strip_prefix
after_first p [] = strip_prefix p []
after_first p (x ∷ s) =
    let later = after_first p s in
    elim (strip_prefix p (x ∷ s)) [ some rest ↦ some rest | none ↦ later ]

-- `s.contains(p)`
unfoldable pub has : Text → Text → Bool
unfolding after_first
has p s = elim (after_first p s) [ some _ ↦ true | none ↦ false ]
