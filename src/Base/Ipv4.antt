-- ===== src/Base/Ipv4.antt =====
-- `std::net::Ipv4Addr`: its octets, `from_str`, `to_string`, and `u32::from_be_bytes` of them.
pub mod RoundTrip
use Prim.Native.Nat.{ℕ, ◌+◌, ◌*◌, ◌≤◌}
use mathlib.Core.Bool.{Bool, true, false, ◌&&◌, ◌||◌}
use mathlib.Core.List.{List, [], ◌∷◌, ◌++◌}
use mathlib.Core.Option.{Option, none, some}
use wg_ondemand.Base.Tests.{Text, ltb, ◌==◌, if◌then◌else◌}
use wg_ondemand.Base.Lists.{length}
use wg_ondemand.Base.Str.{split}
use wg_ondemand.Base.Num.{max_u8, scan, show}

pub record Ipv4Addr : Type 0 where
  pub o0 : ℕ
  pub o1 : ℕ
  pub o2 : ℕ
  pub o3 : ℕ

-- One to three digits with no leading zero, and the value of a u8.
unfoldable pub parse_octet : Text → Option ℕ
parse_octet [] = none
parse_octet (c ∷ s) =
    if ltb 2 (length s) || (c == b'0' && ltb 0 (length s)) then none else scan max_u8 0 (c ∷ s)

infixl 5 ◌>>=◌
abbrev ◌>>=◌ : {A B : Type 0} → Option A → (A → Option B) → Option B
none >>= f = none
some a >>= f = f a

parse_parts : List Text → Option Ipv4Addr
parse_parts (a ∷ b ∷ c ∷ d ∷ []) = do
  o0 ← parse_octet a
  o1 ← parse_octet b
  o2 ← parse_octet c
  o3 ← parse_octet d
  some (record { o0 = o0; o1 = o1; o2 = o2; o3 = o3 })
parse_parts _ = none

-- `s.parse::<Ipv4Addr>()`
unfoldable pub parse_ipv4 : Text → Option Ipv4Addr
unfolding parse_parts
parse_ipv4 s = parse_parts (split b'.' s)

-- `ip.to_string()`
unfoldable pub show_ipv4 : Ipv4Addr → Text
show_ipv4 ip = show ip.o0 ++ b'.' ∷ (show ip.o1 ++ b'.' ∷ (show ip.o2 ++ b'.' ∷ show ip.o3))

-- `u32::from_be_bytes([o0, o1, o2, o3])`
unfoldable pub from_be_bytes : Ipv4Addr → ℕ
from_be_bytes ip = ((ip.o0 * 256 + ip.o1) * 256 + ip.o2) * 256 + ip.o3

abbrev pub IsIpv4 : Ipv4Addr → Type 0
IsIpv4 ip = (ip.o0 ≤ max_u8) × (ip.o1 ≤ max_u8) × (ip.o2 ≤ max_u8) × (ip.o3 ≤ max_u8)
