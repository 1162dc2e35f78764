-- ===== src/Base/Ipv4/RoundTrip.antt =====
-- The parser and the printer of addresses against each other.
use Prim.Native.Nat.{ℕ, ◌^◌, ◌≤◌, ◌<◌}
use mathlib.Core.Path.{◌≡◌, refl, ap}
use mathlib.Core.Bool.{Bool, true, false}
use mathlib.Core.Logic.{◌≢◌}
use mathlib.Core.List.{List, [], ◌∷◌}
use mathlib.Core.Option.{Option, none, some}
use native.Mathlib.Omega.{arith}
use wg_ondemand.Base.Tests.{Text, ◌==◌, holds_under, holds_under_lem}
use wg_ondemand.Base.Lists.{All, All-append}
use wg_ondemand.Base.Str.{split}
use wg_ondemand.Base.Str.Split.{Lacks, split-Lacks, split-append}
use wg_ondemand.Base.Num.{max_u8, is_digit, scan, show}
use wg_ondemand.Base.Num.RoundTrip.{IsDigit, show-IsDigit, scan-le}
use wg_ondemand.Base.Ipv4.{
  Ipv4Addr, IsIpv4, parse_octet, parse_parts, parse_ipv4, show_ipv4, from_be_bytes,
}

abbrev is_some_of : Option ℕ → ℕ → Bool
is_some_of none n = false
is_some_of (some m) n = m == n

is_some_of_eq : (o : Option ℕ) (n : ℕ) → is_some_of o n ≡ true → o ≡ some n
is_some_of_eq none n h = cc
is_some_of_eq (some m) n h = ground arith

octet_table : holds_under (λ n. is_some_of (parse_octet (show n)) n) 256 ≡ true
unfolding holds_under parse_octet show scan
octet_table = refl

parse_octet-show : (n : ℕ) → n ≤ max_u8 → parse_octet (show n) ≡ some n
parse_octet-show n h = is_some_of_eq _ n (holds_under_lem _ 256 n (omega arith) octet_table)

digits-Lacks : (c : ℕ) (s : Text) → is_digit c ≡ false → All IsDigit s → Lacks c s
digits-Lacks c [] h d = tt
digits-Lacks c (x ∷ s) h d = (λ e. cc (ap is_digit e, d.0), digits-Lacks c s h d.1)

pub show-Lacks : (c n : ℕ) → is_digit c ≡ false → Lacks c (show n)
show-Lacks c n h = digits-Lacks c (show n) h (show-IsDigit n)

-- Printing an address and reading it gives the address.
pub parse_ipv4-show_ipv4 : (ip : Ipv4Addr) → IsIpv4 ip → parse_ipv4 (show_ipv4 ip) ≡ some ip
parse_ipv4-show_ipv4 ip h =
    let no_dot = λ (n : ℕ). show-Lacks b'.' n refl in
    unfold parse_ipv4 show_ipv4 in
    rw
      (
        split-append b'.' (show ip.o0) _ (no_dot ip.o0),
        split-append b'.' (show ip.o1) _ (no_dot ip.o1),
        split-append b'.' (show ip.o2) _ (no_dot ip.o2),
        split-Lacks b'.' (show ip.o3) (no_dot ip.o3),
        parse_octet-show ip.o0 h.0,
        parse_octet-show ip.o1 h.1,
        parse_octet-show ip.o2 h.2,
        parse_octet-show ip.o3 h.3,
      )
      refl

parse_octet-le : (s : Text) (n : ℕ) → parse_octet s ≡ some n → n ≤ max_u8
unfolding parse_octet
parse_octet-le [] n h = cc
parse_octet-le (c ∷ s) n h = ground (arith, scan-le max_u8 0 n (c ∷ s))

parse_parts-IsIpv4 : (ps : List Text) (ip : Ipv4Addr) → parse_parts ps ≡ some ip → IsIpv4 ip
unfolding parse_parts
parse_parts-IsIpv4 (a ∷ b ∷ c ∷ d ∷ []) ip h = ground (
  arith,
  parse_octet-le a ip.o0,
  parse_octet-le b ip.o1,
  parse_octet-le c ip.o2,
  parse_octet-le d ip.o3,
)
parse_parts-IsIpv4 _ ip h = cc

pub parse_ipv4-IsIpv4 : (s : Text) (ip : Ipv4Addr) → parse_ipv4 s ≡ some ip → IsIpv4 ip
unfolding parse_ipv4
parse_ipv4-IsIpv4 s ip h = parse_parts-IsIpv4 (split b'.' s) ip h

pub from_be_bytes-lt : (ip : Ipv4Addr) → IsIpv4 ip → from_be_bytes ip < 2 ^ 32
unfolding from_be_bytes
from_be_bytes-lt ip h = omega arith

pub show_ipv4-Lacks :
    (c : ℕ) (ip : Ipv4Addr) → is_digit c ≡ false → b'.' ≢ c → Lacks c (show_ipv4 ip)
unfolding show_ipv4
show_ipv4-Lacks c ip h dot =
    let part = λ (n : ℕ). show-Lacks c n h in
    All-append _ (show ip.o0) _ (part ip.o0) (
      dot,
      All-append _ (show ip.o1) _ (part ip.o1)
          (dot, All-append _ (show ip.o2) _ (part ip.o2) (dot, part ip.o3)),
    )
