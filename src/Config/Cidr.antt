-- ===== src/Config/Cidr.antt =====
-- What `parse_cidr` accepts, and what it returns: the block that the text names.
use wg_ondemand.Base.{
  ℕ, ◌*◌, ◌-◌, ◌/◌, ◌^◌, ◌≤◌, ◌≡◌, refl, sym, ap, ◌∙◌, some, List, [], ◌∷◌, ◌++◌, inl, inr, arith,
  Text, ltb, Option-cases, Bool-cases, ok,
}
use wg_ondemand.Base.Str.{split}
use wg_ondemand.Base.Str.Split.{join, join-split, split-append, split-Lacks}
use wg_ondemand.Base.Num.{max_u8, parse_uint, show}
use wg_ondemand.Base.Num.RoundTrip.{parse_uint-show}
use wg_ondemand.Base.Ipv4.{Ipv4Addr, IsIpv4, parse_ipv4, show_ipv4, from_be_bytes}
use wg_ondemand.Base.Ipv4.RoundTrip.{
  parse_ipv4-show_ipv4, parse_ipv4-IsIpv4, from_be_bytes-lt, show-Lacks, show_ipv4-Lacks,
}
use wg_ondemand.Config.{cidr_of, cidr_parts, parse_cidr}
use wg_ondemand.Config.Mask.{block, netmask_ones, bit_and-netmask}

-- A block of addresses, independent of its text.
pub record Subnet : Type 0 where
  pub base : Ipv4Addr
  pub prefix_len : ℕ

pub record IsSubnet (b : Subnet) : Type 0 where
  pub octets : IsIpv4 b.base
  pub short : b.prefix_len ≤ 32

abbrev pub network : Subnet → ℕ
network b = from_be_bytes b.base / block b.prefix_len * block b.prefix_len

abbrev pub mask : Subnet → ℕ
mask b = (2 ^ b.prefix_len - 1) * block b.prefix_len

abbrev pub show_cidr : Subnet → Text
show_cidr b = show_ipv4 b.base ++ b'/' ∷ show b.prefix_len

cidr_of_lem : (b : Subnet) → IsSubnet b → cidr_of b.base b.prefix_len ≡ ok (network b, mask b)
unfolding cidr_of
cidr_of_lem b h = elim (Bool-cases (ltb 32 b.prefix_len)) [
  | inl long ↦ absurd (ground (arith, h.short))
  | inr short ↦
      let word = from_be_bytes-lt b.base h.octets in
      rw (
        short,
        bit_and-netmask b.prefix_len (from_be_bytes b.base) h.short word,
        netmask_ones b.prefix_len h.short,
      )
]

-- The text of a block, with octets below 256 and a prefix of at most 32 bits, is read as its network
-- address and its mask.
pub parse_cidr-show_cidr :
    (b : Subnet) → IsSubnet b → parse_cidr (show_cidr b) ≡ ok (network b, mask b)
parse_cidr-show_cidr b h =
    unfold parse_cidr in
    rw
      (
        split-append b'/' (show_ipv4 b.base) _ (show_ipv4-Lacks b'/' b.base refl (omega arith)),
        split-Lacks b'/' (show b.prefix_len) (show-Lacks b'/' b.prefix_len refl),
        parse_ipv4-show_ipv4 b.base h.octets,
        parse_uint-show max_u8 b.prefix_len (omega (arith, h.short)) (omega (arith, h.short)),
      )
      (cidr_of_lem b h)

-- What a text in CIDR notation says: the address before the slash, the decimal prefix behind it.
pub record Denotes (cidr : Text) (b : Subnet) : Type 0 where
  pub address : Text
  pub digits : Text
  pub spelled : cidr ≡ address ++ b'/' ∷ digits
  pub reads_address : parse_ipv4 address ≡ some b.base
  pub reads_digits : parse_uint max_u8 digits ≡ some b.prefix_len
  pub lawful : IsSubnet b

cidr_of_short : (ip : Ipv4Addr) (p : ℕ) (r : ℕ × ℕ) → cidr_of ip p ≡ ok r → p ≤ 32
unfolding cidr_of
cidr_of_short ip p r h = ground arith

record Parts (ps : List Text) (r : ℕ × ℕ) : Type 0 where
  address : Text
  digits : Text
  two : ps ≡ address ∷ digits ∷ []
  subnet : Subnet
  reads_address : parse_ipv4 address ≡ some subnet.base
  reads_digits : parse_uint max_u8 digits ≡ some subnet.prefix_len
  value : cidr_of subnet.base subnet.prefix_len ≡ ok r

cidr_parts_two : (a d : Text) (r : ℕ × ℕ) → cidr_parts (a ∷ d ∷ []) ≡ ok r → Parts (a ∷ d ∷ []) r
unfolding cidr_parts
cidr_parts_two a d r h = elim (Option-cases (parse_ipv4 a)) [
  | inl e ↦ absurd (ground (arith, e))
  | inr (ip, e) ↦ elim (Option-cases (parse_uint max_u8 d)) [
    | inl e' ↦ absurd (ground (arith, e, e'))
    | inr (p, e') ↦ record {
      address = a;
      digits = d;
      two = refl;
      subnet = record { base = ip; prefix_len = p };
      reads_address = e;
      reads_digits = e';
      value = ground (arith, e, e', h);
    }
  ]
]

cidr_parts_sound : (ps : List Text) (r : ℕ × ℕ) → cidr_parts ps ≡ ok r → Parts ps r
cidr_parts_sound (a ∷ d ∷ []) r h = cidr_parts_two a d r h
cidr_parts_sound _ r h = absurd (unfold cidr_parts in cc)

-- An accepted text names a block, and the result is that block's network address and mask.
pub parse_cidr_sound :
    (cidr : Text) (r : ℕ × ℕ)
    → parse_cidr cidr ≡ ok r
    → (b : Subnet) × Denotes cidr b × (r ≡ (network b, mask b))
parse_cidr_sound cidr r h =
    let p = cidr_parts_sound (split b'/' cidr) r (unfold parse_cidr in h) in
    let ip_ok = parse_ipv4-IsIpv4 p.address p.subnet.base p.reads_address in
    let valid : IsSubnet p.subnet = record {
      octets = ip_ok;
      short = cidr_of_short _ _ r p.value;
    } in
    let spelled : cidr ≡ p.address ++ b'/' ∷ p.digits =
      sym (join-split b'/' cidr) ∙ ap (join b'/') p.two ∙ unfold join in refl in
    (
      p.subnet,
      record {
        address = p.address;
        digits = p.digits;
        spelled = spelled;
        reads_address = p.reads_address;
        reads_digits = p.reads_digits;
        lawful = valid;
      },
      cc (p.value, cidr_of_lem p.subnet valid),
    )
