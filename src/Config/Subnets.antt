-- ===== src/Config/Subnets.antt =====
-- `ip_in_subnets` against the blocks that its texts denote.
use wg_ondemand.Base.{
  ℕ, ◌/◌, ◌^◌, ◌<◌, bit_and, ◌≡◌, refl, ◌↔◌, inl, inr, Bool, true, false, List, [], ◌∷◌, Text, ◌==◌,
  ==_iff, Bool-cases, All, Any, ok,
}
use wg_ondemand.Base.Ipv4.{from_be_bytes}
use wg_ondemand.Config.{parse_cidr, ip_in_subnets}
use wg_ondemand.Config.Mask.{block, masked_eq_iff}
use wg_ondemand.Config.Cidr.{Subnet, IsSubnet, network, mask, parse_cidr_sound}

-- An accepted CIDR text.
abbrev pub IsCidr : Text → Type 0
IsCidr cidr = (r : ℕ × ℕ) × (parse_cidr cidr ≡ ok r)

-- The address lies in the block: it has the block's leading bits.
abbrev pub Inside : ℕ → Subnet → Type 0
Inside ip b = ip / block b.prefix_len ≡ from_be_bytes b.base / block b.prefix_len

-- The text denotes a block that the address lies in.
abbrev pub Covers : ℕ → Text → Type 0
Covers ip cidr =
    (b : Subnet) × IsSubnet b × (parse_cidr cidr ≡ ok (network b, mask b)) × Inside ip b

-- The test of the loops: `(ip & mask) == network`.
pub masked_Inside :
    (ip : ℕ) (b : Subnet)
    → ip < 2 ^ 32
    → IsSubnet b
    → ((bit_and ip (mask b) == network b) ≡ true) ↔ Inside ip b
masked_Inside ip b h v =
    let same = masked_eq_iff b.prefix_len ip (from_be_bytes b.base) v.short h in
    let test = ==_iff (bit_and ip (mask b)) (network b) in
    (λ e. same.0 (test.0 e), λ e. test.1 (same.1 e))

-- At an accepted text the test decides whether the text's block holds the address.
pub masked_Covers :
    (ip : ℕ) (cidr : Text) (n m : ℕ)
    → ip < 2 ^ 32
    → parse_cidr cidr ≡ ok (n, m)
    → ((bit_and ip m == n) ≡ true) ↔ Covers ip cidr
masked_Covers ip cidr n m h e =
    let (b, d, same) = parse_cidr_sound cidr (n, m) e in
    let test = masked_Inside ip b h d.lawful in
    (
      λ t. (b, d.lawful, cc (e, same), test.0 (cc (same, t))),
      λ c. cc (e, c.2, (masked_Inside ip c.0 h c.1).1 c.3),
    )

-- For a 32-bit address and accepted ranges the check never fails, and it says whether some range's
-- block holds the address.
pub ip_in_subnets_exact :
    (ip : ℕ) (cidrs : List Text)
    → ip < 2 ^ 32
    → All IsCidr cidrs
    → (found : Bool) × (ip_in_subnets ip cidrs ≡ ok found)
      × ((found ≡ true) ↔ Any (Covers ip) cidrs)
unfolding ip_in_subnets
ip_in_subnets_exact ip [] h _ = (false, refl, (λ e. absurd (cc), λ e. absurd e))
ip_in_subnets_exact ip (cidr ∷ cidrs) h (((n, m), e), rest) =
    let test = masked_Covers ip cidr n m h e in
    let (found, runs, meaning) = ip_in_subnets_exact ip cidrs h rest in
    elim (Bool-cases (bit_and ip m == n)) [
      | inl hit ↦ (true, rw (e, hit), (λ _. inl (test.0 hit), λ _. refl))
      | inr miss ↦ (
        found,
        rw (e, miss) runs,
        (
          λ t. inr (meaning.0 t),
          λ any. elim any [ inl c ↦ absurd (cc (test.1 c, miss)) | inr a ↦ meaning.1 a ],
        ),
      )
    ]
