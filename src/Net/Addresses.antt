-- ===== src/Net/Addresses.antt =====
-- The address that `get_interface_ip` returns.
use wg_ondemand.Base.{
  ℕ, ◌≡◌, refl, ◌⊎◌, ◌≢◌, inl, inr, none, some, List, [], ◌∷◌, Text, text_eq, text_eq_iff,
  Bool-cases, ok, arith, All, Any,
}
use wg_ondemand.Base.Ipv4.{Ipv4Addr, from_be_bytes}
use wg_ondemand.Net.{IfAddr, v4, v6, Interface, first_address, get_interface_ip}

-- The interface has this name and this IPv4 address.
abbrev pub HasAddress : Text → ℕ → Interface → Type 0
HasAddress name ip i =
    (i.name ≡ name) × (ip4 : Ipv4Addr) × (i.addr ≡ v4 ip4) × (ip ≡ from_be_bytes ip4)

-- The interface has another name, or no IPv4 address.
abbrev pub Lacking : Text → Interface → Type 0
Lacking name i = (i.name ≢ name) ⊎ (i.addr ≡ v6)

address_cases : (a : IfAddr) → ((ip : Ipv4Addr) × (a ≡ v4 ip)) ⊎ (a ≡ v6)
address_cases (v4 ip) = inl (ip, refl)
address_cases v6 = inr refl

-- Either the address of an entry with the interface's name is returned, or none is, and no entry with
-- that name has an IPv4 address.
pub get_interface_ip_lem :
    (interfaces : List Interface) (name : Text)
    → ((ip : ℕ) × (get_interface_ip (some interfaces) name ≡ ok (some ip))
        × Any (HasAddress name ip) interfaces)
      ⊎ ((get_interface_ip (some interfaces) name ≡ ok none) × All (Lacking name) interfaces)
unfolding get_interface_ip first_address
get_interface_ip_lem [] name = inr (refl, tt)
get_interface_ip_lem (i ∷ rest) name = elim (Bool-cases (text_eq i.name name)) [
  | inr other ↦ elim (get_interface_ip_lem rest name) [
    | inl (ip, e, any) ↦ inl (ip, ground (arith, other, e), inr any)
    | inr (e, lacking) ↦ inr (
      ground (arith, other, e),
      (inl (λ s. ground (arith, other, (text_eq_iff i.name name).1 s)), lacking),
    )
  ]
  | inl same ↦ elim (address_cases i.addr) [
    | inl (ip4, e) ↦ inl (
      from_be_bytes ip4,
      ground (arith, same, e),
      inl ((text_eq_iff i.name name).0 same, ip4, e, refl),
    )
    | inr e ↦ elim (get_interface_ip_lem rest name) [
      | inl (ip, found, any) ↦ inl (ip, ground (arith, same, e, found), inr any)
      | inr (none_found, lacking) ↦ inr (ground (arith, same, e, none_found), (inr e, lacking))
    ]
  ]
]
