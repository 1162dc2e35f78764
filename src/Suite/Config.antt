-- ===== src/Suite/Config.antt =====
-- wg-ondemand/src/config.rs, `mod tests`: the parsing of CIDR texts and the subnet test.
mod Validate
use wg_ondemand.Base.{
  ℕ, ◌≡◌, refl, Bool, true, false, not, ◌&&◌, ◌==◌, List, [], ◌∷◌, Text, Result, ok, err, is_ok,
  is_err, all_pass, if◌then◌else◌,
}
use wg_ondemand.Base.Str.{codes}
use wg_ondemand.Base.Ipv4.{from_be_bytes}
use wg_ondemand.Config.{parse_cidr, ip_in_subnets}

-- `unwrap` and the assertions on the network and the mask.
abbrev unwraps_to : Result (ℕ × ℕ) → ℕ → ℕ → Bool
unwraps_to (ok (network, mask)) n m = network == n && mask == m
unwraps_to (err e) n m = false

abbrev unwraps_network : Result (ℕ × ℕ) → ℕ → Bool
unwraps_network (ok (network, _)) n = network == n
unwraps_network (err e) n = false

abbrev unwraps_bool : Result Bool → Bool → Bool
unwraps_bool (ok found) b = if b then found else not found
unwraps_bool (err e) b = false

abbrev be : ℕ → ℕ → ℕ → ℕ → ℕ
be a b c d = from_be_bytes (record { o0 = a; o1 = b; o2 = c; o3 = d })

abbrev pub test_parse_cidr : Bool
test_parse_cidr =
    unwraps_to (parse_cidr (codes "192.168.1.0/24")) (be 192 168 1 0) (be 255 255 255 0)
    && (unwraps_to (parse_cidr (codes "10.0.0.1/32")) (be 10 0 0 1) 0xFFFFFFFF
        && unwraps_to (parse_cidr (codes "172.16.0.0/16")) (be 172 16 0 0) (be 255 255 0 0))

abbrev pub test_parse_cidr_invalid : Bool
test_parse_cidr_invalid =
    is_err (parse_cidr (codes "invalid"))
    && (is_err (parse_cidr (codes "192.168.1.0"))
        && (is_err (parse_cidr (codes "192.168.1.0/"))
            && (is_err (parse_cidr (codes "192.168.1.0/33"))
                && is_err (parse_cidr (codes "999.999.999.999/24")))))

abbrev pub test_ip_in_subnets : Bool
test_ip_in_subnets =
    let subnets : List Text = codes "192.168.1.0/24" ∷ codes "10.0.0.0/8" ∷ [] in
    unwraps_bool (ip_in_subnets (be 192 168 1 50) subnets) true
    && (unwraps_bool (ip_in_subnets (be 10 20 30 40) subnets) true
        && (unwraps_bool (ip_in_subnets (be 172 16 0 1) subnets) false
            && (unwraps_bool (ip_in_subnets (be 192 168 1 0) subnets) true
                && unwraps_bool (ip_in_subnets (be 192 168 1 255) subnets) true)))

abbrev pub test_parse_cidr_edge_cases : Bool
test_parse_cidr_edge_cases =
    unwraps_to (parse_cidr (codes "0.0.0.0/0")) 0 0
    && (is_ok (parse_cidr (codes "10.0.0.0/31"))
        && unwraps_to (parse_cidr (codes "255.255.255.255/32")) 0xFFFFFFFF 0xFFFFFFFF)

abbrev pub test_parse_cidr_network_bits_cleared : Bool
test_parse_cidr_network_bits_cleared =
    unwraps_network (parse_cidr (codes "192.168.1.100/24")) (be 192 168 1 0)
    && unwraps_network (parse_cidr (codes "10.0.0.255/8")) (be 10 0 0 0)

-- All of them pass.
tests_pass :
    all_pass (
      test_parse_cidr ∷ test_parse_cidr_invalid ∷ test_ip_in_subnets ∷ test_parse_cidr_edge_cases
      ∷ test_parse_cidr_network_bits_cleared ∷ [])
    ≡ true
unfolding parse_cidr ip_in_subnets from_be_bytes wg_ondemand.Base.Str.split
    wg_ondemand.Base.Ipv4.parse_ipv4 wg_ondemand.Base.Ipv4.parse_octet wg_ondemand.Base.Num.scan
    wg_ondemand.Base.Num.parse_uint wg_ondemand.Config.netmask
tests_pass = refl
