-- ===== src/Config.antt =====
-- wg-ondemand/src/config.rs: the configuration file, its checks, and CIDR ranges.
pub mod Mask
pub mod Cidr
pub mod Subnets
pub mod Validate
use wg_ondemand.Base.{
  ℕ, ◌*◌, ◌-◌, ◌%◌, ◌^◌, bit_and, Bool, true, false, not, Option, List, [], ◌∷◌, Text, ltb, ◌==◌,
  if◌then◌else◌, contains, length, is_empty, Result, ok, err, ◌>>=◌, ◌>>◌, or_fail, context, ensure,
  invalid_cidr_format, invalid_ip_address, invalid_prefix_length, prefix_too_long,
  ssid_in_both_lists, empty_wg_interface, zero_idle_timeout, no_subnets, too_many_subnets,
  invalid_cidr, unreadable_config, unparsable_config,
}
use wg_ondemand.Base.Str.{split}
use wg_ondemand.Base.Num.{max_u8, parse_uint}
use wg_ondemand.Base.Ipv4.{Ipv4Addr, parse_ipv4, from_be_bytes}
use wg_ondemand.Types.{Config, GeneralConfig, SubnetConfig, SsidList}

-- `if prefix_len == 0 { 0u32 } else { !0u32 << (32 - prefix_len) }`
unfoldable pub netmask : ℕ → ℕ
netmask prefix_len = if prefix_len == 0 then 0 else 0xffffffff * 2 ^ (32 - prefix_len) % 2 ^ 32

-- The network address and the mask.
cidr_of : Ipv4Addr → ℕ → Result (ℕ × ℕ)
cidr_of ip prefix_len =
    if ltb 32 prefix_len
    then err prefix_too_long
    else ok (bit_and (from_be_bytes ip) (netmask prefix_len), netmask prefix_len)

cidr_parts : List Text → Result (ℕ × ℕ)
cidr_parts (address ∷ digits ∷ []) = do
  ip ← or_fail (parse_ipv4 address) invalid_ip_address
  prefix_len ← or_fail (parse_uint max_u8 digits) invalid_prefix_length
  cidr_of ip prefix_len
cidr_parts _ = err invalid_cidr_format

unfoldable pub parse_cidr : Text → Result (ℕ × ℕ)
unfolding cidr_parts cidr_of
parse_cidr cidr = cidr_parts (split b'/' cidr)

unfoldable pub ip_in_subnets : ℕ → List Text → Result Bool
ip_in_subnets ip [] = ok false
ip_in_subnets ip (cidr ∷ cidrs) = do
  (network, mask) ← parse_cidr cidr
  if bit_and ip mask == network then ok true else ip_in_subnets ip cidrs

-- The first loop of `validate_config`.
check_ssids : List Text → List Text → Result (Unit {0})
check_ssids [] exclude = ok tt
check_ssids (ssid ∷ target) exclude =
    if contains exclude ssid then err ssid_in_both_lists else check_ssids target exclude

-- The last loop of `validate_config`.
check_ranges : List Text → Result (Unit {0})
check_ranges [] = ok tt
check_ranges (subnet ∷ subnets) = do
  cidr ← context (parse_cidr subnet) invalid_cidr
  check_ranges subnets

unfoldable pub validate_config : Config → Result (Unit {0})
unfolding check_ssids check_ranges
validate_config c = do
  check_ssids c.general.target_ssids.ssids c.general.exclude_ssids
  ensure (not (is_empty c.general.wg_interface)) empty_wg_interface
  ensure (not (c.general.idle_timeout == 0)) zero_idle_timeout
  ensure (not (is_empty c.subnets.ranges)) no_subnets
  ensure (not (ltb 16 (length c.subnets.ranges))) too_many_subnets
  check_ranges c.subnets.ranges

-- The file system's `read_to_string` and the `toml` parser are parameters.
module _ (read_to_string : Text → Option Text) (from_str : Text → Option Config) where
  unfoldable pub load_config : Text → Result Config
  load_config path = do
    contents ← or_fail (read_to_string path) unreadable_config
    config ← or_fail (from_str contents) unparsable_config
    validate_config config
    ok config
