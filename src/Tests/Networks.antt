-- ===== src/Tests/Networks.antt =====
-- The configuration's theorems at the networks of a small home.
use wg_ondemand.Base.{ℕ, ◌≡◌, ◌↔◌, Bool, true, Option, none, some, [], ◌∷◌, arith, Text, Any, ok}
use wg_ondemand.Base.Str.{codes}
use wg_ondemand.Types.{Config}
use wg_ondemand.Config.{parse_cidr, ip_in_subnets, validate_config}
use wg_ondemand.Config.Cidr.{
  Subnet, IsSubnet, network, mask, show_cidr, Denotes, parse_cidr-show_cidr, parse_cidr_sound,
}
use wg_ondemand.Config.Subnets.{IsCidr, Covers, ip_in_subnets_exact}
use wg_ondemand.Config.Validate.{IsValidConfig, validate_config_iff}

-- 192.168.1.77/24, whose network address is 192.168.1.0.
abbrev home : Subnet
home = record { base = record { o0 = 192; o1 = 168; o2 = 1; o3 = 77 }; prefix_len = 24 }

abbrev home_pair : ℕ × ℕ
home_pair = (network home, mask home)

home-IsSubnet : IsSubnet home
home-IsSubnet = record { octets = ground arith; short = omega arith }

parse_cidr-show_cidr_example : parse_cidr (show_cidr home) ≡ ok (network home, mask home)
parse_cidr-show_cidr_example = parse_cidr-show_cidr home home-IsSubnet

parse_cidr_sound_example :
    (b : Subnet) × Denotes (show_cidr home) b × (home_pair ≡ (network b, mask b))
parse_cidr_sound_example =
    parse_cidr_sound (show_cidr home) home_pair (parse_cidr-show_cidr home home-IsSubnet)

home-IsCidr : IsCidr (show_cidr home)
home-IsCidr = ((network home, mask home), parse_cidr-show_cidr home home-IsSubnet)

-- 192.168.1.5 is in the block.
ip_in_subnets_exact_example :
    (found : Bool) × (ip_in_subnets 0xc0a80105 (show_cidr home ∷ []) ≡ ok found)
    × ((found ≡ true) ↔ Any (Covers 0xc0a80105) (show_cidr home ∷ []))
ip_in_subnets_exact_example =
    ip_in_subnets_exact 0xc0a80105 (show_cidr home ∷ []) (omega arith) (home-IsCidr, tt)

abbrev config : Config
config = record {
  general = record {
    target_ssids = record { ssids = codes "cafe" ∷ [] };
    exclude_ssids = codes "home" ∷ [];
    wg_interface = codes "wg0";
    nm_connection = none;
    monitor_interface = some (codes "wlan0");
    idle_timeout = 300;
    log_level = codes "info";
  };
  subnets = record { ranges = show_cidr home ∷ [] };
}

validate_config_iff_example : (validate_config config ≡ ok tt) ↔ IsValidConfig config
validate_config_iff_example = validate_config_iff config

abbrev read_to_string : Text → Option Text
read_to_string path = some (codes "[general]")

abbrev from_str : Text → Option Config
from_str contents = some config
