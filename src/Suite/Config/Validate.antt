-- ===== src/Suite/Config/Validate.antt =====
-- wg-ondemand/src/config.rs, `mod tests`: the validation of a configuration.
use wg_ondemand.Base.{
  ℕ, zero, suc, ◌≡◌, refl, Bool, true, ◌&&◌, none, List, [], ◌∷◌, ◌++◌, Text, is_ok, is_err,
  all_pass,
}
use wg_ondemand.Base.Str.{codes}
use wg_ondemand.Base.Num.{show}
use wg_ondemand.Types.{Config}
use wg_ondemand.Config.{validate_config}

-- The configuration that the tests share, with an interface, a timeout and ranges.
abbrev test_config : Text → ℕ → List Text → Config
test_config wg_interface idle_timeout ranges = record {
  general = record {
    target_ssids = record { ssids = codes "TestSSID" ∷ [] };
    exclude_ssids = [];
    wg_interface = wg_interface;
    nm_connection = none;
    monitor_interface = none;
    idle_timeout = idle_timeout;
    log_level = codes "info";
  };
  subnets = record { ranges = ranges };
}

-- `target_ssids` and `exclude_ssids` replaced.
abbrev with_ssids : List Text → List Text → Config → Config
with_ssids target exclude config = record {
  general = record config.general {
    target_ssids = record { ssids = target };
    exclude_ssids = exclude;
  };
  subnets = config.subnets;
}

abbrev one_range : List Text
one_range = codes "192.168.1.0/24" ∷ []

-- `(0..n).map(|i| format!("10.{}.0.0/24", i))`, from some number on.
abbrev range_from : ℕ → ℕ → List Text
range_from i zero = []
range_from i (suc n) = (codes "10." ++ (show i ++ codes ".0.0/24")) ∷ range_from (suc i) n

abbrev pub test_validate_config : Bool
test_validate_config =
    let config = test_config (codes "wg0") 300 one_range in
    is_ok (validate_config config)
    && (is_ok (validate_config (with_ssids [] [] config))
        && (is_err
              (validate_config (with_ssids (codes "TestSSID" ∷ []) (codes "TestSSID" ∷ []) config))
            && (is_err (validate_config (test_config (codes "wg0") 0 one_range))
                && is_err
                    (validate_config (test_config (codes "wg0") 300 (codes "invalid" ∷ []))))))

abbrev pub test_validate_config_empty_subnets : Bool
test_validate_config_empty_subnets = is_err (validate_config (test_config (codes "wg0") 300 []))

abbrev pub test_validate_config_too_many_subnets : Bool
test_validate_config_too_many_subnets =
    is_err (validate_config (test_config (codes "wg0") 300 (range_from 0 17)))

abbrev pub test_validate_config_max_subnets : Bool
test_validate_config_max_subnets =
    is_ok (validate_config (test_config (codes "wg0") 300 (range_from 0 16)))

abbrev pub test_validate_config_overlapping_subnets : Bool
test_validate_config_overlapping_subnets =
    let ranges : List Text = codes "192.168.0.0/16" ∷ codes "192.168.1.0/24" ∷ [] in
    is_ok (validate_config (test_config (codes "wg0") 300 ranges))

abbrev pub test_validate_config_idle_timeout_bounds : Bool
test_validate_config_idle_timeout_bounds =
    is_ok (validate_config (test_config (codes "wg0") 1 one_range))
    && is_ok (validate_config (test_config (codes "wg0") 86400 one_range))

abbrev pub test_validate_config_empty_interface_name : Bool
test_validate_config_empty_interface_name = is_err (validate_config (test_config [] 300 one_range))

-- All of them pass.
tests_pass :
    all_pass (
      test_validate_config ∷ test_validate_config_empty_subnets
      ∷ test_validate_config_too_many_subnets ∷ test_validate_config_max_subnets
      ∷ test_validate_config_overlapping_subnets ∷ test_validate_config_idle_timeout_bounds
      ∷ test_validate_config_empty_interface_name ∷ [])
    ≡ true
unfolding validate_config wg_ondemand.Base.contains wg_ondemand.Config.parse_cidr
    wg_ondemand.Base.Str.split wg_ondemand.Base.Ipv4.parse_ipv4 wg_ondemand.Base.Ipv4.parse_octet
    wg_ondemand.Base.Num.scan wg_ondemand.Base.Num.parse_uint wg_ondemand.Base.text_eq show
tests_pass = refl
