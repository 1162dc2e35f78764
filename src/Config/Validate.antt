-- ===== src/Config/Validate.antt =====
-- `validate_config` and `load_config`: what they accept.
use wg_ondemand.Base.{
  ◌≤◌, ◌<◌, ◌≡◌, refl, ◌≢◌, ◌↔◌, inl, inr, false, Option, some, List, [], ◌∷◌, arith, Text, All,
  length, is_empty, contains, ok, context, Option-cases, Result-cases,
}
use wg_ondemand.Types.{Config}
use wg_ondemand.Config.{parse_cidr, check_ssids, check_ranges, validate_config, load_config}
use wg_ondemand.Config.Subnets.{IsCidr}

pub record IsValidConfig (c : Config) : Type 0 where
  pub disjoint :
      All (λ ssid. contains c.general.exclude_ssids ssid ≡ false) c.general.target_ssids.ssids
  pub named : c.general.wg_interface ≢ []
  pub patient : 0 < c.general.idle_timeout
  pub some_range : 0 < length c.subnets.ranges
  pub few_ranges : length c.subnets.ranges ≤ 16
  pub cidrs : All IsCidr c.subnets.ranges

check_ssids_iff :
    (target exclude : List Text)
    → (check_ssids target exclude ≡ ok tt) ↔ All (λ ssid. contains exclude ssid ≡ false) target
unfolding check_ssids
check_ssids_iff [] exclude = (λ _. tt, λ _. refl)
check_ssids_iff (s ∷ target) exclude =
    let rest = check_ssids_iff target exclude in
    (λ h. (ground (arith, h), rest.0 (ground (arith, h))), λ h. ground (arith, h.0, rest.1 h.1))

check_ranges_iff : (cidrs : List Text) → (check_ranges cidrs ≡ ok tt) ↔ All IsCidr cidrs
unfolding check_ranges
check_ranges_iff [] = (λ _. tt, λ _. refl)
check_ranges_iff (s ∷ cidrs) =
    let rest = check_ranges_iff cidrs in
    elim (Result-cases (parse_cidr s)) [
      | inl (r, e) ↦ rw (e, context) (λ h. ((r, refl), rest.0 h), λ h. rest.1 h.1)
      | inr (x, e) ↦ (λ h. absurd (ground (arith, e, h)), λ h. absurd (cc (e, h.0.1)))
    ]

is_empty_iff {ℓ} : {A : Type ℓ} (xs : List A) → (is_empty xs ≡ false) ↔ (0 < length xs)
is_empty_iff [] = ground arith
is_empty_iff (x ∷ xs) = (λ _. omega arith, λ _. refl)

module _ (c : Config) where
  valid_of_accepted : validate_config c ≡ ok tt → IsValidConfig c
  unfolding validate_config
  valid_of_accepted h = record {
    disjoint =
        (check_ssids_iff c.general.target_ssids.ssids c.general.exclude_ssids).0
          (ground (arith, h));
    named = ground (arith, h);
    patient = ground (arith, h);
    some_range = ground (arith, h, is_empty_iff c.subnets.ranges);
    few_ranges = ground (arith, h);
    cidrs = (check_ranges_iff c.subnets.ranges).0 (ground (arith, h));
  }

  accepted_of_valid : IsValidConfig c → validate_config c ≡ ok tt
  unfolding validate_config
  accepted_of_valid v = ground (
    arith,
    (check_ssids_iff c.general.target_ssids.ssids c.general.exclude_ssids).1 v.disjoint,
    (check_ranges_iff c.subnets.ranges).1 v.cidrs,
    v.named,
    v.patient,
    v.some_range,
    v.few_ranges,
    is_empty_iff c.subnets.ranges,
  )

  -- The checks accept exactly the valid configurations.
  pub validate_config_iff : (validate_config c ≡ ok tt) ↔ IsValidConfig c
  validate_config_iff = (valid_of_accepted, accepted_of_valid)

-- The file is loaded exactly when it can be read and parsed and what it holds is valid.
pub load_config_iff :
    (read_to_string : Text → Option Text) (from_str : Text → Option Config) (path : Text)
    (c : Config)
    → (load_config read_to_string from_str path ≡ ok c) ↔ (
        (contents : Text) × (read_to_string path ≡ some contents)
        × (from_str contents ≡ some c)
        × IsValidConfig c)
unfolding load_config
load_config_iff read parse path c = (
  λ h. elim (Option-cases (read path)) [
    | inl e ↦ absurd (ground (arith, e, h))
    | inr (contents, e) ↦ elim (Option-cases (parse contents)) [
      | inl e' ↦ absurd (ground (arith, e, e', h))
      | inr (d, e') ↦ elim (Result-cases (validate_config d)) [
        | inl (u, v) ↦
            let same : d ≡ c = ground (arith, e, e', v, h) in
            (contents, e, cc (e', same), (validate_config_iff c).0 (rw same at v))
        | inr (x, v) ↦ absurd (ground (arith, e, e', v, h))
      ]
    ]
  ],
  λ x. ground (arith, x.1, x.2, (validate_config_iff c).1 x.3),
)
