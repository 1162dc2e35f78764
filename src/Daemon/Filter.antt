-- ===== src/Daemon/Filter.antt =====
-- The kernel's filter and the daemon's own test of an address, from the start of the daemon on.
use wg_ondemand.Base.{ℕ, ◌≡◌, ap, sym, ◌∙◌, Option, List, Text, All, ok}
use wg_ondemand.Types.{Config}
use wg_ondemand.Config.{ip_in_subnets, load_config}
use wg_ondemand.Config.Validate.{load_config_iff}
use wg_ondemand.Ebpf.Slots.{IsLawful}
use wg_ondemand.Ebpf.{is_target_subnet}
use wg_ondemand.Loader.Agreement.{NotBroadcast, configured_agrees}
use wg_ondemand.Daemon.{World, Daemon}
use wg_ondemand.Daemon.Start.{initial, start}
use wg_ondemand.Daemon.Loop.{Event, steps, daemon_of}
use wg_ondemand.Daemon.Init.{Started, start-Started, Started-Loaded}
use wg_ondemand.Daemon.Fixed.{steps-Fixed}

module _ (W : World) (config : Config) where
  pub Started-ranges : (d : Daemon W) → Started W config d → d.ranges ≡ config.subnets.ranges
  unfolding initial
  Started-ranges d from = sym (ap (λ (x : Daemon W). x.ranges) from.is_initial)

-- On a map that keeps the laws of an array. A process that loads its configuration, without the
-- broadcast address alone, and starts, has written a map; and whatever events follow, up to the point
-- where the loop blocks and there, the kernel's test of any address against this map is the daemon's
-- own test of the address.
pub start-steps-filter :
    (W : World) (L : IsLawful W.subnet_map) (read_to_string : Text → Option Text)
    (from_str : Text → Option Config) (path : Text) (config : Config) (s : W.os.State)
    (d : Daemon W)
    → load_config read_to_string from_str path ≡ ok config
    → All NotBroadcast config.subnets.ranges
    → (start W config s).1 ≡ ok d
    → (from : Started W config d) × ((es : List (Event W.os.State)) (ip : ℕ)
        → ip_in_subnets ip (daemon_of (steps es d)).ranges
          ≡ ok (is_target_subnet W.subnet_map from.map ip))
start-steps-filter W L read parse path config s d loads plain starts =
    let (_, _, _, valid) = (load_config_iff read parse path config).0 loads in
    let from = start-Started W config s d starts in
    let object = Started-Loaded W config d from in
    (
      from,
      λ es ip.
          ap (λ cs. ip_in_subnets ip cs) ((steps-Fixed es d).0 ∙ Started-ranges W config d from)
          ∙ configured_agrees W.subnet_map L config.subnets.ranges object.fresh from.map valid.cidrs
              plain valid.few_ranges object.configured ip,
    )
