-- ===== src/Tests/Startup.antt =====
-- From the start of the daemon on, in the desk's world.
use wg_ondemand.Base.{
  ◌+◌, ◌≤◌, count, replicate, ℕ, Error, ◌≡◌, refl, ◌⊎◌, inl, inr, true, false, none, some, List, [],
  ◌∷◌, Result, ok, err, arith, Option, Text, All, Any, text_eq,
}
use wg_ondemand.Base.Str.{codes}
use wg_ondemand.Types.{Config, monitoring, activating, active}
use wg_ondemand.Config.{ip_in_subnets, load_config}
use wg_ondemand.Config.Validate.{IsValidConfig, load_config_iff}
use wg_ondemand.Ebpf.Slots.{array_map, array_map-IsLawful}
use wg_ondemand.Ebpf.{is_target_subnet}
use wg_ondemand.Ssid.{connected_to_target, disconnected}
use wg_ondemand.Daemon.{local_address}
use wg_ondemand.Daemon.Loop.{Event, network, command, ebpf_tick, system_changes, steps, daemon_of}
use wg_ondemand.Daemon.Init.{Started, start-Started}
use wg_ondemand.Daemon.Filter.{start-steps-filter}
use wg_ondemand.Tests.World.{config, program, lan, lan-IsCidr}
use wg_ondemand.Tests.Packet.{one_packet, lan_read, lan-NotBroadcast}
use wg_ondemand.Controller.{bring_up}
use wg_ondemand.Loader.{attach, is_attached}
use wg_ondemand.State.Traces.{is_traffic}
use wg_ondemand.Daemon.Demand.{activations, polled, activations-le-polled}
use wg_ondemand.Daemon.First.{start_to_active}
use wg_ondemand.Ebpf.{wg_ondemand_tc, load_port, from_be32, from_be16}
use wg_ondemand.Base.Ipv4.{from_be_bytes}
use wg_ondemand.Net.{get_interface_ip}
use wg_ondemand.Tests.Desk.{desk, desk_world, started_desk, starts_desk, outside_lan}

abbrev evening : List (Event desk_world.os.State)
evening =
    command 5
    ∷ system_changes (λ s. (false, s.1))
    ∷ network disconnected
    ∷ command 6
    ∷ network (connected_to_target (codes "cafe"))
    ∷ []

abbrev read_to_string : Text → Option Text
read_to_string path = some []

abbrev from_str : Text → Option Config
from_str contents = some config

config-IsValid : IsValidConfig config
unfolding wg_ondemand.Base.contains
config-IsValid = record {
  disjoint = (refl, tt);
  named = λ e. ground (arith, e);
  patient = omega arith;
  some_range = omega arith;
  few_ranges = omega arith;
  cidrs = (lan-IsCidr, tt);
}

loads : load_config read_to_string from_str (codes "/etc/c") ≡ ok config
loads =
    (load_config_iff read_to_string from_str (codes "/etc/c") config).1
      ([], refl, refl, config-IsValid)

start-steps-filter_example :
    (from : Started desk_world config started_desk) × ((es : List (Event desk_world.os.State))
        (ip : ℕ)
      → ip_in_subnets ip (daemon_of (steps es started_desk)).ranges
        ≡ ok (is_target_subnet array_map from.map ip))
start-steps-filter_example =
    start-steps-filter desk_world array_map-IsLawful read_to_string from_str (codes "/etc/c") config
      (true, none) started_desk loads (lan-NotBroadcast, tt) starts_desk

abbrev from : Started desk_world config started_desk
from = start-Started desk_world config (true, none) started_desk starts_desk

start_to_active_example :
    let (ret, ring) = wg_ondemand_tc one_packet array_map from.map tt 7 [] in
    let d1 = daemon_of (steps (command 5 ∷ []) started_desk) in
    let d2 = daemon_of (steps (command 5 ∷ ebpf_tick ring ∷ command 8 ∷ []) started_desk) in
    let d3 =
      daemon_of (steps (command 5 ∷ ebpf_tick ring ∷ command 8 ∷ command 9 ∷ []) started_desk) in
    let up = (bring_up desk d1.wg_controller d1.sys).1 in
    (ret ≡ 0)
    × (d1.state_manager.state ≡ monitoring)
    × (is_attached program d1.ebpf_manager ≡ true)
    × (d2.state_manager.state ≡ activating)
    × (((e : Error) × (up ≡ err e) × (d3.state_manager.state ≡ activating))
        ⊎ ((up ≡ ok tt)
            × (d3.state_manager.state ≡ active)
            × (is_attached program d3.ebpf_manager ≡ false)
            × (d3.route_manager.active_routes ≡ [])))
unfolding from_be_bytes from_be32 from_be16 load_port local_address get_interface_ip text_eq attach
start_to_active_example =
    start_to_active desk_world array_map-IsLawful one_packet config started_desk from 3232235781 tt
      tt 443 7 5 8 9 config-IsValid (lan-NotBroadcast, tt) refl refl (omega arith) outside_lan refl
      refl refl refl (omega arith)
      (inl (lan, record { octets = ground arith; short = omega arith }, lan_read, refl))

abbrev one_entry : List (Event desk_world.os.State)
one_entry = command 5 ∷ ebpf_tick (replicate 16 0 ∷ []) ∷ command 6 ∷ command 7 ∷ []

activations-le-polled_example :
    activations one_entry started_desk
    ≤ count is_traffic started_desk.state_queue + polled one_entry
activations-le-polled_example = activations-le-polled one_entry started_desk
