-- ===== src/Daemon/Start.antt =====
-- wg-ondemand/src/main.rs, `async_main` up to the loop: the components, and the first commands.
use wg_ondemand.Base.{
  Bool, false, Option, none, some, List, [], ◌∷◌, Text, if◌then◌else◌, Result, ok, err,
}
use wg_ondemand.Types.{Config, inactive}
use wg_ondemand.Os.{Io, then_io}
use wg_ondemand.Loader.{EbpfManager, load}
use wg_ondemand.Controller.{WgController, validate_interface_name, is_up}
use wg_ondemand.Controller as Controller
use wg_ondemand.Ssid.{Bus, is_connected_to_target}
use wg_ondemand.Ssid as Ssid
use wg_ondemand.Routes as Routes
use wg_ondemand.State.{StateCommand, start_monitoring, tunnel_already_up}
use wg_ondemand.State as State
use wg_ondemand.StateFile.{write_state}
use wg_ondemand.Net.{auto_detect_interface}
use wg_ondemand.Daemon.{World, Daemon}

unfoldable pub initial_commands : Bool → Bool → List StateCommand
initial_commands connected up =
    if connected
    then (if up then start_monitoring ∷ tunnel_already_up ∷ [] else start_monitoring ∷ [])
    else []

-- `unwrap_or(false)`
abbrev pub or_false : Result Bool → Bool
or_false (ok b) = b
or_false (err e) = false

module _ (W : World) where
  -- The name is passed on if it is valid.
  validated : Text → Io W.os Text
  validated name s = (s, elim (validate_interface_name name) [ ok _ ↦ ok name | err e ↦ err e ])

  -- The configured interface, or else the detected one; a valid name in either case.
  unfoldable pub monitor_interface : Config → Io W.os Text
  unfolding validated
  monitor_interface config s = elim config.general.monitor_interface [
    | some iface ↦ validated iface s
    | none ↦ then_io W.os (auto_detect_interface W.os (W.net_entries s)) validated s
  ]

  -- The daemon before its loop.
  unfoldable pub initial :
      Config → WgController → Text → EbpfManager W.aya → List StateCommand → W.os.State → Daemon W
  initial config controller iface ebpf commands s = record {
    wg_controller = controller;
    state_manager = State.new config.general.idle_timeout;
    monitor_iface = iface;
    ranges = config.subnets.ranges;
    ebpf_manager = ebpf;
    route_manager = Routes.new iface;
    current_ssid = none;
    retry_in_progress = false;
    retry_tasks = [];
    retry_senders = 0;
    state_queue = commands;
    sys = s;
  }

  -- The monitor, the state of network and tunnel, and the first state file.
  unfoldable pub with_bus :
      Config → WgController → Text → EbpfManager W.aya → Option Bus → Io W.os (Daemon W)
  with_bus config controller iface ebpf connection s =
      elim (Ssid.new config.general.target_ssids.ssids config.general.exclude_ssids connection) [
        | err e ↦ (s, err e)
        | ok (monitor, bus) ↦
            let connected = or_false (is_connected_to_target monitor bus) in
            let (s', up) = is_up W.os controller s in
            let s'' = (write_state W.files inactive none s').0 in
            (s'', ok (initial config controller iface ebpf (initial_commands connected up) s''))
      ]

  unfoldable pub with_interface : Config → WgController → Text → Io W.os (Daemon W)
  with_interface config controller iface s =
      then_io W.os (load W.os (W.path_exists s) W.aya iface config.subnets.ranges)
        (λ loaded s'. with_bus config controller iface loaded.0 (W.system_bus s') s') s

  -- From a loaded configuration to the daemon before its loop, or an error.
  unfoldable pub start : Config → Io W.os (Daemon W)
  start config s = elim (Controller.new config.general.wg_interface config.general.nm_connection) [
    | err e ↦ (s, err e)
    | ok controller ↦ then_io W.os (monitor_interface config) (with_interface config controller) s
  ]
