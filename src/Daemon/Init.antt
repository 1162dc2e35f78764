-- ===== src/Daemon/Init.antt =====
-- The daemon that `start` returns, and what its loop reaches.
use mathlib.Core.Path.{subst}
use wg_ondemand.Base.{
  ◌≡◌, refl, ◌≤◌, Bool, false, Option, none, some, List, Text, length, ok, arith, Result-cases, inl,
  inr,
}
use wg_ondemand.Types.{Config, inactive}
use wg_ondemand.Os.{then_io-ok}
use wg_ondemand.Loader.{EbpfManager, load, is_attached}
use wg_ondemand.Loader.Link.{Loaded, load-Loaded}
use wg_ondemand.Controller.{is_up, WgController}
use wg_ondemand.Controller as Controller
use wg_ondemand.Routes as Routes
use wg_ondemand.Ssid.{Bus, SsidMonitor, is_connected_to_target}
use wg_ondemand.Ssid as Ssid
use wg_ondemand.StateFile.{write_state}
use wg_ondemand.State as State
use wg_ondemand.Daemon.{World, Daemon}
use wg_ondemand.Daemon.Start.{
  or_false, initial, initial_commands, with_bus, with_interface, monitor_interface, start,
}
use wg_ondemand.Daemon.Loop.{Event, steps, daemon_of}
use wg_ondemand.Daemon.Invariant.{Inv}
use wg_ondemand.Daemon.Invariant.Steps.{steps-Inv}

module _ (W : World) (config : Config) where
  initial_room : (connected up : Bool) → length (initial_commands connected up) ≤ 32
  unfolding initial_commands
  initial_room connected up = ground arith

  initial-Inv :
      (controller : WgController) (iface : Text) (ebpf : EbpfManager W.aya)
      (cmds : List State.StateCommand) (s : W.os.State)
      → is_attached W.aya ebpf ≡ false
      → length cmds ≤ 32
      → Inv config.general.idle_timeout (initial W config controller iface ebpf cmds s)
  unfolding initial State.new Routes.new
  initial-Inv controller iface ebpf cmds s off room = record {
    manager = record { agrees = refl; timeout_kept = refl };
    room = room;
    clean = λ _. (off, refl);
  }

  -- How a daemon has started: with what was loaded, and the two answers about network and tunnel.
  pub record Started (d : Daemon W) : Type 0 where
    pub wg_controller : WgController
    pub created :
        Controller.new config.general.wg_interface config.general.nm_connection ≡ ok wg_controller
    pub iface : Text
    pub before_load : W.os.State
    pub before_asking : W.os.State
    pub before_file : W.os.State
    pub ebpf : EbpfManager W.aya
    pub map : W.subnet_map.Map
    pub connected : Bool
    pub up : Bool
    pub loaded :
        (load W.os (W.path_exists before_load) W.aya iface config.subnets.ranges before_load).1
        ≡ ok (ebpf, map)
    pub asked : is_up W.os wg_controller before_asking ≡ (before_file, up)
    pub is_initial :
        initial W config wg_controller iface ebpf
          (initial_commands connected up)
          (write_state W.files inactive none before_file).0
        ≡ d

  with_bus-initial :
      (controller : WgController) (iface : Text) (ebpf : EbpfManager W.aya) (bus : Option Bus)
      (s : W.os.State) (d : Daemon W)
      → (with_bus W config controller iface ebpf bus s).1 ≡ ok d
      → (connected up : Bool) × (s' : W.os.State) × (is_up W.os controller s ≡ (s', up))
        × (initial W config controller iface ebpf
              (initial_commands connected up)
              (write_state W.files inactive none s').0
            ≡ d)
  unfolding with_bus Ssid.new
  with_bus-initial controller iface ebpf none s d h = absurd (ground (arith, h))
  with_bus-initial controller iface ebpf (some bus) s d h =
      let (s', up) = is_up W.os controller s in
      let monitor : SsidMonitor = record {
        target_ssids = config.general.target_ssids.ssids;
        exclude_ssids = config.general.exclude_ssids;
      } in
      (or_false (is_connected_to_target monitor bus), up, s', refl, ground (arith, h))

  with_interface-Started :
      (controller : WgController) (name : Text) (s : W.os.State) (d : Daemon W)
      → Controller.new config.general.wg_interface config.general.nm_connection ≡ ok controller
      → (with_interface W config controller name s).1 ≡ ok d
      → Started d
  unfolding with_interface
  with_interface-Started controller name s d created h =
      let run_load = load W.os (W.path_exists s) W.aya name config.subnets.ranges in
      let ((ebpf, map), loaded, rest) =
        then_io-ok W.os run_load
          (λ l s'. with_bus W config controller name l.0 (W.system_bus s') s') s d h in
      let s' = (run_load s).0 in
      let (connected, up, s'', answer, same) =
        with_bus-initial controller name ebpf (W.system_bus s') s' d rest in
      record {
        wg_controller = controller;
        created = created;
        iface = name;
        before_load = s;
        before_asking = s';
        before_file = s'';
        ebpf = ebpf;
        map = map;
        connected = connected;
        up = up;
        loaded = loaded;
        asked = answer;
        is_initial = same;
      }

  pub start-Started : (s : W.os.State) (d : Daemon W) → (start W config s).1 ≡ ok d → Started d
  unfolding start
  start-Started s d h =
      elim (Result-cases
        (Controller.new config.general.wg_interface config.general.nm_connection)) [
          | inr (_, e) ↦ absurd (ground (arith, e, h))
          | inl (controller, e) ↦
              let (iface, _, rest) =
                then_io-ok W.os (monitor_interface W config) (with_interface W config controller) s
                  d (ground (arith, e, h)) in
              with_interface-Started controller iface (monitor_interface W config s).0 d e rest
        ]

  pub Started-Loaded :
      (d : Daemon W) (from : Started d)
      → Loaded W.aya from.iface config.subnets.ranges from.ebpf from.map
  Started-Loaded d from =
      let s = from.before_load in
      load-Loaded W.aya from.iface config.subnets.ranges W.os (W.path_exists s) s from.ebpf from.map
        from.loaded

  pub start-Inv :
      (s : W.os.State) (d : Daemon W)
      → (start W config s).1 ≡ ok d
      → Inv config.general.idle_timeout d
  start-Inv s d h =
      let from = start-Started s d h in
      let object = Started-Loaded d from in
      subst (λ x. Inv config.general.idle_timeout x) from.is_initial
        (initial-Inv from.wg_controller from.iface from.ebpf
          (initial_commands from.connected from.up)
          (write_state W.files inactive none from.before_file).0 object.detached
          (initial_room from.connected from.up))

  -- Whatever events follow a start that succeeds, up to the point where the loop blocks and there:
  -- the manager's `on_monitored_ssid` agrees with its state, at most 32 commands wait, and with the
  -- machine inactive no classifier is attached and no route is active.
  pub start_steps-Inv :
      (s : W.os.State) (d : Daemon W) (es : List (Event W.os.State))
      → (start W config s).1 ≡ ok d
      → Inv config.general.idle_timeout (daemon_of (steps es d))
  start_steps-Inv s d es h = steps-Inv config.general.idle_timeout es d (start-Inv s d h)
