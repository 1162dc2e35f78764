-- ===== src/Tests/Uplink.antt =====
-- The daemon over a tunnel that its commands bring up and down.
use wg_ondemand.Base.{
  Bool, true, false, Option, none, some, List, [], ◌∷◌, Text, text_eq, Result, ok, ◌≡◌, refl, ◌∙◌,
  if◌then◌else◌, replicate, arith, ℕ, length,
}
use wg_ondemand.Base.Str.{codes}
use wg_ondemand.Types.{inactive, monitoring, activating, active}
use wg_ondemand.Os.{Os, Output}
use wg_ondemand.Ebpf.Slots.{array_map}
use wg_ondemand.Config.Cidr.{show_cidr}
use wg_ondemand.Controller.{WgController, tunnel_command, is_up}
use wg_ondemand.Controller as Controller
use wg_ondemand.Routes.{show_routes, show_route, add_route, del_route}
use wg_ondemand.Routes.Runs.{RouteCommand, shows_routes, shows_route, adds_route, deletes_route}
use wg_ondemand.State.{StateCommand, start_monitoring, traffic_detected}
use wg_ondemand.Daemon.{World, Daemon, blocked}
use wg_ondemand.Daemon.Start.{start}
use wg_ondemand.Daemon.Loop.{
  Event, command, contended_command, ebpf_tick, system_changes, steps, daemon_of,
}
use wg_ondemand.Daemon.Hang.{contended_activation_hangs}
use wg_ondemand.Daemon.Tunnel.{Tunnel}
use wg_ondemand.Daemon.Tunnel.Init.{start-steps-tunnel}
use wg_ondemand.Tests.World.{program, interfaces, on_cafe, config, controller, lan}

-- `wg-quick up` and `wg-quick down`, of which the first succeeds; `ip link show` of the tunnel; and
-- all else, which fails.
abbrev run_uplink : Bool → List Text → Bool × Option Output
run_uplink on (name ∷ verb ∷ wg ∷ []) =
    if text_eq verb (codes "up")
    then (true, some (record { success = true; stdout = []; stderr = [] }))
    else (false, some (record { success = false; stdout = []; stderr = [] }))
run_uplink on (ip ∷ link ∷ show ∷ wg ∷ []) = (
  on,
  some (record {
    success = if text_eq link (codes "link") then on else false;
    stdout = [];
    stderr = [];
  }),
)
run_uplink on _ = (on, some (record { success = false; stdout = []; stderr = [] }))

abbrev uplink : Os
uplink = record { State = Bool; run = run_uplink }

abbrev uplink_world : World
uplink_world = record {
  os = uplink;
  subnet_map = array_map;
  aya = program;
  files = record {
    dir_exists = λ s. true;
    create_dir_all = λ s. (s, true);
    now = λ s. some 1700000000;
    write = λ s text. (s, true);
    remove_file = λ s. s;
  };
  get_if_addrs = λ s. some interfaces;
  device = λ s name. ok [];
  drain = λ rs. rs;
  path_exists = λ s path. true;
  net_entries = λ s. none;
  system_bus = λ s. some on_cafe;
}

routes_aside : (on : Bool) (args : List Text) → RouteCommand args → (run_uplink on args).0 ≡ on
unfolding show_routes show_route add_route del_route
routes_aside on args (shows_routes interface) = refl
routes_aside on args (shows_route subnet) = refl
routes_aside on args (adds_route subnet gateway interface) = refl
routes_aside on args (deletes_route subnet) = refl

up_on : (on : Bool) → (run_uplink on (tunnel_command (codes "up") controller)).0 ≡ true
unfolding tunnel_command text_eq
up_on on = refl

link_shown :
    (on : Bool) → (is_up uplink controller on).1 ≡ true → (is_up uplink controller on).0 ≡ true
unfolding is_up text_eq
link_shown on h = ground (arith, h)

abbrev tunnel : Tunnel uplink_world controller
tunnel = record {
  is_on = λ on. on;
  up_raises = λ on out e done. up_on on;
  up_keeps = λ on h. up_on on;
  shown = link_shown;
  routes_keep = routes_aside;
  dir_keeps = λ on. refl;
  write_keeps = λ on text. refl;
}

-- The daemon that has started: the network is connected, and the tunnel is down.
abbrev started_uplink : Daemon uplink_world
started_uplink = record {
  wg_controller = controller;
  state_manager = record { state = inactive; idle_timeout = 300; on_monitored_ssid = false };
  monitor_iface = codes "wlan0";
  ranges = show_cidr lan ∷ [];
  ebpf_manager = record { ebpf = tt; interface = codes "wlan0"; link_id = none; ringbuf = none };
  route_manager = record { interface = codes "wlan0"; gateway = none; active_routes = [] };
  current_ssid = none;
  retry_in_progress = false;
  retry_tasks = [];
  retry_senders = 0;
  state_queue = start_monitoring ∷ [];
  sys = false;
}

starts_uplink : (start uplink_world config false).1 ≡ ok started_uplink
unfolding start wg_ondemand.Controller.new wg_ondemand.Controller.validate_name
    wg_ondemand.Daemon.Start.monitor_interface wg_ondemand.Controller.validate_interface_name
    wg_ondemand.Daemon.Start.with_interface wg_ondemand.Loader.load wg_ondemand.Base.Str.has
    wg_ondemand.Loader.configure wg_ondemand.Loader.set_subnets wg_ondemand.Config.parse_cidr
    wg_ondemand.Base.Str.split wg_ondemand.Base.Ipv4.show_ipv4 wg_ondemand.Base.Num.show
    wg_ondemand.Base.Ipv4.parse_ipv4 wg_ondemand.Base.Num.parse_uint
    wg_ondemand.Base.Ipv4.from_be_bytes wg_ondemand.Base.Str.after_first wg_ondemand.Base.Str.lines
    wg_ondemand.Base.contains text_eq wg_ondemand.Base.Utf8.from_utf8 wg_ondemand.Config.netmask
    wg_ondemand.Controller.is_up wg_ondemand.Daemon.Start.initial
    wg_ondemand.Daemon.Start.initial_commands wg_ondemand.Daemon.Start.with_bus
    wg_ondemand.Loader.cleanup_stale_ebpf wg_ondemand.Loader.clear_slots
    wg_ondemand.Loader.validate_interface_exists wg_ondemand.Routes.new
    wg_ondemand.Ssid.current_ssid wg_ondemand.Ssid.is_connected_to_target wg_ondemand.Ssid.new
    wg_ondemand.State.new wg_ondemand.StateFile.content wg_ondemand.StateFile.state_str
    wg_ondemand.StateFile.write_state wg_ondemand.Base.Ipv4.parse_octet wg_ondemand.Base.Num.scan
starts_uplink = refl

abbrev visit : List (Event uplink_world.os.State)
visit =
    command 5
    ∷ ebpf_tick (replicate 16 0 ∷ [])
    ∷ command 6
    ∷ system_changes (λ on. on)
    ∷ command 7
    ∷ []

comes_up : (daemon_of (steps visit started_uplink)).state_manager.state ≡ active
unfolding steps wg_ondemand.Daemon.Loop.step wg_ondemand.Daemon.on_command wg_ondemand.Daemon.handle
    wg_ondemand.Daemon.perform wg_ondemand.State.handle_command wg_ondemand.Daemon.on_ebpf_tick
    wg_ondemand.Loader.poll_events wg_ondemand.Daemon.write_file wg_ondemand.Daemon.on_attach
    wg_ondemand.Daemon.local_address wg_ondemand.Net.get_interface_ip text_eq
    wg_ondemand.Config.ip_in_subnets wg_ondemand.Config.parse_cidr wg_ondemand.Base.Str.split
    wg_ondemand.Base.Ipv4.show_ipv4 wg_ondemand.Base.Ipv4.from_be_bytes
    wg_ondemand.Base.Ipv4.parse_ipv4 wg_ondemand.Base.Ipv4.parse_octet
    wg_ondemand.Base.Num.parse_uint wg_ondemand.Base.Num.scan wg_ondemand.Base.Num.show
    wg_ondemand.Config.netmask Controller.bring_up tunnel_command
    wg_ondemand.Daemon.attach_with_routes wg_ondemand.Daemon.on_activate
    wg_ondemand.Daemon.on_detach wg_ondemand.Daemon.poll_entries wg_ondemand.Daemon.send
    wg_ondemand.Loader.attach
comes_up = refl

made : Controller.new config.general.wg_interface config.general.nm_connection ≡ ok controller
unfolding Controller.new Controller.validate_name text_eq
made = refl

start-steps-tunnel_example : (daemon_of (steps visit started_uplink)).sys ≡ true
start-steps-tunnel_example =
    start-steps-tunnel uplink_world config controller tunnel false started_uplink visit made
      starts_uplink (tt, (tt, (tt, ((λ on h. h), (tt, tt))))) comes_up

-- A full channel with a `TrafficDetected` at its head, and a retry task that waits for room.
abbrev crowd : List StateCommand
crowd = replicate 31 traffic_detected

abbrev crowded : Daemon uplink_world
crowded = record started_uplink {
  state_manager = record { state = monitoring; idle_timeout = 300; on_monitored_ssid = true };
  state_queue = traffic_detected ∷ crowd;
  retry_senders = 1;
}

can_come_up : (Controller.bring_up uplink controller false).1 ≡ ok tt
unfolding Controller.bring_up tunnel_command text_eq
can_come_up = refl

contended_activation_hangs_example :
    let o = steps (contended_command 5 ∷ command 6 ∷ []) crowded in
    let d' = daemon_of o in
    (o ≡ blocked d')
    × (d'.state_manager.state ≡ activating)
    × (length d'.state_queue ≡ 32)
    × (d'.sys ≡ (Controller.bring_up uplink controller false).0)
contended_activation_hangs_example =
    contended_activation_hangs 5 0 crowded crowd (command 6 ∷ []) refl refl refl refl can_come_up
