-- ===== src/Tests/Kernel.antt =====
-- The daemon over a table of routes.
use wg_ondemand.Base.{
  ◌≡◌, refl, ap, inl, inr, true, false, none, some, List, [], ◌∷◌, Text, text_eq, contains, ok,
  Option-cases,
}
use wg_ondemand.Base.Str.{codes}
use wg_ondemand.Types.{inactive, Config}
use wg_ondemand.Ebpf.Slots.{array_map}
use wg_ondemand.Controller.{WgController, tunnel_command}
use wg_ondemand.State.{start_monitoring}
use wg_ondemand.Ssid.{disconnected}
use wg_ondemand.Daemon.{World, Daemon}
use wg_ondemand.Daemon.Loop.{Event, network, command, system_changes}
use wg_ondemand.Daemon.Table.{Neutral}
use wg_ondemand.Tests.World.{program, interfaces, on_cafe, controller, config}
use wg_ondemand.Tests.Removal.{kernel, run_routes, table, routes}

abbrev kernel_world : World
kernel_world = record {
  os = kernel;
  subnet_map = array_map;
  aya = program;
  files = record {
    dir_exists = λ s. true;
    create_dir_all = λ s. (s, true);
    now = λ s. some 1700000000;
    write = λ s text. (s, true);
    remove_file = λ s. s;
  };
  get_if_addrs = λ s. some interfaces;
  device = λ s name. ok [];
  drain = λ rs. rs;
  path_exists = λ s path. true;
  net_entries = λ s. none;
  system_bus = λ s. some on_cafe;
}

up_same : (s : List Text) (c : WgController) → (run_routes s (tunnel_command (codes "up") c)).0 ≡ s
unfolding tunnel_command text_eq
up_same s c = elim (Option-cases c.nm_connection) [
  | inl e ↦ rw (tunnel_command, e) refl
  | inr (name, e) ↦ rw (tunnel_command, e) refl
]

down_same :
    (s : List Text) (c : WgController) → (run_routes s (tunnel_command (codes "down") c)).0 ≡ s
unfolding tunnel_command text_eq
down_same s c = elim (Option-cases c.nm_connection) [
  | inl e ↦ rw (tunnel_command, e) refl
  | inr (name, e) ↦ rw (tunnel_command, e) refl
]

abbrev neutral : Neutral kernel_world table
neutral = record {
  up_keeps = λ s c r. ap (λ t. contains t r) (up_same s c);
  down_keeps = λ s c r. ap (λ t. contains t r) (down_same s c);
  dir_keeps = λ s r. refl;
  write_keeps = λ s text r. refl;
  drains = λ xs x. refl;
}

abbrev routed : Config
routed = record config {
  subnets = record { ranges = codes "10.1.0.0/16" ∷ codes "10.2.0.0/16" ∷ [] };
}

-- The daemon that has started: the network is connected, and the tunnel is down.
abbrev started_kernel : Daemon kernel_world
started_kernel = record {
  wg_controller = controller;
  state_manager = record { state = inactive; idle_timeout = 300; on_monitored_ssid = false };
  monitor_iface = codes "wlan0";
  ranges = codes "10.1.0.0/16" ∷ codes "10.2.0.0/16" ∷ [];
  ebpf_manager = record { ebpf = tt; interface = codes "wlan0"; link_id = none; ringbuf = none };
  route_manager = record { interface = codes "wlan0"; gateway = none; active_routes = [] };
  current_ssid = none;
  retry_in_progress = false;
  retry_tasks = [];
  retry_senders = 0;
  state_queue = start_monitoring ∷ [];
  sys = routes;
}

abbrev stay : List (Event kernel_world.os.State)
stay = command 5 ∷ system_changes (λ s. s) ∷ network disconnected ∷ command 6 ∷ []
