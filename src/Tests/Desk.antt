-- ===== src/Tests/Desk.antt =====
-- A world with a state file and an interface that may have no address yet, in which `wg-quick up` is
-- the one command that succeeds; and a daemon that has started in it.
use wg_ondemand.Base.{
  Bool, true, false, Option, none, some, List, [], ◌∷◌, Text, text_eq, Result, ok, err, ◌≡◌, refl,
  if◌then◌else◌, inl, inr, ◌&&◌, Any, arith,
}
use wg_ondemand.Base.Str.{codes}
use wg_ondemand.Types.{inactive}
use wg_ondemand.Os.{Os}
use wg_ondemand.Ebpf.Slots.{array_map}
use wg_ondemand.State.{start_monitoring}
use wg_ondemand.StateFile.{content}
use wg_ondemand.StateFile.Report.{Report}
use wg_ondemand.Daemon.{World, Daemon}
use wg_ondemand.Daemon.Start.{start}
use wg_ondemand.Tests.World.{program, interfaces, on_cafe, config, controller, lan}
use wg_ondemand.Config.Cidr.{show_cidr, mask, network as network_of}
use wg_ondemand.Config.Subnets.{Covers, masked_Covers}
use wg_ondemand.Base.Ipv4.{from_be_bytes}
use wg_ondemand.Tests.Packet.{lan_read}

abbrev runs_well : List Text → Bool
runs_well (name ∷ verb ∷ args) = text_eq name (codes "wg-quick") && text_eq verb (codes "up")
runs_well _ = false

-- Whether the interface has its address, and the state file's text.
abbrev pub desk : Os
desk = record {
  State = Bool × Option Text;
  run = λ s args. (s, some (record { success = runs_well args; stdout = []; stderr = [] }));
}

abbrev pub desk_world : World
desk_world = record {
  os = desk;
  subnet_map = array_map;
  aya = program;
  files = record {
    dir_exists = λ s. true;
    create_dir_all = λ s. (s, true);
    now = λ s. some 1700000000;
    write = λ s text. ((s.0, some text), true);
    remove_file = λ s. (s.0, none);
  };
  get_if_addrs = λ s. some (if s.0 then interfaces else []);
  device = λ s name. ok [];
  drain = λ rs. rs;
  path_exists = λ s path. true;
  net_entries = λ s. none;
  system_bus = λ s. some on_cafe;
}

abbrev pub report : Report desk desk_world.files
report = record {
  shown = λ s. s.1;
  run_keeps = λ s args. refl;
  dir_ready = λ s. inl refl;
  write_shows = λ s text. refl;
}

-- The daemon as it is made, with nothing in its channel.
abbrev pub idle_desk : Daemon desk_world
idle_desk = record {
  wg_controller = controller;
  state_manager = record { state = inactive; idle_timeout = 300; on_monitored_ssid = false };
  monitor_iface = codes "wlan0";
  ranges = show_cidr lan ∷ [];
  ebpf_manager = record { ebpf = tt; interface = codes "wlan0"; link_id = none; ringbuf = none };
  route_manager = record { interface = codes "wlan0"; gateway = none; active_routes = [] };
  current_ssid = none;
  retry_in_progress = false;
  retry_tasks = [];
  retry_senders = 0;
  state_queue = [];
  sys = (false, none);
}

-- The daemon that has started: the network is connected, and the tunnel is down.
abbrev pub started_desk : Daemon desk_world
started_desk = record idle_desk {
  state_queue = start_monitoring ∷ [];
  sys = (true, some (content inactive none 1700000000));
}

pub starts_desk : (start desk_world config (true, none)).1 ≡ ok started_desk
unfolding start wg_ondemand.Controller.new wg_ondemand.Controller.validate_name
    wg_ondemand.Daemon.Start.monitor_interface wg_ondemand.Controller.validate_interface_name
    wg_ondemand.Daemon.Start.with_interface wg_ondemand.Loader.load wg_ondemand.Base.Str.has
    wg_ondemand.Loader.configure wg_ondemand.Loader.set_subnets wg_ondemand.Config.parse_cidr
    wg_ondemand.Base.Str.split wg_ondemand.Base.Ipv4.show_ipv4 wg_ondemand.Base.Num.show
    wg_ondemand.Base.Ipv4.parse_ipv4 wg_ondemand.Base.Num.parse_uint
    wg_ondemand.Base.Ipv4.from_be_bytes wg_ondemand.Base.Str.after_first wg_ondemand.Base.Str.lines
    wg_ondemand.Base.contains text_eq wg_ondemand.Base.Utf8.from_utf8 wg_ondemand.Config.netmask
    wg_ondemand.Controller.is_up wg_ondemand.Daemon.Start.initial
    wg_ondemand.Daemon.Start.initial_commands wg_ondemand.Daemon.Start.with_bus
    wg_ondemand.Loader.cleanup_stale_ebpf wg_ondemand.Loader.clear_slots
    wg_ondemand.Loader.validate_interface_exists wg_ondemand.Routes.new
    wg_ondemand.Ssid.current_ssid wg_ondemand.Ssid.is_connected_to_target wg_ondemand.Ssid.new
    wg_ondemand.State.new wg_ondemand.StateFile.content wg_ondemand.StateFile.state_str
    wg_ondemand.StateFile.write_state wg_ondemand.Base.Ipv4.parse_octet wg_ondemand.Base.Num.scan
starts_desk = refl

-- 192.168.1.5, the interface's address, lies outside of 10.1.0.0/16.
pub outside_lan : ¬ Any (Covers 3232235781) (show_cidr lan ∷ [])
unfolding from_be_bytes
outside_lan (inl covered) =
    let hit =
      (masked_Covers 3232235781 (show_cidr lan) (network_of lan) (mask lan) (omega arith)
          lan_read).1
        covered in
    cc hit
outside_lan (inr none_left) = none_left
