-- ===== src/Tests/World.antt =====
-- A world in which every command succeeds, and a daemon in it.
use wg_ondemand.Base.{ℕ, true, false, none, some, List, [], ◌∷◌, Text, arith, ok}
use wg_ondemand.Base.Str.{codes}
use wg_ondemand.Types.{Config, active}
use wg_ondemand.Config.Cidr.{Subnet, network as network_of, mask, show_cidr, parse_cidr-show_cidr}
use wg_ondemand.Config.Subnets.{IsCidr}
use wg_ondemand.Os.{Os}
use wg_ondemand.Ebpf.Slots.{array_map, zeroed}
use wg_ondemand.Loader.{Aya}
use wg_ondemand.Controller.{WgController}
use wg_ondemand.Ssid.{Bus}
use wg_ondemand.State.{start_monitoring}
use wg_ondemand.Net.{Interface, v4, v6}
use wg_ondemand.Daemon.{World, Daemon}

abbrev pub logging : Os
logging = record {
  State = List (List Text);
  run = λ log args. (args ∷ log, some (record { success = true; stdout = []; stderr = [] }));
}

abbrev pub program : Aya array_map
program = record {
  Bpf = Unit;
  LinkId = ℕ;
  RingBuf = ℕ;
  load_bytes = some tt;
  subnets_map = λ _. some zeroed;
  has_program = λ _. true;
  load_program = λ _. some tt;
  attach_to = λ _ _. (tt, some 1);
  detach_link = λ _ _. (tt, true);
  take_events = λ _. (tt, some 0);
}

-- wlan0 has an IPv6 address, and then 192.168.1.5.
abbrev pub interfaces : List Interface
interfaces =
    record { name = codes "wlan0"; addr = v6 }
    ∷ record { name = codes "wlan0"; addr = v4 (record { o0 = 192; o1 = 168; o2 = 1; o3 = 5 }) }
    ∷ []

-- NetworkManager with a wireless connection to "cafe".
abbrev pub on_cafe : Bus
on_cafe = record {
  nm_proxy = ok tt;
  primary_connection = ok (codes "/c");
  active_proxy = λ _. ok tt;
  connection_type = λ _. ok (codes "802-11-wireless");
  devices = λ _. ok (codes "/d" ∷ []);
  wireless_proxy = λ _. ok tt;
  active_access_point = λ _. ok (codes "/a");
  access_point_proxy = λ _. ok tt;
  ssid = λ _. ok (codes "cafe");
}

abbrev pub world : World
world = record {
  os = logging;
  subnet_map = array_map;
  aya = program;
  files = record {
    dir_exists = λ s. true;
    create_dir_all = λ s. (s, true);
    now = λ s. some 1700000000;
    write = λ s text. (s, true);
    remove_file = λ s. s;
  };
  get_if_addrs = λ s. some interfaces;
  device = λ s name. ok [];
  drain = λ rs. rs;
  path_exists = λ s path. true;
  net_entries = λ s. none;
  system_bus = λ s. some on_cafe;
}

abbrev pub lan : Subnet
lan = record { base = record { o0 = 10; o1 = 1; o2 = 0; o3 = 0 }; prefix_len = 16 }

pub lan-IsCidr : IsCidr (show_cidr lan)
lan-IsCidr = (
  (network_of lan, mask lan),
  parse_cidr-show_cidr lan (record { octets = ground arith; short = omega arith }),
)

abbrev pub config : Config
config = record {
  general = record {
    target_ssids = record { ssids = codes "cafe" ∷ [] };
    exclude_ssids = [];
    wg_interface = codes "wg0";
    nm_connection = none;
    monitor_interface = some (codes "wlan0");
    idle_timeout = 300;
    log_level = codes "info";
  };
  subnets = record { ranges = show_cidr lan ∷ [] };
}

abbrev pub controller : WgController
controller = record {
  interface = codes "wg0";
  nm_connection = none;
  last_rx_bytes = 0;
  last_tx_bytes = 0;
  last_activity = none;
}

abbrev pub daemon : Daemon world
daemon = record {
  wg_controller = controller;
  state_manager = record { state = active; idle_timeout = 300; on_monitored_ssid = true };
  monitor_iface = codes "wlan0";
  ranges = show_cidr lan ∷ [];
  ebpf_manager = record {
    ebpf = tt;
    interface = codes "wlan0";
    link_id = some 1;
    ringbuf = some 0;
  };
  route_manager = record { interface = codes "wlan0"; gateway = none; active_routes = [] };
  current_ssid = some (codes "cafe");
  retry_in_progress = false;
  retry_tasks = [];
  retry_senders = 0;
  state_queue = start_monitoring ∷ [];
  sys = [];
}
