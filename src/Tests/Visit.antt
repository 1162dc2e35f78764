-- ===== src/Tests/Visit.antt =====
-- A network that is found, in the test world.
use wg_ondemand.Base.{
  ℕ, Error, ◌≡◌, refl, ◌⊎◌, true, false, none, some, [], Any, ok, err, arith, text_eq,
}
use wg_ondemand.Base.Str.{codes}
use wg_ondemand.Base.Ipv4.{from_be_bytes}
use wg_ondemand.Types.{inactive}
use wg_ondemand.Config.Subnets.{Covers}
use wg_ondemand.Routes.{add_routes}
use wg_ondemand.Net.{get_interface_ip}
use wg_ondemand.Daemon.{Daemon, local_address}
use wg_ondemand.Loader.Link.{Tried}
use wg_ondemand.Daemon.Join.{joined, Watches, Untouched, connect-Watches}
use wg_ondemand.Tests.World.{logging, program, world, lan-IsCidr, daemon}

abbrev waiting : Daemon world
waiting = record daemon {
  state_manager = record { state = inactive; idle_timeout = 300; on_monitored_ssid = false };
  current_ssid = none;
  state_queue = [];
}

connect-Watches_example :
    let d' = joined (codes "cafe") 5 waiting in
    Watches (codes "cafe") d'
    × (((e : Error) × (local_address waiting ≡ err e) × Untouched waiting d')
        ⊎ ((local_address waiting ≡ ok none) × Untouched waiting d' × (d'.retry_in_progress ≡ true))
        ⊎ ((ip : ℕ) × (local_address waiting ≡ ok (some ip))
            × Any (Covers ip) waiting.ranges
            × Untouched waiting d')
        ⊎ ((ip : ℕ) × (local_address waiting ≡ ok (some ip))
            × (¬ Any (Covers ip) waiting.ranges)
            × Tried program waiting.ebpf_manager d'.ebpf_manager
            × (d'.route_manager ≡ (add_routes logging waiting.ranges waiting.route_manager []).1)))
unfolding local_address get_interface_ip text_eq from_be_bytes
connect-Watches_example =
    connect-Watches (codes "cafe") 5 waiting refl refl (lan-IsCidr, tt) (λ ip e. ground (arith, e))
