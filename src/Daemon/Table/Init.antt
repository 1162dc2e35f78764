-- ===== src/Daemon/Table/Init.antt =====
-- The kernel's table of routes from the start of the daemon on.
use wg_ondemand.Base.{◌≡◌, []}
use wg_ondemand.Types.{Config}
use wg_ondemand.Routes as Routes
use wg_ondemand.Routes.Table.{RouteTable}
use wg_ondemand.Routes.Deletion.{Privileged, Deletes}
use wg_ondemand.Daemon.{World, Daemon}
use wg_ondemand.Daemon.Table.{Neutral}

module _ (W : World) (config : Config) (T : RouteTable W.os) (P : Privileged W.os T)
    (N : Neutral W T) (D : Deletes W.os T) where
  -- A daemon that has started has the configured ranges, and no active route.
  abbrev Fresh : Daemon W → Type 0
  Fresh d = (d.route_manager.active_routes ≡ []) × (d.ranges ≡ config.subnets.ranges)
