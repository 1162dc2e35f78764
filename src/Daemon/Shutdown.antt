-- ===== src/Daemon/Shutdown.antt =====
-- wg-ondemand/src/main.rs, `graceful_shutdown`: the way out of the main loop after a signal.
use wg_ondemand.Base.{Bool, true, false, if◌then◌else◌}
use wg_ondemand.Types.{TunnelState, active, activating}
use wg_ondemand.Loader.{detach, is_attached}
use wg_ondemand.Controller.{bring_down}
use wg_ondemand.StateFile.{cleanup}
use wg_ondemand.Daemon.{World, Daemon}

abbrev pub needs_down : TunnelState → Bool
needs_down active = true
needs_down activating = true
needs_down _ = false

module _ {W : World} where
  unfoldable pub detach_if_attached : Daemon W → Daemon W
  detach_if_attached d =
      if is_attached W.aya d.ebpf_manager
      then record d { ebpf_manager = (detach W.aya d.ebpf_manager).0 }
      else d

  unfoldable pub graceful_shutdown : Daemon W → Daemon W
  unfolding detach_if_attached
  graceful_shutdown d =
      let d' = detach_if_attached d in
      if needs_down d.state_manager.state
      then record d' { sys = (bring_down W.os d'.wg_controller d'.sys).0 }
      else d'

  -- The way out of the loop after a signal.
  unfoldable pub on_signal : Daemon W → Daemon W
  on_signal d = graceful_shutdown (record d { sys = cleanup W.files d.sys })
