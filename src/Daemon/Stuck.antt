-- ===== src/Daemon/Stuck.antt =====
-- After a failed activation or deactivation: what takes the machine out of the state that it is
-- left in.
use wg_ondemand.Base.{ℕ, Error, ◌≡◌, ◌⊎◌, refl, Bool, true, false, List, [], ◌∷◌, All, arith, err}
use wg_ondemand.Types.{monitoring, activating, active, deactivating}
use wg_ondemand.Controller.{bring_up, bring_down}
use wg_ondemand.State.{
  StateCommand, stop_monitoring, traffic_detected, tunnel_up, tunnel_down, idle_timeout_reached,
  handle_command,
}
use wg_ondemand.Ssid.{connected_to_target, disconnected}
use wg_ondemand.Daemon.{
  World, Daemon, perform, handle, write_file, on_activate, on_deactivate, on_command,
}
use wg_ondemand.Daemon.Loop.{
  daemon_of, Event, network, command, contended_command, ebpf_tick, idle_tick, retry_wakes,
  retry_sends, system_changes, steps,
}
use wg_ondemand.Daemon.Trap.{Trap, Own, Allows, Stuck, then-Stuck}

-- What an activating machine passes over: all but `TunnelUp` and `StopMonitoring`.
abbrev pub is_ignored : StateCommand → Bool
is_ignored tunnel_up = false
is_ignored stop_monitoring = false
is_ignored _ = true

-- What leaves a deactivating machine so.
abbrev pub is_not_down : StateCommand → Bool
is_not_down tunnel_down = false
is_not_down _ = true

activating-Trap : Trap activating is_ignored
unfolding handle_command
activating-Trap = record {
  passes = λ m cmd at own. ground (arith, at, own);
  traffic = refl;
  retries = refl;
  not_active = refl;
}

deactivating-Trap : Trap deactivating is_not_down
unfolding handle_command
deactivating-Trap = record {
  passes = λ m cmd at own. ground (arith, at, own);
  traffic = refl;
  retries = refl;
  not_active = refl;
}

-- The network never tells that the tunnel is down.
network-Allows : {S : Type 0} (es : List (Event S)) → All (Allows is_not_down) es
network-Allows [] = tt
network-Allows (network (connected_to_target ssid) ∷ es) = (refl, network-Allows es)
network-Allows (network disconnected ∷ es) = (refl, network-Allows es)
network-Allows (command now ∷ es) = (tt, network-Allows es)
network-Allows (contended_command now ∷ es) = (tt, network-Allows es)
network-Allows (ebpf_tick entries ∷ es) = (tt, network-Allows es)
network-Allows (idle_tick checked now ∷ es) = (tt, network-Allows es)
network-Allows (retry_wakes n ∷ es) = (tt, network-Allows es)
network-Allows (retry_sends ∷ es) = (tt, network-Allows es)
network-Allows (system_changes change ∷ es) = (tt, network-Allows es)

module _ {W : World} where
  activation_fails :
      (t : ℕ) (e : Error) (d : Daemon W) (queue : List StateCommand)
      → d.state_manager.state ≡ monitoring
      → d.state_queue ≡ traffic_detected ∷ queue
      → All (Own is_ignored) queue
      → (bring_up W.os d.wg_controller d.sys).1 ≡ err e
      → Stuck activating is_ignored activating-Trap (daemon_of (on_command t d))
  unfolding on_command handle handle_command perform on_activate write_file
  activation_fails t e d queue watching waits own fails = record {
    still = ground (arith, watching, waits, fails);
    ignores = ground (arith, watching, waits, fails, own);
  }

  -- A Monitoring daemon takes a `TrafficDetected`, and the tunnel's command fails; no `TunnelUp` and
  -- no `StopMonitoring` waits behind it. Then, whatever events follow but a disconnection, up to the
  -- point where the loop blocks and there, the machine is Activating, and neither command waits:
  -- no traffic, idle tick or retry takes the machine out of this state.
  pub failed_activation_sticks :
      (t : ℕ) (e : Error) (d : Daemon W) (queue : List StateCommand) (es : List (Event W.os.State))
      → d.state_manager.state ≡ monitoring
      → d.state_queue ≡ traffic_detected ∷ queue
      → All (Own is_ignored) queue
      → (bring_up W.os d.wg_controller d.sys).1 ≡ err e
      → All (Allows is_ignored) es
      → let d' = daemon_of (steps (command t ∷ es) d) in
        (d'.state_manager.state ≡ activating) × All (Own is_ignored) d'.state_queue
  failed_activation_sticks t e d queue es watching waits own fails allowed =
      let first = activation_fails t e d queue watching waits own fails in
      let stuck = then-Stuck activating is_ignored activating-Trap t es d allowed first in
      (stuck.still, stuck.ignores)

  deactivation_fails :
      (t : ℕ) (e : Error) (d : Daemon W) (cmd : StateCommand) (queue : List StateCommand)
      → d.state_manager.state ≡ active
      → (cmd ≡ idle_timeout_reached) ⊎ (cmd ≡ stop_monitoring)
      → d.state_queue ≡ cmd ∷ queue
      → All (Own is_not_down) queue
      → (bring_down W.os d.wg_controller d.sys).1 ≡ err e
      → Stuck deactivating is_not_down deactivating-Trap (daemon_of (on_command t d))
  unfolding on_command handle handle_command perform on_deactivate write_file
  deactivation_fails t e d cmd queue on which waits own fails = record {
    still = ground (arith, on, which, waits, fails);
    ignores = ground (arith, on, which, waits, fails, own);
  }

  -- An Active daemon is told that the tunnel is idle or the network lost, and the command that
  -- takes the tunnel down fails; no `TunnelDown` waits. Then, whatever events follow, up to the
  -- point where the loop blocks and there, the machine is Deactivating, and no `TunnelDown` waits:
  -- no event takes it out of this state.
  pub failed_deactivation_sticks :
      (t : ℕ) (e : Error) (d : Daemon W) (cmd : StateCommand) (queue : List StateCommand)
      (es : List (Event W.os.State))
      → d.state_manager.state ≡ active
      → (cmd ≡ idle_timeout_reached) ⊎ (cmd ≡ stop_monitoring)
      → d.state_queue ≡ cmd ∷ queue
      → All (Own is_not_down) queue
      → (bring_down W.os d.wg_controller d.sys).1 ≡ err e
      → let d' = daemon_of (steps (command t ∷ es) d) in
        (d'.state_manager.state ≡ deactivating) × All (Own is_not_down) d'.state_queue
  failed_deactivation_sticks t e d cmd queue es on which waits own fails =
      let first = deactivation_fails t e d cmd queue on which waits own fails in
      let stuck =
        then-Stuck deactivating is_not_down deactivating-Trap t es d (network-Allows es) first in
      (stuck.still, stuck.ignores)
