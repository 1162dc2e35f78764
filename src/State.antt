-- ===== src/State.antt =====
-- wg-ondemand/src/state.rs: the state machine of the tunnel's lifecycle.
pub mod Told
pub mod Invariant
pub mod Diagram
pub mod Traces
use wg_ondemand.Base.{ℕ, Bool, true, false, List, [], ◌∷◌, if◌then◌else◌}
use wg_ondemand.Types.{TunnelState, inactive, monitoring, activating, active, deactivating}

pub data StateCommand : Type 0 where
  start_monitoring stop_monitoring traffic_detected tunnel_up tunnel_down : StateCommand
  idle_timeout_reached tunnel_already_up retry_ebpf_attachment : StateCommand

-- `no_action` is `StateAction::None`.
pub data StateAction : Type 0 where
  activate_tunnel deactivate_tunnel attach_ebpf detach_ebpf no_action : StateAction

pub StateCommand-discrete : Discrete StateCommand
StateCommand-discrete = hlevel

unfoldable pub StateAction-discrete : Discrete StateAction
StateAction-discrete = hlevel

-- `idle_timeout` is in whole seconds.
pub record StateManager : Type 0 where
  pub state : TunnelState
  pub idle_timeout : ℕ
  pub on_monitored_ssid : Bool

unfoldable pub new : ℕ → StateManager
new idle_timeout_secs = record {
  state = inactive;
  idle_timeout = idle_timeout_secs;
  on_monitored_ssid = false;
}

-- The `match` on state and command; the last clause is its `_`.
dispatch : TunnelState → StateCommand → StateManager → StateManager × StateAction
dispatch inactive start_monitoring m =
    (record m { state = monitoring; on_monitored_ssid = true }, attach_ebpf)
dispatch monitoring stop_monitoring m =
    (record m { state = inactive; on_monitored_ssid = false }, detach_ebpf)
dispatch active stop_monitoring m =
    (record m { state = deactivating; on_monitored_ssid = false }, deactivate_tunnel)
dispatch activating stop_monitoring m =
    (record m { state = inactive; on_monitored_ssid = false }, detach_ebpf)
dispatch monitoring traffic_detected m = (record m { state = activating }, activate_tunnel)
dispatch monitoring tunnel_already_up m = (record m { state = active }, no_action)
dispatch activating tunnel_up m = (record m { state = active }, detach_ebpf)
dispatch deactivating tunnel_down m =
    if m.on_monitored_ssid
    then (record m { state = monitoring }, attach_ebpf)
    else (record m { state = inactive }, detach_ebpf)
dispatch active idle_timeout_reached m = (record m { state = deactivating }, deactivate_tunnel)
dispatch monitoring retry_ebpf_attachment m = (m, attach_ebpf)
dispatch deactivating stop_monitoring m = (record m { on_monitored_ssid = false }, no_action)
dispatch activating traffic_detected m = (m, no_action)
dispatch deactivating traffic_detected m = (m, no_action)
dispatch active traffic_detected m = (m, no_action)
dispatch _ _ m = (m, no_action)

unfoldable pub handle_command : StateManager → StateCommand → StateManager × StateAction
unfolding dispatch
handle_command m cmd = dispatch m.state cmd m

-- The commands in the order of the channel, and the actions that they ask for.
unfoldable pub run : StateManager → List StateCommand → StateManager × List StateAction
run m [] = (m, [])
run m (cmd ∷ cmds) =
    let (m', action) = handle_command m cmd in
    let (m'', actions) = run m' cmds in (m'', action ∷ actions)
