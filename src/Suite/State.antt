-- ===== src/Suite/State.antt =====
-- wg-ondemand/src/state.rs, `mod tests`: the steps of the machine, assertion by assertion.
mod Ways
use mathlib.Core.Bool.{decide}
use wg_ondemand.Base.{◌≡◌, refl, Bool, true, ◌&&◌, ◌==◌, List, [], ◌∷◌, all_pass}
use wg_ondemand.Types.{
  TunnelState, inactive, monitoring, activating, active, deactivating, TunnelState-discrete,
}
use wg_ondemand.State.{
  StateManager, StateAction, StateAction-discrete, start_monitoring, stop_monitoring,
  traffic_detected, tunnel_up, tunnel_down, idle_timeout_reached, activate_tunnel,
  deactivate_tunnel, attach_ebpf, detach_ebpf, no_action, new, handle_command,
}

-- `assert_eq!` of two states, and of two actions.
abbrev pub is_state : TunnelState → TunnelState → Bool
is_state s t = decide (TunnelState-discrete s t)

abbrev pub is_action : StateAction → StateAction → Bool
is_action a b = decide (StateAction-discrete a b)

abbrev pub test_initial_state : Bool
test_initial_state = is_state (new 300).state inactive

abbrev pub test_start_monitoring : Bool
test_start_monitoring =
    let (m1, a1) = handle_command (new 300) start_monitoring in
    is_action a1 attach_ebpf && is_state m1.state monitoring

abbrev pub test_traffic_activates_tunnel : Bool
test_traffic_activates_tunnel =
    let (m1, _) = handle_command (new 300) start_monitoring in
    let (m2, a2) = handle_command m1 traffic_detected in
    is_action a2 activate_tunnel && is_state m2.state activating

abbrev pub test_tunnel_activation_flow : Bool
test_tunnel_activation_flow =
    let (m1, _) = handle_command (new 300) start_monitoring in
    let (m2, _) = handle_command m1 traffic_detected in
    let (m3, a3) = handle_command m2 tunnel_up in
    is_state m1.state monitoring
    && (is_state m2.state activating && (is_action a3 detach_ebpf && is_state m3.state active))

abbrev pub test_stop_monitoring_while_active : Bool
test_stop_monitoring_while_active =
    let (m1, _) = handle_command (new 300) start_monitoring in
    let (m2, _) = handle_command m1 traffic_detected in
    let (m3, _) = handle_command m2 tunnel_up in
    let (m4, a4) = handle_command m3 stop_monitoring in
    is_action a4 deactivate_tunnel && is_state m4.state deactivating

abbrev pub test_multiple_start_monitoring_calls : Bool
test_multiple_start_monitoring_calls =
    let (m1, a1) = handle_command (new 300) start_monitoring in
    let (m2, a2) = handle_command m1 start_monitoring in
    is_action a1 attach_ebpf
    && (is_state m1.state monitoring && (is_action a2 no_action && is_state m2.state monitoring))

abbrev pub test_stop_monitoring_from_inactive : Bool
test_stop_monitoring_from_inactive =
    let (m1, a1) = handle_command (new 300) stop_monitoring in
    is_action a1 no_action && is_state m1.state inactive

abbrev pub test_traffic_detected_while_inactive : Bool
test_traffic_detected_while_inactive =
    let (m1, a1) = handle_command (new 300) traffic_detected in
    is_action a1 no_action && is_state m1.state inactive

abbrev pub test_traffic_detected_while_active : Bool
test_traffic_detected_while_active =
    let (m1, _) = handle_command (new 300) start_monitoring in
    let (m2, _) = handle_command m1 traffic_detected in
    let (m3, _) = handle_command m2 tunnel_up in
    let (m4, a4) = handle_command m3 traffic_detected in
    is_action a4 no_action && is_state m4.state active

abbrev pub test_traffic_detected_while_activating : Bool
test_traffic_detected_while_activating =
    let (m1, _) = handle_command (new 300) start_monitoring in
    let (m2, _) = handle_command m1 traffic_detected in
    let (m3, a3) = handle_command m2 traffic_detected in
    is_state m2.state activating && (is_action a3 no_action && is_state m3.state activating)

abbrev pub test_traffic_detected_while_deactivating : Bool
test_traffic_detected_while_deactivating =
    let m1 : StateManager = record (new 300) { state = deactivating } in
    let (m2, a2) = handle_command m1 traffic_detected in
    is_action a2 no_action && is_state m2.state deactivating

-- All of them pass.
tests_pass :
    all_pass (
      test_initial_state ∷ test_start_monitoring ∷ test_traffic_activates_tunnel
      ∷ test_tunnel_activation_flow ∷ test_stop_monitoring_while_active
      ∷ test_multiple_start_monitoring_calls ∷ test_stop_monitoring_from_inactive
      ∷ test_traffic_detected_while_inactive ∷ test_traffic_detected_while_active
      ∷ test_traffic_detected_while_activating ∷ test_traffic_detected_while_deactivating ∷ [])
    ≡ true
unfolding handle_command new TunnelState-discrete StateAction-discrete decide
tests_pass = refl
