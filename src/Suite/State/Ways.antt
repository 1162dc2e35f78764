-- ===== src/Suite/State/Ways.antt =====
-- wg-ondemand/src/state.rs, `mod tests`: what is ignored, ways back, and the idle timeout.
use wg_ondemand.Base.{◌≡◌, refl, Bool, true, ◌&&◌, ◌==◌, [], ◌∷◌, all_pass}
use wg_ondemand.Types.{inactive, monitoring, activating, active, deactivating, TunnelState-discrete}
use wg_ondemand.Suite.State.{is_state, is_action}
use wg_ondemand.State.{
  StateManager, StateAction-discrete, start_monitoring, stop_monitoring, traffic_detected,
  tunnel_up, tunnel_down, idle_timeout_reached, deactivate_tunnel, attach_ebpf, detach_ebpf,
  no_action, new, handle_command,
}

abbrev pub test_tunnel_up_without_activation : Bool
test_tunnel_up_without_activation =
    let (m1, _) = handle_command (new 300) start_monitoring in
    let (m2, a2) = handle_command m1 tunnel_up in
    is_action a2 no_action && is_state m2.state monitoring

abbrev pub test_tunnel_down_while_monitoring : Bool
test_tunnel_down_while_monitoring =
    let (m1, _) = handle_command (new 300) start_monitoring in
    let (m2, a2) = handle_command m1 tunnel_down in
    is_action a2 no_action && is_state m2.state monitoring

abbrev pub test_tunnel_down_while_inactive : Bool
test_tunnel_down_while_inactive =
    let (m1, a1) = handle_command (new 300) tunnel_down in
    is_action a1 no_action && is_state m1.state inactive

abbrev pub test_deactivating_to_monitoring_transition : Bool
test_deactivating_to_monitoring_transition =
    let (m1, _) = handle_command (new 300) start_monitoring in
    let (m2, _) = handle_command m1 traffic_detected in
    let (m3, _) = handle_command m2 tunnel_up in
    let m4 : StateManager = record m3 { state = deactivating } in
    let (m5, a5) = handle_command m4 tunnel_down in
    is_action a5 attach_ebpf && is_state m5.state monitoring

abbrev pub test_stop_monitoring_while_activating : Bool
test_stop_monitoring_while_activating =
    let (m1, _) = handle_command (new 300) start_monitoring in
    let (m2, _) = handle_command m1 traffic_detected in
    let (m3, a3) = handle_command m2 stop_monitoring in
    is_state m2.state activating && (is_action a3 detach_ebpf && is_state m3.state inactive)

abbrev pub test_rapid_state_transitions : Bool
test_rapid_state_transitions =
    let (m1, _) = handle_command (new 300) start_monitoring in
    let (m2, _) = handle_command m1 traffic_detected in
    let (m3, a3) = handle_command m2 stop_monitoring in
    is_state m1.state monitoring
    && (is_state m2.state activating && (is_action a3 detach_ebpf && is_state m3.state inactive))

abbrev pub test_idle_timeout_getter : Bool
test_idle_timeout_getter = (new 600).idle_timeout == 600

abbrev pub test_state_getter : Bool
test_state_getter =
    let (m1, _) = handle_command (new 300) start_monitoring in
    is_state (new 300).state inactive && is_state m1.state monitoring

abbrev pub test_idle_timeout_deactivates_tunnel : Bool
test_idle_timeout_deactivates_tunnel =
    let (m1, _) = handle_command (new 300) start_monitoring in
    let (m2, _) = handle_command m1 traffic_detected in
    let (m3, _) = handle_command m2 tunnel_up in
    let (m4, a4) = handle_command m3 idle_timeout_reached in
    let (m5, a5) = handle_command m4 tunnel_down in
    is_state m3.state active
    && (is_action a4 deactivate_tunnel
        && (is_state m4.state deactivating
            && (is_action a5 attach_ebpf && is_state m5.state monitoring)))

abbrev pub test_idle_timeout_ignored_when_not_active : Bool
test_idle_timeout_ignored_when_not_active =
    let (m1, a1) = handle_command (new 300) idle_timeout_reached in
    let (m2, _) = handle_command m1 start_monitoring in
    let (m3, a3) = handle_command m2 idle_timeout_reached in
    let (m4, _) = handle_command m3 traffic_detected in
    let (m5, a5) = handle_command m4 idle_timeout_reached in
    is_action a1 no_action
    && (is_state m1.state inactive
        && (is_action a3 no_action
            && (is_state m3.state monitoring
                && (is_state m4.state activating
                    && (is_action a5 no_action && is_state m5.state activating)))))

-- All of them pass.
tests_pass :
    all_pass (
      test_tunnel_up_without_activation ∷ test_tunnel_down_while_monitoring
      ∷ test_tunnel_down_while_inactive ∷ test_deactivating_to_monitoring_transition
      ∷ test_stop_monitoring_while_activating ∷ test_rapid_state_transitions
      ∷ test_idle_timeout_getter ∷ test_state_getter ∷ test_idle_timeout_deactivates_tunnel
      ∷ test_idle_timeout_ignored_when_not_active ∷ [])
    ≡ true
unfolding handle_command new TunnelState-discrete StateAction-discrete mathlib.Core.Bool.decide
tests_pass = refl
