-- ===== src/Tests/Lifecycle.antt =====
-- The state machine's own tests, and its theorems at short runs.
use wg_ondemand.Base.{arith, ◌≡◌, refl, ◌↔◌, true, List, [], ◌∷◌, count}
use wg_ondemand.Types.{monitoring, inactive, activating, deactivating}
use wg_ondemand.State.{
  StateCommand, StateManager, start_monitoring, stop_monitoring, traffic_detected, tunnel_up,
  tunnel_down, idle_timeout_reached, detach_ebpf, attach_ebpf, activate_tunnel, deactivate_tunnel,
  new, run, handle_command,
}
use wg_ondemand.State.Diagram.{Edge, handle_command-Edge}
use wg_ondemand.State.Traces.{is_deactivate, abort_leaves_tunnel}

abbrev a_visit : List StateCommand
a_visit =
    start_monitoring ∷ traffic_detected ∷ tunnel_up ∷ idle_timeout_reached ∷ tunnel_down
    ∷ stop_monitoring ∷ []

a_visit_actions :
    (run (new 300) a_visit).1
    ≡ attach_ebpf ∷ activate_tunnel ∷ detach_ebpf ∷ deactivate_tunnel ∷ attach_ebpf ∷ detach_ebpf
      ∷ []
unfolding run handle_command new
a_visit_actions = refl

abbrev going_down : StateManager
going_down = record { state = deactivating; idle_timeout = 300; on_monitored_ssid = true }

handle_command-Edge_example : Edge deactivating tunnel_down true attach_ebpf monitoring ↔ (
    ((handle_command going_down tunnel_down).1 ≡ attach_ebpf)
    × ((handle_command going_down tunnel_down).0.state ≡ monitoring))
handle_command-Edge_example = handle_command-Edge going_down tunnel_down attach_ebpf monitoring

abbrev coming_up : StateManager
coming_up = record { state = activating; idle_timeout = 300; on_monitored_ssid = true }

abort_leaves_tunnel_example :
    let (m', actions) =
      run coming_up (stop_monitoring ∷ tunnel_up ∷ traffic_detected ∷ idle_timeout_reached ∷ []) in
    (m'.state ≡ inactive) × (count is_deactivate actions ≡ 0)
abort_leaves_tunnel_example =
    abort_leaves_tunnel coming_up (traffic_detected ∷ idle_timeout_reached ∷ []) refl
      ((λ e. absurd (ground (arith, e))), ((λ e. absurd (ground (arith, e))), tt))
