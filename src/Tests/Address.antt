-- ===== src/Tests/Address.antt =====
-- A late address and a failed activation, in the desk's world.
use wg_ondemand.Base.{
  ◌≡◌, refl, true, false, none, some, List, [], ◌∷◌, ◌++◌, All, err, text_eq, command_failed, arith,
  inr,
}
use wg_ondemand.Base.Str.{codes, has}
use wg_ondemand.Base.Ipv4.{from_be_bytes}
use wg_ondemand.Types.{monitoring, activating, active, deactivating}
use wg_ondemand.Controller.{bring_up, bring_down, tunnel_command}
use wg_ondemand.Net.{get_interface_ip}
use wg_ondemand.State.{traffic_detected, stop_monitoring}
use wg_ondemand.Ssid.{connected_to_target}
use wg_ondemand.Daemon.{Daemon, local_address}
use wg_ondemand.StateFile.{write_state}
use wg_ondemand.Daemon.Loop.{
  Event, network, command, ebpf_tick, retry_wakes, retry_sends, system_changes, steps, daemon_of,
}
use wg_ondemand.Daemon.Late.{Arrived, late_address-Arrived}
use wg_ondemand.Daemon.Trap.{Own}
use wg_ondemand.Daemon.Stuck.{
  is_ignored, is_not_down, failed_activation_sticks, failed_deactivation_sticks,
}
use wg_ondemand.Tests.World.{lan-IsCidr, controller}
use wg_ondemand.Tests.Desk.{desk, desk_world, idle_desk, outside_lan}

abbrev gets_address : desk_world.os.State → desk_world.os.State
gets_address s = (true, s.1)

late_address-Arrived_example :
    let found = network (connected_to_target (codes "cafe")) ∷ command 5 ∷ [] in
    let es = system_changes gets_address ∷ retry_wakes 0 ∷ retry_sends ∷ command 6 ∷ [] in
    let s =
      gets_address
        (write_state desk_world.files monitoring (some (codes "cafe")) (false, none)).0 in
    Arrived (codes "cafe") s idle_desk (daemon_of (steps (found ++ es) idle_desk))
unfolding local_address get_interface_ip text_eq from_be_bytes
late_address-Arrived_example =
    late_address-Arrived (codes "cafe") 5 6 3232235781 gets_address idle_desk refl refl refl refl
      refl (lan-IsCidr, tt) refl (λ s. refl) (omega arith) outside_lan

-- Monitoring, with a tunnel of NetworkManager's, which does not come up.
abbrev watching : Daemon desk_world
watching = record idle_desk {
  wg_controller = record controller { nm_connection = some (codes "vpn") };
  state_manager = record { state = monitoring; idle_timeout = 300; on_monitored_ssid = true };
  state_queue = traffic_detected ∷ traffic_detected ∷ [];
}

abbrev more : List (Event desk_world.os.State)
more = command 6 ∷ ebpf_tick [] ∷ network (connected_to_target (codes "cafe")) ∷ command 7 ∷ []

fails : (bring_up desk watching.wg_controller watching.sys).1 ≡ err command_failed
unfolding bring_up text_eq tunnel_command
fails = refl

failed_activation_sticks_example :
    let d' = daemon_of (steps (command 5 ∷ more) watching) in
    (d'.state_manager.state ≡ activating) × All (Own is_ignored) d'.state_queue
failed_activation_sticks_example =
    failed_activation_sticks 5 command_failed watching (traffic_detected ∷ []) more refl refl
      (refl, tt) fails (tt, (tt, (refl, (tt, tt))))

-- Active, with a tunnel of wg-quick's, which does not go down.
abbrev connected : Daemon desk_world
connected = record watching {
  wg_controller = controller;
  state_manager = record { state = active; idle_timeout = 300; on_monitored_ssid = true };
  state_queue = stop_monitoring ∷ [];
}

stays_up : (bring_down desk controller (false, none)).1 ≡ err command_failed
unfolding bring_down text_eq tunnel_command has
stays_up = refl

failed_deactivation_sticks_example :
    let d' = daemon_of (steps (command 5 ∷ more) connected) in
    (d'.state_manager.state ≡ deactivating) × All (Own is_not_down) d'.state_queue
failed_deactivation_sticks_example =
    failed_deactivation_sticks 5 command_failed connected stop_monitoring [] more refl (inr refl)
      refl tt stays_up
