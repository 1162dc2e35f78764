-- ===== src/Tests/Sequences.antt =====
-- The theorems on sequences of events, in the test world.
use wg_ondemand.Base.{
  ℕ, ◌*◌, ◌^◌, ◌-◌, ◌<◌, ◌≤◌, ◌≡◌, refl, ◌⊎◌, inl, inr, true, false, none, some, List, [], ◌∷◌,
  ◌++◌, map, suc, replicate, arith, ok,
}
use wg_ondemand.Base.Str.{codes}
use wg_ondemand.Types.{active, deactivating}
use wg_ondemand.Controller.{get_transfer_stats, sum_peers, bring_down}
use wg_ondemand.State.{StateCommand, start_monitoring, run}
use wg_ondemand.StateFile.{write_state}
use wg_ondemand.Ssid.{Bus, SsidMonitor, disconnected, is_connected_to_target, current_ssid}
use wg_ondemand.Ssid.Channel.{
  Network, Move, listening, signals, sends, receives, moves, move, heeded, pending, to_come,
}
use wg_ondemand.Daemon.{Daemon, running, send, on_network_event}
use wg_ondemand.Daemon.Loop.{
  Event, network, command, idle_tick, retry_wakes, step, steps, daemon_of,
}
use wg_ondemand.Daemon.Invariant.{Inv}
use wg_ondemand.Daemon.Trace.{received, hears, command_of, steps-run}
use wg_ondemand.Daemon.Grows.{heard}
use wg_ondemand.Daemon.Idle.{since, idle_deactivates}
use wg_ondemand.Daemon.Deadline.{TakesDown, deactivated_in_time}
use wg_ondemand.Daemon.Tasks.{tasks, disconnections, tasks_bounded}
use wg_ondemand.Daemon.Monitor.{networks, monitor_to_machine}
use wg_ondemand.Daemon.Leave.{AtRest, left, disconnect-AtRest}
use wg_ondemand.Tests.World.{logging, world, controller, daemon, on_cafe}

abbrev events : List (Event world.os.State)
events = command 5 ∷ network disconnected ∷ command 6 ∷ retry_wakes 0 ∷ []

steps-run_example :
    let d' = daemon_of (steps events daemon) in
    let cmds = received events daemon in
    (sent : List StateCommand) × (d'.state_manager ≡ (run daemon.state_manager cmds).0)
    × (cmds ++ d'.state_queue ≡ daemon.state_queue ++ sent)
    × (heard sent ≡ hears events daemon)
steps-run_example = steps-run events daemon

tasks_bounded_example : tasks (daemon_of (steps events daemon)) ≤ suc (disconnections events)
tasks_bounded_example = tasks_bounded events daemon refl

-- An active tunnel, used for the last time at 7.
abbrev idle : Daemon world
idle = record daemon {
  wg_controller = record controller { last_activity = some 7 };
  state_queue = [];
}

reads_zero : get_transfer_stats (world.device idle.sys) idle.wg_controller ≡ ok (0, 0)
unfolding get_transfer_stats sum_peers
reads_zero = refl

idle_deactivates_example :
    let d' = daemon_of (steps (idle_tick 8 (400 * 10 ^ 9) ∷ command 9 ∷ []) idle) in
    let time = 400 * 10 ^ 9 - since idle.wg_controller 0 0 8 7 in
    let s = (bring_down logging idle.wg_controller []).0 in
    ((300 * 10 ^ 9 < time)
      × (d'.state_manager.state ≡ deactivating)
      × (d'.sys ≡ (write_state world.files deactivating idle.current_ssid s).0))
    ⊎ ((time ≤ 300 * 10 ^ 9)
        × (d'.state_manager.state ≡ active)
        × (d'.sys ≡ [])
        × (d'.state_queue ≡ []))
idle_deactivates_example = idle_deactivates idle 0 0 8 (400 * 10 ^ 9) 9 7 refl refl reads_zero refl

-- Seven ticks, of which the last is the first one behind the timeout.
deactivated_in_time_example : (m : ℕ) × (m ≤ 6) × TakesDown 8 7 m idle
deactivated_in_time_example =
    deactivated_in_time 6 8 7 idle
      (record { on = refl; empty = refl; quiet = reads_zero; used = refl }) (omega arith)

idle-Inv : Inv 300 idle
idle-Inv = record {
  manager = record { agrees = refl; timeout_kept = refl };
  room = omega arith;
  clean = λ off. absurd (ground (arith, off));
}

taken_down : (bring_down logging idle.wg_controller []).1 ≡ ok tt
unfolding bring_down
taken_down = refl

disconnect-AtRest_example : AtRest (left 5 6 idle)
disconnect-AtRest_example =
    disconnect-AtRest 300 5 6 idle idle-Inv refl (λ e. ground (arith, e)) (λ on. taken_down)

-- NetworkManager without a connection, and the monitor that learns of it.
abbrev offline : Bus
offline = record on_cafe { primary_connection = ok (codes "/") }

abbrev monitor : SsidMonitor
monitor = record { target_ssids = codes "cafe" ∷ []; exclude_ssids = [] }

abbrev watched : Network
watched = record { task = listening true; network_queue = [] }

abbrev way : List Move
way = signals (record { checked = offline; named = offline }) ∷ sends ∷ receives ∷ []

abbrev unlinked : List (Event world.os.State)
unlinked = network disconnected ∷ []

abbrev after : Daemon world
after = daemon_of (steps unlinked daemon)

goes_on : steps unlinked daemon ≡ running after
unfolding steps step on_network_event send
goes_on = refl

handed_out : networks unlinked ≡ (moves monitor way watched).1
unfolding moves move is_connected_to_target current_ssid wg_ondemand.Base.text_eq
handed_out = refl

monitor_to_machine_example :
    let n' = (moves monitor way watched).0 in
    heard (received unlinked daemon ++ after.state_queue)
      ++ map command_of (n'.network_queue ++ pending n'.task)
    ≡ heard daemon.state_queue
      ++ map command_of ([] ++ to_come monitor (listening true) (heeded monitor way watched))
monitor_to_machine_example =
    monitor_to_machine monitor way watched unlinked daemon after goes_on handed_out

-- A full channel.
abbrev full : Daemon world
full = record idle { state_queue = replicate 32 start_monitoring }

-- The command makes room for one event, and the second one waits.
abbrev jam : List (Event world.os.State)
jam = command 5 ∷ network disconnected ∷ network disconnected ∷ []

abbrev jammed : Daemon world
jammed = daemon_of (steps jam full)
