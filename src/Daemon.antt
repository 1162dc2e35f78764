-- ===== src/Daemon.antt =====
-- wg-ondemand/src/main.rs, `async_main`: the daemon's state, and the branches of its event loop.
-- The channel of commands is a queue of at most 32, of which the loop is the only receiver: a `send`
-- of the loop itself on a full channel never returns. Each branch is one step, up to its end or to
-- such a `send`: what others see while it waits for a program is not a state of the model.
pub mod Start
pub mod Retries
pub mod Loop
pub mod Shutdown
pub mod Invariant
pub mod Init
pub mod Poll
pub mod Actions
pub mod Packet
pub mod Frame
pub mod Grows
pub mod Trace
pub mod Idle
pub mod Deadline
pub mod Tasks
pub mod Monitor
pub mod Join
pub mod Leave
pub mod Full
pub mod Blocked
pub mod Hang
pub mod Exit
pub mod Report
pub mod Fixed
pub mod Filter
pub mod First
pub mod Table
pub mod Traffic
pub mod Demand
pub mod Trap
pub mod Tunnel
pub mod Stuck
pub mod Late
use wg_ondemand.Base.{
  ℕ, zero, suc, ◌+◌, ◌*◌, ◌^◌, Bool, true, false, Option, none, some, List, [], ◌∷◌, ◌++◌, Text,
  ltb, ◌==◌, is_empty, if◌then◌else◌, length, is_some, Result, ok, err,
}
use wg_ondemand.Types.{
  TunnelState, inactive, monitoring, activating, active, deactivating, is_active,
}
use wg_ondemand.Config.{ip_in_subnets}
use wg_ondemand.Os.{Os, Io, Output}
use wg_ondemand.Ebpf.Slots.{SubnetMap}
use wg_ondemand.Loader.{Aya, EbpfManager, attach, detach, poll_events, is_attached}
use wg_ondemand.Controller.{
  WgController, bring_up, bring_down, check_activity, idle_duration, reset_activity,
}
use wg_ondemand.Ssid.{Bus, NetworkEvent, connected_to_target, disconnected}
use wg_ondemand.Routes.{RouteManager, add_routes, remove_routes}
use wg_ondemand.State.{
  StateCommand, StateAction, StateManager, start_monitoring, stop_monitoring, traffic_detected,
  tunnel_up, tunnel_down, idle_timeout_reached, retry_ebpf_attachment, activate_tunnel,
  deactivate_tunnel, attach_ebpf, detach_ebpf, no_action, handle_command,
}
use wg_ondemand.StateFile.{Files, write_state, cleanup}
use wg_ondemand.Net.{Interface, get_interface_ip}
use wg_ondemand.Retry.{RetryTask, Wake, sends, sleeps, gives_up, spawned, wake}

-- What the daemon takes from outside: the system's commands, aya, the state file, the interfaces'
-- addresses, the kernel's counters of a WireGuard device, and the order in which a set is drained.
pub record World : Type 1 where
  pub os : Os
  pub subnet_map : SubnetMap
  pub aya : Aya subnet_map
  pub files : Files os.State
  pub get_if_addrs : os.State → Option (List Interface)
  pub device : os.State → Text → Result (List (ℕ × ℕ))
  pub drain : List Text → List Text
  -- Whether a path is there, the entries of /sys/class/net with whether each is wireless, and
  -- NetworkManager on the system bus, if it can be reached.
  pub path_exists : os.State → Text → Bool
  pub net_entries : os.State → Option (List (Text × Bool))
  pub system_bus : os.State → Option Bus

abbrev pub state_command_channel_size : ℕ
state_command_channel_size = 32

abbrev pub size_of_traffic_event : ℕ
size_of_traffic_event = 16

pub record Daemon (W : World) : Type 0 where
  pub wg_controller : WgController
  pub state_manager : StateManager
  pub monitor_iface : Text
  pub ranges : List Text
  pub ebpf_manager : EbpfManager W.aya
  pub route_manager : RouteManager
  pub current_ssid : Option Text
  pub retry_in_progress : Bool
  pub retry_tasks : List RetryTask
  pub retry_senders : ℕ
  pub state_queue : List StateCommand
  pub sys : W.os.State

-- A branch of the loop goes on, or never returns from a `send`.
pub data Outcome (W : World) : Type 0 where
  running : Daemon W → Outcome W
  blocked : Daemon W → Outcome W

abbrev pub and_then : {W : World} → Outcome W → (Daemon W → Outcome W) → Outcome W
and_then (running d) f = f d
and_then (blocked d) f = blocked d

abbrev pub non_empty : Text → Option Text
non_empty [] = none
non_empty (c ∷ s) = some (c ∷ s)

module _ {W : World} where
  unfoldable pub send : StateCommand → Daemon W → Outcome W
  send cmd d =
      if ltb (length d.state_queue) state_command_channel_size
      then running (record d { state_queue = d.state_queue ++ cmd ∷ [] })
      else blocked d

  -- `network_rx.recv()`
  unfoldable pub on_network_event : NetworkEvent → Daemon W → Outcome W
  on_network_event (connected_to_target ssid) d =
      send start_monitoring (record d { current_ssid = non_empty ssid })
  on_network_event disconnected d =
      send stop_monitoring (record d { current_ssid = none; retry_in_progress = false })

  unfoldable pub spawn_attachment_retry_task : Daemon W → Daemon W
  spawn_attachment_retry_task d =
      if d.retry_in_progress
      then d
      else record d { retry_in_progress = true; retry_tasks = spawned ∷ d.retry_tasks }

  unfoldable pub local_address : Daemon W → Result (Option ℕ)
  local_address d = get_interface_ip (W.get_if_addrs d.sys) d.monitor_iface

  -- The routes first, then the classifier; an error of either is only logged.
  unfoldable pub attach_with_routes : Daemon W → Daemon W
  attach_with_routes d =
      let (sys', routes', added) = add_routes W.os d.ranges d.route_manager d.sys in
      record d {
        sys = sys';
        route_manager = routes';
        ebpf_manager = (attach W.aya d.ebpf_manager).0;
      }

  attach_unless_conflict : Result Bool → Daemon W → Daemon W
  attach_unless_conflict (ok true) d = d
  attach_unless_conflict (ok false) d = attach_with_routes d
  attach_unless_conflict (err e) d = d

  attach_by_address : Result (Option ℕ) → Daemon W → Daemon W
  unfolding attach_unless_conflict
  attach_by_address (ok (some ip)) d = attach_unless_conflict (ip_in_subnets ip d.ranges) d
  attach_by_address (ok none) d = spawn_attachment_retry_task d
  attach_by_address (err e) d = d

  unfoldable pub on_attach : Daemon W → Daemon W
  unfolding attach_by_address
  on_attach d = attach_by_address (local_address d) d

  -- The classifier first, then the routes.
  unfoldable pub on_detach : Daemon W → Daemon W
  on_detach d =
      let (sys', routes') = remove_routes W.os W.drain d.route_manager d.sys in
      record d {
        sys = sys';
        route_manager = routes';
        ebpf_manager = (detach W.aya d.ebpf_manager).0;
      }

  -- `now` is the time at which the counters are reset.
  unfoldable pub on_activate : ℕ → Daemon W → Outcome W
  on_activate now d =
      let (sys', up) = bring_up W.os d.wg_controller d.sys in
      elim up [
        | ok _ ↦
            send tunnel_up
              (record d { sys = sys'; wg_controller = reset_activity d.wg_controller now })
        | err e ↦ running (record d { sys = sys' })
      ]

  unfoldable pub on_deactivate : Daemon W → Outcome W
  on_deactivate d =
      let (sys', down) = bring_down W.os d.wg_controller d.sys in
      elim down [
        | ok _ ↦ send tunnel_down (record d { sys = sys' })
        | err e ↦ running (record d { sys = sys' })
      ]

  unfoldable pub perform : StateAction → ℕ → Daemon W → Outcome W
  perform attach_ebpf now d = running (on_attach d)
  perform detach_ebpf now d = running (on_detach d)
  perform activate_tunnel now d = on_activate now d
  perform deactivate_tunnel now d = on_deactivate d
  perform no_action now d = running d

  unfoldable pub write_file : Daemon W → Daemon W
  write_file d = record d {
    sys = (write_state W.files d.state_manager.state d.current_ssid d.sys).0;
  }

  unfoldable pub handle : StateCommand → ℕ → Daemon W → Outcome W
  handle cmd now d =
      let (manager', action) = handle_command d.state_manager cmd in
      and_then (perform action now (record d { state_manager = manager' }))
        (λ d'. running (write_file d'))

  -- `state_rx.recv()`: with nothing to receive, the branch is not taken.
  unfoldable pub on_command : ℕ → Daemon W → Outcome W
  on_command now d = elim d.state_queue [
    | [] ↦ running d
    | cmd ∷ queue ↦ handle cmd now (record d { state_queue = queue })
  ]

  -- `while let Some(data) = rb.next()`, over the entries that the ring buffer gives.
  unfoldable pub poll_entries : List (List ℕ) → Daemon W → Outcome W
  poll_entries [] d = running d
  poll_entries (entry ∷ rest) d =
      if length entry == size_of_traffic_event
      then and_then (send traffic_detected d) (poll_entries rest)
      else poll_entries rest d

  -- `ebpf_timer.tick()`
  unfoldable pub on_ebpf_tick : List (List ℕ) → Daemon W → Outcome W
  on_ebpf_tick entries d =
      if is_some (poll_events W.aya d.ebpf_manager) then poll_entries entries d else running d

  -- The comparison with the timeout; durations are in nanoseconds.
  idle_check : ℕ → Daemon W → Outcome W
  idle_check now d = elim (idle_duration d.wg_controller now) [
    | none ↦ running d
    | some idle ↦
        if ltb (d.state_manager.idle_timeout * 10 ^ 9) idle
        then send idle_timeout_reached d
        else running d
  ]

  -- `idle_timer.tick()`: the counters are read at `checked`, the idle time at `now`. An error of the
  -- first is only logged.
  unfoldable pub on_idle_tick : ℕ → ℕ → Daemon W → Outcome W
  unfolding idle_check
  on_idle_tick checked now d =
      if is_active d.state_manager.state
      then idle_check now
          (record d { wg_controller = (check_activity (W.device d.sys) d.wg_controller checked).0 })
      else running d
