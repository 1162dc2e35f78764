-- ===== src/Daemon/Traffic.antt =====
-- How many `TrafficDetected` wait in the channel, over the branches of the loop.
use wg_ondemand.Base.{
  ℕ, ◌+◌, ◌==◌, ◌≤◌, ◌≡◌, refl, inl, inr, Bool, none, Option, some, List, [], ◌∷◌, ◌++◌, Bool-cases,
  Result-cases, arith, count, if◌then◌else◌, length, ltb, is_some,
}
use wg_ondemand.Controller.{bring_up, bring_down, reset_activity, check_activity}
use wg_ondemand.Loader.{poll_events}
use wg_ondemand.State.{
  StateCommand, StateAction, start_monitoring, stop_monitoring, traffic_detected, tunnel_up,
  tunnel_down, idle_timeout_reached, retry_ebpf_attachment, attach_ebpf, detach_ebpf,
  activate_tunnel, deactivate_tunnel, no_action, handle_command,
}
use wg_ondemand.State.Traces.{is_traffic}
use wg_ondemand.Ssid.{NetworkEvent, connected_to_target, disconnected}
use wg_ondemand.Retry.{RetryTask}
use wg_ondemand.Daemon.{
  World, Daemon, Outcome, running, blocked, and_then, send, perform, handle, on_detach, on_activate,
  on_deactivate, write_file, on_network_event, on_ebpf_tick, poll_entries, idle_check, on_idle_tick,
  size_of_traffic_event,
}
use wg_ondemand.Daemon.Retries.{on_wake, on_retry_send}
use wg_ondemand.Daemon.Loop.{daemon_of, Outcome-cases, task_wakes}
use wg_ondemand.Daemon.Invariant.{on_attach-frame}

abbrev pub is_event : List ℕ → Bool
is_event entry = length entry == size_of_traffic_event

count-append :
    (xs ys : List StateCommand)
    → count is_traffic (xs ++ ys) ≡ count is_traffic xs + count is_traffic ys
count-append [] ys = omega arith
count-append (x ∷ xs) ys = omega (arith, count-append xs ys)

module _ {W : World} where
  abbrev pub traffic : Daemon W → ℕ
  traffic d = count is_traffic d.state_queue

  send-traffic :
      (cmd : StateCommand) (d : Daemon W)
      → traffic (daemon_of (send cmd d)) ≤ traffic d + (if is_traffic cmd then 1 else 0)
  unfolding send
  send-traffic cmd d = elim (Bool-cases (ltb (length d.state_queue) 32)) [
    | inl lt ↦ rw (daemon_of, lt) (omega (arith, count-append d.state_queue (cmd ∷ [])))
    | inr ge ↦ rw (daemon_of, ge) (omega arith)
  ]

  on_activate-traffic :
      (now : ℕ) (d : Daemon W) → traffic (daemon_of (on_activate now d)) ≤ traffic d
  unfolding on_activate
  on_activate-traffic now d =
      let (s, r) = bring_up W.os d.wg_controller d.sys in
      let up : Daemon W = record d {
        sys = s;
        wg_controller = reset_activity d.wg_controller now;
      } in
      elim (Result-cases r) [
        | inl (_, e) ↦ rw (daemon_of, e) (omega (arith, send-traffic tunnel_up up))
        | inr (_, e) ↦ rw (daemon_of, e) (omega arith)
      ]

  on_deactivate-traffic : (d : Daemon W) → traffic (daemon_of (on_deactivate d)) ≤ traffic d
  unfolding on_deactivate
  on_deactivate-traffic d =
      let (s, r) = bring_down W.os d.wg_controller d.sys in
      let down : Daemon W = record d { sys = s } in
      elim (Result-cases r) [
        | inl (_, e) ↦ rw (daemon_of, e) (omega (arith, send-traffic tunnel_down down))
        | inr (_, e) ↦ rw (daemon_of, e) (omega arith)
      ]

  perform-traffic :
      (action : StateAction) (now : ℕ) (d : Daemon W)
      → traffic (daemon_of (perform action now d)) ≤ traffic d
  unfolding perform on_detach
  perform-traffic attach_ebpf now d = rw ((on_attach-frame d).1) (omega arith)
  perform-traffic detach_ebpf now d = omega arith
  perform-traffic activate_tunnel now d = on_activate-traffic now d
  perform-traffic deactivate_tunnel now d = on_deactivate-traffic d
  perform-traffic no_action now d = omega arith

  written-traffic :
      (o : Outcome W)
      → traffic (daemon_of (and_then o (λ d. running (write_file d)))) ≡ traffic (daemon_of o)
  unfolding write_file
  written-traffic (running d) = refl
  written-traffic (blocked d) = refl

  pub handle-traffic :
      (cmd : StateCommand) (now : ℕ) (d : Daemon W)
      → traffic (daemon_of (handle cmd now d)) ≤ traffic d
  unfolding handle
  handle-traffic cmd now d =
      let (m', action) = handle_command d.state_manager cmd in
      let d' : Daemon W = record d { state_manager = m' } in
      omega (arith, written-traffic (perform action now d'), perform-traffic action now d')

  pub on_network_event-traffic :
      (e : NetworkEvent) (d : Daemon W) → traffic (daemon_of (on_network_event e d)) ≤ traffic d
  unfolding on_network_event
  on_network_event-traffic (connected_to_target ssid) d =
      omega (arith, send-traffic start_monitoring _)
  on_network_event-traffic disconnected d = omega (arith, send-traffic stop_monitoring _)

  poll_entries-traffic :
      (entries : List (List ℕ)) (d : Daemon W)
      → traffic (daemon_of (poll_entries entries d)) ≤ traffic d + count is_event entries
  unfolding poll_entries
  poll_entries-traffic [] d = omega arith
  poll_entries-traffic (entry ∷ rest) d =
      let sent = send-traffic traffic_detected d in
      elim (Bool-cases (is_event entry)) [
        | inr e ↦ rw (e, poll_entries) (omega (arith, poll_entries-traffic rest d))
        | inl e ↦ elim (Outcome-cases (send traffic_detected d)) [
          | inl (d', goes) ↦
              let one : traffic d' ≤ traffic d + 1 = rw (daemon_of, goes) at sent in
              rw (e, goes) (omega (arith, poll_entries-traffic rest d'))
          | inr (d', stops) ↦
              let one : traffic d' ≤ traffic d + 1 = rw (daemon_of, stops) at sent in
              rw (e, stops) (omega arith)
        ]
      ]

  pub on_ebpf_tick-traffic :
      (entries : List (List ℕ)) (d : Daemon W)
      → traffic (daemon_of (on_ebpf_tick entries d)) ≤ traffic d + count is_event entries
  unfolding on_ebpf_tick
  on_ebpf_tick-traffic entries d = elim (Bool-cases (is_some (poll_events W.aya d.ebpf_manager))) [
    | inl e ↦ rw e (poll_entries-traffic entries d)
    | inr e ↦ rw (daemon_of, e) (omega arith)
  ]

  idle_check-traffic : (now : ℕ) (d : Daemon W) → traffic (daemon_of (idle_check now d)) ≤ traffic d
  unfolding idle_check
  idle_check-traffic now d = ground (arith, send-traffic idle_timeout_reached d)

  pub on_idle_tick-traffic :
      (checked now : ℕ) (d : Daemon W)
      → traffic (daemon_of (on_idle_tick checked now d)) ≤ traffic d
  unfolding on_idle_tick
  on_idle_tick-traffic checked now d = ground (
    arith,
    idle_check-traffic now
        (record d { wg_controller = (check_activity (W.device d.sys) d.wg_controller checked).0 }),
  )

  pub task_wakes-traffic :
      (woken : Option (RetryTask × List RetryTask)) (d : Daemon W)
      → traffic (task_wakes woken d) ≤ traffic d
  unfolding task_wakes on_wake
  task_wakes-traffic none d = omega arith
  task_wakes-traffic (some (t, others)) d = ground arith

  pub on_retry_send-traffic : (d : Daemon W) → traffic (on_retry_send d) ≤ traffic d
  unfolding on_retry_send
  on_retry_send-traffic d = ground (arith, count-append d.state_queue (retry_ebpf_attachment ∷ []))
