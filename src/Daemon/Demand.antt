-- ===== src/Daemon/Demand.antt =====
-- Why the tunnel is brought up: each activation has an entry of the ring buffer behind it.
use wg_ondemand.Base.{ℕ, ◌+◌, ◌≤◌, ◌≡◌, refl, ap, inl, inr, List, [], ◌∷◌, List-cases, arith, count}
use wg_ondemand.State.{StateAction, handle_command}
use wg_ondemand.State.Traces.{is_traffic, is_activate, step_traffic}
use wg_ondemand.Daemon.{World, Daemon, Outcome, running, blocked, on_command}
use wg_ondemand.Daemon.Retries.{on_contended_command, on_retry_send}
use wg_ondemand.Daemon.Loop.{
  daemon_of, Outcome-cases, Event, network, command, contended_command, ebpf_tick, idle_tick,
  retry_wakes, retry_sends, system_changes, step, pick,
}
use wg_ondemand.Daemon.Traffic.{
  is_event, traffic, handle-traffic, on_network_event-traffic, on_ebpf_tick-traffic,
  on_idle_tick-traffic, task_wakes-traffic, on_retry_send-traffic,
}

-- The entries of an event's size that the polls are given.
abbrev pub polled : {S : Type 0} → List (Event S) → ℕ
polled [] = 0
polled (ebpf_tick entries ∷ es) = count is_event entries + polled es
polled (_ ∷ es) = polled es

abbrev polled_by : {S : Type 0} → Event S → ℕ
polled_by (ebpf_tick entries) = count is_event entries
polled_by _ = 0

polled-cons :
    {S : Type 0} (e : Event S) (es : List (Event S)) → polled (e ∷ es) ≡ polled_by e + polled es
polled-cons (network e) es = omega arith
polled-cons (command now) es = omega arith
polled-cons (contended_command now) es = omega arith
polled-cons (ebpf_tick entries) es = refl
polled-cons (idle_tick checked now) es = omega arith
polled-cons (retry_wakes n) es = omega arith
polled-cons retry_sends es = omega arith
polled-cons (system_changes change) es = omega arith

module _ {W : World} where
  -- The action that a branch performs, if it takes a command.
  abbrev pub performed : Event W.os.State → Daemon W → List StateAction
  performed (command now) d = elim d.state_queue [
    | [] ↦ []
    | cmd ∷ queue ↦ (handle_command d.state_manager cmd).1 ∷ []
  ]
  performed (contended_command now) d = elim d.state_queue [
    | [] ↦ []
    | cmd ∷ queue ↦ (handle_command d.state_manager cmd).1 ∷ []
  ]
  performed _ d = []

  on_command-traffic :
      (now : ℕ) (d : Daemon W)
      → count is_activate (performed (command now) d) + traffic (daemon_of (on_command now d))
        ≤ traffic d
  unfolding on_command
  on_command-traffic now d = elim (List-cases d.state_queue) [
    | inl e ↦ rw (daemon_of, performed, e) (omega (arith, ap (λ q. count is_traffic q) e))
    | inr (cmd, queue, e) ↦
        rw (daemon_of, performed, e)
          (omega (
            arith,
            step_traffic d.state_manager cmd,
            handle-traffic cmd now (record d { state_queue = queue }),
          ))
  ]

  on_contended_command-traffic :
      (now : ℕ) (d : Daemon W)
      → count is_activate (performed (contended_command now) d)
          + traffic (daemon_of (on_contended_command now d))
        ≤ traffic d
  unfolding on_contended_command
  on_contended_command-traffic now d = elim (List-cases d.state_queue) [
    | inl e ↦ rw (daemon_of, performed, e) (omega (arith, ap (λ q. count is_traffic q) e))
    | inr (cmd, queue, e) ↦
        let popped : Daemon W = record d { state_queue = queue } in
        rw (daemon_of, performed, e)
          (omega (
            arith,
            step_traffic d.state_manager cmd,
            on_retry_send-traffic popped,
            handle-traffic cmd now (on_retry_send popped),
          ))
  ]

  step-traffic :
      (e : Event W.os.State) (d : Daemon W)
      → count is_activate (performed e d) + traffic (daemon_of (step e d)) ≤ traffic d + polled_by e
  unfolding step
  step-traffic (network e) d = omega (arith, on_network_event-traffic e d)
  step-traffic (command now) d = omega (arith, on_command-traffic now d)
  step-traffic (contended_command now) d = omega (arith, on_contended_command-traffic now d)
  step-traffic (ebpf_tick entries) d = omega (arith, on_ebpf_tick-traffic entries d)
  step-traffic (idle_tick checked now) d = omega (arith, on_idle_tick-traffic checked now d)
  step-traffic (retry_wakes n) d = omega (arith, task_wakes-traffic (pick n d.retry_tasks) d)
  step-traffic retry_sends d = omega (arith, on_retry_send-traffic d)
  step-traffic (system_changes change) d = omega arith

  abbrev go_on : Outcome W → (Daemon W → ℕ) → ℕ
  go_on (running d) f = f d
  go_on (blocked d) f = 0

  -- The activations that the loop performs, over some events.
  unfoldable pub activations : List (Event W.os.State) → Daemon W → ℕ
  activations [] d = 0
  activations (e ∷ es) d = count is_activate (performed e d) + go_on (step e d) (activations es)

  -- Whatever the events, and up to the point where the loop blocks: the loop performs an activation
  -- of the tunnel at most once for each `TrafficDetected` that waits at first and each entry of an
  -- event's size that a poll is given.
  pub activations-le-polled :
      (es : List (Event W.os.State)) (d : Daemon W)
      → activations es d ≤ count is_traffic d.state_queue + polled es
  unfolding activations
  activations-le-polled [] d = omega arith
  activations-le-polled (e ∷ es) d =
      let first = step-traffic e d in
      elim (Outcome-cases (step e d)) [
        | inl (d', goes) ↦
            let one : count is_activate (performed e d) + traffic d' ≤ traffic d + polled_by e =
              rw (daemon_of, goes) at first in
            rw (go_on, goes) (omega (arith, polled-cons e es, activations-le-polled es d'))
        | inr (d', stops) ↦
            let one : count is_activate (performed e d) + traffic d' ≤ traffic d + polled_by e =
              rw (daemon_of, stops) at first in
            rw (go_on, stops) (omega (arith, polled-cons e es))
      ]
