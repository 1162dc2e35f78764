-- ===== src/Daemon/Trap.antt =====
-- States that only some commands end: a machine in one, of whose commands none waits or is sent,
-- stays.
use wg_ondemand.Base.{
  ℕ, suc, ap, ◌∙◌, ◌==◌, ◌≡◌, refl, inl, inr, Bool, true, false, Option, none, some, List, [], ◌∷◌,
  All, All-append, List-cases, Bool-cases, arith, length, ltb, is_some,
}
use wg_ondemand.Types.{TunnelState, is_active}
use wg_ondemand.Daemon.Trace.{command_of}
use wg_ondemand.Loader.{poll_events}
use wg_ondemand.State.{
  StateCommand, start_monitoring, stop_monitoring, traffic_detected, retry_ebpf_attachment,
  handle_command, StateManager, no_action,
}
use wg_ondemand.Ssid.{connected_to_target, disconnected}
use wg_ondemand.Retry.{RetryTask}
use wg_ondemand.Daemon.{
  World, Daemon, running, send, non_empty, perform, handle, write_file, on_network_event,
  on_command, on_ebpf_tick, poll_entries, on_idle_tick,
}
use wg_ondemand.Daemon.Retries.{on_wake, on_retry_send, retry_sent, contended_by}
use wg_ondemand.Daemon.Loop.{
  daemon_of, Outcome-cases, Event, network, command, contended_command, ebpf_tick, idle_tick,
  retry_wakes, retry_sends, system_changes, step, steps, pick, task_wakes,
}

-- A state that lets commands of its own pass: they ask for nothing, and leave it as it is.
pub record Trap (state : TunnelState) (own : StateCommand → Bool) : Type 0 where
  pub passes :
      (m : StateManager) (cmd : StateCommand)
      → m.state ≡ state
      → own cmd ≡ true
      → ((handle_command m cmd).1 ≡ no_action) × ((handle_command m cmd).0.state ≡ state)
  pub traffic : own traffic_detected ≡ true
  pub retries : own retry_ebpf_attachment ≡ true
  pub not_active : is_active state ≡ false

-- A command that the state lets pass.
abbrev pub Own : (StateCommand → Bool) → StateCommand → Type 0
Own own cmd = own cmd ≡ true

-- The network asks for one of these commands at most.
abbrev pub Allows : {S : Type 0} → (StateCommand → Bool) → Event S → Type 0
Allows own (network e) = own (command_of e) ≡ true
Allows own _ = Unit

module _ {W : World} (state : TunnelState) (own : StateCommand → Bool) (T : Trap state own) where
  pub record Stuck (d : Daemon W) : Type 0 where
    pub still : d.state_manager.state ≡ state
    pub ignores : All (Own own) d.state_queue

  send-Stuck :
      (cmd : StateCommand) (d : Daemon W)
      → own cmd ≡ true
      → Stuck d
      → Stuck (daemon_of (send cmd d))
  unfolding send
  send-Stuck cmd d passes h = elim (Bool-cases (ltb (length d.state_queue) 32)) [
    | inl lt ↦
        rw (daemon_of, lt)
          (record {
            still = h.still;
            ignores = All-append (Own own) d.state_queue (cmd ∷ []) h.ignores (passes, tt);
          })
    | inr ge ↦ rw (daemon_of, ge) h
  ]

  -- A command of its own writes the state file again, and asks for nothing.
  handle_own :
      (cmd : StateCommand) (now : ℕ) (d : Daemon W)
      → (handle_command d.state_manager cmd).1 ≡ no_action
      → handle cmd now d
        ≡ running (write_file (record d { state_manager = (handle_command d.state_manager cmd).0 }))
  unfolding handle perform
  handle_own cmd now d nothing = rw (handle, nothing) refl

  on_command-Stuck : (now : ℕ) (d : Daemon W) → Stuck d → Stuck (daemon_of (on_command now d))
  unfolding on_command write_file
  on_command-Stuck now d h = elim (List-cases d.state_queue) [
    | inl e ↦ rw (daemon_of, e) h
    | inr (cmd, queue, e) ↦
        let (here, rest) : Own own cmd × All (Own own) queue = rw e at h.ignores in
        let (nothing, stays) = T.passes d.state_manager cmd h.still here in
        let done = handle_own cmd now (record d { state_queue = queue }) nothing in
        rw (daemon_of, e, done) (record { still = stays; ignores = rest })
  ]

  retry_sent-Stuck :
      (waiting : ℕ) (d : Daemon W)
      → d.retry_senders ≡ suc waiting
      → Stuck d
      → Stuck (retry_sent waiting d)
  unfolding retry_sent
  retry_sent-Stuck waiting d waits h = record {
    still = h.still;
    ignores =
        All-append (Own own) d.state_queue (retry_ebpf_attachment ∷ []) h.ignores (T.retries, tt);
  }

  poll_entries-Stuck :
      (entries : List (List ℕ)) (d : Daemon W)
      → Stuck d
      → Stuck (daemon_of (poll_entries entries d))
  unfolding poll_entries
  poll_entries-Stuck [] d h = h
  poll_entries-Stuck (entry ∷ rest) d h =
      let sent = send-Stuck traffic_detected d T.traffic h in
      elim (Bool-cases (length entry == 16)) [
        | inr e ↦ rw e (poll_entries-Stuck rest d h)
        | inl e ↦ elim (Outcome-cases (send traffic_detected d)) [
          | inl (d', goes) ↦
              rw (e, daemon_of, goes) (poll_entries-Stuck rest d' (rw (daemon_of, goes) at sent))
          | inr (d', stops) ↦ rw (e, daemon_of, stops) (rw (daemon_of, stops) at sent)
        ]
      ]

  on_ebpf_tick-Stuck :
      (entries : List (List ℕ)) (d : Daemon W)
      → Stuck d
      → Stuck (daemon_of (on_ebpf_tick entries d))
  unfolding on_ebpf_tick
  on_ebpf_tick-Stuck entries d h = elim (Bool-cases (is_some (poll_events W.aya d.ebpf_manager))) [
    | inl e ↦ rw e (poll_entries-Stuck entries d h)
    | inr e ↦ rw (daemon_of, e) h
  ]

  -- An idle tick asks for an active machine.
  on_idle_tick-Stuck :
      (checked now : ℕ) (d : Daemon W) → Stuck d → Stuck (daemon_of (on_idle_tick checked now d))
  unfolding on_idle_tick
  on_idle_tick-Stuck checked now d h =
      let e : is_active d.state_manager.state ≡ false = ap is_active h.still ∙ T.not_active in
      rw (daemon_of, e) h

  task_wakes-Stuck :
      (woken : Option (RetryTask × List RetryTask)) (d : Daemon W)
      → Stuck d
      → Stuck (task_wakes woken d)
  unfolding task_wakes on_wake
  task_wakes-Stuck none d h = h
  task_wakes-Stuck (some (t, others)) d h = ground (arith, h)

  on_retry_send-Stuck : (d : Daemon W) → Stuck d → Stuck (on_retry_send d)
  unfolding on_retry_send
  on_retry_send-Stuck d h = ground (
    arith,
    h,
    All-append (Own own) d.state_queue (retry_ebpf_attachment ∷ []) h.ignores (T.retries, tt),
  )

  step-Stuck :
      (e : Event W.os.State) (d : Daemon W) → Allows own e → Stuck d → Stuck (daemon_of (step e d))
  unfolding step on_network_event
  step-Stuck (network (connected_to_target ssid)) d allowed h =
      send-Stuck start_monitoring (record d { current_ssid = non_empty ssid }) allowed
        (record { still = h.still; ignores = h.ignores })
  step-Stuck (network disconnected) d allowed h =
      send-Stuck stop_monitoring (record d { current_ssid = none; retry_in_progress = false })
        allowed (record { still = h.still; ignores = h.ignores })
  step-Stuck (command now) d allowed h = on_command-Stuck now d h
  step-Stuck (contended_command now) d allowed h =
      contended_by Stuck Stuck now (on_command-Stuck now) retry_sent-Stuck d h
  step-Stuck (ebpf_tick entries) d allowed h = on_ebpf_tick-Stuck entries d h
  step-Stuck (idle_tick checked now) d allowed h = on_idle_tick-Stuck checked now d h
  step-Stuck (retry_wakes n) d allowed h = task_wakes-Stuck (pick n d.retry_tasks) d h
  step-Stuck retry_sends d allowed h = on_retry_send-Stuck d h
  step-Stuck (system_changes change) d allowed h = record { still = h.still; ignores = h.ignores }

  steps-Stuck :
      (es : List (Event W.os.State)) (d : Daemon W)
      → All (Allows own) es
      → Stuck d
      → Stuck (daemon_of (steps es d))
  unfolding steps
  steps-Stuck [] d allowed h = h
  steps-Stuck (e ∷ es) d (allow, allowed) h =
      let first = step-Stuck e d allow h in
      elim (Outcome-cases (step e d)) [
        | inl (d', goes) ↦
            rw (daemon_of, goes) (steps-Stuck es d' allowed (rw (daemon_of, goes) at first))
        | inr (d', stops) ↦ rw (daemon_of, stops) (rw (daemon_of, stops) at first)
      ]

  -- Stuck after a command, whatever allowed events follow.
  pub then-Stuck :
      (t : ℕ) (es : List (Event W.os.State)) (d : Daemon W)
      → All (Allows own) es
      → Stuck (daemon_of (on_command t d))
      → Stuck (daemon_of (steps (command t ∷ es) d))
  unfolding steps step
  then-Stuck t es d allowed first = elim (Outcome-cases (on_command t d)) [
    | inl (d', goes) ↦
        rw (daemon_of, goes) (steps-Stuck es d' allowed (rw (daemon_of, goes) at first))
    | inr (d', stops) ↦ rw (daemon_of, stops) (rw (daemon_of, stops) at first)
  ]
