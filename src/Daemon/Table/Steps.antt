-- ===== src/Daemon/Table/Steps.antt =====
-- The kernel's table of routes over every sequence of events.
use wg_ondemand.Base.{
  ℕ, suc, ◌==◌, ◌≡◌, refl, inl, inr, false, Option, none, some, List, [], ◌∷◌, All, List-cases,
  Bool-cases, arith, Text, length, is_some,
}
use wg_ondemand.Loader.{poll_events}
use wg_ondemand.Routes.Table.{RouteTable}
use wg_ondemand.Routes.Deletion.{Privileged, Deletes}
use wg_ondemand.State.{start_monitoring, stop_monitoring, traffic_detected, handle_command}
use wg_ondemand.Ssid.{NetworkEvent, connected_to_target, disconnected}
use wg_ondemand.Retry.{RetryTask}
use wg_ondemand.Daemon.{
  World, Daemon, Outcome, running, blocked, and_then, send, non_empty, perform, handle, write_file,
  on_network_event, on_command, on_ebpf_tick, poll_entries, idle_check, on_idle_tick,
}
use wg_ondemand.Daemon.Retries.{on_wake, on_retry_send, retry_sent, contended_by}
use wg_ondemand.Daemon.Loop.{
  daemon_of, Outcome-cases, Event, network, command, contended_command, ebpf_tick, idle_tick,
  retry_wakes, retry_sends, system_changes, step, steps, pick, task_wakes,
}
use wg_ondemand.Daemon.Table.{
  Neutral, Tabled, Apart, Apart-Tabled, Apart-refl, Apart-trans, send-Apart, sent-Apart,
  write_file-table, perform-Tabled,
}

module _ (W : World) (T : RouteTable W.os) (P : Privileged W.os T) (N : Neutral W T)
    (D : Deletes W.os T) where
  -- Nobody but the daemon changes the table.
  abbrev pub LeavesTable : Event W.os.State → Type 0
  LeavesTable (system_changes change) =
      (s : W.os.State) (r : Text) → T.present (change s) r ≡ T.present s r
  LeavesTable _ = Unit

  module _ (s₀ : W.os.State) where
    abbrev Good : Daemon W → Type 0
    Good d = Tabled W T P N D s₀ d

    abbrev Quiet : Daemon W → Daemon W → Type 0
    Quiet d d' = Apart W T P N D d d'

    written-Tabled :
        (o : Outcome W)
        → Good (daemon_of o)
        → Good (daemon_of (and_then o (λ d. running (write_file d))))
    unfolding write_file
    written-Tabled (running d) h =
        Apart-Tabled W T P N D s₀ d (write_file d)
          (record { routes = refl; ranges = refl; table = write_file-table W T P N D d }) h
    written-Tabled (blocked d) h = h

    on_command-Tabled : (now : ℕ) (d : Daemon W) → Good d → Good (daemon_of (on_command now d))
    unfolding on_command handle
    on_command-Tabled now d h = elim (List-cases d.state_queue) [
      | inl e ↦ rw (daemon_of, e) h
      | inr (cmd, queue, e) ↦
          let (m, action) = handle_command d.state_manager cmd in
          let d' : Daemon W = record d { state_queue = queue; state_manager = m } in
          let h' : Good d' = record {
            installed = h.installed;
            configured = h.configured;
            outside = h.outside;
            nothing_left = h.nothing_left;
          } in
          rw (daemon_of, e)
            (written-Tabled (perform action now d') (perform-Tabled W T P N D s₀ action now d' h'))
    ]

    on_network_event-Apart :
        (e : NetworkEvent) (d : Daemon W) → Quiet d (daemon_of (on_network_event e d))
    unfolding on_network_event
    on_network_event-Apart (connected_to_target ssid) d =
        sent-Apart W T P N D start_monitoring d (record d { current_ssid = non_empty ssid })
          (record { routes = refl; ranges = refl; table = λ r. refl })
    on_network_event-Apart disconnected d =
        sent-Apart W T P N D stop_monitoring d
          (record d { current_ssid = none; retry_in_progress = false })
          (record { routes = refl; ranges = refl; table = λ r. refl })

    poll_entries-Apart :
        (entries : List (List ℕ)) (d : Daemon W) → Quiet d (daemon_of (poll_entries entries d))
    unfolding poll_entries
    poll_entries-Apart [] d = Apart-refl W T P N D d
    poll_entries-Apart (entry ∷ rest) d =
        let sent = send-Apart W T P N D traffic_detected d in
        elim (Bool-cases (length entry == 16)) [
          | inr e ↦ rw e (poll_entries-Apart rest d)
          | inl e ↦ elim (Outcome-cases (send traffic_detected d)) [
            | inl (d', goes) ↦
                rw (e, goes)
                  (Apart-trans W T P N D d d' _ (rw (daemon_of, goes) at sent)
                    (poll_entries-Apart rest d'))
            | inr (d', stops) ↦ rw (e, stops) (rw (daemon_of, stops) at sent)
          ]
        ]

    on_ebpf_tick-Apart :
        (entries : List (List ℕ)) (d : Daemon W) → Quiet d (daemon_of (on_ebpf_tick entries d))
    unfolding on_ebpf_tick
    on_ebpf_tick-Apart entries d = elim (Bool-cases (is_some (poll_events W.aya d.ebpf_manager))) [
      | inl e ↦ rw e (poll_entries-Apart entries d)
      | inr e ↦ rw (daemon_of, e) (Apart-refl W T P N D d)
    ]

    on_idle_tick-Apart :
        (checked now : ℕ) (d : Daemon W) → Quiet d (daemon_of (on_idle_tick checked now d))
    unfolding on_idle_tick idle_check send
    on_idle_tick-Apart checked now d = record {
      routes = ground arith;
      ranges = ground arith;
      table = λ r. ground arith;
    }

    task_wakes-Apart :
        (woken : Option (RetryTask × List RetryTask)) (d : Daemon W) → Quiet d (task_wakes woken d)
    unfolding task_wakes on_wake
    task_wakes-Apart none d = Apart-refl W T P N D d
    task_wakes-Apart (some (t, others)) d = record {
      routes = ground arith;
      ranges = ground arith;
      table = λ r. ground arith;
    }

    on_retry_send-Apart : (d : Daemon W) → Quiet d (on_retry_send d)
    unfolding on_retry_send
    on_retry_send-Apart d = record {
      routes = ground arith;
      ranges = ground arith;
      table = λ r. ground arith;
    }

    retry_sent-Tabled :
        (waiting : ℕ) (d : Daemon W)
        → d.retry_senders ≡ suc waiting
        → Good d
        → Good (retry_sent waiting d)
    unfolding retry_sent
    retry_sent-Tabled waiting d waits h =
        Apart-Tabled W T P N D s₀ d (retry_sent waiting d)
          (record { routes = refl; ranges = refl; table = λ r. refl }) h

    step-Tabled :
        (e : Event W.os.State) (d : Daemon W) → LeavesTable e → Good d → Good (daemon_of (step e d))
    unfolding step
    step-Tabled (network e) d alone h = Apart-Tabled W T P N D s₀ d _ (on_network_event-Apart e d) h
    step-Tabled (command now) d alone h = on_command-Tabled now d h
    step-Tabled (contended_command now) d alone h =
        contended_by Good Good now (on_command-Tabled now) retry_sent-Tabled d h
    step-Tabled (ebpf_tick entries) d alone h =
        Apart-Tabled W T P N D s₀ d _ (on_ebpf_tick-Apart entries d) h
    step-Tabled (idle_tick checked now) d alone h =
        Apart-Tabled W T P N D s₀ d _ (on_idle_tick-Apart checked now d) h
    step-Tabled (retry_wakes n) d alone h =
        Apart-Tabled W T P N D s₀ d _ (task_wakes-Apart (pick n d.retry_tasks) d) h
    step-Tabled retry_sends d alone h = Apart-Tabled W T P N D s₀ d _ (on_retry_send-Apart d) h
    step-Tabled (system_changes change) d alone h =
        Apart-Tabled W T P N D s₀ d (record d { sys = change d.sys })
          (record { routes = refl; ranges = refl; table = λ r. alone d.sys r }) h

    pub steps-Tabled :
        (es : List (Event W.os.State)) (d : Daemon W)
        → All LeavesTable es
        → Good d
        → Good (daemon_of (steps es d))
    unfolding steps
    steps-Tabled [] d alone h = h
    steps-Tabled (e ∷ es) d (here, alone) h =
        let first = step-Tabled e d here h in
        elim (Outcome-cases (step e d)) [
          | inl (d', goes) ↦
              rw (daemon_of, goes) (steps-Tabled es d' alone (rw (daemon_of, goes) at first))
          | inr (d', stops) ↦ rw (daemon_of, stops) (rw (daemon_of, stops) at first)
        ]
