-- ===== src/Daemon/Tunnel/Steps.antt =====
-- The machine's state and the waiting commands are right about the tunnel, over every event.
use wg_ondemand.Base.{
  ℕ, suc, ◌==◌, ◌≡◌, refl, ◌∙◌, inl, inr, true, false, Option, none, some, List, [], ◌∷◌, All,
  Bool-cases, Option-cases, arith, Text, length, ltb, is_some, Result, ◌*◌, ◌^◌,
}
use wg_ondemand.Types.{is_active}
use wg_ondemand.Controller.{WgController, check_activity, idle_duration, tunnel_command}
use wg_ondemand.Base.Str.{codes}
use wg_ondemand.Loader.{poll_events}
use wg_ondemand.Retry.{RetryTask}
use wg_ondemand.Ssid.{NetworkEvent, connected_to_target, disconnected}
use wg_ondemand.State.{
  start_monitoring, stop_monitoring, traffic_detected, idle_timeout_reached, retry_ebpf_attachment,
}
use wg_ondemand.State.Told.{agrees-append, agrees-raised}
use wg_ondemand.Daemon.{
  World, Daemon, send, on_network_event, on_ebpf_tick, poll_entries, idle_check, on_idle_tick,
  non_empty,
}
use wg_ondemand.Daemon.Retries.{on_wake, on_retry_send, retry_sent, contended_by}
use wg_ondemand.Daemon.Loop.{
  daemon_of, Outcome-cases, Event, network, command, contended_command, ebpf_tick, idle_tick,
  retry_wakes, retry_sends, system_changes, step, steps, pick, task_wakes,
}
use wg_ondemand.Daemon.Tunnel.{Tunnel, Right, Aside-Right, send-Right}
use wg_ondemand.Daemon.Tunnel.Commands.{on_command-Right}

-- The counters do not name the tunnel.
check_activity_same :
    (device : Text → Result (List (ℕ × ℕ))) (c : WgController) (now : ℕ)
    → tunnel_command (codes "up") (check_activity device c now).0 ≡ tunnel_command (codes "up") c
unfolding check_activity tunnel_command
check_activity_same device c now = ground arith

module _ (W : World) (c : WgController) (T : Tunnel W c) where
  -- Nobody but the daemon takes the tunnel down.
  abbrev pub LeavesTunnel : Event W.os.State → Type 0
  LeavesTunnel (system_changes change) =
      (s : W.os.State) → T.is_on s ≡ true → T.is_on (change s) ≡ true
  LeavesTunnel _ = Unit

  abbrev Good : Daemon W → Type 0
  Good d = Right W c T d

  on_network_event-Right :
      (e : NetworkEvent) (d : Daemon W) → Good d → Good (daemon_of (on_network_event e d))
  unfolding on_network_event
  on_network_event-Right (connected_to_target ssid) d h =
      send-Right W c T start_monitoring (record d { current_ssid = non_empty ssid }) refl refl
        (record { own = h.own; agree = h.agree })
  on_network_event-Right disconnected d h =
      send-Right W c T stop_monitoring (record d { current_ssid = none; retry_in_progress = false })
        refl refl (record { own = h.own; agree = h.agree })

  poll_entries-Right :
      (entries : List (List ℕ)) (d : Daemon W) → Good d → Good (daemon_of (poll_entries entries d))
  unfolding poll_entries
  poll_entries-Right [] d h = h
  poll_entries-Right (entry ∷ rest) d h =
      let sent = send-Right W c T traffic_detected d refl refl h in
      elim (Bool-cases (length entry == 16)) [
        | inr e ↦ rw e (poll_entries-Right rest d h)
        | inl e ↦ elim (Outcome-cases (send traffic_detected d)) [
          | inl (d', goes) ↦
              rw (e, daemon_of, goes) (poll_entries-Right rest d' (rw (daemon_of, goes) at sent))
          | inr (d', stops) ↦ rw (e, daemon_of, stops) (rw (daemon_of, stops) at sent)
        ]
      ]

  on_ebpf_tick-Right :
      (entries : List (List ℕ)) (d : Daemon W) → Good d → Good (daemon_of (on_ebpf_tick entries d))
  unfolding on_ebpf_tick
  on_ebpf_tick-Right entries d h = elim (Bool-cases (is_some (poll_events W.aya d.ebpf_manager))) [
    | inl e ↦ rw e (poll_entries-Right entries d h)
    | inr e ↦ rw (daemon_of, e) h
  ]

  idle_check-Right : (now : ℕ) (d : Daemon W) → Good d → Good (daemon_of (idle_check now d))
  unfolding idle_check
  idle_check-Right now d h = elim (Option-cases (idle_duration d.wg_controller now)) [
    | inl e ↦ rw (daemon_of, e) h
    | inr (idle, e) ↦ elim (Bool-cases (ltb (d.state_manager.idle_timeout * 10 ^ 9) idle)) [
      | inl over ↦ rw (daemon_of, e, over) (send-Right W c T idle_timeout_reached d refl refl h)
      | inr within ↦ rw (daemon_of, e, within) h
    ]
  ]

  on_idle_tick-Right :
      (checked now : ℕ) (d : Daemon W) → Good d → Good (daemon_of (on_idle_tick checked now d))
  unfolding on_idle_tick
  on_idle_tick-Right checked now d h = elim (Bool-cases (is_active d.state_manager.state)) [
    | inl e ↦
        rw (daemon_of, e)
          (idle_check-Right now _ (record {
            own = check_activity_same (W.device d.sys) d.wg_controller checked ∙ h.own;
            agree = h.agree;
          }))
    | inr e ↦ rw (daemon_of, e) h
  ]

  task_wakes-Right :
      (woken : Option (RetryTask × List RetryTask)) (d : Daemon W)
      → Good d
      → Good (task_wakes woken d)
  unfolding task_wakes on_wake
  task_wakes-Right none d h = h
  task_wakes-Right (some (t, others)) d h =
      Aside-Right W c T d _
        (record {
          own = ground arith;
          manager = ground arith;
          queue = ground arith;
          tunnel = ground arith;
        })
        h

  on_retry_send-Right : (d : Daemon W) → Good d → Good (on_retry_send d)
  unfolding on_retry_send
  on_retry_send-Right d h = record {
    own = ground (arith, h.own);
    agree = ground (
      arith,
      h.agree,
      agrees-append (T.is_on d.sys) d.state_manager.state d.state_queue retry_ebpf_attachment refl
          refl h.agree,
    );
  }

  retry_sent-Right :
      (waiting : ℕ) (d : Daemon W)
      → d.retry_senders ≡ suc waiting
      → Good d
      → Good (retry_sent waiting d)
  unfolding retry_sent
  retry_sent-Right waiting d waits h = record {
    own = h.own;
    agree =
        agrees-append (T.is_on d.sys) d.state_manager.state d.state_queue retry_ebpf_attachment refl
          refl h.agree;
  }

  step-Right :
      (e : Event W.os.State) (d : Daemon W) → LeavesTunnel e → Good d → Good (daemon_of (step e d))
  unfolding step
  step-Right (network e) d alone h = on_network_event-Right e d h
  step-Right (command now) d alone h = on_command-Right W c T now d h
  step-Right (contended_command now) d alone h =
      contended_by Good Good now (on_command-Right W c T now) retry_sent-Right d h
  step-Right (ebpf_tick entries) d alone h = on_ebpf_tick-Right entries d h
  step-Right (idle_tick checked now) d alone h = on_idle_tick-Right checked now d h
  step-Right (retry_wakes n) d alone h = task_wakes-Right (pick n d.retry_tasks) d h
  step-Right retry_sends d alone h = on_retry_send-Right d h
  step-Right (system_changes change) d alone h = record {
    own = h.own;
    agree =
        agrees-raised (T.is_on d.sys) (T.is_on (change d.sys)) d.state_manager.state d.state_queue
          (alone d.sys) h.agree;
  }

  pub steps-Right :
      (es : List (Event W.os.State)) (d : Daemon W)
      → All LeavesTunnel es
      → Good d
      → Good (daemon_of (steps es d))
  unfolding steps
  steps-Right [] d alone h = h
  steps-Right (e ∷ es) d (here, alone) h =
      let first = step-Right e d here h in
      elim (Outcome-cases (step e d)) [
        | inl (d', goes) ↦
            rw (daemon_of, goes) (steps-Right es d' alone (rw (daemon_of, goes) at first))
        | inr (d', stops) ↦ rw (daemon_of, stops) (rw (daemon_of, stops) at first)
      ]
