-- ===== src/Daemon/Fixed.antt =====
-- What the loop never changes: the configured subnets and the monitored interface.
use wg_ondemand.Base.{
  ℕ, ◌≡◌, refl, ◌∙◌, inl, inr, Option, none, some, List, [], ◌∷◌, List-cases, arith,
}
use wg_ondemand.State.{StateCommand}
use wg_ondemand.Ssid.{NetworkEvent, connected_to_target, disconnected}
use wg_ondemand.Retry.{RetryTask}
use wg_ondemand.Daemon.{
  World, Daemon, send, handle, write_file, on_network_event, on_command,
  spawn_attachment_retry_task,
}
use wg_ondemand.Daemon.Retries.{on_wake, on_retry_send, on_contended_command}
use wg_ondemand.Daemon.Loop.{
  daemon_of, Outcome-cases, Event, network, command, contended_command, ebpf_tick, idle_tick,
  retry_wakes, retry_sends, system_changes, step, steps, pick, task_wakes,
}
use wg_ondemand.Daemon.Frame.{Frame, handle-frame, on_ebpf_tick-frame, on_idle_tick-frame}

module _ {W : World} where
  abbrev pub Fixed : Daemon W → Daemon W → Type 0
  Fixed d d' = (d'.ranges ≡ d.ranges) × (d'.monitor_iface ≡ d.monitor_iface)

  Fixed-trans : (d d' d'' : Daemon W) → Fixed d d' → Fixed d' d'' → Fixed d d''
  Fixed-trans d d' d'' (r, i) (r', i') = (r' ∙ r, i' ∙ i)

  send-Fixed : (cmd : StateCommand) (d : Daemon W) → Fixed d (daemon_of (send cmd d))
  unfolding send
  send-Fixed cmd d = ground arith

  spawn-Fixed : (d : Daemon W) → Fixed d (spawn_attachment_retry_task d)
  unfolding spawn_attachment_retry_task
  spawn-Fixed d = ground arith

  fixed : Frame Fixed
  fixed = record {
    same = λ d. (refl, refl);
    join = Fixed-trans;
    outside = λ d c e r s runs. (refl, refl);
    sends = λ cmd d own. send-Fixed cmd d;
    spawns = spawn-Fixed;
  }

  write_file-Fixed : (d : Daemon W) → Fixed d (write_file d)
  unfolding write_file
  write_file-Fixed d = (refl, refl)

  on_network_event-Fixed :
      (e : NetworkEvent) (d : Daemon W) → Fixed d (daemon_of (on_network_event e d))
  unfolding on_network_event
  on_network_event-Fixed (connected_to_target ssid) d = send-Fixed _ _
  on_network_event-Fixed disconnected d = send-Fixed _ _

  on_command-Fixed : (now : ℕ) (d : Daemon W) → Fixed d (daemon_of (on_command now d))
  unfolding on_command
  on_command-Fixed now d = elim (List-cases d.state_queue) [
    | inl e ↦ rw (daemon_of, e) (refl, refl)
    | inr (cmd, queue, e) ↦
        rw (daemon_of, e)
          (handle-frame Fixed fixed write_file-Fixed cmd now (record d { state_queue = queue }))
  ]

  on_retry_send-Fixed : (d : Daemon W) → Fixed d (on_retry_send d)
  unfolding on_retry_send
  on_retry_send-Fixed d = ground arith

  on_contended_command-Fixed :
      (now : ℕ) (d : Daemon W) → Fixed d (daemon_of (on_contended_command now d))
  unfolding on_contended_command
  on_contended_command-Fixed now d = elim (List-cases d.state_queue) [
    | inl e ↦ rw (daemon_of, e) (refl, refl)
    | inr (cmd, queue, e) ↦
        let served = on_retry_send (record d { state_queue = queue }) in
        rw (daemon_of, e)
          (Fixed-trans d served (daemon_of (handle cmd now served))
            (on_retry_send-Fixed (record d { state_queue = queue }))
            (handle-frame Fixed fixed write_file-Fixed cmd now served))
  ]

  task_wakes-Fixed :
      (woken : Option (RetryTask × List RetryTask)) (d : Daemon W) → Fixed d (task_wakes woken d)
  unfolding task_wakes on_wake
  task_wakes-Fixed none d = (refl, refl)
  task_wakes-Fixed (some (t, others)) d = ground arith

  step-Fixed : (e : Event W.os.State) (d : Daemon W) → Fixed d (daemon_of (step e d))
  unfolding step
  step-Fixed (network e) d = on_network_event-Fixed e d
  step-Fixed (command now) d = on_command-Fixed now d
  step-Fixed (contended_command now) d = on_contended_command-Fixed now d
  step-Fixed (ebpf_tick entries) d = on_ebpf_tick-frame Fixed fixed entries d
  step-Fixed (idle_tick checked now) d = on_idle_tick-frame Fixed fixed checked now d
  step-Fixed (retry_wakes n) d = task_wakes-Fixed (pick n d.retry_tasks) d
  step-Fixed retry_sends d = on_retry_send-Fixed d
  step-Fixed (system_changes change) d = (refl, refl)

  pub steps-Fixed : (es : List (Event W.os.State)) (d : Daemon W) → Fixed d (daemon_of (steps es d))
  unfolding steps
  steps-Fixed [] d = (refl, refl)
  steps-Fixed (e ∷ es) d =
      let first = step-Fixed e d in
      elim (Outcome-cases (step e d)) [
        | inl (d', goes) ↦
            rw (daemon_of, goes)
              (Fixed-trans d d' (daemon_of (steps es d')) (rw (daemon_of, goes) at first)
                (steps-Fixed es d'))
        | inr (d', stops) ↦ rw (daemon_of, stops) (rw (daemon_of, stops) at first)
      ]
