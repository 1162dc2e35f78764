-- ===== src/Daemon/Invariant.antt =====
-- The invariant of the daemon, over every sequence of events.
pub mod Steps
use wg_ondemand.Base.{
  ℕ, ◌==◌, ◌≢◌, ◌≤◌, ◌≡◌, refl, ◌⊎◌, inl, inr, false, Option, none, some, List, [], ◌∷◌, List-cases,
  arith, length, ltb, length-append, Bool-cases, Result-cases,
}
use wg_ondemand.Types.{TunnelState, inactive, is_active}
use wg_ondemand.Controller.{bring_up, bring_down, reset_activity, check_activity}
use wg_ondemand.Loader.{EbpfManager, is_attached}
use wg_ondemand.Loader.Link.{detach_forgets}
use wg_ondemand.Routes.{RouteManager, remove_routes}
use wg_ondemand.State.{
  StateCommand, StateAction, attach_ebpf, detach_ebpf, tunnel_up, tunnel_down, idle_timeout_reached,
  retry_ebpf_attachment, start_monitoring, stop_monitoring, traffic_detected, activate_tunnel,
  deactivate_tunnel, no_action, handle_command,
}
use wg_ondemand.State.Invariant.{handle_command-Inv, inactive_after}
use wg_ondemand.State.Invariant as Manager
use wg_ondemand.Ssid.{NetworkEvent, connected_to_target, disconnected}
use wg_ondemand.Retry.{RetryTask}
use wg_ondemand.Daemon.Loop.{
  daemon_of, Outcome-cases, Event, network, command, ebpf_tick, idle_tick, retry_wakes, retry_sends,
  step, steps, pick, task_wakes,
}
use wg_ondemand.Daemon.{
  World, Daemon, Outcome, running, blocked, and_then, send, perform, handle, on_attach, on_detach,
  on_activate, on_deactivate, write_file, on_network_event, on_command, on_ebpf_tick, poll_entries,
  idle_check, on_idle_tick, spawn_attachment_retry_task, attach_with_routes,
}
use wg_ondemand.Daemon.Retries.{on_wake, on_retry_send}

-- With the machine inactive, no classifier is attached and no route is active.
abbrev pub Clean : (W : World) → TunnelState → EbpfManager W.aya → RouteManager → Type 0
Clean W state ebpf routes =
    state ≡ inactive → (is_attached W.aya ebpf ≡ false) × (routes.active_routes ≡ [])

module _ {W : World} where
  pub record Inv (timeout : ℕ) (d : Daemon W) : Type 0 where
    pub manager : Manager.Inv timeout d.state_manager
    pub room : length d.state_queue ≤ 32
    pub clean : Clean W d.state_manager.state d.ebpf_manager d.route_manager

  pub on_attach-frame :
      (d : Daemon W)
      → ((on_attach d).state_manager ≡ d.state_manager)
        × ((on_attach d).state_queue ≡ d.state_queue)
  unfolding on_attach attach_with_routes spawn_attachment_retry_task
  on_attach-frame d = ground arith

  module _ (timeout : ℕ) where
    and_then-Inv :
        (o : Outcome W) (f : Daemon W → Outcome W)
        → Inv timeout (daemon_of o)
        → ((d : Daemon W) → Inv timeout d → Inv timeout (daemon_of (f d)))
        → Inv timeout (daemon_of (and_then o f))
    and_then-Inv (running d) f h step_Inv = step_Inv d h
    and_then-Inv (blocked d) f h step_Inv = h

    send-Inv :
        (cmd : StateCommand) (d : Daemon W) → Inv timeout d → Inv timeout (daemon_of (send cmd d))
    unfolding send
    send-Inv cmd d h = elim (Bool-cases (ltb (length d.state_queue) 32)) [
      | inl lt ↦ ground (arith, lt, h, length-append d.state_queue (cmd ∷ []))
      | inr ge ↦ ground (arith, ge, h)
    ]

    -- With the machine busy, only the manager and the queue matter.
    on_attach-Inv :
        (d : Daemon W)
        → d.state_manager.state ≢ inactive
        → Inv timeout d
        → Inv timeout (on_attach d)
    on_attach-Inv d busy h =
        let (same_manager, same_queue) = on_attach-frame d in
        record {
          manager = rw same_manager h.manager;
          room = rw same_queue h.room;
          clean = λ off. absurd (busy (rw same_manager at off));
        }

    on_detach-Inv :
        (d : Daemon W)
        → Manager.Inv timeout d.state_manager
        → length d.state_queue ≤ 32
        → Inv timeout (on_detach d)
    unfolding on_detach remove_routes
    on_detach-Inv d manager room = record {
      manager = manager;
      room = room;
      clean = λ off. ((detach_forgets W.aya d.ebpf_manager).0, refl);
    }

    on_activate-Inv :
        (now : ℕ) (d : Daemon W) → Inv timeout d → Inv timeout (daemon_of (on_activate now d))
    unfolding on_activate
    on_activate-Inv now d h =
        let (s, r) = bring_up W.os d.wg_controller d.sys in
        let up : Daemon W = record d {
          sys = s;
          wg_controller = reset_activity d.wg_controller now;
        } in
        elim (Result-cases r) [
          | inl (_, e) ↦
              rw (daemon_of, e)
                (send-Inv tunnel_up up
                  (record { manager = h.manager; room = h.room; clean = h.clean }))
          | inr (_, e) ↦
              rw (daemon_of, e) (record { manager = h.manager; room = h.room; clean = h.clean })
        ]

    on_deactivate-Inv : (d : Daemon W) → Inv timeout d → Inv timeout (daemon_of (on_deactivate d))
    unfolding on_deactivate
    on_deactivate-Inv d h =
        let (s, r) = bring_down W.os d.wg_controller d.sys in
        let down : Daemon W = record d { sys = s } in
        elim (Result-cases r) [
          | inl (_, e) ↦
              rw (daemon_of, e)
                (send-Inv tunnel_down down
                  (record { manager = h.manager; room = h.room; clean = h.clean }))
          | inr (_, e) ↦
              rw (daemon_of, e) (record { manager = h.manager; room = h.room; clean = h.clean })
        ]

    poll_entries-Inv :
        (entries : List (List ℕ)) (d : Daemon W)
        → Inv timeout d
        → Inv timeout (daemon_of (poll_entries entries d))
    unfolding poll_entries
    poll_entries-Inv [] d h = h
    poll_entries-Inv (entry ∷ rest) d h = elim (Bool-cases (length entry == 16)) [
      | inl e ↦ ground (
        arith,
        e,
        and_then-Inv (send traffic_detected d) (poll_entries rest) (send-Inv traffic_detected d h)
            (poll_entries-Inv rest),
      )
      | inr e ↦ ground (arith, e, poll_entries-Inv rest d h)
    ]

    on_network_event-Inv :
        (e : NetworkEvent) (d : Daemon W)
        → Inv timeout d
        → Inv timeout (daemon_of (on_network_event e d))
    unfolding on_network_event
    on_network_event-Inv (connected_to_target ssid) d h =
        send-Inv start_monitoring _ (record { manager = h.manager; room = h.room; clean = h.clean })
    on_network_event-Inv disconnected d h =
        send-Inv stop_monitoring _ (record { manager = h.manager; room = h.room; clean = h.clean })

    on_ebpf_tick-Inv :
        (entries : List (List ℕ)) (d : Daemon W)
        → Inv timeout d
        → Inv timeout (daemon_of (on_ebpf_tick entries d))
    unfolding on_ebpf_tick
    on_ebpf_tick-Inv entries d h = ground (arith, h, poll_entries-Inv entries d h)

    idle_check-Inv :
        (now : ℕ) (d : Daemon W) → Inv timeout d → Inv timeout (daemon_of (idle_check now d))
    unfolding idle_check
    idle_check-Inv now d h = ground (arith, h, send-Inv idle_timeout_reached d h)

    on_idle_tick-Inv :
        (checked now : ℕ) (d : Daemon W)
        → Inv timeout d
        → Inv timeout (daemon_of (on_idle_tick checked now d))
    unfolding on_idle_tick
    on_idle_tick-Inv checked now d h =
        let d' : Daemon W = record d {
          wg_controller = (check_activity (W.device d.sys) d.wg_controller checked).0;
        } in
        let h' : Inv timeout d' = record { manager = h.manager; room = h.room; clean = h.clean } in
        elim (Bool-cases (is_active d.state_manager.state)) [
          | inl e ↦ rw (daemon_of, e) (idle_check-Inv now d' h')
          | inr e ↦ rw (daemon_of, e) h
        ]

    on_wake-Inv :
        (t : RetryTask) (others : List RetryTask) (d : Daemon W)
        → Inv timeout d
        → Inv timeout (on_wake t others d)
    unfolding on_wake
    on_wake-Inv t others d h = ground (arith, h)

    on_retry_send-Inv : (d : Daemon W) → Inv timeout d → Inv timeout (on_retry_send d)
    unfolding on_retry_send
    on_retry_send-Inv d h =
        ground (arith, h, length-append d.state_queue (retry_ebpf_attachment ∷ []))

    task_wakes-Inv :
        (woken : Option (RetryTask × List RetryTask)) (d : Daemon W)
        → Inv timeout d
        → Inv timeout (task_wakes woken d)
    unfolding task_wakes
    task_wakes-Inv none d h = h
    task_wakes-Inv (some (t, others)) d h = on_wake-Inv t others d h
