-- ===== src/Daemon/Invariant/Steps.antt =====
-- The invariant of the daemon over the branch of the commands, and over every sequence of events.
use wg_ondemand.Base.{ℕ, ◌≤◌, ◌≡◌, ◌⊎◌, inl, inr, List, [], ◌∷◌, List-cases, arith, length}
use wg_ondemand.Types.{inactive}
use wg_ondemand.State.{
  StateCommand, StateAction, attach_ebpf, detach_ebpf, activate_tunnel, deactivate_tunnel,
  no_action, handle_command,
}
use wg_ondemand.State.Invariant.{handle_command-Inv, inactive_after}
use wg_ondemand.State.Invariant as Manager
use wg_ondemand.Daemon.Retries.{on_contended_command, on_retry_send}
use wg_ondemand.Daemon.Loop.{
  daemon_of, Event, network, command, contended_command, ebpf_tick, idle_tick, retry_wakes,
  retry_sends, system_changes, step, steps, pick,
}
use wg_ondemand.Daemon.{World, Daemon, running, perform, handle, write_file, on_command}
use wg_ondemand.Daemon.Invariant.{
  Clean, Inv, and_then-Inv, on_attach-Inv, on_detach-Inv, on_activate-Inv, on_deactivate-Inv,
  on_network_event-Inv, on_ebpf_tick-Inv, on_idle_tick-Inv, on_retry_send-Inv, task_wakes-Inv,
}

module _ {W : World} (timeout : ℕ) where
  -- The action of a command, performed on a daemon whose manager has taken the command.
  perform-Inv :
      (now : ℕ) (action : StateAction) (d : Daemon W)
      → Manager.Inv timeout d.state_manager
      → length d.state_queue ≤ 32
      → (d.state_manager.state ≡ inactive
          → (action ≡ detach_ebpf)
            ⊎ ((action ≡ no_action) × Clean W inactive d.ebpf_manager d.route_manager))
      → Inv timeout (daemon_of (perform action now d))
  unfolding perform
  perform-Inv now attach_ebpf d manager room off =
      on_attach-Inv timeout d (λ e. ground (arith, off e))
        (record { manager = manager; room = room; clean = λ e. ground (arith, off e) })
  perform-Inv now detach_ebpf d manager room off = on_detach-Inv timeout d manager room
  perform-Inv now activate_tunnel d manager room off =
      on_activate-Inv timeout now d
        (record { manager = manager; room = room; clean = λ e. absurd (ground (arith, off e)) })
  perform-Inv now deactivate_tunnel d manager room off =
      on_deactivate-Inv timeout d
        (record { manager = manager; room = room; clean = λ e. absurd (ground (arith, off e)) })
  perform-Inv now no_action d manager room off = record {
    manager = manager;
    room = room;
    clean = λ e. ground (arith, off e);
  }

  handle-Inv :
      (cmd : StateCommand) (now : ℕ) (d : Daemon W)
      → Inv timeout d
      → Inv timeout (daemon_of (handle cmd now d))
  unfolding handle write_file
  handle-Inv cmd now d h =
      let (m', action) = handle_command d.state_manager cmd in
      let d' : Daemon W = record d { state_manager = m' } in
      let off = inactive_after d.state_manager cmd in
      and_then-Inv timeout (perform action now d') (λ x. running (write_file x))
        (perform-Inv now action d' (handle_command-Inv timeout d.state_manager cmd h.manager) h.room
          (λ e. elim (off e) [
            | inl detaches ↦ inl detaches
            | inr (nothing, was) ↦ inr (nothing, λ _. h.clean was)
          ]))
        (λ x hx. record { manager = hx.manager; room = hx.room; clean = hx.clean })

  on_command-Inv :
      (now : ℕ) (d : Daemon W) → Inv timeout d → Inv timeout (daemon_of (on_command now d))
  unfolding on_command
  on_command-Inv now d h = elim (List-cases d.state_queue) [
    | inl e ↦ rw (daemon_of, e) h
    | inr (cmd, queue, e) ↦
        let room : length (cmd ∷ queue) ≤ 32 = rw e at h.room in
        let taken : Inv timeout (record d { state_queue = queue }) = record {
          manager = h.manager;
          room = omega arith;
          clean = h.clean;
        } in
        rw (daemon_of, e) (handle-Inv cmd now (record d { state_queue = queue }) taken)
  ]

  on_contended_command-Inv :
      (now : ℕ) (d : Daemon W)
      → Inv timeout d
      → Inv timeout (daemon_of (on_contended_command now d))
  unfolding on_contended_command
  on_contended_command-Inv now d h = elim (List-cases d.state_queue) [
    | inl e ↦ rw (daemon_of, e) h
    | inr (cmd, queue, e) ↦
        let room : length (cmd ∷ queue) ≤ 32 = rw e at h.room in
        let popped : Daemon W = record d { state_queue = queue } in
        let taken : Inv timeout popped = record {
          manager = h.manager;
          room = omega arith;
          clean = h.clean;
        } in
        rw (daemon_of, e)
          (handle-Inv cmd now (on_retry_send popped) (on_retry_send-Inv timeout popped taken))
  ]

  pub step-Inv :
      (e : Event W.os.State) (d : Daemon W) → Inv timeout d → Inv timeout (daemon_of (step e d))
  unfolding step
  step-Inv (network e) d h = on_network_event-Inv timeout e d h
  step-Inv (command now) d h = on_command-Inv now d h
  step-Inv (contended_command now) d h = on_contended_command-Inv now d h
  step-Inv (ebpf_tick entries) d h = on_ebpf_tick-Inv timeout entries d h
  step-Inv (idle_tick checked now) d h = on_idle_tick-Inv timeout checked now d h
  step-Inv (retry_wakes n) d h = task_wakes-Inv timeout (pick n d.retry_tasks) d h
  step-Inv retry_sends d h = on_retry_send-Inv timeout d h
  step-Inv (system_changes change) d h = record {
    manager = h.manager;
    room = h.room;
    clean = h.clean;
  }

  -- From a daemon that has it, every sequence of events keeps the invariant, up to the point where
  -- the loop blocks and there: the manager's own invariant holds, at most 32 commands wait, and with
  -- the machine inactive no classifier is attached and no route is active.
  pub steps-Inv :
      (es : List (Event W.os.State)) (d : Daemon W)
      → Inv timeout d
      → Inv timeout (daemon_of (steps es d))
  unfolding steps
  steps-Inv [] d h = h
  steps-Inv (e ∷ es) d h =
      and_then-Inv timeout (step e d) (steps es) (step-Inv e d h) (steps-Inv es)
