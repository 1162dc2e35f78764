-- ===== src/Daemon/Trace.antt =====
-- The event loop against the state machine: the manager takes the commands of the channel, in order.
use wg_ondemand.Base.{
  ℕ, ◌≡◌, refl, ap, sym, ◌∙◌, inl, inr, none, List, [], ◌∷◌, ◌++◌, List-cases, append_assoc, false,
  length, ltb, Bool-cases,
}
use wg_ondemand.State.{
  StateCommand, start_monitoring, stop_monitoring, handle_command, run, StateManager,
}
use wg_ondemand.Ssid.{NetworkEvent, connected_to_target, disconnected}
use wg_ondemand.Daemon.Retries.{on_contended_command, on_retry_send}
use wg_ondemand.Daemon.Loop.{
  daemon_of, Outcome-cases, Event, network, command, contended_command, ebpf_tick, idle_tick,
  retry_wakes, retry_sends, system_changes, step, steps, pick,
}
use wg_ondemand.Daemon.{
  World, Daemon, Outcome, running, blocked, non_empty, send, on_network_event, on_command,
  on_ebpf_tick, on_idle_tick,
}
use wg_ondemand.Daemon.Grows.{
  heard, write_file-Grows, heard-append, Grows, still, grows, task_wakes-Grows, on_retry_send-Grows,
}
use wg_ondemand.Daemon.Frame.{handle-frame, on_ebpf_tick-frame, on_idle_tick-frame}

abbrev pub command_of : NetworkEvent → StateCommand
command_of (connected_to_target ssid) = start_monitoring
command_of disconnected = stop_monitoring

abbrev pub told : {S : Type 0} → Event S → List StateCommand
told (network e) = command_of e ∷ []
told _ = []

abbrev pub first_of : List StateCommand → List StateCommand
first_of [] = []
first_of (cmd ∷ queue) = cmd ∷ []

run-append :
    (m : StateManager) (xs ys : List StateCommand) → (run m (xs ++ ys)).0 ≡ (run (run m xs).0 ys).0
unfolding run
run-append m [] ys = refl
run-append m (cmd ∷ xs) ys = run-append (handle_command m cmd).0 xs ys

module _ {W : World} where
  abbrev pub if_running : Outcome W → (Daemon W → List StateCommand) → List StateCommand
  if_running (running d) f = f d
  if_running (blocked d) f = []

  -- The command that an event takes out of the channel, if any.
  abbrev pub taken : Event W.os.State → Daemon W → List StateCommand
  taken (command now) d = first_of d.state_queue
  taken (contended_command now) d = first_of d.state_queue
  taken _ d = []

  -- The commands that the loop takes out of the channel, in order.
  unfoldable pub received : List (Event W.os.State) → Daemon W → List StateCommand
  received [] d = []
  received (e ∷ es) d = taken e d ++ if_running (step e d) (received es)

  -- What the network events that the loop gets past ask for.
  unfoldable pub hears : List (Event W.os.State) → Daemon W → List StateCommand
  hears [] d = []
  hears (e ∷ es) d = if_running (step e d) (λ d'. told e ++ hears es d')

  -- One event: the manager takes the command, and the channel loses it at its head.
  abbrev Takes : List StateCommand → List StateCommand → Daemon W → Daemon W → Type 0
  Takes cmds told d d' =
      (sent : List StateCommand) × (d'.state_manager ≡ (run d.state_manager cmds).0)
      × (cmds ++ d'.state_queue ≡ d.state_queue ++ sent)
      × (heard sent ≡ told)

  tell-Takes :
      (cmd : StateCommand) (d : Daemon W)
      → heard (cmd ∷ []) ≡ cmd ∷ []
      → Takes [] (if_running (send cmd d) (λ _. cmd ∷ [])) d (daemon_of (send cmd d))
  unfolding send run
  tell-Takes cmd d told = elim (Bool-cases (ltb (length d.state_queue) 32)) [
    | inl lt ↦ rw (daemon_of, if_running, lt) (cmd ∷ [], refl, refl, told)
    | inr ge ↦ rw (daemon_of, if_running, ge) (still d d refl refl)
  ]

  on_command-Takes :
      (now : ℕ) (d : Daemon W) → Takes (first_of d.state_queue) [] d (daemon_of (on_command now d))
  unfolding on_command run
  on_command-Takes now d = elim (List-cases d.state_queue) [
    | inl e ↦ rw (daemon_of, e) ([], refl, e, refl)
    | inr (cmd, queue, e) ↦
        let (sent, m, q, h) =
          handle-frame Grows grows write_file-Grows cmd now (record d { state_queue = queue }) in
        rw (daemon_of, e) (sent, m, ap (λ x. cmd ∷ x) q, h)
  ]

  on_contended_command-Takes :
      (now : ℕ) (d : Daemon W)
      → Takes (first_of d.state_queue) [] d (daemon_of (on_contended_command now d))
  unfolding on_contended_command run
  on_contended_command-Takes now d = elim (List-cases d.state_queue) [
    | inl e ↦ rw (daemon_of, e) ([], refl, e, refl)
    | inr (cmd, queue, e) ↦
        let popped : Daemon W = record d { state_queue = queue } in
        let served = on_retry_send popped in
        let (sent, m, q, h) = on_retry_send-Grows popped in
        let (sent', m', q', h') = handle-frame Grows grows write_file-Grows cmd now served in
        rw (daemon_of, e)
          (
            sent ++ sent',
            m' ∙ ap (λ x. (handle_command x cmd).0) m,
            ap (λ x. cmd ∷ x) (q' ∙ ap (λ x. x ++ sent') q ∙ append_assoc queue sent sent'),
            heard-append sent sent' ∙ ap (λ x. x ++ heard sent') h ∙ h',
          )
  ]

  Grows-Takes :
      (d : Daemon W) (o : Outcome W)
      → Grows d (daemon_of o)
      → Takes [] (if_running o (λ _. [])) d (daemon_of o)
  unfolding run
  Grows-Takes d (running d') g = g
  Grows-Takes d (blocked d') g = g

  silent : (o : Outcome W) → if_running o (λ _. []) ≡ []
  silent (running d) = refl
  silent (blocked d) = refl

  step-Takes :
      (e : Event W.os.State) (d : Daemon W)
      → Takes (taken e d) (if_running (step e d) (λ _. told e)) d (daemon_of (step e d))
  unfolding step run on_network_event
  step-Takes (network (connected_to_target ssid)) d =
      tell-Takes start_monitoring (record d { current_ssid = non_empty ssid }) refl
  step-Takes (network disconnected) d =
      tell-Takes stop_monitoring (record d { current_ssid = none; retry_in_progress = false }) refl
  step-Takes (command now) d = rw (silent (on_command now d)) (on_command-Takes now d)
  step-Takes (contended_command now) d =
      rw (silent (on_contended_command now d)) (on_contended_command-Takes now d)
  step-Takes (ebpf_tick entries) d =
      Grows-Takes d (on_ebpf_tick entries d) (on_ebpf_tick-frame Grows grows entries d)
  step-Takes (idle_tick checked now) d =
      Grows-Takes d (on_idle_tick checked now d) (on_idle_tick-frame Grows grows checked now d)
  step-Takes (retry_wakes n) d = task_wakes-Grows (pick n d.retry_tasks) d
  step-Takes retry_sends d = on_retry_send-Grows d
  step-Takes (system_changes change) d = still d (record d { sys = change d.sys }) refl refl

  Takes-append :
      (xs ys told told' : List StateCommand) (d d' d'' : Daemon W)
      → Takes xs told d d'
      → Takes ys told' d' d''
      → Takes (xs ++ ys) (told ++ told') d d''
  Takes-append xs ys told told' d d' d'' (sent, m, q, h) (sent', m', q', h') = (
    sent ++ sent',
    m' ∙ ap (λ x. (run x ys).0) m ∙ sym (run-append d.state_manager xs ys),
    append_assoc xs ys d''.state_queue
        ∙ ap (λ x. xs ++ x) q'
        ∙ sym (append_assoc xs d'.state_queue sent')
        ∙ ap (λ x. x ++ sent') q
        ∙ append_assoc d.state_queue sent sent',
    heard-append sent sent' ∙ ap (λ x. x ++ heard sent') h ∙ ap (λ x. told ++ x) h',
  )

  -- The loop refines the state machine. Whatever the events, and up to the point where the loop
  -- blocks, the manager is where running the machine on the commands that the loop took out of the
  -- channel, in order, leads from the first manager. Those commands, followed by the ones that still
  -- wait, are the ones that waited at first, followed by the ones sent on the way: none is lost, and
  -- none overtakes another. And the `StartMonitoring` and `StopMonitoring` among the ones sent are
  -- those of the network events that the loop got past, one for each, in order.
  pub steps-run :
      (es : List (Event W.os.State)) (d : Daemon W)
      → let d' = daemon_of (steps es d) in
        let cmds = received es d in
        (sent : List StateCommand) × (d'.state_manager ≡ (run d.state_manager cmds).0)
        × (cmds ++ d'.state_queue ≡ d.state_queue ++ sent)
        × (heard sent ≡ hears es d)
  unfolding steps received hears run
  steps-run [] d = still d d refl refl
  steps-run (e ∷ es) d =
      let first = step-Takes e d in
      elim (Outcome-cases (step e d)) [
        | inl (d', goes) ↦
            rw (daemon_of, goes)
              (Takes-append (taken e d) (received es d') (told e) (hears es d') d d'
                (daemon_of (steps es d')) (rw (daemon_of, if_running, goes) at first)
                (steps-run es d'))
        | inr (d', stops) ↦
            rw (daemon_of, stops)
              (Takes-append (taken e d) [] [] [] d d' d'
                (rw (daemon_of, if_running, stops) at first) (still d' d' refl refl))
      ]
