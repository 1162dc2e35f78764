-- ===== src/Daemon/Report.antt =====
-- The state file against the daemon, over every sequence of events.
pub mod Init
use wg_ondemand.Base.{
  ℕ, ◌≤◌, ◌≡◌, ◌≢◌, refl, ap, sym, ◌∙◌, false, inl, inr, zero, suc, Option, none, some, List, [],
  ◌∷◌, ◌++◌, All, List-cases, Option-cases, Bool-cases, arith, length, ltb, Text, ok,
}
use wg_ondemand.StateFile.{content, write_state}
use wg_ondemand.StateFile.Report.{Report, Ran-shown, write_state-shown}
use wg_ondemand.State.{
  StateCommand, StateManager, handle_command, start_monitoring, stop_monitoring,
}
use wg_ondemand.Ssid.{connected_to_target, disconnected}
use wg_ondemand.Retry.{RetryTask}
use wg_ondemand.Daemon.{
  World, Daemon, Outcome, running, blocked, and_then, send, non_empty, perform, handle, write_file,
  on_network_event, on_command, on_ebpf_tick, on_idle_tick, spawn_attachment_retry_task,
}
use wg_ondemand.Daemon.Retries.{on_wake, on_retry_send, on_contended_command}
use wg_ondemand.Daemon.Loop.{
  daemon_of, Outcome-cases, Event, network, command, contended_command, ebpf_tick, idle_tick,
  retry_wakes, retry_sends, system_changes, step, steps, pick, task_wakes,
}
use wg_ondemand.Daemon.Frame.{Frame, on_ebpf_tick-frame, on_idle_tick-frame}

append-ne-nil : (queue : List StateCommand) (cmd : StateCommand) → queue ++ cmd ∷ [] ≢ []
append-ne-nil [] cmd e = ground (arith, e)
append-ne-nil (x ∷ queue) cmd e = ground (arith, e)

module _ (W : World) (V : Report W.os W.files) where
  -- Nobody but the daemon changes what the file shows.
  abbrev pub LeavesFile : Event W.os.State → Type 0
  LeavesFile (system_changes change) = (s : W.os.State) → V.shown (change s) ≡ V.shown s
  LeavesFile _ = Unit

  -- The file shows the machine's state, with an SSID that is the current one if no command waits.
  pub record Shows (d : Daemon W) : Type 0 where
    pub ssid : Option Text
    pub timestamp : ℕ
    pub text : V.shown d.sys ≡ some (content d.state_manager.state ssid timestamp)
    pub up_to_date : d.state_queue ≡ [] → ssid ≡ d.current_ssid

  -- Nothing that the file tells has changed, and no command has gone.
  record Same (d d' : Daemon W) : Type 0 where
    file : V.shown d'.sys ≡ V.shown d.sys
    manager : d'.state_manager ≡ d.state_manager
    network_name : d'.current_ssid ≡ d.current_ssid
    waits : d'.state_queue ≡ [] → d.state_queue ≡ []

  Same-Shows : (d d' : Daemon W) → Same d d' → Shows d → Shows d'
  Same-Shows d d' same h = record {
    ssid = h.ssid;
    timestamp = h.timestamp;
    text = same.file ∙ rw same.manager h.text;
    up_to_date = λ e. h.up_to_date (same.waits e) ∙ rw same.network_name refl;
  }

  send-Same : (cmd : StateCommand) (d : Daemon W) → Same d (daemon_of (send cmd d))
  unfolding send
  send-Same cmd d = elim (Bool-cases (ltb (length d.state_queue) 32)) [
    | inl lt ↦
        rw (daemon_of, lt)
          (record {
            file = refl;
            manager = refl;
            network_name = refl;
            waits = λ e. absurd (append-ne-nil d.state_queue cmd e);
          })
    | inr ge ↦
        rw (daemon_of, ge)
          (record { file = refl; manager = refl; network_name = refl; waits = λ e. e })
  ]

  spawn-Same : (d : Daemon W) → Same d (spawn_attachment_retry_task d)
  unfolding spawn_attachment_retry_task
  spawn-Same d = record {
    file = ground arith;
    manager = ground arith;
    network_name = ground arith;
    waits = λ e. ground (arith, e);
  }

  stays : Frame Same
  stays = record {
    same = λ d. record { file = refl; manager = refl; network_name = refl; waits = λ e. e };
    join = λ d d' d'' a b. record {
      file = b.file ∙ a.file;
      manager = b.manager ∙ a.manager;
      network_name = b.network_name ∙ a.network_name;
      waits = λ e. a.waits (b.waits e);
    };
    outside = λ d c e r s runs. record {
      file = Ran-shown V runs;
      manager = refl;
      network_name = refl;
      waits = λ q. q;
    };
    sends = λ cmd d own. send-Same cmd d;
    spawns = spawn-Same;
  }

  -- After a send, taken or not, some command waits.
  send-busy : (cmd : StateCommand) (d : Daemon W) → (daemon_of (send cmd d)).state_queue ≢ []
  unfolding send
  send-busy cmd d e = elim (Bool-cases (ltb (length d.state_queue) 32)) [
    | inl lt ↦ append-ne-nil d.state_queue cmd (rw (daemon_of, lt) at e)
    | inr ge ↦ ground (arith, ge, e)
  ]

  -- A network event: the SSID is behind, but its command waits.
  told-Shows :
      (cmd : StateCommand) (d d' : Daemon W)
      → Shows d
      → d'.sys ≡ d.sys
      → d'.state_manager ≡ d.state_manager
      → Shows (daemon_of (send cmd d'))
  told-Shows cmd d d' h same_sys same_manager =
      let same = send-Same cmd d' in
      record {
        ssid = h.ssid;
        timestamp = h.timestamp;
        text =
            same.file
            ∙ ap V.shown same_sys
            ∙ h.text
            ∙ ap (λ (m : StateManager). some (content m.state h.ssid h.timestamp))
                (sym (same.manager ∙ same_manager));
        up_to_date = λ e. absurd (send-busy cmd d' e);
      }

  write_file-Shows : (d : Daemon W) → Shows (write_file d)
  unfolding write_file
  write_file-Shows d =
      let (t, text) = write_state-shown V d.state_manager.state d.current_ssid d.sys in
      record { ssid = d.current_ssid; timestamp = t; text = text; up_to_date = λ _. refl }

  -- What holds of the daemon if the branch comes to its end.
  abbrev pub Shown : Outcome W → Type 0
  Shown (running d) = Shows d
  Shown (blocked d) = Unit

  written-Shown : (o : Outcome W) → Shown (and_then o (λ d. running (write_file d)))
  written-Shown (running d) = write_file-Shows d
  written-Shown (blocked d) = tt

  Shows-Shown : (o : Outcome W) → Shows (daemon_of o) → Shown o
  Shows-Shown (running d) h = h
  Shows-Shown (blocked d) h = tt

  handle-Shown : (cmd : StateCommand) (now : ℕ) (d : Daemon W) → Shown (handle cmd now d)
  unfolding handle
  handle-Shown cmd now d =
      let (m, action) = handle_command d.state_manager cmd in
      written-Shown (perform action now (record d { state_manager = m }))

  on_command-Shown : (now : ℕ) (d : Daemon W) → Shows d → Shown (on_command now d)
  unfolding on_command
  on_command-Shown now d h = elim (List-cases d.state_queue) [
    | inl e ↦ rw (Shown, e) h
    | inr (cmd, queue, e) ↦ rw (Shown, e) (handle-Shown cmd now (record d { state_queue = queue }))
  ]

  on_contended_command-Shown :
      (now : ℕ) (d : Daemon W) → Shows d → Shown (on_contended_command now d)
  unfolding on_contended_command
  on_contended_command-Shown now d h = elim (List-cases d.state_queue) [
    | inl e ↦ rw (Shown, e) h
    | inr (cmd, queue, e) ↦
        rw (Shown, e) (handle-Shown cmd now (on_retry_send (record d { state_queue = queue })))
  ]

  on_wake-Same :
      (t : RetryTask) (others : List RetryTask) (d : Daemon W) → Same d (on_wake t others d)
  unfolding on_wake
  on_wake-Same t others d = record {
    file = ground arith;
    manager = ground arith;
    network_name = ground arith;
    waits = λ e. ground (arith, e);
  }

  on_retry_send-Same : (d : Daemon W) → Same d (on_retry_send d)
  unfolding on_retry_send
  on_retry_send-Same d = record {
    file = ground arith;
    manager = ground arith;
    network_name = ground arith;
    waits = λ e. ground (arith, e, append-ne-nil d.state_queue);
  }

  task_wakes-Same :
      (woken : Option (RetryTask × List RetryTask)) (d : Daemon W) → Same d (task_wakes woken d)
  unfolding task_wakes
  task_wakes-Same none d = stays.same d
  task_wakes-Same (some (t, others)) d = on_wake-Same t others d

  step-Shown : (e : Event W.os.State) (d : Daemon W) → LeavesFile e → Shows d → Shown (step e d)
  unfolding step on_network_event
  step-Shown (network (connected_to_target ssid)) d alone h =
      Shows-Shown (send start_monitoring (record d { current_ssid = non_empty ssid }))
        (told-Shows start_monitoring d (record d { current_ssid = non_empty ssid }) h refl refl)
  step-Shown (network disconnected) d alone h =
      let told : Daemon W = record d { current_ssid = none; retry_in_progress = false } in
      Shows-Shown (send stop_monitoring told) (told-Shows stop_monitoring d told h refl refl)
  step-Shown (command now) d alone h = on_command-Shown now d h
  step-Shown (contended_command now) d alone h = on_contended_command-Shown now d h
  step-Shown (ebpf_tick entries) d alone h =
      Shows-Shown (on_ebpf_tick entries d)
        (Same-Shows d _ (on_ebpf_tick-frame Same stays entries d) h)
  step-Shown (idle_tick checked now) d alone h =
      Shows-Shown (on_idle_tick checked now d)
        (Same-Shows d _ (on_idle_tick-frame Same stays checked now d) h)
  step-Shown (retry_wakes n) d alone h = Same-Shows d _ (task_wakes-Same (pick n d.retry_tasks) d) h
  step-Shown retry_sends d alone h = Same-Shows d _ (on_retry_send-Same d) h
  step-Shown (system_changes change) d alone h = record {
    ssid = h.ssid;
    timestamp = h.timestamp;
    text = alone d.sys ∙ h.text;
    up_to_date = h.up_to_date;
  }

  pub steps-Shown :
      (es : List (Event W.os.State)) (d : Daemon W)
      → All LeavesFile es
      → Shows d
      → Shown (steps es d)
  unfolding steps
  steps-Shown [] d alone h = h
  steps-Shown (e ∷ es) d (alone, rest) h =
      let shows = step-Shown e d alone h in
      elim (Outcome-cases (step e d)) [
        | inl (d', goes) ↦ rw (Shown, goes) (steps-Shown es d' rest (rw (Shown, goes) at shows))
        | inr (d', stops) ↦ rw (Shown, stops) tt
      ]
