-- ===== src/Daemon/Tasks.antt =====
-- How many retry tasks there are at a time: the flag `retry_in_progress` lets one be spawned, and a
-- disconnection clears it while the task goes on.
use wg_ondemand.Base.{
  ℕ, zero, suc, ◌+◌, ◌≤◌, ◌≡◌, refl, inl, inr, false, none, some, List, [], ◌∷◌, List-cases,
  Option-cases, arith, length, if◌then◌else◌,
}
use wg_ondemand.State.{StateCommand, start_monitoring, stop_monitoring}
use wg_ondemand.Ssid.{connected_to_target, disconnected}
use wg_ondemand.Retry.{RetryTask}
use wg_ondemand.Daemon.{
  World, Daemon, Outcome, running, blocked, and_then, non_empty, send, spawn_attachment_retry_task,
  on_network_event, on_command, write_file,
}
use wg_ondemand.Daemon.Retries.{on_wake, on_retry_send, retry_sent, contended_by}
use wg_ondemand.Daemon.Loop.{
  Event, network, command, contended_command, ebpf_tick, idle_tick, retry_wakes, retry_sends,
  system_changes, step, steps, pick, task_wakes, daemon_of,
}
use wg_ondemand.Daemon.Frame.{Frame, handle-frame, on_ebpf_tick-frame, on_idle_tick-frame}

abbrev pub disconnections : {S : Type 0} → List (Event S) → ℕ
disconnections [] = 0
disconnections (network disconnected ∷ es) = suc (disconnections es)
disconnections (_ ∷ es) = disconnections es

abbrev raised : {S : Type 0} → ℕ → Event S → ℕ
raised k (network disconnected) = suc k
raised k _ = k

raised-disconnections :
    {S : Type 0} (k : ℕ) (e : Event S) (es : List (Event S))
    → disconnections (e ∷ es) + k ≡ disconnections es + raised k e
raised-disconnections k (network (connected_to_target ssid)) es = refl
raised-disconnections k (network disconnected) es = omega arith
raised-disconnections k (command now) es = refl
raised-disconnections k (contended_command now) es = refl
raised-disconnections k (ebpf_tick entries) es = refl
raised-disconnections k (idle_tick checked now) es = refl
raised-disconnections k (retry_wakes n) es = refl
raised-disconnections k retry_sends es = refl
raised-disconnections k (system_changes change) es = refl

-- The task that wakes is one of the tasks.
pick-length :
    (n : ℕ) (ts : List RetryTask) (t : RetryTask) (others : List RetryTask)
    → pick n ts ≡ some (t, others)
    → length ts ≡ suc (length others)
unfolding pick
pick-length n [] t others e = absurd (ground (arith, e))
pick-length zero (u ∷ ts) t others e = ground (arith, e)
pick-length (suc n) (u ∷ ts) t others e = elim (Option-cases (pick n ts)) [
  | inl missing ↦ absurd (ground (arith, e, missing))
  | inr ((v, rest), found) ↦ ground (arith, e, found, pick-length n ts v rest found)
]

module _ {W : World} where
  -- The tasks that sleep and the ones that wait for room in the channel.
  abbrev pub tasks : Daemon W → ℕ
  tasks d = length d.retry_tasks + d.retry_senders

  -- With the flag clear, one more may be spawned.
  record Budget (k : ℕ) (d : Daemon W) : Type 0 where
    within : tasks d + (if d.retry_in_progress then 0 else 1) ≤ suc k

  Budget-mono : (k k' : ℕ) (d : Daemon W) → k ≤ k' → Budget k d → Budget k' d
  Budget-mono k k' d le h = record { within = omega (arith, h.within) }

  -- Every budget is kept.
  abbrev Saves : Daemon W → Daemon W → Type 0
  Saves d d' = (k : ℕ) → Budget k d → Budget k d'

  send-Saves : (cmd : StateCommand) (d : Daemon W) → Saves d (daemon_of (send cmd d))
  unfolding send
  send-Saves cmd d k h = record { within = ground (arith, h.within) }

  spawn-Saves : (d : Daemon W) → Saves d (spawn_attachment_retry_task d)
  unfolding spawn_attachment_retry_task
  spawn-Saves d k h = record { within = ground (arith, h.within) }

  saves : Frame Saves
  saves = record {
    same = λ d k h. h;
    join = λ d d' d'' first next k h. next k (first k h);
    outside = λ d c e r s runs k h. record { within = h.within };
    sends = λ cmd d own. send-Saves cmd d;
    spawns = spawn-Saves;
  }

  write_file-Saves : (d : Daemon W) → Saves d (write_file d)
  unfolding write_file
  write_file-Saves d k h = record { within = h.within }

  on_wake-Budget :
      (k : ℕ) (t : RetryTask) (others : List RetryTask) (d : Daemon W)
      → length d.retry_tasks ≡ suc (length others)
      → Budget k d
      → Budget k (on_wake t others d)
  unfolding on_wake
  on_wake-Budget k t others d e h = record { within = ground (arith, e, h.within) }

  on_retry_send-Budget : (k : ℕ) (d : Daemon W) → Budget k d → Budget k (on_retry_send d)
  unfolding on_retry_send
  on_retry_send-Budget k d h = record { within = ground (arith, h.within) }

  task_wakes-Budget :
      (k : ℕ) (n : ℕ) (d : Daemon W) → Budget k d → Budget k (task_wakes (pick n d.retry_tasks) d)
  unfolding task_wakes
  task_wakes-Budget k n d h = elim (Option-cases (pick n d.retry_tasks)) [
    | inl e ↦ rw (task_wakes, e) h
    | inr ((t, others), e) ↦
        rw (task_wakes, e) (on_wake-Budget k t others d (pick-length n d.retry_tasks t others e) h)
  ]

  on_command-Budget :
      (k : ℕ) (now : ℕ) (d : Daemon W) → Budget k d → Budget k (daemon_of (on_command now d))
  unfolding on_command
  on_command-Budget k now d h = elim (List-cases d.state_queue) [
    | inl e ↦ rw (daemon_of, e) h
    | inr (cmd, queue, e) ↦
        rw (daemon_of, e)
          (handle-frame Saves saves write_file-Saves cmd now (record d { state_queue = queue }) k
            (record { within = h.within }))
  ]

  retry_sent-Budget :
      (k waiting : ℕ) (d : Daemon W)
      → d.retry_senders ≡ suc waiting
      → Budget k d
      → Budget k (retry_sent waiting d)
  unfolding retry_sent
  retry_sent-Budget k waiting d waits h = record { within = ground (arith, waits, h.within) }

  -- An event keeps the budget, but a disconnection raises it by one.
  step-Budget :
      (k : ℕ) (e : Event W.os.State) (d : Daemon W)
      → Budget k d
      → Budget (raised k e) (daemon_of (step e d))
  unfolding step on_network_event
  step-Budget k (network (connected_to_target ssid)) d h =
      send-Saves start_monitoring (record d { current_ssid = non_empty ssid }) k
        (record { within = h.within })
  step-Budget k (network disconnected) d h =
      let cleared : Daemon W = record d { current_ssid = none; retry_in_progress = false } in
      send-Saves stop_monitoring cleared (suc k) (record { within = ground (arith, h.within) })
  step-Budget k (command now) d h = on_command-Budget k now d h
  step-Budget k (contended_command now) d h =
      contended_by (Budget k) (Budget k) now (on_command-Budget k now) (retry_sent-Budget k) d h
  step-Budget k (ebpf_tick entries) d h = on_ebpf_tick-frame Saves saves entries d k h
  step-Budget k (idle_tick checked now) d h = on_idle_tick-frame Saves saves checked now d k h
  step-Budget k (retry_wakes n) d h = task_wakes-Budget k n d h
  step-Budget k retry_sends d h = on_retry_send-Budget k d h
  step-Budget k (system_changes change) d h = record { within = h.within }

  and_then-Budget :
      (k k' : ℕ) (o : Outcome W) (f : Daemon W → Outcome W)
      → k ≤ k'
      → Budget k (daemon_of o)
      → ((d : Daemon W) → Budget k d → Budget k' (daemon_of (f d)))
      → Budget k' (daemon_of (and_then o f))
  and_then-Budget k k' (running d) f le h next = next d h
  and_then-Budget k k' (blocked d) f le h next = Budget-mono k k' d le h

  steps-Budget :
      (k n : ℕ) (es : List (Event W.os.State)) (d : Daemon W)
      → n ≡ disconnections es + k
      → Budget k d
      → Budget n (daemon_of (steps es d))
  unfolding steps
  steps-Budget k n [] d e h = Budget-mono k n d (omega arith) h
  steps-Budget k n (ev ∷ es) d e h =
      let more = raised-disconnections k ev es in
      and_then-Budget (raised k ev) n (step ev d) (steps es) (omega arith) (step-Budget k ev d h)
        (λ d' h'. steps-Budget (raised k ev) n es d' (omega arith) h')

  -- From a daemon without retry tasks, and after any events, up to the point where the loop blocks
  -- and there: the retry tasks that sleep, with those that wait to send their command, are at most
  -- one more than the disconnections on the way.
  pub tasks_bounded :
      (es : List (Event W.os.State)) (d : Daemon W)
      → tasks d ≡ 0
      → tasks (daemon_of (steps es d)) ≤ suc (disconnections es)
  tasks_bounded es d none_yet =
      let room : Budget 0 d = record { within = ground (arith, none_yet) } in
      let kept = steps-Budget 0 (disconnections es) es d (omega arith) room in
      ground (arith, kept.within)
