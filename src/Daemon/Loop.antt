-- ===== src/Daemon/Loop.antt =====
-- The event loop over a sequence of events: `select!` takes its branches in any order. The branches
-- that end the loop are no events: Daemon/Exit has the signals and the end of the monitor task.
use wg_ondemand.Base.{◌≡◌, refl, ◌⊎◌, inl, inr, ℕ, zero, suc, Option, none, some, List, [], ◌∷◌}
use wg_ondemand.Ssid.{NetworkEvent}
use wg_ondemand.Retry.{RetryTask}
use wg_ondemand.Daemon.{
  World, Daemon, Outcome, running, blocked, and_then, on_network_event, on_command, on_ebpf_tick,
  on_idle_tick,
}
use wg_ondemand.Daemon.Retries.{on_wake, on_retry_send, on_contended_command}
pub use wg_ondemand.Daemon.Retries.{daemon_of}

-- `command now` is the branch of `state_rx.recv()`, and `contended_command now` the same while a
-- retry task waits in its `send`. `retry_wakes n` is the wake of the n-th retry task;
-- `system_changes` is what the kernel, other programs and time make of the system's state between
-- two branches.
pub data Event (State : Type 0) : Type 0 where
  network : NetworkEvent → Event State
  command : ℕ → Event State
  contended_command : ℕ → Event State
  ebpf_tick : List (List ℕ) → Event State
  idle_tick : ℕ → ℕ → Event State
  retry_wakes : ℕ → Event State
  retry_sends : Event State
  system_changes : (State → State) → Event State

-- The n-th task, and the others.
unfoldable pub pick : ℕ → List RetryTask → Option (RetryTask × List RetryTask)
pick n [] = none
pick zero (t ∷ ts) = some (t, ts)
pick (suc n) (t ∷ ts) = elim (pick n ts) [ some (u, others) ↦ some (u, t ∷ others) | none ↦ none ]

module _ {W : World} where
  unfoldable pub task_wakes : Option (RetryTask × List RetryTask) → Daemon W → Daemon W
  task_wakes none d = d
  task_wakes (some (t, others)) d = on_wake t others d

  unfoldable pub step : Event W.os.State → Daemon W → Outcome W
  step (network e) d = on_network_event e d
  step (command now) d = on_command now d
  step (contended_command now) d = on_contended_command now d
  step (ebpf_tick entries) d = on_ebpf_tick entries d
  step (idle_tick checked now) d = on_idle_tick checked now d
  step (retry_wakes n) d = running (task_wakes (pick n d.retry_tasks) d)
  step retry_sends d = running (on_retry_send d)
  step (system_changes change) d = running (record d { sys = change d.sys })

  -- A loop that is blocked takes no further event.
  unfoldable pub steps : List (Event W.os.State) → Daemon W → Outcome W
  steps [] d = running d
  steps (e ∷ es) d = and_then (step e d) (steps es)

  pub Outcome-cases :
      (o : Outcome W) → ((d : Daemon W) × (o ≡ running d)) ⊎ ((d : Daemon W) × (o ≡ blocked d))
  Outcome-cases (running d) = inl (d, refl)
  Outcome-cases (blocked d) = inr (d, refl)
