-- ===== src/Daemon/Retries.antt =====
-- wg-ondemand/src/main.rs, `spawn_attachment_retry_task`: the retry tasks beside the main loop, and
-- the loop's command branch when one of them waits for room in the channel.
use wg_ondemand.Base.{
  ℕ, zero, suc, ◌+◌, List, [], ◌∷◌, ◌++◌, ltb, if◌then◌else◌, length, false, ◌≡◌, refl, ◌⊎◌, inl,
  inr, List-cases, Bool-cases,
}
use wg_ondemand.State.{retry_ebpf_attachment}
use wg_ondemand.Retry.{RetryTask, sends, sleeps, gives_up, wake}
use wg_ondemand.Daemon.{
  World, Daemon, Outcome, running, blocked, state_command_channel_size, local_address, handle,
  on_command,
}

pub zero_or_suc : (n : ℕ) → (n ≡ 0) ⊎ ((m : ℕ) × (n ≡ suc m))
zero_or_suc zero = inl refl
zero_or_suc (suc m) = inr (m, refl)

module _ {W : World} where
  -- A retry task that wakes; one that finds an address goes on to its `send`.
  unfoldable pub on_wake : RetryTask → List RetryTask → Daemon W → Daemon W
  on_wake t others d = elim (wake t (local_address d)) [
    | sends ↦ record d { retry_tasks = others; retry_senders = d.retry_senders + 1 }
    | sleeps t' ↦ record d { retry_tasks = t' ∷ others }
    | gives_up ↦ record d { retry_in_progress = false; retry_tasks = others }
  ]

  unfoldable pub retry_sent : ℕ → Daemon W → Daemon W
  retry_sent waiting d = record d {
    state_queue = d.state_queue ++ retry_ebpf_attachment ∷ [];
    retry_in_progress = false;
    retry_senders = waiting;
  }

  -- A task whose `send` is done: on a full channel it waits, without the loop.
  unfoldable pub on_retry_send : Daemon W → Daemon W
  unfolding retry_sent
  on_retry_send d = elim d.retry_senders [
    | zero ↦ d
    | suc waiting ↦
        if ltb (length d.state_queue) state_command_channel_size then retry_sent waiting d else d
  ]

  -- `state_rx.recv()` while a retry task waits in its `send`: tokio hands the slot that is free now
  -- to the task, before the branch comes to a `send` of its own. One task is enough: others that
  -- find room while the branch runs might as well have sent before it, behind the command that it
  -- takes.
  unfoldable pub on_contended_command : ℕ → Daemon W → Outcome W
  on_contended_command now d = elim d.state_queue [
    | [] ↦ running d
    | cmd ∷ queue ↦ handle cmd now (on_retry_send (record d { state_queue = queue }))
  ]

  -- The daemon of an outcome, running or blocked.
  abbrev pub daemon_of : Outcome W → Daemon W
  daemon_of (running d) = d
  daemon_of (blocked d) = d

  -- The branch is then the one without a task, or that on a channel which has the task's command too.
  pub contended-cases :
      (now : ℕ) (d : Daemon W)
      → (on_contended_command now d ≡ on_command now d)
        ⊎ ((waiting : ℕ) × (d.retry_senders ≡ suc waiting)
            × (on_contended_command now d ≡ on_command now (retry_sent waiting d)))
  unfolding on_contended_command on_retry_send on_command retry_sent handle
  contended-cases now d = elim (List-cases d.state_queue) [
    | inl e ↦ inl (rw (on_contended_command, on_command, e) refl)
    | inr (cmd, queue, e) ↦ elim (zero_or_suc d.retry_senders) [
      | inl nobody ↦ inl (rw (on_contended_command, on_command, e, nobody) refl)
      | inr (waiting, waits) ↦ elim (Bool-cases (ltb (length queue) 32)) [
        | inl room ↦
            inr (waiting, waits, rw (on_contended_command, on_command, e, waits, room) refl)
        | inr full ↦ inl (rw (on_contended_command, on_command, e, waits, full) refl)
      ]
    ]
  ]

  -- What the branch does, it does with a task that waits.
  pub contended_by :
      (P Q : Daemon W → Type 0) (now : ℕ)
      → ((d : Daemon W) → P d → Q (daemon_of (on_command now d)))
      → ((waiting : ℕ) (d : Daemon W)
          → d.retry_senders ≡ suc waiting
          → P d
          → P (retry_sent waiting d))
      → (d : Daemon W) → P d
      → Q (daemon_of (on_contended_command now d))
  contended_by P Q now branch joins d h = elim (contended-cases now d) [
    | inl e ↦ rw e (branch d h)
    | inr (waiting, waits, e) ↦ rw e (branch (retry_sent waiting d) (joins waiting d waits h))
  ]
