-- ===== src/Daemon/Grows.antt =====
-- What the loop adds to the channel of commands, apart from the events of the network.
use wg_ondemand.Base.{
  ◌≡◌, refl, ap, sym, ◌∙◌, inl, inr, Option, none, some, List, [], ◌∷◌, ◌++◌, append_assoc,
  append-nil, arith, false, if◌then◌else◌, length, ltb, Bool-cases,
}
use wg_ondemand.State.{StateCommand, retry_ebpf_attachment}
use wg_ondemand.Retry.{RetryTask}
use wg_ondemand.Daemon.Loop.{daemon_of, task_wakes}
use wg_ondemand.Daemon.{World, spawn_attachment_retry_task, Daemon, send, write_file}
use wg_ondemand.Daemon.Retries.{on_wake, on_retry_send, zero_or_suc}
use wg_ondemand.Daemon.Frame.{Frame, is_network_command}

-- The commands of the network events, among others.
abbrev pub heard : List StateCommand → List StateCommand
heard [] = []
heard (cmd ∷ cmds) = let rest = heard cmds in if is_network_command cmd then cmd ∷ rest else rest

pub heard-append : (xs ys : List StateCommand) → heard (xs ++ ys) ≡ heard xs ++ heard ys
heard-append [] ys = refl
heard-append (cmd ∷ xs) ys = ground (arith, heard-append xs ys)

module _ {W : World} where
  -- The manager is the same, and the channel has at most grown, by commands of the daemon itself.
  abbrev pub Grows : Daemon W → Daemon W → Type 0
  Grows d d' =
      (sent : List StateCommand) × (d'.state_manager ≡ d.state_manager)
      × (d'.state_queue ≡ d.state_queue ++ sent)
      × (heard sent ≡ [])

  pub still :
      (d d' : Daemon W)
      → d'.state_manager ≡ d.state_manager
      → d'.state_queue ≡ d.state_queue
      → Grows d d'
  still d d' same_manager same_queue =
      ([], same_manager, same_queue ∙ sym (append-nil d.state_queue), refl)

  pub Grows-trans : (d d' d'' : Daemon W) → Grows d d' → Grows d' d'' → Grows d d''
  Grows-trans d d' d'' (sent, m, q, h) (sent', m', q', h') = (
    sent ++ sent',
    m' ∙ m,
    q' ∙ ap (λ x. x ++ sent') q ∙ append_assoc d.state_queue sent sent',
    heard-append sent sent' ∙ ap (λ x. x ++ heard sent') h ∙ h',
  )

  send-Grows :
      (cmd : StateCommand) (d : Daemon W)
      → is_network_command cmd ≡ false
      → Grows d (daemon_of (send cmd d))
  unfolding send
  send-Grows cmd d own = elim (Bool-cases (ltb (length d.state_queue) 32)) [
    | inl lt ↦ rw (daemon_of, lt) (cmd ∷ [], refl, refl, rw own refl)
    | inr ge ↦ rw (daemon_of, ge) (still d d refl refl)
  ]

  spawn-Grows : (d : Daemon W) → Grows d (spawn_attachment_retry_task d)
  unfolding spawn_attachment_retry_task
  spawn-Grows d = still d (spawn_attachment_retry_task d) (ground arith) (ground arith)

  pub grows : Frame Grows
  grows = record {
    same = λ d. still d d refl refl;
    join = Grows-trans;
    outside = λ d c e r s runs. ([], refl, sym (append-nil d.state_queue), refl);
    sends = send-Grows;
    spawns = spawn-Grows;
  }

  pub write_file-Grows : (d : Daemon W) → Grows d (write_file d)
  unfolding write_file
  write_file-Grows d = still d (write_file d) refl refl

  on_wake-Grows :
      (t : RetryTask) (others : List RetryTask) (d : Daemon W) → Grows d (on_wake t others d)
  unfolding on_wake
  on_wake-Grows t others d = still d (on_wake t others d) (ground arith) (ground arith)

  pub on_retry_send-Grows : (d : Daemon W) → Grows d (on_retry_send d)
  unfolding on_retry_send
  on_retry_send-Grows d = elim (zero_or_suc d.retry_senders) [
    | inl e ↦ rw (on_retry_send, e) (still d d refl refl)
    | inr (waiting, e) ↦ elim (Bool-cases (ltb (length d.state_queue) 32)) [
      | inl lt ↦ rw (on_retry_send, e, lt) (retry_ebpf_attachment ∷ [], refl, refl, refl)
      | inr ge ↦ rw (on_retry_send, e, ge) (still d d refl refl)
    ]
  ]

  pub task_wakes-Grows :
      (woken : Option (RetryTask × List RetryTask)) (d : Daemon W) → Grows d (task_wakes woken d)
  unfolding task_wakes
  task_wakes-Grows none d = still d d refl refl
  task_wakes-Grows (some (t, others)) d = on_wake-Grows t others d
