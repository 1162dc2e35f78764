-- ===== src/Daemon/Blocked.antt =====
-- Where the loop can hang: in a `send` on a full channel.
use wg_ondemand.Base.{
  ℕ, ◌==◌, ◌*◌, ◌^◌, ◌≤◌, ◌≡◌, refl, ap, sym, ◌∙◌, ◌++◌, inl, inr, Option-cases, List, [], ◌∷◌,
  arith, length, ltb, is_some, Bool-cases, length-append,
}
use wg_ondemand.Types.{is_active}
use wg_ondemand.Loader.{poll_events}
use wg_ondemand.Controller.{check_activity, idle_duration}
use wg_ondemand.State.{
  start_monitoring, stop_monitoring, traffic_detected, idle_timeout_reached, retry_ebpf_attachment,
}
use wg_ondemand.Ssid.{NetworkEvent, connected_to_target, disconnected}
use wg_ondemand.Daemon.Loop.{
  daemon_of, Outcome-cases, Event, network, command, contended_command, ebpf_tick, idle_tick,
  retry_wakes, retry_sends, system_changes, step, steps,
}
use wg_ondemand.Daemon.{
  World, Daemon, Outcome, running, blocked, and_then, send, on_network_event, on_ebpf_tick,
  poll_entries, idle_check, on_idle_tick, on_command,
}
use wg_ondemand.Daemon.Retries.{on_contended_command, retry_sent, contended-cases}
use wg_ondemand.Daemon.Full.{Full, send-Full, and_then-Full, on_command-Full}
use wg_ondemand.Daemon.Actions.{IsRunning, on_command-IsRunning}
use wg_ondemand.Daemon.Invariant.{Inv}
use wg_ondemand.Daemon.Invariant.Steps.{step-Inv}

module _ {W : World} where
  -- Who can hang: the branches that send on behalf of the daemon's surroundings, and the one that
  -- receives if the channel is full and a retry task waits for the slot that becomes free.
  abbrev pub CanHang : Event W.os.State → Daemon W → Type 0
  CanHang (network e) d = Unit
  CanHang (ebpf_tick entries) d = Unit
  CanHang (idle_tick checked now) d = Unit
  CanHang (contended_command now) d = (length d.state_queue ≡ 32) × (1 ≤ d.retry_senders)
  CanHang _ d = ⊥

  on_network_event-Full : (e : NetworkEvent) (d : Daemon W) → Full (on_network_event e d)
  unfolding on_network_event
  on_network_event-Full (connected_to_target ssid) d = send-Full start_monitoring _
  on_network_event-Full disconnected d = send-Full stop_monitoring _

  poll_entries-Full : (entries : List (List ℕ)) (d : Daemon W) → Full (poll_entries entries d)
  unfolding poll_entries
  poll_entries-Full [] d = tt
  poll_entries-Full (entry ∷ rest) d = elim (Bool-cases (length entry == 16)) [
    | inl e ↦
        rw (Full, e)
          (and_then-Full (send traffic_detected d) (poll_entries rest)
            (send-Full traffic_detected d) (poll_entries-Full rest))
    | inr e ↦ rw (Full, e) (poll_entries-Full rest d)
  ]

  on_ebpf_tick-Full : (entries : List (List ℕ)) (d : Daemon W) → Full (on_ebpf_tick entries d)
  unfolding on_ebpf_tick
  on_ebpf_tick-Full entries d = elim (Bool-cases (is_some (poll_events W.aya d.ebpf_manager))) [
    | inl e ↦ rw (Full, e) (poll_entries-Full entries d)
    | inr e ↦ rw (Full, e) tt
  ]

  idle_check-Full : (now : ℕ) (d : Daemon W) → Full (idle_check now d)
  unfolding idle_check
  idle_check-Full now d = elim (Option-cases (idle_duration d.wg_controller now)) [
    | inl e ↦ rw (Full, e) tt
    | inr (idle, e) ↦ elim (Bool-cases (ltb (d.state_manager.idle_timeout * 10 ^ 9) idle)) [
      | inl over ↦ rw (Full, e, over) (send-Full idle_timeout_reached d)
      | inr within ↦ rw (Full, e, within) tt
    ]
  ]

  on_idle_tick-Full : (checked now : ℕ) (d : Daemon W) → Full (on_idle_tick checked now d)
  unfolding on_idle_tick
  on_idle_tick-Full checked now d =
      let d' : Daemon W = record d {
        wg_controller = (check_activity (W.device d.sys) d.wg_controller checked).0;
      } in
      elim (Bool-cases (is_active d.state_manager.state)) [
        | inl e ↦ rw (Full, e) (idle_check-Full now d')
        | inr e ↦ rw (Full, e) tt
      ]

  exactly :
      (timeout : ℕ) (o : Outcome W) (d' : Daemon W)
      → o ≡ blocked d'
      → Full o
      → Inv timeout (daemon_of o)
      → length d'.state_queue ≡ 32
  exactly timeout o d' stops full kept =
      let at_least : 32 ≤ length d'.state_queue = rw (Full, stops) at full in
      let at_most : Inv timeout d' = rw (daemon_of, stops) at kept in omega (arith, at_most.room)

  on_contended_command-Full : (now : ℕ) (d : Daemon W) → Full (on_contended_command now d)
  on_contended_command-Full now d = elim (contended-cases now d) [
    | inl e ↦ rw e (on_command-Full now d)
    | inr (waiting, _, e) ↦ rw e (on_command-Full now (retry_sent waiting d))
  ]

  never : (o : Outcome W) (d' : Daemon W) → IsRunning o → ¬ (o ≡ blocked d')
  never o d' runs stops = rw (IsRunning, stops) at runs

  contended_hangs :
      (now : ℕ) (d d' : Daemon W)
      → length d.state_queue ≤ 32
      → on_contended_command now d ≡ blocked d'
      → (length d.state_queue ≡ 32) × (1 ≤ d.retry_senders)
  unfolding retry_sent
  contended_hangs now d d' room stops = elim (contended-cases now d) [
    | inl e ↦ absurd (never (on_command now d) d' (on_command-IsRunning now d room) (sym e ∙ stops))
    | inr (waiting, waits, e) ↦ elim (Bool-cases (ltb (length d.state_queue) 32)) [
      | inr full ↦ (ground (arith, full, room), omega (arith, waits))
      | inl some_room ↦
          let after = retry_sent waiting d in
          let one_more : length after.state_queue ≤ 32 =
            ground (arith, some_room, length-append d.state_queue (retry_ebpf_attachment ∷ [])) in
          absurd (
            never (on_command now after) d' (on_command-IsRunning now after one_more)
              (sym e ∙ stops))
    ]
  ]

  -- The event that blocks, and the daemon at which it does.
  abbrev Blocks : Event W.os.State → Daemon W → Daemon W → Type 0
  Blocks e d d' = (step e d ≡ blocked d') × CanHang e d × (length d'.state_queue ≡ 32)

  step-Blocks :
      (timeout : ℕ) (e : Event W.os.State) (d d' : Daemon W)
      → Inv timeout d
      → step e d ≡ blocked d'
      → Blocks e d d'
  unfolding step
  step-Blocks timeout (network e) d d' inv stops =
      let full = on_network_event-Full e d in
      let kept = step-Inv timeout (network e) d inv in
      (stops, tt, exactly timeout (on_network_event e d) d' stops full kept)
  step-Blocks timeout (ebpf_tick entries) d d' inv stops =
      let full = on_ebpf_tick-Full entries d in
      let kept = step-Inv timeout (ebpf_tick entries) d inv in
      (stops, tt, exactly timeout (on_ebpf_tick entries d) d' stops full kept)
  step-Blocks timeout (idle_tick checked now) d d' inv stops =
      let full = on_idle_tick-Full checked now d in
      let kept = step-Inv timeout (idle_tick checked now) d inv in
      (stops, tt, exactly timeout (on_idle_tick checked now d) d' stops full kept)
  step-Blocks timeout (command now) d d' inv stops =
      let runs = on_command-IsRunning now d inv.room in absurd (rw (IsRunning, stops) at runs)
  step-Blocks timeout (contended_command now) d d' inv stops =
      let full = on_contended_command-Full now d in
      let kept = step-Inv timeout (contended_command now) d inv in
      (
        stops,
        contended_hangs now d d' inv.room stops,
        exactly timeout (on_contended_command now d) d' stops full kept,
      )
  step-Blocks timeout (retry_wakes n) d d' inv stops = absurd (ground (arith, stops))
  step-Blocks timeout retry_sends d d' inv stops = absurd (ground (arith, stops))
  step-Blocks timeout (system_changes change) d d' inv stops = absurd (ground (arith, stops))

  pub steps-Blocks :
      (timeout : ℕ) (es : List (Event W.os.State)) (d d' : Daemon W)
      → Inv timeout d
      → steps es d ≡ blocked d'
      → (before after : List (Event W.os.State)) × (e : Event W.os.State) × (d0 : Daemon W) × (es
          ≡ before ++ e ∷ after)
        × (steps before d ≡ running d0)
        × (step e d0 ≡ blocked d')
        × CanHang e d0
        × (length d'.state_queue ≡ 32)
  unfolding steps
  steps-Blocks timeout [] d d' inv stops = absurd (ground (arith, stops))
  steps-Blocks timeout (e ∷ es) d d' inv stops = elim (Outcome-cases (step e d)) [
    | inr (d1, here) ↦
        let same : d1 ≡ d' = ap daemon_of (rw (and_then, here) at stops) in
        let (at_e, first, full) = step-Blocks timeout e d d' inv (here ∙ ap blocked same) in
        ([], es, e, d, refl, refl, at_e, first, full)
    | inl (d1, goes) ↦
        let rest : steps es d1 ≡ blocked d' = rw (and_then, goes) at stops in
        let kept_by = step-Inv timeout e d inv in
        let kept : Inv timeout d1 = rw (daemon_of, goes) at kept_by in
        let (before, after, e', d0, parts, runs, at_e, first, full) =
          steps-Blocks timeout es d1 d' kept rest in
        (
          e ∷ before,
          after,
          e',
          d0,
          ap (λ x. e ∷ x) parts,
          rw (and_then, goes) runs,
          at_e,
          first,
          full,
        )
  ]

  pub hung-room :
      (timeout : ℕ) (es : List (Event W.os.State)) (d d' : Daemon W)
      → Inv timeout d
      → steps es d ≡ blocked d'
      → length d'.state_queue ≡ 32
  hung-room timeout es d d' inv stops =
      let (_, _, _, _, _, _, _, _, full) = steps-Blocks timeout es d d' inv stops in full
