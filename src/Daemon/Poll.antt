-- ===== src/Daemon/Poll.antt =====
-- Commands in the channel: what the loop receives, and what it sends to itself.
use native.Mathlib.Decide.{dec_lt}
use wg_ondemand.Base.{
  ℕ, Option-cases, if◌then◌else◌, suc, ◌+◌, ◌-◌, ◌==◌, ◌≤◌, ◌<◌, ◌≡◌, refl, ap, sym, ◌∙◌, ◌⊎◌, inl,
  inr, true, none, List, [], ◌∷◌, ◌++◌, append_assoc, append-nil, length, length-append, replicate,
  is_some, Bool-cases, arith,
}
use wg_ondemand.Loader.{poll_events}
use wg_ondemand.State.{StateCommand, traffic_detected}
use wg_ondemand.Daemon.{
  size_of_traffic_event, World, Daemon, running, blocked, send, poll_entries, on_ebpf_tick,
}

-- The entries that have the size of an event.
unfoldable pub events_in : List (List ℕ) → ℕ
events_in [] = 0
events_in (entry ∷ rest) =
    let n = events_in rest in if length entry == size_of_traffic_event then suc n else n

module _ {W : World} where
  abbrev pub with_traffic : ℕ → Daemon W → Daemon W
  with_traffic n d = record d { state_queue = d.state_queue ++ replicate n traffic_detected }

  send-room :
      (cmd : StateCommand) (d : Daemon W)
      → length d.state_queue < 32
      → send cmd d ≡ running (record d { state_queue = d.state_queue ++ cmd ∷ [] })
  unfolding send
  send-room cmd d lt = ground (arith, lt)

  send-full :
      (cmd : StateCommand) (d : Daemon W) → length d.state_queue ≡ 32 → send cmd d ≡ blocked d
  unfolding send
  send-full cmd d full = ground (arith, full)

  with_traffic-suc :
      (n : ℕ) (d : Daemon W) → with_traffic n (with_traffic 1 d) ≡ with_traffic (suc n) d
  with_traffic-suc n d =
      ap (λ q. record d { state_queue = q })
        (append_assoc d.state_queue (traffic_detected ∷ []) (replicate n traffic_detected))

  with_traffic-zero : (d : Daemon W) → with_traffic 0 d ≡ d
  with_traffic-zero d = ap (λ q. record d { state_queue = q }) (append-nil d.state_queue)

  -- Each event sends one command while there is room for all of them.
  poll-fits :
      (entries : List (List ℕ)) (d : Daemon W)
      → length d.state_queue + events_in entries ≤ 32
      → poll_entries entries d ≡ running (with_traffic (events_in entries) d)
  unfolding poll_entries events_in
  poll-fits [] d room = ap running (sym (with_traffic-zero d))
  poll-fits (entry ∷ rest) d room = elim (Bool-cases (length entry == size_of_traffic_event)) [
    | inr other ↦ rw other (poll-fits rest d (rw other at room))
    | inl event ↦
        let first = send-room traffic_detected d (omega (arith, (rw event at room))) in
        let one = length-append d.state_queue (traffic_detected ∷ []) in
        rw (event, first)
          (poll-fits rest (with_traffic 1 d) (omega (arith, one, (rw event at room)))
            ∙ ap running (with_traffic-suc (events_in rest) d))
  ]

  -- With more events than room, the loop never gets past the one that finds the channel full.
  poll-full :
      (entries : List (List ℕ)) (d : Daemon W)
      → length d.state_queue ≤ 32
      → 32 < length d.state_queue + events_in entries
      → poll_entries entries d ≡ blocked (with_traffic (32 - length d.state_queue) d)
  unfolding poll_entries events_in
  poll-full [] d bound over = absurd (omega arith)
  poll-full (entry ∷ rest) d bound over =
      elim (Bool-cases (length entry == size_of_traffic_event)) [
        | inr other ↦ rw other (poll-full rest d bound (rw other at over))
        | inl event ↦ elim (dec_lt (length d.state_queue) 32) [
          | yes lt ↦
              let one = length-append d.state_queue (traffic_detected ∷ []) in
              let later =
                poll-full rest (with_traffic 1 d) (omega (arith, one))
                  (omega (arith, one, (rw event at over))) in
              let n = 32 - length (with_traffic 1 d).state_queue in
              let left : suc n ≡ 32 - length d.state_queue = omega (arith, one) in
              rw (event, send-room traffic_detected d lt)
                (later ∙ ap blocked (with_traffic-suc n d ∙ ap (λ k. with_traffic k d) left))
          | no ge ↦
              let none_left : 0 ≡ 32 - length d.state_queue = omega arith in
              rw (event, send-full traffic_detected d (omega arith))
                (ap blocked (sym (with_traffic-zero d) ∙ ap (λ k. with_traffic k d) none_left))
        ]
      ]

  -- A tick of the poll timer, with at most 32 commands in the channel. Without a ring buffer
  -- nothing happens. With one, and room in the channel for every entry of an event's size, each
  -- such entry puts one `TrafficDetected` at the end of the channel; with less room, the channel is
  -- filled and the loop blocks in `send`.
  pub on_ebpf_tick_lem :
      (entries : List (List ℕ)) (d : Daemon W)
      → length d.state_queue ≤ 32
      → let n = events_in entries in
        let room = 32 - length d.state_queue in
        ((poll_events W.aya d.ebpf_manager ≡ none) × (on_ebpf_tick entries d ≡ running d))
        ⊎ ((is_some (poll_events W.aya d.ebpf_manager) ≡ true)
            × (n ≤ room)
            × (on_ebpf_tick entries d ≡ running (with_traffic n d)))
        ⊎ ((is_some (poll_events W.aya d.ebpf_manager) ≡ true)
            × (room < n)
            × (on_ebpf_tick entries d ≡ blocked (with_traffic room d)))
  unfolding on_ebpf_tick
  on_ebpf_tick_lem entries d bound = elim (Option-cases (poll_events W.aya d.ebpf_manager)) [
    | inl e ↦ inl (e, rw e refl)
    | inr (rb, e) ↦ elim (dec_lt (32 - length d.state_queue) (events_in entries)) [
      | no fits ↦ inr (inl (rw e refl, omega arith, rw e (poll-fits entries d (omega arith))))
      | yes over ↦ inr (inr (rw e refl, over, rw e (poll-full entries d bound (omega arith))))
    ]
  ]
