-- ===== src/Ssid/Channel/Fifo.antt =====
-- What the main loop receives from the monitor, and what is under way, against the monitor's reports.
use wg_ondemand.Base.{
  ◌≤◌, ◌≡◌, refl, ap, sym, ◌∙◌, inl, inr, Bool, List, [], ◌∷◌, ◌++◌, append_assoc, arith, length,
  length-append, ltb, Bool-cases, Result-cases,
}
use wg_ondemand.Ssid.{
  NetworkEvent, SsidMonitor, Signal, is_connected_to_target, events_of, monitor_loop,
}
use wg_ondemand.Ssid.Channel.{
  MonitorTask, listening, sending, ended, Network, Move, signals, stream_ends, sends, receives,
  check_signal, reports, move, moves, heeded_by, heeded, pending, to_come,
}

module _ (m : SsidMonitor) where
  abbrev net : MonitorTask → List NetworkEvent → Network
  net t queue = record { task = t; network_queue = queue }

  ended_stays : (v : Move) (queue : List NetworkEvent) → (move m v (net ended queue)).0.task ≡ ended
  unfolding move
  ended_stays (signals s) queue = refl
  ended_stays stream_ends queue = refl
  ended_stays sends queue = refl
  ended_stays receives [] = refl
  ended_stays receives (e ∷ queue) = refl

  -- A task that is over hands out no further signal.
  ended_heeds : (vs : List Move) (n : Network) → n.task ≡ ended → heeded m vs n ≡ []
  unfolding heeded
  ended_heeds [] n over = refl
  ended_heeds (v ∷ vs) n over =
      let after : Network = (move m v (net ended n.network_queue)).0 in
      rw (heeded_by, over) (ended_heeds vs after (ended_stays v n.network_queue))

  signal_to_come :
      (was : Bool) (s : Signal) (ss : List Signal)
      → to_come m (check_signal m was s) ss ≡ monitor_loop m was (s ∷ ss)
  unfolding check_signal reports monitor_loop events_of
  signal_to_come was s ss = elim (Result-cases (is_connected_to_target m s.checked)) [
    | inr (_, e) ↦ ground (arith, e)
    | inl (c, e) ↦ ground (arith, e)
  ]

  -- What is in the channel and to come, after a move and before it.
  abbrev Carries : Move → MonitorTask → List NetworkEvent → List Signal → Type 0
  Carries v t queue ss =
      let (n', got) = move m v (net t queue) in
      got ++ (n'.network_queue ++ to_come m n'.task ss) ≡ queue ++ to_come m t (heeded_by t v ++ ss)

  sends-fifo :
      (t : MonitorTask) (queue : List NetworkEvent) (ss : List Signal) → Carries sends t queue ss
  unfolding move
  sends-fifo (listening was) queue ss = refl
  sends-fifo (sending c e) queue ss = elim (Bool-cases (ltb (length queue) 32)) [
    | inl lt ↦ rw lt (append_assoc queue (e ∷ []) (monitor_loop m c ss))
    | inr ge ↦ rw ge refl
  ]
  sends-fifo ended queue ss = refl

  -- A move loses no report, and changes no order.
  move-fifo :
      (v : Move) (t : MonitorTask) (queue : List NetworkEvent) (ss : List Signal)
      → ((move m v (net t queue)).0.task ≡ ended → ss ≡ [])
      → Carries v t queue ss
  unfolding move monitor_loop
  move-fifo (signals s) (listening was) queue ss none_after =
      ap (λ x. queue ++ x) (signal_to_come was s ss)
  move-fifo (signals s) (sending c e) queue ss none_after = refl
  move-fifo (signals s) ended queue ss none_after = refl
  move-fifo stream_ends (listening was) queue ss none_after = rw (none_after refl) refl
  move-fifo stream_ends (sending c e) queue ss none_after = refl
  move-fifo stream_ends ended queue ss none_after = refl
  move-fifo sends t queue ss none_after = sends-fifo t queue ss
  move-fifo receives (listening was) [] ss none_after = refl
  move-fifo receives (listening was) (e ∷ queue) ss none_after = refl
  move-fifo receives (sending c e') [] ss none_after = refl
  move-fifo receives (sending c e') (e ∷ queue) ss none_after = refl
  move-fifo receives ended [] ss none_after = refl
  move-fifo receives ended (e ∷ queue) ss none_after = refl

  to_come-pending : (t : MonitorTask) → to_come m t [] ≡ pending t
  unfolding monitor_loop
  to_come-pending (listening was) = refl
  to_come-pending (sending c e) = refl
  to_come-pending ended = refl

  -- Whatever the moves: what the loop has received, then what waits in the channel, then what the
  -- task waits to send, is what was in the channel at first followed by the reports of the monitor's
  -- loop on the signals that the task has taken from its stream.
  pub moves-fifo :
      (vs : List Move) (n : Network)
      → let (n', got) = moves m vs n in
        got ++ (n'.network_queue ++ pending n'.task)
        ≡ n.network_queue ++ to_come m n.task (heeded m vs n)
  unfolding moves heeded
  moves-fifo [] n = ap (λ x. n.network_queue ++ x) (sym (to_come-pending n.task))
  moves-fifo (v ∷ vs) n =
      let (n', first) = move m v n in
      let (n'', later) = moves m vs n' in
      let ss = heeded m vs n' in
      append_assoc first later (n''.network_queue ++ pending n''.task)
      ∙ ap (λ x. first ++ x) (moves-fifo vs n')
      ∙ move-fifo v n.task n.network_queue ss (ended_heeds vs n')

  move-bound :
      (v : Move) (t : MonitorTask) (queue : List NetworkEvent)
      → length queue ≤ 32
      → length (move m v (net t queue)).0.network_queue ≤ 32
  unfolding move
  move-bound (signals s) t queue bound = bound
  move-bound stream_ends t queue bound = bound
  move-bound sends (listening was) queue bound = bound
  move-bound sends (sending c e) queue bound = ground (arith, bound, length-append queue (e ∷ []))
  move-bound sends ended queue bound = bound
  move-bound receives t [] bound = bound
  move-bound receives t (e ∷ queue) bound = omega arith

  -- The channel never holds more than its 32 events.
  pub moves-bound :
      (vs : List Move) (n : Network)
      → length n.network_queue ≤ 32
      → length (moves m vs n).0.network_queue ≤ 32
  unfolding moves
  moves-bound [] n bound = bound
  moves-bound (v ∷ vs) n bound =
      moves-bound vs (move m v n).0 (move-bound v n.task n.network_queue bound)
