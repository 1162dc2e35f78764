-- ===== src/Daemon/Monitor.antt =====
-- From NetworkManager's signals to the state machine: the monitor task, its channel, the main loop
-- and the channel of commands in a row.
use wg_ondemand.Base.{
  ◌≡◌, refl, ap, sym, ◌∙◌, inl, inr, List, [], ◌∷◌, ◌++◌, append_assoc, map, arith,
}
use wg_ondemand.Ssid.{NetworkEvent, SsidMonitor}
use wg_ondemand.Ssid.Channel.{Network, Move, moves, heeded, pending, to_come}
use wg_ondemand.Ssid.Channel.Fifo.{moves-fifo}
use wg_ondemand.Daemon.Loop.{
  daemon_of, Outcome-cases, Event, network, command, contended_command, ebpf_tick, idle_tick,
  retry_wakes, retry_sends, system_changes, step, steps,
}
use wg_ondemand.Daemon.{World, Daemon, running, and_then}
use wg_ondemand.Daemon.Trace.{received, command_of, told, hears, if_running, steps-run}
use wg_ondemand.Daemon.Grows.{heard, heard-append}

abbrev pub networks : {S : Type 0} → List (Event S) → List NetworkEvent
networks [] = []
networks (network e ∷ es) = e ∷ networks es
networks (_ ∷ es) = networks es

told-networks :
    {S : Type 0} (e : Event S) (es : List (Event S))
    → told e ++ map command_of (networks es) ≡ map command_of (networks (e ∷ es))
told-networks (network e) es = refl
told-networks (command now) es = refl
told-networks (contended_command now) es = refl
told-networks (ebpf_tick entries) es = refl
told-networks (idle_tick checked now) es = refl
told-networks (retry_wakes n) es = refl
told-networks retry_sends es = refl
told-networks (system_changes change) es = refl

map-append :
    (xs ys : List NetworkEvent) → map command_of (xs ++ ys) ≡ map command_of xs ++ map command_of ys
map-append [] ys = refl
map-append (x ∷ xs) ys = ap (λ t. command_of x ∷ t) (map-append xs ys)

module _ {W : World} where
  -- A loop that is not blocked has got past every network event.
  hears-networks :
      (es : List (Event W.os.State)) (d d' : Daemon W)
      → steps es d ≡ running d'
      → hears es d ≡ map command_of (networks es)
  unfolding hears steps
  hears-networks [] d d' runs = refl
  hears-networks (e ∷ es) d d' runs = elim (Outcome-cases (step e d)) [
    | inl (d1, goes) ↦
        let rest : steps es d1 ≡ running d' = rw (and_then, goes) at runs in
        rw (if_running, goes)
          (ap (λ x. told e ++ x) (hears-networks es d1 d' rest) ∙ told-networks e es)
    | inr (d1, stops) ↦ absurd (ground (arith, stops, runs))
  ]

  -- While the loop is not blocked, and its network events are those that the monitor's channel has
  -- handed out: the `StartMonitoring` and `StopMonitoring` commands that the machine has taken,
  -- then those that wait in the channel of commands, then those of the events in the monitor's
  -- channel, and of the one that the task waits to send, are the ones that waited at first,
  -- followed by one for each report of the monitor's loop on the signals it has taken. None is
  -- lost, added or overtaken.
  pub monitor_to_machine :
      (m : SsidMonitor) (vs : List Move) (n : Network) (es : List (Event W.os.State))
      (d d' : Daemon W)
      → steps es d ≡ running d'
      → networks es ≡ (moves m vs n).1
      → let n' = (moves m vs n).0 in
        heard (received es d ++ d'.state_queue)
          ++ map command_of (n'.network_queue ++ pending n'.task)
        ≡ heard d.state_queue
          ++ map command_of (n.network_queue ++ to_come m n.task (heeded m vs n))
  monitor_to_machine m vs n es d d' runs same =
      let (n', got) = moves m vs n in
      let (sent, _, fifo, told_by) = steps-run es d in
      let queue : received es d ++ d'.state_queue ≡ d.state_queue ++ sent =
        rw (daemon_of, runs) at fifo in
      let way = map command_of (n'.network_queue ++ pending n'.task) in
      let heard_all = told_by ∙ hears-networks es d d' runs ∙ ap (λ x. map command_of x) same in
      ap (λ x. heard x ++ way) queue
      ∙ ap (λ x. x ++ way)
          (heard-append d.state_queue sent ∙ ap (λ x. heard d.state_queue ++ x) heard_all)
      ∙ append_assoc (heard d.state_queue) (map command_of got) way
      ∙ ap (λ x. heard d.state_queue ++ x)
          (sym (map-append got (n'.network_queue ++ pending n'.task))
            ∙ ap (λ x. map command_of x) (moves-fifo m vs n))
