-- ===== src/Daemon/Idle.antt =====
-- From an idle tunnel to the command that takes it down.
use wg_ondemand.Base.{
  ℕ, ◌*◌, ◌^◌, ◌-◌, ◌==◌, ◌&&◌, ◌<◌, ◌≤◌, ◌≡◌, refl, sym, ◌⊎◌, inl, inr, some, [], ◌∷◌,
  if◌then◌else◌, ltb, ok, arith, Bool-cases, Result-cases,
}
use wg_ondemand.Types.{active, deactivating}
use wg_ondemand.Controller.{
  WgController, get_transfer_stats, check_activity, idle_duration, bring_down, tunnel_command,
}
use wg_ondemand.State.{idle_timeout_reached, handle_command}
use wg_ondemand.StateFile.{write_state}
use wg_ondemand.Daemon.{
  World, Daemon, running, on_idle_tick, idle_check, on_command, handle, perform, on_deactivate,
  write_file, send,
}
use wg_ondemand.Daemon.Loop.{idle_tick, command, step, steps, daemon_of}
use wg_ondemand.Daemon.Packet.{and_then_end}

-- The time from which a check counts: the last activity, or its own time if a counter has changed.
abbrev pub since : WgController → ℕ → ℕ → ℕ → ℕ → ℕ
since c rx tx checked t = if rx == c.last_rx_bytes && tx == c.last_tx_bytes then t else checked

module _ {W : World} where
  -- The controller after the check takes the tunnel down by the same command.
  checked_controller :
      (d : Daemon W) (rx tx checked t : ℕ)
      → get_transfer_stats (W.device d.sys) d.wg_controller ≡ ok (rx, tx)
      → d.wg_controller.last_activity ≡ some t
      → let c' = (check_activity (W.device d.sys) d.wg_controller checked).0 in
        (c'.last_activity ≡ some (since d.wg_controller rx tx checked t))
        × (bring_down W.os c' d.sys ≡ bring_down W.os d.wg_controller d.sys)
  unfolding check_activity bring_down tunnel_command
  checked_controller d rx tx checked t read seen =
      elim (Bool-cases
        (rx == d.wg_controller.last_rx_bytes && tx == d.wg_controller.last_tx_bytes)) [
          | inl quiet ↦ ground (arith, read, seen, quiet)
          | inr busy ↦ ground (arith, read, seen, busy)
        ]

  -- The command received by an Active daemon with nothing else in its channel.
  pub deactivated :
      (later : ℕ) (d : Daemon W)
      → d.state_manager.state ≡ active
      → d.state_queue ≡ idle_timeout_reached ∷ []
      → let d' = daemon_of (on_command later d) in
        let s = (bring_down W.os d.wg_controller d.sys).0 in
        (d'.state_manager.state ≡ deactivating)
        × (d'.sys ≡ (write_state W.files deactivating d.current_ssid s).0)
  unfolding on_command handle handle_command perform on_deactivate write_file send
  deactivated later d on waits = elim (Result-cases (bring_down W.os d.wg_controller d.sys).1) [
    | inl (_, e) ↦ ground (arith, on, waits, e)
    | inr (_, e) ↦ ground (arith, on, waits, e)
  ]

  abbrev checked_daemon : ℕ → Daemon W → Daemon W
  checked_daemon checked d = record d {
    wg_controller = (check_activity (W.device d.sys) d.wg_controller checked).0;
  }

  -- The tick itself, by whether the time is up.
  ticked :
      (checked now start : ℕ) (d : Daemon W)
      → d.state_manager.state ≡ active
      → d.state_queue ≡ []
      → (checked_daemon checked d).wg_controller.last_activity ≡ some start
      → let limit = d.state_manager.idle_timeout * 10 ^ 9 in
        ((limit < now - start)
          × (on_idle_tick checked now d
              ≡ running
                  (record (checked_daemon checked d) { state_queue = idle_timeout_reached ∷ [] })))
        ⊎ ((now - start ≤ limit)
            × (on_idle_tick checked now d ≡ running (checked_daemon checked d)))
  unfolding on_idle_tick idle_check idle_duration send
  ticked checked now start d on empty seen =
      elim (Bool-cases (ltb (d.state_manager.idle_timeout * 10 ^ 9) (now - start))) [
        | inl over ↦ inl (ground (arith, over), ground (arith, on, empty, seen, over))
        | inr within ↦ inr (ground (arith, within), ground (arith, on, empty, seen, within))
      ]

  two_steps :
      (checked now later : ℕ) (d d' : Daemon W)
      → on_idle_tick checked now d ≡ running d'
      → daemon_of (steps (idle_tick checked now ∷ command later ∷ []) d)
        ≡ daemon_of (on_command later d')
  unfolding steps step
  two_steps checked now later d d' e = rw (daemon_of, e) (and_then_end (on_command later d'))

  pub nothing_waits :
      (later : ℕ) (d : Daemon W) → d.state_queue ≡ [] → on_command later d ≡ running d
  unfolding on_command
  nothing_waits later d empty = ground (arith, empty)

  -- An Active daemon with an empty channel, whose counters can be read, takes an idle tick and then
  -- the next command. Let the idle time count from the last activity, or from the check if a counter
  -- has changed since the last one. If it is over the timeout, the daemon runs the command that takes
  -- the tunnel down and is left Deactivating, with that state written to the state file; otherwise it
  -- stays Active, runs nothing, and its channel stays empty.
  pub idle_deactivates :
      (d : Daemon W) (rx tx checked now later t : ℕ)
      → d.state_manager.state ≡ active
      → d.state_queue ≡ []
      → get_transfer_stats (W.device d.sys) d.wg_controller ≡ ok (rx, tx)
      → d.wg_controller.last_activity ≡ some t
      → let d' = daemon_of (steps (idle_tick checked now ∷ command later ∷ []) d) in
        let idle = now - since d.wg_controller rx tx checked t in
        let s = (bring_down W.os d.wg_controller d.sys).0 in
        ((d.state_manager.idle_timeout * 10 ^ 9 < idle)
          × (d'.state_manager.state ≡ deactivating)
          × (d'.sys ≡ (write_state W.files deactivating d.current_ssid s).0))
        ⊎ ((idle ≤ d.state_manager.idle_timeout * 10 ^ 9)
            × (d'.state_manager.state ≡ active)
            × (d'.sys ≡ d.sys)
            × (d'.state_queue ≡ []))
  idle_deactivates d rx tx checked now later t on empty read seen =
      let (start, same_command) = checked_controller d rx tx checked t read seen in
      let d1 : Daemon W = checked_daemon checked d in
      let waiting : Daemon W = record d1 { state_queue = idle_timeout_reached ∷ [] } in
      elim (ticked checked now (since d.wg_controller rx tx checked t) d on empty start) [
        | inl (over, goes) ↦
            let (down, written) = deactivated later waiting on refl in
            inl (
              over,
              rw (two_steps checked now later d waiting goes) down,
              rw (two_steps checked now later d waiting goes, sym same_command) written,
            )
        | inr (within, goes) ↦
            let same = two_steps checked now later d d1 goes in
            let stays = nothing_waits later d1 empty in
            inr (
              within,
              rw (daemon_of, same, stays) on,
              rw (daemon_of, same, stays) refl,
              rw (daemon_of, same, stays) empty,
            )
      ]
