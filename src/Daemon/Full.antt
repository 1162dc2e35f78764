-- ===== src/Daemon/Full.antt =====
-- A loop that blocks has a full channel.
use wg_ondemand.Base.{ℕ, ◌≤◌, inl, inr, arith, length, ltb, Bool-cases, List-cases, Result-cases}
use wg_ondemand.Controller.{bring_up, bring_down}
use wg_ondemand.State.{
  StateCommand, StateAction, tunnel_up, tunnel_down, attach_ebpf, detach_ebpf, activate_tunnel,
  deactivate_tunnel, no_action, handle_command,
}
use wg_ondemand.Daemon.{
  World, Daemon, Outcome, running, blocked, and_then, send, perform, handle, on_activate,
  on_deactivate, on_command, write_file,
}

module _ {W : World} where
  -- A blocked loop has a full channel.
  abbrev pub Full : Outcome W → Type 0
  Full (running d) = Unit
  Full (blocked d) = 32 ≤ length d.state_queue

  pub send-Full : (cmd : StateCommand) (d : Daemon W) → Full (send cmd d)
  unfolding send
  send-Full cmd d = elim (Bool-cases (ltb (length d.state_queue) 32)) [
    | inl lt ↦ rw (Full, lt) tt
    | inr ge ↦ rw (Full, ge) (ground (arith, ge))
  ]

  pub and_then-Full :
      (o : Outcome W) (f : Daemon W → Outcome W)
      → Full o
      → ((d : Daemon W) → Full (f d))
      → Full (and_then o f)
  and_then-Full (running d) f h next = next d
  and_then-Full (blocked d) f h next = h

  on_activate-Full : (now : ℕ) (d : Daemon W) → Full (on_activate now d)
  unfolding on_activate
  on_activate-Full now d = elim (Result-cases (bring_up W.os d.wg_controller d.sys).1) [
    | inl (_, e) ↦ rw (Full, e) (send-Full tunnel_up _)
    | inr (_, e) ↦ rw (Full, e) tt
  ]

  on_deactivate-Full : (d : Daemon W) → Full (on_deactivate d)
  unfolding on_deactivate
  on_deactivate-Full d = elim (Result-cases (bring_down W.os d.wg_controller d.sys).1) [
    | inl (_, e) ↦ rw (Full, e) (send-Full tunnel_down _)
    | inr (_, e) ↦ rw (Full, e) tt
  ]

  perform-Full : (action : StateAction) (now : ℕ) (d : Daemon W) → Full (perform action now d)
  unfolding perform
  perform-Full attach_ebpf now d = tt
  perform-Full detach_ebpf now d = tt
  perform-Full activate_tunnel now d = on_activate-Full now d
  perform-Full deactivate_tunnel now d = on_deactivate-Full d
  perform-Full no_action now d = tt

  pub on_command-Full : (now : ℕ) (d : Daemon W) → Full (on_command now d)
  unfolding on_command handle
  on_command-Full now d = elim (List-cases d.state_queue) [
    | inl e ↦ rw (Full, e) tt
    | inr (cmd, queue, e) ↦
        let (m', action) = handle_command d.state_manager cmd in
        let taken : Daemon W = record d { state_queue = queue; state_manager = m' } in
        rw (Full, e)
          (and_then-Full (perform action now taken) (λ x. running (write_file x))
            (perform-Full action now taken) (λ x. tt))
  ]
