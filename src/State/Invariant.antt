-- ===== src/State/Invariant.antt =====
-- The invariant of the state manager, on every command and every run.
use wg_ondemand.Base.{ℕ, ◌⊎◌, ◌≡◌, refl, Bool, true, false, List, [], ◌∷◌, arith}
use wg_ondemand.Types.{TunnelState, inactive, deactivating}
use wg_ondemand.State.{
  StateManager, StateCommand, stop_monitoring, tunnel_down, start_monitoring, detach_ebpf,
  no_action, new, handle_command, run,
}

-- `on_monitored_ssid` follows the state, but while the tunnel goes down it may be either.
abbrev pub Agrees : TunnelState → Bool → Type 0
Agrees inactive on = on ≡ false
Agrees deactivating on = Unit
Agrees _ on = on ≡ true

pub record Inv (timeout : ℕ) (m : StateManager) : Type 0 where
  pub agrees : Agrees m.state m.on_monitored_ssid
  pub timeout_kept : m.idle_timeout ≡ timeout

pub handle_command-Inv :
    (timeout : ℕ) (m : StateManager) (cmd : StateCommand)
    → Inv timeout m
    → Inv timeout (handle_command m cmd).0
unfolding handle_command
handle_command-Inv timeout m cmd h = ground arith

run_from-Inv :
    (timeout : ℕ) (m : StateManager) (cmds : List StateCommand)
    → Inv timeout m
    → Inv timeout (run m cmds).0
unfolding run
run_from-Inv timeout m [] h = h
run_from-Inv timeout m (cmd ∷ cmds) h =
    run_from-Inv timeout (handle_command m cmd).0 cmds (handle_command-Inv timeout m cmd h)

-- Whatever the commands, the manager ends in a state where `on_monitored_ssid` agrees with the
-- state: false when inactive, true when monitoring, activating or active; the timeout is kept.
pub run-Inv : (timeout : ℕ) (cmds : List StateCommand) → Inv timeout (run (new timeout) cmds).0
unfolding new
run-Inv timeout cmds =
    run_from-Inv timeout (new timeout) cmds (record { agrees = refl; timeout_kept = refl })

-- A command that leaves the manager inactive asks for a detachment, or does nothing to a manager
-- that is inactive.
pub inactive_after :
    (m : StateManager) (cmd : StateCommand)
    → let (m', action) = handle_command m cmd in
      m'.state ≡ inactive → (action ≡ detach_ebpf) ⊎ ((action ≡ no_action) × (m.state ≡ inactive))
unfolding handle_command
inactive_after m cmd h = ground arith

-- A connection that is made while the tunnel goes down is forgotten: the manager ends inactive.
pub reconnect_lost :
    (m : StateManager)
    → m.state ≡ deactivating
    → let (m', actions) = run m (stop_monitoring ∷ start_monitoring ∷ tunnel_down ∷ []) in
      (m'.state ≡ inactive)
      × (m'.on_monitored_ssid ≡ false)
      × (actions ≡ no_action ∷ no_action ∷ detach_ebpf ∷ [])
unfolding run handle_command
reconnect_lost m h = ground arith
