-- ===== src/State/Traces.antt =====
-- What a run of the state machine may ask for, counted over all its commands.
use wg_ondemand.Base.{
  ℕ, ◌≡◌, ◌≢◌, refl, All, ◌+◌, ◌≤◌, Bool, true, false, List, [], ◌∷◌, arith, count, if◌then◌else◌,
}
use wg_ondemand.Types.{TunnelState, inactive, activating, active}
use wg_ondemand.State.{
  StateManager, StateCommand, StateAction, start_monitoring, stop_monitoring, tunnel_up,
  traffic_detected, tunnel_already_up, activate_tunnel, deactivate_tunnel, new, handle_command, run,
}

abbrev pub is_traffic : StateCommand → Bool
is_traffic traffic_detected = true
is_traffic _ = false

abbrev pub is_already_up : StateCommand → Bool
is_already_up tunnel_already_up = true
is_already_up _ = false

abbrev pub is_activate : StateAction → Bool
is_activate activate_tunnel = true
is_activate _ = false

abbrev pub is_deactivate : StateAction → Bool
is_deactivate deactivate_tunnel = true
is_deactivate _ = false

-- One while the tunnel comes up or is up.
abbrev up : TunnelState → ℕ
up activating = 1
up active = 1
up _ = 0

abbrev pub one_if : Bool → ℕ
one_if b = if b then 1 else 0

pub step_traffic :
    (m : StateManager) (cmd : StateCommand)
    → one_if (is_activate (handle_command m cmd).1) ≤ one_if (is_traffic cmd)
unfolding handle_command
step_traffic m cmd = ground arith

step_up :
    (m : StateManager) (cmd : StateCommand)
    → let (m', a) = handle_command m cmd in
      one_if (is_deactivate a) + up m'.state
      ≤ up m.state + one_if (is_activate a) + one_if (is_already_up cmd)
unfolding handle_command
step_up m cmd = ground arith

traffic_from :
    (m : StateManager) (cmds : List StateCommand)
    → count is_activate (run m cmds).1 ≤ count is_traffic cmds
unfolding run
traffic_from m [] = omega arith
traffic_from m (cmd ∷ cmds) =
    omega (arith, step_traffic m cmd, traffic_from (handle_command m cmd).0 cmds)

up_from :
    (m : StateManager) (cmds : List StateCommand)
    → let (m', actions) = run m cmds in
      count is_deactivate actions + up m'.state
      ≤ up m.state + count is_activate actions + count is_already_up cmds
unfolding run
up_from m [] = omega arith
up_from m (cmd ∷ cmds) = omega (arith, step_up m cmd, up_from (handle_command m cmd).0 cmds)

-- From a new manager, over any commands, the tunnel is activated at most once for each detection of
-- traffic.
pub activations_need_traffic :
    (timeout : ℕ) (cmds : List StateCommand)
    → count is_activate (run (new timeout) cmds).1 ≤ count is_traffic cmds
activations_need_traffic timeout cmds = traffic_from (new timeout) cmds

-- From a new manager, over any commands, the tunnel is deactivated at most once for each time that
-- it was activated or found up.
pub deactivations_need_tunnel :
    (timeout : ℕ) (cmds : List StateCommand)
    → let actions = (run (new timeout) cmds).1 in
      count is_deactivate actions ≤ count is_activate actions + count is_already_up cmds
unfolding new
deactivations_need_tunnel timeout cmds = omega (arith, up_from (new timeout) cmds)

-- An inactive machine waits for a connection.
inactive_waits :
    (m : StateManager) (cmds : List StateCommand)
    → m.state ≡ inactive
    → All (λ c. c ≢ start_monitoring) cmds
    → let (m', actions) = run m cmds in (m'.state ≡ inactive) × (count is_deactivate actions ≡ 0)
unfolding run handle_command
inactive_waits m [] off h = (off, refl)
inactive_waits m (cmd ∷ cmds) off (other, rest) =
    let next : (handle_command m cmd).0.state ≡ inactive = ground (arith, off, other) in
    let quiet : count is_deactivate ((handle_command m cmd).1 ∷ []) ≡ 0 =
      ground (arith, off, other) in
    let later = inactive_waits (handle_command m cmd).0 cmds next rest in
    (later.0, omega (arith, quiet, later.1))

-- If the network is left while the tunnel comes up, and the tunnel's coming up is told afterwards,
-- the machine is inactive, and until the next connection to a monitored network it never asks for
-- the tunnel to be brought down.
pub abort_leaves_tunnel :
    (m : StateManager) (later : List StateCommand)
    → m.state ≡ activating
    → All (λ c. c ≢ start_monitoring) later
    → let (m', actions) = run m (stop_monitoring ∷ tunnel_up ∷ later) in
      (m'.state ≡ inactive) × (count is_deactivate actions ≡ 0)
unfolding run handle_command
abort_leaves_tunnel m later up h =
    let left = (handle_command m stop_monitoring).0 in
    let off : left.state ≡ inactive = ground (arith, up) in
    let quiet : count is_deactivate ((handle_command m stop_monitoring).1 ∷ []) ≡ 0 =
      ground (arith, up) in
    let rest = inactive_waits left (tunnel_up ∷ later) off ((λ e. absurd (ground (arith, e))), h) in
    (rest.0, omega (arith, quiet, rest.1))
