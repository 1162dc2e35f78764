-- ===== src/State/Told.antt =====
-- What the commands of the channel say about the tunnel, set against the state of the machine.
use wg_ondemand.Base.{
  ◌≡◌, refl, Bool, true, false, not, ◌&&◌, ◌||◌, List, [], ◌∷◌, ◌++◌, arith, if◌then◌else◌,
}
use wg_ondemand.Types.{TunnelState, inactive, monitoring, activating, active, deactivating}
use wg_ondemand.State.{
  StateCommand, StateManager, tunnel_up, tunnel_already_up, tunnel_down, activate_tunnel,
  deactivate_tunnel, handle_command,
}

abbrev pub says_up : StateCommand → Bool
says_up tunnel_up = true
says_up tunnel_already_up = true
says_up _ = false

abbrev pub says_down : StateCommand → Bool
says_down tunnel_down = true
says_down _ = false

-- Whether one of the commands says that the tunnel is up, or that it is down.
abbrev pub told_up : List StateCommand → Bool
told_up [] = false
told_up (cmd ∷ cmds) = says_up cmd || told_up cmds

abbrev pub told_down : List StateCommand → Bool
told_down [] = false
told_down (cmd ∷ cmds) = says_down cmd || told_down cmds

-- Whether the last word is that the tunnel is down, if one command says so.
abbrev pub down_is_last : List StateCommand → Bool
down_is_last [] = true
down_is_last (cmd ∷ cmds) =
    if says_down cmd then not (told_up cmds || told_down cmds) else down_is_last cmds

-- The state and the commands are right about a tunnel that is up or not. A machine that is
-- deactivating has asked for the end of the tunnel, whatever has been said before.
abbrev pub agrees : Bool → TunnelState → List StateCommand → Bool
agrees up deactivating cmds = down_is_last cmds
agrees up active cmds = not (told_down cmds) && up
agrees up inactive cmds = not (told_down cmds) && (not (told_up cmds) || up)
agrees up monitoring cmds = not (told_down cmds) && (not (told_up cmds) || up)
agrees up activating cmds = not (told_down cmds) && (not (told_up cmds) || up)

told_up-append :
    (cmds : List StateCommand) (cmd : StateCommand)
    → told_up (cmds ++ cmd ∷ []) ≡ (told_up cmds || says_up cmd)
told_up-append [] cmd = ground arith
told_up-append (c ∷ cmds) cmd = ground (arith, told_up-append cmds cmd)

told_down-append :
    (cmds : List StateCommand) (cmd : StateCommand)
    → told_down (cmds ++ cmd ∷ []) ≡ (told_down cmds || says_down cmd)
told_down-append [] cmd = ground arith
told_down-append (c ∷ cmds) cmd = ground (arith, told_down-append cmds cmd)

down_is_last-append :
    (cmds : List StateCommand) (cmd : StateCommand)
    → down_is_last (cmds ++ cmd ∷ [])
      ≡ (if told_down cmds then down_is_last cmds && not (says_up cmd || says_down cmd) else true)
down_is_last-append [] cmd = ground arith
down_is_last-append (c ∷ cmds) cmd =
    ground (arith, told_up-append cmds cmd, told_down-append cmds cmd, down_is_last-append cmds cmd)

undoubted : (cmds : List StateCommand) → told_down cmds ≡ false → down_is_last cmds ≡ true
undoubted [] none_down = refl
undoubted (c ∷ cmds) none_down =
    ground (arith, none_down, undoubted cmds (ground (arith, none_down)))

-- A command that does not speak of the tunnel changes nothing.
pub agrees-append :
    (up : Bool) (state : TunnelState) (cmds : List StateCommand) (cmd : StateCommand)
    → says_up cmd ≡ false
    → says_down cmd ≡ false
    → agrees up state cmds ≡ true
    → agrees up state (cmds ++ cmd ∷ []) ≡ true
agrees-append up state cmds cmd not_up not_down h = ground (
  arith,
  not_up,
  not_down,
  h,
  told_up-append cmds cmd,
  told_down-append cmds cmd,
  down_is_last-append cmds cmd,
  undoubted cmds,
)

-- A tunnel that is up besides does no harm.
pub agrees-raised :
    (up up' : Bool) (state : TunnelState) (cmds : List StateCommand)
    → (up ≡ true → up' ≡ true)
    → agrees up state cmds ≡ true
    → agrees up' state cmds ≡ true
agrees-raised up up' state cmds kept h = ground (arith, kept, h)

-- A tunnel that has come up may be told of.
pub agrees-up :
    (up : Bool) (state : TunnelState) (cmds : List StateCommand)
    → state ≡ activating
    → agrees up state cmds ≡ true
    → (agrees true state cmds ≡ true) × (agrees true state (cmds ++ tunnel_up ∷ []) ≡ true)
agrees-up up state cmds at h =
    ground (arith, at, h, told_up-append cmds tunnel_up, told_down-append cmds tunnel_up)

-- While the machine deactivates, the tunnel itself does not matter, and its end may be told of once.
pub agrees-down :
    (up : Bool) (state : TunnelState) (cmds : List StateCommand)
    → state ≡ deactivating
    → told_down cmds ≡ false
    → (agrees up state cmds ≡ true) × (agrees up state (cmds ++ tunnel_down ∷ []) ≡ true)
agrees-down up state cmds at none_down =
    ground (arith, at, none_down, undoubted cmds none_down, down_is_last-append cmds tunnel_down)

-- The machine takes a command.
pub handle_command-agrees :
    (up : Bool) (m : StateManager) (cmd : StateCommand) (cmds : List StateCommand)
    → agrees up m.state (cmd ∷ cmds) ≡ true
    → let (m', action) = handle_command m cmd in
      (agrees up m'.state cmds ≡ true)
      × (action ≡ activate_tunnel → m'.state ≡ activating)
      × (action ≡ deactivate_tunnel → (m'.state ≡ deactivating) × (told_down cmds ≡ false))
unfolding handle_command
handle_command-agrees up m cmd cmds h = ground (arith, h, undoubted cmds)
