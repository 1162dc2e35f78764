-- ===== src/Daemon/Leave.antt =====
-- From a lost network to a daemon at rest.
use wg_ondemand.Base.{◌≡◌, ◌≢◌, ◌⊎◌, inl, inr, ℕ, false, none, [], ◌∷◌, ok, arith}
use wg_ondemand.Types.{TunnelState, inactive, monitoring, activating, active, deactivating}
use wg_ondemand.Controller.{bring_down}
use wg_ondemand.Loader.{is_attached}
use wg_ondemand.Loader.Link.{detach_forgets}
use wg_ondemand.Routes.{remove_routes}
use wg_ondemand.State.{handle_command}
use wg_ondemand.Ssid.{disconnected}
use wg_ondemand.Daemon.{
  World, Daemon, send, on_network_event, on_command, handle, perform, on_detach, on_deactivate,
  write_file,
}
use wg_ondemand.Daemon.Loop.{network, command, step, steps, daemon_of}
use wg_ondemand.Daemon.Invariant.{Inv}

state_cases :
    (s : TunnelState)
    → s ≢ deactivating
    → (s ≡ inactive) ⊎ ((s ≡ monitoring) ⊎ (s ≡ activating)) ⊎ (s ≡ active)
state_cases s other = ground (arith, other)

module _ {W : World} where
  -- At rest: Inactive, with no classifier, no route, no network and an empty channel.
  pub record AtRest (d : Daemon W) : Type 0 where
    pub idle : d.state_manager.state ≡ inactive
    pub no_classifier : is_attached W.aya d.ebpf_manager ≡ false
    pub no_route : d.route_manager.active_routes ≡ []
    pub no_network : d.current_ssid ≡ none
    pub none_waits : d.state_queue ≡ []

  abbrev pub left : ℕ → ℕ → Daemon W → Daemon W
  left t1 t2 d = daemon_of (steps (network disconnected ∷ command t1 ∷ command t2 ∷ []) d)

  leave_inactive :
      (timeout t1 t2 : ℕ) (d : Daemon W)
      → Inv timeout d
      → d.state_queue ≡ []
      → d.state_manager.state ≡ inactive
      → AtRest (left t1 t2 d)
  unfolding steps step on_network_event send on_command handle handle_command perform write_file
  leave_inactive timeout t1 t2 d inv empty off =
      let (unattached, unrouted) = inv.clean off in ground (arith, empty, off, unattached, unrouted)

  leave_watching :
      (t1 t2 : ℕ) (d : Daemon W)
      → d.state_queue ≡ []
      → (d.state_manager.state ≡ monitoring) ⊎ (d.state_manager.state ≡ activating)
      → AtRest (left t1 t2 d)
  unfolding steps step on_network_event send on_command handle handle_command perform on_detach
      remove_routes write_file
  leave_watching t1 t2 d empty on =
      ground (arith, empty, on, (detach_forgets W.aya d.ebpf_manager).0)

  leave_active :
      (t1 t2 : ℕ) (d : Daemon W)
      → d.state_queue ≡ []
      → d.state_manager.state ≡ active
      → (bring_down W.os d.wg_controller d.sys).1 ≡ ok tt
      → AtRest (left t1 t2 d)
  unfolding steps step on_network_event send on_command handle handle_command perform on_detach
      on_deactivate remove_routes write_file
  leave_active t1 t2 d empty on down =
      ground (arith, empty, on, down, (detach_forgets W.aya d.ebpf_manager).0)

  -- A daemon that has the invariant, with an empty channel and not Deactivating, loses its network.
  -- If the tunnel was up and the command that takes it down succeeds, or in any other state, the
  -- loop gets past the event and two turns of the command branch, with nothing in between, and is
  -- at rest: Inactive, with no classifier attached, no active route, no current network and an
  -- empty channel.
  pub disconnect-AtRest :
      (timeout t1 t2 : ℕ) (d : Daemon W)
      → Inv timeout d
      → d.state_queue ≡ []
      → d.state_manager.state ≢ deactivating
      → (d.state_manager.state ≡ active → (bring_down W.os d.wg_controller d.sys).1 ≡ ok tt)
      → AtRest (left t1 t2 d)
  disconnect-AtRest timeout t1 t2 d inv empty settled down =
      elim (state_cases d.state_manager.state settled) [
        | inl off ↦ leave_inactive timeout t1 t2 d inv empty off
        | inr (inl on) ↦ leave_watching t1 t2 d empty on
        | inr (inr on) ↦ leave_active t1 t2 d empty on (down on)
      ]
