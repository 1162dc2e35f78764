-- ===== src/State/Diagram.antt =====
-- The transition diagram that the state machine's comments describe, with the command that each edge
-- answers to, whether a monitored network is there, and the action on the edge.
use wg_ondemand.Base.{◌≡◌, refl, ◌↔◌, Bool, true, false, arith}
use wg_ondemand.Types.{TunnelState, inactive, monitoring, activating, active, deactivating}
use wg_ondemand.State.{
  StateManager, StateCommand, StateAction, start_monitoring, stop_monitoring, traffic_detected,
  tunnel_up, tunnel_down, idle_timeout_reached, tunnel_already_up, retry_ebpf_attachment,
  attach_ebpf, detach_ebpf, activate_tunnel, deactivate_tunnel, no_action, handle_command,
}

-- The commands that a state answers to.
abbrev pub answers : TunnelState → StateCommand → Bool
answers inactive start_monitoring = true
answers monitoring stop_monitoring = true
answers monitoring traffic_detected = true
answers monitoring tunnel_already_up = true
answers monitoring retry_ebpf_attachment = true
answers activating stop_monitoring = true
answers activating tunnel_up = true
answers active stop_monitoring = true
answers active idle_timeout_reached = true
answers deactivating tunnel_down = true
answers _ _ = false

pub data Edge : TunnelState → StateCommand → Bool → StateAction → TunnelState → Type 0 where
  connect : {on : Bool} → Edge inactive start_monitoring on attach_ebpf monitoring
  disconnect : {on : Bool} → Edge monitoring stop_monitoring on detach_ebpf inactive
  abort : {on : Bool} → Edge activating stop_monitoring on detach_ebpf inactive
  trigger : {on : Bool} → Edge monitoring traffic_detected on activate_tunnel activating
  adopt : {on : Bool} → Edge monitoring tunnel_already_up on no_action active
  come_up : {on : Bool} → Edge activating tunnel_up on detach_ebpf active
  leave : {on : Bool} → Edge active stop_monitoring on deactivate_tunnel deactivating
  expire : {on : Bool} → Edge active idle_timeout_reached on deactivate_tunnel deactivating
  resume : Edge deactivating tunnel_down true attach_ebpf monitoring
  settle : Edge deactivating tunnel_down false detach_ebpf inactive
  retry : {on : Bool} → Edge monitoring retry_ebpf_attachment on attach_ebpf monitoring
  stay :
      {s : TunnelState} {cmd : StateCommand} {on : Bool}
      → answers s cmd ≡ false
      → Edge s cmd on no_action s

ruleset edges = (
  connect, disconnect, abort, trigger, adopt, come_up, leave, expire, resume, settle, retry, stay,
)

follows :
    (m : StateManager) (cmd : StateCommand)
    → let (m', action) = handle_command m cmd in
      Edge m.state cmd m.on_monitored_ssid action m'.state
unfolding handle_command
follows m cmd = grind (arith, edges)

-- There is no other edge.
taken :
    {s t : TunnelState} {cmd : StateCommand} {on : Bool} {a : StateAction} (m : StateManager)
    → Edge s cmd on a t
    → m.state ≡ s
    → m.on_monitored_ssid ≡ on
    → ((handle_command m cmd).1 ≡ a) × ((handle_command m cmd).0.state ≡ t)
unfolding handle_command
taken m connect at known = ground (arith, at)
taken m disconnect at known = ground (arith, at)
taken m abort at known = ground (arith, at)
taken m trigger at known = ground (arith, at)
taken m adopt at known = ground (arith, at)
taken m come_up at known = ground (arith, at)
taken m leave at known = ground (arith, at)
taken m expire at known = ground (arith, at)
taken m resume at known = ground (arith, at, known)
taken m settle at known = ground (arith, at, known)
taken m retry at known = ground (arith, at)
taken m (stay {s = s} {cmd = cmd} other) at known = ground (arith, at, other)

-- The edges of the diagram from a state on a command, with the action and the state that they lead
-- to, are exactly the action that `handle_command` returns and the state that it moves to.
pub handle_command-Edge :
    (m : StateManager) (cmd : StateCommand) (a : StateAction) (t : TunnelState)
    → Edge m.state cmd m.on_monitored_ssid a t
      ↔ (((handle_command m cmd).1 ≡ a) × ((handle_command m cmd).0.state ≡ t))
handle_command-Edge m cmd a t =
    (λ e. taken m e refl refl, λ (is_a, is_t). rw (is_a, is_t) at (follows m cmd))
