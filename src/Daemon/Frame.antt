-- ===== src/Daemon/Frame.antt =====
-- What every branch of the loop does to the daemon, apart from the events of the network and the
-- moves of the retry tasks: a relation that its elementary steps respect is respected by the
-- branch. The system is moved by the programs that a branch runs, but for the state file after a
-- command.
use wg_ondemand.Base.{
  ℕ, ◌*◌, ◌^◌, ◌==◌, ◌≡◌, refl, inl, inr, Bool, true, false, List, [], ◌∷◌, length, ltb, is_some,
  Bool-cases, Option-cases, Result-cases,
}
use wg_ondemand.Types.{is_active}
use wg_ondemand.Config.{ip_in_subnets}
use wg_ondemand.Loader.{EbpfManager, poll_events, attach, detach}
use wg_ondemand.Controller.{
  WgController, bring_up, bring_down, reset_activity, check_activity, idle_duration,
}
use wg_ondemand.Routes.{RouteManager, add_routes, remove_routes}
use wg_ondemand.Routes.Runs.{add_routes-Ran, remove_routes-Ran}
use wg_ondemand.Os.Ran.{Ran, AnyProgram, Ran-any, unmoved}
use wg_ondemand.Controller.Runs.{bring_up-Ran, bring_down-Ran}
use wg_ondemand.State.{
  StateCommand, StateAction, attach_ebpf, detach_ebpf, tunnel_up, tunnel_down, idle_timeout_reached,
  start_monitoring, stop_monitoring, traffic_detected, activate_tunnel, deactivate_tunnel,
  no_action, handle_command,
}
use wg_ondemand.Daemon.{
  World, Daemon, Outcome, running, blocked, and_then, send, perform, handle, local_address,
  on_attach, on_detach, attach_with_routes, spawn_attachment_retry_task, on_activate, on_deactivate,
  write_file, on_ebpf_tick, poll_entries, idle_check, on_idle_tick,
}
use wg_ondemand.Daemon.Loop.{daemon_of}

-- The commands that the events of the network ask for.
abbrev pub is_network_command : StateCommand → Bool
is_network_command start_monitoring = true
is_network_command stop_monitoring = true
is_network_command _ = false

module _ {W : World} where
  -- A relation between a daemon and a later one. `outside` is all that lies outside of the loop's own
  -- variables: the controller, the classifier, the routes and the system.
  pub record Frame (R : Daemon W → Daemon W → Type 0) : Type 0 where
    pub same : (d : Daemon W) → R d d
    pub join : (d d' d'' : Daemon W) → R d d' → R d' d'' → R d d''
    pub outside :
        (d : Daemon W) (c : WgController) (e : EbpfManager W.aya) (r : RouteManager)
        (s : W.os.State)
        → Ran W.os AnyProgram d.sys s
        → R d (record d { wg_controller = c; ebpf_manager = e; route_manager = r; sys = s })
    pub sends :
        (cmd : StateCommand) (d : Daemon W)
        → is_network_command cmd ≡ false
        → R d (daemon_of (send cmd d))
    pub spawns : (d : Daemon W) → R d (spawn_attachment_retry_task d)

  module _ (R : Daemon W → Daemon W → Type 0) (F : Frame R) where
    and_then-frame :
        (d : Daemon W) (o : Outcome W) (f : Daemon W → Outcome W)
        → R d (daemon_of o)
        → ((d' : Daemon W) → R d' (daemon_of (f d')))
        → R d (daemon_of (and_then o f))
    and_then-frame d (running d') f first next = F.join d d' (daemon_of (f d')) first (next d')
    and_then-frame d (blocked d') f first next = first

    attach_with_routes-frame : (d : Daemon W) → R d (attach_with_routes d)
    unfolding attach_with_routes
    attach_with_routes-frame d =
        let (s, r, _) = add_routes W.os d.ranges d.route_manager d.sys in
        F.outside d d.wg_controller (attach W.aya d.ebpf_manager).0 r s
          (Ran-any (add_routes-Ran d.ranges d.route_manager d.sys))

    on_attach-frame : (d : Daemon W) → R d (on_attach d)
    unfolding on_attach
    on_attach-frame d = elim (Result-cases (local_address d)) [
      | inr (_, e) ↦ rw e (F.same d)
      | inl (found, e) ↦ elim (Option-cases found) [
        | inl missing ↦ rw (e, missing) (F.spawns d)
        | inr (ip, here) ↦ elim (Result-cases (ip_in_subnets ip d.ranges)) [
          | inr (_, failed) ↦ rw (e, here, failed) (F.same d)
          | inl (hit, tested) ↦ elim (Bool-cases hit) [
            | inl conflict ↦ rw (e, here, tested, conflict) (F.same d)
            | inr free ↦ rw (e, here, tested, free) (attach_with_routes-frame d)
          ]
        ]
      ]
    ]

    on_activate-frame : (now : ℕ) (d : Daemon W) → R d (daemon_of (on_activate now d))
    unfolding on_activate
    on_activate-frame now d =
        let (s, r) = bring_up W.os d.wg_controller d.sys in
        let runs = bring_up-Ran d.wg_controller d.sys in
        let c = reset_activity d.wg_controller now in
        let up : Daemon W = record d { sys = s; wg_controller = c } in
        elim (Result-cases r) [
          | inl (_, e) ↦
              rw (daemon_of, e)
                (F.join d up _ (F.outside d c d.ebpf_manager d.route_manager s runs)
                  (F.sends tunnel_up up refl))
          | inr (_, e) ↦
              rw (daemon_of, e) (F.outside d d.wg_controller d.ebpf_manager d.route_manager s runs)
        ]

    on_deactivate-frame : (d : Daemon W) → R d (daemon_of (on_deactivate d))
    unfolding on_deactivate
    on_deactivate-frame d =
        let (s, r) = bring_down W.os d.wg_controller d.sys in
        let down : Daemon W = record d { sys = s } in
        let gone =
          F.outside d d.wg_controller d.ebpf_manager d.route_manager s
            (bring_down-Ran d.wg_controller d.sys) in
        elim (Result-cases r) [
          | inl (_, e) ↦ rw (daemon_of, e) (F.join d down _ gone (F.sends tunnel_down down refl))
          | inr (_, e) ↦ rw (daemon_of, e) gone
        ]

    pub perform-frame :
        (action : StateAction) (now : ℕ) (d : Daemon W) → R d (daemon_of (perform action now d))
    unfolding perform on_detach
    perform-frame attach_ebpf now d = on_attach-frame d
    perform-frame detach_ebpf now d =
        let (s, r) = remove_routes W.os W.drain d.route_manager d.sys in
        F.outside d d.wg_controller (detach W.aya d.ebpf_manager).0 r s
          (Ran-any (remove_routes-Ran W.drain d.route_manager d.sys))
    perform-frame activate_tunnel now d = on_activate-frame now d
    perform-frame deactivate_tunnel now d = on_deactivate-frame d
    perform-frame no_action now d = F.same d

    -- A command, from the daemon whose manager has taken it.
    pub handle-frame :
        (writes : (d : Daemon W) → R d (write_file d)) (cmd : StateCommand) (now : ℕ) (d : Daemon W)
        → R
            (record d { state_manager = (handle_command d.state_manager cmd).0 })
            (daemon_of (handle cmd now d))
    unfolding handle
    handle-frame writes cmd now d =
        let (m', action) = handle_command d.state_manager cmd in
        let d' : Daemon W = record d { state_manager = m' } in
        and_then-frame d' (perform action now d') (λ x. running (write_file x))
          (perform-frame action now d') writes

    poll_entries-frame :
        (entries : List (List ℕ)) (d : Daemon W) → R d (daemon_of (poll_entries entries d))
    unfolding poll_entries
    poll_entries-frame [] d = F.same d
    poll_entries-frame (entry ∷ rest) d = elim (Bool-cases (length entry == 16)) [
      | inl e ↦ rw e (
          and_then-frame d (send traffic_detected d) (poll_entries rest)
            (F.sends traffic_detected d refl) (poll_entries-frame rest))
      | inr e ↦ rw e (poll_entries-frame rest d)
    ]

    pub on_ebpf_tick-frame :
        (entries : List (List ℕ)) (d : Daemon W) → R d (daemon_of (on_ebpf_tick entries d))
    unfolding on_ebpf_tick
    on_ebpf_tick-frame entries d = elim (Bool-cases (is_some (poll_events W.aya d.ebpf_manager))) [
      | inl e ↦ rw e (poll_entries-frame entries d)
      | inr e ↦ rw (daemon_of, e) (F.same d)
    ]

    idle_check-frame : (now : ℕ) (d : Daemon W) → R d (daemon_of (idle_check now d))
    unfolding idle_check
    idle_check-frame now d = elim (Option-cases (idle_duration d.wg_controller now)) [
      | inl e ↦ rw (daemon_of, e) (F.same d)
      | inr (idle, e) ↦ elim (Bool-cases (ltb (d.state_manager.idle_timeout * 10 ^ 9) idle)) [
        | inl over ↦ rw (daemon_of, e, over) (F.sends idle_timeout_reached d refl)
        | inr within ↦ rw (daemon_of, e, within) (F.same d)
      ]
    ]

    pub on_idle_tick-frame :
        (checked now : ℕ) (d : Daemon W) → R d (daemon_of (on_idle_tick checked now d))
    unfolding on_idle_tick
    on_idle_tick-frame checked now d =
        let c = (check_activity (W.device d.sys) d.wg_controller checked).0 in
        let d' : Daemon W = record d { wg_controller = c } in
        elim (Bool-cases (is_active d.state_manager.state)) [
          | inl e ↦
              rw (daemon_of, e)
                (F.join d d' _ (F.outside d c d.ebpf_manager d.route_manager d.sys unmoved)
                  (idle_check-frame now d'))
          | inr e ↦ rw (daemon_of, e) (F.same d)
        ]
