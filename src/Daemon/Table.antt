-- ===== src/Daemon/Table.antt =====
-- The kernel's table of routes over the loop: what the daemon adds, takes away, and leaves alone.
pub mod Steps
pub mod Init
use wg_ondemand.Base.{
  ℕ, ◌==◌, ◌≡◌, refl, ap, sym, ◌∙◌, inl, inr, Bool, true, false, not, ◌&&◌, ◌||◌, Option, none,
  some, List, [], ◌∷◌, All, List-cases, Bool-cases, Option-cases, Result-cases, arith, Text,
  contains, length, ok, err, is_some, if◌then◌else◌, ltb,
}
use wg_ondemand.Base.Str.{codes}
use wg_ondemand.Types.{TunnelState}
use wg_ondemand.Os.{Os, Output}
use wg_ondemand.Config.{ip_in_subnets}
use wg_ondemand.Controller.{
  WgController, tunnel_command, bring_up, bring_down, reset_activity, check_activity, idle_duration,
}
use wg_ondemand.Loader.{poll_events}
use wg_ondemand.Routes.{RouteManager, add_routes, remove_routes}
use wg_ondemand.Routes.Table.{RouteTable, Installed, add_routes-Installed}
use wg_ondemand.Routes.Deletion.{Privileged, Deletes, remove_routes_exact, remove_routes_all}
use wg_ondemand.Routes.Removal.{Extends, add_routes-Extends, From, add_routes-From}
use wg_ondemand.StateFile.Report.{write_state-keeps}
use wg_ondemand.State.{
  StateCommand, StateAction, tunnel_up, tunnel_down, attach_ebpf, detach_ebpf, activate_tunnel,
  deactivate_tunnel, no_action,
}
use wg_ondemand.Daemon.Loop.{daemon_of}
use wg_ondemand.Daemon.{
  World, Daemon, send, perform, handle, local_address, on_attach, on_detach, attach_with_routes,
  spawn_attachment_retry_task, on_activate, on_deactivate, write_file,
}

-- The tunnel's commands and the state file have nothing to do with the table, and draining the set of
-- routes gives its elements.
pub record Neutral (W : World) (T : RouteTable W.os) : Type 0 where
  pub up_keeps :
      (s : W.os.State) (c : WgController) (r : Text)
      → T.present (W.os.run s (tunnel_command (codes "up") c)).0 r ≡ T.present s r
  pub down_keeps :
      (s : W.os.State) (c : WgController) (r : Text)
      → T.present (W.os.run s (tunnel_command (codes "down") c)).0 r ≡ T.present s r
  pub dir_keeps :
      (s : W.os.State) (r : Text) → T.present (W.files.create_dir_all s).0 r ≡ T.present s r
  pub write_keeps :
      (s : W.os.State) (text r : Text) → T.present (W.files.write s text).0 r ≡ T.present s r
  pub drains : (xs : List Text) (x : Text) → contains (W.drain xs) x ≡ contains xs x

module _ (W : World) (T : RouteTable W.os) (P : Privileged W.os T) (N : Neutral W T)
    (D : Deletes W.os T) where
  -- The table against the one of `s₀`: the active routes are in it, they are of configured subnets,
  -- outside of these nothing has changed, and what is new is active.
  pub record Tabled (s₀ : W.os.State) (d : Daemon W) : Type 0 where
    pub installed : Installed W.os T d.route_manager d.sys
    pub configured :
        (r : Text) → (contains d.route_manager.active_routes r && not (contains d.ranges r)) ≡ false
    pub outside : (r : Text) → contains d.ranges r ≡ false → T.present d.sys r ≡ T.present s₀ r
    pub nothing_left :
        (r : Text)
        → (T.present d.sys r && not (T.present s₀ r || contains d.route_manager.active_routes r))
          ≡ false

  bring_up-table :
      (c : WgController) (s : W.os.State) (r : Text)
      → T.present (bring_up W.os c s).0 r ≡ T.present s r
  unfolding bring_up
  bring_up-table c s r = elim (Option-cases (W.os.run s (tunnel_command (codes "up") c)).1) [
    | inl e ↦ ground (arith, e, N.up_keeps s c r)
    | inr (_, e) ↦ ground (arith, e, N.up_keeps s c r)
  ]

  bring_down-table :
      (c : WgController) (s : W.os.State) (r : Text)
      → T.present (bring_down W.os c s).0 r ≡ T.present s r
  unfolding bring_down
  bring_down-table c s r = elim (Option-cases (W.os.run s (tunnel_command (codes "down") c)).1) [
    | inl e ↦ ground (arith, e, N.down_keeps s c r)
    | inr (_, e) ↦ ground (arith, e, N.down_keeps s c r)
  ]

  pub write_file-table :
      (d : Daemon W) (r : Text) → T.present (write_file d).sys r ≡ T.present d.sys r
  unfolding write_file
  write_file-table d r =
      write_state-keeps W.files (λ s. T.present s r) d.state_manager.state d.current_ssid d.sys
        (λ s. N.dir_keeps s r) (λ s text. N.write_keeps s text r)

  -- A step that leaves the manager of the routes alone, and the table as it is.
  pub record Apart (d d' : Daemon W) : Type 0 where
    pub routes : d'.route_manager ≡ d.route_manager
    pub ranges : d'.ranges ≡ d.ranges
    pub table : (r : Text) → T.present d'.sys r ≡ T.present d.sys r

  pub Apart-Tabled : (s₀ : W.os.State) (d d' : Daemon W) → Apart d d' → Tabled s₀ d → Tabled s₀ d'
  Apart-Tabled s₀ d d' a h = record {
    installed = λ r active.
        a.table r
        ∙ h.installed r
            (sym (ap (λ (m : RouteManager). contains m.active_routes r) a.routes) ∙ active);
    configured = λ r. rw (a.routes, a.ranges) (h.configured r);
    outside =
        λ r unlisted. a.table r ∙ h.outside r (sym (ap (λ xs. contains xs r) a.ranges) ∙ unlisted);
    nothing_left = λ r. rw (a.routes, a.table r) (h.nothing_left r);
  }

  attach_with_routes-Tabled :
      (s₀ : W.os.State) (d : Daemon W) → Tabled s₀ d → Tabled s₀ (attach_with_routes d)
  unfolding attach_with_routes
  attach_with_routes-Tabled s₀ d h =
      let extends = add_routes-Extends W.os T P d.ranges d.route_manager d.sys h.installed in
      let from = add_routes-From W.os d.ranges d.route_manager d.sys in
      record {
        installed = add_routes-Installed W.os T d.ranges d.route_manager d.sys h.installed;
        configured = λ r. ground (arith, from r, h.configured r);
        outside = λ r unlisted.
            ground (arith, extends r, from r, h.configured r, unlisted, h.outside r unlisted);
        nothing_left = λ r. ground (arith, extends r, from r, h.nothing_left r);
      }

  on_detach-Tabled : (s₀ : W.os.State) (d : Daemon W) → Tabled s₀ d → Tabled s₀ (on_detach d)
  unfolding on_detach remove_routes contains
  on_detach-Tabled s₀ d h = record {
    installed = λ r active. absurd (ground (arith, active));
    configured = λ r. refl;
    outside = λ r unlisted. ground (
      arith,
      remove_routes_exact W.os T P W.drain d.route_manager d.sys r N.drains,
      h.configured r,
      unlisted,
      h.outside r unlisted,
    );
    nothing_left = λ r. ground (
      arith,
      remove_routes_all W.os T P D W.drain d.route_manager d.sys r N.drains,
      h.nothing_left r,
    );
  }

  pub send-Apart : (cmd : StateCommand) (d : Daemon W) → Apart d (daemon_of (send cmd d))
  unfolding send
  send-Apart cmd d = record {
    routes = ground arith;
    ranges = ground arith;
    table = λ r. ground arith;
  }

  pub Apart-trans : (d d' d'' : Daemon W) → Apart d d' → Apart d' d'' → Apart d d''
  Apart-trans d d' d'' a b = record {
    routes = b.routes ∙ a.routes;
    ranges = b.ranges ∙ a.ranges;
    table = λ r. b.table r ∙ a.table r;
  }

  pub Apart-refl : (d : Daemon W) → Apart d d
  Apart-refl d = record { routes = refl; ranges = refl; table = λ r. refl }

  -- A step of the loop's own variables, and then a send.
  pub sent-Apart :
      (cmd : StateCommand) (d d' : Daemon W) → Apart d d' → Apart d (daemon_of (send cmd d'))
  sent-Apart cmd d d' a = Apart-trans d d' _ a (send-Apart cmd d')

  on_activate-Apart : (now : ℕ) (d : Daemon W) → Apart d (daemon_of (on_activate now d))
  unfolding on_activate
  on_activate-Apart now d =
      let (s, r) = bring_up W.os d.wg_controller d.sys in
      let same = bring_up-table d.wg_controller d.sys in
      let up : Daemon W = record d {
        sys = s;
        wg_controller = reset_activity d.wg_controller now;
      } in
      elim (Result-cases r) [
        | inl (_, e) ↦
            rw (daemon_of, e)
              (sent-Apart tunnel_up d up (record { routes = refl; ranges = refl; table = same }))
        | inr (_, e) ↦ rw (daemon_of, e) (record { routes = refl; ranges = refl; table = same })
      ]

  on_deactivate-Apart : (d : Daemon W) → Apart d (daemon_of (on_deactivate d))
  unfolding on_deactivate
  on_deactivate-Apart d =
      let (s, r) = bring_down W.os d.wg_controller d.sys in
      let same = bring_down-table d.wg_controller d.sys in
      let down : Daemon W = record d { sys = s } in
      elim (Result-cases r) [
        | inl (_, e) ↦
            rw (daemon_of, e)
              (sent-Apart tunnel_down d down
                (record { routes = refl; ranges = refl; table = same }))
        | inr (_, e) ↦ rw (daemon_of, e) (record { routes = refl; ranges = refl; table = same })
      ]

  spawn-Apart : (d : Daemon W) → Apart d (spawn_attachment_retry_task d)
  unfolding spawn_attachment_retry_task
  spawn-Apart d = record { routes = ground arith; ranges = ground arith; table = λ r. ground arith }

  on_attach-Tabled : (s₀ : W.os.State) (d : Daemon W) → Tabled s₀ d → Tabled s₀ (on_attach d)
  unfolding on_attach
  on_attach-Tabled s₀ d h = elim (Result-cases (local_address d)) [
    | inr (_, e) ↦ rw e h
    | inl (found, e) ↦ elim (Option-cases found) [
      | inl missing ↦ rw (e, missing) (Apart-Tabled s₀ d _ (spawn-Apart d) h)
      | inr (ip, known) ↦ elim (Result-cases (ip_in_subnets ip d.ranges)) [
        | inr (_, failed) ↦ rw (e, known, failed) h
        | inl (hit, tested) ↦ elim (Bool-cases hit) [
          | inl conflict ↦ rw (e, known, tested, conflict) h
          | inr free ↦ rw (e, known, tested, free) (attach_with_routes-Tabled s₀ d h)
        ]
      ]
    ]
  ]

  pub perform-Tabled :
      (s₀ : W.os.State) (action : StateAction) (now : ℕ) (d : Daemon W)
      → Tabled s₀ d
      → Tabled s₀ (daemon_of (perform action now d))
  unfolding perform
  perform-Tabled s₀ attach_ebpf now d h = on_attach-Tabled s₀ d h
  perform-Tabled s₀ detach_ebpf now d h = on_detach-Tabled s₀ d h
  perform-Tabled s₀ activate_tunnel now d h = Apart-Tabled s₀ d _ (on_activate-Apart now d) h
  perform-Tabled s₀ deactivate_tunnel now d h = Apart-Tabled s₀ d _ (on_deactivate-Apart d) h
  perform-Tabled s₀ no_action now d h = h
