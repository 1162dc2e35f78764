-- ===== src/Daemon/Tunnel/Commands.antt =====
-- The machine takes a command and performs its action: what becomes of the tunnel.
use wg_ondemand.Base.{
  ℕ, ◌≡◌, refl, ◌∙◌, inl, inr, false, List-cases, Bool-cases, Result-cases, arith,
}
use wg_ondemand.Types.{activating, deactivating}
use wg_ondemand.Controller.{WgController, bring_up, bring_down, reset_activity, tunnel_command}
use wg_ondemand.Base.Str.{codes}
use wg_ondemand.State.{
  StateAction, tunnel_up, tunnel_down, attach_ebpf, detach_ebpf, activate_tunnel, deactivate_tunnel,
  no_action, handle_command,
}
use wg_ondemand.State.Told.{told_down, agrees-up, agrees-down, handle_command-agrees}
use wg_ondemand.Daemon.{
  World, Daemon, Outcome, running, blocked, and_then, perform, handle, on_activate, on_deactivate,
  write_file, on_command,
}
use wg_ondemand.Daemon.Loop.{daemon_of}
use wg_ondemand.Daemon.Tunnel.{
  Tunnel, Right, Aside-Right, told-Right, write_file-Aside, on_attach-Aside, on_detach-Aside,
  bring_up_result,
}

-- The counters do not name the tunnel.
reset_activity_same :
    (c : WgController) (now : ℕ)
    → tunnel_command (codes "up") (reset_activity c now) ≡ tunnel_command (codes "up") c
unfolding reset_activity tunnel_command
reset_activity_same c now = refl

module _ (W : World) (c : WgController) (T : Tunnel W c) where
  abbrev Good : Daemon W → Type 0
  Good d = Right W c T d

  on_activate-Right :
      (now : ℕ) (d : Daemon W)
      → d.state_manager.state ≡ activating
      → Good d
      → Good (daemon_of (on_activate now d))
  unfolding on_activate
  on_activate-Right now d at h =
      let (s, r) = bring_up W.os d.wg_controller d.sys in
      let (raised, kept) = bring_up_result W c T d.wg_controller d.sys h.own in
      let up : Daemon W = record d {
        sys = s;
        wg_controller = reset_activity d.wg_controller now;
      } in
      elim (Result-cases r) [
        | inl (tt, e) ↦
            let (still, told) =
              agrees-up (T.is_on d.sys) d.state_manager.state d.state_queue at h.agree in
            let own = reset_activity_same d.wg_controller now ∙ h.own in
            rw (daemon_of, e)
              (told-Right W c T tunnel_up up (record { own = own; agree = rw (raised e) still })
                (rw (raised e) told))
        | inr (_, e) ↦
            rw (daemon_of, e)
              (record {
                own = h.own;
                agree = elim (Bool-cases (T.is_on d.sys)) [
                  | inl on ↦ ground (arith, on, kept on, h.agree)
                  | inr off ↦ ground (arith, at, off, h.agree)
                ];
              })
      ]

  on_deactivate-Right :
      (d : Daemon W)
      → d.state_manager.state ≡ deactivating
      → told_down d.state_queue ≡ false
      → Good d
      → Good (daemon_of (on_deactivate d))
  unfolding on_deactivate
  on_deactivate-Right d at none_down h =
      let (s, r) = bring_down W.os d.wg_controller d.sys in
      let (still, told) =
        agrees-down (T.is_on s) d.state_manager.state d.state_queue at none_down in
      let down : Daemon W = record d { sys = s } in
      let good : Good down = record { own = h.own; agree = still } in
      elim (Result-cases r) [
        | inl (_, e) ↦ rw (daemon_of, e) (told-Right W c T tunnel_down down good told)
        | inr (_, e) ↦ rw (daemon_of, e) good
      ]

  perform-Right :
      (action : StateAction) (now : ℕ) (d : Daemon W)
      → (action ≡ activate_tunnel → d.state_manager.state ≡ activating)
      → (action ≡ deactivate_tunnel
          → (d.state_manager.state ≡ deactivating) × (told_down d.state_queue ≡ false))
      → Good d
      → Good (daemon_of (perform action now d))
  unfolding perform
  perform-Right attach_ebpf now d up down h = Aside-Right W c T d _ (on_attach-Aside W c T d) h
  perform-Right detach_ebpf now d up down h = Aside-Right W c T d _ (on_detach-Aside W c T d) h
  perform-Right activate_tunnel now d up down h = on_activate-Right now d (up refl) h
  perform-Right deactivate_tunnel now d up down h =
      let (at, none_down) = down refl in on_deactivate-Right d at none_down h
  perform-Right no_action now d up down h = h

  written-Right :
      (o : Outcome W)
      → Good (daemon_of o)
      → Good (daemon_of (and_then o (λ d. running (write_file d))))
  written-Right (running d) h = Aside-Right W c T d (write_file d) (write_file-Aside W c T d) h
  written-Right (blocked d) h = h

  pub on_command-Right : (now : ℕ) (d : Daemon W) → Good d → Good (daemon_of (on_command now d))
  unfolding on_command handle
  on_command-Right now d h = elim (List-cases d.state_queue) [
    | inl e ↦ rw (daemon_of, e) h
    | inr (cmd, queue, e) ↦
        let (m, action) = handle_command d.state_manager cmd in
        let d' : Daemon W = record d { state_queue = queue; state_manager = m } in
        let (right, up, down) =
          handle_command-agrees (T.is_on d.sys) d.state_manager cmd queue (rw e at h.agree) in
        rw (daemon_of, e)
          (written-Right (perform action now d')
            (perform-Right action now d' up down (record { own = h.own; agree = right })))
  ]
