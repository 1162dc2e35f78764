-- ===== src/Daemon/Tunnel.antt =====
-- The tunnel itself over the loop, set against the machine's state and the commands that wait.
pub mod Commands
pub mod Steps
pub mod Init
use wg_ondemand.Base.{
  ℕ, ◌≡◌, refl, ◌∙◌, inl, inr, Bool, true, false, some, none, List, [], ◌∷◌, ◌++◌, Bool-cases,
  Option-cases, Result-cases, arith, Text, length, ltb, ok, err, command_not_run,
}
use wg_ondemand.Base.Str.{codes}
use wg_ondemand.Types.{activating, deactivating}
use wg_ondemand.Os.{Os, Output}
use wg_ondemand.Os.Ran.{Ran-keeps}
use wg_ondemand.Config.{ip_in_subnets}
use wg_ondemand.Controller.{
  WgController, tunnel_command, bring_up, bring_down, reset_activity, is_up,
}
use wg_ondemand.Routes.{add_routes, remove_routes}
use wg_ondemand.Routes.Runs.{RouteCommand, add_routes-Ran, remove_routes-Ran}
use wg_ondemand.StateFile.Report.{write_state-keeps}
use wg_ondemand.State.{
  StateCommand, StateAction, tunnel_up, tunnel_down, attach_ebpf, detach_ebpf, activate_tunnel,
  deactivate_tunnel, no_action,
}
use wg_ondemand.State.Told.{
  agrees, told_down, says_up, says_down, agrees-append, agrees-up, agrees-down,
}
use wg_ondemand.Daemon.Loop.{daemon_of}
use wg_ondemand.Daemon.{
  World, Daemon, send, perform, local_address, on_attach, on_detach, attach_with_routes,
  spawn_attachment_retry_task, on_activate, on_deactivate, write_file,
}

-- Whether the tunnel of a controller is up, in a state of the system. The command that brings it up
-- does so if it succeeds, and takes nothing down if it fails; a tunnel that `ip link show` shows is
-- up; and neither the route manager's programs nor the state file have to do with it.
pub record Tunnel (W : World) (c : WgController) : Type 0 where
  pub is_on : W.os.State → Bool
  pub up_raises :
      (s : W.os.State) (out : Output)
      → (W.os.run s (tunnel_command (codes "up") c)).1 ≡ some out
      → out.success ≡ true
      → is_on (W.os.run s (tunnel_command (codes "up") c)).0 ≡ true
  pub up_keeps :
      (s : W.os.State)
      → is_on s ≡ true
      → is_on (W.os.run s (tunnel_command (codes "up") c)).0 ≡ true
  pub shown : (s : W.os.State) → (is_up W.os c s).1 ≡ true → is_on (is_up W.os c s).0 ≡ true
  pub routes_keep :
      (s : W.os.State) (args : List Text) → RouteCommand args → is_on (W.os.run s args).0 ≡ is_on s
  pub dir_keeps : (s : W.os.State) → is_on (W.files.create_dir_all s).0 ≡ is_on s
  pub write_keeps : (s : W.os.State) (text : Text) → is_on (W.files.write s text).0 ≡ is_on s

module _ (W : World) (c : WgController) (T : Tunnel W c) where
  -- The daemon is the one of this tunnel, and its state and commands are right about it.
  pub record Right (d : Daemon W) : Type 0 where
    pub own : tunnel_command (codes "up") d.wg_controller ≡ tunnel_command (codes "up") c
    pub agree : agrees (T.is_on d.sys) d.state_manager.state d.state_queue ≡ true

  -- A step that has to do with neither of them.
  pub record Aside (d d' : Daemon W) : Type 0 where
    pub own :
        tunnel_command (codes "up") d'.wg_controller ≡ tunnel_command (codes "up") d.wg_controller
    pub manager : d'.state_manager ≡ d.state_manager
    pub queue : d'.state_queue ≡ d.state_queue
    pub tunnel : T.is_on d'.sys ≡ T.is_on d.sys

  pub Aside-Right : (d d' : Daemon W) → Aside d d' → Right d → Right d'
  Aside-Right d d' a h = record {
    own = a.own ∙ h.own;
    agree = rw (a.manager, a.queue, a.tunnel) h.agree;
  }

  pub send-Right :
      (cmd : StateCommand) (d : Daemon W)
      → says_up cmd ≡ false
      → says_down cmd ≡ false
      → Right d
      → Right (daemon_of (send cmd d))
  unfolding send
  send-Right cmd d not_up not_down h = elim (Bool-cases (ltb (length d.state_queue) 32)) [
    | inl lt ↦
        rw (daemon_of, lt)
          (record {
            own = h.own;
            agree =
                agrees-append (T.is_on d.sys) d.state_manager.state d.state_queue cmd not_up
                  not_down h.agree;
          })
    | inr ge ↦ rw (daemon_of, ge) h
  ]

  -- A send of the daemon's own word on the tunnel, that is right whether or not there is room.
  pub told-Right :
      (cmd : StateCommand) (d : Daemon W)
      → Right d
      → agrees (T.is_on d.sys) d.state_manager.state (d.state_queue ++ cmd ∷ []) ≡ true
      → Right (daemon_of (send cmd d))
  unfolding send
  told-Right cmd d h told = elim (Bool-cases (ltb (length d.state_queue) 32)) [
    | inl lt ↦ rw (daemon_of, lt) (record { own = h.own; agree = told })
    | inr ge ↦ rw (daemon_of, ge) h
  ]

  pub write_file-Aside : (d : Daemon W) → Aside d (write_file d)
  unfolding write_file
  write_file-Aside d = record {
    own = refl;
    manager = refl;
    queue = refl;
    tunnel =
        write_state-keeps W.files T.is_on d.state_manager.state d.current_ssid d.sys
          (λ s. T.dir_keeps s) (λ s text. T.write_keeps s text);
  }

  attach_with_routes-Aside : (d : Daemon W) → Aside d (attach_with_routes d)
  unfolding attach_with_routes
  attach_with_routes-Aside d = record {
    own = refl;
    manager = refl;
    queue = refl;
    tunnel = Ran-keeps T.is_on T.routes_keep (add_routes-Ran d.ranges d.route_manager d.sys);
  }

  pub on_detach-Aside : (d : Daemon W) → Aside d (on_detach d)
  unfolding on_detach
  on_detach-Aside d = record {
    own = refl;
    manager = refl;
    queue = refl;
    tunnel = Ran-keeps T.is_on T.routes_keep (remove_routes-Ran W.drain d.route_manager d.sys);
  }

  pub Aside-refl : (d : Daemon W) → Aside d d
  Aside-refl d = record { own = refl; manager = refl; queue = refl; tunnel = refl }

  spawn-Aside : (d : Daemon W) → Aside d (spawn_attachment_retry_task d)
  unfolding spawn_attachment_retry_task
  spawn-Aside d = record {
    own = ground arith;
    manager = ground arith;
    queue = ground arith;
    tunnel = ground arith;
  }

  pub on_attach-Aside : (d : Daemon W) → Aside d (on_attach d)
  unfolding on_attach
  on_attach-Aside d = elim (Result-cases (local_address d)) [
    | inr (_, e) ↦ rw e (Aside-refl d)
    | inl (found, e) ↦ elim (Option-cases found) [
      | inl missing ↦ rw (e, missing) (spawn-Aside d)
      | inr (ip, known) ↦ elim (Result-cases (ip_in_subnets ip d.ranges)) [
        | inr (_, failed) ↦ rw (e, known, failed) (Aside-refl d)
        | inl (hit, tested) ↦ elim (Bool-cases hit) [
          | inl conflict ↦ rw (e, known, tested, conflict) (Aside-refl d)
          | inr free ↦ rw (e, known, tested, free) (attach_with_routes-Aside d)
        ]
      ]
    ]
  ]

  -- A success has brought the tunnel up; a failure leaves one up that was.
  pub bring_up_result :
      (own : WgController) (s : W.os.State)
      → tunnel_command (codes "up") own ≡ tunnel_command (codes "up") c
      → let (s', r) = bring_up W.os own s in
        (r ≡ ok tt → T.is_on s' ≡ true) × (T.is_on s ≡ true → T.is_on s' ≡ true)
  unfolding bring_up
  bring_up_result own s same = elim (Option-cases (W.os.run s (tunnel_command (codes "up") c)).1) [
    | inl e ↦ ground (arith, same, e, T.up_keeps s)
    | inr (out, e) ↦ ground (arith, same, e, T.up_keeps s, T.up_raises s out e)
  ]
