-- ===== src/Daemon/Actions.antt =====
-- What the loop does on a command, an attachment and a shutdown.
use wg_ondemand.Base.{
  ℕ, Error, ◌≢◌, Option-cases, ◌^◌, ◌≤◌, ◌<◌, ◌≡◌, refl, ◌⊎◌, inl, inr, true, false, none, some,
  ◌∷◌, List-cases, length, Bool-cases, Result-cases, arith, ok, err, All, Any,
}
use wg_ondemand.Types.{TunnelState, active, activating}
use wg_ondemand.Config.Subnets.{IsCidr, Covers, ip_in_subnets_exact}
use wg_ondemand.Controller.{reset_activity, bring_up, bring_down}
use wg_ondemand.Loader.{is_attached}
use wg_ondemand.Loader.Link.{detach_forgets}
use wg_ondemand.State.{
  StateCommand, StateAction, tunnel_up, tunnel_down, activate_tunnel, deactivate_tunnel,
  attach_ebpf, detach_ebpf, no_action, handle_command,
}
use wg_ondemand.StateFile.{cleanup}
use wg_ondemand.Daemon.{
  World, Daemon, Outcome, running, blocked, and_then, send, on_activate, on_deactivate, perform,
  handle, on_command, write_file, on_attach, attach_with_routes, local_address,
  spawn_attachment_retry_task,
}
use wg_ondemand.Daemon.Shutdown.{needs_down, detach_if_attached, graceful_shutdown, on_signal}

needs_down_cases :
    (t : TunnelState)
    → (((t ≡ active) ⊎ (t ≡ activating)) × (needs_down t ≡ true))
      ⊎ ((t ≢ active) × (t ≢ activating) × (needs_down t ≡ false))
needs_down_cases t = ground arith

module _ {W : World} where
  abbrev pub IsRunning : Outcome W → Type 0
  IsRunning (running d) = Unit
  IsRunning (blocked d) = ⊥

  send-runs :
      (cmd : StateCommand) (d : Daemon W) → length d.state_queue < 32 → IsRunning (send cmd d)
  unfolding send
  send-runs cmd d lt = ground (arith, lt)

  activate-runs :
      (now : ℕ) (d : Daemon W) → length d.state_queue < 32 → IsRunning (on_activate now d)
  unfolding on_activate
  activate-runs now d lt =
      let (s, r) = bring_up W.os d.wg_controller d.sys in
      let up : Daemon W = record d {
        sys = s;
        wg_controller = reset_activity d.wg_controller now;
      } in
      elim (Result-cases r) [
        | inl (_, e) ↦ rw (IsRunning, e) (send-runs tunnel_up up lt)
        | inr (_, e) ↦ rw (IsRunning, e) tt
      ]

  deactivate-runs : (d : Daemon W) → length d.state_queue < 32 → IsRunning (on_deactivate d)
  unfolding on_deactivate
  deactivate-runs d lt =
      let (s, r) = bring_down W.os d.wg_controller d.sys in
      let down : Daemon W = record d { sys = s } in
      elim (Result-cases r) [
        | inl (_, e) ↦ rw (IsRunning, e) (send-runs tunnel_down down lt)
        | inr (_, e) ↦ rw (IsRunning, e) tt
      ]

  perform-runs :
      (action : StateAction) (now : ℕ) (d : Daemon W)
      → length d.state_queue < 32
      → IsRunning (perform action now d)
  unfolding perform
  perform-runs attach_ebpf now d lt = tt
  perform-runs detach_ebpf now d lt = tt
  perform-runs activate_tunnel now d lt = activate-runs now d lt
  perform-runs deactivate_tunnel now d lt = deactivate-runs d lt
  perform-runs no_action now d lt = tt

  and_then-runs :
      (o : Outcome W) → IsRunning o → IsRunning (and_then o (λ d. running (write_file d)))
  and_then-runs (running d) h = tt
  and_then-runs (blocked d) h = h

  -- The branch that receives a command does not block if no retry task comes between: on a channel of
  -- at most 32 commands, the one it takes leaves room for the one it may send.
  pub on_command-IsRunning :
      (now : ℕ) (d : Daemon W) → length d.state_queue ≤ 32 → IsRunning (on_command now d)
  unfolding on_command handle
  on_command-IsRunning now d room = elim (List-cases d.state_queue) [
    | inl e ↦ rw (IsRunning, e) tt
    | inr (cmd, queue, e) ↦
        let some_room : length (cmd ∷ queue) ≤ 32 = rw e at room in
        let (m', action) = handle_command d.state_manager cmd in
        let taken : Daemon W = record d { state_queue = queue; state_manager = m' } in
        rw (IsRunning, e)
          (and_then-runs (perform action now taken) (perform-runs action now taken (omega arith)))
  ]

  -- An attachment asked for, on accepted subnets and with addresses of 32 bits. If the interface's
  -- address cannot be read, nothing changes; without an address a retry task is running afterwards;
  -- with an address in some subnet's block nothing changes; and with another one the routes are added
  -- and the classifier is attached.
  pub on_attach_lem :
      (d : Daemon W)
      → All IsCidr d.ranges
      → ((ip : ℕ) → local_address d ≡ ok (some ip) → ip < 2 ^ 32)
      → ((e : Error) × (local_address d ≡ err e) × (on_attach d ≡ d))
        ⊎ ((local_address d ≡ ok none)
            × (on_attach d ≡ spawn_attachment_retry_task d)
            × ((on_attach d).retry_in_progress ≡ true))
        ⊎ ((ip : ℕ) × (local_address d ≡ ok (some ip))
            × Any (Covers ip) d.ranges
            × (on_attach d ≡ d))
        ⊎ ((ip : ℕ) × (local_address d ≡ ok (some ip))
            × (¬ Any (Covers ip) d.ranges)
            × (on_attach d ≡ attach_with_routes d))
  unfolding on_attach spawn_attachment_retry_task
  on_attach_lem d accepted short = elim (Result-cases (local_address d)) [
    | inr (e, unread) ↦ inl (e, unread, ground (arith, unread))
    | inl (found, known) ↦ elim (Option-cases found) [
      | inl e ↦
          inr (inl (ground (arith, e, known), ground (arith, e, known), ground (arith, e, known)))
      | inr (ip, e) ↦
          let here : local_address d ≡ ok (some ip) = ground (arith, e, known) in
          let (hit, runs, meaning) = ip_in_subnets_exact ip d.ranges (short ip here) accepted in
          elim (Bool-cases hit) [
            | inl yes_hit ↦
                inr (inr (inl (ip, here, meaning.0 yes_hit, ground (arith, here, runs, yes_hit))))
            | inr no_hit ↦ inr (
                inr (
                  inr (
                    ip,
                    here,
                    (λ a. ground (arith, meaning.1 a, no_hit)),
                    ground (arith, here, runs, no_hit),
                  )))
          ]
    ]
  ]

  -- An address that lies in no subnet's block: the classifier is attached and the routes are added.
  pub attaches :
      (d : Daemon W) (ip : ℕ)
      → All IsCidr d.ranges
      → local_address d ≡ ok (some ip)
      → ip < 2 ^ 32
      → ¬ Any (Covers ip) d.ranges
      → on_attach d ≡ attach_with_routes d
  attaches d ip accepted known short free =
      let same = λ (ip' : ℕ) (e : local_address d ≡ ok (some ip')).
        let at : ip' ≡ ip = ground (arith, e, known) in at in
      elim (on_attach_lem d accepted (λ ip' e. rw (same ip' e) short)) [
        | inl (_, unread, _) ↦ absurd (ground (arith, unread, known))
        | inr (inl (missing, _, _)) ↦ absurd (ground (arith, missing, known))
        | inr (inr (inl (ip', found, covered, _))) ↦ absurd (free (rw (same ip' found) at covered))
        | inr (inr (inr (_, _, _, done))) ↦ done
      ]

  detach_if_attached_lem :
      (d : Daemon W)
      → let d' = detach_if_attached d in
        (is_attached W.aya d'.ebpf_manager ≡ false)
        × (d'.sys ≡ d.sys)
        × (d'.wg_controller ≡ d.wg_controller)
        × (d'.state_manager ≡ d.state_manager)
  unfolding detach_if_attached
  detach_if_attached_lem d = ground (arith, (detach_forgets W.aya d.ebpf_manager).0)

  -- After a signal no classifier is attached. The state file is removed, and then the command that
  -- brings the tunnel down is run exactly if the state is Active or Activating.
  pub on_signal_lem :
      (d : Daemon W)
      → let d' = on_signal d in
        let s = cleanup W.files d.sys in
        (is_attached W.aya d'.ebpf_manager ≡ false)
        × ((((d.state_manager.state ≡ active) ⊎ (d.state_manager.state ≡ activating))
              × (d'.sys ≡ (bring_down W.os d.wg_controller s).0))
            ⊎ ((d.state_manager.state ≢ active)
                × (d.state_manager.state ≢ activating)
                × (d'.sys ≡ s)))
  unfolding on_signal graceful_shutdown
  on_signal_lem d =
      let s = cleanup W.files d.sys in
      let (off, same_sys, same_controller, _) = detach_if_attached_lem (record d { sys = s }) in
      elim (needs_down_cases d.state_manager.state) [
        | inl (which, e) ↦ (rw e off, inl (which, rw (e, same_sys, same_controller) refl))
        | inr (not_active, not_activating, e) ↦
            (rw e off, inr (not_active, not_activating, rw e same_sys))
      ]
