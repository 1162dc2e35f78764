-- ===== src/Daemon/Hang.antt =====
-- The command branch that hangs in its own `send`.
use wg_ondemand.Base.{
  ℕ, suc, ◌≡◌, refl, ap, ◌∙◌, true, false, List, [], ◌∷◌, ◌++◌, arith, length, ltb, length-append,
  ok,
}
use wg_ondemand.Types.{monitoring, activating}
use wg_ondemand.Controller.{bring_up, reset_activity}
use wg_ondemand.State.{StateCommand, traffic_detected, retry_ebpf_attachment, handle_command}
use wg_ondemand.Daemon.Retries.{on_contended_command, on_retry_send, retry_sent}
use wg_ondemand.Daemon.Loop.{daemon_of, Event, contended_command, step, steps}
use wg_ondemand.Daemon.{World, Daemon, blocked, and_then, send, handle, perform, on_activate}

module _ {W : World} where
  -- The daemon in its `send` of `TunnelUp`.
  abbrev hung : ℕ → List StateCommand → ℕ → Daemon W → Daemon W
  hung now queue waiting d = record d {
    state_manager = record d.state_manager { state = activating };
    sys = (bring_up W.os d.wg_controller d.sys).0;
    wg_controller = reset_activity d.wg_controller now;
    state_queue = queue ++ retry_ebpf_attachment ∷ [];
    retry_in_progress = false;
    retry_senders = waiting;
  }

  full_hangs :
      (now : ℕ) (d : Daemon W)
      → d.state_manager.state ≡ monitoring
      → ltb (length d.state_queue) 32 ≡ false
      → (bring_up W.os d.wg_controller d.sys).1 ≡ ok tt
      → handle traffic_detected now d
        ≡ blocked (record d {
          state_manager = record d.state_manager { state = activating };
          sys = (bring_up W.os d.wg_controller d.sys).0;
          wg_controller = reset_activity d.wg_controller now;
        })
  unfolding handle handle_command perform on_activate send
  full_hangs now d watching full up = ground (arith, watching, full, up)

  served :
      (waiting : ℕ) (d : Daemon W)
      → ltb (length d.state_queue) 32 ≡ true
      → d.retry_senders ≡ suc waiting
      → on_retry_send d ≡ retry_sent waiting d
  unfolding on_retry_send retry_sent
  served waiting d room task = rw (on_retry_send, task, room) refl

  contended_hung :
      (now waiting : ℕ) (d : Daemon W) (queue : List StateCommand)
      → d.state_manager.state ≡ monitoring
      → d.state_queue ≡ traffic_detected ∷ queue
      → length queue ≡ 31
      → d.retry_senders ≡ suc waiting
      → (bring_up W.os d.wg_controller d.sys).1 ≡ ok tt
      → on_contended_command now d ≡ blocked (hung now queue waiting d)
  unfolding on_contended_command retry_sent
  contended_hung now waiting d queue watching waits full task up =
      let popped : Daemon W = record d { state_queue = queue } in
      let no_room : ltb (length (queue ++ retry_ebpf_attachment ∷ [])) 32 ≡ false =
        ground (arith, full, length-append queue (retry_ebpf_attachment ∷ [])) in
      rw (on_contended_command, waits)
        (ap (λ x. handle traffic_detected now x) (served waiting popped (ground (arith, full)) task)
          ∙ full_hangs now (retry_sent waiting popped) watching no_room up)

  -- A Monitoring daemon takes a `TrafficDetected` from a full channel, while a retry task waits for
  -- room there, and the tunnel comes up. The task's command takes the slot that became free, and the
  -- branch never gets past its own `send`: whatever events follow, the loop is blocked, the machine
  -- Activating with 32 commands before it, and the system as the tunnel's command left it, without a
  -- write of the state file.
  pub contended_activation_hangs :
      (now waiting : ℕ) (d : Daemon W) (queue : List StateCommand) (es : List (Event W.os.State))
      → d.state_manager.state ≡ monitoring
      → d.state_queue ≡ traffic_detected ∷ queue
      → length queue ≡ 31
      → d.retry_senders ≡ suc waiting
      → (bring_up W.os d.wg_controller d.sys).1 ≡ ok tt
      → let o = steps (contended_command now ∷ es) d in
        let d' = daemon_of o in
        (o ≡ blocked d')
        × (d'.state_manager.state ≡ activating)
        × (length d'.state_queue ≡ 32)
        × (d'.sys ≡ (bring_up W.os d.wg_controller d.sys).0)
  unfolding steps step
  contended_activation_hangs now waiting d queue es watching waits full task up =
      rw (and_then, daemon_of, contended_hung now waiting d queue watching waits full task up)
        (refl, refl, ground (arith, full, length-append queue (retry_ebpf_attachment ∷ [])), refl)
