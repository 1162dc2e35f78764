-- ===== src/Daemon/Tunnel/Init.antt =====
-- The tunnel from the start of the daemon on.
use mathlib.Core.Path.{subst}
use wg_ondemand.Base.{◌≡◌, ap, sym, ◌∙◌, Bool, true, none, List, All, arith, ok}
use wg_ondemand.Base.Str.{codes}
use wg_ondemand.Types.{Config, inactive, active}
use wg_ondemand.Controller.{WgController, tunnel_command, is_up}
use wg_ondemand.Controller as Controller
use wg_ondemand.State as State
use wg_ondemand.State.Told.{agrees}
use wg_ondemand.StateFile.{write_state}
use wg_ondemand.StateFile.Report.{write_state-keeps}
use wg_ondemand.Daemon.{World, Daemon}
use wg_ondemand.Daemon.Start.{initial, initial_commands, start}
use wg_ondemand.Daemon.Loop.{Event, steps, daemon_of}
use wg_ondemand.Daemon.Init.{Started, start-Started}
use wg_ondemand.Daemon.Tunnel.{Tunnel, Right}
use wg_ondemand.Daemon.Tunnel.Steps.{LeavesTunnel, steps-Right}

-- The first commands say that the tunnel is up only if it was found so.
initial_commands-agrees :
    (on connected up : Bool)
    → (up ≡ true → on ≡ true)
    → agrees on inactive (initial_commands connected up) ≡ true
unfolding initial_commands
initial_commands-agrees on connected up found = ground (arith, found)

module _ (W : World) (config : Config) (c : WgController) (T : Tunnel W c) where
  start-Right : (d : Daemon W) (from : Started W config d) → from.wg_controller ≡ c → Right W c T d
  unfolding initial State.new
  start-Right d from same =
      let written = (write_state W.files inactive none from.before_file).0 in
      let kept : T.is_on written ≡ T.is_on from.before_file =
        write_state-keeps W.files T.is_on inactive none from.before_file (λ s. T.dir_keeps s)
          (λ s text. T.write_keeps s text) in
      let asked : is_up W.os c from.before_asking ≡ (from.before_file, from.up) =
        ap (λ x. is_up W.os x from.before_asking) (sym same) ∙ from.asked in
      let found : (from.up ≡ true → T.is_on written ≡ true) = λ up.
        kept
        ∙ ap (λ x. T.is_on x.0) (sym asked)
        ∙ T.shown from.before_asking (ap (λ x. x.1) asked ∙ up) in
      subst (λ x. Right W c T x) from.is_initial
        (record {
          own = ap (λ x. tunnel_command (codes "up") x) same;
          agree = initial_commands-agrees (T.is_on written) from.connected from.up found;
        })

  -- From a start that succeeds, with a tunnel that nobody but the daemon takes down, and whatever
  -- events follow, up to the point where the loop blocks and there: if the machine is Active, the
  -- tunnel is up.
  pub start-steps-tunnel :
      (s : W.os.State) (d : Daemon W) (es : List (Event W.os.State))
      → Controller.new config.general.wg_interface config.general.nm_connection ≡ ok c
      → (start W config s).1 ≡ ok d
      → All (LeavesTunnel W c T) es
      → (daemon_of (steps es d)).state_manager.state ≡ active
      → T.is_on (daemon_of (steps es d)).sys ≡ true
  start-steps-tunnel s d es made h alone on =
      let from = start-Started W config s d h in
      let same : from.wg_controller ≡ c = ground (arith, from.created, made) in
      let right = steps-Right W c T es d alone (start-Right d from same) in
      ground (arith, on, right.agree)
