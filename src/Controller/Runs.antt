-- ===== src/Controller/Runs.antt =====
-- The tunnel's operations move the system by running programs, and by nothing else.
use wg_ondemand.Base.{command_not_run}
use wg_ondemand.Base.Str.{codes}
use wg_ondemand.Os.{Os}
use wg_ondemand.Os.Ran.{Ran, AnyProgram, unmoved, ran, reads-Ran}
use wg_ondemand.Controller.{WgController, tunnel_command, is_up, bring_up, bring_down}

module _ {O : Os} (c : WgController) (s : O.State) where
  pub is_up-Ran : Ran O AnyProgram s (is_up O c s).0
  unfolding is_up
  is_up-Ran = ran unmoved _ tt

  pub bring_up-Ran : Ran O AnyProgram s (bring_up O c s).0
  unfolding bring_up
  bring_up-Ran = reads-Ran (tunnel_command (codes "up") c) tt command_not_run _ s

  pub bring_down-Ran : Ran O AnyProgram s (bring_down O c s).0
  unfolding bring_down
  bring_down-Ran = reads-Ran (tunnel_command (codes "down") c) tt command_not_run _ s
