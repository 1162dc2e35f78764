-- ===== src/Tests/Loop.antt =====
-- The daemon's theorems in the test world.
use wg_ondemand.Base.{
  ℕ, text_eq, ◌<◌, ◌≤◌, ◌-◌, ◌≡◌, refl, ◌≢◌, ◌⊎◌, inl, inr, Bool, true, false, Option, none, some,
  List, [], ◌∷◌, ◌++◌, Text, All, Any, Error, Result, length, is_some, arith, ok, err, map,
  replicate,
}
use wg_ondemand.Base.Str.{codes, lines}
use wg_ondemand.Base.Num.{show}
use wg_ondemand.Base.Ipv4.{from_be_bytes}
use wg_ondemand.Types.{active, activating}
use wg_ondemand.Loader.{configure, Aya, EbpfManager, poll_events, is_attached}
use wg_ondemand.Controller.{WgController, bring_up, bring_down}
use wg_ondemand.Ssid.{Bus, connected_to_target, disconnected}
use wg_ondemand.Routes as Routes
use wg_ondemand.State.{start_monitoring}
use wg_ondemand.State as State
use wg_ondemand.StateFile.{Files, state_str, content, cleanup, write_state}
use wg_ondemand.Daemon.{
  World, Daemon, running, blocked, on_ebpf_tick, on_command, on_attach, local_address,
  spawn_attachment_retry_task, attach_with_routes,
}
use wg_ondemand.Daemon.Shutdown.{on_signal}
use wg_ondemand.Daemon.Start.{start, initial}
use wg_ondemand.Daemon.Loop.{command, ebpf_tick, steps, daemon_of}
use wg_ondemand.Daemon.Invariant.{Inv}
use wg_ondemand.Daemon.Init.{start_steps-Inv}
use wg_ondemand.Daemon.Poll.{events_in, with_traffic, on_ebpf_tick_lem}
use wg_ondemand.Config.{parse_cidr}
use wg_ondemand.Daemon.Actions.{on_signal_lem}
use wg_ondemand.Tests.World.{logging, program, world, config, controller, daemon}

-- Sixteen bytes, and three bytes.
abbrev entries : List (List ℕ)
entries = replicate 16 0 ∷ replicate 3 0 ∷ []

on_ebpf_tick_lem_example :
    let n = events_in entries in
    let room = 32 - length daemon.state_queue in
    ((poll_events program daemon.ebpf_manager ≡ none)
      × (on_ebpf_tick entries daemon ≡ running daemon))
    ⊎ ((is_some (poll_events program daemon.ebpf_manager) ≡ true)
        × (n ≤ room)
        × (on_ebpf_tick entries daemon ≡ running (with_traffic n daemon)))
    ⊎ ((is_some (poll_events program daemon.ebpf_manager) ≡ true)
        × (room < n)
        × (on_ebpf_tick entries daemon ≡ blocked (with_traffic room daemon)))
on_ebpf_tick_lem_example = on_ebpf_tick_lem entries daemon (omega arith)

on_signal_lem_example :
    let d' = on_signal daemon in
    let s = cleanup world.files [] in
    (is_attached program d'.ebpf_manager ≡ false)
    × ((((daemon.state_manager.state ≡ active) ⊎ (daemon.state_manager.state ≡ activating))
          × (d'.sys ≡ (bring_down logging controller s).0))
        ⊎ ((daemon.state_manager.state ≢ active)
            × (daemon.state_manager.state ≢ activating)
            × (d'.sys ≡ s)))
on_signal_lem_example = on_signal_lem daemon

abbrev or_daemon : Result (Daemon world) → Daemon world
or_daemon (ok d) = d
or_daemon (err e) = daemon

abbrev started : Daemon world
started = or_daemon (start world config []).1

starts : (start world config []).1 ≡ ok started
unfolding start wg_ondemand.Controller.new wg_ondemand.Controller.validate_name
    wg_ondemand.Daemon.Start.monitor_interface wg_ondemand.Controller.validate_interface_name
    wg_ondemand.Daemon.Start.with_interface wg_ondemand.Loader.load wg_ondemand.Base.Str.has
    wg_ondemand.Loader.configure wg_ondemand.Loader.set_subnets wg_ondemand.Config.parse_cidr
    wg_ondemand.Base.Str.split wg_ondemand.Base.Ipv4.show_ipv4 show wg_ondemand.Base.Ipv4.parse_ipv4
    wg_ondemand.Base.Num.parse_uint from_be_bytes wg_ondemand.Base.Str.after_first lines
    wg_ondemand.Base.contains text_eq wg_ondemand.Base.Utf8.from_utf8 wg_ondemand.Config.netmask
    wg_ondemand.Controller.is_up initial wg_ondemand.Daemon.Start.initial_commands
    wg_ondemand.Daemon.Start.with_bus wg_ondemand.Loader.cleanup_stale_ebpf
    wg_ondemand.Loader.clear_slots wg_ondemand.Loader.validate_interface_exists Routes.new
    wg_ondemand.Ssid.current_ssid wg_ondemand.Ssid.is_connected_to_target wg_ondemand.Ssid.new
    State.new content state_str wg_ondemand.StateFile.write_state wg_ondemand.Base.Ipv4.parse_octet
    wg_ondemand.Base.Num.scan
starts = refl

start_steps-Inv_example :
    Inv 300 (daemon_of (steps (command 5 ∷ ebpf_tick entries ∷ command 6 ∷ []) started))
start_steps-Inv_example =
    start_steps-Inv world config [] started (command 5 ∷ ebpf_tick entries ∷ command 6 ∷ []) starts
