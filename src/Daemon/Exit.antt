-- ===== src/Daemon/Exit.antt =====
-- wg-ondemand/src/main.rs, `async_main` from end to end: the ways out of the loop, what is dropped on
-- them, and the process from its configuration on.
use wg_ondemand.Base.{
  ℕ, ◌≡◌, ◌≢◌, refl, ap, sym, ◌∙◌, ◌⊎◌, inl, inr, true, false, Result-cases, Option, List, Text,
  Error, Result, ok, err, length, is_empty, if◌then◌else◌, monitor_terminated, arith, Bool-cases,
}
use wg_ondemand.Types.{Config, inactive}
use wg_ondemand.Config.{load_config}
use wg_ondemand.Loader.{detach, is_attached}
use wg_ondemand.Loader.Link.{detach_forgets}
use wg_ondemand.Routes.Drop.{Runtime, Inside, drop, drop-Inside}
use wg_ondemand.Daemon.Loop.{daemon_of, Outcome-cases, Event, steps}
use wg_ondemand.Daemon.{World, Daemon, Outcome, running, blocked}
use wg_ondemand.Daemon.Shutdown.{on_signal, graceful_shutdown, detach_if_attached}
use wg_ondemand.Daemon.Start.{start}
use wg_ondemand.Daemon.Invariant.{Inv}
use wg_ondemand.Daemon.Init.{start-Inv, start_steps-Inv}
use wg_ondemand.Daemon.Blocked.{hung-room}

-- SIGTERM or SIGINT, or the end of the monitor task.
pub data End : Type 0 where
  signalled monitor_ended : End

-- What `async_main` returns, or a panic.
pub data Exit : Type 0 where
  returned : Result (Unit {0}) → Exit
  panicked : Exit

-- The process: it fails before its loop, waits for ever in it, or is over.
pub data Process (W : World) : Type 0 where
  failed : Error → Process W
  hung : Daemon W → Process W
  over : Daemon W → Exit → Process W

abbrev pub result_of : End → Result (Unit {0})
result_of signalled = ok tt
result_of monitor_ended = err monitor_terminated

module _ {W : World} (R : Runtime W.os) where
  drop_ebpf_manager : Daemon W → Daemon W
  drop_ebpf_manager d = record d { ebpf_manager = (detach W.aya d.ebpf_manager).0 }

  -- The manager of the routes is dropped, on the way out with some exit.
  drop_route_manager : Exit → Daemon W → Daemon W × Exit
  drop_route_manager exit d =
      let (sys', finished) = drop W.os R W.drain d.route_manager d.sys in
      (record d { sys = sys' }, if finished then exit else panicked)

  -- A signal shuts down first, which drops the loader's manager; the end of the monitor task drops
  -- the locals alone, in the reverse order of their declarations.
  unfoldable pub on_end : End → Daemon W → Daemon W × Exit
  unfolding drop_route_manager drop_ebpf_manager
  on_end signalled d =
      drop_route_manager (returned (result_of signalled)) (drop_ebpf_manager (on_signal d))
  on_end monitor_ended d =
      let (d', exit) = drop_route_manager (returned (result_of monitor_ended)) d in
      (drop_ebpf_manager d', exit)

  after_loop : End → Outcome W → Process W
  after_loop end (blocked d) = hung d
  after_loop end (running d) = let (d', exit) = on_end end d in over d' exit

  module _ (read_to_string : Text → Option Text) (from_str : Text → Option Config) where
    after_start : End → List (Event W.os.State) → Result (Daemon W) → Process W
    unfolding after_loop
    after_start end es (err e) = failed e
    after_start end es (ok d) = after_loop end (steps es d)

    after_config : End → List (Event W.os.State) → W.os.State → Result Config → Process W
    unfolding after_start
    after_config end es s (err e) = failed e
    after_config end es s (ok config) = after_start end es (start W config s).1

    -- With the events of the loop, and the end that comes after them.
    unfoldable pub async_main : Text → List (Event W.os.State) → End → W.os.State → Process W
    unfolding after_config
    async_main path es end s = after_config end es s (load_config read_to_string from_str path)

  -- The system when the routes are dropped: the shutdown after a signal, or nothing.
  abbrev pub shut_down : End → Daemon W → Daemon W
  shut_down signalled d = on_signal d
  shut_down monitor_ended d = d

  signal_keeps_routes : (d : Daemon W) → (on_signal d).route_manager ≡ d.route_manager
  unfolding on_signal graceful_shutdown detach_if_attached
  signal_keeps_routes d = ground arith

  shut_down_routes : (end : End) (d : Daemon W) → (shut_down end d).route_manager ≡ d.route_manager
  shut_down_routes signalled d = signal_keeps_routes d
  shut_down_routes monitor_ended d = refl

  on_end_parts :
      (end : End) (d : Daemon W)
      → let dropped = drop W.os R W.drain (shut_down end d).route_manager (shut_down end d).sys in
        let (d', exit) = on_end end d in
        (is_attached W.aya d'.ebpf_manager ≡ false)
        × (d'.sys ≡ dropped.0)
        × (exit ≡ (if dropped.1 then returned (result_of end) else panicked))
  unfolding on_end drop_route_manager drop_ebpf_manager
  on_end_parts signalled d = ((detach_forgets W.aya (on_signal d).ebpf_manager).0, refl, refl)
  on_end_parts monitor_ended d = ((detach_forgets W.aya d.ebpf_manager).0, refl, refl)

  -- The loop ends by a signal or with the monitor task, inside tokio's runtime, where `block_on`
  -- panics. No classifier is attached afterwards. The system is as the shutdown after the signal
  -- left it, and with the end of the monitor task as it was: no route is deleted. And the process
  -- returns, `Ok` after a signal and an error after the monitor task, if no route was active, but
  -- panics if one was.
  pub on_end_lem :
      (end : End) (d : Daemon W)
      → Inside W.os R
      → ((xs : List Text) → is_empty (W.drain xs) ≡ is_empty xs)
      → let (d', exit) = on_end end d in
        (is_attached W.aya d'.ebpf_manager ≡ false)
        × (d'.sys ≡ (shut_down end d).sys)
        × (((is_empty d.route_manager.active_routes ≡ true) × (exit ≡ returned (result_of end)))
            ⊎ ((is_empty d.route_manager.active_routes ≡ false) × (exit ≡ panicked)))
  on_end_lem end d inside drains =
      let (off, same_sys, exits) = on_end_parts end d in
      let m = (shut_down end d).route_manager in
      let dropped = drop-Inside W.os R W.drain m (shut_down end d).sys inside drains in
      let routes = shut_down_routes end d in
      let sys_kept = same_sys ∙ ap (λ x. x.0) dropped in
      let exit_by =
        exits
        ∙ ap (λ x. if x.1 then returned (result_of end) else panicked) dropped
        ∙ ap (λ x. if is_empty x.active_routes then returned (result_of end) else panicked)
            routes in
      elim (Bool-cases (is_empty d.route_manager.active_routes)) [
        | inl none_active ↦ (off, sys_kept, inl (none_active, exit_by ∙ rw none_active refl))
        | inr some_active ↦ (off, sys_kept, inr (some_active, exit_by ∙ rw some_active refl))
      ]

  on_end-frame : (end : End) (d : Daemon W) → (on_end end d).0.state_manager ≡ d.state_manager
  unfolding on_end drop_route_manager drop_ebpf_manager on_signal graceful_shutdown
      detach_if_attached
  on_end-frame signalled d = ground arith
  on_end-frame monitor_ended d = refl

  -- An exit, with the machine's last state: a panic only if it was not Inactive.
  abbrev pub Leaves : End → Daemon W → Exit → Type 0
  Leaves end d exit =
      (is_attached W.aya d.ebpf_manager ≡ false)
      × ((exit ≡ returned (result_of end))
          ⊎ ((exit ≡ panicked) × (d.state_manager.state ≢ inactive)))

  on_end-Leaves :
      (timeout : ℕ) (end : End) (d : Daemon W)
      → Inside W.os R
      → ((xs : List Text) → is_empty (W.drain xs) ≡ is_empty xs)
      → Inv timeout d
      → Leaves end (on_end end d).0 (on_end end d).1
  on_end-Leaves timeout end d inside drains inv =
      let (off, _, exits) = on_end_lem end d inside drains in
      (
        off,
        elim exits [
          | inl (_, returns) ↦ inl returns
          | inr (some_active, panics) ↦ inr (
            panics,
            λ was.
                let at_rest = ap (λ m. m.state) (on_end-frame end d) in
                let (_, no_route) = inv.clean (sym at_rest ∙ was) in
                ground (arith, some_active, no_route),
          )
        ],
      )

  module _ (read_to_string : Text → Option Text) (from_str : Text → Option Config) where
    -- The whole process, from its configuration to its end, with any events in between, inside
    -- tokio's runtime: it fails before its loop; or it hangs in the loop, with 32 commands in the
    -- channel; or it is over with no classifier attached. In the last case it returns, `Ok` after a
    -- signal and an error after the monitor task, or it panics, and then the machine was not
    -- Inactive.
    pub async_main-Leaves :
        (path : Text) (es : List (Event W.os.State)) (end : End) (s : W.os.State)
        → Inside W.os R
        → ((xs : List Text) → is_empty (W.drain xs) ≡ is_empty xs)
        → let p = async_main read_to_string from_str path es end s in
          ((e : Error) × (p ≡ failed e))
          ⊎ ((d : Daemon W) × (p ≡ hung d) × (length d.state_queue ≡ 32))
          ⊎ ((d : Daemon W) × (exit : Exit) × (p ≡ over d exit) × Leaves end d exit)
    unfolding async_main after_config after_start after_loop
    async_main-Leaves path es end s inside drains =
        elim (Result-cases (load_config read_to_string from_str path)) [
          | inr (e, no_config) ↦ inl (e, rw no_config refl)
          | inl (config, loads) ↦ elim (Result-cases (start W config s).1) [
            | inr (e, no_start) ↦ inl (e, rw (loads, no_start) refl)
            | inl (d, starts) ↦
                let inv = start_steps-Inv W config s d es starts in
                elim (Outcome-cases (steps es d)) [
                  | inr (d', stops) ↦ inr (
                      inl (
                        d',
                        rw (loads, starts, stops) refl,
                        hung-room config.general.idle_timeout es d d'
                            (start-Inv W config s d starts) stops,
                      ))
                  | inl (d', runs) ↦ inr (
                      inr (
                        (on_end end d').0,
                        (on_end end d').1,
                        rw (loads, starts, runs) refl,
                        on_end-Leaves config.general.idle_timeout end d' inside drains
                            (rw (daemon_of, runs) at inv),
                      ))
                ]
          ]
        ]
