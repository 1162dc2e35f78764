-- ===== src/Tests/Process.antt =====
-- The whole process, in the test world.
use wg_ondemand.Base.{◌≡◌, refl, ◌⊎◌, true, false, Option, none, some, [], ◌∷◌, Text, Error, length}
use wg_ondemand.Base.Str.{codes}
use wg_ondemand.Types.{Config}
use wg_ondemand.Loader.{is_attached}
use wg_ondemand.Routes.Drop.{Runtime, Inside}
use wg_ondemand.Daemon.{Daemon}
use wg_ondemand.Daemon.Loop.{command}
use wg_ondemand.Daemon.Exit.{
  Exit, failed, hung, over, returned, panicked, signalled, monitor_ended, result_of, on_end,
  shut_down, on_end_lem, async_main, Leaves, async_main-Leaves,
}
use wg_ondemand.Tests.World.{logging, program, world, config, daemon}

-- Inside tokio's runtime.
abbrev runtime : Runtime logging
runtime = record { try_current = λ s. true; block_on = λ s args. none }

abbrev inside : Inside logging runtime
inside = record { has_handle = λ s. refl; panics = λ s args. refl }

-- A daemon with a route.
abbrev routed : Daemon world
routed = record daemon {
  route_manager = record daemon.route_manager { active_routes = codes "10.1.0.0/16" ∷ [] };
}

on_end_lem_example :
    let (d', exit) = on_end runtime signalled routed in
    (is_attached program d'.ebpf_manager ≡ false)
    × (d'.sys ≡ (shut_down runtime signalled routed).sys)
    × (((false ≡ true) × (exit ≡ returned (result_of signalled)))
        ⊎ ((false ≡ false) × (exit ≡ panicked)))
on_end_lem_example = on_end_lem runtime signalled routed inside (λ xs. refl)

abbrev read_to_string : Text → Option Text
read_to_string path = some []

abbrev from_str : Text → Option Config
from_str contents = some config

async_main-Leaves_example :
    let p =
      async_main runtime read_to_string from_str
        (codes "/etc/c")
        (command 5 ∷ [])
        monitor_ended
        [] in
    ((e : Error) × (p ≡ failed e))
    ⊎ ((d : Daemon world) × (p ≡ hung d) × (length d.state_queue ≡ 32))
    ⊎ ((d : Daemon world) × (exit : Exit) × (p ≡ over d exit) × Leaves runtime monitor_ended d exit)
async_main-Leaves_example =
    async_main-Leaves runtime read_to_string from_str (codes "/etc/c") (command 5 ∷ [])
      monitor_ended [] inside (λ xs. refl)
