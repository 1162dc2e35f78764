-- ===== src/Tests/Routing.antt =====
-- The cached gateway, over a table of routes.
use wg_ondemand.Base.{◌≡◌, refl, Bool, true, false, Option, some, List, [], ◌∷◌, Text, contains}
use wg_ondemand.Base.Str.{codes}
use wg_ondemand.Base.Ipv4.{Ipv4Addr}
use wg_ondemand.Os.{Os, Output}
use wg_ondemand.Routes.{RouteManager}
use wg_ondemand.Routes.Cache.{adds, removes, calls, calls_gateway}

abbrev answer : Bool → Option Output
answer success = some (record { success = success; stdout = []; stderr = [] })

-- A table that is only added to: the subnets that have a route. The commands are told apart by their
-- lengths.
abbrev run_table : List Text → List Text → List Text × Option Output
run_table routes (ip ∷ route ∷ verb ∷ subnet ∷ []) = (routes, answer (contains routes subnet))
run_table routes (ip ∷ route ∷ verb ∷ subnet ∷ via ∷ gateway ∷ dev ∷ interface ∷ []) =
    (subnet ∷ routes, answer true)
run_table routes _ = (routes, answer false)

abbrev table : Os
table = record { State = List Text; run = run_table }

abbrev router : Ipv4Addr
router = record { o0 = 192; o1 = 168; o2 = 1; o3 = 1 }

abbrev manager : RouteManager
manager = record {
  interface = codes "wlan0";
  gateway = some router;
  active_routes = codes "10.1.0.0/16" ∷ [];
}

calls_gateway_example :
    (calls table (λ rs. rs) (adds (codes "10.2.0.0/16" ∷ []) ∷ removes ∷ []) manager []).1.gateway
    ≡ some router
calls_gateway_example =
    calls_gateway table (λ rs. rs) router (adds (codes "10.2.0.0/16" ∷ []) ∷ removes ∷ []) manager
      [] refl
