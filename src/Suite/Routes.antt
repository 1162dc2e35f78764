-- ===== src/Suite/Routes.antt =====
-- wg-ondemand/src/route_manager.rs, `mod tests`.
use wg_ondemand.Base.{◌≡◌, refl, Bool, true, not, ◌&&◌, some, [], ◌∷◌, text_eq, is_some, all_pass}
use wg_ondemand.Base.Str.{codes}
use wg_ondemand.Routes.{RouteManager, new, has_active_routes, clear_gateway_cache}

abbrev pub test_new : Bool
test_new =
    let rm = new (codes "wlan0") in
    text_eq rm.interface (codes "wlan0") && (not (is_some rm.gateway) && not (has_active_routes rm))

abbrev pub test_active_routes : Bool
test_active_routes =
    has_active_routes (record (new (codes "wlan0")) { active_routes = codes "192.168.1.0/24" ∷ [] })

abbrev pub test_clear_gateway : Bool
test_clear_gateway =
    let gateway = some (record { o0 = 192; o1 = 168; o2 = 1; o3 = 1 }) in
    let rm : RouteManager = record (new (codes "wlan0")) { gateway = gateway } in
    not (is_some (clear_gateway_cache rm).gateway)

-- All of them pass.
tests_pass : all_pass (test_new ∷ test_active_routes ∷ test_clear_gateway ∷ []) ≡ true
unfolding new has_active_routes clear_gateway_cache text_eq
tests_pass = refl
