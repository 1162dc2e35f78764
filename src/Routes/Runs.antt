-- ===== src/Routes/Runs.antt =====
-- The route manager's operations move the system by running programs, and by nothing else.
use wg_ondemand.Base.{
  List, [], ◌∷◌, Text, command_not_run, Bool-cases, Option-cases, Result-cases, inl, inr, contains,
  some, true, ok, if◌then◌else◌,
}
use wg_ondemand.Base.Ipv4.{Ipv4Addr}
use wg_ondemand.Os.{Os, Output, output}
use wg_ondemand.Os.Ran.{Ran, unmoved, ran, Ran-trans, output-Ran, then_io-Ran, reads-Ran}
use wg_ondemand.Routes.{
  RouteManager, show_routes, show_route, add_route, del_route, detect_gateway, route_exists,
  route_added, add_subnet, add_subnets, add_routes, delete_routes, remove_routes,
}

-- The programs that the route manager runs.
pub data RouteCommand : List Text → Type 0 where
  shows_routes : (interface : Text) → RouteCommand (show_routes interface)
  shows_route : (subnet : Text) → RouteCommand (show_route subnet)
  adds_route :
      (subnet : Text) (gateway : Ipv4Addr) (interface : Text)
      → RouteCommand (add_route subnet gateway interface)
  deletes_route : (subnet : Text) → RouteCommand (del_route subnet)

module _ {O : Os} where
  route_exists-Ran :
      (m : RouteManager) (subnet : Text) (gateway : Ipv4Addr) (s : O.State)
      → Ran O RouteCommand s (route_exists O m subnet gateway s).0
  unfolding route_exists
  route_exists-Ran m subnet gateway s =
      reads-Ran (show_route subnet) (shows_route subnet) command_not_run _ s

  detect_gateway-Ran :
      (m : RouteManager) (s : O.State) → Ran O RouteCommand s (detect_gateway O m s).0
  unfolding detect_gateway
  detect_gateway-Ran m s =
      reads-Ran (show_routes m.interface) (shows_routes m.interface) command_not_run _ s

  route_added-Ran :
      (m : RouteManager) (subnet : Text) (gateway : Ipv4Addr) (s : O.State)
      → Ran O RouteCommand s (route_added O m subnet gateway s).0
  unfolding route_added
  route_added-Ran m subnet gateway s =
      let cmd = add_route subnet gateway m.interface in
      then_io-Ran (output O cmd command_not_run)
        (λ (out : Output).
          if out.success then (λ t. (t, ok true)) else route_exists O m subnet gateway)
        s (output-Ran cmd (adds_route subnet gateway m.interface) command_not_run s)
        λ out t. elim (Bool-cases out.success) [
          | inl e ↦ rw e unmoved
          | inr e ↦ rw e (route_exists-Ran m subnet gateway t)
        ]

  add_subnet-Ran :
      (gateway : Ipv4Addr) (subnet : Text) (m : RouteManager) (s : O.State)
      → Ran O RouteCommand s (add_subnet O gateway subnet m s).0
  unfolding add_subnet
  add_subnet-Ran gateway subnet m s = elim (Bool-cases (contains m.active_routes subnet)) [
    | inl e ↦ rw e unmoved
    | inr fresh ↦ elim (Result-cases (route_added O m subnet gateway s).1) [
      | inl (_, e) ↦ rw (fresh, e) (route_added-Ran m subnet gateway s)
      | inr (_, e) ↦ rw (fresh, e) (route_added-Ran m subnet gateway s)
    ]
  ]

  add_subnets-Ran :
      (gateway : Ipv4Addr) (subnets : List Text) (m : RouteManager) (s : O.State)
      → Ran O RouteCommand s (add_subnets O gateway subnets m s).0
  unfolding add_subnets
  add_subnets-Ran gateway [] m s = unmoved
  add_subnets-Ran gateway (subnet ∷ subnets) m s =
      let (s', m', r) = add_subnet O gateway subnet m s in
      let first = add_subnet-Ran gateway subnet m s in
      elim (Result-cases r) [
        | inl (_, e) ↦ rw (add_subnets, e) (Ran-trans first (add_subnets-Ran gateway subnets m' s'))
        | inr (_, e) ↦ rw (add_subnets, e) first
      ]

  pub add_routes-Ran :
      (subnets : List Text) (m : RouteManager) (s : O.State)
      → Ran O RouteCommand s (add_routes O subnets m s).0
  unfolding add_routes
  add_routes-Ran subnets m s = elim (Option-cases m.gateway) [
    | inr (gateway, e) ↦ rw (add_routes, e) (add_subnets-Ran gateway subnets m s)
    | inl unknown ↦
        let (s', r) = detect_gateway O m s in
        let first = detect_gateway-Ran m s in
        elim (Result-cases r) [
          | inl (g, e) ↦
              let m' : RouteManager = record m { gateway = some g } in
              rw (add_routes, unknown, e) (Ran-trans first (add_subnets-Ran g subnets m' s'))
          | inr (_, e) ↦ rw (add_routes, unknown, e) first
        ]
  ]

  delete_routes-Ran :
      (subnets : List Text) (s : O.State) → Ran O RouteCommand s (delete_routes O subnets s)
  unfolding delete_routes
  delete_routes-Ran [] s = unmoved
  delete_routes-Ran (subnet ∷ subnets) s =
      Ran-trans (ran unmoved (del_route subnet) (deletes_route subnet))
        (delete_routes-Ran subnets (O.run s (del_route subnet)).0)

  pub remove_routes-Ran :
      (drain : List Text → List Text) (m : RouteManager) (s : O.State)
      → Ran O RouteCommand s (remove_routes O drain m s).0
  unfolding remove_routes
  remove_routes-Ran drain m s = delete_routes-Ran (drain m.active_routes) s
