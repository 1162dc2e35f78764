-- ===== src/Routes/Cache.antt =====
-- wg-ondemand/src/route_manager.rs: the cached gateway.
use wg_ondemand.Base.{◌≡◌, refl, some, List, [], ◌∷◌, arith, Text}
use wg_ondemand.Base.Ipv4.{Ipv4Addr}
use wg_ondemand.Os.{Os}
use wg_ondemand.Routes.{RouteManager, add_subnet, add_subnets, add_routes, remove_routes}

-- The calls that the daemon makes.
pub data RouteCall : Type 0 where
  adds : List Text → RouteCall
  removes : RouteCall

module _ (O : Os) (drain : List Text → List Text) where
  abbrev pub call : RouteCall → RouteManager → O.State → O.State × RouteManager
  call (adds subnets) m s = let (s', m', r) = add_routes O subnets m s in (s', m')
  call removes m s = remove_routes O drain m s

  abbrev pub calls : List RouteCall → RouteManager → O.State → O.State × RouteManager
  calls [] m s = (s, m)
  calls (c ∷ cs) m s = let (s', m') = call c m s in calls cs m' s'

module _ (O : Os) (gateway : Ipv4Addr) where
  abbrev Same : RouteManager → RouteManager → Type 0
  Same m m' = (m'.gateway ≡ m.gateway) × (m'.interface ≡ m.interface)

  add_subnet-Same :
      (subnet : Text) (m : RouteManager) (s : O.State) → Same m (add_subnet O gateway subnet m s).1
  unfolding add_subnet
  add_subnet-Same subnet m s = ground arith

  add_subnets-Same :
      (subnets : List Text) (m : RouteManager) (s : O.State)
      → Same m (add_subnets O gateway subnets m s).1
  unfolding add_subnets
  add_subnets-Same [] m s = (refl, refl)
  add_subnets-Same (subnet ∷ subnets) m s =
      let (s', m', r) = add_subnet O gateway subnet m s in
      ground (arith, add_subnet-Same subnet m s, add_subnets-Same subnets m' s')

module _ (O : Os) (drain : List Text → List Text) (gateway : Ipv4Addr) where
  call_gateway :
      (c : RouteCall) (m : RouteManager) (s : O.State)
      → m.gateway ≡ some gateway
      → (call O drain c m s).1.gateway ≡ some gateway
  unfolding add_routes remove_routes
  call_gateway (adds subnets) m s e = ground (arith, e, add_subnets-Same O gateway subnets m s)
  call_gateway removes m s e = e

  -- Once the gateway is cached, every sequence of additions and removals leaves it as it is.
  pub calls_gateway :
      (cs : List RouteCall) (m : RouteManager) (s : O.State)
      → m.gateway ≡ some gateway
      → (calls O drain cs m s).1.gateway ≡ some gateway
  calls_gateway [] m s e = e
  calls_gateway (c ∷ cs) m s e =
      calls_gateway cs (call O drain c m s).1 (call O drain c m s).0 (call_gateway c m s e)
