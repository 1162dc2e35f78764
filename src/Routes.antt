-- ===== src/Routes.antt =====
-- wg-ondemand/src/route_manager.rs: the routes that lead the configured subnets past the monitored
-- interface. The set of active routes is a list without repetitions.
pub mod Cache
pub mod Table
pub mod Deletion
pub mod Removal
pub mod Runs
pub mod Drop
use wg_ondemand.Base.{
  ℕ, Bool, true, false, not, ◌&&◌, ◌||◌, Option, none, some, List, [], ◌∷◌, Text, contains,
  is_empty, if◌then◌else◌, Result, ok, err, command_failed, command_not_run, no_gateway,
}
use wg_ondemand.Base.Str.{codes, lines, after_first, first_word, has}
use wg_ondemand.Base.Ipv4.{Ipv4Addr, parse_ipv4, show_ipv4}
use wg_ondemand.Os.{Os, Io, Output, output, then_io}

pub record RouteManager : Type 0 where
  pub interface : Text
  pub gateway : Option Ipv4Addr
  pub active_routes : List Text

unfoldable pub new : Text → RouteManager
new interface = record { interface = interface; gateway = none; active_routes = [] }

abbrev bind {ℓ} : {A B : Type ℓ} → Option A → (A → Option B) → Option B
bind none f = none
bind (some a) f = f a

-- The address behind " via " on a line of `ip route show`.
line_gateway : Text → Option Ipv4Addr
line_gateway line =
    bind (after_first (codes " via ") line) (λ rest. bind (first_word rest) parse_ipv4)

find_gateway : List Text → Option Ipv4Addr
find_gateway [] = none
find_gateway (line ∷ rest) =
    let later = find_gateway rest in elim (line_gateway line) [ some ip ↦ some ip | none ↦ later ]

-- The gateway that the output of `ip route show` names first.
unfoldable pub gateway_of : Text → Option Ipv4Addr
unfolding find_gateway line_gateway
gateway_of text = find_gateway (lines text)

unfoldable pub show_routes : Text → List Text
show_routes interface = codes "ip" ∷ codes "route" ∷ codes "show" ∷ codes "dev" ∷ interface ∷ []

unfoldable pub show_route : Text → List Text
show_route subnet = codes "ip" ∷ codes "route" ∷ codes "show" ∷ subnet ∷ []

unfoldable pub add_route : Text → Ipv4Addr → Text → List Text
add_route subnet gateway interface =
    codes "ip"
    ∷ codes "route"
    ∷ codes "add"
    ∷ subnet
    ∷ codes "via"
    ∷ show_ipv4 gateway
    ∷ codes "dev"
    ∷ interface
    ∷ []

unfoldable pub del_route : Text → List Text
del_route subnet = codes "ip" ∷ codes "route" ∷ codes "del" ∷ subnet ∷ []

unfoldable pub clear_gateway_cache : RouteManager → RouteManager
clear_gateway_cache m = record m { gateway = none }

unfoldable pub has_active_routes : RouteManager → Bool
has_active_routes m = not (is_empty m.active_routes)

module _ (O : Os) where
  gateway_result : Option Ipv4Addr → Result Ipv4Addr
  gateway_result none = err no_gateway
  gateway_result (some ip) = ok ip

  unfoldable pub detect_gateway : RouteManager → Io O Ipv4Addr
  unfolding gateway_result
  detect_gateway m = then_io O (output O (show_routes m.interface) command_not_run) λ out s.
      (s, if out.success then gateway_result (gateway_of out.stdout) else err command_failed)

  unfoldable pub route_exists : RouteManager → Text → Ipv4Addr → Io O Bool
  route_exists m subnet gateway = then_io O (output O (show_route subnet) command_not_run) λ out s.
      (s, ok (out.success && (has (show_ipv4 gateway) out.stdout && has m.interface out.stdout)))

  -- Whether the route is there after `ip route add`: it was added, or it existed.
  route_added : RouteManager → Text → Ipv4Addr → Io O Bool
  route_added m subnet gateway =
      then_io O (output O (add_route subnet gateway m.interface) command_not_run)
        λ out. if out.success then (λ s. (s, ok true)) else route_exists m subnet gateway

  abbrev insert_if : Bool → Text → RouteManager → RouteManager
  insert_if b subnet m = if b then record m { active_routes = subnet ∷ m.active_routes } else m

  -- One subnet of the loop: the state, the manager, and the result.
  add_subnet : Ipv4Addr → Text → RouteManager → O.State → O.State × RouteManager × Result (Unit {0})
  unfolding route_added
  add_subnet gateway subnet m s =
      if contains m.active_routes subnet
      then (s, m, ok tt)
      else let (s', added) = route_added m subnet gateway s in
        elim added [ ok b ↦ (s', insert_if b subnet m, ok tt) | err e ↦ (s', m, err e) ]

  -- The loop over the subnets: an error ends it.
  add_subnets :
      Ipv4Addr → List Text → RouteManager → O.State → O.State × RouteManager × Result (Unit {0})
  add_subnets gateway [] m s = (s, m, ok tt)
  add_subnets gateway (subnet ∷ subnets) m s =
      let (s', m', r) = add_subnet gateway subnet m s in
      elim r [ ok _ ↦ add_subnets gateway subnets m' s' | err e ↦ (s', m', err e) ]

  unfoldable pub add_routes :
      List Text → RouteManager → O.State → O.State × RouteManager × Result (Unit {0})
  unfolding add_subnets add_subnet
  add_routes subnets m s = elim m.gateway [
    | some gateway ↦ add_subnets gateway subnets m s
    | none ↦
        let (s', detected) = detect_gateway m s in
        elim detected [
          | err e ↦ (s', m, err e)
          | ok gateway ↦ add_subnets gateway subnets (record m { gateway = some gateway }) s'
        ]
  ]

  -- `ip route del` for each route; what the commands return is ignored.
  delete_routes : List Text → O.State → O.State
  delete_routes [] s = s
  delete_routes (subnet ∷ subnets) s = delete_routes subnets (O.run s (del_route subnet)).0

  -- `drain` empties the set, in an order of its own.
  unfoldable pub remove_routes :
      (List Text → List Text) → RouteManager → O.State → O.State × RouteManager
  unfolding delete_routes
  remove_routes drain m s =
      (delete_routes (drain m.active_routes) s, record m { active_routes = [] })
