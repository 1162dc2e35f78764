-- ===== src/Routes/Drop.antt =====
-- wg-ondemand/src/route_manager.rs, `Drop` of the manager.
use wg_ondemand.Base.{
  ◌≡◌, refl, Bool, true, false, Option, none, some, List, [], ◌∷◌, Text, is_empty, if◌then◌else◌,
  arith,
}
use wg_ondemand.Os.{Os}
use wg_ondemand.Routes.{RouteManager, del_route, has_active_routes}

-- tokio's handle, as `drop` uses it: whether there is one, and a command that is waited for by
-- `block_on`, which panics with `none`.
pub record Runtime (O : Os) : Type 0 where
  pub try_current : O.State → Bool
  pub block_on : O.State → List Text → Option O.State

-- Inside a runtime there is a handle, and `block_on` panics before it runs anything.
pub record Inside (O : Os) (R : Runtime O) : Type 0 where
  pub has_handle : (s : O.State) → R.try_current s ≡ true
  pub panics : (s : O.State) (args : List Text) → R.block_on s args ≡ none

module _ (O : Os) (R : Runtime O) where
  -- The state, and whether the loop has come to its end: a panic ends it.
  unfoldable pub drop_each : List Text → O.State → O.State × Bool
  drop_each [] s = (s, true)
  drop_each (subnet ∷ subnets) s = elim (R.block_on s (del_route subnet)) [
    | none ↦ (s, false)
    | some s' ↦ drop_each subnets s'
  ]

  unfoldable pub drop : (List Text → List Text) → RouteManager → O.State → O.State × Bool
  drop drain m s =
      if has_active_routes m
      then (if R.try_current s then drop_each (drain m.active_routes) s else (s, true))
      else (s, true)

  drop_each-Inside :
      (subnets : List Text) (s : O.State) → Inside O R → drop_each subnets s ≡ (s, is_empty subnets)
  unfolding drop_each
  drop_each-Inside [] s inside = refl
  drop_each-Inside (subnet ∷ subnets) s inside = ground (arith, inside.panics s (del_route subnet))

  -- Inside a runtime, a manager with active routes panics when it is dropped, and deletes none.
  pub drop-Inside :
      (drain : List Text → List Text) (m : RouteManager) (s : O.State)
      → Inside O R
      → ((xs : List Text) → is_empty (drain xs) ≡ is_empty xs)
      → drop drain m s ≡ (s, is_empty m.active_routes)
  unfolding drop has_active_routes
  drop-Inside drain m s inside drains = ground (
    arith,
    inside.has_handle s,
    drop_each-Inside (drain m.active_routes) s inside,
    drains m.active_routes,
  )
