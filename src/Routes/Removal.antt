-- ===== src/Routes/Removal.antt =====
-- wg-ondemand/src/route_manager.rs: the kernel's table after additions and removals, route by route.
use wg_ondemand.Base.{
  ◌≡◌, refl, ap, sym, ◌∙◌, ◌⊎◌, inl, inr, Bool, true, false, not, ◌&&◌, ◌||◌, Result, err, some,
  List, [], ◌∷◌, arith, Text, text_eq, text_eq_iff, contains, ok, Bool-cases, Option-cases,
  Result-cases,
}
use wg_ondemand.Base.Ipv4.{Ipv4Addr}
use wg_ondemand.Os.{Os}
use wg_ondemand.Routes.{
  RouteManager, add_route, detect_gateway, route_exists, route_added, add_subnet, add_subnets,
  add_routes, remove_routes, show_route,
}
use wg_ondemand.Routes.Deletion.{Privileged, deleted, remove_routes_exact}
use wg_ondemand.Routes.Table.{RouteTable, Installed, route_exists_lem, detect_gateway_keeps}

module _ (O : Os) (T : RouteTable O) (P : Privileged O T) where
  -- The table is the one before, with the active routes.
  abbrev pub Extends : O.State → O.State → RouteManager → Type 0
  Extends s s' m' = (r : Text) → T.present s' r ≡ (T.present s r || contains m'.active_routes r)

  route_exists_keeps :
      (m : RouteManager) (subnet : Text) (gateway : Ipv4Addr) (s : O.State) (r : Text)
      → T.present (route_exists O m subnet gateway s).0 r ≡ T.present s r
  unfolding route_exists
  route_exists_keeps m subnet gateway s r = elim (Option-cases (O.run s (show_route subnet)).1) [
    | inl e ↦ ground (arith, e, T.show_keeps s subnet r)
    | inr (_, e) ↦ ground (arith, e, T.show_keeps s subnet r)
  ]

  abbrev holds : Result Bool → Bool
  holds (ok b) = b
  holds (err e) = false

  holds_true : (r : Result Bool) → holds r ≡ true → r ≡ ok true
  holds_true (ok b) h = ap ok h
  holds_true (err e) h = absurd (ground (arith, h))

  -- An addition puts its subnet into the table if it reports that the route is there, and otherwise
  -- changes nothing.
  route_added_exact :
      (m : RouteManager) (subnet : Text) (gateway : Ipv4Addr) (s : O.State) (r : Text)
      → let (s', added) = route_added O m subnet gateway s in
        T.present s' r ≡ (T.present s r || (holds added && text_eq subnet r))
  unfolding route_added
  route_added_exact m subnet gateway s r =
      let s' = (O.run s (add_route subnet gateway m.interface)).0 in
      elim (Option-cases (O.run s (add_route subnet gateway m.interface)).1) [
        | inl e ↦ ground (arith, e, P.add_not_run s subnet gateway m.interface r e)
        | inr (out, e) ↦ elim (Bool-cases out.success) [
          | inl done ↦ elim (Bool-cases (text_eq subnet r)) [
            | inl same ↦
                let there =
                  ap (T.present s') (sym ((text_eq_iff subnet r).0 same))
                  ∙ T.add_puts s subnet gateway m.interface out e done in
                ground (arith, e, done, same, there)
            | inr other ↦
                ground (arith, e, done, other, P.add_own s subnet gateway m.interface r other)
          ]
          | inr failed ↦
              let kept = P.add_fails s subnet gateway m.interface r out e failed in
              let shown = route_exists_keeps m subnet gateway s' r in
              let result = (route_exists O m subnet gateway s').1 in
              elim (Bool-cases (holds result)) [
                | inr missing ↦ ground (arith, e, failed, kept, shown, missing)
                | inl yes_found ↦ elim (Bool-cases (text_eq subnet r)) [
                  | inr other ↦ ground (arith, e, failed, kept, shown, other)
                  | inl same ↦
                      let there =
                        ap (T.present (route_exists O m subnet gateway s').0)
                          (sym ((text_eq_iff subnet r).0 same))
                        ∙ (route_exists_lem O T m subnet gateway s').1
                            (holds_true result yes_found) in
                      ground (arith, e, failed, kept, shown, same, there)
                ]
              ]
        ]
      ]

  add_subnet-Extends :
      (gateway : Ipv4Addr) (subnet : Text) (m : RouteManager) (s₀ s : O.State)
      → Extends s₀ s m
      → let (s', m', r) = add_subnet O gateway subnet m s in Extends s₀ s' m'
  unfolding add_subnet contains
  add_subnet-Extends gateway subnet m s₀ s h r =
      let added = (route_added O m subnet gateway s).1 in
      let exact = route_added_exact m subnet gateway s r in
      elim (Bool-cases (contains m.active_routes subnet)) [
        | inl known ↦ ground (arith, known, h r)
        | inr fresh ↦ elim (Result-cases added) [
          | inr (e, failed) ↦ ground (arith, fresh, failed, exact, h r)
          | inl (b, done) ↦ ground (arith, fresh, done, exact, h r)
        ]
      ]

  add_subnets-Extends :
      (gateway : Ipv4Addr) (subnets : List Text) (m : RouteManager) (s₀ s : O.State)
      → Extends s₀ s m
      → let (s', m', r) = add_subnets O gateway subnets m s in Extends s₀ s' m'
  unfolding add_subnets
  add_subnets-Extends gateway [] m s₀ s h = h
  add_subnets-Extends gateway (subnet ∷ subnets) m s₀ s h =
      let (s', m', r) = add_subnet O gateway subnet m s in
      let first = add_subnet-Extends gateway subnet m s₀ s h in
      elim (Result-cases r) [
        | inl (_, e) ↦ λ q. ground (arith, e, add_subnets-Extends gateway subnets m' s₀ s' first q)
        | inr (_, e) ↦ λ q. ground (arith, e, first q)
      ]

  -- From a manager whose active routes are in the table, an addition of subnets, whether or not it
  -- fails on the way, leaves the table as it was with the active routes.
  pub add_routes-Extends :
      (subnets : List Text) (m : RouteManager) (s : O.State)
      → Installed O T m s
      → let (s', m', r) = add_routes O subnets m s in Extends s s' m'
  unfolding add_routes
  add_routes-Extends subnets m s installed =
      let first : Extends s s m = λ q. ground (arith, installed q) in
      elim (Option-cases m.gateway) [
        | inr (gateway, e) ↦
            λ q. ground (arith, e, add_subnets-Extends gateway subnets m s s first q)
        | inl unknown ↦
            let (s', r) = detect_gateway O m s in
            elim (Result-cases r) [
              | inr (e, failed) ↦
                  λ q. ground (arith, unknown, failed, detect_gateway_keeps O T m s q, first q)
              | inl (g, found) ↦ λ q.
                  let m' = record m { gateway = some g } in
                  let shown : Extends s s' m' =
                    λ k. ground (arith, detect_gateway_keeps O T m s k, first k) in
                  ground (arith, unknown, found, add_subnets-Extends g subnets m' s s' shown q)
            ]
      ]

module _ (O : Os) where
  -- What was active still is, and nothing else but routes of the list.
  abbrev pub From : List Text → RouteManager → RouteManager → Type 0
  From subnets m m' =
      (r : Text)
      → ((contains m.active_routes r && not (contains m'.active_routes r))
          || (contains m'.active_routes r
              && not (contains m.active_routes r || contains subnets r)))
        ≡ false

  add_subnet-From :
      (gateway : Ipv4Addr) (subnet : Text) (m : RouteManager) (s : O.State)
      → From (subnet ∷ []) m (add_subnet O gateway subnet m s).1
  unfolding add_subnet contains
  add_subnet-From gateway subnet m s r = ground arith

  add_subnets-From :
      (gateway : Ipv4Addr) (subnets : List Text) (m : RouteManager) (s : O.State)
      → From subnets m (add_subnets O gateway subnets m s).1
  unfolding add_subnets contains
  add_subnets-From gateway [] m s r = ground arith
  add_subnets-From gateway (subnet ∷ subnets) m s r =
      let (s', m', res) = add_subnet O gateway subnet m s in
      let first = add_subnet-From gateway subnet m s r in
      elim (Result-cases res) [
        | inl (_, e) ↦ ground (arith, e, first, add_subnets-From gateway subnets m' s' r)
        | inr (_, e) ↦ ground (arith, e, first)
      ]

  pub add_routes-From :
      (subnets : List Text) (m : RouteManager) (s : O.State)
      → From subnets m (add_routes O subnets m s).1
  unfolding add_routes
  add_routes-From subnets m s r = elim (Option-cases m.gateway) [
    | inr (gateway, e) ↦ ground (arith, e, add_subnets-From gateway subnets m s r)
    | inl unknown ↦
        let (s', res) = detect_gateway O m s in
        elim (Result-cases res) [
          | inr (e, failed) ↦ ground (arith, unknown, failed)
          | inl (g, found) ↦
              let m' = record m { gateway = some g } in
              ground (arith, unknown, found, add_subnets-From g subnets m' s' r)
        ]
  ]

  -- A manager without active routes adds subnets, whether or not that fails on the way, and then
  -- removes its routes, in any order that drains the set. Afterwards the manager has no active route,
  -- and only routes of the list were active. Each route is as it was in the table at first, and not
  -- there if it was active; or it was active, no deletion of it succeeded, and it is there still.
  pub add_then_remove :
      (T : RouteTable O) (P : Privileged O T) (drain : List Text → List Text) (subnets : List Text)
      (m : RouteManager) (s : O.State) (r : Text)
      → ((xs : List Text) (x : Text) → contains (drain xs) x ≡ contains xs x)
      → m.active_routes ≡ []
      → let (s', m', added) = add_routes O subnets m s in
        let (s'', m'') = remove_routes O drain m' s' in
        let active = contains m'.active_routes r in
        ((T.present s'' r ≡ (T.present s r && not active))
          ⊎ ((active ≡ true)
              × (deleted O (drain m'.active_routes) s' r ≡ false)
              × (T.present s'' r ≡ true)))
        × ((active && not (contains subnets r)) ≡ false)
        × (m''.active_routes ≡ [])
  unfolding remove_routes contains
  add_then_remove T P drain subnets m s r drains none_active =
      let (s', m', added) = add_routes O subnets m s in
      let installed : Installed O T m s = λ q h. absurd (ground (arith, none_active, h)) in
      let extends = add_routes-Extends O T P subnets m s installed r in
      let (exact, own) = remove_routes_exact O T P drain m' s' r drains in
      (
        elim (Bool-cases (contains m'.active_routes r)) [
          | inr idle ↦ inl (ground (arith, idle, extends, exact, own))
          | inl active ↦ elim (Bool-cases (deleted O (drain m'.active_routes) s' r)) [
            | inl gone ↦ inl (ground (arith, active, gone, exact))
            | inr kept ↦ inr (active, kept, ground (arith, active, kept, extends, exact))
          ]
        ],
        ground (arith, none_active, add_routes-From subnets m s r),
        refl,
      )
