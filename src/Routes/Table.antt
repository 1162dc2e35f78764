-- ===== src/Routes/Table.antt =====
-- The set of active routes against the kernel's table.
use wg_ondemand.Base.{
  ◌≡◌, ◌∙◌, ap, sym, inl, inr, Bool, true, ◌||◌, some, List, [], ◌∷◌, arith, Text, text_eq,
  text_eq_iff, contains, contains-cons, ok, Bool-cases, Option-cases, Result-cases,
}
use wg_ondemand.Base.Str.{has}
use wg_ondemand.Base.Ipv4.{Ipv4Addr, show_ipv4}
use wg_ondemand.Os.{Os, Output}
use wg_ondemand.Routes.{
  RouteManager, show_routes, show_route, add_route, detect_gateway, route_exists, route_added,
  add_subnet, add_subnets, add_routes,
}

-- What `ip route` does to the table: which subnets have a route, in a state of the system.
pub record RouteTable (O : Os) : Type 0 where
  pub present : O.State → Text → Bool
  pub show_all_keeps :
      (s : O.State) (interface r : Text)
      → present (O.run s (show_routes interface)).0 r ≡ present s r
  pub show_keeps :
      (s : O.State) (subnet r : Text) → present (O.run s (show_route subnet)).0 r ≡ present s r
  -- A route that is shown is there.
  pub show_finds :
      (s : O.State) (subnet : Text) (gateway : Ipv4Addr) (interface : Text) (out : Output)
      → (O.run s (show_route subnet)).1 ≡ some out
      → out.success ≡ true
      → has (show_ipv4 gateway) out.stdout ≡ true
      → has interface out.stdout ≡ true
      → present s subnet ≡ true
  -- An addition that succeeds puts the route there, and none takes another away.
  pub add_puts :
      (s : O.State) (subnet : Text) (gateway : Ipv4Addr) (interface : Text) (out : Output)
      → (O.run s (add_route subnet gateway interface)).1 ≡ some out
      → out.success ≡ true
      → present (O.run s (add_route subnet gateway interface)).0 subnet ≡ true
  pub add_keeps :
      (s : O.State) (subnet : Text) (gateway : Ipv4Addr) (interface r : Text)
      → present s r ≡ true
      → present (O.run s (add_route subnet gateway interface)).0 r ≡ true

module _ (O : Os) (T : RouteTable O) where
  -- Every active route is in the table.
  abbrev pub Installed : RouteManager → O.State → Type 0
  Installed m s = (r : Text) → contains m.active_routes r ≡ true → T.present s r ≡ true

  abbrev Keeps : O.State → O.State → Type 0
  Keeps s s' = (r : Text) → T.present s r ≡ true → T.present s' r ≡ true

  pub route_exists_lem :
      (m : RouteManager) (subnet : Text) (gateway : Ipv4Addr) (s : O.State)
      → let (s', r) = route_exists O m subnet gateway s in
        Keeps s s' × (r ≡ ok true → T.present s' subnet ≡ true)
  unfolding route_exists
  route_exists_lem m subnet gateway s =
      let cmd = show_route subnet in
      elim (Option-cases (O.run s cmd).1) [
        | inl e ↦ (
          λ r h. ground (arith, e, h, T.show_keeps s subnet r),
          λ done. absurd (ground (arith, e, done)),
        )
        | inr (out, e) ↦ (
          λ r h. ground (arith, e, h, T.show_keeps s subnet r),
          λ done.
              let found =
                T.show_finds s subnet gateway m.interface out e (ground (arith, e, done))
                  (ground (arith, e, done)) (ground (arith, e, done)) in
              ground (arith, e, found, T.show_keeps s subnet subnet),
        )
      ]

  route_added_lem :
      (m : RouteManager) (subnet : Text) (gateway : Ipv4Addr) (s : O.State)
      → let (s', r) = route_added O m subnet gateway s in
        Keeps s s' × (r ≡ ok true → T.present s' subnet ≡ true)
  unfolding route_added
  route_added_lem m subnet gateway s =
      let cmd = add_route subnet gateway m.interface in
      let s' = (O.run s cmd).0 in
      let (keeps, finds) = route_exists_lem m subnet gateway s' in
      elim (Option-cases (O.run s cmd).1) [
        | inl e ↦ (
          λ r h. ground (arith, e, h, T.add_keeps s subnet gateway m.interface r),
          λ done. absurd (ground (arith, e, done)),
        )
        | inr (out, e) ↦ elim (Bool-cases out.success) [
          | inl yes_added ↦ (
            λ r h. ground (arith, e, yes_added, h, T.add_keeps s subnet gateway m.interface r),
            λ done.
                ground
                  (arith, e, yes_added, T.add_puts s subnet gateway m.interface out e yes_added),
          )
          | inr not_added ↦ (
            λ r h.
                let kept = keeps r (T.add_keeps s subnet gateway m.interface r h) in
                ground (arith, e, not_added, kept),
            λ done.
                let found = finds (ground (arith, e, not_added, done)) in
                ground (arith, e, not_added, found),
          )
        ]
      ]

  insert_Installed :
      (m : RouteManager) (subnet : Text) (s s' : O.State)
      → Installed m s
      → Keeps s s'
      → T.present s' subnet ≡ true
      → (r : Text) → (text_eq subnet r || contains m.active_routes r) ≡ true
      → T.present s' r ≡ true
  insert_Installed m subnet s s' installed keeps there r mem =
      elim (Bool-cases (text_eq subnet r)) [
        | inl same ↦ ap (T.present s') (sym ((text_eq_iff subnet r).0 same)) ∙ there
        | inr other ↦ keeps r (installed r (ground (arith, mem, other)))
      ]

  add_subnet-Installed :
      (gateway : Ipv4Addr) (subnet : Text) (m : RouteManager) (s : O.State)
      → Installed m s
      → let (s', m', r) = add_subnet O gateway subnet m s in Installed m' s'
  unfolding add_subnet
  add_subnet-Installed gateway subnet m s installed =
      let (keeps, finds) = route_added_lem m subnet gateway s in
      let (s', added) = route_added O m subnet gateway s in
      elim (Bool-cases (contains m.active_routes subnet)) [
        | inl known ↦ λ r h. ground (arith, known, h, installed r)
        | inr fresh ↦ elim (Result-cases added) [
          | inr (e, failed) ↦ λ r h. ground (arith, fresh, failed, h, keeps r, installed r)
          | inl (b, done) ↦ elim (Bool-cases b) [
            | inl there ↦ λ r h.
                insert_Installed m subnet s (add_subnet O gateway subnet m s).0 installed
                  (λ q k. ground (arith, fresh, done, there, keeps q k))
                  (ground (arith, fresh, done, there, finds)) r
                  (ground (arith, fresh, done, there, h, contains-cons subnet m.active_routes r))
            | inr not_there ↦ λ r h. ground (arith, fresh, done, not_there, h, keeps r, installed r)
          ]
        ]
      ]

  add_subnets-Installed :
      (gateway : Ipv4Addr) (subnets : List Text) (m : RouteManager) (s : O.State)
      → Installed m s
      → let (s', m', r) = add_subnets O gateway subnets m s in Installed m' s'
  unfolding add_subnets
  add_subnets-Installed gateway [] m s installed = installed
  add_subnets-Installed gateway (subnet ∷ subnets) m s installed =
      let (s', m', r) = add_subnet O gateway subnet m s in
      let first = add_subnet-Installed gateway subnet m s installed in
      elim (Result-cases r) [
        | inl (_, e) ↦
            λ q h. ground (arith, e, h, add_subnets-Installed gateway subnets m' s' first q)
        | inr (_, e) ↦ λ q h. ground (arith, e, h, first q)
      ]

  pub detect_gateway_keeps :
      (m : RouteManager) (s : O.State) (r : Text)
      → T.present (detect_gateway O m s).0 r ≡ T.present s r
  unfolding detect_gateway
  detect_gateway_keeps m s r = elim (Option-cases (O.run s (show_routes m.interface)).1) [
    | inl e ↦ ground (arith, e, T.show_all_keeps s m.interface r)
    | inr (_, e) ↦ ground (arith, e, T.show_all_keeps s m.interface r)
  ]

  -- If every active route is in the system's table before `add_routes`, every active route is in it
  -- afterwards, whether or not a command failed on the way.
  pub add_routes-Installed :
      (subnets : List Text) (m : RouteManager) (s : O.State)
      → Installed m s
      → let (s', m', r) = add_routes O subnets m s in Installed m' s'
  unfolding add_routes
  add_routes-Installed subnets m s installed = elim (Option-cases m.gateway) [
    | inl unknown ↦
        let (s', r) = detect_gateway O m s in
        elim (Result-cases r) [
          | inr (e, failed) ↦
              λ q h. ground (arith, unknown, failed, h, detect_gateway_keeps m s q, installed q)
          | inl (g, found) ↦ λ q h.
              let kept : Installed (record m { gateway = some g }) s' =
                λ k mem. ground (arith, detect_gateway_keeps m s k, installed k mem) in
              ground (
                arith,
                unknown,
                found,
                h,
                add_subnets-Installed g subnets (record m { gateway = some g }) s' kept q,
              )
        ]
    | inr (gateway, e) ↦
        λ q h. ground (arith, e, h, add_subnets-Installed gateway subnets m s installed q)
  ]
