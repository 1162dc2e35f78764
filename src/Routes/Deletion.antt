-- ===== src/Routes/Deletion.antt =====
-- wg-ondemand/src/route_manager.rs, `remove_routes`: the kernel's table after a removal, by
-- what comes of each deletion, which the code ignores.
use wg_ondemand.Base.{
  ◌≡◌, refl, ap, sym, ◌∙◌, inl, inr, Bool, true, false, ◌||◌, Option, not, ◌&&◌, none, some, List,
  [], ◌∷◌, arith, Text, text_eq, text_eq_iff, contains, Bool-cases,
}
use wg_ondemand.Base.Ipv4.{Ipv4Addr}
use wg_ondemand.Os.{Os, Output}
use wg_ondemand.Routes.{RouteManager, add_route, del_route, delete_routes, remove_routes}
use wg_ondemand.Routes.Table.{RouteTable}

-- Whether a program was run, and succeeded.
abbrev pub succeeds : Option Output → Bool
succeeds none = false
succeeds (some out) = out.success

-- What the manager's programs do to the table besides: an addition touches its own subnet alone, and
-- nothing if it fails; a deletion takes its own subnet away if it succeeds, and nothing if it fails.
pub record Privileged (O : Os) (T : RouteTable O) : Type 0 where
  pub add_own :
      (s : O.State) (subnet : Text) (gateway : Ipv4Addr) (interface r : Text)
      → text_eq subnet r ≡ false
      → T.present (O.run s (add_route subnet gateway interface)).0 r ≡ T.present s r
  pub add_not_run :
      (s : O.State) (subnet : Text) (gateway : Ipv4Addr) (interface r : Text)
      → (O.run s (add_route subnet gateway interface)).1 ≡ none
      → T.present (O.run s (add_route subnet gateway interface)).0 r ≡ T.present s r
  pub add_fails :
      (s : O.State) (subnet : Text) (gateway : Ipv4Addr) (interface r : Text) (out : Output)
      → (O.run s (add_route subnet gateway interface)).1 ≡ some out
      → out.success ≡ false
      → T.present (O.run s (add_route subnet gateway interface)).0 r ≡ T.present s r
  pub del_takes :
      (s : O.State) (subnet : Text)
      → succeeds (O.run s (del_route subnet)).1 ≡ true
      → T.present (O.run s (del_route subnet)).0 subnet ≡ false
  pub del_fails :
      (s : O.State) (subnet r : Text)
      → succeeds (O.run s (del_route subnet)).1 ≡ false
      → T.present (O.run s (del_route subnet)).0 r ≡ T.present s r
  pub del_own :
      (s : O.State) (subnet r : Text)
      → text_eq subnet r ≡ false
      → T.present (O.run s (del_route subnet)).0 r ≡ T.present s r

-- Every deletion of a route that is in the table succeeds.
pub record Deletes (O : Os) (T : RouteTable O) : Type 0 where
  pub succeed :
      (s : O.State) (subnet : Text)
      → T.present s subnet ≡ true
      → succeeds (O.run s (del_route subnet)).1 ≡ true

-- Whether a deletion of the route succeeds, when the routes of a list are deleted in turn.
unfoldable pub deleted : (O : Os) → List Text → O.State → Text → Bool
deleted O [] s r = false
deleted O (subnet ∷ subnets) s r =
    let (s', out) = O.run s (del_route subnet) in
    (text_eq subnet r && succeeds out) || deleted O subnets s' r

module _ (O : Os) (T : RouteTable O) (P : Privileged O T) where
  del_exact :
      (s : O.State) (subnet r : Text)
      → let (s', out) = O.run s (del_route subnet) in
        T.present s' r ≡ (T.present s r && not (text_eq subnet r && succeeds out))
  del_exact s subnet r =
      let (s', out) = O.run s (del_route subnet) in
      elim (Bool-cases (succeeds out)) [
        | inr failed ↦ ground (arith, failed, P.del_fails s subnet r failed)
        | inl done ↦ elim (Bool-cases (text_eq subnet r)) [
          | inl same ↦
              let gone =
                ap (T.present s') (sym ((text_eq_iff subnet r).0 same))
                ∙ P.del_takes s subnet done in
              ground (arith, done, same, gone)
          | inr other ↦ ground (arith, other, P.del_own s subnet r other)
        ]
      ]

  delete_routes_exact :
      (subnets : List Text) (s : O.State) (r : Text)
      → T.present (delete_routes O subnets s) r ≡ (T.present s r && not (deleted O subnets s r))
  unfolding delete_routes deleted
  delete_routes_exact [] s r = ground arith
  delete_routes_exact (subnet ∷ subnets) s r =
      let s' = (O.run s (del_route subnet)).0 in
      ground (arith, delete_routes_exact subnets s' r, del_exact s subnet r)

  deleted-contains :
      (subnets : List Text) (s : O.State) (r : Text)
      → (deleted O subnets s r && not (contains subnets r)) ≡ false
  unfolding deleted contains
  deleted-contains [] s r = refl
  deleted-contains (subnet ∷ subnets) s r =
      ground (arith, deleted-contains subnets (O.run s (del_route subnet)).0 r)

  -- The table after a removal, whatever the order in which the set is drained: the routes that were
  -- there, without those of which a deletion succeeds; and these were active.
  pub remove_routes_exact :
      (drain : List Text → List Text) (m : RouteManager) (s : O.State) (r : Text)
      → ((xs : List Text) (x : Text) → contains (drain xs) x ≡ contains xs x)
      → let gone = deleted O (drain m.active_routes) s r in
        (T.present (remove_routes O drain m s).0 r ≡ (T.present s r && not gone))
        × ((gone && not (contains m.active_routes r)) ≡ false)
  unfolding remove_routes
  remove_routes_exact drain m s r drains =
      let active = drain m.active_routes in
      (
        delete_routes_exact active s r,
        ground (arith, deleted-contains active s r, drains m.active_routes r),
      )

  deleted_all :
      (D : Deletes O T) (subnets : List Text) (s : O.State) (r : Text)
      → contains subnets r ≡ true
      → T.present s r ≡ true
      → deleted O subnets s r ≡ true
  unfolding deleted contains
  deleted_all D [] s r listed here = absurd (ground (arith, listed))
  deleted_all D (subnet ∷ subnets) s r listed here = elim (Bool-cases (text_eq subnet r)) [
    | inl same ↦
        let done = D.succeed s subnet (ap (T.present s) ((text_eq_iff subnet r).0 same) ∙ here) in
        ground (arith, same, done)
    | inr other ↦
        let s' = (O.run s (del_route subnet)).0 in
        let still = P.del_own s subnet r other ∙ here in
        ground (arith, other, deleted_all D subnets s' r (ground (arith, other, listed)) still)
  ]

  -- If deletions succeed, no active route is left.
  pub remove_routes_all :
      (D : Deletes O T) (drain : List Text → List Text) (m : RouteManager) (s : O.State) (r : Text)
      → ((xs : List Text) (x : Text) → contains (drain xs) x ≡ contains xs x)
      → T.present (remove_routes O drain m s).0 r
        ≡ (T.present s r && not (contains m.active_routes r))
  remove_routes_all D drain m s r drains =
      let (exact, own) = remove_routes_exact drain m s r drains in
      elim (Bool-cases (contains m.active_routes r && T.present s r)) [
        | inl both ↦
            let gone =
              deleted_all D (drain m.active_routes) s r
                (drains m.active_routes r ∙ ground (arith, both)) (ground (arith, both)) in
            ground (arith, both, gone, exact)
        | inr other ↦ ground (arith, other, exact, own)
      ]
