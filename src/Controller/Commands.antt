-- ===== src/Controller/Commands.antt =====
-- The outcomes of `bring_up` and `bring_down`.
use wg_ondemand.Base.{◌≡◌, ◌≢◌, ◌↔◌, ◌⊎◌, inl, inr, true, none, some, arith, ok, Option-cases}
use wg_ondemand.Base.Str.{codes, has}
use wg_ondemand.Os.{Os, Output}
use wg_ondemand.Controller.{WgController, tunnel_command, bring_up, bring_down}

module _ (O : Os) (c : WgController) (s : O.State) where
  -- The tunnel is reported up exactly when its command ran and succeeded; and the state of the
  -- system is the one that this one command left.
  pub bring_up_iff :
      ((bring_up O c s).0 ≡ (O.run s (tunnel_command (codes "up") c)).0)
      × (((bring_up O c s).1 ≡ ok tt) ↔ (
          (out : Output) × ((O.run s (tunnel_command (codes "up") c)).1 ≡ some out)
          × (out.success ≡ true)))
  unfolding bring_up
  bring_up_iff = elim (Option-cases (O.run s (tunnel_command (codes "up") c)).1) [
    | inl e ↦ (ground (arith, e), (λ h. absurd (ground (arith, e, h)), λ x. absurd (cc (x.1, e))))
    | inr (out, e) ↦
        (ground (arith, e), (λ h. (out, e, ground (arith, e, h)), λ x. ground (arith, e, x.1, x.2)))
  ]

  -- The tunnel is reported down exactly when its command ran and: the tunnel is NetworkManager's,
  -- or the command succeeded, or it said that the interface was no WireGuard interface.
  pub bring_down_iff :
      ((bring_down O c s).0 ≡ (O.run s (tunnel_command (codes "down") c)).0)
      × (((bring_down O c s).1 ≡ ok tt) ↔ (
          (out : Output) × ((O.run s (tunnel_command (codes "down") c)).1 ≡ some out)
          × ((c.nm_connection ≢ none)
              ⊎ (out.success ≡ true)
              ⊎ (has (codes "is not a WireGuard interface") out.stderr ≡ true))))
  unfolding bring_down
  bring_down_iff = elim (Option-cases (O.run s (tunnel_command (codes "down") c)).1) [
    | inl e ↦ (ground (arith, e), (λ h. absurd (ground (arith, e, h)), λ x. absurd (cc (x.1, e))))
    | inr (out, e) ↦
        (ground (arith, e), (λ h. (out, e, ground (arith, e, h)), λ x. ground (arith, e, x.1, x.2)))
  ]
