-- ===== src/Ssid/Rules.antt =====
-- Which networks are monitored.
use wg_ondemand.Base.{
  ◌≡◌, ◌↔◌, ◌⊎◌, inl, inr, true, false, some, [], arith, Text, contains, ok, Result-cases,
  Option-cases,
}
use wg_ondemand.Ssid.{Bus, SsidMonitor, current_ssid, is_connected_to_target}

-- The rules for one SSID: it is not excluded, and it is a target, or there are no targets.
pub record Monitored (m : SsidMonitor) (ssid : Text) : Type 0 where
  pub not_excluded : contains m.exclude_ssids ssid ≡ false
  pub target : (m.target_ssids ≡ []) ⊎ (contains m.target_ssids ssid ≡ true)

module _ (m : SsidMonitor) (bus : Bus) where
  accepted :
      (ssid : Text)
      → current_ssid bus ≡ ok (some ssid)
      → is_connected_to_target m bus ≡ ok true
      → Monitored m ssid
  unfolding is_connected_to_target
  accepted ssid e h = record { not_excluded = ground (arith, e, h); target = ground (arith, e, h) }

  -- The daemon counts as connected exactly when an SSID is current that the rules let it monitor.
  pub is_connected_to_target_iff :
      (is_connected_to_target m bus ≡ ok true)
      ↔ ((ssid : Text) × (current_ssid bus ≡ ok (some ssid)) × Monitored m ssid)
  unfolding is_connected_to_target
  is_connected_to_target_iff = (
    λ h. elim (Result-cases (current_ssid bus)) [
      | inr (x, e) ↦ absurd (ground (arith, e, h))
      | inl (current, e) ↦ elim (Option-cases current) [
        | inl n ↦ absurd (ground (arith, e, n, h))
        | inr (ssid, n) ↦ (ssid, cc (e, n), accepted ssid (cc (e, n)) h)
      ]
    ],
    λ x. ground (arith, x.1, x.2.not_excluded, x.2.target),
  )
