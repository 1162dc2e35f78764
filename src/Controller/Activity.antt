-- ===== src/Controller/Activity.antt =====
-- When the controller sees activity, and how long the tunnel has been idle.
use wg_ondemand.Base.{
  ℕ, ◌-◌, ◌≡◌, ◌⊎◌, inl, inr, true, false, some, List, [], ◌∷◌, arith, Text, All, Result, ok, err,
  Error,
}
use wg_ondemand.Controller.{WgController, get_transfer_stats, check_activity, idle_duration}

-- The kernel's answer at the time of a check, and that time.
abbrev pub Reading : Type 0
Reading = record { device : Text → Result (List (ℕ × ℕ)); now : ℕ }

abbrev pub checks : WgController → List Reading → WgController
checks c [] = c
checks c (r ∷ rs) = checks (check_activity r.device c r.now).0 rs

module _ (device : Text → Result (List (ℕ × ℕ))) (c : WgController) (now rx tx : ℕ) where
  -- A check that reads the counters reports activity exactly when one of them differs from the
  -- last check's; it then notes the time, and otherwise changes nothing. The counters are kept.
  pub check_activity_lem :
      get_transfer_stats device c ≡ ok (rx, tx)
      → let (c', r) = check_activity device c now in
        (c'.last_rx_bytes ≡ rx)
        × (c'.last_tx_bytes ≡ tx)
        × ((r ≡ ok false) × (c' ≡ c)
            ⊎ (r ≡ ok true)
              × (c'.last_activity ≡ some now)
              × (((rx ≡ c.last_rx_bytes) × (tx ≡ c.last_tx_bytes)) → ⊥))
  unfolding check_activity
  check_activity_lem e = ground (arith, e)

-- The check fails, or reads the counters that the controller has.
abbrev pub Quiet : WgController → Reading → Type 0
Quiet c r =
    (get_transfer_stats r.device c ≡ ok (c.last_rx_bytes, c.last_tx_bytes))
    ⊎ ((e : Error) × (get_transfer_stats r.device c ≡ err e))

pub check_activity-Quiet :
    (c : WgController) (r : Reading) → Quiet c r → (check_activity r.device c r.now).0 ≡ c
unfolding check_activity
check_activity-Quiet c r (inl e) = ground (arith, e)
check_activity-Quiet c r (inr (x, e)) = ground (arith, e)

-- Over any number of checks that fail or read the counters that the controller has, the idle time
-- grows with the clock, from the last activity on.
pub idle_duration-checks :
    (c : WgController) (rs : List Reading) (t now : ℕ)
    → c.last_activity ≡ some t
    → All (Quiet c) rs
    → idle_duration (checks c rs) now ≡ some (now - t)
unfolding idle_duration
idle_duration-checks c [] t now e h = rw e
idle_duration-checks c (r ∷ rs) t now e (h, hs) =
    rw (check_activity-Quiet c r h) (idle_duration-checks c rs t now e hs)
