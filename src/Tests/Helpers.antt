-- ===== src/Tests/Helpers.antt =====
-- The theorems on addresses, on a retry task's life and on the state file's text.
use wg_ondemand.Base.{ℕ, ◌≡◌, Option, none, some, List, [], ◌∷◌, ◌++◌, Result, arith, ok, map}
use wg_ondemand.Base.Str.{codes, lines}
use wg_ondemand.Base.Num.{show}
use wg_ondemand.Types.{active}
use wg_ondemand.StateFile.{state_str, content}
use wg_ondemand.StateFile.Lines.{lines-content}
use wg_ondemand.Retry.{spawned}
use wg_ondemand.Retry.Backoff.{life, expected, first_found, has_address, life-spawned}

life-spawned_example :
    let found : List (Result (Option ℕ)) =
      ok none ∷ ok none ∷ ok (some 5) ∷ ok none ∷ ok none ∷ [] in
    life spawned found ≡ expected (first_found (map has_address found))
life-spawned_example = life-spawned (ok none) (ok none) (ok (some 5)) (ok none) (ok none)

lines-content_example :
    lines (content active (some (codes "cafe")) 1700000000)
    ≡ (codes "STATE=" ++ state_str active)
      ∷ (codes "SSID=" ++ codes "cafe")
      ∷ (codes "TIMESTAMP=" ++ show 1700000000)
      ∷ []
lines-content_example =
    lines-content active (some (codes "cafe")) 1700000000 (ground arith) (ground arith)
