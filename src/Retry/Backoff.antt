-- ===== src/Retry/Backoff.antt =====
-- How long a retry task lives.
use wg_ondemand.Base.{
  ℕ, ◌+◌, ◌≡◌, Bool, true, false, Option, none, some, List, [], ◌∷◌, Result, ok, err, arith,
  if◌then◌else◌, map, take, refl, ◌∙◌, ◌*◌,
}
use wg_ondemand.Retry.{RetryTask, sends, sleeps, gives_up, spawned, wake}

-- The task over what it finds when it wakes: the delays it sleeps, and whether it sends, or gives
-- up; `none` while it is still asleep.
unfoldable pub life : RetryTask → List (Result (Option ℕ)) → List ℕ × Option Bool
life t [] = (t.delay_secs ∷ [], none)
life t (found ∷ rest) = elim (wake t found) [
  | sends ↦ (t.delay_secs ∷ [], some true)
  | gives_up ↦ (t.delay_secs ∷ [], some false)
  | sleeps t' ↦ let (delays, end) = life t' rest in (t.delay_secs ∷ delays, end)
]

abbrev pub has_address : Result (Option ℕ) → Bool
has_address (ok (some ip)) = true
has_address (ok none) = false
has_address (err e) = false

-- The position of the first finding that is an address, if there is one.
abbrev pub first_found : List Bool → Option ℕ
first_found [] = none
first_found (true ∷ rest) = some 0
first_found (false ∷ rest) = elim (first_found rest) [ some n ↦ some (n + 1) | none ↦ none ]

abbrev pub backoff : List ℕ
backoff = 1 ∷ 2 ∷ 4 ∷ 8 ∷ 16 ∷ []

abbrev pub expected : Option ℕ → List ℕ × Option Bool
expected (some n) = (take (n + 1) backoff, some true)
expected none = (backoff, some false)

as_found : Bool → Result (Option ℕ)
as_found b = if b then ok (some 0) else ok none

-- Only whether there is an address matters.
life_by :
    (t : RetryTask) (found : List (Result (Option ℕ)))
    → life t found ≡ life t (map as_found (map has_address found))
unfolding life wake as_found
life_by t [] = refl
life_by t (ok (some _) ∷ rest) = refl
life_by t (ok none ∷ rest) =
    ground (arith, life_by (record { attempt = t.attempt + 1; delay_secs = t.delay_secs * 2 }) rest)
life_by t (err _ ∷ rest) =
    ground (arith, life_by (record { attempt = t.attempt + 1; delay_secs = t.delay_secs * 2 }) rest)

life_flags :
    (a b c d e : Bool)
    → let found = a ∷ b ∷ c ∷ d ∷ e ∷ [] in
      life spawned (map as_found found) ≡ expected (first_found found)
unfolding life wake as_found spawned
life_flags true b c d e = refl
life_flags false true c d e = refl
life_flags false false true d e = refl
life_flags false false false true e = refl
life_flags false false false false true = refl
life_flags false false false false false = refl

-- A task sleeps 1, 2, 4, 8 and 16 seconds, and after five wakes it is over: it sends at the first
-- wake that finds an address, and gives up if none of the five does.
pub life-spawned :
    (a b c d e : Result (Option ℕ))
    → let found = a ∷ b ∷ c ∷ d ∷ e ∷ [] in
      life spawned found ≡ expected (first_found (map has_address found))
life-spawned a b c d e =
    life_by spawned (a ∷ b ∷ c ∷ d ∷ e ∷ [])
    ∙ life_flags (has_address a) (has_address b) (has_address c) (has_address d) (has_address e)
