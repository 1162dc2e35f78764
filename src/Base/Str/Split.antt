-- ===== src/Base/Str/Split.antt =====
-- `split` and its inverse.
use Prim.Native.Nat.{ℕ}
use mathlib.Core.Path.{◌≡◌, refl}
use mathlib.Core.Logic.{◌≢◌, inl, inr}
use mathlib.Core.List.{List, [], ◌∷◌, ◌++◌}
use native.Mathlib.Omega.{arith}
use wg_ondemand.Base.Tests.{Text, ◌==◌, Bool-cases, ==_iff}
use wg_ondemand.Base.Lists.{All}
use wg_ondemand.Base.Str.{split}

abbrev pub Lacks : ℕ → Text → Type 0
Lacks c = All (λ x. x ≢ c)

-- The parts with the separator between them.
unfoldable pub join : ℕ → List Text → Text
join c [] = []
join c (p ∷ []) = p
join c (p ∷ q ∷ ps) = p ++ c ∷ join c (q ∷ ps)

pub split-Lacks : (c : ℕ) (p : Text) → Lacks c p → split c p ≡ p ∷ []
unfolding split
split-Lacks c [] h = refl
split-Lacks c (x ∷ p) h = ground (arith, split-Lacks c p h.1)

pub split-append : (c : ℕ) (p s : Text) → Lacks c p → split c (p ++ c ∷ s) ≡ p ∷ split c s
unfolding split
split-append c [] s h = ground arith
split-append c (x ∷ p) s h = ground (arith, split-append c p s h.1)

split_head : (c : ℕ) (s : Text) → (p : Text) × (ps : List Text) × (split c s ≡ p ∷ ps)
unfolding split
split_head c [] = ([], [], refl)
split_head c (x ∷ s) =
    let (p, ps, e) = split_head c s in
    elim (Bool-cases (x == c)) [
      | inl here ↦ ([], split c s, rw here)
      | inr there ↦ (x ∷ p, ps, rw (there, e))
    ]

join-cons_head : (c x : ℕ) (p : Text) (ps : List Text) → join c ((x ∷ p) ∷ ps) ≡ x ∷ join c (p ∷ ps)
unfolding join
join-cons_head c x p [] = refl
join-cons_head c x p (q ∷ ps) = refl

-- Joining the parts gives the text back.
pub join-split : (c : ℕ) (s : Text) → join c (split c s) ≡ s
unfolding split join
join-split c [] = refl
join-split c (x ∷ s) =
    let (p, ps, e) = split_head c s in
    let rest : join c (p ∷ ps) ≡ s = rw e at (join-split c s) in
    elim (Bool-cases (x == c)) [
      | inl here ↦ rw (here, e) (cc (rest, (==_iff x c).0 here))
      | inr there ↦ rw (there, e) (cc (rest, join-cons_head c x p ps))
    ]
