-- ===== src/Loader/Fill.antt =====
-- The SUBNETS map after `load`: a slot for each subnet, in order, and the sentinel behind them.
use wg_ondemand.Base.{
  ℕ, zero, suc, ◌+◌, ◌-◌, ◌≤◌, ◌<◌, ◌≡◌, refl, ◌∙◌, ap, sym, inl, inr, some, List, [], ◌∷◌, arith,
  Text, ltb, Bool-cases, All, length, Result, ok, err,
}
use wg_ondemand.Config.{parse_cidr}
use wg_ondemand.Config.Subnets.{IsCidr}
use wg_ondemand.Ebpf.Slots.{SubnetMap, IsLawful}
use wg_ondemand.Ebpf.{empty_sentinel}
use wg_ondemand.Loader.{set_subnets, clear_slots, configure}

abbrev pub or_sentinel : Result (ℕ × ℕ) → ℕ × ℕ
or_sentinel (ok pair) = pair
or_sentinel (err _) = (empty_sentinel, empty_sentinel)

-- What slot `i` is to hold.
abbrev pub entry_at : List Text → ℕ → ℕ × ℕ
entry_at [] i = (empty_sentinel, empty_sentinel)
entry_at (c ∷ cs) zero = or_sentinel (parse_cidr c)
entry_at (c ∷ cs) (suc i) = entry_at cs i

entry_at_beyond :
    (cs : List Text) (j : ℕ) → entry_at cs (length cs + j) ≡ (empty_sentinel, empty_sentinel)
entry_at_beyond [] j = refl
entry_at_beyond (c ∷ cs) j =
    let shift : suc (length cs) + j ≡ suc (length cs + j) = omega arith in
    ap (entry_at (c ∷ cs)) shift ∙ entry_at_beyond cs j

module _ (S : SubnetMap) (L : IsLawful S) where
  record SetsSubnets (i : ℕ) (cs : List Text) (map : S.Map) : Type 0 where
    result : S.Map
    runs : set_subnets S i cs map ≡ ok result
    filled : (j : ℕ) → j < length cs → S.get result (i + j) ≡ some (entry_at cs j)
    below : (j : ℕ) → j < i → S.get result j ≡ S.get map j

  -- A slot and the slots behind it.
  slots_cons :
      (result : S.Map) (i rounds : ℕ) (value : ℕ → ℕ × ℕ)
      → S.get result i ≡ some (value 0)
      → ((j : ℕ) → j < rounds → S.get result (suc i + j) ≡ some (value (suc j)))
      → (j : ℕ) → j < suc rounds
      → S.get result (i + j) ≡ some (value j)
  slots_cons result i rounds value head tail zero lt =
      let at : i + 0 ≡ i = omega arith in ap (S.get result) at ∙ head
  slots_cons result i rounds value head tail (suc j) lt =
      let at : i + suc j ≡ suc i + j = omega arith in ap (S.get result) at ∙ tail j (omega arith)

  sets_subnets :
      (i : ℕ) (cs : List Text) (map : S.Map)
      → All IsCidr cs
      → i + length cs ≤ 16
      → SetsSubnets i cs map
  unfolding set_subnets
  sets_subnets i [] map h fits = record {
    result = map;
    runs = refl;
    filled = λ j lt. absurd (omega arith);
    below = λ j lt. refl;
  }
  sets_subnets i (c ∷ cs) map ((pair, e), rest) fits =
      let (map', wrote) = L.set_in_range map i pair (omega arith) in
      let later = sets_subnets (suc i) cs map' rest (omega arith) in
      let here : S.get map' i ≡ some pair = ground (arith, L.get-set map map' i pair i wrote) in
      record {
        result = later.result;
        runs = ground (arith, e, wrote, later.runs);
        filled =
            slots_cons later.result i (length cs) (entry_at (c ∷ cs))
              (later.below i (omega arith) ∙ here ∙ ap (λ r. some (or_sentinel r)) (sym e))
              later.filled;
        below = λ j lt. ground (arith, later.below j, L.get-set map map' i pair j wrote);
      }

  record ClearsSlots (i rounds : ℕ) (map : S.Map) : Type 0 where
    result : S.Map
    runs : clear_slots S i rounds map ≡ ok result
    cleared : (j : ℕ) → j < rounds → S.get result (i + j) ≡ some (empty_sentinel, empty_sentinel)
    below : (j : ℕ) → j < i → S.get result j ≡ S.get map j

  clears_slots : (i rounds : ℕ) (map : S.Map) → i + rounds ≤ 16 → ClearsSlots i rounds map
  unfolding clear_slots
  clears_slots i zero map fits = record {
    result = map;
    runs = refl;
    cleared = λ j lt. absurd (omega arith);
    below = λ j lt. refl;
  }
  clears_slots i (suc rounds) map fits =
      let sentinel : ℕ × ℕ = (empty_sentinel, empty_sentinel) in
      let (map', wrote) = L.set_in_range map i sentinel (omega arith) in
      let later = clears_slots (suc i) rounds map' (omega arith) in
      let here : S.get map' i ≡ some sentinel =
        ground (arith, L.get-set map map' i sentinel i wrote) in
      record {
        result = later.result;
        runs = ground (arith, wrote, later.runs);
        cleared =
            slots_cons later.result i rounds (λ _. sentinel) (later.below i (omega arith) ∙ here)
              later.cleared;
        below = λ j lt. ground (arith, later.below j, L.get-set map map' i sentinel j wrote);
      }

  -- What the map holds once the manager is loaded.
  pub record Configured (cs : List Text) (map : S.Map) : Type 0 where
    pub result : S.Map
    pub runs : configure S cs map ≡ ok result
    pub holds : (j : ℕ) → j < 16 → S.get result j ≡ some (entry_at cs j)

  -- Sixteen accepted subnets or fewer are all written, in order, whatever the map held before.
  pub configures :
      (cs : List Text) (map : S.Map) → All IsCidr cs → length cs ≤ 16 → Configured cs map
  unfolding configure
  configures cs map h fits =
      let first = sets_subnets 0 cs map h (omega arith) in
      let second = clears_slots (length cs) (16 - length cs) first.result (omega arith) in
      record {
        result = second.result;
        runs = ground (arith, first.runs, second.runs);
        holds = λ j lt. elim (Bool-cases (ltb j (length cs))) [
          | inl early ↦
              let at : j ≡ 0 + j = omega arith in
              second.below j (ground arith)
              ∙ ap (S.get first.result) at
              ∙ first.filled j (ground arith)
          | inr late ↦
              let at : j ≡ length cs + (j - length cs) = ground arith in
              ap (S.get second.result) at
              ∙ second.cleared (j - length cs) (ground arith)
              ∙ ap some (sym (entry_at_beyond cs (j - length cs)))
              ∙ ap (λ k. some (entry_at cs k)) (sym at)
        ];
      }
