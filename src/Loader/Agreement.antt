-- ===== src/Loader/Agreement.antt =====
-- The kernel's test of a destination against the map that the loader wrote, and the daemon's test
-- of an address against the same configuration.
use wg_ondemand.Base.{
  ℕ, zero, suc, ◌+◌, ◌≤◌, ◌<◌, ◌≡◌, refl, ◌≢◌, ◌∙◌, ap, sym, inl, inr, true, false, ◌&&◌, some,
  List, [], ◌∷◌, arith, Text, ◌==◌, Bool-cases, All, length, bit_and, ok,
}
use wg_ondemand.Config.{parse_cidr, ip_in_subnets}
use wg_ondemand.Config.Subnets.{IsCidr}
use wg_ondemand.Ebpf.Slots.{SubnetMap, IsLawful}
use wg_ondemand.Ebpf.{empty_sentinel, slot_matches, scan_slots, is_target_subnet}
use wg_ondemand.Loader.{configure}
use wg_ondemand.Loader.Fill.{entry_at, configures}

-- The text is not 255.255.255.255/32, whose network and mask are the sentinel.
abbrev pub NotBroadcast : Text → Type 0
NotBroadcast cidr = parse_cidr cidr ≢ ok (empty_sentinel, empty_sentinel)

slot_of_subnet :
    (ip n m : ℕ) (cidr : Text)
    → parse_cidr cidr ≡ ok (n, m)
    → NotBroadcast cidr
    → slot_matches ip (n, m) ≡ (bit_and ip m == n)
slot_of_subnet ip n m cidr e other =
    elim (Bool-cases (n == empty_sentinel && m == empty_sentinel)) [
      | inl same ↦ absurd (other (ground (arith, e, same)))
      | inr differs ↦ rw differs
    ]

module _ (S : SubnetMap) where
  -- The slots from `i` on hold these values.
  abbrev Holds : S.Map → ℕ → ℕ → (ℕ → ℕ × ℕ) → Type 0
  Holds map i rounds value = (j : ℕ) → j < rounds → S.get map (i + j) ≡ some (value j)

  module _ (map : S.Map) (i rounds : ℕ) (value : ℕ → ℕ × ℕ)
      (h : Holds map i (suc rounds) value) where
    first_slot : S.get map i ≡ some (value 0)
    first_slot = let at : i ≡ i + 0 = omega arith in ap (S.get map) at ∙ h 0 (omega arith)

    next_slots : Holds map (suc i) rounds (λ j. value (suc j))
    next_slots j lt =
        let at : suc i + j ≡ i + suc j = omega arith in ap (S.get map) at ∙ h (suc j) (omega arith)

  scan_empty :
      (map : S.Map) (ip i rounds : ℕ)
      → Holds map i rounds (λ _. (empty_sentinel, empty_sentinel))
      → scan_slots S map ip i rounds ≡ false
  unfolding scan_slots
  scan_empty map ip i zero h = refl
  scan_empty map ip i (suc rounds) h =
      rw (first_slot map i rounds _ h, scan_slots)
        (scan_empty map ip (suc i) rounds (next_slots map i rounds _ h))

  scan_agrees :
      (map : S.Map) (ip i rounds : ℕ) (cs : List Text)
      → Holds map i rounds (entry_at cs)
      → All IsCidr cs
      → All NotBroadcast cs
      → length cs ≤ rounds
      → ip_in_subnets ip cs ≡ ok (scan_slots S map ip i rounds)
  unfolding ip_in_subnets scan_slots
  scan_agrees map ip i rounds [] h _ _ _ = ap ok (sym (scan_empty map ip i rounds h))
  scan_agrees map ip i zero (c ∷ cs) h _ _ fits = absurd (omega arith)
  scan_agrees map ip i (suc rounds) (c ∷ cs) h (((n, m), e), rest) (other, others) fits =
      let later =
        scan_agrees map ip (suc i) rounds cs (next_slots map i rounds _ h) rest others
          (omega arith) in
      let slot = first_slot map i rounds _ h in
      let test = slot_of_subnet ip n m c e other in ground (arith, e, slot, test, later)

only_entry :
    (c : Text)
    → parse_cidr c ≡ ok (empty_sentinel, empty_sentinel)
    → (j : ℕ) → entry_at (c ∷ []) j ≡ (empty_sentinel, empty_sentinel)
only_entry c e zero = rw e
only_entry c e (suc j) = refl

module _ (S : SubnetMap) (L : IsLawful S) where
  from_zero :
      (map : S.Map) (value : ℕ → ℕ × ℕ)
      → ((j : ℕ) → j < 16 → S.get map j ≡ some (value j))
      → Holds S map 0 16 value
  from_zero map value h j lt = let at : 0 + j ≡ j = omega arith in ap (S.get map) at ∙ h j lt

  -- On a map that keeps the laws of an array, loading accepted subnets, sixteen at most and none of
  -- them the broadcast address alone, succeeds; and then the kernel's test of any address is the
  -- daemon's test of it.
  pub filter_agrees :
      (cs : List Text) (map : S.Map)
      → All IsCidr cs
      → All NotBroadcast cs
      → length cs ≤ 16
      → (map' : S.Map) × (configure S cs map ≡ ok map')
        × ((ip : ℕ) → ip_in_subnets ip cs ≡ ok (is_target_subnet S map' ip))
  unfolding is_target_subnet
  filter_agrees cs map valid others fits =
      let loaded = configures S L cs map valid fits in
      (
        loaded.result,
        loaded.runs,
        λ ip.
            scan_agrees S loaded.result ip 0 16 cs (from_zero loaded.result _ loaded.holds) valid
              others fits,
      )

  -- On a map that keeps the laws of an array, a configuration of the broadcast address alone is
  -- loaded, and the kernel's test then finds no address at all, while the daemon's test finds the
  -- broadcast address.
  pub broadcast_ignored :
      (c : Text) (map : S.Map)
      → parse_cidr c ≡ ok (empty_sentinel, empty_sentinel)
      → (map' : S.Map) × (configure S (c ∷ []) map ≡ ok map')
        × ((ip : ℕ) → is_target_subnet S map' ip ≡ false)
        × (ip_in_subnets 0xffffffff (c ∷ []) ≡ ok true)
  unfolding is_target_subnet ip_in_subnets
  broadcast_ignored c map e =
      let loaded = configures S L (c ∷ []) map ((_, e), tt) (omega arith) in
      let empty = λ (j : ℕ) (lt : j < 16). loaded.holds j lt ∙ ap some (only_entry c e j) in
      (
        loaded.result,
        loaded.runs,
        λ ip. scan_empty S loaded.result ip 0 16 (from_zero loaded.result _ empty),
        rw e refl,
      )

-- A map that was configured is the one that `filter_agrees` tells of.
pub configured_agrees :
    (S : SubnetMap) (L : IsLawful S) (cs : List Text) (fresh map : S.Map)
    → All IsCidr cs
    → All NotBroadcast cs
    → length cs ≤ 16
    → configure S cs fresh ≡ ok map
    → (ip : ℕ) → ip_in_subnets ip cs ≡ ok (is_target_subnet S map ip)
configured_agrees S L cs fresh map accepted plain few loaded ip =
    let (map', loads, agrees) = filter_agrees S L cs fresh accepted plain few in
    let same : map' ≡ map = ground (arith, loads, loaded) in
    agrees ip ∙ ap (λ m. ok (is_target_subnet S m ip)) same
