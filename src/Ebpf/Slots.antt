-- ===== src/Ebpf/Slots.antt =====
-- The SUBNETS map that the loader writes and the classifier reads: a BPF array of sixteen slots,
-- each a network and a mask. The array itself is the kernel's; its documented laws are stated here.
use wg_ondemand.Base.{
  ℕ, ◌<◌, ◌≡◌, sym, ap, inl, inr, Bool-cases, Option, none, some, arith, ◌==◌, if◌then◌else◌, ltb,
  Result, ok, err, map_failed,
}

pub record SubnetMap : Type 1 where
  pub Map : Type 0
  pub get : Map → ℕ → Option (ℕ × ℕ)
  pub set : Map → ℕ → ℕ × ℕ → Result Map

-- A write below sixteen succeeds, and a read returns what was written last.
pub record IsLawful (S : SubnetMap) : Type 0 where
  pub set_in_range : (m : S.Map) (i : ℕ) (v : ℕ × ℕ) → i < 16 → (m' : S.Map) × (S.set m i v ≡ ok m')
  pub get-set :
      (m m' : S.Map) (i : ℕ) (v : ℕ × ℕ) (j : ℕ)
      → S.set m i v ≡ ok m'
      → S.get m' j ≡ (if j == i then some v else S.get m j)

-- An array of sixteen slots, which the kernel fills with zeros.
abbrev pub array_map : SubnetMap
array_map = record {
  Map = ℕ → Option (ℕ × ℕ);
  get = λ m i. m i;
  set = λ m i v. if ltb i 16 then ok (λ j. if j == i then some v else m j) else err map_failed;
}

abbrev pub zeroed : ℕ → Option (ℕ × ℕ)
zeroed i = if ltb i 16 then some (0, 0) else none

abbrev read : (ℕ → Option (ℕ × ℕ)) → Result (ℕ → Option (ℕ × ℕ)) → ℕ → Option (ℕ × ℕ)
read m (ok m') = m'
read m (err _) = m

array_get-set :
    (m m' : ℕ → Option (ℕ × ℕ)) (i : ℕ) (v : ℕ × ℕ) (j : ℕ)
    → (if ltb i 16 then ok (λ k. if k == i then some v else m k) else err map_failed) ≡ ok m'
    → m' j ≡ (if j == i then some v else m j)
array_get-set m m' i v j h = elim (Bool-cases (ltb i 16)) [
  | inl in_range ↦ sym (ap (λ r. read m r j) (rw in_range at h))
  | inr out ↦ absurd (cc (rw out at h))
]

pub array_map-IsLawful : IsLawful array_map
array_map-IsLawful = record {
  set_in_range = λ m i v h. ((λ j. if j == i then some v else m j), ground (arith, h));
  get-set = array_get-set;
}
