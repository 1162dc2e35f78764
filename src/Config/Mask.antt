-- ===== src/Config/Mask.antt =====
-- The netmask of wg-ondemand/src/config.rs, and what it keeps of an address.
use native.Mathlib.Nat.{div-lt_iff_lt-mul, mul-div_cancel}
use wg_ondemand.Base.{
  ℕ, ◌*◌, ◌-◌, ◌/◌, ◌^◌, ◌≤◌, ◌<◌, bit_and, ◌≡◌, refl, sym, ap, ◌∙◌, ◌↔◌, true, arith, ◌==◌, ==_iff,
  holds_under, holds_under_lem,
}
use wg_ondemand.Base.Bits.{bit_and_ones, bit_and_shift, two_pow_pos}
use wg_ondemand.Config.{netmask}

-- The size of a block with a prefix of `p` bits.
abbrev pub block : ℕ → ℕ
block p = 2 ^ (32 - p)

netmask_table : holds_under (λ p. netmask p == (2 ^ p - 1) * block p) 33 ≡ true
unfolding holds_under netmask
netmask_table = refl

block_table : holds_under (λ p. 2 ^ p * block p == 2 ^ 32) 33 ≡ true
unfolding holds_under
block_table = refl

-- The mask is `p` ones before 32 - p zeros.
pub netmask_ones : (p : ℕ) → p ≤ 32 → netmask p ≡ (2 ^ p - 1) * block p
netmask_ones p h = (==_iff _ _).0 (holds_under_lem _ 33 p (omega arith) netmask_table)

pub blocks_fill : (p : ℕ) → p ≤ 32 → 2 ^ p * block p ≡ 2 ^ 32
blocks_fill p h = (==_iff _ _).0 (holds_under_lem _ 33 p (omega arith) block_table)

prefix-lt : (p x : ℕ) → p ≤ 32 → x < 2 ^ 32 → x / block p < 2 ^ p
prefix-lt p x h hx = (div-lt_iff_lt-mul (two_pow_pos (32 - p))).1 (omega (arith, blocks_fill p h))

-- The mask clears the bits behind the prefix.
pub bit_and-netmask :
    (p x : ℕ) → p ≤ 32 → x < 2 ^ 32 → bit_and x (netmask p) ≡ x / block p * block p
bit_and-netmask p x h hx =
    rw (netmask_ones p h, bit_and_shift (32 - p) x (2 ^ p - 1))
      (ap (λ (t : ℕ). t * block p) (bit_and_ones p (x / block p) (prefix-lt p x h hx)))

cancel : {m a b : ℕ} → 0 < m → a * m ≡ b * m → a ≡ b
cancel {m} {a} {b} h e = sym (mul-div_cancel a h) ∙ ap (λ (t : ℕ). t / m) e ∙ mul-div_cancel b h

-- The test `(x & mask) == network` compares the prefixes.
pub masked_eq_iff :
    (p x y : ℕ)
    → p ≤ 32
    → x < 2 ^ 32
    → (bit_and x ((2 ^ p - 1) * block p) ≡ y / block p * block p) ↔ (x / block p ≡ y / block p)
masked_eq_iff p x y h hx =
    let masked : bit_and x ((2 ^ p - 1) * block p) ≡ x / block p * block p =
      ap (bit_and x) (sym (netmask_ones p h)) ∙ bit_and-netmask p x h hx in
    rw masked (cancel (two_pow_pos (32 - p)), ap (λ (t : ℕ). t * block p))
