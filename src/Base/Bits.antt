-- ===== src/Base/Bits.antt =====
-- Laws of `bit_and` with a mask of leading ones, which `native` lacks.
use Prim.Native.Nat.{
  ℕ, zero, suc, ◌+◌, ◌-◌, ◌*◌, ◌/◌, ◌%◌, ◌^◌, ◌≤◌, ◌<◌, min, bit_and, digits, bit_and-bitwise,
}
use mathlib.Core.Path.{◌≡◌, refl, sym, ap, ◌∙◌}
use native.Mathlib.Nat.{pow-suc, mul-one, div-div-eq-div-mul}
use native.Mathlib.Omega.{arith}

-- The recursion behind `bit_and`, with its fuel apart.
abbrev conj : ℕ → ℕ → ℕ → ℕ
conj = digits (λ _. 0) min

one_more : (fuel x y : ℕ) → x ≤ fuel → conj (suc fuel) x y ≡ conj fuel x y
one_more zero zero y h = refl
one_more zero (suc x) y h = absurd (omega arith)
one_more (suc fuel) zero y h = refl
one_more (suc fuel) (suc x) y h =
    ap (λ (t : ℕ). t * 2 + min (suc x % 2) (y % 2))
      (one_more fuel (suc x / 2) (y / 2) (omega arith))

enough : (spare x y : ℕ) → conj (spare + x) x y ≡ conj x x y
enough zero x y = let none_spare : 0 + x ≡ x = omega arith in ap (λ n. conj n x y) none_spare
enough (suc spare) x y =
    let one_spare : suc spare + x ≡ suc (spare + x) = omega arith in
    ap (λ n. conj n x y) one_spare ∙ one_more (spare + x) x y (omega arith) ∙ enough spare x y

-- With the lowest digit split off, the other digits are those of the halves.
halves : (x y : ℕ) → conj x (suc x / 2) (y / 2) ≡ bit_and (suc x / 2) (y / 2)
halves x y =
    let half = suc x / 2 in
    let spare : x ≡ (x - half) + half = omega arith in
    ap (λ n. conj n half (y / 2)) spare
    ∙ enough (x - half) half (y / 2)
    ∙ sym (bit_and-bitwise half (y / 2))

-- The law of the lowest digit, from the recursion.
pub bit_and_step : (x y : ℕ) → bit_and x y ≡ bit_and (x / 2) (y / 2) * 2 + min (x % 2) (y % 2)
bit_and_step zero y =
    let whole : bit_and 0 y ≡ 0 = bit_and-bitwise 0 y in
    let halved : bit_and 0 (y / 2) ≡ 0 = bit_and-bitwise 0 (y / 2) in omega (arith, whole, halved)
bit_and_step (suc x) y =
    bit_and-bitwise (suc x) y ∙ ap (λ (t : ℕ). t * 2 + min (suc x % 2) (y % 2)) (halves x y)

pub two_pow_pos : (k : ℕ) → 0 < 2 ^ k
two_pow_pos zero = omega arith
two_pow_pos (suc k) = omega (arith, pow-suc 2 k, two_pow_pos k)

-- A mask of ones keeps what fits.
pub bit_and_ones : (p a : ℕ) → a < 2 ^ p → bit_and a (2 ^ p - 1) ≡ a
bit_and_ones zero zero h = refl
bit_and_ones zero (suc a) h = absurd (omega arith)
bit_and_ones (suc p) a h =
    let half : (2 ^ suc p - 1) / 2 ≡ 2 ^ p - 1 = omega (arith, pow-suc 2 p, two_pow_pos p) in
    omega (
      arith,
      pow-suc 2 p,
      two_pow_pos p,
      bit_and_step a (2 ^ suc p - 1),
      ap (bit_and (a / 2)) half,
      bit_and_ones p (a / 2) (omega (arith, pow-suc 2 p)),
    )

-- A mask with `k` trailing zeros works on the digits above them.
pub bit_and_shift : (k a b : ℕ) → bit_and a (b * 2 ^ k) ≡ bit_and (a / 2 ^ k) b * 2 ^ k
bit_and_shift zero a b =
    let whole : a / 1 ≡ a = omega arith in
    omega (arith, ap (bit_and a) (mul-one b), ap (λ t. bit_and t b) whole)
bit_and_shift (suc k) a b =
    let half : b * 2 ^ suc k / 2 ≡ b * 2 ^ k = omega (arith, ap (λ (t : ℕ). b * t) (pow-suc 2 k)) in
    let deeper : a / 2 / 2 ^ k ≡ a / 2 ^ suc k =
      div-div-eq-div-mul a 2 (2 ^ k) ∙ ap (λ (t : ℕ). a / t) (omega (arith, pow-suc 2 k)) in
    omega (
      arith,
      ap (λ (t : ℕ). b * t) (pow-suc 2 k),
      ap (λ (t : ℕ). bit_and (a / 2 ^ suc k) b * t) (pow-suc 2 k),
      ap (λ (t : ℕ). t * 2 ^ k * 2) (ap (λ (t : ℕ). bit_and t b) deeper),
      bit_and_step a (b * 2 ^ suc k),
      ap (bit_and (a / 2)) half,
      bit_and_shift k (a / 2) b,
    )
