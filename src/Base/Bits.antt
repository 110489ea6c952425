-- ===== src/Base/Bits.antt =====
-- `&` and `|` on a word whose flags are single bits, as remainders and sums.
use Prim.Native.Nat.{
  ℕ, zero, suc, ◌+◌, ◌-◌, ◌*◌, ◌/◌, ◌%◌, ◌^◌, ◌≤◌, ◌<◌, min, max, bit_and, bit_or, digits,
  bit_and-bitwise, bit_or-bitwise,
}
use mathlib.Core.Path.{◌≡◌, ◌∙◌, refl, sym, ap}
use native.Mathlib.Nat.{pow-suc, mod-eq_of_lt, div-add-mod, div-div-eq-div-mul}
use native.Mathlib.Omega.{arith}

-- Induction from the half of a number to the number.
by_halves : (P : ℕ → Type 0) → P 0 → ((a : ℕ) → P (suc a / 2) → P (suc a)) → (a : ℕ) → P a
by_halves P base step a = below a a (omega arith)
  where
    below : (bound x : ℕ) → x ≤ bound → P x
    below bound zero le = base
    below zero (suc x) le = absurd (omega arith)
    below (suc bound) (suc x) le = step x (below bound (suc x / 2) (omega arith))

-- An operation that combines two numbers digit by digit.
module _ (rest : ℕ → ℕ) (combine : ℕ → ℕ → ℕ) where
  -- Any two counts of rounds that cover the first number give the same.
  rounds-agree :
      (x y m n : ℕ) → x ≤ m → x ≤ n → digits rest combine m x y ≡ digits rest combine n x y
  rounds-agree zero y zero zero le le' = refl
  rounds-agree zero y zero (suc n) le le' = refl
  rounds-agree zero y (suc m) zero le le' = refl
  rounds-agree zero y (suc m) (suc n) le le' = refl
  rounds-agree (suc x) y m zero le le' = absurd (omega arith)
  rounds-agree (suc x) y zero (suc n) le le' = absurd (omega arith)
  rounds-agree (suc x) y (suc m) (suc n) le le' =
      ap (λ front. front * 2 + combine (suc x % 2) (y % 2))
        (rounds-agree (suc x / 2) (y / 2) m n (omega arith) (omega arith))

  module _ (op : ℕ → ℕ → ℕ) (bitwise : (x y : ℕ) → op x y ≡ digits rest combine x x y)
      (idle : (y : ℕ) → rest y ≡ rest (y / 2) * 2 + combine 0 (y % 2)) where
    last_digit : (x y : ℕ) → op x y ≡ op (x / 2) (y / 2) * 2 + combine (x % 2) (y % 2)
    last_digit zero y =
        bitwise 0 y
        ∙ (idle y ∙ ap (λ front. front * 2 + combine 0 (y % 2)) (sym (bitwise 0 (y / 2))))
    last_digit (suc x) y =
        let front = rounds-agree (suc x / 2) (y / 2) x (suc x / 2) (omega arith) (omega arith) in
        bitwise (suc x) y
        ∙ ap (λ f. f * 2 + combine (suc x % 2) (y % 2)) (front ∙ sym (bitwise (suc x / 2) (y / 2)))

bit_and-last : (x y : ℕ) → bit_and x y ≡ bit_and (x / 2) (y / 2) * 2 + min (x % 2) (y % 2)
bit_and-last = last_digit (λ y. 0) min bit_and (λ x y. bit_and-bitwise x y) (λ y. omega arith)

bit_or-last : (x y : ℕ) → bit_or x y ≡ bit_or (x / 2) (y / 2) * 2 + max (x % 2) (y % 2)
bit_or-last = last_digit (λ y. y) max bit_or (λ x y. bit_or-bitwise x y) (λ y. omega arith)

pub zero-bit_or : (y : ℕ) → bit_or 0 y ≡ y
zero-bit_or y = bit_or-bitwise 0 y

bit_and-nothing : (x : ℕ) → bit_and x 0 ≡ 0
bit_and-nothing =
    by_halves (λ x. bit_and x 0 ≡ 0) (bit_and-bitwise 0 0)
      (λ x h. omega (arith, bit_and-last (suc x) 0))

bit_or-nothing : (x : ℕ) → bit_or x 0 ≡ x
bit_or-nothing =
    by_halves (λ x. bit_or x 0 ≡ x) (zero-bit_or 0) (λ x h. omega (arith, bit_or-last (suc x) 0))

half_pow : (k : ℕ) → 2 ^ suc k / 2 ≡ 2 ^ k
half_pow k = omega (arith, pow-suc 2 k)

half_mask : (k : ℕ) → (2 ^ suc k - 1) / 2 ≡ 2 ^ k - 1
half_mask k = omega (arith, pow-suc 2 k)

half_high : (k n : ℕ) → (2 ^ suc n - 2 ^ suc k) / 2 ≡ 2 ^ n - 2 ^ k
half_high k n = omega (arith, pow-suc 2 k, pow-suc 2 n)

pub pow_pos : (k : ℕ) → 0 < 2 ^ k
pow_pos zero = omega arith
pow_pos (suc k) = omega (arith, pow-suc 2 k, pow_pos k)

div_half : (k a : ℕ) → a / 2 / 2 ^ k ≡ a / 2 ^ suc k
div_half k a = div-div-eq-div-mul a 2 (2 ^ k) ∙ ap (λ t. a / t) (omega (arith, pow-suc 2 k))

mod_half : (k a : ℕ) → a % 2 ^ suc k ≡ a / 2 % 2 ^ k * 2 + a % 2
mod_half k a = omega (
  arith,
  div_half k a,
  div-add-mod a (2 ^ suc k),
  div-add-mod (a / 2) (2 ^ k),
  ap (λ t. t * (a / 2 ^ suc k)) (pow-suc 2 k),
  ap (λ t. 2 ^ k * t) (div_half k a),
)

-- A single bit, read.
pub bit_and_pow : (k a : ℕ) → bit_and a (2 ^ k) ≡ a / 2 ^ k % 2 * 2 ^ k
bit_and_pow zero a = omega (arith, bit_and-last a 1, bit_and-nothing (a / 2))
bit_and_pow (suc k) a = omega (
  arith,
  pow-suc 2 k,
  bit_and-last a (2 ^ suc k),
  ap (bit_and (a / 2)) (half_pow k),
  bit_and_pow k (a / 2),
  ap (λ t. t % 2 * 2 ^ k) (div_half k a),
  ap (λ t. a / 2 ^ suc k % 2 * t) (pow-suc 2 k),
)

-- A mask of ones.
pub bit_and_mask : (k a : ℕ) → bit_and a (2 ^ k - 1) ≡ a % 2 ^ k
bit_and_mask zero a = omega (arith, bit_and-nothing a)
bit_and_mask (suc k) a = omega (
  arith,
  pow-suc 2 k,
  pow_pos k,
  bit_and-last a (2 ^ suc k - 1),
  ap (bit_and (a / 2)) (half_mask k),
  bit_and_mask k (a / 2),
  mod_half k a,
)

-- A single bit above the word, set.
pub bit_or_pow : (k a : ℕ) → a < 2 ^ k → bit_or a (2 ^ k) ≡ a + 2 ^ k
bit_or_pow zero a h = omega (arith, bit_or-last a 1, bit_or-nothing (a / 2))
bit_or_pow (suc k) a h = omega (
  arith,
  pow-suc 2 k,
  bit_or-last a (2 ^ suc k),
  ap (bit_or (a / 2)) (half_pow k),
  bit_or_pow k (a / 2) (omega (arith, pow-suc 2 k)),
)

-- A mask of ones from bit `k` on.
pub bit_and_high : (k n a : ℕ) → k ≤ n → a < 2 ^ n → bit_and a (2 ^ n - 2 ^ k) ≡ a / 2 ^ k * 2 ^ k
bit_and_high zero n a le h = omega (arith, bit_and_mask n a, mod-eq_of_lt h)
bit_and_high (suc k) zero a le h = absurd (omega arith)
bit_and_high (suc k) (suc n) a le h = omega (
  arith,
  pow-suc 2 k,
  pow-suc 2 n,
  bit_and-last a (2 ^ suc n - 2 ^ suc k),
  ap (bit_and (a / 2)) (half_high k n),
  bit_and_high k n (a / 2) (omega arith) (omega (arith, pow-suc 2 n)),
  ap (λ t. t * 2 ^ k) (div_half k a),
  ap (λ t. a / 2 ^ suc k * t) (pow-suc 2 k),
)
