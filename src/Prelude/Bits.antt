-- ===== src/Prelude/Bits.antt =====
-- Facts about `bit_and`, `bit_or` and `bit_xor` at variables: the digit recursion, disjoint sums,
-- masks, and tables over one byte.
use Prim.Native.Nat.{
  ℕ, zero, suc, ◌+◌, ◌-◌, ◌*◌, ◌/◌, ◌%◌, ◌^◌, ◌≤◌, ◌<◌, min, max, bit_and, bit_or, bit_xor, digits,
  bitwise, differ, bit_and-bitwise, bit_or-bitwise, bit_xor-bitwise,
}
use mathlib.Core.Path.{◌≡◌, refl, sym, ap, ◌∙◌}
use mathlib.Core.Bool.{Bool, true, false}
use mathlib.Core.Logic.{ite}
use native.Mathlib.Decide.{ℕ_discrete}
use native.Mathlib.Nat.{two-pow-succ, div-add-mod, mod-lt, mod-eq_of_lt, mul-add-mod_self_left}
use native.Mathlib.Omega.{arith}

-- Two functions that agree on a range of numbers, by evaluation.
module _ (f g : ℕ → ℕ) where
  unfoldable pub agree_below : ℕ → Bool
  unfolding ℕ_discrete
  agree_below zero = true
  agree_below (suc n) = ite (ℕ_discrete (f n) (g n)) (agree_below n) false

  pub agree_below→eq : (n : ℕ) → agree_below n ≡ true → (i : ℕ) → i < n → f i ≡ g i
  unfolding agree_below
  agree_below→eq zero e i h = absurd (omega arith)
  agree_below→eq (suc n) e i h = ground (arith, agree_below→eq n (ground arith) i)

-- What an operation that works digit by digit does with the lowest digit.
module _ (f : ℕ → ℕ → ℕ) (z : ℕ → ℕ) where
  at_zero : (n b : ℕ) → digits z f n zero b ≡ z b
  at_zero zero b = refl
  at_zero (suc n) b = refl

  surplus : (a b m k : ℕ) → a ≤ m → digits z f (m + k) a b ≡ digits z f m a b
  surplus zero b m k h = at_zero (m + k) b ∙ sym (at_zero m b)
  surplus (suc a) b zero k h = absurd (omega arith)
  surplus (suc a) b (suc m) k h =
      let n : suc m + k ≡ suc (m + k) = omega arith in
      rw n (omega (arith, surplus (suc a / 2) (b / 2) m k (omega arith)))

  half_is_enough : (a b : ℕ) → digits z f a (suc a / 2) b ≡ digits z f (suc a / 2) (suc a / 2) b
  half_is_enough a b =
      let half : ℕ = suc a / 2 in
      let whole : half + (a - half) ≡ a = omega arith in
      ap (λ (n : ℕ). digits z f n half b) (sym whole) ∙ surplus half b half (a - half) (omega arith)

  module _ (op : ℕ → ℕ → ℕ) (means : (a b : ℕ) → op a b ≡ bitwise z f a b) where
    lowest_digit : (a b : ℕ) → op (suc a) b ≡ op (suc a / 2) (b / 2) * 2 + f (suc a % 2) (b % 2)
    lowest_digit a b =
        omega (arith, means (suc a) b, means (suc a / 2) (b / 2), half_is_enough a (b / 2))

    -- An operation that keeps an operand, or drops it, beside 0.
    beside_zero :
        (g : ℕ → ℕ)
        → op 0 0 ≡ g 0
        → ((a : ℕ) → g (suc a) ≡ g (suc a / 2) * 2 + f (suc a % 2) 0)
        → (bound a : ℕ) → a < bound
        → op a 0 ≡ g a
    beside_zero g base step zero a h = absurd (omega arith)
    beside_zero g base step (suc bound) zero h = base
    beside_zero g base step (suc bound) (suc a) h =
        omega
          (arith, lowest_digit a 0, step a, beside_zero g base step bound (suc a / 2) (omega arith))

pub zero-bit_or : (b : ℕ) → bit_or 0 b ≡ b
zero-bit_or b = bit_or-bitwise 0 b

pub zero-bit_xor : (b : ℕ) → bit_xor 0 b ≡ b
zero-bit_xor b = bit_xor-bitwise 0 b

pub bit_and_step : (a b : ℕ) → bit_and a b ≡ bit_and (a / 2) (b / 2) * 2 + min (a % 2) (b % 2)
bit_and_step (suc a) b = lowest_digit min (λ b. 0) bit_and bit_and-bitwise a b
bit_and_step zero b = omega (arith, bit_and-bitwise 0 b, bit_and-bitwise 0 (b / 2))

pub bit_or_step : (a b : ℕ) → bit_or a b ≡ bit_or (a / 2) (b / 2) * 2 + max (a % 2) (b % 2)
bit_or_step (suc a) b = lowest_digit max (λ b. b) bit_or bit_or-bitwise a b
bit_or_step zero b = omega (arith, zero-bit_or b, zero-bit_or (b / 2))

differ_digits : (x y : ℕ) → x < 2 → y < 2 → differ x y ≡ (x + y) % 2
differ_digits zero y h g = omega arith
differ_digits (suc zero) zero h g = refl
differ_digits (suc zero) (suc zero) h g = refl
differ_digits (suc zero) (suc (suc y)) h g = absurd (omega arith)
differ_digits (suc (suc x)) y h g = absurd (omega arith)

pub bit_xor_step : (a b : ℕ) → bit_xor a b ≡ bit_xor (a / 2) (b / 2) * 2 + (a % 2 + b % 2) % 2
bit_xor_step (suc a) b = omega (
  arith,
  lowest_digit differ (λ b. b) bit_xor bit_xor-bitwise a b,
  differ_digits (suc a % 2) (b % 2) (omega arith) (omega arith),
)
bit_xor_step zero b = omega (arith, zero-bit_xor b, zero-bit_xor (b / 2))

bit_and-zero : (a : ℕ) → bit_and a 0 ≡ 0
bit_and-zero a =
    beside_zero min (λ b. 0) bit_and bit_and-bitwise (λ a. 0) refl (λ a. omega arith) (suc a) a
      (omega arith)

pub pow_pos : (k : ℕ) → 0 < 2 ^ k
pow_pos zero = omega arith
pow_pos (suc k) = omega (arith, two-pow-succ k, pow_pos k)

mod_double : (a n : ℕ) → 0 < n → a % (n + n) ≡ a / 2 % n * 2 + a % 2
mod_double a n h =
    let r : ℕ = a / 2 % n * 2 + a % 2 in
    let split : a ≡ (n + n) * (a / 2 / n) + r =
      omega (arith, ap (λ (t : ℕ). t * 2) (div-add-mod (a / 2) n)) in
    let small : r < n + n = omega (arith, mod-lt (a / 2) h) in
    ap (λ (t : ℕ). t % (n + n)) split
    ∙ mul-add-mod_self_left (n + n) (a / 2 / n) r
    ∙ mod-eq_of_lt small

-- A mask of `k` ones keeps the remainder.
pub bit_and_mask : (k a : ℕ) → bit_and a (2 ^ k - 1) ≡ a % 2 ^ k
bit_and_mask zero a = omega (arith, bit_and-zero a)
bit_and_mask (suc k) a =
    let half : (2 ^ suc k - 1) / 2 ≡ 2 ^ k - 1 = omega (arith, two-pow-succ k, pow_pos k) in
    let inner : bit_and (a / 2) ((2 ^ suc k - 1) / 2) ≡ a / 2 % 2 ^ k =
      rw half (bit_and_mask k (a / 2)) in
    omega (
      arith,
      bit_and_step a (2 ^ suc k - 1),
      inner,
      two-pow-succ k,
      pow_pos k,
      ap (λ (t : ℕ). a % t) (two-pow-succ k),
      mod_double a (2 ^ k) (pow_pos k),
    )

pub bit_or-zero : (a : ℕ) → bit_or a 0 ≡ a
bit_or-zero a =
    beside_zero max (λ b. b) bit_or bit_or-bitwise (λ a. a) refl (λ a. omega arith) (suc a) a
      (omega arith)

-- `a | b` where the two have no bit in common: `a` is a multiple of `2 ^ k`, and `b` is below it.
pub bit_or_disjoint : (k a b : ℕ) → b < 2 ^ k → bit_or (a * 2 ^ k) b ≡ a * 2 ^ k + b
bit_or_disjoint zero a b h =
    let e : b ≡ 0 = omega arith in rw e (omega (arith, bit_or-zero (a * 1)))
bit_or_disjoint (suc k) a b h =
    let whole : a * 2 ^ suc k ≡ a * 2 ^ k * 2 =
      omega (arith, ap (λ (t : ℕ). a * t) (two-pow-succ k)) in
    let inner : bit_or (a * 2 ^ suc k / 2) (b / 2) ≡ a * 2 ^ k + b / 2 =
      let e : a * 2 ^ suc k / 2 ≡ a * 2 ^ k = omega (arith, whole) in
      rw e (bit_or_disjoint k a (b / 2) (omega (arith, two-pow-succ k))) in
    omega (arith, bit_or_step (a * 2 ^ suc k) b, inner, whole)

pub bit_xor-lt : (k a b : ℕ) → a < 2 ^ k → b < 2 ^ k → bit_xor a b < 2 ^ k
bit_xor-lt zero zero b h g = omega (arith, zero-bit_xor b)
bit_xor-lt zero (suc a) b h g = absurd (omega arith)
bit_xor-lt (suc k) a b h g = omega (
  arith,
  bit_xor_step a b,
  two-pow-succ k,
  bit_xor-lt k (a / 2) (b / 2) (omega (arith, two-pow-succ k)) (omega (arith, two-pow-succ k)),
)
