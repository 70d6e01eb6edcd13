-- ===== src/Prelude/Words.antt =====
-- Go's fixed-width integers and bytes as native numbers: a shift to the left wraps, and a mask on a
-- byte is arithmetic.

use format.Prelude.Lists.{Bytes, All, get_or}
use format.Prelude.Tests.{◌==◌}
use mathlib.Core.Bool.{Bool, true, false, ◌&&◌}
use format.Prelude.Bits.{bit_and_mask, bit_or_disjoint, agree_below, agree_below→eq}
use Prim.Native.Nat.{ℕ, ◌+◌, ◌*◌, ◌/◌, ◌%◌, ◌^◌, ◌<◌, bit_and, bit_or, zero, suc}
use mathlib.Core.Path.{◌≡◌, refl}
use mathlib.Core.List.{[], ◌∷◌}
use native.Mathlib.Omega.{arith}
use native.Mathlib.Nat.{div-add-mod'}

abbrev pub IsByte : ℕ → Type 0
IsByte b = b < 256

-- What a Go byte slice is: a list of numbers below 256.
abbrev pub IsBytes : Bytes → Type 0
IsBytes bs = All IsByte bs

-- `buf[i]`; the code reads at `i` only behind a test of the length, or as its callers guarantee.
abbrev pub byte_at : Bytes → ℕ → ℕ
byte_at buf i = get_or buf i 0

-- `x << k` at `w` bits, `x >> k`, and `byte(x)`.
abbrev pub shl : ℕ → ℕ → ℕ → ℕ
shl w x k = x * 2 ^ k % 2 ^ w

abbrev pub shr : ℕ → ℕ → ℕ
shr x k = x / 2 ^ k

abbrev pub byte : ℕ → ℕ
byte x = x % 256

-- `bytes.Equal`
abbrev pub equal : Bytes → Bytes → Bool
equal [] [] = true
equal [] (b ∷ bs) = false
equal (a ∷ as') [] = false
equal (a ∷ as') (b ∷ bs) = a == b && equal as' bs

pub byte_at-IsByte : (bs : Bytes) (i : ℕ) → IsBytes bs → byte_at bs i < 256
byte_at-IsByte [] i h = omega arith
byte_at-IsByte (b ∷ bs) zero h = h.0
byte_at-IsByte (b ∷ bs) (suc i) h = byte_at-IsByte bs i h.1

-- Masks of low bits, of any number.
pub and_01 : (a : ℕ) → bit_and a 0x01 ≡ a % 2
and_01 = bit_and_mask 1

pub and_03 : (a : ℕ) → bit_and a 0x03 ≡ a % 4
and_03 = bit_and_mask 2

pub and_07 : (a : ℕ) → bit_and a 0x07 ≡ a % 8
and_07 = bit_and_mask 3

pub and_0f : (a : ℕ) → bit_and a 0x0f ≡ a % 16
and_0f = bit_and_mask 4

pub and_1f : (a : ℕ) → bit_and a 0x1f ≡ a % 32
and_1f = bit_and_mask 5

pub and_3f : (a : ℕ) → bit_and a 0x3f ≡ a % 64
and_3f = bit_and_mask 6

-- Masks in the middle of a byte, each a table.
pub and_80 : (b : ℕ) → b < 256 → bit_and b 0x80 ≡ b / 128 * 128
unfolding agree_below
and_80 = agree_below→eq _ _ 256 refl

pub and_40 : (b : ℕ) → b < 256 → bit_and b 0x40 ≡ b / 64 % 2 * 64
unfolding agree_below
and_40 = agree_below→eq _ _ 256 refl

pub and_20 : (b : ℕ) → b < 256 → bit_and b 0x20 ≡ b / 32 % 2 * 32
unfolding agree_below
and_20 = agree_below→eq _ _ 256 refl

pub and_10 : (b : ℕ) → b < 256 → bit_and b 0x10 ≡ b / 16 % 2 * 16
unfolding agree_below
and_10 = agree_below→eq _ _ 256 refl

pub and_02 : (b : ℕ) → b < 256 → bit_and b 0x02 ≡ b / 2 % 2 * 2
unfolding agree_below
and_02 = agree_below→eq _ _ 256 refl

pub and_0e : (b : ℕ) → b < 256 → bit_and b 0x0e ≡ b % 16 / 2 * 2
unfolding agree_below
and_0e = agree_below→eq _ _ 256 refl

pub and_fe : (b : ℕ) → b < 256 → bit_and b 0xfe ≡ b / 2 * 2
unfolding agree_below
and_fe = agree_below→eq _ _ 256 refl

pub and_c0 : (b : ℕ) → b < 256 → bit_and b 0xc0 ≡ b / 64 * 64
unfolding agree_below
and_c0 = agree_below→eq _ _ 256 refl

-- A big-endian number put together by shifts and disjunctions.
-- `a | b` where `a` has no bit below `2 ^ k` and `b` none from there on.
pub bit_or_sum : (k m b : ℕ) → m % 2 ^ k ≡ 0 → b < 2 ^ k → bit_or m b ≡ m + b
bit_or_sum k m b e h =
    let whole : m ≡ m / 2 ^ k * 2 ^ k = omega (arith, div-add-mod' m (2 ^ k)) in
    rw whole (bit_or_disjoint k (m / 2 ^ k) b h)

-- The two bytes of a 16-bit number, put together again.
pub or_16-byte : (v : ℕ) → v < 2 ^ 16 → bit_or (shl 16 (byte (shr v 8)) 8) (byte v) ≡ v
or_16-byte v h = omega (arith, bit_or_sum 8 (shl 16 (byte (shr v 8)) 8) (byte v))

-- The four bytes of a word, put together again.
abbrev pub or_32 : ℕ → ℕ → ℕ → ℕ → ℕ
or_32 a b c d = bit_or (bit_or (bit_or (shl 32 a 24) (shl 32 b 16)) (shl 32 c 8)) d

pub or_32-byte :
    (v : ℕ) → v < 2 ^ 32 → or_32 (byte (shr v 24)) (byte (shr v 16)) (byte (shr v 8)) (byte v) ≡ v
or_32-byte v h =
    let a : ℕ = shl 32 (byte (shr v 24)) 24 in
    let b : ℕ = shl 32 (byte (shr v 16)) 16 in
    let c : ℕ = shl 32 (byte (shr v 8)) 8 in
    let ab : bit_or a b ≡ a + b = bit_or_sum 24 a b (omega arith) (omega arith) in
    let abc : bit_or (a + b) c ≡ a + b + c = bit_or_sum 16 (a + b) c (omega arith) (omega arith) in
    rw (ab, abc, bit_or_sum 8 (a + b + c) (byte v) (omega arith) (omega arith)) (omega arith)

pub ruleset masks = (
  and_01, and_03, and_07, and_0f, and_1f, and_3f, and_80, and_40, and_20, and_10, and_02, and_0e,
  and_fe, and_c0,
)
