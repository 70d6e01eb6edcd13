-- ===== src/Mpegts/Pes/Timestamp.antt =====
-- mpegts/pes.go and mpegts/reader.go: 33-bit timestamps, five bytes with marker bits each, and the
-- unwrapping of the timeline.
pub mod Nearest
use format.Prelude.{
  ℕ, ◌+◌, ◌-◌, ◌*◌, ◌/◌, ◌%◌, ◌^◌, ◌<◌, ◌≤◌, ◌≡◌, refl, arith, Bool, true, false, List, [], ◌∷◌,
  ◌++◌, bit_and, bit_or, ltb, if◌then◌else◌, Bytes,
}
use format.Prelude.Int.{ℤ, pos, negsuc, sub_ℕ}
use format.Prelude.Words.{byte_at, byte, shl, shr, bit_or_sum, and_0e, and_fe}

abbrev pub timestamp_wrap : ℕ
timestamp_wrap = 2 ^ 33

-- `ts & maxTimestamp` of the two's complement.
unfoldable pub masked : ℤ → ℕ
masked (pos n) = n % timestamp_wrap
masked (negsuc n) = timestamp_wrap - 1 - n % timestamp_wrap

abbrev pub timestamp_bytes : ℕ → ℕ → Bytes
timestamp_bytes prefix ts =
    bit_or (bit_or (shl 8 prefix 4) (bit_and (byte (shr ts 29)) 0x0E)) 0x01
    ∷ byte (shr ts 22)
    ∷ bit_or (bit_and (byte (shr ts 14)) 0xFE) 0x01
    ∷ byte (shr ts 7)
    ∷ bit_or (byte (shl 64 ts 1)) 0x01
    ∷ []

unfoldable pub append_timestamp : Bytes → ℕ → ℕ → Bytes
append_timestamp dst prefix ts = dst ++ timestamp_bytes prefix ts

unfoldable pub parse_timestamp : Bytes → ℕ
parse_timestamp buf =
    bit_or
      (bit_or
        (bit_or (bit_or (shl 64 (bit_and (byte_at buf 0) 0x0E) 29) (shl 64 (byte_at buf 1) 22))
          (shl 64 (bit_and (byte_at buf 2) 0xFE) 14))
        (shl 64 (byte_at buf 3) 7))
      (shr (byte_at buf 4) 1)

-- `extendTimestamp` of reader.go. A negative reference means that there is none. The int64
-- sums are those of integers: they would wrap for references from 2^63 - 2^34 on.
unfoldable pub extend_timestamp : ℤ → ℕ → ℤ
extend_timestamp (negsuc r) ts33 = pos ts33
extend_timestamp (pos r) ts33 =
    let candidate = r - r % timestamp_wrap + ts33 in
    if ltb (candidate + timestamp_wrap / 2) r
    then pos (candidate + timestamp_wrap)
    else if ltb (r + timestamp_wrap / 2) candidate
    then sub_ℕ candidate timestamp_wrap
    else pos candidate

pub masked-lt : (t : ℤ) → masked t < timestamp_wrap
unfolding masked
masked-lt (pos n) = omega arith
masked-lt (negsuc n) = omega arith

-- The bytes of a timestamp, whatever its prefix, give it back.
pub parse_timestamp-timestamp_bytes :
    (prefix ts : ℕ)
    → prefix < 16
    → ts < timestamp_wrap
    → parse_timestamp (timestamp_bytes prefix ts) ≡ ts
unfolding parse_timestamp
parse_timestamp-timestamp_bytes prefix ts hp h =
    let n : ℕ = byte (shr ts 29) in
    let m : ℕ = byte (shr ts 14) in
    let t0 : ℕ = n % 16 / 2 * 2 in
    let t2 : ℕ = m / 2 * 2 in
    let t4 : ℕ = byte (shl 64 ts 1) in
    let x0 : ℕ = shl 8 prefix 4 + t0 in
    let s0 : ℕ = shl 64 t0 29 in
    let s1 : ℕ = shl 64 (byte (shr ts 22)) 22 in
    let s2 : ℕ = shl 64 t2 14 in
    let s3 : ℕ = shl 64 (byte (shr ts 7)) 7 in
    let first : bit_and (x0 + 1) 0x0E ≡ t0 = omega (arith, and_0e (x0 + 1) (omega arith)) in
    let third : bit_and (t2 + 1) 0xFE ≡ t2 = omega (arith, and_fe (t2 + 1) (omega arith)) in
    rw
      (
        and_0e n (omega arith),
        and_fe m (omega arith),
        bit_or_sum 4 (shl 8 prefix 4) t0 (omega arith) (omega arith),
        bit_or_sum 1 x0 1 (omega arith) (omega arith),
        bit_or_sum 1 t2 1 (omega arith) (omega arith),
        bit_or_sum 1 t4 1 (omega arith) (omega arith),
        first,
        third,
      )
      (rw
        (
          bit_or_sum 30 s0 s1 (omega arith) (omega arith),
          bit_or_sum 22 (s0 + s1) s2 (omega arith) (omega arith),
          bit_or_sum 15 (s0 + s1 + s2) s3 (omega arith) (omega arith),
          bit_or_sum 7 (s0 + s1 + s2 + s3) (shr (t4 + 1) 1) (omega arith) (omega arith),
        )
        (omega arith))
