-- ===== src/Mpegts/Adaptation/RoundTrip.antt =====
-- mpegts/adaptation.go: writing an adaptation field, and reading it.
use format.Prelude.{
  ℕ, ◌+◌, ◌-◌, ◌*◌, ◌/◌, ◌%◌, ◌^◌, ◌<◌, ◌≤◌, ◌≡◌, refl, ap, arith, Bool, true, false, ◌∷◌, ◌++◌,
  bit_and, bit_or, ◌==◌, Bytes, length, ok, le→ltb, bit, replicate, length-replicate, length-append,
  if◌then◌else◌,
}
use format.Prelude.Words.{byte, shl, shr, bit_or_sum, and_01}
use format.Mpegts.Packet.{has_bit, or_if}
use format.Mpegts.Adaptation.{
  AdaptationField, no_field, pcr_at, pcr_bytes, flags_of, parse_adaptation_field, encoded_len,
  marshal_field,
}

-- A clock value of 33 bits of base and an extension below 300.
abbrev pub IsPcr : ℕ → Type 0
IsPcr pcr = pcr < 300 * 2 ^ 33

sixth_byte : (x y : ℕ) → x < 2 → y < 2 → bit_or (bit_or (x * 128) 0x7E) y ≡ x * 128 + 126 + y
sixth_byte x y hx hy = rw (
  bit_or_sum 7 (x * 128) 0x7E (omega arith) (omega arith),
  bit_or_sum 1 (x * 128 + 0x7E) y (omega arith) (omega arith),
)

base_value :
    (base : ℕ)
    → base < 2 ^ 33
    → bit_or
        (bit_or
          (bit_or
            (bit_or (shl 64 (byte (shr base 25)) 25) (shl 64 (byte (shr base 17)) 17))
            (shl 64 (byte (shr base 9)) 9))
          (shl 64 (byte (shr base 1)) 1))
        (base % 2)
      ≡ base
base_value base h =
    let b1 : ℕ = shl 64 (byte (shr base 25)) 25 in
    let b2 : ℕ = shl 64 (byte (shr base 17)) 17 in
    let b3 : ℕ = shl 64 (byte (shr base 9)) 9 in
    let b4 : ℕ = shl 64 (byte (shr base 1)) 1 in
    rw
      (
        bit_or_sum 25 b1 b2 (omega arith) (omega arith),
        bit_or_sum 17 (b1 + b2) b3 (omega arith) (omega arith),
        bit_or_sum 9 (b1 + b2 + b3) b4 (omega arith) (omega arith),
        bit_or_sum 1 (b1 + b2 + b3 + b4) (base % 2) (omega arith) (omega arith),
      )
      (omega arith)

pcr_at-pcr_bytes :
    (pcr len flags : ℕ) (rest : Bytes)
    → IsPcr pcr
    → pcr_at (len ∷ flags ∷ (pcr_bytes pcr ++ rest)) ≡ pcr
pcr_at-pcr_bytes pcr len flags rest h =
    let base : ℕ = pcr / 300 in
    let ext : ℕ = pcr % 300 in
    let low : byte (shl 64 base 7) ≡ base % 2 * 128 = omega arith in
    let high : byte (shr ext 8) ≡ ext / 256 = omega arith in
    let sixth : ℕ = base % 2 * 128 + 126 + ext / 256 in
    let top : shr sixth 7 ≡ base % 2 = omega arith in
    let bottom : bit_and sixth 0x01 ≡ ext / 256 = omega (arith, and_01 sixth) in
    rw
      (
        low,
        high,
        sixth_byte (base % 2) (ext / 256) (omega arith) (omega arith),
        top,
        bottom,
        base_value base (omega arith),
        bit_or_sum 8 (shl 64 (ext / 256) 8) (byte ext) (omega arith) (omega arith),
      )
      (omega arith)

flags_fields :
    (af : AdaptationField)
    → (has_bit (flags_of af) 0x80 ≡ af.discontinuity)
      × (has_bit (flags_of af) 0x40 ≡ af.random_access)
      × (has_bit (flags_of af) 0x10 ≡ af.has_pcr)
flags_fields af = table af.discontinuity af.random_access af.has_pcr
  where
    table :
        (d r p : Bool)
        → let flags = or_if p (or_if r (or_if d 0 0x80) 0x40) 0x10 in
          (has_bit flags 0x80 ≡ d) × (has_bit flags 0x40 ≡ r) × (has_bit flags 0x10 ≡ p)
    table true true true = (refl, refl, refl)
    table true true false = (refl, refl, refl)
    table true false true = (refl, refl, refl)
    table true false false = (refl, refl, refl)
    table false true true = (refl, refl, refl)
    table false true false = (refl, refl, refl)
    table false false true = (refl, refl, refl)
    table false false false = (refl, refl, refl)

-- What a reader can see of a field: no clock value without its flag.
abbrev pub visible : AdaptationField → AdaptationField
visible af = record af { pcr = bit af.has_pcr af.pcr }

-- `marshalTo` fills exactly `total` bytes, for any total that the flags and the clock fit in.
pub length-marshal_field :
    (af : AdaptationField) (total : ℕ)
    → encoded_len af ≤ total
    → length (marshal_field af total) ≡ total
unfolding marshal_field encoded_len
length-marshal_field af total h = ground (
  arith,
  length-append (pcr_bytes af.pcr) (replicate (total - 8) 0xFF),
  length-replicate {A = ℕ} (total - 8) 0xFF,
  length-replicate {A = ℕ} (total - 2) 0xFF,
)

total_ne_one : {total : ℕ} → 2 ≤ total → (total == 1) ≡ false
total_ne_one h = ground arith

pos_ne_zero : {total : ℕ} → 2 ≤ total → (total - 1 == 0) ≡ false
pos_ne_zero h = ground arith

module _ (d r : Bool) (pcr total : ℕ) (rest : Bytes) (g : total ≤ 256) where
  with_clock : AdaptationField
  with_clock = record { discontinuity = d; random_access = r; has_pcr = true; pcr = pcr }

  without_clock : AdaptationField
  without_clock = record { discontinuity = d; random_access = r; has_pcr = false; pcr = pcr }

  parse_with_clock :
      IsPcr pcr
      → 8 ≤ total
      → parse_adaptation_field (marshal_field with_clock total ++ rest) ≡ ok (with_clock, total)
  unfolding with_clock marshal_field parse_adaptation_field
  parse_with_clock v h =
      let fill : Bytes = replicate (total - 8) 0xFF ++ rest in
      let size : length fill ≡ total - 8 + length rest = omega (
        arith,
        length-append (replicate (total - 8) 0xFF) rest,
        length-replicate {A = ℕ} (total - 8) 0xFF,
      ) in
      let f = flags_fields with_clock in
      let buf : Bytes = byte (total - 1) ∷ flags_of with_clock ∷ (pcr_bytes pcr ++ fill) in
      let len : byte (total - 1) ≡ total - 1 = omega arith in
      rw (total_ne_one {total = total} (omega arith), len)
        (rw
          (
            le→ltb (length buf) 1 (omega arith),
            le→ltb (length buf) (1 + (total - 1)) (omega arith),
            pos_ne_zero {total = total} (omega arith),
            le→ltb (total - 1) 7 (omega arith),
            f.0,
            f.1,
            f.2,
            pcr_at-pcr_bytes pcr (total - 1) (flags_of with_clock) fill v,
          )
          (ap (λ (n : ℕ). ok (with_clock, n)) (omega arith)))

  parse_without_clock :
      2 ≤ total
      → parse_adaptation_field (marshal_field without_clock total ++ rest)
        ≡ ok (record without_clock { pcr = 0 }, total)
  unfolding without_clock marshal_field parse_adaptation_field
  parse_without_clock h =
      let fill : Bytes = replicate (total - 2) 0xFF ++ rest in
      let size : length fill ≡ total - 2 + length rest = omega (
        arith,
        length-append (replicate (total - 2) 0xFF) rest,
        length-replicate {A = ℕ} (total - 2) 0xFF,
      ) in
      let f = flags_fields without_clock in
      let buf : Bytes = byte (total - 1) ∷ flags_of without_clock ∷ fill in
      let len : byte (total - 1) ≡ total - 1 = omega arith in
      rw (total_ne_one {total = total} (omega arith), len)
        (rw
          (
            le→ltb (length buf) 1 (omega arith),
            le→ltb (length buf) (1 + (total - 1)) (omega arith),
            pos_ne_zero {total = total} (omega arith),
            f.0,
            f.1,
            f.2,
          )
          (ap (λ (n : ℕ). ok (record without_clock { pcr = 0 }, n)) (omega arith)))

-- Every adaptation field with a clock value below 300 * 2^33, stuffed up to any total of at most 256 bytes
-- that it fits in, is read back from the front of any bytes, with the total as what it took; a clock
-- value without its flag reads as 0.
pub parse_adaptation_field-marshal_field :
    (af : AdaptationField) (total : ℕ) (rest : Bytes)
    → IsPcr af.pcr
    → encoded_len af ≤ total
    → total ≤ 256
    → parse_adaptation_field (marshal_field af total ++ rest) ≡ ok (visible af, total)
unfolding encoded_len with_clock without_clock
parse_adaptation_field-marshal_field af total rest v h g =
    by_clock af.discontinuity af.random_access af.has_pcr af.pcr v h
  where
    by_clock :
        (d r p : Bool) (pcr : ℕ)
        → IsPcr pcr
        → (if p then 8 else 2) ≤ total
        → let af' : AdaptationField = record {
          discontinuity = d;
          random_access = r;
          has_pcr = p;
          pcr = pcr;
        } in
          parse_adaptation_field (marshal_field af' total ++ rest) ≡ ok (visible af', total)
    by_clock d r true pcr v h = parse_with_clock d r pcr total rest g v h
    by_clock d r false pcr v h = parse_without_clock d r pcr total rest g h

-- The single stuffing byte is a field with nothing in it.
pub parse_stuffing_byte :
    (af : AdaptationField) (rest : Bytes)
    → parse_adaptation_field (marshal_field af 1 ++ rest) ≡ ok (no_field, 1)
unfolding marshal_field parse_adaptation_field
parse_stuffing_byte af rest = rw (le→ltb (length (0 ∷ rest)) 1 (omega arith))
