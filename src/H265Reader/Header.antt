-- ===== src/H265Reader/Header.antt =====
-- The header of an H.265 NAL unit, and the units of a whole stream.
use format.Prelude.{
  ℕ, zero, suc, ◌+◌, ◌*◌, ◌<◌, ◌≡◌, refl, ap, ◌∙◌, arith, Bool, List, [], ◌∷◌, map, Result, ok, err,
  Bytes, length, Option, none, some, bit, bit_and, bit_or, true, false, ltb, ◌||◌, All,
  if◌then◌else◌, ◌==◌, ◌/◌, ◌%◌, ◌^◌, not, le→ltb,
}
use format.Prelude.Bits.{agree_below, agree_below→eq}
use format.Prelude.Words.{IsByte, IsBytes, byte_at, byte_at-IsByte, shl, shr, bit_or_sum, and_01}
use format.Prelude.Io.{eof}
use format.Annexb.{Error, stream, Reader, new_reader}
use format.Annexb.Split.{IsUnit, from}
use format.Annexb.Nals.{annex_b, nals, AllUnits, next_units, next_units-annex_b}
use format.Annexb.Kept.{filter, next_kept, kept_units, kept_units-filter, map-filter_same}
use format.H265Reader.{Nal, parse_header, is_kept, next_nal}

layer_bits : (x y : ℕ) → x < 2 → y < 32 → bit_or (shl 8 x 5) y ≡ x * 32 + y
layer_bits x y hx hy =
    let small : x * 2 ^ 5 % 2 ^ 8 ≡ x * 32 = omega arith in
    rw small (bit_or_sum 5 (x * 32) y (omega arith) hy)

first_fields : ℕ → ℕ
first_fields b = bit (not (bit_and b 0x80 == 0)) 128 + shr (bit_and b 0x7E) 1 * 2 + bit_and b 0x01

first_fields-byte : (b : ℕ) → b < 256 → first_fields b ≡ b
unfolding agree_below first_fields
first_fields-byte = agree_below→eq first_fields (λ b. b) 256 refl

second_fields : ℕ → ℕ
second_fields c = shr (bit_and c 0xF8) 3 * 8 + bit_and c 0x07

second_fields-byte : (c : ℕ) → c < 256 → second_fields c ≡ c
unfolding agree_below second_fields
second_fields-byte = agree_below→eq second_fields (λ c. c) 256 refl

-- The header fields of a unit make up its first two bytes: the forbidden bit, six bits of type, six of
-- layer across the two bytes, three of temporal number. Both bytes are below 256.
pub header_bytes :
    (b c : ℕ) (rest : Bytes)
    → IsByte b
    → IsByte c
    → let nal = parse_header (b ∷ c ∷ rest) in
      (bit nal.forbidden_zero_bit 128 + nal.nal_unit_type * 2 + nal.layer_id / 32 ≡ b)
      × (nal.layer_id % 32 * 8 + nal.temporal_id_plus_1 ≡ c)
unfolding parse_header first_fields second_fields
header_bytes b c rest hb hc =
    let first : first_fields b ≡ b = first_fields-byte b hb in
    let second : second_fields c ≡ c = second_fields-byte c hc in
    let low : bit_and b 0x01 < 2 = omega (arith, and_01 b) in
    let x : ℕ = bit_and b 0x01 in
    let y : ℕ = shr (bit_and c 0xF8) 3 in
    let small : y < 32 = omega (arith, second) in
    let layer : bit_or (shl 8 x 5) y ≡ x * 32 + y = layer_bits x y low small in
    rw (le→ltb (length (b ∷ c ∷ rest)) 2 (omega arith))
      (rw layer (omega (arith, first), omega (arith, second)))

-- A unit by the layout of its first two bytes: one bit that is to be zero, six of type, six of layer,
-- three of temporal number. A unit of one byte has none of them.
abbrev pub described : Bytes → Nal
described bytes =
    let b = byte_at bytes 0 in
    let c = byte_at bytes 1 in
    if ltb (length bytes) 2
    then record {
      forbidden_zero_bit = false;
      nal_unit_type = 0;
      layer_id = 0;
      temporal_id_plus_1 = 0;
      bytes = bytes;
    }
    else record {
      forbidden_zero_bit = not (b / 128 == 0);
      nal_unit_type = b / 2 % 64;
      layer_id = b % 2 * 32 + c / 8;
      temporal_id_plus_1 = c % 8;
      bytes = bytes;
    }

-- Whether a unit is asked for: types 39 and 40 are supplemental enhancement information, before and
-- behind the picture.
abbrev pub is_wanted : Bool → Bytes → Bool
is_wanted include_sei bytes =
    let t = (described bytes).nal_unit_type in include_sei || not (t == 39 || t == 40)

forbidden_is : (b : ℕ) → b < 256 → bit (not (bit_and b 0x80 == 0)) 1 ≡ bit (not (b / 128 == 0)) 1
unfolding agree_below
forbidden_is =
    agree_below→eq (λ b. bit (not (bit_and b 0x80 == 0)) 1) (λ b. bit (not (b / 128 == 0)) 1) 256
      refl

bit-injective : (x y : Bool) → bit x 1 ≡ bit y 1 → x ≡ y
bit-injective true true e = refl
bit-injective true false e = absurd (omega arith)
bit-injective false true e = absurd (omega arith)
bit-injective false false e = refl

unit_type_is : (b : ℕ) → b < 256 → shr (bit_and b 0x7E) 1 ≡ b / 2 % 64
unfolding agree_below
unit_type_is = agree_below→eq (λ b. shr (bit_and b 0x7E) 1) (λ b. b / 2 % 64) 256 refl

layer_low_is : (c : ℕ) → c < 256 → shr (bit_and c 0xF8) 3 ≡ c / 8
unfolding agree_below
layer_low_is = agree_below→eq (λ c. shr (bit_and c 0xF8) 3) (λ c. c / 8) 256 refl

temporal_is : (c : ℕ) → c < 256 → bit_and c 0x07 ≡ c % 8
unfolding agree_below
temporal_is = agree_below→eq (λ c. bit_and c 0x07) (λ c. c % 8) 256 refl

parse_header-described : (bytes : Bytes) → IsBytes bytes → parse_header bytes ≡ described bytes
unfolding parse_header
parse_header-described bytes h =
    let b : ℕ = byte_at bytes 0 in
    let c : ℕ = byte_at bytes 1 in
    let small : b < 256 = byte_at-IsByte bytes 0 h in
    let small' : c < 256 = byte_at-IsByte bytes 1 h in
    let layer : bit_or (shl 8 (b % 2) 5) (c / 8) ≡ b % 2 * 32 + c / 8 =
      layer_bits (b % 2) (c / 8) (omega arith) (omega (arith, small')) in
    let forbidden : not (bit_and b 0x80 == 0) ≡ not (b / 128 == 0) =
      bit-injective _ _ (forbidden_is b small) in
    rw
      (
        forbidden,
        unit_type_is b small,
        and_01 b,
        layer_low_is c small',
        temporal_is c small',
        layer,
      )
      refl

is_kept-is_wanted :
    (include_sei : Bool) (bytes : Bytes)
    → IsBytes bytes
    → is_kept include_sei bytes ≡ is_wanted include_sei bytes
unfolding is_kept
is_kept-is_wanted include_sei bytes h =
    ap (λ (n : Nal). include_sei || not (n.nal_unit_type == 39 || n.nal_unit_type == 40))
      (parse_header-described bytes h)

every_described :
    (include_sei : Bool) (us : List Bytes)
    → All IsBytes us
    → All
        (λ u. (parse_header u ≡ described u) × (is_kept include_sei u ≡ is_wanted include_sei u))
        us
every_described include_sei [] h = tt
every_described include_sei (u ∷ us) (h, hs) = (
  (parse_header-described u h, is_kept-is_wanted include_sei u h),
  every_described include_sei us hs,
)

-- `NextNAL` until it fails, at most `fuel` times: the units and the error.
unfoldable pub next_nals : Bool → ℕ → Reader → List Nal × Option Error
next_nals include_sei zero r = ([], none)
next_nals include_sei (suc fuel) r =
    let (nal, r') = next_nal include_sei r in
    let rest = next_nals include_sei fuel r' in
    elim nal [ ok unit ↦ (unit ∷ rest.0, rest.1) | err e ↦ ([], some e) ]

abbrev parsed : List Bytes × Option Error → List Nal × Option Error
parsed out = (map parse_header out.0, out.1)

parsed-step :
    (include_sei : Bool) (fuel : ℕ) (out : Result Error Bytes × Reader)
    → ((r : Reader)
        → next_nals include_sei fuel r ≡ parsed (kept_units (is_kept include_sei) fuel r))
    → ◌≡◌ {A = List Nal × Option Error}
        (elim (elim out.0 as (λ x. Result Error Nal) [
          | ok bytes ↦ ok (parse_header bytes)
          | err e ↦ err e
        ]) [
          | ok unit ↦
              (unit ∷ (next_nals include_sei fuel out.1).0, (next_nals include_sei fuel out.1).1)
          | err e ↦ ([], some e)
        ])
        (parsed (elim out.0 [
          | ok nal ↦ (
            nal ∷ (kept_units (is_kept include_sei) fuel out.1).0,
            (kept_units (is_kept include_sei) fuel out.1).1,
          )
          | err e ↦ ([], some e)
        ]))
parsed-step include_sei fuel (err e, r) h = refl
parsed-step include_sei fuel (ok nal, r) h =
    ap (λ (o : List Nal × Option Error). (parse_header nal ∷ o.0, o.1)) (h r)

next_nals-kept_units :
    (include_sei : Bool) (fuel : ℕ) (r : Reader)
    → next_nals include_sei fuel r ≡ parsed (kept_units (is_kept include_sei) fuel r)
unfolding next_nals next_nal kept_units
next_nals-kept_units include_sei zero r = refl
next_nals-kept_units include_sei (suc fuel) r =
    parsed-step include_sei fuel (next_kept (is_kept include_sei) r)
      (next_nals-kept_units include_sei fuel)

-- On a stream of units of bytes behind start codes, none with a start code inside or a zero at the end,
-- `NextNAL` gives the units in order with the fields of their first two bytes, but those of type 39
-- and 40 unless they are asked for, and then `io.EOF`.
pub next_nals-annex_b_h265 :
    (include_sei : Bool) (long : Bool) (nal : Bytes) (units : List (Bool × Bytes))
    → IsUnit nal
    → AllUnits units
    → All IsBytes (nal ∷ nals units)
    → next_nals include_sei
        (suc (suc (length units)))
        (new_reader (from (annex_b ((long, nal) ∷ units))))
      ≡ (map described (filter (is_wanted include_sei) (nal ∷ nals units)), some (stream eof))
next_nals-annex_b_h265 include_sei long nal units u v bytes =
    let all = next_units-annex_b long nal units u v in
    let n : ℕ = suc (suc (length units)) in
    let r : Reader = new_reader (from (annex_b ((long, nal) ∷ units))) in
    let ends : (next_units n r).1 ≡ some (stream eof) =
      ap (λ (o : List Bytes × Option Error). o.1) all in
    next_nals-kept_units include_sei n r
    ∙ ap parsed (kept_units-filter (is_kept include_sei) n n r (stream eof) ends (omega arith))
    ∙ ap
        (λ (o : List Bytes × Option Error).
          (map parse_header (filter (is_kept include_sei) o.0), some (stream eof)))
        all
    ∙ ap (λ (l : List Nal). (l, some (stream eof)))
        (map-filter_same parse_header described (is_kept include_sei) (is_wanted include_sei)
          (nal ∷ nals units) (every_described include_sei (nal ∷ nals units) bytes))
