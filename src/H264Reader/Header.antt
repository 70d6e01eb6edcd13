-- ===== src/H264Reader/Header.antt =====
-- The header byte of an H.264 NAL unit, and the units of a whole stream.
use format.Prelude.{
  ℕ, zero, suc, ◌+◌, ◌*◌, ◌<◌, ◌≡◌, refl, ap, ◌∙◌, arith, Bool, List, [], ◌∷◌, map, Result, ok, err,
  Bytes, length, Option, none, some, bit, bit_and, ◌==◌, ◌/◌, ◌%◌, ◌||◌, not, All,
}
use format.Prelude.Bits.{agree_below, agree_below→eq}
use format.Prelude.Words.{IsByte, IsBytes, byte_at, byte_at-IsByte, shr}
use format.Prelude.Io.{eof}
use format.Annexb.{Error, stream, Reader, new_reader}
use format.Annexb.Split.{IsUnit, from}
use format.Annexb.Nals.{annex_b, nals, AllUnits, next_units, next_units-annex_b}
use format.Annexb.Kept.{filter, next_kept, kept_units, kept_units-filter, map-filter_same}
use format.H264Reader.{Nal, parse_header, is_kept, next_nal}

fields_of : ℕ → ℕ
fields_of b =
    bit (shr (bit_and b 0x80) 7 == 1) 128 + shr (bit_and b 0x60) 5 * 32 + shr (bit_and b 0x1F) 0

fields_of-byte : (b : ℕ) → b < 256 → fields_of b ≡ b
unfolding agree_below fields_of
fields_of-byte = agree_below→eq fields_of (λ b. b) 256 refl

-- The header fields of a unit make up its first byte: the forbidden bit is bit 7, the reference count
-- bits 6 and 5, the type the other five. The first byte is below 256.
pub header_byte :
    (b : ℕ) (rest : Bytes)
    → IsByte b
    → let nal = parse_header (b ∷ rest) in
      bit nal.forbidden_zero_bit 128 + nal.ref_idc * 32 + nal.unit_type ≡ b
unfolding parse_header fields_of
header_byte b rest h = fields_of-byte b h

-- A unit by the layout of its first byte: one bit that is to be zero, two bits of reference, five of type.
abbrev pub described : Bytes → Nal
described bytes =
    let b = byte_at bytes 0 in
    record {
      forbidden_zero_bit = b / 128 == 1;
      ref_idc = b / 32 % 4;
      unit_type = b % 32;
      bytes = bytes;
    }

-- Whether a unit is asked for: type 6 is supplemental enhancement information.
abbrev pub is_wanted : Bool → Bytes → Bool
is_wanted include_sei bytes = include_sei || not (byte_at bytes 0 % 32 == 6)

forbidden_is : (b : ℕ) → b < 256 → shr (bit_and b 0x80) 7 ≡ b / 128
unfolding agree_below
forbidden_is = agree_below→eq (λ b. shr (bit_and b 0x80) 7) (λ b. b / 128) 256 refl

ref_idc_is : (b : ℕ) → b < 256 → shr (bit_and b 0x60) 5 ≡ b / 32 % 4
unfolding agree_below
ref_idc_is = agree_below→eq (λ b. shr (bit_and b 0x60) 5) (λ b. b / 32 % 4) 256 refl

unit_type_is : (b : ℕ) → b < 256 → shr (bit_and b 0x1F) 0 ≡ b % 32
unfolding agree_below
unit_type_is = agree_below→eq (λ b. shr (bit_and b 0x1F) 0) (λ b. b % 32) 256 refl

parse_header-described : (bytes : Bytes) → IsBytes bytes → parse_header bytes ≡ described bytes
unfolding parse_header
parse_header-described bytes h =
    let small : byte_at bytes 0 < 256 = byte_at-IsByte bytes 0 h in
    rw (forbidden_is _ small, ref_idc_is _ small, unit_type_is _ small) refl

is_kept-is_wanted :
    (include_sei : Bool) (bytes : Bytes)
    → IsBytes bytes
    → is_kept include_sei bytes ≡ is_wanted include_sei bytes
unfolding is_kept
is_kept-is_wanted include_sei bytes h =
    ap (λ (n : Nal). include_sei || not (n.unit_type == 6)) (parse_header-described bytes h)

every_described :
    (include_sei : Bool) (us : List Bytes)
    → All IsBytes us
    → All
        (λ u. (parse_header u ≡ described u) × (is_kept include_sei u ≡ is_wanted include_sei u))
        us
every_described include_sei [] h = tt
every_described include_sei (u ∷ us) (h, hs) = (
  (parse_header-described u h, is_kept-is_wanted include_sei u h),
  every_described include_sei us hs,
)

-- `NextNAL` until it fails, at most `fuel` times: the units and the error.
unfoldable pub next_nals : Bool → ℕ → Reader → List Nal × Option Error
next_nals include_sei zero r = ([], none)
next_nals include_sei (suc fuel) r =
    let (nal, r') = next_nal include_sei r in
    let rest = next_nals include_sei fuel r' in
    elim nal [ ok unit ↦ (unit ∷ rest.0, rest.1) | err e ↦ ([], some e) ]

abbrev parsed : List Bytes × Option Error → List Nal × Option Error
parsed out = (map parse_header out.0, out.1)

parsed-step :
    (include_sei : Bool) (fuel : ℕ) (out : Result Error Bytes × Reader)
    → ((r : Reader)
        → next_nals include_sei fuel r ≡ parsed (kept_units (is_kept include_sei) fuel r))
    → ◌≡◌ {A = List Nal × Option Error}
        (elim (elim out.0 as (λ x. Result Error Nal) [
          | ok bytes ↦ ok (parse_header bytes)
          | err e ↦ err e
        ]) [
          | ok unit ↦
              (unit ∷ (next_nals include_sei fuel out.1).0, (next_nals include_sei fuel out.1).1)
          | err e ↦ ([], some e)
        ])
        (parsed (elim out.0 [
          | ok nal ↦ (
            nal ∷ (kept_units (is_kept include_sei) fuel out.1).0,
            (kept_units (is_kept include_sei) fuel out.1).1,
          )
          | err e ↦ ([], some e)
        ]))
parsed-step include_sei fuel (err e, r) h = refl
parsed-step include_sei fuel (ok nal, r) h =
    ap (λ (o : List Nal × Option Error). (parse_header nal ∷ o.0, o.1)) (h r)

next_nals-kept_units :
    (include_sei : Bool) (fuel : ℕ) (r : Reader)
    → next_nals include_sei fuel r ≡ parsed (kept_units (is_kept include_sei) fuel r)
unfolding next_nals next_nal kept_units
next_nals-kept_units include_sei zero r = refl
next_nals-kept_units include_sei (suc fuel) r =
    parsed-step include_sei fuel (next_kept (is_kept include_sei) r)
      (next_nals-kept_units include_sei fuel)

-- On a stream of units of bytes behind start codes, none with a start code inside or a zero at the end,
-- `NextNAL` gives the units in order with the fields of their first bytes, but those of type 6 unless
-- they are asked for, and then `io.EOF`.
pub next_nals-annex_b_h264 :
    (include_sei : Bool) (long : Bool) (nal : Bytes) (units : List (Bool × Bytes))
    → IsUnit nal
    → AllUnits units
    → All IsBytes (nal ∷ nals units)
    → next_nals include_sei
        (suc (suc (length units)))
        (new_reader (from (annex_b ((long, nal) ∷ units))))
      ≡ (map described (filter (is_wanted include_sei) (nal ∷ nals units)), some (stream eof))
next_nals-annex_b_h264 include_sei long nal units u v bytes =
    let all = next_units-annex_b long nal units u v in
    let n : ℕ = suc (suc (length units)) in
    let r : Reader = new_reader (from (annex_b ((long, nal) ∷ units))) in
    let ends : (next_units n r).1 ≡ some (stream eof) =
      ap (λ (o : List Bytes × Option Error). o.1) all in
    next_nals-kept_units include_sei n r
    ∙ ap parsed (kept_units-filter (is_kept include_sei) n n r (stream eof) ends (omega arith))
    ∙ ap
        (λ (o : List Bytes × Option Error).
          (map parse_header (filter (is_kept include_sei) o.0), some (stream eof)))
        all
    ∙ ap (λ (l : List Nal). (l, some (stream eof)))
        (map-filter_same parse_header described (is_kept include_sei) (is_wanted include_sei)
          (nal ∷ nals units) (every_described include_sei (nal ∷ nals units) bytes))
