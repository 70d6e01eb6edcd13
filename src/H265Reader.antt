-- ===== src/H265Reader.antt =====
-- h265reader/h265reader.go: the NAL units of a stream with their headers, without SEI unless it is asked
-- for. A stream is not nil here, and the field PictureOrderCount, always 0, is left out.
pub mod Header
pub mod Tests
use format.Prelude.{
  ℕ, Bool, true, false, not, ◌||◌, bit_and, bit_or, ltb, ◌==◌, if◌then◌else◌, Bytes, length, Result,
  ok, err,
}
use format.Prelude.Words.{byte_at, shl, shr}
use format.Prelude.Io.{Source}
use format.Annexb.{Error, Reader}
use format.Annexb.Kept.{next_kept}

abbrev pub nal_unit_type_trail_n : ℕ
nal_unit_type_trail_n = 0

abbrev pub nal_unit_type_prefix_sei : ℕ
nal_unit_type_prefix_sei = 39

abbrev pub nal_unit_type_suffix_sei : ℕ
nal_unit_type_suffix_sei = 40

pub record Nal : Type 0 where
  pub forbidden_zero_bit : Bool
  pub nal_unit_type : ℕ
  pub layer_id : ℕ
  pub temporal_id_plus_1 : ℕ
  pub bytes : Bytes

-- `newNal`
abbrev pub new_nal : Bytes → Nal
new_nal bytes = record {
  forbidden_zero_bit = false;
  nal_unit_type = nal_unit_type_trail_n;
  layer_id = 0;
  temporal_id_plus_1 = 0;
  bytes = bytes;
}

-- `newNal` and `parseHeader`, which leaves a unit of one byte as it is.
unfoldable pub parse_header : Bytes → Nal
parse_header bytes =
    let first_byte = byte_at bytes 0 in
    let second_byte = byte_at bytes 1 in
    if ltb (length bytes) 2 then new_nal bytes else record {
      forbidden_zero_bit = not (bit_and first_byte 0x80 == 0);
      nal_unit_type = shr (bit_and first_byte 0x7E) 1;
      layer_id = bit_or (shl 8 (bit_and first_byte 0x01) 5) (shr (bit_and second_byte 0xF8) 3);
      temporal_id_plus_1 = bit_and second_byte 0x07;
      bytes = bytes;
    }

-- What `NextNAL` does not skip.
unfoldable pub is_kept : Bool → Bytes → Bool
unfolding parse_header
is_kept include_sei bytes =
    let t = (parse_header bytes).nal_unit_type in
    include_sei || not (t == nal_unit_type_prefix_sei || t == nal_unit_type_suffix_sei)

-- `NextNAL`
unfoldable pub next_nal : Bool → Reader → Result Error Nal × Reader
unfolding is_kept next_kept
next_nal include_sei r =
    let (unit, r') = next_kept (is_kept include_sei) r in
    (elim unit [ ok bytes ↦ ok (parse_header bytes) | err e ↦ err e ], r')
