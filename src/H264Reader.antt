-- ===== src/H264Reader.antt =====
-- h264reader/h264reader.go: the NAL units of a stream with their headers, without SEI unless it is asked
-- for. A stream is not nil here, and the field PictureOrderCount, always 0, is left out.
pub mod Header
pub mod Tests
use format.Prelude.{ℕ, Bool, true, false, not, ◌||◌, bit_and, ◌==◌, Bytes, Result, ok, err}
use format.Prelude.Words.{byte_at, shr}
use format.Prelude.Io.{Source}
use format.Annexb.{Error, Reader}
use format.Annexb.Kept.{next_kept}

abbrev pub nal_unit_type_sei : ℕ
nal_unit_type_sei = 6

pub record Nal : Type 0 where
  pub forbidden_zero_bit : Bool
  pub ref_idc : ℕ
  pub unit_type : ℕ
  pub bytes : Bytes

-- `newNal` and `parseHeader`.
unfoldable pub parse_header : Bytes → Nal
parse_header bytes =
    let first_byte = byte_at bytes 0 in
    record {
      forbidden_zero_bit = shr (bit_and first_byte 0x80) 7 == 1;
      ref_idc = shr (bit_and first_byte 0x60) 5;
      unit_type = shr (bit_and first_byte 0x1F) 0;
      bytes = bytes;
    }

-- What `NextNAL` does not skip.
unfoldable pub is_kept : Bool → Bytes → Bool
unfolding parse_header
is_kept include_sei bytes = include_sei || not ((parse_header bytes).unit_type == nal_unit_type_sei)

-- `NextNAL`
unfoldable pub next_nal : Bool → Reader → Result Error Nal × Reader
unfolding is_kept next_kept
next_nal include_sei r =
    let (unit, r') = next_kept (is_kept include_sei) r in
    (elim unit [ ok bytes ↦ ok (parse_header bytes) | err e ↦ err e ], r')
