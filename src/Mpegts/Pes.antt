-- ===== src/Mpegts/Pes.antt =====
-- mpegts/pes.go: the header of a PES packet and its timestamps. A timestamp that is written is an
-- `int64`, here ℤ; one that is read is never negative.
pub mod Timestamp
pub mod RoundTrip
use format.Prelude.{
  ℕ, zero, suc, ◌+◌, ◌-◌, ◌*◌, ◌/◌, ◌%◌, ◌^◌, Bool, true, false, List, [], ◌∷◌, ◌++◌, bit_and,
  bit_or, not, ◌||◌, ltb, ◌==◌, if◌then◌else◌, Bytes, length, slice, Result, ok, err, ◌>>=◌, ◌>>◌,
  reject_if,
}
use format.Prelude.Int.{ℤ}
use format.Prelude.Words.{byte_at, shr}
use format.Mpegts.Pes.Timestamp.{masked, append_timestamp, parse_timestamp}
use format.Mpegts.Errors.{Error, pes_truncated, pes_start_code, pes_marker_bits}

pub record PesHeader : Type 0 where
  pub stream_id : ℕ
  pub packet_length : ℕ
  pub header_length : ℕ
  pub has_pts : Bool
  pub has_dts : Bool
  pub pts : ℕ
  pub dts : ℕ

unfoldable pub parse_pes_header : Bytes → Result Error PesHeader
parse_pes_header buf = do
  reject_if (ltb (length buf) 9) pes_truncated
  reject_if (not (byte_at buf 0 == 0) || not (byte_at buf 1 == 0) || not (byte_at buf 2 == 1))
      pes_start_code
  reject_if (not (bit_and (byte_at buf 6) 0xC0 == 0x80)) pes_marker_bits
  let flags = shr (byte_at buf 7) 6
  let plain : PesHeader = record {
    stream_id = byte_at buf 3;
    packet_length = bit_or (byte_at buf 4 * 2 ^ 8) (byte_at buf 5);
    header_length = 9 + byte_at buf 8;
    has_pts = false;
    has_dts = false;
    pts = 0;
    dts = 0;
  }
  reject_if (ltb (length buf) plain.header_length) pes_truncated
  let pts = parse_timestamp (slice buf 9 14)
  let dts = parse_timestamp (slice buf 14 19)
  if flags == 0b10
      then (if ltb (byte_at buf 8) 5
          then err pes_truncated
          else ok (record plain { has_pts = true; pts = pts }))
      else if flags == 0b11
      then (if ltb (byte_at buf 8) 10
          then err pes_truncated
          else ok (record plain { has_pts = true; has_dts = true; pts = pts; dts = dts }))
      else ok plain

unfoldable pub append_pes_header : Bytes → ℕ → ℤ → ℤ → Bytes
append_pes_header dst stream_id pts dts =
    let pts' = masked pts in
    let dts' = masked dts in
    let start = dst ++ (0x00 ∷ 0x00 ∷ 0x01 ∷ stream_id ∷ 0x00 ∷ 0x00 ∷ []) in
    if pts' == dts'
    then append_timestamp (start ++ (0x84 ∷ 0x80 ∷ 5 ∷ [])) 0b0010 pts'
    else append_timestamp (append_timestamp (start ++ (0x84 ∷ 0xC0 ∷ 10 ∷ [])) 0b0011 pts') 0b0001
        dts'
