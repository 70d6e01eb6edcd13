-- ===== src/Mpegts/Pes/RoundTrip.antt =====
-- mpegts/pes.go: writing the header of a PES packet, and reading it.
use format.Prelude.{
  ℕ, ◌<◌, ◌≡◌, arith, true, false, not, [], ◌∷◌, ◌++◌, ◌==◌, Bytes, length, ok, if◌then◌else◌,
  Bool-cases, inl, inr, le→ltb,
}
use format.Prelude.Int.{ℤ}
use format.Mpegts.Pes.Timestamp.{
  masked, masked-lt, timestamp_wrap, timestamp_bytes, append_timestamp,
  parse_timestamp-timestamp_bytes,
}
use format.Mpegts.Pes.{PesHeader, parse_pes_header, append_pes_header}

-- The header that a reader gets: the DTS only where it differs from the PTS.
abbrev pub visible : ℕ → ℤ → ℤ → PesHeader
visible stream_id pts dts =
    let same = masked pts == masked dts in
    record {
      stream_id = stream_id;
      packet_length = 0;
      header_length = if same then 14 else 19;
      has_pts = true;
      has_dts = not same;
      pts = masked pts;
      dts = if same then 0 else masked dts;
    }

-- The header is as long as its reader will say, 14 bytes or 19.
pub length-append_pes_header :
    (stream_id : ℕ) (pts dts : ℤ)
    → length (append_pes_header [] stream_id pts dts) ≡ (visible stream_id pts dts).header_length
unfolding append_pes_header append_timestamp
length-append_pes_header stream_id pts dts = ground arith

module _ (stream_id t u : ℕ) (rest : Bytes) (ht : t < timestamp_wrap)
    (hu : u < timestamp_wrap) where
  one : Bytes
  one = 0 ∷ 0 ∷ 1 ∷ stream_id ∷ 0 ∷ 0 ∷ 0x84 ∷ 0x80 ∷ 5 ∷ (timestamp_bytes 2 t ++ rest)

  two : Bytes
  two =
      0
      ∷ 0
      ∷ 1
      ∷ stream_id
      ∷ 0
      ∷ 0
      ∷ 0x84
      ∷ 0xC0
      ∷ 10
      ∷ (timestamp_bytes 3 t ++ (timestamp_bytes 1 u ++ rest))

  parse_one :
      parse_pes_header one
      ≡ ok (record {
        stream_id = stream_id;
        packet_length = 0;
        header_length = 14;
        has_pts = true;
        has_dts = false;
        pts = t;
        dts = 0;
      })
  unfolding one parse_pes_header
  parse_one = rw (
    le→ltb (length one) 9 (omega arith),
    le→ltb (length one) 14 (omega arith),
    parse_timestamp-timestamp_bytes 2 t (omega arith) ht,
  )

  parse_two :
      parse_pes_header two
      ≡ ok (record {
        stream_id = stream_id;
        packet_length = 0;
        header_length = 19;
        has_pts = true;
        has_dts = true;
        pts = t;
        dts = u;
      })
  unfolding two parse_pes_header
  parse_two = rw (
    le→ltb (length two) 9 (omega arith),
    le→ltb (length two) 19 (omega arith),
    parse_timestamp-timestamp_bytes 3 t (omega arith) ht,
    parse_timestamp-timestamp_bytes 1 u (omega arith) hu,
  )

-- For every pair of timestamps, negative ones included, the header written in front of any bytes is read
-- back: the PTS modulo 2^33, and a DTS modulo 2^33 where it differs from that; the announced length is
-- that of the bytes written, 14 or 19.
pub parse_pes_header-append_pes_header :
    (stream_id : ℕ) (pts dts : ℤ) (rest : Bytes)
    → parse_pes_header (append_pes_header [] stream_id pts dts ++ rest)
      ≡ ok (visible stream_id pts dts)
unfolding append_pes_header append_timestamp one two
parse_pes_header-append_pes_header stream_id pts dts rest =
    elim (Bool-cases (masked pts == masked dts)) [
      | inl same ↦
          rw same
            (parse_one stream_id (masked pts) (masked dts) rest (masked-lt pts) (masked-lt dts))
      | inr differ ↦
          rw differ
            (parse_two stream_id (masked pts) (masked dts) rest (masked-lt pts) (masked-lt dts))
    ]
