-- ===== src/Ogg/OpusHead/RoundTrip.antt =====
-- oggreader/oggreader.go on the OpusHead payload of oggwriter/oggwriter.go.
use format.Prelude.{
  ℕ, ◌+◌, ◌^◌, ◌<◌, ◌≡◌, refl, arith, Bytes, length, take, take-append, ◌∷◌, ◌++◌, ok, ==_iff,
  replicate, ltb, le→ltb, ◌==◌, true, false, if◌then◌else◌, take_all,
}
use format.Prelude.Io.{le_16-put, le_32-put, put_le_16, put_le_32}
use format.Ogg.Channels.{
  ChannelMapping, IsMapping, mono, stereo, vorbis_mono, vorbis_stereo, ambisonics, discrete,
}
use format.Ogg.OpusHead.{OggHeader, build_id_header, parse_opus_head, header_opus_id}

-- What the reader tells of a track with such a mapping; family 0 has no table.
abbrev pub header_of : (pre_skip sample_rate : ℕ) → ChannelMapping → OggHeader
header_of pre_skip sample_rate m = record {
  channel_map = m.family;
  channels = m.channel_count;
  output_gain = 0;
  pre_skip = pre_skip;
  sample_rate = sample_rate;
  version = 1;
  stream_count = if m.family == 0 then 0 else m.stream_count;
  coupled_count = if m.family == 0 then 0 else m.coupled_count;
  channel_mapping = m.mapping;
}

abbrev discrete_header : (pre_skip sample_rate coupled channels : ℕ) → Bytes → Bytes
discrete_header p s coupled n mapping =
    header_opus_id
    ++ 1 ∷ n ∷ (put_le_16 p ++ put_le_32 s ++ put_le_16 0 ++ 255 ∷ 1 ∷ coupled ∷ mapping)

parse-discrete_header :
    (p s coupled : ℕ) (mapping : Bytes)
    → p < 2 ^ 16
    → s < 2 ^ 32
    → let n = length mapping in
      parse_opus_head (discrete_header p s coupled n mapping)
      ≡ ok (
          header_of p s (record {
            family = 255;
            channel_count = n;
            stream_count = 1;
            coupled_count = coupled;
            mapping = mapping;
          }))
unfolding parse_opus_head
parse-discrete_header p s coupled mapping pf sf =
    let n : ℕ = length mapping in
    let header : Bytes = discrete_header p s coupled n mapping in
    let long : ltb (length header) 19 ≡ false = le→ltb _ 19 (omega arith) in
    let signed : ltb (length header) 8 ≡ false = le→ltb _ 8 (omega arith) in
    let size : (length header == (21 + n)) ≡ true = (==_iff _ (21 + n)).1 (omega arith) in
    let table : take (21 + n) header ≡ header = take_all (21 + n) header (omega arith) in
    rw (long, signed, size, table, le_16-put p pf, le_32-put s sf) refl

-- An ID header of a track with a mapping that the writer can have, a pre-skip of 16 bits and a rate of 32
-- bits is read back, field by field.
pub parse_opus_head-build_id_header :
    (pre_skip sample_rate : ℕ) (m : ChannelMapping)
    → pre_skip < 2 ^ 16
    → sample_rate < 2 ^ 32
    → IsMapping m
    → parse_opus_head (build_id_header pre_skip sample_rate m)
      ≡ ok (header_of pre_skip sample_rate m)
unfolding parse_opus_head build_id_header
parse_opus_head-build_id_header p s m pf sf mono = rw (le_16-put p pf, le_32-put s sf) refl
parse_opus_head-build_id_header p s m pf sf stereo = rw (le_16-put p pf, le_32-put s sf) refl
parse_opus_head-build_id_header p s m pf sf vorbis_mono = rw (le_16-put p pf, le_32-put s sf) refl
parse_opus_head-build_id_header p s m pf sf vorbis_stereo = rw (le_16-put p pf, le_32-put s sf) refl
parse_opus_head-build_id_header p s m pf sf ambisonics = rw (le_16-put p pf, le_32-put s sf) refl
parse_opus_head-build_id_header p s m pf sf (discrete coupled mapping c some few entries) =
    let n : ℕ = length mapping in
    let whole : take n (mapping ++ replicate n 0) ≡ mapping =
      take-append n mapping (replicate n 0) refl in
    rw whole (parse-discrete_header p s coupled mapping pf sf)
