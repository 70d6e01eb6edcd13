-- ===== src/Ogg/Samples.antt =====
-- oggwriter/oggwriter.go: how many samples an Opus packet has.
pub mod Table
use format.Prelude.{
  ℕ, ◌+◌, ◌*◌, ◌/◌, ◌%◌, ◌^◌, bit_and, Bool, true, false, not, [], ◌∷◌, ltb, ◌==◌, if◌then◌else◌,
  Bytes, length, Result, ok, err, ◌>>=◌, ◌>>◌, reject_if,
}
use format.Prelude.Words.{byte_at, shl, shr}
use format.Ogg.Errors.{Error, invalid_opus_packet}

abbrev pub opus_granule_sample_rate : ℕ
opus_granule_sample_rate = 48000

abbrev pub max_opus_packet_samples : ℕ
max_opus_packet_samples = opus_granule_sample_rate * 120 / 1000

abbrev pub opus_packet_frame_count : Bytes → Result Error ℕ
opus_packet_frame_count payload =
    let code = bit_and (byte_at payload 0) 0x03 in
    let frame_count = bit_and (byte_at payload 1) 0x3f in
    if code == 0
    then ok 1
    else if code == 1
    then ok 2
    else if code == 2
    then ok 2
    else if code == 3
    then (reject_if (ltb (length payload) 2) invalid_opus_packet
        >> (reject_if (frame_count == 0) invalid_opus_packet >> ok frame_count))
    else err invalid_opus_packet

abbrev pub opus_samples_per_frame : ℕ → ℕ
opus_samples_per_frame toc =
    let frame_size = bit_and (shr toc 3) 0x03 in
    if not (bit_and toc 0x80 == 0)
    then shl 32 opus_granule_sample_rate (bit_and (shr toc 3) 0x03) / 400
    else if bit_and toc 0x60 == 0x60
    then (if not (bit_and toc 0x08 == 0)
        then opus_granule_sample_rate / 50
        else opus_granule_sample_rate / 100)
    else if frame_size == 3
    then opus_granule_sample_rate * 60 / 1000
    else shl 32 opus_granule_sample_rate frame_size / 100

unfoldable pub opus_packet_sample_count : Bytes → Result Error ℕ
opus_packet_sample_count payload = do
  reject_if (length payload == 0) invalid_opus_packet
  frame_count ← opus_packet_frame_count payload
  let sample_count = opus_samples_per_frame (byte_at payload 0) * frame_count
  reject_if (ltb max_opus_packet_samples sample_count) invalid_opus_packet
  ok sample_count
