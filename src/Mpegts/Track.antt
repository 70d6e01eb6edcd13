-- ===== src/Mpegts/Track.antt =====
-- mpegts/track.go: codecs, tracks and stream types.
use format.Prelude.{ℕ, Bool, true, false, ◌≡◌, refl, ◌==◌, if◌then◌else◌}

pub data Codec : Type 0 where
  unknown h264 h265 : Codec

pub record Track : Type 0 where
  pub pid : ℕ
  pub codec : Codec

abbrev pub codec_eq : Codec → Codec → Bool
codec_eq unknown unknown = true
codec_eq h264 h264 = true
codec_eq h265 h265 = true
codec_eq _ _ = false

unfoldable pub codec_from_stream_type : ℕ → Codec
codec_from_stream_type st = if st == 0x1B then h264 else if st == 0x24 then h265 else unknown

unfoldable pub stream_type_from_codec : Codec → ℕ
stream_type_from_codec h264 = 0x1B
stream_type_from_codec h265 = 0x24
stream_type_from_codec unknown = 0

pub codec_from_stream_type-stream_type_from_codec :
    (c : Codec) → codec_from_stream_type (stream_type_from_codec c) ≡ c
unfolding codec_from_stream_type stream_type_from_codec
codec_from_stream_type-stream_type_from_codec unknown = refl
codec_from_stream_type-stream_type_from_codec h264 = refl
codec_from_stream_type-stream_type_from_codec h265 = refl
