-- ===== src/Ogg/Errors.antt =====
-- oggwriter/oggwriter.go: the errors of the writers; `depacketizer` stands for one of the codecs
-- package, and `stream` for one of the output.
use format.Prelude.Io.{IoError}

pub data Error : Type 0 where
  file_not_opened output_not_opened invalid_nil_packet duplicate_track_ssrc : Error
  duplicate_track_serial tracks_started packet_ssrc_mismatch invalid_opus_packet : Error
  invalid_channel_count invalid_channel_map invalid_opus_tags depacketizer : Error
  stream : IoError → Error
