-- ===== src/Mpegts/Errors.antt =====
-- The errors of the package mpegts (the `err...` variables of its files), with those of the streams;
-- `out_of_fuel` is the model's own, for a loop that has no rounds left.
use format.Prelude.Io.{IoError}

pub data Error : Type 0 where
  section_truncated section_crc section_multipart section_too_long : Error
  not_pat not_pmt pmt_truncated : Error
  short_packet invalid_sync_byte invalid_afc : Error
  adaptation_truncated adaptation_too_long : Error
  pes_truncated pes_start_code pes_marker_bits : Error
  out_of_fuel : Error
  no_usable_program invalid_max_au_size : Error
  no_tracks pid_in_use invalid_pid unknown_pid codec_mismatch empty_access_unit psi_too_large :
      Error
  stream : IoError → Error
