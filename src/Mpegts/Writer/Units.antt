-- ===== src/Mpegts/Writer/Units.antt =====
-- mpegts/writer.go: one access unit, with the tables in front of it when they are due.
use format.Prelude.{
  ℕ, ◌*◌, ◌^◌, ◌%◌, Bool, true, not, ◌&&◌, none, some, List, [], ◌∷◌, ltb, ◌==◌, if◌then◌else◌,
  Bytes, length, Result, ok, err,
}
use format.Prelude.Int.{ℤ, pos, ◌-ℤ◌, ltb_ℤ, pos_part}
use format.Mpegts.Packet.{pid_pat}
use format.Mpegts.Nal.{
  h264_starts_with_aud, h265_starts_with_aud, h264_is_random_access, h265_is_random_access,
  aud_h264, aud_h265,
}
use format.Mpegts.Pes.{append_pes_header}
use format.Mpegts.Track.{Codec, h264, h265, codec_eq}
use format.Mpegts.Writer.{Writer, by_pid, writer_pmt_pid, write_section}
use format.Mpegts.Writer.Pes.{PesJob, write_pes}
use format.Mpegts.Errors.{Error, unknown_pid, codec_mismatch, empty_access_unit}

abbrev pub psi_interval_ticks : ℕ
psi_interval_ticks = 9000

abbrev pub pcr_delay_ticks : ℕ
pcr_delay_ticks = 63000

abbrev pub stream_id_video : ℕ
stream_id_video = 0xE0

-- Two steps, the second only where the first has no error.
infixl 5 ◌then_do◌
abbrev pub ◌then_do◌ :
    Result Error (Unit {0}) × Writer
    → (Writer → Result Error (Unit {0}) × Writer)
    → Result Error (Unit {0}) × Writer
◌then_do◌ (ok u, w) k = k w
◌then_do◌ (err e, w) k = (err e, w)

-- The test in front of `maybeWritePSI`: the tables are recent enough. The timestamps are taken to be so
-- far from the ends of int64 that their difference does not wrap.
unfoldable pub psi_recent : Writer → ℤ → Bool
unfolding ◌-ℤ◌
psi_recent w dts =
    w.psi_written
    && (not (ltb_ℤ dts w.last_psi_dts) && ltb_ℤ (dts -ℤ w.last_psi_dts) (pos psi_interval_ticks))

unfoldable pub maybe_write_psi : Writer → ℤ → Result Error (Unit {0}) × Writer
unfolding psi_recent write_section
maybe_write_psi w dts =
    if psi_recent w dts
    then (ok tt, w)
    else (write_section w pid_pat w.pat_raw
        then_do (λ w'. write_section w' writer_pmt_pid w'.pmt_raw)
        then_do (λ w'. (ok tt, record w' { psi_written = true; last_psi_dts = dts })))

-- `max(dts-pcrDelayTicks, 0) * 300`, as a uint64.
unfoldable pub pcr_value : ℤ → ℕ
unfolding ◌-ℤ◌
pcr_value dts = pos_part (dts -ℤ pos pcr_delay_ticks) * 300 % 2 ^ 64

abbrev pub segments : ℤ → ℤ → Bytes → Bytes → List Bytes
segments pts dts aud access_unit =
    append_pes_header [] stream_id_video pts dts
    ∷ (if length aud == 0 then access_unit ∷ [] else aud ∷ access_unit ∷ [])

abbrev pub job_of : Writer → ℕ → Bool → ℤ → PesJob
job_of w pid random_access dts = record {
  pid = pid;
  rai = random_access;
  with_pcr = pid == w.pcr_pid;
  pcr = if pid == w.pcr_pid then pcr_value dts else 0;
}

-- `aud` is empty for the nil slice.
unfoldable pub write_access_unit :
    Writer → ℕ → Codec → ℤ → ℤ → Bytes → Bytes → Bool → Result Error (Unit {0}) × Writer
unfolding by_pid maybe_write_psi write_pes pcr_value
write_access_unit w pid codec pts dts aud access_unit random_access = elim (by_pid pid w.tracks) [
  | none ↦ (err unknown_pid, w)
  | some track ↦
      if not (codec_eq track.codec codec)
      then (err codec_mismatch, w)
      else if length access_unit == 0
      then (err empty_access_unit, w)
      else (maybe_write_psi w dts then_do (λ w'.
          write_pes (job_of w' pid random_access dts) (segments pts dts aud access_unit) w'))
]

unfoldable pub write_h264 : Writer → ℕ → ℤ → ℤ → Bytes → Result Error (Unit {0}) × Writer
unfolding write_access_unit h264_starts_with_aud h264_is_random_access
write_h264 w pid pts dts access_unit =
    let aud =
      if ltb 0 (length access_unit) && not (h264_starts_with_aud access_unit)
      then aud_h264
      else [] in
    write_access_unit w pid h264 pts dts aud access_unit (h264_is_random_access access_unit)

unfoldable pub write_h265 : Writer → ℕ → ℤ → ℤ → Bytes → Result Error (Unit {0}) × Writer
unfolding write_access_unit h265_starts_with_aud h265_is_random_access
write_h265 w pid pts dts access_unit =
    let aud =
      if ltb 0 (length access_unit) && not (h265_starts_with_aud access_unit)
      then aud_h265
      else [] in
    write_access_unit w pid h265 pts dts aud access_unit (h265_is_random_access access_unit)
