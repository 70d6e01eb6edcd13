-- ===== src/IvfReader/Tests.antt =====
-- The theorems on IVF frames at concrete inputs.
use format.Prelude.{ℕ, ◌+◌, ◌≤◌, ◌≡◌, refl, false, [], ◌∷◌, Bytes, length}
use format.Prelude.Io.{read_full}
use format.IvfReader.{incomplete_frame_data, Reader, FrameHeader, parse_next_frame}
use format.IvfReader.Frames.{parse_next_frame-count, parse_next_frame-failed}

abbrev reader_on : Bytes → ℕ → Reader
reader_on bytes count = record {
  src = record { bytes = bytes; broken = false };
  bytes_read = count;
  timebase_denominator = 30;
  timebase_numerator = 1;
  max_frame_size = 1000;
}

abbrev a_frame : Bytes
a_frame = 2 ∷ 0 ∷ 0 ∷ 0 ∷ 5 ∷ 0 ∷ 0 ∷ 0 ∷ 0 ∷ 0 ∷ 0 ∷ 0 ∷ 0xAA ∷ 0xBB ∷ 0xCC ∷ []

abbrev two_bytes : Bytes
two_bytes = 0xAA ∷ 0xBB ∷ []

abbrev its_header : FrameHeader
its_header = record { frame_size = 2; timestamp = 150 }

parse_next_frame-count_example :
    (length two_bytes ≡ its_header.frame_size)
    × (its_header.frame_size ≤ 1000)
    × ((reader_on (0xCC ∷ []) 46).bytes_read ≡ 32 + (12 + length two_bytes))
    × (length (reader_on (0xCC ∷ []) 46).src.bytes + (12 + length two_bytes) ≡ length a_frame)
unfolding parse_next_frame read_full
parse_next_frame-count_example =
    parse_next_frame-count (reader_on a_frame 32) two_bytes its_header (reader_on (0xCC ∷ []) 46)
      refl

abbrev cut_frame : Bytes
cut_frame = 2 ∷ 0 ∷ 0 ∷ 0 ∷ 5 ∷ 0 ∷ 0 ∷ 0 ∷ 0 ∷ 0 ∷ 0 ∷ 0 ∷ 0xAA ∷ []

parse_next_frame-failed_example : (reader_on [] 32).bytes_read ≡ 32
unfolding parse_next_frame read_full
parse_next_frame-failed_example =
    parse_next_frame-failed (reader_on cut_frame 32) incomplete_frame_data (reader_on [] 32) refl
