-- ===== src/IvfWriter/Tests.antt =====
-- The theorems on IVF files at concrete inputs.
use format.Prelude.{
  ℕ, ◌≡◌, refl, arith, Bool, true, false, List, [], ◌∷◌, ◌++◌, map, Bytes, none, some, ok,
}
use format.Prelude.Io.{Source, write}
use format.IvfReader.{Reader}
use format.IvfReader
use format.IvfWriter.{Depacketizers, Packet, Output, vp8, header_with, new_with}
use format.IvfWriter.Codecs.{W, close}
use format.IvfWriter.Frames.{Frame, frames_bytes, given, read_frames}
use format.IvfWriter.Header.{header_of, reader_of}
use format.IvfWriter.Files.{IsValid}
use format.IvfWriter.Files.Gate.{has_key}
use format.IvfWriter.Files.Closed.{run, run-new_with-IsValid, close-read}

-- A VP8 packet whose first byte is the flag `S`.
abbrev parts : Depacketizers
parts = record {
  Av1 = Unit;
  new_av1 = tt;
  unmarshal_vp8 = λ p. elim p [ [] ↦ none | s ∷ rest ↦ some (record { payload = rest; s = s }) ];
  unmarshal_vp9 = λ p. none;
  unmarshal_av1 = λ s p. (none, s);
  new_sequence = λ s. false;
  delimiter = 0x12 ∷ 0 ∷ [];
  sequence_header = 1;
}

abbrev file_with : Bytes → Output
file_with bytes = record {
  sink = record { written = bytes; faults = [] };
  seekable = true;
  seek_fails = false;
  close_error = none;
}

abbrev writer_with : Bytes → ℕ → Bool → W parts
writer_with bytes count seen = record {
  output = file_with bytes;
  is_closed = false;
  count = count;
  seen_key_frame = seen;
  codec = vp8;
  timebase_denominator = 30;
  timebase_numerator = 1;
  first_frame_timestamp = 0;
  clock_rate = 90000;
  video_width = 640;
  video_height = 480;
  direct_pts = false;
  current_frame = [];
  av1_depacketizer = none;
}

abbrev tag : Bytes
tag = 0x56 ∷ 0x50 ∷ 0x38 ∷ 0x30 ∷ []

abbrev header : Bytes
header = header_with (writer_with [] 0 false) tag 900

-- A frame in two packets, the key frame's bit clear in its first byte.
abbrev packets : List Packet
packets =
    record { payload = 1 ∷ 2 ∷ []; timestamp = 3000; marker = false }
    ∷ record { payload = 0 ∷ 4 ∷ []; timestamp = 3000; marker = true }
    ∷ []

run-new_with-IsValid_example :
    (tag : Bytes) × IsValid tag (run parts (writer_with header 0 false) packets)
    × ((run parts (writer_with header 0 false) packets).seen_key_frame
        ≡ has_key parts vp8 tt packets)
unfolding new_with write
run-new_with-IsValid_example =
    run-new_with-IsValid parts (file_with []) [] (writer_with header 0 false) packets refl refl refl

abbrev one_frame : List Frame
one_frame = (5, 2 ∷ 4 ∷ []) ∷ []

abbrev written : W parts
written = writer_with (header ++ frames_bytes one_frame) 1 true

abbrev valid : IsValid tag written
valid = (
  refl,
  refl,
  record {
    frames = one_frame;
    written = refl;
    counted = refl;
    timed = (omega arith, tt);
    gate = λ e. absurd (cc e);
  },
)

close-read_example :
    let src : Source = record {
      bytes = (close parts written).1.output.sink.written;
      broken = false;
    } in
    let r = reader_of written (frames_bytes one_frame) false 100 in
    (IvfReader.new_with src 100 ≡ ok (r, header_of written tag 1))
    × ((read_frames 1 r).0 ≡ ok (map (given (reader_of written [] false 100)) one_frame))
close-read_example =
    close-read parts tag written valid 100 false refl refl refl
      (record {
        width_fits = omega arith;
        height_fits = omega arith;
        denominator_fits = omega arith;
        numerator_fits = omega arith;
        denominator_set = refl;
        numerator_set = refl;
        count_fits = omega arith;
      })
      (record { pts_fits = omega arith; size_fits = omega arith; below_max = omega arith }, tt)
