-- ===== src/IvfReader.antt =====
-- ivfreader/ivfreader.go: the header of an IVF file and its frames. A stream is not nil here, and
-- `ResetReader` puts another stream in the field `src`.
pub mod Frames
pub mod Tests
use format.Prelude.{
  ℕ, zero, suc, ◌+◌, ◌-◌, ◌*◌, ◌/◌, ◌%◌, ◌^◌, Bool, true, false, not, ◌&&◌, ◌||◌, List, [], ◌∷◌,
  ltb, ◌==◌, if◌then◌else◌, Bytes, length, take, drop, Result, ok, err,
}
use format.Prelude.Words.{byte_at}
use format.Prelude.Io.{IoError, eof, unexpected_eof, fault, Source, read_full, le_16, le_32, le_64}

pub data Error : Type 0 where
  frame_too_large incomplete_frame_header incomplete_frame_data : Error
  incomplete_file_header signature_mismatch unknown_version invalid_media_timebase : Error
  stream : IoError → Error

abbrev pub file_header_size : ℕ
file_header_size = 32

abbrev pub frame_header_size : ℕ
frame_header_size = 12

pub record FileHeader : Type 0 where
  pub signature : Bytes
  pub version : ℕ
  pub header_size : ℕ
  pub four_cc : Bytes
  pub width : ℕ
  pub height : ℕ
  pub timebase_denominator : ℕ
  pub timebase_numerator : ℕ
  pub num_frames : ℕ
  pub unused : ℕ

pub record FrameHeader : Type 0 where
  pub frame_size : ℕ
  pub timestamp : ℕ

pub record Reader : Type 0 where
  pub src : Source
  pub bytes_read : ℕ
  pub timebase_denominator : ℕ
  pub timebase_numerator : ℕ
  pub max_frame_size : ℕ

-- The error of a read in full; `cut` is for one that ends inside.
abbrev pub read_error : Error → IoError → Error
read_error cut unexpected_eof = cut
read_error cut e = stream e

-- `DKIF`
abbrev pub is_signature : Bytes → Bool
is_signature bs =
    byte_at bs 0 == 0x44 && (byte_at bs 1 == 0x4B && (byte_at bs 2 == 0x49 && byte_at bs 3 == 0x46))

abbrev pub header_at : Bytes → FileHeader
header_at buf =
    let at = byte_at buf in
    record {
      signature = take 4 buf;
      version = le_16 (at 4) (at 5);
      header_size = le_16 (at 6) (at 7);
      four_cc = take 4 (drop 8 buf);
      width = le_16 (at 12) (at 13);
      height = le_16 (at 14) (at 15);
      timebase_denominator = le_32 (at 16) (at 17) (at 18) (at 19);
      timebase_numerator = le_32 (at 20) (at 21) (at 22) (at 23);
      num_frames = le_32 (at 24) (at 25) (at 26) (at 27);
      unused = le_32 (at 28) (at 29) (at 30) (at 31);
    }

-- `parseFileHeader`
unfoldable pub parse_file_header : Reader → Result Error FileHeader × Reader
unfolding read_full
parse_file_header r =
    let (buf, src) = read_full file_header_size r.src in
    let r' = record r { src = src } in
    elim buf [
      | err e ↦ (err (read_error incomplete_file_header e), r')
      | ok bytes ↦
          let header = header_at bytes in
          if not (is_signature bytes)
          then (err signature_mismatch, r')
          else if not (header.version == 0)
          then (err unknown_version, r')
          else (ok header, record r' { bytes_read = r.bytes_read + file_header_size })
    ]

-- `NewWith` behind the options, which only set the maximum.
unfoldable pub new_with : Source → ℕ → Result Error (Reader × FileHeader)
unfolding parse_file_header
new_with src max_frame_size =
    let start : Reader = record {
      src = src;
      bytes_read = 0;
      timebase_denominator = 0;
      timebase_numerator = 0;
      max_frame_size = max_frame_size;
    } in
    let (parsed, r) = parse_file_header start in
    elim parsed [
      | err e ↦ err e
      | ok header ↦
          if header.timebase_denominator == 0 || header.timebase_numerator == 0
          then err invalid_media_timebase
          else ok (
            record r {
              timebase_denominator = header.timebase_denominator;
              timebase_numerator = header.timebase_numerator;
            },
            header,
          )
    ]

-- `ptsToTimestamp` on uint64; the numerator is not 0.
abbrev pub pts_to_timestamp : Reader → ℕ → ℕ
pts_to_timestamp r pts = pts * r.timebase_denominator % 2 ^ 64 / r.timebase_numerator

abbrev pub frame_header_at : Reader → Bytes → FrameHeader
frame_header_at r buf =
    let at = byte_at buf in
    record {
      frame_size = le_32 (at 0) (at 1) (at 2) (at 3);
      timestamp =
          pts_to_timestamp r (le_64 (at 4) (at 5) (at 6) (at 7) (at 8) (at 9) (at 10) (at 11));
    }

-- The payload of a frame behind its header.
abbrev pub read_frame_payload :
    Reader → FrameHeader → Source → Result Error (Bytes × FrameHeader) × Reader
read_frame_payload r header src =
    let (buf, src') = read_full header.frame_size src in
    elim buf [
      | err e ↦ (err (read_error incomplete_frame_data e), record r { src = src' })
      | ok payload ↦ (
        ok (payload, header),
        record r {
          src = src';
          bytes_read = r.bytes_read + (frame_header_size + header.frame_size);
        },
      )
    ]

-- `ParseNextFrame`
unfoldable pub parse_next_frame : Reader → Result Error (Bytes × FrameHeader) × Reader
unfolding read_full
parse_next_frame r =
    let (buf, src) = read_full frame_header_size r.src in
    elim buf [
      | err e ↦ (err (read_error incomplete_frame_header e), record r { src = src })
      | ok bytes ↦
          let header = frame_header_at r bytes in
          if ltb r.max_frame_size header.frame_size || ltb (2 ^ 63 - 1) header.frame_size
          then (err frame_too_large, record r { src = src })
          else read_frame_payload r header src
    ]
