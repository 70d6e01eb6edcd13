-- ===== src/IvfWriter/Frames.antt =====
-- ivfreader/ivfreader.go on the header and the frames of ivfwriter/ivfwriter.go.
use format.Prelude.{
  ℕ, zero, suc, ◌+◌, ◌-◌, ◌*◌, ◌/◌, ◌%◌, ◌^◌, ◌≤◌, ◌<◌, ◌≡◌, refl, ap, ◌∙◌, arith, Bool, false,
  List, [], ◌∷◌, ◌++◌, ltb, le→ltb, Bytes, length, map, All, Result, ok, err, append_assoc,
  length-append,
}
use format.Prelude.Io.{Source, read_full, read_full-append, le_32-put}
use format.IvfWriter.{frame_header}
use format.IvfReader.Frames.{from_head, from_header, from_body}
use format.IvfReader.{
  Error, Reader, FrameHeader, frame_header_at, parse_next_frame, pts_to_timestamp,
}

-- A frame of a file with its presentation time.
abbrev pub Frame : Type 0
Frame = ℕ × Bytes

abbrev pub frame_bytes : Frame → Bytes
frame_bytes f = frame_header f.1 f.0 ++ f.1

-- The reader on `bytes`, with `n` more bytes read.
abbrev pub on : Reader → Bytes → Bool → ℕ → Reader
on r bytes broken n = record r {
  src = record { bytes = bytes; broken = broken };
  bytes_read = r.bytes_read + n;
}

abbrev pub given : Reader → Frame → Bytes × FrameHeader
given r f = (f.1, record { frame_size = length f.1; timestamp = pts_to_timestamp r f.0 })

pub record Fits (r : Reader) (f : Frame) : Type 0 where
  pub pts_fits : f.0 < 2 ^ 64
  pub size_fits : length f.1 < 2 ^ 32
  pub below_max : length f.1 ≤ r.max_frame_size

frame_header_at-frame_header :
    (r : Reader) (f : Frame) → Fits r f → frame_header_at r (frame_header f.1 f.0) ≡ (given r f).1
frame_header_at-frame_header r f v =
    let low : f.0 % 2 ^ 32 < 2 ^ 32 = omega arith in
    let high : f.0 / 2 ^ 32 < 2 ^ 32 = omega (arith, v.pts_fits) in
    let whole : f.0 % 2 ^ 32 + f.0 / 2 ^ 32 * 2 ^ 32 ≡ f.0 = omega arith in
    rw
      (
        le_32-put (length f.1) v.size_fits,
        le_32-put (f.0 % 2 ^ 32) low,
        le_32-put (f.0 / 2 ^ 32) high,
        whole,
      )
      refl

from_header_small :
    (r : Reader) (h : FrameHeader) (src : Source)
    → ltb r.max_frame_size h.frame_size ≡ false
    → ltb (2 ^ 63 - 1) h.frame_size ≡ false
    → from_header r h src ≡ from_body r h (read_full h.frame_size src)
from_header_small r h src small fits = rw (small, fits) refl

-- A frame that the writer makes is given out by the reader.
pub parse_next_frame-frame_bytes :
    (r : Reader) (f : Frame) (rest : Bytes) (broken : Bool) (n : ℕ)
    → Fits r f
    → parse_next_frame (on r (frame_bytes f ++ rest) broken n)
      ≡ (ok (given r f), on r rest broken (n + (12 + length f.1)))
unfolding parse_next_frame
parse_next_frame-frame_bytes r f rest broken n v =
    let head : Bytes = frame_header f.1 f.0 in
    let first : read_full 12 (record { bytes = head ++ (f.1 ++ rest); broken = broken })
        ≡ (ok head, record { bytes = f.1 ++ rest; broken = broken }) =
      read_full-append 12 head (f.1 ++ rest) broken refl in
    let second : read_full (length f.1) (record { bytes = f.1 ++ rest; broken = broken })
        ≡ (ok f.1, record { bytes = rest; broken = broken }) =
      read_full-append (length f.1) f.1 rest broken refl in
    let small : ltb r.max_frame_size (length f.1) ≡ false = le→ltb _ _ v.below_max in
    let fits : ltb (2 ^ 63 - 1) (length f.1) ≡ false = le→ltb _ _ (omega (arith, v.size_fits)) in
    let r' : Reader = on r (head ++ (f.1 ++ rest)) broken n in
    let src : Source = record { bytes = f.1 ++ rest; broken = broken } in
    let h : FrameHeader = (given r f).1 in
    let sum : r.bytes_read + n + (12 + length f.1) ≡ r.bytes_read + (n + (12 + length f.1)) =
      omega arith in
    ap (λ b. parse_next_frame (on r b broken n)) (append_assoc head f.1 rest)
    ∙ (ap (from_head r') first
        ∙ (ap (λ x. from_header r' x src)
              (frame_header_at-frame_header r' f (record {
                pts_fits = v.pts_fits;
                size_fits = v.size_fits;
                below_max = v.below_max;
              }))
            ∙ (from_header_small r' h src small fits
                ∙ (ap (from_body r' h) second
                    ∙ ap (λ c. (ok (given r f), record (on r rest broken n) { bytes_read = c }))
                        sum))))

-- A client that reads `n` frames.
abbrev pub ReadFrames : Type 0
ReadFrames = Result Error (List (Bytes × FrameHeader)) × Reader

abbrev pub with_frame : Bytes × FrameHeader → ReadFrames → ReadFrames
with_frame f (err e, r) = (err e, r)
with_frame f (ok fs, r) = (ok (f ∷ fs), r)

abbrev pub behind_frame :
    (Reader → ReadFrames) → Result Error (Bytes × FrameHeader) × Reader → ReadFrames
behind_frame more (err e, r) = (err e, r)
behind_frame more (ok f, r) = with_frame f (more r)

unfoldable pub read_frames : ℕ → Reader → ReadFrames
read_frames zero r = (ok [], r)
read_frames (suc n) r = behind_frame (read_frames n) (parse_next_frame r)

abbrev pub frames_bytes : List Frame → Bytes
frames_bytes [] = []
frames_bytes (f ∷ fs) = frame_bytes f ++ frames_bytes fs

-- The frames of a file are read back, each with its time in the reader's timebase.
pub read_frames-frames_bytes :
    (r : Reader) (fs : List Frame) (rest : Bytes) (broken : Bool) (n : ℕ)
    → All (Fits r) fs
    → read_frames (length fs) (on r (frames_bytes fs ++ rest) broken n)
      ≡ (ok (map (given r) fs), on r rest broken (n + length (frames_bytes fs)))
unfolding read_frames
read_frames-frames_bytes r [] rest broken n v = let none : n + 0 ≡ n = omega arith in rw none refl
read_frames-frames_bytes r (f ∷ fs) rest broken n v =
    let one = parse_next_frame-frame_bytes r f (frames_bytes fs ++ rest) broken n v.0 in
    let more = read_frames-frames_bytes r fs rest broken (n + (12 + length f.1)) v.1 in
    let sum : n + (12 + length f.1) + length (frames_bytes fs)
        ≡ n + length (frames_bytes (f ∷ fs)) =
      omega (
        arith,
        length-append (frame_bytes f) (frames_bytes fs),
        length-append (frame_header f.1 f.0) f.1,
      ) in
    ap (λ b. read_frames (suc (length fs)) (on r b broken n))
      (append_assoc (frame_bytes f) (frames_bytes fs) rest)
    ∙ (ap (behind_frame (read_frames (length fs))) one
        ∙ (ap (with_frame (given r f)) more
            ∙ ap (λ m. (ok (map (given r) (f ∷ fs)), on r rest broken m)) sum))
