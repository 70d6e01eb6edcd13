-- ===== src/IvfReader/Frames.antt =====
-- ivfreader/ivfreader.go: `ParseNextFrame`, and the count of bytes that `ResetReader` gives on.
use format.Prelude.{
  ℕ, ◌+◌, ◌-◌, ◌^◌, ◌≤◌, ◌≡◌, refl, sym, ap, ◌∙◌, arith, Bool, true, false, ◌||◌, leb, ltb, leb→le,
  if◌then◌else◌, Bool-cases, inl, inr, Bytes, length, take, drop, length-take, length-drop, Result,
  ok, err, ◌==◌,
}
use format.Prelude.Io.{IoError, eof, fault, unexpected_eof, Source, read_full}
use format.IvfReader.{
  Error, read_error, incomplete_frame_data, incomplete_frame_header, frame_too_large,
  frame_header_size, Reader, FrameHeader, frame_header_at, parse_next_frame,
}

size_of : Result IoError Bytes → ℕ
size_of (ok bytes) = length bytes
size_of (err e) = 0

whole_read :
    (n : ℕ) (src : Source)
    → leb n (length src.bytes) ≡ true
    → read_full n src ≡ (ok (take n src.bytes), record src { bytes = drop n src.bytes })
unfolding read_full
whole_read n src fits = rw (fits, read_full) refl

short_read :
    (n : ℕ) (src : Source)
    → leb n (length src.bytes) ≡ false
    → (read_full n src).0
      ≡ err (if src.broken then fault else if length src.bytes == 0 then eof else unexpected_eof)
unfolding read_full
short_read n src short = rw (short, read_full) refl

-- A read in full takes exactly what it gives.
read_full_takes :
    (n : ℕ) (src src' : Source) (bytes : Bytes)
    → read_full n src ≡ (ok bytes, src')
    → (length bytes ≡ n) × (length src'.bytes + n ≡ length src.bytes)
unfolding size_of
read_full_takes n src src' bytes e = elim (Bool-cases (leb n (length src.bytes))) [
  | inl fits ↦
      let same = sym (whole_read n src fits) ∙ e in
      let size : length (take n src.bytes) ≡ length bytes =
        ap (λ (o : Result IoError Bytes × Source). size_of o.0) same in
      let left : length (drop n src.bytes) ≡ length src'.bytes =
        ap (λ (o : Result IoError Bytes × Source). length o.1.bytes) same in
      let le : n ≤ length src.bytes = leb→le n (length src.bytes) fits in
      (omega (arith, size, length-take n src.bytes), omega (arith, left, length-drop n src.bytes))
  | inr short ↦
      let failed =
        sym (short_read n src short) ∙ ap (λ (o : Result IoError Bytes × Source). o.0) e in
      absurd (cc failed)
]

-- The two stages of `ParseNextFrame`, on what their reads give.
abbrev pub from_body :
    Reader
    → FrameHeader
    → Result IoError Bytes × Source
    → Result Error (Bytes × FrameHeader) × Reader
from_body r header out = elim out.0 [
  | err e ↦ (err (read_error incomplete_frame_data e), record r { src = out.1 })
  | ok payload ↦ (
    ok (payload, header),
    record r { src = out.1; bytes_read = r.bytes_read + (frame_header_size + header.frame_size) },
  )
]

abbrev pub from_header : Reader → FrameHeader → Source → Result Error (Bytes × FrameHeader) × Reader
from_header r header src =
    if ltb r.max_frame_size header.frame_size || ltb (2 ^ 63 - 1) header.frame_size
    then (err frame_too_large, record r { src = src })
    else from_body r header (read_full header.frame_size src)

abbrev pub from_head :
    Reader → Result IoError Bytes × Source → Result Error (Bytes × FrameHeader) × Reader
from_head r out = elim out.0 [
  | err e ↦ (err (read_error incomplete_frame_header e), record r { src = out.1 })
  | ok bytes ↦ from_header r (frame_header_at r bytes) out.1
]

-- What a frame that is given out tells of the bytes behind its header.
record Taken (r : Reader) (left : ℕ) (payload : Bytes) (h : FrameHeader) (r' : Reader)
    : Type 0 where
  size_is : length payload ≡ h.frame_size
  below_max : h.frame_size ≤ r.max_frame_size
  counted : r'.bytes_read ≡ r.bytes_read + (12 + h.frame_size)
  consumed : length r'.src.bytes + h.frame_size ≡ left

body_ok :
    (r : Reader) (header : FrameHeader) (out : Result IoError Bytes × Source) (payload : Bytes)
    (h : FrameHeader) (r' : Reader)
    → from_body r header out ≡ (ok (payload, h), r')
    → (out ≡ (ok payload, r'.src))
      × (header ≡ h)
      × (r'.bytes_read ≡ r.bytes_read + (12 + header.frame_size))
body_ok r header (err x, s) payload h r' e =
    absurd (cc (ap (λ (o : Result Error (Bytes × FrameHeader) × Reader). o.0) e))
body_ok r header (ok b, s) payload h r' e =
    let src_is : s ≡ r'.src = ap (λ (o : Result Error (Bytes × FrameHeader) × Reader). o.1.src) e in
    let bytes_is : b ≡ payload = cc e in
    let header_is : header ≡ h = cc e in
    (
      ap (λ (l : Bytes). (ok l, s)) bytes_is ∙ ap (λ (t : Source). (ok payload, t)) src_is,
      header_is,
      sym (ap (λ (o : Result Error (Bytes × FrameHeader) × Reader). o.1.bytes_read) e),
    )

body_error :
    (r : Reader) (header : FrameHeader) (out : Result IoError Bytes × Source) (x : Error)
    (r' : Reader)
    → from_body r header out ≡ (err x, r')
    → r'.bytes_read ≡ r.bytes_read
body_error r header (err y, s) x r' e =
    sym (ap (λ (o : Result Error (Bytes × FrameHeader) × Reader). o.1.bytes_read) e)
body_error r header (ok b, s) x r' e =
    absurd (cc (ap (λ (o : Result Error (Bytes × FrameHeader) × Reader). o.0) e))

too_large : Reader → FrameHeader → Bool
too_large r header = ltb r.max_frame_size header.frame_size || ltb (2 ^ 63 - 1) header.frame_size

header_ok :
    (r : Reader) (header : FrameHeader) (src : Source) (payload : Bytes) (h : FrameHeader)
    (r' : Reader)
    → from_header r header src ≡ (ok (payload, h), r')
    → Taken r (length src.bytes) payload h r'
unfolding too_large
header_ok r header src payload h r' e = elim (Bool-cases (too_large r header)) [
  | inl large ↦
      absurd (cc (ap (λ (o : Result Error (Bytes × FrameHeader) × Reader). o.0) (rw large at e)))
  | inr fits ↦
      let (read, same, count) =
        body_ok r header (read_full header.frame_size src) payload h r' (rw fits at e) in
      let (size, left) = read_full_takes header.frame_size src r'.src payload read in
      let same_size : header.frame_size ≡ h.frame_size =
        ap (λ (x : FrameHeader). x.frame_size) same in
      let below : header.frame_size ≤ r.max_frame_size = ground arith in
      record {
        size_is = omega (arith, size, same_size);
        below_max = omega (arith, below, same_size);
        counted = omega (arith, count, same_size);
        consumed = omega (arith, left, same_size);
      }
]

header_error :
    (r : Reader) (header : FrameHeader) (src : Source) (x : Error) (r' : Reader)
    → from_header r header src ≡ (err x, r')
    → r'.bytes_read ≡ r.bytes_read
unfolding too_large
header_error r header src x r' e = elim (Bool-cases (too_large r header)) [
  | inl large ↦
      sym (ap (λ (o : Result Error (Bytes × FrameHeader) × Reader). o.1.bytes_read) (rw large at e))
  | inr fits ↦ body_error r header (read_full header.frame_size src) x r' (rw fits at e)
]

head_ok :
    (r : Reader) (out : Result IoError Bytes × Source) (payload : Bytes) (h : FrameHeader)
    (r' : Reader)
    → ((bytes : Bytes) (src : Source)
        → out ≡ (ok bytes, src)
        → length src.bytes + 12 ≡ length r.src.bytes)
    → from_head r out ≡ (ok (payload, h), r')
    → Taken r (length r.src.bytes - 12) payload h r' × (12 ≤ length r.src.bytes)
head_ok r (err x, s) payload h r' took e =
    absurd (cc (ap (λ (o : Result Error (Bytes × FrameHeader) × Reader). o.0) e))
head_ok r (ok bytes, s) payload h r' took e =
    let left : length s.bytes ≡ length r.src.bytes - 12 = omega (arith, took bytes s refl) in
    (
      rw left at (header_ok r (frame_header_at r bytes) s payload h r' e),
      omega (arith, took bytes s refl),
    )

head_error :
    (r : Reader) (out : Result IoError Bytes × Source) (x : Error) (r' : Reader)
    → from_head r out ≡ (err x, r')
    → r'.bytes_read ≡ r.bytes_read
head_error r (err y, s) x r' e =
    sym (ap (λ (o : Result Error (Bytes × FrameHeader) × Reader). o.1.bytes_read) e)
head_error r (ok bytes, s) x r' e = header_error r (frame_header_at r bytes) s x r' e

-- A frame that `ParseNextFrame` gives out is as long as its header says, no longer than the maximum, and
-- the count of bytes moves on by exactly the bytes that the stream has lost: the 12 of the header
-- and the payload's.
pub parse_next_frame-count :
    (r : Reader) (payload : Bytes) (h : FrameHeader) (r' : Reader)
    → parse_next_frame r ≡ (ok (payload, h), r')
    → (length payload ≡ h.frame_size)
      × (h.frame_size ≤ r.max_frame_size)
      × (r'.bytes_read ≡ r.bytes_read + (12 + length payload))
      × (length r'.src.bytes + (12 + length payload) ≡ length r.src.bytes)
unfolding parse_next_frame
parse_next_frame-count r payload h r' e =
    let (taken, enough) =
      head_ok r (read_full 12 r.src) payload h r'
        (λ bytes src read. (read_full_takes 12 r.src src bytes read).1) e in
    (
      taken.size_is,
      taken.below_max,
      omega (arith, taken.counted, taken.size_is),
      omega (arith, taken.consumed, taken.size_is, enough),
    )

-- Where `ParseNextFrame` fails, whatever the error, the count of bytes stays what it was.
pub parse_next_frame-failed :
    (r : Reader) (x : Error) (r' : Reader)
    → parse_next_frame r ≡ (err x, r')
    → r'.bytes_read ≡ r.bytes_read
unfolding parse_next_frame
parse_next_frame-failed r x r' e = head_error r (read_full 12 r.src) x r' e
