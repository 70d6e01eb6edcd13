-- ===== src/IvfWriter/Header.antt =====
-- ivfreader/ivfreader.go on the file header of ivfwriter/ivfwriter.go.
use format.Prelude.{
  ℕ, ◌+◌, ◌^◌, ◌<◌, ◌≡◌, refl, sym, ap, ◌∙◌, Bool, true, false, not, ◌||◌, [], ◌∷◌, ◌++◌, ◌==◌,
  if◌then◌else◌, Bytes, length, some, Result, ok, err,
}
use mathlib.Core.Path.{subst}
use format.Prelude.Io.{IoError, Source, read_full-append, le_16-put, le_32-put}
use format.IvfWriter.{IvfWriter, Codec, unset, vp8, vp9, av1, four_cc, header_with}
use format.IvfReader.{
  Error, Reader, FileHeader, file_header_size, header_at, is_signature, parse_file_header, new_with,
  read_error, incomplete_file_header, signature_mismatch, unknown_version, invalid_media_timebase,
}

-- What the fields of a header hold.
pub record HeaderFits {Av1 : Type 0} (w : IvfWriter Av1) (count : ℕ) : Type 0 where
  pub width_fits : w.video_width < 2 ^ 16
  pub height_fits : w.video_height < 2 ^ 16
  pub denominator_fits : w.timebase_denominator < 2 ^ 32
  pub numerator_fits : w.timebase_numerator < 2 ^ 32
  pub denominator_set : (w.timebase_denominator == 0) ≡ false
  pub numerator_set : (w.timebase_numerator == 0) ≡ false
  pub count_fits : count < 2 ^ 32

abbrev pub header_of : {Av1 : Type 0} → IvfWriter Av1 → Bytes → ℕ → FileHeader
header_of w cc count = record {
  signature = 0x44 ∷ 0x4B ∷ 0x49 ∷ 0x46 ∷ [];
  version = 0;
  header_size = 32;
  four_cc = cc;
  width = w.video_width;
  height = w.video_height;
  timebase_denominator = w.timebase_denominator;
  timebase_numerator = w.timebase_numerator;
  num_frames = count;
  unused = 0;
}

abbrev pub reader_of : {Av1 : Type 0} → IvfWriter Av1 → Bytes → Bool → ℕ → Reader
reader_of w rest broken max_frame_size = record {
  src = record { bytes = rest; broken = broken };
  bytes_read = 32;
  timebase_denominator = w.timebase_denominator;
  timebase_numerator = w.timebase_numerator;
  max_frame_size = max_frame_size;
}

abbrev from_read : Reader → Result IoError Bytes × Source → Result Error FileHeader × Reader
from_read r out = elim out.0 [
  | err e ↦ (err (read_error incomplete_file_header e), record r { src = out.1 })
  | ok bytes ↦
      if not (is_signature bytes)
      then (err signature_mismatch, record r { src = out.1 })
      else if not ((header_at bytes).version == 0)
      then (err unknown_version, record r { src = out.1 })
      else (
        ok (header_at bytes),
        record r { src = out.1; bytes_read = r.bytes_read + file_header_size },
      )
]

abbrev from_parsed : Result Error FileHeader × Reader → Result Error (Reader × FileHeader)
from_parsed out = elim out.0 [
  | err e ↦ err e
  | ok header ↦
      if header.timebase_denominator == 0 || header.timebase_numerator == 0
      then err invalid_media_timebase
      else ok (
        record out.1 {
          timebase_denominator = header.timebase_denominator;
          timebase_numerator = header.timebase_numerator;
        },
        header,
      )
]

from_read_by :
    (r : Reader) (bytes : Bytes) (h : FileHeader) (src : Source)
    → is_signature bytes ≡ true
    → header_at bytes ≡ h
    → h.version ≡ 0
    → from_read r (ok bytes, src)
      ≡ (ok h, record r { src = src; bytes_read = r.bytes_read + file_header_size })
from_read_by r bytes h src signed fields first =
    let version : (header_at bytes).version ≡ 0 =
      ap (λ (x : FileHeader). x.version) fields ∙ first in
    let whole : from_read r (ok bytes, src) ≡ (
      ok (header_at bytes),
      record r { src = src; bytes_read = r.bytes_read + file_header_size },
    ) =
      ap
        (λ b.
          if not b
          then (err signature_mismatch, record r { src = src })
          else if not ((header_at bytes).version == 0)
          then (err unknown_version, record r { src = src })
          else (
            ok (header_at bytes),
            record r { src = src; bytes_read = r.bytes_read + file_header_size },
          ))
        signed
      ∙ ap
          (λ n. if not (n == 0) then (err unknown_version, record r { src = src }) else (
            ok (header_at bytes),
            record r { src = src; bytes_read = r.bytes_read + file_header_size },
          ))
          version in
    whole
    ∙ ap (λ x. (ok x, record r { src = src; bytes_read = r.bytes_read + file_header_size })) fields

-- That a header is read back from its 32 bytes.
record IsRead {Av1 : Type 0} (w : IvfWriter Av1) (count : ℕ) (tag : Bytes) : Type 0 where
  fields : header_at (header_with w tag count) ≡ header_of w tag count
  size : length (header_with w tag count) ≡ 32
  signed : is_signature (header_with w tag count) ≡ true

module _ {Av1 : Type 0} (w : IvfWriter Av1) (count : ℕ) (v : HeaderFits w count) where
  header-IsRead : (a b c d : ℕ) → IsRead w count (a ∷ b ∷ c ∷ d ∷ [])
  header-IsRead a b c d = record {
    fields =
        rw
          (
            le_16-put w.video_width v.width_fits,
            le_16-put w.video_height v.height_fits,
            le_32-put w.timebase_denominator v.denominator_fits,
            le_32-put w.timebase_numerator v.numerator_fits,
            le_32-put count v.count_fits,
          )
          refl;
    size = refl;
    signed = refl;
  }

  codec-IsRead : (c : Codec) (tag : Bytes) → four_cc c ≡ some tag → IsRead w count tag
  codec-IsRead unset tag e = absurd (cc e)
  codec-IsRead vp8 tag e =
      let same : 0x56 ∷ 0x50 ∷ 0x38 ∷ 0x30 ∷ [] ≡ tag = cc e in
      subst (IsRead w count) same (header-IsRead 0x56 0x50 0x38 0x30)
  codec-IsRead vp9 tag e =
      let same : 0x56 ∷ 0x50 ∷ 0x39 ∷ 0x30 ∷ [] ≡ tag = cc e in
      subst (IsRead w count) same (header-IsRead 0x56 0x50 0x39 0x30)
  codec-IsRead av1 tag e =
      let same : 0x41 ∷ 0x56 ∷ 0x30 ∷ 0x31 ∷ [] ≡ tag = cc e in
      subst (IsRead w count) same (header-IsRead 0x41 0x56 0x30 0x31)

  from_read_ok :
      (r : Reader) (tag : Bytes) (src : Source)
      → IsRead w count tag
      → from_read r (ok (header_with w tag count), src)
        ≡ (ok (header_of w tag count), record r { src = src; bytes_read = r.bytes_read + 32 })
  from_read_ok r tag src is =
      from_read_by r (header_with w tag count) (header_of w tag count) src is.signed is.fields refl

  from_parsed_ok :
      (r : Reader) (tag : Bytes)
      → from_parsed (ok (header_of w tag count), r)
        ≡ ok (
          record r {
            timebase_denominator = w.timebase_denominator;
            timebase_numerator = w.timebase_numerator;
          },
          header_of w tag count,
        )
  from_parsed_ok r tag = rw (v.denominator_set, v.numerator_set) refl

  -- A file header is read back, field by field, and leaves the reader at the frames.
  pub new_with-header_with :
      (tag rest : Bytes) (broken : Bool) (max_frame_size : ℕ)
      → four_cc w.codec ≡ some tag
      → new_with
          (record { bytes = header_with w tag count ++ rest; broken = broken })
          max_frame_size
        ≡ ok (reader_of w rest broken max_frame_size, header_of w tag count)
  unfolding new_with parse_file_header
  new_with-header_with tag rest broken max_frame_size e =
      let is : IsRead w count tag = codec-IsRead w.codec tag e in
      let src : Source = record { bytes = header_with w tag count ++ rest; broken = broken } in
      let start : Reader = record {
        src = src;
        bytes_read = 0;
        timebase_denominator = 0;
        timebase_numerator = 0;
        max_frame_size = max_frame_size;
      } in
      let left : Source = record { bytes = rest; broken = broken } in
      ap (λ o. from_parsed (from_read start o))
        (read_full-append 32 (header_with w tag count) rest broken (sym is.size))
      ∙ (ap from_parsed (from_read_ok start tag left is)
          ∙ from_parsed_ok (record start { src = left; bytes_read = 32 }) tag)
