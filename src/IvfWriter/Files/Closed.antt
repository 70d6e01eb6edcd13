-- ===== src/IvfWriter/Files/Closed.antt =====
-- ivfwriter/ivfwriter.go: a file from `NewWith` to `Close`, and ivfreader/ivfreader.go on it.
use format.Prelude.{
  ℕ, ◌%◌, ◌^◌, ◌≡◌, refl, sym, ap, ◌∙◌, arith, Bool, true, false, not, ◌||◌, List, [], ◌∷◌, ◌++◌,
  ◌==◌, if◌then◌else◌, Bytes, length, take, drop, map, All, Option, none, some, ok, bind_ok,
  ok-injective, else_ok, take-append, drop-append, append_assoc, append-nil, length-append,
}
use mathlib.Core.Path.{subst}
use format.Prelude.Io.{Source, put_le_32, put_le_16, fault}
use format.IvfWriter.{
  Error, Codec, unset, vp8, vp9, av1, IvfOption, with_codec, with_width_and_height, with_frame_rate,
  with_direct_pts, Depacketizers, Packet, Output, IvfWriter, apply_option, apply_options, is_unset,
  codec_of, four_cc, header_with, with_default, write_header, written_header, write_header_with,
  new_with, invalid_media_timebase, stream,
}
use format.IvfWriter.Codecs.{
  W, current_av1, write_rtp, close, close_errors, closed, write_count, overwrite_24,
}
use format.IvfWriter.Frames.{
  Frame, Fits, frames_bytes, given, read_frames, read_frames-frames_bytes, ReadFrames,
}
use format.IvfWriter.Header.{HeaderFits, header_of, reader_of, new_with-header_with}
use format.IvfWriter.Files.Gate.{has_key, or_false, seen-step}
use format.IvfWriter.Files.{IsValid, appended, write_bytes_all, write_rtp-IsValid}
use format.IvfReader

-- A writer that is open, has seen no key frame and has no depacketizer.
abbrev IsUnused : {Av1 : Type 0} → IvfWriter Av1 → Type 0
IsUnused w = (w.is_closed ≡ false) × (w.seen_key_frame ≡ false) × (w.av1_depacketizer ≡ none)

-- A writer before its header.
abbrev IsFresh : {Av1 : Type 0} → Output → IvfWriter Av1 → Type 0
IsFresh out w = (w.output ≡ out) × (w.count ≡ 0) × (w.current_frame ≡ []) × IsUnused w

module _ {Av1 : Type 0} (out : Output) where
  apply_option-IsFresh :
      (o : IvfOption) (w w' : IvfWriter Av1)
      → apply_option o w ≡ ok w'
      → IsFresh out w
      → IsFresh out w'
  apply_option-IsFresh (with_codec mime) w w' e f = by_codec (not (is_unset w.codec)) refl
    where
      by_codec : (b : Bool) → not (is_unset w.codec) ≡ b → IsFresh out w'
      by_codec true set = absurd (cc (rw set at e))
      by_codec false free =
          let (c, is, same) = bind_ok (codec_of mime) (rw free at e) in
          subst (IsFresh out) (ok-injective same) f
  apply_option-IsFresh (with_width_and_height a b) w w' e f = subst (IsFresh out) (ok-injective e) f
  apply_option-IsFresh (with_frame_rate a b) w w' e f = subst (IsFresh out) (ok-injective e) f
  apply_option-IsFresh with_direct_pts w w' e f = subst (IsFresh out) (ok-injective e) f

  apply_options-IsFresh :
      (os : List IvfOption) (w w' : IvfWriter Av1)
      → apply_options os w ≡ ok w'
      → IsFresh out w
      → IsFresh out w'
  apply_options-IsFresh [] w w' e f = subst (IsFresh out) (ok-injective e) f
  apply_options-IsFresh (o ∷ os) w w' e f =
      let (w1, one, more) = bind_ok (apply_option o w) e in
      apply_options-IsFresh os w1 w' more (apply_option-IsFresh o w w1 one f)

  default_tag : (w : IvfWriter Av1) → (tag : Bytes) × (four_cc (with_default w).codec ≡ some tag)
  default_tag w = by_codec w.codec
    where
      by_codec : (c : Codec) → (tag : Bytes) × (four_cc (if is_unset c then vp8 else c) ≡ some tag)
      by_codec unset = (_, refl)
      by_codec vp8 = (_, refl)
      by_codec vp9 = (_, refl)
      by_codec av1 = (_, refl)

  -- The header is on the output, and nothing else.
  header-IsValid :
      (w w' : IvfWriter Av1)
      → out.sink.written ≡ []
      → out.sink.faults ≡ []
      → IsFresh out w
      → written_header (write_header (with_default w)) ≡ ok w'
      → (tag : Bytes) × (IsValid tag w' × IsUnused w')
  header-IsValid w w' empty sound f e =
      let (tag, tagged) = default_tag w in
      let w1 : IvfWriter Av1 = with_default w in
      let faults : w1.output.sink.faults ≡ [] = ap (λ (o : Output). o.sink.faults) f.0 ∙ sound in
      let bytes : w1.output.sink.written ≡ [] = ap (λ (o : Output). o.sink.written) f.0 ∙ empty in
      let w2 : IvfWriter Av1 = appended tag w1 (header_with w1 tag 900) in
      let made : written_header (write_header w1) ≡ ok w2 =
        ap (λ t. written_header (write_header_with w1 t)) tagged
        ∙ ap written_header (write_bytes_all tag w1 (header_with w1 tag 900) faults) in
      let same : w2 ≡ w' = ok-injective (sym made ∙ e) in
      (
        tag,
        subst (λ x. IsValid tag x × IsUnused x) same
            (
              (
                tagged,
                refl,
                record {
                  frames = [];
                  written =
                      ap (λ b. b ++ header_with w1 tag 900) bytes
                      ∙ sym (append-nil (header_with w1 tag 900));
                  counted = f.1;
                  timed = tt;
                  gate = λ seen. (refl, f.2);
                },
              ),
              f.3,
            ),
      )

tag_length : (c : Codec) (tag : Bytes) → four_cc c ≡ some tag → length tag ≡ 4
tag_length unset tag e = absurd (cc e)
tag_length vp8 tag e = ap (λ (o : Option Bytes). elim o [ none ↦ 4 | some t ↦ length t ]) (sym e)
tag_length vp9 tag e = ap (λ (o : Option Bytes). elim o [ none ↦ 4 | some t ↦ length t ]) (sym e)
tag_length av1 tag e = ap (λ (o : Option Bytes). elim o [ none ↦ 4 | some t ↦ length t ]) (sym e)

-- The header up to the count, and the count in it.
abbrev before_count : {Av1 : Type 0} → IvfWriter Av1 → Bytes → Bytes
before_count w tag =
    0x44
    ∷ 0x4B
    ∷ 0x49
    ∷ 0x46
    ∷ (put_le_16 0
        ++ put_le_16 32
        ++ (tag
            ++ (put_le_16 w.video_width
                ++ put_le_16 w.video_height
                ++ put_le_32 w.timebase_denominator
                ++ put_le_32 w.timebase_numerator)))

header_split :
    {Av1 : Type 0}
    → (w : IvfWriter Av1) (tag : Bytes) (count : ℕ)
    → header_with w tag count ≡ before_count w tag ++ (put_le_32 count ++ put_le_32 0)
header_split w tag count = simp append_assoc refl

-- The four bytes at offset 24, written anew.
count_anew :
    {Av1 : Type 0}
    → (w : IvfWriter Av1) (tag rest : Bytes) (old count : ℕ) → length tag ≡ 4
    → let b = header_with w tag old ++ rest in
      take 24 b ++ (put_le_32 count ++ drop 28 b) ≡ header_with w tag count ++ rest
count_anew w tag rest old count four =
    let pre : Bytes = before_count w tag in
    let tail : Bytes = put_le_32 0 ++ rest in
    let size : length pre ≡ 24 = omega (arith, four, length-append tag _) in
    let split : header_with w tag old ++ rest ≡ pre ++ (put_le_32 old ++ tail) =
      ap (λ h. h ++ rest) (header_split w tag old)
      ∙ append_assoc pre (put_le_32 old ++ put_le_32 0) rest in
    let joined : pre ++ (put_le_32 count ++ tail) ≡ header_with w tag count ++ rest =
      sym (append_assoc pre (put_le_32 count ++ put_le_32 0) rest)
      ∙ ap (λ h. h ++ rest) (sym (header_split w tag count)) in
    let front : take 24 (pre ++ (put_le_32 old ++ tail)) ≡ pre = take-append 24 pre _ (sym size) in
    let back : drop 28 ((pre ++ put_le_32 old) ++ tail) ≡ tail =
      drop-append 28 (pre ++ put_le_32 old) tail
        (omega (arith, size, length-append pre (put_le_32 old))) in
    ap (λ b. take 24 b ++ (put_le_32 count ++ drop 28 b)) split
    ∙ (ap (λ b. b ++ (put_le_32 count ++ drop 28 (pre ++ (put_le_32 old ++ tail)))) front
        ∙ (ap (λ b. pre ++ (put_le_32 count ++ b))
              (ap (drop 28) (sym (append_assoc pre (put_le_32 old) tail)) ∙ back)
            ∙ joined))

module _ (d : Depacketizers) where
  -- A history of calls of `WriteRTP`.
  abbrev pub run : W d → List Packet → W d
  run w [] = w
  run w (p ∷ ps) = run (write_rtp d w p).1 ps

  run-IsValid : (tag : Bytes) (w : W d) (ps : List Packet) → IsValid tag w → IsValid tag (run w ps)
  run-IsValid tag w [] v = v
  run-IsValid tag w (p ∷ ps) v =
      run-IsValid tag (write_rtp d w p).1 ps (write_rtp-IsValid d tag w p v)

  run-has_key :
      (tag : Bytes) (w : W d) (ps : List Packet)
      → IsValid tag w
      → w.is_closed ≡ false
      → (run w ps).seen_key_frame ≡ (w.seen_key_frame || has_key d w.codec (current_av1 d w) ps)
  run-has_key tag w [] v opened = or_false w.seen_key_frame
  run-has_key tag w (p ∷ ps) v opened =
      let (opened', same) = seen-step d tag w p ps v opened in
      run-has_key tag (write_rtp d w p).1 ps (write_rtp-IsValid d tag w p v) opened' ∙ same

  -- On an output that is empty and without faults, any history of packets from `NewWith` on, with any
  -- options and depacketizers, leaves a header and whole frames behind it: as many as are counted,
  -- and none unless a packet of the history begins a key frame, which is exactly when the writer has
  -- seen one. What begins a key frame is read off the depacketized payloads: for VP8 the first bit of a
  -- frame that starts a partition, for VP9 the flags of prediction and beginning, for AV1 the new
  -- sequence or the type of the first unit.
  pub run-new_with-IsValid :
      (out : Output) (opts : List IvfOption) (w : W d) (packets : List Packet)
      → out.sink.written ≡ []
      → out.sink.faults ≡ []
      → new_with out opts ≡ ok w
      → (tag : Bytes) × IsValid tag (run w packets)
        × ((run w packets).seen_key_frame ≡ has_key d w.codec d.new_av1 packets)
  unfolding new_with
  run-new_with-IsValid out opts w packets empty sound e =
      let (w1, applied, rest) = bind_ok (apply_options opts _) e in
      let fresh : IsFresh out w1 =
        apply_options-IsFresh out opts _ w1 applied (refl, refl, refl, (refl, refl, refl)) in
      let zero_base : Bool = w1.timebase_denominator == 0 || w1.timebase_numerator == 0 in
      let header : written_header (write_header (with_default w1)) ≡ ok w =
        else_ok zero_base invalid_media_timebase rest in
      let (tag, (v, (opened, unseen, new))) = header-IsValid out w1 w empty sound fresh header in
      (
        tag,
        run-IsValid tag w packets v,
        run-has_key tag w packets v opened
            ∙ (ap (λ b. b || has_key d w.codec (current_av1 d w) packets) unseen
                ∙ ap
                    (λ (x : Option d.Av1).
                      has_key d w.codec (elim x [ none ↦ d.new_av1 | some a ↦ a ]) packets)
                    new),
      )

  -- `Close` of a writer in good order that is not closed, on an output that can be sought without an
  -- error, with fields that fit in the header and frames within the limit of the reader: the
  -- reader on what it leaves gets the header with the count of frames modulo 2^32, and reads as many
  -- frames as there are, each with its bytes and the time that the reader's timebase gives it.
  pub close-read :
      (tag : Bytes) (w : W d) (v : IsValid tag w) (max_frame_size : ℕ) (broken : Bool)
      → w.is_closed ≡ false
      → w.output.seekable ≡ true
      → w.output.seek_fails ≡ false
      → HeaderFits w (w.count % 2 ^ 32)
      → All (Fits (reader_of w [] broken max_frame_size)) v.2.frames
      → let src : Source = record { bytes = (close d w).1.output.sink.written; broken = broken } in
        let r = reader_of w (frames_bytes v.2.frames) broken max_frame_size in
        (IvfReader.new_with src max_frame_size ≡ ok (r, header_of w tag (w.count % 2 ^ 32)))
        × ((read_frames (length v.2.frames) r).0
            ≡ ok (map (given (reader_of w [] broken max_frame_size)) v.2.frames))
  unfolding close
  close-read tag w v max_frame_size broken opened seekable seek_ok fits small =
      let frames : List Frame = v.2.frames in
      let count : ℕ = w.count % 2 ^ 32 in
      let p : Bytes = put_le_32 count in
      let counted : List Error × W d = write_count d w p w.output.sink.faults in
      let failed : List Error × W d = (close_errors d (stream fault ∷ []) w, closed d w) in
      let plain : List Error × W d = (close_errors d [] w, closed d w) in
      let closed_is : close d w ≡ (close_errors d [] w, closed d (overwrite_24 d w p)) =
        ap
          (λ b.
            if b
            then ([], w)
            else if not w.output.seekable
            then plain
            else if w.output.seek_fails
            then failed
            else counted)
          opened
        ∙ (ap (λ b. if not b then plain else if w.output.seek_fails then failed else counted)
              seekable
            ∙ (ap (λ b. if b then failed else counted) seek_ok ∙ ap (write_count d w p) v.1)) in
      let written : (close d w).1.output.sink.written
          ≡ header_with w tag count ++ frames_bytes frames =
        ap (λ (o : List Error × W d). o.1.output.sink.written) closed_is
        ∙ (ap (λ b. take 24 b ++ (put_le_32 count ++ drop 28 b)) v.2.written
            ∙ count_anew w tag (frames_bytes frames) 900 count (tag_length w.codec tag v.0)) in
      (
        ap (λ b. IvfReader.new_with (record { bytes = b; broken = broken }) max_frame_size) written
            ∙ new_with-header_with w count fits tag (frames_bytes frames) broken max_frame_size v.0,
        ap (λ b. (read_frames (length frames) (reader_of w b broken max_frame_size)).0)
              (sym (append-nil (frames_bytes frames)))
            ∙ ap (λ (o : ReadFrames). o.0)
                (read_frames-frames_bytes (reader_of w [] broken max_frame_size) frames [] broken 0
                  small),
      )
