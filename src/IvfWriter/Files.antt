-- ===== src/IvfWriter/Files.antt =====
-- ivfwriter/ivfwriter.go: the file over a history of `WriteRTP`, on an output without faults.
pub mod Gate
pub mod Closed
use format.Prelude.{
  ℕ, zero, suc, ◌+◌, ◌-◌, ◌*◌, ◌/◌, ◌%◌, ◌^◌, ◌≤◌, ◌<◌, ◌≡◌, refl, sym, ap, ◌∙◌, arith, bit_and,
  Bool, true, false, not, ◌&&◌, ◌||◌, List, [], ◌∷◌, ◌++◌, ltb, ◌==◌, if◌then◌else◌, if_cases,
  if_cases_on, Bytes, length, All, All-append, Option, none, some, Result, ok, err, append_assoc,
  append-nil, length-append,
}
use native.Mathlib.Nat.{div-le_self}
use mathlib.Core.Path.{subst}
use format.Prelude.Words.{byte_at}
use format.Prelude.Io.{IoError, Sink, write_all, put_le_32}
use format.IvfWriter.{
  Error, file_not_opened, Codec, unset, vp8, vp9, av1, Vp8Packet, Vp9Packet, Depacketizers, Packet,
  Output, IvfWriter, four_cc, header_with, write_bytes, frame_header, pts_of, write_frame,
  behind_header, cleared, add_to_frame, stream,
}
use format.IvfWriter.Codecs.{
  W, Done, vp8_frame, vp9_frame, write_vp8, write_vp9, write_av1, av1_frame, write_codec, write_rtp,
  with_first, timestamp_of, current_av1, is_av1_key, write_vp8_with, write_vp9_with, write_av1_with,
}
use format.IvfWriter.Frames.{Frame, frame_bytes, frames_bytes}

abbrev pub HasTime : Frame → Type 0
HasTime f = f.0 < 2 ^ 64

-- What a file with a header, its count and the state of the assembly say: the frames that are in it, as
-- many as are counted; before a key frame is seen there is none, and none is begun.
pub record File (bytes header : Bytes) (count : ℕ) (seen : Bool) (current : Bytes) : Type 0 where
  pub frames : List Frame
  pub written : bytes ≡ header ++ frames_bytes frames
  pub counted : count ≡ length frames % 2 ^ 64
  pub timed : All HasTime frames
  pub gate : seen ≡ false → (frames ≡ []) × (current ≡ [])

frames_bytes-append :
    (fs gs : List Frame) → frames_bytes (fs ++ gs) ≡ frames_bytes fs ++ frames_bytes gs
frames_bytes-append [] gs = refl
frames_bytes-append (f ∷ fs) gs =
    ap (◌++◌ (frame_bytes f)) (frames_bytes-append fs gs)
    ∙ sym (append_assoc (frame_bytes f) (frames_bytes fs) (frames_bytes gs))

seen_payload :
    {bytes header : Bytes} {count : ℕ} {seen : Bool} {current : Bytes} (now : Bytes)
    → File bytes header count seen current
    → File bytes header count true now
seen_payload now f = record {
  frames = f.frames;
  written = f.written;
  counted = f.counted;
  timed = f.timed;
  gate = λ e. absurd (cc e);
}

more_frames :
    {bytes header : Bytes} {count : ℕ} {current : Bytes} (now : Bytes) (g : Frame)
    → g.0 < 2 ^ 64
    → File bytes header count true current
    → File ((bytes ++ frame_header g.1 g.0) ++ g.1) header ((count + 1) % 2 ^ 64) true now
more_frames {bytes = bytes} {header = header} {count = count} now g t f = record {
  frames = f.frames ++ g ∷ [];
  written =
      append_assoc bytes (frame_header g.1 g.0) g.1
      ∙ (ap (λ b. b ++ frame_bytes g) f.written
          ∙ (append_assoc header (frames_bytes f.frames) (frame_bytes g)
              ∙ ap (λ b. header ++ b)
                  (ap (λ b. frames_bytes f.frames ++ b) (sym (append-nil (frame_bytes g)))
                    ∙ sym (frames_bytes-append f.frames (g ∷ [])))));
  counted = omega (arith, f.counted, length-append f.frames (g ∷ []));
  timed = All-append HasTime f.frames (g ∷ []) f.timed (t, tt);
  gate = λ e. absurd (cc e);
}

module _ {Av1 : Type 0} (tag : Bytes) where
  abbrev pub IsValid : IvfWriter Av1 → Type 0
  IsValid w =
      (four_cc w.codec ≡ some tag)
      × (w.output.sink.faults ≡ [])
      × File w.output.sink.written (header_with w tag 900) w.count w.seen_key_frame w.current_frame

  abbrev pub appended : IvfWriter Av1 → Bytes → IvfWriter Av1
  appended w p = record w {
    output = record w.output {
      sink = record { written = w.output.sink.written ++ p; faults = [] };
    };
  }

  pub write_bytes_all :
      (w : IvfWriter Av1) (p : Bytes)
      → w.output.sink.faults ≡ []
      → write_bytes w p ≡ (ok tt, appended w p)
  write_bytes_all w p e = rw (write_all w.output.sink p e) refl

  pub write_frame_all :
      (w : IvfWriter Av1) (frame : Bytes) (timestamp : ℕ)
      → w.output.sink.faults ≡ []
      → write_frame w frame timestamp ≡ (
        ok tt,
        appended
            (appended
              (record w { count = (w.count + 1) % 2 ^ 64 })
              (frame_header frame (pts_of w timestamp)))
            frame,
      )
  unfolding write_frame
  write_frame_all w frame timestamp e =
      let w' : IvfWriter Av1 = record w { count = (w.count + 1) % 2 ^ 64 } in
      ap (behind_header frame) (write_bytes_all w' (frame_header frame (pts_of w timestamp)) e)
      ∙ write_bytes_all (appended w' (frame_header frame (pts_of w timestamp))) frame refl

  pts-lt : (w : IvfWriter Av1) (timestamp : ℕ) → timestamp < 2 ^ 64 → pts_of w timestamp < 2 ^ 64
  pts-lt w timestamp h =
      if_cases (λ n. n < 2 ^ 64) w.direct_pts h
        (below (timestamp * w.timebase_numerator % 2 ^ 64) w.timebase_denominator (omega arith))
    where
      below : (a b : ℕ) → a < 2 ^ 64 → a / b < 2 ^ 64
      below a b h = omega (arith, div-le_self a b, h)

  -- A frame that is written whole.
  frame-IsValid :
      (w : IvfWriter Av1) (frame : Bytes) (timestamp : ℕ)
      → timestamp < 2 ^ 64
      → w.seen_key_frame ≡ true
      → IsValid w
      → IsValid (cleared (write_frame w frame timestamp)).1
  frame-IsValid w frame timestamp h seen v =
      let here : File w.output.sink.written (header_with w tag 900) w.count true w.current_frame =
        subst (λ b. File w.output.sink.written (header_with w tag 900) w.count b w.current_frame)
          seen v.2 in
      let g : Frame = (pts_of w timestamp, frame) in
      let there = more_frames [] g (pts-lt w timestamp h) here in
      subst (λ o. IsValid (cleared o).1) (sym (write_frame_all w frame timestamp v.1))
        (
          v.0,
          refl,
          subst
              (λ b.
                File ((w.output.sink.written ++ frame_header frame g.0) ++ frame)
                  (header_with w tag 900) ((w.count + 1) % 2 ^ 64) b [])
              (sym seen) there,
        )

  -- A packet's payload goes on the frame, which is written at the marker.
  add_to_frame-IsValid :
      (w : IvfWriter Av1) (packet : Packet) (payload : Bytes) (timestamp : ℕ)
      → timestamp < 2 ^ 64
      → IsValid w
      → IsValid (add_to_frame w packet payload timestamp).1
  add_to_frame-IsValid w packet payload timestamp h v =
      let w' : IvfWriter Av1 = record w {
        seen_key_frame = true;
        current_frame = w.current_frame ++ payload;
      } in
      let v' : IsValid w' = (v.0, v.1, seen_payload (w.current_frame ++ payload) v.2) in
      if_cases (λ (o : Result Error (Unit {0}) × IvfWriter Av1). IsValid o.1)
        (not packet.marker || length w'.current_frame == 0) v'
        (frame-IsValid w' w'.current_frame timestamp h refl v')

module _ (d : Depacketizers) (tag : Bytes) where
  timestamp_of-lt : (w : W d) (packet : Packet) → timestamp_of d w packet < 2 ^ 64
  timestamp_of-lt w packet =
      let diff : ℕ = (packet.timestamp + 2 ^ 32 - w.first_frame_timestamp) % 2 ^ 32 in
      if_cases (λ n. n < 2 ^ 64) w.direct_pts (omega arith)
        (omega (arith, div-le_self (1000 * diff) w.clock_rate))

  vp8-IsValid :
      (w : W d) (packet : Packet) (timestamp : ℕ) (v : Vp8Packet)
      → timestamp < 2 ^ 64
      → IsValid tag w
      → IsValid tag (vp8_frame d w packet timestamp v).1
  vp8-IsValid w packet timestamp v h is =
      let P : Done d → Type 0 = λ o. IsValid tag o.1 in
      if_cases P (length v.payload == 0) is (
        if_cases P (not w.seen_key_frame && not (bit_and (byte_at v.payload 0) 0x01 == 0)) is (
          if_cases P (length w.current_frame == 0 && not (v.s == 1)) is
            (add_to_frame-IsValid tag w packet v.payload timestamp h is)))

  vp9-IsValid :
      (w : W d) (packet : Packet) (timestamp : ℕ) (v : Vp9Packet)
      → timestamp < 2 ^ 64
      → IsValid tag w
      → IsValid tag (vp9_frame d w packet timestamp v).1
  vp9-IsValid w packet timestamp v h is =
      let P : Done d → Type 0 = λ o. IsValid tag o.1 in
      if_cases P (not w.seen_key_frame && v.p) is (
        if_cases P (length w.current_frame == 0 && not v.b) is
          (add_to_frame-IsValid tag w packet v.payload timestamp h is))

  av1-IsValid :
      (w : W d) (packet : Packet) (timestamp : ℕ) (a : d.Av1) (payload : Bytes)
      → timestamp < 2 ^ 64
      → IsValid tag w
      → IsValid tag (av1_frame d w packet timestamp a payload).1
  av1-IsValid w packet timestamp a payload h is =
      let w' : W d = record w {
        seen_key_frame = true;
        current_frame = w.current_frame ++ payload;
      } in
      let is' : IsValid tag w' = (is.0, is.1, seen_payload (w.current_frame ++ payload) is.2) in
      let P : Done d → Type 0 = λ o. IsValid tag o.1 in
      if_cases P (not w.seen_key_frame && not (is_av1_key d a payload)) is (
        if_cases P (not packet.marker) is'
          (frame-IsValid tag w' (d.delimiter ++ (0 ∷ w'.current_frame)) timestamp h refl is'))

  codec-IsValid :
      (c : Codec) (w : W d) (packet : Packet) (timestamp : ℕ)
      → timestamp < 2 ^ 64
      → IsValid tag w
      → IsValid tag (write_codec d c w packet timestamp).1
  codec-IsValid unset w packet timestamp h is = is
  codec-IsValid vp8 w packet timestamp h is = by_packet (d.unmarshal_vp8 packet.payload)
    where
      by_packet : (v : Option Vp8Packet) → IsValid tag (write_vp8_with d w packet timestamp v).1
      by_packet none = is
      by_packet (some v) = vp8-IsValid w packet timestamp v h is
  codec-IsValid vp9 w packet timestamp h is = by_packet (d.unmarshal_vp9 packet.payload)
    where
      by_packet : (v : Option Vp9Packet) → IsValid tag (write_vp9_with d w packet timestamp v).1
      by_packet none = is
      by_packet (some v) = vp9-IsValid w packet timestamp v h is
  codec-IsValid av1 w packet timestamp h is =
      by_packet (d.unmarshal_av1 (current_av1 d w) packet.payload).0
    where
      a : d.Av1
      a = (d.unmarshal_av1 (current_av1 d w) packet.payload).1

      by_packet : (p : Option Bytes) → IsValid tag (write_av1_with d w packet timestamp a p).1
      by_packet none = is
      by_packet (some p) =
          av1-IsValid (record w { av1_depacketizer = some a }) packet timestamp a p h is

  -- Every call of `WriteRTP`, with any packet and whatever the depacketizers give, keeps the file a header
  -- and the frames that are counted.
  pub write_rtp-IsValid :
      (w : W d) (packet : Packet) → IsValid tag w → IsValid tag (write_rtp d w packet).1
  unfolding write_rtp
  write_rtp-IsValid w packet is =
      let w' : W d = with_first d w packet in
      let P : Done d → Type 0 = λ o. IsValid tag o.1 in
      let is' : IsValid tag w' = if_cases (IsValid tag) (w.count == 0) is is in
      if_cases P w.is_closed is (
        if_cases P (length packet.payload == 0) is (
          codec-IsValid w'.codec w' packet (timestamp_of d w' packet) (timestamp_of-lt w' packet)
            is'))
