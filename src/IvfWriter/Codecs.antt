-- ===== src/IvfWriter/Codecs.antt =====
-- ivfwriter/ivfwriter.go: the assembly of frames by codec, `WriteRTP` and `Close`.
use format.Prelude.{
  ℕ, ◌+◌, ◌-◌, ◌*◌, ◌/◌, ◌%◌, ◌^◌, bit_and, Bool, true, not, ◌&&◌, ◌||◌, List, [], ◌∷◌, ◌++◌, ltb,
  ◌==◌, if◌then◌else◌, Bytes, length, take, drop, Option, none, some, Result, ok, err,
}
use format.Prelude.Words.{byte_at, shr}
use format.Prelude.Io.{fault, put_le_32}
use format.IvfWriter.{
  Error, file_not_opened, codec_unset, depacketizer, stream, Codec, unset, vp8, vp9, av1, Vp8Packet,
  Vp9Packet, Depacketizers, Packet, IvfWriter, cleared, write_frame, add_to_frame,
}

module _ (d : Depacketizers) where
  abbrev pub W : Type 0
  W = IvfWriter d.Av1

  abbrev pub Done : Type 0
  Done = Result Error (Unit {0}) × W

  abbrev pub vp8_frame : W → Packet → ℕ → Vp8Packet → Done
  vp8_frame w packet timestamp v =
      let is_key_frame = bit_and (byte_at v.payload 0) 0x01 == 0 in
      if length v.payload == 0
      then (ok tt, w)
      else if not w.seen_key_frame && not is_key_frame
      then (ok tt, w)
      else if length w.current_frame == 0 && not (v.s == 1)
      then (ok tt, w)
      else add_to_frame w packet v.payload timestamp

  abbrev pub write_vp8_with : W → Packet → ℕ → Option Vp8Packet → Done
  write_vp8_with w packet timestamp none = (err depacketizer, w)
  write_vp8_with w packet timestamp (some v) = vp8_frame w packet timestamp v

  abbrev pub write_vp8 : W → Packet → ℕ → Done
  write_vp8 w packet timestamp = write_vp8_with w packet timestamp (d.unmarshal_vp8 packet.payload)

  abbrev pub vp9_frame : W → Packet → ℕ → Vp9Packet → Done
  vp9_frame w packet timestamp v =
      if not w.seen_key_frame && v.p
      then (ok tt, w)
      else if length w.current_frame == 0 && not v.b
      then (ok tt, w)
      else add_to_frame w packet v.payload timestamp

  abbrev pub write_vp9_with : W → Packet → ℕ → Option Vp9Packet → Done
  write_vp9_with w packet timestamp none = (err depacketizer, w)
  write_vp9_with w packet timestamp (some v) = vp9_frame w packet timestamp v

  abbrev pub write_vp9 : W → Packet → ℕ → Done
  write_vp9 w packet timestamp = write_vp9_with w packet timestamp (d.unmarshal_vp9 packet.payload)

  abbrev pub current_av1 : W → d.Av1
  current_av1 w = elim w.av1_depacketizer [ none ↦ d.new_av1 | some a ↦ a ]

  abbrev pub is_av1_key : d.Av1 → Bytes → Bool
  is_av1_key a payload =
      d.new_sequence a
      || (ltb 0 (length payload) && shr (bit_and (byte_at payload 0) 0x78) 3 == d.sequence_header)

  -- `writeAV1` behind `Unmarshal`, which has left the depacketizer `a`.
  abbrev pub av1_frame : W → Packet → ℕ → d.Av1 → Bytes → Done
  av1_frame w packet timestamp a payload =
      let w' = record w { seen_key_frame = true; current_frame = w.current_frame ++ payload } in
      if not w.seen_key_frame && not (is_av1_key a payload)
      then (ok tt, w)
      else if not packet.marker
      then (ok tt, w')
      else cleared (write_frame w' (d.delimiter ++ (0 ∷ w'.current_frame)) timestamp)

  abbrev pub write_av1_with : W → Packet → ℕ → d.Av1 → Option Bytes → Done
  write_av1_with w packet timestamp a none =
      (err depacketizer, record w { av1_depacketizer = some a })
  write_av1_with w packet timestamp a (some payload) =
      av1_frame (record w { av1_depacketizer = some a }) packet timestamp a payload

  abbrev pub write_av1 : W → Packet → ℕ → Done
  write_av1 w packet timestamp =
      let (payload, a) = d.unmarshal_av1 (current_av1 w) packet.payload in
      write_av1_with w packet timestamp a payload

  abbrev pub write_codec : Codec → W → Packet → ℕ → Done
  write_codec vp8 w packet timestamp = write_vp8 w packet timestamp
  write_codec vp9 w packet timestamp = write_vp9 w packet timestamp
  write_codec av1 w packet timestamp = write_av1 w packet timestamp
  write_codec unset w packet timestamp = (err codec_unset, w)

  -- The difference on uint32, in milliseconds unless it is written as it is.
  abbrev pub timestamp_of : W → Packet → ℕ
  timestamp_of w packet =
      let diff = (packet.timestamp + 2 ^ 32 - w.first_frame_timestamp) % 2 ^ 32 in
      if w.direct_pts then diff else 1000 * diff / w.clock_rate

  abbrev pub with_first : W → Packet → W
  with_first w packet =
      if w.count == 0 then record w { first_frame_timestamp = packet.timestamp } else w

  -- `WriteRTP`
  unfoldable pub write_rtp : W → Packet → Done
  write_rtp w packet =
      let w' = with_first w packet in
      if w.is_closed
      then (err file_not_opened, w)
      else if length packet.payload == 0
      then (ok tt, w)
      else write_codec w'.codec w' packet (timestamp_of w' packet)

  -- The errors that `errors.Join` puts together, of the count and of the close.
  abbrev pub close_errors : List Error → W → List Error
  close_errors es w = elim w.output.close_error [ none ↦ es | some e ↦ es ++ stream e ∷ [] ]

  -- A write at offset 24 of a file.
  abbrev pub overwrite_24 : W → Bytes → W
  overwrite_24 w p =
      let b = w.output.sink.written in
      record w {
        output = record w.output {
          sink = record w.output.sink { written = take 24 b ++ (p ++ drop (24 + length p) b) };
        };
      }

  abbrev pub closed : W → W
  closed w = record w { is_closed = true }

  -- The write of the count, which may take a part of its bytes.
  abbrev pub write_count : W → Bytes → List (Option ℕ) → List Error × W
  write_count w p [] = (close_errors [] w, closed (overwrite_24 w p))
  write_count w p (none ∷ later) = (close_errors [] w, closed (overwrite_24 w p))
  write_count w p (some k ∷ later) =
      (close_errors (stream fault ∷ []) w, closed (overwrite_24 w (take k p)))

  -- `Close`
  unfoldable pub close : W → List Error × W
  close w =
      if w.is_closed
      then ([], w)
      else if not w.output.seekable
      then (close_errors [] w, closed w)
      else if w.output.seek_fails
      then (close_errors (stream fault ∷ []) w, closed w)
      else write_count w (put_le_32 (w.count % 2 ^ 32)) w.output.sink.faults
