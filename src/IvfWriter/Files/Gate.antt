-- ===== src/IvfWriter/Files/Gate.antt =====
-- ivfwriter/ivfwriter.go: the key frame that a writer waits for, by the packets it is given.
use format.Prelude.{
  ℕ, ◌/◌, ◌%◌, ◌≡◌, refl, sym, ap, ◌∙◌, arith, bit_and, Bool, true, false, not, ◌&&◌, ◌||◌, List,
  [], ◌∷◌, ◌++◌, ltb, ◌==◌, if◌then◌else◌, if_cases, Bytes, length, Option, none, some, ok, err,
}
use mathlib.Core.Path.{subst}
use format.Prelude.Bits.{bit_and_step}
use format.Prelude.Words.{byte_at, shr, and_01, and_0f}
use format.IvfWriter.{
  file_not_opened, Codec, unset, vp8, vp9, av1, Vp8Packet, Vp9Packet, Depacketizers, Packet,
  write_frame, cleared, add_to_frame,
}
use format.IvfWriter.Codecs.{
  W, Done, vp8_frame, vp9_frame, write_vp8_with, write_vp9_with, write_av1_with, write_codec,
  write_rtp, with_first, timestamp_of, current_av1, is_av1_key,
}
use format.IvfWriter.Files.{IsValid, write_frame_all}

-- A VP8 payload that begins a key frame: the first bit of the frame is clear, and it is the start of a
-- partition.
abbrev pub vp8_begins : Vp8Packet → Bool
vp8_begins v = not (length v.payload == 0) && (byte_at v.payload 0 % 2 == 0 && v.s == 1)

-- A VP9 payload that begins a frame without a prediction from another.
abbrev pub vp9_begins : Vp9Packet → Bool
vp9_begins v = not v.p && v.b

module _ (d : Depacketizers) where
  -- An AV1 payload of a new coded video sequence, by the flag of the depacketizer, or by the type in the
  -- header of the first unit, four bits behind the forbidden one.
  abbrev pub av1_begins : d.Av1 → Bytes → Bool
  av1_begins a payload =
      d.new_sequence a
      || (ltb 0 (length payload) && byte_at payload 0 / 8 % 16 == d.sequence_header)

  -- Whether a packet begins a key frame, and the depacketizer for AV1 behind it.
  abbrev pub begins : Codec → d.Av1 → Packet → Bool × d.Av1
  begins vp8 a p = (elim (d.unmarshal_vp8 p.payload) [ none ↦ false | some v ↦ vp8_begins v ], a)
  begins vp9 a p = (elim (d.unmarshal_vp9 p.payload) [ none ↦ false | some v ↦ vp9_begins v ], a)
  begins av1 a p =
      let (out, a') = d.unmarshal_av1 a p.payload in
      (elim out [ none ↦ false | some payload ↦ av1_begins a' payload ], a')
  begins unset a p = (false, a)

  -- Whether one of the packets that are not empty begins a key frame.
  abbrev pub has_key : Codec → d.Av1 → List Packet → Bool
  has_key c a [] = false
  has_key c a (p ∷ ps) =
      if length p.payload == 0
      then has_key c a ps
      else (begins c a p).0 || has_key c (begins c a p).1 ps

av1_type_is : (b : ℕ) → shr (bit_and b 0x78) 3 ≡ b / 8 % 16
av1_type_is b = omega (
  arith,
  bit_and_step b 0x78,
  bit_and_step (b / 2) 0x3C,
  bit_and_step (b / 2 / 2) 0x1E,
  and_0f (b / 2 / 2 / 2),
)

-- What the tests of the frames of VP8 and VP9 let through, where no frame is begun before a key frame.
opens :
    (refused seen key empty start : Bool)
    → (seen ≡ false → empty ≡ true)
    → (if refused
        then seen
        else if not seen && not key
        then seen
        else if empty && not start
        then seen
        else true)
      ≡ (seen || (not refused && (key && start)))
opens true true key empty start h = refl
opens true false key empty start h = refl
opens false true key true true h = refl
opens false true key true false h = refl
opens false true key false start h = refl
opens false false false empty start h = refl
opens false false true true true h = refl
opens false false true true false h = refl
opens false false true false start h = absurd (cc (h refl))

pub or_false : (b : Bool) → b ≡ (b || false)
or_false true = refl
or_false false = refl

module _ (d : Depacketizers) where
  -- A writer with the codec, open or not, that has seen a key frame or not, and the depacketizer.
  abbrev Now : Codec → Bool → Bool → d.Av1 → W d → Type 0
  Now c closed seen a w =
      (w.codec ≡ c) × (w.is_closed ≡ closed) × (w.seen_key_frame ≡ seen) × (current_av1 d w ≡ a)

  abbrev After : W d → Bool → d.Av1 → Done d → Type 0
  After w seen a o = Now w.codec w.is_closed seen a o.1

  cleared-Now :
      (w : W d) (frame : Bytes) (timestamp : ℕ)
      → w.output.sink.faults ≡ []
      → After w w.seen_key_frame (current_av1 d w) (cleared (write_frame w frame timestamp))
  cleared-Now w frame timestamp e =
      subst (λ o. After w w.seen_key_frame (current_av1 d w) (cleared o))
        (sym (write_frame_all [] w frame timestamp e)) (refl, refl, refl, refl)

  add_to_frame-Now :
      (w : W d) (packet : Packet) (payload : Bytes) (timestamp : ℕ)
      → w.output.sink.faults ≡ []
      → After w true (current_av1 d w) (add_to_frame w packet payload timestamp)
  add_to_frame-Now w packet payload timestamp e =
      let w' : W d = record w {
        seen_key_frame = true;
        current_frame = w.current_frame ++ payload;
      } in
      if_cases (After w true (current_av1 d w)) (not packet.marker || length w'.current_frame == 0)
        (refl, refl, refl, refl) (cleared-Now w' w'.current_frame timestamp e)

  -- Three tests that leave the writer alone, and then a payload that is taken.
  tested :
      (w : W d) (a : d.Av1) (r s t : Bool) (x : Done d)
      → After w w.seen_key_frame a (ok tt, w)
      → After w true a x
      → After w
          (if r
            then w.seen_key_frame
            else if s
            then w.seen_key_frame
            else if t
            then w.seen_key_frame
            else true)
          a
          (if r then (ok tt, w) else if s then (ok tt, w) else if t then (ok tt, w) else x)
  tested w a true s t x same taken = same
  tested w a false true t x same taken = same
  tested w a false false true x same taken = same
  tested w a false false false x same taken = taken

  -- No frame is begun before a key frame.
  abbrev IsGated : W d → Type 0
  IsGated w = w.seen_key_frame ≡ false → (length w.current_frame == 0) ≡ true

  vp8-Now :
      (w : W d) (packet : Packet) (timestamp : ℕ) (v : Vp8Packet)
      → w.output.sink.faults ≡ []
      → IsGated w
      → After w
          (w.seen_key_frame || vp8_begins v)
          (current_av1 d w)
          (vp8_frame d w packet timestamp v)
  vp8-Now w packet timestamp v e gate =
      let key : Bool = bit_and (byte_at v.payload 0) 0x01 == 0 in
      let empty : Bool = length v.payload == 0 in
      let low : bit_and (byte_at v.payload 0) 0x01 ≡ byte_at v.payload 0 % 2 =
        and_01 (byte_at v.payload 0) in
      let P : Bool → Type 0 = λ b. After w b (current_av1 d w) (vp8_frame d w packet timestamp v) in
      subst P
        (opens empty w.seen_key_frame key (length w.current_frame == 0) (v.s == 1) gate
          ∙ ap (λ n. w.seen_key_frame || (not empty && (n == 0 && v.s == 1))) low)
        (tested w (current_av1 d w) empty (not w.seen_key_frame && not key)
          (length w.current_frame == 0 && not (v.s == 1))
          (add_to_frame w packet v.payload timestamp) (refl, refl, refl, refl)
          (add_to_frame-Now w packet v.payload timestamp e))

  vp9-Now :
      (w : W d) (packet : Packet) (timestamp : ℕ) (v : Vp9Packet)
      → w.output.sink.faults ≡ []
      → IsGated w
      → After w
          (w.seen_key_frame || vp9_begins v)
          (current_av1 d w)
          (vp9_frame d w packet timestamp v)
  vp9-Now w packet timestamp v e gate =
      let twice : not (not v.p) ≡ v.p = not_not v.p in
      let P : Bool → Type 0 = λ b. After w b (current_av1 d w) (vp9_frame d w packet timestamp v) in
      subst P (opens false w.seen_key_frame (not v.p) (length w.current_frame == 0) v.b gate) (
        rw twice (
          tested w (current_av1 d w) false (not w.seen_key_frame && v.p)
            (length w.current_frame == 0 && not v.b) (add_to_frame w packet v.payload timestamp)
            (refl, refl, refl, refl) (add_to_frame-Now w packet v.payload timestamp e)))
    where
      not_not : (b : Bool) → not (not b) ≡ b
      not_not true = refl
      not_not false = refl

  av1-Now :
      (w : W d) (packet : Packet) (timestamp : ℕ) (a : d.Av1) (payload : Bytes)
      → w.output.sink.faults ≡ []
      → After w
          (w.seen_key_frame || av1_begins d a payload)
          a
          (write_av1_with d w packet timestamp a (some payload))
  av1-Now w packet timestamp a payload e =
      let w1 : W d = record w { av1_depacketizer = some a } in
      let w2 : W d = record w1 {
        seen_key_frame = true;
        current_frame = w.current_frame ++ payload;
      } in
      let key : Bool = is_av1_key d a payload in
      let written : Done d =
        cleared (write_frame w2 (d.delimiter ++ (0 ∷ w2.current_frame)) timestamp) in
      let taken : Done d = if not packet.marker then (ok tt, w2) else written in
      let now : After w1 true a taken =
        if_cases (After w1 true a) (not packet.marker) (refl, refl, refl, refl)
          (cleared-Now w2 (d.delimiter ++ (0 ∷ w2.current_frame)) timestamp e) in
      let P : Bool → Type 0 =
        λ b. After w b a (write_av1_with d w packet timestamp a (some payload)) in
      let type_is = av1_type_is (byte_at payload 0) in
      subst P
        (opens_av1 w.seen_key_frame key
          ∙ ap
              (λ n.
                w.seen_key_frame
                || (d.new_sequence a || (ltb 0 (length payload) && n == d.sequence_header)))
              type_is)
        (tested w1 a (not w.seen_key_frame && not key) false false taken (refl, refl, refl, refl)
          now)
    where
      opens_av1 : (seen key : Bool) → (if not seen && not key then seen else true) ≡ (seen || key)
      opens_av1 true key = refl
      opens_av1 false true = refl
      opens_av1 false false = refl

  codec-Now :
      (w : W d) (c : Codec) (packet : Packet) (timestamp : ℕ)
      → w.output.sink.faults ≡ []
      → IsGated w
      → After w
          (w.seen_key_frame || (begins d c (current_av1 d w) packet).0)
          (begins d c (current_av1 d w) packet).1
          (write_codec d c w packet timestamp)
  codec-Now w unset packet timestamp e gate = (refl, refl, or_false w.seen_key_frame, refl)
  codec-Now w vp8 packet timestamp e gate = by_packet (d.unmarshal_vp8 packet.payload)
    where
      by_packet :
          (v : Option Vp8Packet)
          → After w
              (w.seen_key_frame || elim v [ none ↦ false | some x ↦ vp8_begins x ])
              (current_av1 d w)
              (write_vp8_with d w packet timestamp v)
      by_packet none = (refl, refl, or_false w.seen_key_frame, refl)
      by_packet (some v) = vp8-Now w packet timestamp v e gate
  codec-Now w vp9 packet timestamp e gate = by_packet (d.unmarshal_vp9 packet.payload)
    where
      by_packet :
          (v : Option Vp9Packet)
          → After w
              (w.seen_key_frame || elim v [ none ↦ false | some x ↦ vp9_begins x ])
              (current_av1 d w)
              (write_vp9_with d w packet timestamp v)
      by_packet none = (refl, refl, or_false w.seen_key_frame, refl)
      by_packet (some v) = vp9-Now w packet timestamp v e gate
  codec-Now w av1 packet timestamp e gate =
      by_packet (d.unmarshal_av1 (current_av1 d w) packet.payload).0
    where
      a : d.Av1
      a = (d.unmarshal_av1 (current_av1 d w) packet.payload).1

      by_packet :
          (p : Option Bytes)
          → After w
              (w.seen_key_frame || elim p [ none ↦ false | some x ↦ av1_begins d a x ])
              a
              (write_av1_with d w packet timestamp a p)
      by_packet none = (refl, refl, or_false w.seen_key_frame, refl)
      by_packet (some p) = av1-Now w packet timestamp a p e

  -- One call of `WriteRTP` on a writer that is open.
  pub write_rtp-Now :
      (tag : Bytes) (w : W d) (packet : Packet)
      → IsValid tag w
      → w.is_closed ≡ false
      → let empty = length packet.payload == 0 in
        let next = begins d w.codec (current_av1 d w) packet in
        After w
          (if empty then w.seen_key_frame else w.seen_key_frame || next.0)
          (if empty then current_av1 d w else next.1)
          (write_rtp d w packet)
  unfolding write_rtp
  write_rtp-Now tag w packet v opened =
      let a : d.Av1 = current_av1 d w in
      let next : Bool × d.Av1 = begins d w.codec a packet in
      let empty : Bool = length packet.payload == 0 in
      let gate : IsGated w = λ e. ap (λ b. length b == 0) (v.2.gate e).1 in
      let written : W d → Done d = λ u. write_codec d u.codec u packet (timestamp_of d u packet) in
      let first : W d = record w { first_frame_timestamp = packet.timestamp } in
      let now : After w (w.seen_key_frame || next.0) next.1 (written (with_first d w packet)) =
        if_cases (λ u. After w (w.seen_key_frame || next.0) next.1 (written u)) (w.count == 0)
          (codec-Now first w.codec packet (timestamp_of d first packet) v.1 gate)
          (codec-Now w w.codec packet (timestamp_of d w packet) v.1 gate) in
      let rest : Done d = if empty then (ok tt, w) else written (with_first d w packet) in
      subst
        (λ b.
          After w (if empty then w.seen_key_frame else w.seen_key_frame || next.0)
            (if empty then a else next.1) (if b then (err file_not_opened, w) else rest))
        (sym opened) (by_empty empty (written (with_first d w packet)) next now)
    where
      by_empty :
          (empty : Bool) (x : Done d) (next : Bool × d.Av1)
          → After w (w.seen_key_frame || next.0) next.1 x
          → After w
              (if empty then w.seen_key_frame else w.seen_key_frame || next.0)
              (if empty then current_av1 d w else next.1)
              (if empty then (ok tt, w) else x)
      by_empty true x next now = (refl, refl, refl, refl)
      by_empty false x next now = now

  -- The first packet of a history decides, or the rest does.
  pub seen-step :
      (tag : Bytes) (w : W d) (p : Packet) (ps : List Packet)
      → IsValid tag w
      → w.is_closed ≡ false
      → let w' = (write_rtp d w p).1 in
        (w'.is_closed ≡ false)
        × ((w'.seen_key_frame || has_key d w'.codec (current_av1 d w') ps)
            ≡ (w.seen_key_frame || has_key d w.codec (current_av1 d w) (p ∷ ps)))
  seen-step tag w p ps v opened =
      let a : d.Av1 = current_av1 d w in
      let w' : W d = (write_rtp d w p).1 in
      let empty : Bool = length p.payload == 0 in
      let (codec_is, closed_is, seen_is, state_is) = write_rtp-Now tag w p v opened in
      (
        closed_is ∙ opened,
        ap (λ c. w'.seen_key_frame || has_key d c (current_av1 d w') ps) codec_is
            ∙ (ap (λ x. w'.seen_key_frame || has_key d w.codec x ps) state_is
                ∙ (ap
                      (λ b.
                        b || has_key d w.codec (if empty then a else (begins d w.codec a p).1) ps)
                      seen_is
                    ∙ by_empty w.seen_key_frame empty (begins d w.codec a p))),
      )
    where
      by_empty :
          (seen empty : Bool) (next : Bool × d.Av1)
          → ((if empty then seen else seen || next.0)
              || has_key d w.codec (if empty then current_av1 d w else next.1) ps)
            ≡ (seen
                || (if empty
                    then has_key d w.codec (current_av1 d w) ps
                    else next.0 || has_key d w.codec next.1 ps))
      by_empty seen true next = refl
      by_empty true false next = refl
      by_empty false false next = refl
