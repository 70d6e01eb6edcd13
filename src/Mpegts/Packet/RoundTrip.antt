-- ===== src/Mpegts/Packet/RoundTrip.antt =====
-- mpegts/packet.go: writing the header of a packet, and reading it.
use format.Prelude.{
  ℕ, ◌+◌, ◌*◌, ◌%◌, ◌^◌, ◌<◌, ◌≡◌, refl, arith, Bool, true, false, ◌||◌, ◌++◌, bit_and, bit_or,
  ◌==◌, Bytes, length, ok, le→ltb, bit,
}
use format.Prelude.Bits.{agree_below, agree_below→eq}
use format.Prelude.Words.{
  byte, shl, shr, and_1f, and_0f, and_03, and_80, and_40, and_20, bit_or_sum, or_16-byte,
}
use format.Mpegts.Packet.{PacketHeader, has_bit, or_if, parse_packet_header, marshal_header}

pub record IsHeader (h : PacketHeader) : Type 0 where
  pub pid_fits : h.pid < 2 ^ 13
  pub scrambling_fits : h.scrambling_control < 2 ^ 2
  pub counter_fits : h.continuity_counter < 2 ^ 4
  pub carries : (h.has_adaptation_field || h.has_payload) ≡ true

-- The second byte: the five high bits of the PID under three flags.
flags_value :
    (e s p : Bool) (n : ℕ)
    → n < 32
    → or_if p (or_if s (or_if e n 0x80) 0x40) 0x20 ≡ n + bit e 128 + bit s 64 + bit p 32
unfolding agree_below
flags_value true true true = agree_below→eq _ _ 32 refl
flags_value true true false = agree_below→eq _ _ 32 refl
flags_value true false true = agree_below→eq _ _ 32 refl
flags_value true false false = agree_below→eq _ _ 32 refl
flags_value false true true = agree_below→eq _ _ 32 refl
flags_value false true false = agree_below→eq _ _ 32 refl
flags_value false false true = agree_below→eq _ _ 32 refl
flags_value false false false = agree_below→eq _ _ 32 refl

-- The fourth byte: the scrambling bits, the adaptation field control, the counter.
control_value :
    (sc afc cc : ℕ)
    → sc < 4
    → afc < 4
    → cc < 16
    → bit_or (bit_or (shl 8 sc 6) (shl 8 afc 4)) (bit_and cc 0x0F) ≡ sc * 64 + afc * 16 + cc
control_value sc afc cc hs ha hc =
    rw
      (
        bit_or_sum 6 (shl 8 sc 6) (shl 8 afc 4) (omega arith) (omega arith),
        and_0f cc,
        bit_or_sum 4 (shl 8 sc 6 + shl 8 afc 4) (cc % 16) (omega arith) (omega arith),
      )
      (omega arith)

control_flags : (a p : Bool) → or_if p (or_if a 0 0x02) 0x01 ≡ bit a 2 + bit p 1
control_flags true true = refl
control_flags true false = refl
control_flags false true = refl
control_flags false false = refl

first_fields :
    (e s p : Bool) (n : ℕ)
    → n < 32
    → let first = n + bit e 128 + bit s 64 + bit p 32 in
      (has_bit first 0x80 ≡ e)
      × (has_bit first 0x40 ≡ s)
      × (has_bit first 0x20 ≡ p)
      × (bit_and first 0x1F ≡ n)
first_fields e s p n h =
    let first : ℕ = n + bit e 128 + bit s 64 + bit p 32 in
    (
      ground (arith, and_80 first),
      ground (arith, and_40 first),
      ground (arith, and_20 first),
      ground (arith, and_1f first),
    )

last_fields :
    (a p : Bool) (sc cc : ℕ)
    → cc < 16
    → let last = sc * 64 + (bit a 2 + bit p 1) * 16 + cc in
      (bit_and (shr last 4) 0x03 ≡ bit a 2 + bit p 1) × (shr last 6 ≡ sc) × (bit_and last 0x0F ≡ cc)
last_fields a p sc cc h =
    let last : ℕ = sc * 64 + (bit a 2 + bit p 1) * 16 + cc in
    (ground (arith, and_03 (shr last 4)), ground arith, ground (arith, and_0f last))

afc_flags :
    (a p : Bool) → (has_bit (bit a 2 + bit p 1) 0x02 ≡ a) × (has_bit (bit a 2 + bit p 1) 0x01 ≡ p)
afc_flags true true = (refl, refl)
afc_flags true false = (refl, refl)
afc_flags false true = (refl, refl)
afc_flags false false = (refl, refl)

afc_ne_zero : (a p : Bool) → (a || p) ≡ true → (bit a 2 + bit p 1 == 0) ≡ false
afc_ne_zero a p h = ground arith

-- Every packet header whose fields fit their widths, and that announces an adaptation field or a payload,
-- is read back from the four bytes that are written for it, whatever bytes follow.
pub parse_packet_header-marshal_header :
    (h : PacketHeader) (rest : Bytes)
    → IsHeader h
    → parse_packet_header (marshal_header h ++ rest) ≡ ok h
unfolding parse_packet_header marshal_header
parse_packet_header-marshal_header h rest v =
    let n : ℕ = byte (shr h.pid 8) in
    let small : n < 32 = omega (arith, v.pid_fits) in
    let masked : bit_and n 0x1F ≡ n = omega (arith, and_1f n) in
    let afc : ℕ = bit h.has_adaptation_field 2 + bit h.has_payload 1 in
    let a : Bool = h.has_adaptation_field in
    let p : Bool = h.has_payload in
    let f = first_fields h.transport_error h.payload_unit_start h.transport_priority n small in
    let l = last_fields a p h.scrambling_control h.continuity_counter v.counter_fits in
    rw
      (
        masked,
        flags_value h.transport_error h.payload_unit_start h.transport_priority n small,
        control_flags a p,
        control_value h.scrambling_control afc h.continuity_counter v.scrambling_fits (ground arith)
            v.counter_fits,
      )
      (rw (l.0, l.1, l.2, f.0, f.1, f.2, f.3)
        (rw (
          le→ltb (length (marshal_header h ++ rest)) 4 (omega arith),
          afc_ne_zero a p v.carries,
          (afc_flags a p).0,
          (afc_flags a p).1,
          or_16-byte h.pid (omega arith),
        )))
