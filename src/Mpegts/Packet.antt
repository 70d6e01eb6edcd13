-- ===== src/Mpegts/Packet.antt =====
-- mpegts/packet.go and mpegts/mpegts.go: the header of a transport packet.
pub mod RoundTrip
use format.Prelude.{
  ℕ, ◌+◌, ◌*◌, ◌/◌, ◌%◌, ◌^◌, Bool, List, [], ◌∷◌, bit_and, bit_or, not, ltb, ◌==◌, if◌then◌else◌,
  Bytes, length, Result, ok, ◌>>=◌, ◌>>◌, reject_if,
}
use format.Prelude.Words.{byte_at, byte, shl, shr}
use format.Mpegts.Errors.{Error, short_packet, invalid_sync_byte, invalid_afc}

abbrev pub packet_size : ℕ
packet_size = 188

abbrev pub sync_byte : ℕ
sync_byte = 0x47

abbrev pub pid_pat : ℕ
pid_pat = 0x0000

abbrev pub pid_null : ℕ
pid_null = 0x1FFF

pub record PacketHeader : Type 0 where
  pub transport_error : Bool
  pub payload_unit_start : Bool
  pub transport_priority : Bool
  pub pid : ℕ
  pub scrambling_control : ℕ
  pub has_adaptation_field : Bool
  pub has_payload : Bool
  pub continuity_counter : ℕ

-- `x & mask != 0`
abbrev pub has_bit : ℕ → ℕ → Bool
has_bit x mask = not (bit_and x mask == 0)

unfoldable pub parse_packet_header : Bytes → Result Error PacketHeader
parse_packet_header pkt = do
  reject_if (ltb (length pkt) 4) short_packet
  reject_if (not (byte_at pkt 0 == sync_byte)) invalid_sync_byte
  let afc = bit_and (shr (byte_at pkt 3) 4) 0x03
  reject_if (afc == 0) invalid_afc
  ok (record {
    transport_error = has_bit (byte_at pkt 1) 0x80;
    payload_unit_start = has_bit (byte_at pkt 1) 0x40;
    transport_priority = has_bit (byte_at pkt 1) 0x20;
    pid = bit_or (shl 16 (bit_and (byte_at pkt 1) 0x1F) 8) (byte_at pkt 2);
    scrambling_control = shr (byte_at pkt 3) 6;
    has_adaptation_field = has_bit afc 0x02;
    has_payload = has_bit afc 0x01;
    continuity_counter = bit_and (byte_at pkt 3) 0x0F;
  })

-- `if b { x |= mask }`
abbrev pub or_if : Bool → ℕ → ℕ → ℕ
or_if b x mask = if b then bit_or x mask else x

-- The four bytes that `marshalTo` writes at the front of the packet.
unfoldable pub marshal_header : PacketHeader → Bytes
marshal_header h =
    let flags =
      or_if h.transport_priority
        (or_if h.payload_unit_start
          (or_if h.transport_error (bit_and (byte (shr h.pid 8)) 0x1F) 0x80) 0x40)
        0x20 in
    let afc = or_if h.has_payload (or_if h.has_adaptation_field 0 0x02) 0x01 in
    sync_byte
    ∷ flags
    ∷ byte h.pid
    ∷ bit_or (bit_or (shl 8 h.scrambling_control 6) (shl 8 afc 4))
        (bit_and h.continuity_counter 0x0F)
    ∷ []
