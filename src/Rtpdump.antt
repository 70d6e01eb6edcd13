-- ===== src/Rtpdump.antt =====
-- rtpdump/rtpdump.go: the header of a file and its packets, in binary. A `time.Time` is its nanoseconds
-- since 1970 and a `time.Duration` its nanoseconds; a `net.IP` is its bytes.
pub mod Preamble
pub mod Files
pub mod Codec
pub mod RoundTrip
pub mod Tests
use format.Prelude.{
  ℕ, zero, suc, ◌+◌, ◌-◌, ◌*◌, ◌/◌, ◌%◌, ◌^◌, ◌≡◌, Bool, true, false, not, ◌&&◌, ◌||◌, List, [],
  ◌∷◌, ◌++◌, ltb, ◌==◌, if◌then◌else◌, Bytes, length, take, drop, replicate, Result, ok, err, ◌>>=◌,
  ◌>>◌, reject_if,
}
use format.Prelude.Words.{byte_at}
use format.Prelude.Int.{ℤ, pos, negsuc}
use format.Prelude.Io.{IoError, be_16, be_32, put_be_16, put_be_32}

pub data Error : Type 0 where
  malformed : Error
  stream : IoError → Error

abbrev pub pkt_header_len : ℕ
pkt_header_len = 8

abbrev pub header_len : ℕ
header_len = 16

abbrev pub preamble_len : ℕ
preamble_len = 36

pub record Header : Type 0 where
  pub start : ℤ
  pub source : Bytes
  pub port : ℕ

-- The prefix of an IPv4 address among the IPv6 addresses.
abbrev all_zero : ℕ → Bytes → Bool
all_zero zero bs = true
all_zero (suc n) [] = false
all_zero (suc n) (b ∷ bs) = b == 0 && all_zero n bs

abbrev pub is_mapped : Bytes → Bool
is_mapped ip = all_zero 10 ip && (byte_at ip 10 == 0xFF && byte_at ip 11 == 0xFF)

-- `net.IP.To4`; the empty list is nil.
unfoldable pub to_4 : Bytes → Bytes
to_4 ip = if length ip == 4 then ip else if length ip == 16 && is_mapped ip then drop 12 ip else []

-- `net.IPv4`
abbrev pub ipv4 : ℕ → ℕ → ℕ → ℕ → Bytes
ipv4 a b c d = 0 ∷ 0 ∷ 0 ∷ 0 ∷ 0 ∷ 0 ∷ 0 ∷ 0 ∷ 0 ∷ 0 ∷ 255 ∷ 255 ∷ a ∷ b ∷ c ∷ d ∷ []

-- `int64` divided by a positive number, toward 0, as a uint32; and the remainder, in the same way.
abbrev negated : ℕ → ℕ
negated n = (2 ^ 32 - n % 2 ^ 32) % 2 ^ 32

abbrev pub quotient_32 : ℤ → ℕ → ℕ
quotient_32 (pos n) d = n / d % 2 ^ 32
quotient_32 (negsuc n) d = negated ((n + 1) / d)

abbrev pub micros_32 : ℤ → ℕ
micros_32 (pos n) = n % 10 ^ 9 / 10 ^ 3 % 2 ^ 32
micros_32 (negsuc n) = negated ((n + 1) % 10 ^ 9 / 10 ^ 3)

-- `copy(data[8:], source)` into zeros, where the four bytes of a `To4` are copied or none.
abbrev source_bytes : Bytes → Bytes
source_bytes ip = if length ip == 4 then ip else replicate 4 0

unfoldable pub marshal_header : Header → Bytes
unfolding to_4
marshal_header h =
    put_be_32 (quotient_32 h.start (10 ^ 9))
    ++ (put_be_32 (micros_32 h.start)
        ++ (source_bytes (to_4 h.source) ++ (put_be_16 h.port ++ (0 ∷ 0 ∷ []))))

unfoldable pub unmarshal_header : Bytes → Result Error Header
unmarshal_header buf =
    let at = byte_at buf in
    let sec = be_32 (at 0) (at 1) (at 2) (at 3) in
    let usec = be_32 (at 4) (at 5) (at 6) (at 7) in
    if ltb (length buf) header_len
    then err malformed
    else ok (record {
      start = pos (sec * 10 ^ 9 + usec * 10 ^ 3);
      source = ipv4 (at 8) (at 9) (at 10) (at 11);
      port = be_16 (at 12) (at 13);
    })

pub record Packet : Type 0 where
  pub offset : ℤ
  pub is_rtcp : Bool
  pub payload : Bytes

pub record PacketHeader : Type 0 where
  pub len : ℕ
  pub packet_length : ℕ
  pub offset : ℕ

unfoldable pub marshal_packet_header : PacketHeader → Bytes
marshal_packet_header h = put_be_16 h.len ++ (put_be_16 h.packet_length ++ put_be_32 h.offset)

unfoldable pub unmarshal_packet_header : Bytes → Result Error PacketHeader
unmarshal_packet_header buf =
    let at = byte_at buf in
    if ltb (length buf) pkt_header_len
    then err malformed
    else ok (record {
      len = be_16 (at 0) (at 1);
      packet_length = be_16 (at 2) (at 3);
      offset = be_32 (at 4) (at 5) (at 6) (at 7);
    })

-- `packetHeader.offset`
abbrev pub offset_of : PacketHeader → ℤ
offset_of h = pos (h.offset * 10 ^ 6)

unfoldable pub marshal : Packet → Result Error Bytes
unfolding marshal_packet_header
marshal p = do
  reject_if (ltb (2 ^ 16 - 1 - pkt_header_len) (length p.payload)) malformed
  let hdr : PacketHeader = record {
    len = (length p.payload % 2 ^ 16 + 8) % 2 ^ 16;
    packet_length = if p.is_rtcp then 0 else length p.payload % 2 ^ 16;
    offset = quotient_32 p.offset (10 ^ 6);
  }
  ok (marshal_packet_header hdr ++ p.payload)

unfoldable pub unmarshal : Bytes → Result Error Packet
unfolding unmarshal_packet_header
unmarshal buf = do
  hdr ← unmarshal_packet_header buf
  reject_if (ltb hdr.len 8) malformed
  reject_if (ltb (length buf) hdr.len) malformed
  ok (record {
    offset = offset_of hdr;
    is_rtcp = not (hdr.len == 0) && hdr.packet_length == 0;
    payload = drop 8 (take hdr.len buf);
  })
