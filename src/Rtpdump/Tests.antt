-- ===== src/Rtpdump/Tests.antt =====
-- The theorems of the package rtpdump at concrete inputs, and some runs.
use format.Prelude.{
  ◌+◌, ◌*◌, ◌^◌, ◌≡◌, refl, arith, true, false, some, [], ◌∷◌, ◌++◌, Bytes, length, ok, err, inl,
  inr,
}
use format.Prelude.Int.{pos}
use format.Prelude.Io.{eof, read_full}
use format.Rtpdump.{
  malformed, stream, Header, Packet, ipv4, marshal, unmarshal, marshal_header, unmarshal_header,
  unmarshal_packet_header,
}
use format.Rtpdump.Preamble.{matches, preamble}
use format.Rtpdump.Files.{new_reader, new_writer, next_packet}
use format.Rtpdump.Codec.{IsHeader, IsPacket, unmarshal-marshal, unmarshal_header-marshal_header}
use format.Rtpdump.RoundTrip.{at_end, from, write_packets, next_packets, next_packets-write_packets}

abbrev rtp : Packet
rtp = record { offset = pos (7 * 10 ^ 6); is_rtcp = false; payload = 0x80 ∷ 0 ∷ 1 ∷ [] }

abbrev rtcp : Packet
rtcp = record { offset = pos (8 * 10 ^ 6); is_rtcp = true; payload = [] }

rtp-IsPacket : IsPacket rtp
rtp-IsPacket = record {
  millis = 7;
  offset_is = refl;
  millis_fit = omega arith;
  fits = omega arith;
  shown = inr (omega arith);
}

rtcp-IsPacket : IsPacket rtcp
rtcp-IsPacket = record {
  millis = 8;
  offset_is = refl;
  millis_fit = omega arith;
  fits = omega arith;
  shown = inl refl;
}

unmarshal-marshal_example :
    (out : Bytes) × (marshal rtp ≡ ok out)
    × (length out ≡ 11)
    × (unmarshal (out ++ (9 ∷ [])) ≡ ok rtp)
unmarshal-marshal_example = unmarshal-marshal rtp (9 ∷ []) rtp-IsPacket

abbrev a_header : Header
a_header = record { start = pos (9 * 10 ^ 9 + 5 * 10 ^ 3); source = ipv4 224 2 0 1; port = 3456 }

a_header-IsHeader : IsHeader a_header
a_header-IsHeader = record {
  sec = 9;
  usec = 5;
  a = 224;
  b = 2;
  c = 0;
  d = 1;
  start_is = refl;
  source_is = refl;
  sec_fits = omega arith;
  usec_fits = omega arith;
  port_fits = omega arith;
  address = (omega arith, (omega arith, (omega arith, (omega arith, tt))));
}

unmarshal_header-marshal_header_example :
    (length (marshal_header a_header) ≡ 16)
    × (unmarshal_header (marshal_header a_header ++ (1 ∷ [])) ≡ ok a_header)
unmarshal_header-marshal_header_example =
    unmarshal_header-marshal_header a_header (1 ∷ []) a_header-IsHeader

next_packets-write_packets_example :
    let started = new_writer (at_end []) a_header in
    let finished = write_packets started.1 (rtp ∷ rtcp ∷ []) in
    (started.0 ≡ ok tt)
    × (finished.0 ≡ ok tt)
    × ((body : Bytes) × (new_reader (from finished.1.written) ≡ ok (a_header, from body))
        × (next_packets 3 (from body) ≡ (rtp ∷ rtcp ∷ [], some (stream eof))))
next_packets-write_packets_example =
    next_packets-write_packets a_header (rtp ∷ rtcp ∷ []) a_header-IsHeader
      (rtp-IsPacket, (rtcp-IsPacket, tt))

-- A file that is cut right behind the header of a packet ends like a whole one.
cut_behind_header : (next_packet (from (0 ∷ 11 ∷ 0 ∷ 3 ∷ 0 ∷ 0 ∷ 0 ∷ 7 ∷ []))).0 ≡ err (stream eof)
unfolding next_packet read_full unmarshal_packet_header
cut_behind_header = refl

-- One that is cut anywhere else does not.
cut_in_payload : (next_packet (from (0 ∷ 11 ∷ 0 ∷ 3 ∷ 0 ∷ 0 ∷ 0 ∷ 7 ∷ 0x80 ∷ []))).0 ≡ err malformed
unfolding next_packet read_full unmarshal_packet_header
cut_in_payload = refl

-- The look-ahead may begin with other bytes than the preamble.
preamble_not_first : matches (0xFF ∷ preamble (ipv4 1 2 3 4) 5) ≡ true
unfolding matches preamble
preamble_not_first = refl
