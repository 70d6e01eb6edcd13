-- ===== src/Rtpdump/RoundTrip.antt =====
-- rtpdump/writer.go and rtpdump/reader.go: a whole file.
use format.Prelude.{
  ℕ, zero, suc, ◌-◌, ◌≤◌, ◌≡◌, refl, sym, ap, ◌∙◌, arith, true, false, List, [], ◌∷◌, ◌++◌, ◌==◌,
  le→ltb, append_assoc, append-nil, Option, none, some, Bytes, length, take, All, length-append,
  Result, ok, err,
}
use format.Prelude.Io.{IoError, eof, Source, read_full, read_full-append, Sink, write}
use format.Rtpdump.{
  Error, stream, Header, Packet, PacketHeader, ipv4, marshal, marshal_header, unmarshal_header,
  marshal_packet_header, unmarshal_packet_header, offset_of,
}
use format.Rtpdump.Preamble.{preamble, matches, after_line}
use format.Rtpdump.Preamble.Matched.{IsSpelled, length-preamble, peek_matches, after_line-preamble}
use format.Rtpdump.Files.{
  peek, read_whole, read_payload, new_reader, next_packet, new_writer, write_packet,
}
use format.Rtpdump.Codec.{
  IsHeader, IsPacket, header_of, marshal-header_of, packet_of_header, header_of_fits,
  unmarshal_packet_header-marshal_packet_header, unmarshal_header-marshal_header,
}

abbrev pub at_end : Bytes → Sink
at_end out = record { written = out; faults = [] }

abbrev pub from : Bytes → Source
from bytes = record { bytes = bytes; broken = false }

new_writer_lem :
    (h : Header)
    → new_writer (at_end []) h ≡ (ok tt, at_end (preamble h.source h.port ++ marshal_header h))
unfolding new_writer write
new_writer_lem h = refl

new_reader_of :
    (src : Source) (front bytes : Bytes) (h : Header) (src' : Source)
    → peek src ≡ ok front
    → matches front ≡ true
    → read_full 16 (record src { bytes = after_line src.bytes }) ≡ (ok bytes, src')
    → unmarshal_header bytes ≡ ok h
    → new_reader src ≡ ok (h, src')
unfolding new_reader
new_reader_of src front bytes h src' seen good read parsed =
    rw (seen, new_reader)
      (rw good (
        rw (read, new_reader)
          (rw parsed (ap (λ (o : Result IoError Bytes × Source). ok (h, o.1)) read))))

read_payload_of :
    (hdr : PacketHeader) (src src' : Source) (payload : Bytes)
    → read_full (hdr.len - 8) src ≡ (ok payload, src')
    → read_payload hdr src ≡ (
      ok (record { offset = offset_of hdr; is_rtcp = hdr.packet_length == 0; payload = payload }),
      src',
    )
read_payload_of hdr src src' payload body =
    ap
      (λ (o : Result IoError Bytes × Source). (
        elim o.0 [
          | err e ↦ err (read_whole e)
          | ok bytes ↦
              ok (record {
                offset = offset_of hdr;
                is_rtcp = hdr.packet_length == 0;
                payload = bytes;
              })
        ],
        o.1,
      ))
      body

next_packet_of :
    (src src' src'' : Source) (bytes payload : Bytes) (hdr : PacketHeader)
    → read_full 8 src ≡ (ok bytes, src')
    → unmarshal_packet_header bytes ≡ ok hdr
    → 8 ≤ hdr.len
    → read_full (hdr.len - 8) src' ≡ (ok payload, src'')
    → next_packet src ≡ (
      ok (record { offset = offset_of hdr; is_rtcp = hdr.packet_length == 0; payload = payload }),
      src'',
    )
unfolding next_packet
next_packet_of src src' src'' bytes payload hdr head parsed low body =
    rw (head, next_packet)
      (rw (parsed, next_packet)
        (rw (le→ltb hdr.len 8 low) (
          ap (λ (o : Result IoError Bytes × Source). read_payload hdr o.1) head
          ∙ read_payload_of hdr src' src'' payload body)))

new_reader_lem :
    (h : Header) (v : IsHeader h) (body : Bytes)
    → new_reader (from ((preamble h.source h.port ++ marshal_header h) ++ body)) ≡ ok (h, from body)
new_reader_lem h v body =
    let pre : Bytes = preamble h.source h.port in
    let hb : Bytes = marshal_header h in
    let (size, parsed) = unmarshal_header-marshal_header h [] v in
    let spelled : IsSpelled v.a v.b v.c v.d h.port = record {
      address = v.address;
      port_fits = v.port_fits;
    } in
    let is_pre : pre ≡ preamble (ipv4 v.a v.b v.c v.d) h.port =
      ap (λ (ip : Bytes). preamble ip h.port) v.source_is in
    let (low, high) = length-preamble v.a v.b v.c v.d h.port spelled in
    let long : 36 ≤ length ((pre ++ hb) ++ body) = omega (
      arith,
      ap (λ (l : Bytes). length l) is_pre,
      size,
      length-append (pre ++ hb) body,
      length-append pre hb,
    ) in
    new_reader_of (from ((pre ++ hb) ++ body)) (take 36 ((pre ++ hb) ++ body)) hb h (from body)
      (rw (le→ltb (length ((pre ++ hb) ++ body)) 36 long) refl)
      (ap (λ (l : Bytes). matches (take 36 l)) (whole is_pre)
        ∙ peek_matches v.a v.b v.c v.d h.port spelled (hb ++ body))
      (ap (λ (l : Bytes). read_full 16 (from (after_line l))) (whole is_pre)
        ∙ ap (λ (l : Bytes). read_full 16 (from l))
            (after_line-preamble v.a v.b v.c v.d h.port spelled (hb ++ body))
        ∙ read_full-append 16 hb body false (sym size))
      (ap unmarshal_header (sym (append-nil hb)) ∙ parsed)
  where
    whole :
        {pre pre' : Bytes}
        → pre ≡ pre'
        → (pre ++ marshal_header h) ++ body ≡ pre' ++ (marshal_header h ++ body)
    whole {pre} e =
        append_assoc pre (marshal_header h) body
        ∙ ap (λ (l : Bytes). l ++ (marshal_header h ++ body)) e

-- One packet from the front of the stream.
next_packet-marshal :
    (p : Packet) (v : IsPacket p) (rest : Bytes)
    → next_packet (from ((marshal_packet_header (header_of p v.millis) ++ p.payload) ++ rest))
      ≡ (ok p, from rest)
next_packet-marshal p v rest =
    let h : PacketHeader = header_of p v.millis in
    let hb : Bytes = marshal_packet_header h in
    let size : length hb ≡ 8 = unfold marshal_packet_header in refl in
    next_packet_of (from ((hb ++ p.payload) ++ rest)) (from (p.payload ++ rest)) (from rest) hb
      p.payload h
      (ap (λ (l : Bytes). read_full 8 (from l)) (append_assoc hb p.payload rest)
        ∙ read_full-append 8 hb (p.payload ++ rest) false (sym size))
      (ap unmarshal_packet_header (sym (append-nil hb))
        ∙ unmarshal_packet_header-marshal_packet_header h [] v.fits (header_of_fits p v)
            v.millis_fit)
      (omega arith) (read_full-append (h.len - 8) p.payload rest false (omega arith))
    ∙ ap (λ (q : Packet). (ok q, from rest)) (packet_of_header p v)

-- `WritePacket` for each packet, up to the first error.
unfoldable pub write_packets : Sink → List Packet → Result Error (Unit {0}) × Sink
write_packets dst [] = (ok tt, dst)
write_packets dst (p ∷ ps) =
    let (r, dst') = write_packet dst p in
    elim r [ ok u ↦ write_packets dst' ps | err e ↦ (err e, dst') ]

-- `Next` until it fails, at most `fuel` times: the packets and the error.
unfoldable pub next_packets : ℕ → Source → List Packet × Option Error
next_packets zero src = ([], none)
next_packets (suc fuel) src =
    let (r, src') = next_packet src in
    let rest = next_packets fuel src' in
    elim r [ ok p ↦ (p ∷ rest.0, rest.1) | err e ↦ ([], some e) ]

write_packet_lem :
    (p : Packet) (bytes out : Bytes)
    → marshal p ≡ ok bytes
    → write_packet (at_end out) p ≡ (ok tt, at_end (out ++ bytes))
unfolding write_packet write
write_packet_lem p bytes out e = rw (e, write_packet) refl

write_packets_step :
    (dst dst' : Sink) (p : Packet) (ps : List Packet)
    → write_packet dst p ≡ (ok tt, dst')
    → write_packets dst (p ∷ ps) ≡ write_packets dst' ps
unfolding write_packets
write_packets_step dst dst' p ps e =
    ap
      (λ (o : Result Error (Unit {0}) × Sink). elim o.0 [
        | ok u ↦ write_packets o.1 ps
        | err e ↦ (err e, o.1)
      ])
      e

next_packets_step :
    (fuel : ℕ) (src src' : Source) (p : Packet)
    → next_packet src ≡ (ok p, src')
    → next_packets (suc fuel) src ≡ (p ∷ (next_packets fuel src').0, (next_packets fuel src').1)
unfolding next_packets
next_packets_step fuel src src' p e =
    ap
      (λ (o : Result Error Packet × Source). elim o.0 [
        | ok q ↦ (q ∷ (next_packets fuel o.1).0, (next_packets fuel o.1).1)
        | err e ↦ ([], some e)
      ])
      e

packets_round_trip :
    (ps : List Packet) (out : Bytes)
    → All IsPacket ps
    → (body : Bytes) × (write_packets (at_end out) ps ≡ (ok tt, at_end (out ++ body)))
      × (next_packets (suc (length ps)) (from body) ≡ (ps, some (stream eof)))
unfolding write_packets next_packets next_packet read_full
packets_round_trip [] out v =
    ([], ap (λ (l : Bytes). (ok tt, at_end l)) (sym (append-nil out)), refl)
packets_round_trip (p ∷ ps) out (v, vs) =
    let bytes : Bytes = marshal_packet_header (header_of p v.millis) ++ p.payload in
    let (body, written, read) = packets_round_trip ps (out ++ bytes) vs in
    (
      bytes ++ body,
      write_packets_step (at_end out) (at_end (out ++ bytes)) p ps
            (write_packet_lem p bytes out (marshal-header_of p v))
          ∙ written
          ∙ ap (λ (l : Bytes). (ok tt, at_end l)) (append_assoc out bytes body),
      next_packets_step (suc (length ps)) (from (bytes ++ body)) (from body) p
            (next_packet-marshal p v body)
          ∙ ap (λ (o : List Packet × Option Error). (p ∷ o.0, o.1)) read,
    )

-- A file that a Writer makes of a header and packets, on a destination that takes everything, is written
-- without an error, and read back: `NewReader` gives the header, and `Next` the packets in order and
-- then `io.EOF`. The header has an IPv4 source, a port of 16 bits and a start in microseconds with seconds of 32 bits; each
-- packet has an offset in milliseconds below 2^32 and a payload of less than 65528 bytes, which is not
-- empty unless the packet is RTCP.
pub next_packets-write_packets :
    (h : Header) (ps : List Packet)
    → IsHeader h
    → All IsPacket ps
    → let started = new_writer (at_end []) h in
      let finished = write_packets started.1 ps in
      (started.0 ≡ ok tt)
      × (finished.0 ≡ ok tt)
      × ((body : Bytes) × (new_reader (from finished.1.written) ≡ ok (h, from body))
          × (next_packets (suc (length ps)) (from body) ≡ (ps, some (stream eof))))
next_packets-write_packets h ps v vs =
    let top : Bytes = preamble h.source h.port ++ marshal_header h in
    let (body, written, read) = packets_round_trip ps top vs in
    let started = new_writer_lem h in
    let all = ap (λ (o : Result Error (Unit {0}) × Sink). write_packets o.1 ps) started ∙ written in
    (
      ap (λ (o : Result Error (Unit {0}) × Sink). o.0) started,
      ap (λ (o : Result Error (Unit {0}) × Sink). o.0) all,
      (
        body,
        ap (λ (o : Result Error (Unit {0}) × Sink). new_reader (from o.1.written)) all
            ∙ new_reader_lem h v body,
        read,
      ),
    )
