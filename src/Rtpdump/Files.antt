-- ===== src/Rtpdump/Files.antt =====
-- rtpdump/reader.go and rtpdump/writer.go. The mutexes serialise the calls; each is one step here.
use format.Prelude.{◌-◌, not, ltb, ◌==◌, if◌then◌else◌, Bytes, length, take, Result, ok, err}
use format.Prelude.Io.{IoError, unexpected_eof, fault, Source, read_full, Sink, write}
use format.Rtpdump.{
  Error, malformed, stream, Header, Packet, PacketHeader, pkt_header_len, header_len, preamble_len,
  marshal, marshal_header, unmarshal_header, unmarshal_packet_header, offset_of,
}
use format.Rtpdump.Preamble.{preamble, matches, after_line}

-- `bio.Peek(preambleLen)`: a stream that ends before is the end, or its fault.
abbrev pub peek : Source → Result Error Bytes
peek src =
    if ltb (length src.bytes) preamble_len
    then err (if src.broken then stream fault else malformed)
    else ok (take preamble_len src.bytes)

-- A read in full, where the error of a read that ends inside is `malformed`.
abbrev pub read_whole : IoError → Error
read_whole unexpected_eof = malformed
read_whole e = stream e

-- `NewReader`; a Reader is what is left of its stream.
unfoldable pub new_reader : Source → Result Error (Header × Source)
unfolding read_full
new_reader src = elim (peek src) [
  | err e ↦ err e
  | ok front ↦
      if not (matches front)
      then err malformed
      else (let (buf, src') = read_full header_len (record src { bytes = after_line src.bytes }) in
          elim buf [
            | err fault ↦ err (stream fault)
            | err e ↦ err malformed
            | ok bytes ↦ elim (unmarshal_header bytes) [ err e ↦ err e | ok hdr ↦ ok (hdr, src') ]
          ])
]

-- The payload of a packet behind its header.
abbrev pub read_payload : PacketHeader → Source → Result Error Packet × Source
read_payload hdr src =
    let (buf, src') = read_full (hdr.len - pkt_header_len) src in
    (
      elim buf [
        | err e ↦ err (read_whole e)
        | ok payload ↦
            ok (record {
              offset = offset_of hdr;
              is_rtcp = hdr.packet_length == 0;
              payload = payload;
            })
      ],
      src',
    )

-- `Reader.Next`
unfoldable pub next_packet : Source → Result Error Packet × Source
unfolding unmarshal_packet_header read_full
next_packet src =
    let (buf, src') = read_full pkt_header_len src in
    elim buf [
      | err e ↦ (err (read_whole e), src')
      | ok bytes ↦ elim (unmarshal_packet_header bytes) [
        | err e ↦ (err e, src')
        | ok hdr ↦
            if ltb hdr.len pkt_header_len then (err malformed, src') else read_payload hdr src'
      ]
    ]

abbrev pub wrote : Result IoError (Unit {0}) → Result Error (Unit {0})
wrote (ok u) = ok tt
wrote (err e) = err (stream e)

-- `NewWriter`; a Writer is its destination.
unfoldable pub new_writer : Sink → Header → Result Error (Unit {0}) × Sink
unfolding write preamble marshal_header
new_writer dst hdr =
    let (first, dst') = write dst (preamble hdr.source hdr.port) in
    let (second, dst'') = write dst' (marshal_header hdr) in
    elim first [ err e ↦ (err (stream e), dst') | ok u ↦ (wrote second, dst'') ]

-- `Writer.WritePacket`
unfoldable pub write_packet : Sink → Packet → Result Error (Unit {0}) × Sink
unfolding write marshal
write_packet dst p = elim (marshal p) [
  | err e ↦ (err e, dst)
  | ok bytes ↦ let (r, dst') = write dst bytes in (wrote r, dst')
]
