-- ===== src/Mpegts/Reader/Units.antt =====
-- mpegts/reader.go, `NextAccessUnit`: the packets in order, and the streams flushed at the end.
use format.Prelude.{
  ℕ, zero, suc, ◌+◌, ◌-◌, true, false, none, some, List, [], ◌∷◌, Bytes, length, get_elem?, Result,
  ok, err,
}
use format.Prelude.Io.{Source, IoError, eof, unexpected_eof, read_full}
use format.Mpegts.Packet.{packet_size}
use format.Mpegts.Reader.{AccessUnit, EsStream, Reader, finish, handle_packet}
use format.Mpegts.Errors.{Error, stream}

-- `readPacket`: a short packet at the end is the end.
unfoldable pub read_packet : Source → Result IoError Bytes × Source
read_packet src =
    let (r, src') = read_full packet_size src in
    (elim r [ ok pkt ↦ ok pkt | err unexpected_eof ↦ err eof | err e ↦ err e ], src')

abbrev set_stream : ℕ → EsStream → List EsStream → List EsStream
set_stream i s [] = []
set_stream zero s (t ∷ ts) = s ∷ ts
set_stream (suc i) s (t ∷ ts) = t ∷ set_stream i s ts

-- The loop over the streams that are not flushed yet; `left` is their number.
flush : ℕ → Reader → Result Error AccessUnit × Reader
unfolding finish
flush zero r = (err (stream eof), r)
flush (suc left) r = elim (get_elem? r.order r.flush_idx) [
  | none ↦ (err (stream eof), r)
  | some s ↦
      let (au, s') = finish s in
      let r' = record r {
        order = set_stream r.flush_idx s' r.order;
        flush_idx = r.flush_idx + 1;
      } in
      elim au [ some unit ↦ (ok unit, r') | none ↦ flush left r' ]
]

-- The loop of `NextAccessUnit` over the packets; a packet takes 188 bytes, so that as many rounds as
-- there are bytes, and one for the end, are enough.
next_loop : ℕ → Reader → Result Error AccessUnit × Reader
unfolding flush read_packet handle_packet
next_loop zero r = (err (stream eof), r)
next_loop (suc fuel) r =
    let (read, src) = read_packet r.src in
    let r' = record r { src = src } in
    elim r.eof [
      | true ↦ flush (length r.order - r.flush_idx) r
      | false ↦ elim read [
        | err eof ↦ let r'' = record r' { eof = true } in flush (length r.order - r.flush_idx) r''
        | err e ↦ (err (stream e), r')
        | ok pkt ↦
            let (au, r'') = handle_packet r' pkt in
            elim au [ some unit ↦ (ok unit, r'') | none ↦ next_loop fuel r'' ]
      ]
    ]

unfoldable pub next_access_unit : Reader → Result Error AccessUnit × Reader
unfolding next_loop
next_access_unit r = next_loop (suc (length r.src.bytes)) r
