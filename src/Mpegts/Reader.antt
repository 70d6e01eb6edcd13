-- ===== src/Mpegts/Reader.antt =====
-- mpegts/reader.go: a Reader's elementary streams, and what it does with a packet of one. The buffer
-- `out`, which only keeps the last unit alive, is a value here.
pub mod Tables
pub mod Units
pub mod Streams
pub mod Delivery
pub mod Delivered
use format.Prelude.{
  ℕ, zero, suc, ◌+◌, ◌-◌, ◌*◌, ◌/◌, ◌%◌, ◌^◌, Bool, true, false, not, ◌&&◌, ◌||◌, Option, none,
  some, List, [], ◌∷◌, ◌++◌, bit_and, ltb, ◌==◌, if◌then◌else◌, Bytes, length, drop, Result, ok,
  err,
}
use format.Prelude.Io.{Source}
use format.Prelude.Int.{ℤ, pos, negsuc}
use format.Mpegts.Packet.{PacketHeader, parse_packet_header}
use format.Mpegts.Payload.{packet_payload}
use format.Mpegts.Pes.{PesHeader, parse_pes_header}
use format.Mpegts.Pes.Timestamp.{extend_timestamp}
use format.Mpegts.Track.{Track}
use format.Mpegts.Errors.{Error}

pub record AccessUnit : Type 0 where
  pub track : Track
  pub pts : ℤ
  pub dts : ℤ
  pub random_access : Bool
  pub bytes : Bytes

pub record EsStream : Type 0 where
  pub track : Track
  pub buf : Bytes
  pub collecting : Bool
  pub has_cc : Bool
  pub cc : ℕ
  pub pts : ℤ
  pub dts : ℤ
  pub rai : Bool
  pub last_ts : ℤ

abbrev pub new_stream : Track → EsStream
new_stream track = record {
  track = track;
  buf = [];
  collecting = false;
  has_cc = false;
  cc = 0;
  pts = pos 0;
  dts = pos 0;
  rai = false;
  last_ts = negsuc 0;
}

-- `order` holds the streams; the map `streams` finds the last one with a PID. `flush_idx` counts the
-- streams that have been flushed at the end of the input.
pub record Reader : Type 0 where
  pub src : Source
  pub max_au_size : ℕ
  pub pmt_pid : ℕ
  pub order : List EsStream
  pub flush_idx : ℕ
  pub eof : Bool

unfoldable pub finish : EsStream → Option AccessUnit × EsStream
finish s =
    let au : AccessUnit = record {
      track = s.track;
      pts = s.pts;
      dts = s.dts;
      random_access = s.rai;
      bytes = s.buf;
    } in
    if not s.collecting || length s.buf == 0
    then (none, record s { collecting = false })
    else (some au, record s { buf = []; collecting = false })

abbrev pub begin_unit : EsStream → Bool → Bytes → PesHeader → EsStream
begin_unit s rai payload hdr =
    let dts = extend_timestamp s.last_ts (if hdr.has_dts then hdr.dts else hdr.pts) in
    record s {
      last_ts = dts;
      pts = extend_timestamp dts hdr.pts;
      dts = dts;
      rai = rai;
      buf = drop hdr.header_length payload;
      collecting = true;
    }

unfoldable pub start_unit : EsStream → Bool → Bytes → EsStream
start_unit s rai payload = elim (parse_pes_header payload) [
  | err e ↦ record s { collecting = false }
  | ok hdr ↦
      if not hdr.has_pts then record s { collecting = false } else begin_unit s rai payload hdr
]

-- `handleES` behind the test of the continuity counter.
unfoldable pub accept_packet :
    ℕ → EsStream → PacketHeader → Bool → Bytes → Option AccessUnit × EsStream
unfolding finish start_unit
accept_packet max_au_size stream hdr rai payload =
    let s = record stream { cc = hdr.continuity_counter; has_cc = true } in
    let (completed, s') = finish s in
    let buf = s.buf ++ payload in
    if hdr.payload_unit_start
    then (completed, start_unit s' rai payload)
    else if not s.collecting
    then (none, s)
    else if ltb max_au_size (length buf)
    then (none, record s { buf = []; collecting = false })
    else (none, record s { buf = buf })

unfoldable pub handle_es : ℕ → EsStream → PacketHeader → Bool → Bytes → Option AccessUnit × EsStream
unfolding accept_packet
handle_es max_au_size stream hdr rai payload =
    if stream.has_cc && (hdr.continuity_counter == stream.cc && not hdr.payload_unit_start)
    then (none, stream)
    else if stream.has_cc && not (hdr.continuity_counter == bit_and (stream.cc + 1) 0x0F)
    then accept_packet max_au_size (record stream { buf = []; collecting = false }) hdr rai payload
    else accept_packet max_au_size stream hdr rai payload

-- `r.streams[pid]`, and the write through the pointer that it holds.
unfoldable pub find_stream : ℕ → List EsStream → Option EsStream
find_stream pid [] = none
find_stream pid (s ∷ ss) = elim (find_stream pid ss) [
  | some t ↦ some t
  | none ↦ if s.track.pid == pid then some s else none
]

unfoldable pub update_stream : ℕ → EsStream → List EsStream → List EsStream
unfolding find_stream
update_stream pid new [] = []
update_stream pid new (s ∷ ss) = elim (find_stream pid ss) [
  | some t ↦ s ∷ update_stream pid new ss
  | none ↦ if s.track.pid == pid then new ∷ ss else s ∷ ss
]

-- A packet for an elementary stream.
unfoldable pub deliver : Reader → PacketHeader → EsStream → Bytes → Option AccessUnit × Reader
unfolding handle_es update_stream
deliver r hdr stream pkt = elim (packet_payload pkt hdr) [
  | err e ↦ (none, r)
  | ok (none, af) ↦ (none, r)
  | ok (some payload, af) ↦
      let (au, s) = handle_es r.max_au_size stream hdr af.random_access payload in
      (au, record r { order = update_stream hdr.pid s r.order })
]

unfoldable pub handle_packet : Reader → Bytes → Option AccessUnit × Reader
unfolding deliver find_stream
handle_packet r pkt = elim (parse_packet_header pkt) [
  | err e ↦ (none, r)
  | ok hdr ↦
      if hdr.transport_error || not (hdr.scrambling_control == 0)
      then (none, r)
      else elim (find_stream hdr.pid r.order) [
        | none ↦ (none, r)
        | some stream ↦ deliver r hdr stream pkt
      ]
]
