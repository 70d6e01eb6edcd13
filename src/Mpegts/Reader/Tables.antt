-- ===== src/Mpegts/Reader/Tables.antt =====
-- mpegts/reader.go, `NewReader`: the options, and packets until both tables have been read.
use format.Prelude.{
  ℕ, zero, suc, ◌*◌, ◌^◌, Bool, true, false, not, ◌&&◌, Option, none, some, List, [], ◌∷◌, ◌++◌,
  ◌==◌, if◌then◌else◌, Bytes, length, Result, ok, err,
}
use format.Prelude.Io.{Source, eof}
use format.Prelude.Int.{ℤ, pos_part}
use format.Mpegts.Packet.{PacketHeader, parse_packet_header, pid_pat}
use format.Mpegts.Payload.{packet_payload}
use format.Mpegts.Psi.{SectionAssembler, feed, parse_section_bytes}
use format.Mpegts.Pat.{parse_pat}
use format.Mpegts.Pmt.{PmtStream, parse_pmt}
use format.Mpegts.Track.{unknown, codec_from_stream_type}
use format.Mpegts.Reader.{EsStream, new_stream, Reader}
use format.Mpegts.Reader.Units.{read_packet}
use format.Mpegts.Errors.{Error, no_usable_program, invalid_max_au_size, stream}

-- `readPAT`: the PID of the first program, where the section is a usable PAT.
unfoldable pub read_pat : Bytes → Option ℕ
read_pat section = elim (parse_section_bytes section) [
  | err e ↦ none
  | ok sec ↦ elim (parse_pat sec) [ ok (p ∷ ps) ↦ some p.pmt_pid | _ ↦ none ]
]

-- The loop of `readPMT` over the streams of the table.
unfoldable pub add_streams : List PmtStream → List EsStream → List EsStream
unfolding codec_from_stream_type
add_streams [] order = order
add_streams (e ∷ es) order = elim (codec_from_stream_type e.stream_type) [
  | unknown ↦ add_streams es order
  | codec ↦ add_streams es (order ++ (new_stream (record { pid = e.pid; codec = codec }) ∷ []))
]

-- `readPMT`; `none` waits for the next repetition.
unfoldable pub read_pmt : Bytes → Reader → Option (Result Error Reader)
unfolding add_streams
read_pmt section r = elim (parse_section_bytes section) [
  | err e ↦ none
  | ok sec ↦ elim (parse_pmt sec) [
    | err e ↦ none
    | ok table ↦
        let order = add_streams table.streams r.order in
        if length order == 0
        then some (err no_usable_program)
        else some (ok (record r { order = order }))
  ]
]

-- The state of `readTables`.
pub record TableState : Type 0 where
  pub reader : Reader
  pub have_pat : Bool
  pub pat_asm : SectionAssembler
  pub pmt_asm : SectionAssembler

abbrev pat_payload : TableState → PacketHeader → Bytes → TableState
pat_payload st hdr payload =
    let (asm, section) = feed st.pat_asm hdr.payload_unit_start payload in
    let st' = record st { pat_asm = asm } in
    elim section [
      | none ↦ st'
      | some bytes ↦ elim (read_pat bytes) [
        | none ↦ st'
        | some pid ↦ record st' { reader = record st.reader { pmt_pid = pid }; have_pat = true }
      ]
    ]

abbrev pmt_payload : TableState → PacketHeader → Bytes → TableState × Option (Result Error Reader)
pmt_payload st hdr payload =
    let (asm, section) = feed st.pmt_asm hdr.payload_unit_start payload in
    let st' = record st { pmt_asm = asm } in
    elim section [ none ↦ (st', none) | some bytes ↦ (st', read_pmt bytes st.reader) ]

-- One packet of the loop: the new state, and the result where the loop ends.
unfoldable pub table_step : TableState → Bytes → TableState × Option (Result Error Reader)
unfolding read_pat read_pmt
table_step st pkt = elim (parse_packet_header pkt) [
  | err e ↦ (st, none)
  | ok hdr ↦ if hdr.transport_error then (st, none) else elim (packet_payload pkt hdr) [
    | err e ↦ (st, none)
    | ok (none, af) ↦ (st, none)
    | ok (some payload, af) ↦
        if hdr.pid == pid_pat && not st.have_pat
        then (pat_payload st hdr payload, none)
        else if st.have_pat && hdr.pid == st.reader.pmt_pid
        then pmt_payload st hdr payload
        else (st, none)
  ]
]

-- `readTables`; a packet takes 188 bytes, so that as many rounds as there are bytes are enough.
read_tables : ℕ → TableState → Result Error Reader
unfolding table_step read_packet
read_tables zero st = err no_usable_program
read_tables (suc fuel) st =
    let (read, src) = read_packet st.reader.src in
    let st' = record st { reader = record st.reader { src = src } } in
    elim read [
      | err eof ↦ err no_usable_program
      | err e ↦ err (stream e)
      | ok pkt ↦
          let (st'', done) = table_step st' pkt in
          elim done [ some r ↦ r | none ↦ read_tables fuel st'' ]
    ]

abbrev pub default_max_access_unit_size : ℕ
default_max_access_unit_size = 4 * 2 ^ 20

-- The options of `NewReader`, each the argument of `WithMaxAccessUnitSize`: the last one counts.
unfoldable pub max_size : ℕ → List ℤ → Result Error ℕ
max_size n [] = ok n
max_size n (o ∷ os) = if pos_part o == 0 then err invalid_max_au_size else max_size (pos_part o) os

abbrev pub no_section : SectionAssembler
no_section = record { buf = []; active = false }

abbrev pub tables_from : Source → ℕ → TableState
tables_from src n = record {
  reader = record {
    src = src;
    max_au_size = n;
    pmt_pid = 0;
    order = [];
    flush_idx = 0;
    eof = false;
  };
  have_pat = false;
  pat_asm = no_section;
  pmt_asm = no_section;
}

unfoldable pub new_reader : Source → List ℤ → Result Error Reader
unfolding read_tables max_size
new_reader src options = elim (max_size default_max_access_unit_size options) [
  | err e ↦ err e
  | ok n ↦ read_tables (suc (length src.bytes)) (tables_from src n)
]
