-- ===== src/Mpegts/Writer.antt =====
-- mpegts/writer.go: the state of a Writer and its configuration. `tracks` also stands for the map
-- `byPID`, which holds the same tracks under their PIDs; the scratch packet, and the scratch slices of
-- the PES header and the segments, are values here, since each use writes them anew.
pub mod Pes
pub mod Units
pub mod Tracks
use format.Prelude.{
  ℕ, zero, suc, ◌+◌, ◌-◌, ◌*◌, ◌/◌, ◌%◌, ◌^◌, Bool, true, false, not, ◌&&◌, ◌||◌, Option, none,
  some, List, [], ◌∷◌, ◌++◌, map, bit_and, leb, ltb, ◌==◌, if◌then◌else◌, Bytes, length, take,
  replicate, Result, ok, err, ◌>>=◌, ◌>>◌, reject_if,
}
use format.Prelude.Io.{Sink, write, IoError}
use format.Prelude.Int.{ℤ, pos}
use format.Mpegts.Packet.{PacketHeader, marshal_header, packet_size, pid_pat}
use format.Mpegts.Pat.{PatProgram, marshal_pat}
use format.Mpegts.Pmt.{PmtStream, Pmt, marshal_pmt}
use format.Mpegts.Track.{Codec, Track, stream_type_from_codec}
use format.Mpegts.Errors.{Error, no_tracks, pid_in_use, invalid_pid, psi_too_large, stream}

abbrev pub writer_pmt_pid : ℕ
writer_pmt_pid = 0x1000

abbrev pub min_elementary_pid : ℕ
min_elementary_pid = 0x0020

abbrev pub max_elementary_pid : ℕ
max_elementary_pid = 0x1FFE

pub record Writer : Type 0 where
  pub dst : Sink
  pub tracks : List Track
  pub cc : ℕ → ℕ
  pub pcr_pid : ℕ
  pub psi_written : Bool
  pub last_psi_dts : ℤ
  pub pat_raw : Bytes
  pub pmt_raw : Bytes

unfoldable pub by_pid : ℕ → List Track → Option Track
by_pid pid [] = none
by_pid pid (t ∷ ts) = if t.pid == pid then some t else by_pid pid ts

-- `withTrack`, the body of the options `WithH264Track` and `WithH265Track`.
unfoldable pub with_track : Codec → ℕ → List Track → Result Error (List Track)
unfolding by_pid
with_track codec pid tracks = do
  reject_if (ltb pid min_elementary_pid || ltb max_elementary_pid pid || pid == writer_pmt_pid)
      invalid_pid
  elim (by_pid pid tracks) [
    | some t ↦ err pid_in_use
    | none ↦ ok (tracks ++ (record { pid = pid; codec = codec } ∷ []))
  ]

-- The loop over the options of `NewWriter`.
unfoldable pub with_tracks : List Track → List Track → Result Error (List Track)
unfolding with_track
with_tracks tracks [] = ok tracks
with_tracks tracks (opt ∷ opts) = do
  more ← with_track opt.codec opt.pid tracks
  with_tracks more opts

abbrev pub pmt_entry : Track → PmtStream
pmt_entry t = record { stream_type = stream_type_from_codec t.codec; pid = t.pid }

abbrev pub first_pid : List Track → ℕ
first_pid [] = 0
first_pid (t ∷ ts) = t.pid

abbrev pub the_program : PatProgram
the_program = record { program_number = 1; pmt_pid = writer_pmt_pid }

-- `opts` are the tracks of the options, in order.
unfoldable pub new_writer : Sink → List Track → Result Error Writer
unfolding with_tracks
new_writer dst opts = do
  tracks ← with_tracks [] opts
  reject_if (length tracks == 0) no_tracks
  pat_raw ← marshal_pat 1 (the_program ∷ [])
  pmt_raw ← marshal_pmt 1 (record { pcr_pid = first_pid tracks; streams = map pmt_entry tracks })
  reject_if (ltb (packet_size - 4) (length pat_raw) || ltb (packet_size - 4) (length pmt_raw))
      psi_too_large
  ok (record {
    dst = dst;
    tracks = tracks;
    cc = λ pid. 0;
    pcr_pid = first_pid tracks;
    psi_written = false;
    last_psi_dts = pos 0;
    pat_raw = pat_raw;
    pmt_raw = pmt_raw;
  })

-- The counter of a PID, and the writer with the next one.
unfoldable pub next_cc : Writer → ℕ → ℕ × Writer
next_cc w pid =
    let counter = w.cc pid in
    (counter, record w { cc = λ p. if p == pid then bit_and (counter + 1) 0x0F else w.cc p })

abbrev pub plain_header : ℕ → Bool → ℕ → Bool → PacketHeader
plain_header pid start counter field = record {
  transport_error = false;
  payload_unit_start = start;
  transport_priority = false;
  pid = pid;
  scrambling_control = 0;
  has_adaptation_field = field;
  has_payload = true;
  continuity_counter = counter;
}

-- `w.dst.Write(pkt)`
abbrev pub emit : Writer → Bytes → Result Error (Unit {0}) × Writer
emit w pkt =
    let (r, dst) = write w.dst pkt in
    (elim r [ ok u ↦ ok tt | err e ↦ err (stream e) ], record w { dst = dst })

-- A table in one packet: `copy` stops where the packet does, and the rest is stuffing.
unfoldable pub section_packet : ℕ → ℕ → Bytes → Bytes
section_packet pid counter section =
    marshal_header (plain_header pid true counter false)
    ++ (take (packet_size - 4) section ++ replicate (packet_size - 4 - length section) 0xFF)

unfoldable pub write_section : Writer → ℕ → Bytes → Result Error (Unit {0}) × Writer
unfolding next_cc section_packet
write_section w pid section =
    let (counter, w') = next_cc w pid in emit w' (section_packet pid counter section)
