-- ===== src/Mpegts/Tests.antt =====
-- The theorems of the package mpegts at concrete inputs, and some runs.
use format.Prelude.{
  some, ℕ, Bool, ◌-◌, ◌+◌, ◌*◌, ◌/◌, ◌^◌, ◌≤◌, ◌≡◌, ◌≢◌, refl, arith, true, false, List, [], ◌∷◌,
  ◌++◌, Bytes, Result, All, ◌<◌, length, concat, ok, err, ◌>>=◌, inl, replicate,
}
use format.Prelude.Int.{pos, negsuc, pos_part, neg_part}
use format.Mpegts.Errors.{Error, out_of_fuel}
use format.Mpegts.Psi.{PsiSection, marshal, parse_psi_section}
use format.Mpegts.Psi.Assembled.{IsSection, feed_section, feed_section_lem}
use format.Mpegts.Psi.RoundTrip.{parse_psi_section-marshal}
use format.Mpegts.Pat.{PatProgram, pat_body, marshal_pat, parse_pat}
use format.Mpegts.Pat.RoundTrip.{parse_pat-marshal_pat}
use format.Mpegts.Pmt.{Pmt, pmt_body, stream_entries, marshal_pmt, parse_pmt, pmt_streams}
use format.Mpegts.Pmt.RoundTrip.{parse_pmt-marshal_pmt}
use format.Mpegts.Pmt.Fuel.{pmt_streams_fuel}
use format.Mpegts.Packet.{PacketHeader}
use format.Mpegts.Adaptation.{AdaptationField, marshal_field, parse_adaptation_field, encoded_len}
use format.Mpegts.Adaptation.RoundTrip.{parse_adaptation_field-marshal_field, visible}
use format.Mpegts.Pes.{append_pes_header, parse_pes_header}
use format.Mpegts.Pes.RoundTrip.{visible as shown, parse_pes_header-append_pes_header}
use format.Mpegts.Pes.Timestamp.{timestamp_wrap, masked, extend_timestamp}
use format.Mpegts.Pes.Timestamp.Nearest.{extend_timestamp_nearest}
use format.Mpegts.Track.{Track, h264, h265}
use format.Mpegts.Writer.{Writer, by_pid, new_writer}
use format.Mpegts.Writer.Tracks.{IsFree, Indexed, Apart, new_writer-tracks}
use format.Mpegts.Writer.Pes.{PesJob, write_pes}
use format.Mpegts.Writer.Pes.Loop.{taken, on, Written, write_pes_lem}
use format.Mpegts.Reader.{Reader, new_stream, find_stream}
use format.Mpegts.RoundTrip.Unit.{Access, InStep, IsAccess, IsElementary, Sent, write_access-Sent}
use format.Mpegts.RoundTrip.Sequence.{AllSent, AllTimed, write_accesses-handle_packets}

abbrev a_section : PsiSection
a_section = record { table_id = 2; table_id_extension = 0x1234; version = 3; body = 7 ∷ 8 ∷ 9 ∷ [] }

parse_psi_section-marshal_example :
    (out : Bytes) × (marshal a_section ≡ ok out)
    × (length out ≡ 16)
    × (parse_psi_section (out ++ (0xFF ∷ 0xFF ∷ [])) ≡ ok a_section)
parse_psi_section-marshal_example =
    parse_psi_section-marshal a_section (0xFF ∷ 0xFF ∷ [])
      (record { id_fits = omega arith; extension_fits = omega arith; version_fits = omega arith })
      (omega arith)

abbrev long_section : PsiSection
long_section = record a_section { body = replicate 1013 0 }

abbrev a_program : PatProgram
a_program = record { program_number = 1; pmt_pid = 0x1000 }

parse_pat-marshal_pat_example :
    (out : Bytes) × (marshal_pat 1 (a_program ∷ []) ≡ ok out)
    × ((parse_psi_section (out ++ (0xFF ∷ [])) >>= parse_pat) ≡ ok (a_program ∷ []))
parse_pat-marshal_pat_example =
    parse_pat-marshal_pat 1 (a_program ∷ []) (0xFF ∷ []) (omega arith)
      (record { number_pos = omega arith; number_fits = omega arith; pid_fits = omega arith }, tt)
      (omega arith)

abbrev a_table : Pmt
a_table = record {
  pcr_pid = 0x100;
  streams =
      record { stream_type = 0x1B; pid = 0x100 } ∷ record { stream_type = 0x24; pid = 0x101 } ∷ [];
}

parse_pmt-marshal_pmt_example :
    (out : Bytes) × (marshal_pmt 1 a_table ≡ ok out)
    × ((parse_psi_section (out ++ (0xFF ∷ [])) >>= parse_pmt) ≡ ok a_table)
parse_pmt-marshal_pmt_example =
    parse_pmt-marshal_pmt 1 a_table (0xFF ∷ []) (omega arith) (omega arith)
      (
        record { type_fits = omega arith; pid_fits = omega arith },
        (record { type_fits = omega arith; pid_fits = omega arith }, tt),
      )
      (omega arith)

abbrev stream_bytes : Bytes
stream_bytes = 0x1B ∷ 0xE1 ∷ 0x00 ∷ 0xF0 ∷ 0x00 ∷ []

pmt_streams_fuel_example :
    (pmt_streams 5 stream_bytes ≢ err out_of_fuel)
    × (pmt_streams 5 stream_bytes ≡ pmt_streams 9 stream_bytes)
pmt_streams_fuel_example = pmt_streams_fuel stream_bytes 5 9 (omega arith) (omega arith)

abbrev a_header : PacketHeader
a_header = record {
  transport_error = false;
  payload_unit_start = true;
  transport_priority = true;
  pid = 0x1FFE;
  scrambling_control = 2;
  has_adaptation_field = false;
  has_payload = true;
  continuity_counter = 15;
}

abbrev a_field : AdaptationField
a_field = record {
  discontinuity = true;
  random_access = true;
  has_pcr = true;
  pcr = 300 * 2 ^ 32 + 299;
}

parse_adaptation_field-marshal_field_example :
    parse_adaptation_field (marshal_field a_field 20 ++ (1 ∷ [])) ≡ ok (visible a_field, 20)
parse_adaptation_field-marshal_field_example =
    parse_adaptation_field-marshal_field a_field 20 (1 ∷ []) (omega arith)
      (unfold encoded_len in omega arith) (omega arith)

parse_pes_header-append_pes_header_example :
    parse_pes_header (append_pes_header [] 0xE0 (pos 3003) (negsuc 9) ++ (5 ∷ []))
    ≡ ok (shown 0xE0 (pos 3003) (negsuc 9))
parse_pes_header-append_pes_header_example =
    parse_pes_header-append_pes_header 0xE0 (pos 3003) (negsuc 9) (5 ∷ [])

extend_timestamp_nearest_example :
    let x = extend_timestamp (pos (2 ^ 33 - 1)) 5 in
    (masked x ≡ 5)
    × (pos_part x ≤ (2 ^ 33 - 1) + neg_part x + timestamp_wrap / 2)
    × ((2 ^ 33 - 1) + neg_part x ≤ pos_part x + timestamp_wrap / 2)
    × (pos_part x < 2 ^ 63)
extend_timestamp_nearest_example =
    extend_timestamp_nearest (2 ^ 33 - 1) 5 (omega arith) (omega arith)

abbrev a_track : Track
a_track = record { pid = 0x100; codec = h264 }

abbrev a_writer : Writer
a_writer = record {
  dst = taken [];
  tracks = a_track ∷ [];
  cc = λ pid. 15;
  pcr_pid = 0x100;
  psi_written = false;
  last_psi_dts = pos 0;
  pat_raw = 1 ∷ [];
  pmt_raw = 2 ∷ [];
}

abbrev a_job : PesJob
a_job = record { pid = 0x100; rai = true; with_pcr = true; pcr = 900 }

abbrev two_segments : List Bytes
two_segments = (1 ∷ 2 ∷ []) ∷ replicate 400 3 ∷ []

write_pes_lem_example :
    (cc : ℕ → ℕ) × (pkts : List Bytes) × (write_pes a_job two_segments (on a_writer [])
      ≡ (ok tt, on (record a_writer { cc = cc }) (concat pkts)))
    × Written a_job true (concat two_segments) a_writer.cc cc pkts
write_pes_lem_example =
    write_pes_lem a_job (omega arith) (omega arith) two_segments a_writer [] (omega arith)
      (omega arith)

abbrev a_reader : Reader
a_reader = record {
  src = record { bytes = []; broken = false };
  max_au_size = 1000;
  pmt_pid = 0x1000;
  order = new_stream a_track ∷ [];
  flush_idx = 0;
  eof = false;
}

in_step : InStep a_writer a_reader a_track (new_stream a_track)
unfolding by_pid find_stream
in_step = record {
  small = λ pid. omega arith;
  known = refl;
  found = refl;
  tracked = refl;
  follows = inl refl;
  no_pat = refl;
  no_pmt = refl;
}

elementary : IsElementary 0x100
elementary = (omega arith, ground arith, ground arith)

abbrev access : ℕ → Bool → Bytes → Access
access t rai bytes = record {
  pts = pos (t + 3000);
  dts = pos t;
  aud = 0 ∷ 0 ∷ 0 ∷ 1 ∷ 9 ∷ 0xF0 ∷ [];
  access_unit = bytes;
  random_access = rai;
}

abbrev key_frame : Access
key_frame = access 3000 true (0 ∷ 0 ∷ 1 ∷ 0x65 ∷ replicate 300 7)

abbrev other_frame : Access
other_frame = access 6000 false (0 ∷ 0 ∷ 1 ∷ 0x41 ∷ [])

key_frame-IsAccess : IsAccess 1000 key_frame
key_frame-IsAccess = record { nonempty = omega arith; fits = omega arith; in_time = omega arith }

other_frame-IsAccess : IsAccess 1000 other_frame
other_frame-IsAccess = record { nonempty = omega arith; fits = omega arith; in_time = omega arith }

frames_timed : AllTimed (negsuc 0) (key_frame ∷ other_frame ∷ [])
frames_timed = (
  record {
    pts_at = 6000;
    dts_at = 3000;
    pts_is = refl;
    dts_is = refl;
    decoded = omega arith;
    shown = (omega arith, omega arith);
  },
  (
    record {
      pts_at = 9000;
      dts_at = 6000;
      pts_is = refl;
      dts_is = refl;
      decoded = (omega arith, omega arith);
      shown = (omega arith, omega arith);
    },
    tt,
  ),
)

write_access-Sent_example : Sent a_writer [] a_reader a_track (new_stream a_track) key_frame
write_access-Sent_example =
    write_access-Sent a_writer [] a_reader a_track (new_stream a_track) key_frame elementary in_step
      key_frame-IsAccess

write_accesses-handle_packets_example :
    AllSent a_writer [] a_reader a_track (new_stream a_track) (key_frame ∷ other_frame ∷ [])
write_accesses-handle_packets_example =
    write_accesses-handle_packets a_writer [] a_reader a_track (new_stream a_track)
      (key_frame ∷ other_frame ∷ []) elementary in_step
      (key_frame-IsAccess, (other_frame-IsAccess, tt)) frames_timed

abbrev given_out : Result Error Writer → Writer
given_out r = elim r [ ok w ↦ w | err e ↦ a_writer ]

abbrev two_tracks : List Track
two_tracks = a_track ∷ record { pid = 0x101; codec = h265 } ∷ []

abbrev a_new_writer : Writer
a_new_writer = given_out (new_writer (taken []) two_tracks)

new_writer-tracks_example :
    (a_new_writer.tracks ≡ two_tracks)
    × (0 < 2)
    × All (λ t. IsFree t.pid) two_tracks
    × Indexed a_new_writer.tracks a_new_writer.tracks
    × Apart a_new_writer.tracks
    × ((pid : ℕ) → a_new_writer.cc pid ≡ 0)
unfolding new_writer marshal_pat marshal_pmt marshal pat_body pmt_body stream_entries
new_writer-tracks_example = new_writer-tracks (taken []) two_tracks a_new_writer refl

abbrev five_bytes : Bytes
five_bytes = 2 ∷ 0xB0 ∷ 2 ∷ 7 ∷ 8 ∷ []

five_bytes-IsSection : IsSection five_bytes
five_bytes-IsSection = record { has_length = omega arith; length_is = refl }

feed_section_lem_example :
    feed_section
      (record { buf = 1 ∷ []; active = true })
      (2 ∷ 9 ∷ 9 ∷ 2 ∷ 0xB0 ∷ [])
      ((2 ∷ 7 ∷ []) ∷ (8 ∷ 0xFF ∷ []) ∷ [])
    ≡ some five_bytes
feed_section_lem_example =
    feed_section_lem five_bytes (0xFF ∷ []) five_bytes-IsSection
      (record { buf = 1 ∷ []; active = true }) (9 ∷ 9 ∷ []) (2 ∷ 0xB0 ∷ [])
      ((2 ∷ 7 ∷ []) ∷ (8 ∷ 0xFF ∷ []) ∷ []) refl
