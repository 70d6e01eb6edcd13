-- ===== src/Mpegts/Pmt/RoundTrip.antt =====
-- mpegts/pmt.go: writing the program map table, and reading it.
use format.Prelude.{
  ℕ, zero, suc, ◌+◌, ◌*◌, ◌^◌, ◌<◌, ◌≤◌, ◌≡◌, refl, arith, [], ◌∷◌, ◌++◌, List, bit_or, Bytes,
  length, All, ok, ◌>>=◌, le→ltb,
}
use format.Prelude.Words.{byte, shr}
use format.Mpegts.Psi.{parse_psi_section}
use format.Mpegts.Psi.RoundTrip.{parse_psi_section-marshal}
use format.Mpegts.Pat.RoundTrip.{pid_bytes}
use format.Mpegts.Pmt.{
  PmtStream, Pmt, pmt_streams, parse_pmt, stream_entries, pmt_body, pmt_section, marshal_pmt,
}

pub record IsStream (s : PmtStream) : Type 0 where
  pub type_fits : s.stream_type < 2 ^ 8
  pub pid_fits : s.pid < 2 ^ 13

length-stream_entries : (ss : List PmtStream) → length (stream_entries ss) ≡ 5 * length ss
unfolding stream_entries
length-stream_entries [] = refl
length-stream_entries (s ∷ ss) = omega (arith, length-stream_entries ss)

pmt_streams-stream_entries :
    (ss : List PmtStream) (fuel : ℕ)
    → All IsStream ss
    → length ss ≤ fuel
    → pmt_streams fuel (stream_entries ss) ≡ ok ss
unfolding pmt_streams stream_entries
pmt_streams-stream_entries [] fuel v h = refl
pmt_streams-stream_entries (s ∷ ss) zero v h = absurd (omega arith)
pmt_streams-stream_entries (s ∷ ss) (suc fuel) (v, vs) h =
    let rest : Bytes = stream_entries ss in
    let buf : Bytes =
      s.stream_type ∷ bit_or 0xE0 (byte (shr s.pid 8)) ∷ byte s.pid ∷ 0xF0 ∷ 0 ∷ rest in
    rw (
      le→ltb (length buf) 5 (omega arith),
      pid_bytes s.pid v.pid_fits,
      pmt_streams-stream_entries ss fuel vs (omega arith),
    )

parse_pmt-pmt_section :
    (program_number : ℕ) (table : Pmt)
    → table.pcr_pid < 2 ^ 13
    → All IsStream table.streams
    → parse_pmt (pmt_section program_number table) ≡ ok table
unfolding pmt_body parse_pmt
parse_pmt-pmt_section number table p v =
    let rest : Bytes = stream_entries table.streams in
    let buf : Bytes =
      bit_or 0xE0 (byte (shr table.pcr_pid 8)) ∷ byte table.pcr_pid ∷ 0xF0 ∷ 0 ∷ rest in
    rw (
      le→ltb (length buf) 4 (omega arith),
      pid_bytes table.pcr_pid p,
      pmt_streams-stream_entries table.streams (length buf) v
          (omega (arith, length-stream_entries table.streams)),
    )

-- Any table of streams whose types and PIDs fit their widths, and that fits in one section, is written
-- and read back in order, with the PID of its clock, whatever bytes follow.
pub parse_pmt-marshal_pmt :
    (program_number : ℕ) (table : Pmt) (rest : Bytes)
    → program_number < 2 ^ 16
    → table.pcr_pid < 2 ^ 13
    → All IsStream table.streams
    → 13 + 5 * length table.streams ≤ 0x3FD
    → (out : Bytes) × (marshal_pmt program_number table ≡ ok out)
      × ((parse_psi_section (out ++ rest) >>= parse_pmt) ≡ ok table)
unfolding marshal_pmt
parse_pmt-marshal_pmt number table rest h p v fits =
    let (out, written, _, read) =
      parse_psi_section-marshal (pmt_section number table) rest (omega arith)
        (unfold pmt_body in omega (arith, length-stream_entries table.streams)) in
    (out, written, rw read (parse_pmt-pmt_section number table p v))
