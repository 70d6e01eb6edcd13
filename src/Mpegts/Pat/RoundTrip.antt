-- ===== src/Mpegts/Pat/RoundTrip.antt =====
-- mpegts/pat.go: writing the program association table, and reading it.
use format.Prelude.{
  ℕ, ◌+◌, ◌*◌, ◌^◌, ◌<◌, ◌≤◌, ◌≡◌, refl, ap, arith, [], ◌∷◌, ◌++◌, List, bit_and, bit_or, Bytes,
  length, All, ok, ◌>>=◌,
}
use format.Prelude.Bits.{agree_below, agree_below→eq}
use format.Prelude.Words.{byte, shl, shr, or_16-byte}
use format.Mpegts.Psi.{parse_psi_section}
use format.Mpegts.Psi.RoundTrip.{parse_psi_section-marshal}
use format.Mpegts.Pat.{PatProgram, pat_programs, parse_pat, pat_body, pat_section, marshal_pat}

-- Program number 0 announces the network PID, which the parser skips.
pub record IsProgram (p : PatProgram) : Type 0 where
  pub number_pos : 0 < p.program_number
  pub number_fits : p.program_number < 2 ^ 16
  pub pid_fits : p.pmt_pid < 2 ^ 13

reserved_bits : (n : ℕ) → n < 32 → bit_and (bit_or 0xE0 n) 0x1F ≡ n
unfolding agree_below
reserved_bits = agree_below→eq _ _ 32 refl

-- The 13-bit PID behind three reserved bits.
pub pid_bytes :
    (v : ℕ)
    → v < 2 ^ 13
    → bit_or (shl 16 (bit_and (bit_or 0xE0 (byte (shr v 8))) 0x1F) 8) (byte v) ≡ v
pid_bytes v h = rw (reserved_bits (byte (shr v 8)) (omega arith)) (or_16-byte v (omega arith))

length-pat_body : (ps : List PatProgram) → length (pat_body ps) ≡ 4 * length ps
unfolding pat_body
length-pat_body [] = refl
length-pat_body (p ∷ ps) = omega (arith, length-pat_body ps)

pub pat_programs-pat_body :
    (ps : List PatProgram) → All IsProgram ps → pat_programs (pat_body ps) ≡ ps
unfolding pat_programs pat_body
pat_programs-pat_body [] h = refl
pat_programs-pat_body (p ∷ ps) (v, vs) =
    rw (or_16-byte p.program_number v.number_fits, pid_bytes p.pmt_pid v.pid_fits)
      (ground (arith, pat_programs-pat_body ps vs))

-- Any list of programs with numbers from 1 on, of 16 bits, and PIDs of 13 bits, that fits in one section,
-- is written and read back in order, whatever bytes follow.
pub parse_pat-marshal_pat :
    (transport_stream_id : ℕ) (ps : List PatProgram) (rest : Bytes)
    → transport_stream_id < 2 ^ 16
    → All IsProgram ps
    → 9 + 4 * length ps ≤ 0x3FD
    → (out : Bytes) × (marshal_pat transport_stream_id ps ≡ ok out)
      × ((parse_psi_section (out ++ rest) >>= parse_pat) ≡ ok ps)
unfolding marshal_pat parse_pat
parse_pat-marshal_pat id ps rest h v fits =
    let (out, written, _, read) =
      parse_psi_section-marshal (pat_section id ps) rest (omega arith)
        (omega (arith, length-pat_body ps)) in
    (out, written, rw read (ap ok (pat_programs-pat_body ps v)))
