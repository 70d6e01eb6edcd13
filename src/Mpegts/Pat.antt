-- ===== src/Mpegts/Pat.antt =====
-- mpegts/pat.go: the program association table.
pub mod RoundTrip
use format.Prelude.{
  ℕ, ◌+◌, ◌*◌, ◌/◌, ◌%◌, ◌^◌, List, [], ◌∷◌, ◌++◌, bit_and, bit_or, not, ◌==◌, if◌then◌else◌, Bytes,
  Result, ok, err, ◌>>=◌, ◌>>◌, reject_if,
}
use format.Prelude.Words.{byte, shl, shr}
use format.Mpegts.Psi.{PsiSection, marshal}
use format.Mpegts.Errors.{Error, not_pat}

abbrev pub table_id_pat : ℕ
table_id_pat = 0x00

pub record PatProgram : Type 0 where
  pub program_number : ℕ
  pub pmt_pid : ℕ

-- The loop of `parsePAT`: four bytes a round, and what is left over is not read.
unfoldable pub pat_programs : Bytes → List PatProgram
pat_programs (b0 ∷ b1 ∷ b2 ∷ b3 ∷ rest) =
    let num = bit_or (shl 16 b0 8) b1 in
    let pid = bit_or (shl 16 (bit_and b2 0x1F) 8) b3 in
    let later = pat_programs rest in
    if num == 0 then later else record { program_number = num; pmt_pid = pid } ∷ later
pat_programs _ = []

unfoldable pub parse_pat : PsiSection → Result Error (List PatProgram)
parse_pat sec = do
  reject_if (not (sec.table_id == table_id_pat)) not_pat
  ok (pat_programs sec.body)

unfoldable pub pat_body : List PatProgram → Bytes
pat_body [] = []
pat_body (p ∷ ps) =
    byte (shr p.program_number 8)
    ∷ byte p.program_number
    ∷ bit_or 0xE0 (byte (shr p.pmt_pid 8))
    ∷ byte p.pmt_pid
    ∷ pat_body ps

abbrev pub pat_section : ℕ → List PatProgram → PsiSection
pat_section transport_stream_id programs = record {
  table_id = table_id_pat;
  table_id_extension = transport_stream_id;
  version = 0;
  body = pat_body programs;
}

unfoldable pub marshal_pat : ℕ → List PatProgram → Result Error Bytes
marshal_pat transport_stream_id programs = marshal (pat_section transport_stream_id programs)
