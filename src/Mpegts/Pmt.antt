-- ===== src/Mpegts/Pmt.antt =====
-- mpegts/pmt.go: the program map table.
pub mod RoundTrip
pub mod Fuel
use format.Prelude.{
  ℕ, zero, suc, ◌+◌, ◌*◌, ◌/◌, ◌%◌, ◌^◌, List, [], ◌∷◌, ◌++◌, bit_and, bit_or, not, ltb, ◌==◌,
  if◌then◌else◌, Bytes, length, drop, Result, ok, err, ◌>>=◌, ◌>>◌, reject_if,
}
use format.Prelude.Words.{byte_at, byte, shl, shr}
use format.Mpegts.Psi.{PsiSection, marshal}
use format.Mpegts.Errors.{Error, not_pmt, out_of_fuel, pmt_truncated}

abbrev pub table_id_pmt : ℕ
table_id_pmt = 0x02

pub record PmtStream : Type 0 where
  pub stream_type : ℕ
  pub pid : ℕ

pub record Pmt : Type 0 where
  pub pcr_pid : ℕ
  pub streams : List PmtStream

abbrev pub pid_at : Bytes → ℕ → ℕ
pid_at buf i = bit_or (shl 16 (bit_and (byte_at buf i) 0x1F) 8) (byte_at buf (i + 1))

abbrev pub length_at : Bytes → ℕ → ℕ
length_at buf i = bit_or (shl 64 (bit_and (byte_at buf i) 0x0F) 8) (byte_at buf (i + 1))

-- The loop of `parsePMT` on fuel: every round takes five bytes at least, so that `length buf`
-- rounds are enough; `out_of_fuel` is no answer of the code.
pub pmt_streams : ℕ → Bytes → Result Error (List PmtStream)
pmt_streams fuel [] = ok []
pmt_streams zero (b ∷ buf) = err out_of_fuel
pmt_streams (suc fuel) (b ∷ buf) =
    let es_info_len = length_at (b ∷ buf) 3 in
    let later = pmt_streams fuel (drop (5 + es_info_len) (b ∷ buf)) in
    do
      reject_if (ltb (length (b ∷ buf)) 5) pmt_truncated
      reject_if (ltb (length (b ∷ buf)) (5 + es_info_len)) pmt_truncated
      streams ← later
      ok (record { stream_type = b; pid = pid_at (b ∷ buf) 1 } ∷ streams)

unfoldable pub parse_pmt : PsiSection → Result Error Pmt
unfolding pmt_streams
parse_pmt sec = do
  reject_if (not (sec.table_id == table_id_pmt)) not_pmt
  let buf = sec.body
  reject_if (ltb (length buf) 4) pmt_truncated
  let info_len = length_at buf 2
  reject_if (ltb (length buf) (4 + info_len)) pmt_truncated
  streams ← pmt_streams (length buf) (drop (4 + info_len) buf)
  ok (record { pcr_pid = pid_at buf 0; streams = streams })

unfoldable pub stream_entries : List PmtStream → Bytes
stream_entries [] = []
stream_entries (s ∷ ss) =
    s.stream_type ∷ bit_or 0xE0 (byte (shr s.pid 8)) ∷ byte s.pid ∷ 0xF0 ∷ 0x00 ∷ stream_entries ss

unfoldable pub pmt_body : Pmt → Bytes
unfolding stream_entries
pmt_body table =
    bit_or 0xE0 (byte (shr table.pcr_pid 8))
    ∷ byte table.pcr_pid
    ∷ 0xF0
    ∷ 0x00
    ∷ stream_entries table.streams

abbrev pub pmt_section : ℕ → Pmt → PsiSection
pmt_section program_number table = record {
  table_id = table_id_pmt;
  table_id_extension = program_number;
  version = 0;
  body = pmt_body table;
}

unfoldable pub marshal_pmt : ℕ → Pmt → Result Error Bytes
marshal_pmt program_number table = marshal (pmt_section program_number table)
