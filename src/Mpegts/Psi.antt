-- ===== src/Mpegts/Psi.antt =====
-- mpegts/psi.go: the PSI section envelope, and the assembler of a section that spans several packets.
-- An error carries no section: the callers drop the partly filled one that Go returns beside it.
pub mod RoundTrip
pub mod Assembled
use format.Prelude.{
  ℕ, ◌+◌, ◌-◌, ◌*◌, ◌/◌, ◌%◌, ◌^◌, ◌<◌, ◌≤◌, Bool, true, false, not, ◌||◌, Option, none, some, List,
  [], ◌∷◌, ◌++◌, bit_and, bit_or, ltb, ◌==◌, if◌then◌else◌, Bytes, length, drop, take, slice,
  Result, ok, err, ◌>>=◌, ◌>>◌, reject_if,
}
use format.Prelude.Words.{byte_at, byte, shl, shr, or_32}
use format.Mpegts.Crc.{crc32_mpeg}
use format.Mpegts.Errors.{
  Error, section_truncated, section_crc, section_multipart, section_too_long,
}

-- `body` is the field `data`.
pub record PsiSection : Type 0 where
  pub table_id : ℕ
  pub table_id_extension : ℕ
  pub version : ℕ
  pub body : Bytes

-- The 12-bit section_length.
abbrev pub section_length : Bytes → ℕ
section_length buf = bit_or (shl 64 (bit_and (byte_at buf 1) 0x0F) 8) (byte_at buf 2)

unfoldable pub parse_section_bytes : Bytes → Result Error PsiSection
parse_section_bytes buf = do
  reject_if (ltb (length buf) 8) section_truncated
  let len = section_length buf
  reject_if (ltb len 9 || ltb (length buf) (3 + len)) section_truncated
  reject_if (not (byte_at buf 6 == 0) || not (byte_at buf 7 == 0)) section_multipart
  let end = 3 + len
  let body = take (end - 4) buf
  let crc_bytes = slice buf (end - 4) end
  let want =
      or_32 (byte_at crc_bytes 0) (byte_at crc_bytes 1) (byte_at crc_bytes 2) (byte_at crc_bytes 3)
  reject_if (not (crc32_mpeg body == want)) section_crc
  ok (record {
    table_id = byte_at buf 0;
    table_id_extension = bit_or (shl 16 (byte_at buf 3) 8) (byte_at buf 4);
    version = bit_and (shr (byte_at buf 5) 1) 0x1F;
    body = slice buf 8 (end - 4);
  })

unfoldable pub parse_psi_section : Bytes → Result Error PsiSection
parse_psi_section payload = do
  reject_if (ltb (length payload) 1) section_truncated
  let skip = 1 + byte_at payload 0
  reject_if (ltb (length payload) skip) section_truncated
  parse_section_bytes (drop skip payload)

pub record SectionAssembler : Type 0 where
  pub buf : Bytes
  pub active : Bool

-- The end of `feed`, from the test of `len(a.buf) < 3` on.
abbrev pub complete : SectionAssembler → SectionAssembler × Option Bytes
complete a =
    let total = 3 + section_length a.buf in
    if ltb (length a.buf) 3
    then (a, none)
    else if ltb (length a.buf) total
    then (a, none)
    else (record a { active = false }, some (take total a.buf))

-- The code reads `payload[0]`: its callers pass no empty payload.
unfoldable pub feed : SectionAssembler → Bool → Bytes → SectionAssembler × Option Bytes
feed a unit_start payload =
    let skip = 1 + byte_at payload 0 in
    if unit_start
    then (if ltb (length payload) skip
        then (record a { active = false }, none)
        else complete (record { buf = drop skip payload; active = true }))
    else if not a.active
    then (a, none)
    else complete (record a { buf = a.buf ++ payload })

abbrev pub marshal_header : PsiSection → ℕ → Bytes
marshal_header s len =
    s.table_id
    ∷ bit_or 0xB0 (byte (shr len 8))
    ∷ byte len
    ∷ byte (shr s.table_id_extension 8)
    ∷ byte s.table_id_extension
    ∷ bit_or 0xC1 (shl 8 s.version 1)
    ∷ 0x00
    ∷ 0x00
    ∷ []

unfoldable pub marshal : PsiSection → Result Error Bytes
marshal s = do
  let len = 5 + length s.body + 4
  reject_if (ltb 0x3FD len) section_too_long
  let out = (0x00 ∷ [] ++ marshal_header s len) ++ s.body
  let crc = crc32_mpeg (drop 1 out)
  ok (out ++ (byte (shr crc 24) ∷ byte (shr crc 16) ∷ byte (shr crc 8) ∷ byte crc ∷ []))
