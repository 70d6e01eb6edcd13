-- ===== src/Ogg/Reader.antt =====
-- oggreader/oggreader.go: the pages of a stream. A stream is not nil here, and `ResetReader` puts
-- another stream in the field `src`.
pub mod RoundTrip
pub mod Packets
pub mod Checked
use format.Prelude.{
  ℕ, zero, suc, ◌+◌, ◌%◌, ◌^◌, bit_xor, Bool, true, false, not, ◌&&◌, List, [], ◌∷◌, ltb, ◌==◌,
  if◌then◌else◌, Bytes, length, take, drop, foldl, Result, ok, err, ◌>>=◌, ◌>>◌, reject_if,
}
use format.Prelude.Words.{byte_at, shl, shr, byte}
use format.Prelude.Io.{IoError, Source, read_full, le_32, le_64}
use format.Mpegts.Crc.{crc_rounds}

pub data Error : Type 0 where
  bad_id_page_signature bad_opus_tags_signature bad_id_page_type bad_id_page_length : Error
  bad_id_page_payload_signature checksum_mismatch unsupported_channel_mapping_family : Error
  stream : IoError → Error

abbrev pub page_header_len : ℕ
page_header_len = 27

abbrev pub page_header_type_beginning_of_stream : ℕ
page_header_type_beginning_of_stream = 0x02

-- `OggPageHeader`
pub record PageHeader : Type 0 where
  pub granule_position : ℕ
  pub sig : Bytes
  pub version : ℕ
  pub header_type : ℕ
  pub serial : ℕ
  pub index : ℕ
  pub segments_count : ℕ

-- `OggReader`
pub record Reader : Type 0 where
  pub src : Source
  pub bytes_read_successfully : ℕ
  pub checksum_table : ℕ → ℕ
  pub do_checksum : Bool

-- A table of 256 words, by its index; the rounds of its inner loop are those of mpegts/crc32.go.
unfoldable pub generate_checksum_table : ℕ → ℕ
generate_checksum_table i = crc_rounds 8 (shl 32 i 24)

-- `NewWithOptions` with `WithDoChecksum`
abbrev pub new_with_options : Source → Bool → Reader
new_with_options src do_checksum = record {
  src = src;
  bytes_read_successfully = 0;
  checksum_table = generate_checksum_table;
  do_checksum = do_checksum;
}

abbrev pub page_header_at : Bytes → PageHeader
page_header_at header =
    let at = byte_at header in
    record {
      sig = take 4 header;
      version = at 4;
      header_type = at 5;
      granule_position = le_64 (at 6) (at 7) (at 8) (at 9) (at 10) (at 11) (at 12) (at 13);
      serial = le_32 (at 14) (at 15) (at 16) (at 17);
      index = le_32 (at 18) (at 19) (at 20) (at 21);
      segments_count = at 26;
    }

abbrev pub update_checksum : (ℕ → ℕ) → ℕ → ℕ → ℕ
update_checksum table checksum v =
    bit_xor (shl 32 checksum 8) (table (bit_xor (byte (shr checksum 24)) v))

-- The loop over the header from `index` on, which does not include the expected checksum.
abbrev pub header_checksum : (ℕ → ℕ) → ℕ → ℕ → Bytes → ℕ
header_checksum table checksum index [] = checksum
header_checksum table checksum index (v ∷ header) =
    header_checksum table
      (update_checksum table checksum (if ltb 21 index && ltb index 26 then 0 else v)) (suc index)
      header

abbrev pub checksum_of : (ℕ → ℕ) → (header sizes payload : Bytes) → ℕ
checksum_of table header sizes payload =
    foldl (update_checksum table)
      (foldl (update_checksum table) (header_checksum table 0 0 header) sizes) payload

-- `payloadSize`
abbrev pub payload_size : Bytes → ℕ
payload_size [] = 0
payload_size (s ∷ ss) = s + payload_size ss

-- `binary.LittleEndian.Uint32(header[22:26]) != checksum`
abbrev pub is_mismatch : Reader → (header sizes payload : Bytes) → Bool
is_mismatch r header sizes payload =
    let at = byte_at header in
    r.do_checksum
    && not
        (le_32 (at 22) (at 23) (at 24) (at 25) == checksum_of r.checksum_table header sizes payload)

-- The steps of `ParseNextPage`, each behind a read of the stream.
abbrev pub with_payload :
    Reader
    → (header sizes : Bytes) → Result IoError Bytes × Source
    → Result Error (Bytes × PageHeader) × Reader
with_payload r header sizes (err e, src) = (err (stream e), record r { src = src })
with_payload r header sizes (ok payload, src) =
    if is_mismatch r header sizes payload
    then (err checksum_mismatch, record r { src = src })
    else (
      ok (payload, page_header_at header),
      record r {
        src = src;
        bytes_read_successfully =
            r.bytes_read_successfully + (length header + length sizes + length payload);
      },
    )

abbrev pub with_sizes :
    Reader → Bytes → Result IoError Bytes × Source → Result Error (Bytes × PageHeader) × Reader
with_sizes r header (err e, src) = (err (stream e), record r { src = src })
with_sizes r header (ok sizes, src) =
    with_payload r header sizes (read_full (payload_size sizes) src)

abbrev pub with_header :
    Reader → Result IoError Bytes × Source → Result Error (Bytes × PageHeader) × Reader
with_header r (err e, src) = (err (stream e), record r { src = src })
with_header r (ok header, src) =
    with_sizes r header (read_full (page_header_at header).segments_count src)

-- `ParseNextPage`; the test of the count behind an error of `io.ReadFull` is never met.
unfoldable pub parse_next_page : Reader → Result Error (Bytes × PageHeader) × Reader
parse_next_page r = with_header r (read_full page_header_len r.src)
