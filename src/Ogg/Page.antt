-- ===== src/Ogg/Page.antt =====
-- oggwriter/oggwriter.go: the pages of a packet, and the checksum of a page.
pub mod Segments
pub mod Packet
pub mod LastPage
use format.Prelude.{
  ℕ, zero, suc, ◌+◌, ◌-◌, ◌%◌, ◌^◌, bit_and, bit_or, bit_xor, Bool, true, false, List, [], ◌∷◌,
  ◌++◌, map, leb, if◌then◌else◌, Bytes, length, take, drop, concat, foldl,
}
use format.Prelude.Words.{shl, shr, byte}
use format.Prelude.Io.{put_le_32, put_le_64}
use format.Mpegts.Crc.{crc_rounds}

abbrev pub page_header_type_continuation_of_stream : ℕ
page_header_type_continuation_of_stream = 0x00

abbrev pub page_header_type_continuation_of_packet : ℕ
page_header_type_continuation_of_packet = 0x01

abbrev pub page_header_type_beginning_of_stream : ℕ
page_header_type_beginning_of_stream = 0x02

abbrev pub page_header_type_end_of_stream : ℕ
page_header_type_end_of_stream = 0x04

abbrev pub page_header_size : ℕ
page_header_size = 27

abbrev pub max_ogg_page_segments : ℕ
max_ogg_page_segments = 255

-- `^uint64(0)`
abbrev pub no_granule_position : ℕ
no_granule_position = 2 ^ 64 - 1

-- "OggS"
abbrev pub page_header_signature : Bytes
page_header_signature = 0x4F ∷ 0x67 ∷ 0x67 ∷ 0x53 ∷ []

-- A table of 256 words, by its index; the rounds of its inner loop are those of mpegts/crc32.go.
unfoldable pub generate_checksum_table : ℕ → ℕ
generate_checksum_table i = crc_rounds 8 (shl 32 i 24)

-- One round of the loop over a page, on uint32.
abbrev pub checksum_step : (ℕ → ℕ) → ℕ → ℕ → ℕ
checksum_step table checksum v =
    bit_xor (shl 32 checksum 8) (table (bit_xor (byte (shr checksum 24)) v))

abbrev pub page_checksum : (ℕ → ℕ) → Bytes → ℕ
page_checksum table page = foldl (checksum_step table) 0 page

-- The page with `checksum` in its bytes 22 to 25.
abbrev pub page_with :
    Bytes → Bytes → (header_type granule_pos serial page_index checksum : ℕ) → Bytes
page_with payload segment_table header_type granule_pos serial page_index checksum =
    page_header_signature
    ++ 0
      ∷ header_type
      ∷ (put_le_64 granule_pos
          ++ put_le_32 serial
          ++ put_le_32 page_index
          ++ put_le_32 checksum
          ++ (length segment_table % 256) ∷ (segment_table ++ payload))

-- `createPageForSerialWithSegments`: the checksum of the page with zeros in its place goes there.
unfoldable pub create_page_for_serial_with_segments :
    (ℕ → ℕ) → Bytes → Bytes → (header_type granule_pos serial page_index : ℕ) → Bytes
create_page_for_serial_with_segments table payload segment_table header_type granule_pos serial
      page_index =
    let page = page_with payload segment_table header_type granule_pos serial page_index in
    page (page_checksum table (page 0))

pub record OggPage : Type 0 where
  pub data_bytes : Bytes
  pub payload : Bytes
  pub header_type : ℕ
  pub granule_pos : ℕ
  pub page_index : ℕ

-- What the inner loop of `createPagesForSerial` leaves: the lacing of one page, the bytes it takes,
-- the bytes that remain of the packet, and whether the packet ends on the page.
pub record Lacing : Type 0 where
  pub segment_table : Bytes
  pub page_payload_size : ℕ
  pub remaining_payload : ℕ
  pub packet_complete : Bool

abbrev pub more : Lacing → Lacing
more l = record l {
  segment_table = 255 ∷ l.segment_table;
  page_payload_size = 255 + l.page_payload_size;
}

-- The inner loop, with `free` places left in the segment table.
unfoldable pub lace : ℕ → ℕ → Lacing
lace zero remaining = record {
  segment_table = [];
  page_payload_size = 0;
  remaining_payload = remaining;
  packet_complete = false;
}
lace (suc free) remaining =
    let rest = lace free (remaining - 255) in
    if leb 255 remaining then more rest else record {
      segment_table = byte remaining ∷ [];
      page_payload_size = remaining;
      remaining_payload = 0;
      packet_complete = true;
    }

-- `packetPageHeaderType`; `&^` clears the bit.
abbrev pub packet_page_header_type : ℕ → Bool → Bool → ℕ
packet_page_header_type header_type true true = header_type
packet_page_header_type header_type true false =
    bit_and header_type (0xFF - page_header_type_end_of_stream)
packet_page_header_type header_type false true =
    bit_or page_header_type_continuation_of_packet
      (bit_and header_type page_header_type_end_of_stream)
packet_page_header_type header_type false false = page_header_type_continuation_of_packet

-- The page that a round of the outer loop appends; `payload` starts at `payloadOffset`.
unfoldable pub next_page :
    (ℕ → ℕ) → Bytes → Lacing → (header_type granule_pos serial page_index : ℕ) → Bool → OggPage
next_page table payload l header_type granule_pos serial page_index first_page =
    let page_payload = take l.page_payload_size payload in
    let page_header_type = packet_page_header_type header_type first_page l.packet_complete in
    let page_granule_pos = if l.packet_complete then granule_pos else no_granule_position in
    record {
      data_bytes =
          create_page_for_serial_with_segments table page_payload l.segment_table page_header_type
            page_granule_pos serial page_index;
      payload = page_payload;
      header_type = page_header_type;
      granule_pos = page_granule_pos;
      page_index = page_index;
    }

-- The outer loop on fuel; `remainingPayload` is the length of what is left of the payload.
unfoldable pub pages_from :
    ℕ → (ℕ → ℕ) → Bytes → (header_type granule_pos serial page_index : ℕ) → Bool → List OggPage
pages_from zero table payload header_type granule_pos serial page_index first_page = []
pages_from (suc fuel) table payload header_type granule_pos serial page_index first_page =
    let l = lace max_ogg_page_segments (length payload) in
    let page = next_page table payload l header_type granule_pos serial page_index first_page in
    let later =
      pages_from fuel table (drop l.page_payload_size payload) header_type granule_pos serial
        ((page_index + 1) % 2 ^ 32) false in
    if l.packet_complete then page ∷ [] else page ∷ later

-- Each page but the last takes at least a byte of the payload.
abbrev pub create_pages_for_serial :
    (ℕ → ℕ) → Bytes → (header_type granule_pos serial page_index : ℕ) → List OggPage
create_pages_for_serial table payload header_type granule_pos serial page_index =
    pages_from (suc (length payload)) table payload header_type granule_pos serial page_index true

abbrev pub data_of : OggPage → Bytes
data_of p = p.data_bytes

abbrev pub payload_of : OggPage → Bytes
payload_of p = p.payload

abbrev pub create_page_for_serial :
    (ℕ → ℕ) → Bytes → (header_type granule_pos serial page_index : ℕ) → Bytes
create_page_for_serial table payload header_type granule_pos serial page_index =
    concat (
      map data_of (create_pages_for_serial table payload header_type granule_pos serial page_index))
