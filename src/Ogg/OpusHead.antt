-- ===== src/Ogg/OpusHead.antt =====
-- The OpusHead payload: `buildIDHeader` of oggwriter/oggwriter.go and `ParseOpusHead` of
-- oggreader/oggreader.go.
pub mod RoundTrip
use format.Prelude.{
  ℕ, ◌+◌, ◌-◌, ◌*◌, ◌%◌, ◌^◌, Bool, true, false, not, ◌&&◌, ◌||◌, List, [], ◌∷◌, ◌++◌, ltb, ◌==◌,
  if◌then◌else◌, Bytes, length, take, drop, slice, replicate, Option, none, some, Result, ok, err,
  ◌>>=◌, ◌>>◌, reject_if,
}
use format.Prelude.Words.{byte_at, equal}
use format.Prelude.Io.{le_16, le_32, put_le_16, put_le_32}
use format.Ogg.Channels.{ChannelMapping}
use format.Ogg.Reader.{
  Reader, Error, PageHeader, parse_next_page, bad_id_page_signature, bad_id_page_type,
  bad_id_page_length, bad_id_page_payload_signature, unsupported_channel_mapping_family,
  page_header_type_beginning_of_stream, new_with_options,
}
use format.Ogg.Page.{page_header_signature}
use format.Prelude.Io.{Source}

-- "OpusHead" and "OpusTags"
abbrev pub header_opus_id : Bytes
header_opus_id = 0x4F ∷ 0x70 ∷ 0x75 ∷ 0x73 ∷ 0x48 ∷ 0x65 ∷ 0x61 ∷ 0x64 ∷ []

abbrev pub header_opus_tags : Bytes
header_opus_tags = 0x4F ∷ 0x70 ∷ 0x75 ∷ 0x73 ∷ 0x54 ∷ 0x61 ∷ 0x67 ∷ 0x73 ∷ []

-- `OggHeader`
pub record OggHeader : Type 0 where
  pub channel_map : ℕ
  pub channels : ℕ
  pub output_gain : ℕ
  pub pre_skip : ℕ
  pub sample_rate : ℕ
  pub version : ℕ
  pub stream_count : ℕ
  pub coupled_count : ℕ
  pub channel_mapping : Bytes

-- `buildIDHeader`; `copy` fills what the channel count has left room for, and no more.
abbrev pub padded : ℕ → Bytes → Bytes
padded n bs = take n (bs ++ replicate n 0)

unfoldable pub build_id_header : (pre_skip sample_rate : ℕ) → ChannelMapping → Bytes
build_id_header pre_skip sample_rate m =
    header_opus_id
    ++ 1
      ∷ m.channel_count
      ∷ (put_le_16 pre_skip
          ++ put_le_32 sample_rate
          ++ put_le_16 0
          ++ m.family
            ∷ (if m.family == 0
                then []
                else m.stream_count ∷ m.coupled_count ∷ padded m.channel_count m.mapping))

-- `opusPayloadSignature`
abbrev pub opus_payload_signature : Bytes → Option Bytes
opus_payload_signature payload =
    let sig = take 8 payload in
    if ltb (length payload) 8
    then none
    else if equal sig header_opus_id || equal sig header_opus_tags
    then some sig
    else none

-- `OggPageHeader.HeaderType`
unfoldable pub header_type_of : PageHeader → Bytes → Option Bytes
header_type_of p payload = elim (opus_payload_signature payload) [
  | none ↦ none
  | some sig ↦
      if equal sig header_opus_id && not (p.header_type == page_header_type_beginning_of_stream)
      then none
      else some sig
]

abbrev pub is_opus_id : Option Bytes → Bool
is_opus_id none = false
is_opus_id (some sig) = equal sig header_opus_id

abbrev pub parse_basic_header_fields : Bytes → OggHeader
parse_basic_header_fields payload =
    let at = byte_at payload in
    record {
      version = at 8;
      channels = at 9;
      pre_skip = le_16 (at 10) (at 11);
      sample_rate = le_32 (at 12) (at 13) (at 14) (at 15);
      output_gain = le_16 (at 16) (at 17);
      channel_map = at 18;
      stream_count = 0;
      coupled_count = 0;
      channel_mapping = [];
    }

abbrev pub validate_payload_length : Bytes → ℕ → Result Error (Unit {0})
validate_payload_length payload expected_len =
    reject_if (not (length payload == expected_len)) bad_id_page_length

abbrev pub parse_extended_channel_mapping : OggHeader → Bytes → Result Error OggHeader
parse_extended_channel_mapping header payload = do
  let expected_payload_len = 21 + header.channels
  validate_payload_length payload expected_payload_len
  ok (record header {
    stream_count = byte_at payload 19;
    coupled_count = byte_at payload 20;
    channel_mapping = slice payload 21 expected_payload_len;
  })

abbrev pub parse_channel_mapping : OggHeader → Bytes → Result Error OggHeader
parse_channel_mapping header payload =
    if header.channel_map == 0
    then (validate_payload_length payload 19 >> ok header)
    else if header.channel_map == 1 || (header.channel_map == 2 || header.channel_map == 255)
    then parse_extended_channel_mapping header payload
    else err unsupported_channel_mapping_family

unfoldable pub parse_opus_head : Bytes → Result Error OggHeader
parse_opus_head payload = do
  reject_if (ltb (length payload) 19) bad_id_page_length
  reject_if (not (is_opus_id (opus_payload_signature payload))) bad_id_page_payload_signature
  parse_channel_mapping (parse_basic_header_fields payload) payload

abbrev pub validate_opus_page_header : PageHeader → Result Error (Unit {0})
validate_opus_page_header p = do
  reject_if (not (equal p.sig page_header_signature)) bad_id_page_signature
  reject_if (not (p.header_type == page_header_type_beginning_of_stream)) bad_id_page_type

-- `readOpusHeader`, and `NewWith` of a stream.
abbrev pub opus_header_of : Result Error (Bytes × PageHeader) → Result Error OggHeader
opus_header_of page = do
  (payload, page_header) ← page
  validate_opus_page_header page_header
  parse_opus_head payload

unfoldable pub new_with : Source → Result Error OggHeader × Reader
new_with src =
    let (page, r) = parse_next_page (new_with_options src true) in (opus_header_of page, r)
