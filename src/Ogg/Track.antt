-- ===== src/Ogg/Track.antt =====
-- oggwriter/oggwriter.go: what is written of one track. The stream, and the file that is sought and
-- rewritten where there is one, are the same output; `Seek` gives the end of what has been written.
pub mod Keeps
pub mod Written
pub mod Placed
pub mod Ended
use format.Prelude.{
  ℕ, zero, suc, ◌+◌, ◌-◌, ◌*◌, ◌/◌, ◌%◌, ◌^◌, bit_or, Bool, true, false, not, ◌&&◌, ◌||◌, List, [],
  ◌∷◌, ◌++◌, ltb, ◌==◌, if◌then◌else◌, Bytes, length, take, drop, Option, none, some, Result, ok,
  err, either,
}
use format.Prelude.Io.{IoError, fault, Sink, write}
use format.Ogg.Errors.{Error, stream, invalid_nil_packet, depacketizer}
use format.Ogg.Channels.{ChannelMapping}
use format.Ogg.OpusHead.{build_id_header}
use format.Ogg.OpusTags.{OpusTags, build_comment_header}
use format.Ogg.Samples.{opus_packet_sample_count}
use format.Ogg.Page.{
  OggPage, create_pages_for_serial, create_page_for_serial, create_page_for_serial_with_segments,
  generate_checksum_table, page_header_type_beginning_of_stream,
  page_header_type_continuation_of_stream, page_header_type_end_of_stream,
}

-- The output: whether it is a `pageRewriter`, the faults that later calls of `Seek` and `WriteAt` meet,
-- and the error of its `Close`.
pub record Output : Type 0 where
  pub sink : Sink
  pub rewriter : Bool
  pub rewrite_faults : List Bool
  pub close_error : Option IoError

-- `oggTrack`
pub record Track : Type 0 where
  pub sample_rate : ℕ
  pub channel_mapping : ChannelMapping
  pub pre_skip : ℕ
  pub serial : ℕ
  pub opus_tags : OpusTags
  pub page_index : ℕ
  pub previous_granule_position : ℕ
  pub last_payload : Bytes
  pub last_granule_position : ℕ
  pub last_page_index : ℕ
  pub last_page_offset : ℕ
  pub last_page_header_type : ℕ
  pub last_page_written : Bool

abbrev pub default_pre_skip : ℕ
default_pre_skip = 3840

abbrev pub new_track_state : ℕ → ChannelMapping → ℕ → OpusTags → Track
new_track_state sample_rate mapping serial opus_tags = record {
  sample_rate = sample_rate;
  channel_mapping = mapping;
  pre_skip = default_pre_skip;
  serial = serial;
  opus_tags = opus_tags;
  page_index = 0;
  previous_granule_position = 0;
  last_payload = [];
  last_granule_position = 0;
  last_page_index = 0;
  last_page_offset = 0;
  last_page_header_type = 0;
  last_page_written = false;
}

-- What an operation on a track gives: its error, the output and the track.
pub record Outcome : Type 0 where
  pub result : Result Error (Unit {0})
  pub output : Output
  pub track : Track

abbrev pub next_fault : Output → Bool
next_fault out = elim out.rewrite_faults [ [] ↦ false | f ∷ later ↦ f ]

abbrev pub past_fault : Output → Output
past_fault out = record out { rewrite_faults = drop 1 out.rewrite_faults }

-- `writeToStream`; the stream is not nil where it is called.
unfoldable pub write_to_stream : Output → Bytes → Result Error (Unit {0}) × Output
write_to_stream out p =
    let (written, sink) = write out.sink p in
    (either written (λ e. err (stream e)) (ok tt), record out { sink = sink })

-- The fields that tell `Close` of the last page.
abbrev pub mark_last : Track → OggPage → ℕ → Track
mark_last t p offset = record t {
  last_page_offset = offset;
  last_payload = p.payload;
  last_granule_position = p.granule_pos;
  last_page_index = p.page_index;
  last_page_header_type = p.header_type;
  last_page_written = true;
}

abbrev pub is_last : List OggPage → Bool
is_last [] = true
is_last (p ∷ ps) = false

-- The loop of `writePage` over the pages.
unfoldable pub write_pages : List OggPage → ℕ → Output → Track → Outcome
write_pages [] offset out t = record { result = ok tt; output = out; track = t }
write_pages (p ∷ ps) offset out t =
    let (written, out') = write_to_stream out p.data_bytes in
    let later =
      write_pages ps (offset + length p.data_bytes) out'
        (if out.rewriter && is_last ps then mark_last t p offset else t) in
    either written (λ e. record { result = err e; output = out'; track = t }) (later)

-- `track.pageIndex += uint32(len(pages))`, behind the loop.
abbrev pub count_pages : ℕ → Outcome → Outcome
count_pages n o =
    either o.result (λ e. o)
      (record o { track = record o.track { page_index = (o.track.page_index + n) % 2 ^ 32 } })

unfoldable pub write_page : Output → Track → Bytes → (header_type granule_pos : ℕ) → Outcome
write_page out t payload header_type granule_pos =
    let pages =
      create_pages_for_serial generate_checksum_table payload header_type granule_pos t.serial
        t.page_index in
    let sought = if out.rewriter then past_fault out else out in
    if out.rewriter && next_fault out
    then record { result = err (stream fault); output = sought; track = t }
    else count_pages (length pages) (write_pages pages (length out.sink.written) sought t)

abbrev pub write_track_id_header : Output → Track → Outcome
write_track_id_header out t =
    write_page out t (build_id_header t.pre_skip t.sample_rate t.channel_mapping)
      page_header_type_beginning_of_stream 0

abbrev pub write_track_comment_header : Output → Track → Outcome
write_track_comment_header out t =
    write_page out t (build_comment_header t.opus_tags) page_header_type_continuation_of_stream 0

-- `writeTrackHeaders`
abbrev pub write_track_headers : Output → Track → Outcome
write_track_headers out t =
    let o = write_track_id_header out t in
    either o.result (λ e. o) (write_track_comment_header o.output o.track)

-- A payload behind its sample count.
abbrev pub write_counted : Output → Track → Bytes → Result Error ℕ → Outcome
write_counted out t payload (err e) = record { result = err e; output = out; track = t }
write_counted out t payload (ok n) =
    let granule = (t.previous_granule_position + n) % 2 ^ 64 in
    write_page out (record t { previous_granule_position = granule }) payload
      page_header_type_continuation_of_stream granule

unfoldable pub write_opus_payload : Output → Track → Bytes → Outcome
write_opus_payload out t payload = write_counted out t payload (opus_packet_sample_count payload)

-- What the code reads of an `rtp.Packet`.
pub record Packet : Type 0 where
  pub ssrc : ℕ
  pub payload : Bytes

-- `opusPayloadFromPacket`, with `OpusPacket.Unmarshal` of the codecs package as a parameter: `none` is a
-- packet with nothing to write.
abbrev pub opus_payload_from_packet :
    (Bytes → Option Bytes) → Option Packet → Result Error (Option Bytes)
opus_payload_from_packet unmarshal none = err invalid_nil_packet
opus_payload_from_packet unmarshal (some packet) =
    if length packet.payload == 0 then ok none else elim (unmarshal packet.payload) [
      | none ↦ err depacketizer
      | some payload ↦ ok (some payload)
    ]

abbrev pub write_unpacked : Output → Track → Result Error (Option Bytes) → Outcome
write_unpacked out t (err e) = record { result = err e; output = out; track = t }
write_unpacked out t (ok none) = record { result = ok tt; output = out; track = t }
write_unpacked out t (ok (some payload)) = write_opus_payload out t payload

-- `writeRTP`
unfoldable pub write_rtp : (Bytes → Option Bytes) → Output → Track → Option Packet → Outcome
write_rtp unmarshal out t packet = write_unpacked out t (opus_payload_from_packet unmarshal packet)

-- `WriteAt`, inside of what has been written.
abbrev pub write_at : Output → Bytes → ℕ → Result Error (Unit {0}) × Output
write_at out p offset =
    let w = out.sink.written in
    if next_fault out then (err (stream fault), past_fault out) else (
      ok tt,
      record (past_fault out) {
        sink = record out.sink { written = take offset w ++ (p ++ drop (offset + length p) w) };
      },
    )

unfoldable pub mark_track_end_of_stream : Output → Track → Result Error (Unit {0}) × Output
mark_track_end_of_stream out t =
    if not t.last_page_written
    then (ok tt, out)
    else write_at out
        (create_page_for_serial generate_checksum_table t.last_payload
          (bit_or t.last_page_header_type page_header_type_end_of_stream) t.last_granule_position
          t.serial t.last_page_index)
        t.last_page_offset

unfoldable pub write_nil_end_of_stream_page : Output → Track → Outcome
write_nil_end_of_stream_page out t =
    let (written, out') = write_to_stream out (
      create_page_for_serial_with_segments generate_checksum_table [] []
        page_header_type_end_of_stream t.previous_granule_position t.serial t.page_index) in
    if t.page_index == 0
    then record { result = ok tt; output = out; track = t }
    else either written (λ e. record { result = err e; output = out'; track = t })
        (record {
          result = ok tt;
          output = out';
          track = record t { page_index = (t.page_index + 1) % 2 ^ 32 };
        })
