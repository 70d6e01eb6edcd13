-- ===== src/Ogg/Tests.antt =====
-- The theorems on Ogg files at concrete inputs.
use format.Prelude.{
  ◌+◌, ◌≡◌, ◌≤◌, ◌<◌, ◌↔◌, refl, arith, true, false, List, [], ◌∷◌, ◌++◌, map, Bytes, length,
  Option, none, some, ok,
}
use format.Prelude.Io.{Source, read_full}
use format.Prelude.Utf8.{valid_string}
use format.Ogg.Channels.{ChannelMapping, validate_channel_mapping, IsMapping, stereo}
use format.Ogg.Channels.Valid.{mapping_of, validate_channel_mapping_iff}
use format.Ogg.OpusHead.{build_id_header, parse_opus_head, new_with}
use format.Ogg.OpusHead.RoundTrip.{parse_opus_head-build_id_header}
use format.Ogg.OpusHead.RoundTrip
use format.Ogg.OpusTags.{
  OpusTags, default_opus_tags, build_comment_header, parse_opus_tags, validate_opus_tags_header_len,
  validate_opus_tags_with_max_header_len,
}
use format.Ogg.OpusTags.RoundTrip.{parse_opus_tags-build_comment_header}
use format.Ogg.OpusTags.Size.{validate_opus_tags_header_len_iff}
use format.Ogg.Samples.{opus_packet_sample_count}
use format.Ogg.Samples.Table.{duration, opus_packet_sample_count_iff}
use format.Ogg.Page.{create_pages_for_serial, create_page_for_serial, generate_checksum_table}
use format.Ogg.Page.Packet.{IsLaid, create_pages_for_serial-IsLaid}
use format.Ogg.Reader.{Reader, new_with_options, page_header_at, parse_next_page}
use format.Ogg.Reader.RoundTrip.{header_of, on, counted}
use format.Ogg.Reader.Packets.{read_pages, given, carried, read_pages-create_page_for_serial}
use format.Ogg.Reader.Checked.{IsGiven, parse_next_page-IsGiven}
use format.Ogg.Track.{Output, Packet}
use format.Ogg.Track.Written.{IsSound}
use format.Ogg.Track.Ended.{HasLast, with_end}
use format.Ogg.Single.{OggWriter, close_single, close_output}
use format.Ogg.Single
use format.Ogg.Track.Placed.{IsOpus, pages_of, rendered}
use format.Ogg.Single.Rendered.{none_left, carries, file_of, run, run-file_of}
use format.Ogg.Single.Closed.{run_any, close_single-run}
use format.Ogg.Options.{with_serial, seekable_output}
use format.Ogg.Multi.{Writer, new_writer}
use format.Ogg.Multi.Distinct.{IsDistinct}
use format.Ogg.Multi.History.{Call, tracks, packets, closes, run-new_writer-IsDistinct}
use format.Ogg.Multi.History
use format.Ogg.File.{AllRead, new_with-file_of, rendered-AllRead}

abbrev plain : Bytes → Option Bytes
plain p = some p

-- One frame of 20 ms.
abbrev opus : Bytes
opus = 0xFC ∷ 1 ∷ 2 ∷ []

opus-IsOpus : IsOpus opus
opus-IsOpus = record {
  octets = (omega arith, (omega arith, (omega arith, tt)));
  some_sound = omega arith;
  at_most = omega arith;
}

abbrev packet : Packet
packet = record { ssrc = 9; payload = opus }

abbrev file : Output
file = record {
  sink = record { written = []; faults = [] };
  rewriter = true;
  rewrite_faults = [];
  close_error = none;
}

file-IsSound : IsSound file
file-IsSound = record { no_faults = refl; no_rewrite_faults = refl }

abbrev two_channels : ChannelMapping
two_channels = record {
  family = 0;
  channel_count = 2;
  stream_count = 1;
  coupled_count = 1;
  mapping = [];
}

run-file_of_example :
    (w : OggWriter) × ((Single.new_with file 48000 2 7).0 ≡ ok w)
    × ((run plain w (packet ∷ [])).output.sink.written
        ≡ file.sink.written ++ file_of 7 48000 two_channels (opus ∷ []))
run-file_of_example =
    run-file_of plain file 48000 2 7 two_channels (packet ∷ []) (opus ∷ []) file-IsSound refl
      (carries packet opus (omega arith) refl opus-IsOpus none_left)

abbrev on_pages : Bytes → Reader
on_pages bytes = new_with_options (record { bytes = bytes; broken = false }) true

same_table : (on_pages []).checksum_table ≡ generate_checksum_table
unfolding generate_checksum_table format.Ogg.Reader.generate_checksum_table
same_table = refl

read_pages-create_page_for_serial_example :
    let r = on_pages [] in
    let written = create_page_for_serial generate_checksum_table opus 0 960 7 2 in
    (read_pages 1 (on r (written ++ (9 ∷ [])) false) ≡ (
      ok (map (given 7) (create_pages_for_serial generate_checksum_table opus 0 960 7 2)),
      counted (on r (9 ∷ []) false) (length written),
    ))
    × (carried (map (given 7) (create_pages_for_serial generate_checksum_table opus 0 960 7 2))
        ≡ opus)
read_pages-create_page_for_serial_example =
    read_pages-create_page_for_serial (on_pages []) false opus (9 ∷ []) 0 960 7 2 same_table
      (omega arith) (omega arith) (omega arith) (omega arith)

new_with-file_of_example :
    let src : Source = record {
      bytes = file_of 7 48000 two_channels (opus ∷ []);
      broken = false;
    } in
    let r = new_with_options src true in
    let head = length (pages_of 7 2 0 (build_id_header 3840 48000 two_channels) 0) in
    let tags = pages_of 7 0 0 (build_comment_header default_opus_tags) 1 in
    (new_with src ≡ (
      ok (RoundTrip.header_of 3840 48000 two_channels),
      counted (on r (tags ++ rendered 7 2 0 (opus ∷ [])) false) head,
    ))
    × (parse_next_page (new_with src).1 ≡ (
      ok (build_comment_header default_opus_tags, header_of 1 0 0 7 1),
      counted (on r (rendered 7 2 0 (opus ∷ [])) false) (head + length tags),
    ))
    × (parse_opus_tags (build_comment_header default_opus_tags) ≡ ok default_opus_tags)
new_with-file_of_example =
    new_with-file_of 7 48000 2 two_channels (opus ∷ []) false (omega arith) (omega arith) refl

rendered-AllRead_example :
    AllRead (on (on_pages []) (rendered 7 2 0 (opus ∷ opus ∷ [])) false) 7 2 0 (opus ∷ opus ∷ [])
rendered-AllRead_example =
    rendered-AllRead (on_pages []) false 7 2 0 (opus ∷ opus ∷ []) same_table (omega arith)
      (omega arith)

create_pages_for_serial-IsLaid_example :
    IsLaid 2 960 true 5 opus (create_pages_for_serial generate_checksum_table opus 2 960 7 5)
create_pages_for_serial-IsLaid_example =
    create_pages_for_serial-IsLaid generate_checksum_table opus 2 960 7 5 (omega arith)

-- A nil packet, one without bytes and a good one.
abbrev calls_of_three : List (Option Packet)
calls_of_three = none ∷ some (record { ssrc = 9; payload = [] }) ∷ some packet ∷ []

abbrev made :
    (w : OggWriter) × ((Single.new_with file 48000 2 7).0 ≡ ok w)
    × ((run plain w []).output.sink.written ≡ file.sink.written ++ file_of 7 48000 two_channels [])
made = run-file_of plain file 48000 2 7 two_channels [] [] file-IsSound refl none_left

close_single-run_example :
    let w = run_any plain made.0 calls_of_three in
    (l : HasLast w.output w.track) × (close_single w ≡ (
      close_output w.output,
      record w { output = with_end w.output w.track l; is_closed = true },
    ))
close_single-run_example =
    close_single-run plain file 48000 2 7 two_channels made.0 calls_of_three file-IsSound refl refl
      made.1

abbrev a_writer : Writer
a_writer = record {
  output = file;
  is_closed = false;
  sample_rate = 48000;
  channel_mapping = two_channels;
  opus_tags = default_opus_tags;
  track_order = [];
  started = false;
}

-- Two tracks, a third one with the SSRC of the first, a packet, and the end.
abbrev calls : List Call
calls =
    tracks [] 1 (with_serial 5 ∷ [])
    ∷ tracks (5 ∷ 6 ∷ []) 2 []
    ∷ tracks (8 ∷ []) 1 []
    ∷ packets 2 (some packet)
    ∷ closes
    ∷ []

run-new_writer-IsDistinct_example : IsDistinct (History.run plain a_writer calls).track_order
unfolding new_writer validate_opus_tags_with_max_header_len valid_string
run-new_writer-IsDistinct_example =
    run-new_writer-IsDistinct plain file (seekable_output ∷ []) a_writer calls refl

-- A page of two bytes, without its checksum.
abbrev page_header : Bytes
page_header =
    0x4F ∷ 0x67 ∷ 0x67 ∷ 0x53 ∷ 0 ∷ 2 ∷ 5 ∷ 0 ∷ 0 ∷ 0 ∷ 0 ∷ 0 ∷ 0 ∷ 0 ∷ 7 ∷ 0 ∷ 0 ∷ 0 ∷ 1 ∷ 0 ∷ 0
    ∷ 0 ∷ 0 ∷ 0 ∷ 0 ∷ 0 ∷ 1 ∷ []

abbrev page_source : Bytes → Source
page_source bytes = record { bytes = bytes; broken = false }

abbrev page_reader : Reader
page_reader = new_with_options (page_source (page_header ++ (2 ∷ 0xAA ∷ 0xBB ∷ 0xCC ∷ []))) false

parse_next_page-IsGiven_example :
    IsGiven page_reader
      (0xAA ∷ 0xBB ∷ [])
      (header_of 1 2 5 7 1)
      (counted (on page_reader (0xCC ∷ []) false) 30)
unfolding parse_next_page read_full
parse_next_page-IsGiven_example =
    parse_next_page-IsGiven page_reader (0xAA ∷ 0xBB ∷ []) (header_of 1 2 5 7 1)
      (counted (on page_reader (0xCC ∷ []) false) 30) refl

abbrev tags : OpusTags
tags = record {
  vendor = 0x6D ∷ 0x65 ∷ [];
  user_comments = (record { comment = 0x54 ∷ []; value = 0x3D ∷ 0x41 ∷ [] }) ∷ [];
}

parse_opus_tags-build_comment_header_example : parse_opus_tags (build_comment_header tags) ≡ ok tags
unfolding validate_opus_tags_with_max_header_len valid_string
parse_opus_tags-build_comment_header_example = parse_opus_tags-build_comment_header tags 1000 refl

parse_opus_head-build_id_header_example :
    parse_opus_head (build_id_header 3840 48000 two_channels)
    ≡ ok (RoundTrip.header_of 3840 48000 two_channels)
parse_opus_head-build_id_header_example =
    parse_opus_head-build_id_header 3840 48000 two_channels (omega arith) (omega arith) stereo

abbrev swapped : ChannelMapping
swapped = mapping_of 255 1 1 (1 ∷ 0 ∷ [])

validate_channel_mapping_iff_example :
    (validate_channel_mapping 255 1 1 (1 ∷ 0 ∷ []) ≡ ok swapped)
    ↔ (IsMapping swapped × (0 < 255) × (swapped ≡ mapping_of 255 1 1 (1 ∷ 0 ∷ [])))
validate_channel_mapping_iff_example = validate_channel_mapping_iff 255 1 1 (1 ∷ 0 ∷ []) swapped

opus_packet_sample_count_iff_example :
    (opus_packet_sample_count opus ≡ ok 960) ↔ ((duration opus ≡ 960) × (0 < 960) × (960 ≤ 5760))
opus_packet_sample_count_iff_example = opus_packet_sample_count_iff opus 960 opus-IsOpus.octets

validate_opus_tags_header_len_iff_example :
    (validate_opus_tags_header_len tags 25 ≡ ok tt) ↔ (length (build_comment_header tags) ≤ 25)
validate_opus_tags_header_len_iff_example =
    validate_opus_tags_header_len_iff tags 25 (omega arith) (omega arith) (omega arith, tt)
