-- ===== src/Ogg/Single/Rendered.antt =====
-- oggwriter/oggwriter.go: the file that `OggWriter` writes.
use format.Prelude.{
  ℕ, ◌+◌, ◌%◌, ◌^◌, ◌≡◌, ◌<◌, refl, sym, ap, ◌∙◌, arith, false, List, [], ◌∷◌, ◌++◌, ◌==◌, Bytes,
  length, Option, some, ok, err, either, append-nil, append_assoc,
}
use format.Prelude.Utf8.{valid_string}
use format.Ogg.Channels.{ChannelMapping, default_channel_mapping}
use format.Ogg.OpusHead.{build_id_header}
use format.Ogg.OpusTags.{
  default_opus_tags, build_comment_header, validate_opus_tags_with_max_header_len,
}
use format.Ogg.Samples.Table.{duration}
use format.Ogg.Track.{
  Output, Track, Outcome, Packet, new_track_state, write_rtp, write_track_headers,
}
use format.Ogg.Track.Written.{IsSound}
use format.Ogg.Single.{OggWriter, new_with, new_with_config, new_track_config, write_rtp_single}
use format.Ogg.Track.Placed.{At, IsOpus, pages_of, pages_in, rendered, payload-At, headers-At}

-- The packets of a history and what `OpusPacket.Unmarshal` gets out of them.
pub data Carries (unmarshal : Bytes → Option Bytes) : List Packet → List Bytes → Type 0 where
  none_left : Carries unmarshal [] []
  carries :
      {packets : List Packet} {payloads : List Bytes} (packet : Packet) (payload : Bytes)
      → 0 < length packet.payload
      → unmarshal packet.payload ≡ some payload
      → IsOpus payload
      → Carries unmarshal packets payloads
      → Carries unmarshal (packet ∷ packets) (payload ∷ payloads)

module _ (unmarshal : Bytes → Option Bytes) where
  -- A history of calls of `WriteRTP`.
  abbrev pub run : OggWriter → List Packet → OggWriter
  run w [] = w
  run w (p ∷ ps) = run (write_rtp_single unmarshal w (some p)).1 ps

  packet-At :
      (w : OggWriter) (bytes payload : Bytes) (packet : Packet) (serial index granule : ℕ)
      → 0 < length packet.payload
      → unmarshal packet.payload ≡ some payload
      → IsOpus payload
      → w.is_closed ≡ false
      → At w.output w.track bytes serial index granule
      → let w' = (write_rtp_single unmarshal w (some packet)).1 in
        let g = (granule + duration payload) % 2 ^ 64 in
        (w'.is_closed ≡ false)
        × At w'.output w'.track
            (bytes ++ pages_of serial 0 g payload index)
            serial
            ((index + pages_in payload) % 2 ^ 32)
            g
  unfolding write_rtp_single write_rtp
  packet-At w bytes payload packet serial index granule full given v opened a =
      let some_bytes : (length packet.payload == 0) ≡ false = ground arith in
      let (done, at) = payload-At w.output w.track bytes payload serial index granule v a in
      rw (opened, some_bytes, given) (refl, at)

  run-rendered :
      (w : OggWriter) (bytes : Bytes) (serial index granule : ℕ) (packets : List Packet)
      (payloads : List Bytes)
      → Carries unmarshal packets payloads
      → w.is_closed ≡ false
      → At w.output w.track bytes serial index granule
      → (run w packets).output.sink.written ≡ bytes ++ rendered serial index granule payloads
  run-rendered w bytes serial index granule packets payloads none_left opened a =
      a.written ∙ sym (append-nil bytes)
  run-rendered w bytes serial index granule packets payloads
        (carries packet payload full given v more) opened a =
      let g : ℕ = (granule + duration payload) % 2 ^ 64 in
      let (opened', at) =
        packet-At w bytes payload packet serial index granule full given v opened a in
      run-rendered (write_rtp_single unmarshal w (some packet)).1
        (bytes ++ pages_of serial 0 g payload index) serial ((index + pages_in payload) % 2 ^ 32) g
        _ _ more opened' at
      ∙ append_assoc bytes (pages_of serial 0 g payload index) _

pub config_ok :
    (channel_count : ℕ) (mapping : ChannelMapping)
    → default_channel_mapping channel_count ≡ ok mapping
    → new_track_config channel_count ≡ ok (mapping, default_opus_tags)
unfolding validate_opus_tags_with_max_header_len valid_string
config_ok channel_count mapping e = rw e refl

family_0 :
    (channel_count : ℕ) (mapping : ChannelMapping)
    → default_channel_mapping channel_count ≡ ok mapping
    → mapping.family ≡ 0
family_0 channel_count mapping e = ground arith

one_head :
    (rate : ℕ) (mapping : ChannelMapping)
    → mapping.family ≡ 0
    → pages_in (build_id_header 3840 rate mapping) ≡ 1
unfolding build_id_header
one_head rate mapping e = rw e refl

one_tags : pages_in (build_comment_header default_opus_tags) ≡ 1
unfolding build_comment_header
one_tags = refl

-- What a single-track writer has written, once it is made and has been given packets.
abbrev pub file_of : (serial rate : ℕ) → ChannelMapping → List Bytes → Bytes
file_of serial rate mapping payloads =
    pages_of serial 2 0 (build_id_header 3840 rate mapping) 0
    ++ (pages_of serial 0 0 (build_comment_header default_opus_tags) 1
        ++ rendered serial 2 0 payloads)

-- With one or two channels and an output whose calls do not fail, the writer is made, and a history of
-- `WriteRTP` on packets that carry Opus of at most 120 ms leaves exactly this file: the ID header on
-- the first page, which begins the stream, the tags on the second, and then the pages of each
-- packet, in their order, with the granule positions summed up and the page numbers going on.
pub run-file_of :
    (unmarshal : Bytes → Option Bytes) (out : Output) (rate channel_count serial : ℕ)
    (mapping : ChannelMapping) (packets : List Packet) (payloads : List Bytes)
    → IsSound out
    → default_channel_mapping channel_count ≡ ok mapping
    → Carries unmarshal packets payloads
    → (w : OggWriter) × ((new_with out rate channel_count serial).0 ≡ ok w)
      × ((run unmarshal w packets).output.sink.written
          ≡ out.sink.written ++ file_of serial rate mapping payloads)
unfolding new_with
run-file_of unmarshal out rate channel_count serial mapping packets payloads v e c =
    let t : Track = new_track_state rate mapping serial default_opus_tags in
    let o : Outcome = write_track_headers out t in
    let w : OggWriter = record { output = o.output; is_closed = false; track = o.track } in
    let head : Bytes = pages_of serial 2 0 (build_id_header 3840 rate mapping) 0 in
    let tags : Bytes = pages_of serial 0 0 (build_comment_header default_opus_tags) 1 in
    let (done, at) =
      headers-At out t out.sink.written serial
        (record { sound = v; written = refl; serial_is = refl; index_is = refl; granule_is = refl })
        (one_head rate mapping (family_0 channel_count mapping e)) one_tags in
    (
      w,
      ap (λ c. (new_with_config out rate serial c).0) (config_ok channel_count mapping e)
          ∙ ap (λ r. either r (λ x. err x) (ok w)) done,
      run-rendered unmarshal w ((out.sink.written ++ head) ++ tags) serial 2 0 packets payloads c
            refl at
          ∙ (append_assoc (out.sink.written ++ head) tags (rendered serial 2 0 payloads)
              ∙ append_assoc out.sink.written head (tags ++ rendered serial 2 0 payloads)),
    )
