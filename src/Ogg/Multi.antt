-- ===== src/Ogg/Multi.antt =====
-- oggwriter/oggwriter.go: `Writer`, which multiplexes tracks. The mutex only serialises the calls.
pub mod Distinct
pub mod History
use format.Prelude.{
  ℕ, zero, suc, ◌+◌, ◌%◌, ◌^◌, Bool, true, false, not, ◌&&◌, ◌||◌, List, [], ◌∷◌, ◌++◌, ◌==◌,
  if◌then◌else◌, Bytes, Option, none, some, Result, ok, err, either, ◌>>=◌, ◌>>◌, reject_if,
}
use format.Ogg.Errors.{
  Error, output_not_opened, tracks_started, duplicate_track_ssrc, duplicate_track_serial,
  invalid_nil_packet, packet_ssrc_mismatch,
}
use format.Ogg.Channels.{ChannelMapping, default_channel_mapping}
use format.Ogg.OpusTags.{OpusTags, default_opus_tags, validate_opus_tags}
use format.Ogg.Options.{
  WriterOption, TrackOption, WriterConfig, TrackConfig, apply_writer_options, apply_track_options,
}
use format.Ogg.Track.{
  Output, Track, Outcome, Packet, new_track_state, write_track_id_header,
  write_track_comment_header, opus_payload_from_packet, write_opus_payload,
  mark_track_end_of_stream, write_nil_end_of_stream_page,
}
use format.Ogg.Single.{joined, close_output}

-- `Track`: the SSRC, which is the key in the map `tracks`, and the state. The map and the list
-- `trackOrder` hold the same tracks, so that the list alone stands for both.
pub record Entry : Type 0 where
  pub ssrc : ℕ
  pub track : Track

pub record Writer : Type 0 where
  pub output : Output
  pub is_closed : Bool
  pub sample_rate : ℕ
  pub channel_mapping : ChannelMapping
  pub opus_tags : OpusTags
  pub track_order : List Entry
  pub started : Bool

-- `NewWriter`; `WithSeekableOutput` is given the stream itself.
unfoldable pub new_writer : Output → List WriterOption → Result Error Writer
new_writer out opts = do
  mapping ← default_channel_mapping 2
  c ← apply_writer_options opts (record {
    sample_rate = 48000;
    channel_mapping = mapping;
    page_rewriter = false;
    opus_tags = default_opus_tags;
  })
  validate_opus_tags c.opus_tags
  ok (record {
    output = record out { rewriter = c.page_rewriter };
    is_closed = false;
    sample_rate = c.sample_rate;
    channel_mapping = c.channel_mapping;
    opus_tags = c.opus_tags;
    track_order = [];
    started = false;
  })

-- The lookup in `tracks`.
abbrev pub has_ssrc : ℕ → List Entry → Bool
has_ssrc ssrc [] = false
has_ssrc ssrc (e ∷ es) = e.ssrc == ssrc || has_ssrc ssrc es

abbrev pub serial_in_use : ℕ → List Entry → Bool
serial_in_use serial [] = false
serial_in_use serial (e ∷ es) = e.track.serial == serial || serial_in_use serial es

-- `allocateSerial` on the random numbers it draws; `none` is a loop that has not ended with them.
abbrev pub allocate_serial : List ℕ → List Entry → Option ℕ
allocate_serial [] es = none
allocate_serial (r ∷ rs) es = if serial_in_use r es then allocate_serial rs es else some r

-- The serial of a new track.
abbrev pub choose_serial : List ℕ → TrackConfig → List Entry → Option (Result Error ℕ)
choose_serial randoms c es =
    if not c.serial_set
    then elim (allocate_serial randoms es) [ none ↦ none | some serial ↦ some (ok serial) ]
    else if serial_in_use c.serial es
    then some (err duplicate_track_serial)
    else some (ok c.serial)

-- The checks of `NewTrack` before it has a serial.
abbrev pub new_track_config : Writer → ℕ → List TrackOption → Result Error TrackConfig
new_track_config w ssrc opts = do
  reject_if w.is_closed output_not_opened
  reject_if w.started tracks_started
  reject_if (has_ssrc ssrc w.track_order) duplicate_track_ssrc
  c ← apply_track_options opts (record {
    sample_rate = w.sample_rate;
    channel_mapping = w.channel_mapping;
    serial = 0;
    serial_set = false;
    opus_tags = w.opus_tags;
  })
  validate_opus_tags c.opus_tags
  ok c

abbrev pub add_track : Writer → ℕ → TrackConfig → ℕ → Writer
add_track w ssrc c serial = record w {
  track_order =
      w.track_order
      ++ record {
        ssrc = ssrc;
        track = new_track_state c.sample_rate c.channel_mapping serial c.opus_tags;
      }
        ∷ [];
}

abbrev pub add_with :
    Writer → ℕ → TrackConfig → Option (Result Error ℕ) → Option (Result Error (Unit {0}) × Writer)
add_with w ssrc c none = none
add_with w ssrc c (some (err e)) = some (err e, w)
add_with w ssrc c (some (ok serial)) = some (ok tt, add_track w ssrc c serial)

abbrev pub add_checked :
    List ℕ → Writer → ℕ → Result Error TrackConfig → Option (Result Error (Unit {0}) × Writer)
add_checked randoms w ssrc (err e) = some (err e, w)
add_checked randoms w ssrc (ok c) = add_with w ssrc c (choose_serial randoms c w.track_order)

-- `NewTrack`; `none` is a call that still draws random numbers.
unfoldable pub new_track :
    List ℕ → Writer → ℕ → List TrackOption → Option (Result Error (Unit {0}) × Writer)
new_track randoms w ssrc opts = add_checked randoms w ssrc (new_track_config w ssrc opts)

-- What a loop over the tracks gives.
pub record Passed : Type 0 where
  pub result : Result Error (Unit {0})
  pub output : Output
  pub entries : List Entry

abbrev pub passed_more : Entry → Passed → Passed
passed_more e p = record p { entries = e ∷ p.entries }

-- A loop over `trackOrder` that ends with the first error.
unfoldable pub each_track : (Output → Track → Outcome) → Output → List Entry → Passed
each_track f out [] = record { result = ok tt; output = out; entries = [] }
each_track f out (e ∷ es) =
    let o = f out e.track in
    let e' = record e { track = o.track } in
    let later = each_track f o.output es in
    either o.result (λ x. record { result = err x; output = o.output; entries = e' ∷ es })
      (passed_more e' later)

abbrev pub after_loop : Writer → Passed → Writer
after_loop w p = record w { output = p.output; track_order = p.entries }

abbrev pub end_start : Writer → Passed → Result Error (Unit {0}) × Writer
end_start w p =
    either p.result (λ e. (err e, after_loop w p))
      ((ok tt, record (after_loop w p) { started = true }))

-- `startLocked`
unfoldable pub start_locked : Writer → Result Error (Unit {0}) × Writer
start_locked w =
    let heads = each_track write_track_id_header w.output w.track_order in
    if w.started
    then (ok tt, w)
    else either heads.result (λ e. (err e, after_loop w heads))
        (end_start w (each_track write_track_comment_header heads.output heads.entries))

-- `writeOpusPayload` of the track with the SSRC.
abbrev pub with_entry : (Entry → Output → Outcome) → ℕ → Output → List Entry → Passed
with_entry f ssrc out [] = record { result = ok tt; output = out; entries = [] }
with_entry f ssrc out (e ∷ es) =
    let o = f e out in
    let later = with_entry f ssrc out es in
    if e.ssrc == ssrc
    then record {
      result = o.result;
      output = o.output;
      entries = record e { track = o.track } ∷ es;
    }
    else passed_more e later

abbrev pub write_to_track : Writer → ℕ → Bytes → Result Error (Unit {0}) × Writer
write_to_track w ssrc payload =
    let p =
      with_entry (λ e out. write_opus_payload out e.track payload) ssrc w.output w.track_order in
    (p.result, after_loop w p)

abbrev pub written_when_started :
    ℕ → Bytes → Result Error (Unit {0}) × Writer → Result Error (Unit {0}) × Writer
written_when_started ssrc payload (err e, w) = (err e, w)
written_when_started ssrc payload (ok u, w) = write_to_track w ssrc payload

abbrev pub written_unpacked :
    Writer → ℕ → Result Error (Option Bytes) → Result Error (Unit {0}) × Writer
written_unpacked w ssrc (err e) = (err e, w)
written_unpacked w ssrc (ok none) = (ok tt, w)
written_unpacked w ssrc (ok (some payload)) = written_when_started ssrc payload (start_locked w)

-- `Track.WriteRTP` of the track with the SSRC, of a packet that is not nil.
abbrev pub write_rtp_packet :
    (Bytes → Option Bytes) → Writer → ℕ → Packet → Result Error (Unit {0}) × Writer
write_rtp_packet unmarshal w ssrc packet =
    if not (packet.ssrc == ssrc)
    then (err packet_ssrc_mismatch, w)
    else written_unpacked w ssrc (opus_payload_from_packet unmarshal (some packet))

unfoldable pub write_rtp_multi :
    (Bytes → Option Bytes) → Writer → ℕ → Option Packet → Result Error (Unit {0}) × Writer
write_rtp_multi unmarshal w ssrc packet =
    if w.is_closed then (err output_not_opened, w) else elim packet [
      | none ↦ (err invalid_nil_packet, w)
      | some p ↦ write_rtp_packet unmarshal w ssrc p
    ]

-- The loops of `Close`, which go on behind an error.
unfoldable pub mark_tracks : Output → List Entry → List Error × Output
mark_tracks out [] = ([], out)
mark_tracks out (e ∷ es) =
    let (marked, out') = mark_track_end_of_stream out e.track in
    let (errors, out'') = mark_tracks out' es in (joined marked errors, out'')

unfoldable pub end_tracks : Output → List Entry → List Error × Output × List Entry
end_tracks out [] = ([], out, [])
end_tracks out (e ∷ es) =
    let o = write_nil_end_of_stream_page out e.track in
    let (errors, out', es') = end_tracks o.output es in
    (joined o.result errors, out', record e { track = o.track } ∷ es')

abbrev pub close_tracks : Writer → List Error × Writer
close_tracks w =
    let (errors, out) = mark_tracks w.output w.track_order in
    let (errors', out', es) = end_tracks w.output w.track_order in
    if w.output.rewriter
    then (errors, record w { output = out })
    else (errors', record w { output = out'; track_order = es })

-- `Close`
unfoldable pub close_multi : Writer → List Error × Writer
close_multi w =
    let (begun, w') = start_locked w in
    let (errors, w'') = close_tracks w' in
    if w.is_closed
    then ([], w)
    else (joined begun (errors ++ close_output w''.output), record w'' { is_closed = true })
