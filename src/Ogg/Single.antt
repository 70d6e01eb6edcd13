-- ===== src/Ogg/Single.antt =====
-- oggwriter/oggwriter.go: `OggWriter`, which writes a single track.
pub mod Rendered
pub mod Closed
use format.Prelude.{
  ℕ, Bool, true, false, List, [], ◌∷◌, Bytes, Option, none, some, Result, ok, err, either, ◌>>=◌,
  ◌>>◌, if◌then◌else◌,
}
use format.Ogg.Errors.{Error, file_not_opened, stream}
use format.Ogg.Channels.{ChannelMapping, default_channel_mapping}
use format.Ogg.OpusTags.{OpusTags, default_opus_tags, validate_opus_tags}
use format.Ogg.Track.{
  Output, Track, Outcome, Packet, new_track_state, write_track_headers, write_rtp,
  mark_track_end_of_stream,
}

-- The output is a file, and so a `pageRewriter`, where `New` has made it. A writer that is closed has no
-- stream.
pub record OggWriter : Type 0 where
  pub output : Output
  pub is_closed : Bool
  pub track : Track

-- `newTrackConfig`: the mapping and the tags of the track.
abbrev pub new_track_config : ℕ → Result Error (ChannelMapping × OpusTags)
new_track_config channel_count = do
  mapping ← default_channel_mapping channel_count
  validate_opus_tags default_opus_tags
  ok (mapping, default_opus_tags)

-- `newWith`: `serial` is the random number. Where it fails, the output still has what was written.
abbrev pub new_with_config :
    Output
    → (sample_rate serial : ℕ) → Result Error (ChannelMapping × OpusTags)
    → Result Error OggWriter × Output
new_with_config out sample_rate serial (err e) = (err e, out)
new_with_config out sample_rate serial (ok (mapping, tags)) =
    let o = write_track_headers out (new_track_state sample_rate mapping serial tags) in
    (
      either o.result (λ e. err e)
          (ok (record { output = o.output; is_closed = false; track = o.track })),
      o.output,
    )

-- `NewWith`, and `New` behind the creation of the file.
unfoldable pub new_with :
    Output → (sample_rate channel_count serial : ℕ) → Result Error OggWriter × Output
new_with out sample_rate channel_count serial =
    new_with_config out sample_rate serial (new_track_config channel_count)

-- `WriteRTP`
unfoldable pub write_rtp_single :
    (Bytes → Option Bytes) → OggWriter → Option Packet → Result Error (Unit {0}) × OggWriter
write_rtp_single unmarshal w packet =
    let o = write_rtp unmarshal w.output w.track packet in
    if w.is_closed
    then (err file_not_opened, w)
    else (o.result, record w { output = o.output; track = o.track })

-- The errors that `errors.Join` puts together.
abbrev pub joined : Result Error (Unit {0}) → List Error → List Error
joined (err e) later = e ∷ later
joined (ok u) later = later

abbrev pub close_output : Output → List Error
close_output out = elim out.close_error [ none ↦ [] | some e ↦ stream e ∷ [] ]

-- `Close`. A closed writer has neither a file nor a stream.
unfoldable pub close_single : OggWriter → List Error × OggWriter
close_single w =
    let (marked, out) = mark_track_end_of_stream w.output w.track in
    if w.is_closed
    then ([], w)
    else if w.output.rewriter
    then (joined marked (close_output out), record w { output = out; is_closed = true })
    else (close_output w.output, record w { is_closed = true })
