-- ===== src/Ogg/Single/Closed.antt =====
-- oggwriter/oggwriter.go: `Close` of an `OggWriter` on a file.
use format.Prelude.{
  ℕ, ◌≡◌, ◌<◌, refl, sym, ap, ◌∙◌, arith, true, false, List, [], ◌∷◌, if◌then◌else◌, Bytes, Option,
  none, some, Result, ok, err, either, ok-injective, if_cases_on,
}
use mathlib.Core.Path.{subst}
use format.Ogg.Errors.{Error, file_not_opened}
use format.Ogg.Channels.{ChannelMapping, default_channel_mapping}
use format.Ogg.OpusHead.{build_id_header}
use format.Ogg.OpusTags.{default_opus_tags, build_comment_header}
use format.Ogg.Samples.{opus_packet_sample_count}
use format.Ogg.Track.{
  Output, Track, Outcome, Packet, new_track_state, write_page, write_counted, write_unpacked,
  write_opus_payload, write_rtp, write_track_id_header, write_track_headers,
  opus_payload_from_packet, mark_track_end_of_stream,
}
use format.Ogg.Track.Written.{IsSound, write_page-Wrote}
use format.Ogg.Track.Ended.{HasLast, with_end, write_page-HasLast, mark_track_end_of_stream_lem}
use format.Ogg.Single.{
  OggWriter, new_with, new_with_config, write_rtp_single, close_single, close_output, joined,
}
use format.Ogg.Single.Rendered.{config_ok}

-- A file whose last page the track knows.
record Filed (out : Output) (t : Track) : Type 0 where
  sound : IsSound out
  seekable : out.rewriter ≡ true
  last : HasLast out t

page-Filed :
    (out : Output) (t : Track) (payload : Bytes) (h g : ℕ)
    → h < 8
    → IsSound out
    → out.rewriter ≡ true
    → Filed (write_page out t payload h g).output (write_page out t payload h g).track
page-Filed out t payload h g flags v seekable =
    let w = write_page-Wrote out t payload h g v flags in
    record {
      sound = w.sound;
      seekable = w.same_kind ∙ seekable;
      last = write_page-HasLast out t payload h g v seekable flags;
    }

abbrev IsFiled : Outcome → Type 0
IsFiled o = Filed o.output o.track

counted-Filed :
    (out : Output) (t : Track) (payload : Bytes) (n : Result Error ℕ)
    → Filed out t
    → IsFiled (write_counted out t payload n)
counted-Filed out t payload (err e) f = f
counted-Filed out t payload (ok n) f = page-Filed out _ payload 0 _ (omega arith) f.sound f.seekable

unpacked-Filed :
    (out : Output) (t : Track) (m : Result Error (Option Bytes))
    → Filed out t
    → IsFiled (write_unpacked out t m)
unfolding write_opus_payload
unpacked-Filed out t (err e) f = f
unpacked-Filed out t (ok none) f = f
unpacked-Filed out t (ok (some payload)) f =
    counted-Filed out t payload (opus_packet_sample_count payload) f

module _ (unmarshal : Bytes → Option Bytes) where
  -- A history of calls of `WriteRTP`, on any packets.
  abbrev pub run_any : OggWriter → List (Option Packet) → OggWriter
  run_any w [] = w
  run_any w (p ∷ ps) = run_any (write_rtp_single unmarshal w p).1 ps

  record Opened (w : OggWriter) : Type 0 where
    filed : Filed w.output w.track
    opened : w.is_closed ≡ false

  write-Opened :
      (w : OggWriter) (p : Option Packet) → Opened w → Opened (write_rtp_single unmarshal w p).1
  unfolding write_rtp_single write_rtp
  write-Opened w p o =
      let x : Outcome = write_rtp unmarshal w.output w.track p in
      let Both : Type 0 = Result Error (Unit {0}) × OggWriter in
      let refused : Both = (err file_not_opened, w) in
      let written : Both = (x.result, record w { output = x.output; track = x.track }) in
      let now : Opened written.1 = record {
        filed = unpacked-Filed w.output w.track (opus_payload_from_packet unmarshal p) o.filed;
        opened = o.opened;
      } in
      if_cases_on (λ (b : Both). Opened b.1) w.is_closed {x = refused} {y = written}
        (λ closed. absurd (cc (sym o.opened ∙ closed))) (λ open_. now)

  run-Opened : (w : OggWriter) (ps : List (Option Packet)) → Opened w → Opened (run_any w ps)
  run-Opened w [] o = o
  run-Opened w (p ∷ ps) o = run-Opened (write_rtp_single unmarshal w p).1 ps (write-Opened w p o)

  closed_ok :
      (w : OggWriter) (o : Opened w)
      → close_single w ≡ (
        close_output w.output,
        record w { output = with_end w.output w.track o.filed.last; is_closed = true },
      )
  unfolding close_single
  closed_ok w o =
      let Both : Type 0 = Result Error (Unit {0}) × Output in
      let rewritten : Both → List Error × OggWriter =
        λ m. (joined m.0 (close_output m.1), record w { output = m.1; is_closed = true }) in
      let plain : List Error × OggWriter = (close_output w.output, record w { is_closed = true }) in
      let marked : Both = mark_track_end_of_stream w.output w.track in
      ap (λ b. if b then ([], w) else if w.output.rewriter then rewritten marked else plain)
        o.opened
      ∙ (ap (λ b. if b then rewritten marked else plain) o.filed.seekable
          ∙ ap rewritten (
              mark_track_end_of_stream_lem w.output w.track o.filed.last
                o.filed.sound.no_rewrite_faults))

made-Filed :
    (out : Output) (rate serial : ℕ) (m : ChannelMapping)
    → IsSound out
    → out.rewriter ≡ true
    → let o = write_track_headers out (new_track_state rate m serial default_opus_tags) in
      (o.result ≡ ok tt) × IsFiled o
made-Filed out rate serial m v seekable =
    let t : Track = new_track_state rate m serial default_opus_tags in
    let o : Outcome = write_track_id_header out t in
    let w = write_page-Wrote out t (build_id_header t.pre_skip rate m) 2 0 v (omega arith) in
    let w' =
      write_page-Wrote o.output o.track (build_comment_header o.track.opus_tags) 0 0 w.sound
        (omega arith) in
    rw w.done
      (w'.done, page-Filed o.output o.track _ 0 0 (omega arith) w.sound (w.same_kind ∙ seekable))

-- On a file without faults and with one or two channels, after any history of `WriteRTP`, whatever the
-- packets and whether they were written, the file ends with the page that the track has noted as its
-- last, and `Close` puts in its place the same page with the flag that ends the stream: what is
-- before it stays, nothing is behind it, and the only error can be that of closing the file.
pub close_single-run :
    (unmarshal : Bytes → Option Bytes) (out : Output) (rate channel_count serial : ℕ)
    (m : ChannelMapping) (w : OggWriter) (packets : List (Option Packet))
    → IsSound out
    → out.rewriter ≡ true
    → default_channel_mapping channel_count ≡ ok m
    → (new_with out rate channel_count serial).0 ≡ ok w
    → let w' = run_any unmarshal w packets in
      (l : HasLast w'.output w'.track) × (close_single w' ≡ (
        close_output w'.output,
        record w' { output = with_end w'.output w'.track l; is_closed = true },
      ))
unfolding new_with
close_single-run unmarshal out rate channel_count serial m w packets v seekable e made =
    let o : Outcome = write_track_headers out (new_track_state rate m serial default_opus_tags) in
    let w0 : OggWriter = record { output = o.output; is_closed = false; track = o.track } in
    let (done, filed) = made-Filed out rate serial m v seekable in
    let new_is : (new_with out rate channel_count serial).0 ≡ ok w0 =
      ap (λ c. (new_with_config out rate serial c).0) (config_ok channel_count m e)
      ∙ ap (λ r. either r (λ x. err x) (ok w0)) done in
    let same : w0 ≡ w = ok-injective (sym new_is ∙ made) in
    let opened : Opened unmarshal w =
      subst (Opened unmarshal) same (record { filed = filed; opened = refl }) in
    let now : Opened unmarshal (run_any unmarshal w packets) =
      run-Opened unmarshal w packets opened in
    (now.filed.last, closed_ok unmarshal (run_any unmarshal w packets) now)
