-- ===== src/Ogg/Track/Placed.antt =====
-- oggwriter/oggwriter.go: where a track is in its file, and what a page, a packet and the headers add to it.
use format.Prelude.{
  ℕ, ◌+◌, ◌/◌, ◌%◌, ◌^◌, ◌≡◌, ◌≤◌, ◌<◌, refl, ap, ◌∙◌, arith, List, [], ◌∷◌, ◌++◌, Bytes, length,
  ok,
}
use mathlib.Core.Path.{subst}
use format.Prelude.Words.{IsBytes}
use format.Ogg.OpusHead.{build_id_header}
use format.Ogg.OpusTags.{build_comment_header}
use format.Ogg.Page.{create_page_for_serial, generate_checksum_table}
use format.Ogg.Samples.{opus_packet_sample_count}
use format.Ogg.Samples.Table.{duration, opus_packet_sample_count_iff}
use format.Ogg.Track.{
  Output, Track, Outcome, write_opus_payload, write_track_headers, write_track_id_header,
  write_track_comment_header, write_page,
}
use format.Ogg.Track.Written.{IsSound, Wrote, write_page-Wrote}

-- The pages of a packet behind what is written, by their first number.
abbrev pub pages_of : (serial flags granule : ℕ) → Bytes → ℕ → Bytes
pages_of serial flags granule payload index =
    create_page_for_serial generate_checksum_table payload flags granule serial index

abbrev pub pages_in : Bytes → ℕ
pages_in payload = length payload / 65025 + 1

-- The audio pages of a file: the granule position of a packet is the duration of all up to it, and the
-- page numbers go on.
abbrev pub rendered : (serial index granule : ℕ) → List Bytes → Bytes
rendered serial index granule [] = []
rendered serial index granule (p ∷ ps) =
    let next_granule = (granule + duration p) % 2 ^ 64 in
    pages_of serial 0 next_granule p index
    ++ rendered serial ((index + pages_in p) % 2 ^ 32) next_granule ps

-- A packet of RFC 6716 that is no longer than 120 ms.
pub record IsOpus (payload : Bytes) : Type 0 where
  pub octets : IsBytes payload
  pub some_sound : 0 < duration payload
  pub at_most : duration payload ≤ 5760

-- A track in the middle of its file.
pub record At (out : Output) (t : Track) (bytes : Bytes) (serial index granule : ℕ) : Type 0 where
  pub sound : IsSound out
  pub written : out.sink.written ≡ bytes
  pub serial_is : t.serial ≡ serial
  pub index_is : t.page_index ≡ index
  pub granule_is : t.previous_granule_position ≡ granule

Wrote-At :
    (out : Output) (t : Track) (bytes p : Bytes) (serial index granule n : ℕ) (o : Outcome)
    → At out t bytes serial index granule
    → Wrote out t p n o
    → At o.output o.track (bytes ++ p) serial ((index + n) % 2 ^ 32) granule
Wrote-At out t bytes p serial index granule n o a w = record {
  sound = w.sound;
  written = w.written ∙ ap (λ b. b ++ p) a.written;
  serial_is = w.same_serial ∙ a.serial_is;
  index_is = w.numbered ∙ ap (λ i. (i + n) % 2 ^ 32) a.index_is;
  granule_is = w.same_granule ∙ a.granule_is;
}

-- A page is written from where the track is.
pub page-At :
    (out : Output) (t : Track) (bytes payload : Bytes) (serial index granule flags g : ℕ)
    → flags < 8
    → At out t bytes serial index granule
    → let o = write_page out t payload flags g in
      (o.result ≡ ok tt)
      × At o.output o.track
          (bytes ++ pages_of serial flags g payload index)
          serial
          ((index + pages_in payload) % 2 ^ 32)
          granule
page-At out t bytes payload serial index granule flags g f a =
    let w = write_page-Wrote out t payload flags g a.sound f in
    (
      w.done,
      rw (← a.serial_is, ← a.index_is)
          (Wrote-At out t bytes _ t.serial t.page_index granule (pages_in payload) _
            (record {
              sound = a.sound;
              written = a.written;
              serial_is = refl;
              index_is = refl;
              granule_is = a.granule_is;
            })
            w),
    )

pub payload-At :
    (out : Output) (t : Track) (bytes payload : Bytes) (serial index granule : ℕ)
    → IsOpus payload
    → At out t bytes serial index granule
    → let o = write_opus_payload out t payload in
      let g = (granule + duration payload) % 2 ^ 64 in
      (o.result ≡ ok tt)
      × At o.output o.track
          (bytes ++ pages_of serial 0 g payload index)
          serial
          ((index + pages_in payload) % 2 ^ 32)
          g
unfolding write_opus_payload
payload-At out t bytes payload serial index granule v a =
    let counted : opus_packet_sample_count payload ≡ ok (duration payload) =
      (opus_packet_sample_count_iff payload (duration payload) v.octets).1
        (refl, v.some_sound, v.at_most) in
    let g : ℕ = (granule + duration payload) % 2 ^ 64 in
    rw (counted, a.granule_is)
      (page-At out (record t { previous_granule_position = g }) bytes payload serial index g 0 g
        (omega arith)
        (record {
          sound = a.sound;
          written = a.written;
          serial_is = a.serial_is;
          index_is = a.index_is;
          granule_is = refl;
        }))

pub headers-At :
    (out : Output) (t : Track) (bytes : Bytes) (serial : ℕ)
    → At out t bytes serial 0 0
    → pages_in (build_id_header t.pre_skip t.sample_rate t.channel_mapping) ≡ 1
    → pages_in (build_comment_header t.opus_tags) ≡ 1
    → let o = write_track_headers out t in
      let head =
        pages_of serial 2 0 (build_id_header t.pre_skip t.sample_rate t.channel_mapping) 0 in
      let tags = pages_of serial 0 0 (build_comment_header t.opus_tags) 1 in
      (o.result ≡ ok tt) × At o.output o.track ((bytes ++ head) ++ tags) serial 2 0
headers-At out t bytes serial a one_head one_tags =
    let id : Bytes = build_id_header t.pre_skip t.sample_rate t.channel_mapping in
    let o : Outcome = write_track_id_header out t in
    let w = write_page-Wrote out t id 2 0 a.sound (omega arith) in
    let (done, at) = page-At out t bytes id serial 0 0 2 0 (omega arith) a in
    let at_one = rw one_head at at in
    let (done', at') =
      page-At o.output o.track (bytes ++ pages_of serial 2 0 id 0)
        (build_comment_header o.track.opus_tags) serial 1 0 0 0 (omega arith) at_one in
    let one : pages_in (build_comment_header o.track.opus_tags) ≡ 1 =
      ap (λ tags. pages_in (build_comment_header tags)) w.same_tags ∙ one_tags in
    let there : At (write_track_comment_header o.output o.track).output
        (write_track_comment_header o.output o.track).track
        ((bytes ++ pages_of serial 2 0 id 0)
          ++ pages_of serial 0 0 (build_comment_header o.track.opus_tags) 1)
        serial 2 0 =
      rw one at at' in
    rw done (
      done',
      subst
          (λ tags.
            At (write_track_comment_header o.output o.track).output
              (write_track_comment_header o.output o.track).track
              ((bytes ++ pages_of serial 2 0 id 0)
                ++ pages_of serial 0 0 (build_comment_header tags) 1)
              serial 2 0)
          w.same_tags there,
    )
