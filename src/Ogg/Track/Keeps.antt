-- ===== src/Ogg/Track/Keeps.antt =====
-- oggwriter/oggwriter.go: the serial number of a track, which no write changes.
use format.Prelude.{
  ℕ, ◌+◌, ◌≡◌, refl, ◌∙◌, ◌&&◌, List, [], ◌∷◌, ◌==◌, if◌then◌else◌, if_cases, Bytes, length, Result,
  ok, err, either_cases,
}
use format.Ogg.Errors.{Error}
use format.Ogg.Page.{OggPage, create_pages_for_serial, generate_checksum_table}
use format.Ogg.Samples.{opus_packet_sample_count}
use format.Ogg.Track.{
  Output, Track, Outcome, write_to_stream, write_pages, is_last, mark_last, count_pages, write_page,
  next_fault, write_counted, write_track_id_header, write_track_comment_header, write_opus_payload,
  write_nil_end_of_stream_page,
}

abbrev pub Keeps : Track → Outcome → Type 0
Keeps t o = o.track.serial ≡ t.serial

count_pages-Keeps : (n : ℕ) (t : Track) (o : Outcome) → Keeps t o → Keeps t (count_pages n o)
count_pages-Keeps n t o h = either_cases (Keeps t) o.result (λ e. h) h

write_pages-Keeps :
    (ps : List OggPage) (offset : ℕ) (out : Output) (t : Track)
    → Keeps t (write_pages ps offset out t)
unfolding write_pages
write_pages-Keeps [] offset out t = refl
write_pages-Keeps (p ∷ ps) offset out t =
    let t' : Track = if out.rewriter && is_last ps then mark_last t p offset else t in
    let out' : Output = (write_to_stream out p.data_bytes).1 in
    either_cases (Keeps t) (write_to_stream out p.data_bytes).0 (λ e. refl)
      (write_pages-Keeps ps (offset + length p.data_bytes) out' t'
        ∙ if_cases (λ (x : Track). x.serial ≡ t.serial) (out.rewriter && is_last ps) refl refl)

write_page-Keeps :
    (out : Output) (t : Track) (payload : Bytes) (h g : ℕ) → Keeps t (write_page out t payload h g)
unfolding write_page
write_page-Keeps out t payload h g =
    let pages : List OggPage =
      create_pages_for_serial generate_checksum_table payload h g t.serial t.page_index in
    if_cases (Keeps t) (out.rewriter && next_fault out) refl
      (count_pages-Keeps (length pages) t _ (write_pages-Keeps pages _ _ t))

pub write_track_id_header-Keeps : (out : Output) (t : Track) → Keeps t (write_track_id_header out t)
write_track_id_header-Keeps out t = write_page-Keeps out t _ _ _

pub write_track_comment_header-Keeps :
    (out : Output) (t : Track) → Keeps t (write_track_comment_header out t)
write_track_comment_header-Keeps out t = write_page-Keeps out t _ _ _

pub write_opus_payload-Keeps :
    (out : Output) (t : Track) (payload : Bytes) → Keeps t (write_opus_payload out t payload)
unfolding write_opus_payload
write_opus_payload-Keeps out t payload = by_count (opus_packet_sample_count payload)
  where
    by_count : (n : Result Error ℕ) → Keeps t (write_counted out t payload n)
    by_count (err e) = refl
    by_count (ok n) = write_page-Keeps out _ payload _ _

pub write_nil_end_of_stream_page-Keeps :
    (out : Output) (t : Track) → Keeps t (write_nil_end_of_stream_page out t)
unfolding write_nil_end_of_stream_page
write_nil_end_of_stream_page-Keeps out t =
    if_cases (Keeps t) (t.page_index == 0) refl
      (either_cases (Keeps t) (write_to_stream out _).0 (λ e. refl) refl)
