-- ===== src/Ogg/Track/Written.antt =====
-- oggwriter/oggwriter.go: what an output without faults has been given.
use format.Prelude.{
  ℕ, ◌+◌, ◌/◌, ◌%◌, ◌^◌, ◌≡◌, refl, sym, ap, ◌∙◌, Bool, true, false, ◌&&◌, List, [], ◌∷◌, ◌++◌,
  if◌then◌else◌, if_cases, Bytes, length, drop, ◌<◌, concat, map, ok, append-nil, append_assoc,
}
use format.Prelude.Io.{write_all}
use format.Ogg.Page.{
  OggPage, create_pages_for_serial, create_page_for_serial, generate_checksum_table, data_of,
}
use format.Ogg.Page.Packet.{create_pages_for_serial-IsLaid, IsLaid-length}
use format.Ogg.Track.{
  Output, Track, Outcome, write_to_stream, write_pages, is_last, mark_last, count_pages, write_page,
  next_fault, past_fault,
}

-- An output whose calls do not fail.
pub record IsSound (out : Output) : Type 0 where
  pub no_faults : out.sink.faults ≡ []
  pub no_rewrite_faults : out.rewrite_faults ≡ []

abbrev pub appended : Output → Bytes → Output
appended out p = record out { sink = record { written = out.sink.written ++ p; faults = [] } }

pub write_to_stream_all :
    (out : Output) (p : Bytes) → IsSound out → write_to_stream out p ≡ (ok tt, appended out p)
unfolding write_to_stream
write_to_stream_all out p v = rw (write_all out.sink p v.no_faults) refl

-- What has been done where `n` pages with the bytes `p` have been written of a track.
pub record Wrote (out : Output) (t : Track) (p : Bytes) (n : ℕ) (o : Outcome) : Type 0 where
  pub done : o.result ≡ ok tt
  pub sound : IsSound o.output
  pub written : o.output.sink.written ≡ out.sink.written ++ p
  pub same_kind : o.output.rewriter ≡ out.rewriter
  pub same_close : o.output.close_error ≡ out.close_error
  pub same_serial : o.track.serial ≡ t.serial
  pub same_granule : o.track.previous_granule_position ≡ t.previous_granule_position
  pub same_tags : o.track.opus_tags ≡ t.opus_tags
  pub numbered : o.track.page_index ≡ (t.page_index + n) % 2 ^ 32

-- The fields of a track that the loop over the pages leaves alone.
pub record Alike (t u : Track) : Type 0 where
  pub serials : u.serial ≡ t.serial
  pub granules : u.previous_granule_position ≡ t.previous_granule_position
  pub tags : u.opus_tags ≡ t.opus_tags
  pub indices : u.page_index ≡ t.page_index

pub record Looped (out : Output) (t : Track) (p : Bytes) (o : Outcome) : Type 0 where
  pub done : o.result ≡ ok tt
  pub output_is :
      o.output ≡ record out { sink = record { written = out.sink.written ++ p; faults = [] } }
  pub alike : Alike t o.track

Alike-trans : {t u v : Track} → Alike t u → Alike u v → Alike t v
Alike-trans a b = record {
  serials = b.serials ∙ a.serials;
  granules = b.granules ∙ a.granules;
  tags = b.tags ∙ a.tags;
  indices = b.indices ∙ a.indices;
}

mark-Alike :
    (b : Bool) (t : Track) (p : OggPage) (offset : ℕ)
    → Alike t (if b then mark_last t p offset else t)
mark-Alike true t p offset = record { serials = refl; granules = refl; tags = refl; indices = refl }
mark-Alike false t p offset = record {
  serials = refl;
  granules = refl;
  tags = refl;
  indices = refl;
}

pub write_pages-Looped :
    (ps : List OggPage) (offset : ℕ) (out : Output) (t : Track)
    → IsSound out
    → Looped out t (concat (map data_of ps)) (write_pages ps offset out t)
unfolding write_pages
write_pages-Looped [] offset out t v = record {
  done = refl;
  output_is = rw (append-nil out.sink.written) (
      ap (λ fs. record out { sink = record { written = out.sink.written; faults = fs } })
        v.no_faults);
  alike = record { serials = refl; granules = refl; tags = refl; indices = refl };
}
write_pages-Looped (p ∷ ps) offset out t v =
    let t' : Track = if out.rewriter && is_last ps then mark_last t p offset else t in
    let out' : Output = appended out p.data_bytes in
    let v' : IsSound out' = record { no_faults = refl; no_rewrite_faults = v.no_rewrite_faults } in
    let later = write_pages-Looped ps (offset + length p.data_bytes) out' t' v' in
    rw (write_to_stream_all out p.data_bytes v) (record {
      done = later.done;
      output_is =
          later.output_is
          ∙ ap (λ b. record out { sink = record { written = b; faults = [] } })
              (append_assoc out.sink.written p.data_bytes (concat (map data_of ps)));
      alike = Alike-trans (mark-Alike (out.rewriter && is_last ps) t p offset) later.alike;
    })

pub sought_is : (out : Output) → IsSound out → (if out.rewriter then past_fault out else out) ≡ out
sought_is out v =
    if_cases (λ (o : Output). o ≡ out) out.rewriter
      (ap (λ fs. record out { rewrite_faults = fs })
        (ap (drop 1) v.no_rewrite_faults ∙ sym v.no_rewrite_faults))
      refl

pub seek_ok : (out : Output) → IsSound out → (out.rewriter && next_fault out) ≡ false
seek_ok out v = rw v.no_rewrite_faults (and_false out.rewriter)
  where
    and_false : (b : Bool) → (b && false) ≡ false
    and_false true = refl
    and_false false = refl

count_pages-Wrote :
    (out : Output) (t : Track) (p : Bytes) (n : ℕ) (o : Outcome)
    → IsSound out
    → Looped out t p o
    → Wrote out t p n (count_pages n o)
count_pages-Wrote out t p n o v l =
    let index : (o.track.page_index + n) % 2 ^ 32 ≡ (t.page_index + n) % 2 ^ 32 =
      ap (λ i. (i + n) % 2 ^ 32) l.alike.indices in
    rw l.done (record {
      done = refl;
      sound = record {
        no_faults = ap (λ (x : Output). x.sink.faults) l.output_is;
        no_rewrite_faults = ap (λ (x : Output). x.rewrite_faults) l.output_is ∙ v.no_rewrite_faults;
      };
      written = ap (λ (x : Output). x.sink.written) l.output_is;
      same_kind = ap (λ (x : Output). x.rewriter) l.output_is;
      same_close = ap (λ (x : Output). x.close_error) l.output_is;
      same_serial = l.alike.serials;
      same_granule = l.alike.granules;
      same_tags = l.alike.tags;
      numbered = index;
    })

-- A packet that is written on an output without faults is behind what was there, in its pages, and the
-- track counts them.
pub write_page-Wrote :
    (out : Output) (t : Track) (payload : Bytes) (h g : ℕ)
    → IsSound out
    → h < 8
    → Wrote out t
        (create_page_for_serial generate_checksum_table payload h g t.serial t.page_index)
        (length payload / 65025 + 1)
        (write_page out t payload h g)
unfolding write_page
write_page-Wrote out t payload h g v flags =
    let pages : List OggPage =
      create_pages_for_serial generate_checksum_table payload h g t.serial t.page_index in
    let count : length pages ≡ length payload / 65025 + 1 = IsLaid-length (
      create_pages_for_serial-IsLaid generate_checksum_table payload h g t.serial t.page_index
        flags) in
    rw (seek_ok out v, sought_is out v)
      (rw (← count) (
        count_pages-Wrote out t (concat (map data_of pages)) (length pages) _ v
          (write_pages-Looped pages (length out.sink.written) out t v)))
