-- ===== src/Ogg/Track/Ended.antt =====
-- oggwriter/oggwriter.go: the last page of a track, which `Close` writes again with the flag that ends
-- the stream.
use format.Prelude.{
  ℕ, ◌+◌, ◌≡◌, ◌<◌, refl, sym, ap, ◌∙◌, arith, bit_or, Bool, true, false, not, ◌&&◌, List, [], ◌++◌,
  if◌then◌else◌, Bytes, length, take, drop, concat, map, Result, ok, err, either, either_cases,
  append-nil, append_assoc, take-append, drop-append, length-append,
}
use mathlib.Core.Path.{subst}
use format.Prelude.Io.{Sink}
use format.Ogg.Errors.{Error}
use format.Ogg.Page.{
  OggPage, create_pages_for_serial, generate_checksum_table, data_of, create_page_for_serial,
}
use format.Ogg.Page.Packet.{page_max}
use format.Ogg.Page.LastPage.{
  lone, length-lone, lone_page, Ends, here, behind, Ends-concat, create_pages_for_serial-IsEnd,
}
use format.Ogg.Track.{
  Output, Track, Outcome, write_pages, is_last, mark_last, count_pages, write_page,
  mark_track_end_of_stream, write_at,
}
use format.Ogg.Track.Written.{
  IsSound, appended, write_to_stream_all, Looped, write_pages-Looped, seek_ok, sought_is,
}

-- The last page of the track, with the flags `h`.
abbrev pub last_page : Track → ℕ → Bytes
last_page t h =
    lone generate_checksum_table t.last_payload h t.last_granule_position t.serial t.last_page_index

-- That the output ends with the last page of the track, which the track knows with its place.
pub record HasLast (out : Output) (t : Track) : Type 0 where
  pub before : Bytes
  pub marked : t.last_page_written ≡ true
  pub written_is : out.sink.written ≡ before ++ last_page t t.last_page_header_type
  pub offset_is : t.last_page_offset ≡ length before
  pub short : length t.last_payload < page_max

not_last : {ps : List OggPage} {b : Bytes} {p : OggPage} → Ends ps b p → is_last ps ≡ false
not_last (here p) = refl
not_last (behind q e) = refl

never {ℓ} : {A : Type ℓ} (b : Bool) (x y : A) → (if b && false then x else y) ≡ y
never true x y = refl
never false x y = refl

counted_last :
    (n : ℕ) (o : Outcome)
    → HasLast o.output o.track
    → HasLast (count_pages n o).output (count_pages n o).track
counted_last n o h =
    either_cases (λ (x : Outcome). HasLast x.output x.track) o.result (λ e. h)
      (record {
        before = h.before;
        marked = h.marked;
        written_is = h.written_is;
        offset_is = h.offset_is;
        short = h.short;
      })

write_pages-marked :
    {ps : List OggPage} {before : Bytes} {p : OggPage} (offset : ℕ) (out : Output) (t : Track)
    → Ends ps before p
    → IsSound out
    → out.rewriter ≡ true
    → (write_pages ps offset out t).track ≡ mark_last t p (offset + length before)
unfolding write_pages
write_pages-marked offset out t (here p) v seekable =
    let none : offset + 0 ≡ offset = omega arith in
    rw (write_to_stream_all out p.data_bytes v, seekable, none) refl
write_pages-marked {p = p} offset out t (behind {ps = ps} {before = before} q e) v seekable =
    let out' : Output = appended out q.data_bytes in
    let later =
      write_pages-marked (offset + length q.data_bytes) out' t e
        (record { no_faults = refl; no_rewrite_faults = v.no_rewrite_faults }) seekable in
    let sum : offset + length q.data_bytes + length before
        ≡ offset + length (q.data_bytes ++ before) =
      omega (arith, length-append q.data_bytes before) in
    let u : Track = if out.rewriter && is_last ps then mark_last t q offset else t in
    let kept : u ≡ t = rw (not_last e) (never out.rewriter (mark_last t q offset) t) in
    ap
      (λ (w : Result Error (Unit {0}) × Output).
        (either w.0 (λ x. record { result = err x; output = w.1; track = t })
          (write_pages ps (offset + length q.data_bytes) w.1 u)).track)
      (write_to_stream_all out q.data_bytes v)
    ∙ (ap (λ x. (write_pages ps (offset + length q.data_bytes) out' x).track) kept
        ∙ (later ∙ ap (λ m. mark_last t p m) sum))

-- A packet on a file is followed by its last page, which the track knows.
pub write_page-HasLast :
    (out : Output) (t : Track) (payload : Bytes) (h g : ℕ)
    → IsSound out
    → out.rewriter ≡ true
    → h < 8
    → HasLast (write_page out t payload h g).output (write_page out t payload h g).track
unfolding write_page
write_page-HasLast out t payload h g v seekable flags =
    let pages : List OggPage =
      create_pages_for_serial generate_checksum_table payload h g t.serial t.page_index in
    let e =
      create_pages_for_serial-IsEnd generate_checksum_table h g t.serial payload t.page_index in
    let o : Outcome = write_pages pages (length out.sink.written) out t in
    let l : Looped out t (concat (map data_of pages)) o =
      write_pages-Looped pages (length out.sink.written) out t v in
    let track_is = write_pages-marked (length out.sink.written) out t e.ends v seekable in
    let bytes_are : o.output.sink.written ≡ (out.sink.written ++ e.before) ++ e.page.data_bytes =
      ap (λ (x : Output). x.sink.written) l.output_is
      ∙ (ap (λ b. out.sink.written ++ b) (Ends-concat e.ends)
          ∙ sym (append_assoc out.sink.written e.before e.page.data_bytes)) in
    rw (seek_ok out v, sought_is out v)
      (counted_last (length pages) o (record {
        before = out.sink.written ++ e.before;
        marked = ap (λ (x : Track). x.last_page_written) track_is;
        written_is =
            bytes_are
            ∙ ap (λ b. (out.sink.written ++ e.before) ++ b)
                (e.alone ∙ sym (ap (λ (x : Track). last_page x x.last_page_header_type) track_is));
        offset_is =
            ap (λ (x : Track). x.last_page_offset) track_is
            ∙ sym (length-append out.sink.written e.before);
        short =
            subst (λ (b : Bytes). length b < page_max)
              (sym (ap (λ (x : Track). x.last_payload) track_is)) e.short;
      }))

-- The output behind `Close`: the last page has the flag, and nothing else is another.
abbrev pub with_end : (out : Output) (t : Track) → HasLast out t → Output
with_end out t l = record out {
  sink = record out.sink { written = l.before ++ last_page t (bit_or t.last_page_header_type 4) };
}

cut_out :
    (before old new : Bytes) (offset : ℕ)
    → offset ≡ length before
    → length new ≡ length old
    → take offset (before ++ old) ++ (new ++ drop (offset + length new) (before ++ old))
      ≡ before ++ new
cut_out before old new offset h same =
    let start : take offset (before ++ old) ≡ before = take-append offset before old h in
    let end : drop (offset + length new) ((before ++ old) ++ []) ≡ [] =
      drop-append (offset + length new) (before ++ old) []
        (omega (arith, h, same, length-append before old)) in
    rw start (
      ap (λ l. before ++ (new ++ l))
        (ap (drop (offset + length new)) (sym (append-nil (before ++ old))) ∙ end)
      ∙ ap (λ l. before ++ l) (append-nil new))

write_at_ok :
    (out : Output) (p : Bytes) (offset : ℕ)
    → out.rewrite_faults ≡ []
    → let w = out.sink.written in
      write_at out p offset ≡ (
        ok tt,
        record out {
          sink = record out.sink { written = take offset w ++ (p ++ drop (offset + length p) w) };
        },
      )
write_at_ok out p offset faults =
    let w : Bytes = out.sink.written in
    let sink' : Sink = record out.sink {
      written = take offset w ++ (p ++ drop (offset + length p) w);
    } in
    ap (λ fs. write_at (record out { rewrite_faults = fs }) p offset) faults
    ∙ ap (λ fs. (ok tt, record out { sink = sink'; rewrite_faults = fs })) (sym faults)

-- The page of the track is written again in its place, with the flag that ends the stream.
pub mark_track_end_of_stream_lem :
    (out : Output) (t : Track) (l : HasLast out t)
    → out.rewrite_faults ≡ []
    → mark_track_end_of_stream out t ≡ (ok tt, with_end out t l)
unfolding mark_track_end_of_stream
mark_track_end_of_stream_lem out t l faults =
    let h : ℕ = bit_or t.last_page_header_type 4 in
    let page_is : create_page_for_serial generate_checksum_table t.last_payload h
          t.last_granule_position t.serial t.last_page_index
        ≡ last_page t h =
      lone_page generate_checksum_table h t.last_granule_position t.serial t.last_payload
        t.last_page_index l.short in
    let same : length (last_page t h) ≡ length (last_page t t.last_page_header_type) =
      length-lone generate_checksum_table t.last_payload h t.last_page_header_type
        t.last_granule_position t.serial t.last_page_index in
    let page : Bytes =
      create_page_for_serial generate_checksum_table t.last_payload h t.last_granule_position
        t.serial t.last_page_index in
    ap (λ b. if not b then (ok tt, out) else write_at out page t.last_page_offset) l.marked
    ∙ (ap (λ q. write_at out q t.last_page_offset) page_is
        ∙ (write_at_ok out (last_page t h) t.last_page_offset faults
            ∙ ap (λ b. (ok tt, record out { sink = record out.sink { written = b } }))
                (ap
                    (λ w.
                      take t.last_page_offset w
                      ++ (last_page t h ++ drop (t.last_page_offset + length (last_page t h)) w))
                    l.written_is
                  ∙ cut_out l.before (last_page t t.last_page_header_type) (last_page t h)
                      t.last_page_offset l.offset_is same)))
