-- ===== src/Ogg/File.antt =====
-- oggreader/oggreader.go on a file of `OggWriter`.
use format.Prelude.{
  ℕ, ◌+◌, ◌/◌, ◌%◌, ◌^◌, ◌-◌, ◌≡◌, ◌<◌, refl, sym, ap, ◌∙◌, arith, Bool, true, false, List, [], ◌∷◌,
  ◌++◌, ◌==◌, Bytes, length, map, Result, ok, err, ok-injective,
}
use mathlib.Core.Path.{subst}
use format.Prelude.Io.{Source}
use format.Ogg.Channels.{
  ChannelMapping, default_channel_mapping, IsMapping, mono, stereo, vorbis_mono, vorbis_stereo,
  ambisonics, discrete,
}
use format.Ogg.OpusHead.{build_id_header, opus_header_of, new_with}
use format.Ogg.OpusHead.RoundTrip.{parse_opus_head-build_id_header}
use format.Ogg.OpusHead.RoundTrip
use format.Ogg.OpusTags.{
  default_opus_tags, build_comment_header, parse_opus_tags, validate_opus_tags,
  validate_opus_tags_with_max_header_len,
}
use format.Ogg.OpusTags.RoundTrip.{parse_opus_tags-build_comment_header}
use format.Prelude.Utf8.{valid_string}
use format.Ogg.Page.{create_pages_for_serial, generate_checksum_table, lace, pages_from, next_page}
use format.Ogg.Reader.{Reader, Error, PageHeader, parse_next_page, new_with_options}
use format.Ogg.Reader.RoundTrip.{header_of, on, counted, same_table}
use format.Ogg.Reader.Packets.{
  Pages, read_pages, behind_page, given, counted_twice, read_pages-create_page_for_serial, carried,
}
use format.Ogg.Samples.Table.{duration}
use format.Ogg.Track.Placed.{pages_of, pages_in, rendered}
use format.Ogg.Single.Rendered.{file_of}

-- One page, taken from a list of one.
one_page :
    (r r' : Reader) (x : Bytes × PageHeader)
    → read_pages 1 r ≡ (ok (x ∷ []), r')
    → parse_next_page r ≡ (ok x, r')
unfolding read_pages
one_page r r' x e = by_page (parse_next_page r) e
  where
    by_page :
        (m : Result Error (Bytes × PageHeader) × Reader)
        → behind_page (read_pages 0) m ≡ (ok (x ∷ []), r')
        → m ≡ (ok x, r')
    by_page (err y, r1) e = absurd (cc (ap (λ (o : Pages). o.0) e))
    by_page (ok p, r1) e =
        let page_is : p ≡ x = cc e in
        let reader_is : r1 ≡ r' = ap (λ (o : Pages). o.1) e in
        ap (λ q. (ok q, r1)) page_is ∙ ap (λ s. (ok x, s)) reader_is

module _ (serial rate : ℕ) (serial_fits : serial < 2 ^ 32) where
  id_page :
      (m : ChannelMapping)
      → (IsMapping m × (m.family ≡ 0))
      → map (given serial) (
          create_pages_for_serial generate_checksum_table
            (build_id_header 3840 rate m)
            2
            0
            serial
            0)
        ≡ (build_id_header 3840 rate m, header_of 1 2 0 serial 0) ∷ []
  unfolding lace pages_from next_page build_id_header
  id_page m (mono, z) = refl
  id_page m (stereo, z) = refl
  id_page m (vorbis_mono, z) = absurd (omega arith)
  id_page m (vorbis_stereo, z) = absurd (omega arith)
  id_page m (ambisonics, z) = absurd (omega arith)
  id_page m (discrete coupled mapping c filled few entries, z) = absurd (omega arith)

  tags_page :
      map (given serial) (
        create_pages_for_serial generate_checksum_table
          (build_comment_header default_opus_tags)
          0
          0
          serial
          1)
      ≡ (build_comment_header default_opus_tags, header_of 1 0 0 serial 1) ∷ []
  unfolding lace pages_from next_page build_comment_header
  tags_page = refl

  id_length :
      (m : ChannelMapping) → m.family ≡ 0 → length (build_id_header 3840 rate m) / 65025 + 1 ≡ 1
  unfolding build_id_header
  id_length m e = rw e refl

  tags_length : length (build_comment_header default_opus_tags) / 65025 + 1 ≡ 1
  unfolding build_comment_header
  tags_length = refl

  head_read :
      (r : Reader) (broken : Bool) (m : ChannelMapping) (rest : Bytes)
      → (IsMapping m × (m.family ≡ 0))
      → r.checksum_table ≡ generate_checksum_table
      → let head = pages_of serial 2 0 (build_id_header 3840 rate m) 0 in
        parse_next_page (on r (head ++ rest) broken) ≡ (
          ok (build_id_header 3840 rate m, header_of 1 2 0 serial 0),
          counted (on r rest broken) (length head),
        )
  head_read r broken m rest v table =
      let id : Bytes = build_id_header 3840 rate m in
      let (read, same) =
        read_pages-create_page_for_serial r broken id rest 2 0 serial 0 table (omega arith)
          (omega arith) serial_fits (omega arith) in
      one_page _ _ _ (rw (id_length m v.1, id_page m v) at read)

  tags_read :
      (r : Reader) (broken : Bool) (rest : Bytes)
      → r.checksum_table ≡ generate_checksum_table
      → let tags = pages_of serial 0 0 (build_comment_header default_opus_tags) 1 in
        parse_next_page (on r (tags ++ rest) broken) ≡ (
          ok (build_comment_header default_opus_tags, header_of 1 0 0 serial 1),
          counted (on r rest broken) (length tags),
        )
  tags_read r broken rest table =
      let (read, same) =
        read_pages-create_page_for_serial r broken (build_comment_header default_opus_tags) rest 0 0
          serial 1 table (omega arith) (omega arith) serial_fits (omega arith) in
      one_page _ _ _ (rw (tags_length, tags_page) at read)

default_channel_mapping-IsMapping :
    (channel_count : ℕ) (m : ChannelMapping)
    → default_channel_mapping channel_count ≡ ok m
    → IsMapping m × (m.family ≡ 0)
default_channel_mapping-IsMapping channel_count m e =
    by_count (channel_count == 1) (channel_count == 2) refl refl
  where
    by_count :
        (a b : Bool)
        → (channel_count == 1) ≡ a
        → (channel_count == 2) ≡ b
        → IsMapping m × (m.family ≡ 0)
    by_count true b is other =
        subst (λ m. IsMapping m × (m.family ≡ 0)) (ok-injective (rw is at e)) (mono, refl)
    by_count false true many is =
        subst (λ m. IsMapping m × (m.family ≡ 0)) (ok-injective (rw (many, is) at e)) (stereo, refl)
    by_count false false many more = absurd (cc (rw (many, more) at e))

valid_default : validate_opus_tags default_opus_tags ≡ ok tt
unfolding validate_opus_tags_with_max_header_len valid_string
valid_default = refl

-- On a file of the single-track writer with one or two channels, a serial number and a rate of 32 bits,
-- `NewWith` gives what the writer was made with, and the next page is the tags, which parse to the
-- default ones; the reader is then at the audio.
pub new_with-file_of :
    (serial rate channel_count : ℕ) (m : ChannelMapping) (payloads : List Bytes) (broken : Bool)
    → serial < 2 ^ 32
    → rate < 2 ^ 32
    → default_channel_mapping channel_count ≡ ok m
    → let src : Source = record { bytes = file_of serial rate m payloads; broken = broken } in
      let r : Reader = new_with_options src true in
      let head = length (pages_of serial 2 0 (build_id_header 3840 rate m) 0) in
      let tags = pages_of serial 0 0 (build_comment_header default_opus_tags) 1 in
      (new_with src ≡ (
        ok (RoundTrip.header_of 3840 rate m),
        counted (on r (tags ++ rendered serial 2 0 payloads) broken) head,
      ))
      × (parse_next_page (new_with src).1 ≡ (
        ok (build_comment_header default_opus_tags, header_of 1 0 0 serial 1),
        counted (on r (rendered serial 2 0 payloads) broken) (head + length tags),
      ))
      × (parse_opus_tags (build_comment_header default_opus_tags) ≡ ok default_opus_tags)
unfolding new_with
new_with-file_of serial rate channel_count m payloads broken sf rf e =
    let src : Source = record { bytes = file_of serial rate m payloads; broken = broken } in
    let r : Reader = new_with_options src true in
    let v = default_channel_mapping-IsMapping channel_count m e in
    let tags : Bytes = pages_of serial 0 0 (build_comment_header default_opus_tags) 1 in
    let read =
      head_read serial rate sf r broken m (tags ++ rendered serial 2 0 payloads) v same_table in
    let head_is = parse_opus_head-build_id_header 3840 rate m (omega arith) rf v.0 in
    let audio : Bytes = rendered serial 2 0 payloads in
    let n : ℕ = length (pages_of serial 2 0 (build_id_header 3840 rate m) 0) in
    let next = tags_read serial rate sf (counted r n) broken audio same_table in
    (
      ap (λ (o : Result Error (Bytes × PageHeader) × Reader). (opus_header_of o.0, o.1)) read
          ∙ ap (λ h. (h, counted (on r (tags ++ audio) broken) n)) head_is,
      ap (λ (o : Result Error (Bytes × PageHeader) × Reader). parse_next_page o.1) read
          ∙ (next
              ∙ ap (λ s. (ok (build_comment_header default_opus_tags, header_of 1 0 0 serial 1), s))
                  (counted_twice (on r audio broken) n (length tags))),
      parse_opus_tags-build_comment_header default_opus_tags (2 ^ 63 - 1) valid_default,
    )

-- That a reader finds the packets one after another, each in as many pages as it takes, with the granule
-- positions and the page numbers of the file, and then the end of the stream.
abbrev pub AllRead : Reader → (serial index granule : ℕ) → List Bytes → Type 0
AllRead r serial index granule [] = r.src.bytes ≡ []
AllRead r serial index granule (p ∷ ps) =
    let (pages, r') = read_pages (pages_in p) r in
    let g = (granule + duration p) % 2 ^ 64 in
    let expected =
      map (given serial) (create_pages_for_serial generate_checksum_table p 0 g serial index) in
    (pages ≡ ok expected)
    × (carried expected ≡ p)
    × AllRead r' serial ((index + pages_in p) % 2 ^ 32) g ps

-- A reader with the table of the checksum, at the audio of a file with a serial number and a page number
-- of 32 bits, reads it in full: every packet, in its order, and nothing behind the last.
pub rendered-AllRead :
    (r : Reader) (broken : Bool) (serial index granule : ℕ) (payloads : List Bytes)
    → r.checksum_table ≡ generate_checksum_table
    → serial < 2 ^ 32
    → index < 2 ^ 32
    → AllRead (on r (rendered serial index granule payloads) broken) serial index granule payloads
rendered-AllRead r broken serial index granule [] table sf bound = refl
rendered-AllRead r broken serial index granule (p ∷ ps) table sf bound =
    let g : ℕ = (granule + duration p) % 2 ^ 64 in
    let next : ℕ = (index + pages_in p) % 2 ^ 32 in
    let n : ℕ = length (pages_of serial 0 g p index) in
    let (read, whole) =
      read_pages-create_page_for_serial r broken p (rendered serial next g ps) 0 g serial index
        table (omega arith) (omega arith) sf bound in
    let later = rendered-AllRead (counted r n) broken serial next g ps table sf (omega arith) in
    (
      ap (λ (o : Pages). o.0) read,
      whole,
      subst (λ (s : Reader). AllRead s serial next g ps) (sym (ap (λ (o : Pages). o.1) read)) later,
    )
