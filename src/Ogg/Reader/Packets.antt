-- ===== src/Ogg/Reader/Packets.antt =====
-- oggreader/oggreader.go: `ParseNextPage` again and again, on the pages of one packet.
use format.Prelude.{
  ℕ, zero, suc, ◌+◌, ◌%◌, ◌^◌, ◌<◌, ◌≡◌, refl, sym, ap, ◌∙◌, arith, Bool, true, false, List, [],
  ◌∷◌, ◌++◌, map, if_cases, Bytes, length, drop, concat, length-append, append_assoc, Result, ok,
  err, if◌then◌else◌, ◌/◌,
}
use format.Ogg.Page.{
  Lacing, lace, OggPage, next_page, pages_from, create_pages_for_serial, payload_of, data_of,
  packet_page_header_type, no_granule_position, generate_checksum_table,
  create_page_for_serial_with_segments, create_page_for_serial,
}
use format.Ogg.Page.Packet.{IsLaid, create_pages_for_serial-IsLaid, IsLaid-concat, IsLaid-length}
use format.Ogg.Page.Segments.{
  lace-IsLacing, segments_of, page_part, payload_size-lace, segments-lace,
}
use format.Ogg.Reader.{payload_size, Reader, Error, PageHeader, parse_next_page}
use format.Ogg.Reader.RoundTrip.{header_of, Fits, on, counted, parse_next_page-create_page}

abbrev pub Pages : Type 0
Pages = Result Error (List (Bytes × PageHeader)) × Reader

abbrev pub with_page : Bytes × PageHeader → Pages → Pages
with_page p (err e, r) = (err e, r)
with_page p (ok ps, r) = (ok (p ∷ ps), r)

abbrev pub behind_page : (Reader → Pages) → Result Error (Bytes × PageHeader) × Reader → Pages
behind_page more (err e, r) = (err e, r)
behind_page more (ok p, r) = with_page p (more r)

-- A client that reads `n` pages.
unfoldable pub read_pages : ℕ → Reader → Pages
read_pages zero r = (ok [], r)
read_pages (suc n) r = behind_page (read_pages n) (parse_next_page r)

-- What the reader gives for a page of the writer.
abbrev pub given : ℕ → OggPage → Bytes × PageHeader
given serial p = (
  p.payload,
  header_of (segments_of (length p.payload)) p.header_type p.granule_pos serial p.page_index,
)

length-create_page :
    (table : ℕ → ℕ) (payload sizes : Bytes) (t g s i : ℕ)
    → length (create_page_for_serial_with_segments table payload sizes t g s i)
      ≡ 27 + length sizes + length payload
unfolding create_page_for_serial_with_segments
length-create_page table payload sizes t g s i = omega (arith, length-append sizes payload)

pub counted_twice : (r : Reader) (n m : ℕ) → counted (counted r n) m ≡ counted r (n + m)
counted_twice r n m =
    let same : r.bytes_read_successfully + n + m ≡ r.bytes_read_successfully + (n + m) =
      omega arith in
    ap (λ c. record r { bytes_read_successfully = c }) same

module _ (r : Reader) (broken : Bool) (table : r.checksum_table ≡ generate_checksum_table) where
  page-read :
      (payload sizes rest : Bytes) (n t g s i : ℕ)
      → payload_size sizes ≡ length payload
      → length sizes ≡ segments_of (length payload)
      → Fits (length sizes) g s i
      → let page =
          create_page_for_serial_with_segments generate_checksum_table payload sizes t g s i in
        parse_next_page (counted (on r (page ++ rest) broken) n) ≡ (
          ok (payload, header_of (segments_of (length payload)) t g s i),
          counted (on r rest broken) (n + length page),
        )
  page-read payload sizes rest n t g s i sum_is count f =
      let page : Bytes =
        create_page_for_serial_with_segments generate_checksum_table payload sizes t g s i in
      let read =
        parse_next_page-create_page (counted r n) payload sizes rest broken t g s i table sum_is
          f in
      read
      ∙ (ap
            (λ c. (
              ok (payload, header_of c t g s i),
              counted (counted (on r rest broken) n) (27 + length sizes + length payload),
            ))
            count
          ∙ ap (λ x. (ok (payload, header_of (segments_of (length payload)) t g s i), x))
              (counted_twice (on r rest broken) n (27 + length sizes + length payload)
                ∙ ap (λ m. counted (on r rest broken) (n + m))
                    (sym (length-create_page generate_checksum_table payload sizes t g s i))))

  granule_fits : (b : Bool) (g : ℕ) → g < 2 ^ 64 → (if b then g else no_granule_position) < 2 ^ 64
  granule_fits true g h = h
  granule_fits false g h = omega arith

  next_page-given :
      (payload rest : Bytes) (n t g s i : ℕ) (first : Bool)
      → g < 2 ^ 64
      → s < 2 ^ 32
      → i < 2 ^ 32
      → let p =
          next_page generate_checksum_table payload (lace 255 (length payload)) t g s i first in
        parse_next_page (counted (on r (p.data_bytes ++ rest) broken) n)
        ≡ (ok (given s p), counted (on r rest broken) (n + length p.data_bytes))
  unfolding next_page
  next_page-given payload rest n t g s i first gf sf bound =
      let l : Lacing = lace 255 (length payload) in
      page-read (page_part payload) l.segment_table rest n
        (packet_page_header_type t first l.packet_complete)
        (if l.packet_complete then g else no_granule_position) s i (payload_size-lace payload)
        (segments-lace payload)
        (record {
          segments_fit = omega (arith, (lace-IsLacing 255 (length payload)).places);
          granule_fit = granule_fits l.packet_complete g gf;
          serial_fit = sf;
          index_fit = bound;
        })

  read_more :
      (n : ℕ) (r0 r1 r2 : Reader) (p : Bytes × PageHeader) (ps : List (Bytes × PageHeader))
      → parse_next_page r0 ≡ (ok p, r1)
      → read_pages n r1 ≡ (ok ps, r2)
      → read_pages (suc n) r0 ≡ (ok (p ∷ ps), r2)
  unfolding read_pages
  read_more n r0 r1 r2 p ps one rest = ap (behind_page (read_pages n)) one ∙ ap (with_page p) rest

  PagesRead : (pages : List OggPage) (s n : ℕ) (rest : Bytes) → Type 0
  PagesRead pages s n rest =
      read_pages (length pages) (counted (on r (concat (map data_of pages) ++ rest) broken) n) ≡ (
        ok (map (given s) pages),
        counted (on r rest broken) (n + length (concat (map data_of pages))),
      )

  no_pages : (s n : ℕ) (rest : Bytes) → PagesRead [] s n rest
  unfolding PagesRead read_pages
  no_pages s n rest = let same : n + 0 ≡ n = omega arith in rw same refl

  page_before :
      (p : OggPage) (pages : List OggPage) (s n : ℕ) (rest : Bytes)
      → parse_next_page
          (counted (on r (p.data_bytes ++ (concat (map data_of pages) ++ rest)) broken) n)
        ≡ (
          ok (given s p),
          counted (on r (concat (map data_of pages) ++ rest) broken) (n + length p.data_bytes),
        )
      → PagesRead pages s (n + length p.data_bytes) rest
      → PagesRead (p ∷ pages) s n rest
  unfolding PagesRead
  page_before p pages s n rest one more =
      let later : Bytes = concat (map data_of pages) in
      let sum : n + length p.data_bytes + length later ≡ n + length (p.data_bytes ++ later) =
        omega (arith, length-append p.data_bytes later) in
      ap (λ b. read_pages (suc (length pages)) (counted (on r b broken) n))
        (append_assoc p.data_bytes later rest)
      ∙ (read_more (length pages) _ _ _ (given s p) (map (given s) pages) one more
          ∙ ap (λ m. (ok (given s p ∷ map (given s) pages), counted (on r rest broken) m)) sum)

  pages_from-read :
      (fuel : ℕ) (payload rest : Bytes) (n t g s i : ℕ) (first : Bool)
      → g < 2 ^ 64
      → s < 2 ^ 32
      → i < 2 ^ 32
      → PagesRead (pages_from fuel generate_checksum_table payload t g s i first) s n rest
  unfolding pages_from
  pages_from-read zero payload rest n t g s i first gf sf bound = no_pages s n rest
  pages_from-read (suc fuel) payload rest n t g s i first gf sf bound =
      let l : Lacing = lace 255 (length payload) in
      let p : OggPage = next_page generate_checksum_table payload l t g s i first in
      let later : List OggPage =
        pages_from fuel generate_checksum_table (drop l.page_payload_size payload) t g s
          ((i + 1) % 2 ^ 32) false in
      if_cases (λ pages. PagesRead pages s n rest) l.packet_complete
        (page_before p [] s n rest (next_page-given payload rest n t g s i first gf sf bound)
          (no_pages s _ rest))
        (page_before p later s n rest
          (next_page-given payload (concat (map data_of later) ++ rest) n t g s i first gf sf bound)
          (pages_from-read fuel (drop l.page_payload_size payload) rest (n + length p.data_bytes) t
            g s ((i + 1) % 2 ^ 32) false gf sf (omega arith)))

abbrev pub carried : List (Bytes × PageHeader) → Bytes
carried [] = []
carried ((payload, header) ∷ pages) = payload ++ carried pages

carried-given :
    (s : ℕ) (pages : List OggPage) → carried (map (given s) pages) ≡ concat (map payload_of pages)
carried-given s [] = refl
carried-given s (p ∷ pages) = ap (◌++◌ p.payload) (carried-given s pages)

counted_none : (r : Reader) → counted r 0 ≡ r
counted_none r =
    let same : r.bytes_read_successfully + 0 ≡ r.bytes_read_successfully = omega arith in
    ap (λ c. record r { bytes_read_successfully = c }) same

-- A reader with the table of the checksum, on the pages of a packet of any length and any bytes behind
-- them, with flags below 8 and numbers that fit in their fields: as many calls of `ParseNextPage` as
-- there are pages give each page with its header, together they carry the packet, and the count of
-- bytes moves on by the bytes that the pages take.
pub read_pages-create_page_for_serial :
    (r : Reader) (broken : Bool) (payload rest : Bytes) (t g s i : ℕ)
    → r.checksum_table ≡ generate_checksum_table
    → t < 8
    → g < 2 ^ 64
    → s < 2 ^ 32
    → i < 2 ^ 32
    → let pages = create_pages_for_serial generate_checksum_table payload t g s i in
      let written = create_page_for_serial generate_checksum_table payload t g s i in
      (read_pages (length payload / 65025 + 1) (on r (written ++ rest) broken)
        ≡ (ok (map (given s) pages), counted (on r rest broken) (length written)))
      × (carried (map (given s) pages) ≡ payload)
unfolding PagesRead
read_pages-create_page_for_serial r broken payload rest t g s i table tf gf sf bound =
    let pages : List OggPage = create_pages_for_serial generate_checksum_table payload t g s i in
    let laid : IsLaid t g true i payload pages =
      create_pages_for_serial-IsLaid generate_checksum_table payload t g s i tf in
    let read =
      pages_from-read r broken table (suc (length payload)) payload rest 0 t g s i true gf sf
        bound in
    let none : 0 + length (concat (map data_of pages)) ≡ length (concat (map data_of pages)) =
      omega arith in
    (
      rw (← IsLaid-length laid) (
          ap (read_pages (length pages))
            (sym (counted_none (on r (concat (map data_of pages) ++ rest) broken)))
          ∙ (read ∙ ap (λ m. (ok (map (given s) pages), counted (on r rest broken) m)) none)),
      carried-given s pages ∙ IsLaid-concat laid,
    )
