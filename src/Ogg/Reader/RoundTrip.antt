-- ===== src/Ogg/Reader/RoundTrip.antt =====
-- oggreader/oggreader.go on the pages of oggwriter/oggwriter.go.
use format.Prelude.{
  ℕ, ◌+◌, ◌*◌, ◌/◌, ◌%◌, ◌^◌, ◌<◌, ◌≡◌, refl, sym, ap, ◌∙◌, arith, Bool, true, false, ◌&&◌, [], ◌∷◌,
  ◌++◌, ==_iff, Bytes, length, foldl, foldl-append, append_assoc, ok,
}
use format.Prelude.Bits.{bit_xor-lt}
use format.Prelude.Words.{shl}
use format.Prelude.Io.{Source, read_full, read_full-append, put_le_32, put_le_64, le_32-put}
use format.Mpegts.Crc.{crc_rounds-lt}
use format.Ogg.Page.{
  generate_checksum_table, checksum_step, page_checksum, page_with, page_header_signature,
  create_page_for_serial_with_segments,
}
use format.Ogg.Reader.{
  Reader, PageHeader, page_header_at, checksum_of, payload_size, is_mismatch, with_payload,
  with_sizes, with_header, parse_next_page,
}
use format.Ogg.Reader

-- Both sides fill the same table.
pub same_table : Reader.generate_checksum_table ≡ generate_checksum_table
unfolding Reader.generate_checksum_table generate_checksum_table
same_table = refl

pub generate_checksum_table-lt : (i : ℕ) → generate_checksum_table i < 2 ^ 32
unfolding generate_checksum_table
generate_checksum_table-lt i = crc_rounds-lt 8 (shl 32 i 24) (omega arith)

page_checksum-lt_from :
    (page : Bytes) (c : ℕ)
    → c < 2 ^ 32
    → foldl (checksum_step generate_checksum_table) c page < 2 ^ 32
page_checksum-lt_from [] c h = h
page_checksum-lt_from (b ∷ page) c h =
    page_checksum-lt_from page (checksum_step generate_checksum_table c b)
      (bit_xor-lt 32 _ _ (omega arith) (generate_checksum_table-lt _))

page_checksum-lt : (page : Bytes) → page_checksum generate_checksum_table page < 2 ^ 32
page_checksum-lt page = page_checksum-lt_from page 0 (omega arith)

-- The header of a page.
abbrev head_of : (segments header_type granule_pos serial page_index checksum : ℕ) → Bytes
head_of segments header_type granule_pos serial page_index checksum =
    page_header_signature
    ++ 0
      ∷ header_type
      ∷ (put_le_64 granule_pos
          ++ put_le_32 serial
          ++ put_le_32 page_index
          ++ put_le_32 checksum
          ++ (segments % 256) ∷ [])

abbrev pub header_of : (segments header_type granule_pos serial page_index : ℕ) → PageHeader
header_of segments header_type granule_pos serial page_index = record {
  sig = page_header_signature;
  version = 0;
  header_type = header_type;
  granule_position = granule_pos;
  serial = serial;
  index = page_index;
  segments_count = segments;
}

pub record Fits (segments granule_pos serial page_index : ℕ) : Type 0 where
  pub segments_fit : segments < 256
  pub granule_fit : granule_pos < 2 ^ 64
  pub serial_fit : serial < 2 ^ 32
  pub index_fit : page_index < 2 ^ 32

page_header_at-head_of :
    (n t g s i c : ℕ) → Fits n g s i → page_header_at (head_of n t g s i c) ≡ header_of n t g s i
page_header_at-head_of n t g s i c f =
    let low : g % 2 ^ 32 < 2 ^ 32 = omega arith in
    let high : g / 2 ^ 32 < 2 ^ 32 = omega (arith, f.granule_fit) in
    let whole : g % 2 ^ 32 + g / 2 ^ 32 * 2 ^ 32 ≡ g = omega arith in
    let count : n % 256 ≡ n = omega (arith, f.segments_fit) in
    rw
      (
        le_32-put (g % 2 ^ 32) low,
        le_32-put (g / 2 ^ 32) high,
        le_32-put s f.serial_fit,
        le_32-put i f.index_fit,
        whole,
        count,
      )
      refl

-- The reader sums up what the writer has summed up.
checksum_of-head_of :
    (table : ℕ → ℕ) (n t g s i c : ℕ) (sizes payload : Bytes)
    → n ≡ length sizes
    → checksum_of table (head_of n t g s i c) sizes payload
      ≡ page_checksum table (page_with payload sizes t g s i 0)
checksum_of-head_of table n t g s i c sizes payload e =
    rw e (sym (foldl-append (checksum_step table) _ sizes payload))

matches :
    (r : Reader) (n t g s i : ℕ) (sizes payload : Bytes)
    → r.checksum_table ≡ generate_checksum_table
    → n ≡ length sizes
    → is_mismatch r
        (head_of n t g s i
          (page_checksum generate_checksum_table (page_with payload sizes t g s i 0)))
        sizes
        payload
      ≡ false
matches r n t g s i sizes payload table e =
    let c : ℕ = page_checksum generate_checksum_table (page_with payload sizes t g s i 0) in
    let low : c < 2 ^ 32 = page_checksum-lt (page_with payload sizes t g s i 0) in
    rw
      (
        le_32-put c low,
        table,
        checksum_of-head_of generate_checksum_table n t g s i c sizes payload e,
      )
      (rw ((==_iff c c).1 refl) (no_mismatch r.do_checksum))
  where
    no_mismatch : (b : Bool) → (b && false) ≡ false
    no_mismatch true = refl
    no_mismatch false = refl

-- The reader on `bytes`.
abbrev pub on : Reader → Bytes → Bool → Reader
on r bytes broken = record r { src = record { bytes = bytes; broken = broken } }

abbrev pub counted : Reader → ℕ → Reader
counted r n = record r { bytes_read_successfully = r.bytes_read_successfully + n }

with_payload_ok :
    (r : Reader) (header sizes payload : Bytes) (src : Source)
    → is_mismatch r header sizes payload ≡ false
    → with_payload r header sizes (ok payload, src) ≡ (
      ok (payload, page_header_at header),
      record (counted r (length header + length sizes + length payload)) { src = src },
    )
with_payload_ok r header sizes payload src e = rw e refl

-- A page that the writer makes is given out by `ParseNextPage`, checksum and all.
pub parse_next_page-create_page :
    (r : Reader) (payload sizes rest : Bytes) (broken : Bool) (t g s i : ℕ)
    → r.checksum_table ≡ generate_checksum_table
    → payload_size sizes ≡ length payload
    → Fits (length sizes) g s i
    → parse_next_page (
        on r
          (create_page_for_serial_with_segments generate_checksum_table payload sizes t g s i
            ++ rest)
          broken)
      ≡ (
        ok (payload, header_of (length sizes) t g s i),
        counted (on r rest broken) (27 + length sizes + length payload),
      )
unfolding parse_next_page create_page_for_serial_with_segments
parse_next_page-create_page r payload sizes rest broken t g s i table sum_is f =
    let n : ℕ = length sizes in
    let c : ℕ = page_checksum generate_checksum_table (page_with payload sizes t g s i 0) in
    let head : Bytes = head_of n t g s i c in
    let header_is : page_header_at head ≡ header_of n t g s i =
      page_header_at-head_of n t g s i c f in
    let r' : Reader = on r (head ++ (sizes ++ (payload ++ rest))) broken in
    let src' : Source = record { bytes = rest; broken = broken } in
    let first : with_header r' (read_full 27 r'.src)
        ≡ with_sizes r' head (
            read_full (page_header_at head).segments_count
              (record { bytes = sizes ++ (payload ++ rest); broken = broken })) =
      ap (with_header r') (read_full-append 27 head (sizes ++ (payload ++ rest)) broken refl) in
    let second : with_sizes r' head (
          read_full (page_header_at head).segments_count
            (record { bytes = sizes ++ (payload ++ rest); broken = broken }))
        ≡ with_payload r' head sizes
            (read_full (payload_size sizes) (record { bytes = payload ++ rest; broken = broken })) =
      ap (with_sizes r' head) (
        read_full-append (page_header_at head).segments_count sizes (payload ++ rest) broken
          (ap (λ (h : PageHeader). h.segments_count) header_is)) in
    let third : with_payload r' head sizes
          (read_full (payload_size sizes) (record { bytes = payload ++ rest; broken = broken }))
        ≡ with_payload r' head sizes (ok payload, src') =
      ap (with_payload r' head sizes)
        (read_full-append (payload_size sizes) payload rest broken sum_is) in
    let fourth : with_payload r' head sizes (ok payload, src') ≡ (
      ok (payload, page_header_at head),
      record (counted r' (27 + n + length payload)) { src = src' },
    ) =
      with_payload_ok r' head sizes payload src' (matches r' n t g s i sizes payload table refl) in
    ap (λ l. parse_next_page (on r (head ++ l) broken)) (append_assoc sizes payload rest)
    ∙ (first
        ∙ (second
            ∙ (third
                ∙ (fourth
                    ∙ ap
                        (λ h.
                          (ok (payload, h), counted (on r rest broken) (27 + n + length payload)))
                        header_is))))
