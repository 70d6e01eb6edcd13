-- ===== src/Ogg/Reader/Checked.antt =====
-- oggreader/oggreader.go: what a page that `ParseNextPage` gives out tells of the stream.
use format.Prelude.{
  ℕ, ◌+◌, ◌≡◌, refl, sym, ap, ◌∙◌, arith, Bool, true, false, not, ◌++◌, ◌==◌, Bytes, length, Result,
  ok, err,
}
use format.Prelude.Words.{byte_at}
use format.Prelude.Io.{IoError, Source, read_full, read_full_ok, le_32}
use format.Ogg.Reader.{
  Reader, Error, PageHeader, page_header_at, checksum_of, payload_size, is_mismatch, with_payload,
  with_sizes, with_header, parse_next_page,
}

-- The page that was taken off the stream.
pub record IsGiven (r : Reader) (payload : Bytes) (h : PageHeader) (r' : Reader) : Type 0 where
  pub header : Bytes
  pub sizes : Bytes
  pub taken : r.src.bytes ≡ header ++ (sizes ++ (payload ++ r'.src.bytes))
  pub header_len : length header ≡ 27
  pub header_is : h ≡ page_header_at header
  pub sizes_len : length sizes ≡ h.segments_count
  pub payload_len : length payload ≡ payload_size sizes
  pub counted :
      r'.bytes_read_successfully
      ≡ r.bytes_read_successfully + (length header + length sizes + length payload)
  pub checked :
      r.do_checksum ≡ true
      → le_32 (byte_at header 22) (byte_at header 23) (byte_at header 24) (byte_at header 25)
        ≡ checksum_of r.checksum_table header sizes payload

abbrev Page : Type 0
Page = Result Error (Bytes × PageHeader) × Reader

abbrev Read : Type 0
Read = Result IoError Bytes × Source

no_mismatch :
    (r : Reader) (header sizes payload : Bytes)
    → is_mismatch r header sizes payload ≡ false
    → r.do_checksum ≡ true
    → le_32 (byte_at header 22) (byte_at header 23) (byte_at header 24) (byte_at header 25)
      ≡ checksum_of r.checksum_table header sizes payload
no_mismatch r header sizes payload e on_ =
    let sum : ℕ = checksum_of r.checksum_table header sizes payload in
    let field : ℕ =
      le_32 (byte_at header 22) (byte_at header 23) (byte_at header 24) (byte_at header 25) in
    let differs : not (field == sum) ≡ false = rw on_ at e in ground arith

payload_step :
    (r : Reader) (header sizes : Bytes) (m : Read) (payload : Bytes) (h : PageHeader) (r' : Reader)
    → with_payload r header sizes m ≡ (ok (payload, h), r')
    → ◌≡◌ {A = Read} m (ok payload, r'.src)
      × (is_mismatch r header sizes payload ≡ false)
      × (h ≡ page_header_at header)
      × (r'.bytes_read_successfully
          ≡ r.bytes_read_successfully + (length header + length sizes + length payload))
payload_step r header sizes (err x, src) payload h r' e = absurd (cc (ap (λ (o : Page). o.0) e))
payload_step r header sizes (ok p, src) payload h r' e = by_test (is_mismatch r header sizes p) refl
  where
    by_test :
        (b : Bool)
        → is_mismatch r header sizes p ≡ b
        → ◌≡◌ {A = Read} (ok p, src) (ok payload, r'.src)
          × (is_mismatch r header sizes payload ≡ false)
          × (h ≡ page_header_at header)
          × (r'.bytes_read_successfully
              ≡ r.bytes_read_successfully + (length header + length sizes + length payload))
    by_test true bad = absurd (cc (ap (λ (o : Page). o.0) (rw bad at e)))
    by_test false good =
        let same = rw good at e in
        let payload_is : p ≡ payload = cc same in
        let header_is : page_header_at header ≡ h = cc same in
        let reader_is = ap (λ (o : Page). o.1) same in
        (
          ap (λ l. (ok l, src)) payload_is ∙ ap (λ (x : Reader). (ok payload, x.src)) reader_is,
          ap (is_mismatch r header sizes) (sym payload_is) ∙ good,
          sym header_is,
          sym (ap (λ (x : Reader). x.bytes_read_successfully) reader_is)
              ∙ ap (λ l. r.bytes_read_successfully + (length header + length sizes + length l))
                  payload_is,
        )

failed_step :
    (r : Reader) (header sizes : Bytes) (m : Read) (x : Error) (r' : Reader)
    → with_payload r header sizes m ≡ (err x, r')
    → r'.bytes_read_successfully ≡ r.bytes_read_successfully
failed_step r header sizes (err y, src) x r' e =
    sym (ap (λ (o : Page). o.1.bytes_read_successfully) e)
failed_step r header sizes (ok p, src) x r' e = by_test (is_mismatch r header sizes p) refl
  where
    by_test :
        (b : Bool)
        → is_mismatch r header sizes p ≡ b
        → r'.bytes_read_successfully ≡ r.bytes_read_successfully
    by_test true bad = sym (ap (λ (o : Page). o.1.bytes_read_successfully) (rw bad at e))
    by_test false good = absurd (cc (ap (λ (o : Page). o.0) (rw good at e)))

-- The two reads before the payload's.
sizes_step :
    (r : Reader) (header : Bytes) (m : Read) (payload : Bytes) (h : PageHeader) (r' : Reader)
    → with_sizes r header m ≡ (ok (payload, h), r')
    → (sizes : Bytes) × (src : Source) × (◌≡◌ {A = Read} m (ok sizes, src))
      × (with_payload r header sizes (read_full (payload_size sizes) src) ≡ (ok (payload, h), r'))
sizes_step r header (err x, src) payload h r' e = absurd (cc (ap (λ (o : Page). o.0) e))
sizes_step r header (ok sizes, src) payload h r' e = (sizes, src, refl, e)

header_step :
    (r : Reader) (m : Read) (payload : Bytes) (h : PageHeader) (r' : Reader)
    → with_header r m ≡ (ok (payload, h), r')
    → (header : Bytes) × (src : Source) × (◌≡◌ {A = Read} m (ok header, src))
      × (with_sizes r header (read_full (page_header_at header).segments_count src)
          ≡ (ok (payload, h), r'))
header_step r (err x, src) payload h r' e = absurd (cc (ap (λ (o : Page). o.0) e))
header_step r (ok header, src) payload h r' e = (header, src, refl, e)

-- A page that `ParseNextPage` gives out is exactly what the stream has lost: a header of 27 bytes with
-- the fields that are given, as many segment sizes as it says, and a payload of their sum; the
-- count of bytes goes up by all three, and where checksums are on, the page has the right one.
pub parse_next_page-IsGiven :
    (r : Reader) (payload : Bytes) (h : PageHeader) (r' : Reader)
    → parse_next_page r ≡ (ok (payload, h), r')
    → IsGiven r payload h r'
unfolding parse_next_page
parse_next_page-IsGiven r payload h r' e =
    let (header, src, first, e1) = header_step r (read_full 27 r.src) payload h r' e in
    let n : ℕ = (page_header_at header).segments_count in
    let (sizes, src', second, e2) = sizes_step r header (read_full n src) payload h r' e1 in
    let (third, good, header_is, count) =
      payload_step r header sizes (read_full (payload_size sizes) src') payload h r' e2 in
    let (front, len, b) = read_full_ok 27 r.src src header first in
    let (middle, len', b') = read_full_ok n src src' sizes second in
    let (back, len'', b'') = read_full_ok (payload_size sizes) src' r'.src payload third in
    record {
      header = header;
      sizes = sizes;
      taken = front ∙ ap (λ l. header ++ l) (middle ∙ ap (λ l. sizes ++ l) back);
      header_len = len;
      header_is = header_is;
      sizes_len = len' ∙ sym (ap (λ (x : PageHeader). x.segments_count) header_is);
      payload_len = len'';
      counted = count;
      checked = no_mismatch r header sizes payload good;
    }

-- Where `ParseNextPage` fails, whatever the error, the count of bytes stays what it was.
pub parse_next_page_failed :
    (r : Reader) (x : Error) (r' : Reader)
    → parse_next_page r ≡ (err x, r')
    → r'.bytes_read_successfully ≡ r.bytes_read_successfully
unfolding parse_next_page
parse_next_page_failed r x r' e = by_header (read_full 27 r.src) e
  where
    by_sizes :
        (header : Bytes) (m : Read)
        → with_sizes r header m ≡ (err x, r')
        → r'.bytes_read_successfully ≡ r.bytes_read_successfully
    by_sizes header (err y, src) e = sym (ap (λ (o : Page). o.1.bytes_read_successfully) e)
    by_sizes header (ok sizes, src) e =
        failed_step r header sizes (read_full (payload_size sizes) src) x r' e

    by_header :
        (m : Read)
        → with_header r m ≡ (err x, r')
        → r'.bytes_read_successfully ≡ r.bytes_read_successfully
    by_header (err y, src) e = sym (ap (λ (o : Page). o.1.bytes_read_successfully) e)
    by_header (ok header, src) e =
        by_sizes header (read_full (page_header_at header).segments_count src) e
