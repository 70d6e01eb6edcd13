-- ===== src/Ogg/Page/LastPage.antt =====
-- oggwriter/oggwriter.go: the last page of a packet, made again from its payload.
use format.Prelude.{
  ℕ, zero, suc, ◌+◌, ◌-◌, ◌%◌, ◌^◌, ◌<◌, ◌≡◌, refl, sym, ap, ◌∙◌, arith, Bool, true, false, List,
  [], ◌∷◌, ◌++◌, map, if◌then◌else◌, if_cases_on, Bytes, length, take, drop, concat, append-nil,
  append_assoc, take_all, length-drop, min,
}
use format.Ogg.Page.{
  Lacing, lace, OggPage, next_page, pages_from, create_pages_for_serial, create_page_for_serial,
  create_page_for_serial_with_segments, data_of, packet_page_header_type,
}
use format.Ogg.Page.Packet.{page_max, ends_here, goes_on, lace-size_min}

-- A page with all of a payload.
abbrev pub lone : (ℕ → ℕ) → Bytes → (header_type granule serial index : ℕ) → Bytes
lone table payload h g s i =
    create_page_for_serial_with_segments table payload (lace 255 (length payload)).segment_table h g
      s i

-- Its length does not depend on the flags.
pub length-lone :
    (table : ℕ → ℕ) (payload : Bytes) (h k g s i : ℕ)
    → length (lone table payload h g s i) ≡ length (lone table payload k g s i)
unfolding create_page_for_serial_with_segments
length-lone table payload h k g s i = refl

-- `pages` are `before` and the page `p`.
pub data Ends : List OggPage → Bytes → OggPage → Type 0 where
  here : (p : OggPage) → Ends (p ∷ []) [] p
  behind :
      {ps : List OggPage} {before : Bytes} {p : OggPage} (q : OggPage)
      → Ends ps before p
      → Ends (q ∷ ps) (q.data_bytes ++ before) p

pub Ends-concat :
    {ps : List OggPage} {before : Bytes} {p : OggPage}
    → Ends ps before p
    → concat (map data_of ps) ≡ before ++ p.data_bytes
Ends-concat (here p) = append-nil p.data_bytes
Ends-concat {p = p} (behind {before = before} q e) =
    ap (◌++◌ q.data_bytes) (Ends-concat e) ∙ sym (append_assoc q.data_bytes before p.data_bytes)

-- What is known of the last page of a packet.
pub record IsEnd (table : ℕ → ℕ) (s : ℕ) (pages : List OggPage) : Type 0 where
  pub before : Bytes
  pub page : OggPage
  pub ends : Ends pages before page
  pub short : length page.payload < page_max
  pub alone :
      page.data_bytes ≡ lone table page.payload page.header_type page.granule_pos s page.page_index

module _ (table : ℕ → ℕ) (t g s : ℕ) where
  pages_from-IsEnd :
      (fuel : ℕ) (payload : Bytes) (i : ℕ) (first : Bool)
      → length payload < fuel
      → IsEnd table s (pages_from fuel table payload t g s i first)
  unfolding pages_from next_page
  pages_from-IsEnd zero payload i first enough = absurd (omega arith)
  pages_from-IsEnd (suc fuel) payload i first enough =
      let n : ℕ = length payload in
      let l : Lacing = lace 255 n in
      let size : l.page_payload_size ≡ min page_max n = lace-size_min n in
      if_cases_on (IsEnd table s) l.packet_complete
        (λ e.
          let all : take l.page_payload_size payload ≡ payload =
            take_all l.page_payload_size payload (omega (arith, size, ends_here n e)) in
          record {
            before = [];
            page = next_page table payload l t g s i first;
            ends = here _;
            short = rw all (ends_here n e);
            alone =
                ap
                  (λ q.
                    create_page_for_serial_with_segments table (take l.page_payload_size payload)
                      (lace 255 (length q)).segment_table
                      (packet_page_header_type t first l.packet_complete)
                      (if l.packet_complete then g else 2 ^ 64 - 1) s i)
                  (sym all);
          })
        (λ e.
          let rest : Bytes = drop l.page_payload_size payload in
          let later =
            pages_from-IsEnd fuel rest ((i + 1) % 2 ^ 32) false
              (omega (arith, length-drop l.page_payload_size payload, size, goes_on n e, enough)) in
          record {
            before = _;
            page = later.page;
            ends = behind (next_page table payload l t g s i first) later.ends;
            short = later.short;
            alone = later.alone;
          })

  pub create_pages_for_serial-IsEnd :
      (payload : Bytes) (i : ℕ) → IsEnd table s (create_pages_for_serial table payload t g s i)
  create_pages_for_serial-IsEnd payload i =
      pages_from-IsEnd (suc (length payload)) payload i true (omega arith)

  -- A payload that fits on a page is put on one page.
  pub lone_page :
      (payload : Bytes) (i : ℕ)
      → length payload < page_max
      → create_page_for_serial table payload t g s i ≡ lone table payload t g s i
  unfolding pages_from next_page
  lone_page payload i short =
      let n : ℕ = length payload in
      let l : Lacing = lace 255 n in
      let all : take l.page_payload_size payload ≡ payload =
        take_all l.page_payload_size payload (omega (arith, lace-size_min n, short)) in
      if_cases_on (λ ps. concat (map data_of ps) ≡ lone table payload t g s i) l.packet_complete
        (λ e.
          append-nil _
          ∙ (ap
                (λ c.
                  create_page_for_serial_with_segments table (take l.page_payload_size payload)
                    l.segment_table (packet_page_header_type t true c) (if c then g else 2 ^ 64 - 1)
                    s i)
                e
              ∙ ap (λ q. create_page_for_serial_with_segments table q l.segment_table t g s i) all))
        (λ e. absurd (omega (arith, goes_on n e, short)))
