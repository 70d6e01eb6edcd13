-- ===== src/Ogg/Page/Packet.antt =====
-- oggwriter/oggwriter.go: `createPagesForSerial` as RFC 3533 lays a packet out.
use format.Prelude.{
  ℕ, zero, suc, ◌+◌, ◌-◌, ◌*◌, ◌/◌, ◌%◌, ◌^◌, ◌≤◌, ◌<◌, ◌≡◌, refl, sym, ap, ◌∙◌, arith, Bool, true,
  false, List, [], ◌∷◌, map, if◌then◌else◌, if_cases_on, Bytes, length, take, drop, concat,
  take-append-drop, length-drop, take_all, append-nil, bit_and, bit_or, min, ltb, ltb→lt, ltb→le,
}
use mathlib.Core.Path.{subst}
use format.Prelude.Bits.{agree_below, agree_below→eq}
use format.Ogg.Page.{
  Lacing, lace, OggPage, next_page, pages_from, create_pages_for_serial, payload_of,
  packet_page_header_type,
}
use format.Ogg.Page.Segments.{lace-size}

-- The three flags of a page, from those that the packet is written with: it goes on with a packet,
-- begins the stream, ends the stream.
pub record HasFlags (t : ℕ) (first complete : Bool) (h : ℕ) : Type 0 where
  pub continued : bit_and h 1 ≡ (if first then bit_and t 1 else 1)
  pub begins : bit_and h 2 ≡ (if first then bit_and t 2 else 0)
  pub ends : bit_and h 4 ≡ (if complete then bit_and t 4 else 0)

-- 255 segments of 255 bytes.
abbrev pub page_max : ℕ
page_max = 65025

-- The pages of a packet with `payload`: each is full but the last, which has the granule position.
pub data IsLaid (t g : ℕ) : Bool → ℕ → Bytes → List OggPage → Type 0 where
  last :
      {first : Bool} {i : ℕ} {payload : Bytes} (p : OggPage)
      → length payload < page_max
      → p.payload ≡ payload
      → p.granule_pos ≡ g
      → p.page_index ≡ i
      → HasFlags t first true p.header_type
      → IsLaid t g first i payload (p ∷ [])
  cut :
      {first : Bool} {i : ℕ} {payload : Bytes} (p : OggPage) (ps : List OggPage)
      → page_max ≤ length payload
      → p.payload ≡ take page_max payload
      → p.granule_pos ≡ 2 ^ 64 - 1
      → p.page_index ≡ i
      → HasFlags t first false p.header_type
      → IsLaid t g false ((i + 1) % 2 ^ 32) (drop page_max payload) ps
      → IsLaid t g first i payload (p ∷ ps)

packet_page_header_type-HasFlags :
    (t : ℕ) (first complete : Bool)
    → t < 8
    → HasFlags t first complete (packet_page_header_type t first complete)
unfolding agree_below
packet_page_header_type-HasFlags t true true h = record {
  continued = refl;
  begins = refl;
  ends = refl;
}
packet_page_header_type-HasFlags t true false h = record {
  continued = agree_below→eq (λ x. bit_and (bit_and x 0xFB) 1) (λ x. bit_and x 1) 8 refl t h;
  begins = agree_below→eq (λ x. bit_and (bit_and x 0xFB) 2) (λ x. bit_and x 2) 8 refl t h;
  ends = agree_below→eq (λ x. bit_and (bit_and x 0xFB) 4) (λ x. 0) 8 refl t h;
}
packet_page_header_type-HasFlags t false true h = record {
  continued = agree_below→eq (λ x. bit_and (bit_or 1 (bit_and x 4)) 1) (λ x. 1) 8 refl t h;
  begins = agree_below→eq (λ x. bit_and (bit_or 1 (bit_and x 4)) 2) (λ x. 0) 8 refl t h;
  ends = agree_below→eq (λ x. bit_and (bit_or 1 (bit_and x 4)) 4) (λ x. bit_and x 4) 8 refl t h;
}
packet_page_header_type-HasFlags t false false h = record {
  continued = refl;
  begins = refl;
  ends = refl;
}

pub lace-size_min : (n : ℕ) → (lace 255 n).page_payload_size ≡ min page_max n
lace-size_min n = omega (arith, lace-size 255 n)

lace_complete : (free n : ℕ) → (lace free n).packet_complete ≡ ltb n (255 * free)
unfolding lace
lace_complete zero n = ground arith
lace_complete (suc free) n = ground (arith, lace_complete free (n - 255))

-- The test that ends the outer loop.
pub ends_here : (n : ℕ) → (lace 255 n).packet_complete ≡ true → n < page_max
ends_here n e = ltb→lt n page_max (sym (lace_complete 255 n) ∙ e)

pub goes_on : (n : ℕ) → (lace 255 n).packet_complete ≡ false → page_max ≤ n
goes_on n e = ltb→le n page_max (sym (lace_complete 255 n) ∙ e)

module _ (table : ℕ → ℕ) (t g s : ℕ) (flags : t < 8) where
  pages_from-IsLaid :
      (fuel : ℕ) (payload : Bytes) (i : ℕ) (first : Bool)
      → length payload < fuel
      → IsLaid t g first i payload (pages_from fuel table payload t g s i first)
  unfolding pages_from next_page
  pages_from-IsLaid zero payload i first enough = absurd (omega arith)
  pages_from-IsLaid (suc fuel) payload i first enough =
      let n : ℕ = length payload in
      let l : Lacing = lace 255 n in
      let size : l.page_payload_size ≡ min page_max n = lace-size_min n in
      if_cases_on (IsLaid t g first i payload) l.packet_complete
        (λ e.
          last _ (ends_here n e)
            (take_all l.page_payload_size payload (omega (arith, size, ends_here n e)))
            (ap (λ b. if b then g else 2 ^ 64 - 1) e) refl
            (subst (λ b. HasFlags t first b (packet_page_header_type t first l.packet_complete)) e
              (packet_page_header_type-HasFlags t first l.packet_complete flags)))
        (λ e.
          let full : l.page_payload_size ≡ page_max = omega (arith, size, goes_on n e) in
          cut _ _ (goes_on n e) (ap (λ k. take k payload) full)
            (ap (λ b. if b then g else 2 ^ 64 - 1) e) refl
            (subst (λ b. HasFlags t first b (packet_page_header_type t first l.packet_complete)) e
              (packet_page_header_type-HasFlags t first l.packet_complete flags))
            (subst
              (λ k.
                IsLaid t g false ((i + 1) % 2 ^ 32) (drop page_max payload)
                  (pages_from fuel table (drop k payload) t g s ((i + 1) % 2 ^ 32) false))
              (sym full)
              (pages_from-IsLaid fuel (drop page_max payload) ((i + 1) % 2 ^ 32) false
                (omega (arith, length-drop page_max payload, goes_on n e, enough)))))

-- The pages of a packet, for any of the three flags, are laid out as RFC 3533 asks: all but the last carry 65025
-- bytes and no granule position, the last carries what is left, which may be nothing, and the
-- packet's; the numbers go up by one modulo 2^32; the first page alone can begin the stream, the last
-- alone can end it, and those between go on with a packet.
pub create_pages_for_serial-IsLaid :
    (table : ℕ → ℕ) (payload : Bytes) (t g s i : ℕ)
    → t < 8
    → IsLaid t g true i payload (create_pages_for_serial table payload t g s i)
create_pages_for_serial-IsLaid table payload t g s i flags =
    pages_from-IsLaid table t g s flags (suc (length payload)) payload i true (omega arith)

-- What pages that are laid out so carry is the packet.
pub IsLaid-concat :
    {t g i : ℕ} {first : Bool} {payload : Bytes} {pages : List OggPage}
    → IsLaid t g first i payload pages
    → concat (map payload_of pages) ≡ payload
IsLaid-concat {payload = payload} (last p short is granule index flags) = append-nil p.payload ∙ is
IsLaid-concat {payload = payload} (cut p ps long is granule index flags more) =
    rw (is, IsLaid-concat more) (take-append-drop page_max payload)

pub IsLaid-length :
    {t g i : ℕ} {first : Bool} {payload : Bytes} {pages : List OggPage}
    → IsLaid t g first i payload pages
    → length pages ≡ length payload / page_max + 1
IsLaid-length (last p short is granule index flags) = omega (arith, short)
IsLaid-length {payload = payload} (cut p ps long is granule index flags more) =
    omega (arith, long, IsLaid-length more, length-drop page_max payload)
