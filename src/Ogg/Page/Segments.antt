-- ===== src/Ogg/Page/Segments.antt =====
-- oggwriter/oggwriter.go: the segment table of a page, and the pages of a packet.
use format.Prelude.{
  ℕ, zero, suc, ◌+◌, ◌-◌, ◌*◌, ◌≤◌, ◌≡◌, arith, true, false, Bytes, length, take, min, ◌/◌,
  length-take,
}
use format.Ogg.Reader.{payload_size}
use format.Ogg.Page.{Lacing, lace}

-- What the lacing of `remaining` bytes in `free` places tells.
pub record IsLacing (free remaining : ℕ) (l : Lacing) : Type 0 where
  pub sum_is : payload_size l.segment_table ≡ l.page_payload_size
  pub places : length l.segment_table ≤ free
  pub split : l.page_payload_size + l.remaining_payload ≡ remaining
  pub complete : l.packet_complete ≡ true → l.page_payload_size ≡ remaining
  pub cut : l.packet_complete ≡ false → l.page_payload_size ≡ 255 * free

pub lace-IsLacing : (free remaining : ℕ) → IsLacing free remaining (lace free remaining)
unfolding lace
lace-IsLacing zero remaining = ground arith
lace-IsLacing (suc free) remaining = ground (arith, lace-IsLacing free (remaining - 255))

-- A page with `n` bytes has this many segments.
abbrev pub segments_of : ℕ → ℕ
segments_of n = min 255 (n / 255 + 1)

length-lace :
    (free remaining : ℕ)
    → length (lace free remaining).segment_table ≡ min free (remaining / 255 + 1)
unfolding lace
length-lace zero remaining = ground arith
length-lace (suc free) remaining = ground (arith, length-lace free (remaining - 255))

pub lace-size :
    (free remaining : ℕ) → (lace free remaining).page_payload_size ≡ min (255 * free) remaining
unfolding lace
lace-size zero remaining = ground arith
lace-size (suc free) remaining = ground (arith, lace-size free (remaining - 255))

-- The payload that goes on the next page.
abbrev pub page_part : Bytes → Bytes
page_part payload = take (lace 255 (length payload)).page_payload_size payload

pub length-page_part : (payload : Bytes) → length (page_part payload) ≡ min 65025 (length payload)
length-page_part payload = omega (
  arith,
  length-take (lace 255 (length payload)).page_payload_size payload,
  lace-size 255 (length payload),
)

pub payload_size-lace :
    (payload : Bytes)
    → payload_size (lace 255 (length payload)).segment_table ≡ length (page_part payload)
payload_size-lace payload = omega (
  arith,
  (lace-IsLacing 255 (length payload)).sum_is,
  length-page_part payload,
  lace-size 255 (length payload),
)

pub segments-lace :
    (payload : Bytes)
    → length (lace 255 (length payload)).segment_table ≡ segments_of (length (page_part payload))
segments-lace payload = omega (arith, length-lace 255 (length payload), length-page_part payload)
