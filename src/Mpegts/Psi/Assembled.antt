-- ===== src/Mpegts/Psi/Assembled.antt =====
-- mpegts/psi.go: the assembler on a section that is split over packets.
use format.Prelude.{
  ℕ, suc, ◌+◌, ◌<◌, ◌≤◌, ◌≡◌, refl, sym, ap, ◌∙◌, arith, true, false, Option, none, some, List, [],
  ◌∷◌, ◌++◌, append_assoc, ltb, Bool-cases, inl, inr, le→ltb, lt→ltb, Bytes, length, take, drop,
  concat, get_or-append, length-append, take-append, take-append_le, drop-append,
}
use format.Prelude.Words.{byte_at}
use format.Mpegts.Psi.{SectionAssembler, section_length, complete, feed}

-- The bytes of a section whose length field is right.
pub record IsSection (section : Bytes) : Type 0 where
  pub has_length : 3 ≤ length section
  pub length_is : 3 + section_length section ≡ length section

same_byte :
    (i : ℕ) (buf ys section rest : Bytes)
    → buf ++ ys ≡ section ++ rest
    → i < length buf
    → i < length section
    → byte_at buf i ≡ byte_at section i
same_byte i buf ys section rest e h g =
    sym (get_or-append buf ys i 0 h)
    ∙ ap (λ (l : Bytes). byte_at l i) e
    ∙ get_or-append section rest i 0 g

same_length :
    (buf ys section rest : Bytes)
    → buf ++ ys ≡ section ++ rest
    → 3 ≤ length buf
    → 3 ≤ length section
    → section_length buf ≡ section_length section
same_length buf ys section rest e h g =
    rw
      (
        same_byte 1 buf ys section rest e (omega arith) (omega arith),
        same_byte 2 buf ys section rest e (omega arith) (omega arith),
      )
      refl

abbrev at_work : Bytes → SectionAssembler
at_work buf = record { buf = buf; active = true }

complete_early :
    (buf ys section rest : Bytes)
    → buf ++ ys ≡ section ++ rest
    → IsSection section
    → length buf < length section
    → complete (at_work buf) ≡ (at_work buf, none)
complete_early buf ys section rest e v h = elim (Bool-cases (ltb (length buf) 3)) [
  | inl short ↦ rw short refl
  | inr long ↦
      let has : 3 ≤ length buf = ground arith in
      let same = same_length buf ys section rest e has v.has_length in
      rw (long, lt→ltb (length buf) (3 + section_length buf) (omega (arith, same, v.length_is)))
        refl
]

complete_whole :
    (buf ys section rest : Bytes)
    → buf ++ ys ≡ section ++ rest
    → IsSection section
    → length section ≤ length buf
    → (complete (at_work buf)).1 ≡ some section
complete_whole buf ys section rest e v h =
    let same = same_length buf ys section rest e (omega (arith, v.has_length)) v.has_length in
    let total : 3 + section_length buf ≡ length section = omega (arith, same, v.length_is) in
    rw
      (
        le→ltb (length buf) 3 (omega (arith, v.has_length)),
        le→ltb (length buf) (3 + section_length buf) (omega arith),
      )
      (ap some (
        ap (λ (n : ℕ). take n buf) total
        ∙ sym (take-append_le (length section) buf ys h)
        ∙ ap (take (length section)) e
        ∙ take-append (length section) section rest refl))

-- `feed` for each payload that goes on with a section, up to the first that completes it.
unfoldable pub feed_more : SectionAssembler → List Bytes → Option Bytes
unfolding feed
feed_more a [] = none
feed_more a (p ∷ ps) =
    let (a', section) = feed a false p in
    let later = feed_more a' ps in elim section [ some bytes ↦ some bytes | none ↦ later ]

-- The same behind a first payload that starts one.
unfoldable pub feed_section : SectionAssembler → Bytes → List Bytes → Option Bytes
unfolding feed_more
feed_section a first ps =
    let (a', section) = feed a true first in
    let later = feed_more a' ps in elim section [ some bytes ↦ some bytes | none ↦ later ]

-- What comes of one payload, by what it makes of the section.
abbrev or_later : List Bytes → SectionAssembler × Option Bytes → Option Bytes
or_later ps out = elim out.1 [ some bytes ↦ some bytes | none ↦ feed_more out.0 ps ]

or_later-some :
    (ps : List Bytes) (out : SectionAssembler × Option Bytes) (section : Bytes)
    → out.1 ≡ some section
    → or_later ps out ≡ some section
or_later-some ps out section e =
    ap (λ (o : Option Bytes). elim o [ some bytes ↦ some bytes | none ↦ feed_more out.0 ps ]) e

-- The payload that starts a section.
feed-start :
    (a : SectionAssembler) (skipped front : Bytes)
    → feed a true (length skipped ∷ (skipped ++ front)) ≡ complete (at_work front)
unfolding feed
feed-start a skipped front =
    let whole : Bytes = length skipped ∷ (skipped ++ front) in
    let n : 1 + length skipped ≡ suc (length skipped) = omega arith in
    let behind : drop (1 + length skipped) whole ≡ front =
      rw n (drop-append (length skipped) skipped front refl) in
    rw (le→ltb (length whole) (1 + length skipped) (omega (arith, length-append skipped front)))
      (ap (λ (l : Bytes). complete (at_work l)) behind)

module _ (section rest : Bytes) (v : IsSection section) where
  or_later-complete :
      (buf : Bytes) (ps : List Bytes)
      → buf ++ concat ps ≡ section ++ rest
      → (length buf < length section → feed_more (at_work buf) ps ≡ some section)
      → or_later ps (complete (at_work buf)) ≡ some section
  or_later-complete buf ps e next_time = elim (Bool-cases (ltb (length buf) (length section))) [
    | inl early ↦
        let short : length buf < length section = ground arith in
        ap (or_later ps) (complete_early buf (concat ps) section rest e v short) ∙ next_time short
    | inr whole ↦
        or_later-some ps (complete (at_work buf)) section
          (complete_whole buf (concat ps) section rest e v (ground arith))
  ]

  feed_more_lem :
      (buf : Bytes) (ps : List Bytes)
      → buf ++ concat ps ≡ section ++ rest
      → length buf < length section
      → feed_more (at_work buf) ps ≡ some section
  unfolding feed_more feed
  feed_more_lem buf [] e h = absurd (
      omega
        (arith, ap (λ (l : Bytes). length l) e, length-append buf [], length-append section rest))
  feed_more_lem buf (p ∷ ps) e h =
      let e' : (buf ++ p) ++ concat ps ≡ section ++ rest = append_assoc buf p (concat ps) ∙ e in
      or_later-complete (buf ++ p) ps e' (feed_more_lem (buf ++ p) ps e')

  -- A section whose length field is right, behind a pointer field and the bytes that it skips, cut at any
  -- places into payloads and followed by any bytes, is given out by `feed`, whatever the assembler held.
  pub feed_section_lem :
      (a : SectionAssembler) (skipped front : Bytes) (ps : List Bytes)
      → front ++ concat ps ≡ section ++ rest
      → feed_section a (length skipped ∷ (skipped ++ front)) ps ≡ some section
  unfolding feed_section feed
  feed_section_lem a skipped front ps e =
      ap (or_later ps) (feed-start a skipped front)
      ∙ or_later-complete front ps e (feed_more_lem front ps e)
