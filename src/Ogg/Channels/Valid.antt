-- ===== src/Ogg/Channels/Valid.antt =====
-- oggwriter/oggwriter.go: which channel mappings `validateChannelMapping` lets through.
use format.Prelude.{
  ℕ, ◌+◌, ◌%◌, ◌≤◌, ◌<◌, ◌≡◌, ◌⊎◌, ◌↔◌, inl, inr, refl, sym, arith, true, [], ◌∷◌, Bytes, length,
  All, Result, ok, then_ok, ok-injective,
}
use format.Prelude.Words.{equal}
use format.Ogg.Errors.{Error}
use format.Ogg.Channels.{
  ChannelMapping, IsMapping, mono, stereo, vorbis_mono, vorbis_stereo, ambisonics, discrete,
  validate_channel_mapping, validate_channel_mapping_family, validate_channel_mapping_layout,
  validate_entries, validate_family_specific_channel_mapping, validate_vorbis_channel_mapping,
}

abbrev IsEntry : ℕ → ℕ → Type 0
IsEntry decoded channel = (channel ≡ 255) ⊎ (channel < decoded)

entries_ok :
    (decoded : ℕ) (mapping : Bytes)
    → validate_entries decoded mapping ≡ ok tt
    → All (IsEntry decoded) mapping
entries_ok decoded [] e = tt
entries_ok decoded (c ∷ mapping) e = ground (arith, entries_ok decoded mapping)

ok_entries :
    (decoded : ℕ) (mapping : Bytes)
    → All (IsEntry decoded) mapping
    → validate_entries decoded mapping ≡ ok tt
ok_entries decoded [] h = refl
ok_entries decoded (c ∷ mapping) h = ground (arith, ok_entries decoded mapping)

equal_ok : (xs ys : Bytes) → equal xs ys ≡ true → xs ≡ ys
equal_ok [] [] e = refl
equal_ok [] (y ∷ ys) e = absurd (cc e)
equal_ok (x ∷ xs) [] e = absurd (cc e)
equal_ok (x ∷ xs) (y ∷ ys) e = ground (arith, equal_ok xs ys)

-- What the layout's test lets through.
record IsLayout (streams coupled : ℕ) (mapping : Bytes) : Type 0 where
  some_channels : 0 < length mapping
  few_channels : length mapping < 256
  one_stream : streams ≡ 1
  coupled_le : coupled ≤ 1
  entries : All (IsEntry (1 + coupled)) mapping

validate_channel_mapping_layout-IsLayout :
    (streams coupled : ℕ) (mapping : Bytes)
    → validate_channel_mapping_layout streams coupled mapping ≡ ok tt
    → IsLayout streams coupled mapping
validate_channel_mapping_layout-IsLayout streams coupled mapping e =
    let one : streams ≡ 1 = ground arith in
    let entries_are : validate_entries (streams + coupled) mapping ≡ ok tt = ground arith in
    record {
      some_channels = ground arith;
      few_channels = ground arith;
      one_stream = one;
      coupled_le = ground arith;
      entries = rw one at (entries_ok (streams + coupled) mapping entries_are);
    }

family_ok :
    (family : ℕ)
    → validate_channel_mapping_family family ≡ ok tt
    → (family ≡ 1) ⊎ ((family ≡ 2) ⊎ (family ≡ 255))
family_ok family e = ground arith

vorbis_ok :
    (streams coupled : ℕ) (mapping : Bytes)
    → validate_vorbis_channel_mapping streams coupled mapping ≡ ok tt
    → ((streams ≡ 1) × (coupled ≡ 0) × (mapping ≡ 0 ∷ []))
      ⊎ ((streams ≡ 1) × (coupled ≡ 1) × (mapping ≡ 0 ∷ 1 ∷ []))
vorbis_ok streams coupled mapping e =
    ground (arith, equal_ok mapping (0 ∷ []), equal_ok mapping (0 ∷ 1 ∷ []))

ambisonics_ok :
    (streams coupled : ℕ) (mapping : Bytes)
    → validate_family_specific_channel_mapping 2 streams coupled mapping ≡ ok tt
    → (streams ≡ 1) × (coupled ≡ 0) × (mapping ≡ 0 ∷ [])
ambisonics_ok streams coupled [] e = ground arith
ambisonics_ok streams coupled (c ∷ []) e = ground arith
ambisonics_ok streams coupled (c ∷ d ∷ mapping) e = ground arith

-- The mapping that the arguments ask for.
abbrev pub mapping_of : (family stream_count coupled_count : ℕ) → Bytes → ChannelMapping
mapping_of family stream_count coupled_count mapping = record {
  family = family;
  channel_count = length mapping;
  stream_count = stream_count;
  coupled_count = coupled_count;
  mapping = mapping;
}

specific_ok :
    (family streams coupled : ℕ) (mapping : Bytes)
    → (family ≡ 1) ⊎ ((family ≡ 2) ⊎ (family ≡ 255))
    → IsLayout streams coupled mapping
    → validate_family_specific_channel_mapping family streams coupled mapping ≡ ok tt
    → IsMapping (mapping_of family streams coupled mapping)
specific_ok family streams coupled mapping (inl one) l e =
    elim (vorbis_ok streams coupled mapping (rw one at e)) [
      | inl (s, c, m) ↦ rw (one, s, c, m) vorbis_mono
      | inr (s, c, m) ↦ rw (one, s, c, m) vorbis_stereo
    ]
specific_ok family streams coupled mapping (inr (inl two)) l e =
    let (s, c, m) = ambisonics_ok streams coupled mapping (rw two at e) in
    rw (two, s, c, m) ambisonics
specific_ok family streams coupled mapping (inr (inr most)) l e =
    rw (most, l.one_stream)
      (discrete coupled mapping l.coupled_le l.some_channels l.few_channels l.entries)

validated :
    (family streams coupled : ℕ) (mapping : Bytes) (m : ChannelMapping)
    → validate_channel_mapping family streams coupled mapping ≡ ok m
    → IsMapping m × (0 < family) × (m ≡ mapping_of family streams coupled mapping)
unfolding validate_channel_mapping
validated family streams coupled mapping m e =
    let (f, e1) = then_ok {m = validate_channel_mapping_family family} e in
    let (l, e2) = then_ok {m = validate_channel_mapping_layout streams coupled mapping} e1 in
    let (s, e3) =
      then_ok {m = validate_family_specific_channel_mapping family streams coupled mapping} e2 in
    let layout : IsLayout streams coupled mapping =
      validate_channel_mapping_layout-IsLayout streams coupled mapping l in
    let count : length mapping % 256 ≡ length mapping = omega (arith, layout.few_channels) in
    let named = family_ok family f in
    let made : ◌≡◌ {A = Result Error ChannelMapping}
        (ok (record (mapping_of family streams coupled mapping) {
          channel_count = length mapping % 256;
        }))
        (ok m) =
      e3 in
    let same : m ≡ mapping_of family streams coupled mapping =
      sym (ok-injective (rw count at made)) in
    (rw same (specific_ok family streams coupled mapping named layout s), ground arith, same)

ok_layout :
    (coupled : ℕ) (mapping : Bytes)
    → coupled ≤ 1
    → 0 < length mapping
    → length mapping < 256
    → All (IsEntry (1 + coupled)) mapping
    → validate_channel_mapping_layout 1 coupled mapping ≡ ok tt
ok_layout coupled mapping c some few entries =
    ground (arith, ok_entries (1 + coupled) mapping entries)

passes :
    (m : ChannelMapping)
    → IsMapping m
    → 0 < m.family
    → validate_channel_mapping m.family m.stream_count m.coupled_count m.mapping ≡ ok m
unfolding validate_channel_mapping
passes m mono h = absurd (omega arith)
passes m stereo h = absurd (omega arith)
passes m vorbis_mono h = refl
passes m vorbis_stereo h = refl
passes m ambisonics h = refl
passes m (discrete coupled mapping c some few entries) h =
    let count : length mapping % 256 ≡ length mapping = omega (arith, few) in
    rw (ok_layout coupled mapping c some few entries, count) refl

-- `validateChannelMapping` accepts exactly the arguments that make one of the mappings of `IsMapping` in a
-- family above 0, which are fewer than the RFCs allow, and keeps them as they are: in family 1 one
-- stream with the channels 0, or 0 and 1 coupled; in family 2 one stream of one channel; in family 255
-- one stream with 1 to 255 channels, each silent or one that the stream has.
pub validate_channel_mapping_iff :
    (family streams coupled : ℕ) (mapping : Bytes) (m : ChannelMapping)
    → (validate_channel_mapping family streams coupled mapping ≡ ok m)
      ↔ (IsMapping m × (0 < family) × (m ≡ mapping_of family streams coupled mapping))
validate_channel_mapping_iff family streams coupled mapping m = (
  validated family streams coupled mapping m,
  λ (is, named, same).
      let kept : IsMapping (mapping_of family streams coupled mapping) = rw same at is in
      rw same (passes (mapping_of family streams coupled mapping) kept named),
)
