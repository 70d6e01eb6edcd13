-- ===== src/Ogg/Channels.antt =====
-- oggwriter/oggwriter.go: the channel mappings that a track may have.
pub mod Valid
use format.Prelude.{
  ℕ, ◌+◌, ◌≤◌, ◌<◌, ◌≡◌, ◌⊎◌, All, Bool, true, false, not, ◌&&◌, ◌||◌, List, [], ◌∷◌, ltb, leb,
  ◌==◌, if◌then◌else◌, Bytes, length, Result, ok, err, ◌>>=◌, ◌>>◌, reject_if,
}
use format.Prelude.Words.{byte, byte_at, equal}
use format.Ogg.Errors.{Error, invalid_channel_count, invalid_channel_map}

pub record ChannelMapping : Type 0 where
  pub family : ℕ
  pub channel_count : ℕ
  pub stream_count : ℕ
  pub coupled_count : ℕ
  pub mapping : Bytes

abbrev pub channel_mapping_family_0 : ℕ
channel_mapping_family_0 = 0

abbrev pub default_channel_mapping : ℕ → Result Error ChannelMapping
default_channel_mapping channel_count =
    if channel_count == 1
    then ok (record {
      family = 0;
      channel_count = 1;
      stream_count = 1;
      coupled_count = 0;
      mapping = [];
    })
    else if channel_count == 2
    then ok (record {
      family = 0;
      channel_count = 2;
      stream_count = 1;
      coupled_count = 1;
      mapping = [];
    })
    else err invalid_channel_count

abbrev pub validate_channel_mapping_family : ℕ → Result Error (Unit {0})
validate_channel_mapping_family family =
    if family == 1 || (family == 2 || family == 255) then ok tt else err invalid_channel_map

-- The loop over the entries of a map.
abbrev pub validate_entries : ℕ → Bytes → Result Error (Unit {0})
validate_entries decoded_channels [] = ok tt
validate_entries decoded_channels (channel ∷ mapping) =
    let rest = validate_entries decoded_channels mapping in
    if not (channel == 255) && leb decoded_channels channel then err invalid_channel_map else rest

abbrev pub validate_channel_mapping_layout : ℕ → ℕ → Bytes → Result Error (Unit {0})
validate_channel_mapping_layout stream_count coupled_count mapping = do
  reject_if (length mapping == 0 || ltb 255 (length mapping)) invalid_channel_count
  reject_if (not (stream_count == 1)) invalid_channel_map
  reject_if (ltb stream_count coupled_count) invalid_channel_map
  validate_entries (stream_count + coupled_count) mapping

abbrev pub want_vorbis :
    (stream_count coupled_count : ℕ) → Bytes → ℕ → ℕ → Bytes → Result Error (Unit {0})
want_vorbis stream_count coupled_count mapping want_streams want_coupled want_mapping =
    reject_if
      (not (stream_count == want_streams)
        || (not (coupled_count == want_coupled) || not (equal mapping want_mapping)))
      invalid_channel_map

abbrev pub validate_vorbis_channel_mapping : ℕ → ℕ → Bytes → Result Error (Unit {0})
validate_vorbis_channel_mapping stream_count coupled_count mapping =
    if length mapping == 1
    then want_vorbis stream_count coupled_count mapping 1 0 (0 ∷ [])
    else if length mapping == 2
    then want_vorbis stream_count coupled_count mapping 1 1 (0 ∷ 1 ∷ [])
    else err invalid_channel_map

abbrev pub validate_family_specific_channel_mapping : ℕ → ℕ → ℕ → Bytes → Result Error (Unit {0})
validate_family_specific_channel_mapping family stream_count coupled_count mapping =
    if family == 1
    then validate_vorbis_channel_mapping stream_count coupled_count mapping
    else if family == 2
    then reject_if
        (not (length mapping == 1)
          || (not (stream_count == 1)
              || (not (coupled_count == 0) || not (byte_at mapping 0 == 0))))
        invalid_channel_map
    else ok tt

unfoldable pub validate_channel_mapping : ℕ → ℕ → ℕ → Bytes → Result Error ChannelMapping
validate_channel_mapping family stream_count coupled_count mapping = do
  validate_channel_mapping_family family
  validate_channel_mapping_layout stream_count coupled_count mapping
  validate_family_specific_channel_mapping family stream_count coupled_count mapping
  ok (record {
    family = family;
    channel_count = byte (length mapping);
    stream_count = stream_count;
    coupled_count = coupled_count;
    mapping = mapping;
  })

-- The mappings that a track may have: one stream each, of one or two channels in family 0, in family 1
-- with the channels in the order of the stream, in family 2 the one of a single channel, and in
-- family 255 any channels of the stream or silence.
pub data IsMapping : ChannelMapping → Type 0 where
  mono :
      IsMapping (record {
        family = 0;
        channel_count = 1;
        stream_count = 1;
        coupled_count = 0;
        mapping = [];
      })
  stereo :
      IsMapping (record {
        family = 0;
        channel_count = 2;
        stream_count = 1;
        coupled_count = 1;
        mapping = [];
      })
  vorbis_mono : IsMapping (record {
    family = 1;
    channel_count = 1;
    stream_count = 1;
    coupled_count = 0;
    mapping = 0 ∷ [];
  })
  vorbis_stereo : IsMapping (record {
    family = 1;
    channel_count = 2;
    stream_count = 1;
    coupled_count = 1;
    mapping = 0 ∷ 1 ∷ [];
  })
  ambisonics : IsMapping (record {
    family = 2;
    channel_count = 1;
    stream_count = 1;
    coupled_count = 0;
    mapping = 0 ∷ [];
  })
  discrete :
      (coupled : ℕ) (mapping : Bytes)
      → coupled ≤ 1
      → 0 < length mapping
      → length mapping < 256
      → All (λ channel. (channel ≡ 255) ⊎ (channel < 1 + coupled)) mapping
      → IsMapping (record {
        family = 255;
        channel_count = length mapping;
        stream_count = 1;
        coupled_count = coupled;
        mapping = mapping;
      })
