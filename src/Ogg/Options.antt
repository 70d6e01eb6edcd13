-- ===== src/Ogg/Options.antt =====
-- oggwriter/oggwriter.go: the options of a writer and of a track.
use format.Prelude.{ℕ, Bool, true, List, [], ◌∷◌, Bytes, Result, ok, ◌>>=◌}
use format.Ogg.Errors.{Error}
use format.Ogg.Channels.{ChannelMapping, default_channel_mapping, validate_channel_mapping}
use format.Ogg.OpusTags.{OpusTags, UserComment, apply_vendor, apply_user_comments}

-- `WithSampleRate`, `WithChannelCount`, `WithChannelMapping`, `WithVendor` and `WithUserComments`,
-- which configure both a writer and a track.
pub data SharedOption : Type 0 where
  sample_rate_option : ℕ → SharedOption
  channel_count_option : ℕ → SharedOption
  channel_map_option : (family stream_count coupled_count : ℕ) (mapping : Bytes) → SharedOption
  vendor_option : Bytes → SharedOption
  user_comments_option : List UserComment → SharedOption

-- `WithSeekableOutput`
pub data WriterOption : Type 0 where
  shared : SharedOption → WriterOption
  seekable_output : WriterOption

-- `WithSerial`
pub data TrackOption : Type 0 where
  shared : SharedOption → TrackOption
  with_serial : ℕ → TrackOption

pub record WriterConfig : Type 0 where
  pub sample_rate : ℕ
  pub channel_mapping : ChannelMapping
  pub page_rewriter : Bool
  pub opus_tags : OpusTags

-- `channelMappingSet` is only read by `newTrackConfig`, of a single track.
pub record TrackConfig : Type 0 where
  pub sample_rate : ℕ
  pub channel_mapping : ChannelMapping
  pub serial : ℕ
  pub serial_set : Bool
  pub opus_tags : OpusTags

-- `applyWriterConfig`
abbrev pub apply_writer_config : WriterOption → WriterConfig → Result Error WriterConfig
apply_writer_config (shared (sample_rate_option rate)) c = ok (record c { sample_rate = rate })
apply_writer_config (shared (channel_count_option n)) c = do
  mapping ← default_channel_mapping n
  ok (record c { channel_mapping = mapping })
apply_writer_config (shared (channel_map_option family streams coupled table)) c = do
  mapping ← validate_channel_mapping family streams coupled table
  ok (record c { channel_mapping = mapping })
apply_writer_config (shared (vendor_option vendor)) c = do
  tags ← apply_vendor c.opus_tags vendor
  ok (record c { opus_tags = tags })
apply_writer_config (shared (user_comments_option comments)) c = do
  tags ← apply_user_comments c.opus_tags comments
  ok (record c { opus_tags = tags })
apply_writer_config seekable_output c = ok (record c { page_rewriter = true })

-- `applyTrackConfig`
abbrev pub apply_track_config : TrackOption → TrackConfig → Result Error TrackConfig
apply_track_config (shared (sample_rate_option rate)) c = ok (record c { sample_rate = rate })
apply_track_config (shared (channel_count_option n)) c = do
  mapping ← default_channel_mapping n
  ok (record c { channel_mapping = mapping })
apply_track_config (shared (channel_map_option family streams coupled table)) c = do
  mapping ← validate_channel_mapping family streams coupled table
  ok (record c { channel_mapping = mapping })
apply_track_config (shared (vendor_option vendor)) c = do
  tags ← apply_vendor c.opus_tags vendor
  ok (record c { opus_tags = tags })
apply_track_config (shared (user_comments_option comments)) c = do
  tags ← apply_user_comments c.opus_tags comments
  ok (record c { opus_tags = tags })
apply_track_config (with_serial serial) c = ok (record c { serial = serial; serial_set = true })

-- The loops over the options.
abbrev pub apply_writer_options : List WriterOption → WriterConfig → Result Error WriterConfig
apply_writer_options [] c = ok c
apply_writer_options (o ∷ os) c = do c' ← apply_writer_config o c; apply_writer_options os c'

abbrev pub apply_track_options : List TrackOption → TrackConfig → Result Error TrackConfig
apply_track_options [] c = ok c
apply_track_options (o ∷ os) c = do c' ← apply_track_config o c; apply_track_options os c'
