-- ===== src/Ogg.antt =====
-- oggwriter/ and oggreader/: Ogg files of Opus streams.
pub mod Page
pub mod Reader
pub mod Errors
pub mod Channels
pub mod OpusHead
pub mod OpusTags
pub mod Samples
pub mod Track
pub mod Single
pub mod Options
pub mod Multi
pub mod File
pub mod Tests
