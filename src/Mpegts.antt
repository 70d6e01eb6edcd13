-- ===== src/Mpegts.antt =====
-- The package mpegts: what its files share, and a module for each file.
pub mod Errors
pub mod Crc
pub mod Psi
pub mod Pat
pub mod Pmt
pub mod Packet
pub mod Adaptation
pub mod Pes
pub mod Track
pub mod Nal
pub mod Writer
pub mod Payload
pub mod Reader
pub mod RoundTrip
pub mod Tests
