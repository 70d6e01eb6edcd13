-- ===== src/Mpegts/RoundTrip.antt =====
-- What a Writer puts on the wire, as a Reader takes it.
pub mod Psi
pub mod Unit
pub mod Sequence
