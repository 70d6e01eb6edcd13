-- ===== src/Mpegts/Writer/Pes.antt =====
-- mpegts/writer.go, `writePES`: the concatenation of the segments, cut into packets.
pub mod Copy
pub mod Carried
pub mod Loop
use format.Prelude.{
  ℕ, zero, suc, ◌+◌, ◌-◌, Bool, true, false, ◌&&◌, ◌||◌, List, [], ◌∷◌, ◌++◌, leb, ltb, ◌==◌,
  if◌then◌else◌, Bytes, length, take, drop, concat, Result, ok, err,
}
use format.Mpegts.Packet.{marshal_header, packet_size}
use format.Mpegts.Adaptation.{AdaptationField, encoded_len, marshal_field}
use format.Mpegts.Writer.{Writer, next_cc, plain_header, emit}
use format.Mpegts.Errors.{Error}

-- The inner loop: `room` bytes are free, and the segments are what `segs[segIdx][segOff:]` and those
-- behind it still hold. It returns what is copied, and the segments that are left.
unfoldable pub copy_segs : ℕ → List Bytes → Bytes × List Bytes
copy_segs zero segs = ([], segs)
copy_segs (suc room) [] = ([], [])
copy_segs (suc room) (s ∷ ss) =
    let whole = copy_segs (suc room - length s) ss in
    if leb (length s) (suc room)
    then (s ++ whole.0, whole.1)
    else (take (suc room) s, drop (suc room) s ∷ ss)

-- What a call of `writePES` is given: the PID, the random access flag, and the clock.
pub record PesJob : Type 0 where
  pub pid : ℕ
  pub rai : Bool
  pub with_pcr : Bool
  pub pcr : ℕ

abbrev pub field_of : PesJob → Bool → AdaptationField
field_of j first = record {
  discontinuity = false;
  random_access = j.rai && first;
  has_pcr = j.with_pcr && first;
  pcr = j.pcr;
}

abbrev pub min_af : AdaptationField → ℕ
min_af af = if af.random_access || af.has_pcr then encoded_len af else 0

-- `afTotal`
abbrev pub af_total : AdaptationField → ℕ → ℕ
af_total af remaining =
    if ltb remaining (packet_size - 4 - min_af af) then packet_size - 4 - remaining else min_af af

-- One round: the packet, and the segments that are left.
unfoldable pub pes_packet : PesJob → Bool → ℕ → ℕ → List Bytes → Bytes × List Bytes
unfolding copy_segs
pes_packet j first counter remaining segs =
    let af = field_of j first in
    let total = af_total af remaining in
    let header = marshal_header (plain_header j.pid first counter (ltb 0 total)) in
    let field = if ltb 0 total then marshal_field af total else [] in
    let (copied, left) = copy_segs (packet_size - 4 - total) segs in
    (header ++ (field ++ copied), left)

-- The loop `for first || remaining > 0`. Every round but an empty first one copies a byte at least, so
-- that `remaining + 1` rounds are enough.
unfoldable pub pes_loop : ℕ → PesJob → Bool → List Bytes → Writer → Result Error (Unit {0}) × Writer
unfolding pes_packet next_cc
pes_loop zero j first segs w = (ok tt, w)
pes_loop (suc fuel) j first segs w =
    let remaining = length (concat segs) in
    let (counter, w') = next_cc w j.pid in
    let (pkt, left) = pes_packet j first counter remaining segs in
    let (r, w'') = emit w' pkt in
    elim (first || ltb 0 remaining) [
      | true ↦ elim r [ ok u ↦ pes_loop fuel j false left w'' | err e ↦ (err e, w'') ]
      | false ↦ (ok tt, w)
    ]

unfoldable pub write_pes : PesJob → List Bytes → Writer → Result Error (Unit {0}) × Writer
unfolding pes_loop
write_pes j segs w = pes_loop (length (concat segs) + 1) j true segs w
