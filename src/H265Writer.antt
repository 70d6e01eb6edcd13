-- ===== src/H265Writer.antt =====
-- h265writer/h265writer.go: which packets are key frames, and the writer with this test.
pub mod KeyFrame
pub mod Tests
use format.Prelude.{
  ℕ, zero, suc, ◌+◌, bit_and, Bool, true, false, ◌&&◌, ◌||◌, ltb, leb, ◌==◌, if◌then◌else◌, Bytes,
  length, Result,
}
use format.Prelude.Words.{byte_at, shr}
use format.Prelude.Io.{be_16}
use format.NalWriter.{Error, Depacketizer, W}
use format.NalWriter

abbrev pub type_ap : ℕ
type_ap = 48

abbrev pub type_fu : ℕ
type_fu = 49

-- The types of h265reader: VPS, SPS, PPS, IDR_W_RADL and IDR_N_LP.
abbrev pub is_key_frame_nalu : ℕ → Bool
is_key_frame_nalu t = t == 32 || (t == 33 || (t == 34 || (t == 19 || t == 20)))

-- `(data[i] & 0x7E) >> 1`
abbrev pub nalu_type_at : Bytes → ℕ → ℕ
nalu_type_at bytes i = shr (bit_and (byte_at bytes i) 0x7E) 1

-- The loop of `checkAggregationPacketForKeyFrame` from an offset on, on fuel.
unfoldable pub scan : ℕ → Bytes → ℕ → Bool
scan zero bytes offset = false
scan (suc fuel) bytes offset =
    let nalu_size = be_16 (byte_at bytes offset) (byte_at bytes (offset + 1)) in
    let start = offset + 2 in
    let later = scan fuel bytes (start + nalu_size) in
    if leb (length bytes) offset
    then false
    else if ltb (length bytes) start
    then false
    else if ltb (length bytes) (start + nalu_size)
    then false
    else if ltb 0 nalu_size && is_key_frame_nalu (nalu_type_at bytes start)
    then true
    else later

-- Each round takes at least the two bytes of a size.
unfoldable pub check_aggregation_packet_for_key_frame : Bytes → Bool
check_aggregation_packet_for_key_frame bytes = scan (suc (length bytes)) bytes 2

unfoldable pub is_key_frame : Bytes → Bool
is_key_frame bytes =
    let nalu_type = nalu_type_at bytes 0 in
    if ltb (length bytes) 2
    then false
    else if is_key_frame_nalu nalu_type
    then true
    else if nalu_type == type_ap
    then check_aggregation_packet_for_key_frame bytes
    else if nalu_type == type_fu
    then (if ltb (length bytes) 3 || bit_and (byte_at bytes 2) 0x80 == 0
        then false
        else is_key_frame_nalu (bit_and (byte_at bytes 2) 0x3F))
    else false

-- `WriteRTP`
abbrev pub write_rtp : (d : Depacketizer) → W d → Bytes → Result Error (Unit {0}) × W d
write_rtp d = NalWriter.write_rtp d is_key_frame
