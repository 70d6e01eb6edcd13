-- ===== src/H264Writer.antt =====
-- h264writer/h264writer.go: which packets are key frames, and the writer with this test.
pub mod KeyFrame
pub mod Tests
use format.Prelude.{
  ℕ, bit_and, Bool, true, false, ◌&&◌, ltb, ◌==◌, if◌then◌else◌, Bytes, length, Result,
}
use format.Prelude.Words.{byte_at, shr}
use format.Prelude.Io.{be_32}
use format.NalWriter.{Error, Depacketizer, W}
use format.NalWriter

-- `binary.Read` of a word fails below four bytes.
unfoldable pub is_key_frame : Bytes → Bool
is_key_frame payload =
    let at = byte_at payload in
    let word = be_32 (at 0) (at 1) (at 2) (at 3) in
    let nalu_type = bit_and (shr word 24) 0x1F in
    if ltb (length payload) 4
    then false
    else if nalu_type == 24 && bit_and word 0x1F == 7
    then true
    else nalu_type == 7

-- `WriteRTP`
abbrev pub write_rtp : (d : Depacketizer) → W d → Bytes → Result Error (Unit {0}) × W d
write_rtp d = NalWriter.write_rtp d is_key_frame
