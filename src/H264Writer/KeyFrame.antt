-- ===== src/H264Writer/KeyFrame.antt =====
-- h264writer/h264writer.go: the test for key frames.
use format.Prelude.{ℕ, ◌%◌, ◌≤◌, ◌≡◌, ◌↔◌, ◌⊎◌, ◌∙◌, arith, bit_and, true, Bytes, length}
use format.Prelude.Words.{byte_at, shr, IsBytes, byte_at-IsByte, and_1f}
use format.Prelude.Io.{be_32}
use format.H264Writer.{is_key_frame}

-- Of the packets of bytes, exactly those are key frames that have four bytes at least and are a sequence
-- parameter set, or a STAP-A whose first unit is one.
pub is_key_frame_iff :
    (payload : Bytes)
    → IsBytes payload
    → (is_key_frame payload ≡ true) ↔ (
        (4 ≤ length payload)
        × ((byte_at payload 0 % 32 ≡ 7)
            ⊎ ((byte_at payload 0 % 32 ≡ 24) × (byte_at payload 3 % 32 ≡ 7))))
unfolding is_key_frame
is_key_frame_iff payload h =
    let at = byte_at payload in
    let word : ℕ = be_32 (at 0) (at 1) (at 2) (at 3) in
    let first : bit_and (shr word 24) 0x1F ≡ at 0 % 32 =
      and_1f (shr word 24)
      ∙ omega (
        arith,
        byte_at-IsByte payload 1 h,
        byte_at-IsByte payload 2 h,
        byte_at-IsByte payload 3 h,
      ) in
    let last : bit_and word 0x1F ≡ at 3 % 32 = and_1f word ∙ omega arith in
    rw (first, last) (ground arith)
