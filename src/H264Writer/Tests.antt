-- ===== src/H264Writer/Tests.antt =====
-- The theorem on the test for key frames at a concrete input.
use format.Prelude.{◌%◌, ◌≡◌, ◌≤◌, ◌↔◌, ◌⊎◌, arith, true, [], ◌∷◌, Bytes, length}
use format.Prelude.Words.{byte_at}
use format.H264Writer.{is_key_frame}
use format.H264Writer.KeyFrame.{is_key_frame_iff}

abbrev stap_a : Bytes
stap_a = 0x78 ∷ 0 ∷ 2 ∷ 0x67 ∷ 1 ∷ []

is_key_frame_iff_example : (is_key_frame stap_a ≡ true) ↔ (
    (4 ≤ length stap_a)
    × ((byte_at stap_a 0 % 32 ≡ 7) ⊎ ((byte_at stap_a 0 % 32 ≡ 24) × (byte_at stap_a 3 % 32 ≡ 7))))
is_key_frame_iff_example =
    is_key_frame_iff stap_a
      (omega arith, (omega arith, (omega arith, (omega arith, (omega arith, tt)))))
