-- ===== src/Mpegts/Crc.antt =====
-- mpegts/crc32.go: CRC-32/MPEG-2 by a table of 256 words.
use format.Prelude.{
  ℕ, zero, suc, ◌^◌, ◌<◌, bit_and, bit_xor, arith, not, [], ◌∷◌, Bytes, ◌==◌, if◌then◌else◌,
}
use format.Prelude.Bits.{bit_xor-lt}
use format.Prelude.Words.{shl, shr, byte}

-- One round of the inner loop that fills the table.
abbrev pub crc_round : ℕ → ℕ
crc_round crc =
    if not (bit_and crc 0x80000000 == 0) then bit_xor (shl 32 crc 1) 0x04C11DB7 else shl 32 crc 1

-- `for range n`
unfoldable pub crc_rounds : ℕ → ℕ → ℕ
crc_rounds zero crc = crc
crc_rounds (suc n) crc = crc_rounds n (crc_round crc)

-- The entry at `i`; the array is filled by its index.
crc32_table : ℕ → ℕ
unfolding crc_rounds
crc32_table i = crc_rounds 8 (shl 32 i 24)

crc_byte : ℕ → ℕ → ℕ
unfolding crc32_table
crc_byte crc b = bit_xor (shl 32 crc 8) (crc32_table (bit_xor (byte (shr crc 24)) b))

crc_bytes : ℕ → Bytes → ℕ
unfolding crc_byte
crc_bytes crc [] = crc
crc_bytes crc (b ∷ bs) = crc_bytes (crc_byte crc b) bs

unfoldable pub crc32_mpeg : Bytes → ℕ
unfolding crc_bytes
crc32_mpeg bs = crc_bytes 0xFFFFFFFF bs

crc_round-lt : (crc : ℕ) → crc_round crc < 2 ^ 32
crc_round-lt crc = ground (arith, bit_xor-lt 32 (shl 32 crc 1) 0x04C11DB7)

pub crc_rounds-lt : (n crc : ℕ) → crc < 2 ^ 32 → crc_rounds n crc < 2 ^ 32
unfolding crc_rounds
crc_rounds-lt zero crc h = h
crc_rounds-lt (suc n) crc h = crc_rounds-lt n (crc_round crc) (crc_round-lt crc)

crc32_table-lt : (i : ℕ) → crc32_table i < 2 ^ 32
unfolding crc32_table
crc32_table-lt i = crc_rounds-lt 8 (shl 32 i 24) (omega arith)

crc_bytes-lt : (bs : Bytes) (crc : ℕ) → crc < 2 ^ 32 → crc_bytes crc bs < 2 ^ 32
unfolding crc_bytes
crc_bytes-lt [] crc h = h
crc_bytes-lt (b ∷ bs) crc h =
    crc_bytes-lt bs (crc_byte crc b)
      (unfold crc_byte in bit_xor-lt 32 _ _ (omega arith) (crc32_table-lt _))

-- The checksum is a 32-bit word.
pub crc32_mpeg-lt : (bs : Bytes) → crc32_mpeg bs < 2 ^ 32
unfolding crc32_mpeg
crc32_mpeg-lt bs = crc_bytes-lt bs 0xFFFFFFFF (omega arith)
