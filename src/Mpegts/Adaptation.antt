-- ===== src/Mpegts/Adaptation.antt =====
-- mpegts/adaptation.go: the adaptation field of a packet.
pub mod RoundTrip
use format.Prelude.{
  ℕ, zero, suc, ◌+◌, ◌-◌, ◌*◌, ◌/◌, ◌%◌, ◌^◌, Bool, true, false, List, [], ◌∷◌, ◌++◌, bit_and,
  bit_or, not, ◌&&◌, ltb, ◌==◌, if◌then◌else◌, Bytes, length, replicate, Result, ok, err, ◌>>=◌,
  ◌>>◌, reject_if,
}
use format.Prelude.Words.{byte_at, byte, shl, shr}
use format.Mpegts.Packet.{has_bit, or_if}
use format.Mpegts.Errors.{Error, adaptation_truncated, adaptation_too_long}

pub record AdaptationField : Type 0 where
  pub discontinuity : Bool
  pub random_access : Bool
  pub has_pcr : Bool
  pub pcr : ℕ

abbrev pub no_field : AdaptationField
no_field = record { discontinuity = false; random_access = false; has_pcr = false; pcr = 0 }

-- The PCR in the six bytes from `buf[2]` on: 33 bits of base, 9 of extension.
abbrev pub pcr_at : Bytes → ℕ
pcr_at buf =
    let base =
      bit_or
        (bit_or
          (bit_or (bit_or (shl 64 (byte_at buf 2) 25) (shl 64 (byte_at buf 3) 17))
            (shl 64 (byte_at buf 4) 9))
          (shl 64 (byte_at buf 5) 1))
        (shr (byte_at buf 6) 7) in
    let ext = bit_or (shl 64 (bit_and (byte_at buf 6) 0x01) 8) (byte_at buf 7) in
    (base * 300 + ext) % 2 ^ 64

-- The field, with the number of bytes that it takes.
unfoldable pub parse_adaptation_field : Bytes → Result Error (AdaptationField × ℕ)
parse_adaptation_field buf =
    let len = byte_at buf 0 in
    let flags = byte_at buf 1 in
    let plain : AdaptationField = record {
      discontinuity = has_bit flags 0x80;
      random_access = has_bit flags 0x40;
      has_pcr = false;
      pcr = 0;
    } in
    if ltb (length buf) 1
    then err adaptation_truncated
    else if ltb (length buf) (1 + len)
    then err adaptation_too_long
    else if len == 0
    then ok (no_field, 1)
    else if not (has_bit flags 0x10)
    then ok (plain, 1 + len)
    else if ltb len 7
    then err adaptation_truncated
    else ok (record plain { has_pcr = true; pcr = pcr_at buf }, 1 + len)

unfoldable pub encoded_len : AdaptationField → ℕ
encoded_len af = if af.has_pcr then 8 else 2

abbrev pub pcr_bytes : ℕ → Bytes
pcr_bytes pcr =
    let base = pcr / 300 in
    let ext = pcr % 300 in
    byte (shr base 25)
    ∷ byte (shr base 17)
    ∷ byte (shr base 9)
    ∷ byte (shr base 1)
    ∷ bit_or (bit_or (byte (shl 64 base 7)) 0x7E) (byte (shr ext 8))
    ∷ byte ext
    ∷ []

abbrev pub flags_of : AdaptationField → ℕ
flags_of af = or_if af.has_pcr (or_if af.random_access (or_if af.discontinuity 0 0x80) 0x40) 0x10

-- The `total` bytes that `marshalTo` writes: `total` is 1, or no less than `encoded_len`.
unfoldable pub marshal_field : AdaptationField → ℕ → Bytes
marshal_field af total =
    if total == 1
    then byte (total - 1) ∷ []
    else byte (total - 1)
      ∷ flags_of af
      ∷ (if af.has_pcr
          then pcr_bytes af.pcr ++ replicate (total - 8) 0xFF
          else replicate (total - 2) 0xFF)
