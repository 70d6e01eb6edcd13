-- ===== src/Mpegts/Psi/RoundTrip.antt =====
-- mpegts/psi.go: `marshal` and the parsers.
use format.Prelude.{
  ℕ, ◌+◌, ◌-◌, ◌^◌, ◌<◌, ◌≤◌, ◌≡◌, refl, sym, arith, [], ◌∷◌, ◌++◌, bit_and, bit_or, Bytes, length,
  length-append, take-append, append_assoc, slice-append, ok, err, lt→ltb, le→ltb, ==_iff,
}
use format.Prelude.Bits.{agree_below, agree_below→eq}
use format.Prelude.Words.{byte, shl, shr, or_32, or_32-byte, or_16-byte, bit_or_sum}
use format.Mpegts.Crc.{crc32_mpeg, crc32_mpeg-lt}
use format.Mpegts.Errors.{section_too_long}
use format.Mpegts.Psi.{
  PsiSection, section_length, marshal_header, marshal, parse_section_bytes, parse_psi_section,
}

-- The fields fit the bits that the format has for them.
pub record IsEncodable (s : PsiSection) : Type 0 where
  pub id_fits : s.table_id < 2 ^ 8
  pub extension_fits : s.table_id_extension < 2 ^ 16
  pub version_fits : s.version < 2 ^ 5

length_nibble : (n : ℕ) → n < 4 → bit_and (bit_or 0xB0 n) 0x0F ≡ n
unfolding agree_below
length_nibble = agree_below→eq _ _ 4 refl

version_bits : (v : ℕ) → v < 32 → bit_and (shr (bit_or 0xC1 (shl 8 v 1)) 1) 0x1F ≡ v
unfolding agree_below
version_bits = agree_below→eq _ _ 32 refl

section_length-marshal_header :
    (s : PsiSection) (len : ℕ) (rest : Bytes)
    → len < 1024
    → section_length (marshal_header s len ++ rest) ≡ len
section_length-marshal_header s len rest h =
    rw (length_nibble (byte (shr len 8)) (omega arith))
      (omega (arith, bit_or_sum 8 (shl 64 (byte (shr len 8)) 8) (byte len)))

parse_section_bytes-shape :
    (s : PsiSection) (c0 c1 c2 c3 : ℕ) (rest : Bytes)
    → IsEncodable s
    → 9 + length s.body ≤ 0x3FD
    → let front = marshal_header s (5 + length s.body + 4) ++ s.body in
      crc32_mpeg front ≡ or_32 c0 c1 c2 c3
      → parse_section_bytes (front ++ (c0 ∷ c1 ∷ c2 ∷ c3 ∷ rest)) ≡ ok s
unfolding parse_section_bytes
parse_section_bytes-shape s c0 c1 c2 c3 rest v h e =
    let len : ℕ = 5 + length s.body + 4 in
    let front : Bytes = marshal_header s len ++ s.body in
    let tail : Bytes = c0 ∷ c1 ∷ c2 ∷ c3 ∷ rest in
    let size : length (front ++ tail) ≡ 12 + length s.body + length rest =
      omega (arith, length-append s.body tail) in
    let announced : section_length (front ++ tail) ≡ len =
      section_length-marshal_header s len (s.body ++ tail) (omega arith) in
    rw
      (
        le→ltb (length (front ++ tail)) 8 (omega arith),
        announced,
        le→ltb len 9 (omega arith),
        le→ltb (length (front ++ tail)) (3 + len) (omega arith),
      )
      (rw
        (
          take-append (3 + len - 4) front tail (omega arith),
          slice-append front (c0 ∷ c1 ∷ c2 ∷ c3 ∷ []) rest (3 + len - 4) (3 + len) (omega arith)
              (omega arith),
        )
        (rw (
          e,
          (==_iff _ _).1 refl,
          or_16-byte s.table_id_extension v.extension_fits,
          version_bits s.version v.version_fits,
        )))

-- A section whose fields fit their widths and whose length is at most 0x3FD is written in its body's
-- length and 13 bytes, and is read back, checksum included, whatever bytes follow it in the payload.
pub parse_psi_section-marshal :
    (s : PsiSection) (rest : Bytes)
    → IsEncodable s
    → 9 + length s.body ≤ 0x3FD
    → (out : Bytes) × (marshal s ≡ ok out)
      × (length out ≡ 13 + length s.body)
      × (parse_psi_section (out ++ rest) ≡ ok s)
unfolding marshal parse_psi_section
parse_psi_section-marshal s rest v h =
    let front : Bytes = marshal_header s (5 + length s.body + 4) ++ s.body in
    let crc : ℕ = crc32_mpeg front in
    let tail : Bytes = byte (shr crc 24) ∷ byte (shr crc 16) ∷ byte (shr crc 8) ∷ byte crc ∷ [] in
    (
      0 ∷ (front ++ tail),
      rw (le→ltb 0x3FD (5 + length s.body + 4) (omega arith)),
      omega (arith, length-append s.body tail),
      rw (append_assoc s.body tail rest) (
          rw (le→ltb (length (0 ∷ (front ++ (tail ++ rest)))) 1 (omega arith)) (
            parse_section_bytes-shape s _ _ _ _ rest v h
              (sym (or_32-byte crc (crc32_mpeg-lt front))))),
    )

-- A section whose length would be above 0x3FD is refused with `errSectionTooLong`.
pub marshal_too_long :
    (s : PsiSection) → 0x3FD < 9 + length s.body → marshal s ≡ err section_too_long
unfolding marshal
marshal_too_long s h = rw (lt→ltb 0x3FD (5 + length s.body + 4) (omega arith))
