-- ===== src/H265Writer/KeyFrame.antt =====
-- h265writer/h265writer.go: the test for key frames on an aggregation packet.
use format.Prelude.{
  ℕ, zero, suc, ◌+◌, ◌^◌, ◌≤◌, ◌<◌, ◌≡◌, refl, sym, ap, ◌∙◌, arith, bit_and, Bool, true, false,
  ◌&&◌, ◌||◌, List, [], ◌∷◌, ◌++◌, ltb, le→ltb, lt→ltb, lt→leb, le→leb, if◌then◌else◌, Bytes,
  length, All, get_or_behind, length-append, append_assoc,
}
use format.Prelude.Words.{byte_at, shr}
use format.Prelude.Io.{be_16, put_be_16}
use format.H265Writer.{
  is_key_frame_nalu, nalu_type_at, scan, check_aggregation_packet_for_key_frame, is_key_frame,
}

-- The units of an aggregation packet, each behind its size.
abbrev pub units : List Bytes → Bytes
units [] = []
units (u ∷ us) = put_be_16 (length u) ++ (u ++ units us)

-- A unit that makes a key frame, by the type in its first byte.
abbrev pub is_key_unit : Bytes → Bool
is_key_unit [] = false
is_key_unit (b ∷ u) = is_key_frame_nalu (shr (bit_and b 0x7E) 1)

abbrev pub any_key : List Bytes → Bool
any_key [] = false
any_key (u ∷ us) = is_key_unit u || any_key us

-- What is behind the last whole unit: nothing that could be another.
abbrev pub IsTail : Bytes → Type 0
IsTail [] = Unit {0}
IsTail (a ∷ []) = Unit {0}
IsTail (a ∷ b ∷ rest) = length rest < be_16 a b

scan_by :
    (fuel : ℕ) (bytes : Bytes) (offset n : ℕ)
    → be_16 (byte_at bytes offset) (byte_at bytes (offset + 1)) ≡ n
    → offset + 2 + n ≤ length bytes
    → scan (suc fuel) bytes offset ≡ (
        if ltb 0 n && is_key_frame_nalu (nalu_type_at bytes (offset + 2))
        then true
        else scan fuel bytes (offset + 2 + n))
unfolding scan
scan_by fuel bytes offset n size fits =
    rw
      (
        size,
        lt→leb (length bytes) offset (omega (arith, fits)),
        le→ltb (length bytes) (offset + 2) (omega (arith, fits)),
        le→ltb (length bytes) (offset + 2 + n) fits,
      )
      refl

scan-tail :
    (fuel : ℕ) (pre tail : Bytes) (offset : ℕ)
    → IsTail tail
    → offset ≡ length pre
    → scan fuel (pre ++ tail) offset ≡ false
unfolding scan
scan-tail zero pre tail offset h e = refl
scan-tail (suc fuel) pre [] offset h e =
    rw (le→leb (length (pre ++ [])) offset (omega (arith, e, length-append pre []))) refl
scan-tail (suc fuel) pre (a ∷ []) offset h e =
    let n : length (pre ++ a ∷ []) ≡ suc (length pre) = omega (arith, length-append pre (a ∷ [])) in
    rw
      (
        lt→leb (length (pre ++ a ∷ [])) offset (omega (arith, e, n)),
        lt→ltb (length (pre ++ a ∷ [])) (offset + 2) (omega (arith, e, n)),
      )
      refl
scan-tail (suc fuel) pre (a ∷ b ∷ rest) offset h e =
    let bytes : Bytes = pre ++ a ∷ b ∷ rest in
    let n : length bytes ≡ length pre + 2 + length rest =
      omega (arith, length-append pre (a ∷ b ∷ rest)) in
    rw
      (
        get_or_behind pre (a ∷ b ∷ rest) offset 0 0 (omega (arith, e)),
        get_or_behind pre (a ∷ b ∷ rest) (offset + 1) 1 0 (omega (arith, e)),
        lt→leb (length bytes) offset (omega (arith, e, n)),
        le→ltb (length bytes) (offset + 2) (omega (arith, e, n)),
        lt→ltb (length bytes) (offset + 2 + be_16 a b) (omega (arith, e, n, h)),
      )
      refl

unit_test :
    (pre u rest : Bytes) (at : ℕ)
    → at ≡ length pre
    → (ltb 0 (length u) && is_key_frame_nalu (nalu_type_at (pre ++ (u ++ rest)) at)) ≡ is_key_unit u
unit_test pre [] rest at h = refl
unit_test pre (b ∷ u) rest at h =
    let some : ltb 0 (suc (length u)) ≡ true = ground arith in
    rw (some, get_or_behind pre (b ∷ (u ++ rest)) at 0 0 (omega (arith, h))) refl

if_or : (a b : Bool) → (if a then true else b) ≡ (a || b)
if_or true b = refl
if_or false b = refl

scan-units :
    (us : List Bytes) (fuel : ℕ) (pre tail : Bytes) (offset : ℕ)
    → All (λ u. length u < 2 ^ 16) us
    → IsTail tail
    → offset ≡ length pre
    → length (units us ++ tail) < fuel
    → scan fuel (pre ++ (units us ++ tail)) offset ≡ any_key us
scan-units [] fuel pre tail offset small h e enough = scan-tail fuel pre tail offset h e
scan-units (u ∷ us) zero pre tail offset small h e enough = absurd (omega arith)
scan-units (u ∷ us) (suc fuel) pre tail offset small h e enough =
    let n : ℕ = length u in
    let later : Bytes = units us ++ tail in
    let size : Bytes = put_be_16 n in
    let bytes : Bytes = pre ++ (size ++ (u ++ later)) in
    let whole : pre ++ (units (u ∷ us) ++ tail) ≡ bytes =
      ap (λ l. pre ++ (size ++ l)) (append_assoc u (units us) tail) in
    let total : length bytes ≡ length pre + (2 + (n + length later)) =
      omega (arith, length-append pre (size ++ (u ++ later)), length-append u later) in
    let used : length (units (u ∷ us) ++ tail) ≡ 2 + (n + length later) =
      omega (arith, ap length whole, total, length-append pre (units (u ∷ us) ++ tail)) in
    let size_is : be_16 (byte_at bytes offset) (byte_at bytes (offset + 1)) ≡ n =
      rw
        (
          get_or_behind pre (size ++ (u ++ later)) offset 0 0 (omega (arith, e)),
          get_or_behind pre (size ++ (u ++ later)) (offset + 1) 1 0 (omega (arith, e)),
        )
        (omega (arith, small.0)) in
    let behind_size : (pre ++ size) ++ (u ++ later) ≡ bytes = append_assoc pre size (u ++ later) in
    let behind : (pre ++ (size ++ u)) ++ later ≡ bytes = append_assoc pre (size ++ u) later in
    let test : (ltb 0 n && is_key_frame_nalu (nalu_type_at bytes (offset + 2))) ≡ is_key_unit u =
      ap (λ b. ltb 0 n && is_key_frame_nalu (nalu_type_at b (offset + 2))) (sym behind_size)
      ∙ unit_test (pre ++ size) u later (offset + 2) (omega (arith, e, length-append pre size)) in
    let rest : scan fuel ((pre ++ (size ++ u)) ++ later) (offset + 2 + n) ≡ any_key us =
      scan-units us fuel (pre ++ (size ++ u)) tail (offset + 2 + n) small.1 h
        (omega (arith, e, length-append pre (size ++ u))) (omega (arith, enough, used)) in
    ap (λ b. scan (suc fuel) b offset) whole
    ∙ (scan_by fuel bytes offset n size_is (omega (arith, total, e))
        ∙ (ap (λ b. if b then true else scan fuel bytes (offset + 2 + n)) test
            ∙ (if_or (is_key_unit u) (scan fuel bytes (offset + 2 + n))
                ∙ ap (λ b. is_key_unit u || b)
                    (ap (λ l. scan fuel l (offset + 2 + n)) (sym behind) ∙ rest))))

-- An aggregation packet, of any units below 65536 bytes and any tail that is no whole unit, is a key frame
-- where one of its units is a parameter set or an IDR picture, wherever it stands; the loop looks
-- at all of them.
pub is_key_frame-units :
    (a b : ℕ) (us : List Bytes) (tail : Bytes)
    → shr (bit_and a 0x7E) 1 ≡ 48
    → All (λ u. length u < 2 ^ 16) us
    → IsTail tail
    → is_key_frame (a ∷ b ∷ (units us ++ tail)) ≡ any_key us
unfolding is_key_frame check_aggregation_packet_for_key_frame
is_key_frame-units a b us tail kind small h =
    let two : ltb (length (a ∷ b ∷ (units us ++ tail))) 2 ≡ false = le→ltb _ 2 (omega arith) in
    rw (two, kind)
      (scan-units us (suc (length (a ∷ b ∷ (units us ++ tail)))) (a ∷ b ∷ []) tail 2 small h refl
        (omega arith))
