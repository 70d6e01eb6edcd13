-- ===== src/Mpegts/Nal.antt =====
-- mpegts/h26x.go: the NAL units of one access unit.
use format.Prelude.{
  ℕ, zero, suc, ◌+◌, ◌-◌, Bool, true, false, ◌&&◌, Option, none, some, [], ◌∷◌, bit_and, leb, ltb,
  ◌==◌, if◌then◌else◌, Bytes, length, take, drop,
}
use format.Prelude.Words.{byte_at, shr}

-- `bytes.Index(buf, nalStartCode3)`; `none` is -1.
unfoldable pub index_start_code : Bytes → Option ℕ
index_start_code [] = none
index_start_code (b ∷ bs) =
    let later = index_start_code bs in
    if b == 0 && (byte_at bs 0 == 0 && (byte_at bs 1 == 1 && leb 2 (length bs)))
    then some 0
    else elim later [ none ↦ none | some i ↦ some (i + 1) ]

-- The loop of `forEachNAL` behind a start code; `rest` is `annexB[start:]`. The callback is a
-- function on its own state, which also says whether to go on. Fuel: every round but the last
-- takes three bytes at least, so that `length rest + 1` rounds are enough.
module _ {ℓ} {S : Type ℓ} (fn : S → Bytes → S × Bool) where
  pub visit : ℕ → Bytes → S → S
  visit zero rest s = s
  visit (suc fuel) rest s = elim (index_start_code rest) [
    | none ↦ if ltb 0 (length rest) then (fn s rest).0 else s
    | some rel ↦
        let end = if ltb 0 rel && byte_at rest (rel - 1) == 0 then rel - 1 else rel in
        let called = fn s (take end rest) in
        let next = drop (rel + 3) rest in
        elim (ltb 0 end) [
          | true ↦ elim called.1 [ true ↦ visit fuel next called.0 | false ↦ called.0 ]
          | false ↦ visit fuel next s
        ]
  ]

  unfoldable pub for_each_nal : Bytes → S → S
  unfolding visit
  for_each_nal annex_b s = elim (index_start_code annex_b) [
    | none ↦ s
    | some idx ↦ visit (suc (length annex_b)) (drop (idx + 3) annex_b) s
  ]

abbrev pub h264_nal_type : Bytes → ℕ
h264_nal_type nal = bit_and (byte_at nal 0) 0x1F

abbrev pub h265_nal_type : Bytes → ℕ
h265_nal_type nal = bit_and (shr (byte_at nal 0) 1) 0x3F

unfoldable pub first_nal_type : Bytes → (Bytes → ℕ) → ℕ
unfolding for_each_nal
first_nal_type au type_of = for_each_nal (λ result nal. (type_of nal, false)) au 0xFF

unfoldable pub h264_starts_with_aud : Bytes → Bool
unfolding first_nal_type
h264_starts_with_aud au = first_nal_type au h264_nal_type == 9

unfoldable pub h265_starts_with_aud : Bytes → Bool
unfolding first_nal_type
h265_starts_with_aud au = first_nal_type au h265_nal_type == 35

-- The callback that stops at the first NAL unit that passes a test.
abbrev pub stop_at : (Bytes → Bool) → Bool → Bytes → Bool × Bool
stop_at test found nal = if test nal then (true, false) else (found, true)

unfoldable pub h264_is_random_access : Bytes → Bool
unfolding for_each_nal
h264_is_random_access au = for_each_nal (stop_at (λ nal. h264_nal_type nal == 5)) au false

unfoldable pub h265_is_random_access : Bytes → Bool
unfolding for_each_nal
h265_is_random_access au =
    for_each_nal (stop_at (λ nal. leb 16 (h265_nal_type nal) && leb (h265_nal_type nal) 23)) au
      false

abbrev pub aud_h264 : Bytes
aud_h264 = 0x00 ∷ 0x00 ∷ 0x00 ∷ 0x01 ∷ 0x09 ∷ 0xF0 ∷ []

abbrev pub aud_h265 : Bytes
aud_h265 = 0x00 ∷ 0x00 ∷ 0x00 ∷ 0x01 ∷ 0x46 ∷ 0x01 ∷ 0x50 ∷ []
