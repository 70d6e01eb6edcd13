-- ===== src/Ogg/Samples/Table.antt =====
-- oggwriter/oggwriter.go: the sample count of a packet against the tables of RFC 6716.
use format.Prelude.{
  ℕ, zero, suc, ◌+◌, ◌*◌, ◌/◌, ◌%◌, ◌≤◌, ◌<◌, ◌≡◌, ◌↔◌, refl, arith, Bool, true, false, [], ◌∷◌,
  ltb, ◌==◌, if◌then◌else◌, Bytes, length, get_or, Result, ok, err, reject_if, ◌>>=◌, ◌>>◌, ◌⊎◌,
  inl, inr, le→ltb, bit,
}
use format.Prelude.Words.{byte_at, IsBytes, and_03, and_3f}
use format.Prelude.Bits.{agree_below, agree_below→eq}
use native.Mathlib.Nat.{mul-suc}
use format.Ogg.Errors.{Error, invalid_opus_packet}
use format.Ogg.Samples.{opus_packet_frame_count, opus_samples_per_frame, opus_packet_sample_count}

-- The samples of a frame at 48 kHz, by the configuration in the upper five bits: frames of 10, 20, 40
-- and 60 ms for each band of SILK, of 10 and 20 ms for the two hybrid ones, and of 2.5, 5, 10 and 20
-- ms for the four of CELT.
abbrev pub frame_samples : ℕ → ℕ
frame_samples config =
    get_or
      (480 ∷ 960 ∷ 1920 ∷ 2880 ∷ 480 ∷ 960 ∷ 1920 ∷ 2880 ∷ 480 ∷ 960 ∷ 1920 ∷ 2880 ∷ 480 ∷ 960 ∷ 480
        ∷ 960 ∷ 120 ∷ 240 ∷ 480 ∷ 960 ∷ 120 ∷ 240 ∷ 480 ∷ 960 ∷ 120 ∷ 240 ∷ 480 ∷ 960 ∷ 120 ∷ 240
        ∷ 480 ∷ 960 ∷ [])
      config 0

samples-table : (toc : ℕ) → toc < 256 → opus_samples_per_frame toc ≡ frame_samples (toc / 8)
unfolding agree_below
samples-table = agree_below→eq _ _ 256 refl

-- The frames of a packet, by the lower two bits: one, two, or as many as the second byte says.
abbrev pub frames : Bytes → ℕ
frames [] = 0
frames (toc ∷ []) = get_or (1 ∷ 2 ∷ 2 ∷ 0 ∷ []) (toc % 4) 0
frames (toc ∷ b ∷ rest) = get_or (1 ∷ 2 ∷ 2 ∷ (b % 64) ∷ []) (toc % 4) 0

-- The duration of a packet in samples.
abbrev pub duration : Bytes → ℕ
duration payload = frame_samples (byte_at payload 0 / 8) * frames payload

count_or_error : ℕ → Result Error ℕ
count_or_error n = if n == 0 then err invalid_opus_packet else ok n

code_is : (m : ℕ) → m < 4 → (m ≡ 0) ⊎ ((m ≡ 1) ⊎ ((m ≡ 2) ⊎ (m ≡ 3)))
code_is m h = ground arith

reject_or_ok :
    (c : Bool) (n : ℕ)
    → (reject_if c invalid_opus_packet >> ok n) ≡ (if c then err invalid_opus_packet else ok n)
reject_or_ok true n = refl
reject_or_ok false n = refl

frame_count_lem :
    (payload : Bytes)
    → 0 < length payload
    → opus_packet_frame_count payload ≡ count_or_error (frames payload)
unfolding count_or_error
frame_count_lem [] h = absurd (omega arith)
frame_count_lem (toc ∷ []) h = rw (and_03 toc) (elim (code_is (toc % 4) (omega arith)) [
  | inl e ↦ rw e refl
  | inr (inl e) ↦ rw e refl
  | inr (inr (inl e)) ↦ rw e refl
  | inr (inr (inr e)) ↦ rw e refl
])
frame_count_lem (toc ∷ b ∷ rest) h =
    let two : ltb (length (toc ∷ b ∷ rest)) 2 ≡ false = le→ltb _ 2 (omega arith) in
    rw (and_03 toc, and_3f b)
      (elim (code_is (toc % 4) (omega arith)) [
        | inl e ↦ rw e refl
        | inr (inl e) ↦ rw e refl
        | inr (inr (inl e)) ↦ rw e refl
        | inr (inr (inr e)) ↦ rw (e, two) (reject_or_ok (b % 64 == 0) (b % 64))
      ])

frame_samples_pos : (config : ℕ) → config < 32 → 0 < frame_samples config
unfolding agree_below
frame_samples_pos config h =
    let some : bit (ltb 0 (frame_samples config)) 1 ≡ 1 =
      agree_below→eq (λ c. bit (ltb 0 (frame_samples c)) 1) (λ c. 1) 32 refl config h in
    ground arith

count_iff :
    (samples k n : ℕ)
    → 0 < samples
    → ((count_or_error k >>= λ count.
          reject_if (ltb 5760 (samples * count)) invalid_opus_packet >> ok (samples * count))
        ≡ ok n)
      ↔ ((samples * k ≡ n) × (0 < n) × (n ≤ 5760))
unfolding count_or_error
count_iff samples zero n h = ground arith
count_iff samples (suc k) n h =
    let more : samples * suc k ≡ samples * k + samples = mul-suc samples k in ground arith

-- A packet of bytes that is counted has the duration that RFC 6716 gives it, more than nothing and at most 120 ms;
-- any other packet is refused.
pub opus_packet_sample_count_iff :
    (payload : Bytes) (n : ℕ)
    → IsBytes payload
    → (opus_packet_sample_count payload ≡ ok n) ↔ ((duration payload ≡ n) × (0 < n) × (n ≤ 5760))
unfolding opus_packet_sample_count
opus_packet_sample_count_iff [] n h = ground arith
opus_packet_sample_count_iff (toc ∷ rest) n h =
    let some : (suc (length rest) == 0) ≡ false = ground arith in
    rw (samples-table toc h.0, some, frame_count_lem (toc ∷ rest) (omega arith))
      (count_iff (frame_samples (toc / 8)) (frames (toc ∷ rest)) n
        (frame_samples_pos (toc / 8) (omega (arith, h.0))))
