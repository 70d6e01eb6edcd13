-- ===== src/Mpegts/Writer/Pes/Copy.antt =====
-- mpegts/writer.go: the copying loop of `writePES`.
use format.Prelude.{
  ℕ, zero, suc, ◌-◌, ◌≤◌, ◌≡◌, refl, sym, ap, arith, List, [], ◌∷◌, ◌++◌, leb, Bool-cases, inl, inr,
  leb→le, leb→lt, Bytes, length, take, drop, concat, take-append_le,
}
use format.Mpegts.Writer.Pes.{copy_segs}

take-append_ge :
    (n : ℕ) (xs ys : Bytes) → length xs ≤ n → take n (xs ++ ys) ≡ xs ++ take (n - length xs) ys
take-append_ge n [] ys h = let e : n - 0 ≡ n = omega arith in rw e
take-append_ge zero (x ∷ xs) ys h = absurd (omega arith)
take-append_ge (suc n) (x ∷ xs) ys h =
    let e : suc n - suc (length xs) ≡ n - length xs = omega arith in
    rw (e, take-append_ge n xs ys (omega arith))

drop-append_ge :
    (n : ℕ) (xs ys : Bytes) → length xs ≤ n → drop n (xs ++ ys) ≡ drop (n - length xs) ys
drop-append_ge n [] ys h = let e : n - 0 ≡ n = omega arith in rw e
drop-append_ge zero (x ∷ xs) ys h = absurd (omega arith)
drop-append_ge (suc n) (x ∷ xs) ys h =
    let e : suc n - suc (length xs) ≡ n - length xs = omega arith in
    rw (e, drop-append_ge n xs ys (omega arith))

pub drop-append_le : (n : ℕ) (xs ys : Bytes) → n ≤ length xs → drop n (xs ++ ys) ≡ drop n xs ++ ys
drop-append_le zero xs ys h = refl
drop-append_le (suc n) [] ys h = absurd (omega arith)
drop-append_le (suc n) (x ∷ xs) ys h = drop-append_le n xs ys (omega arith)

pub copy_segs_lem :
    (room : ℕ) (segs : List Bytes)
    → ((copy_segs room segs).0 ≡ take room (concat segs))
      × (concat (copy_segs room segs).1 ≡ drop room (concat segs))
unfolding copy_segs
copy_segs_lem zero segs = (refl, refl)
copy_segs_lem (suc room) [] = (refl, refl)
copy_segs_lem (suc room) (s ∷ ss) = elim (Bool-cases (leb (length s) (suc room))) [
  | inl fits ↦
      let h : length s ≤ suc room = leb→le _ _ fits in
      let ih = copy_segs_lem (suc room - length s) ss in
      rw fits (
        rw (take-append_ge (suc room) s (concat ss) h) (ap (◌++◌ s) ih.0),
        rw (drop-append_ge (suc room) s (concat ss) h) ih.1,
      )
  | inr over ↦
      let h : suc room ≤ length s = omega (arith, leb→lt _ _ over) in
      rw over (
        sym (take-append_le (suc room) s (concat ss) h),
        sym (drop-append_le (suc room) s (concat ss) h),
      )
]
