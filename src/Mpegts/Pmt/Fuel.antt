-- ===== src/Mpegts/Pmt/Fuel.antt =====
-- mpegts/pmt.go: the fuel of the loop of `parsePMT`.
use format.Prelude.{
  ℕ, zero, suc, ◌+◌, ◌≤◌, ◌≡◌, ◌≢◌, refl, arith, Bool, true, false, List, [], ◌∷◌, Bytes, length,
  drop, length-drop, Result, ok, err, ltb, ◌>>=◌, reject_if,
}
use format.Mpegts.Errors.{Error, out_of_fuel, pmt_truncated}
use format.Mpegts.Pmt.{PmtStream, pmt_streams, length_at, pid_at}

-- A round that goes well up to its rest gives up only where the rest does.
round_ends :
    (short cut : Bool) (s : PmtStream) (later : Result Error (List PmtStream))
    → later ≢ err out_of_fuel
    → (reject_if short pmt_truncated >>= λ u.
        reject_if cut pmt_truncated >>= λ v. later >>= λ ss. ok (s ∷ ss))
      ≢ err out_of_fuel
round_ends true cut s later ends e = cc e
round_ends false true s later ends e = cc e
round_ends false false s (ok ss) ends e = cc e
round_ends false false s (err x) ends e = ends e

-- The loop over the streams of a table ends within as many rounds as the table has bytes: it never gives
-- up for want of rounds, and any number of rounds from there on gives the same result, errors
-- included.
pub pmt_streams_fuel :
    (buf : Bytes) (n m : ℕ)
    → length buf ≤ n
    → length buf ≤ m
    → (pmt_streams n buf ≢ err out_of_fuel) × (pmt_streams n buf ≡ pmt_streams m buf)
unfolding pmt_streams
pmt_streams_fuel [] zero zero h g = (λ e. cc e, refl)
pmt_streams_fuel [] zero (suc m) h g = (λ e. cc e, refl)
pmt_streams_fuel [] (suc n) zero h g = (λ e. cc e, refl)
pmt_streams_fuel [] (suc n) (suc m) h g = (λ e. cc e, refl)
pmt_streams_fuel (b ∷ buf) zero m h g = absurd (omega arith)
pmt_streams_fuel (b ∷ buf) (suc n) zero h g = absurd (omega arith)
pmt_streams_fuel (b ∷ buf) (suc n) (suc m) h g =
    let es : ℕ = length_at (b ∷ buf) 3 in
    let shorter : length (drop (5 + es) (b ∷ buf)) ≤ length buf =
      omega (arith, length-drop (5 + es) (b ∷ buf)) in
    let (ends, same) = pmt_streams_fuel (drop (5 + es) (b ∷ buf)) n m (omega arith) (omega arith) in
    (
      round_ends (ltb (length (b ∷ buf)) 5) (ltb (length (b ∷ buf)) (5 + es))
          (record { stream_type = b; pid = pid_at (b ∷ buf) 1 }) _ ends,
      rw same refl,
    )
