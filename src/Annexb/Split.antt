-- ===== src/Annexb/Split.antt =====
-- internal/annexb/reader.go: one unit of a stream, up to the start code behind it.
use format.Prelude.{
  ℕ, zero, suc, ◌-◌, ◌<◌, ◌≡◌, sym, ap, ◌∙◌, arith, Bool, true, false, not, ◌&&◌, ◌||◌, [], ◌∷◌,
  ◌++◌, leb, ◌==◌, if◌then◌else◌, lt→ltb, append_assoc, append-nil, Bytes, length, take,
  take-append, length-append, Result, ok, err,
}
use format.Prelude.Words.{byte_at}
use format.Prelude.Io.{eof, Source}
use format.Annexb.{Error, stream, Reader, scan, next_unit}

-- No three bytes in a row are a start code.
unfoldable pub start_free : Bytes → Bool
start_free [] = true
start_free (b ∷ bs) = not (b == 0 && (byte_at bs 0 == 0 && byte_at bs 1 == 1)) && start_free bs

unfoldable pub last_nonzero : Bytes → Bool
last_nonzero [] = false
last_nonzero (b ∷ []) = not (b == 0)
last_nonzero (b ∷ c ∷ bs) = last_nonzero (c ∷ bs)

-- What the format asks of a unit: no start code inside, and no zero at its end.
abbrev pub IsUnit : Bytes → Type 0
IsUnit nal = (start_free nal ≡ true) × (last_nonzero nal ≡ true)

-- The loop, by the number of zeros in front, meets no start code.
abbrev Clean : ℕ → Bytes → Type 0
Clean z [] = Unit {0}
Clean z (b ∷ bs) = ((b == 1 && leb 2 z) ≡ false) × Clean (if b == 0 then suc z else 0) bs

zeros_after : ℕ → Bytes → ℕ
zeros_after z [] = z
zeros_after z (b ∷ bs) = zeros_after (if b == 0 then suc z else 0) bs

abbrev padded : ℕ → Bytes → Bytes
padded zero bs = bs
padded (suc zero) bs = 0 ∷ bs
padded (suc (suc z)) bs = 0 ∷ 0 ∷ bs

clean_step :
    (z b : ℕ) (bs : Bytes)
    → start_free (padded z (b ∷ bs)) ≡ true
    → ((b == 1 && leb 2 z) ≡ false) × (start_free (padded (if b == 0 then suc z else 0) bs) ≡ true)
unfolding start_free
clean_step zero b bs h = ground arith
clean_step (suc zero) b bs h = ground arith
clean_step (suc (suc z)) b bs h = ground arith

start_free-Clean : (z : ℕ) (bs : Bytes) → start_free (padded z bs) ≡ true → Clean z bs
start_free-Clean z [] h = tt
start_free-Clean z (b ∷ bs) h =
    let (here, later) = clean_step z b bs h in
    (here, start_free-Clean (if b == 0 then suc z else 0) bs later)

scan-Clean :
    (nal rest unit : Bytes) (z : ℕ)
    → Clean z nal
    → scan (nal ++ rest) unit z ≡ scan rest (unit ++ nal) (zeros_after z nal)
unfolding scan zeros_after
scan-Clean [] rest unit z h = ap (λ (u : Bytes). scan rest u z) (sym (append-nil unit))
scan-Clean (b ∷ nal) rest unit z (here, later) =
    let z' : ℕ = if b == 0 then suc z else 0 in
    rw (here, scan)
      (scan-Clean nal rest (unit ++ (b ∷ [])) z' later
        ∙ ap (λ (u : Bytes). scan rest u (zeros_after z' nal)) (append_assoc unit (b ∷ []) nal))

zeros_after-last : (z : ℕ) (nal : Bytes) → last_nonzero nal ≡ true → zeros_after z nal ≡ 0
unfolding zeros_after last_nonzero
zeros_after-last z [] h = cc
zeros_after-last z (b ∷ []) h = ground arith
zeros_after-last z (b ∷ c ∷ nal) h = zeros_after-last (if b == 0 then suc z else 0) (c ∷ nal) h

pub last_nonzero-nonempty : (nal : Bytes) → last_nonzero nal ≡ true → 0 < length nal
unfolding last_nonzero
last_nonzero-nonempty [] h = cc
last_nonzero-nonempty (b ∷ nal) h = omega arith

-- Both start codes.
abbrev pub start_code : Bool → Bytes
start_code true = 0 ∷ 0 ∷ 0 ∷ 1 ∷ []
start_code false = 0 ∷ 0 ∷ 1 ∷ []

-- The start code behind a unit ends it.
scan-start_code :
    (long : Bool) (unit rest : Bytes)
    → 0 < length unit
    → scan (start_code long ++ rest) unit 0 ≡ (unit, rest, false)
unfolding scan
scan-start_code true unit rest h =
    let whole : Bytes = ((unit ++ (0 ∷ [])) ++ (0 ∷ [])) ++ (0 ∷ []) in
    let cut : take (length whole - 3) whole ≡ unit =
      ap (λ (l : Bytes). take (length l - 3) l)
        (append_assoc (unit ++ (0 ∷ [])) (0 ∷ []) (0 ∷ [])
          ∙ append_assoc unit (0 ∷ []) (0 ∷ 0 ∷ []))
      ∙ take-append (length (unit ++ (0 ∷ 0 ∷ 0 ∷ [])) - 3) unit (0 ∷ 0 ∷ 0 ∷ [])
          (omega (arith, length-append unit (0 ∷ 0 ∷ 0 ∷ []))) in
    rw (cut, scan) (rw (lt→ltb 0 (length unit) h) (ap (λ (u : Bytes). (u, rest, false)) cut))
scan-start_code false unit rest h =
    let whole : Bytes = (unit ++ (0 ∷ [])) ++ (0 ∷ []) in
    let cut : take (length whole - 2) whole ≡ unit =
      ap (λ (l : Bytes). take (length l - 2) l) (append_assoc unit (0 ∷ []) (0 ∷ []))
      ∙ take-append (length (unit ++ (0 ∷ 0 ∷ [])) - 2) unit (0 ∷ 0 ∷ [])
          (omega (arith, length-append unit (0 ∷ 0 ∷ []))) in
    rw (cut, scan) (rw (lt→ltb 0 (length unit) h) (ap (λ (u : Bytes). (u, rest, false)) cut))

abbrev pub from : Bytes → Source
from bytes = record { bytes = bytes; broken = false }

abbrev pub in_stream : Bytes → Reader
in_stream bytes = record { src = from bytes; started = true }

scan-unit : (nal rest : Bytes) → IsUnit nal → scan (nal ++ rest) [] 0 ≡ scan rest nal 0
scan-unit nal rest (free, last) =
    scan-Clean nal rest [] 0 (start_free-Clean 0 nal free)
    ∙ ap (scan rest nal) (zeros_after-last 0 nal last)

-- What `Next` makes of the loop.
abbrev given : Bytes × Bytes × Bool → Result Error Bytes × Source
given (unit, left, ended) =
    if ended && (false || length unit == 0)
    then (err (stream eof), from left)
    else (ok unit, from left)

pub next_unit-middle :
    (long : Bool) (nal rest : Bytes)
    → IsUnit nal
    → next_unit (from (nal ++ (start_code long ++ rest))) ≡ (ok nal, from rest)
next_unit-middle long nal rest u = ap given (
    scan-unit nal (start_code long ++ rest) u
    ∙ scan-start_code long nal rest (last_nonzero-nonempty nal u.1))

pub next_unit-last : (nal : Bytes) → IsUnit nal → next_unit (from nal) ≡ (ok nal, from [])
unfolding scan
next_unit-last nal u =
    let pos : 0 < length nal = last_nonzero-nonempty nal u.1 in
    ap given (ap (λ (l : Bytes). scan l [] 0) (sym (append-nil nal)) ∙ scan-unit nal [] u)
    ∙ ap pick (nonzero (length nal) pos)
  where
    pick : Bool → Result Error Bytes × Source
    pick none_read = if none_read then (err (stream eof), from []) else (ok nal, from [])

    nonzero : (n : ℕ) → 0 < n → (n == 0) ≡ false
    nonzero n pos = ground arith
