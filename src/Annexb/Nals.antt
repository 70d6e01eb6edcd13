-- ===== src/Annexb/Nals.antt =====
-- internal/annexb/reader.go: a whole stream, from its first start code to its end.
use format.Prelude.{
  ℕ, zero, suc, ◌<◌, ◌≡◌, refl, ap, ◌∙◌, arith, Bool, true, false, List, [], ◌∷◌, ◌++◌, le→ltb,
  append-nil, Bytes, length, length-append, Option, none, some, Result, ok, err,
}
use format.Prelude.Io.{eof, Source}
use format.Annexb.{Error, stream, Reader, new_reader, scan, next_unit, next}
use format.Annexb.Split.{
  IsUnit, start_code, from, in_stream, last_nonzero-nonempty, next_unit-middle, next_unit-last,
}

-- `Next` until it fails, at most `fuel` times: the units and the error.
unfoldable pub next_units : ℕ → Reader → List Bytes × Option Error
next_units zero r = ([], none)
next_units (suc fuel) r =
    let (unit, r') = next r in
    let rest = next_units fuel r' in
    elim unit [ ok nal ↦ (nal ∷ rest.0, rest.1) | err e ↦ ([], some e) ]

next_units_step :
    (fuel : ℕ) (r r' : Reader) (nal : Bytes)
    → next r ≡ (ok nal, r')
    → next_units (suc fuel) r ≡ (nal ∷ (next_units fuel r').0, (next_units fuel r').1)
unfolding next_units
next_units_step fuel r r' nal e =
    ap
      (λ (o : Result Error Bytes × Reader). elim o.0 [
        | ok unit ↦ (unit ∷ (next_units fuel o.1).0, (next_units fuel o.1).1)
        | err e ↦ ([], some e)
      ])
      e

-- A stream: each unit behind a start code of either length.
abbrev pub annex_b : List (Bool × Bytes) → Bytes
annex_b [] = []
annex_b ((long, nal) ∷ units) = start_code long ++ (nal ++ annex_b units)

abbrev pub nals : List (Bool × Bytes) → List Bytes
nals [] = []
nals ((long, nal) ∷ units) = nal ∷ nals units

abbrev pub AllUnits : List (Bool × Bytes) → Type 0
AllUnits [] = Unit {0}
AllUnits ((long, nal) ∷ units) = IsUnit nal × AllUnits units

next_started :
    (nal rest rest' : Bytes)
    → next_unit (from rest) ≡ (ok nal, from rest')
    → next (in_stream rest) ≡ (ok nal, in_stream rest')
unfolding next
next_started nal rest rest' e =
    ap (λ (o : Result Error Bytes × Source). (o.0, record { src = o.1; started = true })) e

units_left :
    (nal : Bytes) (units : List (Bool × Bytes))
    → IsUnit nal
    → AllUnits units
    → next_units (suc (suc (length units))) (in_stream (nal ++ annex_b units))
      ≡ (nal ∷ nals units, some (stream eof))
unfolding next_units next scan
units_left nal [] u v = next_units_step 1 (in_stream (nal ++ [])) (in_stream []) nal (
    next_started nal (nal ++ []) []
      (ap (λ (l : Bytes). next_unit (from l)) (append-nil nal) ∙ next_unit-last nal u))
units_left nal ((long, nal') ∷ units) u (u', v) =
    next_units_step (suc (suc (length units)))
      (in_stream (nal ++ (start_code long ++ (nal' ++ annex_b units))))
      (in_stream (nal' ++ annex_b units)) nal
      (next_started nal (nal ++ (start_code long ++ (nal' ++ annex_b units)))
        (nal' ++ annex_b units) (next_unit-middle long nal (nal' ++ annex_b units) u))
    ∙ ap (λ (o : List Bytes × Option Error). (nal ∷ o.0, o.1)) (units_left nal' units u' v)

next_first :
    (long : Bool) (rest : Bytes)
    → 0 < length rest
    → next (new_reader (from (start_code long ++ rest))) ≡ next (in_stream rest)
unfolding next
next_first true rest h = rw (le→ltb (length (start_code true ++ rest)) 4 (omega arith)) refl
next_first false rest h = rw (le→ltb (length (start_code false ++ rest)) 4 (omega arith)) refl

-- A stream that starts with a start code and whose units, one at least, each behind a start code of three
-- or four bytes, have no start code inside and no zero at the end: `Next` gives the units in order, and
-- then `io.EOF`.
pub next_units-annex_b :
    (long : Bool) (nal : Bytes) (units : List (Bool × Bytes))
    → IsUnit nal
    → AllUnits units
    → next_units (suc (suc (length units))) (new_reader (from (annex_b ((long, nal) ∷ units))))
      ≡ (nal ∷ nals units, some (stream eof))
unfolding next_units
next_units-annex_b long nal units u v =
    let rest : Bytes = nal ++ annex_b units in
    let size : 0 < length rest =
      omega (arith, length-append nal (annex_b units), last_nonzero-nonempty nal u.1) in
    ap
      (λ (o : Result Error Bytes × Reader). elim o.0 [
        | ok unit ↦ (
          unit ∷ (next_units (suc (length units)) o.1).0,
          (next_units (suc (length units)) o.1).1,
        )
        | err e ↦ ([], some e)
      ])
      (next_first long rest size)
    ∙ units_left nal units u v
