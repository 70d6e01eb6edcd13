-- ===== src/Annexb/Kept.antt =====
-- h264reader/h264reader.go and h265reader/h265reader.go: the loop of `NextNAL`, which reads units until one is
-- kept.
use format.Prelude.{
  ℕ, All, map, zero, suc, ◌-◌, ◌<◌, ◌≤◌, ◌≡◌, refl, sym, ap, ◌∙◌, arith, Bool, true, false, ◌&&◌,
  ◌||◌, List, [], ◌∷◌, ◌++◌, min, ltb, leb, ◌==◌, if◌then◌else◌, Bool-cases, inl, inr, Bytes,
  length, take, drop, length-drop, Option, none, some, Result, ok, err,
}
use format.Prelude.Io.{eof, Source}
use format.Annexb.{
  Error, invalid_prefix, stream, Reader, ending, prefix_size, read_prefix, scan, next_unit, next,
}
use format.Annexb.Nals.{next_units}

-- Every turn takes a byte at least, so that one more than there are bytes are enough.
pub next_within : (Bytes → Bool) → ℕ → Reader → Result Error Bytes × Reader
next_within keep zero r = (err (stream eof), r)
next_within keep (suc fuel) r =
    let (unit, r') = next r in
    elim unit [
      | err e ↦ (err e, r')
      | ok nal ↦ elim (keep nal) [ true ↦ (ok nal, r') | false ↦ next_within keep fuel r' ]
    ]

unfoldable pub next_kept : (Bytes → Bool) → Reader → Result Error Bytes × Reader
unfolding next_within
next_kept keep r = next_within keep (suc (length r.src.bytes)) r

scan_left : (bs unit : Bytes) (z : ℕ) → length (scan bs unit z).1 ≤ length bs - 1
unfolding scan
scan_left [] unit z = omega arith
scan_left (b ∷ bs) unit z =
    let again = scan_left bs [] 0 in
    let more = scan_left bs (unit ++ (b ∷ [])) (if b == 0 then suc z else 0) in
    elim (Bool-cases (b == 1 && leb 2 z)) [
      | inl code ↦ elim (Bool-cases (ltb 0 (length (take (length unit - min z 3) unit)))) [
        | inl some_read ↦ rw (code, scan) (rw some_read (omega arith))
        | inr nothing ↦ rw (code, scan) (rw nothing (omega arith))
      ]
      | inr other ↦ rw (other, scan) (omega arith)
    ]

abbrev either :
    Bool → Result Error Bytes → Result Error Bytes → Source → Result Error Bytes × Source
either c x y s = if c then (x, s) else (y, s)

both : (c : Bool) (x y : Result Error Bytes) (s : Source) → (either c x y s).1 ≡ s
both true x y s = refl
both false x y s = refl

-- A unit takes a byte at least.
next_unit_shorter :
    (bs : Bytes) (broken : Bool) (nal : Bytes) (src' : Source)
    → next_unit (record { bytes = bs; broken = broken }) ≡ (ok nal, src')
    → length src'.bytes < length bs
unfolding scan
next_unit_shorter [] true nal src' e = cc e
next_unit_shorter [] false nal src' e = cc e
next_unit_shorter (b ∷ bs) broken nal src' e =
    let src : Source = record { bytes = b ∷ bs; broken = broken } in
    let out = scan (b ∷ bs) [] 0 in
    let left : Source = record { bytes = out.1; broken = broken } in
    let is_left : left ≡ src' =
      sym (both (out.2 && (broken || length out.0 == 0)) (err (ending src)) (ok out.0) left)
      ∙ ap (λ (o : Result Error Bytes × Source). o.1) e in
    omega (arith, scan_left (b ∷ bs) [] 0, ap (λ (o : Source). length o.bytes) is_left)

size_of : Result Error Source → ℕ
size_of (ok s) = length s.bytes
size_of (err x) = 0

read_prefix_le :
    (src src' : Source) → read_prefix src ≡ ok src' → length src'.bytes ≤ length src.bytes
unfolding read_prefix size_of
read_prefix_le src src' e = by_tests (ltb (length src.bytes) 4) (prefix_size src.bytes == 0) e
  where
    by_tests :
        (short bad : Bool)
        → (if short
            then err (ending src)
            else if bad
            then err invalid_prefix
            else ok (record src { bytes = drop (prefix_size src.bytes) src.bytes }))
          ≡ ok src'
        → length src'.bytes ≤ length src.bytes
    by_tests true bad e = cc e
    by_tests false true e = cc e
    by_tests false false e =
        omega (arith, length-drop (prefix_size src.bytes) src.bytes, ap size_of e)

abbrev behind : Reader → Result Error Source → Result Error Bytes × Reader
behind r p = elim p [
  | err e ↦ (err e, r)
  | ok src ↦ let (unit, src') = next_unit src in (unit, record { src = src'; started = true })
]

behind_shorter :
    (r : Reader) (p : Result Error Source) (nal : Bytes) (r' : Reader)
    → ((src : Source) → p ≡ ok src → length src.bytes ≤ length r.src.bytes)
    → behind r p ≡ (ok nal, r')
    → length r'.src.bytes < length r.src.bytes
behind_shorter r (err x) nal r' h e = cc e
behind_shorter r (ok src) nal r' h e = omega (
  arith,
  h src refl,
  next_unit_shorter src.bytes src.broken nal r'.src
      (ap (λ (o : Result Error Bytes × Reader). (o.0, o.1.src)) e),
)

next_shorter :
    (r : Reader) (nal : Bytes) (r' : Reader)
    → next r ≡ (ok nal, r')
    → length r'.src.bytes < length r.src.bytes
unfolding next
next_shorter r nal r' e = by_start r.started e
  where
    by_start :
        (started : Bool)
        → next (record r { started = started }) ≡ (ok nal, r')
        → length r'.src.bytes < length r.src.bytes
    by_start true e =
        next_unit_shorter r.src.bytes r.src.broken nal r'.src
          (ap (λ (o : Result Error Bytes × Reader). (o.0, o.1.src)) e)
    by_start false e =
        behind_shorter (record r { started = false }) (read_prefix r.src) nal r'
          (λ src e. read_prefix_le r.src src e) e

-- One turn, which goes on with `f`.
abbrev turn :
    (Bytes → Bool)
    → (Reader → Result Error Bytes × Reader)
    → Result Error Bytes × Reader
    → Result Error Bytes × Reader
turn keep f out = elim out.0 [
  | err e ↦ (err e, out.1)
  | ok nal ↦ elim (keep nal) [ true ↦ (ok nal, out.1) | false ↦ f out.1 ]
]

turn_cong :
    (keep : Bytes → Bool) (f g : Reader → Result Error Bytes × Reader)
    (out : Result Error Bytes × Reader)
    → ((nal : Bytes) (r' : Reader) → out ≡ (ok nal, r') → f r' ≡ g r')
    → turn keep f out ≡ turn keep g out
turn_cong keep f g (err e, r') h = refl
turn_cong keep f g (ok nal, r') h = by_kept (keep nal)
  where
    by_kept :
        (kept : Bool)
        → ◌≡◌ {A = Result Error Bytes × Reader}
            (elim kept [ true ↦ (ok nal, r') | false ↦ f r' ])
            (elim kept [ true ↦ (ok nal, r') | false ↦ g r' ])
    by_kept true = refl
    by_kept false = h nal r' refl

-- More turns than there are bytes change nothing.
next_within_fuel :
    (keep : Bytes → Bool) (n m : ℕ) (r : Reader)
    → length r.src.bytes < n
    → length r.src.bytes < m
    → next_within keep n r ≡ next_within keep m r
unfolding next_within
next_within_fuel keep zero m r h g = absurd (omega arith)
next_within_fuel keep (suc n) zero r h g = absurd (omega arith)
next_within_fuel keep (suc n) (suc m) r h g =
    turn_cong keep (next_within keep n) (next_within keep m) (next r) (λ nal r' e.
      next_within_fuel keep n m r' (omega (arith, next_shorter r nal r' e))
        (omega (arith, next_shorter r nal r' e)))

-- `NextNAL` is one turn, and itself again behind a unit that is skipped.
pub next_kept-turn :
    (keep : Bytes → Bool) (r : Reader) → next_kept keep r ≡ turn keep (next_kept keep) (next r)
unfolding next_kept next_within
next_kept-turn keep r =
    turn_cong keep (next_within keep (length r.src.bytes)) (next_kept keep) (next r) (λ nal r' e.
      next_within_fuel keep (length r.src.bytes) (suc (length r'.src.bytes)) r'
        (next_shorter r nal r' e) (omega arith))

-- `NextNAL` until it fails, at most `fuel` times.
unfoldable pub kept_units : (Bytes → Bool) → ℕ → Reader → List Bytes × Option Error
unfolding next_kept
kept_units keep zero r = ([], none)
kept_units keep (suc fuel) r =
    let (unit, r') = next_kept keep r in
    let rest = kept_units keep fuel r' in
    elim unit [ ok nal ↦ (nal ∷ rest.0, rest.1) | err e ↦ ([], some e) ]

abbrev pub filter : (Bytes → Bool) → List Bytes → List Bytes
filter keep [] = []
filter keep (x ∷ xs) = if keep x then x ∷ filter keep xs else filter keep xs

-- Two readings of units that agree on each of them.
pub map-filter_same {ℓ} :
    {A : Type ℓ} (f g : Bytes → A) (p q : Bytes → Bool) (us : List Bytes)
    → All (λ u. (f u ≡ g u) × (p u ≡ q u)) us
    → map f (filter p us) ≡ map g (filter q us)
map-filter_same f g p q [] h = refl
map-filter_same f g p q (u ∷ us) ((same, kept), h) =
    let rest = map-filter_same f g p q us h in rw kept (either_way (q u) same rest)
  where
    either_way :
        (b : Bool)
        → f u ≡ g u
        → map f (filter p us) ≡ map g (filter q us)
        → map f (if b then u ∷ filter p us else filter p us)
          ≡ map g (if b then u ∷ filter q us else filter q us)
    either_way true one rest = ap (λ x. x ∷ map f (filter p us)) one ∙ ap (◌∷◌ (g u)) rest
    either_way false one rest = rest

abbrev gather : ℕ → Result Error Bytes × Reader → List Bytes × Option Error
gather n out = elim out.0 [
  | ok nal ↦ (nal ∷ (next_units n out.1).0, (next_units n out.1).1)
  | err e ↦ ([], some e)
]

abbrev collect : (Bytes → Bool) → ℕ → Result Error Bytes × Reader → List Bytes × Option Error
collect keep m out = elim out.0 [
  | ok nal ↦ (nal ∷ (kept_units keep m out.1).0, (kept_units keep m out.1).1)
  | err e ↦ ([], some e)
]

-- One unit of both, where the rest is known to agree.
collect-turn :
    (keep : Bytes → Bool) (n m : ℕ) (e : Error) (out : Result Error Bytes × Reader)
    → ((r : Reader)
        → (next_units n r).1 ≡ some e
        → kept_units keep m r ≡ (filter keep (next_units n r).0, some e))
    → ((r : Reader)
        → (next_units n r).1 ≡ some e
        → kept_units keep (suc m) r ≡ (filter keep (next_units n r).0, some e))
    → (gather n out).1 ≡ some e
    → collect keep m (turn keep (next_kept keep) out) ≡ (filter keep (gather n out).0, some e)
unfolding next_kept kept_units
collect-turn keep n m e (err x, r') one two ends = ap (λ (o : Option Error). ([], o)) ends
collect-turn keep n m e (ok nal, r') one two ends = by_kept (keep nal)
  where
    by_kept :
        (kept : Bool)
        → collect keep m (elim kept [ true ↦ (ok nal, r') | false ↦ next_kept keep r' ]) ≡ (
          if kept then nal ∷ filter keep (next_units n r').0 else filter keep (next_units n r').0,
          some e,
        )
    by_kept true = ap (λ (o : List Bytes × Option Error). (nal ∷ o.0, o.1)) (one r' ends)
    by_kept false = two r' ends

-- Where `Next`, called until it fails, gives some units and then an error, `NextNAL` gives those of them
-- that are kept, in order, and then the same error; any number of calls from as many on tells so.
pub kept_units-filter :
    (keep : Bytes → Bool) (n m : ℕ) (r : Reader) (e : Error)
    → (next_units n r).1 ≡ some e
    → n ≤ m
    → kept_units keep m r ≡ (filter keep (next_units n r).0, some e)
unfolding next_units kept_units
kept_units-filter keep zero m r e ends h = cc ends
kept_units-filter keep (suc n) zero r e ends h = absurd (omega arith)
kept_units-filter keep (suc n) (suc m) r e ends h =
    ap (collect keep m) (next_kept-turn keep r)
    ∙ collect-turn keep n m e (next r) (λ r' t. kept_units-filter keep n m r' e t (omega arith))
        (λ r' t. kept_units-filter keep n (suc m) r' e t (omega arith)) ends
