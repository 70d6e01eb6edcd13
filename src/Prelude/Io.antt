-- ===== src/Prelude/Io.antt =====
-- The parts of Go's `io` and `encoding/binary` that the code calls. An `io.Reader` is the bytes that
-- are left, and how the stream ends behind them; an `io.Writer` is what has been written, and the
-- faults that later calls of `Write` meet.
use format.Prelude.Tests.{leb, ◌==◌, if◌then◌else◌, le→leb, leb→le}
use format.Prelude.Lists.{
  Bytes, length, take, drop, take-append, drop-append, length-append, length-take, take-append-drop,
}
use format.Prelude.Results.{Result, ok, err}
use Prim.Native.Nat.{ℕ, ◌+◌, ◌*◌, ◌/◌, ◌%◌, ◌^◌, ◌≤◌, ◌<◌, min}
use mathlib.Core.Path.{◌≡◌, refl, sym, ap, ◌∙◌}
use mathlib.Core.Bool.{Bool, true, false}
use mathlib.Core.List.{List, [], ◌∷◌, ◌++◌}
use mathlib.Core.Option.{Option, none, some}
use native.Mathlib.Omega.{arith}

-- `io.EOF`, `io.ErrUnexpectedEOF`, and any other error of the stream.
pub data IoError : Type 0 where
  eof unexpected_eof fault : IoError

pub record Source : Type 0 where
  pub bytes : Bytes
  pub broken : Bool

-- `io.ReadFull(s, buf)` with `len(buf) = n`. A short read takes what is left.
unfoldable pub read_full : ℕ → Source → Result IoError Bytes × Source
read_full n s =
    if leb n (length s.bytes) then (ok (take n s.bytes), record s { bytes = drop n s.bytes }) else (
      err (if s.broken then fault else if length s.bytes == 0 then eof else unexpected_eof),
      record s { bytes = [] },
    )

-- A read of a whole prefix.
pub read_full-append :
    (n : ℕ) (xs ys : Bytes) (b : Bool)
    → n ≡ length xs
    → read_full n (record { bytes = xs ++ ys; broken = b })
      ≡ (ok xs, record { bytes = ys; broken = b })
unfolding read_full
read_full-append n xs ys b h =
    let fits : n ≤ length (xs ++ ys) = omega (arith, length-append xs ys) in
    rw (le→leb _ _ fits) (rw (take-append n xs ys h, drop-append n xs ys h))

-- `none` is a call of `Write` that takes all its bytes; `some k` one that fails behind `k` bytes.
pub record Sink : Type 0 where
  pub written : Bytes
  pub faults : List (Option ℕ)

write_on : List (Option ℕ) → Bytes → Bytes → Result IoError (Unit {0}) × Sink
write_on [] out p = (ok tt, record { written = out ++ p; faults = [] })
write_on (none ∷ later) out p = (ok tt, record { written = out ++ p; faults = later })
write_on (some k ∷ later) out p = (err fault, record { written = out ++ take k p; faults = later })

unfoldable pub write : Sink → Bytes → Result IoError (Unit {0}) × Sink
unfolding write_on
write s p = write_on s.faults s.written p

-- `encoding/binary`, both orders.
abbrev pub be_16 : ℕ → ℕ → ℕ
be_16 a b = a * 256 + b

abbrev pub be_32 : ℕ → ℕ → ℕ → ℕ → ℕ
be_32 a b c d = a * 2 ^ 24 + b * 2 ^ 16 + c * 2 ^ 8 + d

abbrev pub put_be_16 : ℕ → Bytes
put_be_16 v = (v / 2 ^ 8 % 256) ∷ (v % 256) ∷ []

abbrev pub put_be_32 : ℕ → Bytes
put_be_32 v = (v / 2 ^ 24 % 256) ∷ (v / 2 ^ 16 % 256) ∷ (v / 2 ^ 8 % 256) ∷ (v % 256) ∷ []

abbrev pub le_16 : ℕ → ℕ → ℕ
le_16 a b = be_16 b a

abbrev pub le_32 : ℕ → ℕ → ℕ → ℕ → ℕ
le_32 a b c d = be_32 d c b a

abbrev pub put_le_16 : ℕ → Bytes
put_le_16 v = (v % 256) ∷ (v / 2 ^ 8 % 256) ∷ []

abbrev pub put_le_32 : ℕ → Bytes
put_le_32 v = (v % 256) ∷ (v / 2 ^ 8 % 256) ∷ (v / 2 ^ 16 % 256) ∷ (v / 2 ^ 24 % 256) ∷ []

abbrev pub le_64 : (a b c d e f g h : ℕ) → ℕ
le_64 a b c d e f g h = le_32 a b c d + le_32 e f g h * 2 ^ 32

abbrev pub put_le_64 : ℕ → Bytes
put_le_64 v = put_le_32 (v % 2 ^ 32) ++ put_le_32 (v / 2 ^ 32)

pub le_16-put : (v : ℕ) → v < 2 ^ 16 → le_16 (v % 256) (v / 2 ^ 8 % 256) ≡ v
le_16-put v h = omega arith

pub le_32-put :
    (v : ℕ)
    → v < 2 ^ 32
    → le_32 (v % 256) (v / 2 ^ 8 % 256) (v / 2 ^ 16 % 256) (v / 2 ^ 24 % 256) ≡ v
le_32-put v h = omega arith

-- A read in full takes its bytes off the front.
pub read_full_ok :
    (n : ℕ) (src src' : Source) (bytes : Bytes)
    → read_full n src ≡ (ok bytes, src')
    → (src.bytes ≡ bytes ++ src'.bytes) × (length bytes ≡ n) × (src'.broken ≡ src.broken)
unfolding read_full
read_full_ok n src src' bytes e = read_by (leb n (length src.bytes)) refl
  where
    read_by :
        (b : Bool)
        → leb n (length src.bytes) ≡ b
        → (src.bytes ≡ bytes ++ src'.bytes) × (length bytes ≡ n) × (src'.broken ≡ src.broken)
    read_by true fits =
        let same = rw fits at e in
        let bytes_is : take n src.bytes ≡ bytes = cc same in
        let left : drop n src.bytes ≡ src'.bytes =
          ap (λ (o : Result IoError Bytes × Source). o.1.bytes) same in
        let size : min n (length src.bytes) ≡ n = omega (arith, leb→le n (length src.bytes) fits) in
        (
          rw (← bytes_is, ← left) (sym (take-append-drop n src.bytes)),
          rw (← bytes_is) (length-take n src.bytes ∙ size),
          sym (ap (λ (o : Result IoError Bytes × Source). o.1.broken) same),
        )
    read_by false short =
        absurd (cc (ap (λ (o : Result IoError Bytes × Source). o.0) (rw short at e)))

-- A sink without faults takes all.
pub write_all :
    (s : Sink) (p : Bytes)
    → s.faults ≡ []
    → write s p ≡ (ok tt, record { written = s.written ++ p; faults = [] })
unfolding write write_on
write_all s p e = rw e refl
