-- ===== src/Annexb.antt =====
-- internal/annexb/reader.go: the NAL units of a stream, one at a time.
pub mod Split
pub mod Nals
pub mod Kept
pub mod Tests
use format.Prelude.{
  ℕ, zero, suc, ◌+◌, ◌-◌, ◌≡◌, Bool, true, false, not, ◌&&◌, ◌||◌, List, [], ◌∷◌, ◌++◌, min, ltb,
  leb, ◌==◌, if◌then◌else◌, Bytes, length, take, drop, Result, ok, err,
}
use format.Prelude.Words.{byte_at}
use format.Prelude.Io.{IoError, eof, fault, Source}

-- The error that `New` is given for a stream without a start code, or one of the stream.
pub data Error : Type 0 where
  invalid_prefix : Error
  stream : IoError → Error

pub record Reader : Type 0 where
  pub src : Source
  pub started : Bool

abbrev pub new_reader : Source → Reader
new_reader src = record { src = src; started = false }

-- How a stream ends.
abbrev pub ending : Source → Error
ending src = if src.broken then stream fault else stream eof

-- The switch of `readPrefix`; 0 is the default.
abbrev pub prefix_size : Bytes → ℕ
prefix_size bs =
    if byte_at bs 0 == 0 && (byte_at bs 1 == 0 && byte_at bs 2 == 1)
    then 3
    else if byte_at bs 0 == 0 && (byte_at bs 1 == 0 && (byte_at bs 2 == 0 && byte_at bs 3 == 1))
    then 4
    else 0

-- `readPrefix`: `Peek` leaves the stream as it is.
unfoldable pub read_prefix : Source → Result Error Source
read_prefix src =
    if ltb (length src.bytes) 4
    then err (ending src)
    else if prefix_size src.bytes == 0
    then err invalid_prefix
    else ok (record src { bytes = drop (prefix_size src.bytes) src.bytes })

-- The loop of `Next` over the bytes that are left: what has been read, what is left behind the start code
-- that ends it, and whether the stream ended instead.
unfoldable pub scan : Bytes → Bytes → ℕ → Bytes × Bytes × Bool
scan [] unit zero_run = (unit, [], true)
scan (b ∷ bs) unit zero_run =
    let front = take (length unit - min zero_run 3) unit in
    elim (b == 1 && leb 2 zero_run) [
      | true ↦ elim (ltb 0 (length front)) [ true ↦ (front, bs, false) | false ↦ scan bs [] 0 ]
      | false ↦ scan bs (unit ++ (b ∷ [])) (if b == 0 then suc zero_run else 0)
    ]

-- `Next` behind the prefix.
abbrev pub next_unit : Source → Result Error Bytes × Source
next_unit src =
    let (unit, left, ended) = scan src.bytes [] 0 in
    let src' = record src { bytes = left } in
    if ended && (src.broken || length unit == 0) then (err (ending src), src') else (ok unit, src')

-- `Next`
unfoldable pub next : Reader → Result Error Bytes × Reader
unfolding read_prefix scan
next r =
    if r.started
    then (let (unit, src) = next_unit r.src in (unit, record r { src = src }))
    else elim (read_prefix r.src) [
      | err e ↦ (err e, r)
      | ok src ↦ let (unit, src') = next_unit src in (unit, record { src = src'; started = true })
    ]
