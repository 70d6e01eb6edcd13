-- ===== src/Annexb/Tests.antt =====
-- The theorems on the units of a stream at concrete inputs.
use format.Prelude.{◌≡◌, refl, arith, Bool, true, false, not, some, List, [], ◌∷◌, Bytes, ◌==◌}
use format.Prelude.Words.{byte_at}
use format.Prelude.Io.{eof}
use format.Annexb.{stream, new_reader, Reader, next}
use format.Annexb.Split.{from, start_free, last_nonzero}
use format.Annexb.Nals.{annex_b, nals, AllUnits, next_units, next_units-annex_b}
use format.Annexb.Kept.{filter, kept_units, kept_units-filter}

abbrev two_units : List (Bool × Bytes)
two_units = (false, 6 ∷ 0 ∷ 0 ∷ 3 ∷ []) ∷ (true, 0x41 ∷ []) ∷ []

two_units-AllUnits : AllUnits two_units
unfolding start_free last_nonzero
two_units-AllUnits = ((refl, refl), ((refl, refl), tt))

next_units-annex_b_example :
    next_units 4 (new_reader (from (annex_b ((true, 0x67 ∷ 1 ∷ []) ∷ two_units))))
    ≡ ((0x67 ∷ 1 ∷ []) ∷ nals two_units, some (stream eof))
unfolding start_free last_nonzero
next_units-annex_b_example =
    next_units-annex_b true (0x67 ∷ 1 ∷ []) two_units (refl, refl) two_units-AllUnits

abbrev a_stream : Reader
a_stream = new_reader (from (0 ∷ 0 ∷ 1 ∷ 0x67 ∷ 0 ∷ 0 ∷ 0 ∷ 1 ∷ 6 ∷ 0 ∷ 0 ∷ 1 ∷ 0x41 ∷ []))

abbrev not_sei : Bytes → Bool
not_sei nal = not (byte_at nal 0 == 6)

kept_units-filter_example :
    kept_units not_sei 5 a_stream ≡ (filter not_sei (next_units 4 a_stream).0, some (stream eof))
unfolding next_units next
kept_units-filter_example = kept_units-filter not_sei 4 5 a_stream (stream eof) refl (omega arith)
