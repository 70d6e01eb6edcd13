-- ===== src/H265Reader/Tests.antt =====
-- The theorems on H.265 streams at concrete inputs.
use format.Prelude.{◌≡◌, All, arith, refl, Bool, true, false, some, List, [], ◌∷◌, map, Bytes}
use format.Prelude.Io.{eof}
use format.Annexb.{stream, new_reader}
use format.Annexb.Split.{from, start_free, last_nonzero}
use format.Annexb.Nals.{annex_b, nals, AllUnits}
use format.Annexb.Kept.{filter}
use format.Prelude.Words.{IsBytes}
use format.H265Reader.{is_kept}
use format.H265Reader.Header.{described, is_wanted, next_nals, next_nals-annex_b_h265}

abbrev later : List (Bool × Bytes)
later = (false, 0x4E ∷ 1 ∷ 5 ∷ []) ∷ (true, 0x26 ∷ 1 ∷ []) ∷ []

later-AllUnits : AllUnits later
unfolding start_free last_nonzero
later-AllUnits = ((refl, refl), ((refl, refl), tt))

units-IsBytes : All IsBytes ((0x40 ∷ 1 ∷ []) ∷ nals later)
units-IsBytes = (
  (omega arith, (omega arith, tt)),
  ((omega arith, (omega arith, (omega arith, tt))), ((omega arith, (omega arith, tt)), tt)),
)

next_nals-annex_b_h265_example :
    next_nals false 4 (new_reader (from (annex_b ((true, 0x40 ∷ 1 ∷ []) ∷ later))))
    ≡ (map described (filter (is_wanted false) ((0x40 ∷ 1 ∷ []) ∷ nals later)), some (stream eof))
unfolding start_free last_nonzero
next_nals-annex_b_h265_example =
    next_nals-annex_b_h265 false true (0x40 ∷ 1 ∷ []) later (refl, refl) later-AllUnits
      units-IsBytes

-- The unit of supplemental information is left out.
without_sei : filter (is_kept false) (nals later) ≡ (0x26 ∷ 1 ∷ []) ∷ []
unfolding is_kept
without_sei = refl
