-- ===== src/H265Writer/Tests.antt =====
-- The theorem on aggregation packets at a concrete input.
use format.Prelude.{◌≡◌, refl, arith, List, [], ◌∷◌, ◌++◌, Bytes}
use format.H265Writer.{is_key_frame}
use format.H265Writer.KeyFrame.{units, any_key, is_key_frame-units}

abbrev two_units : List Bytes
two_units = (2 ∷ 1 ∷ []) ∷ (0x40 ∷ 1 ∷ 5 ∷ []) ∷ []

is_key_frame-units_example :
    is_key_frame (0x60 ∷ 1 ∷ (units two_units ++ (0 ∷ 9 ∷ 9 ∷ []))) ≡ any_key two_units
is_key_frame-units_example =
    is_key_frame-units 0x60 1 two_units (0 ∷ 9 ∷ 9 ∷ []) refl (omega arith, (omega arith, tt))
      (omega arith)
