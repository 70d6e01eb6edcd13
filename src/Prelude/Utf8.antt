-- ===== src/Prelude/Utf8.antt =====
-- Go's `utf8.ValidString`: a string is its bytes.
use format.Prelude.Tests.{ltb, leb, ◌==◌, if◌then◌else◌}
use format.Prelude.Lists.{Bytes}
use Prim.Native.Nat.{ℕ}
use mathlib.Core.Bool.{Bool, true, false, ◌&&◌}
use mathlib.Core.List.{List, [], ◌∷◌}
use mathlib.Core.Option.{Option, none, some}

abbrev tail_byte : ℕ × ℕ
tail_byte = (0x80, 0xBF)

-- The ranges of the bytes that follow a first byte, as RFC 3629 has them.
abbrev tail_of : ℕ → Option (List (ℕ × ℕ))
tail_of b =
    if ltb b 0x80
    then some []
    else if ltb b 0xC2
    then none
    else if ltb b 0xE0
    then some (tail_byte ∷ [])
    else if b == 0xE0
    then some ((0xA0, 0xBF) ∷ tail_byte ∷ [])
    else if b == 0xED
    then some ((0x80, 0x9F) ∷ tail_byte ∷ [])
    else if ltb b 0xF0
    then some (tail_byte ∷ tail_byte ∷ [])
    else if b == 0xF0
    then some ((0x90, 0xBF) ∷ tail_byte ∷ tail_byte ∷ [])
    else if ltb b 0xF4
    then some (tail_byte ∷ tail_byte ∷ tail_byte ∷ [])
    else if b == 0xF4
    then some ((0x80, 0x8F) ∷ tail_byte ∷ tail_byte ∷ [])
    else none

valid_from : Option (List (ℕ × ℕ)) → Bytes → Bool
valid_from none bs = false
valid_from (some []) [] = true
valid_from (some (r ∷ rs)) [] = false
valid_from (some []) (b ∷ bs) = valid_from (tail_of b) bs
valid_from (some ((lo, hi) ∷ rs)) (b ∷ bs) = leb lo b && (leb b hi && valid_from (some rs) bs)

unfoldable pub valid_string : Bytes → Bool
unfolding valid_from
valid_string bs = valid_from (some []) bs
