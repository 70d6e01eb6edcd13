-- ===== src/Rtpdump/Preamble.antt =====
-- The text line at the top of a file: what `rtpdump.NewWriter` prints, and the regular expression
-- `#\!rtpplay1\.0 \d{1,3}\.\d{1,3}\.\d{1,3}\.\d{1,3}\/\d{1,5}\n` of `rtpdump.NewReader`.
pub mod Matched
use format.Prelude.{
  ℕ, zero, suc, ◌+◌, ◌-◌, ◌*◌, ◌/◌, ◌%◌, ◌^◌, ◌<◌, ◌≤◌, ◌≡◌, Bool, true, false, not, ◌&&◌, ◌||◌,
  Option, none, some, List, [], ◌∷◌, ◌++◌, ltb, leb, ◌==◌, if◌then◌else◌, Bytes, length, take, drop,
}
use format.Prelude.Words.{byte_at}
use format.Rtpdump.{to_4}

-- `#!rtpplay1.0 `
abbrev pub magic : Bytes
magic =
    0x23 ∷ 0x21 ∷ 0x72 ∷ 0x74 ∷ 0x70 ∷ 0x70 ∷ 0x6C ∷ 0x61 ∷ 0x79 ∷ 0x31 ∷ 0x2E ∷ 0x30 ∷ 0x20 ∷ []

abbrev pub dot : ℕ
dot = 0x2E

abbrev pub slash : ℕ
slash = 0x2F

abbrev pub newline : ℕ
newline = 0x0A

-- Decimal digits, as `%d` prints a number below `10 ^ fuel`.
pub decimal : ℕ → ℕ → Bytes
decimal zero n = []
decimal (suc fuel) n =
    if ltb n 10 then (48 + n) ∷ [] else decimal fuel (n / 10) ++ ((48 + n % 10) ∷ [])

-- `net.IP.String` of a `To4`, which prints nil as `<nil>`.
abbrev pub ip_string : Bytes → Bytes
ip_string ip =
    if length ip == 4
    then decimal 3 (byte_at ip 0)
      ++ (dot
          ∷ (decimal 3 (byte_at ip 1)
              ++ (dot ∷ (decimal 3 (byte_at ip 2) ++ (dot ∷ decimal 3 (byte_at ip 3))))))
    else 0x3C ∷ 0x6E ∷ 0x69 ∷ 0x6C ∷ 0x3E ∷ []

-- The preamble that `NewWriter` prints.
unfoldable pub preamble : Bytes → ℕ → Bytes
unfolding decimal to_4
preamble source port =
    magic ++ (ip_string (to_4 source) ++ (slash ∷ (decimal 5 port ++ (newline ∷ []))))

abbrev pub is_digit : ℕ → Bool
is_digit b = leb 48 b && leb b 57

-- `\d{1,n}` and a byte that is no digit; what is left behind it.
unfoldable pub number : ℕ → ℕ → Bytes → Option Bytes
number zero sep bs = none
number (suc n) sep (b ∷ c ∷ bs) =
    let longer = number n sep (c ∷ bs) in
    if not (is_digit b) then none else if c == sep then some bs else longer
number (suc n) sep _ = none

abbrev pub literal : Bytes → Bytes → Option Bytes
literal [] bs = some bs
literal (x ∷ xs) [] = none
literal (x ∷ xs) (b ∷ bs) = if x == b then literal xs bs else none

infixl 5 ◌and_then◌
abbrev pub ◌and_then◌ : Option Bytes → (Bytes → Option Bytes) → Option Bytes
none and_then f = none
some bs and_then f = f bs

-- The expression at the front of some bytes.
unfoldable pub matches_here : Bytes → Bool
unfolding number
matches_here bs =
    let end =
      literal magic bs
      and_then number 3 dot
      and_then number 3 dot
      and_then number 3 dot
      and_then number 3 slash
      and_then number 5 newline in
    elim end [ none ↦ false | some rest ↦ true ]

-- `preambleRegexp.Match`, which looks for the expression anywhere.
unfoldable pub matches : Bytes → Bool
unfolding matches_here
matches [] = matches_here []
matches (b ∷ bs) = matches_here (b ∷ bs) || matches bs

-- `bio.ReadLine`: what is behind the first line.
unfoldable pub after_line : Bytes → Bytes
after_line [] = []
after_line (b ∷ bs) = if b == newline then bs else after_line bs
