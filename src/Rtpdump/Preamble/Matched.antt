-- ===== src/Rtpdump/Preamble/Matched.antt =====
-- rtpdump/writer.go and rtpdump/reader.go: the regular expression on the preamble that is printed.
use format.Prelude.{
  ℕ, zero, suc, ◌+◌, ◌-◌, ◌*◌, ◌/◌, ◌%◌, ◌^◌, ◌<◌, ◌≤◌, ◌≡◌, ◌≢◌, refl, sym, ap, ◌∙◌, arith, Bool,
  true, false, inl, inr, ◌||◌, Option, none, some, [], ◌∷◌, ◌++◌, ltb, ◌==◌, ==_iff, lt→ltb,
  Bool-cases, append_assoc, append-nil, Bytes, length, take, All, All-append, length-append,
}
use format.Prelude.Words.{IsBytes}
use format.Rtpdump.{ipv4, to_4}
use format.Rtpdump.Preamble.{
  magic, dot, slash, newline, decimal, preamble, is_digit, number, matches_here, matches,
  after_line, ◌and_then◌,
}

abbrev IsDigits : Bytes → Type 0
IsDigits ds = All (λ b. is_digit b ≡ true) ds

abbrev tens : ℕ → ℕ
tens zero = 1
tens (suc k) = 10 * tens k

digit_is : (n : ℕ) → n < 10 → is_digit (48 + n) ≡ true
digit_is n h = ground arith

decimal-IsDigits : (k n : ℕ) → IsDigits (decimal k n)
unfolding decimal
decimal-IsDigits zero n = tt
decimal-IsDigits (suc k) n = elim (Bool-cases (ltb n 10)) [
  | inl small ↦ rw small (digit_is n (ground arith), tt)
  | inr large ↦ rw large (
      All-append (λ b. is_digit b ≡ true) (decimal k (n / 10)) ((48 + n % 10) ∷ [])
        (decimal-IsDigits k (n / 10)) (digit_is (n % 10) (omega arith), tt))
]

length-decimal :
    (k n : ℕ)
    → n < tens (suc k)
    → (0 < length (decimal (suc k) n)) × (length (decimal (suc k) n) ≤ suc k)
unfolding decimal
length-decimal zero n h =
    let small : n < 10 = omega arith in rw (lt→ltb n 10 small) (omega arith, omega arith)
length-decimal (suc k) n h =
    let (low, high) = length-decimal k (n / 10) (omega arith) in
    let all = length-append (decimal (suc k) (n / 10)) ((48 + n % 10) ∷ []) in
    elim (Bool-cases (ltb n 10)) [
      | inl small ↦ rw small (omega arith, omega arith)
      | inr large ↦ rw large (omega (arith, all), omega (arith, all))
    ]

-- A run of at most `k` digits in front of the separator.
number-digits :
    (k sep : ℕ) (ds rest : Bytes)
    → is_digit sep ≡ false
    → IsDigits ds
    → 0 < length ds
    → length ds ≤ k
    → number k sep (ds ++ (sep ∷ rest)) ≡ some rest
unfolding number
number-digits zero sep ds rest h d low high = absurd (omega arith)
number-digits (suc k) sep [] rest h d low high = absurd (omega arith)
number-digits (suc k) sep (x ∷ []) rest h (d, u) low high = rw (d, (==_iff sep sep).1 refl) refl
number-digits (suc k) sep (x ∷ y ∷ ds) rest h (d, ds_digits) low high =
    rw (d, differ y (ds_digits.0) h)
      (number-digits k sep (y ∷ ds) rest h ds_digits (omega arith) (omega arith))
  where
    differ : (y : ℕ) → is_digit y ≡ true → is_digit sep ≡ false → (y == sep) ≡ false
    differ y a b = ground arith

-- Text without a line break in front of one.
abbrev IsLine : Bytes → Type 0
IsLine bs = All (λ b. b ≢ newline) bs

after_line-IsLine : (bs rest : Bytes) → IsLine bs → after_line (bs ++ (newline ∷ rest)) ≡ rest
unfolding after_line
after_line-IsLine [] rest h = refl
after_line-IsLine (b ∷ bs) rest (ne, h) = rw (differ b ne) (after_line-IsLine bs rest h)
  where
    differ : (b : ℕ) → b ≢ newline → (b == newline) ≡ false
    differ b ne = ground arith

IsDigits→IsLine : (ds : Bytes) → IsDigits ds → IsLine ds
IsDigits→IsLine [] h = tt
IsDigits→IsLine (d ∷ ds) (h, hs) = (not_newline d h, IsDigits→IsLine ds hs)
  where
    not_newline : (d : ℕ) → is_digit d ≡ true → d ≢ newline
    not_newline d h = λ e. ground arith

-- An address and a port, as the preamble spells them.
pub record IsSpelled (a b c d port : ℕ) : Type 0 where
  pub address : IsBytes (a ∷ b ∷ c ∷ d ∷ [])
  pub port_fits : port < 2 ^ 16

regroup :
    (x y z : ℕ) (p q r s t rest : Bytes)
    → ((p ++ (x ∷ (q ++ (x ∷ (r ++ (x ∷ s)))))) ++ (y ∷ (t ++ (z ∷ [])))) ++ rest
      ≡ p ++ (x ∷ (q ++ (x ∷ (r ++ (x ∷ (s ++ (y ∷ (t ++ (z ∷ rest)))))))))
regroup x y z p q r s t rest = simp append_assoc refl

take_longer :
    (n : ℕ) (xs ys : Bytes) → length xs ≤ n → take n (xs ++ ys) ≡ xs ++ take (n - length xs) ys
take_longer n [] ys h = rw (n_less n) refl
  where
    n_less : (n : ℕ) → n - 0 ≡ n
    n_less n = omega arith
take_longer zero (x ∷ xs) ys h = absurd (omega arith)
take_longer (suc n) (x ∷ xs) ys h =
    let m : suc n - length (x ∷ xs) ≡ n - length xs = omega arith in
    ap (◌∷◌ x) (take_longer n xs ys (omega arith)) ∙ ap (λ (k : ℕ). x ∷ (xs ++ take k ys)) (sym m)

matches-here : (bs : Bytes) → matches_here bs ≡ true → matches bs ≡ true
unfolding matches
matches-here [] h = h
matches-here (b ∷ bs) h = first (matches_here (b ∷ bs)) (matches bs) h
  where
    first : (x y : Bool) → x ≡ true → (x || y) ≡ true
    first x y h = ground arith

IsLine-joined : (p q : Bytes) (x : ℕ) → IsLine p → x ≢ newline → IsLine q → IsLine (p ++ (x ∷ q))
IsLine-joined p q x hp ne hq = All-append (λ b. b ≢ newline) p (x ∷ q) hp (ne, hq)

magic-IsLine : IsLine magic
magic-IsLine = ground arith

ends_with_newline :
    (x y : ℕ) (p q r s t rest : Bytes)
    → p ++ (x ∷ (q ++ (x ∷ (r ++ (x ∷ (s ++ (y ∷ (t ++ (newline ∷ rest)))))))))
      ≡ (p ++ (x ∷ (q ++ (x ∷ (r ++ (x ∷ (s ++ (y ∷ t)))))))) ++ (newline ∷ rest)
ends_with_newline x y p q r s t rest = simp append_assoc refl

module _ (a b c d port : ℕ) where
  spelled : Bytes → Bytes
  spelled rest =
      decimal 3 a
      ++ (dot
          ∷ (decimal 3 b
              ++ (dot
                  ∷ (decimal 3 c
                      ++ (dot ∷ (decimal 3 d ++ (slash ∷ (decimal 5 port ++ (newline ∷ rest)))))))))

  preamble-spelled : (rest : Bytes) → preamble (ipv4 a b c d) port ++ rest ≡ magic ++ spelled rest
  unfolding preamble to_4 spelled
  preamble-spelled rest = ap (◌++◌ magic) (
      regroup dot slash newline (decimal 3 a) (decimal 3 b) (decimal 3 c) (decimal 3 d)
        (decimal 5 port) rest)

  module _ (v : IsSpelled a b c d port) where
    octet :
        (n : ℕ) (sep : ℕ) (rest : Bytes)
        → n < 256
        → is_digit sep ≡ false
        → number 3 sep (decimal 3 n ++ (sep ∷ rest)) ≡ some rest
    octet n sep rest h e =
        let (low, high) = length-decimal 2 n (omega arith) in
        number-digits 3 sep (decimal 3 n) rest e (decimal-IsDigits 3 n) low high

    read_back :
        (rest : Bytes)
        → (number 3 dot (spelled rest)
            and_then number 3 dot
            and_then number 3 dot
            and_then number 3 slash
            and_then number 5 newline)
          ≡ some rest
    unfolding spelled
    read_back rest =
        let t4 : Bytes = decimal 5 port ++ (newline ∷ rest) in
        let t3 : Bytes = decimal 3 d ++ (slash ∷ t4) in
        let t2 : Bytes = decimal 3 c ++ (dot ∷ t3) in
        let t1 : Bytes = decimal 3 b ++ (dot ∷ t2) in
        let (low, high) = length-decimal 4 port (omega (arith, v.port_fits)) in
        let (ha, (hb, (hc, (hd, u)))) = v.address in
        rw (octet a dot t1 ha refl) (
          rw (octet b dot t2 hb refl) (
            rw (octet c dot t3 hc refl) (
              rw (octet d slash t4 hd refl) (
                number-digits 5 newline (decimal 5 port) rest refl (decimal-IsDigits 5 port) low
                  high))))

    matches_here-preamble :
        (rest : Bytes) → matches_here (preamble (ipv4 a b c d) port ++ rest) ≡ true
    unfolding matches_here
    matches_here-preamble rest =
        ap (λ (l : Bytes). matches_here l) (preamble-spelled rest)
        ∙ ap (λ (o : Option Bytes). elim o [ none ↦ false | some left ↦ true ]) (read_back rest)

    pub length-preamble :
        (23 ≤ length (preamble (ipv4 a b c d) port)) × (length (preamble (ipv4 a b c d) port) ≤ 35)
    unfolding spelled
    length-preamble =
        let (ha, (hb, (hc, (hd, u)))) = v.address in
        let size =
          ap (λ (l : Bytes). length l)
            (sym (append-nil (preamble (ipv4 a b c d) port)) ∙ preamble-spelled []) in
        let (la, ua) = length-decimal 2 a (omega arith) in
        let (lb, ub) = length-decimal 2 b (omega arith) in
        let (lc, uc) = length-decimal 2 c (omega arith) in
        let (ld, ud) = length-decimal 2 d (omega arith) in
        let (lp, up) = length-decimal 4 port (omega (arith, v.port_fits)) in
        let e4 = length-append (decimal 5 port) (newline ∷ []) in
        let e3 = length-append (decimal 3 d) (slash ∷ (decimal 5 port ++ (newline ∷ []))) in
        let e2 =
          length-append (decimal 3 c)
            (dot ∷ (decimal 3 d ++ (slash ∷ (decimal 5 port ++ (newline ∷ []))))) in
        let e1 = length-append (decimal 3 b) (
          dot
          ∷ (decimal 3 c
              ++ (dot ∷ (decimal 3 d ++ (slash ∷ (decimal 5 port ++ (newline ∷ []))))))) in
        let e0 = length-append (decimal 3 a) (
          dot
          ∷ (decimal 3 b
              ++ (dot
                  ∷ (decimal 3 c
                      ++ (dot
                          ∷ (decimal 3 d ++ (slash ∷ (decimal 5 port ++ (newline ∷ []))))))))) in
        (omega arith, omega arith)

    -- What `NewReader` sees: the look-ahead matches, and the first line is the preamble.
    pub peek_matches :
        (rest : Bytes) → matches (take 36 (preamble (ipv4 a b c d) port ++ rest)) ≡ true
    peek_matches rest =
        let pre : Bytes = preamble (ipv4 a b c d) port in
        let left : Bytes = take (36 - length pre) rest in
        ap matches (take_longer 36 pre rest (omega (arith, length-preamble.1)))
        ∙ matches-here (pre ++ left) (matches_here-preamble left)

    decimal-IsLine : (k n : ℕ) → IsLine (decimal k n)
    decimal-IsLine k n = IsDigits→IsLine (decimal k n) (decimal-IsDigits k n)

    pub after_line-preamble :
        (rest : Bytes) → after_line (preamble (ipv4 a b c d) port ++ rest) ≡ rest
    unfolding spelled
    after_line-preamble rest =
        let l4 : Bytes = decimal 3 d ++ (slash ∷ decimal 5 port) in
        let l3 : Bytes = decimal 3 c ++ (dot ∷ l4) in
        let l2 : Bytes = decimal 3 b ++ (dot ∷ l3) in
        let l1 : Bytes = decimal 3 a ++ (dot ∷ l2) in
        let ne_dot : dot ≢ newline = ground arith in
        let ne_slash : slash ≢ newline = ground arith in
        let line : IsLine l1 = IsLine-joined (decimal 3 a) l2 dot (decimal-IsLine 3 a) ne_dot (
          IsLine-joined (decimal 3 b) l3 dot (decimal-IsLine 3 b) ne_dot (
            IsLine-joined (decimal 3 c) l4 dot (decimal-IsLine 3 c) ne_dot (
              IsLine-joined (decimal 3 d) (decimal 5 port) slash (decimal-IsLine 3 d) ne_slash
                (decimal-IsLine 5 port)))) in
        ap after_line (
          preamble-spelled rest
          ∙ ap (◌++◌ magic) (
              ends_with_newline dot slash (decimal 3 a) (decimal 3 b) (decimal 3 c) (decimal 3 d)
                (decimal 5 port) rest))
        ∙ after_line-IsLine (magic ++ l1) rest
            (All-append (λ b. b ≢ newline) magic l1 magic-IsLine line)
