-- ===== src/Options/Size.antt =====
-- What dt_optval_parse() makes of a decimal number with a suffix.
use dtrace.Base.{
  ℕ, ◌+◌, ◌-◌, ◌*◌, ◌%◌, ◌^◌, ◌≤◌, ◌<◌, ◌≡◌, refl, ap, ◌∙◌, subst, ◌⊎◌, inl, inr, Bool, true, false,
  ◌&&◌, ◌||◌, some, List, [], ◌∷◌, ◌++◌, arith, ltb, leb, ◌==◌, if◌then◌else◌, Bool-cases,
}
use mathlib.Core.List.{append-nil}
use dtrace.Options.{
  digit_value, take_digits, scan_number, skip_spaces, is_space, take_sign, take_base, after_base,
  starts_digit, multiplier, last, optval_parse, checked, invalid, valid, strtoull, Optval,
}

-- The bytes of a decimal number, and its value behind the digits so far.
abbrev pub IsDecimal : List ℕ → Type 0
IsDecimal [] = Unit {0}
IsDecimal (d ∷ ds) = ((leb b'0' d && leb d b'9') ≡ true) × IsDecimal ds

abbrev pub value_of : List ℕ → (acc : ℕ) → ℕ
value_of [] acc = acc
value_of (d ∷ ds) acc = value_of ds (acc * 10 + (d - b'0'))

-- A text that does not go on with a digit.
abbrev pub IsEnd : List ℕ → Type 0
IsEnd [] = Unit {0}
IsEnd (c ∷ s) = ltb (digit_value c) 10 ≡ false

digit_value_decimal : (d : ℕ) → (leb b'0' d && leb d b'9') ≡ true → digit_value d ≡ d - b'0'
unfolding digit_value
digit_value_decimal d h = rw h refl

take_digits-append :
    (ds rest : List ℕ) (acc : ℕ)
    → IsDecimal ds
    → IsEnd rest
    → take_digits 10 (ds ++ rest) acc ≡ (value_of ds acc, rest)
unfolding take_digits
take_digits-append [] [] acc h e = refl
take_digits-append [] (c ∷ s) acc h e = rw e refl
take_digits-append (d ∷ ds) rest acc (h, hs) e =
    let v = digit_value_decimal d h in
    let small : ltb (d - b'0') 10 ≡ true = ground arith in
    rw (v, small) (take_digits-append ds rest (acc * 10 + (d - b'0')) hs e)

scan_number_decimal :
    (d : ℕ) (ds rest : List ℕ)
    → b'0' < d
    → d ≤ b'9'
    → IsDecimal ds
    → IsEnd rest
    → scan_number ((d ∷ ds) ++ rest)
      ≡ record { neg = false; value = value_of (d ∷ ds) 0; end = rest }
unfolding scan_number skip_spaces is_space take_sign take_base after_base starts_digit
scan_number_decimal d ds rest lo hi hs e =
    let h : (leb b'0' d && leb d b'9') ≡ true = ground arith in
    let v = digit_value_decimal d h in
    let small : ltb (d - b'0') 10 ≡ true = ground arith in
    let no_space : ((d == 32) || (leb 9 d && leb d 13)) ≡ false = ground arith in
    let no_minus : (d == b'-') ≡ false = ground arith in
    let no_plus : (d == b'+') ≡ false = ground arith in
    let no_zero : (d == b'0') ≡ false = ground arith in
    let t = take_digits-append (d ∷ ds) rest 0 (h, hs) e in
    rw (no_space, no_minus, no_plus, no_zero, v, small, t) refl

-- What may follow the digits, with the multiplier.
pub data Suffix : List ℕ → ℕ → Type 0 where
  bare : Suffix [] 1
  kilo : (c : ℕ) → (c ≡ b'k') ⊎ (c ≡ b'K') → Suffix (c ∷ []) (2 ^ 10)
  mega : (c : ℕ) → (c ≡ b'm') ⊎ (c ≡ b'M') → Suffix (c ∷ []) (2 ^ 20)
  giga : (c : ℕ) → (c ≡ b'g') ⊎ (c ≡ b'G') → Suffix (c ∷ []) (2 ^ 30)
  tera : (c : ℕ) → (c ≡ b't') ⊎ (c ≡ b'T') → Suffix (c ∷ []) (2 ^ 40)

-- A suffix as dt_optval_parse() sees it: nothing, or a byte with a multiplier above 1.
data Scaled : List ℕ → ℕ → Type 0 where
  bare : Scaled [] 1
  unit : (c : ℕ) → 1 < multiplier c → Scaled (c ∷ []) (multiplier c)

one_of : (c x y k : ℕ) → multiplier x ≡ k → multiplier y ≡ k → (c ≡ x) ⊎ (c ≡ y) → multiplier c ≡ k
one_of c x y k hx hy (inl e) = ap multiplier e ∙ hx
one_of c x y k hx hy (inr e) = ap multiplier e ∙ hy

Scaled-unit : (c k : ℕ) → 1 < k → multiplier c ≡ k → Scaled (c ∷ []) k
Scaled-unit c k h e = subst (λ m. Scaled (c ∷ []) m) e (unit c (omega (arith, e, h)))

Suffix-Scaled : {rest : List ℕ} {mul : ℕ} → Suffix rest mul → Scaled rest mul
unfolding multiplier
Suffix-Scaled Suffix.bare = Scaled.bare
Suffix-Scaled (kilo c e) =
    Scaled-unit c (2 ^ 10) (omega arith) (one_of c b'k' b'K' (2 ^ 10) refl refl e)
Suffix-Scaled (mega c e) =
    Scaled-unit c (2 ^ 20) (omega arith) (one_of c b'm' b'M' (2 ^ 20) refl refl e)
Suffix-Scaled (giga c e) =
    Scaled-unit c (2 ^ 30) (omega arith) (one_of c b'g' b'G' (2 ^ 30) refl refl e)
Suffix-Scaled (tera c e) =
    Scaled-unit c (2 ^ 40) (omega arith) (one_of c b't' b'T' (2 ^ 40) refl refl e)

multiplier_decimal : (c : ℕ) → (leb b'0' c && leb c b'9') ≡ true → multiplier c ≡ 1
unfolding multiplier
multiplier_decimal c h = ground arith

unit-IsEnd : (c : ℕ) → 1 < multiplier c → ltb (digit_value c) 10 ≡ false
unfolding digit_value
unit-IsEnd c h = elim (Bool-cases (leb b'0' c && leb c b'9')) [
  | inl t ↦ let m = multiplier_decimal c t in absurd (omega (arith, m, h))
  | inr f ↦ ground arith
]

last-append : (xs : List ℕ) (c : ℕ) → last (xs ++ (c ∷ [])) ≡ some c
unfolding last
last-append [] c = refl
last-append (x ∷ []) c = refl
last-append (x ∷ y ∷ xs) c = last-append (y ∷ xs) c

last_decimal :
    (d : ℕ) (ds : List ℕ)
    → IsDecimal (d ∷ ds)
    → (c : ℕ) × ((last (d ∷ ds) ≡ some c) × ((leb b'0' c && leb c b'9') ≡ true))
unfolding last
last_decimal d [] (h, hs) = (d, (refl, h))
last_decimal d (e ∷ ds) (h, hs) = last_decimal e ds hs

Scaled-IsEnd : {rest : List ℕ} {mul : ℕ} → Scaled rest mul → IsEnd rest
Scaled-IsEnd Scaled.bare = tt
Scaled-IsEnd (unit c m) = unit-IsEnd c m

optval_parse-last :
    (s : List ℕ) (c : ℕ) → last s ≡ some c → optval_parse s ≡ checked (multiplier c) (scan_number s)
unfolding optval_parse
optval_parse-last s c e = rw (e, optval_parse) refl

optval_parse-checked :
    (d : ℕ) (ds : List ℕ) {rest : List ℕ} {mul : ℕ}
    → IsDecimal (d ∷ ds)
    → Scaled rest mul
    → optval_parse ((d ∷ ds) ++ rest) ≡ checked mul (scan_number ((d ∷ ds) ++ rest))
optval_parse-checked d ds h Scaled.bare =
    let (c, (e, t)) = last_decimal d ds h in
    optval_parse-last ((d ∷ ds) ++ []) c (ap last (append-nil (d ∷ ds)) ∙ e)
    ∙ ap (λ m. checked m (scan_number ((d ∷ ds) ++ []))) (multiplier_decimal c t)
optval_parse-checked d ds h (unit c m) =
    optval_parse-last ((d ∷ ds) ++ (c ∷ [])) c (last-append (d ∷ ds) c)

invalid_or_true : (b : Bool) (r : Optval) → (if b || true then invalid else r) ≡ invalid
invalid_or_true true r = refl
invalid_or_true false r = refl

or_false :
    (b : Bool) (r : Optval) → (if b || false then invalid else r) ≡ (if b then invalid else r)
or_false true r = refl
or_false false r = refl

-- The test of the end passes behind each suffix.
checked-Scaled :
    {rest : List ℕ} {mul : ℕ} (v : ℕ)
    → Scaled rest mul
    → checked mul (record { neg = false; value = v; end = rest }) ≡ (
        let r = strtoull (record { neg = false; value = v; end = rest }) * mul % 2 ^ 64 in
        if leb (2 ^ 63) r || leb (2 ^ 64) v then invalid else valid r)
unfolding checked
checked-Scaled v Scaled.bare = refl
checked-Scaled v (unit c m) =
    let many : ltb 1 (multiplier c) ≡ true = ground arith in
    let other : (multiplier c == 1) ≡ false = ground arith in rw (many, other) refl

checked_decimal :
    (v : ℕ) (rest : List ℕ) (mul : ℕ)
    → Scaled rest mul
    → checked mul (record { neg = false; value = v; end = rest }) ≡ (
        if leb (2 ^ 64) v || leb (2 ^ 63) (v * mul % 2 ^ 64)
        then invalid
        else valid (v * mul % 2 ^ 64))
unfolding strtoull
checked_decimal v rest mul u = elim (Bool-cases (leb (2 ^ 64) v)) [
  | inl big ↦
      checked-Scaled v u
      ∙ rw big (
          invalid_or_true (leb (2 ^ 63) ((2 ^ 64 - 1) * mul % 2 ^ 64))
            (valid ((2 ^ 64 - 1) * mul % 2 ^ 64)))
  | inr fits ↦
      checked-Scaled v u
      ∙ rw fits (or_false (leb (2 ^ 63) (v * mul % 2 ^ 64)) (valid (v * mul % 2 ^ 64)))
]

-- dt_optval_parse() of a decimal number with no zero in front and nothing or one suffix behind,
-- where k, m, g and t of either case stand for 2^10, 2^20, 2^30 and 2^40, returns -1 if the number
-- is 2^64 or more or its product with that multiplier modulo 2^64 is 2^63 or more, and else 0 with
-- that product modulo 2^64.
pub optval_parse_decimal :
    (d : ℕ) (ds : List ℕ) {rest : List ℕ} {mul : ℕ}
    → b'0' < d
    → d ≤ b'9'
    → IsDecimal ds
    → Suffix rest mul
    → let v = value_of (d ∷ ds) 0 in
      optval_parse ((d ∷ ds) ++ rest) ≡ (
        if leb (2 ^ 64) v || leb (2 ^ 63) (v * mul % 2 ^ 64)
        then invalid
        else valid (v * mul % 2 ^ 64))
optval_parse_decimal d ds {rest} {mul} lo hi hs suffix =
    let u = Suffix-Scaled suffix in
    let h : (leb b'0' d && leb d b'9') ≡ true = ground arith in
    optval_parse-checked d ds (h, hs) u
    ∙ ap (λ n. checked mul n) (scan_number_decimal d ds rest lo hi hs (Scaled-IsEnd u))
    ∙ checked_decimal (value_of (d ∷ ds) 0) rest mul u
