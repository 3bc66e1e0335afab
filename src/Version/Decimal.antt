-- ===== src/Version/Decimal.antt =====
-- Reading a decimal number that %u printed.
use dtrace.Base.{
  ℕ, zero, suc, ◌+◌, ◌-◌, ◌*◌, ◌/◌, ◌%◌, ◌^◌, ◌≤◌, ◌<◌, ◌≡◌, refl, ap, ◌∙◌, inl, inr, true, List,
  [], ◌∷◌, ◌++◌, arith, ltb, Bool-cases, ltb→lt, lt→ltb, length, set, length-append, get_or,
  get_or-set,
}
use mathlib.Core.List.{append_assoc}
use native.Mathlib.Nat.{pow-suc}
use dtrace.Version.{decimal, print_u, parse, is_digit}

set-set : (xs : List ℕ) (i v w : ℕ) → set (set xs i v) i w ≡ set xs i w
set-set [] i v w = refl
set-set (x ∷ xs) zero v w = refl
set-set (x ∷ xs) (suc i) v w = ap (λ l. x ∷ l) (set-set xs i v w)

parse_digit :
    (d : ℕ) (s : List ℕ) (i : ℕ) (n : List ℕ)
    → d < 10
    → parse ((d + b'0') ∷ s) i n ≡ parse s i (set n i ((get_or n i 0 * 10 + d) % 2 ^ 32))
unfolding parse
parse_digit d s i n h =
    let dig : is_digit (d + b'0') ≡ true = ground arith in
    let e : d + b'0' - b'0' ≡ d = omega arith in rw (dig, e) refl

parse-decimal :
    (fuel n : ℕ) (rest : List ℕ) (i : ℕ) (f : List ℕ)
    → n < 2 ^ 32
    → n < 10 ^ suc fuel
    → i < length f
    → get_or f i 0 ≡ 0
    → parse (decimal fuel n ++ rest) i f ≡ parse rest i (set f i n)
unfolding decimal
parse-decimal zero n rest i f small fits inside e =
    let v : (get_or f i 0 * 10 + n % 10) % 2 ^ 32 ≡ n = omega (arith, e) in
    parse_digit (n % 10) rest i f (omega arith) ∙ ap (λ k. parse rest i (set f i k)) v
parse-decimal (suc fuel) n rest i f small fits inside e = elim (Bool-cases (ltb n 10)) [
  | inl one ↦
      let v : (get_or f i 0 * 10 + n % 10) % 2 ^ 32 ≡ n = omega (arith, e, ltb→lt n 10 one) in
      rw one (parse_digit (n % 10) rest i f (omega arith) ∙ ap (λ k. parse rest i (set f i k)) v)
  | inr many ↦
      let m = n / 10 in
      let top : get_or (set f i m) i 0 ≡ m = get_or-set f i i m 0 inside ∙ ground arith in
      let v : (get_or (set f i m) i 0 * 10 + n % 10) % 2 ^ 32 ≡ n = omega (arith, top) in
      rw (many, append_assoc)
        (parse-decimal fuel m ((n % 10 + b'0') ∷ rest) i f (omega arith)
            (omega (arith, pow-suc 10 (suc fuel))) inside e
          ∙ parse_digit (n % 10) rest i (set f i m) (omega arith)
          ∙ ap (λ k. parse rest i (set (set f i m) i k)) v
          ∙ ap (λ l. parse rest i l) (set-set f i m n))
]

pub parse-print_u :
    (n : ℕ) (rest : List ℕ) (i : ℕ) (f : List ℕ)
    → n < 2 ^ 32
    → i < length f
    → get_or f i 0 ≡ 0
    → parse (print_u n ++ rest) i f ≡ parse rest i (set f i n)
unfolding print_u
parse-print_u n rest i f small inside e = parse-decimal 9 n rest i f small (omega arith) inside e

length-decimal :
    (fuel n digits : ℕ) → n < 10 ^ suc digits → digits ≤ fuel → length (decimal fuel n) ≤ suc digits
unfolding decimal
length-decimal zero n digits small h = omega arith
length-decimal (suc fuel) n zero small h =
    let one : ltb n 10 ≡ true = lt→ltb n 10 (omega arith) in rw one (omega arith)
length-decimal (suc fuel) n (suc digits) small h = elim (Bool-cases (ltb n 10)) [
  | inl one ↦ rw one (omega arith)
  | inr many ↦
      let shorter =
        length-decimal fuel (n / 10) digits (omega (arith, pow-suc 10 (suc digits)))
          (omega arith) in
      rw many (omega (arith, shorter, length-append (decimal fuel (n / 10)) ((n % 10 + b'0') ∷ [])))
]

pub length-print_u :
    (n digits : ℕ) → n < 10 ^ suc digits → digits ≤ 9 → length (print_u n) ≤ suc digits
unfolding print_u
length-print_u n digits small h = length-decimal 9 n digits small h
