-- ===== src/Text/Escape.antt =====
-- stresc2chr() undoes strchr2esc(), and neither writes past its memory.
use dtrace.Base.{
  ℕ, ◌+◌, ◌-◌, ◌*◌, ◌/◌, ◌%◌, ◌^◌, ◌≤◌, ◌<◌, ◌≡◌, refl, sym, ap, ◌∙◌, subst, ◌≢◌, inl, inr, true,
  false, Option, none, some, List, [], ◌∷◌, ◌++◌, arith, ◌==◌, if◌then◌else◌, Bool-cases,
  Option-cases, length, drop,
}
use dtrace.Text.{
  Mode, plain, esc, oct1, oct2, hex, is_oct, letter, hex_digit, start, stresc2chr_in, stresc2chr,
  letter_of, unprintable, addl_by, addl, escaped_by, strchr2esc,
}

-- A letter escape other than that of NUL is read back.
letter-letter_of :
    (c l : ℕ)
    → c ≢ 0
    → letter_of c ≡ some l
    → (is_oct l ≡ false) × ((l == b'x') ≡ false) × (letter l ≡ some c)
unfolding letter letter_of
letter-letter_of c l h e = ground arith

read_letter :
    (c l : ℕ) (rest : List ℕ)
    → c ≢ 0
    → letter_of c ≡ some l
    → stresc2chr_in plain (92 ∷ l ∷ rest) ≡ c ∷ stresc2chr_in plain rest
unfolding stresc2chr_in
read_letter c l rest h e = let (a, b, d) = letter-letter_of c l h e in rw (a, b, d) refl

read_octal :
    (c : ℕ) (rest : List ℕ)
    → c < 256
    → stresc2chr_in plain (92 ∷ (c / 64 % 4 + b'0') ∷ (c / 8 % 8 + b'0') ∷ (c % 8 + b'0') ∷ rest)
      ≡ c ∷ stresc2chr_in plain rest
unfolding stresc2chr_in
read_octal c rest h =
    let a : is_oct (c / 64 % 4 + b'0') ≡ true = ground arith in
    let b : is_oct (c / 8 % 8 + b'0') ≡ true = ground arith in
    let d : is_oct (c % 8 + b'0') ≡ true = ground arith in
    let v : (((c / 64 % 4 + b'0' - b'0') * 8 + (c / 8 % 8 + b'0' - b'0')) * 8
            + (c % 8 + b'0' - b'0'))
          % 256
        ≡ c =
      omega arith in
    rw (a, b, d, v) refl

-- What the loop reads back from an escaped byte.
read-escaped :
    (c : ℕ) (rest : List ℕ) (o : Option ℕ)
    → c ≢ 0
    → c < 256
    → letter_of c ≡ o
    → stresc2chr_in plain (escaped_by c o ++ rest) ≡ c ∷ stresc2chr_in plain rest
unfolding escaped_by
read-escaped c rest (some l) h small e = read_letter c l rest h e
read-escaped c rest none h small e =
    let e' : (c == 92) ≡ false = unfold letter_of in ground arith in
    let as_is : stresc2chr_in plain (c ∷ rest) ≡ c ∷ stresc2chr_in plain rest =
      unfold stresc2chr_in in rw e' refl in
    elim (Bool-cases (c == b' ')) [
      | inl sp ↦ rw sp as_is
      | inr ns ↦ elim (Bool-cases (unprintable c)) [
        | inl un ↦ rw (ns, un) (read_octal c rest small)
        | inr pr ↦ rw (ns, pr) as_is
      ]
    ]

-- A string up to its first NUL, that NUL included.
unfoldable pub upto_nul : List ℕ → List ℕ
upto_nul [] = []
upto_nul (c ∷ s) = c ∷ (if c == 0 then [] else upto_nul s)

abbrev pub AreBytes : List ℕ → Type 0
AreBytes [] = Unit {0}
AreBytes (c ∷ s) = (c < 256) × AreBytes s

read_nul : stresc2chr_in plain (escaped_by 0 (letter_of 0) ++ []) ≡ 0 ∷ []
unfolding escaped_by letter_of stresc2chr_in
read_nul = refl

-- stresc2chr() of what strchr2esc() makes of any bytes gives those bytes back, up to and with the
-- first NUL.
pub stresc2chr-strchr2esc : (s : List ℕ) → AreBytes s → stresc2chr (strchr2esc s) ≡ upto_nul s
unfolding stresc2chr strchr2esc upto_nul
stresc2chr-strchr2esc [] ok = unfold stresc2chr_in in refl
stresc2chr-strchr2esc (c ∷ s) (small, ok) = elim (Bool-cases (c == 0)) [
  | inl z ↦
      let e : c ≡ 0 = ground arith in
      rw z (
        subst (λ k. stresc2chr_in plain (escaped_by k (letter_of k) ++ []) ≡ k ∷ []) (sym e)
          read_nul)
  | inr nz ↦ rw nz (
      read-escaped c (strchr2esc s) (letter_of c) (ground arith) small refl
      ∙ ap (λ l. c ∷ l) (stresc2chr-strchr2esc s ok))
]

length-escaped_by :
    (c : ℕ) (o : Option ℕ) (rest : List ℕ)
    → length (escaped_by c o ++ rest) ≡ addl_by c o + 1 + length rest
unfolding escaped_by addl_by
length-escaped_by c (some l) rest = omega arith
length-escaped_by c none rest = elim (Bool-cases (c == b' ')) [
  | inl sp ↦ rw sp (omega arith)
  | inr ns ↦ elim (Bool-cases (unprintable c)) [
    | inl un ↦ rw (ns, un) (omega arith)
    | inr pr ↦ rw (ns, pr) (omega arith)
  ]
]

addl_nil : (s : List ℕ) → length s ≡ 0 → addl s ≡ 0
unfolding addl
addl_nil [] e = refl
addl_nil (c ∷ s) e = absurd (omega (arith, e))

-- The n + addl + 1 bytes that strchr2esc() allocates hold its result and the NUL, and are all used
-- if no NUL stands in the string before its last byte.
pub length-strchr2esc :
    (s : List ℕ)
    → (length (strchr2esc s) + 1 ≤ length s + addl s + 1)
      × (upto_nul s ≡ s → length (strchr2esc s) + 1 ≡ length s + addl s + 1)
unfolding strchr2esc addl upto_nul
length-strchr2esc [] = (omega arith, λ e. omega arith)
length-strchr2esc (c ∷ s) =
    let (small, exact) = length-strchr2esc s in
    let here = length-escaped_by c (letter_of c) in
    elim (Bool-cases (c == 0)) [
      | inl z ↦ rw z (
        omega (arith, here []),
        λ e. omega (arith, here [], ap length e, addl_nil s (omega (arith, ap length e))),
      )
      | inr nz ↦ rw nz (
        omega (arith, here (strchr2esc s)),
        λ e. omega (arith, here (strchr2esc s), exact (ap (drop 1) e)),
      )
    ]

-- The bytes of the string that the loop has read and not yet answered for.
abbrev owed : Mode → ℕ
owed plain = 0
owed esc = 1
owed (oct1 v) = 1
owed (oct2 v) = 1
owed (hex x) = 1

length-start :
    (c : ℕ) (e p : List ℕ) (n : ℕ) → length e ≤ n + 1 → length p ≤ n → length (start c e p) ≤ n + 1
length-start c e p n h k = elim (Bool-cases (c == 92)) [
  | inl b ↦ rw b h
  | inr b ↦ rw b (omega arith)
]

started :
    (c : ℕ) (s : List ℕ)
    → length (stresc2chr_in esc s) ≤ length s + 1
    → length (stresc2chr_in plain s) ≤ length s + 0
    → length (start c (stresc2chr_in esc s) (stresc2chr_in plain s)) ≤ length s + 1
started c s h k =
    length-start c (stresc2chr_in esc s) (stresc2chr_in plain s) (length s) h (omega arith)

length-stresc2chr_in : (m : Mode) (s : List ℕ) → length (stresc2chr_in m s) ≤ length s + owed m
unfolding stresc2chr_in
length-stresc2chr_in plain [] = omega arith
length-stresc2chr_in esc [] = omega arith
length-stresc2chr_in (oct1 v) [] = omega arith
length-stresc2chr_in (oct2 v) [] = omega arith
length-stresc2chr_in (hex x) [] = omega arith
length-stresc2chr_in plain (c ∷ s) =
    omega (arith, started c s (length-stresc2chr_in esc s) (length-stresc2chr_in plain s))
length-stresc2chr_in esc (c ∷ s) = elim (Bool-cases (is_oct c)) [
  | inl o ↦ rw o (omega (arith, length-stresc2chr_in (oct1 (c - b'0')) s))
  | inr other ↦ elim (Bool-cases (c == b'x')) [
    | inl x ↦ rw (other, x) (omega (arith, length-stresc2chr_in (hex 0) s))
    | inr nx ↦ elim (Option-cases (letter c)) [
      | inl e ↦ rw (other, nx, e) (omega (arith, length-stresc2chr_in plain s))
      | inr (l, e) ↦ rw (other, nx, e) (omega (arith, length-stresc2chr_in plain s))
    ]
  ]
]
length-stresc2chr_in (oct1 v) (c ∷ s) = elim (Bool-cases (is_oct c)) [
  | inl o ↦ rw o (omega (arith, length-stresc2chr_in (oct2 (v * 8 + (c - b'0'))) s))
  | inr other ↦
      rw other
        (omega (arith, started c s (length-stresc2chr_in esc s) (length-stresc2chr_in plain s)))
]
length-stresc2chr_in (oct2 v) (c ∷ s) = elim (Bool-cases (is_oct c)) [
  | inl o ↦ rw o (omega (arith, length-stresc2chr_in plain s))
  | inr other ↦
      rw other
        (omega (arith, started c s (length-stresc2chr_in esc s) (length-stresc2chr_in plain s)))
]
length-stresc2chr_in (hex x) (c ∷ s) = elim (Option-cases (hex_digit c)) [
  | inr (d, e) ↦
      rw (e, stresc2chr_in) (omega (arith, length-stresc2chr_in (hex ((x * 16 + d) % 2 ^ 32)) s))
  | inl e ↦
      rw (e, stresc2chr_in)
        (omega (arith, started c s (length-stresc2chr_in esc s) (length-stresc2chr_in plain s)))
]

-- stresc2chr() writes no more bytes than the string has, so it can work in place.
pub length-stresc2chr : (s : List ℕ) → length (stresc2chr s) ≤ length s
unfolding stresc2chr
length-stresc2chr s = omega (arith, length-stresc2chr_in plain s)
