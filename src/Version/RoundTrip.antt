-- ===== src/Version/RoundTrip.antt =====
-- dt_version_str2num() reads what dt_version_num2str() writes.
use dtrace.Base.{
  ℕ, ◌+◌, ◌*◌, ◌/◌, ◌%◌, ◌^◌, ◌≤◌, ◌<◌, ◌≡◌, refl, sym, ap, ◌∙◌, inl, inr, false, ◌||◌, Option,
  none, some, List, [], ◌∷◌, ◌++◌, arith, ◌==◌, if◌then◌else◌, Bool-cases, length-append, take_all,
}
use mathlib.Core.List.{append_assoc, append-nil}
use dtrace.Version.{
  version_number, version_major, version_minor, version_micro, print_u, num2str, parse, int_above,
  check_fields, str2num, maj_max, min_max, mic_max,
}
use dtrace.Version.Decimal.{parse-print_u, length-print_u}

parse_dot : (s : List ℕ) (i : ℕ) (n : List ℕ) → i < 2 → parse (b'.' ∷ s) i n ≡ parse s (i + 1) n
unfolding parse
parse_dot s i n h = ground arith

parse_end : (i : ℕ) (n : List ℕ) → parse [] i n ≡ some n
unfolding parse
parse_end i n = refl

-- Two numbers, and what follows.
parse_two :
    (a b : ℕ) (rest : List ℕ)
    → a < 2 ^ 32
    → b < 2 ^ 32
    → parse (print_u a ++ (b'.' ∷ (print_u b ++ rest))) 0 (0 ∷ 0 ∷ 0 ∷ [])
      ≡ parse rest 1 (a ∷ b ∷ 0 ∷ [])
parse_two a b rest sa sb =
    parse-print_u a (b'.' ∷ (print_u b ++ rest)) 0 (0 ∷ 0 ∷ 0 ∷ []) sa (omega arith) refl
    ∙ parse_dot (print_u b ++ rest) 0 (a ∷ 0 ∷ 0 ∷ []) (omega arith)
    ∙ parse-print_u b rest 1 (a ∷ 0 ∷ 0 ∷ []) sb (omega arith) refl

-- The text of three numbers.
abbrev pub dotted : (a b c : ℕ) → List ℕ
dotted a b c = print_u a ++ (b'.' ∷ (print_u b ++ (b'.' ∷ print_u c)))

parse_three :
    (a b c : ℕ)
    → a < 2 ^ 32
    → b < 2 ^ 32
    → c < 2 ^ 32
    → parse (dotted a b c) 0 (0 ∷ 0 ∷ 0 ∷ []) ≡ some (a ∷ b ∷ c ∷ [])
parse_three a b c sa sb sc =
    parse_two a b (b'.' ∷ print_u c) sa sb
    ∙ parse_dot (print_u c) 1 (a ∷ b ∷ 0 ∷ []) (omega arith)
    ∙ ap (λ l. parse l 2 (a ∷ b ∷ 0 ∷ [])) (sym (append-nil (print_u c)))
    ∙ parse-print_u c [] 2 (a ∷ b ∷ 0 ∷ []) sc (omega arith) refl
    ∙ parse_end 2 (a ∷ b ∷ c ∷ [])

abbrev pub InRange : (a b c : ℕ) → Type 0
InRange a b c = (a ≤ maj_max) × (b ≤ min_max) × (c ≤ mic_max)

-- How three numbers are taken.
pub data Packs (a b c : ℕ) : Option ℕ → Type 0 where
  packed :
      {v : ℕ}
      → InRange a b c
      → version_major v ≡ a
      → version_minor v ≡ b
      → version_micro v ≡ c
      → v < 2 ^ 32
      → Packs a b c (some v)
  rejected : (InRange a b c → ⊥) → Packs a b c none

in_range :
    (a b c : ℕ)
    → a < 2 ^ 31
    → b < 2 ^ 31
    → c < 2 ^ 31
    → (int_above a maj_max || (int_above b min_max || int_above c mic_max)) ≡ false
    → InRange a b c
in_range a b c sa sb sc e = (ground arith, ground arith, ground arith)

check_fields-Packs :
    (a b c : ℕ) → a < 2 ^ 31 → b < 2 ^ 31 → c < 2 ^ 31 → Packs a b c (check_fields (a ∷ b ∷ c ∷ []))
unfolding check_fields version_number version_major version_minor version_micro
check_fields-Packs a b c sa sb sc =
    elim (Bool-cases (int_above a maj_max || (int_above b min_max || int_above c mic_max))) [
      | inl bad ↦ rw bad (rejected (λ (h : InRange a b c). ground (arith, h.0, h.1, h.2)))
      | inr good ↦
          let (x, y, z) = in_range a b c sa sb sc good in
          rw good (packed (x, y, z) (omega arith) (omega arith) (omega arith) (omega arith))
    ]

-- dt_version_str2num() of three numbers below 2^31 with dots between them gives a packed number
-- whose fields are these numbers if they are at most 255, 4095 and 4095, and fails if not.
pub str2num-Packs :
    (a b c : ℕ) → a < 2 ^ 31 → b < 2 ^ 31 → c < 2 ^ 31 → Packs a b c (str2num (dotted a b c))
unfolding str2num
str2num-Packs a b c sa sb sc =
    rw (parse_three a b c (omega arith) (omega arith) (omega arith), str2num)
      (check_fields-Packs a b c sa sb sc)

num2str_text : ℕ → List ℕ
unfolding version_major version_minor version_micro
num2str_text v =
    if version_micro v == 0
    then print_u (version_major v) ++ (b'.' ∷ print_u (version_minor v))
    else dotted (version_major v) (version_minor v) (version_micro v)

-- A buffer of DT_VERSION_STRMAX bytes holds the whole text.
num2str_fits : (v : ℕ) → num2str v 16 ≡ num2str_text v
unfolding num2str num2str_text
num2str_fits v =
    let a =
      length-print_u (version_major v) 2 (unfold version_major in omega arith) (omega arith) in
    let b =
      length-print_u (version_minor v) 3 (unfold version_minor in omega arith) (omega arith) in
    let c =
      length-print_u (version_micro v) 3 (unfold version_micro in omega arith) (omega arith) in
    elim (Bool-cases (version_micro v == 0)) [
      | inl z ↦ rw z (
          take_all 15 _ (
            omega (
              arith,
              length-append (print_u (version_major v)) (b'.' ∷ print_u (version_minor v)),
            )))
      | inr nz ↦
          rw (nz, append_assoc)
            (take_all 15 _ (
              omega (
                arith,
                length-append (print_u (version_major v))
                    (b'.' ∷ (print_u (version_minor v) ++ (b'.' ∷ print_u (version_micro v)))),
                length-append (print_u (version_minor v)) (b'.' ∷ print_u (version_micro v)),
              )))
    ]

-- The fields of a 32-bit number make it up.
number_of_fields :
    (v : ℕ)
    → v < 2 ^ 32
    → check_fields (version_major v ∷ version_minor v ∷ version_micro v ∷ []) ≡ some v
unfolding check_fields version_number version_major version_minor version_micro
number_of_fields v small =
    let e : v / 2 ^ 24 % 2 ^ 8 % 2 ^ 8 * 2 ^ 24
          + v / 2 ^ 12 % 2 ^ 12 % 2 ^ 12 * 2 ^ 12
          + v % 2 ^ 12 % 2 ^ 12
        ≡ v =
      omega arith in
    let ok : (int_above (v / 2 ^ 24 % 2 ^ 8) maj_max
          || (int_above (v / 2 ^ 12 % 2 ^ 12) min_max || int_above (v % 2 ^ 12) mic_max))
        ≡ false =
      ground arith in
    rw (ok, e) refl

str2num-parse : (s n : List ℕ) → parse s 0 (0 ∷ 0 ∷ 0 ∷ []) ≡ some n → str2num s ≡ check_fields n
unfolding str2num
str2num-parse s n e = rw (e, str2num) refl

parse-num2str_text :
    (v : ℕ)
    → parse (num2str_text v) 0 (0 ∷ 0 ∷ 0 ∷ [])
      ≡ some (version_major v ∷ version_minor v ∷ version_micro v ∷ [])
unfolding num2str_text
parse-num2str_text v =
    let a : version_major v < 2 ^ 32 = unfold version_major in omega arith in
    let b : version_minor v < 2 ^ 32 = unfold version_minor in omega arith in
    let c : version_micro v < 2 ^ 32 = unfold version_micro in omega arith in
    elim (Bool-cases (version_micro v == 0)) [
      | inl z ↦
          let e : version_micro v ≡ 0 = ground arith in
          rw z (
            ap (λ l. parse (print_u (version_major v) ++ (b'.' ∷ l)) 0 (0 ∷ 0 ∷ 0 ∷ []))
              (sym (append-nil (print_u (version_minor v))))
            ∙ parse_two (version_major v) (version_minor v) [] a b
            ∙ parse_end 1 _
            ∙ ap (λ m. some (version_major v ∷ version_minor v ∷ m ∷ [])) (sym e))
      | inr nz ↦ rw nz (parse_three (version_major v) (version_minor v) (version_micro v) a b c)
    ]

-- dt_version_str2num() of what dt_version_num2str() writes for a 32-bit number, into a buffer of
-- DT_VERSION_STRMAX bytes, gives the number back.
pub str2num-num2str : (v : ℕ) → v < 2 ^ 32 → str2num (num2str v 16) ≡ some v
str2num-num2str v small =
    ap str2num (num2str_fits v)
    ∙ str2num-parse (num2str_text v) _ (parse-num2str_text v)
    ∙ number_of_fields v small
