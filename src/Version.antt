-- ===== src/Version.antt =====
-- Version numbers, libdtrace/dt_version.c and dt_version.h.
-- A string is the list of its bytes. An `int` that runs over wraps at 2^32 and is negative from
-- 2^31 on (the standard leaves that open). A field of the packed number is shifted into place by a
-- product, and the fields do not overlap, so that their union is a sum.
use dtrace.Base.{
  ℕ, zero, suc, ◌+◌, ◌-◌, ◌*◌, ◌/◌, ◌%◌, ◌^◌, ◌≤◌, ◌<◌, min, max, ◌≡◌, refl, sym, ap, ◌∙◌, fun_ext,
  subst, ◌≢◌, ◌↔◌, ◌⊎◌, inl, inr, Bool, true, false, not, ◌&&◌, ◌||◌, Option, none, some, List, [],
  ◌∷◌, ◌++◌, map, arith, ltb, leb, ◌==◌, if◌then◌else◌, Bool-cases, Option-cases, ==_iff, ltb→lt,
  lt→ltb, leb→le, length, get_elem?, set, length-append, length-set, get_or, take, drop, replicate,
  length-replicate, length-take, length-drop, take-append_add, take-append_le, take_add, take_all,
  take-take, get_or-set, get_or-replicate, total, total-set, total-replicate,
}
pub mod Decimal
pub mod RoundTrip
pub mod Examples

abbrev pub maj_max : ℕ
maj_max = 255

abbrev pub min_max : ℕ
min_max = 4095

abbrev pub mic_max : ℕ
mic_max = 4095

pub version_number : (maj min mic : ℕ) → ℕ
version_number maj min mic = maj % 2 ^ 8 * 2 ^ 24 + min % 2 ^ 12 * 2 ^ 12 + mic % 2 ^ 12

pub version_major : ℕ → ℕ
version_major v = v / 2 ^ 24 % 2 ^ 8

pub version_minor : ℕ → ℕ
version_minor v = v / 2 ^ 12 % 2 ^ 12

pub version_micro : ℕ → ℕ
version_micro v = v % 2 ^ 12

-- What %u prints, with as much fuel as the number has digits.
pub decimal : (fuel : ℕ) → ℕ → List ℕ
decimal zero n = (n % 10 + b'0') ∷ []
decimal (suc fuel) n =
    let more = decimal fuel (n / 10) in
    if ltb n 10 then (n % 10 + b'0') ∷ [] else more ++ ((n % 10 + b'0') ∷ [])

-- Ten digits are enough for an unsigned int.
pub print_u : ℕ → List ℕ
print_u n = decimal 9 n

-- snprintf() keeps all but the last byte of the buffer for the text.
pub num2str : (v len : ℕ) → List ℕ
num2str v len =
    let dot : List ℕ = b'.' ∷ [] in
    let maj_min = print_u (version_major v) ++ (dot ++ print_u (version_minor v)) in
    take (len - 1)
      (if version_micro v == 0 then maj_min else maj_min ++ (dot ++ print_u (version_micro v)))

abbrev pub is_digit : ℕ → Bool
is_digit c = leb b'0' c && leb c b'9'

-- The loop of dt_version_str2num() over the three numbers; `none` is its return of -1.
pub parse : List ℕ → (i : ℕ) → (n : List ℕ) → Option (List ℕ)
parse [] i n = some n
parse (c ∷ s) i n =
    let digit = parse s i (set n i ((get_or n i 0 * 10 + (c - b'0')) % 2 ^ 32)) in
    let next = parse s (i + 1) n in
    if is_digit c then digit else if not (c == b'.') || leb 2 i then none else next

-- `a > b` of an int and a constant.
abbrev pub int_above : ℕ → ℕ → Bool
int_above a b = ltb a (2 ^ 31) && ltb b a

pub check_fields : List ℕ → Option ℕ
check_fields n =
    if int_above (get_or n 0 0) maj_max
      || (int_above (get_or n 1 0) min_max || int_above (get_or n 2 0) mic_max)
    then none
    else some (version_number (get_or n 0 0) (get_or n 1 0) (get_or n 2 0))

-- The number that dt_version_str2num() stores, and `none` where it returns -1.
pub str2num : List ℕ → Option ℕ
str2num s = elim (parse s 0 (0 ∷ 0 ∷ 0 ∷ [])) [ none ↦ none | some n ↦ check_fields n ]

-- The search of dt_version_defined() in the table of versions.
pub defined : (versions : List ℕ) → ℕ → Bool
defined [] v = false
defined (w ∷ versions) v = let rest = defined versions v in if w == v then true else rest
