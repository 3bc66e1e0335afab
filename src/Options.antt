-- ===== src/Options.antt =====
-- The values of options: dt_optval_parse(), dt_opt_size() and dt_opt_rate() of
-- libdtrace/dt_options.c. A string is the list of its bytes before the NUL; an option's value is a
-- 64-bit pattern.
use dtrace.Base.{
  ℕ, zero, suc, ◌+◌, ◌-◌, ◌*◌, ◌/◌, ◌%◌, ◌^◌, ◌≤◌, ◌<◌, min, max, ◌≡◌, refl, sym, ap, ◌∙◌, fun_ext,
  subst, ◌≢◌, ◌↔◌, ◌⊎◌, inl, inr, Bool, true, false, not, ◌&&◌, ◌||◌, Option, none, some, List, [],
  ◌∷◌, ◌++◌, map, arith, ltb, leb, ◌==◌, if◌then◌else◌, Bool-cases, Option-cases, ==_iff, ltb→lt,
  lt→ltb, leb→le, length, get_elem?, set, length-append, length-set, get_or, take, drop, replicate,
  length-replicate, length-take, length-drop, take-append_add, take-append_le, take_add, take_all,
  take-take, get_or-set, get_or-replicate, total, total-set, total-replicate,
}
use dtrace.Attr.{strcasecmp}
pub mod Size
pub mod Examples

-- strtoull() and strtoll() with a base of 0.
pub is_space : ℕ → Bool
is_space c = (c == 32) || (leb 9 c && leb c 13)

-- The value of a byte as a digit, and 36 if it is none.
pub digit_value : ℕ → ℕ
digit_value c =
    if leb b'0' c && leb c b'9'
    then c - b'0'
    else if leb b'a' c && leb c b'z'
    then c - b'a' + 10
    else if leb b'A' c && leb c b'Z'
    then c - b'A' + 10
    else 36

pub skip_spaces : List ℕ → List ℕ
skip_spaces [] = []
skip_spaces (c ∷ s) = let rest = skip_spaces s in if is_space c then rest else c ∷ s

-- Whether there is a '-', and what follows the sign.
pub take_sign : List ℕ → Bool × List ℕ
take_sign [] = (false, [])
take_sign (c ∷ s) =
    if c == b'-' then (true, s) else if c == b'+' then (false, s) else (false, c ∷ s)

pub starts_digit : (base : ℕ) → List ℕ → Bool
starts_digit base [] = false
starts_digit base (c ∷ s) = ltb (digit_value c) base

-- What follows a '0': a digit of base 16 behind an 'x' makes the base 16, else it is 8.
pub zero_base : (behind : List ℕ) → ℕ × List ℕ
zero_base [] = (8, b'0' ∷ [])
zero_base (c ∷ s) =
    if ((c == b'x') || (c == b'X')) && starts_digit 16 s then (16, s) else (8, b'0' ∷ (c ∷ s))

pub take_base : List ℕ → ℕ × List ℕ
take_base [] = (10, [])
take_base (c ∷ s) = let z = zero_base s in if c == b'0' then z else (10, c ∷ s)

pub take_digits : (base : ℕ) → List ℕ → (acc : ℕ) → ℕ × List ℕ
take_digits base [] acc = (acc, [])
take_digits base (c ∷ s) acc =
    let rest = take_digits base s (acc * base + digit_value c) in
    if ltb (digit_value c) base then rest else (acc, c ∷ s)

-- The sign, the value before any limit, and what follows the number: all of the string if there is
-- no digit.
pub record Number : Type 0 where
  pub neg : Bool
  pub value : ℕ
  pub end : List ℕ

pub after_base : (arg : List ℕ) → (neg : Bool) → ℕ × List ℕ → Number
after_base arg neg (base, s) =
    let (v, rest) = take_digits base s 0 in
    if starts_digit base s
    then record { neg = neg; value = v; end = rest }
    else record { neg = false; value = 0; end = arg }

pub scan_number : List ℕ → Number
scan_number arg = let (neg, s) = take_sign (skip_spaces arg) in after_base arg neg (take_base s)

-- The value of strtoull(); it sets errno for what is 2^64 or more.
pub strtoull : Number → ℕ
strtoull n =
    if leb (2 ^ 64) n.value
    then 2 ^ 64 - 1
    else if n.neg
    then (2 ^ 64 - n.value) % 2 ^ 64
    else n.value

abbrev pub is_erange : Number → Bool
is_erange n = leb (2 ^ 64) n.value

-- Whether strtoll() is below 0.
abbrev pub is_negtest : Number → Bool
is_negtest n = n.neg && ltb 0 n.value

pub multiplier : (last : ℕ) → ℕ
multiplier c =
    if (c == b't') || (c == b'T')
    then 1024 ^ 4
    else if (c == b'g') || (c == b'G')
    then 1024 ^ 3
    else if (c == b'm') || (c == b'M')
    then 1024 ^ 2
    else if (c == b'k') || (c == b'K')
    then 1024
    else 1

pub last : List ℕ → Option ℕ
last [] = none
last (c ∷ []) = some c
last (c ∷ d ∷ s) = last (d ∷ s)

-- 0 with *rval, or -1; `unread` where an empty argument makes it read the byte before.
pub data Optval : Type 0 where
  unread invalid : Optval
  valid : (rval : ℕ) → Optval

pub checked : (mul : ℕ) → Number → Optval
checked mul n =
    let rval = strtoull n * mul % 2 ^ 64 in
    if (ltb 1 mul && not (length n.end == 1))
      || ((mul == 1) && not (length n.end == 0))
      || (leb (2 ^ 63) rval || (is_negtest n || is_erange n))
    then invalid
    else valid rval

pub optval_parse : List ℕ → Optval
optval_parse arg = elim (last arg) [
  | none ↦ unread
  | some c ↦ checked (multiplier c) (scan_number arg)
]

-- dt_opt_size(): `none` is EDT_BADOPTVAL, with the options as before.
pub data Opted : Type 0 where
  unread_arg bad_optval : Opted
  opted : (options : List ℕ) → Opted

pub store_size : List ℕ → (option : ℕ) → Optval → Opted
store_size options option unread = unread_arg
store_size options option invalid = bad_optval
store_size options option (valid v) = opted (set options option v)

pub opt_size : List ℕ → (arg : Option (List ℕ)) → (option : ℕ) → Opted
opt_size options none option = opted (set options option 0)
opt_size options (some arg) option = store_size options option (optval_parse arg)

abbrev pub nanosec : ℕ
nanosec = 1000000000

-- The suffixes of dt_opt_rate(), in the order of their search; 0 stands for a frequency.
pub suffixes : List (List ℕ × ℕ)
suffixes =
    (b'n' ∷ b's' ∷ [], 1)
    ∷ (b'n' ∷ b's' ∷ b'e' ∷ b'c' ∷ [], 1)
    ∷ (b'u' ∷ b's' ∷ [], 1000)
    ∷ (b'u' ∷ b's' ∷ b'e' ∷ b'c' ∷ [], 1000)
    ∷ (b'm' ∷ b's' ∷ [], 1000000)
    ∷ (b'm' ∷ b's' ∷ b'e' ∷ b'c' ∷ [], 1000000)
    ∷ (b's' ∷ [], nanosec)
    ∷ (b's' ∷ b'e' ∷ b'c' ∷ [], nanosec)
    ∷ (b'm' ∷ [], nanosec * 60)
    ∷ (b'm' ∷ b'i' ∷ b'n' ∷ [], nanosec * 60)
    ∷ (b'h' ∷ [], nanosec * 60 * 60)
    ∷ (b'h' ∷ b'o' ∷ b'u' ∷ b'r' ∷ [], nanosec * 60 * 60)
    ∷ (b'd' ∷ [], nanosec * (24 * 60 * 60))
    ∷ (b'd' ∷ b'a' ∷ b'y' ∷ [], nanosec * (24 * 60 * 60))
    ∷ (b'h' ∷ b'z' ∷ [], 0)
    ∷ []

pub find_suffix : List (List ℕ × ℕ) → List ℕ → Option ℕ
find_suffix [] s = none
find_suffix ((name, mul) ∷ more) s =
    let rest = find_suffix more s in if strcasecmp name s then some mul else rest

-- What is stored for a suffix of this multiplier; the product of two int64_t is taken to wrap.
pub rate_value : (mul val : ℕ) → ℕ
rate_value mul val =
    if mul == 0 then (if val == 0 then val else nanosec / val) else val * mul % 2 ^ 64

pub rated : List ℕ → (option : ℕ) → Number → Option ℕ → Opted
rated options option n none =
    if not (length n.end == 0) || (leb (2 ^ 63) (strtoull n) || is_negtest n)
    then bad_optval
    else opted (set options option (rate_value 1 (strtoull n)))
rated options option n (some mul) =
    if leb (2 ^ 63) (strtoull n) || is_negtest n
    then bad_optval
    else opted (set options option (rate_value mul (strtoull n)))

pub opt_rate : List ℕ → (arg : Option (List ℕ)) → (option : ℕ) → Opted
opt_rate options none option = opted (set options option 0)
opt_rate options (some arg) option =
    let n = scan_number arg in rated options option n (find_suffix suffixes n.end)
