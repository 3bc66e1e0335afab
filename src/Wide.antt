-- ===== src/Wide.antt =====
-- The 128-bit arithmetic of libdtrace/dt_consume.c for the stddev() aggregation: dt_gt_128() to
-- dt_sqrt_128(), and dt_stddev().
-- A uint64_t is a number, with its wrap-around written out. A shift by a positive count is
-- shift_left, by a negative one shift_right with the count's magnitude.
use dtrace.Base.{
  ℕ, zero, suc, ◌+◌, ◌-◌, ◌*◌, ◌/◌, ◌%◌, ◌^◌, ◌≤◌, ◌<◌, min, max, ◌≡◌, refl, sym, ap, ◌∙◌, fun_ext,
  subst, ◌≢◌, ◌↔◌, ◌⊎◌, inl, inr, Bool, true, false, not, ◌&&◌, ◌||◌, Option, none, some, List, [],
  ◌∷◌, ◌++◌, map, arith, ltb, leb, ◌==◌, if◌then◌else◌, Bool-cases, Option-cases, ==_iff, ltb→lt,
  lt→ltb, leb→le, length, get_elem?, set, length-append, length-set, get_or, take, drop, replicate,
  length-replicate, length-take, length-drop, take-append_add, take-append_le, take_add, take_all,
  take-take, get_or-set, get_or-replicate, total, total-set, total-replicate,
}
use Prim.Native.Nat.{bit_or, bit_and}
pub mod Examples
pub mod Words
pub mod Stddev
pub mod Sqrt
pub mod Roots
pub mod SetBit
pub mod Divide
pub mod Sums
pub mod LeftShift

-- uint64_t a[2]: lo is a[0], hi is a[1].
pub record U128 : Type 0 where
  pub lo : ℕ
  pub hi : ℕ

pub gt : U128 → U128 → Bool
gt a b = ltb b.hi a.hi || ((a.hi == b.hi) && ltb b.lo a.lo)

pub ge : U128 → U128 → Bool
ge a b = ltb b.hi a.hi || ((a.hi == b.hi) && leb b.lo a.lo)

pub le : U128 → U128 → Bool
le a b = ltb a.hi b.hi || ((a.hi == b.hi) && leb a.lo b.lo)

pub shift_right : U128 → ℕ → U128
shift_right a b =
    if b == 0
    then a
    else if leb 64 b
    then record { lo = a.hi / 2 ^ (b - 64); hi = 0 }
    else (let mask = 2 ^ (64 - b) - 1 in
        record {
          lo = bit_or (a.lo / 2 ^ b) (bit_and a.hi mask * 2 ^ (64 - b) % 2 ^ 64);
          hi = a.hi / 2 ^ b;
        })

pub shift_left : U128 → ℕ → U128
shift_left a b =
    if b == 0
    then a
    else if leb 64 b
    then record { lo = 0; hi = a.lo * 2 ^ (b - 64) % 2 ^ 64 }
    else (let mask = a.lo / 2 ^ (64 - b) in
        record { lo = a.lo * 2 ^ b % 2 ^ 64; hi = bit_or (a.hi * 2 ^ b % 2 ^ 64) mask })

abbrev zero_128 : U128
zero_128 = record { lo = 0; hi = 0 }

abbrev one_128 : U128
one_128 = record { lo = 1; hi = 0 }

-- The loop of dt_nbits_128() on fuel.
pub nbits_from : (fuel : ℕ) → U128 → (nbits : ℕ) → Option ℕ
nbits_from zero tmp nbits = none
nbits_from (suc fuel) tmp nbits = elim (gt tmp zero_128) [
  | true ↦ nbits_from fuel (shift_right tmp 1) (nbits + 1)
  | false ↦ some nbits
]

-- A value has 128 bits, and the loop takes a round for each but the lowest.
pub nbits : U128 → Option ℕ
nbits a = nbits_from 128 (shift_right a 1) 0

pub subtract : (minuend subtrahend : U128) → U128
subtract minuend subtrahend = record {
  lo = (minuend.lo + 2 ^ 64 - subtrahend.lo) % 2 ^ 64;
  hi =
      (minuend.hi
        + 2 ^ 64
        - subtrahend.hi
        + 2 ^ 64
        - (if ltb minuend.lo subtrahend.lo then 1 else 0))
      % 2 ^ 64;
}

pub add : (addend1 addend2 : U128) → U128
add addend1 addend2 =
    let lo = (addend1.lo + addend2.lo) % 2 ^ 64 in
    record {
      lo = lo;
      hi =
          (addend1.hi + addend2.hi + (if ltb lo addend1.lo || ltb lo addend2.lo then 1 else 0))
          % 2 ^ 64;
    }

pub multiply : (factor1 factor2 : ℕ) → U128
multiply factor1 factor2 =
    let hi1 = factor1 / 2 ^ 32 in
    let hi2 = factor2 / 2 ^ 32 in
    let lo1 = factor1 % 2 ^ 32 in
    let lo2 = factor2 % 2 ^ 32 in
    let product : U128 = record { lo = lo1 * lo2 % 2 ^ 64; hi = hi1 * hi2 % 2 ^ 64 } in
    let product' = add product (shift_left (record { lo = hi1 * lo2 % 2 ^ 64; hi = 0 }) 32) in
    add product' (shift_left (record { lo = hi2 * lo1 % 2 ^ 64; hi = 0 }) 32)

-- The loop that counts the bits of the divisor, on fuel.
pub count_bits : (fuel divisor log : ℕ) → Option ℕ
count_bits zero divisor log = none
count_bits (suc fuel) divisor log = elim (ltb 0 divisor) [
  | true ↦ count_bits fuel (divisor / 2) (log + 1)
  | false ↦ some log
]

-- What the loop of dt_divide_128() changes.
pub record Division : Type 0 where
  pub remainder : U128
  pub subtrahend : U128
  pub mask : U128
  pub result : U128

abbrev pub or_128 : U128 → U128 → U128
or_128 a b = record { lo = bit_or a.lo b.lo; hi = bit_or a.hi b.hi }

-- One round of the division, with the bit that is set if the subtrahend goes into the remainder.
pub divide_step : Division → Division
divide_step d =
    let fits = ge d.remainder d.subtrahend in
    record {
      remainder = if fits then subtract d.remainder d.subtrahend else d.remainder;
      subtrahend = shift_right d.subtrahend 1;
      mask = shift_right d.mask 1;
      result = if fits then or_128 d.result d.mask else d.result;
    }

pub divide_from : (fuel : ℕ) → (divisor_128 : U128) → Division → Option U128
divide_from zero divisor_128 d = none
divide_from (suc fuel) divisor_128 d = elim (ge d.remainder divisor_128) [
  | true ↦ divide_from fuel divisor_128 (divide_step d)
  | false ↦ some d.result
]

-- `none` is that the assert on the divisor fails, or that fuel runs out: a uint64_t has 64 bits, and
-- the mask of the quotient goes through 128.
pub divide : (dividend : U128) → (divisor : ℕ) → Option U128
divide dividend divisor = if divisor == 0 then none else elim (count_bits 65 divisor 0) [
  | none ↦ none
  | some log ↦
      divide_from 129 (record { lo = divisor; hi = 0 })
        (record {
          remainder = dividend;
          subtrahend = shift_left (record { lo = divisor; hi = 0 }) (128 - log);
          mask = shift_left one_128 (128 - log);
          result = zero_128;
        })
]

-- One round of the square root: bring down a pair of bits, and try R << 2 + 1.
pub sqrt_step : (square : U128) → (pair_shift : ℕ) → (diff result : U128) → U128 × U128
sqrt_step square pair_shift diff result =
    let next_pair : U128 = record { lo = bit_and (shift_right square pair_shift).lo 3; hi = 0 } in
    let diff' = add (shift_left diff 2) next_pair in
    let next_try = add (shift_left result 2) one_128 in
    if le next_try diff'
    then (subtract diff' next_try, add (shift_left result 1) one_128)
    else (diff', shift_left result 1)

-- The rounds that are left, `pair_shift` wraps after the last.
pub sqrt_from : (rounds : ℕ) → (square : U128) → (pair_shift : ℕ) → (diff result : U128) → U128
sqrt_from zero square pair_shift diff result = result
sqrt_from (suc rounds) square pair_shift diff result =
    let (diff', result') = sqrt_step square pair_shift diff result in
    sqrt_from rounds square ((pair_shift + 2 ^ 64 - 2) % 2 ^ 64) diff' result'

-- The assert on the result.
pub asserted : U128 → Option ℕ
asserted result = if result.hi == 0 then some result.lo else none

pub sqrt : U128 → Option ℕ
sqrt square = elim (nbits square) [
  | none ↦ none
  | some n ↦
      let bit_pairs = n / 2 in
      asserted (sqrt_from (bit_pairs + 1) square (bit_pairs * 2) zero_128 zero_128)
]

-- Quotients of int64_t patterns, which are negative from 2^63 on, go towards zero.
abbrev pub magnitude : ℕ → ℕ
magnitude x = if ltb x (2 ^ 63) then x else 2 ^ 64 - x

pub divide_signed : ℕ → ℕ → ℕ
divide_signed x y =
    let q = magnitude x / magnitude y in
    let same = (ltb x (2 ^ 63) && ltb y (2 ^ 63)) || not (ltb x (2 ^ 63) || ltb y (2 ^ 63)) in
    if same then q % 2 ^ 64 else (2 ^ 64 - q) % 2 ^ 64

-- The negation of a negative norm_avg.
pub absolute : ℕ → ℕ
absolute norm_avg = if ltb norm_avg (2 ^ 63) then norm_avg else (2 ^ 64 - norm_avg) % 2 ^ 64

infixl 5 ◌>>=◌
abbrev ◌>>=◌ {ℓ κ} : {A : Type ℓ} {B : Type κ} → Option A → (A → Option B) → Option B
none >>= f = none
some a >>= f = f a

-- `data[0]`, `data[1]` and `data + 2`: the count, the sum and the sum of the squares.
pub stddev : (count sum : ℕ) → (squares : U128) → (normal : ℕ) → Option ℕ
stddev count sum squares normal = do
  by_normal ← divide squares normal
  avg_of_squares ← divide by_normal count
  let avg = divide_signed (divide_signed sum normal) count
  let norm_avg = absolute avg
  sqrt (subtract avg_of_squares (multiply norm_avg norm_avg))
