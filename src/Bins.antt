-- ===== src/Bins.antt =====
-- The bucket functions of the aggregations quantize() and lquantize(), bpf/agg_qbin.c and
-- bpf/agg_lqbin.c.
-- dt_agg_qbin() takes the 64-bit pattern of its value, which is negative from 2^63 on. A test of
-- `tmp` with a mask of `w` ones from bit `lo` on is written with quotients and remainders.
-- dt_agg_lqbin() compares and subtracts signed values: `val` and `base` stand for those numbers
-- moved up by 2^63, which keeps their order and their difference.
use dtrace.Base.{
  ℕ, zero, suc, ◌+◌, ◌-◌, ◌*◌, ◌/◌, ◌%◌, ◌^◌, ◌≤◌, ◌<◌, min, max, ◌≡◌, refl, sym, ap, ◌∙◌, fun_ext,
  subst, ◌≢◌, ◌↔◌, ◌⊎◌, inl, inr, Bool, true, false, not, ◌&&◌, ◌||◌, Option, none, some, List, [],
  ◌∷◌, ◌++◌, map, arith, ltb, leb, ◌==◌, if◌then◌else◌, Bool-cases, Option-cases, ==_iff, ltb→lt,
  lt→ltb, leb→le, length, get_elem?, set, length-append, length-set, get_or, take, drop, replicate,
  length-replicate, length-take, length-drop, take-append_add, take-append_le, take_add, take_all,
  take-take, get_or-set, get_or-replicate, total, total-set, total-replicate,
}
pub mod HighBit
pub mod Quantize
pub mod Linear
pub mod Examples

abbrev pub has_bits : (tmp lo w : ℕ) → Bool
has_bits tmp lo w = not (tmp / 2 ^ lo % 2 ^ w == 0)

-- One line of the search: with a bit in the upper half, count the lower half and shift it out.
unfoldable pub halve : (lo w : ℕ) → ℕ × ℕ → ℕ × ℕ
halve lo w (tmp, off) = if has_bits tmp lo w then (tmp / 2 ^ lo, off + lo) else (tmp, off)

-- The search for the highest bit, from off = 1.
pub high_bit : ℕ → ℕ
high_bit tmp =
    let (last, off) = halve 2 2 (halve 4 4 (halve 8 8 (halve 16 16 (halve 32 31 (tmp, 1))))) in
    if has_bits last 1 1 then off + 1 else off

pub qbin : ℕ → ℕ
qbin val =
    if val == 0
    then 63
    else if val == 2 ^ 63
    then 0
    else if ltb (2 ^ 63) val
    then 63 - high_bit (2 ^ 64 - val)
    else 63 + high_bit val

pub lqbin : (val base levels step : ℕ) → ℕ
lqbin val base levels step =
    if (step == 0) || ltb val base
    then 0
    else (let level = (val - base) / step in if ltb levels level then levels + 1 else level + 1)
