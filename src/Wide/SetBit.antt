-- ===== src/Wide/SetBit.antt =====
-- The bits of the divisor that dt_divide_128() counts, and the bit of the quotient that it sets.
use dtrace.Base.{
  ℕ, zero, suc, ◌+◌, ◌-◌, ◌*◌, ◌/◌, ◌%◌, ◌^◌, ◌≤◌, ◌<◌, max, ◌≡◌, refl, sym, ap, ◌∙◌, inl, inr,
  true, Option, some, arith, ltb, Bool-cases,
}
use dtrace.Base.Bits.{bit_or-high, bit_or-zero, pow_add}
use dtrace.Wide.Words.{pow-pos, shift_mod, split_64, IsU128, val}
use dtrace.Base.Bits.{bit_or-high}
use native.Mathlib.Nat.{pow-suc, mod-eq_of_lt, mul-le-mul_right, mod-lt, pow-le-pow_right}
use Prim.Native.Nat.{bit_or}
use dtrace.Wide.{U128, count_bits, bit_or, or_128}

-- The bits of the divisor: log is the least with divisor < 2 ^ log.
pub record Counted (divisor log : ℕ) (o : Option ℕ) : Type 0 where
  pub bits : ℕ
  pub counts : o ≡ some (log + bits)
  pub above : divisor < 2 ^ bits
  pub least : 2 ^ bits ≤ max 1 (2 * divisor)

count_bits_more :
    (fuel divisor log : ℕ)
    → 0 < divisor
    → count_bits (suc fuel) divisor log ≡ count_bits fuel (divisor / 2) (log + 1)
unfolding count_bits
count_bits_more fuel divisor log h =
    let t : ltb 0 divisor ≡ true = ground arith in rw (t, count_bits) refl

count_bits_done : (fuel log : ℕ) → count_bits (suc fuel) 0 log ≡ some log
unfolding count_bits
count_bits_done fuel log = refl

pub count_bits-Counted :
    (fuel divisor log : ℕ)
    → divisor < 2 ^ fuel
    → Counted divisor log (count_bits (suc fuel) divisor log)
count_bits-Counted fuel zero log h = record {
  bits = 0;
  counts = count_bits_done fuel log ∙ ap some (omega arith);
  above = omega arith;
  least = omega arith;
}
count_bits-Counted zero (suc d) log h = absurd (omega arith)
count_bits-Counted (suc fuel) (suc d) log h =
    let ih = count_bits-Counted fuel (suc d / 2) (log + 1) (omega (arith, pow-suc 2 fuel)) in
    let p = pow-suc 2 ih.bits in
    record {
      bits = suc ih.bits;
      counts =
          count_bits_more (suc fuel) (suc d) log (omega arith) ∙ ih.counts ∙ ap some (omega arith);
      above = omega (arith, ih.above, p);
      least = omega (arith, ih.least, p);
    }

-- A word that is a multiple of 2 ^ (j + 1) takes the bit j.
set_bit :
    (w c j : ℕ)
    → w ≡ c * 2 ^ suc j
    → w < 2 ^ 64
    → j < 64
    → (bit_or w (2 ^ j) ≡ w + 2 ^ j) × (w + 2 ^ j < 2 ^ 64)
set_bit w c j e h l =
    let p = pow-suc 2 j in
    let one = pow-pos j in
    let m : w ≡ c % 2 ^ (64 - suc j) * 2 ^ suc j =
      sym (mod-eq_of_lt h) ∙ ap (λ (n : ℕ). n % 2 ^ 64) e ∙ shift_mod c (suc j) (omega arith) in
    let room = mul-le-mul_right (2 ^ suc j) (mod-lt c (pow-pos (64 - suc j))) in
    (
      ap (λ (n : ℕ). bit_or n (2 ^ j)) e
          ∙ bit_or-high (suc j) c (2 ^ j) (omega (arith, p))
          ∙ ap (λ (n : ℕ). n + 2 ^ j) (sym e),
      omega (arith, m, p, room, split_64 (suc j) (omega arith)),
    )

-- The bit k of a multiple of 2 ^ (k + 1) is set by the union with 2 ^ k.
pub or_bit :
    (r m : U128) (c k : ℕ)
    → IsU128 r
    → IsU128 m
    → val r ≡ c * 2 ^ suc k
    → val m ≡ 2 ^ k
    → k < 128
    → IsU128 (or_128 r m) × (val (or_128 r m) ≡ val r + val m)
or_bit r m c k w v er em h = elim (Bool-cases (ltb k 64)) [
  | inl e ↦
      let l : k < 64 = ground arith in
      let small : 2 ^ k < 2 ^ 64 = omega (
        arith,
        pow-suc 2 k,
        pow-le-pow_right {n = 2} (omega arith) {i = suc k} {j = 64} l,
        pow-pos k,
      ) in
      let lo : m.lo ≡ 2 ^ k = omega (arith, v.lo_lt) in
      let hi : m.hi ≡ 0 = omega (arith, v.lo_lt) in
      let low : r.lo ≡ c % 2 ^ (64 - suc k) * 2 ^ suc k =
        omega (arith, w.lo_lt, ap (λ (n : ℕ). n % 2 ^ 64) er, shift_mod c (suc k) l) in
      let (sum, less) = set_bit r.lo (c % 2 ^ (64 - suc k)) k low w.lo_lt l in
      both (2 ^ k) 0 lo hi sum (bit_or-zero r.hi ∙ omega arith) (omega (arith, less))
        (omega (arith, w.hi_lt)) (omega (arith, em))
  | inr e ↦
      let j = k - 64 in
      let l : k ≡ 64 + j = ground arith in
      let p : 2 ^ k ≡ 2 ^ 64 * 2 ^ j = ap (λ (n : ℕ). 2 ^ n) l ∙ pow_add 64 j in
      let lo : m.lo ≡ 0 = omega (arith, p, v.lo_lt) in
      let hi : m.hi ≡ 2 ^ j = omega (arith, p, v.lo_lt) in
      let high : r.hi ≡ c * 2 ^ suc j = omega (
        arith,
        w.lo_lt,
        ap (λ (n : ℕ). c * n) (pow-suc 2 k),
        ap (λ (n : ℕ). c * n) (pow-suc 2 j),
        ap (λ (n : ℕ). c * n) p,
      ) in
      let (sum, less) = set_bit r.hi c j high w.hi_lt (omega arith) in
      both 0 (2 ^ j) lo hi (bit_or-zero r.lo ∙ omega arith) sum (omega (arith, w.lo_lt))
        (omega (arith, less)) (omega (arith, em, p))
]
  where
    both :
        {x y : ℕ} (p q : ℕ)
        → m.lo ≡ x
        → m.hi ≡ y
        → bit_or r.lo x ≡ r.lo + p
        → bit_or r.hi y ≡ r.hi + q
        → r.lo + p < 2 ^ 64
        → r.hi + q < 2 ^ 64
        → p + q * 2 ^ 64 ≡ val m
        → IsU128 (or_128 r m) × (val (or_128 r m) ≡ val r + val m)
    both p q lo hi a b la lb t =
        let a' = ap (λ n. bit_or r.lo n) lo ∙ a in
        let b' = ap (λ n. bit_or r.hi n) hi ∙ b in
        (record { lo_lt = omega (arith, a'); hi_lt = omega (arith, b') }, omega (arith, a', b'))

pub bits_pos : (b d : ℕ) → 0 < d → d < 2 ^ b → 0 < b
bits_pos zero d p h = absurd (omega arith)
bits_pos (suc b) d p h = omega arith

pub bits_few : (k b x : ℕ) → 2 ^ b ≤ x → x < 2 ^ k → b < k
bits_few k b x le h = elim (Bool-cases (ltb b k)) [
  | inl e ↦ ground arith
  | inr e ↦
      absurd (omega (arith, pow-le-pow_right {n = 2} (omega arith) {i = k} {j = b} (ground arith)))
]
