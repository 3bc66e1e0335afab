-- ===== src/Bins/HighBit.antt =====
-- The search of dt_agg_qbin() for the highest bit of a magnitude.
use dtrace.Base.{
  ℕ, suc, ◌+◌, ◌-◌, ◌*◌, ◌/◌, ◌%◌, ◌^◌, ◌≤◌, ◌<◌, ◌≡◌, ap, ◌∙◌, inl, inr, arith, ◌==◌,
  if◌then◌else◌, Bool-cases,
}
use native.Mathlib.Nat.{
  mul_assoc, mul_comm, pow-suc, mul-le-mul_left, div-add-mod', mod-lt, mod-eq_of_lt,
  div-lt_iff_lt-mul, one-le-pow, lt-div-mul-add,
}
use dtrace.Base.Bits.{pow_add}
use dtrace.Bins.{has_bits, halve, high_bit}

scaled_div :
    (n p k t : ℕ)
    → 0 < k
    → p * t ≤ n
    → n < p * (t + 1)
    → (p * k * (t / k) ≤ n) × (n < p * k * (t / k + 1))
scaled_div n p k t pos low high =
    let q = t / k in
    let whole = div-add-mod' t k in
    let part = mod-lt t pos in
    let qk : k * q ≡ q * k = mul_comm k q in
    let qk' : k * (q + 1) ≡ q * k + k = omega (arith, qk) in
    let below : p * (k * q) ≤ p * t = mul-le-mul_left p (omega (arith, whole, qk)) in
    let beyond : p * (t + 1) ≤ p * (k * (q + 1)) =
      mul-le-mul_left p (omega (arith, whole, part, qk')) in
    (omega (arith, mul_assoc p k q), omega (arith, mul_assoc p k (q + 1)))

-- The rest `t` of the search for the highest bit of `n`, with `off - 1` bits shifted out.
record Found (n t off bound : ℕ) : Type 0 where
  low : 2 ^ (off - 1) * t ≤ n
  high : n < 2 ^ (off - 1) * (t + 1)
  positive : 0 < t
  small : t < bound
  counted : 0 < off

halve-Found :
    (n lo w t off : ℕ)
    → 2 ^ w ≤ 2 ^ lo
    → Found n t off (2 ^ w * 2 ^ lo)
    → Found n (halve lo w (t, off)).0 (halve lo w (t, off)).1 (2 ^ lo)
unfolding halve
halve-Found n lo w t off le f =
    let pos : 0 < 2 ^ lo = omega (arith, one-le-pow lo 2 (omega arith)) in
    let q : t / 2 ^ lo < 2 ^ w = (div-lt_iff_lt-mul pos).1 f.small in
    let r : t / 2 ^ lo % 2 ^ w ≡ t / 2 ^ lo = mod-eq_of_lt q in
    elim (Bool-cases (t / 2 ^ lo == 0)) [
      | inl z ↦
          let none_above : t / 2 ^ lo ≡ 0 = ground arith in
          rw (r, z)
            (record {
              low = f.low;
              high = f.high;
              positive = f.positive;
              small =
                  omega (arith, lt-div-mul-add {a = t} pos, ap (λ (k : ℕ). k * 2 ^ lo) none_above);
              counted = f.counted;
            })
      | inr nz ↦
          let (a, b) = scaled_div n (2 ^ (off - 1)) (2 ^ lo) t pos f.low f.high in
          let e : off + lo - 1 ≡ off - 1 + lo = omega (arith, f.counted) in
          let p : 2 ^ (off + lo - 1) ≡ 2 ^ (off - 1) * 2 ^ lo =
            ap (λ (k : ℕ). 2 ^ k) e ∙ pow_add (off - 1) lo in
          rw (r, nz)
            (record {
              low = rw p a;
              high = rw p b;
              positive = ground arith;
              small = omega arith;
              counted = omega (arith, f.counted);
            })
    ]

-- The bits of a number: 2^(b-1) ≤ n < 2^b.
abbrev pub HasBits : (n b : ℕ) → Type 0
HasBits n b = (0 < b) × (2 ^ (b - 1) ≤ n) × (n < 2 ^ b)

last_bit :
    (n last off : ℕ) → Found n last off 4 → HasBits n (if has_bits last 1 1 then off + 1 else off)
last_bit n last off f =
    let p : ℕ = 2 ^ (off - 1) in
    let e : off ≡ suc (off - 1) = omega (arith, f.counted) in
    let twice : 2 ^ off ≡ p * 2 = ap (λ (k : ℕ). 2 ^ k) e ∙ pow-suc 2 (off - 1) in
    let four : 2 ^ (off + 1) ≡ p * 2 * 2 = pow_add off 1 ∙ ap (λ (k : ℕ). k * 2) twice in
    let back : off + 1 - 1 ≡ off = omega arith in
    elim (Bool-cases (has_bits last 1 1)) [
      | inl two ↦
          let above : 2 ≤ last = ground arith in
          rw two (
            omega arith,
            rw (back, twice) (omega (arith, f.low, mul-le-mul_left p above)),
            omega (
              arith,
              four,
              f.high,
              mul-le-mul_left {m = last + 1} {n = 4} p (omega (arith, f.small)),
            ),
          )
      | inr one ↦
          let is_one : last ≡ 1 = ground (arith, f.positive, f.small) in
          rw one (
            f.counted,
            omega (arith, f.low, ap (λ (k : ℕ). p * k) is_one),
            omega (arith, twice, f.high, ap (λ (k : ℕ). p * (k + 1)) is_one),
          )
    ]

pub high_bit-HasBits : (n : ℕ) → 0 < n → n < 2 ^ 63 → HasBits n (high_bit n)
unfolding high_bit
high_bit-HasBits n pos small =
    let f : Found n n 1 (2 ^ 31 * 2 ^ 32) = record {
      low = omega arith;
      high = omega arith;
      positive = pos;
      small = small;
      counted = omega arith;
    } in
    let s1 = halve 32 31 (n, 1) in
    let f1 = halve-Found n 32 31 n 1 (omega arith) f in
    let s2 = halve 16 16 s1 in
    let f2 = halve-Found n 16 16 s1.0 s1.1 (omega arith) f1 in
    let s3 = halve 8 8 s2 in
    let f3 = halve-Found n 8 8 s2.0 s2.1 (omega arith) f2 in
    let s4 = halve 4 4 s3 in
    let f4 = halve-Found n 4 4 s3.0 s3.1 (omega arith) f3 in
    let s5 = halve 2 2 s4 in last_bit n s5.0 s5.1 (halve-Found n 2 2 s4.0 s4.1 (omega arith) f4)
