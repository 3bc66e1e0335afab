-- ===== src/Bins/Quantize.antt =====
-- The buckets of quantize().
use dtrace.Base.{
  ℕ, ◌+◌, ◌-◌, ◌%◌, ◌^◌, ◌≤◌, ◌<◌, ◌≡◌, inl, inr, arith, ltb, ◌==◌, Bool-cases, ltb→lt,
}
use native.Mathlib.Nat.{one-le-pow, pow-le-pow_right}
use dtrace.Bins.HighBit.{HasBits, high_bit-HasBits}
use dtrace.Bins.{qbin}

HasBits-le : (n m b c : ℕ) → HasBits n b → HasBits m c → n ≤ m → b ≤ c
HasBits-le n m b c (pb, lb, hb) (pc, lc, hc) le = elim (Bool-cases (ltb c b)) [
  | inl bad ↦
      let more : 2 ^ c ≤ 2 ^ (b - 1) = pow-le-pow_right (omega arith) (ground arith) in
      absurd (omega arith)
  | inr ok ↦ ground arith
]

-- The bucket of a value, by the sign and the bits of its magnitude.
pub data Bucket (val : ℕ) : ℕ → Type 0 where
  none_set : val ≡ 0 → Bucket val 63
  lowest : val ≡ 2 ^ 63 → Bucket val 0
  positive_bits : {b : ℕ} → val < 2 ^ 63 → HasBits val b → b ≤ 63 → Bucket val (63 + b)
  negative_bits : {b : ℕ} → 2 ^ 63 < val → HasBits (2 ^ 64 - val) b → b ≤ 63 → Bucket val (63 - b)

at_most : (n b : ℕ) → n < 2 ^ 63 → HasBits n b → b ≤ 63
at_most n b small h =
    HasBits-le n (2 ^ 63 - 1) b 63 h (omega arith, omega arith, omega arith) (omega arith)

-- dt_agg_qbin() puts 0 in bucket 63, a positive value of b bits in 63 + b, a negative one whose
-- magnitude has b bits in 63 - b, and the lowest of all in bucket 0.
pub qbin-Bucket : (val : ℕ) → val < 2 ^ 64 → Bucket val (qbin val)
unfolding qbin
qbin-Bucket val small = elim (Bool-cases (val == 0)) [
  | inl z ↦ rw z (none_set (ground arith))
  | inr nz ↦ elim (Bool-cases (val == 2 ^ 63)) [
    | inl m ↦ rw (nz, m) (lowest (ground arith))
    | inr nm ↦ elim (Bool-cases (ltb (2 ^ 63) val)) [
      | inl neg ↦
          let below = ltb→lt _ _ neg in
          let bits = high_bit-HasBits (2 ^ 64 - val) (omega arith) (omega arith) in
          rw (nz, nm, neg) (negative_bits below bits (at_most (2 ^ 64 - val) _ (omega arith) bits))
      | inr pos ↦
          let bound : val < 2 ^ 63 = ground arith in
          let bits = high_bit-HasBits val (ground arith) bound in
          rw (nz, nm, pos) (positive_bits bound bits (at_most val _ bound bits))
    ]
  ]
]

Bucket-bound : {v i : ℕ} → Bucket v i → i ≤ 126
Bucket-bound (none_set e) = omega arith
Bucket-bound (lowest e) = omega arith
Bucket-bound (positive_bits k h u) = omega arith
Bucket-bound (negative_bits k h u) = omega arith

-- The place of a pattern in the signed order.
abbrev pub signed : ℕ → ℕ
signed val = (val + 2 ^ 63) % 2 ^ 64

Bucket-le :
    {v w i j : ℕ} → Bucket v i → Bucket w j → v < 2 ^ 64 → w < 2 ^ 64 → signed v ≤ signed w → i ≤ j
Bucket-le (none_set e) (none_set e') sv sw le = omega arith
Bucket-le (none_set e) (lowest e') sv sw le = absurd (omega arith)
Bucket-le (none_set e) (positive_bits {b = b} k h u) sv sw le = omega arith
Bucket-le (none_set e) (negative_bits {b = b} k h u) sv sw le = absurd (omega arith)
Bucket-le (lowest e) q sv sw le = omega arith
Bucket-le (positive_bits {b = b} k h u) (none_set e') sv sw le =
    absurd (omega (arith, h.1, one-le-pow (b - 1) 2 (omega arith)))
Bucket-le (positive_bits {b = b} k h u) (lowest e') sv sw le = absurd (omega arith)
Bucket-le {v} {w} (positive_bits {b = b} k h u) (positive_bits {b = c} k' h' u') sv sw le =
    omega (arith, HasBits-le v w b c h h' (omega arith))
Bucket-le (positive_bits {b = b} k h u) (negative_bits {b = c} k' h' u') sv sw le =
    absurd (omega arith)
Bucket-le (negative_bits {b = b} k h u) (none_set e') sv sw le = omega arith
Bucket-le (negative_bits {b = b} k h u) (lowest e') sv sw le = absurd (omega arith)
Bucket-le (negative_bits {b = b} k h u) (positive_bits {b = c} k' h' u') sv sw le = omega arith
Bucket-le {v} {w} (negative_bits {b = b} k h u) (negative_bits {b = c} k' h' u') sv sw le =
    omega (arith, HasBits-le (2 ^ 64 - w) (2 ^ 64 - v) c b h' h (omega arith))

-- dt_agg_qbin() keeps the signed order of 64-bit values, and its buckets are 0 to 126.
qbin-signed :
    (v w : ℕ) → v < 2 ^ 64 → w < 2 ^ 64 → signed v ≤ signed w → (qbin v ≤ qbin w) × (qbin w ≤ 126)
qbin-signed v w sv sw le =
    (Bucket-le (qbin-Bucket v sv) (qbin-Bucket w sw) sv sw le, Bucket-bound (qbin-Bucket w sw))
