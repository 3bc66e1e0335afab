-- ===== src/Wide/Roots.antt =====
-- The square root of dt_sqrt_128(), by the pairs of bits that dt_nbits_128() counts.
use dtrace.Base.Bits.{bit_and-mask}
use dtrace.Wide.SetBit.{bits_few}
use native.Mathlib.Nat.{pow-suc}
use dtrace.Wide.Sums.{gt-false, gt_iff}
use Prim.Native.Nat.{bit_and}
use dtrace.Wide.Words.{
  IsU128, val, shift_right-div, shift_right-IsU128, val-lt, shift_right-loses, shift_right-far,
}
use dtrace.Base.{
  ℕ, zero, suc, ◌+◌, ◌-◌, ◌*◌, ◌/◌, ◌%◌, ◌^◌, ◌≤◌, ◌<◌, max, ◌≡◌, refl, ap, ◌∙◌, inl, inr, true,
  false, Option, some, arith, ltb, Bool-cases,
}
use dtrace.Wide.{U128, nbits_from, nbits, gt, zero_128, bit_and, shift_right}

-- The index of the highest bit.
record HighBit (v : ℕ) (n : ℕ) (o : Option ℕ) : Type 0 where
  bit : ℕ
  counts : o ≡ some (n + bit)
  above : v < 2 ^ bit
  least : 2 ^ bit ≤ max 1 (2 * v)

nbits_more :
    (fuel : ℕ) (tmp : U128) (n : ℕ)
    → gt tmp zero_128 ≡ true
    → nbits_from (suc fuel) tmp n ≡ nbits_from fuel (shift_right tmp 1) (n + 1)
unfolding nbits_from
nbits_more fuel tmp n e = rw (e, nbits_from) refl

nbits_done :
    (fuel : ℕ) (tmp : U128) (n : ℕ) → gt tmp zero_128 ≡ false → nbits_from (suc fuel) tmp n ≡ some n
unfolding nbits_from
nbits_done fuel tmp n e = rw (e, nbits_from) refl

zero_words : IsU128 zero_128
zero_words = record { lo_lt = omega arith; hi_lt = omega arith }

nbits_end :
    (fuel : ℕ) (tmp : U128) (n : ℕ)
    → IsU128 tmp
    → gt tmp zero_128 ≡ false
    → HighBit (val tmp) n (nbits_from (suc fuel) tmp n)
nbits_end fuel tmp n w e =
    let z = gt-false tmp zero_128 w zero_words e in
    rw (nbits_done fuel tmp n e) (record {
      bit = 0;
      counts = ap some (omega arith);
      above = omega (arith, z);
      least = omega arith;
    })

nbits_from-HighBit :
    (fuel : ℕ) (tmp : U128) (n : ℕ)
    → IsU128 tmp
    → val tmp < 2 ^ fuel
    → HighBit (val tmp) n (nbits_from (suc fuel) tmp n)
nbits_from-HighBit zero tmp n w h = elim (Bool-cases (gt tmp zero_128)) [
  | inr e ↦ nbits_end zero tmp n w e
  | inl e ↦ absurd (omega (arith, (gt_iff tmp zero_128 w zero_words).0 e))
]
nbits_from-HighBit (suc fuel) tmp n w h = elim (Bool-cases (gt tmp zero_128)) [
  | inr e ↦ nbits_end (suc fuel) tmp n w e
  | inl e ↦
      let some_bit = (gt_iff tmp zero_128 w zero_words).0 e in
      let half = shift_right-div tmp 1 w (omega arith) in
      let ih =
        nbits_from-HighBit fuel (shift_right tmp 1) (n + 1)
          (shift_right-IsU128 tmp 1 w (omega arith)) (omega (arith, half, pow-suc 2 fuel)) in
      rw (nbits_more (suc fuel) tmp n e) (record {
        bit = suc ih.bit;
        counts = ih.counts ∙ ap some (omega arith);
        above = omega (arith, ih.above, half, pow-suc 2 ih.bit);
        least = omega (arith, ih.least, half, some_bit, pow-suc 2 ih.bit);
      })
]

-- dt_nbits_128() gives n with 2 ^ n ≤ v < 2 ^ (n + 1), and 0 for 0.
pub nbits-bits :
    (a : U128)
    → IsU128 a
    → (n : ℕ) × ((nbits a ≡ some n) × (val a < 2 ^ suc n) × (2 ^ n ≤ max 1 (val a)) × (n < 128))
unfolding nbits
nbits-bits a w =
    let half = shift_right-div a 1 w (omega arith) in
    let less = val-lt a w in
    let r =
      nbits_from-HighBit 127 (shift_right a 1) 0 (shift_right-IsU128 a 1 w (omega arith))
        (omega (arith, half, less)) in
    let least : 2 ^ r.bit ≤ max 1 (val a) = omega (arith, r.least, half) in
    (
      r.bit,
      (
        r.counts ∙ ap some (omega arith),
        omega (arith, r.above, half, pow-suc 2 r.bit),
        least,
        bits_few 128 r.bit (max 1 (val a)) least (omega (arith, less)),
      ),
    )

-- The next pair of bits that dt_sqrt_128() brings down.
pub low_pair :
    (a : U128) (s : ℕ) → IsU128 a → s < 128 → bit_and (shift_right a s).lo 3 ≡ val a / 2 ^ s % 4
low_pair a s w h = elim (Bool-cases (ltb s 64)) [
  | inl e ↦
      let l : s < 64 = ground arith in
      let next : 64 - s ≡ suc (63 - s) = omega arith in
      let p : 2 ^ (64 - s) ≡ 2 ^ (63 - s) * 2 = ap (λ (n : ℕ). 2 ^ n) next ∙ pow-suc 2 (63 - s) in
      omega (
        arith,
        bit_and-mask 2 (shift_right a s).lo 3 (omega arith),
        shift_right-loses a s w l,
        ap (λ (n : ℕ). a.hi % 2 ^ s / 2 ^ (64 - s) * n * n) p,
      )
  | inr e ↦ omega (
    arith,
    bit_and-mask 2 (shift_right a s).lo 3 (omega arith),
    shift_right-far a s w (ground arith) h,
  )
]
