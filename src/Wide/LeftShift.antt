-- ===== src/Wide/LeftShift.antt =====
-- The left shifts of dt_shift_128() multiply, modulo 2 ^ 128.
use dtrace.Base.{
  ℕ, zero, suc, ◌+◌, ◌-◌, ◌*◌, ◌/◌, ◌%◌, ◌^◌, ◌≤◌, ◌<◌, ◌≡◌, refl, sym, ap, ◌∙◌, inl, inr, true,
  false, arith, ltb, leb, ◌==◌, Bool-cases,
}
use dtrace.Base.Bits.{bit_or-high, mod_unique, pow_add}
use Prim.Native.Nat.{bit_or}
use dtrace.Wide.Words.{IsU128, val, split_64, pow-pos, shift_mod, val-lt}
use native.Mathlib.Nat.{div-add-mod', div-lt_iff_lt-mul, mul-le-mul_right, mod-eq_of_lt, mod-lt}
use dtrace.Wide.{U128, shift_left, bit_or}

shift_left-small :
    (a : U128) (b : ℕ)
    → 0 < b
    → b < 64
    → shift_left a b ≡ record {
      lo = a.lo * 2 ^ b % 2 ^ 64;
      hi = bit_or (a.hi * 2 ^ b % 2 ^ 64) (a.lo / 2 ^ (64 - b));
    }
unfolding shift_left
shift_left-small a b p h =
    let z : (b == 0) ≡ false = ground arith in
    let below : leb 64 b ≡ false = ground arith in rw (z, below) refl

shift_left-large :
    (a : U128) (b : ℕ)
    → 64 ≤ b
    → shift_left a b ≡ record { lo = 0; hi = a.lo * 2 ^ (b - 64) % 2 ^ 64 }
unfolding shift_left
shift_left-large a b h =
    let z : (b == 0) ≡ false = ground arith in
    let far : leb 64 b ≡ true = ground arith in rw (z, far) refl

shift_left-zero : (a : U128) → shift_left a 0 ≡ a
unfolding shift_left
shift_left-zero a = refl

-- The words of a product by p, where p * q is 2 ^ 64.
left_sum :
    (lo hi p q : ℕ)
    → p * q ≡ 2 ^ 64
    → (lo % q * p + (hi % q * p + lo / q) * 2 ^ 64) + hi / q * 2 ^ 128 ≡ (lo + hi * 2 ^ 64) * p
left_sum lo hi p q e = omega (
  arith,
  ap (λ (n : ℕ). n * p) (div-add-mod' lo q),
  ap (λ (n : ℕ). n * p) (div-add-mod' hi q),
  ap (λ (n : ℕ). lo / q * n) e,
  ap (λ (n : ℕ). hi / q * n) e,
)

-- What the shift gives: a value of two words, equal to the product up to a multiple of 2 ^ 128.
pub record Shifted (a : U128) (b : ℕ) (r : U128) : Type 0 where
  pub words : IsU128 r
  pub over : ℕ
  pub product : val r + over * 2 ^ 128 ≡ val a * 2 ^ b

pub shift_left-Shifted : (a : U128) (b : ℕ) → IsU128 a → b < 128 → Shifted a b (shift_left a b)
shift_left-Shifted a b w h = elim (Bool-cases (ltb b 64)) [
  | inl e ↦ below b (ground arith)
  | inr e ↦
      let far : 64 ≤ b = ground arith in
      rw (shift_left-large a b far) (
        let c = b - 64 in
        let split : b ≡ 64 + c = omega arith in
        let p : 2 ^ b ≡ 2 ^ 64 * 2 ^ c = ap (λ (n : ℕ). 2 ^ n) split ∙ pow_add 64 c in
        record {
          words = record { lo_lt = omega arith; hi_lt = omega arith };
          over = a.lo * 2 ^ c / 2 ^ 64 + a.hi * 2 ^ c;
          product = omega (
            arith,
            div-add-mod' (a.lo * 2 ^ c) (2 ^ 64),
            ap (λ (n : ℕ). a.lo * n) p,
            ap (λ (n : ℕ). a.hi * n) p,
          );
        })
]
  where
    below : (b : ℕ) → b < 64 → Shifted a b (shift_left a b)
    below zero l = rw (shift_left-zero a) (record { words = w; over = 0; product = omega arith })
    below (suc c) l =
        let b = suc c in
        let p = 2 ^ b in
        let q = 2 ^ (64 - b) in
        let e = split_64 b (omega arith) in
        let hq = pow-pos (64 - b) in
        let low : a.lo * p % 2 ^ 64 ≡ a.lo % q * p = shift_mod a.lo b (omega arith) in
        let high : a.hi * p % 2 ^ 64 ≡ a.hi % q * p = shift_mod a.hi b (omega arith) in
        let carry : a.lo / q < p = (div-lt_iff_lt-mul hq).1 (omega (arith, e, w.lo_lt)) in
        let joined : bit_or (a.hi * p % 2 ^ 64) (a.lo / q) ≡ a.hi % q * p + a.lo / q =
          ap (λ (n : ℕ). bit_or n (a.lo / q)) high ∙ bit_or-high b (a.hi % q) (a.lo / q) carry in
        rw (shift_left-small a (suc c) (omega arith) l) (record {
          words = record {
            lo_lt = omega arith;
            hi_lt = omega (arith, joined, carry, e, mul-le-mul_right p (mod-lt a.hi hq));
          };
          over = a.hi / q;
          product = omega (arith, left_sum a.lo a.hi p q e, low, joined);
        })

-- dt_shift_128() of two words to the left by less than 128 multiplies by that power of two modulo
-- 2^128.
shift_left-mod :
    (a : U128) (b : ℕ) → IsU128 a → b < 128 → val (shift_left a b) ≡ val a * 2 ^ b % 2 ^ 128
shift_left-mod a b w h =
    let s = shift_left-Shifted a b w h in
    sym (
      mod_unique (val a * 2 ^ b) (2 ^ 128) s.over (val (shift_left a b)) (omega (arith, s.product))
        (val-lt (shift_left a b) s.words))

-- Where the product fits.
pub shift_left-exact :
    (a : U128) (b : ℕ)
    → IsU128 a
    → b < 128
    → val a * 2 ^ b < 2 ^ 128
    → val (shift_left a b) ≡ val a * 2 ^ b
shift_left-exact a b w h l = shift_left-mod a b w h ∙ mod-eq_of_lt l
