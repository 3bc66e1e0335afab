-- ===== src/Wide/Words.antt =====
-- The shifts of dt_shift_128() on the number that the two words stand for.
use dtrace.Base.{
  ℕ, zero, suc, ◌+◌, ◌-◌, ◌*◌, ◌/◌, ◌%◌, ◌^◌, ◌≤◌, ◌<◌, ◌≡◌, refl, sym, ap, ◌∙◌, inl, inr, true,
  false, arith, leb, ◌==◌, Bool-cases,
}
use native.Mathlib.Nat.{
  one-le-pow, div-lt_iff_lt-mul, div-add-mod', mod-lt, mul_comm, pow-le-pow_right,
  add-mul-div_right, div-eq_of_lt, mod-eq_of_lt, mul-le-mul_right, mod-one, mul-lt-mul_of_pos_right,
  div-div-eq-div-mul, div-le_self,
}
use dtrace.Base.Bits.{pow_add, mod_unique, bit_and-mask, bit_or-low}
use dtrace.Wide.{U128, bit_or, shift_right, bit_and}

abbrev pub val : U128 → ℕ
val a = a.lo + a.hi * 2 ^ 64

pub record IsU128 (a : U128) : Type 0 where
  pub lo_lt : a.lo < 2 ^ 64
  pub hi_lt : a.hi < 2 ^ 64

pub val-lt : (a : U128) → IsU128 a → val a < 2 ^ 128
val-lt a w = omega (arith, w.lo_lt, w.hi_lt)

-- The bits of the high word that a right shift by 33 to 63 loses.
abbrev pub lost : U128 → ℕ → ℕ
lost a b = a.hi % 2 ^ b / 2 ^ (64 - b) * 2 ^ (64 - b) * 2 ^ (64 - b)

-- P * Q is 2 ^ 64 where P = 2 ^ b, Q = 2 ^ (64 - b).
pub split_64 : (b : ℕ) → b ≤ 64 → 2 ^ b * 2 ^ (64 - b) ≡ 2 ^ 64
split_64 b h =
    let e : b + (64 - b) ≡ 64 = omega arith in sym (pow_add b (64 - b)) ∙ ap (λ (n : ℕ). 2 ^ n) e

pub pow-pos : (b : ℕ) → 0 < 2 ^ b
pow-pos b = omega (arith, one-le-pow b 2 (omega arith))

-- The low word of a right shift: the quotient, and the bits of the high word that the mask keeps.
right_low :
    (lo hi p q m : ℕ)
    → 0 < p
    → 0 < q
    → p * q ≡ m
    → lo < m
    → (lo / p < q) × (lo / p + hi * q ≡ (lo + hi * m) / p)
right_low lo hi p q m hp hq e h =
    let low : lo / p < q = (div-lt_iff_lt-mul hp).1 (omega (arith, mul_comm p q)) in
    let big : lo + hi * m ≡ lo + hi * q * p = omega (arith, ap (λ (n : ℕ). hi * n) (sym e)) in
    (low, sym (ap (λ (n : ℕ). n / p) big ∙ add-mul-div_right lo (hi * q) hp))

pow_dvd : (a b : ℕ) → a ≤ b → (c : ℕ) × (2 ^ b ≡ c * 2 ^ a)
pow_dvd a b h =
    let e : b - a + a ≡ b = omega arith in
    (2 ^ (b - a), ap (λ (n : ℕ). 2 ^ n) (sym e) ∙ pow_add (b - a) a)

mod-mod_pow : (n a b : ℕ) → a ≤ b → n % 2 ^ b % 2 ^ a ≡ n % 2 ^ a
mod-mod_pow n a b h =
    let (c, e) = pow_dvd a b h in
    let whole = div-add-mod' n (2 ^ b) in
    let part = div-add-mod' (n % 2 ^ b) (2 ^ a) in
    let less = mod-lt (n % 2 ^ b) (pow-pos a) in
    sym (
      mod_unique n (2 ^ a) (n / 2 ^ b * c + n % 2 ^ b / 2 ^ a) (n % 2 ^ b % 2 ^ a)
        (omega (arith, ap (λ (k : ℕ). n / 2 ^ b * k) e)) less)

-- What the mask keeps of the low bits of the high word.
kept :
    (hi b : ℕ)
    → b ≤ 64
    → hi % 2 ^ (64 - b) % 2 ^ b + hi % 2 ^ b / 2 ^ (64 - b) * 2 ^ (64 - b) ≡ hi % 2 ^ b
kept hi b h = elim (Bool-cases (leb b (64 - b))) [
  | inl e ↦
      let le' : b ≤ 64 - b = ground arith in
      let less : hi % 2 ^ b < 2 ^ (64 - b) =
        omega (arith, mod-lt hi (pow-pos b), pow-le-pow_right {n = 2} (omega arith) le') in
      let z = div-eq_of_lt less in
      omega (arith, mod-mod_pow hi b (64 - b) le', ap (λ (n : ℕ). n * 2 ^ (64 - b)) z)
  | inr e ↦
      let le' : 64 - b ≤ b = ground arith in
      let less : hi % 2 ^ (64 - b) < 2 ^ b =
        omega (arith, mod-lt hi (pow-pos (64 - b)), pow-le-pow_right {n = 2} (omega arith) le') in
      let s = mod-eq_of_lt less in
      omega (arith, mod-mod_pow hi (64 - b) b le', div-add-mod' (hi % 2 ^ b) (2 ^ (64 - b)))
]

mul-mod_mul : (x p q : ℕ) → 0 < p → 0 < q → x * q % (p * q) ≡ x % p * q
mul-mod_mul x p q hp hq =
    let less : x % p * q < p * q =
      omega (arith, mul-lt-mul_of_pos_right {k = q} (mod-lt x hp) hq) in
    mod_unique (x * q) (p * q) (x / p) (x % p * q)
      (omega (arith, ap (λ (n : ℕ). n * q) (div-add-mod' x p))) less

-- The same with the two powers.
pub shift_mod : (x b : ℕ) → b ≤ 64 → x * 2 ^ b % 2 ^ 64 ≡ x % 2 ^ (64 - b) * 2 ^ b
shift_mod x b h =
    ap (λ (n : ℕ). x * 2 ^ b % n) (sym (split_64 b h) ∙ mul_comm (2 ^ b) (2 ^ (64 - b)))
    ∙ mul-mod_mul x (2 ^ (64 - b)) (2 ^ b) (pow-pos (64 - b)) (pow-pos b)

shift_right-low :
    (lo hi b : ℕ)
    → b ≤ 64
    → lo < 2 ^ 64
    → bit_or (lo / 2 ^ b) (bit_and hi (2 ^ (64 - b) - 1) * 2 ^ (64 - b) % 2 ^ 64)
      ≡ lo / 2 ^ b + hi % 2 ^ (64 - b) % 2 ^ b * 2 ^ (64 - b)
shift_right-low lo hi b h hl =
    let e = split_64 b h in
    let q = pow-pos (64 - b) in
    let (low, _) = right_low lo hi (2 ^ b) (2 ^ (64 - b)) (2 ^ 64) (pow-pos b) q e hl in
    let mask = bit_and-mask (64 - b) hi (2 ^ (64 - b) - 1) (omega arith) in
    let m : bit_and hi (2 ^ (64 - b) - 1) * 2 ^ (64 - b) % 2 ^ 64
        ≡ hi % 2 ^ (64 - b) % 2 ^ b * 2 ^ (64 - b) =
      ap (λ (n : ℕ). n * 2 ^ (64 - b) % 2 ^ 64) mask
      ∙ ap (λ (n : ℕ). hi % 2 ^ (64 - b) * 2 ^ (64 - b) % n) (sym e)
      ∙ mul-mod_mul (hi % 2 ^ (64 - b)) (2 ^ b) (2 ^ (64 - b)) (pow-pos b) q in
    ap (λ (n : ℕ). bit_or (lo / 2 ^ b) n) m
    ∙ bit_or-low (64 - b) (lo / 2 ^ b) (hi % 2 ^ (64 - b) % 2 ^ b) low

right_sum :
    (hi p q m l x y : ℕ)
    → p * q ≡ m
    → x + y * q ≡ hi % p
    → l + x * q + hi / p * m + y * q * q ≡ l + hi * q
right_sum hi p q m l x y e k = omega (
  arith,
  ap (λ (n : ℕ). n * q) k,
  ap (λ (n : ℕ). n * q) (div-add-mod' hi p),
  ap (λ (n : ℕ). hi / p * n) e,
)

shift_right-small :
    (a : U128) (b : ℕ)
    → 0 < b
    → b < 64
    → shift_right a b ≡ record {
      lo = bit_or (a.lo / 2 ^ b) (bit_and a.hi (2 ^ (64 - b) - 1) * 2 ^ (64 - b) % 2 ^ 64);
      hi = a.hi / 2 ^ b;
    }
unfolding shift_right
shift_right-small a b p h =
    let z : (b == 0) ≡ false = ground arith in
    let below : leb 64 b ≡ false = ground arith in rw (z, below) refl

pub shift_right-zero : (a : U128) → shift_right a 0 ≡ a
unfolding shift_right
shift_right-zero a = refl

-- dt_shift_128() of two words to the right by less than 64 gives the quotient by that power of two,
-- less the bits of the high word that its mask drops.
pub shift_right-loses :
    (a : U128) (b : ℕ) → IsU128 a → b < 64 → val (shift_right a b) + lost a b ≡ val a / 2 ^ b
shift_right-loses a zero w h =
    let one_of : a.hi % 2 ^ 0 ≡ 0 = omega (arith, mod-one a.hi) in
    rw (shift_right-zero a, one_of) (omega arith)
shift_right-loses a (suc c) w h =
    let b = suc c in
    let e = split_64 b (omega arith) in
    let (_, quot) =
      right_low a.lo a.hi (2 ^ b) (2 ^ (64 - b)) (2 ^ 64) (pow-pos b) (pow-pos (64 - b)) e
        w.lo_lt in
    let low = shift_right-low a.lo a.hi b (omega arith) w.lo_lt in
    let keep = kept a.hi b (omega arith) in
    rw (shift_right-small a (suc c) (omega arith) h, low)
      (right_sum a.hi (2 ^ b) (2 ^ (64 - b)) (2 ^ 64) (a.lo / 2 ^ b) (a.hi % 2 ^ (64 - b) % 2 ^ b)
          (a.hi % 2 ^ b / 2 ^ (64 - b)) e keep
        ∙ quot)

pub shift_right-far :
    (a : U128) (b : ℕ) → IsU128 a → 64 ≤ b → b < 128 → val (shift_right a b) ≡ val a / 2 ^ b
unfolding shift_right
shift_right-far a b w h l =
    let z : (b == 0) ≡ false = ground arith in
    let far : leb 64 b ≡ true = ground arith in
    let e : 64 + (b - 64) ≡ b = omega arith in
    rw (z, far)
      (let top : val a / 2 ^ 64 ≡ a.hi = omega (arith, w.lo_lt) in
        omega (
          arith,
          ap (λ (n : ℕ). n / 2 ^ (b - 64)) (sym top),
          div-div-eq-div-mul (val a) (2 ^ 64) (2 ^ (b - 64)),
          ap (λ (n : ℕ). val a / n) (sym (pow_add 64 (b - 64)) ∙ ap (λ (n : ℕ). 2 ^ n) e),
        ))

-- Without a loss: by at most 32, or by 64 and more.
pub shift_right-div : (a : U128) (b : ℕ) → IsU128 a → b < 33 → val (shift_right a b) ≡ val a / 2 ^ b
shift_right-div a b w h =
    let less : a.hi % 2 ^ b < 2 ^ (64 - b) = omega (
      arith,
      mod-lt a.hi (pow-pos b),
      pow-le-pow_right {n = 2} (omega arith) {i = b} {j = 64 - b} (omega arith),
    ) in
    let z = div-eq_of_lt less in
    omega (
      arith,
      shift_right-loses a b w (omega arith),
      ap (λ (n : ℕ). n * 2 ^ (64 - b) * 2 ^ (64 - b)) z,
    )

-- The words of a right shift are words.
pub shift_right-IsU128 : (a : U128) (b : ℕ) → IsU128 a → b < 64 → IsU128 (shift_right a b)
shift_right-IsU128 a zero w h = rw (shift_right-zero a) w
shift_right-IsU128 a (suc c) w h =
    let b = suc c in
    let e = split_64 b (omega arith) in
    let (low, _) =
      right_low a.lo a.hi (2 ^ b) (2 ^ (64 - b)) (2 ^ 64) (pow-pos b) (pow-pos (64 - b)) e
        w.lo_lt in
    let part = mul-le-mul_right (2 ^ (64 - b)) (mod-lt (a.hi % 2 ^ (64 - b)) (pow-pos b)) in
    rw
      (
        shift_right-small a (suc c) (omega arith) h,
        shift_right-low a.lo a.hi b (omega arith) w.lo_lt,
      )
      (record {
        lo_lt = omega (arith, low, part, e);
        hi_lt = omega (arith, w.hi_lt, div-le_self a.hi (2 ^ b));
      })
