-- ===== src/Wide/Sums.antt =====
-- Comparison, addition, subtraction and multiplication of 128-bit values.
use dtrace.Base.{ℕ, ◌+◌, ◌-◌, ◌*◌, ◌/◌, ◌%◌, ◌^◌, ◌≤◌, ◌<◌, ◌≡◌, ap, ◌∙◌, ◌↔◌, true, false, arith}
use dtrace.Wide.LeftShift.{shift_left-Shifted, shift_left-exact}
use native.Mathlib.Nat.{mod-eq_of_lt, mul-le-mul}
use dtrace.Wide.Words.{IsU128, val, val-lt}
use dtrace.Wide.{U128, gt, ge, le, add, subtract, shift_left, multiply}

pub gt_iff : (a b : U128) → IsU128 a → IsU128 b → (gt a b ≡ true) ↔ (val b < val a)
unfolding gt
gt_iff a b w v = (λ e. ground (arith, w.lo_lt, v.lo_lt), λ h. ground (arith, w.lo_lt, v.lo_lt))

pub ge_iff : (a b : U128) → IsU128 a → IsU128 b → (ge a b ≡ true) ↔ (val b ≤ val a)
unfolding ge
ge_iff a b w v = (λ e. ground (arith, w.lo_lt, v.lo_lt), λ h. ground (arith, w.lo_lt, v.lo_lt))

pub le_iff : (a b : U128) → IsU128 a → IsU128 b → (le a b ≡ true) ↔ (val a ≤ val b)
unfolding le
le_iff a b w v = (λ e. ground (arith, w.lo_lt, v.lo_lt), λ h. ground (arith, w.lo_lt, v.lo_lt))

pub add-mod :
    (a b : U128)
    → IsU128 a
    → IsU128 b
    → IsU128 (add a b) × (val (add a b) ≡ (val a + val b) % 2 ^ 128)
unfolding add
add-mod a b w v = (
  record { lo_lt = omega arith; hi_lt = omega arith },
  ground (arith, w.lo_lt, v.lo_lt, w.hi_lt, v.hi_lt),
)

pub subtract-mod :
    (a b : U128)
    → IsU128 a
    → IsU128 b
    → IsU128 (subtract a b) × (val (subtract a b) ≡ (val a + 2 ^ 128 - val b) % 2 ^ 128)
unfolding subtract
subtract-mod a b w v = (
  record { lo_lt = omega arith; hi_lt = omega arith },
  ground (arith, w.lo_lt, v.lo_lt, w.hi_lt, v.hi_lt),
)

pub add-exact :
    (a b : U128)
    → IsU128 a
    → IsU128 b
    → val a + val b < 2 ^ 128
    → IsU128 (add a b) × (val (add a b) ≡ val a + val b)
add-exact a b w v h = let (k, e) = add-mod a b w v in (k, e ∙ mod-eq_of_lt h)

pub subtract-exact :
    (a b : U128)
    → IsU128 a
    → IsU128 b
    → val b ≤ val a
    → IsU128 (subtract a b) × (val (subtract a b) ≡ val a - val b)
subtract-exact a b w v h =
    let (k, e) = subtract-mod a b w v in let less = val-lt a w in (k, omega arith)

-- A product of two halves of a word is a word.
product_words :
    (x y : ℕ) → x < 2 ^ 32 → y < 2 ^ 32 → (x * y < 2 ^ 64 - 2 ^ 33 + 2) × (x * y % 2 ^ 64 ≡ x * y)
product_words x y hx hy =
    let le : x * y ≤ (2 ^ 32 - 1) * (2 ^ 32 - 1) =
      mul-le-mul {n₁ = x} {m₁ = y} {n₂ = 2 ^ 32 - 1} {m₂ = 2 ^ 32 - 1} (omega arith)
        (omega arith) in
    let less : x * y < 2 ^ 64 - 2 ^ 33 + 2 = omega arith in
    (less, mod-eq_of_lt (omega (arith, less)))

middle :
    (x : ℕ)
    → x < 2 ^ 64
    → IsU128 (shift_left (record { lo = x; hi = 0 }) 32)
      × (val (shift_left (record { lo = x; hi = 0 }) 32) ≡ x * 2 ^ 32)
middle x h =
    let w : IsU128 (record { lo = x; hi = 0 }) = record { lo_lt = h; hi_lt = omega arith } in
    (
      (shift_left-Shifted (record { lo = x; hi = 0 }) 32 w (omega arith)).words,
      omega (arith, shift_left-exact (record { lo = x; hi = 0 }) 32 w (omega arith) (omega arith)),
    )

expand :
    (h1 l1 h2 l2 : ℕ)
    → (h1 * 2 ^ 32 + l1) * (h2 * 2 ^ 32 + l2)
      ≡ l1 * l2 + h1 * h2 * 2 ^ 64 + h1 * l2 * 2 ^ 32 + h2 * l1 * 2 ^ 32
expand h1 l1 h2 l2 = omega arith

-- The factors in halves.
multiply_halves :
    (h1 l1 h2 l2 : ℕ)
    → h1 < 2 ^ 32
    → l1 < 2 ^ 32
    → h2 < 2 ^ 32
    → l2 < 2 ^ 32
    → let sum =
        add
          (add
            (record { lo = l1 * l2 % 2 ^ 64; hi = h1 * h2 % 2 ^ 64 })
            (shift_left (record { lo = h1 * l2 % 2 ^ 64; hi = 0 }) 32))
          (shift_left (record { lo = h2 * l1 % 2 ^ 64; hi = 0 }) 32) in
      IsU128 sum × (val sum ≡ (h1 * 2 ^ 32 + l1) * (h2 * 2 ^ 32 + l2))
multiply_halves h1 l1 h2 l2 a b c d =
    let (bll, ll) = product_words l1 l2 b d in
    let (bhh, hh) = product_words h1 h2 a c in
    let (bhl, hl) = product_words h1 l2 a d in
    let (blh, lh) = product_words h2 l1 c b in
    let (ws, vs) = middle (h1 * l2 % 2 ^ 64) (omega arith) in
    let (wt, vt) = middle (h2 * l1 % 2 ^ 64) (omega arith) in
    let e = expand h1 l1 h2 l2 in
    let wp : IsU128 (record { lo = l1 * l2 % 2 ^ 64; hi = h1 * h2 % 2 ^ 64 }) = record {
      lo_lt = omega arith;
      hi_lt = omega arith;
    } in
    let (w1, v1) = add-exact _ _ wp ws (omega (arith, vs)) in
    let (w2, v2) = add-exact _ _ w1 wt (omega (arith, vs, vt, v1)) in
    (w2, omega (arith, v2, v1, vs, vt, e))

-- dt_multiply_128() of two words gives the two words of their product.
pub multiply-product :
    (f g : ℕ) → f < 2 ^ 64 → g < 2 ^ 64 → IsU128 (multiply f g) × (val (multiply f g) ≡ f * g)
unfolding multiply
multiply-product f g hf hg =
    let (w, v) =
      multiply_halves (f / 2 ^ 32) (f % 2 ^ 32) (g / 2 ^ 32) (g % 2 ^ 32) (omega arith)
        (omega arith) (omega arith) (omega arith) in
    let ef : f / 2 ^ 32 * 2 ^ 32 + f % 2 ^ 32 ≡ f = omega arith in
    let eg : g / 2 ^ 32 * 2 ^ 32 + g % 2 ^ 32 ≡ g = omega arith in
    (w, v ∙ ap (λ (n : ℕ). n * (g / 2 ^ 32 * 2 ^ 32 + g % 2 ^ 32)) ef ∙ ap (λ (n : ℕ). f * n) eg)

pub ge-false : (a b : U128) → IsU128 a → IsU128 b → ge a b ≡ false → val a < val b
unfolding ge
ge-false a b w v e = ground (arith, w.lo_lt, v.lo_lt)

pub le-false : (a b : U128) → IsU128 a → IsU128 b → le a b ≡ false → val b < val a
unfolding le
le-false a b w v e = ground (arith, w.lo_lt, v.lo_lt)

pub gt-false : (a b : U128) → IsU128 a → IsU128 b → gt a b ≡ false → val a ≤ val b
unfolding gt
gt-false a b w v e = ground (arith, w.lo_lt, v.lo_lt)
