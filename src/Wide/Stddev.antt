-- ===== src/Wide/Stddev.antt =====
-- dt_stddev() on the count, the sum and the sum of squares of data.
use dtrace.Base.{
  ℕ, ◌+◌, ◌-◌, ◌*◌, ◌/◌, ◌^◌, ◌≤◌, ◌<◌, ◌≡◌, refl, ap, ◌∙◌, inl, inr, some, arith, ltb, Bool-cases,
}
use dtrace.Wide.Sqrt.{sqrt-root}
use dtrace.Wide.Sums.{multiply-product, subtract-exact}
use dtrace.Wide.Divide.{divide-div}
use dtrace.Wide.Words.{IsU128, val}
use native.Mathlib.Nat.{
  div-le_self, mul-le-mul_left, div-mul-le_self, mul-le-mul_right, mul-le-mul, le-div_iff_mul-le,
  le_of_mul-le-mul_left,
}
use dtrace.Wide.{U128, divide_signed, magnitude, stddev, absolute, divide, sqrt, subtract, multiply}

divide_signed-magnitude :
    (x y : ℕ)
    → x < 2 ^ 64
    → 0 < y
    → y < 2 ^ 63
    → (divide_signed x y < 2 ^ 64) × (magnitude (divide_signed x y) ≡ magnitude x / y)
unfolding divide_signed
divide_signed-magnitude x y hx pos hy = elim (Bool-cases (ltb x (2 ^ 63))) [
  | inl e ↦ ground (arith, div-le_self x y)
  | inr e ↦ ground (arith, div-le_self (2 ^ 64 - x) y)
]

magnitude-lt : (x : ℕ) → x < 2 ^ 64 → magnitude x < 2 ^ 64
magnitude-lt x h = ground arith

-- The condition holds of the sums of any data, by the inequality of Cauchy and Schwarz.
pub average_square-le :
    (count sum squares normal : ℕ)
    → 0 < count
    → 0 < normal
    → sum * sum ≤ count * squares
    → sum / normal / count * (sum / normal / count) ≤ squares / normal / count
average_square-le count sum squares normal hc hn h =
    let m = sum / normal / count in
    let a = div-mul-le_self (sum / normal) count in
    let b = div-mul-le_self sum normal in
    let k : m * count * normal ≤ sum = omega (arith, b, mul-le-mul_right normal a) in
    let k2 : m * count * normal * (m * count * normal) ≤ sum * sum = mul-le-mul k k in
    let one : m * m * count * 1 * count * normal ≤ m * m * count * normal * count * normal =
      mul-le-mul_right normal (mul-le-mul_right count (mul-le-mul_left (m * m * count) hn)) in
    let whole : count * (m * m * count * normal) ≤ count * squares = omega (arith, one, k2, h) in
    let part : m * m * count * normal ≤ squares = le_of_mul-le-mul_left {k = count} whole hc in
    (le-div_iff_mul-le hc).1 ((le-div_iff_mul-le hn).1 part)

-- The chain of calls.
stddev_calls :
    (count sum : ℕ) (squares q a : U128) (normal : ℕ)
    → divide squares normal ≡ some q
    → divide q count ≡ some a
    → (avg : ℕ) → divide_signed (divide_signed sum normal) count ≡ avg
    → stddev count sum squares normal ≡ sqrt (subtract a (multiply (absolute avg) (absolute avg)))
unfolding stddev
stddev_calls count sum squares q a normal e f avg g = rw (e, f, g) refl

absolute-magnitude : (x : ℕ) → x < 2 ^ 64 → absolute x ≡ magnitude x
unfolding absolute
absolute-magnitude x h = ground arith

-- For a count and a normalization from 1 to 2^63 - 1, any signed sum and any two words of squares,
-- such that the square of the sum is at most the count times the squares, dt_stddev() returns the
-- integer square root of the difference of the average of the squares and the square of the
-- average, both rounded towards zero after each division.
pub stddev-root :
    (count sum : ℕ) (squares : U128) (normal : ℕ)
    → 0 < count
    → count < 2 ^ 63
    → 0 < normal
    → normal < 2 ^ 63
    → sum < 2 ^ 64
    → IsU128 squares
    → magnitude sum * magnitude sum ≤ count * val squares
    → let mean = magnitude sum / normal / count in
      (r : ℕ) × ((stddev count sum squares normal ≡ some r)
        × (r * r + mean * mean ≤ val squares / normal / count)
        × (val squares / normal / count < (r + 1) * (r + 1) + mean * mean))
stddev-root count sum squares normal hc lc hn ln hs w cs =
    let (q, (eq, wq, vq)) = divide-div squares normal w hn (omega arith) in
    let (a, (ea, wa, va)) = divide-div q count wq hc (omega arith) in
    let (l1, m1) = divide_signed-magnitude sum normal hs hn ln in
    let (l2, m2) = divide_signed-magnitude (divide_signed sum normal) count l1 hc lc in
    let avg = divide_signed (divide_signed sum normal) count in
    let mean = magnitude sum / normal / count in
    let abs : absolute avg ≡ mean = absolute-magnitude avg l2 ∙ m2 ∙ ap (λ (n : ℕ). n / count) m1 in
    let av : val a ≡ val squares / normal / count = va ∙ ap (λ (n : ℕ). n / count) vq in
    let le' = average_square-le count (magnitude sum) (val squares) normal hc hn cs in
    let small : mean < 2 ^ 64 = omega (
      arith,
      magnitude-lt sum hs,
      div-le_self (magnitude sum) normal,
      div-le_self (magnitude sum / normal) count,
    ) in
    let (wm, vm) = multiply-product mean mean small small in
    let (wd, vd) = subtract-exact a (multiply mean mean) wa wm (omega (arith, vm, av, le')) in
    let (r, (er, lr, low, high)) = sqrt-root (subtract a (multiply mean mean)) wd in
    (
      r,
      (
        stddev_calls count sum squares q a normal eq ea avg refl
            ∙ ap (λ n. sqrt (subtract a (multiply n n))) abs
            ∙ er,
        omega (arith, low, vd, vm, av, le'),
        omega (arith, high, vd, vm, av, le'),
      ),
    )
