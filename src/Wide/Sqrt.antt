-- ===== src/Wide/Sqrt.antt =====
-- dt_sqrt_128() ends with its assert passed, and gives the integer square root.
use dtrace.Base.{
  ℕ, zero, suc, ◌+◌, ◌-◌, ◌*◌, ◌/◌, ◌%◌, ◌^◌, ◌≤◌, ◌<◌, ◌≡◌, refl, sym, ap, ◌∙◌, subst, inl, inr,
  true, some, arith, ltb, ◌==◌, Bool-cases,
}
use dtrace.Wide.Roots.{low_pair, nbits-bits}
use dtrace.Wide.Sums.{add-exact, le_iff, subtract-exact, le-false}
use dtrace.Wide.LeftShift.{shift_left-exact, shift_left-Shifted}
use Prim.Native.Nat.{bit_and}
use dtrace.Base.Bits.{pow_add}
use native.Mathlib.Nat.{mul-le-mul, div-div-eq-div-mul, div-le_self, pow-le-pow_right, div-eq_of_lt}
use dtrace.Wide.Words.{IsU128, val, val-lt}
use dtrace.Wide.{
  U128, add, shift_left, sqrt_step, one_128, bit_and, shift_right, sqrt_from, sqrt, le, nbits,
  zero_128, subtract, asserted,
}

-- After the pairs down to bit `t`: the root so far and what is left of the bits from t on.
record Rooted (square : U128) (t : ℕ) (diff result : U128) : Type 0 where
  diff_words : IsU128 diff
  result_words : IsU128 result
  root : val result * val result + val diff ≡ val square / 2 ^ t
  near : val diff ≤ 2 * val result

root_small : (r n : ℕ) → r * r ≤ n → n < 2 ^ 126 → r < 2 ^ 63
root_small r n h l = elim (Bool-cases (ltb r (2 ^ 63))) [
  | inl e ↦ ground arith
  | inr e ↦
      let big : 2 ^ 63 ≤ r = ground arith in
      absurd (omega (arith, mul-le-mul {n₁ = 2 ^ 63} {m₁ = 2 ^ 63} {n₂ = r} {m₂ = r} big big))
]

square_root_lt : (r n : ℕ) → r * r ≤ n → n < 2 ^ 128 → r < 2 ^ 64
square_root_lt r n h l = elim (Bool-cases (ltb r (2 ^ 64))) [
  | inl e ↦ ground arith
  | inr e ↦
      let big : 2 ^ 64 ≤ r = ground arith in
      absurd (omega (arith, mul-le-mul {n₁ = 2 ^ 64} {m₁ = 2 ^ 64} {n₂ = r} {m₂ = r} big big))
]

pair_step :
    (n r d pair : ℕ) {u : ℕ}
    → r * r + d ≡ n
    → d ≤ 2 * r
    → u ≡ 4 * n + pair
    → pair < 4
    → (4 * r + 1 ≤ 4 * d + pair
        → ((2 * r + 1) * (2 * r + 1) + (4 * d + pair - (4 * r + 1)) ≡ u)
          × (4 * d + pair - (4 * r + 1) ≤ 2 * (2 * r + 1)))
      × (4 * d + pair < 4 * r + 1
          → (2 * r * (2 * r) + (4 * d + pair) ≡ u) × (4 * d + pair ≤ 2 * (2 * r)))
pair_step n r d pair e h eu hp = (λ l. (omega arith, omega arith), λ l. (omega arith, omega arith))

-- A round's values, of a root that is small enough.
record Tried (pair : ℕ) (diff result diff' next_try : U128) : Type 0 where
  tried_diff_words : IsU128 diff'
  try_words : IsU128 next_try
  diff_val : val diff' ≡ 4 * val diff + pair
  try_val : val next_try ≡ 4 * val result + 1

tries :
    (pair : ℕ) (diff result : U128)
    → pair < 4
    → IsU128 diff
    → IsU128 result
    → val result < 2 ^ 63
    → val diff ≤ 2 * val result
    → Tried pair diff result
        (add (shift_left diff 2) (record { lo = pair; hi = 0 }))
        (add (shift_left result 2) one_128)
tries pair diff result hp wd wr small near =
    let wp : IsU128 (record { lo = pair; hi = 0 }) = record {
      lo_lt = omega arith;
      hi_lt = omega arith;
    } in
    let w1 : IsU128 one_128 = record { lo_lt = omega arith; hi_lt = omega arith } in
    let sd = shift_left-exact diff 2 wd (omega arith) (omega arith) in
    let sr = shift_left-exact result 2 wr (omega arith) (omega arith) in
    let (a, av) =
      add-exact (shift_left diff 2) (record { lo = pair; hi = 0 })
        (shift_left-Shifted diff 2 wd (omega arith)).words wp (omega (arith, sd)) in
    let (b, bv) =
      add-exact (shift_left result 2) one_128 (shift_left-Shifted result 2 wr (omega arith)).words
        w1 (omega (arith, sr)) in
    record {
      tried_diff_words = a;
      try_words = b;
      diff_val = omega (arith, av, sd);
      try_val = omega (arith, bv, sr);
    }

-- The root with a new lowest bit, 0 or 1.
doubled :
    (result : U128)
    → IsU128 result
    → val result < 2 ^ 63
    → (IsU128 (shift_left result 1) × (val (shift_left result 1) ≡ 2 * val result))
      × (IsU128 (add (shift_left result 1) one_128)
          × (val (add (shift_left result 1) one_128) ≡ 2 * val result + 1))
doubled result w small =
    let w1 : IsU128 one_128 = record { lo_lt = omega arith; hi_lt = omega arith } in
    let s = shift_left-exact result 1 w (omega arith) (omega arith) in
    let ws = (shift_left-Shifted result 1 w (omega arith)).words in
    let (a, v) = add-exact (shift_left result 1) one_128 ws w1 (omega (arith, s)) in
    ((ws, omega (arith, s)), (a, omega (arith, v, s)))

quarter : (n t : ℕ) → n / 2 ^ t ≡ 4 * (n / 2 ^ (t + 2)) + n / 2 ^ t % 4
quarter n t =
    let e = div-div-eq-div-mul n (2 ^ t) 4 in
    let p : 2 ^ t * 4 ≡ 2 ^ (t + 2) = sym (pow_add t 2) in omega (arith, e, ap (λ (k : ℕ). n / k) p)

rooted :
    (square : U128) (t : ℕ) (diff result : U128) {x y : ℕ}
    → IsU128 diff
    → IsU128 result
    → val diff ≡ x
    → val result ≡ y
    → y * y + x ≡ val square / 2 ^ t
    → x ≤ 2 * y
    → Rooted square t diff result
rooted square t diff result dw rw' ex ey root near = record {
  diff_words = dw;
  result_words = rw';
  root = omega (arith, ap (λ (k : ℕ). k * k) ey, ex, root);
  near = omega arith;
}

sqrt_step-Rooted :
    (square : U128) (t : ℕ) (diff result : U128)
    → IsU128 square
    → t < 128
    → Rooted square (t + 2) diff result
    → Rooted square t (sqrt_step square t diff result).0 (sqrt_step square t diff result).1
unfolding sqrt_step
sqrt_step-Rooted square t diff result w h k =
    let n = val square / 2 ^ (t + 2) in
    let pair = bit_and (shift_right square t).lo 3 in
    let ep : pair ≡ val square / 2 ^ t % 4 = low_pair square t w h in
    let less : pair < 4 = omega (arith, ep) in
    let u : val square / 2 ^ t ≡ 4 * n + pair = omega (arith, ep, quarter (val square) t) in
    let bound : n < 2 ^ 126 = omega (arith, u, val-lt square w, div-le_self (val square) (2 ^ t)) in
    let small = root_small (val result) n (omega (arith, k.root)) bound in
    let tr = tries pair diff result less k.diff_words k.result_words small k.near in
    let ((sw, sv), (aw, av)) = doubled result k.result_words small in
    let (taken, left) = pair_step n (val result) (val diff) pair k.root k.near u less in
    let diff' = add (shift_left diff 2) (record { lo = pair; hi = 0 }) in
    let next_try = add (shift_left result 2) one_128 in
    elim (Bool-cases (le next_try diff')) [
      | inl e ↦
          let fits = (le_iff next_try diff' tr.try_words tr.tried_diff_words).0 e in
          let (dw, dv) = subtract-exact diff' next_try tr.tried_diff_words tr.try_words fits in
          let (root, near) = taken (omega (arith, fits, tr.diff_val, tr.try_val)) in
          rw e (
            rooted square t (subtract diff' next_try) (add (shift_left result 1) one_128) dw aw
              (omega (arith, dv, tr.diff_val, tr.try_val)) av root near)
      | inr e ↦
          let over = le-false next_try diff' tr.try_words tr.tried_diff_words e in
          let (root, near) = left (omega (arith, over, tr.diff_val, tr.try_val)) in
          rw e (
            rooted square t diff' (shift_left result 1) tr.tried_diff_words sw tr.diff_val sv root
              near)
    ]

-- The step's two values, followed by the rounds that are left.
sqrt_from_more :
    (rounds : ℕ) (square : U128) (t : ℕ) (diff result : U128)
    → sqrt_from (suc rounds) square t diff result
      ≡ sqrt_from rounds square
          ((t + 2 ^ 64 - 2) % 2 ^ 64)
          (sqrt_step square t diff result).0
          (sqrt_step square t diff result).1
unfolding sqrt_from
sqrt_from_more rounds square t diff result = refl

sqrt_from_done :
    (square : U128) (t : ℕ) (diff result : U128) → sqrt_from 0 square t diff result ≡ result
unfolding sqrt_from
sqrt_from_done square t diff result = refl

sqrt_from-Rooted :
    (rounds : ℕ) (square : U128) (t : ℕ) (diff result : U128)
    → IsU128 square
    → t ≡ 2 * rounds
    → t < 128
    → Rooted square (t + 2) diff result
    → (diff' : U128) × Rooted square 0 diff' (sqrt_from (suc rounds) square t diff result)
sqrt_from-Rooted zero square t diff result w e h k =
    let z : t ≡ 0 = omega arith in
    let s = sqrt_step-Rooted square t diff result w h k in
    let r = sqrt_step square t diff result in
    let out = sqrt_from_more 0 square t diff result ∙ sqrt_from_done square _ r.0 r.1 in
    (r.0, subst (λ x. Rooted square 0 r.0 x) (sym out) (subst (λ n. Rooted square n r.0 r.1) z s))
sqrt_from-Rooted (suc m) square t diff result w e h k =
    let back : (t + 2 ^ 64 - 2) % 2 ^ 64 ≡ 2 * m = omega arith in
    let up : t ≡ (t + 2 ^ 64 - 2) % 2 ^ 64 + 2 = omega arith in
    let s = sqrt_step-Rooted square t diff result w h k in
    let r = sqrt_step square t diff result in
    let (last, ih) =
      sqrt_from-Rooted m square ((t + 2 ^ 64 - 2) % 2 ^ 64) r.0 r.1 w back (omega arith)
        (subst (λ n. Rooted square n r.0 r.1) up s) in
    (
      last,
      subst (λ x. Rooted square 0 last x) (sym (sqrt_from_more (suc m) square t diff result)) ih,
    )

asserted-lo : (r : U128) → r.hi ≡ 0 → asserted r ≡ some r.lo
unfolding asserted
asserted-lo r e = let t : (r.hi == 0) ≡ true = ground arith in rw t refl

sqrt_returns :
    (n : U128) (bits : ℕ)
    → nbits n ≡ some bits
    → sqrt n ≡ asserted (sqrt_from (bits / 2 + 1) n (bits / 2 * 2) zero_128 zero_128)
unfolding sqrt
sqrt_returns n bits e = rw (e, sqrt) refl

start-Rooted :
    (n : U128) (bits : ℕ) → val n < 2 ^ suc bits → Rooted n (bits / 2 * 2 + 2) zero_128 zero_128
start-Rooted n bits above =
    let zw : IsU128 zero_128 = record { lo_lt = omega arith; hi_lt = omega arith } in
    let less : val n < 2 ^ (bits / 2 * 2 + 2) = omega (
      arith,
      above,
      pow-le-pow_right {n = 2} (omega arith) {i = suc bits} {j = bits / 2 * 2 + 2} (omega arith),
    ) in
    let none_above = div-eq_of_lt less in
    record {
      diff_words = zw;
      result_words = zw;
      root = omega (arith, none_above);
      near = omega arith;
    }

-- dt_sqrt_128() of any two words ends with its assert passed, and its result r is the integer
-- square root of the value v: it is below 2^64, and r * r is at most v and (r + 1) * (r + 1) above
-- v.
pub sqrt-root :
    (n : U128)
    → IsU128 n
    → (r : ℕ) × ((sqrt n ≡ some r) × (r < 2 ^ 64) × (r * r ≤ val n) × (val n < (r + 1) * (r + 1)))
sqrt-root n w =
    let (bits, (found, above, least, few)) = nbits-bits n w in
    let (diff, k) =
      sqrt_from-Rooted (bits / 2) n (bits / 2 * 2) zero_128 zero_128 w (omega arith) (omega arith)
        (start-Rooted n bits above) in
    let last = sqrt_from (suc (bits / 2)) n (bits / 2 * 2) zero_128 zero_128 in
    let same : bits / 2 + 1 ≡ suc (bits / 2) = omega arith in
    let root : val last * val last + val diff ≡ val n = omega (arith, k.root) in
    let small = square_root_lt (val last) (val n) (omega (arith, root)) (val-lt n w) in
    let no_hi : last.hi ≡ 0 = omega (arith, small) in
    let value : last.lo ≡ val last = omega (arith, no_hi) in
    (
      val last,
      (
        sqrt_returns n bits found
            ∙ ap (λ (m : ℕ). asserted (sqrt_from m n (bits / 2 * 2) zero_128 zero_128)) same
            ∙ asserted-lo last no_hi
            ∙ ap some value,
        small,
        omega (arith, root),
        omega (arith, root, k.near),
      ),
    )
