-- ===== src/Bins/Linear.antt =====
-- The buckets of lquantize().
use dtrace.Base.{
  ℕ, ◌+◌, ◌-◌, ◌*◌, ◌/◌, ◌≤◌, ◌<◌, ◌≡◌, sym, ap, subst, inl, inr, arith, ltb, ◌==◌, Bool-cases,
  ltb→lt,
}
use native.Mathlib.Nat.{div-add-mod', mod-lt, mul-le-mul_right}
use dtrace.Bins.{lqbin}

-- Where a value lies: below the base, in the k-th step from it, or behind the last level.
pub data InBucket (val base levels step : ℕ) : ℕ → Type 0 where
  no_step : step ≡ 0 → InBucket val base levels step 0
  below : val < base → InBucket val base levels step 0
  within :
      {k : ℕ}
      → 0 < step
      → k < levels
      → base + k * step ≤ val
      → val < base + k * step + step
      → InBucket val base levels step (k + 1)
  above : 0 < step → base + levels * step ≤ val → InBucket val base levels step (levels + 1)

div_bounds : (n d : ℕ) → 0 < d → (n / d * d ≤ n) × (n < n / d * d + d)
div_bounds n d h =
    let whole = div-add-mod' n d in
    let part = mod-lt n h in (omega (arith, whole, part), omega (arith, whole, part))

-- dt_agg_lqbin() puts a value below the base, or any value at a step of 0, in bucket 0, one of the
-- k-th step (from 0) below the levels in bucket k + 1, and the others in bucket levels + 1.
pub lqbin-InBucket :
    (val base levels step : ℕ) → InBucket val base levels step (lqbin val base levels step)
unfolding lqbin
lqbin-InBucket val base levels step = elim (Bool-cases (step == 0)) [
  | inl z ↦ rw z (no_step (ground arith))
  | inr nz ↦ elim (Bool-cases (ltb val base)) [
    | inl b ↦ rw (nz, b) (below (ltb→lt val base b))
    | inr nb ↦
        let pos : 0 < step = ground arith in
        let (low, high) = div_bounds (val - base) step pos in
        let up : base ≤ val = ground arith in
        elim (Bool-cases (ltb levels ((val - base) / step))) [
          | inl a ↦
              rw (nz, nb, a)
                (above pos (
                  omega (
                    arith,
                    low,
                    mul-le-mul_right {m = levels} {n = (val - base) / step} step (ground arith),
                  )))
          | inr na ↦ elim (Bool-cases ((val - base) / step == levels)) [
            | inl e ↦
                let same : (val - base) / step ≡ levels = ground arith in
                let enough : base + levels * step ≤ val =
                  omega (arith, low, ap (λ (k : ℕ). k * step) same) in
                rw (nz, nb, na)
                  (subst (λ k. InBucket val base levels step (k + 1)) (sym same) (above pos enough))
            | inr e ↦ rw (nz, nb, na) (within pos (ground arith) (omega arith) (omega arith))
          ]
        ]
  ]
]
