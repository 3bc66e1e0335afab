-- ===== src/Regset/Args.antt =====
-- The allocation of the argument registers %r1 to %r5 for a call: all of them, or none.
use dtrace.Base.{
  ℕ, zero, suc, ◌+◌, ◌-◌, ◌≤◌, ◌<◌, ◌≡◌, refl, sym, ◌∙◌, fun_ext, subst, ◌⊎◌, inl, inr, Bool, true,
  false, ◌&&◌, some, ◌∷◌, arith, ltb, leb, if◌then◌else◌, Bool-cases, total,
}
use dtrace.Regset.{
  put_bit, Regset, free, spill_load, Checked, free_below, xalloc_args_from, xalloc_args,
  free_args_from, free_args,
}
use dtrace.Regset.Free.{SameBits, put_bit_same, Covered, FreesTo, Xallocates, xalloc-Xallocates}

abbrev pub within : (low high : ℕ) → ℕ → Bool
within low high j = leb low j && ltb j high

-- `d` is `r` with the registers from `low` to below `high` allocated on top of what they held.
pub record Taken (r : Regset) (low high : ℕ) (d : Regset) : Type 0 where
  pub size : d.size ≡ r.size
  pub active : (j : ℕ) → d.active j ≡ (if within low high j then true else r.active j)
  pub spilled : (j : ℕ) → d.spilled j ≡ (if within low high j then r.active j else r.spilled j)
  pub clear : (j : ℕ) → within low high j ≡ true → r.spilled j ≡ false

none-Taken : (r : Regset) (low : ℕ) → Taken r low low r
none-Taken r low = record {
  size = refl;
  active = λ j. ground arith;
  spilled = λ j. ground arith;
  clear = λ j e. ground arith;
}

Taken-SameBits : (r : Regset) (low : ℕ) {d : Regset} → Taken r low low d → SameBits r d
Taken-SameBits r low t = record {
  same_size = t.size;
  same_active = fun_ext λ j. ground (arith, t.active j);
  same_spilled = fun_ext λ j. ground (arith, t.spilled j);
}

free-active :
    (d : Regset) (i : ℕ)
    → i < d.size
    → d.active i ≡ true
    → (s : Regset) × (free d i ≡ some s)
      × (s.size ≡ d.size)
      × (s.active ≡ put_bit d.active i (d.spilled i))
      × (s.spilled ≡ put_bit d.spilled i false)
unfolding free
free-active d i inside a = elim (Bool-cases (d.spilled i)) [
  | inl gone ↦ (
    record d { spilled = put_bit d.spilled i false; trace = spill_load i ∷ d.trace },
    ground arith,
    refl,
    sym (put_bit_same d.active i (d.spilled i) (a ∙ sym gone)),
    refl,
  )
  | inr kept ↦ (
    record d { active = put_bit d.active i false },
    ground arith,
    refl,
    rw kept refl,
    sym (put_bit_same d.spilled i false kept),
  )
]

module _ (r : Regset) (low high : ℕ) (d : Regset) where
  free_first :
      Taken r low high d
      → low < high
      → high ≤ r.size
      → (s : Regset) × (free d low ≡ some s) × Taken r (suc low) high s
  free_first t p q =
      let (s, run, size, active, spilled) =
        free-active d low (omega (arith, t.size)) (ground (arith, t.active low)) in
      (
        s,
        run,
        record {
          size = size ∙ t.size;
          active = λ j. rw active (ground (arith, t.active j, t.spilled low));
          spilled = λ j. rw spilled (ground (arith, t.spilled j, t.clear low));
          clear = λ j e. t.clear j (ground arith);
        },
      )

  free_last :
      Taken r low (suc high) d
      → low ≤ high
      → high < r.size
      → (s : Regset) × (free d high ≡ some s) × Taken r low high s
  free_last t p q =
      let (s, run, size, active, spilled) =
        free-active d high (omega (arith, t.size)) (ground (arith, t.active high)) in
      (
        s,
        run,
        record {
          size = size ∙ t.size;
          active = λ j. rw active (ground (arith, t.active j, t.spilled high));
          spilled = λ j. rw spilled (ground (arith, t.spilled j, t.clear high));
          clear = λ j e. t.clear j (ground arith);
        },
      )

-- One more register is granted, or it is in use and spilled and nothing changes.
abbrev Next : Regset → ℕ → ℕ → Regset → Checked (Bool × Regset) → Type 0
Next r low high d result =
    ((s : Regset) × (result ≡ some (true, s)) × Taken r low (suc high) s)
    ⊎ ((result ≡ some (false, d)) × (r.active high ≡ true) × (r.spilled high ≡ true))

next :
    (r : Regset) (low high : ℕ) {d : Regset} {p : Checked (Bool × Regset)}
    → Covered r
    → Taken r low high d
    → low ≤ high
    → high < r.size
    → Xallocates d high p
    → Next r low high d p
next r low high c t p q (Xallocates.asserts out) = absurd (omega (arith, t.size))
next r low high c t p q (Xallocates.grants inside idle) = inl (
  _,
  refl,
  record {
    size = t.size;
    active = λ j. ground (arith, t.active j);
    spilled = λ j. ground (arith, t.spilled j, t.active high, c high, t.spilled high);
    clear = λ j e. ground (arith, t.clear j, t.active high, c high);
  },
)
next r low high c t p q (Xallocates.spills inside busy kept) = inl (
  _,
  refl,
  record {
    size = t.size;
    active = λ j. ground (arith, t.active j);
    spilled = λ j. ground (arith, t.spilled j, t.active high);
    clear = λ j e. ground (arith, t.clear j, t.spilled high);
  },
)
next r low high c t p q (Xallocates.refuses inside busy gone) =
    inr (refl, ground (arith, t.active high), ground (arith, t.spilled high))

free_below-Taken :
    (r : Regset) (n : ℕ) (d : Regset)
    → Taken r 1 (suc n) d
    → suc n ≤ r.size
    → FreesTo r (free_below n d)
unfolding free_below
free_below-Taken r zero d t q = (d, refl, Taken-SameBits r 1 t)
free_below-Taken r (suc n) d t q =
    let (s, run, t') = free_last r 1 (suc n) d t (omega arith) q in
    rw run (free_below-Taken r n s t' (omega arith))

-- A register from `reg` on stands in the way: it is active and spilled.
abbrev pub Blocked : Regset → (low high : ℕ) → Type 0
Blocked r low high =
    (j : ℕ) × (within low high j ≡ true) × (r.active j ≡ true) × (r.spilled j ≡ true)

abbrev pub AllOrNone : Regset → (low high : ℕ) → Checked (Bool × Regset) → Type 0
AllOrNone r low high result =
    ((s : Regset) × (result ≡ some (true, s)) × Taken r low high s)
    ⊎ ((s : Regset) × (result ≡ some (false, s)) × SameBits r s × Blocked r low high)

xalloc_args_from-AllOrNone :
    (r : Regset) (high left n : ℕ) (d : Regset)
    → Covered r
    → Taken r 1 (suc n) d
    → suc n + left ≡ high
    → high ≤ r.size
    → AllOrNone r 1 high (xalloc_args_from left (suc n) d)
unfolding xalloc_args_from
xalloc_args_from-AllOrNone r high zero n d c t total q =
    let e : suc n ≡ high = omega arith in inl (d, refl, rw (← e) t)
xalloc_args_from-AllOrNone r high (suc left) n d c t total q =
    elim (next r 1 (suc n) c t (omega arith) (omega arith) (xalloc-Xallocates d (suc n))) [
      | inl (s, run, t') ↦
          let e : suc n + 1 ≡ suc (suc n) = omega arith in
          rw (run, e) (xalloc_args_from-AllOrNone r high left (suc n) s c t' (omega arith) q)
      | inr (run, busy, gone) ↦
          let (s, undo, same) = free_below-Taken r n d t (omega arith) in
          let e : suc n - 1 ≡ n = omega arith in
          rw (run, e, undo) (inr (s, refl, same, (suc n, ground arith, busy, gone)))
    ]

-- With %r0 to %r5 at least and every spilled register active, dt_regset_xalloc_args() passes every
-- assert, and either grants all of %r1 to %r5 on top of what they held, or finds one of them active
-- and spilled, returns -1 and leaves both bitmaps as they were.
pub xalloc_args-AllOrNone : (r : Regset) → Covered r → 6 ≤ r.size → AllOrNone r 1 6 (xalloc_args r)
unfolding xalloc_args
xalloc_args-AllOrNone r c q = xalloc_args_from-AllOrNone r 6 5 0 r c (none-Taken r 1) refl q

free_args_from-Taken :
    (r : Regset) (left low : ℕ) (d : Regset)
    → Taken r low (low + left) d
    → low + left ≤ r.size
    → FreesTo r (free_args_from left low d)
unfolding free_args_from
free_args_from-Taken r zero low d t q =
    let e : low + 0 ≡ low = omega arith in
    (d, refl, Taken-SameBits r low (subst (λ k. Taken r low k d) e t))
free_args_from-Taken r (suc left) low d t q =
    let (s, run, t') = free_first r low (low + suc left) d t (omega arith) q in
    let e : low + suc left ≡ suc low + left = omega arith in
    let f : low + 1 ≡ suc low = omega arith in
    rw (run, f)
      (free_args_from-Taken r left (suc low) s (subst (λ k. Taken r (suc low) k s) e t')
        (omega arith))

free_args-Taken : (r : Regset) (s : Regset) → Taken r 1 6 s → 6 ≤ r.size → FreesTo r (free_args s)
unfolding free_args
free_args-Taken r s t q = free_args_from-Taken r 5 1 s t q

-- dt_regset_free_args() after a successful dt_regset_xalloc_args() on a set of six registers at
-- least in which each spilled register is active passes every assert and gives back the bitmaps
-- from before the call.
pub free_args-xalloc_args :
    (r : Regset) {s : Regset}
    → Covered r
    → 6 ≤ r.size
    → xalloc_args r ≡ some (true, s)
    → FreesTo r (free_args s)
free_args-xalloc_args r {s} c q e = elim (xalloc_args-AllOrNone r c q) [
  | inl (s', run, t) ↦ let same : s' ≡ s = cc (run, e) in rw (← same) (free_args-Taken r s' t q)
  | inr (s', run, _, _) ↦ absurd (cc (run, e))
]
