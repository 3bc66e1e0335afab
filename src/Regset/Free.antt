-- ===== src/Regset/Free.antt =====
-- dt_regset_free() undoes an allocation, whichever way the register was got.
use dtrace.Base.{
  ℕ, ◌≤◌, ◌<◌, ◌≡◌, refl, fun_ext, subst, inl, inr, Bool, true, false, Option, none, some, ◌∷◌,
  arith, ltb, Bool-cases,
}
use dtrace.Regset.{Regset, Bitmap, put_bit, spill_store, spill_load, Checked, alloc, xalloc, free}
use dtrace.Regset.Alloc.{Allocates, takes, fails, alloc-Allocates}

pub put_bit_undo : (m : Bitmap) (i : ℕ) (b c : Bool) → m i ≡ c → put_bit (put_bit m i b) i c ≡ m
put_bit_undo m i b c e = fun_ext λ j. ground arith

pub put_bit_same : (m : Bitmap) (i : ℕ) (b : Bool) → m i ≡ b → put_bit m i b ≡ m
put_bit_same m i b e = fun_ext λ j. ground arith

-- The two bitmaps and their size are those of `r`.
pub record SameBits (r s : Regset) : Type 0 where
  pub same_size : s.size ≡ r.size
  pub same_active : s.active ≡ r.active
  pub same_spilled : s.spilled ≡ r.spilled

-- A spilled register is active.
abbrev pub Covered : Regset → Type 0
Covered r = (i : ℕ) → r.spilled i ≡ true → r.active i ≡ true

-- The call of `free` passes its asserts, and leaves the bitmaps of `r`.
abbrev pub FreesTo : Regset → Checked Regset → Type 0
FreesTo r result = (s : Regset) × (result ≡ some s) × SameBits r s

module _ (r : Regset) (reg : ℕ) (inside : reg < r.size) where
  pub free-takes :
      r.active reg ≡ false
      → r.spilled reg ≡ false
      → FreesTo r (free (record r { active = put_bit r.active reg true }) reg)
  unfolding free
  free-takes a b = (
    record r { active = put_bit (put_bit r.active reg true) reg false },
    ground arith,
    record {
      same_size = refl;
      same_active = put_bit_undo r.active reg true false a;
      same_spilled = refl;
    },
  )

  pub free-spills :
      (active : Bitmap)
      → active ≡ r.active
      → r.active reg ≡ true
      → r.spilled reg ≡ false
      → FreesTo r (
          free
            (record r {
              active = active;
              spilled = put_bit r.spilled reg true;
              trace = spill_store reg ∷ r.trace;
            })
            reg)
  unfolding free
  free-spills active same a b = (
    record r {
      active = active;
      spilled = put_bit (put_bit r.spilled reg true) reg false;
      trace = spill_load reg ∷ spill_store reg ∷ r.trace;
    },
    rw same (ground arith),
    record {
      same_size = refl;
      same_active = same;
      same_spilled = put_bit_undo r.spilled reg true false b;
    },
  )

Covered-clear : (r : Regset) (i : ℕ) → Covered r → r.active i ≡ false → r.spilled i ≡ false
Covered-clear r i c e = ground (arith, c i)

-- What was allocated can be freed.
abbrev CanUndo : Regset → Option ℕ × Regset → Type 0
CanUndo r (none, s) = Unit
CanUndo r (some reg, s) = FreesTo r (free s reg)

free-Allocates : (r : Regset) {p : Option ℕ × Regset} → Covered r → Allocates r p → CanUndo r p
free-Allocates r c (takes reg low high clear above) =
    free-takes r reg high clear (Covered-clear r reg c clear)
free-Allocates r c (Allocates.spills reg low high all clear above) =
    free-spills r reg high r.active refl (all reg low high) clear
free-Allocates r c (fails all done) = tt

-- Where each spilled register is active, a register that dt_regset_alloc() returns can be freed at
-- once: no assert fails, and the size and both bitmaps are as they were.
pub free-alloc :
    (r : Regset) {reg : ℕ} {s : Regset}
    → Covered r
    → alloc r ≡ (some reg, s)
    → FreesTo r (free s reg)
free-alloc r c e = subst (CanUndo r) e (free-Allocates r c (alloc-Allocates r))

-- The four ways in which dt_regset_xalloc() ends.
pub data Xallocates (r : Regset) (reg : ℕ) : Checked (Bool × Regset) → Type 0 where
  asserts : r.size ≤ reg → Xallocates r reg none
  grants :
      reg < r.size
      → r.active reg ≡ false
      → Xallocates r reg (some (true, record r { active = put_bit r.active reg true }))
  spills :
      reg < r.size
      → r.active reg ≡ true
      → r.spilled reg ≡ false
      → Xallocates r reg (
          some (
            true,
            record r {
              active = put_bit r.active reg true;
              spilled = put_bit r.spilled reg true;
              trace = spill_store reg ∷ r.trace;
            },
          ))
  refuses :
      reg < r.size → r.active reg ≡ true → r.spilled reg ≡ true → Xallocates r reg (some (false, r))

-- On every branch dt_regset_xalloc() grants an idle register, spills an active one once, refuses
-- one that is active and spilled, changing nothing, and fails its assert on one out of range.
pub xalloc-Xallocates : (r : Regset) (reg : ℕ) → Xallocates r reg (xalloc r reg)
unfolding xalloc
xalloc-Xallocates r reg = elim (Bool-cases (ltb reg r.size)) [
  | inr out ↦ rw out (asserts (ground arith))
  | inl inside ↦ elim (Bool-cases (r.active reg)) [
    | inr idle ↦ rw (inside, idle) (grants (ground arith) idle)
    | inl busy ↦ elim (Bool-cases (r.spilled reg)) [
      | inr kept ↦ rw (inside, busy, kept) (spills (ground arith) busy kept)
      | inl gone ↦ rw (inside, busy, gone) (refuses (ground arith) busy gone)
    ]
  ]
]

abbrev CanUndoNamed : Regset → ℕ → Checked (Bool × Regset) → Type 0
CanUndoNamed r reg (some (true, s)) = FreesTo r (free s reg)
CanUndoNamed r reg (some (false, s)) = Unit
CanUndoNamed r reg none = Unit

free-Xallocates :
    (r : Regset) (reg : ℕ) {p : Checked (Bool × Regset)}
    → Covered r
    → Xallocates r reg p
    → CanUndoNamed r reg p
free-Xallocates r reg c (asserts out) = tt
free-Xallocates r reg c (grants inside idle) =
    free-takes r reg inside idle (Covered-clear r reg c idle)
free-Xallocates r reg c (Xallocates.spills inside busy kept) =
    free-spills r reg inside (put_bit r.active reg true) (put_bit_same r.active reg true busy) busy
      kept
free-Xallocates r reg c (refuses inside busy gone) = tt

-- The same of a register that dt_regset_xalloc() grants by name, whether it was idle or spilled.
pub free-xalloc :
    (r : Regset) (reg : ℕ) {s : Regset}
    → Covered r
    → xalloc r reg ≡ some (true, s)
    → FreesTo r (free s reg)
free-xalloc r reg c e =
    subst (CanUndoNamed r reg) e (free-Xallocates r reg c (xalloc-Xallocates r reg))
