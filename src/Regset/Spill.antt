-- ===== src/Regset/Spill.antt =====
-- The spill slots behind a register set: the calls of the spill functions are replayed on one slot
-- for each register, and no store overwrites a value, and no load reads an empty slot.
use dtrace.Base.{
  ℕ, ◌≡◌, sym, ap, ◌∙◌, inl, inr, Bool, true, false, Option, none, some, List, [], ◌∷◌, arith, ltb,
  Bool-cases,
}
use native.Mathlib.Decide.{ℕ_discrete}
use dtrace.Regset.{
  SpillCall, spill_store, spill_load, Bitmap, put_bit, Regset, Checked, alloc, xalloc, free,
}
use dtrace.Regset.Alloc.{Allocates, alloc-Allocates}
use dtrace.Regset.Free.{Covered, Xallocates, xalloc-Xallocates}

-- Which slots hold a value after the calls.
abbrev pub slots : List SpillCall → Bitmap
slots [] = λ _. false
slots (spill_store i ∷ t) = put_bit (slots t) i true
slots (spill_load i ∷ t) = put_bit (slots t) i false

-- A store goes to an empty slot, and a load takes from a full one.
abbrev pub IsOrderly : List SpillCall → Type 0
IsOrderly [] = Unit
IsOrderly (spill_store i ∷ t) = (slots t i ≡ false) × IsOrderly t
IsOrderly (spill_load i ∷ t) = (slots t i ≡ true) × IsOrderly t

pub record IsSound (r : Regset) : Type 0 where
  pub covered : Covered r
  pub mirrored : slots r.trace ≡ r.spilled
  pub orderly : IsOrderly r.trace

put_bit-Covered :
    (r : Regset) (reg : ℕ)
    → Covered r
    → (i : ℕ) → r.spilled i ≡ true
    → put_bit r.active reg true i ≡ true
put_bit-Covered r reg c i e = ground (arith, c i)

spilled-Covered :
    (r : Regset) (reg : ℕ)
    → Covered r
    → r.active reg ≡ true
    → (i : ℕ) → put_bit r.spilled reg true i ≡ true
    → r.active i ≡ true
spilled-Covered r reg c a i e = elim (ℕ_discrete reg i) [
  | yes same ↦ ap r.active (sym same) ∙ a
  | no other ↦ c i (ground arith)
]

module _ (r : Regset) (s : IsSound r) where
  open s use {covered, mirrored, orderly}

  pub store-IsSound :
      (reg : ℕ)
      → r.active reg ≡ true
      → r.spilled reg ≡ false
      → IsSound
          (record r { spilled = put_bit r.spilled reg true; trace = spill_store reg ∷ r.trace })
  store-IsSound reg a b = record {
    covered = spilled-Covered r reg covered a;
    mirrored = ap (λ m. put_bit m reg true) mirrored;
    orderly = (ap (λ (m : Bitmap). m reg) mirrored ∙ b, orderly);
  }

  pub load-IsSound :
      (reg : ℕ)
      → r.spilled reg ≡ true
      → IsSound
          (record r { spilled = put_bit r.spilled reg false; trace = spill_load reg ∷ r.trace })
  load-IsSound reg b = record {
    covered = λ i e. covered i (ground arith);
    mirrored = ap (λ m. put_bit m reg false) mirrored;
    orderly = (ap (λ (m : Bitmap). m reg) mirrored ∙ b, orderly);
  }

  pub activate-IsSound : (reg : ℕ) → IsSound (record r { active = put_bit r.active reg true })
  activate-IsSound reg = record {
    covered = put_bit-Covered r reg covered;
    mirrored = mirrored;
    orderly = orderly;
  }

  pub deactivate-IsSound :
      (reg : ℕ) → r.spilled reg ≡ false → IsSound (record r { active = put_bit r.active reg false })
  deactivate-IsSound reg b = record {
    covered = λ i e. elim (ℕ_discrete reg i) [
      | yes same ↦ absurd (cc (ap r.spilled same))
      | no other ↦ ground (arith, covered i)
    ];
    mirrored = mirrored;
    orderly = orderly;
  }

Allocates-IsSound : (r : Regset) {p : Option ℕ × Regset} → IsSound r → Allocates r p → IsSound p.1
Allocates-IsSound r s (Allocates.takes reg low high clear above) = activate-IsSound r s reg
Allocates-IsSound r s (Allocates.spills reg low high all clear above) =
    store-IsSound r s reg (all reg low high) clear
Allocates-IsSound r s (Allocates.fails all done) = s

abbrev pub Ensures : {A : Type 0} → (A → Type 0) → Checked A → Type 0
Ensures P none = Unit
Ensures P (some a) = P a

Xallocates-IsSound :
    (r : Regset) (reg : ℕ) {p : Checked (Bool × Regset)}
    → IsSound r
    → Xallocates r reg p
    → Ensures (λ q. IsSound q.1) p
Xallocates-IsSound r reg s (Xallocates.asserts out) = tt
Xallocates-IsSound r reg s (Xallocates.grants inside idle) = activate-IsSound r s reg
Xallocates-IsSound r reg s (Xallocates.spills inside busy kept) =
    store-IsSound (record r { active = put_bit r.active reg true }) (activate-IsSound r s reg) reg
      (ground arith) kept
Xallocates-IsSound r reg s (Xallocates.refuses inside busy gone) = s

pub alloc-IsSound : (r : Regset) → IsSound r → IsSound (alloc r).1
alloc-IsSound r s = Allocates-IsSound r s (alloc-Allocates r)

pub xalloc-IsSound : (r : Regset) (reg : ℕ) → IsSound r → Ensures (λ q. IsSound q.1) (xalloc r reg)
xalloc-IsSound r reg s = Xallocates-IsSound r reg s (xalloc-Xallocates r reg)

pub free-IsSound : (r : Regset) (reg : ℕ) → IsSound r → Ensures IsSound (free r reg)
unfolding free
free-IsSound r reg s = elim (Bool-cases (ltb reg r.size)) [
  | inr out ↦ rw out tt
  | inl inside ↦ elim (Bool-cases (r.active reg)) [
    | inr idle ↦ rw (inside, idle) tt
    | inl busy ↦ elim (Bool-cases (r.spilled reg)) [
      | inr kept ↦ rw (inside, busy, kept) (deactivate-IsSound r s reg kept)
      | inl gone ↦ rw (inside, busy, gone) (load-IsSound r s reg gone)
    ]
  ]
]
