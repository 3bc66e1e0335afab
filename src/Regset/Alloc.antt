-- ===== src/Regset/Alloc.antt =====
-- Which register dt_regset_alloc() hands out, on every branch.
use dtrace.Base.{
  ℕ, zero, suc, ◌-◌, ◌<◌, ◌≡◌, sym, ap, ◌∙◌, inl, inr, true, false, Option, none, some, ◌∷◌, arith,
  Bool-cases, Option-cases,
}
use native.Mathlib.Decide.{ℕ_discrete}
use dtrace.Regset.{Regset, Bitmap, put_bit, spill_store, find_clear, alloc_spill, alloc}

-- The bits strictly above `low` and below `high` are all set.
abbrev pub SetBetween : Bitmap → (low high : ℕ) → Type 0
SetBetween m low high = (j : ℕ) → low < j → j < high → m j ≡ true

SetBetween-suc :
    (m : Bitmap) (n low : ℕ) → m n ≡ true → SetBetween m low n → SetBetween m low (suc n)
SetBetween-suc m n low e h j p q = elim (ℕ_discrete j n) [
  | yes same ↦ ap m same ∙ e
  | no other ↦ h j p (omega arith)
]

find_clear-some :
    (m : Bitmap) (n : ℕ) {reg : ℕ}
    → find_clear m n ≡ some reg
    → (0 < reg) × (reg < suc n) × (m reg ≡ false) × SetBetween m reg (suc n)
unfolding find_clear
find_clear-some m zero e = cc
find_clear-some m (suc n) {reg} e = elim (Bool-cases (m (suc n))) [
  | inl b ↦
      let (low, high, clear, above) = find_clear-some m n {reg = reg} (rw b at e) in
      (low, omega arith, clear, SetBetween-suc m (suc n) reg b above)
  | inr b ↦
      let same : suc n ≡ reg = ground arith in
      (omega arith, omega arith, ap m (sym same) ∙ b, λ j p q. absurd (omega arith))
]

find_clear-none : (m : Bitmap) (n : ℕ) → find_clear m n ≡ none → SetBetween m 0 (suc n)
unfolding find_clear
find_clear-none m zero e = λ j p q. absurd (omega arith)
find_clear-none m (suc n) e = elim (Bool-cases (m (suc n))) [
  | inl b ↦ SetBetween-suc m (suc n) 0 b (find_clear-none m n (rw b at e))
  | inr b ↦ ground arith
]

-- What dt_regset_alloc() may do: take the highest register that is not active; spill the highest
-- one that is not spilled yet, if all are active; or fail, if all are active and spilled.
pub data Allocates (r : Regset) : Option ℕ × Regset → Type 0 where
  takes :
      (reg : ℕ)
      → 0 < reg
      → reg < r.size
      → r.active reg ≡ false
      → SetBetween r.active reg r.size
      → Allocates r (some reg, record r { active = put_bit r.active reg true })
  spills :
      (reg : ℕ)
      → 0 < reg
      → reg < r.size
      → SetBetween r.active 0 r.size
      → r.spilled reg ≡ false
      → SetBetween r.spilled reg r.size
      → Allocates r (
        some reg,
        record r { spilled = put_bit r.spilled reg true; trace = spill_store reg ∷ r.trace },
      )
  fails : SetBetween r.active 0 r.size → SetBetween r.spilled 0 r.size → Allocates r (none, r)

weaken : (m : Bitmap) (low size : ℕ) → SetBetween m low (suc (size - 1)) → SetBetween m low size
weaken m low size h j p q = h j p (omega arith)

alloc_spill-Allocates : (r : Regset) → SetBetween r.active 0 r.size → Allocates r (alloc_spill r)
unfolding alloc_spill
alloc_spill-Allocates r all = elim (Option-cases (find_clear r.spilled (r.size - 1))) [
  | inr (reg, e) ↦
      let (low, high, clear, above) = find_clear-some r.spilled (r.size - 1) e in
      rw (e, alloc_spill)
        (spills reg low (omega arith) all clear (weaken r.spilled reg r.size above))
  | inl e ↦
      rw (e, alloc_spill)
        (fails all (weaken r.spilled 0 r.size (find_clear-none r.spilled (r.size - 1) e)))
]

-- On every branch dt_regset_alloc() takes the highest register above %r0 that is not active and
-- spills nothing; if all are active it spills the highest one that is not spilled and records one
-- store; and it fails, changing nothing, exactly where all are active and spilled.
pub alloc-Allocates : (r : Regset) → Allocates r (alloc r)
unfolding alloc
alloc-Allocates r = elim (Option-cases (find_clear r.active (r.size - 1))) [
  | inr (reg, e) ↦
      let (low, high, clear, above) = find_clear-some r.active (r.size - 1) e in
      rw (e, alloc) (takes reg low (omega arith) clear (weaken r.active reg r.size above))
  | inl e ↦
      rw (e, alloc)
        (alloc_spill-Allocates r
          (weaken r.active 0 r.size (find_clear-none r.active (r.size - 1) e)))
]
