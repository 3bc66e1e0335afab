-- ===== src/Speculation/Live.antt =====
-- The ids of a run from empty maps, and that a free id is found.
use dtrace.Base.{
  ℕ, ◌≤◌, ◌≡◌, refl, sym, ap, ◌∙◌, subst, ◌⊎◌, inl, inr, Option, none, some, List, arith, ◌==◌,
  Bool-cases, Option-cases, ==_iff,
}
use dtrace.Speculation.Assign.{
  IsLawful, Speculated, new_id, unavailable, busy, speculation-Speculated,
}
use dtrace.Speculation.Written.{
  by_assign, here, Run, Event, Step, by_begin, by_bump, add_written-same, add_written-other,
  by_drain, Kept, keeps, drains, set_drainable-Kept, Steps, by_recycle, by_stray, next,
}
use dtrace.Speculation.{MapOps, Spec, add_written, zero_spec, speculation, Maps, marked}

-- What a step makes of the entry of an id.
data Later (nspec id : ℕ) (before after : Option Spec) : Type 0 where
  same : after ≡ before → Later nspec id before after
  added : after ≡ some zero_spec → 1 ≤ id → id ≤ 16 → id ≤ nspec → Later nspec id before after
  changed :
      (old new : Spec)
      → before ≡ some old
      → after ≡ some new
      → (new.draining ≡ old.draining) ⊎ (new.draining ≡ 1)
      → Later nspec id before after
  deleted : after ≡ none → Later nspec id before after

-- What an entry of the id has to be: the id is one that dt_speculation() assigns, and `draining` is 0
-- or 1.
abbrev pub IsEntry : (nspec id : ℕ) → Option Spec → Type 0
IsEntry nspec id none = Unit {0}
IsEntry nspec id (some spec) = (1 ≤ id) × ((id ≤ 16) × ((id ≤ nspec) × (spec.draining ≤ 1)))

abbrev pub IsSound : {M : Type 0} → MapOps M → (nspec id : ℕ) → Run M → Type 0
IsSound ops nspec id r = IsEntry nspec id (ops.lookup_elem r.maps.specs id)

-- The start: no entry.
abbrev pub IsEmpty : {M : Type 0} → MapOps M → Run M → Type 0
IsEmpty ops r = (id : ℕ) → ops.lookup_elem r.maps.specs id ≡ none

Later-IsEntry :
    {nspec id : ℕ} {before after : Option Spec}
    → Later nspec id before after
    → IsEntry nspec id before
    → IsEntry nspec id after
Later-IsEntry {nspec} {id} (same h) e = subst (λ o. IsEntry nspec id o) (sym h) e
Later-IsEntry {nspec} {id} (added h a b c) e =
    subst (λ o. IsEntry nspec id o) (sym h) (a, (b, (c, omega arith)))
Later-IsEntry {nspec} {id} (changed old new o h (inl d)) e =
    let k = subst (λ o. IsEntry nspec id o) o e in
    subst (λ o. IsEntry nspec id o) (sym h) (k.0, (k.1.0, (k.1.1.0, omega (arith, d, k.1.1.1))))
Later-IsEntry {nspec} {id} (changed old new o h (inr d)) e =
    let k = subst (λ o. IsEntry nspec id o) o e in
    subst (λ o. IsEntry nspec id o) (sym h) (k.0, (k.1.0, (k.1.1.0, omega (arith, d))))
Later-IsEntry {nspec} {id} (deleted h) e = subst (λ o. IsEntry nspec id o) (sym h) tt

module _ {M : Type 0} (ops : MapOps M) (law : IsLawful ops) (nspec id : ℕ) where
  -- The entry of the id from one map to another.
  abbrev Entry : M → M → Type 0
  Entry m m' = Later nspec id (ops.lookup_elem m id) (ops.lookup_elem m' id)

  speculation-Entry : (s : Maps M) → Entry s.specs (speculation ops nspec s).1.specs
  speculation-Entry s = go (speculation-Speculated ops law nspec s)
    where
      go : {p : ℕ × Maps M} → Speculated ops nspec s p → Entry s.specs p.1.specs
      go (new_id k m' a b c h n o) = elim (Bool-cases (id == k)) [
        | inl t ↦
            let q = (==_iff id k).0 t in
            added (ap (λ j. ops.lookup_elem m' j) q ∙ n) (omega (arith, q)) (omega (arith, q))
              (omega (arith, q))
        | inr t ↦ same (o id t)
      ]
      go (unavailable f g c) = same (ap (λ m. ops.lookup_elem m id) c.specs_kept)
      go (busy f g c) = same (ap (λ m. ops.lookup_elem m id) c.specs_kept)

  add_written-none : (m : M) → ops.lookup_elem m id ≡ none → add_written ops m id ≡ m
  unfolding add_written
  add_written-none m e = rw (e, add_written) refl

  add_written-Entry : (m : M) (k : ℕ) → Entry m (add_written ops m k)
  add_written-Entry m k = elim (Bool-cases (id == k)) [
    | inl i ↦ subst (λ j. Entry m (add_written ops m j)) ((==_iff id k).0 i) own
    | inr i ↦ same (add_written-other ops law nspec id m k i)
  ]
    where
      own : Entry m (add_written ops m id)
      own = elim (Option-cases (ops.lookup_elem m id)) [
        | inl e ↦ same (ap (λ x. ops.lookup_elem x id) (add_written-none m e))
        | inr (old, e) ↦ changed old _ e (add_written-same ops law nspec id m old e) (inl refl)
      ]

  delete-Entry : (m : M) (k : ℕ) → Entry m (ops.delete_elem m k)
  delete-Entry m k = elim (Bool-cases (id == k)) [
    | inl i ↦ deleted (
        ap (λ j. ops.lookup_elem (ops.delete_elem m k) j) ((==_iff id k).0 i) ∙ law.delete-same m k)
    | inr i ↦ same (law.delete-other m k id i)
  ]

  Step-Entry : {e : Event} {r s : Run M} → Step ops nspec e r s → Entry r.maps.specs s.maps.specs
  Step-Entry {r} by_assign = speculation-Entry r.maps
  Step-Entry (by_begin k t) = same refl
  Step-Entry {r} (by_bump k h) = add_written-Entry r.maps.specs k
  Step-Entry {r} (by_drain k specs q) = drained (
      subst (λ m. Kept ops law nspec id (ops.lookup_elem r.maps.specs id) m) q
        (set_drainable-Kept ops law nspec id r.maps.specs k))
    where
      drained :
          Kept ops law nspec id (ops.lookup_elem r.maps.specs id) (marked specs)
          → Entry r.maps.specs specs
      drained (keeps _ h) = same h
      drained (drains _ old o h) = changed old _ o h (inr refl)
  Step-Entry {r} (by_recycle k d) = delete-Entry r.maps.specs k
  Step-Entry {r} (by_stray k h) = add_written-Entry r.maps.specs k

  -- In any run from empty maps on a lawful specs map, an id with an entry is from 1 to 16 and at
  -- most NSPEC, and its `draining` is at most 1.
  pub Steps-IsSound :
      {r : Run M} {es : List Event} {s : Run M}
      → IsEmpty ops r
      → Steps ops nspec r es s
      → IsSound ops nspec id s
  Steps-IsSound e here = subst (λ o. IsEntry nspec id o) (sym (e id)) tt
  Steps-IsSound e (next steps step) = Later-IsEntry (Step-Entry step) (Steps-IsSound e steps)
