-- ===== src/Speculation/Reuse.antt =====
-- Ids that are free are found again.
use dtrace.Base.{ℕ, ◌≤◌, ◌<◌, ◌≡◌, sym, ◌∙◌, subst, ◌↔◌, none, some, List, arith}
use dtrace.Speculation.Live.{IsEntry, IsEmpty, Steps-IsSound}
use dtrace.Speculation.Written.{Run, Event, Steps}
use dtrace.Speculation.Assign.{
  IsLawful, Speculated, new_id, unavailable, busy, AllFail, speculation-Speculated,
}
use dtrace.Speculation.{MapOps, Spec, zero_spec, speculation, Maps}

-- The map's room: an id from 1 to nspec that has no entry can be inserted where every entry has such
-- an id, as the specs map is created for nspec entries.
abbrev pub HasRoom : {M : Type 0} → MapOps M → (nspec : ℕ) → Type 0
HasRoom {M} ops nspec =
    (m : M) (id : ℕ)
    → ((k : ℕ) (spec : Spec) → ops.lookup_elem m k ≡ some spec → (1 ≤ k) × (k ≤ nspec))
    → 1 ≤ id
    → id ≤ nspec
    → ops.lookup_elem m id ≡ none
    → (m' : M) × (ops.insert_elem m id zero_spec ≡ some m')

-- An id that dt_speculation() tries has no entry.
abbrev pub SomeFree : {M : Type 0} → MapOps M → (nspec : ℕ) → M → Type 0
SomeFree ops nspec m =
    (id : ℕ) × ((1 ≤ id) × ((id ≤ 16) × ((id ≤ nspec) × (ops.lookup_elem m id ≡ none))))

module _ {M : Type 0} (ops : MapOps M) (law : IsLawful ops) (nspec : ℕ)
    (room : HasRoom ops nspec) where
  -- In any run from empty maps, on a lawful specs map that has room for every id up to NSPEC,
  -- dt_speculation() returns an id other than 0 if and only if some id from 1 to 16 and at most
  -- NSPEC has no entry.
  pub speculation-some_iff :
      {r : Run M} {es : List Event} {s : Run M}
      → IsEmpty ops r
      → Steps ops nspec r es s
      → (0 < (speculation ops nspec s.maps).0) ↔ SomeFree ops nspec s.maps.specs
  speculation-some_iff {r} {es} {s} e steps = (
    λ h. free (speculation-Speculated ops law nspec s.maps) h,
    λ f. found (speculation-Speculated ops law nspec s.maps) f,
  )
    where
      free :
          {p : ℕ × Maps M}
          → Speculated ops nspec s.maps p
          → 0 < p.0
          → SomeFree ops nspec s.maps.specs
      free (new_id id m' a b c h n o) l = (id, (a, (b, (c, h))))
      free (unavailable f g k) l = absurd (omega arith)
      free (busy f g k) l = absurd (omega arith)

      within :
          (k : ℕ) (spec : Spec) → ops.lookup_elem s.maps.specs k ≡ some spec → (1 ≤ k) × (k ≤ nspec)
      within k spec q =
          let b = subst (λ o. IsEntry nspec k o) q (Steps-IsSound ops law nspec k e steps) in
          (b.0, b.1.1.0)

      not_all : AllFail ops nspec 16 1 s.maps.specs → SomeFree ops nspec s.maps.specs → ⊥
      not_all f (id, (a, (b, (c, n)))) =
          let i = room s.maps.specs id within a c n in
          let q : none ≡ some i.0 = sym (f id a (omega arith) c) ∙ i.1 in cc

      found :
          {p : ℕ × Maps M}
          → Speculated ops nspec s.maps p
          → SomeFree ops nspec s.maps.specs
          → 0 < p.0
      found (new_id id m' a b c h n o) free = a
      found (unavailable f g k) free = absurd (not_all f free)
      found (busy f g k) free = absurd (not_all f free)
