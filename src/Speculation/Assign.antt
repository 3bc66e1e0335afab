-- ===== src/Speculation/Assign.antt =====
-- What dt_speculation() returns.
use dtrace.Base.{
  ℕ, zero, suc, ◌+◌, ◌%◌, ◌^◌, ◌≤◌, ◌<◌, ◌≡◌, refl, sym, ap, ◌∙◌, subst, ◌⊎◌, inl, inr, Bool, true,
  false, Option, none, some, arith, ltb, ◌==◌, if◌then◌else◌, Bool-cases, Option-cases, ==_iff,
}
use dtrace.Speculation.{
  MapOps, search_from, speculation, Spec, is_draining, zero_spec, Attempt, tried, Maps, finish,
  assigned, missed, no_spec, atomic_add32,
}

-- What the kernel documents of the operations of a map.
pub record IsLawful {M : Type 0} (maps : MapOps M) : Type 0 where
  pub insert-fresh :
      (m m' : M) (id : ℕ) (v : Spec)
      → maps.insert_elem m id v ≡ some m'
      → maps.lookup_elem m id ≡ none
  pub insert-same :
      (m m' : M) (id : ℕ) (v : Spec)
      → maps.insert_elem m id v ≡ some m'
      → maps.lookup_elem m' id ≡ some v
  pub insert-other :
      (m m' : M) (id : ℕ) (v : Spec) (k : ℕ)
      → maps.insert_elem m id v ≡ some m'
      → (k == id) ≡ false
      → maps.lookup_elem m' k ≡ maps.lookup_elem m k
  pub store-same :
      (m : M) (id : ℕ) (v old : Spec)
      → maps.lookup_elem m id ≡ some old
      → maps.lookup_elem (maps.store_elem m id v) id ≡ some v
  pub store-other :
      (m : M) (id : ℕ) (v : Spec) (k : ℕ)
      → (k == id) ≡ false
      → maps.lookup_elem (maps.store_elem m id v) k ≡ maps.lookup_elem m k
  pub delete-same : (m : M) (id : ℕ) → maps.lookup_elem (maps.delete_elem m id) id ≡ none
  pub delete-other :
      (m : M) (id k : ℕ)
      → (k == id) ≡ false
      → maps.lookup_elem (maps.delete_elem m id) k ≡ maps.lookup_elem m k

abbrev draining_of : Option Spec → ℕ
draining_of none = 0
draining_of (some spec) = spec.draining

-- Some id from n on, below n + left and at most nspec, is draining.
abbrev pub SomeDraining : {M : Type 0} → MapOps M → (nspec left n : ℕ) → M → Type 0
SomeDraining maps nspec left n m =
    (id : ℕ) × ((n ≤ id)
      × ((id < n + left) × ((id ≤ nspec) × (is_draining (maps.lookup_elem m id) ≡ true))))

abbrev pub NoneDraining : {M : Type 0} → MapOps M → (nspec left n : ℕ) → M → Type 0
NoneDraining maps nspec left n m =
    (id : ℕ) → n ≤ id → id < n + left → id ≤ nspec → is_draining (maps.lookup_elem m id) ≡ false

-- Every insertion of one of these ids fails.
abbrev pub AllFail : {M : Type 0} → MapOps M → (nspec left n : ℕ) → M → Type 0
AllFail maps nspec left n m =
    (id : ℕ) → n ≤ id → id < n + left → id ≤ nspec → maps.insert_elem m id zero_spec ≡ none

-- Where a search that starts at n with a count of `busy` ends.
pub data Found {M : Type 0} (maps : MapOps M) (nspec left n busy : ℕ) (m : M)
    : Attempt M → Type 0 where
  hit :
      (id : ℕ) (m' : M)
      → n ≤ id
      → id < n + left
      → id ≤ nspec
      → maps.insert_elem m id zero_spec ≡ some m'
      → Found maps nspec left n busy m (assigned id m')
  none_busy :
      AllFail maps nspec left n m
      → NoneDraining maps nspec left n m
      → Found maps nspec left n busy m (missed busy)
  some_busy :
      (busy' : ℕ)
      → busy < busy'
      → AllFail maps nspec left n m
      → SomeDraining maps nspec left n m
      → Found maps nspec left n busy m (missed busy')

-- A fact of the first id, and of those behind it.
both :
    (nspec left n : ℕ) (P : ℕ → Type 0)
    → P n
    → ((id : ℕ) → n + 1 ≤ id → id < n + 1 + left → id ≤ nspec → P id)
    → (id : ℕ) → n ≤ id
    → id < n + suc left
    → id ≤ nspec
    → P id
both nspec left n P here rest id a b c = elim (Bool-cases (id == n)) [
  | inl e ↦ subst P (sym ((==_iff id n).0 e)) here
  | inr e ↦ rest id (ground arith) (omega arith) c
]

-- An id whose insertion fails, before the others.
Found-later :
    {M : Type 0} (maps : MapOps M) (nspec left n busy busy' : ℕ) (m : M) (r : Attempt M)
    → n ≤ nspec
    → maps.insert_elem m n zero_spec ≡ none
    → ((is_draining (maps.lookup_elem m n) ≡ true) × (busy' ≡ busy + 1))
      ⊎ ((is_draining (maps.lookup_elem m n) ≡ false) × (busy' ≡ busy))
    → Found maps nspec left (n + 1) busy' m r
    → Found maps nspec (suc left) n busy m r
Found-later maps nspec left n busy busy' m r h e d (hit id m' a b c i) =
    hit id m' (omega arith) (omega arith) c i
Found-later maps nspec left n busy busy' m r h e (inl (d, q)) (none_busy f g) =
    some_busy busy' (omega (arith, q))
      (both nspec left n (λ id. maps.insert_elem m id zero_spec ≡ none) e f)
      (n, (omega arith, (omega arith, (h, d))))
Found-later maps nspec left n busy busy' m r h e (inr (d, q)) (none_busy f g) =
    subst (λ b. Found maps nspec (suc left) n busy m (missed b)) (sym q)
      (none_busy (both nspec left n (λ id. maps.insert_elem m id zero_spec ≡ none) e f)
        (both nspec left n (λ id. is_draining (maps.lookup_elem m id) ≡ false) d g))
Found-later maps nspec left n busy busy' m r h e d (some_busy b lt f (id, (a, (c, (k, t))))) =
    some_busy b (at_least d) (both nspec left n (λ id. maps.insert_elem m id zero_spec ≡ none) e f)
      (id, (omega arith, (omega arith, (k, t))))
  where
    at_least :
        ((is_draining (maps.lookup_elem m n) ≡ true) × (busy' ≡ busy + 1))
          ⊎ ((is_draining (maps.lookup_elem m n) ≡ false) × (busy' ≡ busy))
        → busy < b
    at_least (inl (t, q)) = omega (arith, q, lt)
    at_least (inr (t, q)) = omega (arith, q, lt)

counted :
    (d : Bool) (busy : ℕ)
    → ((d ≡ true) × ((if d then busy + 1 else busy) ≡ busy + 1))
      ⊎ ((d ≡ false) × ((if d then busy + 1 else busy) ≡ busy))
counted true busy = inl (refl, refl)
counted false busy = inr (refl, refl)

pub search_from-Found :
    {M : Type 0} (maps : MapOps M) (nspec left n busy : ℕ) (m : M)
    → Found maps nspec left n busy m (search_from maps nspec left n busy m)
unfolding search_from tried
search_from-Found maps nspec zero n busy m =
    none_busy (λ id a b c. absurd (omega arith)) (λ id a b c. absurd (omega arith))
search_from-Found maps nspec (suc left) n busy m = elim (Bool-cases (ltb nspec n)) [
  | inl past ↦
      rw past (none_busy (λ id a b c. absurd (ground arith)) (λ id a b c. absurd (ground arith)))
  | inr more ↦ elim (Option-cases (maps.insert_elem m n zero_spec)) [
    | inl e ↦
        rw (more, e)
          (Found-later maps nspec left n busy _ m _ (ground arith) e
            (counted (is_draining (maps.lookup_elem m n)) busy)
            (search_from-Found maps nspec left (n + 1)
              (if is_draining (maps.lookup_elem m n) then busy + 1 else busy) m))
    | inr (m', e) ↦ rw (more, e) (hit n m' (omega arith) (omega arith) (ground arith) e)
  ]
]

-- The 32-bit value of one key of the state map, if there is one, has gone up by one, and nothing else
-- has changed. DT_STATE_SPEC_BUSY is 4 and DT_STATE_SPEC_UNAVAIL is 5.
pub record Counts {M : Type 0} (key : ℕ) (s s' : Maps M) : Type 0 where
  pub specs_kept : s'.specs ≡ s.specs
  pub others : (k : ℕ) → (k == key) ≡ false → s'.state k ≡ s.state k
  pub no_value : s.state key ≡ none → s'.state key ≡ none
  pub one_more : (v : ℕ) → s.state key ≡ some v → s'.state key ≡ some ((v + 1) % 2 ^ 32)

no_spec-Counts : {M : Type 0} (key : ℕ) (s : Maps M) → Counts key s (no_spec key s)
unfolding no_spec atomic_add32
no_spec-Counts key s =
    let e : (key == key) ≡ true = (==_iff key key).1 refl in
    record {
      specs_kept = refl;
      others = λ k n. rw n refl;
      no_value = λ q. rw e (ap atomic_add32 q);
      one_more = λ v q. rw e (ap atomic_add32 q);
    }

not_draining :
    (o : Option Spec) (spec : Spec) → is_draining o ≡ false → o ≡ some spec → spec.draining ≡ 0
not_draining none spec d e = cc
not_draining (some old) spec d e =
    let h : old.draining ≡ 0 = ground arith in sym (ap draining_of e) ∙ h

some_draining :
    (o : Option Spec)
    → is_draining o ≡ true
    → (spec : Spec) × ((o ≡ some spec) × (0 < spec.draining))
some_draining none d = cc
some_draining (some spec) d = (spec, (refl, ground arith))

-- What dt_speculation() does.
pub data Speculated {M : Type 0} (maps : MapOps M) (nspec : ℕ) (s : Maps M)
    : ℕ × Maps M → Type 0 where
  new_id :
      (id : ℕ) (m' : M)
      → 1 ≤ id
      → id ≤ 16
      → id ≤ nspec
      → maps.lookup_elem s.specs id ≡ none
      → maps.lookup_elem m' id ≡ some (record { written = 0; size = 0; draining = 0 })
      → ((k : ℕ) → (k == id) ≡ false → maps.lookup_elem m' k ≡ maps.lookup_elem s.specs k)
      → Speculated maps nspec s (id, record s { specs = m' })
  unavailable :
      {s' : Maps M}
      → AllFail maps nspec 16 1 s.specs
      → ((id : ℕ) (spec : Spec)
          → 1 ≤ id
          → id ≤ 16
          → id ≤ nspec
          → maps.lookup_elem s.specs id ≡ some spec
          → spec.draining ≡ 0)
      → Counts 5 s s'
      → Speculated maps nspec s (0, s')
  busy :
      {s' : Maps M}
      → AllFail maps nspec 16 1 s.specs
      → (id : ℕ) × ((spec : Spec) × ((1 ≤ id)
            × ((id ≤ 16)
                × ((id ≤ nspec)
                    × ((maps.lookup_elem s.specs id ≡ some spec) × (0 < spec.draining))))))
      → Counts 4 s s'
      → Speculated maps nspec s (0, s')

-- dt_speculation() on a lawful specs map gives an id from 1 to 16 and at most NSPEC that had no
-- entry and now has the zero one, with the other entries as before, or gives 0 where the insertion
-- of every such id fails, and then changes nothing but one value of the state map, modulo 2^32 and
-- if it is there, by one more: DT_STATE_SPEC_BUSY if such an id is draining, and
-- DT_STATE_SPEC_UNAVAIL if none is.
pub speculation-Speculated :
    {M : Type 0} (maps : MapOps M)
    → IsLawful maps
    → (nspec : ℕ) (s : Maps M) → Speculated maps nspec s (speculation maps nspec s)
unfolding speculation finish
speculation-Speculated maps law nspec s = go (search_from-Found maps nspec 16 1 0 s.specs)
  where
    go : {r : Attempt _} → Found maps nspec 16 1 0 s.specs r → Speculated maps nspec s (finish s r)
    go (hit id m' a b c i) =
        new_id id m' a (omega arith) c (law.insert-fresh s.specs m' id zero_spec i)
          (law.insert-same s.specs m' id zero_spec i)
          (λ k e. law.insert-other s.specs m' id zero_spec k i e)
    go (none_busy f g) =
        unavailable f
          (λ id spec a b c.
            not_draining (maps.lookup_elem s.specs id) spec (g id a (omega arith) c))
          (no_spec-Counts 5 s)
    go (some_busy b lt f (id, (a, (l, (c, d))))) =
        let e : (b == 0) ≡ false = ground arith in
        let (spec, (q, h)) = some_draining (maps.lookup_elem s.specs id) d in
        rw e (busy f (id, (spec, (a, (omega arith, (c, (q, h)))))) (no_spec-Counts 4 s))
