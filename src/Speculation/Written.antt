-- ===== src/Speculation/Written.antt =====
-- The life of a speculation: the steps of the probes on all CPUs and of the consumer.
use dtrace.Base.{
  ℕ, ◌+◌, ◌-◌, ◌%◌, ◌^◌, ◌<◌, ◌≡◌, refl, sym, ap, ◌∙◌, subst, inl, inr, Bool, true, false, Option,
  none, some, List, [], ◌∷◌, arith, leb, ◌==◌, if◌then◌else◌, Bool-cases, Option-cases, ==_iff,
}
use dtrace.Speculation.Assign.{
  IsLawful, Speculated, new_id, unavailable, busy, speculation-Speculated,
}
use dtrace.Speculation.{
  Maps, MapOps, speculation, Spec, may_speculate, add_written, set_drainable, marked, is_draining,
  Marked, fault,
}

-- The parts of a run that change the maps, or pass the test before a change.
pub data Event : Type 0 where
  assign : Event
  begin bump drain recycle stray : (id : ℕ) → Event

-- The maps, the number of calls of dt_speculation_speculate() on each entry that have passed the
-- test of `draining` and have not yet added to `written`, and the number of such calls whose entry
-- has been deleted.
pub record Run (M : Type 0) : Type 0 where
  pub maps : Maps M
  pub in_flight : ℕ → ℕ
  pub stale : ℕ

pub change : (ℕ → ℕ) → (id v : ℕ) → ℕ → ℕ
change f id v k = if k == id then v else f k

-- The steps interleave in any order. The consumer deletes an id that is draining
-- (dt_spec_buf_destroy() of libdtrace/dt_consume.c), also while calls of dt_speculation_speculate()
-- on it are between their test and their addition. The pointer of such a call is to memory that the
-- kernel may use for another entry: its addition is to the entry of any id, or to none.
pub data Step {M : Type 0} (ops : MapOps M) (nspec : ℕ) : Event → Run M → Run M → Type 0 where
  by_assign :
      {r : Run M} → Step ops nspec assign r (record r { maps = (speculation ops nspec r.maps).1 })
  by_begin :
      {r : Run M} (id : ℕ)
      → may_speculate ops r.maps.specs id ≡ true
      → Step ops nspec
          (begin id)
          r
          (record r { in_flight = change r.in_flight id (r.in_flight id + 1) })
  by_bump :
      {r : Run M} (id : ℕ)
      → 0 < r.in_flight id
      → Step ops nspec (bump id) r (record {
        maps = record { specs = add_written ops r.maps.specs id; state = r.maps.state };
        in_flight = change r.in_flight id (r.in_flight id - 1);
        stale = r.stale;
      })
  by_drain :
      {r : Run M} (id : ℕ) (specs : M)
      → set_drainable ops nspec r.maps.specs id ≡ marked specs
      → Step ops nspec
          (drain id)
          r
          (record r { maps = record { specs = specs; state = r.maps.state } })
  by_recycle :
      {r : Run M} (id : ℕ)
      → is_draining (ops.lookup_elem r.maps.specs id) ≡ true
      → Step ops nspec (recycle id) r (record {
        maps = record { specs = ops.delete_elem r.maps.specs id; state = r.maps.state };
        in_flight = change r.in_flight id 0;
        stale = r.stale + r.in_flight id;
      })
  by_stray :
      {r : Run M} (id : ℕ)
      → 0 < r.stale
      → Step ops nspec (stray id) r (record {
        maps = record { specs = add_written ops r.maps.specs id; state = r.maps.state };
        in_flight = r.in_flight;
        stale = r.stale - 1;
      })

pub data Steps {M : Type 0} (ops : MapOps M) (nspec : ℕ) (r : Run M)
    : List Event → Run M → Type 0 where
  here : Steps ops nspec r [] r
  next :
      {es : List Event} {e : Event} {s t : Run M}
      → Steps ops nspec r es s
      → Step ops nspec e s t
      → Steps ops nspec r (e ∷ es) t

-- Whether the entry of the id is deleted, or has the addition of a call on a deleted one.
abbrev pub disturbs : (id : ℕ) → Event → Bool
disturbs id (recycle k) = id == k
disturbs id (stray k) = id == k
disturbs id assign = false
disturbs id (begin k) = false
disturbs id (bump k) = false
disturbs id (drain k) = false

abbrev pub Undisturbed : (id : ℕ) → List Event → Type 0
Undisturbed id [] = Unit {0}
Undisturbed id (e ∷ es) = (disturbs id e ≡ false) × Undisturbed id es

-- The id is draining, with what its `written` will be once no call is in flight.
pub record Closing {M : Type 0} (ops : MapOps M) (id final : ℕ) (r : Run M) : Type 0 where
  pub spec : Spec
  pub entry : ops.lookup_elem r.maps.specs id ≡ some spec
  pub closed : 0 < spec.draining
  pub sum : (spec.written + r.in_flight id) % 2 ^ 64 ≡ final

pub change-same : (f : ℕ → ℕ) (id v : ℕ) → change f id v id ≡ v
unfolding change
change-same f id v = let e : (id == id) ≡ true = (==_iff id id).1 refl in rw e refl

pub change-other : (f : ℕ → ℕ) (id v k : ℕ) → (k == id) ≡ false → change f id v k ≡ f k
unfolding change
change-other f id v k e = rw e refl

module _ {M : Type 0} (ops : MapOps M) (law : IsLawful ops) (nspec id : ℕ) where
  speculation-lookup :
      (s : Maps M) (spec : Spec)
      → ops.lookup_elem s.specs id ≡ some spec
      → ops.lookup_elem (speculation ops nspec s).1.specs id ≡ ops.lookup_elem s.specs id
  speculation-lookup s spec e = go (speculation-Speculated ops law nspec s)
    where
      go :
          {p : ℕ × Maps M}
          → Speculated ops nspec s p
          → ops.lookup_elem p.1.specs id ≡ ops.lookup_elem s.specs id
      go (new_id k m' a b c h n o) = elim (Bool-cases (id == k)) [
        | inl t ↦
            let q : some spec ≡ none =
              sym e ∙ ap (λ j. ops.lookup_elem s.specs j) ((==_iff id k).0 t) ∙ h in
            cc
        | inr t ↦ o id t
      ]
      go (unavailable f g c) = ap (λ m. ops.lookup_elem m id) c.specs_kept
      go (busy f g c) = ap (λ m. ops.lookup_elem m id) c.specs_kept

  pub add_written-other :
      (m : M) (k : ℕ)
      → (id == k) ≡ false
      → ops.lookup_elem (add_written ops m k) id ≡ ops.lookup_elem m id
  unfolding add_written
  add_written-other m k n = elim (Option-cases (ops.lookup_elem m k)) [
    | inl e ↦ rw (e, add_written) refl
    | inr (spec, e) ↦ rw (e, add_written) (law.store-other m k _ id n)
  ]

  pub add_written-same :
      (m : M) (spec : Spec)
      → ops.lookup_elem m id ≡ some spec
      → ops.lookup_elem (add_written ops m id) id
        ≡ some (record spec { written = (spec.written + 1) % 2 ^ 64 })
  unfolding add_written
  add_written-same m spec e = rw (e, add_written) (law.store-same m id _ spec e)

  -- What dt_speculation_set_drainable() of any id makes of the entry of this one.
  pub data Kept (before : Option Spec) : Marked M → Type 0 where
    keeps : (m : M) → ops.lookup_elem m id ≡ before → Kept before (marked m)
    drains :
        (m : M) (old : Spec)
        → before ≡ some old
        → ops.lookup_elem m id ≡ some (record old { draining = 1 })
        → Kept before (marked m)
    faults : Kept before fault

  pub set_drainable-Kept :
      (m : M) (k : ℕ) → Kept (ops.lookup_elem m id) (set_drainable ops nspec m k)
  unfolding set_drainable
  set_drainable-Kept m k = elim (Option-cases (ops.lookup_elem m k)) [
    | inl e ↦ elim (Bool-cases (leb k nspec)) [
      | inl t ↦ rw (e, t, set_drainable) (keeps m refl)
      | inr t ↦ rw (e, t, set_drainable) faults
    ]
    | inr (old, e) ↦ rw (e, set_drainable) (go old e)
  ]
    where
      go :
          (old : Spec)
          → ops.lookup_elem m k ≡ some old
          → Kept (ops.lookup_elem m id) (marked (ops.store_elem m k (record old { draining = 1 })))
      go old e = elim (Bool-cases (id == k)) [
        | inr n ↦ keeps _ (law.store-other m k _ id n)
        | inl t ↦
            let i : id ≡ k = (==_iff id k).0 t in
            drains _ old (ap (λ j. ops.lookup_elem m j) i ∙ e) (
              ap (λ j. ops.lookup_elem (ops.store_elem m k (record old { draining = 1 })) j) i
              ∙ law.store-same m k _ old e)
      ]

module _ {M : Type 0} (ops : MapOps M) (law : IsLawful ops) (nspec id final : ℕ) where
  -- A change of the map that leaves the entry, and of the calls in flight that leaves the id.
  Closing-same :
      (r s : Run M)
      → ops.lookup_elem s.maps.specs id ≡ ops.lookup_elem r.maps.specs id
      → s.in_flight id ≡ r.in_flight id
      → Closing ops id final r
      → Closing ops id final s
  Closing-same r s e f c = record {
    spec = c.spec;
    entry = e ∙ c.entry;
    closed = c.closed;
    sum = ap (λ n. (c.spec.written + n) % 2 ^ 64) f ∙ c.sum;
  }

  -- No call passes the test on a draining entry.
  closed_lem : (r : Run M) → Closing ops id final r → may_speculate ops r.maps.specs id ≡ false
  unfolding may_speculate
  closed_lem r c =
      let d = c.closed in
      let e : (c.spec.draining == 0) ≡ false = ground arith in rw (c.entry, may_speculate) e

  abbrev bumped : Run M → ℕ → Run M
  bumped r j = record {
    maps = record { specs = add_written ops r.maps.specs j; state = r.maps.state };
    in_flight = change r.in_flight j (r.in_flight j - 1);
    stale = r.stale;
  }

  Closing-bump :
      (r : Run M) → Closing ops id final r → 0 < r.in_flight id → Closing ops id final (bumped r id)
  Closing-bump r c h =
      let same = change-same r.in_flight id (r.in_flight id - 1) in
      let sum = c.sum in
      record {
        spec = record (c.spec) { written = (c.spec.written + 1) % 2 ^ 64 };
        entry = add_written-same ops law nspec id r.maps.specs c.spec c.entry;
        closed = c.closed;
        sum = rw same (omega (arith, h, sum));
      }

  Closing-Step :
      {e : Event} {r s : Run M}
      → Step ops nspec e r s
      → disturbs id e ≡ false
      → Closing ops id final r
      → Closing ops id final s
  Closing-Step {r} by_assign n c =
      Closing-same r _ (speculation-lookup ops law nspec id r.maps c.spec c.entry) refl c
  Closing-Step {r} (by_begin k t) n c = elim (Bool-cases (id == k)) [
    | inl i ↦
        let q = (==_iff id k).0 i in
        let shut : may_speculate ops r.maps.specs id ≡ false = closed_lem r c in
        let open_ : may_speculate ops r.maps.specs id ≡ true =
          ap (λ j. may_speculate ops r.maps.specs j) q ∙ t in
        cc
    | inr i ↦ Closing-same r _ refl (change-other r.in_flight k (r.in_flight k + 1) id i) c
  ]
  Closing-Step {r} (by_bump k h) n c = elim (Bool-cases (id == k)) [
    | inl i ↦
        let q = (==_iff id k).0 i in
        subst (λ j. Closing ops id final (bumped r j)) q
          (Closing-bump r c (subst (λ j. 0 < r.in_flight j) (sym q) h))
    | inr i ↦
        Closing-same r _ (add_written-other ops law nspec id r.maps.specs k i)
          (change-other r.in_flight k (r.in_flight k - 1) id i) c
  ]
  Closing-Step {r} (by_drain k specs q) n c = drained (
      subst (λ m. Kept ops law nspec id (ops.lookup_elem r.maps.specs id) m) q
        (set_drainable-Kept ops law nspec id r.maps.specs k))
    where
      drained :
          Kept ops law nspec id (ops.lookup_elem r.maps.specs id) (marked specs)
          → Closing ops id final
              (record r { maps = record { specs = specs; state = r.maps.state } })
      drained (keeps _ h) = Closing-same r _ h refl c
      drained (drains _ old o h) =
          let same : some old ≡ some c.spec = sym o ∙ c.entry in
          let written : old.written ≡ c.spec.written =
            ap {A = Option Spec} (λ x. elim x [ none ↦ 0 | some spec ↦ spec.written ]) same in
          record {
            spec = record old { draining = 1 };
            entry = h;
            closed = omega arith;
            sum = ap (λ w. (w + r.in_flight id) % 2 ^ 64) written ∙ c.sum;
          }
  Closing-Step {r} (by_recycle k d) n c =
      Closing-same r _ (law.delete-other r.maps.specs k id n) (change-other r.in_flight k 0 id n) c
  Closing-Step {r} (by_stray k h) n c =
      Closing-same r _ (add_written-other ops law nspec id r.maps.specs k n) refl c

  -- On a lawful specs map, while a run of any steps goes on in which an id is not recycled and no
  -- call that was in flight on a recycled entry adds to its entry, an id that is draining stays
  -- draining, and the sum modulo 2^64 of its `written` and of the calls in flight on it, which have
  -- passed the test of dt_speculation_speculate() and not yet added, stays what it was.
  pub Steps-Closing :
      {r : Run M} {es : List Event} {s : Run M}
      → Steps ops nspec r es s
      → Undisturbed id es
      → Closing ops id final r
      → Closing ops id final s
  Steps-Closing here n c = c
  Steps-Closing (next steps step) (n, ns) c = Closing-Step step n (Steps-Closing steps ns c)
