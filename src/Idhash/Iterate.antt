-- ===== src/Idhash/Iterate.antt =====
-- dt_idhash_iter() over a hash.
use dtrace.Base.{
  ℕ, ◌<◌, ◌≡◌, refl, sym, ap, ◌∙◌, subst, inl, inr, Bool, none, List, [], ◌∷◌, ◌++◌, arith, ◌==◌,
  Bool-cases, ==_iff, length,
}
use dtrace.Idhash.Small.{KeepsSmall, AllChains, SmallResult, All-gather, populate-small}
use dtrace.Idhash.Sorted.{Permutes, IsSorted, Sorts, small, All, qsort-order}
use dtrace.Idhash.Order.{length-gather, order}
use dtrace.Idhash.Insert.{KeepsName}
use dtrace.Idhash.Chains.{IsValid}
use dtrace.Idhash.{
  Idhash, Result, returned, jumped, Ident, iter, visit, Memory, gather, after_population, Sign,
  comp,
}
use dtrace.Idhash.Populate.{stopped, populated, IsReady, pending, Populates, populate-Populates}

-- All identifiers of a hash, chain after chain.
abbrev pub all_idents : List (List Ident) → List Ident
all_idents [] = []
all_idents (chain ∷ chains) = chain ++ all_idents chains

gather_lem : (chains : List (List Ident)) → gather chains ≡ all_idents chains
unfolding gather
gather_lem [] = refl
gather_lem (chain ∷ chains) = ap (λ l. chain ++ l) (gather_lem chains)

-- The calls of a callback on identifiers in turn, until one returns a value other than 0.
pub data Visits {S : Type 0} (func : S → Ident → S × ℕ) : S → List Ident → S × ℕ → Type 0 where
  at_end : (st : S) → Visits func st [] (st, 0)
  goes_on :
      (st : S) (idp : Ident) {ids : List Ident} {r : S × ℕ}
      → (func st idp).1 ≡ 0
      → Visits func (func st idp).0 ids r
      → Visits func st (idp ∷ ids) r
  stops :
      (st : S) (idp : Ident) {ids : List Ident}
      → 0 < (func st idp).1
      → Visits func st (idp ∷ ids) (func st idp)

visit-Visits :
    {S : Type 0} (func : S → Ident → S × ℕ) (st : S) (ids : List Ident)
    → Visits func st ids (visit func st ids)
unfolding visit
visit-Visits func st [] = at_end st
visit-Visits func st (idp ∷ ids) = elim (Bool-cases ((func st idp).1 == 0)) [
  | inl e ↦
      rw e (goes_on st idp ((==_iff (func st idp).1 0).0 e) (visit-Visits func (func st idp).0 ids))
  | inr e ↦ rw e (stops st idp (ground arith))
]

-- How an iteration ends: by longjmp() out of the population, or with the callback on all the
-- identifiers in their order, of which there are as many as pointers were allocated.
pub data Iterates {S : Type 0} (func : S → Ident → S × ℕ) (mem : Memory) (dhp : Idhash) (st : S)
    : Result (S × ℕ) → Type 0 where
  thrown : {dhp' : Idhash} (n : ℕ) → mem n ≡ none → Iterates func mem dhp st (jumped dhp')
  visited :
      (ready : Idhash) (ids : List Ident) {r : S × ℕ}
      → IsReady dhp (pending dhp.tmpl) ready
      → length (all_idents ready.hash) ≡ ready.nelems
      → Permutes (all_idents ready.hash) ids
      → IsSorted order ids
      → Visits func st ids r
      → Iterates func mem dhp st (returned r ready)

-- dt_idhash_iter() over a valid hash, with a qsort() that sorts by any comparison that orders the
-- elements, where all ids of the hash and of the pending population are below 2^31 and the defer
-- callback leaves the names and keeps the ids below 2^31, makes the population, and leaves by
-- longjmp() only where an allocation fails; else there are as many identifiers as the pointers that
-- it has allocated, and it calls back for all of them, ordered by their ids and then by their
-- names, until a callback returns a value other than 0, which it returns, and 0 if none does.
pub iter-Iterates :
    {S : Type 0} (func : S → Ident → S × ℕ)
    (qsort : (Ident → Ident → Sign) → List Ident → List Ident) (mem : Memory) (dhp : Idhash)
    (st : S)
    → Sorts qsort
    → IsValid dhp
    → KeepsName dhp.defer
    → KeepsSmall dhp.defer
    → AllChains small dhp.hash
    → All small (pending dhp.tmpl)
    → Iterates func mem dhp st (iter func qsort mem dhp st)
unfolding iter
iter-Iterates {S} func qsort mem dhp st sorts v keeps keeps' a t =
    go (populate-Populates mem dhp v keeps) (populate-small mem dhp keeps' a t)
  where
    go :
        {r : Result Bool}
        → Populates mem dhp (pending dhp.tmpl) r
        → SmallResult r
        → Iterates func mem dhp st
            (after_population r (λ dhp'. (visit func st (qsort comp (gather dhp'.hash)), dhp')))
    go (stopped n z) s = unfold after_population in thrown n z
    go (populated {dhp' = ready} k) s =
        let g = gather_lem ready.hash in
        let (p, o) = qsort-order qsort (gather ready.hash) sorts (All-gather small ready.hash s) in
        unfold after_population in
        visited ready (qsort comp (gather ready.hash)) k
          (ap length (sym g) ∙ length-gather ready.hash ∙ k.valid.counted)
          (subst (λ l. Permutes l (qsort comp (gather ready.hash))) g p) o
          (visit-Visits func st (qsort comp (gather ready.hash)))
