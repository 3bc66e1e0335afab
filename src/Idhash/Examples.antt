-- ===== src/Idhash/Examples.antt =====
-- Tests of the identifier hashes, and the theorems at concrete inputs.
use dtrace.Base.{
  ℕ, zero, suc, ◌+◌, ◌≡◌, refl, sym, subst, inl, inr, Bool, true, Option, none, some, List, [], ◌∷◌,
  arith, ◌==◌, if◌then◌else◌, Bool-cases, get_or, get_or-replicate, total,
}
use dtrace.Idhash.Sorted.{
  at_most, Permutes, IsOrderOn, Sorts, small, behind, none_left, All, Permutes-same, then_,
  IsSorted, All-Permutes, swapped,
}
use dtrace.Idhash.Order.{order, comp-order, in_scope, stack_lookup-in_scope}
use dtrace.Idhash.Delete.{Deletes, Unlinks, delete-Deletes}
use dtrace.Idhash.Iterate.{Iterates, iter-Iterates}
use dtrace.Idhash.Ids.{NextId, AllIds, nextid-update}
use dtrace.Idhash.Populate.{Inserted, LooksUp, lookup-LooksUp, insert-Inserted_ident}
use dtrace.Idhash.Chains.{IsValid, AllHome, first}
use dtrace.Idhash.{
  Idhash, returned, jumped, stack_returned, Ident, Memory, Result, lookup, delete, nextid, comp,
  stack_lookup, Kind, populate, insert, update, sign_of, iter, Ops, populate_from, deferred, slot,
  Sign, insert_in, str2hval, link_created, ident_create, link, after_population, populate_next,
  lookup_populated, lookup_in, is_equal, strcmp, from_template, ops_or_thaw,
}
use dtrace.Strtab.{hash_round, str2hval}

abbrev ident : (name : List ℕ) → (id : ℕ) → Ident
ident name id = record {
  addr = 0;
  name = name;
  kind = Kind.scalar;
  flags = 0;
  id = id;
  attr = 0;
  vers = 0;
  ops = Ops.no_ops;
  iarg = 0;
  gen = 0;
}

-- Two slots, and a template of one variable.
abbrev fresh : Idhash
fresh = record {
  tmpl = some (ident (97 ∷ []) 3 ∷ []);
  defer = none;
  nextid = 1;
  minid = 1;
  maxid = 9;
  nelems = 0;
  hash = [] ∷ [] ∷ [];
}

-- malloc gives the addresses from 100 on.
abbrev memory : Memory
memory n = some (100 + n)

fresh-IsValid : IsValid fresh
unfolding total
fresh-IsValid = record {
  has_slot = omega arith;
  homes = λ h. subst (λ l. AllHome fresh h l) (sym (get_or-replicate {A = List Ident} 2 h [])) tt;
  counted = refl;
}

abbrev found_addr : Result (Option Ident) → ℕ
found_addr (returned (some idp) dhp) = idp.addr
found_addr (returned none dhp) = 0
found_addr (jumped dhp) = 1

lookup_populates : found_addr (lookup memory fresh (97 ∷ [])) ≡ 100
unfolding lookup populate populate_from insert_in link_created ident_create link after_population
    populate_next lookup_populated lookup_in is_equal strcmp slot from_template ops_or_thaw deferred
    str2hval hash_round
lookup_populates = refl

insert-Inserted_ident_example :
    Inserted memory fresh (ident (98 ∷ []) 4) (insert memory fresh (ident (98 ∷ []) 4))
insert-Inserted_ident_example =
    insert-Inserted_ident memory fresh (ident (98 ∷ []) 4) fresh-IsValid
      (λ idp. unfold deferred in refl)

lookup-LooksUp_example : LooksUp memory fresh (97 ∷ []) (lookup memory fresh (97 ∷ []))
lookup-LooksUp_example =
    lookup-LooksUp memory fresh (97 ∷ []) fresh-IsValid (λ idp. unfold deferred in refl)

abbrev key : Ident
key = record (ident (97 ∷ []) 3) { addr = 100 }

-- The hash with one variable, in the slot 1 of its name.
abbrev one : Idhash
one = record fresh { tmpl = none; nelems = 1; hash = [] ∷ (key ∷ []) ∷ [] }

one-IsValid : IsValid one
unfolding total
one-IsValid = record { has_slot = omega arith; homes = each; counted = refl }
  where
    each : (h : ℕ) → AllHome one h (get_or one.hash h [])
    each zero = tt
    each (suc zero) = (unfold slot str2hval hash_round in refl, tt)
    each (suc (suc h)) = tt

delete-Deletes_example :
    (dhp' : Idhash) × ((delete one key ≡ some (true, dhp')) × Deletes one key dhp')
delete-Deletes_example = delete-Deletes one key [] one-IsValid key_there
  where
    key_there : Unlinks 100 (get_or one.hash (slot one (97 ∷ [])) []) key []
    key_there = unfold slot str2hval hash_round in Unlinks.here refl

nextid-update_example : NextId one (nextid (update one))
nextid-update_example = nextid-update one (omega arith) (omega arith) each
  where
    each : (h : ℕ) → AllIds (get_or one.hash h [])
    each zero = tt
    each (suc zero) = (omega arith, tt)
    each (suc (suc h)) = tt

comp-order_example : comp key (ident (98 ∷ []) 7) ≡ order key (ident (98 ∷ []) 7)
comp-order_example =
    comp-order key (ident (98 ∷ []) 7) (omega arith) (omega arith) (omega arith) (omega arith)

-- The id of an undefined identifier, UINT_MAX, comes before 0.
undefined_first : comp (ident [] 4294967295) (ident [] 0) ≡ Sign.below
unfolding comp sign_of
undefined_first = refl

stack_lookup-in_scope_example :
    stack_lookup memory (one ∷ []) (97 ∷ [])
    ≡ stack_returned (first (in_scope (one ∷ []) (97 ∷ []))) (one ∷ [])
stack_lookup-in_scope_example = stack_lookup-in_scope memory (one ∷ []) (97 ∷ []) (refl, tt)

-- An insertion sort for qsort().
put_in : (Ident → Ident → Sign) → Ident → List Ident → List Ident
put_in cmp idp [] = idp ∷ []
put_in cmp idp (other ∷ l) =
    let rest = put_in cmp idp l in if at_most (cmp idp other) then idp ∷ other ∷ l else other ∷ rest

put_all : (Ident → Ident → Sign) → List Ident → List Ident
unfolding put_in
put_all cmp [] = []
put_all cmp (idp ∷ l) = put_in cmp idp (put_all cmp l)

put_in-Permutes :
    (cmp : Ident → Ident → Sign) (idp : Ident) (l : List Ident)
    → Permutes (idp ∷ l) (put_in cmp idp l)
unfolding put_in
put_in-Permutes cmp idp [] = behind idp none_left
put_in-Permutes cmp idp (other ∷ l) = elim (Bool-cases (at_most (cmp idp other))) [
  | inl e ↦ rw e (Permutes-same (idp ∷ other ∷ l))
  | inr e ↦ rw e (then_ (swapped idp other l) (behind other (put_in-Permutes cmp idp l)))
]

put_all-Permutes : (cmp : Ident → Ident → Sign) (l : List Ident) → Permutes l (put_all cmp l)
unfolding put_all
put_all-Permutes cmp [] = none_left
put_all-Permutes cmp (idp ∷ l) =
    then_ (behind idp (put_all-Permutes cmp l)) (put_in-Permutes cmp idp (put_all cmp l))

-- An element that is at most the first is at most all behind it.
at_most-All :
    (cmp : Ident → Ident → Sign) (p : Ident → Bool) (a b : Ident) (l : List Ident)
    → IsOrderOn p cmp
    → p a ≡ true
    → p b ≡ true
    → All p l
    → at_most (cmp a b) ≡ true
    → All (λ c. at_most (cmp b c)) l
    → All (λ c. at_most (cmp a c)) l
at_most-All cmp p a b [] o h k q e r = tt
at_most-All cmp p a b (c ∷ l) o h k (t, q) e (s, r) =
    (o.transitive a b c h k t e s, at_most-All cmp p a b l o h k q e r)

put_in-IsSorted :
    (cmp : Ident → Ident → Sign) (p : Ident → Bool) (idp : Ident) (l : List Ident)
    → IsOrderOn p cmp
    → p idp ≡ true
    → All p l
    → IsSorted cmp l
    → IsSorted cmp (put_in cmp idp l)
unfolding put_in
put_in-IsSorted cmp p idp [] o h a s = (tt, tt)
put_in-IsSorted cmp p idp (other ∷ l) o h (k, a) (below_, s) =
    elim (Bool-cases (at_most (cmp idp other))) [
      | inl e ↦ rw e ((e, at_most-All cmp p idp other l o h k a e below_), (below_, s))
      | inr e ↦ rw e (
        All-Permutes (λ c. at_most (cmp other c)) (put_in-Permutes cmp idp l)
            (o.total_ idp other h k e, below_),
        put_in-IsSorted cmp p idp l o h a s,
      )
    ]

put_all-Sorts : Sorts put_all
unfolding put_all
put_all-Sorts cmp p [] o a = (none_left, tt)
put_all-Sorts cmp p (idp ∷ l) o (h, a) =
    let (q, s) = put_all-Sorts cmp p l o a in
    (
      put_all-Permutes cmp (idp ∷ l),
      put_in-IsSorted cmp p idp (put_all cmp l) o h (All-Permutes p q a) s,
    )

-- A callback that collects the addresses and ends the iteration at the id 7.
abbrev collect : List ℕ → Ident → List ℕ × ℕ
collect s idp = (idp.addr ∷ s, if idp.id == 7 then 1 else 0)

iter-Iterates_example : Iterates collect memory fresh [] (iter collect put_all memory fresh [])
iter-Iterates_example =
    iter-Iterates collect put_all memory fresh [] put_all-Sorts fresh-IsValid
      (λ idp. unfold deferred in refl) (λ idp s. unfold deferred in s) ((tt, (tt, tt)))
      (unfold small in refl, tt)
