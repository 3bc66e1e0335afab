-- ===== src/Idhash/Order.antt =====
-- The order of dt_idhash_iter(), and the stack of identifier hashes.
use dtrace.Idhash.Chains.{named, first, lookup-named}
use dtrace.Base.{
  ℕ, ◌+◌, ◌^◌, ◌≤◌, ◌<◌, ◌≡◌, refl, ap, ◌∙◌, none, List, [], ◌∷◌, ◌++◌, arith, ltb, if◌then◌else◌,
  length, length-append, total,
}
use dtrace.Idhash.{
  Idhash, below, above, returned, stack_returned, Ident, comp, gather, lookup, stack_lookup, Sign,
  sign_of, Memory, strcmp, after_population, first_found, populate, under, lookup_populated,
}

-- By the ids, and by the names where they are the same.
unfoldable pub order : Ident → Ident → Sign
order lhs rhs =
    if ltb lhs.id rhs.id
    then below
    else if ltb rhs.id lhs.id
    then above
    else strcmp lhs.name rhs.name

-- Where two ids of 32 bits are less than 2^31 apart, or the second is 2^31 above the first,
-- dt_idhash_comp() orders them by the ids and then by the names.
pub comp-order :
    (lhs rhs : Ident)
    → lhs.id < 2 ^ 32
    → rhs.id < 2 ^ 32
    → lhs.id < rhs.id + 2 ^ 31
    → rhs.id ≤ lhs.id + 2 ^ 31
    → comp lhs rhs ≡ order lhs rhs
unfolding comp sign_of order
comp-order lhs rhs hl hr near near' = ground arith

pub length-gather : (chains : List (List Ident)) → length (gather chains) ≡ total length chains
unfolding gather total
length-gather [] = refl
length-gather (chain ∷ chains) =
    omega (arith, length-append chain (gather chains), length-gather chains)

-- The identifiers of a name in all hashes of the stack, from the last hash on.
unfoldable pub in_scope : List Idhash → List ℕ → List Ident
in_scope [] name = []
in_scope (dhp ∷ hashes) name = named dhp name ++ in_scope hashes name

abbrev pub AllReady : List Idhash → Type 0
AllReady [] = Unit {0}
AllReady (dhp ∷ hashes) = (dhp.tmpl ≡ none) × AllReady hashes

lookup-ready :
    (mem : Memory) (dhp : Idhash) (name : List ℕ)
    → dhp.tmpl ≡ none
    → lookup mem dhp name ≡ returned (first (named dhp name)) dhp
unfolding lookup
lookup-ready mem dhp name e =
    ap (λ o. after_population (populate mem dhp o) (λ dhp'. (lookup_populated dhp' name, dhp'))) e
    ∙ unfold populate after_population in ap (λ o. returned o dhp) (lookup-named dhp name)

-- dt_idstack_lookup() on a stack of populated hashes finds the newest identifier of the name in the
-- last hash that has one, and populates nothing.
pub stack_lookup-in_scope :
    (mem : Memory) (hashes : List Idhash) (name : List ℕ)
    → AllReady hashes
    → stack_lookup mem hashes name ≡ stack_returned (first (in_scope hashes name)) hashes
unfolding stack_lookup in_scope first
stack_lookup-in_scope mem [] name a = refl
stack_lookup-in_scope mem (dhp ∷ hashes) name (e, a) =
    ap (λ r. first_found hashes r (stack_lookup mem hashes name)) (lookup-ready mem dhp name e)
    ∙ cases (named dhp name) (stack_lookup-in_scope mem hashes name a)
  where
    cases :
        (l : List Ident)
        → stack_lookup mem hashes name ≡ stack_returned (first (in_scope hashes name)) hashes
        → first_found hashes (returned (first l) dhp) (stack_lookup mem hashes name)
          ≡ stack_returned (first (l ++ in_scope hashes name)) (dhp ∷ hashes)
    cases [] ih = unfold first_found under in ap (λ r. under dhp r) ih
    cases (idp ∷ l) ih = unfold first_found in refl
