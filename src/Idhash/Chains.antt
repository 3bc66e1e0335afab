-- ===== src/Idhash/Chains.antt =====
-- The invariant of an identifier hash, and a lookup as one in the identifiers of a name.
use dtrace.Base.{
  ℕ, ◌+◌, ◌%◌, ◌<◌, ◌≡◌, refl, sym, ap, ◌∙◌, subst, inl, inr, true, false, Option, none, some, List,
  [], ◌∷◌, arith, ltb, ◌==◌, if◌then◌else◌, Bool-cases, length, set, length-set, get_or, get_or-set,
  total, total-set,
}
use dtrace.Strtab.{str2hval}
use native.Mathlib.Nat.{mod-lt}
use dtrace.Idhash.{
  Idhash, below, equal, strcmp, is_equal, Ident, lookup_in, lookup_populated, slot, str2hval,
}

-- strcmp() gives 0 for equal strings only.
pub strcmp_self : (s : List ℕ) → strcmp s s ≡ equal
unfolding strcmp
strcmp_self [] = refl
strcmp_self (x ∷ s) = let z : ltb x x ≡ false = ground arith in rw (z, strcmp_self s) refl

pub strcmp_equal : (s t : List ℕ) → is_equal (strcmp s t) ≡ true → s ≡ t
unfolding strcmp is_equal
strcmp_equal [] [] e = refl
strcmp_equal [] (y ∷ t) e = cc
strcmp_equal (x ∷ s) [] e = cc
strcmp_equal (x ∷ s) (y ∷ t) e = elim (Bool-cases (ltb x y)) [
  | inl l ↦ absurd (false_true (sym (rw l refl) ∙ e))
  | inr l ↦ elim (Bool-cases (ltb y x)) [
    | inl g ↦ absurd (false_true (sym (rw (l, g) refl) ∙ e))
    | inr g ↦
        let h : x ≡ y = ground arith in
        ap (λ c. c ∷ s) h ∙ ap (λ r. y ∷ r) (strcmp_equal s t (sym (rw (l, g) refl) ∙ e))
  ]
]
  where
    false_true : is_equal below ≡ true → ⊥
    false_true e = cc

-- The identifiers of a name.
unfoldable pub matching : List ℕ → List Ident → List Ident
matching name [] = []
matching name (idp ∷ chain) =
    let rest = matching name chain in if is_equal (strcmp idp.name name) then idp ∷ rest else rest

unfoldable pub first : List Ident → Option Ident
first [] = none
first (idp ∷ chain) = some idp

-- Those that the hash has, the newest first.
abbrev pub named : Idhash → List ℕ → List Ident
named dhp name = matching name (get_or dhp.hash (slot dhp name) [])

abbrev pub AllHome : Idhash → ℕ → List Ident → Type 0
AllHome dhp h [] = Unit {0}
AllHome dhp h (idp ∷ chain) = (slot dhp idp.name ≡ h) × AllHome dhp h chain

pub record IsValid (dhp : Idhash) : Type 0 where
  pub has_slot : 0 < length dhp.hash
  pub homes : (h : ℕ) → AllHome dhp h (get_or dhp.hash h [])
  pub counted : total length dhp.hash ≡ dhp.nelems

pub lookup_in-first :
    (chain : List Ident) (name : List ℕ) → lookup_in chain name ≡ first (matching name chain)
unfolding lookup_in matching first
lookup_in-first [] name = refl
lookup_in-first (idp ∷ chain) name = elim (Bool-cases (is_equal (strcmp idp.name name))) [
  | inl e ↦ rw e refl
  | inr e ↦ rw e (lookup_in-first chain name)
]

pub lookup-named :
    (dhp : Idhash) (name : List ℕ) → lookup_populated dhp name ≡ first (named dhp name)
unfolding lookup_populated
lookup-named dhp name = lookup_in-first (get_or dhp.hash (slot dhp name) []) name

pub slot-lt : (dhp : Idhash) (name : List ℕ) → IsValid dhp → slot dhp name < length dhp.hash
unfolding slot
slot-lt dhp name v = mod-lt (str2hval name 0) v.has_slot

pub slot-length :
    (dhp dhp' : Idhash) (name : List ℕ)
    → length dhp'.hash ≡ length dhp.hash
    → slot dhp' name ≡ slot dhp name
unfolding slot
slot-length dhp dhp' name e = ap (λ (n : ℕ). str2hval name 0 % n) e

pub AllHome-length :
    (dhp dhp' : Idhash) (h : ℕ) (chain : List Ident)
    → length dhp'.hash ≡ length dhp.hash
    → AllHome dhp h chain
    → AllHome dhp' h chain
AllHome-length dhp dhp' h [] e a = tt
AllHome-length dhp dhp' h (idp ∷ chain) e (s, a) =
    (slot-length dhp dhp' idp.name e ∙ s, AllHome-length dhp dhp' h chain e a)

-- A chain replaced in its slot.
abbrev pub with_chain : Idhash → (h : ℕ) → List Ident → (nelems : ℕ) → Idhash
with_chain dhp h chain nelems = record dhp { hash = set dhp.hash h chain; nelems = nelems }

module _ (dhp : Idhash) (h : ℕ) (chain : List Ident) (n : ℕ) (v : IsValid dhp)
    (inside : h < length dhp.hash) where
  pub chain_of :
      (j : ℕ)
      → get_or (set dhp.hash h chain) j [] ≡ (if h == j then chain else get_or dhp.hash j [])
  chain_of j = get_or-set dhp.hash h j chain [] inside

  pub with_chain-IsValid :
      AllHome dhp h chain
      → n + length (get_or dhp.hash h []) ≡ dhp.nelems + length chain
      → IsValid (with_chain dhp h chain n)
  with_chain-IsValid home count = record {
    has_slot = omega (arith, length-set dhp.hash h chain, v.has_slot);
    homes = λ j.
        AllHome-length dhp (with_chain dhp h chain n) j (get_or (set dhp.hash h chain) j [])
          (length-set dhp.hash h chain) (subst (λ l. AllHome dhp j l) (sym (chain_of j)) (each j));
    counted = omega (arith, total-set length dhp.hash h chain [] inside, v.counted, count);
  }
    where
      each : (j : ℕ) → AllHome dhp j (if h == j then chain else get_or dhp.hash j [])
      each j = elim (Bool-cases (h == j)) [
        | inl here ↦
            let e : h ≡ j = ground arith in rw here (subst (λ i. AllHome dhp i chain) e home)
        | inr other ↦ rw other (v.homes j)
      ]

  -- The identifiers of a name afterwards.
  pub named-with_chain :
      (name : List ℕ)
      → named (with_chain dhp h chain n) name
        ≡ matching name (if h == slot dhp name then chain else get_or dhp.hash (slot dhp name) [])
  named-with_chain name =
      ap (λ j. matching name (get_or (set dhp.hash h chain) j []))
        (slot-length dhp (with_chain dhp h chain n) name (length-set dhp.hash h chain))
      ∙ ap (λ l. matching name l) (chain_of (slot dhp name))

pub matching-cons :
    (name : List ℕ) (idp : Ident) (chain : List Ident)
    → matching name (idp ∷ chain)
      ≡ (if is_equal (strcmp idp.name name) then idp ∷ matching name chain else matching name chain)
unfolding matching
matching-cons name idp chain = refl
