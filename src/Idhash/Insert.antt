-- ===== src/Idhash/Insert.antt =====
-- Insertion into an identifier hash, and the initial population.
use dtrace.Base.{
  ℕ, ◌+◌, ◌≡◌, refl, sym, ap, ◌∙◌, subst, ◌≢◌, inl, inr, Bool, true, false, Option, none, some,
  List, [], ◌∷◌, arith, ◌==◌, if◌then◌else◌, Bool-cases, get_or,
}
use dtrace.Idhash.Chains.{
  IsValid, named, with_chain, with_chain-IsValid, slot-lt, matching, named-with_chain,
  matching-cons, strcmp_equal, strcmp_self, lookup-named, first,
}
use dtrace.Idhash.{
  Idhash, Ident, deferred, link, slot, is_equal, strcmp, Memory, insert_in, lookup_populated,
  link_created, ident_create,
}

-- The defer callback leaves the name.
abbrev pub KeepsName : Option (Ident → Ident) → Type 0
KeepsName defer = (idp : Ident) → (deferred defer idp).name ≡ idp.name

module _ (dhp : Idhash) (idp : Ident) (v : IsValid dhp) (keeps : KeepsName dhp.defer) where
  new_chain : List Ident
  new_chain = (link dhp idp).0 ∷ get_or dhp.hash (slot dhp idp.name) []

  link-with_chain : (link dhp idp).1 ≡ with_chain dhp (slot dhp idp.name) new_chain (dhp.nelems + 1)
  unfolding link new_chain
  link-with_chain = refl

  link-name : (link dhp idp).0.name ≡ idp.name
  unfolding link
  link-name = keeps idp

  pub link-IsValid : IsValid (link dhp idp).1
  unfolding new_chain
  link-IsValid =
      subst (λ d. IsValid d) (sym link-with_chain)
        (with_chain-IsValid dhp (slot dhp idp.name) new_chain (dhp.nelems + 1) v
          (slot-lt dhp idp.name v) (ap (λ s. slot dhp s) link-name, v.homes (slot dhp idp.name))
          (omega arith))

  -- The new identifier comes before those of its name.
  pub named-link :
      (name : List ℕ)
      → named (link dhp idp).1 name ≡ (
          if is_equal (strcmp idp.name name)
          then (link dhp idp).0 ∷ named dhp name
          else named dhp name)
  unfolding new_chain
  named-link name =
      ap (λ d. named d name) link-with_chain
      ∙ named-with_chain dhp (slot dhp idp.name) new_chain (dhp.nelems + 1) v
          (slot-lt dhp idp.name v) name
      ∙ cases name (slot dhp idp.name == slot dhp name) refl
    where
      cases :
          (name : List ℕ) (b : Bool)
          → (slot dhp idp.name == slot dhp name) ≡ b
          → matching name (if b then new_chain else get_or dhp.hash (slot dhp name) []) ≡ (
              if is_equal (strcmp idp.name name)
              then (link dhp idp).0 ∷ named dhp name
              else named dhp name)
      cases name true e =
          let s : slot dhp idp.name ≡ slot dhp name = ground arith in
          matching-cons name (link dhp idp).0 (get_or dhp.hash (slot dhp idp.name) []) ∙ (λ i.
            if is_equal (strcmp (link-name i) name)
            then (link dhp idp).0 ∷ matching name (get_or dhp.hash (s i) [])
            else matching name (get_or dhp.hash (s i) []))
      cases name false e = elim (Bool-cases (is_equal (strcmp idp.name name))) [
        | inr other ↦ rw other refl
        | inl eq ↦
            let s = ap (λ m. slot dhp m) (strcmp_equal idp.name name eq) in absurd (ground arith)
      ]

  pub link-nelems : (link dhp idp).1.nelems ≡ dhp.nelems + 1
  unfolding link
  link-nelems = refl

  pub link-defer : (link dhp idp).1.defer ≡ dhp.defer
  unfolding link
  link-defer = refl

  pub link-tmpl : (link dhp idp).1.tmpl ≡ dhp.tmpl
  unfolding link
  link-tmpl = refl

-- How an insertion into a populated hash ends.
pub data Inserts (mem : Memory) (dhp : Idhash) (idp : Ident) : Option Ident × Idhash → Type 0 where
  no_memory : mem dhp.nelems ≡ none → Inserts mem dhp idp (none, dhp)
  linked :
      {new : Ident} {dhp' : Idhash}
      → IsValid dhp'
      → new.name ≡ idp.name
      → dhp'.nelems ≡ dhp.nelems + 1
      → dhp'.tmpl ≡ dhp.tmpl
      → dhp'.defer ≡ dhp.defer
      → lookup_populated dhp' idp.name ≡ some new
      → ((name : List ℕ) → name ≢ idp.name → lookup_populated dhp' name ≡ lookup_populated dhp name)
      → Inserts mem dhp idp (some new, dhp')

pub insert_in-Inserts :
    (mem : Memory) (dhp : Idhash) (idp : Ident)
    → IsValid dhp
    → KeepsName dhp.defer
    → Inserts mem dhp idp (insert_in mem dhp idp)
unfolding insert_in
insert_in-Inserts mem dhp idp v keeps = go (mem dhp.nelems) refl
  where
    same_name : (a : ℕ) → Ident
    same_name a = record idp { addr = a }

    here :
        (a : ℕ)
        → lookup_populated (link dhp (same_name a)).1 idp.name ≡ some (link dhp (same_name a)).0
    here a =
        let s : is_equal (strcmp idp.name idp.name) ≡ true =
          ap is_equal (strcmp_self idp.name) ∙ unfold is_equal in refl in
        lookup-named (link dhp (same_name a)).1 idp.name
        ∙ ap first (named-link dhp (same_name a) v keeps idp.name)
        ∙ rw s (unfold first in refl)

    others :
        (a : ℕ) (name : List ℕ)
        → name ≢ idp.name
        → lookup_populated (link dhp (same_name a)).1 name ≡ lookup_populated dhp name
    others a name ne = elim (Bool-cases (is_equal (strcmp idp.name name))) [
      | inl e ↦ absurd (ne (sym (strcmp_equal idp.name name e)))
      | inr e ↦
          lookup-named (link dhp (same_name a)).1 name
          ∙ ap first (named-link dhp (same_name a) v keeps name)
          ∙ rw e (sym (lookup-named dhp name))
    ]

    go :
        (o : Option ℕ)
        → mem dhp.nelems ≡ o
        → Inserts mem dhp idp (link_created dhp (ident_create o idp))
    go none e = unfold link_created ident_create in no_memory e
    go (some a) e =
        unfold link_created ident_create in
        linked (link-IsValid dhp (same_name a) v keeps) (link-name dhp (same_name a) v keeps)
          (link-nelems dhp (same_name a) v keeps) (link-tmpl dhp (same_name a) v keeps)
          (link-defer dhp (same_name a) v keeps) (here a) (others a)
