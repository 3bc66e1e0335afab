-- ===== src/Idhash/Populate.antt =====
-- The initial population of an identifier hash, and dt_idhash_insert() and dt_idhash_lookup() with
-- it.
use dtrace.Base.{
  ℕ, ◌+◌, ◌≡◌, refl, sym, ap, ◌∙◌, subst, ◌≢◌, inl, inr, Bool, true, false, Option, none, some,
  List, [], ◌∷◌, arith, Bool-cases, length, get_or,
}
use dtrace.Idhash.Chains.{
  IsValid, strcmp_self, strcmp_equal, AllHome-length, first, named, lookup-named,
}
use dtrace.Idhash.{
  Idhash, Result, returned, jumped, Ident, Memory, populate_from, lookup_populated, is_equal,
  strcmp, populate, from_template, populate_next, slot, insert, lookup, after_population, insert_in,
}
use dtrace.Idhash.Insert.{no_memory, linked, KeepsName, Inserts, insert_in-Inserts}

abbrev pub pending : Option (List Ident) → List Ident
pending none = []
pending (some tmpl) = tmpl

-- Each name of the template is found.
abbrev pub AllFound : Idhash → List Ident → Type 0
AllFound dhp [] = Unit {0}
AllFound dhp (idp ∷ tmpl) =
    ((x : Ident) × (lookup_populated dhp idp.name ≡ some x)) × AllFound dhp tmpl

-- The hash once its population is made.
pub record IsReady (dhp : Idhash) (tmpl : List Ident) (dhp' : Idhash) : Type 0 where
  pub valid : IsValid dhp'
  pub keeps : KeepsName dhp'.defer
  pub no_template : dhp'.tmpl ≡ none
  pub counted : dhp'.nelems ≡ dhp.nelems + length tmpl
  pub all_found : AllFound dhp' tmpl
  pub kept :
      (name : List ℕ) (x : Ident)
      → lookup_populated dhp name ≡ some x
      → (y : Ident) × (lookup_populated dhp' name ≡ some y)

pub data Populates (mem : Memory) (dhp : Idhash) (tmpl : List Ident) : Result Bool → Type 0 where
  stopped : {dhp' : Idhash} (n : ℕ) → mem n ≡ none → Populates mem dhp tmpl (jumped dhp')
  populated : {dhp' : Idhash} → IsReady dhp tmpl dhp' → Populates mem dhp tmpl (returned true dhp')

-- A name of the hash is still found after an insertion.
inserted_kept :
    (dhp dhp' : Idhash) (other name : List ℕ) {new x : Ident}
    → lookup_populated dhp' other ≡ some new
    → ((n : List ℕ) → n ≢ other → lookup_populated dhp' n ≡ lookup_populated dhp n)
    → lookup_populated dhp name ≡ some x
    → (y : Ident) × (lookup_populated dhp' name ≡ some y)
inserted_kept dhp dhp' other name {new = new} {x = x} here others e =
    elim (Bool-cases (is_equal (strcmp name other))) [
      | inl s ↦ (new, ap (λ n. lookup_populated dhp' n) (strcmp_equal name other s) ∙ here)
      | inr d ↦ (x, others name (λ q. differs q d) ∙ e)
    ]
  where
    differs : name ≡ other → is_equal (strcmp name other) ≡ false → ⊥
    differs q d =
        let s : is_equal (strcmp name name) ≡ true =
          ap is_equal (strcmp_self name) ∙ unfold is_equal in refl in
        true_false (sym s ∙ ap (λ n. is_equal (strcmp name n)) q ∙ d)
      where
        true_false : true ≡ false → ⊥
        true_false e = cc

populate_from-Populates :
    (mem : Memory) (tmpl : List Ident) (dhp : Idhash)
    → IsValid dhp
    → KeepsName dhp.defer
    → dhp.tmpl ≡ none
    → Populates mem dhp tmpl (populate_from mem tmpl dhp)
unfolding populate_from from_template
populate_from-Populates mem [] dhp v keeps e = populated (record {
  valid = v;
  keeps = keeps;
  no_template = e;
  counted = omega arith;
  all_found = tt;
  kept = λ name x f. (x, f);
})
populate_from-Populates mem (idp ∷ tmpl) dhp v keeps e =
    go (insert_in-Inserts mem dhp (from_template idp) v keeps)
      (λ dhp' v' k' e'. populate_from-Populates mem tmpl dhp' v' k' e')
  where
    go :
        {r : Option Ident × Idhash}
        → Inserts mem dhp (from_template idp) r
        → ((dhp' : Idhash)
            → IsValid dhp'
            → KeepsName dhp'.defer
            → dhp'.tmpl ≡ none
            → Populates mem dhp' tmpl (populate_from mem tmpl dhp'))
        → Populates mem dhp (idp ∷ tmpl) (populate_next r (populate_from mem tmpl r.1))
    go (no_memory n) rec = unfold populate_next in stopped dhp.nelems n
    go (linked {dhp' = dhp'} v' same count t d here others) rec =
        unfold populate_next in
        further dhp' count here others
          (rec dhp' v' (subst (λ f. KeepsName f) (sym d) keeps) (t ∙ e))
      where
        further :
            (dhp' : Idhash) {new : Ident} {o : Result Bool}
            → dhp'.nelems ≡ dhp.nelems + 1
            → lookup_populated dhp' (from_template idp).name ≡ some new
            → ((n : List ℕ)
                → n ≢ (from_template idp).name
                → lookup_populated dhp' n ≡ lookup_populated dhp n)
            → Populates mem dhp' tmpl o
            → Populates mem dhp (idp ∷ tmpl) o
        further dhp' count here others (stopped n z) = stopped n z
        further dhp' count here others (populated r) = populated (record {
          valid = r.valid;
          keeps = r.keeps;
          no_template = r.no_template;
          counted = omega (arith, r.counted, count);
          all_found = (r.kept (from_template idp).name _ here, r.all_found);
          kept = λ name x f.
              let k = inserted_kept dhp dhp' (from_template idp).name name here others f in
              r.kept name k.0 k.1;
        })

abbrev untemplated : Idhash → Idhash
untemplated dhp = record dhp { tmpl = none }

untemplated-IsValid : (dhp : Idhash) → IsValid dhp → IsValid (untemplated dhp)
untemplated-IsValid dhp v = record {
  has_slot = v.has_slot;
  homes = λ h. AllHome-length dhp (untemplated dhp) h (get_or dhp.hash h []) refl (v.homes h);
  counted = v.counted;
}

lookup-untemplated :
    (dhp : Idhash) (name : List ℕ)
    → lookup_populated (untemplated dhp) name ≡ lookup_populated dhp name
unfolding lookup_populated slot
lookup-untemplated dhp name = refl

-- The population does nothing, or clears the template first.
pub populate-Populates :
    (mem : Memory) (dhp : Idhash)
    → IsValid dhp
    → KeepsName dhp.defer
    → Populates mem dhp (pending dhp.tmpl) (populate mem dhp dhp.tmpl)
populate-Populates mem dhp v keeps = go dhp.tmpl refl
  where
    at_once :
        (tmpl : List Ident) {r : Result Bool}
        → Populates mem (untemplated dhp) tmpl r
        → Populates mem dhp tmpl r
    at_once tmpl (stopped n z) = stopped n z
    at_once tmpl (populated r) = populated (record {
      valid = r.valid;
      keeps = r.keeps;
      no_template = r.no_template;
      counted = r.counted;
      all_found = r.all_found;
      kept = λ name x f. r.kept name x (lookup-untemplated dhp name ∙ f);
    })

    go :
        (o : Option (List Ident))
        → dhp.tmpl ≡ o
        → Populates mem dhp (pending o) (populate mem dhp o)
    go none e =
        unfold populate in
        populated (record {
          valid = v;
          keeps = keeps;
          no_template = e;
          counted = omega arith;
          all_found = tt;
          kept = λ name x f. (x, f);
        })
    go (some tmpl) e =
        unfold populate in
        at_once tmpl (
          populate_from-Populates mem tmpl (untemplated dhp) (untemplated-IsValid dhp v) keeps refl)

-- How an insertion ends: by longjmp() out of the population, or as into the populated hash.
pub data Inserted (mem : Memory) (dhp : Idhash) (idp : Ident) : Result (Option Ident) → Type 0 where
  thrown : {dhp' : Idhash} (n : ℕ) → mem n ≡ none → Inserted mem dhp idp (jumped dhp')
  inserted :
      (ready : Idhash) {new : Option Ident} {dhp' : Idhash}
      → IsReady dhp (pending dhp.tmpl) ready
      → Inserts mem ready idp (new, dhp')
      → Inserted mem dhp idp (returned new dhp')

-- dt_idhash_insert() into a valid identifier hash whose defer callback leaves the names first makes
-- the population that is pending, after which every name of it and every name of before is found,
-- and leaves by longjmp() only where an allocation fails; then it returns NULL with the hash
-- unchanged where the allocation fails, and else an identifier of the given name that the next
-- lookup of the name finds, with one element more, the hash valid and every other lookup as before.
pub insert-Inserted_ident :
    (mem : Memory) (dhp : Idhash) (idp : Ident)
    → IsValid dhp
    → KeepsName dhp.defer
    → Inserted mem dhp idp (insert mem dhp idp)
unfolding insert
insert-Inserted_ident mem dhp idp v keeps = go (populate-Populates mem dhp v keeps)
  where
    go :
        {r : Result Bool}
        → Populates mem dhp (pending dhp.tmpl) r
        → Inserted mem dhp idp (after_population r (λ dhp'. insert_in mem dhp' idp))
    go (stopped n z) = unfold after_population in thrown n z
    go (populated {dhp' = ready} k) =
        unfold after_population in
        inserted ready k (insert_in-Inserts mem ready idp k.valid k.keeps)

-- How a lookup ends.
pub data LooksUp (mem : Memory) (dhp : Idhash) (name : List ℕ)
    : Result (Option Ident) → Type 0 where
  thrown : {dhp' : Idhash} (n : ℕ) → mem n ≡ none → LooksUp mem dhp name (jumped dhp')
  looked_up :
      (ready : Idhash)
      → IsReady dhp (pending dhp.tmpl) ready
      → LooksUp mem dhp name (returned (first (named ready name)) ready)

-- dt_idhash_lookup() makes the pending population and finds the newest identifier of the name.
pub lookup-LooksUp :
    (mem : Memory) (dhp : Idhash) (name : List ℕ)
    → IsValid dhp
    → KeepsName dhp.defer
    → LooksUp mem dhp name (lookup mem dhp name)
unfolding lookup
lookup-LooksUp mem dhp name v keeps = go (populate-Populates mem dhp v keeps)
  where
    go :
        {r : Result Bool}
        → Populates mem dhp (pending dhp.tmpl) r
        → LooksUp mem dhp name (after_population r (λ dhp'. (lookup_populated dhp' name, dhp')))
    go (stopped n z) = unfold after_population in LooksUp.thrown n z
    go (populated {dhp' = ready} k) =
        unfold after_population in
        subst (λ o. LooksUp mem dhp name (returned o ready)) (sym (lookup-named ready name))
          (looked_up ready k)
