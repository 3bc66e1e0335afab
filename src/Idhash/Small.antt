-- ===== src/Idhash/Small.antt =====
-- The population of an identifier hash keeps the ids below 2^31.
use dtrace.Base.{
  ℕ, zero, suc, ◌≡◌, refl, sym, subst, Bool, true, Option, none, some, List, [], ◌∷◌, set, get_or,
}
use dtrace.Idhash.Populate.{pending}
use dtrace.Idhash.Sorted.{All, small, All-append}
use dtrace.Idhash.{
  insert_in, Ident, gather, Result, link, populate_from, Memory, jumped, Idhash, deferred, returned,
  slot, populate_next, link_created, populate, ident_create, from_template,
}

-- The identifiers of all chains.
abbrev pub AllChains : (Ident → Bool) → List (List Ident) → Type 0
AllChains p [] = Unit {0}
AllChains p (chain ∷ chains) = All p chain × AllChains p chains

AllChains-set :
    (p : Ident → Bool) (chains : List (List Ident)) (h : ℕ) (chain : List Ident)
    → AllChains p chains
    → All p chain
    → AllChains p (set chains h chain)
AllChains-set p [] h chain a b = tt
AllChains-set p (c ∷ chains) zero chain (a, more) b = (b, more)
AllChains-set p (c ∷ chains) (suc h) chain (a, more) b = (a, AllChains-set p chains h chain more b)

AllChains-get_or :
    (p : Ident → Bool) (chains : List (List Ident)) (h : ℕ)
    → AllChains p chains
    → All p (get_or chains h [])
AllChains-get_or p [] h a = tt
AllChains-get_or p (c ∷ chains) zero (a, more) = a
AllChains-get_or p (c ∷ chains) (suc h) (a, more) = AllChains-get_or p chains h more

pub All-gather :
    (p : Ident → Bool) (chains : List (List Ident)) → AllChains p chains → All p (gather chains)
unfolding gather
All-gather p [] a = tt
All-gather p (c ∷ chains) (a, more) = All-append p c (gather chains) a (All-gather p chains more)

-- The defer callback keeps an id below 2^31.
abbrev pub KeepsSmall : Option (Ident → Ident) → Type 0
KeepsSmall defer = (idp : Ident) → small idp ≡ true → small (deferred defer idp) ≡ true

abbrev pub SmallResult : Result Bool → Type 0
SmallResult (jumped dhp) = Unit {0}
SmallResult (returned ok dhp) = AllChains small dhp.hash

link-small :
    (dhp : Idhash) (idp : Ident)
    → KeepsSmall dhp.defer
    → AllChains small dhp.hash
    → small idp ≡ true
    → AllChains small (link dhp idp).1.hash
unfolding link
link-small dhp idp keeps a s =
    let h = slot dhp idp.name in
    AllChains-set small dhp.hash h (deferred dhp.defer idp ∷ get_or dhp.hash h []) a
      (keeps idp s, AllChains-get_or small dhp.hash h a)

link-defer : (dhp : Idhash) (idp : Ident) → (link dhp idp).1.defer ≡ dhp.defer
unfolding link
link-defer dhp idp = refl

populate_from-small :
    (mem : Memory) (tmpl : List Ident) (dhp : Idhash)
    → KeepsSmall dhp.defer
    → AllChains small dhp.hash
    → All small tmpl
    → SmallResult (populate_from mem tmpl dhp)
unfolding populate_from insert_in link_created
populate_from-small mem [] dhp keeps a t = a
populate_from-small mem (idp ∷ tmpl) dhp keeps a (s, t) =
    go (λ dhp' k b. populate_from-small mem tmpl dhp' k b t) (mem dhp.nelems)
  where
    go :
        ((dhp' : Idhash)
          → KeepsSmall dhp'.defer
          → AllChains small dhp'.hash
          → SmallResult (populate_from mem tmpl dhp'))
        → (got : Option ℕ)
        → SmallResult (
            populate_next
              (link_created dhp (ident_create got (from_template idp)))
              (populate_from mem tmpl (link_created dhp (ident_create got (from_template idp))).1))
    go rec none = unfold ident_create link_created populate_next in tt
    go rec (some addr) =
        let new : Ident = record (from_template idp) { addr = addr } in
        let keeps' : KeepsSmall (link dhp new).1.defer =
          subst (λ f. KeepsSmall f) (sym (link-defer dhp new)) keeps in
        unfold ident_create link_created populate_next in
        rec (link dhp new).1 keeps' (link-small dhp new keeps a (unfold from_template small in s))

pub populate-small :
    (mem : Memory) (dhp : Idhash)
    → KeepsSmall dhp.defer
    → AllChains small dhp.hash
    → All small (pending dhp.tmpl)
    → SmallResult (populate mem dhp dhp.tmpl)
populate-small mem dhp keeps a t = go dhp.tmpl t
  where
    go : (o : Option (List Ident)) → All small (pending o) → SmallResult (populate mem dhp o)
    go none t = unfold populate in a
    go (some tmpl) t =
        unfold populate in populate_from-small mem tmpl (record dhp { tmpl = none }) keeps a t
