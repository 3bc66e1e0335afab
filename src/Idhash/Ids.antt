-- ===== src/Idhash/Ids.antt =====
-- The ids that an identifier hash gives out.
use dtrace.Base.{
  ℕ, zero, suc, ◌+◌, ◌-◌, ◌%◌, ◌^◌, ◌≤◌, ◌<◌, max, ◌≡◌, refl, inl, inr, true, Option, none, some,
  List, [], ◌∷◌, arith, leb, if◌then◌else◌, Bool-cases, get_or,
}
use native.Mathlib.Nat.{mod-eq_of_lt}
use dtrace.Idhash.{Kind, Idhash, Ident, update_chain, has_id, update_from, update, nextid}

-- The kinds whose ids come from dt_idhash_nextid().
pub data IsVariable : Kind → Type 0 where
  is_array : IsVariable Kind.array
  is_scalar : IsVariable Kind.scalar
  is_agg : IsVariable Kind.agg

IsVariable-has_id : {k : Kind} → IsVariable k → has_id k ≡ true
unfolding has_id
IsVariable-has_id is_array = refl
IsVariable-has_id is_scalar = refl
IsVariable-has_id is_agg = refl

-- Every variable of the list has a smaller id.
abbrev pub AllBelow : ℕ → List Ident → Type 0
AllBelow n [] = Unit {0}
AllBelow n (idp ∷ chain) = (IsVariable idp.kind → idp.id < n) × AllBelow n chain

abbrev pub AllIds : List Ident → Type 0
AllIds [] = Unit {0}
AllIds (idp ∷ chain) = (idp.id < 2 ^ 32 - 1) × AllIds chain

abbrev raise : ℕ → Ident → ℕ
raise n idp = if has_id idp.kind then max n ((idp.id + 1) % 2 ^ 32) else n

raise-le : (n : ℕ) (idp : Ident) → n ≤ raise n idp
raise-le n idp = ground arith

raise-lt : (n : ℕ) (idp : Ident) → n < 2 ^ 32 → raise n idp < 2 ^ 32
raise-lt n idp h = ground arith

raise-above :
    (n : ℕ) (idp : Ident) → idp.id < 2 ^ 32 - 1 → has_id idp.kind ≡ true → idp.id < raise n idp
raise-above n idp h e =
    rw e (omega (arith, mod-eq_of_lt {n = idp.id + 1} {m = 2 ^ 32} (omega arith)))

update_chain-le : (chain : List Ident) (n : ℕ) → n ≤ update_chain n chain
unfolding update_chain
update_chain-le [] n = omega arith
update_chain-le (idp ∷ chain) n = omega (arith, update_chain-le chain (raise n idp), raise-le n idp)

update_chain-lt : (chain : List Ident) (n : ℕ) → n < 2 ^ 32 → update_chain n chain < 2 ^ 32
unfolding update_chain
update_chain-lt [] n h = h
update_chain-lt (idp ∷ chain) n h = update_chain-lt chain (raise n idp) (raise-lt n idp h)

AllBelow-mono : (chain : List Ident) (n m : ℕ) → n ≤ m → AllBelow n chain → AllBelow m chain
AllBelow-mono [] n m h a = tt
AllBelow-mono (idp ∷ chain) n m h (b, a) = (λ e. omega (arith, b e), AllBelow-mono chain n m h a)

update_chain-AllBelow :
    (chain : List Ident) (n : ℕ) → AllIds chain → AllBelow (update_chain n chain) chain
unfolding update_chain
update_chain-AllBelow [] n a = tt
update_chain-AllBelow (idp ∷ chain) n (h, a) = (
  λ e.
      omega (arith, raise-above n idp h (IsVariable-has_id e), update_chain-le chain (raise n idp)),
  update_chain-AllBelow chain (raise n idp) a,
)

update_from-le : (chains : List (List Ident)) (n : ℕ) → n ≤ update_from n chains
unfolding update_from
update_from-le [] n = omega arith
update_from-le (chain ∷ chains) n =
    omega (arith, update_from-le chains (update_chain n chain), update_chain-le chain n)

update_from-lt : (chains : List (List Ident)) (n : ℕ) → n < 2 ^ 32 → update_from n chains < 2 ^ 32
unfolding update_from
update_from-lt [] n h = h
update_from-lt (chain ∷ chains) n h =
    update_from-lt chains (update_chain n chain) (update_chain-lt chain n h)

update_from-AllBelow :
    (chains : List (List Ident)) (n h : ℕ)
    → AllIds (get_or chains h [])
    → AllBelow (update_from n chains) (get_or chains h [])
unfolding update_from
update_from-AllBelow [] n h a = tt
update_from-AllBelow (chain ∷ chains) n zero a =
    AllBelow-mono chain (update_chain n chain) (update_from (update_chain n chain) chains)
      (update_from-le chains (update_chain n chain)) (update_chain-AllBelow chain n a)
update_from-AllBelow (chain ∷ chains) n (suc h) a =
    update_from-AllBelow chains (update_chain n chain) h a

-- What the first call after an update gives.
pub data NextId (dhp : Idhash) : Option (ℕ × Idhash) → Type 0 where
  used_up : dhp.maxid ≤ (update dhp).nextid → NextId dhp none
  given :
      {i : ℕ} {dhp' : Idhash}
      → dhp.minid ≤ i
      → i < dhp.maxid
      → ((h : ℕ) → AllBelow i (get_or dhp.hash h []))
      → dhp'.nextid ≡ i + 1
      → dhp'.hash ≡ dhp.hash
      → NextId dhp (some (i, dhp'))

-- After dt_idhash_update() on a hash whose ids are below 2^32 - 1, dt_idhash_nextid() returns -1
-- only where the next id has reached the maximum, and else an id from the minimum on and below the
-- maximum that is above the id of every array, scalar and aggregation in the hash, and the next id
-- is one more.
pub nextid-update :
    (dhp : Idhash)
    → dhp.minid < 2 ^ 32
    → dhp.maxid < 2 ^ 32
    → ((h : ℕ) → AllIds (get_or dhp.hash h []))
    → NextId dhp (nextid (update dhp))
unfolding nextid update
nextid-update dhp hmin hmax ids = elim (Bool-cases (leb dhp.maxid (update dhp).nextid)) [
  | inl e ↦ rw e (used_up (ground arith))
  | inr e ↦
      let less : (update dhp).nextid < dhp.maxid = ground arith in
      rw e (
        given (update_from-le dhp.hash dhp.minid) less
          (λ h. update_from-AllBelow dhp.hash dhp.minid h (ids h)) (omega arith) refl)
]
