-- ===== src/Idhash/Delete.antt =====
-- Deletion from an identifier hash.
use dtrace.Idhash.Chains.{
  matching, AllHome, IsValid, named, matching-cons, with_chain, named-with_chain,
  with_chain-IsValid, slot-lt, strcmp_self, strcmp_equal,
}
use dtrace.Base.{
  ℕ, zero, suc, ◌+◌, ◌-◌, ◌≤◌, ◌<◌, ◌≡◌, refl, sym, ap, ◌∙◌, subst, ◌≢◌, inl, inr, Bool, true,
  false, not, some, List, [], ◌∷◌, arith, ◌==◌, if◌then◌else◌, Bool-cases, length, get_or, total,
}
use dtrace.Idhash.{Idhash, Ident, unlink, is_equal, strcmp, slot, delete, orphan}

-- A list without the first identifier at an address, and that identifier.
pub data Unlinks (key : ℕ) : List Ident → Ident → List Ident → Type 0 where
  here : {idp : Ident} {chain : List Ident} → idp.addr ≡ key → Unlinks key (idp ∷ chain) idp chain
  there :
      {idp x : Ident} {chain rest : List Ident}
      → idp.addr ≢ key
      → Unlinks key chain x rest
      → Unlinks key (idp ∷ chain) x (idp ∷ rest)

unlink-Unlinks :
    (key : ℕ) {chain : List Ident} {x : Ident} {rest : List Ident}
    → Unlinks key chain x rest
    → unlink chain key ≡ some (x, rest)
unfolding unlink
unlink-Unlinks key (here {idp = idp} e) =
    let t : (idp.addr == key) ≡ true = ground arith in rw t refl
unlink-Unlinks key (there {idp = idp} ne u) =
    let t : (idp.addr == key) ≡ false = ground arith in rw (t, unlink-Unlinks key u) refl

length-Unlinks :
    (key : ℕ) {chain : List Ident} {x : Ident} {rest : List Ident}
    → Unlinks key chain x rest
    → length chain ≡ suc (length rest)
length-Unlinks key (here e) = refl
length-Unlinks key (there ne u) = ap suc (length-Unlinks key u)

AllHome-Unlinks :
    (dhp : Idhash) (h key : ℕ) {chain : List Ident} {x : Ident} {rest : List Ident}
    → Unlinks key chain x rest
    → AllHome dhp h chain
    → AllHome dhp h rest
AllHome-Unlinks dhp h key (here e) (a, as_) = as_
AllHome-Unlinks dhp h key (there ne u) (a, as_) = (a, AllHome-Unlinks dhp h key u as_)

matching-other :
    (key : ℕ) (name : List ℕ) {chain : List Ident} {x : Ident} {rest : List Ident}
    → Unlinks key chain x rest
    → is_equal (strcmp x.name name) ≡ false
    → matching name rest ≡ matching name chain
matching-other key name (here {idp = idp} {chain = chain} e) d =
    sym (matching-cons name idp chain ∙ rw d refl)
matching-other key name (there {idp = idp} {chain = chain} {rest = rest} ne u) d =
    matching-cons name idp rest
    ∙ rw (matching-other key name u d) refl
    ∙ sym (matching-cons name idp chain)

matching-same :
    (key : ℕ) (name : List ℕ) {chain : List Ident} {x : Ident} {rest : List Ident}
    → Unlinks key chain x rest
    → is_equal (strcmp x.name name) ≡ true
    → Unlinks key (matching name chain) x (matching name rest)
unfolding matching
matching-same key name (here e) d = rw d (here e)
matching-same key name (there {idp = idp} ne u) d =
    elim (Bool-cases (is_equal (strcmp idp.name name))) [
      | inl s ↦ rw s (there ne (matching-same key name u d))
      | inr s ↦ rw s (matching-same key name u d)
    ]

total-chain :
    (chains : List (List Ident)) (h : ℕ) → length (get_or chains h []) ≤ total length chains
unfolding total
total-chain [] h = omega arith
total-chain (chain ∷ chains) zero = omega arith
total-chain (chain ∷ chains) (suc h) = omega (arith, total-chain chains h)

-- What a deletion of an identifier of the hash leaves.
pub record Deletes (dhp : Idhash) (key : Ident) (dhp' : Idhash) : Type 0 where
  pub valid : IsValid dhp'
  pub fewer : dhp'.nelems + 1 ≡ dhp.nelems
  pub gone : Unlinks key.addr (named dhp key.name) key (named dhp' key.name)
  pub others : (name : List ℕ) → name ≢ key.name → named dhp' name ≡ named dhp name

module _ (dhp : Idhash) (key : Ident) (rest : List Ident) (v : IsValid dhp)
    (u : Unlinks key.addr (get_or dhp.hash (slot dhp key.name) []) key rest) where
  abbrev after : Idhash
  after = with_chain dhp (slot dhp key.name) rest (dhp.nelems - 1)

  positive : 0 < dhp.nelems
  positive =
      omega (arith, total-chain dhp.hash (slot dhp key.name), length-Unlinks key.addr u, v.counted)

  delete-after : delete dhp key ≡ some (not (orphan key.flags), after)
  unfolding delete
  delete-after =
      let t : (dhp.nelems == 0) ≡ false = ground (arith, positive) in
      rw (unlink-Unlinks key.addr u, delete, t) refl

  after-named :
      (name : List ℕ)
      → named after name
        ≡ matching name (
            if slot dhp key.name == slot dhp name then rest else get_or dhp.hash (slot dhp name) [])
  after-named name =
      named-with_chain dhp (slot dhp key.name) rest (dhp.nelems - 1) v (slot-lt dhp key.name v) name

  after-other :
      (name : List ℕ) (b : Bool)
      → (slot dhp key.name == slot dhp name) ≡ b
      → is_equal (strcmp key.name name) ≡ false
      → matching name (if b then rest else get_or dhp.hash (slot dhp name) []) ≡ named dhp name
  after-other name false e d = refl
  after-other name true e d =
      let s : slot dhp key.name ≡ slot dhp name = ground arith in
      matching-other key.addr name u d ∙ ap (λ j. matching name (get_or dhp.hash j [])) s

  after-Deletes : Deletes dhp key after
  after-Deletes = record {
    valid =
        with_chain-IsValid dhp (slot dhp key.name) rest (dhp.nelems - 1) v (slot-lt dhp key.name v)
          (AllHome-Unlinks dhp (slot dhp key.name) key.addr u (v.homes (slot dhp key.name)))
          (omega (arith, length-Unlinks key.addr u, positive));
    fewer = omega (arith, positive);
    gone =
        let t : (slot dhp key.name == slot dhp key.name) ≡ true = ground arith in
        let s : is_equal (strcmp key.name key.name) ≡ true =
          ap is_equal (strcmp_self key.name) ∙ unfold is_equal in refl in
        subst (λ l. Unlinks key.addr (named dhp key.name) key l)
          (sym (after-named key.name ∙ rw t refl)) (matching-same key.addr key.name u s);
    others = λ name ne. elim (Bool-cases (is_equal (strcmp key.name name))) [
      | inl s ↦ absurd (ne (sym (strcmp_equal key.name name s)))
      | inr d ↦ after-named name ∙ after-other name (slot dhp key.name == slot dhp name) refl d
    ];
  }

-- dt_idhash_delete() of an identifier that is in the chain of its name passes its asserts, destroys
-- the identifier unless it is an orphan, and leaves a valid hash with one element fewer, in which
-- the identifiers of its name are those of before without it and those of every other name are the
-- same.
pub delete-Deletes :
    (dhp : Idhash) (key : Ident) (rest : List Ident)
    → IsValid dhp
    → Unlinks key.addr (get_or dhp.hash (slot dhp key.name) []) key rest
    → (dhp' : Idhash) × ((delete dhp key ≡ some (not (orphan key.flags), dhp'))
        × Deletes dhp key dhp')
delete-Deletes dhp key rest v u =
    (after dhp key rest v u, (delete-after dhp key rest v u, after-Deletes dhp key rest v u))
