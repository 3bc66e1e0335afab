-- ===== src/Htab/Lookup.antt =====
-- The secondary search of dt_htab_find().
use dtrace.Base.{
  suc, ◌+◌, ◌≡◌, refl, inl, inr, Bool, some, List, [], ◌∷◌, arith, if◌then◌else◌, Bool-cases,
  length,
}
use dtrace.Htab.{Ops, Htab, lookup, find, find_loop}
use dtrace.Htab.Head.{IsLawful}

module _ {ℓ} {E : Type ℓ} (ops : Ops E) (law : IsLawful ops) where
  -- The first pointer into a list that a test accepts, or NULL.
  unfoldable pub first_accepted : (List E → Bool) → List E → List E
  first_accepted p [] = []
  first_accepted p (x ∷ xs) = if p (x ∷ xs) then x ∷ xs else first_accepted p xs

  find_loop-first_accepted :
      (p : List E → Bool) (ent : List E)
      → find_loop ops p (suc (length ent)) ent ≡ some (first_accepted p ent)
  unfolding find_loop first_accepted
  find_loop-first_accepted p [] = refl
  find_loop-first_accepted p (x ∷ xs) = elim (Bool-cases (p (x ∷ xs))) [
    | inl hit ↦ rw hit refl
    | inr miss ↦ rw (miss, law.next-cons) (find_loop-first_accepted p xs)
  ]

  -- dt_htab_find() ends, and returns the first of the entries equal to the given one that the
  -- callback accepts, as a pointer into their list, or NULL if it accepts none.
  find-first_accepted :
      (p : List E → Bool) (h : Htab E) (e : E)
      → find ops p h e ≡ some (first_accepted p (lookup ops h e))
  unfolding find
  find-first_accepted p h e =
      let fuel : length (lookup ops h e) + 1 ≡ suc (length (lookup ops h e)) = omega arith in
      rw fuel (find_loop-first_accepted p (lookup ops h e))
