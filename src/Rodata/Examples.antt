-- ===== src/Rodata/Examples.antt =====
-- Tests of the read-only data block, and the theorems at concrete inputs.
use dtrace.Base.{
  ℕ, ◌≡◌, refl, sym, ap, subst, true, Option, none, some, List, [], ◌∷◌, arith, length, get_or,
  get_or-replicate,
}
use dtrace.Rodata.Lookup.{IsValid, AllItems, Finds, index-Finds}
use dtrace.Rodata.Insert.{Outcome, insert-Outcome}
use dtrace.Strtab.Flat.{flat}
use dtrace.Strtab.Copy.{HasLength}
use dtrace.Rodata.{
  Rodata, Inserted, found, astray, Memory, Search, insert, index, after_search, insert_new, Item,
  insert_entry, copyin, copied_in, xindex, xindex_in, searched, compare, compare_from, memcmp,
  gen_hval, slot,
}
use dtrace.Strtab.{hash_round, copy_from, copy_piece, grow_full, Memory}

-- Buffers of four bytes that malloc leaves with nines in them.
abbrev nines : Memory
nines n = some (9 ∷ 9 ∷ 9 ∷ 9 ∷ [])

nines-HasLength : HasLength nines 4
nines-HasLength n buf e = ground (arith, ap length' e)
  where
    length' : Option (List ℕ) → ℕ
    length' none = 0
    length' (some l) = length l

-- The block after its creation, with one slot.
abbrev fresh : Rodata
fresh = record {
  hash = [] ∷ [];
  hashsz = 1;
  bufs = (0 ∷ 9 ∷ 9 ∷ 9 ∷ []) ∷ [];
  ptr = 1;
  bufsz = 4;
  size = 1;
  item_size = 0;
}

fresh-IsValid : IsValid fresh
unfolding flat
fresh-IsValid = record {
  place = record { some_buf = omega arith; full = (refl, tt); inside = omega arith };
  positive = omega arith;
  measured = refl;
  slots = refl;
  has_slot = omega arith;
  items = λ j. subst (λ hs. AllItems 4 1 hs) (sym (get_or-replicate {A = List Item} 1 j [])) tt;
}

-- Four bytes, a 0 among them, go over the end of the first buffer.
abbrev bytes : List ℕ
bytes = 5 ∷ 0 ∷ 200 ∷ 7 ∷ []

abbrev then_index : Option (Inserted × Rodata) → List ℕ → Option Search
then_index none ptr = none
then_index (some r) ptr = index r.1 (some ptr)

insert_twice : then_index (insert true nines fresh (some bytes)) bytes ≡ some (found 1)
unfolding insert after_search insert_new insert_entry copyin copied_in copy_from copy_piece
    grow_full xindex xindex_in searched compare compare_from memcmp index gen_hval hash_round
insert_twice = refl

-- The comparison does not stop at the end of the data: a 9 that malloc left counts as stored.
past_the_end : then_index (insert true nines fresh (some (5 ∷ []))) (5 ∷ 9 ∷ []) ≡ some (found 1)
unfolding insert after_search insert_new insert_entry copyin copied_in copy_from copy_piece
    grow_full xindex xindex_in searched compare compare_from memcmp index gen_hval hash_round
past_the_end = refl

-- Nor at the end of the last buffer.
behind_the_last :
    then_index (insert true nines fresh (some (5 ∷ 6 ∷ 7 ∷ []))) (5 ∷ 6 ∷ 7 ∷ 8 ∷ []) ≡ some astray
unfolding insert after_search insert_new insert_entry copyin copied_in copy_from copy_piece
    grow_full xindex xindex_in searched compare compare_from memcmp index gen_hval hash_round
behind_the_last = refl

insert-Outcome_example : Outcome true nines fresh bytes (insert true nines fresh (some bytes))
insert-Outcome_example = insert-Outcome true nines fresh bytes fresh-IsValid nines-HasLength

index-Finds_example :
    (r : Search) × ((index fresh (some bytes) ≡ some r)
      × Finds (flat fresh.bufs) bytes (get_or fresh.hash (slot fresh bytes) []) r)
index-Finds_example = index-Finds fresh bytes fresh-IsValid
