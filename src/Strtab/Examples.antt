-- ===== src/Strtab/Examples.antt =====
-- Tests of the string table, and the theorems at concrete inputs.
use dtrace.Base.{
  ℕ, ◌≡◌, refl, sym, ap, subst, true, Option, none, some, List, [], ◌∷◌, ◌++◌, arith, length, drop,
  get_or-replicate,
}
use dtrace.Strtab.{
  Str, Strtab, Memory, hash_round, str2hval, insert, insert_new, insert_entry, copyin, copied_in,
  copy_from, copy_piece, grow_full, xindex, xindex_in, compare, compare_from, strncmp, index, write,
  copystr,
}
use dtrace.Strtab.Flat.{flat}
use dtrace.Strtab.Copy.{HasLength}
use dtrace.Strtab.Search.{IsValid, AllEntries, text}
use dtrace.Strtab.Insert.{Inserts, insert-Inserts}
use dtrace.Strtab.Write.{write-copystr}

-- Buffers of four bytes that malloc leaves with nines in them.
abbrev nines : Memory
nines n = some (9 ∷ 9 ∷ 9 ∷ 9 ∷ [])

nines-HasLength : HasLength nines 4
nines-HasLength n buf e = ground (arith, ap length' e)
  where
    length' : Option (List ℕ) → ℕ
    length' none = 0
    length' (some l) = length l

-- The empty table, with one slot.
abbrev fresh : Strtab
fresh = record {
  hash = [] ∷ [];
  hashsz = 1;
  bufs = (0 ∷ 9 ∷ 9 ∷ 9 ∷ []) ∷ [];
  ptr = 1;
  bufsz = 4;
  nstrs = 1;
  size = 1;
}

fresh-IsValid : IsValid fresh
unfolding flat
fresh-IsValid = record {
  place = record { some_buf = omega arith; full = (refl, tt); inside = omega arith };
  positive = omega arith;
  measured = refl;
  slots = refl;
  has_slot = omega arith;
  entries =
      λ j. subst (λ hs. AllEntries 4 (0 ∷ []) hs) (sym (get_or-replicate {A = List Str} 1 j [])) tt;
}

-- "abcd" goes over the end of the first buffer, and is found at once.
insert_twice :
    (elim (insert true nines fresh (97 ∷ 98 ∷ 99 ∷ 100 ∷ [])) [
      | none ↦ none
      | some r ↦ index r.1 (97 ∷ 98 ∷ 99 ∷ 100 ∷ [])
    ])
    ≡ some (some 1)
unfolding insert insert_new insert_entry copyin copied_in copy_from copy_piece grow_full xindex
    xindex_in compare compare_from strncmp index str2hval hash_round
insert_twice = refl

insert-Inserts_example :
    Inserts true nines fresh
      (97 ∷ 98 ∷ 99 ∷ 100 ∷ [])
      (insert true nines fresh (97 ∷ 98 ∷ 99 ∷ 100 ∷ []))
insert-Inserts_example =
    insert-Inserts true nines fresh 97 (98 ∷ 99 ∷ 100 ∷ []) fresh-IsValid nines-HasLength (
      (λ e. ground (arith, e)),
      ((λ e. ground (arith, e)), ((λ e. ground (arith, e)), ((λ e. ground (arith, e)), tt))),
    )

write-copystr_example :
    write copystr fresh (7 ∷ 7 ∷ 7 ∷ []) ≡ (text fresh ++ drop 1 (7 ∷ 7 ∷ 7 ∷ []), some 1)
write-copystr_example =
    write-copystr fresh (7 ∷ 7 ∷ 7 ∷ []) fresh-IsValid (omega arith) (omega arith)
