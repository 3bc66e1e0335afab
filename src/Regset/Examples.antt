-- ===== src/Regset/Examples.antt =====
-- A register set of a code generator: %r0 to %r9, all of them in use, and two already spilled.
use dtrace.Base.{◌≡◌, refl, true, false, some, [], ◌∷◌, arith, ltb}
use dtrace.Regset.{Regset, create, alloc, xalloc, xalloc_args, free_args, spill_store, put_bit}
use dtrace.Regset.Free.{Xallocates, xalloc-Xallocates, Covered, FreesTo}
use dtrace.Regset.Spill.{IsSound}
use dtrace.Regset.Args.{AllOrNone, xalloc_args-AllOrNone, free_args-xalloc_args}
use dtrace.Regset.Reach.{here, next, by_alloc, Reach-IsSound}

abbrev busy : Regset
busy = record { size = 10; active = λ _. true; spilled = λ i. ltb 7 i; trace = [] }

busy-Covered : Covered busy
busy-Covered i e = refl

alloc_spills_seven : (alloc busy).0 ≡ some 7
unfolding alloc
alloc_spills_seven = refl

xalloc-Xallocates_example : Xallocates busy 8 (xalloc busy 8)
xalloc-Xallocates_example = xalloc-Xallocates busy 8

abbrev after : Regset
after = record busy { spilled = put_bit busy.spilled 7 true; trace = spill_store 7 ∷ [] }

abbrev after_named : Regset
after_named = record busy {
  active = put_bit busy.active 2 true;
  spilled = put_bit busy.spilled 2 true;
  trace = spill_store 2 ∷ [];
}

xalloc_args-AllOrNone_example : AllOrNone busy 1 6 (xalloc_args busy)
xalloc_args-AllOrNone_example = xalloc_args-AllOrNone busy busy-Covered (omega arith)

abbrev granted : Regset
granted = record {
  size = 10;
  active =
      put_bit (put_bit (put_bit (put_bit (put_bit busy.active 1 true) 2 true) 3 true) 4 true) 5
        true;
  spilled =
      put_bit (put_bit (put_bit (put_bit (put_bit busy.spilled 1 true) 2 true) 3 true) 4 true) 5
        true;
  trace = spill_store 5 ∷ spill_store 4 ∷ spill_store 3 ∷ spill_store 2 ∷ spill_store 1 ∷ [];
}

granted_run : xalloc_args busy ≡ some (true, granted)
unfolding xalloc_args
granted_run = refl

free_args-xalloc_args_example : FreesTo busy (free_args granted)
free_args-xalloc_args_example = free_args-xalloc_args busy busy-Covered (omega arith) granted_run

abbrev fresh : Regset
fresh = record { size = 10; active = λ _. false; spilled = λ _. false; trace = [] }

Reach-IsSound_example : IsSound (alloc (alloc fresh).1).1
Reach-IsSound_example =
    Reach-IsSound (λ _. true) (λ _. true) 9 {r = fresh} (unfold create in refl)
      (next (next here by_alloc) by_alloc)
