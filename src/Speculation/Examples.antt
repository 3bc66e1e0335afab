-- ===== src/Speculation/Examples.antt =====
-- Tests of the speculations, and the theorems at concrete inputs: the map is a function.
use dtrace.Base.{
  ℕ, ◌<◌, ◌≡◌, refl, sym, ap, ◌∙◌, ◌↔◌, true, Option, none, some, arith, ◌==◌, if◌then◌else◌,
  ==_iff,
}
use dtrace.Speculation.Live.{IsSound, Steps-IsSound}
use dtrace.Speculation.Written.{Run, Closing, Steps-Closing, change, next, here, by_bump, by_assign}
use dtrace.Speculation.Reuse.{HasRoom, SomeFree, speculation-some_iff}
use dtrace.Speculation.Assign.{IsLawful, Speculated, speculation-Speculated}
use dtrace.Speculation.{
  Spec, MapOps, Maps, speculation, set_drainable, zero_spec, search_from, fault, add_written, tried,
  finish, no_spec, atomic_add32,
}

abbrev Table : Type 0
Table = ℕ → Option Spec

abbrev insert_at : Option Spec → Table → ℕ → Spec → Option Table
insert_at none m id v = some (λ k. if k == id then some v else m k)
insert_at (some old) m id v = none

abbrev table : MapOps Table
table = record {
  lookup_elem = λ m id. m id;
  insert_elem = λ m id v. insert_at (m id) m id v;
  store_elem = λ m id v k. if k == id then some v else m k;
  delete_elem = λ m id k. if k == id then none else m k;
}

insert_at-some :
    (o : Option Spec) (m m' : Table) (id : ℕ) (v : Spec)
    → insert_at o m id v ≡ some m'
    → (o ≡ none) × ((λ k. if k == id then some v else m k) ≡ m')
insert_at-some none m m' id v q = (refl, ap (λ o. elim o [ none ↦ m | some t ↦ t ]) q)
insert_at-some (some old) m m' id v q = cc

at_id : {A : Type 0} (id : ℕ) (x y : A) → (if id == id then x else y) ≡ x
at_id id x y = let e : (id == id) ≡ true = (==_iff id id).1 refl in rw e refl

table-IsLawful : IsLawful table
table-IsLawful = record {
  insert-fresh = λ m m' id v q. (insert_at-some (m id) m m' id v q).0;
  insert-same = λ m m' id v q.
      let p = insert_at-some (m id) m m' id v q in
      sym (ap (λ t. t id) p.1) ∙ at_id id (some v) (m id);
  insert-other = λ m m' id v k q e.
      let p = insert_at-some (m id) m m' id v q in sym (ap (λ t. t k) p.1) ∙ rw e refl;
  store-same = λ m id v old q. at_id id (some v) (m id);
  store-other = λ m id v k e. rw e refl;
  delete-same = λ m id. at_id id none (m id);
  delete-other = λ m id k e. rw e refl;
}

table-HasRoom : (nspec : ℕ) → HasRoom table nspec
table-HasRoom nspec m id within a b n = rw n (λ k. (if k == id then some zero_spec else m k), refl)

abbrev start : Maps Table
start = record { specs = λ k. none; state = λ k. some 7 }

abbrev run : Run Table
run = record { maps = start; in_flight = λ k. 0; stale = 0 }

-- Two ids, and then a drop that is counted as an id that is not available.
takes_two : (speculation table 2 (speculation table 2 (speculation table 2 start).1).1).0 ≡ 0
unfolding speculation search_from tried finish no_spec atomic_add32
takes_two = refl

counts_drop : (speculation table 0 start).1.state 5 ≡ some 8
unfolding speculation search_from tried finish no_spec atomic_add32
counts_drop = refl

-- An id above nspec that has no entry is a fault.
faults_above : set_drainable table 2 start.specs 3 ≡ fault
unfolding set_drainable
faults_above = refl

speculation-Speculated_example : Speculated table 2 start (speculation table 2 start)
speculation-Speculated_example = speculation-Speculated table table-IsLawful 2 start

-- Id 1 is draining with one call in flight.
abbrev closing_spec : Spec
closing_spec = record { written = 4; size = 0; draining = 1 }

abbrev closing_run : Run Table
closing_run = record {
  maps = record { specs = λ k. if k == 1 then some closing_spec else none; state = λ k. none };
  in_flight = λ k. if k == 1 then 1 else 0;
  stale = 0;
}

abbrev later_run : Run Table
later_run = record {
  maps = record { specs = add_written table closing_run.maps.specs 1; state = λ k. none };
  in_flight = change closing_run.in_flight 1 0;
  stale = 0;
}

Steps-Closing_example : Closing table 1 5 later_run
Steps-Closing_example =
    Steps-Closing table table-IsLawful 2 1 5 (next here (by_bump 1 (omega arith))) (refl, tt)
      (record { spec = closing_spec; entry = refl; closed = omega arith; sum = refl })

Steps-IsSound_example : IsSound table 2 1 (record run { maps = (speculation table 2 run.maps).1 })
Steps-IsSound_example =
    Steps-IsSound table table-IsLawful 2 1 {r = run} (λ id. refl) (next here by_assign)

speculation-some_iff_example :
    (0 < (speculation table 2 run.maps).0) ↔ SomeFree table 2 run.maps.specs
speculation-some_iff_example =
    speculation-some_iff table table-IsLawful 2 (table-HasRoom 2) {r = run} (λ id. refl) here
