-- ===== src/Htab/Examples.antt =====
-- A table of numbers that compare equal by their remainder modulo 100.
use dtrace.Base.{
  ℕ, ◌%◌, ◌≡◌, refl, Bool, true, false, none, some, List, [], ◌∷◌, arith, ◌==◌, if◌then◌else◌,
  length,
}
use dtrace.Htab.{Ops, Bucket, Htab, create, resize, lookup, insert, delete, htab_next}
use dtrace.Htab.Head.{IsLawful, contains, erase}
use dtrace.Htab.Slots.{IsValid}
use dtrace.Htab.Resize.{Keeps, resize-Keeps}
use dtrace.Htab.Insert.{Inserted, insert-Inserted}
use dtrace.Htab.Delete.{Deleted, delete-Deleted}
use dtrace.Htab.Iterate.{iterate, all_pointers, iterate-all_pointers}
use dtrace.Htab.Refine.{Runs, creates, inserts, Refines, Runs-Refines}

abbrev same_key : ℕ → ℕ → Bool
same_key a b = a % 100 == b % 100

abbrev key_cmp : List ℕ → ℕ → Bool
key_cmp [] e = false
key_cmp (x ∷ xs) e = same_key x e

abbrev key_next : List ℕ → List ℕ
key_next [] = []
key_next (x ∷ xs) = xs

abbrev key_ops : Ops ℕ
key_ops = record {
  hval = λ e. e % 100;
  cmp = key_cmp;
  add = λ h e. e ∷ h;
  del = erase ◌==◌;
  next = key_next;
}

key_same_refl : (a : ℕ) → same_key a a ≡ true
key_same_refl a = ground arith

key_same_symm : (a b : ℕ) → same_key a b ≡ same_key b a
key_same_symm a b = ground arith

key_hval-same : (a b : ℕ) → same_key a b ≡ true → a % 100 ≡ b % 100
key_hval-same a b e = ground arith

key_same_trans : (a b c : ℕ) → same_key a b ≡ true → same_key b c ≡ true → same_key a c ≡ true
key_same_trans a b c p q = ground arith

abbrev key_law : IsLawful key_ops
key_law = record {
  same = same_key;
  ident = ◌==◌;
  cmp-cons = λ x xs e. refl;
  same_refl = key_same_refl;
  same_symm = key_same_symm;
  same_trans = key_same_trans;
  hval-same = key_hval-same;
  add_lem = λ h e. refl;
  del_lem = λ h e m. refl;
  next-cons = λ x xs. refl;
}

abbrev bucket_5 : Bucket ℕ
bucket_5 = record { hval = 5; head = 105 ∷ 5 ∷ []; nentries = 2 }

abbrev sample : Htab ℕ
sample = record { tab = (bucket_5 ∷ []) ∷ []; size = 1; mask = 0; nbuckets = 1; nentries = 2 }

abbrev added_to : ℕ → (ℕ → List ℕ) → ℕ → List ℕ
added_to e m q = if same_key e q then e ∷ m q else m q

abbrev sample_model : ℕ → List ℕ
sample_model = added_to 105 (added_to 5 (λ q. []))

abbrev always : ℕ → Bool
always n = true

sample_run : Runs key_ops key_law sample sample_model
unfolding create insert
sample_run = inserts always true 105 (inserts always true 5 (creates refl) refl) refl

sample-IsValid : IsValid key_ops key_law sample
sample-IsValid = (Runs-Refines key_ops key_law sample_run).0

Runs-Refines_example : Refines key_ops key_law sample sample_model
Runs-Refines_example = Runs-Refines key_ops key_law sample_run

insert-Inserted_example :
    Inserted key_ops key_law always true sample 7 (insert key_ops always true sample 7)
insert-Inserted_example = insert-Inserted key_ops key_law always true sample 7 sample-IsValid

resize-Keeps_example :
    (h' : Htab ℕ) × (resize true sample ≡ some h') × (h'.size ≡ 2) × Keeps key_ops key_law sample h'
resize-Keeps_example = resize-Keeps key_ops key_law sample sample-IsValid

delete-Deleted_example : Deleted key_ops key_law sample 5 (delete key_ops sample 5)
delete-Deleted_example =
    delete-Deleted key_ops key_law sample 5 sample-IsValid (λ n. unfold lookup contains in refl)

iterate-all_pointers_example :
    (iterate key_ops 3 sample none ≡ some (all_pointers sample))
    × (length (all_pointers sample) ≡ 2)
iterate-all_pointers_example = iterate-all_pointers key_ops key_law sample sample-IsValid

iteration : iterate key_ops 3 sample none ≡ some ((105 ∷ 5 ∷ []) ∷ (5 ∷ []) ∷ [])
unfolding iterate htab_next
iteration = refl
