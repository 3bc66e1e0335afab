-- ===== src/Htab/Refine.antt =====
-- The table refines a function from an entry to the list of the entries equal to it.
use dtrace.Base.{
  ℕ, ◌≡◌, refl, ◌∙◌, subst, ◌≢◌, Bool, true, Option, none, some, List, [], ◌∷◌, arith,
  if◌then◌else◌, total,
}
use dtrace.Htab.{Ops, Htab, Status, done, enomem, enoent, create, lookup, find_head, insert, delete}
use dtrace.Htab.Head.{IsLawful, contains, erase}
use dtrace.Htab.Chain.{matches, held}
use dtrace.Htab.Slots.{IsValid, IsPlaced-replicate, view-replicate}
use dtrace.Htab.Insert.{Inserted, success, failure, insert-Inserted}
use dtrace.Htab.Delete.{Deleted, missing, deleted, delete-Deleted}

module _ {ℓ} {E : Type ℓ} (ops : Ops E) (law : IsLawful ops) where
  open law use {same, ident}

  -- What the calls of a client do to the function, whatever malloc and calloc return. A client may
  -- delete an entry if it is in the table, or if no entry is equal to it.
  pub data Runs : Htab E → (E → List E) → Type ℓ where
    creates : {h : Htab E} → create true true ≡ some h → Runs h (λ q. [])
    inserts :
        {h h' : Htab E} {m : E → List E} (got_tab : ℕ → Bool) (got : Bool) (e : E)
        → Runs h m
        → insert ops got_tab got h e ≡ some (done, h')
        → Runs h' (λ q. if same e q then e ∷ m q else m q)
    fails :
        {h h' : Htab E} {m : E → List E} (got_tab : ℕ → Bool) (got : Bool) (e : E)
        → Runs h m
        → insert ops got_tab got h e ≡ some (enomem, h')
        → Runs h' m
    deletes :
        {h h' : Htab E} {m : E → List E} (e : E)
        → Runs h m
        → (m e ≢ [] → contains ident (m e) e ≡ true)
        → delete ops h e ≡ (done, h')
        → Runs h' (λ q. if same e q then erase ident (m q) e else m q)
    misses :
        {h h' : Htab E} {m : E → List E} (e : E)
        → Runs h m
        → (m e ≢ [] → contains ident (m e) e ≡ true)
        → delete ops h e ≡ (enoent, h')
        → Runs h' m

  abbrev pub Refines : Htab E → (E → List E) → Type ℓ
  Refines h m = IsValid ops law h × ((q : E) → lookup ops h q ≡ m q)

  Starts : Option (Htab E) → Type ℓ
  Starts none = Unit
  Starts (some h) = Refines h (λ q. [])

  create-Starts : Starts (create true true)
  unfolding Starts create lookup find_head matches held total
  create-Starts = (
    record {
      size = refl;
      mask = refl;
      placed = IsPlaced-replicate ops law 0 1;
      nbuckets = refl;
      nentries = refl;
    },
    λ q. view-replicate ops law 0 1 q,
  )

  -- What a successful, or a failed, insertion leaves of the function.
  After : (E → List E) → E → Option (Status × Htab E) → Type ℓ
  After m e none = Unit
  After m e (some (done, h')) = Refines h' (λ q. if same e q then e ∷ m q else m q)
  After m e (some (enomem, h')) = Refines h' m
  After m e (some (enoent, h')) = Unit

  Inserted-After :
      {got_tab : ℕ → Bool} {got : Bool} {h : Htab E} {m : E → List E} {e : E}
      {o : Option (Status × Htab E)}
      → Refines h m
      → Inserted ops law got_tab got h e o
      → After m e o
  unfolding After
  Inserted-After r (success s) = (s.valid, λ q. ground (arith, s.finds q, r.1 q))
  Inserted-After r (failure k why) = (k.valid, λ q. k.finds q ∙ r.1 q)

  AfterDelete : (E → List E) → E → Status × Htab E → Type ℓ
  AfterDelete m e (done, h') = Refines h' (λ q. if same e q then erase ident (m q) e else m q)
  AfterDelete m e (enoent, h') = Refines h' m
  AfterDelete m e (enomem, h') = Unit

  Deleted-After :
      {h : Htab E} {m : E → List E} {e : E} {o : Status × Htab E}
      → Refines h m
      → Deleted ops law h e o
      → AfterDelete m e o
  unfolding AfterDelete
  Deleted-After r (missing none_there) = r
  Deleted-After r (deleted valid finds fewer buckets) = (valid, λ q. ground (arith, finds q, r.1 q))

  -- In every state that a client of the hash table reaches, whichever resizes and allocation
  -- failures there were, the table is valid and dt_htab_lookup() finds for each entry the list of
  -- equal entries that a plain function from entries to lists gives after the same insertions and
  -- deletions, where a deleted entry is in the table or none equal to it is.
  pub Runs-Refines : {h : Htab E} {m : E → List E} → Runs h m → Refines h m
  unfolding Starts After AfterDelete
  Runs-Refines (creates e) = subst Starts e create-Starts
  Runs-Refines (inserts {h} {m} got_tab got e run eq) =
      let r = Runs-Refines run in
      subst (After m e) eq (Inserted-After r (insert-Inserted ops law got_tab got h e r.0))
  Runs-Refines (fails {h} {m} got_tab got e run eq) =
      let r = Runs-Refines run in
      subst (After m e) eq (Inserted-After r (insert-Inserted ops law got_tab got h e r.0))
  Runs-Refines (deletes {h} {m} e run there eq) =
      let r = Runs-Refines run in
      subst (AfterDelete m e) eq
        (Deleted-After r (delete-Deleted ops law h e r.0 (rw (r.1 e) there)))
  Runs-Refines (misses {h} {m} e run there eq) =
      let r = Runs-Refines run in
      subst (AfterDelete m e) eq
        (Deleted-After r (delete-Deleted ops law h e r.0 (rw (r.1 e) there)))
