-- ===== src/Htab/Insert.antt =====
-- dt_htab_insert() puts an entry in front of those that compare equal to it.
use dtrace.Base.{
  ℕ, zero, suc, ◌+◌, ◌*◌, ◌/◌, ◌≤◌, ◌<◌, ◌≡◌, refl, sym, ◌∙◌, ◌⊎◌, inl, inr, Bool, false, not,
  Option, none, some, List, [], ◌∷◌, arith, ltb, if◌then◌else◌, Bool-cases, ltb→lt, length, set,
  length-set, get_or, total-set,
}
use dtrace.Htab.{
  Ops, Bucket, Htab, Status, done, enomem, find_head, lookup, resize, add_to, new_bucket,
  insert_round, insert_retry, insert,
}
use dtrace.Htab.Head.{IsLawful}
use dtrace.Htab.Chain.{
  InSlot, matches, held, AddedTo, AddResult, absent, added, add_to-AddResult, find_head-new_bucket,
  new_bucket-InSlot, matches-new_bucket, held-new_bucket,
}
use dtrace.Htab.Resize.{Keeps, resize-Keeps}
use dtrace.Htab.Slots.{home, IsValid, home-lt, IsPlaced-set, view-set}

module _ {ℓ} {E : Type ℓ} (ops : Ops E) (law : IsLawful ops) where
  open law use {same}

  -- `h'` is `h` with `e` added.
  pub record Inserts (h : Htab E) (e : E) (h' : Htab E) : Type ℓ where
    pub valid : IsValid ops law h'
    pub finds :
        (q : E) → lookup ops h' q ≡ (if same e q then e ∷ lookup ops h q else lookup ops h q)
    pub more : h'.nentries ≡ h.nentries + 1

  module _ (h : Htab E) (e : E) (valid : IsValid ops law h) where
    inside : home ops law h.mask e < length h.tab
    inside = home-lt ops law h.mask e (length h.tab) (omega (arith, valid.size, valid.mask))

    slot_good :
        InSlot ops law h.mask (home ops law h.mask e) (get_or h.tab (home ops law h.mask e) [])
    slot_good = valid.placed.slots (home ops law h.mask e)

    -- Whatever becomes of the home slot, if it holds one entry more, found by those equal to `e`.
    write_slot :
        (c : List (Bucket E)) (n : ℕ)
        → InSlot ops law h.mask (home ops law h.mask e) c
        → ((q : E) → matches ops law q c ≤ 1)
        → length c + h.nbuckets ≡ n + length (get_or h.tab (home ops law h.mask e) [])
        → held ops law c ≡ held ops law (get_or h.tab (home ops law h.mask e) []) + 1
        → ((q : E)
            → find_head ops c q ≡ (
                if same e q
                then e ∷ find_head ops (get_or h.tab (home ops law h.mask e) []) q
                else find_head ops (get_or h.tab (home ops law h.mask e) []) q))
        → Inserts h e (record h {
          tab = set h.tab (home ops law h.mask e) c;
          nbuckets = n;
          nentries = h.nentries + 1;
        })
    unfolding lookup
    write_slot c n good few buckets entries found =
        let idx = home ops law h.mask e in
        record {
          valid = record {
            size = valid.size ∙ sym (length-set h.tab idx c);
            mask = valid.mask;
            placed = IsPlaced-set ops law h.mask h.tab valid.placed idx inside c good few;
            nbuckets = omega (arith, valid.nbuckets, total-set length h.tab idx c [] inside);
            nentries =
                omega (arith, valid.nentries, total-set (held ops law) h.tab idx c [] inside);
          };
          finds = view-set ops law h.mask h.tab valid.placed idx inside e (λ l. e ∷ l) c refl found;
          more = refl;
        }

    add_old :
        (c : List (Bucket E))
        → AddedTo ops law h.mask
            (home ops law h.mask e)
            (get_or h.tab (home ops law h.mask e) [])
            e
            c
        → Inserts h e
            (record h { tab = set h.tab (home ops law h.mask e) c; nentries = h.nentries + 1 })
    add_old c t =
        write_slot c h.nbuckets t.slot
          (λ q. omega (arith, t.matches_kept q, valid.placed.once (home ops law h.mask e) q))
          (omega (arith, t.length_kept)) t.held_more t.finds

    add_new :
        matches ops law e (get_or h.tab (home ops law h.mask e) []) ≡ 0
        → Inserts h e (record h {
          tab =
              set h.tab
                (home ops law h.mask e)
                (new_bucket ops e ∷ get_or h.tab (home ops law h.mask e) []);
          nbuckets = h.nbuckets + 1;
          nentries = h.nentries + 1;
        })
    add_new z =
        let idx = home ops law h.mask e in
        let old = get_or h.tab idx [] in
        write_slot (new_bucket ops e ∷ old) (h.nbuckets + 1)
          (new_bucket-InSlot ops law h.mask e old slot_good)
          (λ q. matches-new_bucket ops law h.mask idx e q old slot_good z (valid.placed.once idx q))
          (omega arith) (held-new_bucket ops law e old)
          (λ q. find_head-new_bucket ops law h.mask idx e q old slot_good z)

  -- A round on a valid table ends with the entry added, or with the retry where the table is full,
  -- or with an allocation failure.
  data Round (got : Bool) (retry : Option (Status × Htab E)) (h : Htab E) (e : E)
      : Option (Status × Htab E) → Type ℓ where
    inserts : {h' : Htab E} → Inserts h e h' → Round got retry h e (some (done, h'))
    retries : h.size < h.nbuckets / 2 → Round got retry h e retry
    no_bucket : got ≡ false → Round got retry h e (some (enomem, h))

  insert_round-Round :
      (got : Bool) (retry : Option (Status × Htab E)) (h : Htab E) (e : E)
      → IsValid ops law h
      → Round got retry h e (insert_round ops got retry h e)
  unfolding insert_round
  insert_round-Round got retry h e valid =
      go (add_to ops (get_or h.tab (home ops law h.mask e) []) e) (
        add_to-AddResult ops law h.mask (home ops law h.mask e)
          (get_or h.tab (home ops law h.mask e) []) e (slot_good h e valid))
    where
      go :
          (o : Option (List (Bucket E)))
          → AddResult ops law h.mask
              (home ops law h.mask e)
              (get_or h.tab (home ops law h.mask e) [])
              e
              o
          → Round got retry h e (elim o [
            | some chain' ↦ some (
              done,
              record h {
                tab = set h.tab (home ops law h.mask e) chain';
                nentries = h.nentries + 1;
              },
            )
            | none ↦
                if ltb h.size (h.nbuckets / 2)
                then retry
                else if not got
                then some (enomem, h)
                else some (
                  done,
                  record h {
                    tab =
                        set h.tab
                          (home ops law h.mask e)
                          (new_bucket ops e ∷ get_or h.tab (home ops law h.mask e) []);
                    nbuckets = h.nbuckets + 1;
                    nentries = h.nentries + 1;
                  },
                )
          ])
      go (some c) (added t) = inserts (add_old h e valid c t)
      go none (absent z) = elim (Bool-cases (ltb h.size (h.nbuckets / 2))) [
        | inl full ↦ rw full (retries (ltb→lt h.size (h.nbuckets / 2) full))
        | inr room ↦ elim (Bool-cases got) [
          | inl yes' ↦ rw (room, yes') (inserts (add_new h e valid z))
          | inr no' ↦ rw (room, no') (no_bucket refl)
        ]
      ]

  Keeps-Inserts : {h h₁ h₂ : Htab E} (e : E) → Keeps ops law h h₁ → Inserts h₁ e h₂ → Inserts h e h₂
  Keeps-Inserts e k s = record {
    valid = s.valid;
    finds = λ q. ground (arith, s.finds q, k.finds q);
    more = omega (arith, s.more, k.nentries);
  }

  Keeps-trans : {h h₁ h₂ : Htab E} → Keeps ops law h h₁ → Keeps ops law h₁ h₂ → Keeps ops law h h₂
  Keeps-trans k l = record {
    valid = l.valid;
    finds = λ q. l.finds q ∙ k.finds q;
    nbuckets = l.nbuckets ∙ k.nbuckets;
    nentries = l.nentries ∙ k.nentries;
  }

  -- The two ways in which an insertion ends.
  pub data Inserted (got_tab : ℕ → Bool) (got : Bool) (h : Htab E) (e : E)
      : Option (Status × Htab E) → Type ℓ where
    success : {h' : Htab E} → Inserts h e h' → Inserted got_tab got h e (some (done, h'))
    failure :
        {h' : Htab E}
        → Keeps ops law h h'
        → (got ≡ false) ⊎ ((n : ℕ) × (got_tab n ≡ false))
        → Inserted got_tab got h e (some (enomem, h'))

  Keeps-refl : {h : Htab E} → IsValid ops law h → Keeps ops law h h
  Keeps-refl valid = record { valid = valid; finds = λ q. refl; nbuckets = refl; nentries = refl }

  Keeps-Inserted :
      {got_tab : ℕ → Bool} {got : Bool} {h h₁ : Htab E} {e : E} {o : Option (Status × Htab E)}
      → Keeps ops law h h₁
      → Inserted got_tab got h₁ e o
      → Inserted got_tab got h e o
  Keeps-Inserted {e} k (success s) = success (Keeps-Inserts e k s)
  Keeps-Inserted k (failure l why) = failure (Keeps-trans k l) why

  Round-Inserted :
      {got_tab : ℕ → Bool} {got : Bool} {retry : Option (Status × Htab E)} {h : Htab E} {e : E}
      {o : Option (Status × Htab E)}
      → IsValid ops law h
      → (h.size < h.nbuckets / 2 → Inserted got_tab got h e retry)
      → Round got retry h e o
      → Inserted got_tab got h e o
  Round-Inserted valid again (inserts s) = success s
  Round-Inserted valid again (retries full) = again full
  Round-Inserted valid again (no_bucket none_left) = failure (Keeps-refl valid) (inl none_left)

  resize-false : (h : Htab E) → resize false h ≡ none
  unfolding resize
  resize-false h = refl

  -- The retry: a failed calloc ends it, and else the doubled table goes through a further round.
  retry-Inserted :
      (got_tab : ℕ → Bool) (got : Bool) (h : Htab E) (e : E)
      (again : Htab E → Option (Status × Htab E))
      → IsValid ops law h
      → ((h' : Htab E)
          → Keeps ops law h h'
          → h'.size ≡ h.size * 2
          → Inserted got_tab got h' e (again h'))
      → Inserted got_tab got h e
          (elim (resize (got_tab (h.size * 2)) h) [ none ↦ some (enomem, h) | some h' ↦ again h' ])
  retry-Inserted got_tab got h e again valid next = elim (Bool-cases (got_tab (h.size * 2))) [
    | inr fails ↦ rw (fails, resize-false h) (failure (Keeps-refl valid) (inr (h.size * 2, fails)))
    | inl works ↦
        let (h', run, doubled, k) = resize-Keeps ops law h valid in
        rw (works, run) (Keeps-Inserted k (next h' k doubled))
  ]

  insert_retry-Inserted :
      (fuel : ℕ) (got_tab : ℕ → Bool) (got : Bool) (h : Htab E) (e : E)
      → IsValid ops law h
      → h.nbuckets / 2 < h.size + fuel
      → 0 < fuel
      → Inserted got_tab got h e (insert_retry ops fuel got_tab got h e)
  unfolding insert_retry
  insert_retry-Inserted zero got_tab got h e valid enough pos = absurd (omega arith)
  insert_retry-Inserted (suc fuel) got_tab got h e valid enough pos =
      Round-Inserted valid
        (λ full.
          retry-Inserted got_tab got h e (λ h'. insert_retry ops fuel got_tab got h' e) valid
            (λ h' k doubled.
              insert_retry-Inserted fuel got_tab got h' e k.valid
                (omega (arith, k.nbuckets, valid.mask)) (omega arith)))
        (insert_round-Round got _ h e valid)

  -- dt_htab_insert() on a valid table never runs out of rounds; it returns 0 with the entry in
  -- front of those equal to it, every other lookup as before, the entries counted and the table
  -- valid, or -ENOMEM with every lookup and both counters as before, and then the malloc of a
  -- bucket or the calloc of some table size fails.
  pub insert-Inserted :
      (got_tab : ℕ → Bool) (got : Bool) (h : Htab E) (e : E)
      → IsValid ops law h
      → Inserted got_tab got h e (insert ops got_tab got h e)
  unfolding insert
  insert-Inserted got_tab got h e valid =
      insert_retry-Inserted (h.nbuckets + 1) got_tab got h e valid (omega (arith, valid.mask))
        (omega arith)
