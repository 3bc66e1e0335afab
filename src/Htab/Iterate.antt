-- ===== src/Htab/Iterate.antt =====
-- An iteration by dt_htab_next() over a table that does not change.
use dtrace.Base.{
  ℕ, zero, suc, ◌+◌, ◌-◌, ◌≡◌, refl, sym, ap, ◌∙◌, subst, ◌⊎◌, inl, inr, true, false, not, Option,
  none, some, List, [], ◌∷◌, ◌++◌, arith, if◌then◌else◌, length, length-append, get_or, total,
}
use dtrace.Htab.{
  Ops, Bucket, Htab, Iter, is_null, scan_buckets, scan_slots, advance, iter_step, htab_next,
}
use dtrace.Htab.Head.{IsLawful, GoodHead}
use dtrace.Htab.Chain.{InSlot, held}
use dtrace.Htab.Slots.{IsValid}

module _ {ℓ} {E : Type ℓ} where
  -- The pointers to the entries of a list, in order.
  unfoldable pub pointers : List E → List (List E)
  pointers [] = []
  pointers (x ∷ xs) = (x ∷ xs) ∷ pointers xs

  -- Those of the buckets of a slot, and of the slots from `idx` on, with `left` of them to go.
  unfoldable pub chain_walk : List (Bucket E) → List (List E)
  unfolding pointers
  chain_walk [] = []
  chain_walk (b ∷ c) = pointers b.head ++ chain_walk c

  unfoldable pub tab_walk : (left idx : ℕ) → List (List (Bucket E)) → List (List E)
  unfolding chain_walk
  tab_walk zero idx tab = []
  tab_walk (suc left) idx tab = chain_walk (get_or tab idx []) ++ tab_walk left (idx + 1) tab

  unfoldable pub all_pointers : Htab E → List (List E)
  unfolding tab_walk
  all_pointers h = tab_walk h.size 0 h.tab

module _ {ℓ} {E : Type ℓ} (ops : Ops E) where
  -- A caller that goes on until NULL, on fuel, with what the calls return. `none` is that the fuel
  -- ran out.
  unfoldable pub iterate : ℕ → Htab E → Option (Iter E) → Option (List (List E))
  iterate zero h it = none
  iterate (suc fuel) h it =
      let r = htab_next ops true h it in
      let rest = iterate fuel h r.1 in
      let longer : Option (List (List E)) = elim rest [ none ↦ none | some l ↦ some (r.0 ∷ l) ] in
      if is_null r.0 then some [] else longer

module _ {ℓ} {E : Type ℓ} (ops : Ops E) (law : IsLawful ops) where
  null-cases : (c : List (Bucket E)) → (c ≡ []) ⊎ (is_null c ≡ false)
  null-cases [] = inl refl
  null-cases (b ∷ c) = inr refl

  data Found (mask i : ℕ) (seq : List (List E)) : Option (List (Bucket E) × List E) → Type ℓ where
    nothing : seq ≡ [] → Found mask i seq none
    position :
        (b : Bucket E) (c : List (Bucket E)) (y : E) (ys : List E)
        → InSlot ops law mask i c
        → seq ≡ (y ∷ ys) ∷ (pointers ys ++ chain_walk c)
        → Found mask i seq (some (b ∷ c, y ∷ ys))

  scan_new :
      (mask i : ℕ) (c : List (Bucket E))
      → InSlot ops law mask i c
      → Found mask i (chain_walk c) (scan_buckets ops c [])
  unfolding scan_buckets chain_walk pointers
  scan_new mask i [] g = nothing refl
  scan_new mask i (b ∷ c) (g, at_i, rest) = go b.head g.head
    where
      go :
          (h : List E)
          → GoodHead ops law b.hval h
          → Found mask i
              (pointers h ++ chain_walk c)
              (if not (is_null h) then some (b ∷ c, h) else scan_buckets ops c [])
      go [] bad = absurd bad
      go (y ∷ ys) ok = position b c y ys rest refl

  scan_on :
      (mask i : ℕ) (b : Bucket E) (c : List (Bucket E)) (x : E) (xs : List E)
      → InSlot ops law mask i c
      → Found mask i (pointers xs ++ chain_walk c) (scan_buckets ops (b ∷ c) (x ∷ xs))
  unfolding scan_buckets pointers
  scan_on mask i b c x [] g = rw law.next-cons (scan_new mask i c g)
  scan_on mask i b c x (y ∷ ys) g = rw law.next-cons (position b c y ys g refl)

  -- Where an iteration over `h` stands, and the pointers that it has still to return.
  data Stands (h : Htab E) (seq : List (List E)) : Iter E → Type ℓ where
    finished :
        (idx : ℕ) (c : List (Bucket E)) (ent : List E)
        → seq ≡ []
        → Stands h seq (record { idx = idx; bucket = c; ent = ent; exhausted = true })
    stands :
        (idx left : ℕ) (b : Bucket E) (c : List (Bucket E)) (y : E) (ys : List E)
        → h.size ≡ idx + suc left
        → is_null (get_or h.tab idx []) ≡ false
        → InSlot ops law h.mask idx c
        → seq ≡ (y ∷ ys) ∷ ((pointers ys ++ chain_walk c) ++ tab_walk left (idx + 1) h.tab)
        → Stands h seq (record { idx = idx; bucket = b ∷ c; ent = y ∷ ys; exhausted = false })

  module _ (h : Htab E) (valid : IsValid ops law h) where
    -- A scan of a slot that is not empty, and of the slots behind it.
    scan_slot :
        (idx left : ℕ) (seq : List (List E)) (o : Option (List (Bucket E) × List E))
        → h.size ≡ idx + suc left
        → is_null (get_or h.tab idx []) ≡ false
        → Found h.mask idx seq o
        → Stands h (tab_walk left (idx + 1) h.tab) (scan_slots ops left (idx + 1) h.tab [] [])
        → Stands h (seq ++ tab_walk left (idx + 1) h.tab) (elim o [
          | some (bucket', ent') ↦ record {
            idx = idx;
            bucket = bucket';
            ent = ent';
            exhausted = false;
          }
          | none ↦ scan_slots ops left (idx + 1) h.tab [] []
        ])
    scan_slot idx left seq none size full (nothing e) rest = rw e rest
    scan_slot idx left seq (some p) size full (position b c y ys g e) rest =
        stands idx left b c y ys size full g (ap (λ s. s ++ tab_walk left (idx + 1) h.tab) e)

    scan_slots_new :
        (left idx : ℕ)
        → h.size ≡ idx + left
        → Stands h (tab_walk left idx h.tab) (scan_slots ops left idx h.tab [] [])
    unfolding scan_slots tab_walk chain_walk
    scan_slots_new zero idx size = finished idx [] [] refl
    scan_slots_new (suc left) idx size =
        let rest = scan_slots_new left (idx + 1) (omega arith) in
        elim (null-cases (get_or h.tab idx [])) [
          | inl empty ↦ rw empty rest
          | inr full ↦ rw full (
              scan_slot idx left _ _ size full (scan_new h.mask idx _ (valid.placed.slots idx))
                rest)
        ]

    advance-Stands :
        {i : Iter E} (x : List E) (seq : List (List E))
        → Stands h (x ∷ seq) i
        → (i.exhausted ≡ false) × (i.ent ≡ x) × (is_null x ≡ false) × Stands h seq (advance ops h i)
    unfolding advance scan_slots
    advance-Stands x seq (finished idx c ent e) = absurd (cc e)
    advance-Stands x seq (stands idx left b c y ys size full g e) =
        let l : h.size - idx ≡ suc left = omega arith in
        let head : y ∷ ys ≡ x = cc (e) in
        let tail : seq ≡ (pointers ys ++ chain_walk c) ++ tab_walk left (idx + 1) h.tab = cc (e) in
        let again = scan_slots_new left (idx + 1) (omega arith) in
        (
          refl,
          head,
          rw (← head) refl,
          rw (l, full, tail)
              (scan_slot idx left _ _ size full (scan_on h.mask idx b c y ys g) again),
        )

    Stands-nil : {i : Iter E} → Stands h [] i → i.exhausted ≡ true
    Stands-nil (finished idx c ent e) = refl
    Stands-nil (stands idx left b c y ys size full g e) = absurd (cc (e))

    htab_next_running :
        (i : Iter E) {x : List E}
        → i.exhausted ≡ false
        → i.ent ≡ x
        → htab_next ops true h (some i) ≡ (x, some (advance ops h i))
    unfolding htab_next iter_step
    htab_next_running i running here = rw running (ap (λ e. (e, some (advance ops h i))) here)

    iterate_next :
        (fuel : ℕ) (i : Iter E) {x : List E} {seq : List (List E)}
        → i.exhausted ≡ false
        → i.ent ≡ x
        → is_null x ≡ false
        → iterate ops fuel h (some (advance ops h i)) ≡ some seq
        → iterate ops (suc fuel) h (some i) ≡ some (x ∷ seq)
    unfolding iterate
    iterate_next fuel i {seq} running here full later =
        rw (htab_next_running i running here, full, later)
          (ap (λ (r : List E × Option (Iter E)). some (r.0 ∷ seq))
            (htab_next_running i running here))

    iterate-Stands :
        (seq : List (List E)) {i : Iter E}
        → Stands h seq i
        → iterate ops (suc (length seq)) h (some i) ≡ some seq
    unfolding iterate htab_next iter_step
    iterate-Stands [] s = rw (Stands-nil s) refl
    iterate-Stands (x ∷ seq) {i} s =
        let (running, here, full, s') = advance-Stands x seq s in
        iterate_next (suc (length seq)) i running here full (iterate-Stands seq s')

    iterate-tab_walk : iterate ops (suc (length (all_pointers h))) h none ≡ some (all_pointers h)
    unfolding iterate htab_next advance all_pointers
    iterate-tab_walk =
        let e : h.size - 0 ≡ h.size = omega arith in
        iterate-Stands (all_pointers h) (
          subst (λ n. Stands h (tab_walk n 0 h.tab) (scan_slots ops (h.size - 0) 0 h.tab [] [])) e
            (scan_slots_new (h.size - 0) 0 (omega arith)))

  length-pointers : (l : List E) → length (pointers l) ≡ length l
  unfolding pointers
  length-pointers [] = refl
  length-pointers (x ∷ xs) = ap suc (length-pointers xs)

  length-chain_walk :
      (mask i : ℕ) (c : List (Bucket E))
      → InSlot ops law mask i c
      → length (chain_walk c) ≡ held ops law c
  unfolding chain_walk held
  length-chain_walk mask i [] g = refl
  length-chain_walk mask i (b ∷ c) (g, at_i, rest) = omega (
    arith,
    length-append (pointers b.head) (chain_walk c),
    length-pointers b.head,
    g.counted,
    length-chain_walk mask i c rest,
  )

  tab_walk-cons :
      (left idx : ℕ) (c : List (Bucket E)) (tab : List (List (Bucket E)))
      → tab_walk left (suc idx) (c ∷ tab) ≡ tab_walk left idx tab
  unfolding tab_walk
  tab_walk-cons zero idx c tab = refl
  tab_walk-cons (suc left) idx c tab =
      let e : suc idx + 1 ≡ suc (idx + 1) = omega arith in
      rw (e, tab_walk-cons left (idx + 1) c tab) refl

  length-tab_walk :
      (mask : ℕ) (tab : List (List (Bucket E)))
      → ((i : ℕ) → length (chain_walk (get_or tab i [])) ≡ held ops law (get_or tab i []))
      → length (tab_walk (length tab) 0 tab) ≡ total (held ops law) tab
  unfolding tab_walk total
  length-tab_walk mask [] g = refl
  length-tab_walk mask (c ∷ tab) g = rw (tab_walk-cons (length tab) 0 c tab) (
      omega (
        arith,
        length-append (chain_walk c) (tab_walk (length tab) 0 tab),
        g 0,
        length-tab_walk mask tab (λ i. g (suc i)),
      ))

  -- An iteration by dt_htab_next() over a valid table that does not change returns a pointer to
  -- each entry of each bucket once, in the order of the slots, and then NULL: as many as the table
  -- counts.
  pub iterate-all_pointers :
      (h : Htab E)
      → IsValid ops law h
      → (iterate ops (h.nentries + 1) h none ≡ some (all_pointers h))
        × (length (all_pointers h) ≡ h.nentries)
  unfolding all_pointers
  iterate-all_pointers h valid =
      let counted : length (all_pointers h) ≡ h.nentries =
        rw valid.size (
          length-tab_walk h.mask h.tab
            (λ i. length-chain_walk h.mask i (get_or h.tab i []) (valid.placed.slots i)))
        ∙ sym valid.nentries in
      let fuel : h.nentries + 1 ≡ suc (length (all_pointers h)) = omega (arith, counted) in
      (rw fuel (iterate-tab_walk h valid), counted)
