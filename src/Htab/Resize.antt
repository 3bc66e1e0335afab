-- ===== src/Htab/Resize.antt =====
-- resize() keeps every entry, every lookup and both counters, and doubles the slots.
use dtrace.Base.{
  ℕ, zero, suc, ◌+◌, ◌-◌, ◌*◌, ◌≡◌, refl, sym, ap, ◌∙◌, ◌≢◌, true, some, List, [], ◌∷◌, ◌++◌, arith,
  length, length-append, get_or, replicate, length-replicate, get_or-replicate, total,
  total-replicate,
}
use mathlib.Core.List.{flatten}
use dtrace.Htab.{Ops, Bucket, Htab, find_head, lookup, move_chain, move_slots, resize}
use dtrace.Htab.Head.{IsLawful}
use dtrace.Htab.Chain.{matches, held, matches-home, find_head-none}
use dtrace.Htab.Slots.{home, IsPlaced, IsValid, IsPlaced-replicate, view-replicate}
use dtrace.Htab.Move.{AllGood, AllGood-append, InSlot-AllGood, Moving, move_chain-Moved}

module _ {ℓ} {E : Type ℓ} where
  move_chain-append :
      (mask : ℕ) (c d : List (Bucket E)) (t : List (List (Bucket E)))
      → move_chain mask (c ++ d) t ≡ move_chain mask d (move_chain mask c t)
  unfolding move_chain
  move_chain-append mask [] d t = refl
  move_chain-append mask (b ∷ c) d t = move_chain-append mask c d _

  -- The two nested loops are one loop over all the buckets.
  move_slots-flatten :
      (mask : ℕ) (tab t : List (List (Bucket E)))
      → move_slots mask tab t ≡ move_chain mask (flatten tab) t
  unfolding move_slots flatten move_chain
  move_slots-flatten mask [] t = refl
  move_slots-flatten mask (c ∷ tab) t =
      move_slots-flatten mask tab (move_chain mask c t)
      ∙ sym (move_chain-append mask c (flatten tab) t)

  length-flatten : (tab : List (List (Bucket E))) → length (flatten tab) ≡ total length tab
  unfolding flatten total
  length-flatten [] = refl
  length-flatten (c ∷ tab) = omega (arith, length-append c (flatten tab), length-flatten tab)

module _ {ℓ} {E : Type ℓ} (ops : Ops E) (law : IsLawful ops) where
  matches-append :
      (q : E) (c d : List (Bucket E))
      → matches ops law q (c ++ d) ≡ matches ops law q c + matches ops law q d
  unfolding matches
  matches-append q [] d = omega arith
  matches-append q (b ∷ c) d = omega (arith, matches-append q c d)

  held-append : (c d : List (Bucket E)) → held ops law (c ++ d) ≡ held ops law c + held ops law d
  unfolding held
  held-append [] d = omega arith
  held-append (b ∷ c) d = omega (arith, held-append c d)

  held-flatten :
      (tab : List (List (Bucket E))) → held ops law (flatten tab) ≡ total (held ops law) tab
  unfolding flatten total held
  held-flatten [] = refl
  held-flatten (c ∷ tab) = omega (arith, held-append c (flatten tab), held-flatten tab)

  find_head-append :
      (q : E) (c d : List (Bucket E))
      → (matches ops law q c ≡ 0 → find_head ops (c ++ d) q ≡ find_head ops d q)
        × (matches ops law q d ≡ 0 → find_head ops (c ++ d) q ≡ find_head ops c q)
  unfolding matches find_head
  find_head-append q [] d = (λ z. refl, λ z. find_head-none ops law q d z)
  find_head-append q (b ∷ c) d =
      let (l, r) = find_head-append q c d in (λ z. ground (arith, l), λ z. ground (arith, r z))

  AllGood-flatten :
      (tab : List (List (Bucket E)))
      → ((j : ℕ) → AllGood ops law (get_or tab j []))
      → AllGood ops law (flatten tab)
  unfolding flatten
  AllGood-flatten [] g = tt
  AllGood-flatten (c ∷ tab) g =
      AllGood-append ops law c (flatten tab) (g 0) (AllGood-flatten tab (λ j. g (suc j)))

  matches-flatten :
      (q : E) (tab : List (List (Bucket E)))
      → ((i : ℕ) → matches ops law q (get_or tab i []) ≡ 0)
      → matches ops law q (flatten tab) ≡ 0
  unfolding flatten matches
  matches-flatten q [] h = refl
  matches-flatten q (c ∷ tab) h =
      omega (arith, matches-append q c (flatten tab), h 0, matches-flatten q tab (λ i. h (suc i)))

  -- Where only slot `j` can hold a bucket for `q`, all the buckets give what that slot gives.
  flatten_only :
      (q : E) (tab : List (List (Bucket E))) (j : ℕ)
      → ((i : ℕ) → i ≢ j → matches ops law q (get_or tab i []) ≡ 0)
      → (find_head ops (flatten tab) q ≡ find_head ops (get_or tab j []) q)
        × (matches ops law q (flatten tab) ≡ matches ops law q (get_or tab j []))
  unfolding flatten
  flatten_only q [] j h = (refl, refl)
  flatten_only q (c ∷ tab) zero h =
      let rest = matches-flatten q tab (λ i. h (suc i) (omega arith)) in
      (
        (find_head-append q c (flatten tab)).1 rest,
        omega (arith, matches-append q c (flatten tab), rest),
      )
  flatten_only q (c ∷ tab) (suc j) h =
      let (found, counted) = flatten_only q tab j (λ i n. h (suc i) (omega arith)) in
      let none_here = h 0 (omega arith) in
      (
        (find_head-append q c (flatten tab)).0 none_here ∙ found,
        omega (arith, matches-append q c (flatten tab), counted, none_here),
      )

  -- `h'` holds what `h` holds.
  pub record Keeps (h h' : Htab E) : Type ℓ where
    pub valid : IsValid ops law h'
    pub finds : (q : E) → lookup ops h' q ≡ lookup ops h q
    pub nbuckets : h'.nbuckets ≡ h.nbuckets
    pub nentries : h'.nentries ≡ h.nentries

  elsewhere :
      (mask : ℕ) (tab : List (List (Bucket E))) (q : E)
      → IsPlaced ops law mask tab
      → (i : ℕ) → i ≢ home ops law mask q
      → matches ops law q (get_or tab i []) ≡ 0
  elsewhere mask tab q p i away =
      ground (arith, matches-home ops law mask i q (get_or tab i []) (p.slots i))

  -- All the buckets of a valid table can move into an empty one.
  start :
      (h : Htab E) (mask : ℕ)
      → IsValid ops law h
      → Moving ops law mask (replicate (mask + 1) []) (flatten h.tab)
  unfolding matches
  start h mask v = record {
    size = length-replicate (mask + 1) [];
    slots = (IsPlaced-replicate ops law mask (mask + 1)).slots;
    good = AllGood-flatten h.tab (λ j. InSlot-AllGood ops law h.mask j _ (v.placed.slots j));
    once = λ q. rw (get_or-replicate {A = List (Bucket E)} (mask + 1) (home ops law mask q) []) (
        omega (
          arith,
          (flatten_only q h.tab (home ops law h.mask q) (elsewhere h.mask h.tab q v.placed)).1,
          v.placed.once (home ops law h.mask q) q,
        ));
  }

  -- Where its calloc succeeds, resize() doubles the slots of a valid table, leaves it valid, and
  -- keeps both counters and what every lookup finds.
  pub resize-Keeps :
      (h : Htab E)
      → IsValid ops law h
      → (h' : Htab E) × (resize true h ≡ some h') × (h'.size ≡ h.size * 2) × Keeps h h'
  unfolding resize lookup held
  resize-Keeps h v =
      let mask = h.size * 2 - 1 in
      let wide : h.size * 2 ≡ mask + 1 = omega (arith, v.mask) in
      let m =
        move_chain-Moved ops law mask (flatten h.tab) (replicate (mask + 1) []) (start h mask v) in
      (
        record h {
          tab = move_chain mask (flatten h.tab) (replicate (mask + 1) []);
          size = h.size * 2;
          mask = mask;
        },
        ap (λ t. some (record h { tab = t; size = h.size * 2; mask = mask }))
            (move_slots-flatten mask h.tab (replicate (h.size * 2) [])
              ∙ ap (λ n. move_chain mask (flatten h.tab) (replicate n [])) wide),
        refl,
        record {
          valid = record {
            size = omega (arith, m.size);
            mask = wide;
            placed = m.placed;
            nbuckets = omega (
              arith,
              v.nbuckets,
              m.buckets,
              length-flatten h.tab,
              total-replicate {A = List (Bucket E)} length (mask + 1) [] refl,
            );
            nentries = omega (
              arith,
              v.nentries,
              m.entries,
              held-flatten h.tab,
              total-replicate (held ops law) (mask + 1) [] refl,
            );
          };
          finds = λ q.
              m.views q
              ∙ rw (view-replicate ops law mask (mask + 1) q) (
                  (flatten_only q h.tab (home ops law h.mask q)
                    (elsewhere h.mask h.tab q v.placed)).0);
          nbuckets = refl;
          nentries = refl;
        },
      )
