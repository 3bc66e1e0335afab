-- ===== src/Htab/Removal.antt =====
-- What the loop of dt_htab_delete() leaves of a slot.
use dtrace.Base.{
  ℕ, ◌+◌, ◌-◌, ◌≤◌, ◌<◌, ◌≡◌, refl, sym, ap, ◌∙◌, inl, inr, Bool, true, false, Option, none, some,
  List, [], ◌∷◌, arith, if◌then◌else◌, Bool-cases, length,
}
use dtrace.Htab.{Ops, Bucket, is_null, find_head, del_from}
use dtrace.Htab.Head.{
  IsLawful, contains, erase, length-erase, GoodHead-erase, cmp_head-same, cmp_head_congr,
}
use dtrace.Htab.Chain.{InSlot, matches, held, find_head_congr, find_head-none}

module _ {ℓ} {E : Type ℓ} (ops : Ops E) (law : IsLawful ops) where
  open law use {same, ident, del_lem, same_symm}

  abbrev pub freed_count : Bool → ℕ
  freed_count true = 1
  freed_count false = 0

  -- What deleting `e` from its bucket leaves, and whether the bucket was unlinked.
  pub record RemovedFrom (mask i : ℕ) (c : List (Bucket E)) (e : E) (freed : Bool)
      (c' : List (Bucket E)) : Type ℓ where
    pub slot : InSlot ops law mask i c'
    pub present : 0 < matches ops law e c
    pub matches_less : (q : E) → matches ops law q c' ≤ matches ops law q c
    pub length_less : length c' + freed_count freed ≡ length c
    pub held_less : held ops law c' + 1 ≡ held ops law c
    pub finds :
        (q : E)
        → find_head ops c' q
          ≡ (if same e q then erase ident (find_head ops c q) e else find_head ops c q)

  pub data RemoveResult (mask i : ℕ) (c : List (Bucket E)) (e : E)
      : Option (Bool × List (Bucket E)) → Type ℓ where
    absent : matches ops law e c ≡ 0 → RemoveResult mask i c e none
    removed :
        {freed : Bool} {c' : List (Bucket E)}
        → RemovedFrom mask i c e freed c'
        → RemoveResult mask i c e (some (freed, c'))

  eq_nil_of_null : (xs : List E) → is_null xs ≡ true → xs ≡ []
  eq_nil_of_null [] e = refl
  eq_nil_of_null (x ∷ xs) e = absurd (cc e)

  module _ (mask i : ℕ) (b : Bucket E) (c : List (Bucket E)) (e : E)
      (g : InSlot ops law mask i (b ∷ c)) where
    unlink_here :
        ops.cmp b.head e ≡ true
        → contains ident b.head e ≡ true
        → matches ops law e (b ∷ c) ≤ 1
        → is_null (erase ident b.head e) ≡ true
        → RemovedFrom mask i (b ∷ c) e true c
    unfolding matches held find_head
    unlink_here hit there once null =
        let empty : erase ident b.head e ≡ [] = eq_nil_of_null _ null in
        let nothing : matches ops law e c ≡ 0 = omega (arith, rw hit at once) in
        record {
          slot = g.2;
          present = rw hit (omega arith);
          matches_less = λ q. omega arith;
          length_less = omega arith;
          held_less =
              omega (arith, g.0.counted, length-erase ops law b.head e there, ap length empty);
          finds =
              λ q. rw (cmp_head-same ops law b.head b.hval e q g.0.head hit) (gone empty nothing q);
        }
      where
        gone :
            erase ident b.head e ≡ []
            → matches ops law e c ≡ 0
            → (q : E)
            → find_head ops c q ≡ (
                if same e q
                then erase ident (if same e q then b.head else find_head ops c q) e
                else if same e q
                then b.head
                else find_head ops c q)
        gone empty nothing q = elim (Bool-cases (same e q)) [
          | inr other ↦ rw other refl
          | inl eq ↦ rw eq (
              sym (find_head_congr ops law mask i e q eq c g.2)
              ∙ find_head-none ops law e c nothing
              ∙ sym empty)
        ]

    shrink_here :
        ops.cmp b.head e ≡ true
        → contains ident b.head e ≡ true
        → is_null (erase ident b.head e) ≡ false
        → RemovedFrom mask i
            (b ∷ c)
            e
            false
            (record b { head = erase ident b.head e; nentries = b.nentries - 1 } ∷ c)
    unfolding matches held find_head
    shrink_here hit there kept =
        let (good, cmp_same) = GoodHead-erase ops law b.head b.hval e g.0.head kept in
        let shorter = length-erase ops law b.head e there in
        record {
          slot = (record { head = good; counted = omega (arith, g.0.counted) }, g.1, g.2);
          present = rw hit (omega arith);
          matches_less = λ q. rw cmp_same (omega arith);
          length_less = omega arith;
          held_less = omega (arith, g.0.counted);
          finds = λ q.
              rw (cmp_same, cmp_head-same ops law b.head b.hval e q g.0.head hit) (ground arith);
        }

    keep_there :
        {freed : Bool} {c' : List (Bucket E)}
        → ops.cmp b.head e ≡ false
        → RemovedFrom mask i c e freed c'
        → RemovedFrom mask i (b ∷ c) e freed (b ∷ c')
    unfolding matches held find_head
    keep_there miss t = record {
      slot = (g.0, g.1, t.slot);
      present = omega (arith, t.present);
      matches_less = λ q. omega (arith, t.matches_less q);
      length_less = omega (arith, t.length_less);
      held_less = omega (arith, t.held_less);
      finds = λ q. ground (arith, t.finds q, cmp_head_congr ops law b.head b.hval e q g.0.head);
    }

  pub del_from-RemoveResult :
      (mask i : ℕ) (c : List (Bucket E)) (e : E)
      → InSlot ops law mask i c
      → matches ops law e c ≤ 1
      → (0 < matches ops law e c → contains ident (find_head ops c e) e ≡ true)
      → RemoveResult mask i c e (del_from ops c e)
  unfolding del_from matches find_head
  del_from-RemoveResult mask i [] e g once there = absent refl
  del_from-RemoveResult mask i (b ∷ c) e g once there = elim (Bool-cases (ops.cmp b.head e)) [
    | inl hit ↦
        let within : contains ident b.head e ≡ true = ground (arith, there) in
        elim (Bool-cases (is_null (erase ident b.head e))) [
          | inl null ↦
              rw (hit, del_lem b.head e within, null)
                (removed (unlink_here mask i b c e g hit within once null))
          | inr kept ↦
              rw (hit, del_lem b.head e within, kept)
                (removed (shrink_here mask i b c e g hit within kept))
        ]
    | inr miss ↦
        let rest =
          del_from-RemoveResult mask i c e g.2 (omega (arith, rw miss at once))
            (λ p. ground (arith, there)) in
        rw miss (extend (del_from ops c e) miss rest)
  ]
    where
      extend :
          (o : Option (Bool × List (Bucket E)))
          → ops.cmp b.head e ≡ false
          → RemoveResult mask i c e o
          → RemoveResult mask i
              (b ∷ c)
              e
              (elim o [ none ↦ none | some (freed, c') ↦ some (freed, b ∷ c') ])
      extend none miss (absent z) = absent (rw miss (omega arith))
      extend (some p) miss (removed t) = removed (keep_there mask i b c e g miss t)
