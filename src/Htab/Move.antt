-- ===== src/Htab/Move.antt =====
-- The loops of resize() that move buckets, one by one, into the new table.
use dtrace.Base.{
  ℕ, ◌+◌, ◌≤◌, ◌<◌, ◌≡◌, refl, sym, ap, ◌∙◌, subst, inl, inr, true, List, [], ◌∷◌, ◌++◌, arith,
  ◌==◌, if◌then◌else◌, Bool-cases, ==_iff, length, length-set, get_or, get_or-set, total, total-set,
}
use Prim.Native.Nat.{bit_and}
use dtrace.Base.Bits.{bit_and-le}
use dtrace.Htab.{Ops, Bucket, find_head, move_bucket, move_chain}
use dtrace.Htab.Head.{IsLawful, GoodHead, cmp_head-hval}
use dtrace.Htab.Chain.{IsGood, InSlot, matches, held, matches-home, find_head-none}
use dtrace.Htab.Slots.{home, IsPlaced, view}

module _ {ℓ} {E : Type ℓ} (ops : Ops E) (law : IsLawful ops) where
  abbrev pub AllGood : List (Bucket E) → Type 0
  AllGood [] = Unit
  AllGood (b ∷ c) = IsGood ops law b × AllGood c

  pub AllGood-append : (c d : List (Bucket E)) → AllGood c → AllGood d → AllGood (c ++ d)
  AllGood-append [] d g h = h
  AllGood-append (b ∷ c) d (gb, g) h = (gb, AllGood-append c d g h)

  pub InSlot-AllGood : (mask i : ℕ) (c : List (Bucket E)) → InSlot ops law mask i c → AllGood c
  InSlot-AllGood mask i [] g = tt
  InSlot-AllGood mask i (b ∷ c) (g, at_i, rest) = (g, InSlot-AllGood mask i c rest)

  -- The first of two lists that is not empty.
  abbrev pub or_list : List E → List E → List E
  or_list [] b = b
  or_list (x ∷ xs) b = x ∷ xs

  -- Buckets still to move into a table, of which none stands there already.
  pub record Moving (mask : ℕ) (t : List (List (Bucket E))) (todo : List (Bucket E)) : Type ℓ where
    pub size : length t ≡ mask + 1
    pub slots : (i : ℕ) → InSlot ops law mask i (get_or t i [])
    pub good : AllGood todo
    pub once :
        (q : E) → matches ops law q (get_or t (home ops law mask q) []) + matches ops law q todo ≤ 1

  or_list-good : (b : Bucket E) (r : List E) → IsGood ops law b → or_list b.head r ≡ b.head
  or_list-good b r g = go b.head g.head
    where
      go : (h : List E) → GoodHead ops law b.hval h → or_list h r ≡ h
      go [] bad = absurd bad
      go (x ∷ xs) ok = refl

  module _ (mask : ℕ) (b : Bucket E) (t : List (List (Bucket E))) (todo : List (Bucket E))
      (m : Moving mask t (b ∷ todo)) where
    inside : bit_and b.hval mask < length t
    inside = omega (arith, m.size, bit_and-le b.hval mask)

    at_home : (q : E) → ops.cmp b.head q ≡ true → bit_and b.hval mask ≡ home ops law mask q
    at_home q e =
        ap (λ (k : ℕ). bit_and k mask) (cmp_head-hval ops law b.head b.hval q m.good.0.head e)

    step : Moving mask (move_bucket mask b t) todo
    unfolding move_bucket matches
    step = record {
      size = length-set t _ _ ∙ m.size;
      slots = λ i.
          rw
            (get_or-set t (bit_and b.hval mask) i (b ∷ get_or t (bit_and b.hval mask) []) [] inside)
            (pick i);
      good = m.good.1;
      once = λ q.
          rw
            (get_or-set t (bit_and b.hval mask) (home ops law mask q)
              (b ∷ get_or t (bit_and b.hval mask) []) [] inside)
            (ground (arith, m.once q));
    }
      where
        pick :
            (i : ℕ)
            → InSlot ops law mask i (
                if bit_and b.hval mask == i
                then b ∷ get_or t (bit_and b.hval mask) []
                else get_or t i [])
        pick i = elim (Bool-cases (bit_and b.hval mask == i)) [
          | inr e ↦ rw e (m.slots i)
          | inl e ↦ rw e (
              let same : bit_and b.hval mask ≡ i = (==_iff (bit_and b.hval mask) i).0 e in
              (
                m.good.0,
                same,
                subst (λ k. InSlot ops law mask k (get_or t (bit_and b.hval mask) [])) same
                    (m.slots (bit_and b.hval mask)),
              ))
        ]

    step-view :
        (q : E)
        → or_list (view ops law mask (move_bucket mask b t) q) (find_head ops todo q)
          ≡ or_list (view ops law mask t q) (find_head ops (b ∷ todo) q)
    unfolding move_bucket matches find_head
    step-view q =
        let idx = bit_and b.hval mask in
        let old = get_or t idx [] in
        rw (get_or-set t idx (home ops law mask q) (b ∷ old) [] inside)
          (elim (Bool-cases (ops.cmp b.head q)) [
            | inl hit ↦
                let e = (==_iff idx (home ops law mask q)).1 (at_home q hit) in
                let nothing : view ops law mask t q ≡ [] =
                  find_head-none ops law q (get_or t (home ops law mask q) [])
                    (ground (arith, m.once q)) in
                rw (e, hit, nothing) (or_list-good b (find_head ops todo q) m.good.0)
            | inr miss ↦ rw miss (elim (Bool-cases (idx == home ops law mask q)) [
              | inr away ↦ rw away refl
              | inl here ↦ rw (here, miss, (==_iff idx (home ops law mask q)).0 here) refl
            ])
          ])

    step-total :
        (f : List (Bucket E) → ℕ)
        → ((c : List (Bucket E)) → f (b ∷ c) ≡ f (b ∷ []) + f c)
        → total f (move_bucket mask b t) ≡ total f t + f (b ∷ [])
    unfolding move_bucket
    step-total f additive =
        let idx = bit_and b.hval mask in
        omega (arith, total-set f t idx (b ∷ get_or t idx []) [] inside, additive (get_or t idx []))

  -- What moving all the buckets of `todo` leaves.
  pub record Moved (mask : ℕ) (t : List (List (Bucket E))) (todo : List (Bucket E))
      (t' : List (List (Bucket E))) : Type ℓ where
    pub size : length t' ≡ mask + 1
    pub placed : IsPlaced ops law mask t'
    pub views :
        (q : E) → view ops law mask t' q ≡ or_list (view ops law mask t q) (find_head ops todo q)
    pub buckets : total length t' ≡ total length t + length todo
    pub entries : total (held ops law) t' ≡ total (held ops law) t + held ops law todo

  Moving-IsPlaced :
      (mask : ℕ) (t : List (List (Bucket E))) → Moving mask t [] → IsPlaced ops law mask t
  unfolding matches
  Moving-IsPlaced mask t m = record {
    slots = m.slots;
    once =
        λ i q. ground (arith, m.once q, matches-home ops law mask i q (get_or t i []) (m.slots i));
  }

  or_list-nil : (a : List E) → or_list a [] ≡ a
  or_list-nil [] = refl
  or_list-nil (x ∷ xs) = refl

  pub move_chain-Moved :
      (mask : ℕ) (todo : List (Bucket E)) (t : List (List (Bucket E)))
      → Moving mask t todo
      → Moved mask t todo (move_chain mask todo t)
  unfolding move_chain held find_head
  move_chain-Moved mask [] t m = record {
    size = m.size;
    placed = Moving-IsPlaced mask t m;
    views = λ q. sym (or_list-nil (view ops law mask t q));
    buckets = omega arith;
    entries = omega arith;
  }
  move_chain-Moved mask (b ∷ todo) t m =
      let r = move_chain-Moved mask todo (move_bucket mask b t) (step mask b t todo m) in
      record {
        size = r.size;
        placed = r.placed;
        views = λ q. r.views q ∙ step-view mask b t todo m q;
        buckets = omega (arith, r.buckets, step-total mask b t todo m length (λ c. omega arith));
        entries =
            omega (arith, r.entries, step-total mask b t todo m (held ops law) (λ c. omega arith));
      }
