-- ===== src/Htab/Chain.antt =====
-- The buckets of one slot, and what the loops over them return.
use dtrace.Base.{
  ℕ, suc, ◌+◌, ◌≤◌, ◌<◌, ◌≡◌, refl, sym, ap, ◌∙◌, ◌≢◌, inl, inr, true, false, Option, none, some,
  List, [], ◌∷◌, arith, if◌then◌else◌, Bool-cases, length,
}
use Prim.Native.Nat.{bit_and}
use dtrace.Htab.{Ops, Bucket, find_head, add_to, new_bucket}
use dtrace.Htab.Head.{
  GoodHead-ne_nil, IsLawful, GoodHead, cmp_head_congr, cmp_head-hval, GoodHead-cons, cmp_head-cons,
  cmp_head-same,
}

module _ {ℓ} {E : Type ℓ} (ops : Ops E) (law : IsLawful ops) where
  open law use {same, ident, cmp-cons, same_refl, same_symm, add_lem, del_lem}

  pub record IsGood (b : Bucket E) : Type 0 where
    pub head : GoodHead ops law b.hval b.head
    pub counted : b.nentries ≡ length b.head

  -- The buckets of slot `i` of a table with this mask.
  abbrev pub InSlot : (mask i : ℕ) → List (Bucket E) → Type 0
  InSlot mask i [] = Unit
  InSlot mask i (b ∷ c) = IsGood b × (bit_and b.hval mask ≡ i) × InSlot mask i c

  -- How many buckets compare equal to an entry.
  unfoldable pub matches : E → List (Bucket E) → ℕ
  matches q [] = 0
  matches q (b ∷ c) = (if ops.cmp b.head q then 1 else 0) + matches q c

  -- How many entries the buckets count.
  unfoldable pub held : List (Bucket E) → ℕ
  held [] = 0
  held (b ∷ c) = b.nentries + held c

  pub find_head-none : (q : E) (c : List (Bucket E)) → matches q c ≡ 0 → find_head ops c q ≡ []
  unfolding matches find_head
  find_head-none q [] e = refl
  find_head-none q (b ∷ c) e = ground (arith, find_head-none q c)

  module _ (mask i : ℕ) (p q : E) (eq : same p q ≡ true) where
    pub matches_congr : (c : List (Bucket E)) → InSlot mask i c → matches p c ≡ matches q c
    unfolding matches
    matches_congr [] g = refl
    matches_congr (b ∷ c) (g, home, rest) =
        rw (cmp_head_congr ops law b.head b.hval p q g.head eq, matches_congr c rest)

    pub find_head_congr :
        (c : List (Bucket E)) → InSlot mask i c → find_head ops c p ≡ find_head ops c q
    unfolding find_head
    find_head_congr [] g = refl
    find_head_congr (b ∷ c) (g, home, rest) =
        rw (cmp_head_congr ops law b.head b.hval p q g.head eq, find_head_congr c rest)

  pub matches-home :
      (mask i : ℕ) (q : E) (c : List (Bucket E))
      → InSlot mask i c
      → 0 < matches q c
      → bit_and (ops.hval q) mask ≡ i
  unfolding matches
  matches-home mask i q [] g pos = absurd (omega arith)
  matches-home mask i q (b ∷ c) (g, home, rest) pos = elim (Bool-cases (ops.cmp b.head q)) [
    | inl hit ↦ rw (← cmp_head-hval ops law b.head b.hval q g.head hit) home
    | inr miss ↦ matches-home mask i q c rest (ground arith)
  ]

  -- What adding `e` to a bucket of the slot leaves.
  pub record AddedTo (mask i : ℕ) (c : List (Bucket E)) (e : E) (c' : List (Bucket E))
      : Type ℓ where
    pub slot : InSlot mask i c'
    pub present : 0 < matches e c
    pub matches_kept : (q : E) → matches q c' ≡ matches q c
    pub length_kept : length c' ≡ length c
    pub held_more : held c' ≡ held c + 1
    pub finds :
        (q : E)
        → find_head ops c' q ≡ (if same e q then e ∷ find_head ops c q else find_head ops c q)

  pub data AddResult (mask i : ℕ) (c : List (Bucket E)) (e : E)
      : Option (List (Bucket E)) → Type ℓ where
    absent : matches e c ≡ 0 → AddResult mask i c e none
    added : {c' : List (Bucket E)} → AddedTo mask i c e c' → AddResult mask i c e (some c')

  add_here :
      (mask i : ℕ) (b : Bucket E) (c : List (Bucket E)) (e : E)
      → InSlot mask i (b ∷ c)
      → ops.cmp b.head e ≡ true
      → AddedTo mask i
          (b ∷ c)
          e
          (record b { head = ops.add b.head e; nentries = b.nentries + 1 } ∷ c)
  unfolding matches held find_head
  add_here mask i b c e (g, home, rest) hit = rw add_lem (record {
    slot = (
      record {
        head = GoodHead-cons ops law b.head b.hval e g.head hit;
        counted = omega (arith, g.counted);
      },
      home,
      rest,
    );
    present = rw hit (omega arith);
    matches_kept = λ q. rw (cmp_head-cons ops law b.head b.hval e q g.head hit);
    length_kept = refl;
    held_more = omega arith;
    finds = λ q.
        rw
          (
            cmp_head-cons ops law b.head b.hval e q g.head hit,
            cmp_head-same ops law b.head b.hval e q g.head hit,
          )
          (ground arith);
  })

  add_there :
      (mask i : ℕ) (b : Bucket E) (c : List (Bucket E)) (e : E) {c' : List (Bucket E)}
      → InSlot mask i (b ∷ c)
      → ops.cmp b.head e ≡ false
      → AddedTo mask i c e c'
      → AddedTo mask i (b ∷ c) e (b ∷ c')
  unfolding matches held find_head
  add_there mask i b c e (g, home, rest) miss t = record {
    slot = (g, home, t.slot);
    present = omega (arith, t.present);
    matches_kept = λ q. omega (arith, t.matches_kept q);
    length_kept = ap suc t.length_kept;
    held_more = omega (arith, t.held_more);
    finds = λ q. ground (arith, t.finds q, cmp_head_congr ops law b.head b.hval e q g.head);
  }

  pub add_to-AddResult :
      (mask i : ℕ) (c : List (Bucket E)) (e : E)
      → InSlot mask i c
      → AddResult mask i c e (add_to ops c e)
  unfolding add_to matches
  add_to-AddResult mask i [] e g = absent refl
  add_to-AddResult mask i (b ∷ c) e (g, home, rest) = elim (Bool-cases (ops.cmp b.head e)) [
    | inl hit ↦ rw hit (added (add_here mask i b c e (g, home, rest) hit))
    | inr miss ↦ extend (add_to ops c e) (add_to-AddResult mask i c e rest) miss
  ]
    where
      extend :
          (o : Option (List (Bucket E)))
          → AddResult mask i c e o
          → ops.cmp b.head e ≡ false
          → AddResult mask i (b ∷ c) e (
              if ops.cmp b.head e
              then some (record b { head = ops.add b.head e; nentries = b.nentries + 1 } ∷ c)
              else elim o [ none ↦ none | some c' ↦ some (b ∷ c') ])
      extend none (absent z) miss = rw miss (absent (rw miss (omega arith)))
      extend (some c') (added t) miss =
          rw miss (added (add_there mask i b c e (g, home, rest) miss t))

  -- A new bucket holds just its entry.
  pub new_bucket-IsGood : (e : E) → IsGood (new_bucket ops e)
  unfolding new_bucket
  new_bucket-IsGood e = rw add_lem (record { head = (refl, tt); counted = omega arith })

  pub cmp-new_bucket : (e q : E) → ops.cmp (new_bucket ops e).head q ≡ same e q
  unfolding new_bucket
  cmp-new_bucket e q = rw add_lem (cmp-cons e [] q)

  -- Where no bucket compares equal to `e`, a new one for it is found by the entries equal to `e`.
  pub find_head-new_bucket :
      (mask i : ℕ) (e q : E) (c : List (Bucket E))
      → InSlot mask i c
      → matches e c ≡ 0
      → find_head ops (new_bucket ops e ∷ c) q
        ≡ (if same e q then e ∷ find_head ops c q else find_head ops c q)
  unfolding find_head new_bucket
  find_head-new_bucket mask i e q c g z = elim (Bool-cases (same e q)) [
    | inr other ↦ rw (add_lem, cmp-cons, other) refl
    | inl eq ↦
        let gone : find_head ops c q ≡ [] =
          sym (find_head_congr mask i e q eq c g) ∙ find_head-none e c z in
        rw (add_lem, cmp-cons, eq) (ap (λ h. e ∷ h) (sym gone))
  ]

  pub new_bucket-InSlot :
      (mask : ℕ) (e : E) (c : List (Bucket E))
      → InSlot mask (bit_and (ops.hval e) mask) c
      → InSlot mask (bit_and (ops.hval e) mask) (new_bucket ops e ∷ c)
  unfolding new_bucket
  new_bucket-InSlot mask e c g = (new_bucket-IsGood e, refl, g)

  pub matches-new_bucket :
      (mask i : ℕ) (e q : E) (c : List (Bucket E))
      → InSlot mask i c
      → matches e c ≡ 0
      → matches q c ≤ 1
      → matches q (new_bucket ops e ∷ c) ≤ 1
  unfolding matches
  matches-new_bucket mask i e q c g z few = elim (Bool-cases (same e q)) [
    | inl eq ↦ rw (cmp-new_bucket, eq) (omega (arith, matches_congr mask i e q eq c g))
    | inr other ↦ rw (cmp-new_bucket, other) (omega arith)
  ]

  pub held-new_bucket : (e : E) (c : List (Bucket E)) → held (new_bucket ops e ∷ c) ≡ held c + 1
  unfolding held new_bucket
  held-new_bucket e c = omega arith

  pub find_head-ne_nil :
      (mask i : ℕ) (q : E) (c : List (Bucket E))
      → InSlot mask i c
      → 0 < matches q c
      → find_head ops c q ≢ []
  unfolding matches find_head
  find_head-ne_nil mask i q [] g pos = absurd (omega arith)
  find_head-ne_nil mask i q (b ∷ c) (g, at_i, rest) pos = elim (Bool-cases (ops.cmp b.head q)) [
    | inl hit ↦ rw hit (GoodHead-ne_nil ops law b.head b.hval g.head)
    | inr miss ↦ rw miss (find_head-ne_nil mask i q c rest (ground arith))
  ]
