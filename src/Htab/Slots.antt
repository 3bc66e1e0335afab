-- ===== src/Htab/Slots.antt =====
-- When a table is well formed, and what it means: the entries that compare equal to a given one.
use dtrace.Base.{
  ℕ, ◌+◌, ◌≤◌, ◌<◌, ◌≡◌, refl, ap, subst, ◌⊎◌, inl, inr, true, false, List, [], arith, ◌==◌,
  if◌then◌else◌, Bool-cases, ==_iff, length, set, get_or, replicate, get_or-set, get_or-replicate,
  total,
}
use Prim.Native.Nat.{bit_and}
use dtrace.Base.Bits.{bit_and-le}
use dtrace.Htab.{Ops, Bucket, Htab, find_head}
use dtrace.Htab.Head.{IsLawful}
use dtrace.Htab.Chain.{InSlot, matches, held}

module _ {ℓ} {E : Type ℓ} (ops : Ops E) (law : IsLawful ops) where
  open law use {same, same_symm, hval-same}

  abbrev pub home : ℕ → E → ℕ
  home mask q = bit_and (ops.hval q) mask

  -- Every bucket is good and stands in its home slot, and at most one compares equal to an entry.
  pub record IsPlaced (mask : ℕ) (tab : List (List (Bucket E))) : Type ℓ where
    pub slots : (i : ℕ) → InSlot ops law mask i (get_or tab i [])
    pub once : (i : ℕ) (q : E) → matches ops law q (get_or tab i []) ≤ 1

  abbrev pub view : ℕ → List (List (Bucket E)) → E → List E
  view mask tab q = find_head ops (get_or tab (home mask q) []) q

  pub record IsValid (h : Htab E) : Type ℓ where
    pub size : h.size ≡ length h.tab
    pub mask : h.size ≡ h.mask + 1
    pub placed : IsPlaced h.mask h.tab
    pub nbuckets : h.nbuckets ≡ total length h.tab
    pub nentries : h.nentries ≡ total (held ops law) h.tab

  home_same : (mask : ℕ) (p q : E) → same p q ≡ true → home mask p ≡ home mask q
  home_same mask p q e = ap (λ (k : ℕ). bit_and k mask) (hval-same p q e)

  pub home-lt : (mask : ℕ) (q : E) (n : ℕ) → n ≡ mask + 1 → home mask q < n
  home-lt mask q n e = omega (arith, bit_and-le (ops.hval q) mask)

  module _ (mask : ℕ) (tab : List (List (Bucket E))) (placed : IsPlaced mask tab) (idx : ℕ)
      (inside : idx < length tab) where
    pub IsPlaced-set :
        (c : List (Bucket E))
        → InSlot ops law mask idx c
        → ((q : E) → matches ops law q c ≤ 1)
        → IsPlaced mask (set tab idx c)
    IsPlaced-set c g few = record {
      slots = λ i. rw (get_or-set tab idx i c [] inside) (pick i);
      once = λ i q. rw (get_or-set tab idx i c [] inside) (ground (arith, few q, placed.once i q));
    }
      where
        pick : (i : ℕ) → InSlot ops law mask i (if idx == i then c else get_or tab i [])
        pick i = elim (Bool-cases (idx == i)) [
          | inl e ↦ rw e (subst (λ k. InSlot ops law mask k c) ((==_iff idx i).0 e) g)
          | inr e ↦ rw e (placed.slots i)
        ]

    -- A write to the home slot of `e` that changes what the entries equal to `e` find.
    pub view-set :
        (e : E) (f : List E → List E) (c : List (Bucket E))
        → idx ≡ home mask e
        → ((q : E)
            → find_head ops c q ≡ (
                if same e q
                then f (find_head ops (get_or tab idx []) q)
                else find_head ops (get_or tab idx []) q))
        → (q : E)
        → view mask (set tab idx c) q ≡ (if same e q then f (view mask tab q) else view mask tab q)
    view-set e f c at_home finds q =
        rw (get_or-set tab idx (home mask q) c [] inside) (split (Bool-cases (idx == home mask q)))
      where
        split :
            ((idx == home mask q) ≡ true) ⊎ ((idx == home mask q) ≡ false)
            → find_head ops (if idx == home mask q then c else get_or tab (home mask q) []) q
              ≡ (if same e q then f (view mask tab q) else view mask tab q)
        split (inl e') = rw (e', ← (==_iff idx (home mask q)).0 e') (finds q)
        split (inr away) = rw away (ground (arith, home_same mask e q))

  -- An empty table is well formed, and finds nothing.
  pub IsPlaced-replicate : (mask n : ℕ) → IsPlaced mask (replicate n [])
  unfolding matches
  IsPlaced-replicate mask n = record {
    slots = λ i. rw (get_or-replicate {A = List (Bucket E)} n i []) tt;
    once = λ i q. rw (get_or-replicate {A = List (Bucket E)} n i []) (omega arith);
  }

  pub view-replicate : (mask n : ℕ) (q : E) → view mask (replicate n []) q ≡ []
  unfolding find_head
  view-replicate mask n q = rw (get_or-replicate {A = List (Bucket E)} n (home mask q) []) refl
