-- ===== src/Htab/Head.antt =====
-- What the five functions of dt_htab_ops_t are relied on for, and the entries of one bucket.
use dtrace.Base.{
  ℕ, suc, ◌≡◌, sym, ◌∙◌, ◌≢◌, inl, inr, Bool, true, false, ◌||◌, List, [], ◌∷◌, arith,
  if◌then◌else◌, Bool-cases, length,
}
use dtrace.Htab.{Ops, is_null}

-- `contains` and `erase` compare pointers.
module _ {ℓ} {E : Type ℓ} (ident : E → E → Bool) where
  unfoldable pub contains : List E → E → Bool
  contains [] e = false
  contains (x ∷ xs) e = ident x e || contains xs e

  unfoldable pub erase : List E → E → List E
  erase [] e = []
  erase (x ∷ xs) e = if ident x e then xs else x ∷ erase xs e

-- cmp looks at the first entry and is an equivalence that the hash value respects; add puts an
-- entry in front, where the standard functions want one that is not in the list, which no client of
-- the repository inserts again; del takes an entry out that is in the list; next is the pointer behind an entry.
pub record IsLawful {ℓ} {E : Type ℓ} (ops : Ops E) : Type ℓ where
  pub same : E → E → Bool
  pub ident : E → E → Bool
  pub cmp-cons : (x : E) (xs : List E) (e : E) → ops.cmp (x ∷ xs) e ≡ same x e
  pub same_refl : (a : E) → same a a ≡ true
  pub same_symm : (a b : E) → same a b ≡ same b a
  pub same_trans : (a b c : E) → same a b ≡ true → same b c ≡ true → same a c ≡ true
  pub hval-same : (a b : E) → same a b ≡ true → ops.hval a ≡ ops.hval b
  pub add_lem : (h : List E) (e : E) → ops.add h e ≡ e ∷ h
  pub del_lem : (h : List E) (e : E) → contains ident h e ≡ true → ops.del h e ≡ erase ident h e
  pub next-cons : (x : E) (xs : List E) → ops.next (x ∷ xs) ≡ xs

module _ {ℓ} {E : Type ℓ} (ops : Ops E) (law : IsLawful ops) where
  open law use {same, ident, cmp-cons, same_refl, same_symm, same_trans, hval-same}

  pub same_congr : (a b c : E) → same a b ≡ true → same a c ≡ same b c
  same_congr a b c e = ground (arith, same_trans a b c, same_trans b a c, same_symm a b)

  -- The entries behind `x` compare equal to it.
  abbrev pub Group : E → List E → Type 0
  Group x [] = Unit
  Group x (y ∷ ys) = (same x y ≡ true) × Group x ys

  -- A bucket's list is not empty, holds entries that compare equal, and has their hash value.
  abbrev pub GoodHead : ℕ → List E → Type 0
  GoodHead h [] = ⊥
  GoodHead h (x ∷ xs) = (ops.hval x ≡ h) × Group x xs

  pub cmp_head_congr :
      (h : List E) (n : ℕ) (p q : E) → GoodHead n h → same p q ≡ true → ops.cmp h p ≡ ops.cmp h q
  cmp_head_congr [] n p q g e = absurd g
  cmp_head_congr (x ∷ xs) n p q g e =
      cmp-cons x xs p
      ∙ ground (arith, same_congr p q x e, same_symm p x, same_symm q x)
      ∙ sym (cmp-cons x xs q)

  pub cmp_head-hval :
      (h : List E) (n : ℕ) (q : E) → GoodHead n h → ops.cmp h q ≡ true → n ≡ ops.hval q
  cmp_head-hval [] n q g e = absurd g
  cmp_head-hval (x ∷ xs) n q g e = sym g.0 ∙ hval-same x q (sym (cmp-cons x xs q) ∙ e)

  pub cmp_head-same :
      (h : List E) (n : ℕ) (e q : E) → GoodHead n h → ops.cmp h e ≡ true → ops.cmp h q ≡ same e q
  cmp_head-same [] n e q g m = absurd g
  cmp_head-same (x ∷ xs) n e q g m = cmp-cons x xs q ∙ same_congr x e q (sym (cmp-cons x xs e) ∙ m)

  Group-congr : (a b : E) (ys : List E) → same a b ≡ true → Group b ys → Group a ys
  Group-congr a b [] e g = tt
  Group-congr a b (y ∷ ys) e g = (same_trans a b y e g.0, Group-congr a b ys e g.1)

  pub GoodHead-cons :
      (h : List E) (n : ℕ) (e : E) → GoodHead n h → ops.cmp h e ≡ true → GoodHead n (e ∷ h)
  GoodHead-cons [] n e g m = absurd g
  GoodHead-cons (x ∷ xs) n e g m =
      let same_e : same x e ≡ true = sym (cmp-cons x xs e) ∙ m in
      let back : same e x ≡ true = same_symm e x ∙ same_e in
      (sym (hval-same x e same_e) ∙ g.0, (back, Group-congr e x xs back g.1))

  pub cmp_head-cons :
      (h : List E) (n : ℕ) (e q : E)
      → GoodHead n h
      → ops.cmp h e ≡ true
      → ops.cmp (e ∷ h) q ≡ ops.cmp h q
  cmp_head-cons [] n e q g m = absurd g
  cmp_head-cons (x ∷ xs) n e q g m =
      cmp-cons e (x ∷ xs) q
      ∙ sym (same_congr x e q (sym (cmp-cons x xs e) ∙ m))
      ∙ sym (cmp-cons x xs q)

  Group-erase : (x : E) (ys : List E) (e : E) → Group x ys → Group x (erase ident ys e)
  unfolding erase
  Group-erase x [] e g = tt
  Group-erase x (y ∷ ys) e g = elim (Bool-cases (ident y e)) [
    | inl hit ↦ rw hit g.1
    | inr miss ↦ rw miss (g.0, Group-erase x ys e g.1)
  ]

  pub length-erase :
      (h : List E) (e : E) → contains ident h e ≡ true → suc (length (erase ident h e)) ≡ length h
  unfolding erase contains
  length-erase [] e m = cc
  length-erase (x ∷ xs) e m = ground (arith, length-erase xs e)

  -- A list without its first entry is empty or good, and compares as before.
  GoodTail :
      (x : E) (xs : List E) (n : ℕ)
      → GoodHead n (x ∷ xs)
      → is_null xs ≡ false
      → GoodHead n xs × ((q : E) → ops.cmp xs q ≡ ops.cmp (x ∷ xs) q)
  GoodTail x [] n g e = absurd (cc e)
  GoodTail x (y ∷ ys) n (hx, (xy, g)) e = (
    (sym (hval-same x y xy) ∙ hx, Group-congr y x ys (same_symm y x ∙ xy) g),
    λ q. cmp-cons y ys q ∙ sym (same_congr x y q xy) ∙ sym (cmp-cons x (y ∷ ys) q),
  )

  pub GoodHead-erase :
      (h : List E) (n : ℕ) (e : E)
      → GoodHead n h
      → is_null (erase ident h e) ≡ false
      → GoodHead n (erase ident h e) × ((q : E) → ops.cmp (erase ident h e) q ≡ ops.cmp h q)
  unfolding erase
  GoodHead-erase [] n e g m = absurd g
  GoodHead-erase (x ∷ xs) n e g m = elim (Bool-cases (ident x e)) [
    | inl hit ↦ rw hit (GoodTail x xs n g (rw hit at m))
    | inr miss ↦ rw miss (
      (g.0, Group-erase x xs e g.1),
      λ q. cmp-cons x (erase ident xs e) q ∙ sym (cmp-cons x xs q),
    )
  ]

  pub GoodHead-ne_nil : (h : List E) (n : ℕ) → GoodHead n h → h ≢ []
  GoodHead-ne_nil [] n g e = g
  GoodHead-ne_nil (x ∷ xs) n g e = cc e
