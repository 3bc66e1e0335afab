-- ===== src/Idhash/Sorted.antt =====
-- What qsort() does, and that the comparison of dt_idhash_iter() orders the identifiers whose ids are
-- below 2^31.
use dtrace.Base.{
  ℕ, ◌^◌, ◌<◌, ◌≡◌, refl, ◌∙◌, ◌⊎◌, inl, inr, Bool, true, false, List, [], ◌∷◌, ◌++◌, arith, ltb,
  if◌then◌else◌, Bool-cases, lt→ltb,
}
use dtrace.Idhash.Order.{order, comp-order}
use dtrace.Idhash.{Ident, Sign, strcmp, comp}

-- The list in another order.
pub data Permutes {A : Type 0} : List A → List A → Type 0 where
  none_left : Permutes [] []
  behind : (x : A) {l m : List A} → Permutes l m → Permutes (x ∷ l) (x ∷ m)
  swapped : (x y : A) (l : List A) → Permutes (x ∷ y ∷ l) (y ∷ x ∷ l)
  then_ : {l m n : List A} → Permutes l m → Permutes m n → Permutes l n

pub Permutes-same : {A : Type 0} (l : List A) → Permutes l l
Permutes-same [] = none_left
Permutes-same (x ∷ l) = behind x (Permutes-same l)

abbrev pub All : (Ident → Bool) → List Ident → Type 0
All p [] = Unit {0}
All p (idp ∷ l) = (p idp ≡ true) × All p l

pub All-append : (p : Ident → Bool) (l m : List Ident) → All p l → All p m → All p (l ++ m)
All-append p [] m a b = b
All-append p (idp ∷ l) m (h, a) b = (h, All-append p l m a b)

pub All-Permutes : (p : Ident → Bool) {l m : List Ident} → Permutes l m → All p l → All p m
All-Permutes p none_left a = a
All-Permutes p (behind x q) (h, a) = (h, All-Permutes p q a)
All-Permutes p (swapped x y l) (h, (k, a)) = (k, (h, a))
All-Permutes p (then_ q r) a = All-Permutes p r (All-Permutes p q a)

-- A result of a comparison that is not positive.
abbrev pub at_most : Sign → Bool
at_most Sign.below = true
at_most Sign.equal = true
at_most Sign.above = false

abbrev pub IsSorted : (Ident → Ident → Sign) → List Ident → Type 0
IsSorted cmp [] = Unit {0}
IsSorted cmp (idp ∷ l) = All (λ other. at_most (cmp idp other)) l × IsSorted cmp l

-- A comparison that puts the elements with p in an order.
pub record IsOrderOn (p : Ident → Bool) (cmp : Ident → Ident → Sign) : Type 0 where
  pub transitive :
      (a b c : Ident)
      → p a ≡ true
      → p b ≡ true
      → p c ≡ true
      → at_most (cmp a b) ≡ true
      → at_most (cmp b c) ≡ true
      → at_most (cmp a c) ≡ true
  pub total_ :
      (a b : Ident) → p a ≡ true → p b ≡ true → at_most (cmp a b) ≡ false → at_most (cmp b a) ≡ true

-- What the C library documents of qsort(): a permutation that is sorted, where the comparison puts
-- the elements in an order.
abbrev pub Sorts : ((Ident → Ident → Sign) → List Ident → List Ident) → Type 0
Sorts qsort =
    (cmp : Ident → Ident → Sign) (p : Ident → Bool) (l : List Ident)
    → IsOrderOn p cmp
    → All p l
    → Permutes l (qsort cmp l) × IsSorted cmp (qsort cmp l)

unfoldable pub small : Ident → Bool
small idp = ltb idp.id (2 ^ 31)

-- A first number, and what is compared where two are the same.
abbrev lex : (x y : ℕ) → Sign → Sign
lex x y rest = if ltb x y then Sign.below else if ltb y x then Sign.above else rest

lex-cases :
    (x y : ℕ) (rest : Sign)
    → at_most (lex x y rest) ≡ true
    → (x < y) ⊎ ((x ≡ y) × (at_most rest ≡ true))
lex-cases x y rest h = elim (Bool-cases (ltb x y)) [
  | inl less ↦ inl (ground arith)
  | inr f ↦ elim (Bool-cases (ltb y x)) [
    | inl more ↦ let no : false ≡ true = rw (f, more) at h in absurd (cc)
    | inr g ↦ inr (ground arith, rw (f, g) at h)
  ]
]

lex-less : (x y : ℕ) (rest : Sign) → x < y → at_most (lex x y rest) ≡ true
lex-less x y rest h = rw (lt→ltb x y h) refl

lex-same : (x y : ℕ) (rest : Sign) → x ≡ y → at_most rest ≡ true → at_most (lex x y rest) ≡ true
lex-same x y rest e h =
    let f : ltb x y ≡ false = ground arith in let g : ltb y x ≡ false = ground arith in rw (f, g) h

lex_trans :
    (x y z : ℕ) (r s t : Sign)
    → (at_most r ≡ true → at_most s ≡ true → at_most t ≡ true)
    → at_most (lex x y r) ≡ true
    → at_most (lex y z s) ≡ true
    → at_most (lex x z t) ≡ true
lex_trans x y z r s t f h k = go (lex-cases x y r h) (lex-cases y z s k)
  where
    go :
        (x < y) ⊎ ((x ≡ y) × (at_most r ≡ true))
        → (y < z) ⊎ ((y ≡ z) × (at_most s ≡ true))
        → at_most (lex x z t) ≡ true
    go (inl a) (inl b) = lex-less x z t (omega arith)
    go (inl a) (inr (b, q)) = lex-less x z t (omega (arith, b))
    go (inr (a, p)) (inl b) = lex-less x z t (omega (arith, a))
    go (inr (a, p)) (inr (b, q)) = lex-same x z t (a ∙ b) (f p q)

lex_total :
    (x y : ℕ) (r s : Sign)
    → (at_most r ≡ false → at_most s ≡ true)
    → at_most (lex x y r) ≡ false
    → at_most (lex y x s) ≡ true
lex_total x y r s f h = elim (Bool-cases (ltb y x)) [
  | inl less ↦ rw less refl
  | inr g ↦ elim (Bool-cases (ltb x y)) [
    | inl l ↦ let no : true ≡ false = rw l at h in absurd (cc)
    | inr e ↦ rw (g, e) (f (rw (g, e) at h))
  ]
]

strcmp_trans :
    (x y z : List ℕ)
    → at_most (strcmp x y) ≡ true
    → at_most (strcmp y z) ≡ true
    → at_most (strcmp x z) ≡ true
unfolding strcmp
strcmp_trans [] y [] h k = refl
strcmp_trans [] y (c ∷ z) h k = refl
strcmp_trans (a ∷ x) [] z h k = cc
strcmp_trans (a ∷ x) (b ∷ y) [] h k = cc
strcmp_trans (a ∷ x) (b ∷ y) (c ∷ z) h k =
    lex_trans a b c (strcmp x y) (strcmp y z) (strcmp x z) (strcmp_trans x y z) h k

strcmp_total : (x y : List ℕ) → at_most (strcmp x y) ≡ false → at_most (strcmp y x) ≡ true
unfolding strcmp
strcmp_total [] [] h = cc
strcmp_total [] (b ∷ y) h = cc
strcmp_total (a ∷ x) [] h = refl
strcmp_total (a ∷ x) (b ∷ y) h = lex_total a b (strcmp x y) (strcmp y x) (strcmp_total x y) h

comp_small : (a b : Ident) → small a ≡ true → small b ≡ true → comp a b ≡ order a b
unfolding small
comp_small a b h k = comp-order a b (ground arith) (ground arith) (ground arith) (ground arith)

order_trans :
    (a b c : Ident)
    → at_most (order a b) ≡ true
    → at_most (order b c) ≡ true
    → at_most (order a c) ≡ true
unfolding order
order_trans a b c h k = lex_trans a.id b.id c.id _ _ _ (strcmp_trans a.name b.name c.name) h k

order_total : (a b : Ident) → at_most (order a b) ≡ false → at_most (order b a) ≡ true
unfolding order
order_total a b h = lex_total a.id b.id _ _ (strcmp_total a.name b.name) h

comp-IsOrderOn : IsOrderOn small comp
comp-IsOrderOn = record {
  transitive = λ a b c p q r h k.
      rw (comp_small a c p r)
        (order_trans a b c (rw (comp_small a b p q) at h) (rw (comp_small b c q r) at k));
  total_ = λ a b p q h. rw (comp_small b a q p) (order_total a b (rw (comp_small a b p q) at h));
}

All-order :
    (idp : Ident) (l : List Ident)
    → small idp ≡ true
    → All small l
    → All (λ other. at_most (comp idp other)) l
    → All (λ other. at_most (order idp other)) l
All-order idp [] s a h = tt
All-order idp (other ∷ l) s (t, a) (k, h) =
    (rw (comp_small idp other s t) at k, All-order idp l s a h)

IsSorted-order : (l : List Ident) → All small l → IsSorted comp l → IsSorted order l
IsSorted-order [] a s = tt
IsSorted-order (idp ∷ l) (t, a) (h, s) = (All-order idp l t a h, IsSorted-order l a s)

-- By ids and names, where the ids are below 2^31.
pub qsort-order :
    (qsort : (Ident → Ident → Sign) → List Ident → List Ident) (l : List Ident)
    → Sorts qsort
    → All small l
    → Permutes l (qsort comp l) × IsSorted order (qsort comp l)
qsort-order qsort l sorts a =
    let (p, s) = sorts comp small l comp-IsOrderOn a in
    (p, IsSorted-order (qsort comp l) (All-Permutes small p a) s)
