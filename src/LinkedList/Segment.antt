-- ===== src/LinkedList/Segment.antt =====
-- Chains of nodes in memory, and how they fare when a pointer is set.
use dtrace.Base.{
  ℕ, zero, suc, ◌+◌, ◌<◌, ◌≡◌, refl, sym, ap, ◌∙◌, ◌≢◌, false, some, List, [], ◌∷◌, ◌++◌, arith,
  ◌==◌, if◌then◌else◌, length,
}
use dtrace.LinkedList.{Heap, set_prev, set_next, length_from, list_length}

pub next-set_next_self : (h : Heap) (a v : ℕ) → (set_next a v h).next a ≡ v
unfolding set_next
next-set_next_self h a v = ground arith

pub next-set_next_ne : (h : Heap) (a v x : ℕ) → x ≢ a → (set_next a v h).next x ≡ h.next x
unfolding set_next
next-set_next_ne h a v x ne = ground arith

pub prev-set_prev_self : (h : Heap) (a v : ℕ) → (set_prev a v h).prev a ≡ v
unfolding set_prev
prev-set_prev_self h a v = ground arith

pub prev-set_prev_ne : (h : Heap) (a v x : ℕ) → x ≢ a → (set_prev a v h).prev x ≡ h.prev x
unfolding set_prev
prev-set_prev_ne h a v x ne = ground arith

abbrev pub first_or : ℕ → List ℕ → ℕ
first_or n [] = n
first_or n (x ∷ xs) = x

abbrev pub last_or : ℕ → List ℕ → ℕ
last_or p [] = p
last_or p (x ∷ xs) = last_or x xs

-- The nodes are linked in both directions, behind `p` and before `n`.
abbrev pub Seg : Heap → (p : ℕ) → List ℕ → (n : ℕ) → Type 0
Seg h p [] n = Unit {0}
Seg h p (x ∷ xs) n = (h.prev x ≡ p) × (h.next x ≡ first_or n xs) × Seg h x xs n

abbrev pub NotIn : ℕ → List ℕ → Type 0
NotIn a [] = Unit {0}
NotIn a (x ∷ xs) = (a ≢ x) × NotIn a xs

abbrev pub Distinct : List ℕ → Type 0
Distinct [] = Unit {0}
Distinct (x ∷ xs) = NotIn x xs × Distinct xs

-- The list at `dlp` holds the given nodes, in this order.
pub record IsList (h : Heap) (dlp : ℕ) (xs : List ℕ) : Type 0 where
  pub head : h.next dlp ≡ first_or 0 xs
  pub tail : h.prev dlp ≡ last_or 0 xs
  pub links : Seg h 0 xs 0
  pub nodes : NotIn 0 (dlp ∷ xs)
  pub apart : Distinct (dlp ∷ xs)

-- What an operation leaves alone.
abbrev pub SameElsewhere : List ℕ → Heap → Heap → Type 0
SameElsewhere xs h h' = (a : ℕ) → NotIn a xs → (h'.prev a ≡ h.prev a) × (h'.next a ≡ h.next a)

pub Seg-append :
    (h : Heap) (p : ℕ) (xs ys : List ℕ) (n : ℕ)
    → Seg h p xs (first_or n ys)
    → Seg h (last_or p xs) ys n
    → Seg h p (xs ++ ys) n
Seg-append h p [] ys n a b = b
Seg-append h p (x ∷ []) ys n (e, f, a) b = (e, f, b)
Seg-append h p (x ∷ y ∷ xs) ys n (e, f, a) b = (e, f, Seg-append h x (y ∷ xs) ys n a b)

pub Seg-split :
    (h : Heap) (p : ℕ) (xs ys : List ℕ) (n : ℕ)
    → Seg h p (xs ++ ys) n
    → Seg h p xs (first_or n ys) × Seg h (last_or p xs) ys n
Seg-split h p [] ys n s = (tt, s)
Seg-split h p (x ∷ []) ys n (e, f, s) = ((e, f, tt), s)
Seg-split h p (x ∷ y ∷ xs) ys n (e, f, s) =
    let (a, b) = Seg-split h x (y ∷ xs) ys n s in ((e, f, a), b)

pub Seg-set_next :
    (h : Heap) (p : ℕ) (xs : List ℕ) (n a v : ℕ)
    → NotIn a xs
    → Seg h p xs n
    → Seg (set_next a v h) p xs n
unfolding set_next
Seg-set_next h p [] n a v out s = tt
Seg-set_next h p (x ∷ xs) n a v (ne, out) (e, f, s) =
    (e, ground arith, Seg-set_next h x xs n a v out s)

pub Seg-set_prev :
    (h : Heap) (p : ℕ) (xs : List ℕ) (n a v : ℕ)
    → NotIn a xs
    → Seg h p xs n
    → Seg (set_prev a v h) p xs n
unfolding set_prev
Seg-set_prev h p [] n a v out s = tt
Seg-set_prev h p (x ∷ xs) n a v (ne, out) (e, f, s) =
    (ground arith, f, Seg-set_prev h x xs n a v out s)

pub NotIn-append : (a : ℕ) (xs ys : List ℕ) → NotIn a (xs ++ ys) → NotIn a xs × NotIn a ys
NotIn-append a [] ys o = (tt, o)
NotIn-append a (x ∷ xs) ys (ne, o) = let (l, r) = NotIn-append a xs ys o in ((ne, l), r)

-- The last node's `next` leads elsewhere.
pub Seg-set_next_last :
    (h : Heap) (p : ℕ) (xs : List ℕ) (a n m : ℕ)
    → Distinct (xs ++ (a ∷ []))
    → Seg h p (xs ++ (a ∷ [])) n
    → Seg (set_next a m h) p (xs ++ (a ∷ [])) m
unfolding set_next
Seg-set_next_last h p [] a n m d (e, f, s) = (e, ground arith, tt)
Seg-set_next_last h p (x ∷ xs) a n m (o, d) (e, f, s) =
    let (l, r) = NotIn-append x xs (a ∷ []) o in
    (e, first_same xs f r.0, Seg-set_next_last h x xs a n m d s)
  where
    first_same :
        (ys : List ℕ)
        → h.next x ≡ first_or n (ys ++ (a ∷ []))
        → x ≢ a
        → (if x == a then m else h.next x) ≡ first_or m (ys ++ (a ∷ []))
    first_same [] g ne = ground arith
    first_same (y ∷ ys) g ne = ground arith

-- The first node's `prev` leads elsewhere.
pub Seg-set_prev_first :
    (h : Heap) (p : ℕ) (b : ℕ) (ys : List ℕ) (n q : ℕ)
    → NotIn b ys
    → Seg h p (b ∷ ys) n
    → Seg (set_prev b q h) q (b ∷ ys) n
unfolding set_prev
Seg-set_prev_first h p b ys n q o (e, f, s) = (ground arith, f, Seg-set_prev h b ys n b q o s)

-- A list is empty or has a last node.
pub data Snoc : List ℕ → Type 0 where
  nil : Snoc []
  snoc : (ys : List ℕ) (a : ℕ) {xs : List ℕ} → xs ≡ ys ++ (a ∷ []) → Snoc xs

pub Snoc-view : (xs : List ℕ) → Snoc xs
Snoc-view [] = nil
Snoc-view (x ∷ xs) = go (Snoc-view xs)
  where
    go : {zs : List ℕ} → Snoc zs → Snoc (x ∷ zs)
    go nil = snoc [] x refl
    go (snoc ys a e) = snoc (x ∷ ys) a (ap (λ l. x ∷ l) e)

pub last_or-snoc : (p : ℕ) (ys : List ℕ) (a : ℕ) → last_or p (ys ++ (a ∷ [])) ≡ a
last_or-snoc p [] a = refl
last_or-snoc p (y ∷ ys) a = last_or-snoc y ys a

length_from-Seg :
    (h : Heap) (p : ℕ) (xs : List ℕ) (k fuel : ℕ)
    → NotIn 0 xs
    → Seg h p xs 0
    → length xs < fuel
    → length_from fuel h (first_or 0 xs) k ≡ some (k + length xs)
unfolding length_from
length_from-Seg h p xs k zero o s f = absurd (omega arith)
length_from-Seg h p [] k (suc fuel) o s f = ground arith
length_from-Seg h p (x ∷ xs) k (suc fuel) (ne, o) (e, g, s) f =
    let go = length_from-Seg h x xs (k + 1) fuel o s (omega arith) in
    let more : (x == 0) ≡ false = ground arith in rw (more, g) (go ∙ ap some (omega arith))

-- dt_list_length() of a list ends, and is the number of its nodes; the fuel is for one round more.
list_length-IsList :
    (h : Heap) (dlp : ℕ) (xs : List ℕ) (fuel : ℕ)
    → IsList h dlp xs
    → length xs < fuel
    → list_length fuel h dlp ≡ some (length xs)
unfolding list_length
list_length-IsList h dlp xs fuel l f =
    ap (λ n. length_from fuel h n 0) l.head
    ∙ length_from-Seg h 0 xs 0 fuel l.nodes.1 l.links f
    ∙ ap some (omega arith)

pub last_or-append :
    (p : ℕ) (xs : List ℕ) (q : ℕ) (ys : List ℕ) → last_or p (xs ++ (q ∷ ys)) ≡ last_or q ys
last_or-append p [] q ys = refl
last_or-append p (x ∷ xs) q ys = last_or-append x xs q ys

pub NotIn-last_or : (d y : ℕ) (ys : List ℕ) → NotIn d (y ∷ ys) → d ≢ last_or y ys
NotIn-last_or d y [] (ne, o) = ne
NotIn-last_or d y (z ∷ ys) (ne, o) = NotIn-last_or d z ys o

pub Distinct-append :
    (xs : List ℕ) (q : ℕ) (ys : List ℕ)
    → Distinct (xs ++ (q ∷ ys))
    → Distinct xs × NotIn q xs × Distinct (q ∷ ys)
Distinct-append [] q ys d = (tt, tt, d)
Distinct-append (x ∷ xs) q ys (o, d) =
    let (a, b, c) = Distinct-append xs q ys d in
    let (l, r) = NotIn-append x xs (q ∷ ys) o in ((l, a), ((λ e. r.0 (sym e)), b), c)

-- A node of the front part is not in the back part.
pub NotIn-behind : (y : ℕ) (xs ys : List ℕ) → Distinct ((y ∷ xs) ++ ys) → NotIn (last_or y xs) ys
NotIn-behind y [] ys (o, d) = o
NotIn-behind y (x ∷ xs) ys (o, d) = NotIn-behind x xs ys d

pub NotIn-insert :
    (a b : ℕ) (xs ys : List ℕ) → NotIn a (xs ++ ys) → a ≢ b → NotIn a (xs ++ (b ∷ ys))
NotIn-insert a b [] ys o ne = (ne, o)
NotIn-insert a b (x ∷ xs) ys (n, o) ne = (n, NotIn-insert a b xs ys o ne)

pub NotIn-remove : (a b : ℕ) (xs ys : List ℕ) → NotIn a (xs ++ (b ∷ ys)) → NotIn a (xs ++ ys)
NotIn-remove a b [] ys (n, o) = o
NotIn-remove a b (x ∷ xs) ys (n, o) = (n, NotIn-remove a b xs ys o)

pub Distinct-insert :
    (b : ℕ) (xs ys : List ℕ) → Distinct (xs ++ ys) → NotIn b (xs ++ ys) → Distinct (xs ++ (b ∷ ys))
Distinct-insert b [] ys d o = (o, d)
Distinct-insert b (x ∷ xs) ys (n, d) (ne, o) =
    (NotIn-insert x b xs ys n (λ e. ne (sym e)), Distinct-insert b xs ys d o)

pub Distinct-remove : (b : ℕ) (xs ys : List ℕ) → Distinct (xs ++ (b ∷ ys)) → Distinct (xs ++ ys)
Distinct-remove b [] ys (n, d) = d
Distinct-remove b (x ∷ xs) ys (n, d) = (NotIn-remove x b xs ys n, Distinct-remove b xs ys d)
