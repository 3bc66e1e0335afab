-- ===== src/LinkedList/Removal.antt =====
-- dt_list_delete().
use dtrace.Base.{
  ℕ, ◌≡◌, refl, sym, ap, ◌∙◌, subst, ◌≢◌, true, false, List, [], ◌∷◌, ◌++◌, arith, ◌==◌,
}
use mathlib.Core.List.{append-nil}
use dtrace.LinkedList.{Heap, set_prev, set_next, unlink_next, unlink_prev, delete}
use dtrace.LinkedList.Segment.{
  first_or, last_or, Seg, NotIn, Distinct, IsList, SameElsewhere, Seg-append, Seg-split,
  Seg-set_next, Seg-set_prev, NotIn-append, Seg-set_next_last, Seg-set_prev_first, Snoc, nil, snoc,
  Snoc-view, last_or-snoc, last_or-append, NotIn-last_or, next-set_next_self, next-set_next_ne,
  prev-set_prev_self, prev-set_prev_ne, Distinct-append, NotIn-behind, NotIn-remove,
  Distinct-remove,
}

-- The memory after the neighbours, or the list itself, are linked past a node.
abbrev past : Heap → (dlp : ℕ) (pre post : List ℕ) → Heap
past h dlp pre post =
    set_prev (first_or dlp post) (last_or 0 pre) (set_next (last_or dlp pre) (first_or 0 post) h)

unlink_next_runs :
    (h : Heap) (dlp x : ℕ) (pre : List ℕ) (m : ℕ)
    → NotIn 0 pre
    → h.prev x ≡ last_or 0 pre
    → h.next x ≡ m
    → unlink_next h dlp x ≡ set_next (last_or dlp pre) m h
unfolding unlink_next
unlink_next_runs h dlp x [] m o e f =
    let z : (h.prev x == 0) ≡ true = ground arith in rw (z, f) refl
unlink_next_runs h dlp x (y ∷ pre) m o e f =
    let ne = NotIn-last_or 0 y pre o in
    let z : (h.prev x == 0) ≡ false = ground arith in rw (z, f) (ap (λ k. set_next k m h) e)

unlink_prev_runs :
    (h : Heap) (dlp x : ℕ) (post : List ℕ) (v : ℕ)
    → NotIn 0 post
    → h.next x ≡ first_or 0 post
    → h.prev x ≡ v
    → unlink_prev h dlp x ≡ set_prev (first_or dlp post) v h
unfolding unlink_prev
unlink_prev_runs h dlp x [] v o e f =
    let z : (h.next x == 0) ≡ true = ground arith in rw (z, f) refl
unlink_prev_runs h dlp x (y ∷ post) v (ne, o) e f =
    let z : (h.next x == 0) ≡ false = ground arith in rw (z, f) (ap (λ k. set_prev k v h) e)

delete_runs :
    (h : Heap) (dlp x : ℕ) (pre post : List ℕ)
    → NotIn 0 pre
    → NotIn 0 post
    → x ≢ last_or dlp pre
    → h.prev x ≡ last_or 0 pre
    → h.next x ≡ first_or 0 post
    → delete h dlp x ≡ past h dlp pre post
unfolding delete
delete_runs h dlp x pre post a b ne e f =
    ap (λ k. unlink_prev k dlp x) (unlink_next_runs h dlp x pre (first_or 0 post) a e f)
    ∙ unlink_prev_runs (set_next (last_or dlp pre) (first_or 0 post) h) dlp x post (last_or 0 pre) b
        (next-set_next_ne h (last_or dlp pre) (first_or 0 post) x ne ∙ f) (unfold set_next in e)

front-Seg :
    (h : Heap) (dlp : ℕ) (pre : List ℕ) (x m n v : ℕ)
    → Distinct pre
    → NotIn n pre
    → Seg h 0 pre x
    → Seg (set_prev n v (set_next (last_or dlp pre) m h)) 0 pre m
front-Seg h dlp pre x m n v d o s = go (Snoc-view pre) d o s
  where
    go :
        {zs : List ℕ}
        → Snoc zs
        → Distinct zs
        → NotIn n zs
        → Seg h 0 zs x
        → Seg (set_prev n v (set_next (last_or dlp zs) m h)) 0 zs m
    go nil k q t = tt
    go (snoc ys a {xs = zs} e) k q t =
        subst (λ ws. Seg (set_prev n v (set_next (last_or dlp ws) m h)) 0 ws m) (sym e)
          (Seg-set_prev _ 0 (ys ++ (a ∷ [])) m n v (subst (λ ws. NotIn n ws) e q) (
            subst (λ b. Seg (set_next b m h) 0 (ys ++ (a ∷ [])) m) (sym (last_or-snoc dlp ys a))
              (Seg-set_next_last h 0 ys a x m (subst (λ ws. Distinct ws) e k)
                (subst (λ ws. Seg h 0 ws x) e t))))

back-Seg :
    (h : Heap) (dlp : ℕ) (post : List ℕ) (x v p m : ℕ)
    → Distinct post
    → NotIn p post
    → Seg h x post 0
    → Seg (set_prev (first_or dlp post) v (set_next p m h)) v post 0
back-Seg h dlp [] x v p m d o s = tt
back-Seg h dlp (b ∷ ys) x v p m d o s =
    Seg-set_prev_first (set_next p m h) x b ys 0 v d.0 (Seg-set_next h x (b ∷ ys) 0 p m o s)

head_past :
    (h : Heap) (dlp : ℕ) (pre post : List ℕ) (x : ℕ)
    → NotIn dlp pre
    → h.next dlp ≡ first_or 0 (pre ++ (x ∷ post))
    → (past h dlp pre post).next dlp ≡ first_or 0 (pre ++ post)
unfolding set_prev
head_past h dlp [] post x o e = next-set_next_self h dlp (first_or 0 post)
head_past h dlp (y ∷ pre) post x o e =
    next-set_next_ne h (last_or y pre) (first_or 0 post) dlp (NotIn-last_or dlp y pre o) ∙ e

tail_past :
    (h : Heap) (dlp : ℕ) (pre post : List ℕ) (x : ℕ)
    → NotIn dlp post
    → h.prev dlp ≡ last_or 0 (pre ++ (x ∷ post))
    → (past h dlp pre post).prev dlp ≡ last_or 0 (pre ++ post)
unfolding set_next
tail_past h dlp pre [] x o e =
    prev-set_prev_self _ dlp (last_or 0 pre) ∙ ap (λ l. last_or 0 l) (sym (append-nil pre))
tail_past h dlp pre (q ∷ post) x (ne, o) e =
    prev-set_prev_ne (set_next (last_or dlp pre) q h) q (last_or 0 pre) dlp ne
    ∙ e
    ∙ last_or-append 0 pre x (q ∷ post)
    ∙ sym (last_or-append 0 pre q post)

same_past :
    (h : Heap) (dlp : ℕ) (pre post : List ℕ) (a : ℕ)
    → NotIn a (dlp ∷ (pre ++ post))
    → ((past h dlp pre post).prev a ≡ h.prev a) × ((past h dlp pre post).next a ≡ h.next a)
unfolding set_prev set_next
same_past h dlp pre post a (ne, o) =
    let (l, r) = NotIn-append a pre post o in
    (
      prev-set_prev_ne (set_next (last_or dlp pre) (first_or 0 post) h) (first_or dlp post)
          (last_or 0 pre) a (not_first post r),
      next-set_next_ne h (last_or dlp pre) (first_or 0 post) a (not_last pre l),
    )
  where
    not_first : (ys : List ℕ) → NotIn a ys → a ≢ first_or dlp ys
    not_first [] k = ne
    not_first (y ∷ ys) k = k.0

    not_last : (ys : List ℕ) → NotIn a ys → a ≢ last_or dlp ys
    not_last [] k = ne
    not_last (y ∷ ys) k = NotIn-last_or a y ys k

-- The node behind is not one before, and the other way round.
first_out :
    (h : Heap) (dlp : ℕ) (pre : List ℕ) (x : ℕ) (post : List ℕ)
    → IsList h dlp (pre ++ (x ∷ post))
    → NotIn (first_or dlp post) pre
first_out h dlp pre x [] l = (NotIn-append dlp pre (x ∷ []) l.apart.0).0
first_out h dlp pre x (q ∷ post) l =
    (Distinct-append pre q post (Distinct-remove x pre (q ∷ post) l.apart.1)).1

last_out :
    (h : Heap) (dlp : ℕ) (pre : List ℕ) (x : ℕ) (post : List ℕ)
    → IsList h dlp (pre ++ (x ∷ post))
    → NotIn (last_or dlp pre) post
last_out h dlp [] x post l = l.apart.0.1
last_out h dlp (y ∷ pre) x post l =
    NotIn-behind y pre post (Distinct-remove x (y ∷ pre) post l.apart.1)

-- dt_list_delete() of a node of the list takes it out and leaves the others in their order; the
-- pointers of the node and of those outside the list stay.
pub delete-IsList :
    (h : Heap) (dlp : ℕ) (pre : List ℕ) (x : ℕ) (post : List ℕ)
    → IsList h dlp (pre ++ (x ∷ post))
    → IsList (delete h dlp x) dlp (pre ++ post)
      × SameElsewhere (dlp ∷ (pre ++ post)) h (delete h dlp x)
delete-IsList h dlp pre x post l =
    let (fore, aft) = Seg-split h 0 pre (x ∷ post) 0 l.links in
    let (d1, x_out, d2) = Distinct-append pre x post l.apart.1 in
    let zeros = NotIn-append 0 pre (x ∷ post) l.nodes.1 in
    let dlps = NotIn-append dlp pre (x ∷ post) l.apart.0 in
    let run =
      delete_runs h dlp x pre post zeros.0 zeros.1.1 (not_last_of pre x_out (λ e. dlps.1.0 (sym e)))
        aft.0 aft.1 in
    subst (λ k. IsList k dlp (pre ++ post) × SameElsewhere (dlp ∷ (pre ++ post)) h k) (sym run)
      (
        record {
          head = head_past h dlp pre post x dlps.0 l.head;
          tail = tail_past h dlp pre post x dlps.1.1 l.tail;
          links =
              Seg-append (past h dlp pre post) 0 pre post 0
                (front-Seg h dlp pre x (first_or 0 post) (first_or dlp post) (last_or 0 pre) d1
                  (first_out h dlp pre x post l) fore)
                (back-Seg h dlp post x (last_or 0 pre) (last_or dlp pre) (first_or 0 post) d2.1
                  (last_out h dlp pre x post l) aft.2);
          nodes = (l.nodes.0, NotIn-remove 0 x pre post l.nodes.1);
          apart = (NotIn-remove dlp x pre post l.apart.0, Distinct-remove x pre post l.apart.1);
        },
        same_past h dlp pre post,
      )
  where
    not_last_of : (ys : List ℕ) → NotIn x ys → x ≢ dlp → x ≢ last_or dlp ys
    not_last_of [] k ne = ne
    not_last_of (y ∷ ys) k ne = NotIn-last_or x y ys k
