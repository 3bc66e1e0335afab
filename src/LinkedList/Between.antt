-- ===== src/LinkedList/Between.antt =====
-- dt_list_insert().
use dtrace.Base.{
  ℕ, ◌≡◌, refl, sym, ◌∙◌, subst, ◌≢◌, true, false, ◌||◌, some, List, [], ◌∷◌, ◌++◌, arith, ◌==◌,
}
use mathlib.Core.List.{append-nil}
use dtrace.LinkedList.{Heap, set_prev, set_next, insert}
use dtrace.LinkedList.Append.{Lists, first_or-snoc, append-IsList}
use dtrace.LinkedList.Segment.{
  last_or, Seg, NotIn, Distinct, IsList, Seg-append, Seg-split, Seg-set_next, Seg-set_prev,
  NotIn-append, Seg-set_next_last, Seg-set_prev_first, last_or-snoc, last_or-append,
  Distinct-append, NotIn-insert, Distinct-insert,
}

-- The memory after a node is linked in between p and q.
abbrev linked : Heap → (new p q : ℕ) → Heap
linked h new p q = set_prev q new (set_next p new (set_prev new p (set_next new q h)))

linked_fields :
    (h : Heap) (new p q a : ℕ)
    → new ≢ p
    → new ≢ q
    → a ≢ new
    → ((linked h new p q).prev new ≡ p)
      × ((linked h new p q).next new ≡ q)
      × (a ≢ q → (linked h new p q).prev a ≡ h.prev a)
      × (a ≢ p → (linked h new p q).next a ≡ h.next a)
unfolding set_prev set_next
linked_fields h new p q a np nq na =
    (ground arith, ground arith, (λ k. ground arith), (λ k. ground arith))

insert_runs :
    (h : Heap) (dlp new p q : ℕ)
    → new ≢ p
    → 0 ≢ p
    → 0 ≢ q
    → h.next p ≡ q
    → insert h dlp p new ≡ some (linked h new p q)
unfolding insert
insert_runs h dlp new p q np zp zq e =
    let a : (p == 0) ≡ false = ground arith in
    let b : (q == 0) ≡ false = ground arith in
    let c : (set_next p new (set_prev new p (set_next new q h))).next new ≡ q =
      unfold set_prev set_next in ground arith in
    rw (e, a, b, c) refl

module _ (h : Heap) (dlp new : ℕ) (some_new : new ≢ 0) where
  insert_between :
      (pre : List ℕ) (p q : ℕ) (post : List ℕ)
      → IsList h dlp ((pre ++ (p ∷ [])) ++ (q ∷ post))
      → NotIn new (dlp ∷ ((pre ++ (p ∷ [])) ++ (q ∷ post)))
      → Lists
          (insert h dlp p new)
          h
          dlp
          new
          ((pre ++ (p ∷ [])) ++ (q ∷ post))
          ((pre ++ (p ∷ [])) ++ (new ∷ q ∷ post))
  insert_between pre p q post l (o, os) =
      let xs : List ℕ = pre ++ (p ∷ []) in
      let (fore, aft) = Seg-split h 0 (pre ++ (p ∷ [])) (q ∷ post) 0 l.links in
      let (d1, q_out, d2) = Distinct-append (pre ++ (p ∷ [])) q post l.apart.1 in
      let (new1, new2) = NotIn-append new (pre ++ (p ∷ [])) (q ∷ post) os in
      let (dlp1, dlp2) = NotIn-append dlp (pre ++ (p ∷ [])) (q ∷ post) l.apart.0 in
      let zeros = NotIn-append 0 (pre ++ (p ∷ [])) (q ∷ post) l.nodes.1 in
      let zero_p = (NotIn-append 0 pre (p ∷ []) zeros.0).1.0 in
      let new_p = (NotIn-append new pre (p ∷ []) new1).1.0 in
      let dlp_p = (NotIn-append dlp pre (p ∷ []) dlp1).1.0 in
      let p_at : last_or 0 (pre ++ (p ∷ [])) ≡ p = last_or-snoc 0 pre p in
      let p_next = (Seg-split h 0 pre (p ∷ []) q fore).1.1 in
      let p_out : NotIn p (q ∷ post) = p_behind pre p (q ∷ post) l.apart.1 in
      let f = linked_fields h new p q dlp new_p new2.0 (λ e. o (sym e)) in
      (
        linked h new p q,
        insert_runs h dlp new p q new_p zero_p zeros.1.0 p_next,
        record {
          head =
              f.3 dlp_p
              ∙ l.head
              ∙ first_or-snoc 0 pre p (q ∷ post)
              ∙ sym (first_or-snoc 0 pre p (new ∷ q ∷ post));
          tail =
              f.2 dlp2.0
              ∙ l.tail
              ∙ last_or-append 0 (pre ++ (p ∷ [])) q post
              ∙ sym (last_or-append 0 (pre ++ (p ∷ [])) new (q ∷ post));
          links =
              Seg-append (linked h new p q) 0 (pre ++ (p ∷ [])) (new ∷ q ∷ post) 0
                (Seg-set_prev _ 0 (pre ++ (p ∷ [])) new q new q_out (
                  Seg-set_next_last _ 0 pre p q new d1 (
                    Seg-set_prev _ 0 (pre ++ (p ∷ [])) q new p new1
                      (Seg-set_next h 0 (pre ++ (p ∷ [])) q new q new1 fore))))
                (
                  f.0 ∙ sym p_at,
                  f.1,
                  Seg-set_prev_first _ p q post 0 new d2.0 (
                      Seg-set_next _ p (q ∷ post) 0 p new p_out (
                        Seg-set_prev _ p (q ∷ post) 0 new p new2 (
                          Seg-set_next h p (q ∷ post) 0 new q new2
                            (subst (λ k. Seg h k (q ∷ post) 0) p_at aft)))),
                );
          nodes = (
            l.nodes.0,
            NotIn-insert 0 new (pre ++ (p ∷ [])) (q ∷ post) l.nodes.1 (λ e. some_new (sym e)),
          );
          apart = (
            NotIn-insert dlp new (pre ++ (p ∷ [])) (q ∷ post) l.apart.0 (λ e. o (sym e)),
            Distinct-insert new (pre ++ (p ∷ [])) (q ∷ post) l.apart.1 os,
          );
        },
        λ a out.
            let both = NotIn-append a (pre ++ (p ∷ [])) (q ∷ post) out.1.1 in
            let g = linked_fields h new p q a new_p new2.0 out.0 in
            (g.2 both.1.0, g.3 (NotIn-append a pre (p ∷ []) both.0).1.0),
      )
    where
      p_behind :
          (ys : List ℕ) (r : ℕ) (zs : List ℕ) → Distinct ((ys ++ (r ∷ [])) ++ zs) → NotIn r zs
      p_behind [] r zs d = d.0
      p_behind (y ∷ ys) r zs d = p_behind ys r zs d.1

  insert_last :
      (pre : List ℕ) (p : ℕ)
      → IsList h dlp (pre ++ (p ∷ []))
      → NotIn new (dlp ∷ (pre ++ (p ∷ [])))
      → Lists (insert h dlp p new) h dlp new (pre ++ (p ∷ [])) ((pre ++ (p ∷ [])) ++ (new ∷ []))
  unfolding insert
  insert_last pre p l o =
      let end : h.next p ≡ 0 = (Seg-split h 0 pre (p ∷ []) 0 l.links).1.1 in
      let same : ((p == 0) || (h.next p == 0)) ≡ true = ground (arith, end) in
      rw same (append-IsList h dlp new some_new (pre ++ (p ∷ [])) l o)

  -- dt_list_insert() of a node that is not NULL and not in the list, behind a node of the list,
  -- passes its asserts and puts it right behind that node; the pointers of nodes outside the list
  -- stay.
  insert-IsList :
      (pre : List ℕ) (p : ℕ) (post : List ℕ)
      → IsList h dlp ((pre ++ (p ∷ [])) ++ post)
      → NotIn new (dlp ∷ ((pre ++ (p ∷ [])) ++ post))
      → Lists
          (insert h dlp p new)
          h
          dlp
          new
          ((pre ++ (p ∷ [])) ++ post)
          ((pre ++ (p ∷ [])) ++ (new ∷ post))
  insert-IsList pre p (q ∷ post) l o = insert_between pre p q post l o
  insert-IsList pre p [] l o =
      let e = append-nil (pre ++ (p ∷ [])) in
      subst (λ ws. Lists (insert h dlp p new) h dlp new ws ((pre ++ (p ∷ [])) ++ (new ∷ [])))
        (sym e)
        (insert_last pre p (subst (λ ws. IsList h dlp ws) e l)
          (subst (λ ws. NotIn new (dlp ∷ ws)) e o))
