-- ===== src/LinkedList/Append.antt =====
-- dt_list_append() and dt_list_prepend().
use dtrace.Base.{
  ℕ, ◌≡◌, refl, sym, ◌∙◌, subst, ◌≢◌, false, Option, some, List, [], ◌∷◌, ◌++◌, arith, ◌==◌,
  if◌then◌else◌,
}
use dtrace.LinkedList.{Heap, set_prev, set_next, append, prepend}
use dtrace.LinkedList.Segment.{
  first_or, NotIn, Distinct, IsList, SameElsewhere, Seg-append, Seg-split, Seg-set_next,
  Seg-set_prev, NotIn-append, Seg-set_next_last, Seg-set_prev_first, Snoc, nil, snoc, Snoc-view,
  last_or-snoc,
}

-- A call that passes its asserts and leaves the stated nodes in the list.
abbrev pub Lists : Option Heap → Heap → (dlp new : ℕ) → (before after : List ℕ) → Type 0
Lists o h dlp new before after =
    (h' : Heap) × (o ≡ some h') × IsList h' dlp after × SameElsewhere (new ∷ dlp ∷ before) h h'

NotIn-snoc : (a b : ℕ) (xs : List ℕ) → NotIn a xs → a ≢ b → NotIn a (xs ++ (b ∷ []))
NotIn-snoc a b [] o ne = (ne, tt)
NotIn-snoc a b (x ∷ xs) (n, o) ne = (n, NotIn-snoc a b xs o ne)

Distinct-snoc : (b : ℕ) (xs : List ℕ) → Distinct xs → NotIn b xs → Distinct (xs ++ (b ∷ []))
Distinct-snoc b [] d o = (tt, tt)
Distinct-snoc b (x ∷ xs) (n, d) (ne, o) =
    (NotIn-snoc x b xs n (λ e. ne (sym e)), Distinct-snoc b xs d o)

pub first_or-snoc :
    (n : ℕ) (xs : List ℕ) (b : ℕ) (ys : List ℕ)
    → first_or n ((xs ++ (b ∷ [])) ++ ys) ≡ first_or n (xs ++ (b ∷ []))
first_or-snoc n [] b ys = refl
first_or-snoc n (x ∷ xs) b ys = refl

abbrev prepended : Heap → (dlp new b : ℕ) → Heap
prepended h dlp new b = set_prev b new (set_next new b (set_prev new 0 (set_next dlp new h)))

prepended_fields :
    (h : Heap) (dlp new b : ℕ)
    → new ≢ dlp
    → new ≢ b
    → dlp ≢ b
    → ((prepended h dlp new b).next dlp ≡ new)
      × ((prepended h dlp new b).prev dlp ≡ h.prev dlp)
      × ((prepended h dlp new b).prev new ≡ 0)
      × ((prepended h dlp new b).next new ≡ b)
unfolding set_prev set_next
prepended_fields h dlp new b o ob db = (ground arith, ground arith, ground arith, ground arith)

prepended_same :
    (h : Heap) (dlp new b a : ℕ)
    → a ≢ new
    → a ≢ dlp
    → a ≢ b
    → ((prepended h dlp new b).prev a ≡ h.prev a) × ((prepended h dlp new b).next a ≡ h.next a)
unfolding set_prev set_next
prepended_same h dlp new b a o ob db = (ground arith, ground arith)

prepend_runs :
    (h : Heap) (dlp new b : ℕ)
    → new ≢ dlp
    → new ≢ b
    → dlp ≢ b
    → 0 ≢ b
    → h.next dlp ≡ b
    → h.prev b ≡ 0
    → prepend h dlp new ≡ some (prepended h dlp new b)
unfolding prepend set_prev set_next
prepend_runs h dlp new b o ob db z e f =
    let some_ : (b == 0) ≡ false = ground arith in
    let ok : (if b == new then 0 else h.prev b) ≡ 0 = ground arith in rw (e, some_, ok) refl

module _ (h : Heap) (dlp new : ℕ) (some_new : new ≢ 0) where
  append_empty :
      IsList h dlp [] → NotIn new (dlp ∷ []) → Lists (append h dlp new) h dlp new [] (new ∷ [])
  unfolding append set_prev set_next
  append_empty l o = (
    set_next dlp new (set_next new 0 (set_prev new (h.prev dlp) (set_prev dlp new h))),
    ground (arith, l.head, l.tail, o.0),
    record {
      head = ground (arith, o.0);
      tail = ground (arith, o.0);
      links = (ground (arith, l.tail, o.0), ground (arith, o.0), tt);
      nodes = (l.nodes.0, ((λ e. some_new (sym e)), tt));
      apart = (((λ e. o.0 (sym e)), tt), (tt, tt));
    },
    λ a out. (ground (arith, out.0, out.1.0), ground (arith, out.0, out.1.0)),
  )

  append_snoc :
      (ys : List ℕ) (a : ℕ)
      → IsList h dlp (ys ++ (a ∷ []))
      → NotIn new (dlp ∷ (ys ++ (a ∷ [])))
      → Lists (append h dlp new) h dlp new (ys ++ (a ∷ [])) ((ys ++ (a ∷ [])) ++ (new ∷ []))
  unfolding append
  append_snoc ys a l (o, os) =
      let tail : h.prev dlp ≡ a = l.tail ∙ last_or-snoc 0 ys a in
      let split = Seg-split h 0 ys (a ∷ []) 0 l.links in
      let a_out = NotIn-append new ys (a ∷ []) os in
      let dlp_out = NotIn-append dlp ys (a ∷ []) l.apart.0 in
      let zero_out = NotIn-append 0 ys (a ∷ []) l.nodes.1 in
      let h3 = set_next new 0 (set_prev new a (set_prev dlp new h)) in
      let end : h.next a ≡ 0 = split.1.1 in
      let head' : (set_next a new h3).next dlp ≡ h.next dlp =
        unfold set_prev set_next in ground (arith, dlp_out.1.0, o) in
      let tail' : (set_next a new h3).prev dlp ≡ new =
        unfold set_prev set_next in ground (arith, o) in
      let back : (set_next a new h3).prev new ≡ a = unfold set_prev set_next in ground (arith, o) in
      (
        set_next a new h3,
        unfold set_prev set_next in
            ground (arith, tail, end, a_out.1.0, dlp_out.1.0, zero_out.1.0, o),
        record {
          head = head' ∙ l.head ∙ sym (first_or-snoc 0 ys a (new ∷ []));
          tail = tail' ∙ sym (last_or-snoc 0 (ys ++ (a ∷ [])) new);
          links =
              Seg-append (set_next a new h3) 0 (ys ++ (a ∷ [])) (new ∷ []) 0
                (Seg-set_next_last h3 0 ys a 0 new l.apart.1 (
                  Seg-set_next _ 0 (ys ++ (a ∷ [])) 0 new 0 os (
                    Seg-set_prev _ 0 (ys ++ (a ∷ [])) 0 new a os
                      (Seg-set_prev h 0 (ys ++ (a ∷ [])) 0 dlp new l.apart.0 l.links))))
                (
                  back ∙ sym (last_or-snoc 0 ys a),
                  unfold set_prev set_next in ground (arith, a_out.1.0),
                  tt,
                );
          nodes = (l.nodes.0, NotIn-snoc 0 new (ys ++ (a ∷ [])) l.nodes.1 (λ e. some_new (sym e)));
          apart = (
            NotIn-snoc dlp new (ys ++ (a ∷ [])) l.apart.0 (λ e. o (sym e)),
            Distinct-snoc new (ys ++ (a ∷ [])) l.apart.1 os,
          );
        },
        λ b out.
            let b_out = NotIn-append b ys (a ∷ []) out.1.1 in
            (
              unfold set_prev set_next in ground (arith, out.0, out.1.0),
              unfold set_prev set_next in ground (arith, out.0, b_out.1.0),
            ),
      )

  -- dt_list_append() of a node that is not NULL and not in the list passes its asserts and puts the
  -- node behind the others; the pointers of nodes outside the list stay.
  pub append-IsList :
      (xs : List ℕ)
      → IsList h dlp xs
      → NotIn new (dlp ∷ xs)
      → Lists (append h dlp new) h dlp new xs (xs ++ (new ∷ []))
  append-IsList xs l o = go (Snoc-view xs) l o
    where
      go :
          {zs : List ℕ}
          → Snoc zs
          → IsList h dlp zs
          → NotIn new (dlp ∷ zs)
          → Lists (append h dlp new) h dlp new zs (zs ++ (new ∷ []))
      go nil k q = append_empty k q
      go (snoc ys a {xs = zs} e) k q =
          subst (λ ws. Lists (append h dlp new) h dlp new ws (ws ++ (new ∷ []))) (sym e)
            (append_snoc ys a (subst (λ ws. IsList h dlp ws) e k)
              (subst (λ ws. NotIn new (dlp ∷ ws)) e q))

  prepend_some :
      (b : ℕ) (ys : List ℕ)
      → IsList h dlp (b ∷ ys)
      → NotIn new (dlp ∷ b ∷ ys)
      → Lists (prepend h dlp new) h dlp new (b ∷ ys) (new ∷ b ∷ ys)
  prepend_some b ys l (o, (ob, os)) =
      let h3 = set_next new b (set_prev new 0 (set_next dlp new h)) in
      let (head, tail, back, ahead) = prepended_fields h dlp new b o ob l.apart.0.0 in
      (
        prepended h dlp new b,
        prepend_runs h dlp new b o ob l.apart.0.0 l.nodes.1.0 l.head l.links.0,
        record {
          head = head;
          tail = tail ∙ l.tail;
          links = (
            back,
            ahead,
            Seg-set_prev_first h3 0 b ys 0 new l.apart.1.0 (
                Seg-set_next _ 0 (b ∷ ys) 0 new b (ob, os)
                  (Seg-set_prev _ 0 (b ∷ ys) 0 new 0 (ob, os)
                    (Seg-set_next h 0 (b ∷ ys) 0 dlp new l.apart.0 l.links))),
          );
          nodes = (l.nodes.0, ((λ e. some_new (sym e)), l.nodes.1));
          apart = (((λ e. o (sym e)), l.apart.0), ((ob, os), l.apart.1));
        },
        λ a out. prepended_same h dlp new b a out.0 out.1.0 out.1.1.0,
      )

  prepend_empty :
      IsList h dlp [] → NotIn new (dlp ∷ []) → Lists (prepend h dlp new) h dlp new [] (new ∷ [])
  unfolding prepend set_prev set_next
  prepend_empty l o = (
    set_prev dlp new (set_next new (h.next dlp) (set_prev new 0 (set_next dlp new h))),
    ground (arith, l.head, l.tail, o.0),
    record {
      head = ground (arith, o.0);
      tail = ground (arith, o.0);
      links = (ground (arith, l.tail, o.0), ground (arith, o.0, l.head), tt);
      nodes = (l.nodes.0, ((λ e. some_new (sym e)), tt));
      apart = (((λ e. o.0 (sym e)), tt), (tt, tt));
    },
    λ a out. (ground (arith, out.0, out.1.0), ground (arith, out.0, out.1.0)),
  )

  -- dt_list_prepend() of a node that is not NULL and not in the list passes its asserts and puts the
  -- node in front of the others; the pointers of nodes outside the list stay.
  pub prepend-IsList :
      (xs : List ℕ)
      → IsList h dlp xs
      → NotIn new (dlp ∷ xs)
      → Lists (prepend h dlp new) h dlp new xs (new ∷ xs)
  prepend-IsList [] l o = prepend_empty l o
  prepend-IsList (b ∷ ys) l o = prepend_some b ys l o
