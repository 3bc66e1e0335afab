-- ===== src/StringCopy/Bounded.antt =====
-- What the bounded copies leave in memory.
use dtrace.Base.{
  ℕ, zero, suc, ◌+◌, ◌-◌, ◌≤◌, ◌<◌, ◌≡◌, refl, sym, ap, ◌∙◌, ◌≢◌, inl, inr, true, false, List, [],
  ◌∷◌, ◌++◌, arith, leb, ◌==◌, Bool-cases, leb→le, length, set, length-append, take, drop,
  length-take, take-append_add, take-append_le, take_all,
}
use mathlib.Core.List.{append_assoc}
use dtrace.StringCopy.{memcpy, strlcpy, find_end, strlcat}

abbrev pub IsText : List ℕ → Type 0
IsText [] = Unit {0}
IsText (c ∷ cs) = (c ≢ 0) × IsText cs

set-append : (xs ys : List ℕ) (k v : ℕ) → set (xs ++ ys) (length xs + k) v ≡ xs ++ set ys k v
set-append [] ys k v = let e : 0 + k ≡ k = omega arith in rw e refl
set-append (x ∷ xs) ys k v =
    let e : suc (length xs) + k ≡ suc (length xs + k) = omega arith in
    rw e (ap (λ l. x ∷ l) (set-append xs ys k v))

set-drop : (i : ℕ) (mem : List ℕ) → i < length mem → set (drop i mem) 0 0 ≡ 0 ∷ drop (i + 1) mem
set-drop i [] h = absurd (omega arith)
set-drop zero (c ∷ mem) h = refl
set-drop (suc i) (c ∷ mem) h =
    let e : suc i + 1 ≡ suc (i + 1) = omega arith in rw e (set-drop i mem (omega arith))

-- Bytes and a NUL put at an offset.
set-memcpy :
    (mem : List ℕ) (off : ℕ) (t : List ℕ)
    → off + length t < length mem
    → set (memcpy mem off t) (off + length t) 0
      ≡ (take off mem ++ t) ++ (0 ∷ drop (off + length t + 1) mem)
set-memcpy mem off t h =
    let front : length (take off mem ++ t) ≡ off + length t =
      omega (arith, length-append (take off mem) t, length-take off mem) in
    let at : off + length t ≡ length (take off mem ++ t) + 0 = omega (arith, front) in
    ap (λ l. set l (off + length t) 0)
      (sym (append_assoc (take off mem) t (drop (off + length t) mem)))
    ∙ ap (λ n. set ((take off mem ++ t) ++ drop (off + length t) mem) n 0) at
    ∙ set-append (take off mem ++ t) (drop (off + length t) mem) 0 0
    ∙ ap (λ l. (take off mem ++ t) ++ l) (set-drop (off + length t) mem h)

-- strlcpy() into memory of at least `len` bytes returns the length of the source; with len = 0 it
-- writes nothing, and else it leaves the first len - 1 bytes of the source, a NUL, and the rest of
-- the memory as it was.
pub strlcpy_bounded :
    (dst src : List ℕ) (len : ℕ)
    → len ≤ length dst
    → ((strlcpy dst src len).1 ≡ length src)
      × (len ≡ 0 → (strlcpy dst src len).0 ≡ dst)
      × (len ≢ 0
          → (strlcpy dst src len).0
            ≡ take (len - 1) src ++ (0 ∷ drop (length (take (len - 1) src) + 1) dst))
unfolding strlcpy
strlcpy_bounded dst src len h = (
  ground arith,
  (λ e. let z : (len == 0) ≡ true = ground arith in rw z refl),
  λ ne.
      let z : (len == 0) ≡ false = ground arith in
      elim (Bool-cases (leb len (length src))) [
        | inl cut ↦
            let k : length (take (len - 1) src) ≡ len - 1 =
              omega (arith, length-take (len - 1) src, leb→le _ _ cut, ne_pos len ne) in
            rw (z, cut)
              (placed dst (take (len - 1) src) (len - 1) (sym k) (omega (arith, ne_pos len ne)))
        | inr whole ↦
            let short : length src ≤ len - 1 = ground arith in
            rw (z, whole, take_all (len - 1) src short, take_all (length src) src (omega arith))
              (placed dst src (length src) refl (omega (arith, ne_pos len ne)))
      ],
)
  where
    ne_pos : (n : ℕ) → n ≢ 0 → 0 < n
    ne_pos n ne = ground arith

    placed :
        (mem t : List ℕ) (n : ℕ)
        → n ≡ length t
        → n < length mem
        → set (memcpy mem 0 t) n 0 ≡ t ++ (0 ∷ drop (length t + 1) mem)
    placed mem t n e k =
        let zero_ : 0 + length t ≡ length t = omega arith in
        let at : n ≡ 0 + length t = omega (arith, e) in
        ap (λ m. set (memcpy mem 0 t) m 0) at
        ∙ set-memcpy mem 0 t (omega (arith, e))
        ∙ ap (λ m. t ++ (0 ∷ drop (m + 1) mem)) zero_

find_end-text :
    (n : ℕ) (s rest : List ℕ) → IsText s → length s < n → find_end n (s ++ (0 ∷ rest)) ≡ length s
unfolding find_end
find_end-text zero s rest t h = absurd (omega arith)
find_end-text (suc n) [] rest t h = refl
find_end-text (suc n) (c ∷ s) rest (ne, t) h =
    let z : (c == 0) ≡ false = ground arith in
    rw (z, find_end-text n s rest t (omega arith)) (omega arith)

-- A string with bytes and a NUL put over its own NUL.
joined :
    (s rest t : List ℕ) (n : ℕ)
    → n ≡ length t
    → length s + length t < length (s ++ (0 ∷ rest))
    → (whole : List ℕ) → s ++ t ≡ whole
    → set (memcpy (s ++ (0 ∷ rest)) (length s) t) (length s + n) 0
      ≡ whole ++ (0 ∷ drop (length whole + 1) (s ++ (0 ∷ rest)))
joined s rest t n e h whole same =
    let mem : List ℕ = s ++ (0 ∷ rest) in
    let front : take (length s) (s ++ (0 ∷ rest)) ≡ s =
      take-append_le (length s) s (0 ∷ rest) (omega arith) ∙ take_all (length s) s (omega arith) in
    let size : length s + length t ≡ length whole = sym (length-append s t) ∙ ap length same in
    ap (λ i. set (memcpy (s ++ (0 ∷ rest)) (length s) t) (length s + i) 0) e
    ∙ set-memcpy (s ++ (0 ∷ rest)) (length s) t h
    ∙ ap (λ l. (l ++ t) ++ (0 ∷ drop (length s + length t + 1) (s ++ (0 ∷ rest)))) front
    ∙ ap (λ l. l ++ (0 ∷ drop (length s + length t + 1) (s ++ (0 ∷ rest)))) same
    ∙ ap (λ i. whole ++ (0 ∷ drop (i + 1) (s ++ (0 ∷ rest)))) size

-- strlcat() to a string that ends within the `dstsize` bytes of its memory returns the length that
-- both strings have together, and leaves as much of the two, one behind the other, as fits with a
-- NUL, then the NUL, and the rest of the memory as it was.
pub strlcat_bounded :
    (s rest src : List ℕ) (dstsize : ℕ)
    → IsText s
    → length s < dstsize
    → dstsize ≤ length (s ++ (0 ∷ rest))
    → ((strlcat (s ++ (0 ∷ rest)) src dstsize).1 ≡ length s + length src)
      × ((strlcat (s ++ (0 ∷ rest)) src dstsize).0
          ≡ take (dstsize - 1) (s ++ src)
            ++ (0 ∷ drop (length (take (dstsize - 1) (s ++ src)) + 1) (s ++ (0 ∷ rest))))
unfolding strlcat
strlcat_bounded s rest src dstsize t fits room =
    let end = find_end-text dstsize s rest t fits in
    let ne : (dstsize == length s) ≡ false = ground arith in
    elim (Bool-cases (leb dstsize (length s + length src))) [
      | inl cut ↦
          let n = dstsize - length s - 1 in
          let k : length (take n src) ≡ n = omega (arith, length-take n src, leb→le _ _ cut) in
          let m : dstsize - 1 ≡ length s + n = omega arith in
          let same : s ++ take n src ≡ take (dstsize - 1) (s ++ src) =
            sym (ap (λ i. take i (s ++ src)) m ∙ take-append_add s src n) in
          rw (end, ne, cut)
            (refl, joined s rest (take n src) n (sym k) (omega (arith, room, k)) _ same)
      | inr whole ↦
          let short : length (s ++ src) ≤ dstsize - 1 =
            omega (arith, length-append s src, below whole) in
          let same : s ++ src ≡ take (dstsize - 1) (s ++ src) =
            sym (take_all (dstsize - 1) (s ++ src) short) in
          rw (end, ne, whole, take_all (length src) src (omega arith))
            (
              refl,
              joined s rest src (length src) refl (omega (arith, room, length-append s src, short))
                  _ same,
            )
    ]
  where
    below : leb dstsize (length s + length src) ≡ false → length s + length src < dstsize
    below e = ground arith
