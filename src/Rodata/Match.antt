-- ===== src/Rodata/Match.antt =====
-- dt_rodata_compare() over the pieces of the buffers compares with the run of bytes.
use dtrace.Base.{
  ℕ, zero, suc, ◌+◌, ◌-◌, ◌*◌, ◌≤◌, ◌<◌, min, ◌≡◌, refl, sym, ap, ◌∙◌, inl, inr, true, some, List,
  [], ◌∷◌, arith, leb, ◌==◌, if◌then◌else◌, Bool-cases, length, get_or, take, drop, length-drop,
}
use native.Mathlib.Nat.{mul-le-mul_right, add-mul, suc-mul, add_assoc}
use dtrace.Strtab.Flat.{AllLength, flat, length-flat, piece-flat, drop-drop}
use dtrace.Rodata.{Comparison, memcmp, outside, same, differs, compare_from, wrap}

-- What the comparison with a run of bytes comes to; behind its end it goes astray.
unfoldable pub match_at : List ℕ → List ℕ → Comparison
match_at [] xs = same
match_at (y ∷ ys) [] = outside
match_at (y ∷ ys) (x ∷ xs) = if x == y then match_at ys xs else differs

-- A piece of n bytes before the rest.
match_at-memcmp :
    (n : ℕ) (ptr xs : List ℕ)
    → n ≤ length ptr
    → n ≤ length xs
    → match_at ptr xs
      ≡ (if memcmp (take n xs) (take n ptr) then match_at (drop n ptr) (drop n xs) else differs)
unfolding match_at memcmp
match_at-memcmp zero ptr xs h k = refl
match_at-memcmp (suc n) [] xs h k = absurd (omega arith)
match_at-memcmp (suc n) (y ∷ ys) [] h k = absurd (omega arith)
match_at-memcmp (suc n) (y ∷ ys) (x ∷ xs) h k = elim (Bool-cases (x == y)) [
  | inr other ↦ rw other refl
  | inl eq ↦ rw eq (match_at-memcmp n ys xs (omega arith) (omega arith))
]

match_at_end :
    (c : ℕ) (cs xs : List ℕ) (p : ℕ) → length xs ≤ p → match_at (c ∷ cs) (drop p xs) ≡ outside
unfolding match_at
match_at_end c cs [] zero h = refl
match_at_end c cs (x ∷ xs) zero h = absurd (omega arith)
match_at_end c cs [] (suc p) h = refl
match_at_end c cs (x ∷ xs) (suc p) h = match_at_end c cs xs p (omega arith)

module _ (z : ℕ) (bufs : List (List ℕ)) (full : AllLength z bufs) where
  -- One round, once the place has been moved on.
  round :
      (fuel b at c : ℕ) (cs : List ℕ)
      → at < z
      → ((n : ℕ)
          → 0 < n
          → at + n ≤ z
          → compare_from fuel z bufs b (at + n) (drop n (c ∷ cs))
            ≡ some (match_at (drop n (c ∷ cs)) (drop (b * z + (at + n)) (flat bufs))))
      → (if leb (length bufs) b
          then some outside
          else if memcmp
              (take (min (z - at) (length (c ∷ cs))) (drop at (get_or bufs b [])))
              (take (min (z - at) (length (c ∷ cs))) (c ∷ cs))
          then compare_from fuel z bufs b
              (at + min (z - at) (length (c ∷ cs)))
              (drop (min (z - at) (length (c ∷ cs))) (c ∷ cs))
          else some differs)
        ≡ some (match_at (c ∷ cs) (drop (b * z + at) (flat bufs)))
  round fuel b at c cs inside ih = elim (Bool-cases (leb (length bufs) b)) [
    | inl beyond ↦
        let more : length bufs * z ≤ b * z = mul-le-mul_right z (ground arith) in
        rw beyond (
          ap some (
            sym (
              match_at_end c cs (flat bufs) (b * z + at)
                (omega (arith, more, length-flat z bufs full)))))
    | inr k' ↦
        let k : b < length bufs = ground arith in
        let n = min (z - at) (length (c ∷ cs)) in
        let xs = drop (b * z + at) (flat bufs) in
        let room : b * z + z ≤ length bufs * z =
          omega (arith, mul-le-mul_right {m = suc b} {n = length bufs} z k, suc-mul b z) in
        let long : n ≤ length xs =
          omega (arith, length-drop (b * z + at) (flat bufs), length-flat z bufs full) in
        let piece = piece-flat z bufs b at n full k (omega arith) in
        let split = match_at-memcmp n (c ∷ cs) xs (omega arith) long in
        let further : drop n xs ≡ drop (b * z + (at + n)) (flat bufs) =
          drop-drop n (b * z + at) (flat bufs)
          ∙ ap (λ m. drop m (flat bufs)) (add_assoc (b * z) at n) in
        elim (Bool-cases (memcmp (take n xs) (take n (c ∷ cs)))) [
          | inl eq ↦
              rw (k', piece, eq)
                (ih n (omega arith) (omega arith)
                  ∙ ap (λ l. some (match_at (drop n (c ∷ cs)) l)) (sym further)
                  ∙ ap some (sym (split ∙ rw eq refl)))
          | inr other ↦ rw (k', piece, other) (ap some (sym (split ∙ rw other refl)))
        ]
  ]

  pub compare_from-match_at :
      (fuel b at : ℕ) (ptr : List ℕ)
      → 0 < z
      → length ptr < fuel
      → at ≤ z
      → compare_from fuel z bufs b at ptr ≡ some (match_at ptr (drop (b * z + at) (flat bufs)))
  unfolding compare_from
  compare_from-match_at zero b at ptr pos h k = absurd (omega arith)
  compare_from-match_at (suc fuel) b at [] pos h k = unfold match_at in refl
  compare_from-match_at (suc fuel) b at (c ∷ cs) pos h k = elim (Bool-cases (at == z)) [
    | inr inside ↦
        rw (inside, wrap)
          (round fuel b at c cs (ground arith) (λ n p f.
            compare_from-match_at fuel b (at + n) (drop n (c ∷ cs)) pos
              (omega (arith, length-drop n (c ∷ cs))) f))
    | inl end ↦
        let e : b * z + at ≡ (b + 1) * z + 0 = omega (arith, ends_at at end, add-mul b 1 z) in
        rw (end, wrap)
          (round fuel (b + 1) 0 c cs pos (λ n p f.
              compare_from-match_at fuel (b + 1) (0 + n) (drop n (c ∷ cs)) pos
                (omega (arith, length-drop n (c ∷ cs))) f)
            ∙ ap (λ m. some (match_at (c ∷ cs) (drop m (flat bufs)))) (sym e))
  ]
    where
      ends_at : (a : ℕ) → (a == z) ≡ true → a ≡ z
      ends_at a e = ground arith
