-- ===== src/Strtab/Compare.antt =====
-- dt_strtab_compare() over the pieces of the buffers compares with the run of bytes.
use dtrace.Base.{
  ℕ, zero, suc, ◌+◌, ◌-◌, ◌*◌, ◌≤◌, ◌<◌, min, ◌≡◌, refl, sym, ap, ◌∙◌, subst, ◌⊎◌, inl, inr, Bool,
  true, false, ◌&&◌, some, List, [], ◌∷◌, arith, ltb, ◌==◌, if◌then◌else◌, Bool-cases, ltb→lt,
  length, get_or, take, drop, length-drop,
}
use native.Mathlib.Nat.{mul-le-mul_right, suc-mul, add_assoc, add-mul}
use dtrace.Strtab.{strncmp, wrap, compare_from}
use dtrace.Strtab.Flat.{drop-drop, flat, AllLength, length-flat, piece-flat}

-- Whether a run of bytes begins with a string.
unfoldable pub prefix : List ℕ → List ℕ → Bool
prefix [] xs = true
prefix (y ∷ ys) [] = false
prefix (y ∷ ys) (x ∷ xs) = (x == y) && prefix ys xs

-- Bytes of which only the last may be the NUL.
abbrev pub IsStr : List ℕ → Type 0
IsStr [] = Unit {0}
IsStr (y ∷ ys) = (y ≡ 0 → ys ≡ []) × IsStr ys

abbrev pub HasNul : List ℕ → Type 0
HasNul [] = ⊥
HasNul (x ∷ xs) = (x ≡ 0) ⊎ HasNul xs

prefix-strncmp :
    (n : ℕ) (str xs : List ℕ)
    → IsStr str
    → n ≤ length str
    → n ≤ length xs
    → prefix str xs ≡ (strncmp (take n xs) (take n str) && prefix (drop n str) (drop n xs))
unfolding prefix strncmp
prefix-strncmp zero str xs s h k = refl
prefix-strncmp (suc n) [] xs s h k = absurd (omega arith)
prefix-strncmp (suc n) (y ∷ ys) [] s h k = absurd (omega arith)
prefix-strncmp (suc n) (y ∷ ys) (x ∷ xs) (s, ss) h k = elim (Bool-cases (x == y)) [
  | inr other ↦ rw other refl
  | inl same ↦ elim (Bool-cases (x == 0)) [
    | inr more ↦ rw (same, more) (prefix-strncmp n ys xs ss (omega arith) (omega arith))
    | inl nul ↦
        let e : ys ≡ [] = s (ground arith) in
        let z : n ≡ 0 = omega (arith, ap length e) in rw (same, nul, e, z) (unfold prefix in refl)
  ]
]

IsStr-drop : (n : ℕ) (str : List ℕ) → IsStr str → IsStr (drop n str)
IsStr-drop zero str s = s
IsStr-drop (suc n) [] s = tt
IsStr-drop (suc n) (y ∷ ys) (s, ss) = IsStr-drop n ys ss

-- A piece that compares equal leaves the NUL behind it, or is the last.
HasNul-drop :
    (n : ℕ) (str xs : List ℕ)
    → IsStr str
    → n ≤ length str
    → strncmp (take n xs) (take n str) ≡ true
    → HasNul xs
    → (drop n str ≡ []) ⊎ HasNul (drop n xs)
unfolding strncmp
HasNul-drop zero str xs s h e nul = inr nul
HasNul-drop (suc n) [] xs s h e nul = inl refl
HasNul-drop (suc n) (y ∷ ys) [] s h e nul = absurd nul
HasNul-drop (suc n) (y ∷ ys) (x ∷ xs) (s, ss) h e nul = elim (Bool-cases (x == 0)) [
  | inl z ↦
      let e' : ys ≡ [] = s (ground arith) in
      let m : n ≡ 0 = omega (arith, ap length e') in rw (m, e') (inl refl)
  | inr nz ↦ HasNul-drop n ys xs ss (omega arith) (ground arith) (later nul nz)
]
  where
    later : (x ≡ 0) ⊎ HasNul xs → (x == 0) ≡ false → HasNul xs
    later (inl z) nz = absurd (ground arith)
    later (inr r) nz = r

pub HasNul-length : (n : ℕ) (xs : List ℕ) → HasNul (drop n xs) → n < length xs
HasNul-length zero [] h = absurd h
HasNul-length zero (x ∷ xs) h = omega arith
HasNul-length (suc n) [] h = absurd h
HasNul-length (suc n) (x ∷ xs) h = omega (arith, HasNul-length n xs h)

module _ (z : ℕ) (bufs : List (List ℕ)) (full : AllLength z bufs) where
  -- What a round is asked for: nothing, or a NUL that is still to come.
  abbrev Ends : List ℕ → ℕ → Type 0
  Ends str p = (str ≡ []) ⊎ HasNul (drop p (flat bufs))

  -- A NUL at or behind a place is in a buffer.
  in_buffer :
      (b at : ℕ) → at ≤ z → HasNul (drop (b * z + at) (flat bufs)) → at < z → b < length bufs
  in_buffer b at h nul inside = elim (Bool-cases (ltb b (length bufs))) [
    | inl ok ↦ ltb→lt b (length bufs) ok
    | inr beyond ↦
        let p = HasNul-length (b * z + at) (flat bufs) nul in
        let more : length bufs * z ≤ b * z = mul-le-mul_right z (ground arith) in
        absurd (omega (arith, p, more, length-flat z bufs full))
  ]

  -- One round at a place before the end of a buffer.
  compare_round :
      (fuel b at c : ℕ) (cs : List ℕ)
      → at < z
      → IsStr (c ∷ cs)
      → HasNul (drop (b * z + at) (flat bufs))
      → ((n : ℕ)
          → 0 < n
          → at + n ≤ z
          → Ends (drop n (c ∷ cs)) (b * z + (at + n))
          → compare_from fuel z bufs b (at + n) (drop n (c ∷ cs))
            ≡ some (prefix (drop n (c ∷ cs)) (drop (b * z + (at + n)) (flat bufs))))
      → (if strncmp
            (take (min (z - at) (length (c ∷ cs))) (drop at (get_or bufs b [])))
            (take (min (z - at) (length (c ∷ cs))) (c ∷ cs))
          then compare_from fuel z bufs b
              (at + min (z - at) (length (c ∷ cs)))
              (drop (min (z - at) (length (c ∷ cs))) (c ∷ cs))
          else some false)
        ≡ some (prefix (c ∷ cs) (drop (b * z + at) (flat bufs)))
  compare_round fuel b at c cs inside s nul ih =
      let str : List ℕ = c ∷ cs in
      let n = min (z - at) (length (c ∷ cs)) in
      let xs = drop (b * z + at) (flat bufs) in
      let k = in_buffer b at (omega arith) nul inside in
      let room : b * z + z ≤ length bufs * z =
        omega (arith, mul-le-mul_right {m = suc b} {n = length bufs} z k, suc-mul b z) in
      let long : n ≤ length xs =
        omega (arith, length-drop (b * z + at) (flat bufs), length-flat z bufs full) in
      let piece = piece-flat z bufs b at n full k (omega arith) in
      let split = prefix-strncmp n (c ∷ cs) xs s (omega arith) long in
      let further : drop n xs ≡ drop (b * z + (at + n)) (flat bufs) =
        drop-drop n (b * z + at) (flat bufs)
        ∙ ap (λ m. drop m (flat bufs)) (add_assoc (b * z) at n) in
      elim (Bool-cases (strncmp (take n xs) (take n (c ∷ cs)))) [
        | inl same ↦
            rw (piece, same)
              (ih n (omega arith) (omega arith) (
                  subst (λ l. (drop n (c ∷ cs) ≡ []) ⊎ HasNul l) further
                    (HasNul-drop n (c ∷ cs) xs s (omega arith) same nul))
                ∙ ap (λ l. some (prefix (drop n (c ∷ cs)) l)) (sym further)
                ∙ ap some (sym (split ∙ rw same refl)))
        | inr other ↦ rw (piece, other) (ap some (sym (split ∙ rw other refl)))
      ]

  pub compare_from-prefix :
      (fuel b at : ℕ) (str : List ℕ)
      → 0 < z
      → length str < fuel
      → at ≤ z
      → IsStr str
      → Ends str (b * z + at)
      → compare_from fuel z bufs b at str ≡ some (prefix str (drop (b * z + at) (flat bufs)))
  unfolding compare_from
  compare_from-prefix zero b at str pos h k s e = absurd (omega arith)
  compare_from-prefix (suc fuel) b at [] pos h k s e = unfold prefix in refl
  compare_from-prefix (suc fuel) b at (c ∷ cs) pos h k s (inl e) =
      absurd (omega (arith, ap length e))
  compare_from-prefix (suc fuel) b at (c ∷ cs) pos h k s (inr nul) = elim (Bool-cases (at == z)) [
    | inr inside ↦
        rw (inside, wrap)
          (compare_round fuel b at c cs (ground arith) s nul (λ n p f e.
            compare_from-prefix fuel b (at + n) (drop n (c ∷ cs)) pos
              (omega (arith, length-drop n (c ∷ cs))) f (IsStr-drop n (c ∷ cs) s) e))
    | inl end ↦
        let e : b * z + at ≡ (b + 1) * z + 0 = omega (arith, ends_at at end, add-mul b 1 z) in
        rw (end, wrap)
          (compare_round fuel (b + 1) 0 c cs pos s (subst (λ m. HasNul (drop m (flat bufs))) e nul)
              (λ n p f e'.
                compare_from-prefix fuel (b + 1) (0 + n) (drop n (c ∷ cs)) pos
                  (omega (arith, length-drop n (c ∷ cs))) f (IsStr-drop n (c ∷ cs) s) e')
            ∙ ap (λ m. some (prefix (c ∷ cs) (drop m (flat bufs)))) (sym e))
  ]
    where
      ends_at : (a : ℕ) → (a == z) ≡ true → a ≡ z
      ends_at a e = ground arith
