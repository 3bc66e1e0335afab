-- ===== src/Text/Hyphen.antt =====
-- strhyphenate() replaces pairs of underscores from the left.
use dtrace.Base.{
  ℕ, zero, suc, ◌+◌, ◌-◌, ◌<◌, ◌≡◌, refl, sym, ap, ◌∙◌, inl, inr, true, false, ◌&&◌, List, [], ◌∷◌,
  ◌++◌, arith, ◌==◌, if◌then◌else◌, Bool-cases, length, set, length-append, get_or, take, drop,
  replicate, length-replicate, take-append_add, take_all,
}
use mathlib.Core.List.{append_assoc}
use dtrace.Text.{hyphenate_at, hyphenate_from, strhyphenate}

-- The function as a recursion over the string.
unfoldable pub hyphens : List ℕ → List ℕ
hyphens [] = []
hyphens (c ∷ []) = c ∷ []
hyphens (c ∷ d ∷ s) =
    let pair = hyphens s in
    let one = hyphens (d ∷ s) in if (c == b'_') && (d == b'_') then b'-' ∷ pair else c ∷ one

get_or-append_add : (xs ys : List ℕ) (k d : ℕ) → get_or (xs ++ ys) (length xs + k) d ≡ get_or ys k d
get_or-append_add [] ys k d = let e : 0 + k ≡ k = omega arith in rw e refl
get_or-append_add (x ∷ xs) ys k d =
    let e : suc (length xs) + k ≡ suc (length xs + k) = omega arith in
    rw e (get_or-append_add xs ys k d)

set-append_add : (xs ys : List ℕ) (k v : ℕ) → set (xs ++ ys) (length xs + k) v ≡ xs ++ set ys k v
set-append_add [] ys k v = let e : 0 + k ≡ k = omega arith in rw e refl
set-append_add (x ∷ xs) ys k v =
    let e : suc (length xs) + k ≡ suc (length xs + k) = omega arith in
    rw e (ap (λ l. x ∷ l) (set-append_add xs ys k v))

drop-append_add : (xs ys : List ℕ) (k : ℕ) → drop (length xs + k) (xs ++ ys) ≡ drop k ys
drop-append_add [] ys k = let e : 0 + k ≡ k = omega arith in rw e refl
drop-append_add (x ∷ xs) ys k =
    let e : suc (length xs) + k ≡ suc (length xs + k) = omega arith in
    rw e (drop-append_add xs ys k)

-- A round in the middle of the memory is one at the start of what is left.
hyphenate_at-append :
    (done tail : List ℕ) (left : ℕ)
    → hyphenate_at left (length done + 0) (done ++ tail) ≡ done ++ hyphenate_at left 0 tail
unfolding hyphenate_at
hyphenate_at-append done tail left =
    let n = length done in
    let p1 : length done + 0 + 1 ≡ length done + 1 = omega arith in
    let p2 : length done + 0 + 2 ≡ length done + 2 = omega arith in
    let pn : length done + 1 + (left - 1) ≡ length done + (1 + (left - 1)) = omega arith in
    let a = get_or-append_add done tail 0 0 in
    let b = get_or-append_add done tail 1 0 in
    let t : List ℕ = set tail 0 b'-' in
    elim (Bool-cases ((get_or tail 0 0 == b'_') && (get_or tail 1 0 == b'_'))) [
      | inr other ↦ rw (p1, a, b, other) refl
      | inl both ↦
          rw (p1, p2, a, b, both, set-append_add done tail 0 b'-')
            (ap
                (λ l.
                  l
                  ++ (take (left - 1) (drop (length done + 2) (done ++ t))
                      ++ drop (length done + 1 + (left - 1)) (done ++ t)))
                (take-append_add done t 1)
              ∙ ap
                  (λ l.
                    (done ++ take 1 t)
                    ++ (take (left - 1) l ++ drop (length done + 1 + (left - 1)) (done ++ t)))
                  (drop-append_add done t 2)
              ∙ ap (λ l. (done ++ take 1 t) ++ (take (left - 1) (drop 2 t) ++ l))
                  (ap (λ m. drop m (done ++ t)) pn ∙ drop-append_add done t (1 + (left - 1)))
              ∙ append_assoc done (take 1 t) _)
    ]

abbrev nuls : ℕ → List ℕ
nuls n = replicate n 0

nuls_snoc : (n : ℕ) → nuls n ++ (0 ∷ []) ≡ 0 ∷ nuls n
nuls_snoc zero = refl
nuls_snoc (suc n) = ap (λ l. 0 ∷ l) (nuls_snoc n)

-- The string from a place on, and NULs behind it.
abbrev padded : List ℕ → ℕ → List ℕ
padded s k = s ++ replicate (suc k) 0

-- A round on a pair, and one on anything else.
pair_round :
    (s : List ℕ) (k : ℕ)
    → hyphenate_at (suc (suc (length s + k))) 0 (padded (b'_' ∷ b'_' ∷ s) k)
      ≡ b'-' ∷ padded s (suc k)
unfolding hyphenate_at
pair_round s k =
    let n = suc (length s + k) in
    let len : length (padded s k) ≡ n =
      omega (arith, length-append s (replicate (suc k) 0), length-replicate {A = ℕ} (suc k) 0) in
    let e : suc (suc (length s + k)) - 1 ≡ n = omega arith in
    let e' : 0 + 1 + n ≡ suc n = omega arith in
    let split : padded s k ≡ (s ++ nuls k) ++ (0 ∷ []) =
      ap (λ l. s ++ l) (sym (nuls_snoc k)) ∙ sym (append_assoc s (nuls k) (0 ∷ [])) in
    let front : length (b'_' ∷ (s ++ nuls k)) + 0 ≡ n =
      omega (arith, length-append s (nuls k), length-replicate {A = ℕ} k 0) in
    let last : drop n (b'_' ∷ padded s k) ≡ 0 ∷ [] =
      ap (λ l. drop n (b'_' ∷ l)) split
      ∙ ap (λ m. drop m ((b'_' ∷ (s ++ nuls k)) ++ (0 ∷ []))) (sym front)
      ∙ drop-append_add (b'_' ∷ (s ++ nuls k)) (0 ∷ []) 0 in
    let one : 1 + n ≡ suc n = omega arith in
    rw (e, one)
      (ap (λ l. b'-' ∷ (l ++ drop n (b'_' ∷ padded s k)))
          (take_all n (padded s k) (omega (arith, len)))
        ∙ ap (λ l. b'-' ∷ (padded s k ++ l)) last
        ∙ ap (λ l. b'-' ∷ l)
            (append_assoc s (nuls (suc k)) (0 ∷ []) ∙ ap (λ l. s ++ l) (nuls_snoc (suc k))))

round_step :
    (done tail rest : List ℕ) (left c : ℕ)
    → hyphenate_at (suc left) 0 tail ≡ c ∷ rest
    → hyphenate_from (suc left) (length done) (done ++ tail)
      ≡ hyphenate_from left (length (done ++ (c ∷ []))) ((done ++ (c ∷ [])) ++ rest)
unfolding hyphenate_from
round_step done tail rest left c e =
    let here : length done ≡ length done + 0 = omega arith in
    let longer : length done + 1 ≡ length (done ++ (c ∷ [])) =
      omega (arith, length-append done (c ∷ [])) in
    ap (λ m. hyphenate_from left (length done + 1) (hyphenate_at (suc left) m (done ++ tail))) here
    ∙ ap (λ l. hyphenate_from left (length done + 1) l)
        (hyphenate_at-append done tail (suc left)
          ∙ ap (λ l. done ++ l) e
          ∙ sym (append_assoc done (c ∷ []) rest))
    ∙ ap (λ m. hyphenate_from left m ((done ++ (c ∷ [])) ++ rest)) longer

-- Where the first byte and the next are not both underscores, a round changes nothing.
quiet_round :
    (left c d : ℕ) (tail : List ℕ)
    → ((c == b'_') && (d == b'_')) ≡ false
    → hyphenate_at left 0 (c ∷ d ∷ tail) ≡ c ∷ d ∷ tail
unfolding hyphenate_at
quiet_round left c d tail e = rw e refl

idle :
    (left j : ℕ) (done : List ℕ)
    → left < j
    → hyphenate_from left (length done) (done ++ nuls j) ≡ done ++ nuls j
idle zero j done h = unfold hyphenate_from in refl
idle (suc left) zero done h = absurd (omega arith)
idle (suc left) (suc zero) done h = absurd (omega arith)
idle (suc left) (suc (suc j)) done h =
    round_step done (nuls (suc (suc j))) (nuls (suc j)) left 0
      (quiet_round (suc left) 0 0 (nuls j) refl)
    ∙ idle left (suc j) (done ++ (0 ∷ [])) (omega arith)
    ∙ append_assoc done (0 ∷ []) (nuls (suc j))

hyphenate_from-hyphens :
    (s : List ℕ) (left k : ℕ) (done : List ℕ)
    → left ≡ length s + k
    → (j : ℕ) × (hyphenate_from left (length done) (done ++ padded s k)
        ≡ done ++ padded (hyphens s) j)
unfolding hyphens
hyphenate_from-hyphens [] left k done e = (k, idle left (suc k) done (omega (arith, e)))
hyphenate_from-hyphens (c ∷ s) zero k done e = absurd (omega (arith, e))
hyphenate_from-hyphens (c ∷ []) (suc left) k done e =
    let (j, run) = hyphenate_from-hyphens [] left k (done ++ (c ∷ [])) (omega (arith, e)) in
    let quiet : ((c == b'_') && (0 == b'_')) ≡ false = ground arith in
    (
      j,
      round_step done (padded (c ∷ []) k) (nuls (suc k)) left c
            (quiet_round (suc left) c 0 (nuls k) quiet)
          ∙ run
          ∙ append_assoc done (c ∷ []) (nuls (suc j)),
    )
hyphenate_from-hyphens (c ∷ d ∷ s) (suc left) k done e =
    let (i, run2) =
      hyphenate_from-hyphens s left (suc k) (done ++ (b'-' ∷ [])) (omega (arith, e)) in
    let (j, run1) = hyphenate_from-hyphens (d ∷ s) left k (done ++ (c ∷ [])) (omega (arith, e)) in
    elim (Bool-cases ((c == b'_') && (d == b'_'))) [
      | inr other ↦ rw other (
        j,
        round_step done (padded (c ∷ d ∷ s) k) (padded (d ∷ s) k) left c
              (quiet_round (suc left) c d (padded s k) other)
            ∙ run1
            ∙ append_assoc done (c ∷ []) (padded (hyphens (d ∷ s)) j),
      )
      | inl both ↦ rw both (
        i,
        round_step done (padded (c ∷ d ∷ s) k) (padded s (suc k)) left b'-' (on_pair left e both)
            ∙ run2
            ∙ append_assoc done (b'-' ∷ []) (padded (hyphens s) i),
      )
    ]
  where
    on_pair :
        (l : ℕ)
        → suc l ≡ length (c ∷ d ∷ s) + k
        → ((c == b'_') && (d == b'_')) ≡ true
        → hyphenate_at (suc l) 0 (padded (c ∷ d ∷ s) k) ≡ b'-' ∷ padded s (suc k)
    on_pair l e' both =
        let x : c ≡ b'_' = ground arith in
        let y : d ≡ b'_' = ground arith in
        let n : suc l ≡ suc (suc (length s + k)) = omega (arith, e') in
        ap (λ m. hyphenate_at m 0 (padded (c ∷ d ∷ s) k)) n
        ∙ ap (λ z. hyphenate_at (suc (suc (length s + k))) 0 (padded (z ∷ d ∷ s) k)) x
        ∙ ap (λ z. hyphenate_at (suc (suc (length s + k))) 0 (padded (b'_' ∷ z ∷ s) k)) y
        ∙ pair_round s k

-- strhyphenate() leaves the string in which each pair of underscores, taken from the left, has
-- become a hyphen, with nothing but NULs behind it.
pub strhyphenate-hyphens :
    (s : List ℕ) → (k : ℕ) × (strhyphenate s ≡ hyphens s ++ replicate (suc k) 0)
unfolding strhyphenate
strhyphenate-hyphens s = hyphenate_from-hyphens s (length s) 0 [] (omega arith)
