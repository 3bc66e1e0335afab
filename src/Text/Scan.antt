-- ===== src/Text/Scan.antt =====
-- The functions of libdtrace/dt_string.c that look for bytes: strbasename() and strisglob().
use dtrace.Base.{
  ℕ, ◌≡◌, refl, sym, ap, subst, ◌≢◌, ◌⊎◌, inl, inr, true, false, ◌||◌, Option, none, some, List, [],
  ◌∷◌, ◌++◌, arith, ◌==◌, if◌then◌else◌, Bool-cases, drop,
}
use dtrace.Text.{strrchr, strbasename, strisglob}

abbrev pub IsFree : ℕ → List ℕ → Type 0
IsFree x [] = Unit {0}
IsFree x (c ∷ s) = (c ≢ x) × IsFree x s

-- What strrchr() finds: the last place of the byte.
pub data Rchr (x : ℕ) (s : List ℕ) : Option (List ℕ) → Type 0 where
  absent : IsFree x s → Rchr x s none
  last : (pre post : List ℕ) → s ≡ pre ++ (x ∷ post) → IsFree x post → Rchr x s (some (x ∷ post))

strrchr-Rchr : (s : List ℕ) (x : ℕ) → Rchr x s (strrchr s x)
unfolding strrchr
strrchr-Rchr [] x = absent tt
strrchr-Rchr (c ∷ s) x = go (strrchr s x) (strrchr-Rchr s x)
  where
    go :
        (o : Option (List ℕ))
        → Rchr x s o
        → Rchr x (c ∷ s) (elim o [ some t ↦ some t | none ↦ if c == x then some (c ∷ s) else none ])
    go (some t) (last pre post e f) = last (c ∷ pre) post (ap (λ l. c ∷ l) e) f
    go none (absent f) = elim (Bool-cases (c == x)) [
      | inl same ↦
          let e : c ≡ x = ground arith in
          rw same
            (subst (λ k. Rchr x (c ∷ s) (some (k ∷ s))) (sym e) (last [] s (ap (λ k. k ∷ s) e) f))
      | inr other ↦ rw other (absent ((λ e. ground arith), f))
    ]

-- strbasename() returns the part behind the last slash, which has no slash, and the whole string if
-- there is none.
pub strbasename-behind_slash :
    (s : List ℕ)
    → IsFree b'/' (strbasename s)
      × ((strbasename s ≡ s) ⊎ ((pre : List ℕ) × (s ≡ pre ++ (b'/' ∷ strbasename s))))
unfolding strbasename
strbasename-behind_slash s = go (strrchr s b'/') (strrchr-Rchr s b'/')
  where
    go :
        (o : Option (List ℕ))
        → Rchr b'/' s o
        → IsFree b'/' (elim o [ none ↦ s | some p ↦ drop 1 p ])
          × ((elim o [ none ↦ s | some p ↦ drop 1 p ] ≡ s)
              ⊎ ((pre : List ℕ) × (s ≡ pre ++ (b'/' ∷ elim o [ none ↦ s | some p ↦ drop 1 p ]))))
    go none (absent f) = (f, inl refl)
    go (some p) (last pre post e f) = (f, inr (pre, e))

-- A byte that gmatch() gives a meaning to.
abbrev pub IsMeta : ℕ → Type 0
IsMeta c = (c ≡ b'[') ⊎ ((c ≡ b'?') ⊎ ((c ≡ b'*') ⊎ (c ≡ 92)))

is_meta : (c : ℕ) → (c == b'[' || c == b'?' || c == b'*' || c == 92) ≡ true → IsMeta c
is_meta c e = ground arith

not_meta : (c : ℕ) → (c == b'[' || c == b'?' || c == b'*' || c == 92) ≡ false → IsMeta c → ⊥
not_meta c e m = ground arith

abbrev pub HasMeta : List ℕ → Type 0
HasMeta [] = ⊥
HasMeta (c ∷ s) = IsMeta c ⊎ HasMeta s

-- strisglob() is true exactly if one of the bytes [, ?, * and backslash stands in the string.
pub strisglob_iff :
    (s : List ℕ) → (strisglob s ≡ true → HasMeta s) × (HasMeta s → strisglob s ≡ true)
unfolding strisglob
strisglob_iff [] = (λ e. cc, λ h. absurd h)
strisglob_iff (c ∷ s) =
    let (to, from) = strisglob_iff s in
    elim (Bool-cases (c == b'[' || c == b'?' || c == b'*' || c == 92)) [
      | inl m ↦ rw m (λ e. inl (is_meta c m), λ h. refl)
      | inr o ↦
          rw o (λ e. inr (to e), λ h. elim h [ inl m ↦ absurd (not_meta c o m) | inr r ↦ from r ])
    ]
