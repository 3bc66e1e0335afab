-- ===== src/Attr/Compare.antt =====
-- dt_attr_cmp() and the order of the attributes.
use dtrace.Base.{
  ℕ, ◌-◌, ◌^◌, ◌≤◌, ◌<◌, ◌≡◌, ap, ◌≢◌, ◌⊎◌, inl, inr, false, arith, ltb, ◌==◌, Bool-cases, ==_iff,
}
use dtrace.Base.Bits.{bit_or-ge, bit_or-lt}
use Prim.Native.Nat.{bit_or}
use dtrace.Attr.{Attribute, difference, attr_cmp, bit_or}

abbrev pub IsAttribute : Attribute → Type 0
IsAttribute a = (a.dtat_name < 256) × ((a.dtat_data < 256) × (a.dtat_class < 256))

-- Every attribute of the first is at least that of the second.
abbrev pub AtLeast : Attribute → Attribute → Type 0
AtLeast a1 a2 =
    (a2.dtat_name ≤ a1.dtat_name)
    × ((a2.dtat_data ≤ a1.dtat_data) × (a2.dtat_class ≤ a1.dtat_class))

-- What the int says of the two: negative, 0 or positive.
pub data Compares (a1 a2 : Attribute) (rc : ℕ) : Type 0 where
  negative : 2 ^ 31 ≤ rc → (AtLeast a1 a2 → ⊥) → Compares a1 a2 rc
  zero_ : rc ≡ 0 → a1 ≡ a2 → Compares a1 a2 rc
  positive : 0 < rc → rc < 2 ^ 31 → a1 ≢ a2 → AtLeast a1 a2 → Compares a1 a2 rc

difference-sign :
    (x y : ℕ)
    → x < 256
    → y < 256
    → ((x < y) × (2 ^ 31 ≤ difference x y)) ⊎ ((y ≤ x) × (difference x y ≡ x - y))
unfolding difference
difference-sign x y hx hy = elim (Bool-cases (ltb x y)) [
  | inl e ↦ inl (ground arith, ground arith)
  | inr e ↦ inr (ground arith, ground arith)
]

-- dt_attr_cmp() of attributes below 256 is negative only where some attribute of the first is less
-- than that of the second, 0 only where the attributes are equal, and positive only where they are
-- not and all those of the first are at least those of the second.
pub attr_cmp-Compares :
    (a1 a2 : Attribute) → IsAttribute a1 → IsAttribute a2 → Compares a1 a2 (attr_cmp a1 a2)
unfolding attr_cmp
attr_cmp-Compares a1 a2 (n1, (d1, c1)) (n2, (d2, c2)) =
    cases (difference a1.dtat_name a2.dtat_name) (difference a1.dtat_data a2.dtat_data)
      (difference a1.dtat_class a2.dtat_class) (difference-sign a1.dtat_name a2.dtat_name n1 n2)
      (difference-sign a1.dtat_data a2.dtat_data d1 d2)
      (difference-sign a1.dtat_class a2.dtat_class c1 c2)
  where
    not_zero : {w : ℕ} → (w == 0) ≡ false → w ≡ 0 → ⊥
    not_zero e z = absurd (ground arith)

    same :
        a1.dtat_name ≡ a2.dtat_name
        → a1.dtat_data ≡ a2.dtat_data
        → a1.dtat_class ≡ a2.dtat_class
        → a1 ≡ a2
    same n d c = λ i. record { dtat_name = n i; dtat_data = d i; dtat_class = c i }

    cases :
        (x y z : ℕ)
        → ((a1.dtat_name < a2.dtat_name) × (2 ^ 31 ≤ x))
          ⊎ ((a2.dtat_name ≤ a1.dtat_name) × (x ≡ a1.dtat_name - a2.dtat_name))
        → ((a1.dtat_data < a2.dtat_data) × (2 ^ 31 ≤ y))
          ⊎ ((a2.dtat_data ≤ a1.dtat_data) × (y ≡ a1.dtat_data - a2.dtat_data))
        → ((a1.dtat_class < a2.dtat_class) × (2 ^ 31 ≤ z))
          ⊎ ((a2.dtat_class ≤ a1.dtat_class) × (z ≡ a1.dtat_class - a2.dtat_class))
        → Compares a1 a2 (bit_or (bit_or x y) z)
    cases x y z (inl (l, big)) q r =
        let a = bit_or-ge x y in
        let b = bit_or-ge (bit_or x y) z in
        negative (omega (arith, big, a.0, b.0)) (λ t. absurd (omega (arith, l, t.0)))
    cases x y z (inr p) (inl (l, big)) r =
        let a = bit_or-ge x y in
        let b = bit_or-ge (bit_or x y) z in
        negative (omega (arith, big, a.1, b.0)) (λ t. absurd (omega (arith, l, t.1.0)))
    cases x y z (inr p) (inr q) (inl (l, big)) =
        let b = bit_or-ge (bit_or x y) z in
        negative (omega (arith, big, b.1)) (λ t. absurd (omega (arith, l, t.1.1)))
    cases x y z (inr (p, ex)) (inr (q, ey)) (inr (r, ez)) =
        let a = bit_or-ge x y in
        let b = bit_or-ge (bit_or x y) z in
        let small : bit_or (bit_or x y) z < 2 ^ 8 =
          bit_or-lt 8 (bit_or x y) z
            (bit_or-lt 8 x y (omega (arith, ex, n1)) (omega (arith, ey, d1)))
            (omega (arith, ez, c1)) in
        let all_zero : a1 ≡ a2 → bit_or (bit_or x y) z ≡ 0 = λ eq.
          let n = ap Attribute.dtat_name eq in
          let d = ap Attribute.dtat_data eq in
          let c = ap Attribute.dtat_class eq in
          let none_set : bit_or (bit_or x y) z < 2 ^ 0 =
            bit_or-lt 0 (bit_or x y) z
              (bit_or-lt 0 x y (omega (arith, ex, n)) (omega (arith, ey, d)))
              (omega (arith, ez, c)) in
          omega (arith, none_set) in
        elim (Bool-cases (bit_or (bit_or x y) z == 0)) [
          | inl e ↦
              let z' = (==_iff (bit_or (bit_or x y) z) 0).0 e in
              zero_ z' (
                same (omega (arith, z', a.0, b.0, ex, p)) (omega (arith, z', a.1, b.0, ey, q))
                  (omega (arith, z', b.1, ez, r)))
          | inr e ↦
              positive (ground arith) (omega (arith, small)) (λ eq. not_zero e (all_zero eq))
                (p, (q, r))
        ]
