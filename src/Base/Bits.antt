-- ===== src/Base/Bits.antt =====
-- `&` and `|` at variables, from the recursion over the binary digits that they stand for, and
-- powers of two.
use Prim.Native.Nat.{
  ℕ, zero, suc, ◌+◌, ◌*◌, ◌/◌, ◌%◌, ◌^◌, ◌≤◌, ◌<◌, min, max, bit_and, bit_or, digits,
  bit_and-bitwise, bit_or-bitwise,
}
use mathlib.Core.Path.{◌≡◌, refl, sym, ap, ◌∙◌}
use native.Mathlib.Nat.{
  mul_assoc, pow-suc, mul-add-mod_self_right, mod-eq_of_lt, mod-one, zero-mod, div-eq_of_lt-le,
  div-add-mod', mod-lt, one-le-pow,
}
use native.Mathlib.Omega.{arith}

digits_bound : (n a b : ℕ) → digits (λ _. zero) min n a b ≤ b
digits_bound zero a b = omega arith
digits_bound (suc n) zero b = omega arith
digits_bound (suc n) (suc a) b = omega (arith, digits_bound n (suc a / 2) (b / 2))

pub bit_and-le : (a b : ℕ) → bit_and a b ≤ b
bit_and-le a b = rw (bit_and-bitwise a b) (digits_bound a a b)

pub pow_add : (a b : ℕ) → 2 ^ (a + b) ≡ 2 ^ a * 2 ^ b
pow_add a zero = let e : a + 0 ≡ a = omega arith in rw e (omega arith)
pow_add a (suc b) =
    let e : a + suc b ≡ suc (a + b) = omega arith in
    rw e (
      pow-suc 2 (a + b)
      ∙ ap (λ (k : ℕ). k * 2) (pow_add a b)
      ∙ mul_assoc (2 ^ a) (2 ^ b) 2
      ∙ ap (λ (k : ℕ). 2 ^ a * k) (sym (pow-suc 2 b)))

pub mod_unique : (a m q r : ℕ) → a ≡ q * m + r → r < m → a % m ≡ r
mod_unique a m q r e h = ap (λ (n : ℕ). n % m) e ∙ mul-add-mod_self_right q m r ∙ mod-eq_of_lt h

pub div_unique : (a m q r : ℕ) → a ≡ q * m + r → r < m → a / m ≡ q
div_unique a m q r e h = div-eq_of_lt-le m (omega arith) (omega arith)

mod_double : (a p : ℕ) → 0 < p → a % (p * 2) ≡ a / 2 % p * 2 + a % 2
mod_double a p h =
    let whole = div-add-mod' (a / 2) p in
    let part = mod-lt (a / 2) h in
    mod_unique a (p * 2) (a / 2 / p) (a / 2 % p * 2 + a % 2) (omega arith) (omega arith)

-- A mask of the k lowest bits, on any count of digits that is enough.
mask_digits : (k n a m : ℕ) → m + 1 ≡ 2 ^ k → a ≤ n → digits (λ _. zero) min n a m ≡ a % 2 ^ k
mask_digits k zero a m e h =
    let none_left : a ≡ 0 = omega arith in rw none_left (sym (zero-mod (2 ^ k)))
mask_digits k (suc n) zero m e h = sym (zero-mod (2 ^ k))
mask_digits zero (suc n) (suc a) m e h =
    let no_bits = mask_digits zero n (suc a / 2) (m / 2) (omega arith) (omega arith) in
    omega (arith, no_bits, mod-one (suc a / 2), mod-one (suc a))
mask_digits (suc k) (suc n) (suc a) m e h =
    let twice = pow-suc 2 k in
    let half = mask_digits k n (suc a / 2) (m / 2) (omega arith) (omega arith) in
    let whole = mod_double (suc a) (2 ^ k) (omega (arith, one-le-pow k 2 (omega arith))) in
    omega (arith, half, whole, ap (λ (p : ℕ). suc a % p) twice)

pub bit_and-mask : (k a m : ℕ) → m + 1 ≡ 2 ^ k → bit_and a m ≡ a % 2 ^ k
bit_and-mask k a m e = bit_and-bitwise a m ∙ mask_digits k a a m e (omega arith)

-- The union of two numbers with no digit in common, where the first has k digits.
low_digits : (k n a b c : ℕ) → a < 2 ^ k → c ≡ b * 2 ^ k → a ≤ n → digits (λ d. d) max n a c ≡ a + c
low_digits k zero a b c h e l = omega arith
low_digits k (suc n) zero b c h e l = omega arith
low_digits zero (suc n) (suc a) b c h e l = absurd (omega arith)
low_digits (suc k) (suc n) (suc a) b c h e l =
    let twice = pow-suc 2 k in
    let shifted = ap (λ (p : ℕ). b * p) twice in
    omega (arith, low_digits k n (suc a / 2) b (c / 2) (omega arith) (omega arith) (omega arith))

pub bit_or-low : (k a b : ℕ) → a < 2 ^ k → bit_or a (b * 2 ^ k) ≡ a + b * 2 ^ k
bit_or-low k a b h =
    bit_or-bitwise a (b * 2 ^ k) ∙ low_digits k a a b (b * 2 ^ k) h refl (omega arith)

-- Where the second has k digits.
high_digits :
    (k n a b c : ℕ) → b < 2 ^ k → c ≡ a * 2 ^ k → c ≤ n → digits (λ d. d) max n c b ≡ c + b
high_digits k zero a b c h e l = omega arith
high_digits k (suc n) a b zero h e l = omega arith
high_digits zero (suc n) a b (suc c) h e l = omega (
  arith,
  high_digits zero n (suc c / 2) (b / 2) (suc c / 2) (omega arith) (omega arith) (omega arith),
)
high_digits (suc k) (suc n) a b (suc c) h e l =
    let twice = pow-suc 2 k in
    let shifted = ap (λ (p : ℕ). a * p) twice in
    omega (arith, high_digits k n a (b / 2) (suc c / 2) (omega arith) (omega arith) (omega arith))

pub bit_or-high : (k a b : ℕ) → b < 2 ^ k → bit_or (a * 2 ^ k) b ≡ a * 2 ^ k + b
bit_or-high k a b h =
    bit_or-bitwise (a * 2 ^ k) b ∙ high_digits k (a * 2 ^ k) a b (a * 2 ^ k) h refl (omega arith)

pub bit_or-zero : (a : ℕ) → bit_or a 0 ≡ a
bit_or-zero a =
    bit_or-bitwise a 0
    ∙ high_digits 0 a a 0 a (omega arith) (omega arith) (omega arith)
    ∙ omega arith

or_digits_le :
    (n a b : ℕ) → a ≤ n → (a ≤ digits (λ d. d) max n a b) × (b ≤ digits (λ d. d) max n a b)
or_digits_le zero a b h = (omega arith, omega arith)
or_digits_le (suc n) zero b h = (omega arith, omega arith)
or_digits_le (suc n) (suc a) b h =
    let ih = or_digits_le n (suc a / 2) (b / 2) (omega arith) in
    (omega (arith, ih.0), omega (arith, ih.1))

-- A union is no less than its parts, and has no more digits.
pub bit_or-ge : (a b : ℕ) → (a ≤ bit_or a b) × (b ≤ bit_or a b)
bit_or-ge a b =
    let h = or_digits_le a a b (omega arith) in
    (omega (arith, h.0, bit_or-bitwise a b), omega (arith, h.1, bit_or-bitwise a b))

or_digits_lt : (k n a b : ℕ) → a < 2 ^ k → b < 2 ^ k → digits (λ d. d) max n a b < 2 ^ k
or_digits_lt k zero a b h l = l
or_digits_lt k (suc n) zero b h l = l
or_digits_lt zero (suc n) (suc a) b h l = absurd (omega arith)
or_digits_lt (suc k) (suc n) (suc a) b h l =
    let p = pow-suc 2 k in
    omega (arith, or_digits_lt k n (suc a / 2) (b / 2) (omega arith) (omega arith))

pub bit_or-lt : (k a b : ℕ) → a < 2 ^ k → b < 2 ^ k → bit_or a b < 2 ^ k
bit_or-lt k a b h l = omega (arith, or_digits_lt k a a b h l, bit_or-bitwise a b)
