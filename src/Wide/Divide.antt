-- ===== src/Wide/Divide.antt =====
-- The long division of dt_divide_128() ends, and gives the quotient.
use dtrace.Base.{
  ℕ, zero, suc, ◌+◌, ◌-◌, ◌*◌, ◌/◌, ◌^◌, ◌≤◌, ◌<◌, ◌≡◌, refl, sym, ap, ◌∙◌, inl, inr, true, false,
  Option, some, arith, ◌==◌, if◌then◌else◌, Bool-cases,
}
use dtrace.Wide.LeftShift.{shift_left-Shifted, shift_left-exact}
use dtrace.Base.Bits.{pow_add, div_unique}
use dtrace.Wide.SetBit.{count_bits-Counted, or_bit, bits_pos, bits_few}
use dtrace.Wide.Sums.{ge_iff, subtract-exact, ge-false}
use native.Mathlib.Nat.{pow-suc, pow-le-pow_right, mul-le-mul_right, mul-lt-mul_of_pos_right}
use dtrace.Wide.Words.{IsU128, val, shift_right-div, shift_right-IsU128, val-lt, pow-pos}
use dtrace.Wide.{
  U128, Division, divide_step, divide, ge, divide_from, shift_left, count_bits, one_128, zero_128,
}

balance_bit :
    (d p n r m v s : ℕ) {r' v' : ℕ}
    → r' ≡ r + m
    → v' ≡ v - s
    → s ≤ v
    → s ≡ d * p
    → m ≡ p
    → r * d + v ≡ n
    → r' * d + v' ≡ n
balance_bit d p n r m v s er ev h es em e =
    omega (arith, ap (λ (k : ℕ). k * d) er, ap (λ (k : ℕ). k * d) em)

module _ (n d : ℕ) where
  -- What every round keeps: the result so far and the remainder make up the dividend.
  record Balanced (s : Division) (bound : ℕ) : Type 0 where
    rest_words : IsU128 s.remainder
    result_words : IsU128 s.result
    balance : val s.result * d + val s.remainder ≡ n
    below : val s.remainder < bound

  -- Before the round for the bit k of the quotient.
  record Aimed (s : Division) (k : ℕ) : Type 0 where
    sub_words : IsU128 s.subtrahend
    mask_words : IsU128 s.mask
    sub_val : val s.subtrahend ≡ d * 2 ^ k
    mask_val : val s.mask ≡ 2 ^ k
    bit_lt : k < 128
    higher : ℕ
    result_val : val s.result ≡ higher * 2 ^ suc k

  step-Balanced :
      (s : Division) (k : ℕ)
      → Balanced s (d * 2 ^ suc k)
      → Aimed s k
      → Balanced (divide_step s) (d * 2 ^ k)
  unfolding divide_step
  step-Balanced s k b a = elim (Bool-cases (ge s.remainder s.subtrahend)) [
    | inl e ↦
        let fits = (ge_iff s.remainder s.subtrahend b.rest_words a.sub_words).0 e in
        let (rw', rv) = subtract-exact s.remainder s.subtrahend b.rest_words a.sub_words fits in
        let (ow, ov) =
          or_bit s.result s.mask a.higher k b.result_words a.mask_words a.result_val a.mask_val
            a.bit_lt in
        rw e (record {
          rest_words = rw';
          result_words = ow;
          balance =
              balance_bit d (2 ^ k) n (val s.result) (val s.mask) (val s.remainder)
                (val s.subtrahend) ov rv fits a.sub_val a.mask_val b.balance;
          below = omega (arith, rv, b.below, a.sub_val, ap (λ (m : ℕ). d * m) (pow-suc 2 k));
        })
    | inr e ↦
        let small : val s.remainder < val s.subtrahend =
          ge-false s.remainder s.subtrahend b.rest_words a.sub_words e in
        rw e (record {
          rest_words = b.rest_words;
          result_words = b.result_words;
          balance = b.balance;
          below = omega (arith, small, a.sub_val);
        })
  ]

  -- The subtrahend and the mask of the next round, with the bits of the result so far.
  step-Aimed :
      (s : Division) (j : ℕ)
      → Balanced s (d * 2 ^ suc (suc j))
      → Aimed s (suc j)
      → Aimed (divide_step s) j
  unfolding divide_step
  step-Aimed s j b a =
      let p = pow-suc 2 j in
      let q = pow-suc 2 (suc j) in
      let sd = shift_right-div s.subtrahend 1 a.sub_words (omega arith) in
      let md = shift_right-div s.mask 1 a.mask_words (omega arith) in
      let half : val s.subtrahend / 2 ≡ d * 2 ^ j =
        omega (arith, a.sub_val, ap (λ (m : ℕ). d * m) p) in
      let half' : val s.mask / 2 ≡ 2 ^ j = omega (arith, a.mask_val, p) in
      let (ow, ov) =
        or_bit s.result s.mask a.higher (suc j) b.result_words a.mask_words a.result_val a.mask_val
          a.bit_lt in
      record {
        sub_words = shift_right-IsU128 s.subtrahend 1 a.sub_words (omega arith);
        mask_words = shift_right-IsU128 s.mask 1 a.mask_words (omega arith);
        sub_val = sd ∙ half;
        mask_val = md ∙ half';
        bit_lt = omega (arith, a.bit_lt);
        higher = a.higher * 2 + (if ge s.remainder s.subtrahend then 1 else 0);
        result_val = elim (Bool-cases (ge s.remainder s.subtrahend)) [
          | inl e ↦
              rw e (omega (arith, ov, a.result_val, a.mask_val, ap (λ (m : ℕ). a.higher * m) q))
          | inr e ↦ rw e (omega (arith, a.result_val, ap (λ (m : ℕ). a.higher * m) q))
        ];
      }

  -- How the loop ends.
  record Quotient (o : Option U128) : Type 0 where
    quotient : U128
    returned : o ≡ some quotient
    words : IsU128 quotient
    rest : ℕ
    whole : val quotient * d + rest ≡ n
    rest_lt : rest < d

  module _ (dd : U128) (dw : IsU128 dd) (de : val dd ≡ d) where
    divide_more :
        (fuel : ℕ) (s : Division)
        → ge s.remainder dd ≡ true
        → divide_from (suc fuel) dd s ≡ divide_from fuel dd (divide_step s)
    unfolding divide_from
    divide_more fuel s e = rw (e, divide_from) refl

    divide_done :
        (fuel : ℕ) (s : Division) {bound : ℕ}
        → Balanced s bound
        → ge s.remainder dd ≡ false
        → Quotient (divide_from (suc fuel) dd s)
    unfolding divide_from
    divide_done fuel s b e =
        rw (e, divide_from)
          (record {
            quotient = s.result;
            returned = refl;
            words = b.result_words;
            rest = val s.remainder;
            whole = b.balance;
            rest_lt = omega (arith, ge-false s.remainder dd b.rest_words dw e, de);
          })

    divide_last :
        (fuel : ℕ) (s : Division)
        → Balanced s (d * 2 ^ 0)
        → 0 < fuel
        → Quotient (divide_from fuel dd s)
    divide_last zero s b h = absurd (omega arith)
    divide_last (suc fuel) s b h = elim (Bool-cases (ge s.remainder dd)) [
      | inr e ↦ divide_done fuel s b e
      | inl e ↦ absurd (omega (arith, (ge_iff s.remainder dd b.rest_words dw).0 e, b.below, de))
    ]

    divide_from-Quotient :
        (fuel k : ℕ) (s : Division)
        → Balanced s (d * 2 ^ suc k)
        → Aimed s k
        → suc k < fuel
        → Quotient (divide_from fuel dd s)
    divide_from-Quotient zero k s b a h = absurd (omega arith)
    divide_from-Quotient (suc fuel) zero s b a h = elim (Bool-cases (ge s.remainder dd)) [
      | inr e ↦ divide_done fuel s b e
      | inl e ↦
          rw (divide_more fuel s e)
            (divide_last fuel (divide_step s) (step-Balanced s zero b a) (omega arith))
    ]
    divide_from-Quotient (suc fuel) (suc j) s b a h = elim (Bool-cases (ge s.remainder dd)) [
      | inr e ↦ divide_done fuel s b e
      | inl e ↦ rw (divide_more fuel s e) (
          divide_from-Quotient fuel j (divide_step s) (step-Balanced s (suc j) b a)
            (step-Aimed s j b a) (omega arith))
    ]

abbrev word : ℕ → U128
word d = record { lo = d; hi = 0 }

abbrev start : U128 → (d log : ℕ) → Division
start n d log = record {
  remainder = n;
  subtrahend = shift_left (word d) (128 - log);
  mask = shift_left one_128 (128 - log);
  result = zero_128;
}

divide_starts :
    (n : U128) (d log : ℕ)
    → 0 < d
    → count_bits 65 d 0 ≡ some log
    → divide n d ≡ divide_from 129 (word d) (start n d log)
unfolding divide
divide_starts n d log pos e = let z : (d == 0) ≡ false = ground arith in rw (z, e) refl

start-Balanced :
    (n : U128) (d log : ℕ)
    → IsU128 n
    → 2 ^ log ≤ 2 * d
    → log ≤ 128
    → Balanced (val n) d (start n d log) (d * 2 ^ suc (128 - log))
start-Balanced n d log w h l =
    let e : log + (128 - log) ≡ 128 = omega arith in
    let p = pow_add log (128 - log) in
    let q : 2 ^ log * 2 ^ (128 - log) ≡ 2 ^ 128 = sym p ∙ ap (λ (k : ℕ). 2 ^ k) e in
    record {
      rest_words = w;
      result_words = record { lo_lt = omega arith; hi_lt = omega arith };
      balance = omega arith;
      below = omega (
        arith,
        val-lt n w,
        q,
        mul-le-mul_right (2 ^ (128 - log)) h,
        ap (λ (k : ℕ). d * k) (pow-suc 2 (128 - log)),
      );
    }

start-Aimed :
    (n : U128) (d log : ℕ)
    → d < 2 ^ 64
    → d < 2 ^ log
    → 0 < log
    → log ≤ 128
    → Aimed (val n) d (start n d log) (128 - log)
start-Aimed n d log small above pos l =
    let e : log + (128 - log) ≡ 128 = omega arith in
    let q : 2 ^ log * 2 ^ (128 - log) ≡ 2 ^ 128 =
      sym (pow_add log (128 - log)) ∙ ap (λ (k : ℕ). 2 ^ k) e in
    let two : 2 ≤ 2 ^ log = pow-le-pow_right {n = 2} (omega arith) {i = 1} {j = log} pos in
    let one = pow-pos (128 - log) in
    let wd : IsU128 (word d) = record { lo_lt = small; hi_lt = omega arith } in
    let w1 : IsU128 one_128 = record { lo_lt = omega arith; hi_lt = omega arith } in
    let fit : val (word d) * 2 ^ (128 - log) < 2 ^ 128 =
      omega (arith, q, mul-lt-mul_of_pos_right {k = 2 ^ (128 - log)} above one) in
    let fit1 : val one_128 * 2 ^ (128 - log) < 2 ^ 128 =
      omega (arith, q, one, mul-le-mul_right (2 ^ (128 - log)) two) in
    record {
      sub_words = (shift_left-Shifted (word d) (128 - log) wd (omega arith)).words;
      mask_words = (shift_left-Shifted one_128 (128 - log) w1 (omega arith)).words;
      sub_val = omega (arith, shift_left-exact (word d) (128 - log) wd (omega arith) fit);
      mask_val = omega (arith, shift_left-exact one_128 (128 - log) w1 (omega arith) fit1);
      bit_lt = omega arith;
      higher = 0;
      result_val = omega arith;
    }

-- dt_divide_128() of any two words by a word other than 0 ends, and gives the two words of the
-- quotient.
pub divide-div :
    (n : U128) (d : ℕ)
    → IsU128 n
    → 0 < d
    → d < 2 ^ 64
    → (q : U128) × ((divide n d ≡ some q) × IsU128 q × (val q ≡ val n / d))
divide-div n d w pos small =
    let c = count_bits-Counted 64 d 0 small in
    let log = c.bits in
    let some_bit : 0 < log = bits_pos c.bits d pos c.above in
    let few : log ≤ 128 =
      omega (arith, bits_few 65 c.bits (2 * d) (omega (arith, c.least)) (omega arith)) in
    let counts : count_bits 65 d 0 ≡ some log = c.counts ∙ ap some (omega arith) in
    let r =
      divide_from-Quotient (val n) d (word d) (record { lo_lt = small; hi_lt = omega arith })
        (omega arith) 129 (128 - log) (start n d log)
        (start-Balanced n d log w (omega (arith, c.least)) few)
        (start-Aimed n d log small c.above some_bit few) (omega arith) in
    (
      r.quotient,
      (
        divide_starts n d log pos counts ∙ r.returned,
        r.words,
        sym (div_unique (val n) d (val r.quotient) r.rest (sym r.whole) r.rest_lt),
      ),
    )
