-- ===== src/Wide/Examples.antt =====
-- Runs of the 128-bit arithmetic.
use dtrace.Base.{ℕ, ◌+◌, ◌*◌, ◌/◌, ◌^◌, ◌≤◌, ◌<◌, ◌≡◌, refl, some, arith}
use dtrace.Wide.Stddev.{stddev-root}
use dtrace.Wide.Sqrt.{sqrt-root}
use dtrace.Wide.Divide.{divide-div}
use dtrace.Wide.Words.{IsU128, val, lost, shift_right-loses}
use dtrace.Wide.{
  U128, divide, sqrt, stddev, count_bits, shift_right, shift_left, multiply, divide_from,
  divide_step, ge, subtract, divide_signed, add, absolute, nbits, nbits_from, gt, asserted,
  sqrt_from, sqrt_step, le,
}

abbrev big : U128
big = record { lo = 12345; hi = 987654321987654321 }

big_words : IsU128 big
big_words = record { lo_lt = omega arith; hi_lt = omega arith }

quotient_runs : divide big 1000003 ≡ some (record { lo = 10647834564211082169; hi = 987651359033 })
unfolding divide count_bits shift_left divide_from divide_step ge subtract shift_right
quotient_runs = refl

shift_right-loses_example : val (shift_right big 40) + lost big 40 ≡ val big / 2 ^ 40
shift_right-loses_example = shift_right-loses big 40 big_words (omega arith)

shift_right_loss : lost big 40 ≡ 6880937280668696576
shift_right_loss = refl

divide-div_example :
    (q : U128) × ((divide big 1000003 ≡ some q) × IsU128 q × (val q ≡ val big / 1000003))
divide-div_example = divide-div big 1000003 big_words (omega arith) (omega arith)

sqrt-root_example :
    (r : ℕ) × ((sqrt big ≡ some r)
      × (r < 2 ^ 64)
      × (r * r ≤ val big)
      × (val big < (r + 1) * (r + 1)))
sqrt-root_example = sqrt-root big big_words

abbrev squares : U128
squares = record { lo = 93; hi = 0 }

-- The data 2, 5 and 8 with the normalization 1: the variance is 6.
stddev_runs : stddev 3 15 squares 1 ≡ some 2
unfolding stddev divide count_bits shift_left divide_from divide_step ge subtract shift_right
    divide_signed multiply add absolute sqrt nbits nbits_from gt asserted sqrt_from sqrt_step le
stddev_runs = refl

squares_words : IsU128 squares
squares_words = record { lo_lt = omega arith; hi_lt = omega arith }

stddev-root_example :
    (r : ℕ) × ((stddev 3 15 squares 1 ≡ some r)
      × (r * r + 5 * 5 ≤ 31)
      × (31 < (r + 1) * (r + 1) + 5 * 5))
stddev-root_example =
    stddev-root 3 15 squares 1 (omega arith) (omega arith) (omega arith) (omega arith) (omega arith)
      squares_words (omega arith)
