-- ===== src/Options/Examples.antt =====
-- Tests of the options' values, and the theorem at a concrete input.
use dtrace.Base.{◌≡◌, refl, inl, some, [], ◌∷◌, ◌++◌, arith}
use dtrace.Options.Size.{optval_parse_decimal, kilo}
use dtrace.Options.{
  optval_parse, opt_rate, multiplier, last, rated, valid, checked, rate_value, scan_number,
  find_suffix, skip_spaces, suffixes, is_space, strcasecmp, take_sign, take_base, zero_base,
  after_base, starts_digit, take_digits, digit_value, strtoull, invalid, opted,
}
use dtrace.Attr.{strcasecmp, lower}

-- "0x10k" is 16 times 1024.
hexadecimal : optval_parse (b'0' ∷ b'x' ∷ b'1' ∷ b'0' ∷ b'k' ∷ []) ≡ valid 16384
unfolding optval_parse last multiplier checked scan_number skip_spaces is_space take_sign take_base
    zero_base after_base starts_digit take_digits digit_value strtoull
hexadecimal = refl

-- A suffix alone is taken for 0.
only_suffix : optval_parse (b'k' ∷ []) ≡ valid 0
unfolding optval_parse last multiplier checked scan_number skip_spaces is_space take_sign take_base
    zero_base after_base starts_digit take_digits digit_value strtoull
only_suffix = refl

-- "-1" is refused.
negative : optval_parse (b'-' ∷ b'1' ∷ []) ≡ invalid
unfolding optval_parse last multiplier checked scan_number skip_spaces is_space take_sign take_base
    zero_base after_base starts_digit take_digits digit_value strtoull
negative = refl

-- "16777216t" is 2^64, of which 0 is left.
wraps_to_zero :
    optval_parse (b'1' ∷ b'6' ∷ b'7' ∷ b'7' ∷ b'7' ∷ b'2' ∷ b'1' ∷ b'6' ∷ b't' ∷ []) ≡ valid 0
unfolding optval_parse last multiplier checked scan_number skip_spaces is_space take_sign take_base
    zero_base after_base starts_digit take_digits digit_value strtoull
wraps_to_zero = refl

-- "5hz" is a fifth of a second.
hertz : opt_rate (0 ∷ 0 ∷ []) (some (b'5' ∷ b'h' ∷ b'Z' ∷ [])) 1 ≡ opted (0 ∷ 200000000 ∷ [])
unfolding opt_rate rated rate_value find_suffix suffixes strcasecmp lower scan_number skip_spaces
    is_space take_sign take_base zero_base after_base starts_digit take_digits digit_value strtoull
hertz = refl

optval_parse_decimal_example : optval_parse ((b'1' ∷ b'2' ∷ []) ++ (b'k' ∷ [])) ≡ valid 12288
unfolding multiplier
optval_parse_decimal_example =
    optval_parse_decimal b'1' (b'2' ∷ []) (omega arith) (omega arith) (refl, tt)
      (kilo b'k' (inl refl))
