-- ===== src/Text/Examples.antt =====
-- Tests of the string functions, and the theorems at concrete inputs.
use dtrace.Base.{ℕ, suc, ◌≡◌, refl, List, [], ◌∷◌, ◌++◌, arith, replicate}
use dtrace.Text.{
  strhyphenate, stresc2chr, stresc2chr_in, letter, hex_digit, strchr2esc, escaped_by, letter_of,
}
use dtrace.Text.Escape.{upto_nul, stresc2chr-strchr2esc}
use dtrace.Text.Hyphen.{hyphens, strhyphenate-hyphens}

-- A tab, the byte 200, a quote, an `x`, a NUL and a byte behind it.
abbrev mixed : List ℕ
mixed = 9 ∷ 200 ∷ 34 ∷ b'x' ∷ 0 ∷ b'y' ∷ []

mixed_escaped :
    strchr2esc mixed ≡ 92 ∷ b't' ∷ 92 ∷ b'3' ∷ b'1' ∷ b'0' ∷ 92 ∷ 34 ∷ b'x' ∷ 92 ∷ b'0' ∷ []
unfolding strchr2esc escaped_by letter_of
mixed_escaped = refl

-- `\x41g\q\7` and a backslash at the end.
odd_escapes :
    stresc2chr (92 ∷ b'x' ∷ b'4' ∷ b'1' ∷ b'g' ∷ 92 ∷ b'q' ∷ 92 ∷ b'7' ∷ 92 ∷ [])
    ≡ b'A' ∷ b'g' ∷ 92 ∷ b'q' ∷ 7 ∷ []
unfolding stresc2chr stresc2chr_in letter hex_digit
odd_escapes = refl

stresc2chr-strchr2esc_example : stresc2chr (strchr2esc mixed) ≡ upto_nul mixed
stresc2chr-strchr2esc_example =
    stresc2chr-strchr2esc mixed
      (omega arith, (omega arith, (omega arith, (omega arith, (omega arith, (omega arith, tt))))))

abbrev path : List ℕ
path = b'/' ∷ b'a' ∷ b'/' ∷ b'b' ∷ []

abbrev underscored : List ℕ
underscored = b'a' ∷ b'_' ∷ b'_' ∷ b'_' ∷ b'b' ∷ []

strhyphenate-hyphens_example :
    (k : ℕ) × (strhyphenate underscored ≡ hyphens underscored ++ replicate (suc k) 0)
strhyphenate-hyphens_example = strhyphenate-hyphens underscored

hyphens_test : hyphens underscored ≡ b'a' ∷ b'-' ∷ b'_' ∷ b'b' ∷ []
unfolding hyphens
hyphens_test = refl
