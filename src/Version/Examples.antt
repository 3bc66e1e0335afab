-- ===== src/Version/Examples.antt =====
-- Tests of the version numbers, and the theorems at concrete inputs.
use dtrace.Base.{◌≡◌, refl, true, some, [], ◌∷◌, arith}
use dtrace.Version.{
  version_number, num2str, print_u, decimal, version_major, version_minor, version_micro, str2num,
  parse, check_fields, defined,
}
use dtrace.Version.RoundTrip.{str2num-num2str}

one_two_one : num2str (version_number 1 2 1) 16 ≡ b'1' ∷ b'.' ∷ b'2' ∷ b'.' ∷ b'1' ∷ []
unfolding num2str print_u decimal version_number version_major version_minor version_micro
one_two_one = refl

-- An overflow: 4294967297.2 is taken for 1.2.
wrapped :
    str2num (b'4' ∷ b'2' ∷ b'9' ∷ b'4' ∷ b'9' ∷ b'6' ∷ b'7' ∷ b'2' ∷ b'9' ∷ b'7' ∷ b'.' ∷ b'2' ∷ [])
    ≡ some (version_number 1 2 0)
unfolding str2num parse check_fields version_number
wrapped = refl

defined_test :
    defined (version_number 1 0 0 ∷ version_number 1 1 0 ∷ []) (version_number 1 1 0) ≡ true
unfolding defined version_number
defined_test = refl

str2num-num2str_example : str2num (num2str 16785409 16) ≡ some 16785409
str2num-num2str_example = str2num-num2str 16785409 (omega arith)
