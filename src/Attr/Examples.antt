-- ===== src/Attr/Examples.antt =====
-- Tests of the attributes, and the theorems at concrete inputs.
use dtrace.Attr.Parse.{str2attr-attr2str}
use dtrace.Attr.Compare.{Compares, attr_cmp-Compares}
use dtrace.Base.{◌≡◌, refl, true, some, [], ◌∷◌, arith}
use dtrace.Attr.{
  Attribute, attr2str, str2attr, joined, str2data, maxattr, stability_name, str2class, attr_cmp,
  class_name, getstrattr, until_slash, search_name, is_name, strcasecmp, lower,
}

abbrev evolving : Attribute
evolving = record { dtat_name = 5; dtat_data = 5; dtat_class = 4 }

prints :
    attr2str evolving 18
    ≡ some (
        b'E' ∷ b'v' ∷ b'o' ∷ b'l' ∷ b'v' ∷ b'i' ∷ b'n' ∷ b'g' ∷ b'/' ∷ b'E' ∷ b'v' ∷ b'o' ∷ b'l'
        ∷ b'v' ∷ b'i' ∷ b'n' ∷ b'g' ∷ [])
unfolding attr2str joined stability_name class_name
prints = refl

-- "Stable/" leaves the other attributes at the highest.
parses_one :
    str2attr (some (b's' ∷ b'T' ∷ b'A' ∷ b'B' ∷ b'L' ∷ b'E' ∷ b'/' ∷ [])) evolving
    ≡ (true, record { dtat_name = 6; dtat_data = 7; dtat_class = 5 })
unfolding str2attr str2data str2class getstrattr until_slash search_name is_name strcasecmp lower
    stability_name class_name
parses_one = refl

str2attr-attr2str_example : str2attr (attr2str evolving 64) maxattr ≡ (true, evolving)
str2attr-attr2str_example =
    str2attr-attr2str evolving maxattr 64 (omega arith) (omega arith) (omega arith) (omega arith)

attr_cmp-Compares_example : Compares evolving maxattr (attr_cmp evolving maxattr)
attr_cmp-Compares_example =
    attr_cmp-Compares evolving maxattr (omega arith, (omega arith, omega arith))
      (omega arith, (omega arith, omega arith))
