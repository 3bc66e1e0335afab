-- ===== src/StringCopy/Examples.antt =====
-- Tests of the bounded copies, and the theorems at concrete inputs.
use dtrace.Base.{ℕ, ◌≡◌, refl, List, [], ◌∷◌, ◌++◌, arith}
use dtrace.StringCopy.{strlcat, find_end}
use dtrace.StringCopy.Bounded.{strlcat_bounded}

abbrev memory : List ℕ
memory = 1 ∷ 2 ∷ 0 ∷ 9 ∷ 9 ∷ 9 ∷ []

abbrev source : List ℕ
source = 5 ∷ 6 ∷ 7 ∷ []

-- Five bytes hold four of the five.
cut_append : (strlcat memory source 5).0 ≡ 1 ∷ 2 ∷ 5 ∷ 6 ∷ 0 ∷ 9 ∷ []
unfolding strlcat find_end
cut_append = refl

strlcat_bounded_example :
    ((strlcat ((1 ∷ 2 ∷ []) ++ (0 ∷ 9 ∷ 9 ∷ 9 ∷ [])) source 5).1 ≡ 5)
    × ((strlcat ((1 ∷ 2 ∷ []) ++ (0 ∷ 9 ∷ 9 ∷ 9 ∷ [])) source 5).0 ≡ 1 ∷ 2 ∷ 5 ∷ 6 ∷ 0 ∷ 9 ∷ [])
strlcat_bounded_example =
    strlcat_bounded (1 ∷ 2 ∷ []) (9 ∷ 9 ∷ 9 ∷ []) source 5
      ((λ e. ground (arith, e)), ((λ e. ground (arith, e)), tt)) (omega arith) (omega arith)
