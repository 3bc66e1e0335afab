-- ===== src/Probedesc/Split.antt =====
-- Splitting a description at its last ':', and parts without a variable.
use dtrace.Base.{ℕ, ◌≡◌, refl, ap, ◌∙◌, false, none, some, List, [], ◌∷◌, ◌++◌, ◌==◌}
use dtrace.Probedesc.{split_last, expand, cons_before, put_before, Macros}

-- A part that has no delimiter and no variable.
abbrev pub IsPlain : List ℕ → Type 0
IsPlain [] = Unit {0}
IsPlain (c ∷ p) = ((c == b':') ≡ false) × (((c == b'$') ≡ false) × IsPlain p)

pub split_last_plain : (p : List ℕ) → IsPlain p → split_last p ≡ (p, none)
unfolding split_last cons_before
split_last_plain [] h = refl
split_last_plain (c ∷ p) (d, (v, h)) = ap (λ r. cons_before c r) (split_last_plain p h) ∙ rw d refl

pub split_last-append : (s p : List ℕ) → IsPlain p → split_last (s ++ (b':' ∷ p)) ≡ (p, some s)
unfolding split_last cons_before
split_last-append [] p h = ap (λ r. cons_before b':' r) (split_last_plain p h) ∙ refl
split_last-append (c ∷ s) p h = ap (λ r. cons_before c r) (split_last-append s p h)

pub expand_plain : (m : Macros) (p : List ℕ) → IsPlain p → expand m p ≡ some (p, [])
unfolding expand put_before
expand_plain m [] h = refl
expand_plain m (c ∷ p) (d, (v, h)) = rw v (ap (λ r. put_before c r) (expand_plain m p h))
