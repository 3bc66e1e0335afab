-- ===== src/Probedesc/Examples.antt =====
-- Tests of the probe descriptions, and the theorems at concrete inputs.
use dtrace.Base.{ℕ, ◌≡◌, refl, Bool, true, none, some, List, [], ◌∷◌, ◌++◌, arith}
use dtrace.Probedesc.RoundTrip.{xstr2desc-desc2str, xstr2desc_badspec}
use dtrace.Probedesc.{
  failed, parsed, Macros, xstr2desc, filled, desc2str, badspec, parts_from, part_done, go_on,
  name_of, set_part, expand, put_before, variable, numbered, strtol, skip_dollar, split_last,
  cons_before, more_refs, or_empty, badspcv,
}

-- The argument $1 is "ab", and no other macro has a value.
abbrev macros : Macros
macros = record { argv = [] ∷ (b'a' ∷ b'b' ∷ []) ∷ []; macro = λ v. none }

abbrev always : ℕ → Bool
always n = true

-- "x$1y:f:" takes the argument in the middle of the part.
takes_argument :
    xstr2desc macros always 4 (b'x' ∷ b'$' ∷ b'1' ∷ b'y' ∷ b':' ∷ b'f' ∷ b':' ∷ [])
    ≡ parsed
        (record {
          id = 0;
          prv = some [];
          mod_ = some (b'x' ∷ b'a' ∷ b'b' ∷ b'y' ∷ []);
          fun = some (b'f' ∷ []);
          prb = some [];
        })
        (1 ∷ [])
unfolding xstr2desc filled parts_from part_done go_on name_of set_part expand put_before variable
    numbered strtol skip_dollar split_last cons_before more_refs or_empty
takes_argument = refl

-- No argument $7.
no_argument : xstr2desc macros always 4 (b'$' ∷ b'$' ∷ b'7' ∷ []) ≡ failed badspcv
unfolding xstr2desc filled parts_from part_done go_on name_of set_part expand put_before variable
    numbered strtol skip_dollar split_last cons_before more_refs or_empty
no_argument = refl

xstr2desc-desc2str_example :
    xstr2desc macros always 4 (
      desc2str
        (record {
          id = 0;
          prv = some [];
          mod_ = some (b'm' ∷ []);
          fun = some [];
          prb = some (b'p' ∷ []);
        })
        64)
    ≡ parsed
        (record {
          id = 0;
          prv = some [];
          mod_ = some (b'm' ∷ []);
          fun = some [];
          prb = some (b'p' ∷ []);
        })
        []
xstr2desc-desc2str_example =
    xstr2desc-desc2str macros always (λ n. refl) [] (b'm' ∷ []) [] (b'p' ∷ []) 64 tt
      (refl, (refl, tt)) tt (refl, (refl, tt)) (omega arith)

abbrev one_byte : List ℕ
one_byte = b'a' ∷ []

xstr2desc_badspec_example :
    xstr2desc macros always 4
      ((((one_byte ++ (b':' ∷ [])) ++ (b':' ∷ [])) ++ (b':' ∷ one_byte)) ++ (b':' ∷ []))
    ≡ failed badspec
xstr2desc_badspec_example =
    xstr2desc_badspec macros always (λ n. refl) one_byte [] [] one_byte [] (omega arith)
      (refl, (refl, tt)) tt tt (refl, (refl, tt)) tt
