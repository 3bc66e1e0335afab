-- ===== src/Probedesc.antt =====
-- The probe descriptions of libdtrace/dt_subr.c: dtrace_xstr2desc() and dtrace_desc2str().
-- A string is the list of its bytes before the NUL.
use dtrace.Base.{
  ℕ, zero, suc, ◌+◌, ◌-◌, ◌*◌, ◌/◌, ◌%◌, ◌^◌, ◌≤◌, ◌<◌, min, max, ◌≡◌, refl, sym, ap, ◌∙◌, fun_ext,
  subst, ◌≢◌, ◌↔◌, ◌⊎◌, inl, inr, Bool, true, false, not, ◌&&◌, ◌||◌, Option, none, some, List, [],
  ◌∷◌, ◌++◌, map, arith, ltb, leb, ◌==◌, if◌then◌else◌, Bool-cases, Option-cases, ==_iff, ltb→lt,
  lt→ltb, leb→le, length, get_elem?, set, length-append, length-set, get_or, take, drop, replicate,
  length-replicate, length-take, length-drop, take-append_add, take-append_le, take_add, take_all,
  take-take, get_or-set, get_or-replicate, total, total-set, total-replicate,
}
use dtrace.Version.{print_u}
pub mod Split
pub mod RoundTrip
pub mod Examples

-- dtrace_probedesc_t; `none` is NULL.
pub record Probedesc : Type 0 where
  pub id : ℕ
  pub prv : Option (List ℕ)
  pub mod_ : Option (List ℕ)
  pub fun : Option (List ℕ)
  pub prb : Option (List ℕ)

pub data Error : Type 0 where
  einval badspcv badspec enomem : Error

-- Where macro variables come from: the arguments $0, $1 and so on, and the text "%d" of the id of
-- another macro.
pub record Macros : Type 0 where
  pub argv : List (List ℕ)
  pub macro : List ℕ → Option (List ℕ)

abbrev pub is_digit : ℕ → Bool
is_digit c = leb b'0' c && leb c b'9'

-- strtol() of a text that starts with a digit: the number, and the rest.
pub strtol : List ℕ → (i : ℕ) → ℕ × List ℕ
strtol [] i = (i, [])
strtol (c ∷ v) i =
    let rest = strtol v (i * 10 + (c - b'0')) in if is_digit c then rest else (i, c ∷ v)

-- The text of a variable, from what follows its '$', and the indices of the arguments used. A
-- strtol() that is out of range gives an index that is no argument's.
pub numbered : List (List ℕ) → ℕ × List ℕ → Option (List ℕ × List ℕ)
numbered argv (i, w) = elim (get_elem? argv i) [ none ↦ none | some arg ↦ some (arg ++ w, i ∷ []) ]

pub variable : Macros → List ℕ → Option (List ℕ × List ℕ)
variable m [] = none
variable m (c ∷ v) =
    if is_digit c
    then numbered m.argv (strtol (c ∷ v) 0)
    else elim (m.macro (c ∷ v)) [ none ↦ none | some text ↦ some (text, []) ]

-- A second '$' is skipped where something follows it.
pub skip_dollar : List ℕ → List ℕ
skip_dollar [] = []
skip_dollar (c ∷ []) = c ∷ []
skip_dollar (c ∷ d ∷ v) = if c == b'$' then d ∷ v else c ∷ d ∷ v

pub put_before : (c : ℕ) → Option (List ℕ × List ℕ) → Option (List ℕ × List ℕ)
put_before c none = none
put_before c (some (text, refs)) = some (c ∷ text, refs)

-- One part of the description, with its variable: the text before the first '$' and the variable's.
pub expand : Macros → List ℕ → Option (List ℕ × List ℕ)
expand m [] = some ([], [])
expand m (c ∷ q) =
    let rest = expand m q in if c == b'$' then variable m (skip_dollar q) else put_before c rest

-- The part behind the last ':', and what is before that ':' if there is one.
pub cons_before : (c : ℕ) → List ℕ × Option (List ℕ) → List ℕ × Option (List ℕ)
cons_before c (part, some before) = (part, some (c ∷ before))
cons_before c (part, none) = if c == b':' then (part, some []) else (c ∷ part, none)

pub split_last : List ℕ → List ℕ × Option (List ℕ)
split_last [] = ([], none)
split_last (c ∷ s) = cons_before c (split_last s)

-- The part of a level of dtrace_probespec_t, which counts from 1 for DTRACE_PROBESPEC_PROVIDER.
pub set_part : (spec : ℕ) → List ℕ → Probedesc → Probedesc
set_part zero name pdp = pdp
set_part (suc zero) name pdp = record pdp { prv = some name }
set_part (suc (suc zero)) name pdp = record pdp { mod_ = some name }
set_part (suc (suc (suc zero))) name pdp = record pdp { fun = some name }
set_part (suc (suc (suc (suc n)))) name pdp = record pdp { prb = some name }

-- An error, or the description with the indices of the arguments that were used.
pub data Parsed : Type 0 where
  failed : Error → Parsed
  parsed : Probedesc → (refs : List ℕ) → Parsed

pub more_refs : List ℕ → Parsed → Parsed
more_refs refs (failed e) = failed e
more_refs refs (parsed pdp refs') = parsed pdp (refs ++ refs')

-- What follows the expansion of the part of a level: `rest` are the parts before it. Level 0 is
-- DTRACE_PROBESPEC_NONE, level 4 DTRACE_PROBESPEC_NAME. `got` says whether calloc succeeds.
pub part_done : (got : Bool) → (spec : ℕ) → Option (List ℕ × List ℕ) → (rest : Parsed) → Parsed
part_done got spec none rest = failed badspcv
part_done got zero (some (name, refs)) rest = failed badspec
part_done got (suc spec) (some (name, refs)) rest =
    if not got then failed enomem else more_refs refs rest

pub name_of : Option (List ℕ × List ℕ) → List ℕ
name_of none = []
name_of (some (name, refs)) = name

abbrev pub text_of : Option (List ℕ) → List ℕ
text_of none = []
text_of (some s) = s

-- The loop goes on while a byte is before the ':'.
pub go_on : List ℕ → (stop more : Parsed) → Parsed
go_on [] stop more = stop
go_on (c ∷ b) stop more = more

-- The loop: one level for each part, from the last on.
pub parts_from : Macros → (got : ℕ → Bool) → (spec : ℕ) → List ℕ → Probedesc → Parsed
parts_from m got zero s pdp = part_done (got 0) 0 (expand m (split_last s).0) (parsed pdp [])
parts_from m got (suc spec) s pdp =
    let (part, before) = split_last s in
    let e = expand m part in
    let pdp' = set_part (suc spec) (name_of e) pdp in
    let rest =
      go_on (text_of before) (parsed pdp' []) (parts_from m got spec (text_of before) pdp') in
    part_done (got (suc spec)) (suc spec) e rest

pub or_empty : Option (List ℕ) → Option (List ℕ)
or_empty none = some []
or_empty (some s) = some s

-- The parts that are not given are empty strings, whose strdup() is taken to succeed.
pub filled : Parsed → Parsed
filled (failed e) = failed e
filled (parsed pdp refs) =
    parsed
      (record {
        id = 0;
        prv = or_empty pdp.prv;
        mod_ = or_empty pdp.mod_;
        fun = or_empty pdp.fun;
        prb = or_empty pdp.prb;
      })
      refs

abbrev pub no_desc : Probedesc
no_desc = record { id = 0; prv = none; mod_ = none; fun = none; prb = none }

-- dtrace_xstr2desc(): the levels count from DTRACE_PROBESPEC_NONE, which is 0 here and -1 there, so
-- that level 4 is DTRACE_PROBESPEC_NAME.
pub xstr2desc : Macros → (got : ℕ → Bool) → (spec : ℕ) → List ℕ → Parsed
xstr2desc m got spec s =
    if ltb 4 spec then failed einval else filled (parts_from m got spec s no_desc)

-- dtrace_str2desc(): no arguments.
pub str2desc : (List ℕ → Option (List ℕ)) → (got : ℕ → Bool) → (spec : ℕ) → List ℕ → Parsed
str2desc macro got spec s = xstr2desc (record { argv = []; macro = macro }) got spec s

-- dtrace_desc2str() with snprintf() into len bytes.
pub desc2str : Probedesc → (len : ℕ) → List ℕ
desc2str pdp len = take (len - 1) (
    if pdp.id == 0
    then text_of pdp.prv
      ++ (b':' ∷ (text_of pdp.mod_ ++ (b':' ∷ (text_of pdp.fun ++ (b':' ∷ text_of pdp.prb)))))
    else print_u pdp.id)
