-- ===== src/Probedesc/RoundTrip.antt =====
-- dtrace_xstr2desc() takes what dtrace_desc2str() prints.
use mathlib.Core.List.{append_assoc}
use dtrace.Base.{
  ℕ, suc, ◌+◌, ◌-◌, ◌<◌, ◌≡◌, refl, ap, ◌∙◌, Bool, true, none, some, List, [], ◌∷◌, ◌++◌, arith,
  length, length-append, take, take_all,
}
use dtrace.Probedesc.Split.{IsPlain, split_last-append, split_last_plain, expand_plain}
use dtrace.Probedesc.{
  Probedesc, failed, parsed, Macros, parts_from, part_done, name_of, go_on, more_refs, set_part,
  Parsed, filled, xstr2desc, or_empty, desc2str, badspec, no_desc,
}

module _ (m : Macros) (got : ℕ → Bool) (all_got : (n : ℕ) → got n ≡ true) where
  -- A plain last part with other bytes before its ':'.
  parts_from-more :
      (spec c : ℕ) (b p : List ℕ) (pdp : Probedesc)
      → IsPlain p
      → parts_from m got (suc spec) ((c ∷ b) ++ (b':' ∷ p)) pdp
        ≡ more_refs [] (parts_from m got spec (c ∷ b) (set_part (suc spec) p pdp))
  unfolding parts_from part_done name_of go_on
  parts_from-more spec c b p pdp h =
      rw (split_last-append (c ∷ b) p h, expand_plain m p h, all_got (suc spec)) refl

  -- A plain last part with nothing before its ':', or with no ':'.
  parts_from-last :
      (spec : ℕ) (p : List ℕ) (pdp : Probedesc)
      → IsPlain p
      → parts_from m got (suc spec) (b':' ∷ p) pdp ≡ parsed (set_part (suc spec) p pdp) []
  unfolding parts_from part_done name_of go_on more_refs
  parts_from-last spec p pdp h =
      rw (split_last-append [] p h, expand_plain m p h, all_got (suc spec)) refl

  parts_from_plain :
      (spec : ℕ) (p : List ℕ) (pdp : Probedesc)
      → IsPlain p
      → parts_from m got (suc spec) p pdp ≡ parsed (set_part (suc spec) p pdp) []
  unfolding parts_from part_done name_of go_on more_refs
  parts_from_plain spec p pdp h =
      rw (split_last_plain p h, expand_plain m p h, all_got (suc spec)) refl

  -- A part where no level is left.
  unnamed_level :
      (p : List ℕ) (pdp : Probedesc) → IsPlain p → parts_from m got 0 p pdp ≡ failed badspec
  unfolding parts_from part_done
  unnamed_level p pdp h = rw (split_last_plain p h, expand_plain m p h) refl

  more_refs_nil : (r : Parsed) → more_refs [] r ≡ r
  unfolding more_refs
  more_refs_nil (failed e) = refl
  more_refs_nil (parsed pdp refs) = refl

  parts_from-step :
      (spec : ℕ) (b p : List ℕ) (pdp : Probedesc)
      → 0 < length b
      → IsPlain p
      → parts_from m got (suc spec) (b ++ (b':' ∷ p)) pdp
        ≡ parts_from m got spec b (set_part (suc spec) p pdp)
  parts_from-step spec [] p pdp h k = absurd (omega arith)
  parts_from-step spec (c ∷ b) p pdp h k =
      parts_from-more spec c b p pdp k
      ∙ more_refs_nil (parts_from m got spec (c ∷ b) (set_part (suc spec) p pdp))

  -- The last two levels: the provider may be empty.
  provider_part :
      (prv mod_ : List ℕ) (pdp : Probedesc)
      → IsPlain prv
      → IsPlain mod_
      → pdp.prv ≡ none
      → filled (parts_from m got 2 (prv ++ (b':' ∷ mod_)) pdp)
        ≡ filled (parsed (record pdp { prv = some prv; mod_ = some mod_ }) [])
  unfolding filled set_part or_empty
  provider_part [] mod_ pdp h k e =
      ap filled (parts_from-last 1 mod_ pdp k)
      ∙ ap
          (λ o.
            parsed
              (record {
                id = 0;
                prv = or_empty o;
                mod_ = some mod_;
                fun = or_empty pdp.fun;
                prb = or_empty pdp.prb;
              })
              [])
          e
  provider_part (c ∷ prv) mod_ pdp h k e =
      ap filled (
        parts_from-step 1 (c ∷ prv) mod_ pdp (omega arith) k
        ∙ parts_from_plain 0 (c ∷ prv) (set_part 2 mod_ pdp) h)
      ∙ refl

  -- Where no allocation fails, dtrace_xstr2desc() at the level of names, of what dtrace_desc2str()
  -- prints of a description without an id whose parts have no ':' and no '$' and which fits the
  -- buffer with its NUL, gives that description and uses no argument.
  pub xstr2desc-desc2str :
      (prv mod_ fun prb : List ℕ) (len : ℕ)
      → IsPlain prv
      → IsPlain mod_
      → IsPlain fun
      → IsPlain prb
      → length prv + length mod_ + length fun + length prb + 3 < len
      → let pdp : Probedesc = record {
        id = 0;
        prv = some prv;
        mod_ = some mod_;
        fun = some fun;
        prb = some prb;
      } in
        xstr2desc m got 4 (desc2str pdp len) ≡ parsed pdp []
  unfolding xstr2desc desc2str filled set_part or_empty
  xstr2desc-desc2str prv mod_ fun prb len hp hm hf hb h =
      let text : List ℕ = prv ++ (b':' ∷ (mod_ ++ (b':' ∷ (fun ++ (b':' ∷ prb))))) in
      let two : List ℕ = prv ++ (b':' ∷ mod_) in
      let three : List ℕ = two ++ (b':' ∷ fun) in
      let fits : take (len - 1) text ≡ text = take_all (len - 1) text (
        omega (
          arith,
          length-append prv (b':' ∷ (mod_ ++ (b':' ∷ (fun ++ (b':' ∷ prb))))),
          length-append mod_ (b':' ∷ (fun ++ (b':' ∷ prb))),
          length-append fun (b':' ∷ prb),
        )) in
      let grouped : text ≡ three ++ (b':' ∷ prb) = simp append_assoc in
      let some_two : 0 < length two = omega (arith, length-append prv (b':' ∷ mod_)) in
      let some_three : 0 < length three = omega (arith, length-append two (b':' ∷ fun)) in
      let last : Probedesc = record no_desc { prb = some prb } in
      ap (λ s. filled (parts_from m got 4 s no_desc)) (fits ∙ grouped)
      ∙ ap filled (
          parts_from-step 3 three prb no_desc some_three hb
          ∙ parts_from-step 2 two fun last some_two hf)
      ∙ provider_part prv mod_ (record last { fun = some fun }) hp hm refl

  -- Where no allocation fails, dtrace_xstr2desc() at the level of names gives EDT_BADSPEC for four
  -- parts behind a fifth that is not empty, where no part has a ':' or a '$'.
  pub xstr2desc_badspec :
      (before prv mod_ fun prb : List ℕ)
      → 0 < length before
      → IsPlain before
      → IsPlain prv
      → IsPlain mod_
      → IsPlain fun
      → IsPlain prb
      → xstr2desc m got 4
          ((((before ++ (b':' ∷ prv)) ++ (b':' ∷ mod_)) ++ (b':' ∷ fun)) ++ (b':' ∷ prb))
        ≡ failed badspec
  unfolding xstr2desc filled set_part
  xstr2desc_badspec before prv mod_ fun prb h hx hp hm hf hb =
      let one = before ++ (b':' ∷ prv) in
      let two = one ++ (b':' ∷ mod_) in
      let three = two ++ (b':' ∷ fun) in
      let a : 0 < length one = omega (arith, length-append before (b':' ∷ prv)) in
      let b : 0 < length two = omega (arith, length-append one (b':' ∷ mod_)) in
      let c : 0 < length three = omega (arith, length-append two (b':' ∷ fun)) in
      let p4 : Probedesc = record no_desc { prb = some prb } in
      let p3 : Probedesc = record p4 { fun = some fun } in
      let p2 : Probedesc = record p3 { mod_ = some mod_ } in
      let p1 : Probedesc = record p2 { prv = some prv } in
      ap filled (
        parts_from-step 3 three prb no_desc c hb
        ∙ parts_from-step 2 two fun p4 b hf
        ∙ parts_from-step 1 one mod_ p3 a hm
        ∙ parts_from-step 0 before prv p2 h hp
        ∙ unnamed_level before p1 hx)
