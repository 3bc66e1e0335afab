-- ===== src/Strtab/Store.antt =====
-- A new entry of a string table: the invariant, and what is found afterwards.
use dtrace.Base.{
  ℕ, ◌+◌, ◌-◌, ◌≤◌, ◌<◌, ◌≡◌, refl, sym, ap, ◌∙◌, subst, ◌≢◌, inl, inr, true, some, List, [], ◌∷◌,
  ◌++◌, arith, ◌==◌, if◌then◌else◌, Bool-cases, length, set, length-set, get_or, drop, get_or-set,
}
use native.Mathlib.Nat.{mod-lt}
use dtrace.Strtab.{Place, str2hval, Str, Strtab, slot, index}
use dtrace.Strtab.Flat.{drop-append_le, drop-append_add}
use dtrace.Strtab.Compare.{prefix, HasNul, HasNul-length}
use dtrace.Strtab.Copy.{pos, content, IsPlace, length-content}
use dtrace.Strtab.Search.{
  IsText, text, IsEntry, AllEntries, IsValid, HasNul-append, IsStr-text, prefix-append, find_in,
  xindex-find,
}

-- More content changes nothing for the entries so far.
IsEntry-append :
    (z : ℕ) (bytes more : List ℕ) (hp : Str) → IsEntry z bytes hp → IsEntry z (bytes ++ more) hp
IsEntry-append z bytes more hp e = record {
  inside = e.inside;
  place = e.place;
  ends =
      rw (drop-append_le hp.off bytes more (omega (arith, HasNul-length hp.off bytes e.ends)))
        (HasNul-append (drop hp.off bytes) more e.ends);
}

AllEntries-append :
    (z : ℕ) (bytes more : List ℕ) (hs : List Str)
    → AllEntries z bytes hs
    → AllEntries z (bytes ++ more) hs
AllEntries-append z bytes more [] a = tt
AllEntries-append z bytes more (hp ∷ hs) (e, a) =
    (IsEntry-append z bytes more hp e, AllEntries-append z bytes more hs a)

find_in-append :
    (z : ℕ) (bytes more : List ℕ) (hs : List Str) (str : List ℕ)
    → IsText str
    → AllEntries z bytes hs
    → find_in (bytes ++ more) hs str ≡ find_in bytes hs str
unfolding find_in
find_in-append z bytes more [] str t a = refl
find_in-append z bytes more (hp ∷ hs) str t (e, a) =
    let le : hp.off ≤ length bytes = omega (arith, HasNul-length hp.off bytes e.ends) in
    rw
      (
        drop-append_le hp.off bytes more le,
        prefix-append (str ++ (0 ∷ [])) (drop hp.off bytes) more (IsStr-text str t) e.ends,
        find_in-append z bytes more hs str t a,
      )
      refl

-- Two strings of which one begins the other, NULs included, are the same.
prefix_text :
    (s t : List ℕ) → IsText s → IsText t → prefix (s ++ (0 ∷ [])) (t ++ (0 ∷ [])) ≡ true → s ≡ t
unfolding prefix
prefix_text [] [] a b e = refl
prefix_text [] (y ∷ t) a (b, bs) e = absurd (b (ground arith))
prefix_text (x ∷ s) [] (a, as_) b e = absurd (a (ground arith))
prefix_text (x ∷ s) (y ∷ t) (a, as_) (b, bs) e =
    let h : y ≡ x = ground arith in
    ap (λ c. c ∷ s) (sym h) ∙ ap (λ l. y ∷ l) (prefix_text s t as_ bs (ground arith))

prefix_self : (s : List ℕ) → prefix s s ≡ true
unfolding prefix
prefix_self [] = refl
prefix_self (x ∷ s) = let e : (x == x) ≡ true = ground arith in rw e (prefix_self s)

HasNul-text : (s : List ℕ) → HasNul (s ++ (0 ∷ []))
HasNul-text [] = inl refl
HasNul-text (x ∷ s) = inr (HasNul-text s)

-- A search for a text is one on the content.
pub index-find :
    (sp : Strtab) (c : ℕ) (cs : List ℕ)
    → IsValid sp
    → IsText (c ∷ cs)
    → index sp (c ∷ cs) ≡ some (find_in (text sp) (get_or sp.hash (slot sp (c ∷ cs)) []) (c ∷ cs))
unfolding index
index-find sp c cs v t = xindex-find sp (c ∷ cs) (slot sp (c ∷ cs)) v t

-- The table with a new entry, once its bytes are copied.
abbrev pub stored_table : Strtab → List ℕ → Place → Strtab
stored_table sp str p = record sp {
  bufs = p.0;
  ptr = p.1;
  nstrs = sp.nstrs + 1;
  size = sp.size + (length str + 1);
  hash = set sp.hash (slot sp str) (
      record { buf = length sp.bufs - 1; at = sp.ptr; off = sp.size; len = length str }
      ∷ get_or sp.hash (slot sp str) []);
}

module _ (sp : Strtab) (c : ℕ) (cs : List ℕ) (v : IsValid sp) (t : IsText (c ∷ cs)) (p : Place)
    (k : IsPlace sp.bufsz p) (more : content sp.bufsz p ≡ text sp ++ ((c ∷ cs) ++ (0 ∷ [])))
    (further : pos sp.bufsz p ≡ sp.size + (length (c ∷ cs) + 1)) where
  abbrev new_entry : Str
  new_entry = record { buf = length sp.bufs - 1; at = sp.ptr; off = sp.size; len = length (c ∷ cs) }

  slot_inside : slot sp (c ∷ cs) < length sp.hash
  slot_inside = omega (arith, v.slots, mod-lt (str2hval (c ∷ cs) (length (c ∷ cs))) v.has_slot)

  length-text : length (text sp) ≡ sp.size
  length-text = length-content sp.bufsz (sp.bufs, sp.ptr) v.place ∙ v.measured

  drop-text : drop sp.size (text sp ++ ((c ∷ cs) ++ (0 ∷ []))) ≡ (c ∷ cs) ++ (0 ∷ [])
  drop-text =
      let e : sp.size ≡ length (text sp) + 0 = omega (arith, length-text) in
      ap (λ n. drop n (text sp ++ ((c ∷ cs) ++ (0 ∷ [])))) e
      ∙ drop-append_add (text sp) ((c ∷ cs) ++ (0 ∷ [])) 0

  new-IsEntry : IsEntry sp.bufsz (text sp ++ ((c ∷ cs) ++ (0 ∷ []))) new_entry
  new-IsEntry = record {
    inside = v.place.inside;
    place = v.measured;
    ends = subst (λ l. HasNul l) (sym drop-text) (HasNul-text (c ∷ cs));
  }

  -- The chains afterwards.
  chain_of :
      (j : ℕ)
      → get_or (stored_table sp (c ∷ cs) p).hash j [] ≡ (
          if slot sp (c ∷ cs) == j
          then new_entry ∷ get_or sp.hash (slot sp (c ∷ cs)) []
          else get_or sp.hash j [])
  chain_of j = get_or-set sp.hash (slot sp (c ∷ cs)) j _ [] slot_inside

  pub stored_table-IsValid : IsValid (stored_table sp (c ∷ cs) p)
  stored_table-IsValid = record {
    place = k;
    positive = v.positive;
    measured = further;
    slots = length-set sp.hash (slot sp (c ∷ cs)) _ ∙ v.slots;
    has_slot = v.has_slot;
    entries = λ j.
        subst (λ l. AllEntries sp.bufsz l (get_or (stored_table sp (c ∷ cs) p).hash j []))
          (sym more)
          (subst (λ hs. AllEntries sp.bufsz (text sp ++ ((c ∷ cs) ++ (0 ∷ []))) hs)
            (sym (chain_of j)) (each j));
  }
    where
      old : (j : ℕ) → AllEntries sp.bufsz (text sp ++ ((c ∷ cs) ++ (0 ∷ []))) (get_or sp.hash j [])
      old j = AllEntries-append sp.bufsz (text sp) _ (get_or sp.hash j []) (v.entries j)

      each :
          (j : ℕ)
          → AllEntries sp.bufsz (text sp ++ ((c ∷ cs) ++ (0 ∷ []))) (
              if slot sp (c ∷ cs) == j
              then new_entry ∷ get_or sp.hash (slot sp (c ∷ cs)) []
              else get_or sp.hash j [])
      each j = elim (Bool-cases (slot sp (c ∷ cs) == j)) [
        | inl here ↦ rw here (new-IsEntry, old (slot sp (c ∷ cs)))
        | inr other ↦ rw other (old j)
      ]

  -- The search afterwards, as one on the content and the chains from before.
  found_after :
      (d : ℕ) (ds : List ℕ)
      → IsText (d ∷ ds)
      → index (stored_table sp (c ∷ cs) p) (d ∷ ds)
        ≡ some (
            find_in
              (text sp ++ ((c ∷ cs) ++ (0 ∷ [])))
              (if slot sp (c ∷ cs) == slot sp (d ∷ ds)
                then new_entry ∷ get_or sp.hash (slot sp (c ∷ cs)) []
                else get_or sp.hash (slot sp (d ∷ ds)) [])
              (d ∷ ds))
  found_after d ds u =
      index-find (stored_table sp (c ∷ cs) p) d ds stored_table-IsValid u
      ∙ ap
          (λ l.
            some
              (find_in l (get_or (stored_table sp (c ∷ cs) p).hash (slot sp (d ∷ ds)) []) (d ∷ ds)))
          more
      ∙ ap (λ hs. some (find_in (text sp ++ ((c ∷ cs) ++ (0 ∷ []))) hs (d ∷ ds)))
          (chain_of (slot sp (d ∷ ds)))

  pub index-stored_self : index (stored_table sp (c ∷ cs) p) (c ∷ cs) ≡ some (some sp.size)
  unfolding find_in
  index-stored_self =
      let here : (slot sp (c ∷ cs) == slot sp (c ∷ cs)) ≡ true = ground arith in
      let hit : prefix ((c ∷ cs) ++ (0 ∷ [])) (drop sp.size (text sp ++ ((c ∷ cs) ++ (0 ∷ []))))
          ≡ true =
        ap (λ l. prefix ((c ∷ cs) ++ (0 ∷ [])) l) drop-text ∙ prefix_self ((c ∷ cs) ++ (0 ∷ [])) in
      found_after c cs t ∙ rw (here, find_in, hit) refl

  pub index-stored_ne :
      (other : List ℕ)
      → IsText other
      → other ≢ (c ∷ cs)
      → index (stored_table sp (c ∷ cs) p) other ≡ index sp other
  unfolding find_in
  index-stored_ne [] u ne = unfold index in refl
  index-stored_ne (d ∷ ds) u ne =
      let same = λ (j : ℕ).
        find_in-append sp.bufsz (text sp) ((c ∷ cs) ++ (0 ∷ [])) (get_or sp.hash j []) (d ∷ ds) u
          (v.entries j) in
      found_after d ds u
      ∙ elim (Bool-cases (slot sp (c ∷ cs) == slot sp (d ∷ ds))) [
        | inr apart ↦ rw apart (ap some (same (slot sp (d ∷ ds))))
        | inl here ↦
            let j : slot sp (c ∷ cs) ≡ slot sp (d ∷ ds) = ground arith in
            rw here
              (elim (Bool-cases (
                prefix ((d ∷ ds) ++ (0 ∷ [])) (drop sp.size (text sp ++ ((c ∷ cs) ++ (0 ∷ [])))))) [
                  | inl hit ↦ absurd (
                      ne (
                        prefix_text (d ∷ ds) (c ∷ cs) u t
                          (ap (λ l. prefix ((d ∷ ds) ++ (0 ∷ [])) l) (sym drop-text) ∙ hit)))
                  | inr miss ↦
                      rw (find_in, miss)
                        (ap some (
                          same (slot sp (c ∷ cs))
                          ∙ ap (λ i. find_in (text sp) (get_or sp.hash i []) (d ∷ ds)) j))
                ])
      ]
      ∙ sym (index-find sp d ds v u)
