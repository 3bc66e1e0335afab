-- ===== src/Strtab/Insert.antt =====
-- dt_strtab_insert() on every branch.
use dtrace.Strtab.Undo.{undone_place}
use dtrace.Base.{
  ℕ, ◌+◌, ◌-◌, ◌≤◌, ◌≡◌, refl, sym, ap, ◌∙◌, subst, ◌≢◌, ◌⊎◌, inl, inr, Bool, true, false, Option,
  none, some, List, [], ◌∷◌, ◌++◌, arith, Option-cases, length, length-append, get_or, take,
}
use dtrace.Strtab.{
  Strtab, Memory, CopyResult, slot, index, copied_in, insert_entry, insert_new, insert,
}
use dtrace.Strtab.Flat.{flat, AllLength}
use dtrace.Strtab.Copy.{HasLength, AnyNone, pos, Copies, copy_from-Copies, IsPlace, content}
use dtrace.Strtab.Copy.Copies.{done, out}
use dtrace.Strtab.Store.{index-find, stored_table-IsValid, index-stored_self, index-stored_ne}
use dtrace.Strtab.Search.{IsText, text, AllEntries, IsValid, find_in, xindex-find}

-- How an insertion ends.
pub data Inserts (got : Bool) (mem : Memory) (sp : Strtab) (str : List ℕ)
    : Option (Option ℕ × Strtab) → Type 0 where
  known : {off : ℕ} → index sp str ≡ some (some off) → Inserts got mem sp str (some (some off, sp))
  stored :
      {sp' : Strtab}
      → index sp str ≡ some none
      → IsValid sp'
      → text sp' ≡ text sp ++ (str ++ (0 ∷ []))
      → sp'.nstrs ≡ sp.nstrs + 1
      → index sp' str ≡ some (some sp.size)
      → ((other : List ℕ) → IsText other → other ≢ str → index sp' other ≡ index sp other)
      → Inserts got mem sp str (some (some sp.size, sp'))
  no_memory :
      {sp' : Strtab}
      → index sp str ≡ some none
      → (got ≡ false) ⊎ AnyNone mem
      → IsValid sp'
      → text sp' ≡ text sp
      → sp'.nstrs ≡ sp.nstrs
      → ((other : List ℕ) → IsText other → index sp' other ≡ index sp other)
      → Inserts got mem sp str (some (none, sp'))

module _ (sp : Strtab) (v : IsValid sp) (bufs : List (List ℕ)) (full : AllLength sp.bufsz bufs)
    (longer : length sp.bufs ≤ length bufs)
    (kept : take (pos sp.bufsz (sp.bufs, sp.ptr)) (flat bufs) ≡ text sp) where
  -- The table after label err.
  abbrev pub undone_table : Strtab
  undone_table = record sp { bufs = take (length sp.bufs) bufs }

  undone :
      IsPlace sp.bufsz (take (length sp.bufs) bufs, sp.ptr)
      × (content sp.bufsz (take (length sp.bufs) bufs, sp.ptr) ≡ text sp)
      × (pos sp.bufsz (take (length sp.bufs) bufs, sp.ptr) ≡ pos sp.bufsz (sp.bufs, sp.ptr))
  undone = undone_place sp.bufsz (sp.bufs, sp.ptr) bufs v.place full longer kept

  undone_text : text undone_table ≡ text sp
  undone_text = undone.1

  undone_table-IsValid : IsValid undone_table
  undone_table-IsValid = record {
    place = undone.0;
    positive = v.positive;
    measured = undone.2 ∙ v.measured;
    slots = v.slots;
    has_slot = v.has_slot;
    entries = λ j.
        subst (λ l. AllEntries sp.bufsz l (get_or sp.hash j [])) (sym undone_text) (v.entries j);
  }

  index-undone : (other : List ℕ) → IsText other → index undone_table other ≡ index sp other
  index-undone [] u = unfold index in refl
  index-undone (d ∷ ds) u =
      index-find undone_table d ds undone_table-IsValid u
      ∙ ap (λ l. some (find_in l (get_or sp.hash (slot sp (d ∷ ds)) []) (d ∷ ds))) undone_text
      ∙ sym (index-find sp d ds v u)

module _ (got : Bool) (mem : Memory) (sp : Strtab) (c : ℕ) (cs : List ℕ) (v : IsValid sp)
    (len : HasLength mem sp.bufsz) (t : IsText (c ∷ cs)) where
  copied-Inserts :
      {o : Option CopyResult}
      → index sp (c ∷ cs) ≡ some none
      → Copies mem sp.bufsz (sp.bufs, sp.ptr) ((c ∷ cs) ++ (0 ∷ [])) o
      → Inserts got mem sp (c ∷ cs) (
          insert_entry
            (slot sp (c ∷ cs))
            (record { buf = length sp.bufs - 1; at = sp.ptr; off = sp.size; len = length (c ∷ cs) })
            (copied_in sp o))
  unfolding insert_entry copied_in
  copied-Inserts new (done {p' = p} k more further longer) =
      let at : pos sp.bufsz p ≡ sp.size + (length (c ∷ cs) + 1) =
        omega (arith, further, v.measured, length-append (c ∷ cs) (0 ∷ [])) in
      stored new (stored_table-IsValid sp c cs v t p k more at) more refl
        (index-stored_self sp c cs v t p k more at) (index-stored_ne sp c cs v t p k more at)
  copied-Inserts new (out {bufs = bufs} any full longer kept) =
      no_memory new (inr any) (undone_table-IsValid sp v bufs full longer kept)
        (undone_text sp v bufs full longer kept) refl (index-undone sp v bufs full longer kept)

  insert_new-Inserts :
      (ok : Bool)
      → got ≡ ok
      → index sp (c ∷ cs) ≡ some none
      → Inserts got mem sp (c ∷ cs) (insert_new ok mem sp (c ∷ cs))
  unfolding insert_new
  insert_new-Inserts false e new = no_memory new (inl e) v refl refl (λ other u. refl)
  insert_new-Inserts true e new = copied-Inserts new (
      copy_from-Copies (length ((c ∷ cs) ++ (0 ∷ [])) + 1) mem sp.bufsz (sp.bufs, sp.ptr)
        ((c ∷ cs) ++ (0 ∷ [])) v.positive len (omega arith) v.place)

-- dt_strtab_insert() of a string other than the empty one into a valid table ends. If the string is
-- known it returns its offset and changes nothing. Else, if an allocation fails, it returns -1 and
-- every search comes to the same as before; and if none does, it returns the old size as the
-- offset, at which the string and its NUL are appended to the content, the table is valid, counts
-- one string more and finds the string there, and every other search comes to the same as before.
pub insert-Inserts :
    (got : Bool) (mem : Memory) (sp : Strtab) (c : ℕ) (cs : List ℕ)
    → IsValid sp
    → HasLength mem sp.bufsz
    → IsText (c ∷ cs)
    → Inserts got mem sp (c ∷ cs) (insert got mem sp (c ∷ cs))
unfolding insert
insert-Inserts got mem sp c cs v len t =
    let h = slot sp (c ∷ cs) in
    let found = xindex-find sp (c ∷ cs) h v t in
    let searched = index-find sp c cs v t in
    elim (Option-cases (find_in (text sp) (get_or sp.hash h []) (c ∷ cs))) [
      | inr (off, e) ↦ rw (found, e, insert) (known (searched ∙ ap some e))
      | inl e ↦
          rw (found, e, insert)
            (insert_new-Inserts got mem sp c cs v len t got refl (searched ∙ ap some e))
    ]
