-- ===== src/Rodata/Insert.antt =====
-- dt_rodata_insert() on every branch.
use dtrace.Base.{
  ℕ, ◌+◌, ◌-◌, ◌%◌, ◌^◌, ◌≤◌, ◌<◌, max, ◌≡◌, refl, sym, ap, ◌∙◌, subst, ◌⊎◌, inl, inr, Bool, true,
  false, Option, some, List, [], ◌∷◌, ◌++◌, arith, ltb, ◌==◌, if◌then◌else◌, Bool-cases, length,
  set, length-set, get_or, take, drop, get_or-set, take-append-drop,
}
use dtrace.Rodata.Match.{match_at}
use mathlib.Core.List.{append_assoc}
use native.Mathlib.Nat.{mod-lt}
use dtrace.Strtab.{Place}
use dtrace.Strtab.Undo.{undone_place}
use dtrace.Strtab.Flat.{AllLength, flat, drop-append_add}
use dtrace.Strtab.Copy.{
  HasLength, pos, AnyNone, IsPlace, copy_from-Copies, content, Copies, length-content,
}
use dtrace.Rodata.Lookup.{
  IsValid, content_of, xindex-find, find_in, AllItems, AllItems-mono, IsItem, match_at-append,
  by_match,
}
use dtrace.Rodata.{
  Rodata, Inserted, failure, undefined, found, missing, astray, Memory, insert, index, insert_entry,
  insert_new, after_search, copied_in, copyin, Search, slot, CopyResult, Item, gen_hval, same,
}
use dtrace.Strtab.Copy.Copies.{done, out}

-- How an insertion ends.
pub data Outcome (got : Bool) (mem : Memory) (dp : Rodata) (ptr : List ℕ)
    : Option (Inserted × Rodata) → Type 0 where
  known :
      {off : ℕ}
      → index dp (some ptr) ≡ some (found off)
      → Outcome got mem dp ptr (some (Inserted.at off, dp))
  strayed : index dp (some ptr) ≡ some astray → Outcome got mem dp ptr (some (undefined, dp))
  stored :
      {dp' : Rodata}
      → index dp (some ptr) ≡ some missing
      → IsValid dp'
      → content_of dp' ≡ content_of dp ++ ptr
      → dp'.item_size ≡ max dp.item_size (length ptr)
      → index dp' (some ptr) ≡ some (found dp.size)
      → Outcome got mem dp ptr (some (Inserted.at dp.size, dp'))
  no_memory :
      {dp' : Rodata}
      → index dp (some ptr) ≡ some missing
      → (got ≡ false) ⊎ AnyNone mem
      → IsValid dp'
      → content_of dp' ≡ content_of dp
      → dp'.item_size ≡ dp.item_size
      → Outcome got mem dp ptr (some (failure, dp'))

-- The block with a new entry, once its bytes are copied.
abbrev pub stored_block : Rodata → List ℕ → Place → Rodata
stored_block dp ptr p = record dp {
  bufs = p.0;
  ptr = p.1;
  size = dp.size + length ptr;
  hash = set dp.hash (slot dp ptr) (
      record { buf = length dp.bufs - 1; at = dp.ptr; off = dp.size; len = length ptr }
      ∷ get_or dp.hash (slot dp ptr) []);
  item_size = if ltb dp.item_size (length ptr) then length ptr else dp.item_size;
}

module _ (dp : Rodata) (ptr : List ℕ) (v : IsValid dp) (p : Place) (k : IsPlace dp.bufsz p)
    (more : content dp.bufsz p ≡ content_of dp ++ ptr)
    (further : pos dp.bufsz p ≡ dp.size + length ptr) where
  abbrev new_item : Item
  new_item = record { buf = length dp.bufs - 1; at = dp.ptr; off = dp.size; len = length ptr }

  slot_inside : slot dp ptr < length dp.hash
  slot_inside = omega (arith, v.slots, mod-lt (gen_hval ptr (length ptr % 2 ^ 32)) v.has_slot)

  -- The chains afterwards.
  chain_of :
      (j : ℕ)
      → get_or (stored_block dp ptr p).hash j [] ≡ (
          if slot dp ptr == j
          then new_item ∷ get_or dp.hash (slot dp ptr) []
          else get_or dp.hash j [])
  chain_of j = get_or-set dp.hash (slot dp ptr) j _ [] slot_inside

  stored_block-IsValid : IsValid (stored_block dp ptr p)
  stored_block-IsValid = record {
    place = k;
    positive = v.positive;
    measured = further;
    slots = length-set dp.hash (slot dp ptr) _ ∙ v.slots;
    has_slot = v.has_slot;
    items =
        λ j. subst (λ hs. AllItems dp.bufsz (dp.size + length ptr) hs) (sym (chain_of j)) (each j);
  }
    where
      old : (j : ℕ) → AllItems dp.bufsz (dp.size + length ptr) (get_or dp.hash j [])
      old j =
          AllItems-mono dp.bufsz dp.size (dp.size + length ptr) (get_or dp.hash j []) (omega arith)
            (v.items j)

      new : IsItem dp.bufsz (dp.size + length ptr) new_item
      new = record { inside = v.place.inside; place = v.measured; stored = omega arith }

      each :
          (j : ℕ)
          → AllItems dp.bufsz (dp.size + length ptr) (
              if slot dp ptr == j
              then new_item ∷ get_or dp.hash (slot dp ptr) []
              else get_or dp.hash j [])
      each j = elim (Bool-cases (slot dp ptr == j)) [
        | inl here ↦ rw here (new, old (slot dp ptr))
        | inr other ↦ rw other (old j)
      ]

  -- The item is found in its place, in front of the chain.
  index-stored : index (stored_block dp ptr p) (some ptr) ≡ some (found dp.size)
  unfolding find_in index
  index-stored =
      let here : (slot dp ptr == slot dp ptr) ≡ true = ground arith in
      let len : length (content_of dp) ≡ dp.size =
        length-content dp.bufsz (dp.bufs, dp.ptr) v.place ∙ v.measured in
      let tail = drop (pos dp.bufsz p) (flat p.0) in
      let whole : flat p.0 ≡ content_of dp ++ (ptr ++ tail) =
        sym (take-append-drop (pos dp.bufsz p) (flat p.0))
        ∙ ap (λ l. l ++ tail) more
        ∙ append_assoc (content_of dp) ptr tail in
      let e : dp.size ≡ length (content_of dp) + 0 = omega (arith, len) in
      let behind : drop dp.size (flat p.0) ≡ ptr ++ tail =
        ap (λ l. drop dp.size l) whole
        ∙ ap (λ n. drop n (content_of dp ++ (ptr ++ tail))) e
        ∙ drop-append_add (content_of dp) (ptr ++ tail) 0 in
      let hit : match_at ptr (drop dp.size (flat p.0)) ≡ same =
        ap (λ l. match_at ptr l) behind ∙ match_at-append ptr tail in
      xindex-find (stored_block dp ptr p) ptr (slot dp ptr) stored_block-IsValid
      ∙ ap (λ hs. some (find_in (flat p.0) hs ptr)) (chain_of (slot dp ptr))
      ∙ rw (here, find_in, hit) (unfold by_match in refl)

module _ (dp : Rodata) (v : IsValid dp) (bufs : List (List ℕ)) (full : AllLength dp.bufsz bufs)
    (longer : length dp.bufs ≤ length bufs)
    (kept : take (pos dp.bufsz (dp.bufs, dp.ptr)) (flat bufs) ≡ content_of dp) where
  -- The block after label err.
  abbrev pub undone_block : Rodata
  undone_block = record dp { bufs = take (length dp.bufs) bufs }

  undone :
      IsPlace dp.bufsz (take (length dp.bufs) bufs, dp.ptr)
      × (content dp.bufsz (take (length dp.bufs) bufs, dp.ptr) ≡ content_of dp)
      × (pos dp.bufsz (take (length dp.bufs) bufs, dp.ptr) ≡ pos dp.bufsz (dp.bufs, dp.ptr))
  undone = undone_place dp.bufsz (dp.bufs, dp.ptr) bufs v.place full longer kept

  undone_block-IsValid : IsValid undone_block
  undone_block-IsValid = record {
    place = undone.0;
    positive = v.positive;
    measured = undone.2 ∙ v.measured;
    slots = v.slots;
    has_slot = v.has_slot;
    items = v.items;
  }

module _ (got : Bool) (mem : Memory) (dp : Rodata) (ptr : List ℕ) (v : IsValid dp)
    (len : HasLength mem dp.bufsz) where
  copied-Outcome :
      {o : Option CopyResult}
      → index dp (some ptr) ≡ some missing
      → Copies mem dp.bufsz (dp.bufs, dp.ptr) ptr o
      → Outcome got mem dp ptr (
          insert_entry
            (slot dp ptr)
            (record { buf = length dp.bufs - 1; at = dp.ptr; off = dp.size; len = length ptr })
            (copied_in dp o))
  unfolding insert_entry copied_in
  copied-Outcome new (done {p' = p} k more further longer) =
      let at : pos dp.bufsz p ≡ dp.size + length ptr = omega (arith, further, v.measured) in
      stored new (stored_block-IsValid dp ptr v p k more at) more (ground arith)
        (index-stored dp ptr v p k more at)
  copied-Outcome new (out {bufs = bufs} any full longer kept) =
      no_memory new (inr any) (undone_block-IsValid dp v bufs full longer kept)
        (undone dp v bufs full longer kept).1 refl

  insert_new-Outcome :
      (ok : Bool)
      → got ≡ ok
      → index dp (some ptr) ≡ some missing
      → Outcome got mem dp ptr (insert_new ok mem dp ptr)
  unfolding insert_new copyin
  insert_new-Outcome false e new = no_memory new (inl e) v refl refl
  insert_new-Outcome true e new = copied-Outcome new (
      copy_from-Copies (length ptr + 1) mem dp.bufsz (dp.bufs, dp.ptr) ptr v.positive len
        (omega arith) v.place)

  after_search-Outcome :
      (r : Search)
      → index dp (some ptr) ≡ some r
      → Outcome got mem dp ptr (after_search got mem dp ptr (some r))
  unfolding after_search
  after_search-Outcome (found off) e = known e
  after_search-Outcome missing e = insert_new-Outcome got refl e
  after_search-Outcome astray e = strayed e

-- dt_rodata_insert() of an item into a valid block ends: if the search finds it, it returns that
-- offset and changes nothing; if the search reads behind the last buffer, nothing is promised;
-- else, if an allocation fails, it returns -1 with the data and the largest size as before and the
-- block valid, and if none does, the bytes are appended to the data, the old size is returned and
-- found by the next search, the largest item size is kept and the block is valid.
pub insert-Outcome :
    (got : Bool) (mem : Memory) (dp : Rodata) (ptr : List ℕ)
    → IsValid dp
    → HasLength mem dp.bufsz
    → Outcome got mem dp ptr (insert got mem dp (some ptr))
unfolding insert
insert-Outcome got mem dp ptr v len =
    let found' = xindex-find dp ptr (slot dp ptr) v in
    let r = find_in (flat dp.bufs) (get_or dp.hash (slot dp ptr) []) ptr in
    rw found' (after_search-Outcome got mem dp ptr v len r (unfold index in found'))
