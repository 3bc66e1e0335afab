-- ===== src/Rodata/Write.antt =====
-- A new data block, and dt_rodata_write() of a block into memory.
use dtrace.Strtab.Write.{write_from-copystr, first_byte}
use dtrace.Base.{
  ℕ, ◌+◌, ◌-◌, ◌*◌, ◌≤◌, ◌<◌, ◌≡◌, refl, sym, ap, ◌∙◌, subst, ◌⊎◌, inl, inr, Bool, true, false, not,
  ◌&&◌, Option, none, some, List, [], ◌∷◌, ◌++◌, arith, ◌==◌, if◌then◌else◌, Option-cases, length,
  set, length-set, take, drop, replicate, length-replicate, get_or-replicate,
}
use dtrace.Strtab.Flat.{flat}
use dtrace.Strtab.Copy.{HasLength, pos, length-content}
use dtrace.Rodata.Lookup.{IsValid, content_of, AllItems}
use dtrace.Rodata.{Rodata, copy, write, create, Item}
use dtrace.Strtab.{Memory, memcpy, strbuckets, copystr, write_from}

copy-copystr : (mem piece : List ℕ) (off : ℕ) → copy mem piece off ≡ copystr mem piece off
unfolding copy copystr
copy-copystr mem piece off = refl

-- dt_rodata_write() with dt_rodata_copy() of a valid block into enough memory puts all the data at
-- its start, leaves the rest of the memory, and returns the size of the block.
write-copy :
    (dp : Rodata) (mem : List ℕ)
    → IsValid dp
    → 0 < dp.size
    → dp.size ≤ length mem
    → write copy dp mem ≡ (content_of dp ++ drop dp.size mem, some dp.size)
unfolding write
write-copy dp mem v some_ fits =
    let same_copy : copy ≡ copystr = λ i. λ m p o. copy-copystr m p o i in
    let run =
      write_from-copystr dp.bufsz dp.bufs dp.ptr mem 0 v.positive v.place
        (omega (arith, fits, v.measured)) in
    let size : 0 + pos dp.bufsz (dp.bufs, dp.ptr) ≡ dp.size = omega (arith, v.measured) in
    let ok : (dp.size == 0) ≡ false = ground arith in
    let len : 0 + length (content_of dp) ≡ dp.size =
      omega (arith, length-content dp.bufsz (dp.bufs, dp.ptr) v.place, v.measured) in
    let finish : List ℕ × ℕ → List ℕ × Option ℕ =
      λ r. (r.0, if (r.1 == 0) && not (dp.size == 0) then none else some r.1) in
    let last : finish (memcpy mem 0 (content_of dp), dp.size)
        ≡ (content_of dp ++ drop dp.size mem, some dp.size) =
      rw ok (λ i. (content_of dp ++ drop (len i) mem, some dp.size)) in
    ap (λ f. finish (write_from f dp.bufs dp.ptr mem 0)) same_copy
    ∙ ap finish (run ∙ (λ i. (memcpy mem 0 (content_of dp), size i)))
    ∙ last

-- A new block is valid and holds the 0 byte, where no allocation fails.
pub create-IsValid :
    (got got_hash : Bool) (mem : Memory) (bufsz : ℕ)
    → 0 < bufsz
    → HasLength mem bufsz
    → ((create got got_hash mem bufsz ≡ none)
        × ((got ≡ false) ⊎ ((got_hash ≡ false) ⊎ (mem 0 ≡ none))))
      ⊎ ((dp : Rodata) × (create got got_hash mem bufsz ≡ some dp)
          × IsValid dp
          × (content_of dp ≡ 0 ∷ [])
          × (dp.bufsz ≡ bufsz))
unfolding create
create-IsValid false got_hash mem bufsz h len = inl (refl, inl refl)
create-IsValid true false mem bufsz h len = inl (refl, inr (inl refl))
create-IsValid true true mem bufsz h len = elim (Option-cases (mem 0)) [
  | inl e ↦ inl (rw e refl, inr (inr e))
  | inr (buf, e) ↦ inr (
    record {
      hash = replicate strbuckets [];
      hashsz = strbuckets;
      bufs = set buf 0 0 ∷ [];
      ptr = 1;
      bufsz = bufsz;
      size = 1;
      item_size = 0;
    },
    rw e refl,
    record {
      place = record {
        some_buf = omega arith;
        full = (length-set buf 0 0 ∙ len 0 buf e, tt);
        inside = omega arith;
      };
      positive = h;
      measured = omega arith;
      slots = length-replicate {A = List Item} strbuckets [];
      has_slot = omega arith;
      items = λ j.
          subst (λ hs. AllItems bufsz 1 hs) (sym (get_or-replicate {A = List Item} strbuckets j []))
            tt;
    },
    (let one : (1 - 1) * bufsz + 1 ≡ 1 = omega arith in
        ap (λ n. take n (flat (set buf 0 0 ∷ []))) one
        ∙ unfold flat in first_byte buf (omega (arith, len 0 buf e))),
    refl,
  )
]
