-- ===== src/Strtab/Write.antt =====
-- A new string table, and dt_strtab_write() of a table into memory.
use dtrace.Base.{
  ℕ, suc, ◌+◌, ◌-◌, ◌*◌, ◌≤◌, ◌<◌, ◌≡◌, refl, sym, ap, ◌∙◌, subst, ◌⊎◌, inl, inr, Bool, true, false,
  not, ◌&&◌, Option, none, some, List, [], ◌∷◌, ◌++◌, arith, ◌==◌, if◌then◌else◌, Bool-cases,
  Option-cases, ==_iff, length, set, length-append, length-set, take, drop, replicate,
  length-replicate, length-take, take-append_add, take-append_le, get_or-replicate,
  take-append-drop,
}
use mathlib.Core.List.{append_assoc}
use native.Mathlib.Nat.{suc-mul}
use dtrace.Buf.Contents.{take-splice, length-splice}
use dtrace.Strtab.{Str, Strtab, Memory, memcpy, create, strbuckets, copystr, write_from, write}
use dtrace.Strtab.Flat.{flat, drop-append_add, drop-drop}
use dtrace.Strtab.Copy.{HasLength, pos, content, IsPlace, length-content}
use dtrace.Strtab.Search.{text, AllEntries, IsValid}

-- What follows the bytes that were copied.
drop-memcpy :
    (mem : List ℕ) (a : ℕ) (x : List ℕ) (k : ℕ)
    → a + length x ≤ length mem
    → drop (a + length x + k) (memcpy mem a x) ≡ drop (a + length x + k) mem
drop-memcpy mem a x k h =
    let e : a + length x + k ≡ length (take a mem) + (length x + k) =
      omega (arith, length-take a mem) in
    ap (λ n. drop n (memcpy mem a x)) e
    ∙ drop-append_add (take a mem) (x ++ drop (a + length x) mem) (length x + k)
    ∙ drop-append_add x (drop (a + length x) mem) k
    ∙ drop-drop k (a + length x) mem

-- Two copies, the second behind the first, are one.
memcpy-memcpy :
    (mem : List ℕ) (a : ℕ) (x y : List ℕ)
    → a + length x + length y ≤ length mem
    → memcpy (memcpy mem a x) (a + length x) y ≡ memcpy mem a (x ++ y)
memcpy-memcpy mem a x y h =
    let n : a + length x + length y ≡ a + length (x ++ y) = omega (arith, length-append x y) in
    ap (λ l. l ++ (y ++ drop (a + length x + length y) (memcpy mem a x)))
      (take-splice mem a x (omega arith))
    ∙ ap (λ l. (take a mem ++ x) ++ (y ++ l))
        (drop-memcpy mem a x (length y) (omega arith) ∙ ap (λ m. drop m mem) n)
    ∙ simp append_assoc

memcpy_nil : (mem : List ℕ) (a : ℕ) → memcpy mem a [] ≡ mem
memcpy_nil mem a = let e : a + 0 ≡ a = omega arith in rw e (take-append-drop a mem)

-- What the loop writes, and where it comes to.
pub write_from-copystr :
    (z : ℕ) (bufs : List (List ℕ)) (ptr : ℕ) (mem : List ℕ) (from : ℕ)
    → 0 < z
    → IsPlace z (bufs, ptr)
    → from + pos z (bufs, ptr) ≤ length mem
    → write_from copystr bufs ptr mem from
      ≡ (memcpy mem from (content z (bufs, ptr)), from + pos z (bufs, ptr))
unfolding write_from copystr flat
write_from-copystr z [] ptr mem from h k fits = absurd (omega (arith, k.some_buf))
write_from-copystr z (buf ∷ []) ptr mem from h k fits =
    let e : (length (buf ∷ []) - 1) * z + ptr ≡ ptr = omega arith in
    let len : length (take ptr buf) ≡ ptr =
      omega (arith, length-take ptr buf, k.inside, k.full.0) in
    let same : take ptr buf ≡ content z (buf ∷ [], ptr) =
      sym (take-append_le ptr buf [] (omega (arith, k.inside, k.full.0)))
      ∙ ap (λ n. take n (buf ++ [])) (sym e) in
    elim (Bool-cases (length (take ptr buf) == 0)) [
      | inl none_ ↦
          let end : from ≡ from + (0 * z + ptr) =
            omega (arith, (==_iff (length (take ptr buf)) 0).0 none_, len) in
          rw none_ (λ i. (memcpy mem from (same i), end i))
      | inr some_ ↦
          let end : from + length (take ptr buf) ≡ from + (0 * z + ptr) = omega (arith, len) in
          rw some_ (λ i. (memcpy mem from (same i), end i))
    ]
write_from-copystr z (buf ∷ next ∷ bufs) ptr mem from h k fits =
    let size : length buf ≡ z = k.full.0 in
    let some_ : (length buf == 0) ≡ false = ground (arith, size) in
    let rest : List ℕ = content z (next ∷ bufs, ptr) in
    let k' : IsPlace z (next ∷ bufs, ptr) = record {
      some_buf = omega arith;
      full = k.full.1;
      inside = k.inside;
    } in
    let one_more : length (buf ∷ next ∷ bufs) - 1 ≡ suc (length bufs) = omega arith in
    let these : length (next ∷ bufs) - 1 ≡ length bufs = omega arith in
    let ahead : (length (buf ∷ next ∷ bufs) - 1) * z + ptr
        ≡ length buf + ((length (next ∷ bufs) - 1) * z + ptr) =
      omega (
        arith,
        size,
        suc-mul (length bufs) z,
        ap (λ (n : ℕ). n * z) one_more,
        ap (λ (n : ℕ). n * z) these,
      ) in
    let there : length (memcpy mem from buf) ≡ length mem =
      length-splice mem from buf (omega (arith, fits, ahead)) in
    let both : memcpy (memcpy mem from buf) (from + length buf) rest
        ≡ memcpy mem from (content z (buf ∷ next ∷ bufs, ptr)) =
      memcpy-memcpy mem from buf rest
        (omega (arith, fits, ahead, length-content z (next ∷ bufs, ptr) k'))
      ∙ ap (λ l. memcpy mem from l)
          (sym (
            ap (λ n. take n (buf ++ flat (next ∷ bufs))) ahead
            ∙ take-append_add buf (flat (next ∷ bufs)) _)) in
    let end : from + length buf + pos z (next ∷ bufs, ptr) ≡ from + pos z (buf ∷ next ∷ bufs, ptr) =
      omega (arith, ahead) in
    rw some_ (
      write_from-copystr z (next ∷ bufs) ptr (memcpy mem from buf) (from + length buf) h k'
        (omega (arith, fits, ahead, there))
      ∙ (λ i. (both i, end i)))

-- dt_strtab_write() with dt_strtab_copystr() of a valid table into enough memory puts the whole
-- content at its start, leaves the rest of the memory, and returns the size of the table.
pub write-copystr :
    (sp : Strtab) (mem : List ℕ)
    → IsValid sp
    → 0 < sp.size
    → sp.size ≤ length mem
    → write copystr sp mem ≡ (text sp ++ drop sp.size mem, some sp.size)
unfolding write
write-copystr sp mem v some_ fits =
    let run =
      write_from-copystr sp.bufsz sp.bufs sp.ptr mem 0 v.positive v.place
        (omega (arith, fits, v.measured)) in
    let size : 0 + pos sp.bufsz (sp.bufs, sp.ptr) ≡ sp.size = omega (arith, v.measured) in
    let ok : (sp.size == 0) ≡ false = ground arith in
    let len : 0 + length (text sp) ≡ sp.size =
      omega (arith, length-content sp.bufsz (sp.bufs, sp.ptr) v.place, v.measured) in
    let finish : List ℕ × ℕ → List ℕ × Option ℕ =
      λ r. (r.0, if (r.1 == 0) && not (sp.size == 0) then none else some r.1) in
    let last : finish (memcpy mem 0 (text sp), sp.size)
        ≡ (text sp ++ drop sp.size mem, some sp.size) =
      rw ok (λ i. (text sp ++ drop (len i) mem, some sp.size)) in
    ap finish (run ∙ (λ i. (memcpy mem 0 (text sp), size i))) ∙ last

pub first_byte : (buf : List ℕ) → 0 < length buf → take 1 (set buf 0 0 ++ []) ≡ 0 ∷ []
first_byte [] h = absurd (omega arith)
first_byte (c ∷ buf) h = refl

-- dt_strtab_create() with a buffer size other than 0 gives, if no allocation fails, a valid table
-- whose content is the NUL of the empty string, and else NULL.
pub create-IsValid :
    (got got_hash : Bool) (mem : Memory) (bufsz : ℕ)
    → 0 < bufsz
    → HasLength mem bufsz
    → ((create got got_hash mem bufsz ≡ none)
        × ((got ≡ false) ⊎ ((got_hash ≡ false) ⊎ (mem 0 ≡ none))))
      ⊎ ((sp : Strtab) × (create got got_hash mem bufsz ≡ some sp)
          × IsValid sp
          × (text sp ≡ 0 ∷ [])
          × (sp.bufsz ≡ bufsz))
unfolding create
create-IsValid false got_hash mem bufsz h len = inl (refl, inl refl)
create-IsValid true false mem bufsz h len = inl (refl, inr (inl refl))
create-IsValid true true mem bufsz h len = elim (Option-cases (mem 0)) [
  | inl e ↦ inl (rw e refl, inr (inr e))
  | inr (buf, e) ↦ inr (
    record {
      hash = replicate strbuckets [];
      hashsz = strbuckets;
      bufs = set buf 0 0 ∷ [];
      ptr = 1;
      bufsz = bufsz;
      nstrs = 1;
      size = 1;
    },
    rw e refl,
    record {
      place = record {
        some_buf = omega arith;
        full = (length-set buf 0 0 ∙ len 0 buf e, tt);
        inside = omega arith;
      };
      positive = h;
      measured = omega arith;
      slots = length-replicate {A = List Str} strbuckets [];
      has_slot = omega arith;
      entries = λ j.
          subst (λ hs. AllEntries bufsz (content bufsz (set buf 0 0 ∷ [], 1)) hs)
            (sym (get_or-replicate {A = List Str} strbuckets j [])) tt;
    },
    (let one : (1 - 1) * bufsz + 1 ≡ 1 = omega arith in
        ap (λ n. take n (flat (set buf 0 0 ∷ []))) one
        ∙ unfold flat in first_byte buf (omega (arith, len 0 buf e))),
    refl,
  )
]
