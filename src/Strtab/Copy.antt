-- ===== src/Strtab/Copy.antt =====
-- dt_strtab_copyin() appends to the run of bytes, and takes back what it cannot finish.
use dtrace.Base.{
  ℕ, zero, suc, ◌+◌, ◌-◌, ◌*◌, ◌≤◌, ◌<◌, min, ◌≡◌, refl, sym, ap, ◌∙◌, inl, inr, true, false,
  Option, none, some, List, [], ◌∷◌, ◌++◌, arith, ◌==◌, Bool-cases, Option-cases, length, set,
  length-append, length-set, get_or, take, drop, length-take, length-drop, take-append_le, take_all,
  take-take, take-append-drop,
}
use mathlib.Core.List.{append_assoc, append-nil}
use native.Mathlib.Nat.{suc-mul}
use dtrace.Buf.Contents.{take-splice}
use dtrace.Strtab.{
  Memory, Place, CopyResult, copied, failed, memcpy, copy_piece, grow_full, copy_from,
}
use dtrace.Strtab.Flat.{
  flat, AllLength, length-flat, flat-append, AllLength-append, memcpy-flat, length-memcpy,
  AllLength-set, AllLength-get_or,
}

-- Every allocation that succeeds has the asked size.
abbrev pub HasLength : Memory → ℕ → Type 0
HasLength mem z = (n : ℕ) (buf : List ℕ) → mem n ≡ some buf → length buf ≡ z

abbrev pub AnyNone : Memory → Type 0
AnyNone mem = (n : ℕ) × (mem n ≡ none)

-- The number of bytes up to the current location.
abbrev pub pos : ℕ → Place → ℕ
pos z (bufs, ptr) = (length bufs - 1) * z + ptr

abbrev pub content : ℕ → Place → List ℕ
content z (bufs, ptr) = take ((length bufs - 1) * z + ptr) (flat bufs)

pub record IsPlace (z : ℕ) (p : Place) : Type 0 where
  pub some_buf : 0 < length p.0
  pub full : AllLength z p.0
  pub inside : p.1 ≤ z

pub pos-le : (z : ℕ) (p : Place) → IsPlace z p → pos z p ≤ length (flat p.0)
pos-le z (bufs, ptr) k =
    let e : suc (length bufs - 1) ≡ length bufs = omega (arith, k.some_buf) in
    omega (
      arith,
      length-flat z bufs k.full,
      ap (λ (n : ℕ). n * z) e,
      suc-mul (length bufs - 1) z,
      k.inside,
    )

data Grown (mem : Memory) (z : ℕ) (p : Place) : Option Place → Type 0 where
  no_memory : AnyNone mem → Grown mem z p none
  room :
      {p' : Place}
      → IsPlace z p'
      → p'.1 < z
      → content z p' ≡ content z p
      → pos z p' ≡ pos z p
      → length p.0 ≤ length p'.0
      → Grown mem z p (some p')

grow_full-Grown :
    (mem : Memory) (z : ℕ) (p : Place)
    → 0 < z
    → HasLength mem z
    → IsPlace z p
    → Grown mem z p (grow_full mem z p)
unfolding grow_full
grow_full-Grown mem z (bufs, ptr) h len k = elim (Bool-cases (ptr == z)) [
  | inr short ↦ rw short (room k (inside_of (k.inside) short) refl refl (omega arith))
  | inl end ↦ elim (Option-cases (mem (length bufs))) [
    | inl e ↦ rw (end, e) (no_memory (length bufs, e))
    | inr (buf, e) ↦
        let one : AllLength z (buf ∷ []) = (len (length bufs) buf e, tt) in
        let longer = length-append bufs (buf ∷ []) in
        let back : length bufs + 1 - 1 ≡ length bufs = omega arith in
        let cnt : length (bufs ++ (buf ∷ [])) - 1 ≡ suc (length bufs - 1) =
          omega (arith, longer, k.some_buf) in
        let same : (length (bufs ++ (buf ∷ [])) - 1) * z + 0 ≡ (length bufs - 1) * z + ptr =
          omega (arith, ap (λ (n : ℕ). n * z) cnt, suc-mul (length bufs - 1) z, at_end end) in
        rw (end, e)
          (room
            (record {
              some_buf = omega (arith, longer);
              full = AllLength-append z bufs (buf ∷ []) k.full one;
              inside = omega arith;
            })
            h
            (ap (λ n. take n (flat (bufs ++ (buf ∷ [])))) same
              ∙ ap (λ l. take ((length bufs - 1) * z + ptr) l) (flat-append bufs (buf ∷ []))
              ∙ take-append_le _ (flat bufs) _ (pos-le z (bufs, ptr) k))
            same (omega (arith, longer)))
  ]
]
  where
    inside_of : ptr ≤ z → (ptr == z) ≡ false → ptr < z
    inside_of a e = ground arith

    at_end : (ptr == z) ≡ true → ptr ≡ z
    at_end e = ground arith

record Piece (z : ℕ) (p : Place) (str : List ℕ) (r : Place × List ℕ) : Type 0 where
  place : IsPlace z r.0
  part_of : content z r.0 ≡ content z p ++ take (min (z - p.1) (length str)) str
  appended : (content z r.0 ++ r.1) ≡ content z p ++ str
  moved : pos z r.0 + length r.1 ≡ pos z p + length str
  shorter : length r.1 < length str
  as_many : length r.0.0 ≡ length p.0

copy_piece-Piece :
    (z : ℕ) (p : Place) (c : ℕ) (cs : List ℕ)
    → IsPlace z p
    → p.1 < z
    → Piece z p (c ∷ cs) (copy_piece z p (c ∷ cs))
unfolding copy_piece
copy_piece-Piece z (bufs, ptr) c cs k inside =
    let b = length bufs - 1 in
    let n = min (z - ptr) (suc (length cs)) in
    let part : List ℕ = take n (c ∷ cs) in
    let len : length part ≡ n = omega (arith, length-take n (c ∷ cs)) in
    let left = length-drop n (c ∷ cs) in
    let last : b < length bufs = omega (arith, k.some_buf) in
    let size = AllLength-get_or z bufs b k.full last in
    let count = length-set bufs b (memcpy (get_or bufs b []) ptr part) in
    let flat' = memcpy-flat z bufs b ptr part k.full last (omega (arith, len)) in
    let at : (length (set bufs b (memcpy (get_or bufs b []) ptr part)) - 1) * z + (ptr + n)
        ≡ b * z + ptr + length part =
      omega (arith, ap (λ (m : ℕ). (m - 1) * z) count, len) in
    let wrote : content z (copy_piece z (bufs, ptr) (c ∷ cs)).0
        ≡ take (b * z + ptr) (flat bufs) ++ part =
      ap
        (λ l.
          take ((length (set bufs b (memcpy (get_or bufs b []) ptr part)) - 1) * z + (ptr + n)) l)
        flat'
      ∙ ap (λ m. take m (memcpy (flat bufs) (b * z + ptr) part)) at
      ∙ take-splice (flat bufs) (b * z + ptr) part (pos-le z (bufs, ptr) k) in
    record {
      place = record {
        some_buf = omega (arith, count, k.some_buf);
        full =
            AllLength-set z bufs b _ k.full
              (length-memcpy (get_or bufs b []) ptr part (omega (arith, len, size)) ∙ size);
        inside = omega arith;
      };
      part_of = wrote;
      appended =
          ap (λ l. l ++ drop n (c ∷ cs)) wrote
          ∙ append_assoc (take (b * z + ptr) (flat bufs)) part (drop n (c ∷ cs))
          ∙ ap (λ l. take (b * z + ptr) (flat bufs) ++ l) (take-append-drop n (c ∷ cs));
      moved = omega (arith, at, len, left);
      shorter = omega (arith, left);
      as_many = count;
    }

-- How the loop ends.
pub data Copies (mem : Memory) (z : ℕ) (p : Place) (str : List ℕ) : Option CopyResult → Type 0 where
  done :
      {p' : Place}
      → IsPlace z p'
      → content z p' ≡ content z p ++ str
      → pos z p' ≡ pos z p + length str
      → length p.0 ≤ length p'.0
      → Copies mem z p str (some (copied p'))
  out :
      {bufs : List (List ℕ)}
      → AnyNone mem
      → AllLength z bufs
      → length p.0 ≤ length bufs
      → take (pos z p) (flat bufs) ≡ content z p
      → Copies mem z p str (some (failed bufs))

pub length-content : (z : ℕ) (p : Place) → IsPlace z p → length (content z p) ≡ pos z p
length-content z p k = omega (arith, length-take (pos z p) (flat p.0), pos-le z p k)

-- A round before the rest of the loop.
round-Copies :
    (mem : Memory) (z : ℕ) (p q : Place) (str part rest : List ℕ) {o : Option CopyResult}
    → IsPlace z p
    → content z q ++ rest ≡ content z p ++ str
    → content z q ≡ content z p ++ part
    → pos z q + length rest ≡ pos z p + length str
    → length p.0 ≤ length q.0
    → Copies mem z q rest o
    → Copies mem z p str o
round-Copies mem z p q str part rest k e e' m l (done k' c a b) =
    done k' (c ∙ e) (omega arith) (omega arith)
round-Copies mem z p q str part rest k e e' m l (out {bufs = bufs} any f a c) =
    let here = length-content z p k in
    let le : pos z p ≤ pos z q = omega (
      arith,
      ap length e',
      length-append (content z p) part,
      here,
      length-take (pos z q) (flat q.0),
    ) in
    out any f (omega arith) (
      sym (take-take (pos z p) (pos z q) (flat bufs) le)
      ∙ ap (λ l. take (pos z p) l) (c ∙ e')
      ∙ take-append_le (pos z p) (content z p) part (omega (arith, here))
      ∙ take_all (pos z p) (content z p) (omega (arith, here)))

pub copy_from-Copies :
    (fuel : ℕ) (mem : Memory) (z : ℕ) (p : Place) (str : List ℕ)
    → 0 < z
    → HasLength mem z
    → length str < fuel
    → IsPlace z p
    → Copies mem z p str (copy_from fuel mem z p str)
unfolding copy_from
copy_from-Copies zero mem z p str h len f k = absurd (omega arith)
copy_from-Copies (suc fuel) mem z p [] h len f k =
    done k (sym (append-nil (content z p))) (omega arith) (omega arith)
copy_from-Copies (suc fuel) mem z p (c ∷ cs) h len f k =
    go (grow_full mem z p) (grow_full-Grown mem z p h len k)
      (λ q rest k' s. copy_from-Copies fuel mem z q rest h len s k')
  where
    go :
        (o : Option Place)
        → Grown mem z p o
        → ((q : Place) (rest : List ℕ)
            → IsPlace z q
            → length rest < fuel
            → Copies mem z q rest (copy_from fuel mem z q rest))
        → Copies mem z p (c ∷ cs) (elim o [
          | none ↦ some (failed p.0)
          | some p' ↦ copy_from fuel mem z (copy_piece z p' (c ∷ cs)).0 (copy_piece z p' (c ∷ cs)).1
        ])
    go none (no_memory any) rec = out any k.full (omega arith) refl
    go (some p') (room k' inside same at longer) rec =
        let r = copy_piece z p' (c ∷ cs) in
        let pc = copy_piece-Piece z p' c cs k' inside in
        round-Copies mem z p r.0 (c ∷ cs) (take (min (z - p'.1) (suc (length cs))) (c ∷ cs)) r.1 k
          (pc.appended ∙ ap (λ l. l ++ (c ∷ cs)) same)
          (pc.part_of ∙ ap (λ l. l ++ take (min (z - p'.1) (suc (length cs))) (c ∷ cs)) same)
          (omega (arith, pc.moved, at)) (omega (arith, pc.as_many))
          (rec r.0 r.1 pc.place (omega (arith, pc.shorter)))
