-- ===== src/Strtab/Undo.antt =====
-- The place after label err of dt_strtab_copyin(): the new buffers freed, the old location again.
use native.Mathlib.Nat.{suc-mul}
use dtrace.Strtab.Copy.{IsPlace, pos, content, pos-le}
use dtrace.Strtab.Flat.{flat, AllLength, length-flat}
use dtrace.Base.{
  ℕ, zero, suc, ◌+◌, ◌-◌, ◌*◌, ◌≤◌, ◌≡◌, refl, sym, ap, ◌∙◌, List, [], ◌∷◌, ◌++◌, arith, length,
  take, length-take, take-append_add, take_all, take-take,
}
use dtrace.Strtab.{Place}

flat-take :
    (z m : ℕ) (bufs : List (List ℕ))
    → AllLength z bufs
    → flat (take m bufs) ≡ take (m * z) (flat bufs)
unfolding flat
flat-take z zero bufs a = let e : 0 * z ≡ 0 = omega arith in rw e refl
flat-take z (suc m) [] a = sym (take_all (suc m * z) [] (omega arith))
flat-take z (suc m) (buf ∷ bufs) (e, a) =
    let shift : suc m * z ≡ length buf + m * z = omega (arith, suc-mul m z, e) in
    rw shift
      (ap (λ l. buf ++ l) (flat-take z m bufs a) ∙ sym (take-append_add buf (flat bufs) (m * z)))

AllLength-take : (z m : ℕ) (bufs : List (List ℕ)) → AllLength z bufs → AllLength z (take m bufs)
AllLength-take z zero bufs a = tt
AllLength-take z (suc m) [] a = tt
AllLength-take z (suc m) (buf ∷ bufs) (e, a) = (e, AllLength-take z m bufs a)

pub undone_place :
    (z : ℕ) (p : Place) (bufs : List (List ℕ))
    → IsPlace z p
    → AllLength z bufs
    → length p.0 ≤ length bufs
    → take (pos z p) (flat bufs) ≡ content z p
    → IsPlace z (take (length p.0) bufs, p.1)
      × (content z (take (length p.0) bufs, p.1) ≡ content z p)
      × (pos z (take (length p.0) bufs, p.1) ≡ pos z p)
undone_place z p bufs k full longer kept =
    let as_many : length (take (length p.0) bufs) ≡ length p.0 =
      omega (arith, length-take (length p.0) bufs) in
    let same_pos : pos z (take (length p.0) bufs, p.1) ≡ pos z p =
      ap (λ (n : ℕ). (n - 1) * z + p.1) as_many in
    let le : pos z p ≤ length p.0 * z = omega (arith, pos-le z p k, length-flat z p.0 k.full) in
    (
      record {
        some_buf = omega (arith, as_many, k.some_buf);
        full = AllLength-take z (length p.0) bufs full;
        inside = k.inside;
      },
      ap (λ m. take m (flat (take (length p.0) bufs))) same_pos
          ∙ ap (λ l. take (pos z p) l) (flat-take z (length p.0) bufs full)
          ∙ take-take (pos z p) (length p.0 * z) (flat bufs) le
          ∙ kept,
      same_pos,
    )
