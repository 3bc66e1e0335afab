-- ===== src/Strtab/Flat.antt =====
-- The buffers of a string table as one run of bytes.
use dtrace.Base.{
  ℕ, zero, suc, ◌+◌, ◌*◌, ◌≤◌, ◌<◌, ◌≡◌, refl, sym, ap, ◌∙◌, List, [], ◌∷◌, ◌++◌, arith, length,
  set, length-append, get_or, take, drop, length-take, length-drop, take-append_add, take-append_le,
}
use mathlib.Core.List.{append_assoc}
use native.Mathlib.Nat.{suc-mul}
use dtrace.Strtab.{memcpy}

pub drop-append_add : (xs ys : List ℕ) (k : ℕ) → drop (length xs + k) (xs ++ ys) ≡ drop k ys
drop-append_add [] ys k = let e : 0 + k ≡ k = omega arith in rw e refl
drop-append_add (x ∷ xs) ys k =
    let e : suc (length xs) + k ≡ suc (length xs + k) = omega arith in
    rw e (drop-append_add xs ys k)

pub drop-append_le : (n : ℕ) (xs ys : List ℕ) → n ≤ length xs → drop n (xs ++ ys) ≡ drop n xs ++ ys
drop-append_le zero xs ys h = refl
drop-append_le (suc n) [] ys h = absurd (omega arith)
drop-append_le (suc n) (x ∷ xs) ys h = drop-append_le n xs ys (omega arith)

pub drop-drop : (m n : ℕ) (xs : List ℕ) → drop m (drop n xs) ≡ drop (n + m) xs
drop-drop m zero xs = let e : 0 + m ≡ m = omega arith in rw e refl
drop-drop zero (suc n) [] = let e : suc n + 0 ≡ suc n = omega arith in rw e refl
drop-drop (suc m) (suc n) [] = let e : suc n + suc m ≡ suc (n + suc m) = omega arith in rw e refl
drop-drop m (suc n) (x ∷ xs) =
    let e : suc n + m ≡ suc (n + m) = omega arith in rw e (drop-drop m n xs)

pub memcpy-append_le :
    (xs ys : List ℕ) (at : ℕ) (c : List ℕ)
    → at + length c ≤ length xs
    → memcpy (xs ++ ys) at c ≡ memcpy xs at c ++ ys
memcpy-append_le xs ys at c h =
    ap (λ l. l ++ (c ++ drop (at + length c) (xs ++ ys))) (take-append_le at xs ys (omega arith))
    ∙ ap (λ l. take at xs ++ (c ++ l)) (drop-append_le (at + length c) xs ys h)
    ∙ simp append_assoc

pub memcpy-append_add :
    (xs ys : List ℕ) (k : ℕ) (c : List ℕ)
    → memcpy (xs ++ ys) (length xs + k) c ≡ xs ++ memcpy ys k c
memcpy-append_add xs ys k c =
    let e : length xs + k + length c ≡ length xs + (k + length c) = omega arith in
    ap (λ l. l ++ (c ++ drop (length xs + k + length c) (xs ++ ys))) (take-append_add xs ys k)
    ∙ ap (λ l. (xs ++ take k ys) ++ (c ++ l))
        (ap (λ n. drop n (xs ++ ys)) e ∙ drop-append_add xs ys (k + length c))
    ∙ append_assoc xs (take k ys) (c ++ drop (k + length c) ys)

unfoldable pub flat : List (List ℕ) → List ℕ
flat [] = []
flat (buf ∷ bufs) = buf ++ flat bufs

abbrev pub AllLength : ℕ → List (List ℕ) → Type 0
AllLength z [] = Unit {0}
AllLength z (buf ∷ bufs) = (length buf ≡ z) × AllLength z bufs

pub length-flat :
    (z : ℕ) (bufs : List (List ℕ)) → AllLength z bufs → length (flat bufs) ≡ length bufs * z
unfolding flat
length-flat z [] h = omega arith
length-flat z (buf ∷ bufs) (e, h) =
    omega (arith, length-append buf (flat bufs), length-flat z bufs h, e, suc-mul (length bufs) z)

pub flat-append : (bufs more : List (List ℕ)) → flat (bufs ++ more) ≡ flat bufs ++ flat more
unfolding flat
flat-append [] more = refl
flat-append (buf ∷ bufs) more =
    rw (flat-append bufs more) (sym (append_assoc buf (flat bufs) (flat more)))

pub AllLength-append :
    (z : ℕ) (bufs more : List (List ℕ))
    → AllLength z bufs
    → AllLength z more
    → AllLength z (bufs ++ more)
AllLength-append z [] more h k = k
AllLength-append z (buf ∷ bufs) more (e, h) k = (e, AllLength-append z bufs more h k)

-- A piece of a buffer is a piece of the run.
pub piece-flat :
    (z : ℕ) (bufs : List (List ℕ)) (b at n : ℕ)
    → AllLength z bufs
    → b < length bufs
    → at + n ≤ z
    → take n (drop at (get_or bufs b [])) ≡ take n (drop (b * z + at) (flat bufs))
unfolding flat
piece-flat z [] b at n h k fits = absurd (omega arith)
piece-flat z (buf ∷ bufs) zero at n (e, h) k fits =
    let zero_ : 0 * z + at ≡ at = omega arith in
    rw zero_ (
      sym (take-append_le n (drop at buf) (flat bufs) (omega (arith, length-drop at buf, e)))
      ∙ ap (λ l. take n l) (sym (drop-append_le at buf (flat bufs) (omega (arith, e)))))
piece-flat z (buf ∷ bufs) (suc b) at n (e, h) k fits =
    let shift : suc b * z + at ≡ length buf + (b * z + at) = omega (arith, suc-mul b z, e) in
    piece-flat z bufs b at n h (omega arith) fits
    ∙ ap (λ l. take n l)
        (sym (drop-append_add buf (flat bufs) (b * z + at))
          ∙ ap (λ m. drop m (buf ++ flat bufs)) (sym shift))

-- Writing into a buffer is writing into the run.
pub memcpy-flat :
    (z : ℕ) (bufs : List (List ℕ)) (b at : ℕ) (c : List ℕ)
    → AllLength z bufs
    → b < length bufs
    → at + length c ≤ z
    → flat (set bufs b (memcpy (get_or bufs b []) at c)) ≡ memcpy (flat bufs) (b * z + at) c
unfolding flat
memcpy-flat z [] b at c h k fits = absurd (omega arith)
memcpy-flat z (buf ∷ bufs) zero at c (e, h) k fits =
    let zero_ : 0 * z + at ≡ at = omega arith in
    rw zero_ (sym (memcpy-append_le buf (flat bufs) at c (omega (arith, e))))
memcpy-flat z (buf ∷ bufs) (suc b) at c (e, h) k fits =
    let shift : suc b * z + at ≡ length buf + (b * z + at) = omega (arith, suc-mul b z, e) in
    rw shift (
      ap (λ l. buf ++ l) (memcpy-flat z bufs b at c h (omega arith) fits)
      ∙ sym (memcpy-append_add buf (flat bufs) (b * z + at) c))

pub length-memcpy :
    (buf : List ℕ) (at : ℕ) (c : List ℕ)
    → at + length c ≤ length buf
    → length (memcpy buf at c) ≡ length buf
length-memcpy buf at c h = omega (
  arith,
  length-append (take at buf) (c ++ drop (at + length c) buf),
  length-append c (drop (at + length c) buf),
  length-take at buf,
  length-drop (at + length c) buf,
)

pub AllLength-set :
    (z : ℕ) (bufs : List (List ℕ)) (b : ℕ) (buf : List ℕ)
    → AllLength z bufs
    → length buf ≡ z
    → AllLength z (set bufs b buf)
AllLength-set z [] b buf h e = tt
AllLength-set z (x ∷ bufs) zero buf (k, h) e = (e, h)
AllLength-set z (x ∷ bufs) (suc b) buf (k, h) e = (k, AllLength-set z bufs b buf h e)

pub AllLength-get_or :
    (z : ℕ) (bufs : List (List ℕ)) (b : ℕ)
    → AllLength z bufs
    → b < length bufs
    → length (get_or bufs b []) ≡ z
AllLength-get_or z [] b h k = absurd (omega arith)
AllLength-get_or z (x ∷ bufs) zero (e, h) k = e
AllLength-get_or z (x ∷ bufs) (suc b) (e, h) k = AllLength-get_or z bufs b h (omega arith)
