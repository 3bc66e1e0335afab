-- ===== src/Rodata/Lookup.antt =====
-- What dt_rodata_index() finds: the invariant of a block, and the search as one on its memory.
use dtrace.Base.{
  ℕ, ◌+◌, ◌-◌, ◌*◌, ◌≤◌, ◌<◌, ◌≡◌, refl, ap, ◌∙◌, ◌≢◌, inl, inr, true, some, List, [], ◌∷◌, ◌++◌,
  arith, ◌==◌, Bool-cases, length, get_or, take, drop, length-drop,
}
use dtrace.Strtab.Flat.{flat}
use dtrace.Rodata.Match.{match_at, compare_from-match_at}
use dtrace.Strtab.Copy.{content, IsPlace, pos}
use dtrace.Rodata.{
  Comparison, same, differs, outside, Search, found, missing, astray, Rodata, Item, searched,
  xindex_in, xindex, Search, same, outside, Comparison, missing, compare, found, astray, index,
  slot,
}

-- The data, and all of the buffers with what malloc left behind the data.
abbrev pub content_of : Rodata → List ℕ
content_of dp = content dp.bufsz (dp.bufs, dp.ptr)

-- An entry points to its offset, and its bytes are part of the data.
pub record IsItem (z n : ℕ) (hp : Item) : Type 0 where
  pub inside : hp.at ≤ z
  pub place : hp.buf * z + hp.at ≡ hp.off
  pub stored : hp.off + hp.len ≤ n

abbrev pub AllItems : ℕ → ℕ → List Item → Type 0
AllItems z n [] = Unit {0}
AllItems z n (hp ∷ hs) = IsItem z n hp × AllItems z n hs

pub record IsValid (dp : Rodata) : Type 0 where
  pub place : IsPlace dp.bufsz (dp.bufs, dp.ptr)
  pub positive : 0 < dp.bufsz
  pub measured : pos dp.bufsz (dp.bufs, dp.ptr) ≡ dp.size
  pub slots : length dp.hash ≡ dp.hashsz
  pub has_slot : 0 < dp.hashsz
  pub items : (h : ℕ) → AllItems dp.bufsz dp.size (get_or dp.hash h [])

pub AllItems-mono : (z n m : ℕ) (hs : List Item) → n ≤ m → AllItems z n hs → AllItems z m hs
AllItems-mono z n m [] h a = tt
AllItems-mono z n m (hp ∷ hs) h (e, a) = (
  record { inside = e.inside; place = e.place; stored = omega (arith, e.stored) },
  AllItems-mono z n m hs h a,
)

unfoldable pub by_match : Item → Search → Comparison → Search
by_match hp rest same = found hp.off
by_match hp rest differs = rest
by_match hp rest outside = astray

-- The first entry whose bytes begin with the item; a comparison may go astray before it.
unfoldable pub find_in : List ℕ → List Item → List ℕ → Search
unfolding by_match
find_in bytes [] ptr = missing
find_in bytes (hp ∷ hs) ptr = by_match hp (find_in bytes hs ptr) (match_at ptr (drop hp.off bytes))

searched-by_match :
    (hp : Item) (rest : Search) (c : Comparison)
    → searched hp (some rest) (some c) ≡ some (by_match hp rest c)
unfolding searched by_match
searched-by_match hp rest same = refl
searched-by_match hp rest differs = refl
searched-by_match hp rest outside = refl

pub xindex_in-find :
    (dp : Rodata) (hs : List Item) (ptr : List ℕ)
    → IsValid dp
    → AllItems dp.bufsz dp.size hs
    → xindex_in dp hs ptr ≡ some (find_in (flat dp.bufs) hs ptr)
unfolding xindex_in find_in
xindex_in-find dp [] ptr v a = refl
xindex_in-find dp (hp ∷ hs) ptr v (e, a) =
    let c : compare dp hp ptr ≡ some (match_at ptr (drop hp.off (flat dp.bufs))) =
      unfold compare in
      compare_from-match_at dp.bufsz dp.bufs v.place.full (length ptr + 1) hp.buf hp.at ptr
        v.positive (omega arith) e.inside
      ∙ ap (λ m. some (match_at ptr (drop m (flat dp.bufs)))) e.place in
    rw (c, xindex_in-find dp hs ptr v a)
      (searched-by_match hp (find_in (flat dp.bufs) hs ptr)
        (match_at ptr (drop hp.off (flat dp.bufs))))

pub xindex-find :
    (dp : Rodata) (ptr : List ℕ) (h : ℕ)
    → IsValid dp
    → xindex dp ptr h ≡ some (find_in (flat dp.bufs) (get_or dp.hash h []) ptr)
unfolding xindex
xindex-find dp ptr h v = xindex_in-find dp (get_or dp.hash h []) ptr v (v.items h)

pub match_at-take : (ptr xs : List ℕ) → match_at ptr xs ≡ same → take (length ptr) xs ≡ ptr
unfolding match_at
match_at-take [] xs e = refl
match_at-take (y ∷ ys) [] e = cc
match_at-take (y ∷ ys) (x ∷ xs) e = elim (Bool-cases (x == y)) [
  | inr other ↦ absurd (ground arith)
  | inl eq ↦ ap (λ l. x ∷ l) (match_at-take ys xs (ground arith)) ∙ ap (λ a. a ∷ ys) (ground arith)
]

pub match_at-append : (ptr rest : List ℕ) → match_at ptr (ptr ++ rest) ≡ same
unfolding match_at
match_at-append [] rest = refl
match_at-append (y ∷ ys) rest =
    let e : (y == y) ≡ true = ground arith in rw e (match_at-append ys rest)

-- The bytes at the offset are not those of the item.
abbrev pub Differs : (bytes ptr : List ℕ) → Item → Type 0
Differs bytes ptr hp = take (length ptr) (drop hp.off bytes) ≢ ptr

abbrev pub AllDiffer : (bytes ptr : List ℕ) → List Item → Type 0
AllDiffer bytes ptr [] = Unit {0}
AllDiffer bytes ptr (hp ∷ hs) = Differs bytes ptr hp × AllDiffer bytes ptr hs

-- How a search for an item in a chain ends: no entry has its bytes, the first that does not differ
-- has them, or it has the first of them where the bytes end.
pub data Finds (bytes ptr : List ℕ) (hs : List Item) : Search → Type 0 where
  unknown : AllDiffer bytes ptr hs → Finds bytes ptr hs missing
  beyond :
      (before : List Item) (hp : Item) (after : List Item)
      → hs ≡ before ++ (hp ∷ after)
      → AllDiffer bytes ptr before
      → length bytes < hp.off + length ptr
      → drop hp.off bytes ≡ take (length bytes - hp.off) ptr
      → Finds bytes ptr hs astray
  stands :
      (before : List Item) (hp : Item) (after : List Item)
      → hs ≡ before ++ (hp ∷ after)
      → AllDiffer bytes ptr before
      → take (length ptr) (drop hp.off bytes) ≡ ptr
      → Finds bytes ptr hs (found hp.off)

match_at-differs : (ptr xs : List ℕ) → match_at ptr xs ≡ differs → take (length ptr) xs ≢ ptr
unfolding match_at
match_at-differs [] xs e q = cc
match_at-differs (y ∷ ys) [] e q = cc
match_at-differs (y ∷ ys) (x ∷ xs) e q = elim (Bool-cases (x == y)) [
  | inl eq ↦ match_at-differs ys xs (ground arith) (ap (drop 1) q)
  | inr other ↦ let h : x ≡ y = ap (λ l. get_or l 0 0) q in absurd (ground arith)
]

-- Bytes that end within the item, and agree with it so far.
match_at-outside :
    (ptr xs : List ℕ)
    → match_at ptr xs ≡ outside
    → (length xs < length ptr) × (xs ≡ take (length xs) ptr)
unfolding match_at
match_at-outside [] xs e = absurd (cc)
match_at-outside (y ∷ ys) [] e = (omega arith, refl)
match_at-outside (y ∷ ys) (x ∷ xs) e = elim (Bool-cases (x == y)) [
  | inl eq ↦
      let r = match_at-outside ys xs (ground arith) in
      let h : x ≡ y = ground arith in
      (omega (arith, r.0), ap (λ l. x ∷ l) r.1 ∙ ap (λ a. a ∷ take (length xs) ys) h)
  | inr other ↦ absurd (ground arith)
]

Finds-later :
    {bytes ptr : List ℕ} {hp : Item} {hs : List Item} {r : Search}
    → Differs bytes ptr hp
    → Finds bytes ptr hs r
    → Finds bytes ptr (hp ∷ hs) r
Finds-later d (unknown a) = unknown (d, a)
Finds-later {hp = hp} d (beyond before e after q a l p) =
    beyond (hp ∷ before) e after (ap (λ l. hp ∷ l) q) (d, a) l p
Finds-later {hp = hp} d (stands before e after q a t) =
    stands (hp ∷ before) e after (ap (λ l. hp ∷ l) q) (d, a) t

find_in-Finds :
    (bytes : List ℕ) (hs : List Item) (ptr : List ℕ) → Finds bytes ptr hs (find_in bytes hs ptr)
unfolding find_in
find_in-Finds bytes [] ptr = unknown tt
find_in-Finds bytes (hp ∷ hs) ptr =
    go (match_at ptr (drop hp.off bytes)) refl (find_in-Finds bytes hs ptr)
  where
    go :
        (c : Comparison)
        → match_at ptr (drop hp.off bytes) ≡ c
        → Finds bytes ptr hs (find_in bytes hs ptr)
        → Finds bytes ptr (hp ∷ hs) (by_match hp (find_in bytes hs ptr) c)
    go same e rest = stands [] hp hs refl tt (match_at-take ptr (drop hp.off bytes) e)
    go differs e rest = Finds-later (match_at-differs ptr (drop hp.off bytes) e) rest
    go outside e rest =
        let (short, agrees) = match_at-outside ptr (drop hp.off bytes) e in
        let len = length-drop hp.off bytes in
        beyond [] hp hs refl tt (omega (arith, short, len)) (agrees ∙ ap (λ n. take n ptr) len)

-- dt_rodata_index() of an item in a valid block ends; it returns -1 only if no entry in the chain
-- of the item's slot has the bytes of the item at its offset in the buffers; where it returns an
-- offset, it is that of the first entry that has them; and it reads behind the last buffer only at
-- the first entry that does not differ, where the buffers end before the item does and agree with
-- it so far.
pub index-Finds :
    (dp : Rodata) (ptr : List ℕ)
    → IsValid dp
    → (r : Search) × ((index dp (some ptr) ≡ some r)
        × Finds (flat dp.bufs) ptr (get_or dp.hash (slot dp ptr) []) r)
unfolding index
index-Finds dp ptr v =
    let hs = get_or dp.hash (slot dp ptr) [] in
    (
      find_in (flat dp.bufs) hs ptr,
      (xindex-find dp ptr (slot dp ptr) v, find_in-Finds (flat dp.bufs) hs ptr),
    )
