-- ===== src/Strtab/Search.antt =====
-- What dt_strtab_index() finds: the invariant of a table, and the search as one on its content.
use dtrace.Base.{
  ℕ, ◌+◌, ◌*◌, ◌≤◌, ◌<◌, ◌≡◌, refl, sym, ap, ◌∙◌, subst, ◌≢◌, inl, inr, true, Option, none, some,
  List, [], ◌∷◌, ◌++◌, arith, ◌==◌, if◌then◌else◌, Bool-cases, Option-cases, length, get_or, take,
  drop, take-append-drop,
}
use dtrace.Strtab.{Str, Strtab, compare, xindex_in, xindex, slot, index}
use dtrace.Strtab.Flat.{flat, drop-append_le}
use dtrace.Strtab.Compare.{prefix, IsStr, HasNul, HasNul-length, compare_from-prefix}
use dtrace.Strtab.Copy.{IsPlace, pos, content}

-- A C string: no byte is the NUL.
abbrev pub IsText : List ℕ → Type 0
IsText [] = Unit {0}
IsText (c ∷ cs) = (c ≢ 0) × IsText cs

abbrev pub text : Strtab → List ℕ
text sp = content sp.bufsz (sp.bufs, sp.ptr)

-- An entry points to its offset, and a NUL comes there or later.
pub record IsEntry (z : ℕ) (bytes : List ℕ) (hp : Str) : Type 0 where
  pub inside : hp.at ≤ z
  pub place : hp.buf * z + hp.at ≡ hp.off
  pub ends : HasNul (drop hp.off bytes)

abbrev pub AllEntries : ℕ → List ℕ → List Str → Type 0
AllEntries z bytes [] = Unit {0}
AllEntries z bytes (hp ∷ hs) = IsEntry z bytes hp × AllEntries z bytes hs

pub record IsValid (sp : Strtab) : Type 0 where
  pub place : IsPlace sp.bufsz (sp.bufs, sp.ptr)
  pub positive : 0 < sp.bufsz
  pub measured : pos sp.bufsz (sp.bufs, sp.ptr) ≡ sp.size
  pub slots : length sp.hash ≡ sp.hashsz
  pub has_slot : 0 < sp.hashsz
  pub entries : (h : ℕ) → AllEntries sp.bufsz (text sp) (get_or sp.hash h [])

pub HasNul-append : (xs ys : List ℕ) → HasNul xs → HasNul (xs ++ ys)
HasNul-append [] ys h = absurd h
HasNul-append (x ∷ xs) ys (inl z) = inl z
HasNul-append (x ∷ xs) ys (inr r) = inr (HasNul-append xs ys r)

pub IsStr-text : (s : List ℕ) → IsText s → IsStr (s ++ (0 ∷ []))
IsStr-text [] t = (λ e. refl, tt)
IsStr-text (c ∷ cs) (n, t) = (λ e. absurd (n e), IsStr-text cs t)

-- What comes behind a NUL does not matter.
pub prefix-append :
    (str xs ys : List ℕ) → IsStr str → HasNul xs → prefix str (xs ++ ys) ≡ prefix str xs
unfolding prefix
prefix-append [] xs ys s h = refl
prefix-append (c ∷ cs) [] ys s h = absurd h
prefix-append (c ∷ cs) (x ∷ xs) ys (s, ss) (inr r) = rw (prefix-append cs xs ys ss r) refl
prefix-append (c ∷ cs) (x ∷ xs) ys (s, ss) (inl z) = elim (Bool-cases (x == c)) [
  | inr other ↦ rw other refl
  | inl same ↦ let e : cs ≡ [] = s (ground arith) in rw (same, e, prefix) refl
]

pub prefix-take : (str xs : List ℕ) → prefix str xs ≡ true → take (length str) xs ≡ str
unfolding prefix
prefix-take [] xs e = refl
prefix-take (c ∷ cs) [] e = cc
prefix-take (c ∷ cs) (x ∷ xs) e = elim (Bool-cases (x == c)) [
  | inr other ↦ absurd (ground arith)
  | inl same ↦ ap (λ l. x ∷ l) (prefix-take cs xs (ground arith)) ∙ ap (λ a. a ∷ cs) (ground arith)
]

-- The first entry whose bytes begin with the string.
unfoldable pub find_in : List ℕ → List Str → List ℕ → Option ℕ
find_in bytes [] str = none
find_in bytes (hp ∷ hs) str =
    if prefix (str ++ (0 ∷ [])) (drop hp.off bytes) then some hp.off else find_in bytes hs str

text_of_flat :
    (sp : Strtab)
    → IsPlace sp.bufsz (sp.bufs, sp.ptr)
    → (off : ℕ) → HasNul (drop off (text sp))
    → drop off (flat sp.bufs)
      ≡ drop off (text sp) ++ drop (pos sp.bufsz (sp.bufs, sp.ptr)) (flat sp.bufs)
text_of_flat sp k off nul =
    let n = pos sp.bufsz (sp.bufs, sp.ptr) in
    ap (λ l. drop off l) (sym (take-append-drop n (flat sp.bufs)))
    ∙ drop-append_le off (text sp) (drop n (flat sp.bufs))
        (omega (arith, HasNul-length off (text sp) nul))

compare-prefix :
    (sp : Strtab) (hp : Str) (str : List ℕ)
    → IsValid sp
    → IsEntry sp.bufsz (text sp) hp
    → IsText str
    → compare sp hp str ≡ some (prefix (str ++ (0 ∷ [])) (drop hp.off (text sp)))
unfolding compare
compare-prefix sp hp str v e t =
    let bytes = str ++ (0 ∷ []) in
    let tail = drop (pos sp.bufsz (sp.bufs, sp.ptr)) (flat sp.bufs) in
    let there = text_of_flat sp v.place hp.off e.ends in
    let nul : HasNul (drop (hp.buf * sp.bufsz + hp.at) (flat sp.bufs)) =
      rw (e.place, there) (HasNul-append (drop hp.off (text sp)) tail e.ends) in
    compare_from-prefix sp.bufsz sp.bufs v.place.full (length bytes + 1) hp.buf hp.at bytes
      v.positive (omega arith) e.inside (IsStr-text str t) (inr nul)
    ∙ ap (λ m. some (prefix bytes (drop m (flat sp.bufs)))) e.place
    ∙ ap (λ l. some (prefix bytes l)) there
    ∙ ap some (prefix-append bytes (drop hp.off (text sp)) tail (IsStr-text str t) e.ends)

xindex_in-find :
    (sp : Strtab) (hs : List Str) (str : List ℕ)
    → IsValid sp
    → AllEntries sp.bufsz (text sp) hs
    → IsText str
    → xindex_in sp hs str ≡ some (find_in (text sp) hs str)
unfolding xindex_in find_in
xindex_in-find sp [] str v a t = refl
xindex_in-find sp (hp ∷ hs) str v (e, a) t =
    let c = compare-prefix sp hp str v e t in
    elim (Bool-cases (prefix (str ++ (0 ∷ [])) (drop hp.off (text sp)))) [
      | inl same ↦ rw (c, same, xindex_in) refl
      | inr other ↦ rw (c, other, xindex_in) (xindex_in-find sp hs str v a t)
    ]

pub xindex-find :
    (sp : Strtab) (str : List ℕ) (h : ℕ)
    → IsValid sp
    → IsText str
    → xindex sp str h ≡ some (find_in (text sp) (get_or sp.hash h []) str)
unfolding xindex
xindex-find sp str h v t = xindex_in-find sp (get_or sp.hash h []) str v (v.entries h) t

find_in-take :
    (bytes : List ℕ) (hs : List Str) (str : List ℕ) (off : ℕ)
    → find_in bytes hs str ≡ some off
    → take (length (str ++ (0 ∷ []))) (drop off bytes) ≡ str ++ (0 ∷ [])
unfolding find_in
find_in-take bytes [] str off e = cc
find_in-take bytes (hp ∷ hs) str off e =
    elim (Bool-cases (prefix (str ++ (0 ∷ [])) (drop hp.off bytes))) [
      | inl same ↦
          let at : hp.off ≡ off = ground arith in
          subst (λ m. take (length (str ++ (0 ∷ []))) (drop m bytes) ≡ str ++ (0 ∷ [])) at
            (prefix-take (str ++ (0 ∷ [])) (drop hp.off bytes) same)
      | inr other ↦ find_in-take bytes hs str off (ground arith)
    ]

-- What dt_strtab_index() of a string may come to.
pub data Indexes (sp : Strtab) (str : List ℕ) : Option (Option ℕ) → Type 0 where
  missing : Indexes sp str (some none)
  first : str ≡ [] → Indexes sp str (some (some 0))
  stands :
      {off : ℕ}
      → take (length (str ++ (0 ∷ []))) (drop off (text sp)) ≡ str ++ (0 ∷ [])
      → Indexes sp str (some (some off))

-- dt_strtab_index() on a valid table ends, and where it returns an offset of a string other than
-- the empty one, the bytes of the string and its NUL stand there in the content of the table.
index-Indexes :
    (sp : Strtab) (str : List ℕ) → IsValid sp → IsText str → Indexes sp str (index sp str)
unfolding index
index-Indexes sp [] v t = first refl
index-Indexes sp (c ∷ cs) v t =
    let h = slot sp (c ∷ cs) in
    subst (λ o. Indexes sp (c ∷ cs) o) (sym (xindex-find sp (c ∷ cs) h v t))
      (elim (Option-cases (find_in (text sp) (get_or sp.hash h []) (c ∷ cs))) [
        | inl e ↦ rw e missing
        | inr (off, e) ↦ rw e (stands (find_in-take (text sp) (get_or sp.hash h []) (c ∷ cs) off e))
      ])
