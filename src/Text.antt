-- ===== src/Text.antt =====
-- The string transformations of libdtrace/dt_string.c.
-- A C string is the list of its bytes before the NUL, each below 256; `char` is signed, so the
-- bytes from 128 on are below '!'. A result that stresc2chr() leaves may itself hold NULs, and the
-- length that it returns is the list's. malloc in strchr2esc() succeeds: on failure it returns NULL.
use dtrace.Base.{
  ℕ, zero, suc, ◌+◌, ◌-◌, ◌*◌, ◌/◌, ◌%◌, ◌^◌, ◌≤◌, ◌<◌, min, max, ◌≡◌, refl, sym, ap, ◌∙◌, fun_ext,
  subst, ◌≢◌, ◌↔◌, ◌⊎◌, inl, inr, Bool, true, false, not, ◌&&◌, ◌||◌, Option, none, some, List, [],
  ◌∷◌, ◌++◌, map, arith, ltb, leb, ◌==◌, if◌then◌else◌, Bool-cases, Option-cases, ==_iff, ltb→lt,
  lt→ltb, leb→le, length, get_elem?, set, length-append, length-set, get_or, take, drop, replicate,
  length-replicate, length-take, length-drop, take-append_add, take-append_le, take_add, take_all,
  take-take, get_or-set, get_or-replicate, total, total-set, total-replicate,
}
pub mod Escape
pub mod Scan
pub mod Hyphen
pub mod Examples

-- What the loop of stresc2chr() stands at: outside an escape, behind a backslash, behind one or two
-- octal digits, or in the hexadecimal digits.
pub data Mode : Type 0 where
  plain : Mode
  esc : Mode
  oct1 : ℕ → Mode
  oct2 : ℕ → Mode
  hex : ℕ → Mode

abbrev pub is_oct : ℕ → Bool
is_oct c = leb b'0' c && leb c b'7'

-- The letter escapes and the two characters that stand for themselves.
pub letter : ℕ → Option ℕ
letter c =
    if c == b'a'
    then some 7
    else if c == b'b'
    then some 8
    else if c == b'f'
    then some 12
    else if c == b'n'
    then some 10
    else if c == b'r'
    then some 13
    else if c == b't'
    then some 9
    else if c == b'v'
    then some 11
    else if c == 34
    then some 34
    else if c == 92
    then some 92
    else none

pub hex_digit : ℕ → Option ℕ
hex_digit c =
    if leb b'0' c && leb c b'9'
    then some (c - b'0')
    else if leb b'a' c && leb c b'f'
    then some (c - b'a' + 10)
    else if leb b'A' c && leb c b'F'
    then some (c - b'A' + 10)
    else none

-- A byte outside an escape, with what follows behind a backslash and behind another byte.
abbrev pub start : ℕ → (esc_rest plain_rest : List ℕ) → List ℕ
start c esc_rest plain_rest = if c == 92 then esc_rest else c ∷ plain_rest

pub stresc2chr_in : Mode → List ℕ → List ℕ
stresc2chr_in plain [] = []
stresc2chr_in plain (c ∷ s) =
    let e = stresc2chr_in esc s in let p = stresc2chr_in plain s in start c e p
stresc2chr_in esc [] = []
stresc2chr_in esc (c ∷ s) =
    let o = stresc2chr_in (oct1 (c - b'0')) s in
    let x = stresc2chr_in (hex 0) s in
    let p = stresc2chr_in plain s in
    if is_oct c
    then o
    else if c == b'x'
    then x
    else elim (letter c) [ some l ↦ l ∷ p | none ↦ 92 ∷ c ∷ p ]
stresc2chr_in (oct1 v) [] = v ∷ []
stresc2chr_in (oct1 v) (c ∷ s) =
    let o = stresc2chr_in (oct2 (v * 8 + (c - b'0'))) s in
    let e = stresc2chr_in esc s in
    let p = stresc2chr_in plain s in if is_oct c then o else v ∷ start c e p
stresc2chr_in (oct2 v) [] = v ∷ []
stresc2chr_in (oct2 v) (c ∷ s) =
    let e = stresc2chr_in esc s in
    let p = stresc2chr_in plain s in
    if is_oct c then ((v * 8 + (c - b'0')) % 256) ∷ p else v ∷ start c e p
stresc2chr_in (hex x) [] = (x % 256) ∷ []
stresc2chr_in (hex x) (c ∷ s) =
    let more = λ (d : ℕ). stresc2chr_in (hex ((x * 16 + d) % 2 ^ 32)) s in
    let e = stresc2chr_in esc s in
    let p = stresc2chr_in plain s in
    elim (hex_digit c) [ some d ↦ more d | none ↦ (x % 256) ∷ start c e p ]

pub stresc2chr : List ℕ → List ℕ
stresc2chr s = stresc2chr_in plain s

-- The letter by which a byte is escaped.
pub letter_of : ℕ → Option ℕ
letter_of c =
    if c == 0
    then some b'0'
    else if c == 7
    then some b'a'
    else if c == 8
    then some b'b'
    else if c == 12
    then some b'f'
    else if c == 10
    then some b'n'
    else if c == 13
    then some b'r'
    else if c == 9
    then some b't'
    else if c == 11
    then some b'v'
    else if c == 34
    then some 34
    else if c == 92
    then some 92
    else none

abbrev pub unprintable : ℕ → Bool
unprintable c = ltb c b'!' || ltb b'~' c

-- The bytes more than one that a byte takes, as the first loop counts them.
pub addl_by : ℕ → Option ℕ → ℕ
addl_by c (some l) = 1
addl_by c none = if c == b' ' then 0 else if unprintable c then 3 else 0

pub addl : List ℕ → ℕ
unfolding addl_by
addl [] = 0
addl (c ∷ s) = addl_by c (letter_of c) + addl s

pub escaped_by : ℕ → Option ℕ → List ℕ
escaped_by c (some l) = 92 ∷ l ∷ []
escaped_by c none =
    if c == b' '
    then c ∷ []
    else if unprintable c
    then 92 ∷ (c / 64 % 4 + b'0') ∷ (c / 8 % 8 + b'0') ∷ (c % 8 + b'0') ∷ []
    else c ∷ []

-- The second loop, which stops behind a NUL.
pub strchr2esc : List ℕ → List ℕ
strchr2esc [] = []
strchr2esc (c ∷ s) =
    let rest = strchr2esc s in escaped_by c (letter_of c) ++ (if c == 0 then [] else rest)

-- strrchr() and the name behind the last slash.
pub strrchr : List ℕ → ℕ → Option (List ℕ)
strrchr [] x = none
strrchr (c ∷ s) x = elim (strrchr s x) [
  | some t ↦ some t
  | none ↦ if c == x then some (c ∷ s) else none
]

pub strbasename : List ℕ → List ℕ
strbasename s = elim (strrchr s b'/') [ none ↦ s | some p ↦ drop 1 p ]

pub strisglob : List ℕ → Bool
strisglob [] = false
strisglob (c ∷ s) =
    let rest = strisglob s in if c == b'[' || c == b'?' || c == b'*' || c == 92 then true else rest

-- memmove() of `n` bytes from offset `from` to offset `to`, which is below it.
abbrev pub memmove : List ℕ → (to from n : ℕ) → List ℕ
memmove mem to from n = take to mem ++ (take n (drop from mem) ++ drop (to + n) mem)

-- One round of strhyphenate() at offset p of the memory, with `left` = q - p bytes to go.
pub hyphenate_at : (left p : ℕ) → List ℕ → List ℕ
hyphenate_at left p mem =
    if (get_or mem p 0 == b'_') && (get_or mem (p + 1) 0 == b'_')
    then memmove (set mem p b'-') (p + 1) (p + 2) (left - 1)
    else mem

pub hyphenate_from : (left p : ℕ) → List ℕ → List ℕ
hyphenate_from zero p mem = mem
hyphenate_from (suc left) p mem = hyphenate_from left (p + 1) (hyphenate_at (suc left) p mem)

-- Over the memory of the string and its NUL, which is what the function returns.
pub strhyphenate : List ℕ → List ℕ
unfolding hyphenate_from
strhyphenate s = hyphenate_from (length s) 0 (s ++ (0 ∷ []))
