-- ===== src/Attr.antt =====
-- The stability attributes of libdtrace/dt_subr.c: their names, printing, parsing and comparison.
-- A string is the list of its bytes before the NUL.
use dtrace.Base.{
  ℕ, zero, suc, ◌+◌, ◌-◌, ◌*◌, ◌/◌, ◌%◌, ◌^◌, ◌≤◌, ◌<◌, min, max, ◌≡◌, refl, sym, ap, ◌∙◌, fun_ext,
  subst, ◌≢◌, ◌↔◌, ◌⊎◌, inl, inr, Bool, true, false, not, ◌&&◌, ◌||◌, Option, none, some, List, [],
  ◌∷◌, ◌++◌, map, arith, ltb, leb, ◌==◌, if◌then◌else◌, Bool-cases, Option-cases, ==_iff, ltb→lt,
  lt→ltb, leb→le, length, get_elem?, set, length-append, length-set, get_or, take, drop, replicate,
  length-replicate, length-take, length-drop, take-append_add, take-append_le, take_add, take_all,
  take-take, get_or-set, get_or-replicate, total, total-set, total-replicate,
}
use Prim.Native.Nat.{bit_or}
pub mod Compare
pub mod Parse
pub mod Examples

-- dtrace_attribute_t.
pub record Attribute : Type 0 where
  pub dtat_name : ℕ
  pub dtat_data : ℕ
  pub dtat_class : ℕ

abbrev pub stability_max : ℕ
stability_max = 7

abbrev pub class_max : ℕ
class_max = 5

-- dtrace_stability_name(), from DTRACE_STABILITY_INTERNAL on; `none` is NULL.
pub stability_name : ℕ → Option (List ℕ)
stability_name zero = some (b'I' ∷ b'n' ∷ b't' ∷ b'e' ∷ b'r' ∷ b'n' ∷ b'a' ∷ b'l' ∷ [])
stability_name (suc zero) = some (b'P' ∷ b'r' ∷ b'i' ∷ b'v' ∷ b'a' ∷ b't' ∷ b'e' ∷ [])
stability_name (suc (suc zero)) = some (b'O' ∷ b'b' ∷ b's' ∷ b'o' ∷ b'l' ∷ b'e' ∷ b't' ∷ b'e' ∷ [])
stability_name (suc (suc (suc zero))) =
    some (b'E' ∷ b'x' ∷ b't' ∷ b'e' ∷ b'r' ∷ b'n' ∷ b'a' ∷ b'l' ∷ [])
stability_name (suc (suc (suc (suc zero)))) =
    some (b'U' ∷ b'n' ∷ b's' ∷ b't' ∷ b'a' ∷ b'b' ∷ b'l' ∷ b'e' ∷ [])
stability_name (suc (suc (suc (suc (suc zero))))) =
    some (b'E' ∷ b'v' ∷ b'o' ∷ b'l' ∷ b'v' ∷ b'i' ∷ b'n' ∷ b'g' ∷ [])
stability_name (suc (suc (suc (suc (suc (suc zero)))))) =
    some (b'S' ∷ b't' ∷ b'a' ∷ b'b' ∷ b'l' ∷ b'e' ∷ [])
stability_name (suc (suc (suc (suc (suc (suc (suc zero))))))) =
    some (b'S' ∷ b't' ∷ b'a' ∷ b'n' ∷ b'd' ∷ b'a' ∷ b'r' ∷ b'd' ∷ [])
stability_name (suc (suc (suc (suc (suc (suc (suc (suc n)))))))) = none

-- dtrace_class_name(), from DTRACE_CLASS_UNKNOWN on.
pub class_name : ℕ → Option (List ℕ)
class_name zero = some (b'U' ∷ b'n' ∷ b'k' ∷ b'n' ∷ b'o' ∷ b'w' ∷ b'n' ∷ [])
class_name (suc zero) = some (b'C' ∷ b'P' ∷ b'U' ∷ [])
class_name (suc (suc zero)) = some (b'P' ∷ b'l' ∷ b'a' ∷ b't' ∷ b'f' ∷ b'o' ∷ b'r' ∷ b'm' ∷ [])
class_name (suc (suc (suc zero))) = some (b'G' ∷ b'r' ∷ b'o' ∷ b'u' ∷ b'p' ∷ [])
class_name (suc (suc (suc (suc zero)))) = some (b'I' ∷ b'S' ∷ b'A' ∷ [])
class_name (suc (suc (suc (suc (suc zero))))) = some (b'C' ∷ b'o' ∷ b'm' ∷ b'm' ∷ b'o' ∷ b'n' ∷ [])
class_name (suc (suc (suc (suc (suc (suc n)))))) = none

-- snprintf() of a text into `len` bytes: the string that the buffer then has.
abbrev pub snprintf : (len : ℕ) → List ℕ → List ℕ
snprintf len text = take (len - 1) text

-- "%s/%s/%s" of three names, or NULL if one is.
pub joined : Option (List ℕ) → Option (List ℕ) → Option (List ℕ) → Option (List ℕ)
joined none d c = none
joined (some n) none c = none
joined (some n) (some d) none = none
joined (some n) (some d) (some c) = some (n ++ (b'/' ∷ (d ++ (b'/' ∷ c))))

pub attr2str : Attribute → (len : ℕ) → Option (List ℕ)
attr2str attr len =
    elim (joined (stability_name attr.dtat_name) (stability_name attr.dtat_data)
      (class_name attr.dtat_class)) [ none ↦ none | some text ↦ some (snprintf len text) ]

-- The part before the first '/', and what follows that.
pub until_slash : List ℕ → List ℕ × List ℕ
until_slash [] = ([], [])
until_slash (c ∷ p) = let r = until_slash p in if c == b'/' then ([], p) else (c ∷ r.0, r.1)

pub getstrattr : List ℕ → Option (List ℕ × List ℕ)
getstrattr [] = none
getstrattr (c ∷ p) = some (until_slash (c ∷ p))

unfoldable pub lower : ℕ → ℕ
lower c = if leb b'A' c && leb c b'Z' then c + 32 else c

-- strcasecmp(): whether it returns 0.
unfoldable pub strcasecmp : List ℕ → List ℕ → Bool
strcasecmp [] [] = true
strcasecmp [] (y ∷ ys) = false
strcasecmp (x ∷ xs) [] = false
strcasecmp (x ∷ xs) (y ∷ ys) = (lower x == lower y) && strcasecmp xs ys

-- Whether the name at s is there and is that of p.
pub is_name : (List ℕ) → Option (List ℕ) → Bool
is_name p none = false
is_name p (some name) = strcasecmp p name

-- The search loops: `left` values from s on.
pub search_name : (name_of : ℕ → Option (List ℕ)) → (left s : ℕ) → List ℕ → Option ℕ
search_name name_of zero s p = none
search_name name_of (suc left) s p =
    let rest = search_name name_of left (s + 1) p in if is_name p (name_of s) then some s else rest

-- The third field and the end: whether 0 is returned, and the attributes.
pub str2class : List ℕ → Attribute → Bool × Attribute
str2class q attr = elim (getstrattr q) [
  | none ↦ (true, attr)
  | some (p, q') ↦ elim (search_name class_name (class_max + 1) 0 p) [
    | none ↦ (false, attr)
    | some c ↦
        (elim (getstrattr q') [ none ↦ true | some r ↦ false ], record attr { dtat_class = c })
  ]
]

pub str2data : List ℕ → Attribute → Bool × Attribute
str2data q attr = elim (getstrattr q) [
  | none ↦ (true, attr)
  | some (p, q') ↦ elim (search_name stability_name (stability_max + 1) 0 p) [
    | none ↦ (false, attr)
    | some s ↦ str2class q' (record attr { dtat_data = s })
  ]
]

abbrev pub maxattr : Attribute
maxattr = record { dtat_name = stability_max; dtat_data = stability_max; dtat_class = class_max }

-- dtrace_str2attr() with an `attr` that is not NULL: whether it returns 0, and the attributes. A NULL
-- string leaves them.
pub str2attr : Option (List ℕ) → Attribute → Bool × Attribute
str2attr none attr = (false, attr)
str2attr (some str) attr = elim (getstrattr str) [
  | none ↦ (true, maxattr)
  | some (p, q) ↦ elim (search_name stability_name (stability_max + 1) 0 p) [
    | none ↦ (false, maxattr)
    | some s ↦ str2data q (record maxattr { dtat_name = s })
  ]
]

pub attr_min : Attribute → Attribute → Attribute
attr_min a1 a2 = record {
  dtat_name = min a1.dtat_name a2.dtat_name;
  dtat_data = min a1.dtat_data a2.dtat_data;
  dtat_class = min a1.dtat_class a2.dtat_class;
}

pub attr_max : Attribute → Attribute → Attribute
attr_max a1 a2 = record {
  dtat_name = max a1.dtat_name a2.dtat_name;
  dtat_data = max a1.dtat_data a2.dtat_data;
  dtat_class = max a1.dtat_class a2.dtat_class;
}

-- The difference of two int values as its 32 bits.
pub difference : ℕ → ℕ → ℕ
difference x y = (x + 2 ^ 32 - y) % 2 ^ 32

-- The 32 bits of the int that dt_attr_cmp() returns.
pub attr_cmp : Attribute → Attribute → ℕ
attr_cmp a1 a2 =
    bit_or (bit_or (difference a1.dtat_name a2.dtat_name) (difference a1.dtat_data a2.dtat_data))
      (difference a1.dtat_class a2.dtat_class)
