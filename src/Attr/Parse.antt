-- ===== src/Attr/Parse.antt =====
-- dtrace_str2attr() takes what dtrace_attr2str() prints.
use dtrace.Base.{
  ℕ, zero, suc, ◌-◌, ◌≤◌, ◌<◌, ◌≡◌, refl, ap, ◌∙◌, inl, inr, Bool, true, false, not, ◌&&◌, Option,
  none, some, List, [], ◌∷◌, ◌++◌, arith, leb, ◌==◌, Bool-cases, ==_iff, length, length-append,
  take, take_all,
}
use dtrace.Attr.{
  Attribute, until_slash, stability_name, search_name, getstrattr, str2attr, is_name, str2data,
  strcasecmp, str2class, lower, attr2str, stability_max, class_name, joined, class_max, maxattr,
}

-- No byte of a name is a slash.
abbrev pub NoSlash : List ℕ → Type 0
NoSlash [] = Unit {0}
NoSlash (c ∷ p) = ((c == b'/') ≡ false) × NoSlash p

until_slash-append : (p q : List ℕ) → NoSlash p → until_slash (p ++ (b'/' ∷ q)) ≡ (p, q)
unfolding until_slash
until_slash-append [] q n = refl
until_slash-append (c ∷ p) q (s, n) = rw s (ap (λ r. (c ∷ r.0, r.1)) (until_slash-append p q n))

until_slash_all : (p : List ℕ) → NoSlash p → until_slash p ≡ (p, [])
unfolding until_slash
until_slash_all [] n = refl
until_slash_all (c ∷ p) (s, n) = rw s (ap (λ r. (c ∷ r.0, r.1)) (until_slash_all p n))

no_slash : List ℕ → Bool
no_slash [] = true
no_slash (c ∷ p) = not (c == b'/') && no_slash p

NoSlash-no_slash : (p : List ℕ) → no_slash p ≡ true → NoSlash p
unfolding no_slash
NoSlash-no_slash [] e = tt
NoSlash-no_slash (c ∷ p) e = elim (Bool-cases (c == b'/')) [
  | inl h ↦ absurd (ground arith)
  | inr h ↦ (h, NoSlash-no_slash p (ground arith))
]

is_value : Option ℕ → ℕ → Bool
is_value none s = false
is_value (some t) s = t == s

is_value-some : (o : Option ℕ) (s : ℕ) → is_value o s ≡ true → o ≡ some s
unfolding is_value
is_value-some none s e = cc
is_value-some (some t) s e = ap some ((==_iff t s).0 e)

-- A test of a value's name: it has no slash, is not empty nor long, and is found at the value.
well_named : (ℕ → Option (List ℕ)) → (left s : ℕ) → Option (List ℕ) → Bool
well_named name_of left s none = false
well_named name_of left s (some name) =
    (no_slash name && (leb 1 (length name) && leb (length name) 8))
    && is_value (search_name name_of left 0 name) s

record Named (name_of : ℕ → Option (List ℕ)) (left s : ℕ) : Type 0 where
  name : List ℕ
  has_name : name_of s ≡ some name
  slashless : NoSlash name
  some_byte : 0 < length name
  short : length name ≤ 8
  found : (search_name name_of left 0 name) ≡ some s

Named-well_named :
    (name_of : ℕ → Option (List ℕ)) (left s : ℕ)
    → well_named name_of left s (name_of s) ≡ true
    → Named name_of left s
unfolding well_named
Named-well_named name_of left s e = go (name_of s) refl e
  where
    go :
        (o : Option (List ℕ))
        → name_of s ≡ o
        → well_named name_of left s o ≡ true
        → Named name_of left s
    go none q e = cc
    go (some name) q e = record {
      name = name;
      has_name = q;
      slashless = NoSlash-no_slash name (ground arith);
      some_byte = ground arith;
      short = ground arith;
      found = is_value-some (search_name name_of left 0 name) s (ground arith);
    }

stability-well_named :
    (s : ℕ) → s ≤ stability_max → well_named stability_name 8 s (stability_name s) ≡ true
unfolding well_named no_slash is_value search_name is_name strcasecmp lower stability_name
stability-well_named zero h = refl
stability-well_named (suc zero) h = refl
stability-well_named (suc (suc zero)) h = refl
stability-well_named (suc (suc (suc zero))) h = refl
stability-well_named (suc (suc (suc (suc zero)))) h = refl
stability-well_named (suc (suc (suc (suc (suc zero))))) h = refl
stability-well_named (suc (suc (suc (suc (suc (suc zero)))))) h = refl
stability-well_named (suc (suc (suc (suc (suc (suc (suc zero))))))) h = refl
stability-well_named (suc (suc (suc (suc (suc (suc (suc (suc n)))))))) h = absurd (omega arith)

class-well_named : (c : ℕ) → c ≤ class_max → well_named class_name 6 c (class_name c) ≡ true
unfolding well_named no_slash is_value search_name is_name strcasecmp lower class_name
class-well_named zero h = refl
class-well_named (suc zero) h = refl
class-well_named (suc (suc zero)) h = refl
class-well_named (suc (suc (suc zero))) h = refl
class-well_named (suc (suc (suc (suc zero)))) h = refl
class-well_named (suc (suc (suc (suc (suc zero))))) h = refl
class-well_named (suc (suc (suc (suc (suc (suc n)))))) h = absurd (omega arith)

getstrattr-append :
    (p q : List ℕ) → NoSlash p → 0 < length p → getstrattr (p ++ (b'/' ∷ q)) ≡ some (p, q)
unfolding getstrattr
getstrattr-append [] q n h = absurd (omega arith)
getstrattr-append (c ∷ p) q n h = ap some (until_slash-append (c ∷ p) q n)

getstrattr_all : (p : List ℕ) → NoSlash p → 0 < length p → getstrattr p ≡ some (p, [])
unfolding getstrattr
getstrattr_all [] n h = absurd (omega arith)
getstrattr_all (c ∷ p) n h = ap some (until_slash_all (c ∷ p) n)

attr2str-some :
    (a : Attribute) (len : ℕ) {n d c : List ℕ}
    → stability_name a.dtat_name ≡ some n
    → stability_name a.dtat_data ≡ some d
    → class_name a.dtat_class ≡ some c
    → attr2str a len ≡ some (take (len - 1) (n ++ (b'/' ∷ (d ++ (b'/' ∷ c)))))
unfolding attr2str joined
attr2str-some a len en ed ec = rw (en, ed, ec, attr2str) refl

-- One field of the text and the rest, at each of the three levels.
str2class-last :
    (q p : List ℕ) (attr : Attribute) (c : ℕ)
    → getstrattr q ≡ some (p, [])
    → search_name class_name 6 0 p ≡ some c
    → str2class q attr ≡ (true, record attr { dtat_class = c })
unfolding str2class getstrattr
str2class-last q p attr c e f = rw (e, f, str2class) refl

str2data-field :
    (q p q' : List ℕ) (attr : Attribute) (s : ℕ)
    → getstrattr q ≡ some (p, q')
    → search_name stability_name 8 0 p ≡ some s
    → str2data q attr ≡ str2class q' (record attr { dtat_data = s })
unfolding str2data
str2data-field q p q' attr s e f = rw (e, f, str2data) refl

str2attr-field :
    (str p q : List ℕ) (old : Attribute) (s : ℕ)
    → getstrattr str ≡ some (p, q)
    → search_name stability_name 8 0 p ≡ some s
    → str2attr (some str) old ≡ str2data q (record maxattr { dtat_name = s })
unfolding str2attr
str2attr-field str p q old s e f = rw (e, f, str2attr) refl

-- dtrace_str2attr() of what dtrace_attr2str() prints of attributes up to the maxima, into a buffer
-- of at least 27 bytes, returns 0 and these attributes.
pub str2attr-attr2str :
    (a old : Attribute) (len : ℕ)
    → a.dtat_name ≤ stability_max
    → a.dtat_data ≤ stability_max
    → a.dtat_class ≤ class_max
    → 27 ≤ len
    → str2attr (attr2str a len) old ≡ (true, a)
str2attr-attr2str a old len hn hd hc hl =
    let n = Named-well_named stability_name 8 a.dtat_name (stability-well_named a.dtat_name hn) in
    let d = Named-well_named stability_name 8 a.dtat_data (stability-well_named a.dtat_data hd) in
    let c = Named-well_named class_name 6 a.dtat_class (class-well_named a.dtat_class hc) in
    let rest : List ℕ = d.name ++ (b'/' ∷ c.name) in
    let text : List ℕ = n.name ++ (b'/' ∷ rest) in
    let fits : take (len - 1) text ≡ text = take_all (len - 1) text (
      omega (
        arith,
        length-append n.name (b'/' ∷ rest),
        length-append d.name (b'/' ∷ c.name),
        n.short,
        d.short,
        c.short,
      )) in
    ap (λ o. str2attr o old) (attr2str-some a len n.has_name d.has_name c.has_name ∙ ap some fits)
    ∙ str2attr-field text n.name rest old a.dtat_name
        (getstrattr-append n.name rest n.slashless n.some_byte) n.found
    ∙ str2data-field rest d.name c.name (record maxattr { dtat_name = a.dtat_name }) a.dtat_data
        (getstrattr-append d.name c.name d.slashless d.some_byte) d.found
    ∙ str2class-last c.name c.name _ a.dtat_class (getstrattr_all c.name c.slashless c.some_byte)
        c.found
