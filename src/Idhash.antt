-- ===== src/Idhash.antt =====
-- The identifier hashes and their stack, libdtrace/dt_ident.c and dt_ident.h.
-- An identifier is a record with its address; a hash chain is the list of the identifiers along
-- di_next. Of the fields that only the compiler reads, the type and the private data are left out.
-- What malloc and strdup give dt_ident_create() while the hash has n elements is an argument, with
-- `none` for NULL.
use dtrace.Base.{
  ℕ, zero, suc, ◌+◌, ◌-◌, ◌*◌, ◌/◌, ◌%◌, ◌^◌, ◌≤◌, ◌<◌, min, max, ◌≡◌, refl, sym, ap, ◌∙◌, fun_ext,
  subst, ◌≢◌, ◌↔◌, ◌⊎◌, inl, inr, Bool, true, false, not, ◌&&◌, ◌||◌, Option, none, some, List, [],
  ◌∷◌, ◌++◌, map, arith, ltb, leb, ◌==◌, if◌then◌else◌, Bool-cases, Option-cases, ==_iff, ltb→lt,
  lt→ltb, leb→le, length, get_elem?, set, length-append, length-set, get_or, take, drop, replicate,
  length-replicate, length-take, length-drop, take-append_add, take-append_le, take_add, take_all,
  take-take, get_or-set, get_or-replicate, total, total-set, total-replicate,
}
use dtrace.Strtab.{strbuckets, str2hval}
pub mod Chains
pub mod Insert
pub mod Populate
pub mod Delete
pub mod Ids
pub mod Order
pub mod Sorted
pub mod Small
pub mod Iterate
pub mod Examples

pub data Kind : Type 0 where
  array scalar magic_ptr func agg aggfunc actfunc xlsou xlptr symbol enum pragat pragbn probe : Kind

-- The ops vector: NULL, dt_idops_thaw, or the address of another.
pub data Ops : Type 0 where
  no_ops thaw : Ops
  ops_at : ℕ → Ops

pub record Ident : Type 0 where
  pub addr : ℕ
  pub name : List ℕ
  pub kind : Kind
  pub flags : ℕ
  pub id : ℕ
  pub attr : ℕ
  pub vers : ℕ
  pub ops : Ops
  pub iarg : ℕ
  pub gen : ℕ

-- `defer` is the callback for a new identifier, which may change it; `tmpl` are the identifiers of
-- the initial population, until it has been made.
pub record Idhash : Type 0 where
  pub tmpl : Option (List Ident)
  pub defer : Option (Ident → Ident)
  pub nextid : ℕ
  pub minid : ℕ
  pub maxid : ℕ
  pub nelems : ℕ
  pub hash : List (List Ident)

abbrev pub Memory : Type 0
Memory = ℕ → Option ℕ

-- The assert on min and max comes first: the outer `none` is that it fails.
pub create : (got : Bool) → Option (List Ident) → (min max : ℕ) → Option (Option Idhash)
create got tmpl min max =
    if not (leb min max)
    then none
    else if not got
    then some none
    else some (
        some (record {
          tmpl = tmpl;
          defer = none;
          nextid = min;
          minid = min;
          maxid = max;
          nelems = 0;
          hash = replicate strbuckets [];
        }))

pub slot : Idhash → List ℕ → ℕ
slot dhp name = str2hval name 0 % length dhp.hash

-- dt_ident_create(): `got` is the address of the new identifier.
pub ident_create : (got : Option ℕ) → Ident → Option Ident
ident_create none idp = none
ident_create (some addr) idp = some (record idp { addr = addr })

pub deferred : Option (Ident → Ident) → Ident → Ident
deferred none idp = idp
deferred (some defer) idp = defer idp

-- The identifier at the front of its chain, and the call of the defer callback on it.
pub link : Idhash → Ident → Ident × Idhash
link dhp idp =
    let h = slot dhp idp.name in
    let idp' = deferred dhp.defer idp in
    (
      idp',
      record dhp { hash = set dhp.hash h (idp' ∷ get_or dhp.hash h []); nelems = dhp.nelems + 1 },
    )

pub link_created : Idhash → Option Ident → Option Ident × Idhash
link_created dhp none = (none, dhp)
link_created dhp (some idp) = let (new, dhp') = link dhp idp in (some new, dhp')

-- dt_idhash_insert() of a hash whose template is done.
pub insert_in : Memory → Idhash → Ident → Option Ident × Idhash
insert_in mem dhp idp = link_created dhp (ident_create (mem dhp.nelems) idp)

-- What a function comes to that may populate the hash: a value, or longjmp() with EDT_NOMEM.
pub data Result (A : Type 0) : Type 0 where
  returned : A → Idhash → Result A
  jumped : Idhash → Result A

pub populate_next : Option Ident × Idhash → (rest : Result Bool) → Result Bool
populate_next (none, dhp) rest = jumped dhp
populate_next (some idp, dhp) rest = rest

pub ops_or_thaw : Ops → Ops
ops_or_thaw no_ops = thaw
ops_or_thaw thaw = thaw
ops_or_thaw (ops_at a) = ops_at a

-- The arguments for an identifier of the template.
pub from_template : Ident → Ident
from_template idp = record idp { ops = ops_or_thaw idp.ops; gen = 0 }

-- The loop of dt_idhash_populate() over the template.
pub populate_from : Memory → List Ident → Idhash → Result Bool
populate_from mem [] dhp = returned true dhp
populate_from mem (idp ∷ tmpl) dhp =
    let r = insert_in mem dhp (from_template idp) in populate_next r (populate_from mem tmpl r.1)

pub populate : Memory → Idhash → Option (List Ident) → Result Bool
populate mem dhp none = returned true dhp
populate mem dhp (some tmpl) = populate_from mem tmpl (record dhp { tmpl = none })

pub after_population : {A : Type 0} → Result Bool → (Idhash → A × Idhash) → Result A
after_population (jumped dhp) f = jumped dhp
after_population (returned ok dhp) f = let r = f dhp in returned r.0 r.1

pub insert : Memory → Idhash → Ident → Result (Option Ident)
insert mem dhp idp = after_population (populate mem dhp dhp.tmpl) (λ dhp'. insert_in mem dhp' idp)

-- The flag DT_IDFLG_ORPHAN, bit 11.
abbrev pub orphan : ℕ → Bool
orphan flags = flags / 2 ^ 11 % 2 == 1

pub clear_orphan : ℕ → ℕ
clear_orphan flags = if orphan flags then flags - 2 ^ 11 else flags

-- dt_idhash_xinsert() of an identifier that exists.
pub xinsert : Memory → Idhash → Ident → Result Ident
xinsert mem dhp idp =
    after_population (populate mem dhp dhp.tmpl)
      (λ dhp'. link dhp' (record idp { flags = clear_orphan idp.flags }))

pub data Sign : Type 0 where
  below equal above : Sign

pub strcmp : List ℕ → List ℕ → Sign
strcmp [] [] = equal
strcmp [] (y ∷ ys) = below
strcmp (x ∷ xs) [] = above
strcmp (x ∷ xs) (y ∷ ys) =
    let rest = strcmp xs ys in if ltb x y then below else if ltb y x then above else rest

pub is_equal : Sign → Bool
is_equal below = false
is_equal equal = true
is_equal above = false

pub lookup_in : List Ident → List ℕ → Option Ident
lookup_in [] name = none
lookup_in (idp ∷ chain) name =
    let rest = lookup_in chain name in if is_equal (strcmp idp.name name) then some idp else rest

-- dt_idhash_lookup() of a hash whose template is done.
pub lookup_populated : Idhash → List ℕ → Option Ident
lookup_populated dhp name = lookup_in (get_or dhp.hash (slot dhp name) []) name

pub lookup : Memory → Idhash → List ℕ → Result (Option Ident)
lookup mem dhp name =
    after_population (populate mem dhp dhp.tmpl) (λ dhp'. (lookup_populated dhp' name, dhp'))

-- The chain without the identifier at the address, and that identifier.
pub unlink : List Ident → (key : ℕ) → Option (Ident × List Ident)
unlink [] key = none
unlink (idp ∷ chain) key =
    let rest = unlink chain key in
    if idp.addr == key
    then some (idp, chain)
    else elim rest [ none ↦ none | some r ↦ some (r.0, idp ∷ r.1) ]

-- dt_idhash_delete() with the name that the key has: whether the identifier is destroyed. `none` is
-- a failed assert.
pub delete : Idhash → Ident → Option (Bool × Idhash)
delete dhp key =
    let h = slot dhp key.name in
    elim (unlink (get_or dhp.hash h []) key.addr) [
      | none ↦ none
      | some (idp, chain) ↦
          if dhp.nelems == 0
          then none
          else some (
            not (orphan idp.flags),
            record dhp { hash = set dhp.hash h chain; nelems = dhp.nelems - 1 },
          )
    ]

-- Whether the id of such an identifier is a variable's, with dt_idhash_nextid() as its source.
pub has_id : Kind → Bool
has_id Kind.array = true
has_id Kind.scalar = true
has_id Kind.agg = true
has_id _ = false

pub update_chain : (nextid : ℕ) → List Ident → ℕ
update_chain nextid [] = nextid
update_chain nextid (idp ∷ chain) =
    update_chain (if has_id idp.kind then max nextid ((idp.id + 1) % 2 ^ 32) else nextid) chain

pub update_from : (nextid : ℕ) → List (List Ident) → ℕ
update_from nextid [] = nextid
update_from nextid (chain ∷ chains) = update_from (update_chain nextid chain) chains

pub update : Idhash → Idhash
update dhp = record dhp { nextid = update_from dhp.minid dhp.hash }

-- `none` is -1.
pub nextid : Idhash → Option (ℕ × Idhash)
nextid dhp =
    if leb dhp.maxid dhp.nextid
    then none
    else some (dhp.nextid, record dhp { nextid = (dhp.nextid + 1) % 2 ^ 32 })

pub peekid : Idhash → ℕ
peekid dhp = dhp.nextid

-- dt_idhash_size().
pub size : Idhash → ℕ
size dhp = dhp.nelems

-- The sign of an int.
pub sign_of : (word : ℕ) → Sign
sign_of word = if word == 0 then equal else if ltb word (2 ^ 31) then above else below

-- The comparison of dt_idhash_iter().
pub comp : Ident → Ident → Sign
comp lhs rhs =
    if not (lhs.id == rhs.id)
    then sign_of ((lhs.id + 2 ^ 32 - rhs.id) % 2 ^ 32)
    else strcmp lhs.name rhs.name

pub gather : List (List Ident) → List Ident
gather [] = []
gather (chain ∷ chains) = chain ++ gather chains

module _ {S : Type 0} (func : S → Ident → S × ℕ) where
  -- The callback goes on while it returns 0.
  pub visit : S → List Ident → S × ℕ
  visit st [] = (st, 0)
  visit st (idp ∷ ids) =
      let r = func st idp in let rest = visit r.0 ids in if r.1 == 0 then rest else r

  -- qsort() takes the comparison.
  pub iter :
      (qsort : (Ident → Ident → Sign) → List Ident → List Ident)
      → Memory
      → Idhash
      → S
      → Result (S × ℕ)
  iter qsort mem dhp st =
      after_population (populate mem dhp dhp.tmpl)
        (λ dhp'. (visit st (qsort comp (gather dhp'.hash)), dhp'))

-- dt_idstack_t: the hashes from the last one on, along dt_list_prev(). The lookup gives the stack
-- back with the hashes that it has populated.
pub data StackResult : Type 0 where
  stack_returned : Option Ident → List Idhash → StackResult
  stack_jumped : List Idhash → StackResult

pub under : Idhash → StackResult → StackResult
under dhp (stack_returned r hashes) = stack_returned r (dhp ∷ hashes)
under dhp (stack_jumped hashes) = stack_jumped (dhp ∷ hashes)

pub first_found : List Idhash → Result (Option Ident) → (rest : StackResult) → StackResult
first_found below_ (jumped dhp) rest = stack_jumped (dhp ∷ below_)
first_found below_ (returned (some idp) dhp) rest = stack_returned (some idp) (dhp ∷ below_)
first_found below_ (returned none dhp) rest = under dhp rest

pub stack_lookup : Memory → List Idhash → List ℕ → StackResult
stack_lookup mem [] name = stack_returned none []
stack_lookup mem (dhp ∷ hashes) name =
    first_found hashes (lookup mem dhp name) (stack_lookup mem hashes name)
