-- ===== src/Speculation.antt =====
-- The speculations of bpf/speculation.c, on the specs map of libdtrace/dt_bpf_maps.h.
use dtrace.Base.{
  ℕ, zero, suc, ◌+◌, ◌-◌, ◌*◌, ◌/◌, ◌%◌, ◌^◌, ◌≤◌, ◌<◌, min, max, ◌≡◌, refl, sym, ap, ◌∙◌, fun_ext,
  subst, ◌≢◌, ◌↔◌, ◌⊎◌, inl, inr, Bool, true, false, not, ◌&&◌, ◌||◌, Option, none, some, List, [],
  ◌∷◌, ◌++◌, map, arith, ltb, leb, ◌==◌, if◌then◌else◌, Bool-cases, Option-cases, ==_iff, ltb→lt,
  lt→ltb, leb→le, length, get_elem?, set, length-append, length-set, get_or, take, drop, replicate,
  length-replicate, length-take, length-drop, take-append_add, take-append_le, take_add, take_all,
  take-take, get_or-set, get_or-replicate, total, total-set, total-replicate,
}
pub mod Assign
pub mod Written
pub mod Live
pub mod Reuse
pub mod Examples

-- dt_bpf_specs_t.
pub record Spec : Type 0 where
  pub written : ℕ
  pub size : ℕ
  pub draining : ℕ

-- The kernel's operations of a map: bpf_map_lookup_elem, bpf_map_update_elem with BPF_NOEXIST, where
-- `none` is an error, a store through the pointer that a lookup returned, and the deletion.
pub record MapOps (M : Type 0) : Type 0 where
  pub lookup_elem : M → ℕ → Option Spec
  pub insert_elem : M → ℕ → Spec → Option M
  pub store_elem : M → ℕ → Spec → M
  pub delete_elem : M → ℕ → M

abbrev pub spec_busy : ℕ
spec_busy = 4

abbrev pub spec_unavail : ℕ
spec_unavail = 5

abbrev pub zero_spec : Spec
zero_spec = record { written = 0; size = 0; draining = 0 }

-- The specs map, and the state map with its 32-bit values.
pub record Maps (M : Type 0) : Type 0 where
  pub specs : M
  pub state : ℕ → Option ℕ

pub atomic_add32 : Option ℕ → Option ℕ
atomic_add32 none = none
atomic_add32 (some v) = some ((v + 1) % 2 ^ 32)

-- dt_no_spec(), which returns 0.
pub no_spec : {M : Type 0} → (kind : ℕ) → Maps M → Maps M
no_spec kind s = record s { state = λ k. if k == kind then atomic_add32 (s.state k) else s.state k }

abbrev pub is_draining : Option Spec → Bool
is_draining none = false
is_draining (some spec) = ltb 0 spec.draining

-- The searches end with an id and its new entry, or at no_spec.
pub data Attempt (M : Type 0) : Type 0 where
  assigned : (id : ℕ) → M → Attempt M
  missed : (busy : ℕ) → Attempt M

pub tried : {M : Type 0} → (id : ℕ) → Option M → (rest : Attempt M) → Attempt M
tried id none rest = rest
tried id (some specs) rest = assigned id specs

-- SEARCH(n) and those that follow it: the `break` leaves the macro's own loop.
pub search_from : {M : Type 0} → MapOps M → (nspec left n busy : ℕ) → M → Attempt M
search_from maps nspec zero n busy specs = missed busy
search_from maps nspec (suc left) n busy specs =
    let busy' = if is_draining (maps.lookup_elem specs n) then busy + 1 else busy in
    let rest = search_from maps nspec left (n + 1) busy' specs in
    if ltb nspec n then missed busy else tried n (maps.insert_elem specs n zero_spec) rest

pub finish : {M : Type 0} → Maps M → Attempt M → ℕ × Maps M
finish s (assigned id specs) = (id, record s { specs = specs })
finish s (missed busy) = (0, no_spec (if busy == 0 then spec_unavail else spec_busy) s)

-- dt_speculation(): the id, or 0.
pub speculation : {M : Type 0} → MapOps M → (nspec : ℕ) → Maps M → ℕ × Maps M
speculation maps nspec s = finish s (search_from maps nspec 16 1 0 s.specs)

-- dt_speculation_speculate(), up to the addition: whether the entry is there and not draining.
pub may_speculate : {M : Type 0} → MapOps M → M → (id : ℕ) → Bool
may_speculate maps specs id = elim (maps.lookup_elem specs id) [
  | none ↦ false
  | some spec ↦ spec.draining == 0
]

-- Its atomic_add() through the pointer of the lookup.
pub add_written : {M : Type 0} → MapOps M → M → (id : ℕ) → M
add_written maps specs id = elim (maps.lookup_elem specs id) [
  | none ↦ specs
  | some spec ↦ maps.store_elem specs id (record spec { written = (spec.written + 1) % 2 ^ 64 })
]

-- dt_speculation_set_drainable(): `fault` where it calls dt_probe_error() and returns -1.
pub data Marked (M : Type 0) : Type 0 where
  marked : M → Marked M
  fault : Marked M

pub set_drainable : {M : Type 0} → MapOps M → (nspec : ℕ) → M → (id : ℕ) → Marked M
set_drainable maps nspec specs id = elim (maps.lookup_elem specs id) [
  | none ↦ if leb id nspec then marked specs else fault
  | some spec ↦ marked (maps.store_elem specs id (record spec { draining = 1 }))
]
