-- ===== src/LinkedList.antt =====
-- The doubly linked list of libcommon/dt_list.c.
-- The memory is the two pointer fields as functions of the address, with 0 for NULL. The list is a
-- node itself, whose `next` is the head and whose `prev` is the tail. A failed assert is `none`.
use dtrace.Base.{
  ℕ, zero, suc, ◌+◌, ◌-◌, ◌*◌, ◌/◌, ◌%◌, ◌^◌, ◌≤◌, ◌<◌, min, max, ◌≡◌, refl, sym, ap, ◌∙◌, fun_ext,
  subst, ◌≢◌, ◌↔◌, ◌⊎◌, inl, inr, Bool, true, false, not, ◌&&◌, ◌||◌, Option, none, some, List, [],
  ◌∷◌, ◌++◌, map, arith, ltb, leb, ◌==◌, if◌then◌else◌, Bool-cases, Option-cases, ==_iff, ltb→lt,
  lt→ltb, leb→le, length, get_elem?, set, length-append, length-set, get_or, take, drop, replicate,
  length-replicate, length-take, length-drop, take-append_add, take-append_le, take_add, take_all,
  take-take, get_or-set, get_or-replicate, total, total-set, total-replicate,
}
pub mod Segment
pub mod Append
pub mod Between
pub mod Removal
pub mod Examples

pub record Heap : Type 0 where
  pub prev : ℕ → ℕ
  pub next : ℕ → ℕ

unfoldable pub set_prev : (elem value : ℕ) → Heap → Heap
set_prev elem value h = record h { prev = λ x. if x == elem then value else h.prev x }

unfoldable pub set_next : (elem value : ℕ) → Heap → Heap
set_next elem value h = record h { next = λ x. if x == elem then value else h.next x }

pub append : Heap → (dlp new : ℕ) → Option Heap
append h dlp new =
    let p = h.prev dlp in
    let h1 = set_prev dlp new h in
    let h2 = set_prev new p h1 in
    let h3 = set_next new 0 h2 in
    if not (p == 0)
    then (if h3.next p == 0 then some (set_next p new h3) else none)
    else (if h3.next dlp == 0 then some (set_next dlp new h3) else none)

pub prepend : Heap → (dlp new : ℕ) → Option Heap
prepend h dlp new =
    let q = h.next dlp in
    let h1 = set_next dlp new h in
    let h2 = set_prev new 0 h1 in
    let h3 = set_next new q h2 in
    if not (q == 0)
    then (if h3.prev q == 0 then some (set_prev q new h3) else none)
    else (if h3.prev dlp == 0 then some (set_prev dlp new h3) else none)

pub insert : Heap → (dlp after_me new : ℕ) → Option Heap
insert h dlp after_me new =
    if (after_me == 0) || (h.next after_me == 0)
    then append h dlp new
    else (let h1 = set_next new (h.next after_me) h in
        let h2 = set_prev new after_me h1 in
        let h3 = set_next after_me new h2 in some (set_prev (h3.next new) new h3))

-- The two conditionals of dt_list_delete(): the node before, or the list, leads past the node, and
-- then the node behind, or the list, leads back past it.
pub unlink_next : Heap → (dlp existing : ℕ) → Heap
unlink_next h dlp existing =
    if not (h.prev existing == 0)
    then set_next (h.prev existing) (h.next existing) h
    else set_next dlp (h.next existing) h

pub unlink_prev : Heap → (dlp existing : ℕ) → Heap
unlink_prev h dlp existing =
    if not (h.next existing == 0)
    then set_prev (h.next existing) (h.prev existing) h
    else set_prev dlp (h.prev existing) h

pub delete : Heap → (dlp existing : ℕ) → Heap
delete h dlp existing = unlink_prev (unlink_next h dlp existing) dlp existing

-- The loop of dt_list_length() on fuel.
pub length_from : (fuel : ℕ) → Heap → (p len : ℕ) → Option ℕ
length_from zero h p len = none
length_from (suc fuel) h p len =
    let rest = length_from fuel h (h.next p) (len + 1) in if p == 0 then some len else rest

pub list_length : (fuel : ℕ) → Heap → (dlp : ℕ) → Option ℕ
unfolding length_from
list_length fuel h dlp = length_from fuel h (h.next dlp) 0
