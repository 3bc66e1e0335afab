-- ===== src/Htab.antt =====
-- The generic hash table, libcommon/dt_htab.c.
-- A pointer to an entry is the list of the entries from there on along `next`, and NULL is `[]`. A
-- slot is the list of its buckets. The five functions of dt_htab_ops_t are a parameter. The int
-- counters count allocated objects, so they do not overflow.
pub mod Head
pub mod Chain
pub mod Removal
pub mod Slots
pub mod Insert
pub mod Move
pub mod Resize
pub mod Delete
pub mod Iterate
pub mod Lookup
pub mod Refine
pub mod Examples
use dtrace.Base.{
  ℕ, zero, suc, ◌+◌, ◌-◌, ◌*◌, ◌/◌, ◌%◌, ◌^◌, ◌≤◌, ◌<◌, min, max, ◌≡◌, refl, sym, ap, ◌∙◌, fun_ext,
  subst, ◌≢◌, ◌↔◌, ◌⊎◌, inl, inr, Bool, true, false, not, ◌&&◌, ◌||◌, Option, none, some, List, [],
  ◌∷◌, ◌++◌, map, arith, ltb, leb, ◌==◌, if◌then◌else◌, Bool-cases, Option-cases, ==_iff, ltb→lt,
  lt→ltb, leb→le, length, get_elem?, set, length-append, length-set, get_or, take, drop, replicate,
  length-replicate, get_or-set, get_or-replicate, total, total-set, total-replicate,
}
use Prim.Native.Nat.{bit_and}

pub record Ops {ℓ} (E : Type ℓ) : Type ℓ where
  pub hval : E → ℕ
  -- cmp(head, e) == 0
  pub cmp : List E → E → Bool
  pub add : List E → E → List E
  pub del : List E → E → List E
  pub next : List E → List E

pub record Bucket {ℓ} (E : Type ℓ) : Type ℓ where
  pub hval : ℕ
  pub head : List E
  pub nentries : ℕ

pub record Htab {ℓ} (E : Type ℓ) : Type ℓ where
  pub tab : List (List (Bucket E))
  pub size : ℕ
  pub mask : ℕ
  pub nbuckets : ℕ
  pub nentries : ℕ

-- What a call returns: 0, or a negated errno.
pub data Status : Type 0 where
  done enomem enoent : Status

-- malloc of the table, then calloc of its one slot.
pub create {ℓ} : {E : Type ℓ} (got got_tab : Bool) → Option (Htab E)
create false got_tab = none
create true false = none
create true true =
    some (record { tab = [] ∷ []; size = 1; mask = 1 - 1; nbuckets = 0; nentries = 0 })

abbrev pub is_null {ℓ} : {A : Type ℓ} → List A → Bool
is_null [] = true
is_null (x ∷ xs) = false

-- `bucket->next = ntab[idx]; ntab[idx] = bucket`
pub move_bucket {ℓ} : {E : Type ℓ} → ℕ → Bucket E → List (List (Bucket E)) → List (List (Bucket E))
move_bucket nmask bucket ntab =
    let idx = bit_and bucket.hval nmask in set ntab idx (bucket ∷ get_or ntab idx [])

pub move_chain {ℓ} :
    {E : Type ℓ} → ℕ → List (Bucket E) → List (List (Bucket E)) → List (List (Bucket E))
unfolding move_bucket
move_chain nmask [] ntab = ntab
move_chain nmask (bucket ∷ chain) ntab = move_chain nmask chain (move_bucket nmask bucket ntab)

pub move_slots {ℓ} :
    {E : Type ℓ} → ℕ → List (List (Bucket E)) → List (List (Bucket E)) → List (List (Bucket E))
unfolding move_chain
move_slots nmask [] ntab = ntab
move_slots nmask (chain ∷ tab) ntab = move_slots nmask tab (move_chain nmask chain ntab)

-- `got` says whether calloc succeeds; `none` is -ENOMEM.
pub resize {ℓ} : {E : Type ℓ} → Bool → Htab E → Option (Htab E)
unfolding move_slots
resize got htab =
    let nsize = htab.size * 2 in
    let nmask = nsize - 1 in
    if not got
    then none
    else some (record htab {
      tab = move_slots nmask htab.tab (replicate nsize []);
      size = nsize;
      mask = nmask;
    })

module _ {ℓ} {E : Type ℓ} (ops : Ops E) where
  -- The loop of dt_htab_lookup over the buckets of a slot.
  pub find_head : List (Bucket E) → E → List E
  find_head [] entry = []
  find_head (bucket ∷ chain) entry =
      if ops.cmp bucket.head entry then bucket.head else find_head chain entry

  pub lookup : Htab E → E → List E
  unfolding find_head
  lookup htab entry =
      let idx = bit_and (ops.hval entry) htab.mask in find_head (get_or htab.tab idx []) entry

  -- The secondary search runs on fuel; `none` is that it ran out.
  pub find_loop : (cmpf : List E → Bool) → ℕ → List E → Option (List E)
  find_loop cmpf zero ent = none
  find_loop cmpf (suc fuel) ent =
      let rest = find_loop cmpf fuel (ops.next ent) in
      if not (is_null ent) && not (cmpf ent) then rest else some ent

  pub find : (cmpf : List E → Bool) → Htab E → E → Option (List E)
  unfolding lookup find_loop
  find cmpf htab entry = let ent = lookup htab entry in find_loop cmpf (length ent + 1) ent

  -- The search for a bucket and the code at label add; `none` is that no bucket compares equal.
  pub add_to : List (Bucket E) → E → Option (List (Bucket E))
  add_to [] entry = none
  add_to (bucket ∷ chain) entry =
      let rest = add_to chain entry in
      if ops.cmp bucket.head entry
      then some (
          record bucket { head = ops.add bucket.head entry; nentries = bucket.nentries + 1 }
          ∷ chain)
      else elim rest [ none ↦ none | some chain' ↦ some (bucket ∷ chain') ]

  -- A new bucket at the front of the slot, with the entry added to its empty list.
  pub new_bucket : E → Bucket E
  new_bucket entry = record { hval = ops.hval entry; head = ops.add [] entry; nentries = 0 + 1 }

  -- One round from label retry on, with what a further round returns as an argument. `got` says
  -- whether the malloc of a bucket succeeds.
  pub insert_round :
      (got : Bool) (retry : Option (Status × Htab E)) → Htab E → E → Option (Status × Htab E)
  unfolding add_to new_bucket
  insert_round got retry htab entry =
      let idx = bit_and (ops.hval entry) htab.mask in
      let chain = get_or htab.tab idx [] in
      elim (add_to chain entry) [
        | some chain' ↦
            some (done, record htab { tab = set htab.tab idx chain'; nentries = htab.nentries + 1 })
        | none ↦
            if ltb htab.size (htab.nbuckets / 2)
            then retry
            else if not got
            then some (enomem, htab)
            else some (
              done,
              record htab {
                tab = set htab.tab idx (new_bucket entry ∷ chain);
                nbuckets = htab.nbuckets + 1;
                nentries = htab.nentries + 1;
              },
            )
      ]

  -- The rounds, on fuel. `got_tab n` says whether the calloc of a table of size n succeeds.
  pub insert_retry : ℕ → (got_tab : ℕ → Bool) (got : Bool) → Htab E → E → Option (Status × Htab E)
  unfolding insert_round
  insert_retry zero got_tab got htab entry = none
  insert_retry (suc fuel) got_tab got htab entry =
      let retry : Option (Status × Htab E) = elim (resize (got_tab (htab.size * 2)) htab) [
        | none ↦ some (enomem, htab)
        | some htab' ↦ insert_retry fuel got_tab got htab' entry
      ] in
      insert_round got retry htab entry

  pub insert : (got_tab : ℕ → Bool) (got : Bool) → Htab E → E → Option (Status × Htab E)
  unfolding insert_retry
  insert got_tab got htab entry = insert_retry (htab.nbuckets + 1) got_tab got htab entry

  -- The buckets of a slot after the deletion: a bucket whose list has become empty is unlinked.
  -- `none` is that no bucket compares equal. The flag says whether a bucket was freed.
  pub del_from : List (Bucket E) → E → Option (Bool × List (Bucket E))
  del_from [] entry = none
  del_from (bucket ∷ chain) entry =
      let rest = del_from chain entry in
      if ops.cmp bucket.head entry
      then (let head = ops.del bucket.head entry in
          if is_null head
          then some (true, chain)
          else some (false, record bucket { head = head; nentries = bucket.nentries - 1 } ∷ chain))
      else elim rest [ none ↦ none | some (freed, chain') ↦ some (freed, bucket ∷ chain') ]

  pub delete : Htab E → E → Status × Htab E
  unfolding del_from
  delete htab entry =
      let idx = bit_and (ops.hval entry) htab.mask in
      elim (del_from (get_or htab.tab idx []) entry) [
        | none ↦ (enoent, htab)
        | some (freed, chain) ↦ (
          done,
          record htab {
            tab = set htab.tab idx chain;
            nentries = htab.nentries - 1;
            nbuckets = if freed then htab.nbuckets - 1 else htab.nbuckets;
          },
        )
      ]

-- The state of an iteration: what the next call returns, and where that stands.
pub record Iter {ℓ} (E : Type ℓ) : Type ℓ where
  pub idx : ℕ
  pub bucket : List (Bucket E)
  pub ent : List E
  pub exhausted : Bool

module _ {ℓ} {E : Type ℓ} (ops : Ops E) where
  -- The inner loop, from the current bucket on. `none` is that it ran to the end of the slot.
  pub scan_buckets : List (Bucket E) → List E → Option (List (Bucket E) × List E)
  scan_buckets [] ent = none
  scan_buckets (bucket ∷ chain) ent =
      let ent' = if is_null ent then bucket.head else ops.next ent in
      let rest = scan_buckets chain [] in
      if not (is_null ent') then some (bucket ∷ chain, ent') else rest

  -- The outer loop over the slots from `idx` on, with `left` of them to go.
  pub scan_slots : (left idx : ℕ) → List (List (Bucket E)) → List (Bucket E) → List E → Iter E
  unfolding scan_buckets
  scan_slots zero idx tab bucket ent = record {
    idx = idx;
    bucket = bucket;
    ent = ent;
    exhausted = true;
  }
  scan_slots (suc left) idx tab bucket ent =
      let slot = get_or tab idx [] in
      let rest = scan_slots left (idx + 1) tab [] [] in
      if is_null slot
      then rest
      else elim (scan_buckets (if is_null bucket then slot else bucket) ent) [
        | some (bucket', ent') ↦ record {
          idx = idx;
          bucket = bucket';
          ent = ent';
          exhausted = false;
        }
        | none ↦ rest
      ]

  pub advance : Htab E → Iter E → Iter E
  unfolding scan_slots
  advance htab i = scan_slots (htab.size - i.idx) i.idx htab.tab i.bucket i.ent

  -- A call on an iteration that has begun: NULL and the end, or an entry and the state after it.
  pub iter_step : Htab E → Iter E → List E × Option (Iter E)
  unfolding advance
  iter_step htab i = if i.exhausted then ([], none) else (i.ent, some (advance htab i))

  -- `none` stands for the caller's NULL. The first call ticks through one iteration. `got` says
  -- whether the calloc of the state succeeds.
  pub htab_next : (got : Bool) → Htab E → Option (Iter E) → List E × Option (Iter E)
  unfolding iter_step
  htab_next got htab (some i) = iter_step htab i
  htab_next false htab none = ([], none)
  htab_next true htab none =
      iter_step htab (advance htab (record { idx = 0; bucket = []; ent = []; exhausted = false }))

pub entries {ℓ} : {E : Type ℓ} → Htab E → ℕ
entries htab = htab.nentries
