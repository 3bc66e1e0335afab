-- ===== src/Rodata.antt =====
-- The read-only data block of libdtrace/dt_rodata.c, and the hash function dt_gen_hval() of
-- libdtrace/dt_subr.c.
-- The buffers are those of the string table, whose growth and copying this file's code repeats: the
-- loop of dt_rodata_copyin() is Strtab.copy_from. An item is the list of its bytes, of any value.
use dtrace.Base.{
  ℕ, zero, suc, ◌+◌, ◌-◌, ◌*◌, ◌/◌, ◌%◌, ◌^◌, ◌≤◌, ◌<◌, min, max, ◌≡◌, refl, sym, ap, ◌∙◌, fun_ext,
  subst, ◌≢◌, ◌↔◌, ◌⊎◌, inl, inr, Bool, true, false, not, ◌&&◌, ◌||◌, Option, none, some, List, [],
  ◌∷◌, ◌++◌, map, arith, ltb, leb, ◌==◌, if◌then◌else◌, Bool-cases, Option-cases, ==_iff, ltb→lt,
  lt→ltb, leb→le, length, get_elem?, set, length-append, length-set, get_or, take, drop, replicate,
  length-replicate, length-take, length-drop, take-append_add, take-append_le, take_add, take_all,
  take-take, get_or-set, get_or-replicate, total, total-set, total-replicate,
}
use dtrace.Strtab.{
  hash_round, Memory, wrap, CopyResult, copied, failed, copy_from, memcpy, strbuckets, write_from,
}
pub mod Match
pub mod Lookup
pub mod Insert
pub mod Write
pub mod Examples

-- dt_gen_hval() with a pointer that is not NULL. Its rounds are those of str2hval().
pub gen_hval : List ℕ → (hval : ℕ) → ℕ
gen_hval [] hval = hval
gen_hval (c ∷ p) hval = gen_hval p (hash_round hval c)

-- dt_rohash_t: `buf` and `at` are the pointer to the bytes.
pub record Item : Type 0 where
  pub buf : ℕ
  pub at : ℕ
  pub off : ℕ
  pub len : ℕ

-- `ptr` is the offset of the current location in the last buffer.
pub record Rodata : Type 0 where
  pub hash : List (List Item)
  pub hashsz : ℕ
  pub bufs : List (List ℕ)
  pub ptr : ℕ
  pub bufsz : ℕ
  pub size : ℕ
  pub item_size : ℕ

-- `none` is NULL: a malloc failed.
pub create : (got got_hash : Bool) → Memory → (bufsz : ℕ) → Option Rodata
create got got_hash mem bufsz = if not got || not got_hash then none else elim (mem 0) [
  | none ↦ none
  | some buf ↦ some (record {
    hash = replicate strbuckets [];
    hashsz = strbuckets;
    bufs = set buf 0 0 ∷ [];
    ptr = 1;
    bufsz = bufsz;
    size = 1;
    item_size = 0;
  })
]

-- memcmp() of equally long pieces: whether it returns 0.
pub memcmp : List ℕ → List ℕ → Bool
memcmp [] ys = true
memcmp (x ∷ xs) [] = true
memcmp (x ∷ xs) (y ∷ ys) = (x == y) && memcmp xs ys

-- What a comparison comes to: 0, not 0, or a read of the buffer behind the last one.
pub data Comparison : Type 0 where
  same differs outside : Comparison

-- The loop of dt_rodata_compare() on fuel; each round takes a byte or more.
pub compare_from : (fuel bufsz : ℕ) → List (List ℕ) → (b at : ℕ) → List ℕ → Option Comparison
compare_from zero bufsz bufs b at ptr = none
compare_from (suc fuel) bufsz bufs b at [] = some same
compare_from (suc fuel) bufsz bufs b at (c ∷ cs) =
    let ptr = c ∷ cs in
    let (b', at') = wrap bufsz b at in
    let n = min (bufsz - at') (length ptr) in
    let rest = compare_from fuel bufsz bufs b' (at' + n) (drop n ptr) in
    if leb (length bufs) b'
    then some outside
    else if memcmp (take n (drop at' (get_or bufs b' []))) (take n ptr)
    then rest
    else some differs

pub compare : Rodata → Item → List ℕ → Option Comparison
compare dp hp ptr = compare_from (length ptr + 1) dp.bufsz dp.bufs hp.buf hp.at ptr

-- What a search comes to: an offset, -1, or a read behind the last buffer.
pub data Search : Type 0 where
  found : ℕ → Search
  missing astray : Search

pub searched : Item → (rest : Option Search) → Option Comparison → Option Search
searched hp rest none = none
searched hp rest (some same) = some (found hp.off)
searched hp rest (some differs) = rest
searched hp rest (some outside) = some astray

pub xindex_in : Rodata → List Item → List ℕ → Option Search
xindex_in dp [] ptr = some missing
xindex_in dp (hp ∷ hs) ptr = searched hp (xindex_in dp hs ptr) (compare dp hp ptr)

pub xindex : Rodata → List ℕ → (h : ℕ) → Option Search
xindex dp ptr h = xindex_in dp (get_or dp.hash h []) ptr

-- The slot of an item. The length starts the hash as a uint32_t.
abbrev pub slot : Rodata → List ℕ → ℕ
slot dp ptr = gen_hval ptr (length ptr % 2 ^ 32) % dp.hashsz

-- `none` is a NULL pointer.
pub index : Rodata → Option (List ℕ) → Option Search
index dp none = some (found 0)
index dp (some ptr) = xindex dp ptr (slot dp ptr)

-- What the copying loop has left. The code at label err frees the new buffers and takes the old
-- location again.
pub copied_in : Rodata → Option CopyResult → Option (Bool × Rodata)
copied_in dp none = none
copied_in dp (some (copied p)) = some (true, record dp { bufs = p.0; ptr = p.1 })
copied_in dp (some (failed bufs)) = some (false, record dp { bufs = take (length dp.bufs) bufs })

pub copyin : Memory → Rodata → List ℕ → Option (Bool × Rodata)
copyin mem dp ptr = copied_in dp (copy_from (length ptr + 1) mem dp.bufsz (dp.bufs, dp.ptr) ptr)

-- What dt_rodata_insert() returns: an offset, -1, or nothing after a read behind the last buffer.
pub data Inserted : Type 0 where
  at : ℕ → Inserted
  failure undefined : Inserted

-- What follows dt_rodata_copyin(): the counts and the chain of slot h.
pub insert_entry : (h : ℕ) (hp : Item) → Option (Bool × Rodata) → Option (Inserted × Rodata)
insert_entry h hp none = none
insert_entry h hp (some (false, dp)) = some (failure, dp)
insert_entry h hp (some (true, dp)) = some (
  at hp.off,
  record dp {
    size = dp.size + hp.len;
    hash = set dp.hash h (hp ∷ get_or dp.hash h []);
    item_size = if ltb dp.item_size hp.len then hp.len else dp.item_size;
  },
)

-- What follows a search that found nothing: `got` says whether the malloc of the entry succeeds.
pub insert_new : (got : Bool) → Memory → Rodata → List ℕ → Option (Inserted × Rodata)
insert_new got mem dp ptr =
    let hp : Item = record {
      buf = length dp.bufs - 1;
      at = dp.ptr;
      off = dp.size;
      len = length ptr;
    } in
    if not got then some (failure, dp) else insert_entry (slot dp ptr) hp (copyin mem dp ptr)

pub after_search :
    (got : Bool) → Memory → Rodata → List ℕ → Option Search → Option (Inserted × Rodata)
after_search got mem dp ptr none = none
after_search got mem dp ptr (some (found off)) = some (at off, dp)
after_search got mem dp ptr (some astray) = some (undefined, dp)
after_search got mem dp ptr (some missing) = insert_new got mem dp ptr

-- The outer `none` is that fuel ran out.
pub insert : (got : Bool) → Memory → Rodata → Option (List ℕ) → Option (Inserted × Rodata)
insert got mem dp none = some (at 0, dp)
insert got mem dp (some ptr) = after_search got mem dp ptr (xindex dp ptr (slot dp ptr))

pub size_of : Rodata → ℕ
size_of dp = dp.size

pub max_item_size : Rodata → ℕ
max_item_size dp = dp.item_size

-- dt_rodata_copy() into the memory `buf`, and the count of bytes that it returns.
pub copy : (buf piece : List ℕ) → (off : ℕ) → List ℕ × ℕ
copy buf piece off = (memcpy buf off piece, length piece)

-- The loop over the buffers is Strtab.write_from: a callback that has a state and returns a count of
-- bytes, 0 for a result that is not positive. `none` is -1.
pub write {ℓ} : {S : Type ℓ} (func : S → List ℕ → ℕ → S × ℕ) → Rodata → S → S × Option ℕ
write func dp st =
    let r = write_from func dp.bufs dp.ptr st 0 in
    (r.0, if (r.1 == 0) && not (dp.size == 0) then none else some r.1)
