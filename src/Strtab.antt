-- ===== src/Strtab.antt =====
-- The string table of libdtrace/dt_strtab.c, and the hash function str2hval() of
-- libcommon/dt_htab.c.
-- A C string is the list of its bytes before the NUL. The table keeps its buffers whole, with what
-- malloc left in them, and addresses a byte by the number of its buffer and an offset.
use dtrace.Base.{
  ℕ, zero, suc, ◌+◌, ◌-◌, ◌*◌, ◌/◌, ◌%◌, ◌^◌, ◌≤◌, ◌<◌, min, max, ◌≡◌, refl, sym, ap, ◌∙◌, fun_ext,
  subst, ◌≢◌, ◌↔◌, ◌⊎◌, inl, inr, Bool, true, false, not, ◌&&◌, ◌||◌, Option, none, some, List, [],
  ◌∷◌, ◌++◌, map, arith, ltb, leb, ◌==◌, if◌then◌else◌, Bool-cases, Option-cases, ==_iff, ltb→lt,
  lt→ltb, leb→le, length, get_elem?, set, length-append, length-set, get_or, take, drop, replicate,
  length-replicate, length-take, length-drop, take-append_add, take-append_le, take_add, take_all,
  take-take, get_or-set, get_or-replicate, total, total-set, total-replicate,
}
use Prim.Native.Nat.{bit_and, bit_xor}
pub mod Flat
pub mod Compare
pub mod Copy
pub mod Search
pub mod Store
pub mod Undo
pub mod Insert
pub mod Write
pub mod Examples

-- One round of the loop of str2hval(). A byte from 128 on is a negative char.
unfoldable pub hash_round : (hval c : ℕ) → ℕ
hash_round hval c =
    let h = (hval * 16 + (if ltb c 128 then c else c + (2 ^ 32 - 256))) % 2 ^ 32 in
    let g = bit_and h 4026531840 in if not (g == 0) then bit_xor (bit_xor h (g / 2 ^ 24)) g else h

unfoldable pub str2hval : List ℕ → ℕ → ℕ
unfolding hash_round
str2hval [] hval = hval
str2hval (c ∷ p) hval = str2hval p (hash_round hval c)

-- dt_strhash_t: `buf` and `at` are the pointer to the bytes.
pub record Str : Type 0 where
  pub buf : ℕ
  pub at : ℕ
  pub off : ℕ
  pub len : ℕ

-- `ptr` is the offset of the current location in the last buffer.
pub record Strtab : Type 0 where
  pub hash : List (List Str)
  pub hashsz : ℕ
  pub bufs : List (List ℕ)
  pub ptr : ℕ
  pub bufsz : ℕ
  pub nstrs : ℕ
  pub size : ℕ

-- The memory that dt_strtab_grow() gets for the buffer behind the first n: `none` is that malloc or
-- realloc fails.
abbrev pub Memory : Type 0
Memory = ℕ → Option (List ℕ)

abbrev pub strbuckets : ℕ
strbuckets = 211

-- malloc of the table and of the hash buckets. `none` is NULL.
pub create : (got got_hash : Bool) → Memory → (bufsz : ℕ) → Option Strtab
create got got_hash mem bufsz = if not got || not got_hash then none else elim (mem 0) [
  | none ↦ none
  | some buf ↦ some (record {
    hash = replicate strbuckets [];
    hashsz = strbuckets;
    bufs = set buf 0 0 ∷ [];
    ptr = 1;
    bufsz = bufsz;
    nstrs = 1;
    size = 1;
  })
]

-- strncmp() of equally long pieces: whether it returns 0.
pub strncmp : List ℕ → List ℕ → Bool
strncmp [] ys = true
strncmp (x ∷ xs) [] = true
strncmp (x ∷ xs) (y ∷ ys) = (x == y) && ((x == 0) || strncmp xs ys)

-- The pointer at the end of a buffer goes to the start of the next.
abbrev pub wrap : (bufsz b at : ℕ) → ℕ × ℕ
wrap bufsz b at = if at == bufsz then (b + 1, 0) else (b, at)

-- The loop of dt_strtab_compare(), whether it returns 0, on fuel; each round takes a byte or more.
pub compare_from : (fuel bufsz : ℕ) → List (List ℕ) → (b at : ℕ) → List ℕ → Option Bool
compare_from zero bufsz bufs b at str = none
compare_from (suc fuel) bufsz bufs b at [] = some true
compare_from (suc fuel) bufsz bufs b at (c ∷ cs) =
    let str = c ∷ cs in
    let (b', at') = wrap bufsz b at in
    let n = min (bufsz - at') (length str) in
    let rest = compare_from fuel bufsz bufs b' (at' + n) (drop n str) in
    if strncmp (take n (drop at' (get_or bufs b' []))) (take n str) then rest else some false

-- With the length of the string and its NUL.
pub compare : Strtab → Str → List ℕ → Option Bool
unfolding compare_from
compare sp hp str =
    let bytes = str ++ (0 ∷ []) in
    compare_from (length bytes + 1) sp.bufsz sp.bufs hp.buf hp.at bytes

-- The search in a hash chain: the offset, and the inner `none` for -1.
pub xindex_in : Strtab → List Str → List ℕ → Option (Option ℕ)
unfolding compare
xindex_in sp [] str = some none
xindex_in sp (hp ∷ hs) str =
    let rest = xindex_in sp hs str in
    elim (compare sp hp str) [ none ↦ none | some same ↦ if same then some (some hp.off) else rest ]

pub xindex : Strtab → List ℕ → (h : ℕ) → Option (Option ℕ)
unfolding xindex_in
xindex sp str h = xindex_in sp (get_or sp.hash h []) str

abbrev pub slot : Strtab → List ℕ → ℕ
slot sp str = str2hval str (length str) % sp.hashsz

pub index : Strtab → List ℕ → Option (Option ℕ)
unfolding xindex
index sp [] = some (some 0)
index sp (c ∷ cs) = xindex sp (c ∷ cs) (slot sp (c ∷ cs))

-- memcpy() of `bytes` to an offset of a buffer.
abbrev pub memcpy : List ℕ → (at : ℕ) → List ℕ → List ℕ
memcpy buf at bytes = take at buf ++ (bytes ++ drop (at + length bytes) buf)

-- The buffers and the current location.
abbrev pub Place : Type 0
Place = List (List ℕ) × ℕ

-- One round of dt_strtab_copyin(), once the current location has room: the piece that is written.
unfoldable pub copy_piece : (bufsz : ℕ) → Place → List ℕ → Place × List ℕ
copy_piece bufsz (bufs, ptr) str =
    let b = length bufs - 1 in
    let n = min (bufsz - ptr) (length str) in
    ((set bufs b (memcpy (get_or bufs b []) ptr (take n str)), ptr + n), drop n str)

-- dt_strtab_grow() where the last buffer is full.
unfoldable pub grow_full : Memory → (bufsz : ℕ) → Place → Option Place
grow_full mem bufsz (bufs, ptr) =
    if ptr == bufsz
    then elim (mem (length bufs)) [ none ↦ none | some buf ↦ some (bufs ++ (buf ∷ []), 0) ]
    else some (bufs, ptr)

-- What the loop of dt_strtab_copyin() comes to: the buffers so far where it cannot go on.
pub data CopyResult : Type 0 where
  copied : Place → CopyResult
  failed : List (List ℕ) → CopyResult

-- The loop on fuel; each round takes a byte or more.
unfoldable pub copy_from : (fuel : ℕ) → Memory → (bufsz : ℕ) → Place → List ℕ → Option CopyResult
unfolding copy_piece grow_full
copy_from zero mem bufsz p str = none
copy_from (suc fuel) mem bufsz p [] = some (copied p)
copy_from (suc fuel) mem bufsz p (c ∷ cs) = elim (grow_full mem bufsz p) [
  | none ↦ some (failed p.0)
  | some p' ↦ let (p'', rest) = copy_piece bufsz p' (c ∷ cs) in copy_from fuel mem bufsz p'' rest
]

-- What the loop has left. The code at label err frees the buffers that are new and takes the old
-- location again.
pub copied_in : Strtab → Option CopyResult → Option (Bool × Strtab)
copied_in sp none = none
copied_in sp (some (copied p)) = some (true, record sp { bufs = p.0; ptr = p.1 })
copied_in sp (some (failed bufs)) = some (false, record sp { bufs = take (length sp.bufs) bufs })

pub copyin : Memory → Strtab → List ℕ → Option (Bool × Strtab)
copyin mem sp str = copied_in sp (copy_from (length str + 1) mem sp.bufsz (sp.bufs, sp.ptr) str)

-- What follows dt_strtab_copyin() in an insertion: the counts and the chain of slot h.
pub insert_entry : (h : ℕ) (hp : Str) → Option (Bool × Strtab) → Option (Option ℕ × Strtab)
insert_entry h hp none = none
insert_entry h hp (some (false, sp)) = some (none, sp)
insert_entry h hp (some (true, sp)) = some (
  some hp.off,
  record sp {
    nstrs = sp.nstrs + 1;
    size = sp.size + (hp.len + 1);
    hash = set sp.hash h (hp ∷ get_or sp.hash h []);
  },
)

-- What follows a search that found nothing: `got` says whether the malloc of the entry succeeds.
pub insert_new : (got : Bool) → Memory → Strtab → List ℕ → Option (Option ℕ × Strtab)
unfolding copyin
insert_new got mem sp str =
    let h = slot sp str in
    let hp : Str = record {
      buf = length sp.bufs - 1;
      at = sp.ptr;
      off = sp.size;
      len = length str;
    } in
    if not got then some (none, sp) else insert_entry h hp (copyin mem sp (str ++ (0 ∷ [])))

-- The offset, or `none` for -1; the outer `none` is that fuel ran out.
pub insert : (got : Bool) → Memory → Strtab → List ℕ → Option (Option ℕ × Strtab)
unfolding xindex insert_new
insert got mem sp [] = some (some 0, sp)
insert got mem sp (c ∷ cs) = elim (xindex sp (c ∷ cs) (slot sp (c ∷ cs))) [
  | none ↦ none
  | some (some off) ↦ some (some off, sp)
  | some none ↦ insert_new got mem sp (c ∷ cs)
]

-- dt_strtab_copystr(), and the count of bytes that it returns.
unfoldable pub copystr : (mem piece : List ℕ) → (off : ℕ) → List ℕ × ℕ
copystr mem piece off = (memcpy mem off piece, length piece)

-- The loop of dt_strtab_write() over the buffers. The function has a state of its own, and returns
-- a count of bytes, with 0 for a result that is not positive. The last buffer is written up to the
-- current location.
module _ {ℓ} {S : Type ℓ} (func : S → List ℕ → ℕ → S × ℕ) where
  pub write_from : List (List ℕ) → (ptr : ℕ) → S → (total : ℕ) → S × ℕ
  write_from [] ptr st total = (st, total)
  write_from (buf ∷ []) ptr st total =
      let r = func st (take ptr buf) total in if r.1 == 0 then (r.0, total) else (r.0, total + r.1)
  write_from (buf ∷ next ∷ bufs) ptr st total =
      let r = func st buf total in
      let rest = write_from (next ∷ bufs) ptr r.0 (total + r.1) in
      if r.1 == 0 then (r.0, total) else rest

  -- `none` is -1.
  pub write : Strtab → S → S × Option ℕ
  unfolding write_from
  write sp st =
      let r = write_from sp.bufs sp.ptr st 0 in
      (r.0, if (r.1 == 0) && not (sp.size == 0) then none else some r.1)
