-- ===== src/Buf.antt =====
-- The resizing memory buffers of libdtrace/dt_buf.c.
-- The memory of a buffer is a list of bytes, or `none` for NULL, and the current location is an
-- offset into it. dt_errno of the handle is passed through. `got` says whether malloc succeeds.
-- The name, which only a debug message uses, is left out.
use dtrace.Base.{
  ℕ, zero, suc, ◌+◌, ◌-◌, ◌*◌, ◌/◌, ◌%◌, ◌^◌, ◌≤◌, ◌<◌, min, max, ◌≡◌, refl, sym, ap, ◌∙◌, fun_ext,
  subst, ◌≢◌, ◌↔◌, ◌⊎◌, inl, inr, Bool, true, false, not, ◌&&◌, ◌||◌, Option, none, some, List, [],
  ◌∷◌, ◌++◌, map, arith, ltb, leb, ◌==◌, if◌then◌else◌, Bool-cases, Option-cases, ==_iff, ltb→lt,
  lt→ltb, leb→le, length, get_elem?, set, length-append, length-set, get_or, take, drop, replicate,
  length-replicate, length-take, length-drop, take-append_add, take-append_le, take_add, take_all,
  take-take, get_or-set, get_or-replicate, total, total-set, total-replicate,
}
pub mod Contents
pub mod Write
pub mod Series
pub mod Claim
pub mod Examples

pub record Buf : Type 0 where
  pub buf : Option (List ℕ)
  pub ptr : ℕ
  pub len : ℕ
  pub err : ℕ
  pub resizes : ℕ

-- The handle's dt_errno, and the buffer.
abbrev pub State : Type 0
State = ℕ × Buf

abbrev pub bufsize : ℕ
bufsize = 512

abbrev pub edt_nomem : ℕ
edt_nomem = 1008

abbrev pub size_mod : ℕ
size_mod = 2 ^ 64

-- roundup() of sys/param.h.
abbrev pub roundup : ℕ → ℕ → ℕ
roundup x y = (x + (y - 1)) / y * y

-- The memory and dt_errno.
pub zalloc : (got : Bool) → ℕ → ℕ → ℕ × Option (List ℕ)
zalloc got errno size = if got then (errno, some (replicate size 0)) else (edt_nomem, none)

pub create : (got : Bool) → State → ℕ → State
create got (errno, bp) len =
    let len' = if len == 0 then bufsize else len in
    let (errno', mem) = zalloc got errno len' in
    (
      errno',
      record {
        buf = mem;
        ptr = 0;
        len = len';
        err = elim mem [ none ↦ errno' | some m ↦ 0 ];
        resizes = 0;
      },
    )

pub reset : (got : Bool) → State → State
reset got (errno, bp) = elim bp.buf [
  | some mem ↦ (errno, record bp { ptr = 0; err = 0 })
  | none ↦ create got (errno, record bp { ptr = 0 }) bp.len
]

-- The loop that doubles the size until `need` bytes fit; `none` is that the fuel ran out.
pub grow_len : ℕ → (need new_len r : ℕ) → Option (ℕ × ℕ)
grow_len zero need new_len r = none
grow_len (suc fuel) need new_len r =
    let more = grow_len fuel need (new_len * 2 % size_mod) (r + 1) in
    if ltb new_len need then more else some (new_len, r)

-- memcpy() of `bytes` to offset `off` of the memory.
abbrev pub splice : List ℕ → ℕ → List ℕ → List ℕ
splice mem off bytes = take off mem ++ (bytes ++ drop (off + length bytes) mem)

-- What follows the resizing: skip the padding and copy.
pub put : Buf → List ℕ → (adj : ℕ) → List ℕ → Buf
put bp mem adj bytes = record bp {
  buf = some (splice mem (bp.ptr + adj) bytes);
  ptr = bp.ptr + adj + length bytes;
}

-- The memory that the buffer has, and nothing for NULL.
abbrev pub memory : Option (List ℕ) → List ℕ
memory none = []
memory (some mem) = mem

-- The new buffer of the resized length, with the bytes so far copied.
pub resized : Buf → (new_len r : ℕ) → Buf
resized bp new_len r = record bp {
  buf = some (splice (replicate new_len 0) 0 (take bp.ptr (memory bp.buf)));
  len = new_len;
  resizes = bp.resizes + r;
}

-- Once the doubling has given a size: allocate it, move the bytes and write; `none` is that the
-- doubling did not end.
pub write_grown : (got : Bool) → State → (adj : ℕ) → List ℕ → Option (ℕ × ℕ) → Option State
write_grown got (errno, bp) adj bytes none = none
write_grown got (errno, bp) adj bytes (some (new_len, r)) =
    let bp' = resized bp new_len r in
    if got
    then some (errno, put bp' (memory bp'.buf) adj bytes)
    else some (edt_nomem, record bp { err = edt_nomem })

-- `none` is that the doubling did not end within 64 rounds.
pub write : (got : Bool) → State → List ℕ → (align : ℕ) → Option State
write got (errno, bp) bytes align =
    let off = bp.ptr in
    let adj = roundup off align - off in
    let need = off + adj + length bytes in
    if not (bp.err == 0)
    then some (bp.err, bp)
    else if ltb bp.len need
    then write_grown got (errno, bp) adj bytes (grow_len 64 need (bp.len * 2 % size_mod) 1)
    else some (errno, put bp (memory bp.buf) adj bytes)

-- The bytes written so far.
abbrev pub contents : Buf → List ℕ
contents bp = take bp.ptr (memory bp.buf)

pub concat : (got : Bool) → State → Buf → (align : ℕ) → Option State
concat got (errno, dst) src align =
    if (dst.err == 0) && not (src.err == 0)
    then some (src.err, record dst { err = src.err })
    else write got (errno, dst) (contents src) align

pub offset : Buf → ℕ → ℕ
offset bp align = roundup bp.ptr align

pub buf_len : Buf → ℕ
buf_len bp = bp.ptr

pub error : Buf → ℕ
error bp = bp.err

pub claim : Buf → Option (List ℕ) × Buf
claim bp = (if bp.err == 0 then bp.buf else none, record bp { buf = none; ptr = 0; len = 0 })
