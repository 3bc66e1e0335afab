-- ===== src/Buf/Contents.antt =====
-- What copying into the memory of a buffer does to the bytes written so far.
use dtrace.Base.{
  ℕ, ◌+◌, ◌≤◌, ◌<◌, ◌≡◌, ap, ◌∙◌, ◌≢◌, none, List, ◌++◌, arith, length, length-append, take, drop,
  replicate, length-replicate, length-take, length-drop, take-append_add, take-append_le, take_add,
  take_all,
}
use mathlib.Core.List.{append_assoc}
use dtrace.Buf.{Buf, splice, memory, contents, put, resized}

-- A buffer with memory of the stated size, and the current location inside it.
pub record IsReady (bp : Buf) : Type 0 where
  pub has_memory : bp.buf ≢ none
  pub size : length (memory bp.buf) ≡ bp.len
  pub inside : bp.ptr ≤ bp.len
  pub positive : 0 < bp.len
  pub no_error : bp.err ≡ 0

pub take-splice :
    (mem : List ℕ) (off : ℕ) (bytes : List ℕ)
    → off ≤ length mem
    → take (off + length bytes) (splice mem off bytes) ≡ take off mem ++ bytes
take-splice mem off bytes h =
    let e : off + length bytes ≡ length (take off mem) + length bytes =
      omega (arith, length-take off mem) in
    rw e (
      take-append_add (take off mem) _ (length bytes)
      ∙ ap (λ l. take off mem ++ l)
          (take-append_le (length bytes) bytes _ (omega arith)
            ∙ take_all (length bytes) bytes (omega arith)))

pub length-splice :
    (mem : List ℕ) (off : ℕ) (bytes : List ℕ)
    → off + length bytes ≤ length mem
    → length (splice mem off bytes) ≡ length mem
length-splice mem off bytes h = omega (
  arith,
  length-append (take off mem) (bytes ++ drop (off + length bytes) mem),
  length-append bytes (drop (off + length bytes) mem),
  length-take off mem,
  length-drop (off + length bytes) mem,
)

-- The bytes so far stay, padding from what the memory held comes next, and then the new bytes.
pub contents-put :
    (bp : Buf) (adj : ℕ) (bytes : List ℕ)
    → bp.ptr + adj ≤ length (memory bp.buf)
    → contents (put bp (memory bp.buf) adj bytes)
      ≡ contents bp ++ (take adj (drop bp.ptr (memory bp.buf)) ++ bytes)
unfolding put
contents-put bp adj bytes h =
    take-splice (memory bp.buf) (bp.ptr + adj) bytes h
    ∙ ap (λ l. l ++ bytes) (take_add bp.ptr adj (memory bp.buf))
    ∙ append_assoc (take bp.ptr (memory bp.buf)) _ bytes

pub put-IsReady :
    (bp : Buf) (adj : ℕ) (bytes : List ℕ)
    → IsReady bp
    → bp.ptr + adj + length bytes ≤ bp.len
    → IsReady (put bp (memory bp.buf) adj bytes)
unfolding put
put-IsReady bp adj bytes r h = record {
  has_memory = λ e. cc (e);
  size = length-splice (memory bp.buf) (bp.ptr + adj) bytes (omega (arith, r.size)) ∙ r.size;
  inside = h;
  positive = r.positive;
  no_error = r.no_error;
}

-- Resizing keeps the bytes so far.
pub contents-resized :
    (bp : Buf) (new_len r : ℕ) → IsReady bp → contents (resized bp new_len r) ≡ contents bp
unfolding resized
contents-resized bp new_len r ready =
    let part = take bp.ptr (memory bp.buf) in
    let e : bp.ptr ≡ 0 + length part =
      omega (arith, length-take bp.ptr (memory bp.buf), ready.size, ready.inside) in
    ap (λ n. take n (splice (replicate new_len 0) 0 part)) e
    ∙ take-splice (replicate new_len 0) 0 part (omega arith)

pub resized-IsReady :
    (bp : Buf) (new_len r : ℕ) → IsReady bp → bp.len ≤ new_len → IsReady (resized bp new_len r)
unfolding resized
resized-IsReady bp new_len r ready h = record {
  has_memory = λ e. cc (e);
  size =
      length-splice (replicate new_len 0) 0 (take bp.ptr (memory bp.buf)) (
        omega (
          arith,
          length-replicate {A = ℕ} new_len 0,
          length-take bp.ptr (memory bp.buf),
          ready.inside,
        ))
      ∙ length-replicate new_len 0;
  inside = omega (arith, ready.inside);
  positive = omega (arith, ready.positive);
  no_error = ready.no_error;
}
