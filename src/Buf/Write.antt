-- ===== src/Buf/Write.antt =====
-- One write: where the bytes go, and how the buffer grows.
use dtrace.Base.{
  ℕ, zero, suc, ◌+◌, ◌-◌, ◌*◌, ◌%◌, ◌^◌, ◌≤◌, ◌<◌, ◌≡◌, refl, ap, ◌∙◌, ◌≢◌, ◌⊎◌, inl, inr, Bool,
  true, false, Option, some, List, ◌++◌, arith, ltb, ◌==◌, Bool-cases, ltb→lt, lt→ltb, length, take,
  drop, length-take, length-drop,
}
use native.Mathlib.Nat.{mul_assoc, div-add-mod', mod-lt, pow-suc, mul_assoc}
use dtrace.Buf.{
  Buf, State, roundup, size_mod, edt_nomem, grow_len, memory, contents, put, resized, write,
  write_grown,
}
use dtrace.Buf.Contents.{IsReady, contents-put, put-IsReady, contents-resized, resized-IsReady}

pub roundup_bounds : (x y : ℕ) → 0 < y → (x ≤ roundup x y) × (roundup x y < x + y)
roundup_bounds x y h =
    let z = x + (y - 1) in
    let whole = div-add-mod' z y in
    let part = mod-lt z h in (omega (arith, whole, part), omega (arith, whole, part))

-- The doubling ends, does not wrap, and gives room.
grow_len_more :
    (fuel need n r : ℕ)
    → n < need
    → need ≤ 2 ^ 63
    → grow_len (suc fuel) need n r ≡ grow_len fuel need (n * 2) (r + 1)
unfolding grow_len
grow_len_more fuel need n r short small =
    let e : n * 2 % size_mod ≡ n * 2 = omega arith in
    rw (lt→ltb n need short) (ap (λ m. grow_len fuel need m (r + 1)) e)

grow_len_done : (fuel need n r : ℕ) → need ≤ n → grow_len (suc fuel) need n r ≡ some (n, r)
unfolding grow_len
grow_len_done fuel need n r enough = ground arith

grow_len_fits :
    (fuel need n r : ℕ)
    → 0 < n
    → need ≤ 2 ^ 63
    → need ≤ n * 2 ^ fuel
    → (m : ℕ) × (k : ℕ) × (grow_len (suc fuel) need n r ≡ some (m, k)) × (need ≤ m) × (n ≤ m)
grow_len_fits zero need n r pos small fits =
    (n, r, grow_len_done 0 need n r (omega arith), omega arith, omega arith)
grow_len_fits (suc fuel) need n r pos small fits = elim (Bool-cases (ltb n need)) [
  | inr enough ↦ (n, r, grow_len_done (suc fuel) need n r (ground arith), ground arith, omega arith)
  | inl short ↦
      let below = ltb→lt n need short in
      let fits' : need ≤ n * 2 * 2 ^ fuel =
        omega (arith, ap (λ (k : ℕ). n * k) (pow-suc 2 fuel), mul_assoc n 2 (2 ^ fuel)) in
      let (m, k, run, big, more) =
        grow_len_fits fuel need (n * 2) (r + 1) (omega arith) small fits' in
      (m, k, grow_len_more (suc fuel) need n r below small ∙ run, big, omega arith)
]

-- The bytes that a write makes the buffer hold.
abbrev pub needs : Buf → List ℕ → ℕ → ℕ
needs bp bytes align = roundup bp.ptr align + length bytes

-- The three ways in which a write ends.
pub data Writes (got : Bool) (errno : ℕ) (bp : Buf) (bytes : List ℕ) (align : ℕ)
    : Option State → Type 0 where
  sticky : bp.err ≢ 0 → Writes got errno bp bytes align (some (bp.err, bp))
  no_memory :
      got ≡ false
      → bp.len < needs bp bytes align
      → Writes got errno bp bytes align (some (edt_nomem, record bp { err = edt_nomem }))
  wrote :
      {bp' : Buf} (padding : List ℕ)
      → IsReady bp'
      → bp.ptr + length padding ≡ roundup bp.ptr align
      → contents bp' ≡ contents bp ++ (padding ++ bytes)
      → bp'.ptr ≡ needs bp bytes align
      → bp.len ≤ bp'.len
      → (got ≡ true) ⊎ (needs bp bytes align ≤ bp.len)
      → Writes got errno bp bytes align (some (errno, bp'))

module _ (got : Bool) (errno : ℕ) (bp : Buf) (bytes : List ℕ) (align : ℕ)
    (aligned : 0 < align) where
  -- What a buffer with room becomes.
  put-Writes :
      (room : Buf)
      → IsReady room
      → contents room ≡ contents bp
      → room.ptr ≡ bp.ptr
      → bp.len ≤ room.len
      → needs bp bytes align ≤ room.len
      → (got ≡ true) ⊎ (needs bp bytes align ≤ bp.len)
      → Writes got errno bp bytes align
          (some (errno, put room (memory room.buf) (roundup bp.ptr align - bp.ptr) bytes))
  unfolding put
  put-Writes room ready same at longer fits had =
      let a = roundup bp.ptr align - bp.ptr in
      let (low, high) = roundup_bounds bp.ptr align aligned in
      wrote (take a (drop room.ptr (memory room.buf)))
        (put-IsReady room a bytes ready (omega (arith, at)))
        (omega (
          arith,
          at,
          length-take a (drop room.ptr (memory room.buf)),
          length-drop room.ptr (memory room.buf),
          ready.size,
        ))
        (contents-put room a bytes (omega (arith, at, ready.size))
          ∙ ap (λ l. l ++ (take a (drop room.ptr (memory room.buf)) ++ bytes)) same)
        (omega (arith, at)) longer had

  -- What a buffer without room becomes, once the doubling has given a size.
  write_grown-Writes :
      IsReady bp
      → bp.len < needs bp bytes align
      → (m k : ℕ) → needs bp bytes align ≤ m
      → bp.len ≤ m
      → (ok : Bool) → got ≡ ok
      → Writes got errno bp bytes align
          (write_grown ok (errno, bp) (roundup bp.ptr align - bp.ptr) bytes (some (m, k)))
  unfolding write_grown resized
  write_grown-Writes ready below m k big longer true e =
      put-Writes (resized bp m k) (resized-IsReady bp m k ready longer)
        (contents-resized bp m k ready) refl longer big (inl e)
  write_grown-Writes ready below m k big longer false e = no_memory e below

  -- dt_buf_write() with an alignment on a buffer in order, or in error, where the bytes come to at
  -- most 2^62, ends: in error it changes nothing and passes the error on; where a resize is needed
  -- and malloc fails it records EDT_NOMEM and keeps the buffer; else the bytes so far are followed
  -- by padding up to the alignment and by the new bytes, in a buffer in order and no shorter.
  pub write-Writes :
      (bp.err ≢ 0) ⊎ IsReady bp
      → needs bp bytes align ≤ 2 ^ 62
      → Writes got errno bp bytes align (write got (errno, bp) bytes align)
  unfolding write
  write-Writes (inl bad) small = let e : (bp.err == 0) ≡ false = ground arith in rw e (sticky bad)
  write-Writes (inr ready) small =
      let (low, high) = roundup_bounds bp.ptr align aligned in
      let all : bp.ptr + (roundup bp.ptr align - bp.ptr) + length bytes ≡ needs bp bytes align =
        omega arith in
      let ok : (bp.err == 0) ≡ true = ground (arith, ready.no_error) in
      elim (Bool-cases (ltb bp.len (needs bp bytes align))) [
        | inr room ↦
            let fits : needs bp bytes align ≤ bp.len = ground arith in
            rw (ok, all, room) (put-Writes bp ready refl refl (omega arith) fits (inr fits))
        | inl short ↦
            let below = ltb→lt _ _ short in
            let more : bp.len * 2 % size_mod ≡ bp.len * 2 = omega arith in
            let (m, k, run, big, longer) =
              grow_len_fits 63 (needs bp bytes align) (bp.len * 2) 1 (omega (arith, ready.positive))
                (omega arith) (omega (arith, ready.positive)) in
            rw (ok, all, short, more, run)
              (write_grown-Writes ready below m k big (omega arith) got refl)
      ]
