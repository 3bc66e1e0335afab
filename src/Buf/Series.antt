-- ===== src/Buf/Series.antt =====
-- A buffer from its creation over any writes to dt_buf_claim(), as the code generators use it.
use dtrace.Base.{
  ℕ, zero, suc, ◌+◌, ◌^◌, ◌≤◌, ◌<◌, ◌≡◌, refl, sym, ap, ◌∙◌, subst, ◌⊎◌, inl, inr, Bool, false,
  Option, none, some, List, [], ◌∷◌, ◌++◌, arith, ◌==◌, length, length-append, take, drop,
  length-take, take-append_le, take_all,
}
use mathlib.Core.List.{append_assoc, append-nil}
use dtrace.Buf.{Buf, State, roundup, edt_nomem, memory, contents, write}
use dtrace.Buf.Contents.{IsReady}
use dtrace.Buf.Write.{needs, roundup_bounds, Writes, write-Writes}
use dtrace.Buf.Write.Writes.{sticky, no_memory, wrote}

-- One call of dt_buf_write(), and whether its malloc, if it makes one, succeeds.
pub record Call : Type 0 where
  pub got : Bool
  pub bytes : List ℕ
  pub align : ℕ

pub run : Option State → List Call → Option State
run o [] = o
run none (c ∷ cs) = none
run (some s) (c ∷ cs) = run (write c.got s c.bytes c.align) cs

-- Where the writes end, from the offset `at`.
unfoldable pub end_of : ℕ → List Call → ℕ
end_of at [] = at
end_of at (c ∷ cs) = end_of (roundup at c.align + length c.bytes) cs

abbrev pub AllAligned : List Call → Type 0
AllAligned [] = Unit {0}
AllAligned (c ∷ cs) = (0 < c.align) × AllAligned cs

abbrev pub AnyFails : List Call → Type 0
AnyFails [] = ⊥
AnyFails (c ∷ cs) = (c.got ≡ false) ⊎ AnyFails cs

-- Each write's bytes stand in the memory at the offset where its call began, rounded up.
abbrev pub Reads : List Call → ℕ → List ℕ → Type 0
Reads [] at mem = length mem ≡ at
Reads (c ∷ cs) at mem =
    (take (length c.bytes) (drop (roundup at c.align) mem) ≡ c.bytes)
    × Reads cs (roundup at c.align + length c.bytes) mem

le-end_of : (at : ℕ) (cs : List Call) → AllAligned cs → at ≤ end_of at cs
unfolding end_of
le-end_of at [] al = omega arith
le-end_of at (c ∷ cs) (al, als) =
    let (low, high) = roundup_bounds at c.align al in
    omega (arith, le-end_of (roundup at c.align + length c.bytes) cs als)

drop-append : (xs ys : List ℕ) (n : ℕ) → length xs ≡ n → drop n (xs ++ ys) ≡ ys
drop-append [] ys zero e = refl
drop-append [] ys (suc n) e = absurd (omega (arith, e))
drop-append (x ∷ xs) ys zero e = absurd (omega (arith, e))
drop-append (x ∷ xs) ys (suc n) e = drop-append xs ys n (omega (arith, e))

-- Bytes between two others are read back.
read_middle :
    (pre bytes post : List ℕ) (n : ℕ)
    → length pre ≡ n
    → take (length bytes) (drop n (pre ++ (bytes ++ post))) ≡ bytes
read_middle pre bytes post n e =
    ap (λ l. take (length bytes) l) (drop-append pre (bytes ++ post) n e)
    ∙ take-append_le (length bytes) bytes post (omega arith)
    ∙ take_all (length bytes) bytes (omega arith)

-- How a series of writes on a buffer in order ends.
pub data Runs (cs : List Call) (bp : Buf) : Option State → Type 0 where
  failed : {bp' : Buf} → AnyFails cs → bp'.err ≡ edt_nomem → Runs cs bp (some (edt_nomem, bp'))
  done :
      {errno : ℕ} {bp' : Buf} (rest : List ℕ)
      → IsReady bp'
      → contents bp' ≡ contents bp ++ rest
      → Reads cs bp.ptr (contents bp')
      → Runs cs bp (some (errno, bp'))

pub run_sticky :
    (cs : List Call) (bp : Buf)
    → bp.err ≡ edt_nomem
    → run (some (edt_nomem, bp)) cs ≡ some (edt_nomem, bp)
unfolding run write
run_sticky [] bp e = refl
run_sticky (c ∷ cs) bp e =
    let bad : (bp.err == 0) ≡ false = ground (arith, e) in
    rw bad (ap (λ n. run (some (n, bp)) cs) e ∙ run_sticky cs bp e)

length-contents : (bp : Buf) → IsReady bp → length (contents bp) ≡ bp.ptr
length-contents bp r = omega (arith, length-take bp.ptr (memory bp.buf), r.size, r.inside)

module _ (errno : ℕ) (bp : Buf) (c : Call) (cs : List Call) (ready : IsReady bp)
    (later : (bp' : Buf)
      → IsReady bp'
      → bp'.ptr ≡ needs bp c.bytes c.align
      → Runs cs bp' (run (some (errno, bp')) cs)) where
  -- One more call in front of a series.
  more :
      {bp' : Buf} (padding : List ℕ) {o : Option State}
      → bp.ptr + length padding ≡ roundup bp.ptr c.align
      → contents bp' ≡ contents bp ++ (padding ++ c.bytes)
      → bp'.ptr ≡ needs bp c.bytes c.align
      → Runs cs bp' o
      → Runs (c ∷ cs) bp o
  more padding pad same at (failed any e) = failed (inr any) e
  more padding pad same at (done {bp' = bq} rest r same' reads) =
      let flat : contents bq ≡ (contents bp ++ padding) ++ (c.bytes ++ rest) =
        simp (same', same, append_assoc) in
      let start : length (contents bp ++ padding) ≡ roundup bp.ptr c.align =
        omega (arith, length-append (contents bp) padding, length-contents bp ready) in
      done (padding ++ (c.bytes ++ rest)) r (simp (same', same, append_assoc)) (
        rw flat (read_middle (contents bp ++ padding) c.bytes rest (roundup bp.ptr c.align) start),
        subst (λ n. Reads cs n (contents bq)) at reads,
      )

  step-Runs :
      {o : Option State} → Writes c.got errno bp c.bytes c.align o → Runs (c ∷ cs) bp (run o cs)
  step-Runs (sticky bad) = absurd (bad ready.no_error)
  step-Runs (no_memory no_ short) =
      let bq : Buf = record bp { err = edt_nomem } in
      rw (run_sticky cs bq refl) (failed (inl no_) refl)
  step-Runs (wrote {bp' = bp'} padding r pad same at longer had) =
      more padding pad same at (later bp' r at)

pub run-Runs :
    (cs : List Call) (errno : ℕ) (bp : Buf)
    → IsReady bp
    → AllAligned cs
    → end_of bp.ptr cs ≤ 2 ^ 62
    → Runs cs bp (run (some (errno, bp)) cs)
unfolding run end_of
run-Runs [] errno bp ready al small =
    done [] ready (sym (append-nil (contents bp))) (length-contents bp ready)
run-Runs (c ∷ cs) errno bp ready (al, als) small =
    step-Runs errno bp c cs ready (λ bp' r e. run-Runs cs errno bp' r als (rw e small))
      (write-Writes c.got errno bp c.bytes c.align al (inr ready)
        (omega (arith, le-end_of (needs bp c.bytes c.align) cs als)))
