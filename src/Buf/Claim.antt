-- ===== src/Buf/Claim.antt =====
-- A buffer's whole life: dt_buf_create(), writes and concatenations, dt_buf_claim().
use dtrace.Base.{
  ℕ, ◌^◌, ◌≤◌, ◌<◌, ◌≡◌, refl, sym, ap, ◌∙◌, subst, ◌≢◌, ◌⊎◌, inl, inr, Bool, true, false, Option,
  none, some, List, arith, ◌==◌, if◌then◌else◌, Bool-cases, Option-cases, length, take,
  length-replicate,
}
use dtrace.Buf.{Buf, State, zalloc, bufsize, edt_nomem, memory, contents, create, claim, concat}
use dtrace.Buf.Contents.{IsReady}
use dtrace.Buf.Write.{needs, Writes, write-Writes}
use dtrace.Buf.Series.{Call, run, end_of, AllAligned, AnyFails, Reads, Runs, run-Runs, run_sticky}
use dtrace.Buf.Series.Runs.{failed, done}

-- How a buffer's life ends: dt_errno, and the buffer before dt_buf_claim().
pub data Claims (got : Bool) (cs : List Call) : Option State → Type 0 where
  lost :
      {bp : Buf}
      → (got ≡ false) ⊎ AnyFails cs
      → bp.err ≡ edt_nomem
      → (claim bp).0 ≡ none
      → Claims got cs (some (edt_nomem, bp))
  kept :
      {errno : ℕ} {bp : Buf} (mem : List ℕ)
      → (claim bp).0 ≡ some mem
      → length mem ≡ bp.len
      → Reads cs 0 (take bp.ptr mem)
      → Claims got cs (some (errno, bp))

claim_failed : (bp : Buf) → bp.err ≡ edt_nomem → (claim bp).0 ≡ none
unfolding claim
claim_failed bp e = ground (arith, e)

claim_ready : (bp : Buf) → IsReady bp → (claim bp).0 ≡ bp.buf
unfolding claim
claim_ready bp r = ground (arith, r.no_error)

create-IsReady : (s : State) (len : ℕ) → IsReady (create true s len).1
unfolding create zalloc
create-IsReady (errno, bp) len = record {
  has_memory = λ e. cc (e);
  size = length-replicate (if len == 0 then bufsize else len) 0;
  inside = omega arith;
  positive = ground arith;
  no_error = refl;
}

create_ptr : (s : State) (len : ℕ) → (create true s len).1.ptr ≡ 0
unfolding create zalloc
create_ptr (errno, bp) len = refl

create_failed :
    (s : State) (len : ℕ)
    → ((create false s len).0 ≡ edt_nomem) × ((create false s len).1.err ≡ edt_nomem)
unfolding create zalloc
create_failed (errno, bp) len = (refl, refl)

Runs-Claims :
    (got : Bool) (cs : List Call) (bp : Buf) {o : Option State}
    → bp.ptr ≡ 0
    → Runs cs bp o
    → Claims got cs o
Runs-Claims got cs bp at (failed {bp' = bq} any e) = lost (inr any) e (claim_failed bq e)
Runs-Claims got cs bp at (done {bp' = bq} rest r same reads) = elim (Option-cases bq.buf) [
  | inl e ↦ absurd (r.has_memory e)
  | inr (mem, e) ↦
      let m : memory bq.buf ≡ mem = ap memory e in
      kept mem (claim_ready bq r ∙ e) (ap length (sym m) ∙ r.size)
        (subst (λ l. Reads cs 0 (take bq.ptr l)) m (subst (λ n. Reads cs n (contents bq)) at reads))
]

-- A buffer created with any size, on which aligned writes follow that come to at most 2^62 bytes,
-- always reaches dt_buf_claim(); it returns the memory, in which each write's bytes stand at its
-- rounded offset and the last of them ends the content, or NULL with EDT_NOMEM in the buffer and in
-- dt_errno, and then one of the mallocs failed.
pub create-Claims :
    (got : Bool) (s : State) (len : ℕ) (cs : List Call)
    → AllAligned cs
    → end_of 0 cs ≤ 2 ^ 62
    → Claims got cs (run (some (create got s len)) cs)
create-Claims true s len cs al small =
    Runs-Claims true cs (create true s len).1 (create_ptr s len) (
      run-Runs cs (create true s len).0 (create true s len).1 (create-IsReady s len) al
        (rw (create_ptr s len) small))
create-Claims false s len cs al small =
    let (e, e') = create_failed s len in
    subst (λ n. Claims false cs (run (some (n, (create false s len).1)) cs)) (sym e)
      (rw (run_sticky cs (create false s len).1 e') (lost (inl refl) e' (claim_failed _ e')))

-- How a concatenation ends.
pub data Concats (got : Bool) (errno : ℕ) (dst src : Buf) (align : ℕ) : Option State → Type 0 where
  taken :
      dst.err ≡ 0
      → src.err ≢ 0
      → Concats got errno dst src align (some (src.err, record dst { err = src.err }))
  written :
      {o : Option State}
      → (src.err ≡ 0) ⊎ (dst.err ≢ 0)
      → Writes got errno dst (contents src) align o
      → Concats got errno dst src align o

-- dt_buf_concat() onto a buffer in order, or in error, where the bytes come to at most 2^62, ends:
-- if the source alone is in error, its error is recorded in the destination and in dt_errno and
-- nothing is written; else the bytes of the source are written as dt_buf_write() does.
pub concat-Concats :
    (got : Bool) (errno : ℕ) (dst src : Buf) (align : ℕ)
    → 0 < align
    → (dst.err ≢ 0) ⊎ IsReady dst
    → needs dst (contents src) align ≤ 2 ^ 62
    → Concats got errno dst src align (concat got (errno, dst) src align)
unfolding concat
concat-Concats got errno dst src align al ready small =
    let w = write-Writes got errno dst (contents src) align al ready small in
    elim (Bool-cases (src.err == 0)) [
      | inl ok ↦ elim (Bool-cases (dst.err == 0)) [
        | inl ok' ↦ rw (ok, ok') (written (inl (ground arith)) w)
        | inr bad' ↦ rw (ok, bad') (written (inl (ground arith)) w)
      ]
      | inr bad ↦ elim (Bool-cases (dst.err == 0)) [
        | inl ok' ↦ rw (bad, ok') (taken (ground arith) (ground arith))
        | inr bad' ↦ rw (bad, bad') (written (inr (ground arith)) w)
      ]
    ]
