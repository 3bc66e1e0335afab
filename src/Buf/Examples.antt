-- ===== src/Buf/Examples.antt =====
-- Tests of the buffers, and the theorems at concrete inputs.
use dtrace.Base.{ℕ, ◌≡◌, refl, inr, true, false, none, some, List, [], ◌∷◌, arith}
use mathlib.Core.Option
use dtrace.Buf.{Buf, State, create, write, write_grown, grow_len, put, resized, contents, edt_nomem}
use dtrace.Buf.Contents.{IsReady}
use dtrace.Buf.Write.{Writes, write-Writes}
use dtrace.Buf.Series.{Call, run, end_of}
use dtrace.Buf.Claim.{Claims, create-Claims}

abbrev empty : Buf
empty = record { buf = none; ptr = 0; len = 0; err = 0; resizes = 0 }

abbrev three : Buf
three = record { buf = some (7 ∷ 8 ∷ 9 ∷ 0 ∷ []); ptr = 3; len = 4; err = 0; resizes = 0 }

three-IsReady : IsReady three
three-IsReady = record {
  has_memory = λ e. cc (e);
  size = refl;
  inside = omega arith;
  positive = omega arith;
  no_error = refl;
}

-- Five bytes at an alignment of four do not fit: the size goes from 4 to 16 in two doublings.
abbrev view : State → List ℕ × ℕ × ℕ
view (errno, bp) = (contents bp, bp.len, bp.resizes)

write_grows :
    Option.map view (write true (0, three) (1 ∷ 2 ∷ 3 ∷ 4 ∷ 5 ∷ []) 4)
    ≡ some (7 ∷ 8 ∷ 9 ∷ 0 ∷ 1 ∷ 2 ∷ 3 ∷ 4 ∷ 5 ∷ [], 16, 2)
unfolding write write_grown grow_len put resized
write_grows = refl

write-Writes_example :
    Writes true 0 three
      (1 ∷ 2 ∷ 3 ∷ 4 ∷ 5 ∷ [])
      4
      (write true (0, three) (1 ∷ 2 ∷ 3 ∷ 4 ∷ 5 ∷ []) 4)
write-Writes_example =
    write-Writes true 0 three (1 ∷ 2 ∷ 3 ∷ 4 ∷ 5 ∷ []) 4 (omega arith) (inr three-IsReady)
      (omega arith)

abbrev calls : List Call
calls =
    record { got = true; bytes = 1 ∷ 2 ∷ 3 ∷ []; align = 1 }
    ∷ record { got = true; bytes = 4 ∷ 5 ∷ []; align = 8 }
    ∷ record { got = false; bytes = 6 ∷ []; align = 4 }
    ∷ []

create-Claims_example : Claims true calls (run (some (create true (0, empty) 4)) calls)
create-Claims_example =
    create-Claims true (0, empty) 4 calls (omega arith, (omega arith, (omega arith, tt)))
      (unfold end_of in omega arith)

abbrev broken : Buf
broken = record empty { err = edt_nomem }
