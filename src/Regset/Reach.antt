-- ===== src/Regset/Reach.antt =====
-- The states that a code generator can reach from a new register set.
use dtrace.Base.{
  ℕ, zero, suc, ◌+◌, ◌-◌, ◌≡◌, refl, inl, inr, Bool, true, false, none, some, Option-cases,
}
use dtrace.Regset.{
  Regset, Bitmap, Checked, ◌>>=◌, create, alloc, xalloc, free, free_below, xalloc_args_from,
  xalloc_args, free_args_from, free_args, restart, reset, some, ℕ, Bool,
}
use dtrace.Regset.Spill.{IsSound, Ensures, alloc-IsSound, xalloc-IsSound, free-IsSound}

bind-IsSound :
    (m : Checked Regset) (k : Regset → Checked Regset)
    → Ensures IsSound m
    → ((s : Regset) → IsSound s → Ensures IsSound (k s))
    → Ensures IsSound (m >>= k)
bind-IsSound none k h next = tt
bind-IsSound (some s) k h next = next s h

free_below-IsSound : (n : ℕ) (r : Regset) → IsSound r → Ensures IsSound (free_below n r)
unfolding free_below
free_below-IsSound zero r s = s
free_below-IsSound (suc n) r s =
    bind-IsSound (free r (suc n)) (free_below n) (free-IsSound r (suc n) s) (free_below-IsSound n)

free_args_from-IsSound :
    (left reg : ℕ) (r : Regset) → IsSound r → Ensures IsSound (free_args_from left reg r)
unfolding free_args_from
free_args_from-IsSound zero reg r s = s
free_args_from-IsSound (suc left) reg r s =
    bind-IsSound (free r reg) (free_args_from left (reg + 1)) (free-IsSound r reg s)
      (free_args_from-IsSound left (reg + 1))

abbrev SoundPair : Checked (Bool × Regset) → Type 0
SoundPair = Ensures (λ q. IsSound q.1)

undone-IsSound : (m : Checked Regset) → Ensures IsSound m → SoundPair (m >>= λ s. some (false, s))
undone-IsSound none h = tt
undone-IsSound (some s) h = h

xalloc_args_from-IsSound :
    (left reg : ℕ) (r : Regset) → IsSound r → SoundPair (xalloc_args_from left reg r)
unfolding xalloc_args_from
xalloc_args_from-IsSound zero reg r s = s
xalloc_args_from-IsSound (suc left) reg r s = elim (Option-cases (xalloc r reg)) [
  | inl e ↦ rw e tt
  | inr ((true, d), e) ↦
      rw e (xalloc_args_from-IsSound left (reg + 1) d (rw e at (xalloc-IsSound r reg s)))
  | inr ((false, d), e) ↦ rw e (
      undone-IsSound (free_below (reg - 1) d)
        (free_below-IsSound (reg - 1) d (rw e at (xalloc-IsSound r reg s))))
]

-- One call of an operation that returns; dt_regset_reset() is called by dt_cg() only, which starts
-- new code with it.
pub data Step (r : Regset) : Regset → Type 0 where
  by_alloc : Step r (alloc r).1
  by_xalloc : (reg : ℕ) {got : Bool} {s : Regset} → xalloc r reg ≡ some (got, s) → Step r s
  by_free : (reg : ℕ) {s : Regset} → free r reg ≡ some s → Step r s
  by_xalloc_args : {got : Bool} {s : Regset} → xalloc_args r ≡ some (got, s) → Step r s
  by_free_args : {s : Regset} → free_args r ≡ some s → Step r s
  by_restart : Step r (restart r)

pub data Reach (r : Regset) : Regset → Type 0 where
  here : Reach r r
  next : {s t : Regset} → Reach r s → Step s t → Reach r t

Step-IsSound : {r s : Regset} → IsSound r → Step r s → IsSound s
unfolding xalloc_args free_args restart reset
Step-IsSound {r} sound by_alloc = alloc-IsSound r sound
Step-IsSound {r} sound (by_xalloc reg e) = rw e at (xalloc-IsSound r reg sound)
Step-IsSound {r} sound (by_free reg e) = rw e at (free-IsSound r reg sound)
Step-IsSound {r} sound (by_xalloc_args e) = rw e at (xalloc_args_from-IsSound 5 1 r sound)
Step-IsSound {r} sound (by_free_args e) = rw e at (free_args_from-IsSound 5 1 r sound)
Step-IsSound {r} sound by_restart = record { covered = λ i e. cc; mirrored = refl; orderly = tt }

Reach_keeps : {r s : Regset} → IsSound r → Reach r s → IsSound s
Reach_keeps sound here = sound
Reach_keeps sound (next r st) = Step-IsSound (Reach_keeps sound r) st

create-IsSound :
    (got got_active got_spilled : Bool) (m n : Bitmap) (size : ℕ)
    → Ensures IsSound (create got got_active got_spilled m n size)
unfolding create
create-IsSound false a b m n size = tt
create-IsSound true false b m n size = tt
create-IsSound true true false m n size = tt
create-IsSound true true true m n size = record {
  covered = λ i e. cc;
  mirrored = refl;
  orderly = tt;
}

-- After any calls of the register allocator on a new register set, where dt_regset_reset() comes
-- with a new list of instructions as in dt_cg(), a spilled register is active, the spill slots that
-- the stores and loads in that list leave full are those of the spilled registers, no store went to
-- a full slot and no load read an empty one.
pub Reach-IsSound :
    (m n : Bitmap) (size : ℕ) {r s : Regset}
    → create true true true m n size ≡ some r
    → Reach r s
    → IsSound s
Reach-IsSound m n size e run = Reach_keeps (rw e at (create-IsSound true true true m n size)) run
