-- ===== src/Regset.antt =====
-- The register allocator of the code generator, libdtrace/dt_regset.c.
-- A bitmap is the function that BT_TEST computes; BT_SET and BT_CLEAR write it at one index. The
-- calls of the two spill functions, which emit code, are recorded in `trace`, the latest first.
use dtrace.Base.{
  ℕ, zero, suc, ◌+◌, ◌-◌, ◌*◌, ◌/◌, ◌%◌, ◌^◌, ◌≤◌, ◌<◌, min, max, ◌≡◌, refl, sym, ap, ◌∙◌, fun_ext,
  subst, ◌≢◌, ◌↔◌, ◌⊎◌, inl, inr, Bool, true, false, not, ◌&&◌, ◌||◌, Option, none, some, List, [],
  ◌∷◌, ◌++◌, map, arith, ltb, leb, ◌==◌, if◌then◌else◌, Bool-cases, Option-cases, ==_iff, ltb→lt,
  lt→ltb, leb→le, length, get_elem?, set, length-append, length-set, get_or, take, drop, replicate,
  length-replicate, length-take, length-drop, take-append_add, take-append_le, take_add, take_all,
  take-take, get_or-set, get_or-replicate, total, total-set, total-replicate,
}
pub mod Alloc
pub mod Free
pub mod Spill
pub mod Args
pub mod Reach
pub mod Examples

pub data SpillCall : Type 0 where
  spill_store : ℕ → SpillCall
  spill_load : ℕ → SpillCall

abbrev pub Bitmap : Type 0
Bitmap = ℕ → Bool

-- BT_SET and BT_CLEAR.
abbrev pub put_bit : Bitmap → ℕ → Bool → Bitmap
put_bit m i b j = if i == j then b else m j

pub record Regset : Type 0 where
  pub size : ℕ
  pub active : Bitmap
  pub spilled : Bitmap
  pub trace : List SpillCall

-- `none` is a failed assert.
abbrev pub Checked : Type 0 → Type 0
Checked A = Option A

infixl 5 ◌>>=◌
abbrev pub ◌>>=◌ : {A B : Type 0} → Checked A → (A → Checked B) → Checked B
none >>= k = none
some a >>= k = k a

pub reset : Regset → Regset
reset r = record r { active = λ _. false; spilled = λ _. false }

-- What dt_cg() does before it generates code: it resets the set and starts a new list of
-- instructions, in which no call of the spill functions has put any yet.
pub restart : Regset → Regset
unfolding reset
restart r = record (reset r) { trace = [] }

-- Whether each of the three calls of malloc succeeds, and what the memory of the bitmaps held. One
-- register is added for %r0.
pub create :
    (got got_active got_spilled : Bool) (old_active old_spilled : Bitmap) → ℕ → Option Regset
unfolding reset
create got got_active got_spilled old_active old_spilled size =
    let drp : Regset = record {
      size = (size + 1) % 2 ^ 64;
      active = old_active;
      spilled = old_spilled;
      trace = [];
    } in
    if not got then none else if not got_active || not got_spilled then none else some (reset drp)

-- `for (reg = n; reg > 0; reg--) if (BT_TEST(m, reg) == 0) …`: the first register that passes.
pub find_clear : Bitmap → ℕ → Option ℕ
find_clear m zero = none
find_clear m (suc n) = if m (suc n) then find_clear m n else some (suc n)

-- The second loop: all registers are active. `none` is the result -1.
pub alloc_spill : Regset → Option ℕ × Regset
unfolding find_clear
alloc_spill drp = elim (find_clear drp.spilled (drp.size - 1)) [
  | some reg ↦ (
    some reg,
    record drp { spilled = put_bit drp.spilled reg true; trace = spill_store reg ∷ drp.trace },
  )
  | none ↦ (none, drp)
]

pub alloc : Regset → Option ℕ × Regset
unfolding alloc_spill
alloc drp = elim (find_clear drp.active (drp.size - 1)) [
  | some reg ↦ (some reg, record drp { active = put_bit drp.active reg true })
  | none ↦ alloc_spill drp
]

-- The result says whether the register was allocated (0) or is in use and spilled (-1).
pub xalloc : Regset → ℕ → Checked (Bool × Regset)
xalloc drp reg =
    if not (ltb reg drp.size)
    then none
    else if not (drp.active reg)
    then some (true, record drp { active = put_bit drp.active reg true })
    else if drp.spilled reg
    then some (false, drp)
    else some (
      true,
      record drp {
        active = put_bit drp.active reg true;
        spilled = put_bit drp.spilled reg true;
        trace = spill_store reg ∷ drp.trace;
      },
    )

pub free : Regset → ℕ → Checked Regset
free drp reg =
    if not (ltb reg drp.size)
    then none
    else if not (drp.active reg)
    then none
    else if drp.spilled reg
    then some
        (record drp { spilled = put_bit drp.spilled reg false; trace = spill_load reg ∷ drp.trace })
    else some (record drp { active = put_bit drp.active reg false })

-- `while (--reg > 0) dt_regset_free(drp, reg)`, with `n` = reg - 1.
pub free_below : ℕ → Regset → Checked Regset
unfolding free
free_below zero drp = some drp
free_below (suc n) drp = free drp (suc n) >>= free_below n

-- The loop over the registers from `reg` on, with `left` of them to go.
pub xalloc_args_from : (left reg : ℕ) → Regset → Checked (Bool × Regset)
unfolding xalloc free_below
xalloc_args_from zero reg drp = some (true, drp)
xalloc_args_from (suc left) reg drp = xalloc drp reg >>= λ (got, drp').
    let rest = xalloc_args_from left (reg + 1) drp' in
    let undone = free_below (reg - 1) drp' >>= (λ drp''. some (false, drp'')) in
    if got then rest else undone

-- %r1 to %r5.
pub xalloc_args : Regset → Checked (Bool × Regset)
unfolding xalloc_args_from
xalloc_args drp = xalloc_args_from 5 1 drp

pub free_args_from : (left reg : ℕ) → Regset → Checked Regset
unfolding free
free_args_from zero reg drp = some drp
free_args_from (suc left) reg drp = free drp reg >>= free_args_from left (reg + 1)

pub free_args : Regset → Checked Regset
unfolding free_args_from
free_args drp = free_args_from 5 1 drp
