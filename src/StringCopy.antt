-- ===== src/StringCopy.antt =====
-- The bounded copies of libport, strlcpy() and strlcat().
-- The destination is the memory from `dst` on as a list of bytes; the source is the list of its
-- bytes before the NUL. Each function returns the memory and its result.
use dtrace.Base.{
  ℕ, zero, suc, ◌+◌, ◌-◌, ◌*◌, ◌/◌, ◌%◌, ◌^◌, ◌≤◌, ◌<◌, min, max, ◌≡◌, refl, sym, ap, ◌∙◌, fun_ext,
  subst, ◌≢◌, ◌↔◌, ◌⊎◌, inl, inr, Bool, true, false, not, ◌&&◌, ◌||◌, Option, none, some, List, [],
  ◌∷◌, ◌++◌, map, arith, ltb, leb, ◌==◌, if◌then◌else◌, Bool-cases, Option-cases, ==_iff, ltb→lt,
  lt→ltb, leb→le, length, get_elem?, set, length-append, length-set, get_or, take, drop, replicate,
  length-replicate, length-take, length-drop, take-append_add, take-append_le, take_add, take_all,
  take-take, get_or-set, get_or-replicate, total, total-set, total-replicate,
}
pub mod Bounded
pub mod Examples

-- memcpy() of `bytes` to offset `off`.
abbrev pub memcpy : List ℕ → (off : ℕ) → List ℕ → List ℕ
memcpy mem off bytes = take off mem ++ (bytes ++ drop (off + length bytes) mem)

pub strlcpy : (dst src : List ℕ) → (len : ℕ) → List ℕ × ℕ
strlcpy dst src len =
    let slen = length src in
    let copied = (if leb len slen then len - 1 else slen) in
    if len == 0 then (dst, slen) else (set (memcpy dst 0 (take copied src)) copied 0, slen)

-- The loop of strlcat(): how far `df` goes.
pub find_end : (left : ℕ) → List ℕ → ℕ
find_end zero df = 0
find_end (suc left) [] = 0
find_end (suc left) (c ∷ df) = let rest = find_end left df in if c == 0 then 0 else rest + 1

pub strlcat : (dst src : List ℕ) → (dstsize : ℕ) → List ℕ × ℕ
unfolding find_end
strlcat dst src dstsize =
    let l1 = find_end dstsize dst in
    let l2 = length src in
    let copied = (if leb dstsize (l1 + l2) then dstsize - l1 - 1 else l2) in
    if dstsize == l1
    then (dst, l1 + l2)
    else (set (memcpy dst l1 (take copied src)) (l1 + copied) 0, l1 + l2)
