-- ===== src/LinkedList/Examples.antt =====
-- Tests of the linked list, and the theorems at concrete inputs.
use dtrace.Base.{ℕ, ◌≡◌, refl, ◌≢◌, false, some, [], ◌∷◌, arith, ◌==◌, if◌then◌else◌}
use dtrace.LinkedList.{
  Heap, set_prev, set_next, delete, unlink_next, unlink_prev, length_from, list_length,
}
use dtrace.LinkedList.Segment.{NotIn, IsList, SameElsewhere}
use dtrace.LinkedList.Removal.{delete-IsList}

-- The list at 9 with the nodes 5 and 7.
abbrev two : Heap
two = record {
  prev = λ x. if x == 9 then 7 else if x == 7 then 5 else 0;
  next = λ x. if x == 9 then 5 else if x == 5 then 7 else 0;
}

differ : (a b : ℕ) → (a == b) ≡ false → a ≢ b
differ a b e = ground arith

two-IsList : IsList two 9 (5 ∷ 7 ∷ [])
two-IsList = record {
  head = refl;
  tail = refl;
  links = (refl, refl, (refl, refl, tt));
  nodes = (differ 0 9 refl, (differ 0 5 refl, (differ 0 7 refl, tt)));
  apart = ((differ 9 5 refl, (differ 9 7 refl, tt)), ((differ 5 7 refl, tt), (tt, tt)));
}

eight_out : NotIn 8 (9 ∷ 5 ∷ 7 ∷ [])
eight_out = (differ 8 9 refl, (differ 8 5 refl, (differ 8 7 refl, tt)))

-- The list after a deletion has one node.
delete_counts : list_length 5 (delete two 9 5) 9 ≡ some 1
unfolding list_length length_from delete unlink_next unlink_prev set_prev set_next
delete_counts = refl

delete-IsList_example :
    IsList (delete two 9 5) 9 (7 ∷ []) × SameElsewhere (9 ∷ 7 ∷ []) two (delete two 9 5)
delete-IsList_example = delete-IsList two 9 [] 5 (7 ∷ []) two-IsList
