-- ===== src/Kernel/Tests.antt =====
-- The ordered lists of the kernel's library at small lists of numbers.
use cs.Base.{
  ℕ, ◌≡◌, refl, Bool, List, [], ◌∷◌, some, none, ◌==◌, if◌then◌else◌, In, inl, inr, ltb, arith,
}
use cs.Kernel.Linked.{Heap, Ends, list_insert, list_remove, list_size}
use cs.Kernel.Linked.Chain.{nodes}
use cs.Kernel.Linked.Refine.{Represents, Frame, list_insert-Represents}
use cs.Kernel.Linked.Remove.{list_remove-Represents}
use cs.Kernel.Linked.Size.{list_size-length}
use cs.Kernel.Order.{list_sort}
use cs.Kernel.Order.Runs.{Sorted}
use cs.Kernel.Order.Sort.{IsAsym, IsSortedOf, list_sort-IsSortedOf}

abbrev below : ℕ → ℕ → Bool
below a b = ltb a b

below-IsAsym : IsAsym below
below-IsAsym a b h = ground arith

abbrev shuffled : List ℕ
shuffled = 3 ∷ 1 ∷ 2 ∷ 5 ∷ 4 ∷ []

list_sort-IsSortedOf_example :
    (out : List ℕ) × (list_sort below shuffled ≡ some out) × IsSortedOf below shuffled out
list_sort-IsSortedOf_example = list_sort-IsSortedOf below below-IsAsym shuffled

ordered : Sorted below (1 ∷ 3 ∷ 3 ∷ 5 ∷ [])
ordered = (refl, (refl, (refl, tt)))

-- A list with the head 0 and the tail 1 that holds the elements 5 and 6.
abbrev ends : Ends
ends = record { head = 0; tail = 1 }

abbrev heap : Heap
heap = record {
  prev = λ x. if x == 5 then some 0 else if x == 6 then some 5 else if x == 1 then some 6 else none;
  next = λ x. if x == 0 then some 5 else if x == 5 then some 6 else if x == 6 then some 1 else none;
}

heap-Represents : Represents heap ends (5 ∷ 6 ∷ [])
heap-Represents = record {
  starts = refl;
  stops = refl;
  linked = (refl, refl, (refl, refl, (refl, refl, tt)));
  distinct = (head_apart, (five_apart, (six_apart, ((λ n. n), tt))));
}
  where
    head_apart : ¬ In 0 (5 ∷ 6 ∷ 1 ∷ [])
    head_apart (inl z) = omega (arith, z)
    head_apart (inr (inl z)) = omega (arith, z)
    head_apart (inr (inr (inl z))) = omega (arith, z)
    head_apart (inr (inr (inr n))) = n

    five_apart : ¬ In 5 (6 ∷ 1 ∷ [])
    five_apart (inl z) = omega (arith, z)
    five_apart (inr (inl z)) = omega (arith, z)
    five_apart (inr (inr n)) = n

    six_apart : ¬ In 6 (1 ∷ [])
    six_apart (inl z) = omega (arith, z)
    six_apart (inr n) = n

new_seven : ¬ In 7 (0 ∷ 5 ∷ 6 ∷ 1 ∷ [])
new_seven (inl z) = omega (arith, z)
new_seven (inr (inl z)) = omega (arith, z)
new_seven (inr (inr (inl z))) = omega (arith, z)
new_seven (inr (inr (inr (inl z)))) = omega (arith, z)
new_seven (inr (inr (inr (inr n)))) = n

-- In front of the element 6.
list_insert-Represents_example :
    (h' : Heap) × (list_insert heap 6 7 ≡ some h')
    × Represents h' ends (5 ∷ 7 ∷ 6 ∷ [])
    × Frame heap h' (nodes ends (5 ∷ 6 ∷ [])) 7
list_insert-Represents_example =
    list_insert-Represents heap ends (5 ∷ []) (6 ∷ []) 7 heap-Represents new_seven

list_remove-Represents_example :
    (h' : Heap) × (list_remove heap 5 ≡ some (6, h'))
    × Represents h' ends (6 ∷ [])
    × Frame heap h' (nodes ends (5 ∷ 6 ∷ [])) 5
list_remove-Represents_example = list_remove-Represents heap ends [] (6 ∷ []) 5 heap-Represents

list_size-length_example : list_size 10 heap ends ≡ some 2
list_size-length_example = list_size-length heap ends (5 ∷ 6 ∷ []) 10 heap-Represents (omega arith)
