-- ===== src/Kernel/Linked/Size.antt =====
-- list.c: walking through a linked list.
use cs.Base.{
  ℕ, zero, suc, ◌<◌, ◌≡◌, ◌≢◌, refl, sym, true, false, none, some, List, [], ◌∷◌, ◌++◌, ◌==◌,
  length, inl, inr, arith, In, Distinct, In-append_right,
}
use cs.Kernel.Linked.{Heap, Ends, list_next, list_size, size_from}
use cs.Kernel.Linked.Chain.{Linked, first_of}
use cs.Kernel.Linked.Refine.{Represents}

pub next_of :
    (h : Heap) (a t : ℕ) (ys : List ℕ)
    → Linked h (a ∷ (ys ++ t ∷ []))
    → h.next a ≡ some (first_of ys t)
next_of h a t [] l = l.0
next_of h a t (y ∷ ys) l = l.0

pub list_next_lem :
    (h : Heap) (e p q : ℕ) → h.prev e ≡ some p → h.next e ≡ some q → list_next h e ≡ some q
unfolding list_next
list_next_lem h e p q b n = rw (b, n) refl

-- There is no step on from a tail.
pub list_next_tail :
    (h : Heap) (e p : ℕ) → h.prev e ≡ some p → h.next e ≡ none → list_next h e ≡ none
unfolding list_next
list_next_tail h e p b n = rw (b, n) refl

size_from_lem :
    (h : Heap) (list : Ends) (fuel a : ℕ) (ys : List ℕ)
    → Linked h (a ∷ (ys ++ list.tail ∷ []))
    → ¬ In list.tail ys
    → length ys < fuel
    → size_from fuel h list (first_of ys list.tail) ≡ some (length ys)
unfolding size_from
size_from_lem h list zero a ys l out lt = absurd (omega arith)
size_from_lem h list (suc fuel) a [] l out lt =
    let at_end : (list.tail == list.tail) ≡ true = ground arith in rw at_end refl
size_from_lem h list (suc fuel) a (y ∷ ys) l out lt =
    let ne : y ≢ list.tail = λ z. out (inl (sym z)) in
    let inside : (y == list.tail) ≡ false = ground arith in
    let rest : Linked h (y ∷ (ys ++ list.tail ∷ [])) = l.2 in
    rw
      (
        inside,
        list_next_lem h y a (first_of ys list.tail) l.1 (next_of h y list.tail ys rest),
        size_from_lem h list fuel y ys rest (λ i. out (inr i)) (omega arith),
      )
      refl

tail_out : (list : Ends) (xs : List ℕ) → Distinct (xs ++ list.tail ∷ []) → ¬ In list.tail xs
tail_out list [] d i = i
tail_out list (x ∷ xs) d (inl z) = d.0 (In-append_right x xs (list.tail ∷ []) (inl (sym z)))
tail_out list (x ∷ xs) d (inr i) = tail_out list xs d.1 i

-- `list_size` ends, given more rounds than the list has elements, and counts them.
pub list_size-length :
    (h : Heap) (list : Ends) (xs : List ℕ) (fuel : ℕ)
    → Represents h list xs
    → length xs < fuel
    → list_size fuel h list ≡ some (length xs)
unfolding list_size
list_size-length h list xs fuel r lt =
    rw (next_of h list.head list.tail xs r.linked)
      (size_from_lem h list fuel list.head xs r.linked (tail_out list xs r.distinct.1) lt)
