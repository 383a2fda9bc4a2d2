-- ===== src/Kernel/Linked/Remove.antt =====
-- list.c: taking an element out of a linked list, and the list as a queue.
use cs.Base.{
  ℕ, ◌≡◌, ◌≢◌, refl, sym, ◌∙◌, subst, true, false, none, some, List, [], ◌∷◌, ◌++◌, ◌==◌, inl, inr,
  arith, In, In-append_right, Distinct, Distinct-parts, Distinct-append,
}
use mathlib.Core.List.{append-nil}
use cs.Kernel.Linked.{
  Heap, Ends, set_prev, set_next, list_remove, list_empty, list_front, list_push_back,
  list_pop_front,
}
use cs.Kernel.Linked.Chain.{
  Linked, at_self, at_other, Linked-split, Linked-join, Linked-front, Linked-rest, nodes, first_of,
  cut,
}
use cs.Kernel.Linked.Refine.{Represents, Frame, apart_from, Around, around, list_insert-Represents}

-- The heap without e between p and q.
abbrev removed : Heap → ℕ → ℕ → Heap
removed h p q = set_prev (set_next h p (some q)) q (some p)

list_remove_lem :
    (h : Heap) (p q e : ℕ)
    → h.prev e ≡ some p
    → h.next e ≡ some q
    → p ≢ e
    → list_remove h e ≡ some (q, removed h p q)
unfolding list_remove
list_remove_lem h p q e b n ne =
    let other : (p == e) ≡ false = ground arith in rw (b, n, other) refl

removed-Linked :
    (h : Heap) (front : List ℕ) (p q e : ℕ) (rest : List ℕ)
    → Linked h (front ++ p ∷ e ∷ q ∷ rest)
    → Around front p q rest
    → Linked (removed h p q) (front ++ p ∷ q ∷ rest)
removed-Linked h front p q e rest l a =
    let (lf, _, _, le) = Linked-split h front (q ∷ rest) p e l in
    let h' = removed h p q in
    Linked-join h' front rest p q
      (Linked-front h h' front p
        (λ x i. at_other h.next p x (some q) (apart_from p x front a.p_front i))
        (λ x i. at_other h.prev q x (some p) (apart_from q x (front ++ p ∷ []) a.q_front i)) lf)
      (at_self h.next p (some q)) (at_self h.prev q (some p))
      (Linked-rest h h' q rest
        (λ x i. at_other h.next p x (some q) (apart_from p x (q ∷ rest) a.p_rest i))
        (λ x i. at_other h.prev q x (some p) (apart_from q x rest a.q_rest i)) le.2)

Distinct-without :
    (front : List ℕ) (p e q : ℕ) (rest : List ℕ)
    → Distinct (front ++ p ∷ e ∷ q ∷ rest)
    → Distinct (front ++ p ∷ q ∷ rest)
Distinct-without front p e q rest d =
    let (df, dr, apart) = Distinct-parts front (p ∷ e ∷ q ∷ rest) d in
    Distinct-append front (p ∷ q ∷ rest) df ((λ i. dr.0 (inr i)), dr.1.1)
      (λ s i j. elim j [ inl z ↦ apart s i (inl z) | inr k ↦ apart s i (inr (inr k)) ])

-- `list_remove` of an element of a list succeeds and returns the element that followed it, or the
-- tail: the list then holds the others, and the pointers of no element outside the list changed.
pub list_remove-Represents :
    (h : Heap) (list : Ends) (xs ys : List ℕ) (e : ℕ)
    → Represents h list (xs ++ e ∷ ys)
    → (h' : Heap) × (list_remove h e ≡ some (first_of ys list.tail, h'))
      × Represents h' list (xs ++ ys)
      × Frame h h' (nodes list (xs ++ e ∷ ys)) e
list_remove-Represents h list xs ys e r =
    let c = cut list.head xs ys list.tail in
    let q = first_of ys list.tail in
    let before = c.front ++ c.p ∷ e ∷ q ∷ c.rest in
    let l : Linked h before = subst (Linked h) (c.with_elem e) r.linked in
    let d : Distinct before = subst Distinct (c.with_elem e) r.distinct in
    let d' = Distinct-without c.front c.p e q c.rest d in
    let a = around c.front c.p q c.rest d' in
    let (_, forward, back, after) = Linked-split h c.front (q ∷ c.rest) c.p e l in
    let p_e : c.p ≢ e = λ z. (Distinct-parts c.front (c.p ∷ e ∷ q ∷ c.rest) d).1.0 (inl z) in
    (
      removed h c.p q,
      list_remove_lem h c.p q e back after.0 p_e,
      record {
        starts =
            at_other h.prev q list.head (some c.p)
              (apart_from q list.head (c.front ++ c.p ∷ []) a.q_front c.starts)
            ∙ r.starts;
        stops =
            at_other h.next c.p list.tail (some q)
              (apart_from c.p list.tail (q ∷ c.rest) a.p_rest c.stops)
            ∙ r.stops;
        linked =
            subst (Linked (removed h c.p q)) (sym c.whole)
              (removed-Linked h c.front c.p q e c.rest l a);
        distinct = subst Distinct (sym c.whole) d';
      },
      λ x out ne.
          let out' : ¬ In x before = subst (λ ns. ¬ In x ns) (c.with_elem e) out in
          (
            at_other h.next c.p x (some q)
                (λ z. out' (In-append_right x c.front (c.p ∷ e ∷ q ∷ c.rest) (inl (sym z)))),
            at_other h.prev q x (some c.p) (λ z.
                out' (In-append_right x c.front (c.p ∷ e ∷ q ∷ c.rest) (inr (inr (inl (sym z)))))),
          ),
    )

-- `list_push_back` of an element that is not in the list puts it behind the others.
pub list_push_back-Represents :
    (h : Heap) (list : Ends) (xs : List ℕ) (e : ℕ)
    → Represents h list xs
    → ¬ In e (nodes list xs)
    → (h' : Heap) × (list_push_back h list e ≡ some h') × Represents h' list (xs ++ e ∷ [])
unfolding list_push_back
list_push_back-Represents h list xs e r new =
    let same = sym (append-nil xs) in
    let (h', done, r', _) =
      list_insert-Represents h list xs [] e (subst (Represents h list) same r)
        (subst (λ l. ¬ In e (nodes list l)) same new) in
    (h', done, r')

-- `list_pop_front` of a list that is not empty takes its first element, and the list then holds
-- the others.
pub list_pop_front-Represents :
    (h : Heap) (list : Ends) (x : ℕ) (xs : List ℕ)
    → Represents h list (x ∷ xs)
    → (h' : Heap) × (list_pop_front h list ≡ some (x, h')) × Represents h' list xs
unfolding list_pop_front list_front list_empty
list_pop_front-Represents h list x xs r =
    let (h', done, r', _) = list_remove-Represents h list [] xs x r in
    let not_tail : (x == list.tail) ≡ false =
      differ (λ z. r.distinct.1.0 (In-append_right x xs (list.tail ∷ []) (inl z))) in
    (h', rw (r.linked.0, not_tail, done) refl, r')
  where
    differ : {a b : ℕ} → a ≢ b → (a == b) ≡ false
    differ ne = ground arith

-- `list_pop_front` of an empty list fails an ASSERT.
pub list_pop_front_empty :
    (h : Heap) (list : Ends) → Represents h list [] → list_pop_front h list ≡ none
unfolding list_pop_front list_front list_empty
list_pop_front_empty h list r =
    let at_tail : (list.tail == list.tail) ≡ true = ground arith in rw (r.linked.0, at_tail) refl
