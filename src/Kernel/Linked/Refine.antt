-- ===== src/Kernel/Linked/Refine.antt =====
-- list.c: a linked list is a sequence of elements.
use cs.Base.{
  ℕ, ◌≡◌, ◌≢◌, refl, sym, ◌∙◌, subst, false, Option, none, some, List, [], ◌∷◌, ◌++◌, ◌==◌, inl,
  inr, arith, In, In-append_left, In-append_right, In-append, Distinct, Distinct-parts,
  Distinct-append,
}
use cs.Kernel.Linked.{Heap, Ends, at, set_prev, set_next, list_init, list_insert}
use cs.Kernel.Linked.Chain.{
  Linked, at_self, at_other, Linked-split, Linked-join, Linked-front, Linked-rest, nodes, first_of,
  cut,
}

-- The list holds these elements, in this order.
pub record Represents (h : Heap) (list : Ends) (xs : List ℕ) : Type 0 where
  pub starts : h.prev list.head ≡ none
  pub stops : h.next list.tail ≡ none
  pub linked : Linked h (nodes list xs)
  pub distinct : Distinct (nodes list xs)

-- An operation on the list touched only the pointers of its elements, and of e.
abbrev pub Frame : Heap → Heap → List ℕ → ℕ → Type 0
Frame h h' ns e = (x : ℕ) → ¬ In x ns → x ≢ e → (h'.next x ≡ h.next x) × (h'.prev x ≡ h.prev x)

-- The heap with e between p and q.
abbrev inserted : Heap → ℕ → ℕ → ℕ → Heap
inserted h p q e =
    set_prev (set_next (set_next (set_prev h e (some p)) e (some q)) p (some e)) q (some e)

list_insert_lem :
    (h : Heap) (p q e : ℕ) → h.prev q ≡ some p → e ≢ q → list_insert h q e ≡ some (inserted h p q e)
unfolding list_insert
list_insert_lem h p q e b ne =
    let other : (e == q) ≡ false = ground arith in by_next (h.next q) refl other
  where
    by_next :
        (n : Option ℕ)
        → h.next q ≡ n
        → (e == q) ≡ false
        → list_insert h q e ≡ some (inserted h p q e)
    by_next none en other = rw (b, en, other) refl
    by_next (some n) en other = rw (b, en, other) refl

-- Two places in a list without repetition.
pub apart_from : (x y : ℕ) (ns : List ℕ) → ¬ In x ns → In y ns → x ≢ y
apart_from x y ns out inside e = out (subst (λ z. In z ns) (sym e) inside)

-- What is known of p, q and the elements around them.
pub record Around (front : List ℕ) (p q : ℕ) (rest : List ℕ) : Type 0 where
  pub p_front : ¬ In p front
  pub q_front : ¬ In q (front ++ p ∷ [])
  pub p_rest : ¬ In p (q ∷ rest)
  pub q_rest : ¬ In q rest

pub around :
    (front : List ℕ) (p q : ℕ) (rest : List ℕ)
    → Distinct (front ++ p ∷ q ∷ rest)
    → Around front p q rest
around front p q rest d =
    let (df, dr, apart) = Distinct-parts front (p ∷ q ∷ rest) d in
    record {
      p_front = λ i. apart p i (inl refl);
      q_front = λ i. elim (In-append q front (p ∷ []) i) [
        | inl a ↦ apart q a (inr (inl refl))
        | inr b ↦ elim b [ inl e ↦ dr.0 (inl (sym e)) | inr n ↦ n ]
      ];
      p_rest = dr.0;
      q_rest = dr.1.0;
    }

inserted-Linked :
    (h : Heap) (front : List ℕ) (p q e : ℕ) (rest : List ℕ)
    → Linked h (front ++ p ∷ q ∷ rest)
    → Around front p q rest
    → ¬ In e (front ++ p ∷ q ∷ rest)
    → Linked (inserted h p q e) (front ++ p ∷ e ∷ q ∷ rest)
inserted-Linked h front p q e rest l a new =
    let (lf, _, _, lr) = Linked-split h front rest p q l in
    let e_p : e ≢ p =
      apart_from e p (front ++ p ∷ q ∷ rest) new
        (In-append_right p front (p ∷ q ∷ rest) (inl refl)) in
    let e_q : e ≢ q =
      apart_from e q (front ++ p ∷ q ∷ rest) new
        (In-append_right q front (p ∷ q ∷ rest) (inr (inl refl))) in
    let h' = inserted h p q e in
    Linked-join h' front (q ∷ rest) p e
      (Linked-front h h' front p
        (λ x i. next_kept x (apart_from p x front a.p_front i) (in_front x i))
        (λ x i. prev_kept x (apart_from q x (front ++ p ∷ []) a.q_front i) (to_p x i)) lf)
      (at_self (at h.next e (some q)) p (some e))
      (at_other (at h.prev e (some p)) q e (some e) (λ z. e_q (sym z)) ∙ at_self h.prev e (some p))
      (
        at_other (at h.next e (some q)) p e (some e) (λ z. e_p (sym z)) ∙ at_self h.next e (some q),
        at_self (at h.prev e (some p)) q (some e),
        Linked-rest h h' q rest
            (λ x i. next_kept x (apart_from p x (q ∷ rest) a.p_rest i) (in_rest x i))
            (λ x i. prev_kept x (apart_from q x rest a.q_rest i) (in_rest x (inr i))) lr,
      )
  where
    next_kept : (x : ℕ) → p ≢ x → e ≢ x → (inserted h p q e).next x ≡ h.next x
    next_kept x np ne =
        at_other (at h.next e (some q)) p x (some e) np ∙ at_other h.next e x (some q) ne

    prev_kept : (x : ℕ) → q ≢ x → e ≢ x → (inserted h p q e).prev x ≡ h.prev x
    prev_kept x nq ne =
        at_other (at h.prev e (some p)) q x (some e) nq ∙ at_other h.prev e x (some p) ne

    in_front : (x : ℕ) → In x front → e ≢ x
    in_front x i =
        apart_from e x (front ++ p ∷ q ∷ rest) new (In-append_left x front (p ∷ q ∷ rest) i)

    in_rest : (x : ℕ) → In x (q ∷ rest) → e ≢ x
    in_rest x i =
        apart_from e x (front ++ p ∷ q ∷ rest) new (In-append_right x front (p ∷ q ∷ rest) (inr i))

    to_p : (x : ℕ) → In x (front ++ p ∷ []) → e ≢ x
    to_p x i = elim (In-append x front (p ∷ []) i) [
      | inl b ↦ in_front x b
      | inr b ↦ elim b [
        | inl z ↦
            apart_from e x (front ++ p ∷ q ∷ rest) new
              (In-append_right x front (p ∷ q ∷ rest) (inl z))
        | inr n ↦ absurd n
      ]
    ]

Distinct-with :
    (front : List ℕ) (p q e : ℕ) (rest : List ℕ)
    → Distinct (front ++ p ∷ q ∷ rest)
    → ¬ In e (front ++ p ∷ q ∷ rest)
    → Distinct (front ++ p ∷ e ∷ q ∷ rest)
Distinct-with front p q e rest d new =
    let (df, dr, apart) = Distinct-parts front (p ∷ q ∷ rest) d in
    Distinct-append front (p ∷ e ∷ q ∷ rest) df
      (p_new dr.0, (λ i. new (In-append_right e front (p ∷ q ∷ rest) (inr i)), dr.1))
      (λ s i j. elim j [
        | inl z ↦ apart s i (inl z)
        | inr k ↦ elim k [
          | inl z ↦ new (In-append_left e front (p ∷ q ∷ rest) (subst (λ t. In t front) z i))
          | inr later ↦ apart s i (inr later)
        ]
      ])
  where
    p_new : ¬ In p (q ∷ rest) → ¬ In p (e ∷ q ∷ rest)
    p_new out (inl z) = new (In-append_right e front (p ∷ q ∷ rest) (inl (sym z)))
    p_new out (inr i) = out i

-- `list_insert` of an element that is not in the list, in front of one that is or of the tail,
-- succeeds: the list then holds it between those before and those from there on, and the pointers
-- of no other element changed.
pub list_insert-Represents :
    (h : Heap) (list : Ends) (xs ys : List ℕ) (e : ℕ)
    → Represents h list (xs ++ ys)
    → ¬ In e (nodes list (xs ++ ys))
    → (h' : Heap) × (list_insert h (first_of ys list.tail) e ≡ some h')
      × Represents h' list (xs ++ e ∷ ys)
      × Frame h h' (nodes list (xs ++ ys)) e
list_insert-Represents h list xs ys e r new =
    let c = cut list.head xs ys list.tail in
    let q = first_of ys list.tail in
    let before = c.front ++ c.p ∷ q ∷ c.rest in
    let l : Linked h before = subst (Linked h) c.whole r.linked in
    let d : Distinct before = subst Distinct c.whole r.distinct in
    let new' : ¬ In e before = subst (λ ns. ¬ In e ns) c.whole new in
    let a = around c.front c.p q c.rest d in
    let back : h.prev q ≡ some c.p = (Linked-split h c.front c.rest c.p q l).2 in
    let e_q : e ≢ q =
      apart_from e q before new' (In-append_right q c.front (c.p ∷ q ∷ c.rest) (inr (inl refl))) in
    (
      inserted h c.p q e,
      list_insert_lem h c.p q e back e_q,
      record {
        starts =
            at_other (at h.prev e (some c.p)) q list.head (some e)
              (apart_from q list.head (c.front ++ c.p ∷ []) a.q_front c.starts)
            ∙ at_other h.prev e list.head (some c.p) (λ z. new (inl z))
            ∙ r.starts;
        stops =
            at_other (at h.next e (some q)) c.p list.tail (some e)
              (apart_from c.p list.tail (q ∷ c.rest) a.p_rest c.stops)
            ∙ at_other h.next e list.tail (some q)
                (λ z. new (inr (In-append_right e (xs ++ ys) (list.tail ∷ []) (inl z))))
            ∙ r.stops;
        linked =
            subst (Linked (inserted h c.p q e)) (sym (c.with_elem e))
              (inserted-Linked h c.front c.p q e c.rest l a new');
        distinct =
            subst Distinct (sym (c.with_elem e)) (Distinct-with c.front c.p q e c.rest d new');
      },
      λ x out ne.
          let out' : ¬ In x before = subst (λ ns. ¬ In x ns) c.whole out in
          let x_p : c.p ≢ x =
            λ z. out' (In-append_right x c.front (c.p ∷ q ∷ c.rest) (inl (sym z))) in
          let x_q : q ≢ x =
            λ z. out' (In-append_right x c.front (c.p ∷ q ∷ c.rest) (inr (inl (sym z)))) in
          let x_e : e ≢ x = λ z. ne (sym z) in
          (
            at_other (at h.next e (some q)) c.p x (some e) x_p ∙ at_other h.next e x (some q) x_e,
            at_other (at h.prev e (some c.p)) q x (some e) x_q ∙ at_other h.prev e x (some c.p) x_e,
          ),
    )

-- `list_init` makes an empty list of two different elements.
pub list_init-Represents :
    (h : Heap) (list : Ends) → list.head ≢ list.tail → Represents (list_init h list) list []
unfolding list_init
list_init-Represents h list ne = record {
  starts =
      at_other (at h.prev list.head none) list.tail list.head (some list.head) (λ z. ne (sym z))
      ∙ at_self h.prev list.head none;
  stops = at_self (at h.next list.head (some list.tail)) list.tail none;
  linked = (
    at_other (at h.next list.head (some list.tail)) list.tail list.head none (λ z. ne (sym z))
        ∙ at_self h.next list.head (some list.tail),
    at_self (at h.prev list.head none) list.tail (some list.head),
    tt,
  );
  distinct = (λ i. elim i [ inl z ↦ ne z | inr n ↦ n ], (λ n. n, tt));
}
