-- ===== src/Kernel/Linked/Chain.antt =====
-- list.c: elements that point to each other, one after another.
use cs.Base.{
  ℕ, ◌≡◌, ◌≢◌, refl, ap, ◌∙◌, Option, some, List, [], ◌∷◌, ◌++◌, inl, inr, arith, In,
  In-append_right,
}
use cs.Kernel.Linked.{Heap, Ends, at}

-- Each element points to the next one, and that one back to it.
abbrev pub Linked : Heap → List ℕ → Type 0
Linked h [] = Unit {0}
Linked h (x ∷ []) = Unit {0}
Linked h (x ∷ y ∷ rest) = (h.next x ≡ some y) × (h.prev y ≡ some x) × Linked h (y ∷ rest)

pub at_self : (f : ℕ → Option ℕ) (e : ℕ) (v : Option ℕ) → at f e v e ≡ v
at_self f e v = ground arith

pub at_other : (f : ℕ → Option ℕ) (e x : ℕ) (v : Option ℕ) → e ≢ x → at f e v x ≡ f x
at_other f e x v ne = ground arith

-- A chain taken apart between p and q.
pub Linked-split :
    (h : Heap) (as' bs : List ℕ) (p q : ℕ)
    → Linked h (as' ++ p ∷ q ∷ bs)
    → Linked h (as' ++ p ∷ []) × (h.next p ≡ some q) × (h.prev q ≡ some p) × Linked h (q ∷ bs)
Linked-split h [] bs p q l = (tt, l.0, l.1, l.2)
Linked-split h (a ∷ []) bs p q l = ((l.0, l.1, tt), l.2.0, l.2.1, l.2.2)
Linked-split h (a ∷ b ∷ as') bs p q l =
    let (front, forward, back, rest) = Linked-split h (b ∷ as') bs p q l.2 in
    ((l.0, l.1, front), forward, back, rest)

pub Linked-join :
    (h : Heap) (as' bs : List ℕ) (p q : ℕ)
    → Linked h (as' ++ p ∷ [])
    → h.next p ≡ some q
    → h.prev q ≡ some p
    → Linked h (q ∷ bs)
    → Linked h (as' ++ p ∷ q ∷ bs)
Linked-join h [] bs p q front forward back rest = (forward, back, rest)
Linked-join h (a ∷ []) bs p q front forward back rest = (front.0, front.1, (forward, back, rest))
Linked-join h (a ∷ b ∷ as') bs p q front forward back rest =
    (front.0, front.1, Linked-join h (b ∷ as') bs p q front.2 forward back rest)

-- A chain whose pointers did not change: the last element's next and the first one's prev may have.
pub Linked-front :
    (h h' : Heap) (as' : List ℕ) (p : ℕ)
    → ((x : ℕ) → In x as' → h'.next x ≡ h.next x)
    → ((x : ℕ) → In x (as' ++ p ∷ []) → h'.prev x ≡ h.prev x)
    → Linked h (as' ++ p ∷ [])
    → Linked h' (as' ++ p ∷ [])
Linked-front h h' [] p n b l = tt
Linked-front h h' (a ∷ []) p n b l = (n a (inl refl) ∙ l.0, b p (inr (inl refl)) ∙ l.1, tt)
Linked-front h h' (a ∷ c ∷ as') p n b l = (
  n a (inl refl) ∙ l.0,
  b c (inr (inl refl)) ∙ l.1,
  Linked-front h h' (c ∷ as') p (λ x i. n x (inr i)) (λ x i. b x (inr i)) l.2,
)

pub Linked-rest :
    (h h' : Heap) (q : ℕ) (bs : List ℕ)
    → ((x : ℕ) → In x (q ∷ bs) → h'.next x ≡ h.next x)
    → ((x : ℕ) → In x bs → h'.prev x ≡ h.prev x)
    → Linked h (q ∷ bs)
    → Linked h' (q ∷ bs)
Linked-rest h h' q [] n b l = tt
Linked-rest h h' q (c ∷ bs) n b l = (
  n q (inl refl) ∙ l.0,
  b c (inl refl) ∙ l.1,
  Linked-rest h h' c bs (λ x i. n x (inr i)) (λ x i. b x (inr i)) l.2,
)

-- All elements of a list, with its ends.
abbrev pub nodes : Ends → List ℕ → List ℕ
nodes list xs = list.head ∷ (xs ++ list.tail ∷ [])

-- The first element of a list that ends in t.
abbrev pub first_of : List ℕ → ℕ → ℕ
first_of [] t = t
first_of (y ∷ ys) t = y

-- A place in a chain of nodes: between p, and q which is the first of ys.
pub record Cut (a : ℕ) (xs ys : List ℕ) (t : ℕ) : Type 0 where
  pub front : List ℕ
  pub p : ℕ
  pub rest : List ℕ
  pub whole : a ∷ ((xs ++ ys) ++ t ∷ []) ≡ front ++ p ∷ first_of ys t ∷ rest
  pub with_elem : (e : ℕ) → a ∷ ((xs ++ e ∷ ys) ++ t ∷ []) ≡ front ++ p ∷ e ∷ first_of ys t ∷ rest
  pub starts : In a (front ++ p ∷ [])
  pub stops : In t (first_of ys t ∷ rest)

pub cut : (a : ℕ) (xs ys : List ℕ) (t : ℕ) → Cut a xs ys t
cut a [] [] t = record {
  front = [];
  p = a;
  rest = [];
  whole = refl;
  with_elem = λ e. refl;
  starts = inl refl;
  stops = inl refl;
}
cut a [] (y ∷ ys) t = record {
  front = [];
  p = a;
  rest = ys ++ t ∷ [];
  whole = refl;
  with_elem = λ e. refl;
  starts = inl refl;
  stops = inr (In-append_right t ys (t ∷ []) (inl refl));
}
cut a (x ∷ xs) ys t =
    let c = cut x xs ys t in
    record {
      front = a ∷ c.front;
      p = c.p;
      rest = c.rest;
      whole = ap (λ l. a ∷ l) c.whole;
      with_elem = λ e. ap (λ l. a ∷ l) (c.with_elem e);
      starts = inl refl;
      stops = c.stops;
    }
