-- ===== src/Kernel/Order/Insert.antt =====
-- list.c: inserting into an ordered list, and removing repeated elements from one.
use mathlib.Core.List.{Permᴰ, append_assoc}
use mathlib.Core.List.Permᴰ
use cs.Base.{
  ◌≡◌, refl, sym, ap, subst, Bool, true, false, List, [], ◌∷◌, ◌++◌, Bool-cases, ◌⊎◌, inl, inr, ℕ,
  In, Distinct, if◌then◌else◌,
}
use cs.Kernel.Order.{insert_ordered, unique_from, list_unique}
use cs.Kernel.Order.Runs.{Chain, Sorted}
use cs.Kernel.Order.Sort.{IsAsym}

-- Elements of the list after an insertion.
pub In-insert_ordered_self :
    (less : ℕ → ℕ → Bool) (l : List ℕ) (u : ℕ) → In u (insert_ordered less l u)
unfolding insert_ordered
In-insert_ordered_self less [] u = inl refl
In-insert_ordered_self less (e ∷ es) u = elim (Bool-cases (less u e)) [
  | inl lower ↦ rw lower (inl refl)
  | inr other ↦ rw other (inr (In-insert_ordered_self less es u))
]

pub In-insert_ordered :
    (less : ℕ → ℕ → Bool) (l : List ℕ) (u x : ℕ) → In x l → In x (insert_ordered less l u)
unfolding insert_ordered
In-insert_ordered less [] u x i = absurd i
In-insert_ordered less (e ∷ es) u x i = elim (Bool-cases (less u e)) [
  | inl lower ↦ rw lower (inr i)
  | inr other ↦
      rw other (elim i [ inl z ↦ inl z | inr later ↦ inr (In-insert_ordered less es u x later) ])
]

module _ {ℓ} {A : Type ℓ} (less : A → A → Bool) where
  abbrev pub NotLess : A → List A → Type 0
  NotLess elem' [] = Unit {0}
  NotLess elem' (e ∷ es) = (less elem' e ≡ false) × NotLess elem' es

  -- The list is empty, or its first element is greater.
  abbrev pub IsBefore : A → List A → Type 0
  IsBefore elem' [] = Unit {0}
  IsBefore elem' (e ∷ es) = less elem' e ≡ true

  -- The new element stands in front of the first element that it is less than.
  pub record Placed (list : List A) (elem' : A) : Type ℓ where
    pub before : List A
    pub after : List A
    pub parts : list ≡ before ++ after
    pub placed : insert_ordered less list elem' ≡ before ++ (elem' ∷ after)
    pub passed : NotLess elem' before
    pub stops : IsBefore elem' after

  -- `list_insert_ordered` puts the element in front of the first element that it is less than, or
  -- at the end, so behind all the equal ones of an ordered list, and leaves the others as they
  -- are.
  pub insert_ordered-Placed : (list : List A) (elem' : A) → Placed list elem'
  unfolding insert_ordered
  insert_ordered-Placed [] elem' = record {
    before = [];
    after = [];
    parts = refl;
    placed = refl;
    passed = tt;
    stops = tt;
  }
  insert_ordered-Placed (e ∷ es) elem' = elim (Bool-cases (less elem' e)) [
    | inl lower ↦ record {
      before = [];
      after = e ∷ es;
      parts = refl;
      placed = rw lower refl;
      passed = tt;
      stops = lower;
    }
    | inr not_lower ↦
        let later = insert_ordered-Placed es elem' in
        record {
          before = e ∷ later.before;
          after = later.after;
          parts = ap (λ l. e ∷ l) later.parts;
          placed = rw not_lower (ap (λ l. e ∷ l) later.placed);
          passed = (not_lower, later.passed);
          stops = later.stops;
        }
  ]

  -- An element that is less than the first stands first.
  pub insert_ordered-IsBefore :
      (list : List A) (elem' : A)
      → IsBefore elem' list
      → insert_ordered less list elem' ≡ elem' ∷ list
  unfolding insert_ordered
  insert_ordered-IsBefore [] elem' b = refl
  insert_ordered-IsBefore (e ∷ es) elem' b = rw b refl

  pub insert_ordered-Chain :
      (x elem' : A) (list : List A)
      → IsAsym less
      → less elem' x ≡ false
      → Chain less x list
      → Chain less x (insert_ordered less list elem')
  unfolding insert_ordered
  insert_ordered-Chain x elem' [] asym h c = (h, tt)
  insert_ordered-Chain x elem' (e ∷ es) asym h c = elim (Bool-cases (less elem' e)) [
    | inl lower ↦ rw lower (h, (asym elem' e lower, c.1))
    | inr not_lower ↦ rw not_lower ((c.0, insert_ordered-Chain e elem' es asym not_lower c.1))
  ]

  -- When of two elements at most one is less than the other, `list_insert_ordered` keeps an
  -- ordered list ordered.
  pub insert_ordered-Sorted :
      (list : List A) (elem' : A)
      → IsAsym less
      → Sorted less list
      → Sorted less (insert_ordered less list elem')
  unfolding insert_ordered
  insert_ordered-Sorted [] elem' asym s = tt
  insert_ordered-Sorted (e ∷ es) elem' asym s = elim (Bool-cases (less elem' e)) [
    | inl lower ↦ rw lower ((asym elem' e lower, s))
    | inr not_lower ↦ rw not_lower (insert_ordered-Chain e elem' es asym not_lower s)
  ]

  -- Neighbours differ, after element a.
  abbrev pub Differ : A → List A → Type 0
  Differ a [] = Unit {0}
  Differ a (b ∷ rest) = ((less a b ≡ true) ⊎ (less b a ≡ true)) × Differ b rest

  abbrev pub NoRepeats : List A → Type 0
  NoRepeats [] = Unit {0}
  NoRepeats (a ∷ rest) = Differ a rest

  -- What the loop of `list_unique` makes of a list that starts with elem'.
  record Unique (elem' : A) (rest duplicates : List A) (r : List A × List A) : Type ℓ where
    others : List A
    first_stays : r.0 ≡ elem' ∷ others
    differ : Differ elem' others
    same : Permᴰ (r.0 ++ r.1) (elem' ∷ (rest ++ duplicates))

  Unique-keep :
      (elem' next : A) (rest duplicates : List A) (r : List A × List A)
      → (less elem' next ≡ true) ⊎ (less next elem' ≡ true)
      → Unique next rest duplicates r
      → Unique elem' (next ∷ rest) duplicates (elem' ∷ r.0, r.1)
  Unique-keep elem' next rest duplicates r ne u = record {
    others = next ∷ u.others;
    first_stays = ap (λ l. elem' ∷ l) u.first_stays;
    differ = (ne, u.differ);
    same = Permᴰ.cons refl u.same;
  }

  Unique-drop :
      (elem' next : A) (rest duplicates : List A) (r : List A × List A)
      → Unique elem' rest (duplicates ++ next ∷ []) r
      → Unique elem' (next ∷ rest) duplicates r
  Unique-drop elem' next rest duplicates r u = record {
    others = u.others;
    first_stays = u.first_stays;
    differ = u.differ;
    same = Permᴰ.trans u.same (
        Permᴰ.cons refl (
          subst (λ l. Permᴰ l (next ∷ (rest ++ duplicates)))
            (append_assoc rest duplicates (next ∷ []))
            (Permᴰ.append_comm (rest ++ duplicates) (next ∷ []))));
  }

  unique_from-Unique :
      (elem' : A) (rest duplicates : List A)
      → Unique elem' rest duplicates (unique_from less elem' rest duplicates)
  unfolding unique_from
  unique_from-Unique elem' [] duplicates = record {
    others = [];
    first_stays = refl;
    differ = tt;
    same = Permᴰ.refl (elem' ∷ duplicates);
  }
  unique_from-Unique elem' (next ∷ rest) duplicates = elim (Bool-cases (less elem' next)) [
    | inl up ↦ rw up (
        Unique-keep elem' next rest duplicates (unique_from less next rest duplicates) (inl up)
          (unique_from-Unique next rest duplicates))
    | inr not_up ↦ elim (Bool-cases (less next elem')) [
      | inl down ↦
          rw (not_up, down)
            (Unique-keep elem' next rest duplicates (unique_from less next rest duplicates)
              (inr down) (unique_from-Unique next rest duplicates))
      | inr equal ↦
          rw (not_up, equal)
            (Unique-drop elem' next rest duplicates
              (unique_from less elem' rest (duplicates ++ next ∷ []))
              (unique_from-Unique elem' rest (duplicates ++ next ∷ [])))
    ]
  ]

  -- After `list_unique` no two neighbours of the list are equal, and the list and the duplicates
  -- together have the elements that they had together.
  pub list_unique_lem :
      (list duplicates : List A)
      → NoRepeats (list_unique less list duplicates).0
        × Permᴰ
            ((list_unique less list duplicates).0 ++ (list_unique less list duplicates).1)
            (list ++ duplicates)
  unfolding list_unique
  list_unique_lem [] duplicates = (tt, Permᴰ.refl duplicates)
  list_unique_lem (elem' ∷ rest) duplicates =
      let u = unique_from-Unique elem' rest duplicates in
      (subst NoRepeats (sym u.first_stays) u.differ, u.same)

-- The elements of the list after an insertion are the new one and those of the list.
pub In-of_insert_ordered :
    (less : ℕ → ℕ → Bool) (l : List ℕ) (u x : ℕ) → In x (insert_ordered less l u) → (x ≡ u) ⊎ In x l
unfolding insert_ordered
In-of_insert_ordered less [] u x i = elim i [ inl e ↦ inl e | inr none ↦ absurd none ]
In-of_insert_ordered less (e ∷ es) u x i = elim (Bool-cases (less u e)) [
  | inl lower ↦
      subst
        (λ b.
          In x (if b then u ∷ e ∷ es else e ∷ insert_ordered less es u) → (x ≡ u) ⊎ In x (e ∷ es))
        (sym lower) (λ j. j) i
  | inr other ↦
      subst
        (λ b.
          In x (if b then u ∷ e ∷ es else e ∷ insert_ordered less es u) → (x ≡ u) ⊎ In x (e ∷ es))
        (sym other)
        (λ j. elim j [
          | inl z ↦ inr (inl z)
          | inr m ↦ elim (In-of_insert_ordered less es u x m) [
            | inl z ↦ inl z
            | inr k ↦ inr (inr k)
          ]
        ])
        i
]

pub Distinct-insert_ordered :
    (less : ℕ → ℕ → Bool) (l : List ℕ) (u : ℕ)
    → (In u l → ⊥)
    → Distinct l
    → Distinct (insert_ordered less l u)
unfolding insert_ordered
Distinct-insert_ordered less [] u out d = (λ i. i, tt)
Distinct-insert_ordered less (e ∷ es) u out d = elim (Bool-cases (less u e)) [
  | inl lower ↦ rw lower ((out, d))
  | inr other ↦ rw other (
    λ i. elim (In-of_insert_ordered less es u e i) [ inl z ↦ out (inl (sym z)) | inr m ↦ d.0 m ],
    Distinct-insert_ordered less es u (λ i. out (inr i)) d.1,
  )
]
