-- ===== src/Kernel/Order/Runs.antt =====
-- list.c: the runs of a list, nondecreasing from one element to the next, and merging them.
use cs.Base.{
  ℕ, suc, ◌+◌, ◌≤◌, ◌≡◌, refl, ap, Bool, true, false, List, [], ◌∷◌, ◌++◌, length, if◌then◌else◌,
  Bool-cases, inl, inr, arith,
}
use cs.Kernel.Order.{sorted_from, is_sorted, find_end_of_run}

module _ {ℓ} {A : Type ℓ} (less : A → A → Bool) where
  -- No element of the list, which follows a, is less than the one before it.
  abbrev pub Chain : A → List A → Type 0
  Chain a [] = Unit {0}
  Chain a (b ∷ rest) = (less b a ≡ false) × Chain b rest

  abbrev pub Sorted : List A → Type 0
  Sorted [] = Unit {0}
  Sorted (a ∷ rest) = Chain a rest

  sorted_from-Chain : (a : A) (rest : List A) → Chain a rest → sorted_from less a rest ≡ true
  sorted_from-Chain a [] c = refl
  sorted_from-Chain a (b ∷ rest) c = rw (c.0) (sorted_from-Chain b rest c.1)

  pub is_sorted-Sorted : (list : List A) → Sorted list → is_sorted less list ≡ true
  is_sorted-Sorted [] s = refl
  is_sorted-Sorted (a ∷ rest) s = sorted_from-Chain a rest s

  abbrev fall : Bool → ℕ
  fall down = if down then 1 else 0

  -- How often the list goes down after a, and the number of runs.
  abbrev pub descents : A → List A → ℕ
  descents a [] = 0
  descents a (b ∷ rest) = fall (less b a) + descents b rest

  abbrev pub runs : List A → ℕ
  runs [] = 0
  runs (a ∷ rest) = 1 + descents a rest

  pub Chain-descents : (a : A) (rest : List A) → Chain a rest → descents a rest ≡ 0
  Chain-descents a [] c = refl
  Chain-descents a (b ∷ rest) c = omega (arith, ap fall c.0, Chain-descents b rest c.1)

  pub descents-Chain : (a : A) (rest : List A) → descents a rest ≡ 0 → Chain a rest
  descents-Chain a [] h = tt
  descents-Chain a (b ∷ rest) h = elim (Bool-cases (less b a)) [
    | inl down ↦ absurd (omega (arith, ap fall down, h))
    | inr up ↦ (up, descents-Chain b rest (omega (arith, h)))
  ]

  pub runs-Sorted : (list : List A) → runs list ≤ 1 → Sorted list
  runs-Sorted [] h = tt
  runs-Sorted (a ∷ rest) h = descents-Chain a rest (omega (arith, h))

  pub Sorted-runs : (list : List A) → Sorted list → runs list ≤ 1
  Sorted-runs [] s = omega arith
  Sorted-runs (a ∷ rest) s = omega (arith, Chain-descents a rest s)

  at_most_one : (b : Bool) → fall b ≤ 1
  at_most_one true = omega arith
  at_most_one false = omega arith

  descents-append : (a : A) (xs ys : List A) → descents a (xs ++ ys) ≤ descents a xs + runs ys
  descents-append a [] [] = omega arith
  descents-append a [] (y ∷ ys) = omega (arith, at_most_one (less y a))
  descents-append a (x ∷ xs) ys = omega (arith, descents-append x xs ys)

  pub runs-append : (xs ys : List A) → runs (xs ++ ys) ≤ runs xs + runs ys
  runs-append [] ys = omega arith
  runs-append (x ∷ xs) ys = omega (arith, descents-append x xs ys)

  pub runs-length : (xs : List A) → runs xs ≤ length xs
  runs-length [] = omega arith
  runs-length (x ∷ xs) = go x xs
    where
      go : (a : A) (rest : List A) → 1 + descents a rest ≤ suc (length rest)
      go a [] = omega arith
      go a (b ∷ rest) = omega (arith, go b rest, at_most_one (less b a))

  -- The run found at a list: what follows it has one run less.
  pub record RunEnds (a : A) (rest run later : List A) : Type ℓ where
    pub split : rest ≡ run ++ later
    pub rises : Chain a run
    pub fewer : descents a rest ≡ runs later

  pub find_end_of_run-RunEnds :
      (a : A) (rest : List A)
      → RunEnds a rest (find_end_of_run less a rest).0 (find_end_of_run less a rest).1
  unfolding find_end_of_run
  find_end_of_run-RunEnds a [] = record { split = refl; rises = tt; fewer = refl }
  find_end_of_run-RunEnds a (b ∷ rest) = elim (Bool-cases (less b a)) [
    | inl down ↦
        let one : fall (less b a) ≡ 1 = ap fall down in
        rw down (record { split = refl; rises = tt; fewer = omega (arith, one) })
    | inr up ↦
        let none_down : fall (less b a) ≡ 0 = ap fall up in
        let later = find_end_of_run-RunEnds b rest in
        rw up (record {
          split = ap (λ l. b ∷ l) later.split;
          rises = (up, later.rises);
          fewer = omega (arith, none_down, later.fewer);
        })
  ]
