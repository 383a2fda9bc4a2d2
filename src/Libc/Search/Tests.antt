-- ===== src/Libc/Search/Tests.antt =====
-- The search for 5 in the array 1, 5, 9.
use cs.Base.{
  ℕ, zero, suc, ◌<◌, ◌≡◌, refl, ap, some-injective, Option, some, List, [], ◌∷◌, ltb, if◌then◌else◌,
  arith,
}
use cs.Libc.Block.{Sign, below, same, above}
use cs.Libc.Search.{search_from, binary_search}
use cs.Libc.Search.Half.{Gives, IsOrdered, Answers, binary_search-Answers}

abbrev by_value : ℕ → ℕ → Sign
by_value a b = if ltb a b then below else if ltb b a then above else same

abbrev three : List ℕ
three = 1 ∷ 5 ∷ 9 ∷ []

at_one : binary_search by_value 5 three ≡ some (some 1)
unfolding binary_search search_from
at_one = refl

after_five :
    (i j : ℕ) → i < j → j < 3 → Gives by_value 5 three i below → Gives by_value 5 three j below
after_five i zero lt m g = absurd (omega (arith, lt))
after_five zero (suc zero) lt m (a, e, c) = absurd (cc (c, ap (by_value 5) (some-injective 1 a e)))
after_five (suc i) (suc zero) lt m g = absurd (omega (arith, lt))
after_five i (suc (suc zero)) lt m g = (9, refl, refl)
after_five i (suc (suc (suc j))) lt m g = absurd (omega (arith, m))

before_five :
    (i j : ℕ) → i < j → j < 3 → Gives by_value 5 three j above → Gives by_value 5 three i above
before_five zero j lt m g = (1, refl, refl)
before_five (suc zero) zero lt m g = absurd (omega (arith, lt))
before_five (suc zero) (suc zero) lt m g = absurd (omega (arith, lt))
before_five (suc zero) (suc (suc zero)) lt m (a, e, c) =
    absurd (cc (c, ap (by_value 5) (some-injective 9 a e)))
before_five (suc zero) (suc (suc (suc j))) lt m g = absurd (omega (arith, m))
before_five (suc (suc i)) j lt m g = absurd (omega (arith, lt, m))

three-IsOrdered : IsOrdered by_value 5 three
three-IsOrdered = record {
  after = λ i j lt m g. after_five i j lt m g;
  before = λ i j lt m g. before_five i j lt m g;
}

binary_search-Answers_example :
    (r : Option ℕ) × (binary_search by_value 5 three ≡ some r) × Answers by_value 5 three r
binary_search-Answers_example = binary_search-Answers by_value 5 three three-IsOrdered
