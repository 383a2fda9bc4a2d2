-- ===== src/Libc/Search/Half.antt =====
-- stdlib.c, `binary_search`: what each half of the array can hold.
use cs.Base.{
  ℕ, zero, suc, ◌+◌, ◌-◌, ◌/◌, ◌≤◌, ◌<◌, ◌≡◌, ◌≢◌, refl, sym, ap, ◌∙◌, subst, true, Bool-cases,
  Option, none, some, some-injective, List, [], ◌∷◌, ltb, get_elem?, length, ◌>>=◌, ◌⊎◌, inl, inr,
  arith,
}
use cs.Libc.Block.{Sign, below, same, above}
use cs.Libc.Search.{search_from, binary_search}

Sign-cases : (c : Sign) → (c ≡ below) ⊎ ((c ≡ same) ⊎ (c ≡ above))
Sign-cases below = inl refl
Sign-cases same = inr (inl refl)
Sign-cases above = inr (inr refl)

get_elem?-some :
    {A : Type 0} (l : List A) (i : ℕ) → i < length l → (a : A) × (get_elem? l i ≡ some a)
get_elem?-some [] i lt = absurd (omega (arith, lt))
get_elem?-some (x ∷ xs) zero lt = (x, refl)
get_elem?-some (x ∷ xs) (suc i) lt = get_elem?-some xs i (omega (arith, lt))

module _ {A : Type 0} (compare : A → A → Sign) (key : A) (array : List A) where
  -- The comparison with the element at an index gives that sign.
  abbrev pub Gives : ℕ → Sign → Type 0
  Gives i c = (a : A) × (get_elem? array i ≡ some a) × (compare key a ≡ c)

  -- The array is in order for the key: when it is below an element, it is below the later ones, and
  -- when it is above one, above the earlier ones.
  pub record IsOrdered : Type 0 where
    pub after : (i j : ℕ) → i < j → j < length array → Gives i below → Gives j below
    pub before : (i j : ℕ) → i < j → j < length array → Gives j above → Gives i above

  -- What the search answers: an element that is the same as the key, or that there is none.
  abbrev pub Answers : Option ℕ → Type 0
  Answers none = (i : ℕ) → i < length array → Gives i same → ⊥
  Answers (some i) = (i < length array) × Gives i same

  apart : (c c' : Sign) (i : ℕ) → c ≢ c' → Gives i c → Gives i c' → ⊥
  apart c c' i ne (a, e, g) (a', e', g') =
      ne (sym g ∙ ap (compare key) (some-injective _ _ (sym e ∙ e')) ∙ g')

  apart_signs : (below ≢ same) × (above ≢ same)
  apart_signs = (λ e. cc e, λ e. cc e)

  -- A round of the loop, from what it reads and compares.
  search_from_round :
      (fuel first last : ℕ) (a : A)
      → ltb first last ≡ true
      → get_elem? array (first + (last - first) / 2) ≡ some a
      → search_from compare key array (suc fuel) first last ≡ elim (compare key a) [
        | below ↦ search_from compare key array fuel first (first + (last - first) / 2)
        | above ↦ search_from compare key array fuel (first + (last - first) / 2 + 1) last
        | same ↦ some (some (first + (last - first) / 2))
      ]
  unfolding search_from
  search_from_round fuel first last a more e =
      rw (search_from, more)
        (ap
          (λ o. o >>= (λ element. elim (compare key element) [
            | below ↦ search_from compare key array fuel first (first + (last - first) / 2)
            | above ↦ search_from compare key array fuel (first + (last - first) / 2 + 1) last
            | same ↦ some (some (first + (last - first) / 2))
          ]))
          e)

  search_from-Answers :
      (fuel first last : ℕ)
      → IsOrdered
      → last - first < fuel
      → last ≤ length array
      → ((i : ℕ) → i < first → i < length array → Gives i above)
      → ((i : ℕ) → last ≤ i → i < length array → Gives i below)
      → (r : Option ℕ) × (search_from compare key array fuel first last ≡ some r) × Answers r
  unfolding search_from
  search_from-Answers zero first last o enough inside low high = absurd (omega (arith, enough))
  search_from-Answers (suc fuel) first last o enough inside low high =
      elim (Bool-cases (ltb first last)) [
        | inr ended ↦ (
          none,
          rw (search_from, ended) refl,
          λ i lt g. elim (Bool-cases (ltb i first)) [
            | inl left ↦ apart above same i apart_signs.1 (low i (ground (arith, left)) lt) g
            | inr right ↦
                apart below same i apart_signs.0 (high i (ground (arith, right, ended)) lt) g
          ],
        )
        | inl more ↦
            let middle = first + (last - first) / 2 in
            let lt : first < last = ground (arith, more) in
            let here : middle < last = omega (arith, lt) in
            let (a, e) = get_elem?-some array middle (omega (arith, here, inside)) in
            let round = search_from_round fuel first last a more e in
            elim (Sign-cases (compare key a)) [
              | inl c ↦
                  let (r, run, ans) =
                    search_from-Answers fuel first middle o (omega (arith, lt, enough))
                      (omega (arith, here, inside)) low
                      (λ i le m. elim (Bool-cases (ltb middle i)) [
                        | inl later ↦ o.after middle i (ground (arith, later)) m (a, e, c)
                        | inr not_later ↦
                            let at : middle ≡ i = ground (arith, not_later, le) in
                            subst (λ k. Gives k below) at (a, e, c)
                      ]) in
                  (r, round ∙ rw c run, ans)
              | inr other ↦ elim other [
                | inl c ↦ (some middle, round ∙ rw c refl, (omega (arith, here, inside), (a, e, c)))
                | inr c ↦
                    let (r, run, ans) =
                      search_from-Answers fuel (middle + 1) last o (omega (arith, lt, enough, here))
                        inside
                        (λ i le m. elim (Bool-cases (ltb i middle)) [
                          | inl earlier ↦
                              o.before i middle (ground (arith, earlier))
                                (omega (arith, here, inside)) (a, e, c)
                          | inr not_earlier ↦
                              let at : middle ≡ i = ground (arith, not_earlier, le) in
                              subst (λ k. Gives k above) at (a, e, c)
                        ])
                        high in
                    (r, round ∙ rw c run, ans)
              ]
            ]
      ]

  -- `binary_search` of an array that is in order for the key ends without a read outside the array:
  -- it answers an element that is the same as the key, or that there is none.
  pub binary_search-Answers :
      IsOrdered → (r : Option ℕ) × (binary_search compare key array ≡ some r) × Answers r
  unfolding binary_search
  binary_search-Answers o =
      search_from-Answers (length array + 1) 0 (length array) o (omega arith) (omega arith)
        (λ i lt m. absurd (omega (arith, lt))) (λ i le m. absurd (omega (arith, le, m)))
