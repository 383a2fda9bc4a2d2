-- ===== src/Libc/Text/Search.antt =====
-- string.c: searching a text for another.
use native.Mathlib.Decide.{dec_lt, ℕ_discrete}
use cs.Base.{
  ℕ, zero, suc, ◌+◌, ◌-◌, ◌<◌, ◌≤◌, ◌≡◌, ◌≢◌, refl, subst, ◌⊎◌, inl, inr, false, true, Option, none,
  some, List, leb, length, arith,
}
use cs.Libc.Block.{Sign, below, same, above}
use cs.Libc.Block.Compare.{Matches, Differs, memcmp-Compares, Differs-Matches}
use cs.Libc.Text.{is_same, strstr, strstr_from}
use cs.Libc.Text.Length.{IsText, strlen-IsText}

-- The needle stands at the i-th byte of the haystack and at none before, from `start` on.
pub record FirstAt (m : List ℕ) (haystack needle k start i : ℕ) : Type 0 where
  pub matches : Matches m (haystack + i) needle k
  pub least : (j : ℕ) → start ≤ j → j < i → ¬ Matches m (haystack + j) needle k

-- What a search through the places from `start` to `end` answers.
abbrev pub Finds : List ℕ → ℕ → ℕ → ℕ → ℕ → ℕ → Option (Option ℕ) → Type 0
Finds m haystack needle k start end r =
    ((i : ℕ) × (start ≤ i)
      × (i < end)
      × FirstAt m haystack needle k start i
      × (r ≡ some (some (haystack + i))))
    ⊎ (((j : ℕ) → start ≤ j → j < end → ¬ Matches m (haystack + j) needle k) × (r ≡ some none))

is_same-Differs : (m : List ℕ) (a b size : ℕ) (r : Sign) → Differs m a b size r → is_same r ≡ false
is_same-Differs m a b size below d = refl
is_same-Differs m a b size same d = absurd (d.order)
is_same-Differs m a b size above d = refl

Finds-later :
    (m : List ℕ) (haystack needle k start rounds : ℕ) (r : Option (Option ℕ))
    → ¬ Matches m (haystack + start) needle k
    → Finds m haystack needle k (start + 1) (start + 1 + rounds) r
    → Finds m haystack needle k start (start + suc rounds) r
Finds-later m haystack needle k start rounds r not_here (inl (i, le, lt, f, e)) =
    inl (i, omega arith, omega arith, record { matches = f.matches; least = least }, e)
  where
    least : (j : ℕ) → start ≤ j → j < i → ¬ Matches m (haystack + j) needle k
    least j le' lt' = elim (ℕ_discrete start j) [
      | yes same_j ↦ subst (λ x. ¬ Matches m (haystack + x) needle k) same_j not_here
      | no other ↦ f.least j (omega arith) lt'
    ]
Finds-later m haystack needle k start rounds r not_here (inr (h, e)) = inr (nowhere, e)
  where
    nowhere : (j : ℕ) → start ≤ j → j < start + suc rounds → ¬ Matches m (haystack + j) needle k
    nowhere j le lt = elim (ℕ_discrete start j) [
      | yes same_j ↦ subst (λ x. ¬ Matches m (haystack + x) needle k) same_j not_here
      | no other ↦ h j (omega arith) (omega arith)
    ]

strstr_from-Finds :
    (m : List ℕ) (haystack needle k rounds start : ℕ)
    → (rounds ≢ 0 → haystack + start + (rounds - 1) + k ≤ length m)
    → needle + k ≤ length m
    → Finds m haystack needle k start
        (start + rounds)
        (strstr_from m rounds start haystack needle k)
unfolding strstr_from
strstr_from-Finds m haystack needle k zero start hh hn = inr (λ j le lt. absurd (omega arith), refl)
strstr_from-Finds m haystack needle k (suc rounds) start hh hn =
    elim (memcmp-Compares m (haystack + start) needle k (omega (arith, hh (λ e. omega (arith, e))))
      hn) [
        | inl (e, h) ↦ inl (
          start,
          omega arith,
          omega arith,
          record { matches = h; least = λ j le lt. absurd (omega arith) },
          rw e refl,
        )
        | inr (r, e, d) ↦
            let other = is_same-Differs m (haystack + start) needle k r d in
            let not_here = Differs-Matches m (haystack + start) needle k r d in
            let rest =
              strstr_from-Finds m haystack needle k rounds (start + 1)
                (λ ne. omega (arith, hh (λ e. omega (arith, e)))) hn in
            rw (e, other) (Finds-later m haystack needle k start rounds _ not_here rest)
      ]

-- `strstr` of two texts ends inside the memory. It answers the first place where the haystack holds
-- the needle, or NULL when there is none.
pub strstr-Finds :
    (m : List ℕ) (haystack needle n k : ℕ)
    → IsText m haystack n
    → IsText m needle k
    → Finds m haystack needle k 0 (n + 1 - k) (strstr m haystack needle)
unfolding strstr
strstr-Finds m haystack needle n k th tn = elim (dec_lt n k) [
  | yes longer ↦
      let never : leb k n ≡ false = ground arith in
      inr (
        λ j le lt. absurd (omega arith),
        rw (strlen-IsText m haystack n th, strlen-IsText m needle k tn, never) refl,
      )
  | no fits ↦
      let tried : leb k n ≡ true = ground arith in
      let all : n + 1 - k ≡ 0 + (n - k + 1) = omega arith in
      rw (strlen-IsText m haystack n th, strlen-IsText m needle k tn, tried, all)
        (strstr_from-Finds m haystack needle k (n - k + 1) 0 (λ ne. omega (arith, th.inside))
          (omega (arith, tn.inside)))
]
