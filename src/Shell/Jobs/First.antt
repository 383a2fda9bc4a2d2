-- ===== src/Shell/Jobs/First.antt =====
-- jobs.c: what the scan of the array finds.
use native.Mathlib.Decide.{dec_lt}
use cs.Base.{
  ℕ, zero, suc, ◌<◌, ◌≡◌, refl, ap, ◌∙◌, ◌⊎◌, inl, inr, Bool, true, false, none, some, List, [],
  ◌∷◌, get_or, length, Bool-cases, arith,
}
use cs.Shell.Jobs.{Job, clearjob, first}

abbrev pub entry : List Job → ℕ → Job
entry jobs i = get_or jobs i clearjob

module _ (p : Job → Bool) where
  -- Index i is the first of the array that passes the test.
  pub record IsFirst (jobs : List Job) (i : ℕ) : Type 0 where
    pub inside : i < length jobs
    pub passes : p (entry jobs i) ≡ true
    pub least : (k : ℕ) → k < i → p (entry jobs k) ≡ false

  -- No entry passes.
  abbrev pub NoneIs : List Job → Type 0
  NoneIs jobs = (k : ℕ) → k < length jobs → p (entry jobs k) ≡ false

  pub NoneIs-cons :
      (job : Job) (jobs : List Job) → p job ≡ false → NoneIs jobs → NoneIs (job ∷ jobs)
  NoneIs-cons job jobs h n zero lt = h
  NoneIs-cons job jobs h n (suc k) lt = n k (omega arith)

  IsFirst-cons :
      (job : Job) (jobs : List Job) (i : ℕ)
      → p job ≡ false
      → IsFirst jobs i
      → IsFirst (job ∷ jobs) (suc i)
  IsFirst-cons job jobs i h f = record {
    inside = omega (arith, f.inside);
    passes = f.passes;
    least = λ k lt. below k lt;
  }
    where
      below : (k : ℕ) → k < suc i → p (entry (job ∷ jobs) k) ≡ false
      below zero lt = h
      below (suc k) lt = f.least k (omega arith)

  -- The scan finds the first entry that passes, or there is none.
  pub first-cases :
      (jobs : List Job)
      → ((i : ℕ) × (first p jobs ≡ some i) × IsFirst jobs i) ⊎ ((first p jobs ≡ none) × NoneIs jobs)
  unfolding first
  first-cases [] = inr (refl, λ k lt. absurd (omega arith))
  first-cases (job ∷ jobs) = elim (Bool-cases (p job)) [
    | inl hit ↦ inl (
      0,
      rw hit refl,
      record { inside = omega arith; passes = hit; least = λ k lt. absurd (omega arith) },
    )
    | inr miss ↦ elim (first-cases jobs) [
      | inl (i, e, f) ↦ inl (suc i, rw (miss, e) refl, IsFirst-cons job jobs i miss f)
      | inr (e, n) ↦ inr (rw (miss, e) refl, NoneIs-cons job jobs miss n)
    ]
  ]

  -- There is at most one first entry, and the scan finds it.
  pub first-found : (jobs : List Job) (i : ℕ) → IsFirst jobs i → first p jobs ≡ some i
  first-found jobs i f = elim (first-cases jobs) [
    | inl (k, e, g) ↦ elim (dec_lt i k) [
      | yes before ↦ cc (f.passes, g.least i before)
      | no late ↦ elim (dec_lt k i) [
        | yes after ↦ cc (g.passes, f.least k after)
        | no early ↦ let same : k ≡ i = omega arith in e ∙ ap some same
      ]
    ]
    | inr (e, n) ↦ cc (f.passes, n i f.inside)
  ]
