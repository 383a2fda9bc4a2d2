-- ===== src/Bitmap/Tally.antt =====
-- Counting bits: what a count says of the bits, and how writing one bit changes it.
use cs.Base.{
  ℕ, zero, suc, ◌+◌, ◌≤◌, ◌<◌, ◌≡◌, refl, sym, ◌⊎◌, inl, inr, Bool, true, false, arith, Bool-cases,
}
use native.Mathlib.Decide.{ℕ_discrete}
use cs.Bitmap.Multiple.{tally}

-- A positive count has a bit to show.
pub tally_pos :
    (bits : ℕ → Bool) (n i : ℕ)
    → 0 < tally bits false n i
    → (j : ℕ) × (i ≤ j) × (j < i + n) × (bits j ≡ false)
unfolding tally
tally_pos bits zero i h = absurd (omega arith)
tally_pos bits (suc n) i h = elim (Bool-cases (bits i)) [
  | inl used ↦
      let (j, p, q, r) = tally_pos bits n (i + 1) (ground arith) in (j, omega arith, omega arith, r)
  | inr free ↦ (i, omega arith, omega arith, free)
]

pub tally_zero :
    (bits : ℕ → Bool) (n i j : ℕ) → tally bits false n i ≡ 0 → i ≤ j → j < i + n → bits j ≡ true
unfolding tally
tally_zero bits zero i j h p q = absurd (omega arith)
tally_zero bits (suc n) i j h p q = elim (ℕ_discrete j i) [
  | yes here ↦ ground arith
  | no there ↦ tally_zero bits n (i + 1) j (ground arith) (omega arith) (omega arith)
]

-- Bits that agree have the same count.
pub tally_cong :
    (f g : ℕ → Bool) (n i : ℕ)
    → ((j : ℕ) → i ≤ j → j < i + n → f j ≡ g j)
    → tally f false n i ≡ tally g false n i
unfolding tally
tally_cong f g zero i h = refl
tally_cong f g (suc n) i h =
    ground (arith, h i, tally_cong f g n (i + 1) (λ j p q. h j (omega arith) (omega arith)))

-- A false bit that becomes true takes one from the count of false ones.
pub tally_take :
    (f g : ℕ → Bool) (n i s : ℕ)
    → i ≤ s
    → s < i + n
    → f s ≡ false
    → g s ≡ true
    → ((j : ℕ) → (j < s) ⊎ (s < j) → g j ≡ f j)
    → tally f false n i ≡ suc (tally g false n i)
unfolding tally
tally_take f g zero i s p q u w h = absurd (omega arith)
tally_take f g (suc n) i s p q u w h = elim (ℕ_discrete s i) [
  | yes here ↦
      let rest = tally_cong f g n (i + 1) (λ j a b. sym (h j (inr (omega arith)))) in ground arith
  | no there ↦
      ground (
        arith,
        h i (inl (omega arith)),
        tally_take f g n (i + 1) s (omega arith) (omega arith) u w h,
      )
]
