-- ===== src/Kernel/Hash/Count.antt =====
-- hash.c: the number of buckets is found, and is not zero.
use cs.Base.{
  ℕ, zero, suc, ◌+◌, ◌-◌, ◌/◌, ◌^◌, ◌≤◌, ◌<◌, ◌≡◌, refl, true, false, Bool-cases, inl, inr, some,
  ltb, if◌then◌else◌, arith,
}
use cs.Words.Bit.{bit_and-le}
use cs.Kernel.Hash.{
  Hasher, home, down, turn_off_least_1bit, is_power_of_2, round_down, new_bucket_cnt,
}

down_pos : (n : ℕ) → 0 < n → n < 2 ^ 32 → down n ≡ n - 1
down_pos n pos small = omega arith

-- A bucket of the table.
pub home-lt : (h : Hasher) (n e : ℕ) → 0 < n → n < 2 ^ 32 → home h n e < n
home-lt h n e pos small = omega (arith, bit_and-le (h.hash e) (down n), down_pos n pos small)

turn_off-lt : (y : ℕ) → 0 < y → y < 2 ^ 32 → turn_off_least_1bit y < y
unfolding turn_off_least_1bit
turn_off-lt y pos small = omega (arith, bit_and-le y (down y), down_pos y pos small)

turn_off_pos : (y : ℕ) → 0 < y → is_power_of_2 y ≡ false → 0 < turn_off_least_1bit y
unfolding is_power_of_2
turn_off_pos y pos other = ground arith

round_down-some :
    (fuel x : ℕ)
    → x < fuel
    → 0 < x
    → x < 2 ^ 32
    → (n : ℕ) × (round_down fuel x ≡ some n) × (0 < n) × (n ≤ x) × (is_power_of_2 n ≡ true)
unfolding round_down
round_down-some zero x lt pos small = absurd (omega (arith, lt))
round_down-some (suc fuel) x lt pos small = elim (Bool-cases (is_power_of_2 x)) [
  | inl power ↦ (x, rw power refl, pos, omega arith, power)
  | inr other ↦
      let le = turn_off-lt x pos small in
      let (n, e, p, b, q) =
        round_down-some fuel (turn_off_least_1bit x) (omega (arith, le, lt))
          (turn_off_pos x pos other) (omega (arith, le, small)) in
      (n, rw other e, p, omega (arith, b, le), q)
]

-- The number of buckets that `rehash` works out: a power of 2, 4 at least unless there is nothing
-- smaller, and no more than is wanted.
pub new_bucket_cnt-some :
    (elem_cnt : ℕ)
    → elem_cnt < 2 ^ 32
    → (n : ℕ) × (new_bucket_cnt elem_cnt ≡ some n)
      × (0 < n)
      × (n < 2 ^ 32)
      × (is_power_of_2 n ≡ true)
unfolding new_bucket_cnt
new_bucket_cnt-some elem_cnt small =
    let wanted = if ltb (elem_cnt / 2) 4 then 4 else elem_cnt / 2 in
    let bound : wanted < 2 ^ 32 = ground arith in
    let pos : 0 < wanted = ground arith in
    let (n, e, p, le, q) = round_down-some (wanted + 1) wanted (omega arith) pos bound in
    (n, e, p, omega (arith, le, bound), q)
