-- ===== src/Words/Bit.antt =====
-- One bit of a word.
use Prim.Native.Nat.{bit_and, bit_or, bit_xor, differ, bit_and-bitwise}
use cs.Words.Step.{and_low, or_low, xor_low}
use mathlib.Core.Bool.{xor}
use native.Mathlib.Decide.{ℕ_discrete}
use native.Mathlib.Nat.{pow-suc}
use cs.Base.{
  ℕ, zero, suc, ◌+◌, ◌-◌, ◌*◌, ◌/◌, ◌%◌, ◌^◌, ◌≤◌, ◌<◌, ◌≡◌, refl, Bool, true, false, not, ◌&&◌,
  ◌||◌, arith, ap, ◌==◌, if◌then◌else◌,
}

-- Bit k of w, counted from the lowest.
unfoldable pub bit : ℕ → ℕ → Bool
bit w zero = w % 2 == 1
bit w (suc k) = bit (w / 2) k

half_lem : (q r : ℕ) → r ≤ 1 → (q * 2 + r) / 2 ≡ q
half_lem q r h = omega arith

pub bit-bit_or : (a b k : ℕ) → bit (bit_or a b) k ≡ (bit a k || bit b k)
unfolding bit
bit-bit_or a b zero = ground (arith, or_low a b)
bit-bit_or a b (suc k) =
    let e : bit_or a b / 2 ≡ bit_or (a / 2) (b / 2) = omega (arith, or_low a b) in
    rw e (bit-bit_or (a / 2) (b / 2) k)

pub bit-bit_and : (a b k : ℕ) → bit (bit_and a b) k ≡ (bit a k && bit b k)
unfolding bit
bit-bit_and a b zero = ground (arith, and_low a b)
bit-bit_and a b (suc k) =
    let e : bit_and a b / 2 ≡ bit_and (a / 2) (b / 2) = omega (arith, and_low a b) in
    rw e (bit-bit_and (a / 2) (b / 2) k)

differ_bits : (a b : ℕ) → a ≤ 1 → b ≤ 1 → (differ a b == 1) ≡ xor (a == 1) (b == 1)
unfolding xor
differ_bits zero zero p q = refl
differ_bits zero (suc zero) p q = refl
differ_bits (suc zero) zero p q = refl
differ_bits (suc zero) (suc zero) p q = refl
differ_bits (suc (suc a)) b p q = absurd (omega arith)
differ_bits a (suc (suc b)) p q = absurd (omega arith)

differ-le : (a b : ℕ) → a ≤ 1 → b ≤ 1 → differ a b ≤ 1
differ-le zero zero p q = omega arith
differ-le zero (suc zero) p q = omega arith
differ-le (suc zero) zero p q = omega arith
differ-le (suc zero) (suc zero) p q = omega arith
differ-le (suc (suc a)) b p q = absurd (omega arith)
differ-le a (suc (suc b)) p q = absurd (omega arith)

pub bit-bit_xor : (a b k : ℕ) → bit (bit_xor a b) k ≡ xor (bit a k) (bit b k)
unfolding bit
bit-bit_xor a b zero =
    let e : bit_xor a b % 2 ≡ differ (a % 2) (b % 2) =
      omega (arith, xor_low a b, differ-le (a % 2) (b % 2) (omega arith) (omega arith)) in
    rw e (differ_bits (a % 2) (b % 2) (omega arith) (omega arith))
bit-bit_xor a b (suc k) =
    let e : bit_xor a b / 2 ≡ bit_xor (a / 2) (b / 2) =
      omega (arith, xor_low a b, differ-le (a % 2) (b % 2) (omega arith) (omega arith)) in
    rw e (bit-bit_xor (a / 2) (b / 2) k)

-- The bits of a one-bit mask, and of its complement in 32 bits.
every : (ℕ → Bool) → ℕ → Bool
every holds zero = true
every holds (suc m) = if holds m then every holds m else false

every-at : (holds : ℕ → Bool) (m k : ℕ) → k < m → every holds m ≡ true → holds k ≡ true
unfolding every
every-at holds zero k lt h = elim lt [ ]
every-at holds (suc m) k lt h = elim (ℕ_discrete k m) [
  | yes last ↦ rw last (ground arith)
  | no below ↦ every-at holds m k (omega arith) (ground arith)
]

same : Bool → Bool → Bool
same true b = b
same false b = not b

same_eq : (a b : Bool) → same a b ≡ true → a ≡ b
unfolding same
same_eq true b h = ground arith
same_eq false b h = ground arith

mask_ok : ℕ → ℕ → Bool
mask_ok k j = same (bit (2 ^ k) j) (k == j) && same (bit (2 ^ 32 - 1 - 2 ^ k) j) (not (k == j))

masks_ok : every (λ k. every (λ j. mask_ok k j) 32) 32 ≡ true
unfolding every mask_ok same bit
masks_ok = refl

mask_ok_below : (k j : ℕ) → k < 32 → j < 32 → mask_ok k j ≡ true
mask_ok_below k j hk hj =
    every-at (λ j. mask_ok k j) 32 j hj
      (every-at (λ k. every (λ j. mask_ok k j) 32) 32 k hk masks_ok)

and_left : (a b : Bool) → (a && b) ≡ true → a ≡ true
and_left a b h = ground arith

and_right : (a b : Bool) → (a && b) ≡ true → b ≡ true
and_right a b h = ground arith

pub bit-pow : (k j : ℕ) → k < 32 → j < 32 → bit (2 ^ k) j ≡ (k == j)
unfolding mask_ok
bit-pow k j hk hj = same_eq _ _ (and_left _ _ (mask_ok_below k j hk hj))

pub bit-not_pow : (k j : ℕ) → k < 32 → j < 32 → bit (2 ^ 32 - 1 - 2 ^ k) j ≡ not (k == j)
unfolding mask_ok
bit-not_pow k j hk hj = same_eq _ _ (and_right _ _ (mask_ok_below k j hk hj))

nothing_common : (bound a : ℕ) → a ≤ bound → bit_and a 0 ≡ 0
nothing_common bound zero le = refl
nothing_common zero (suc a) le = elim le [ ]
nothing_common (suc bound) (suc a) le =
    let half = nothing_common bound (suc a / 2) (omega arith) in
    omega (arith, and_low (suc a) 0, half)

-- A word has a common bit with a one-bit mask exactly when that bit is set.
pub bit_and-pow : (w k : ℕ) → bit_and w (2 ^ k) ≡ (if bit w k then 2 ^ k else 0)
unfolding bit
bit_and-pow w zero = ground (arith, and_low w 1, nothing_common (w / 2) (w / 2) (omega arith))
bit_and-pow w (suc k) =
    let e : 2 ^ suc k / 2 ≡ 2 ^ k = omega (arith, pow-suc 2 k) in
    ground
      (arith, pow-suc 2 k, and_low w (2 ^ suc k), ap (bit_and (w / 2)) e, bit_and-pow (w / 2) k)

pow_pos : (k : ℕ) → 0 < 2 ^ k
pow_pos zero = omega arith
pow_pos (suc k) = omega (arith, pow-suc 2 k, pow_pos k)

-- `(w & mask) != 0`, as the code asks it.
pub mask_test : (w k : ℕ) → not (bit_and w (2 ^ k) == 0) ≡ bit w k
mask_test w k = ground (arith, bit_and-pow w k, pow_pos k)

bit_and_zero : (b : ℕ) → bit_and 0 b ≡ 0
bit_and_zero b = rw (bit_and-bitwise 0 b) refl

bit_and_bound : (n a b : ℕ) → a ≤ n → bit_and a b ≤ b
bit_and_bound zero zero b le = omega (arith, bit_and_zero b)
bit_and_bound zero (suc a) b le = absurd (omega (arith, le))
bit_and_bound (suc n) a b le =
    let half = bit_and_bound n (a / 2) (b / 2) (omega (arith, le)) in
    omega (arith, and_low a b, half)

-- `a & b` is at most b.
pub bit_and-le : (a b : ℕ) → bit_and a b ≤ b
bit_and-le a b = bit_and_bound a a b (omega arith)
