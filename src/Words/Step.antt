-- ===== src/Words/Step.antt =====
-- How `&`, `|` and `^` act on the lowest digit of two words, for all three at once.
use Prim.Native.Nat.{digits, differ, bit_and, bit_or, bit_xor}
use Prim.Native.Nat.{bit_and-bitwise, bit_or-bitwise, bit_xor-bitwise}
use cs.Base.{ℕ, zero, suc, ◌+◌, ◌*◌, ◌/◌, ◌%◌, ◌≤◌, min, max, ◌≡◌, refl, sym, ap, ◌∙◌, arith}

-- A digit operation f, and the result z when the left word has no digits left; `tail` says that z
-- is what f makes of digits 0.
module _ (z : ℕ → ℕ) (f : ℕ → ℕ → ℕ) (tail : (b : ℕ) → z b ≡ z (b / 2) * 2 + f 0 (b % 2)) where
  spent : (n b : ℕ) → digits z f n 0 b ≡ z b
  spent zero b = refl
  spent (suc n) b = refl

  -- A count of digits that covers the left word gives what any larger count gives.
  settle : (k n a b : ℕ) → a ≤ k → k ≤ n → digits z f n a b ≡ digits z f k a b
  settle k n zero b p q = spent n b ∙ sym (spent k b)
  settle zero n (suc a) b p q = elim p [ ]
  settle (suc k) zero (suc a) b p q = elim q [ ]
  settle (suc k) (suc n) (suc a) b p q =
      ap (λ m. m * 2 + f (suc a % 2) (b % 2))
        (settle k n (suc a / 2) (b / 2) (omega arith) (omega arith))

  low_digit :
      (a b : ℕ) → digits z f a a b ≡ digits z f (a / 2) (a / 2) (b / 2) * 2 + f (a % 2) (b % 2)
  low_digit zero b = tail b
  low_digit (suc a) b =
      ap (λ m. m * 2 + f (suc a % 2) (b % 2))
        (settle (suc a / 2) a (suc a / 2) (b / 2) (omega arith) (omega arith))

differ-zero : (b : ℕ) → b ≤ 1 → differ 0 b ≡ b
differ-zero zero h = refl
differ-zero (suc zero) h = refl
differ-zero (suc (suc b)) h = absurd (omega arith)

pub and_low : (a b : ℕ) → bit_and a b ≡ bit_and (a / 2) (b / 2) * 2 + min (a % 2) (b % 2)
and_low a b =
    rw (bit_and-bitwise a b, bit_and-bitwise (a / 2) (b / 2))
      (low_digit (λ b. zero) min (λ b. omega arith) a b)

pub or_low : (a b : ℕ) → bit_or a b ≡ bit_or (a / 2) (b / 2) * 2 + max (a % 2) (b % 2)
or_low a b =
    rw (bit_or-bitwise a b, bit_or-bitwise (a / 2) (b / 2))
      (low_digit (λ b. b) max (λ b. omega arith) a b)

pub xor_low : (a b : ℕ) → bit_xor a b ≡ bit_xor (a / 2) (b / 2) * 2 + differ (a % 2) (b % 2)
xor_low a b =
    rw (bit_xor-bitwise a b, bit_xor-bitwise (a / 2) (b / 2))
      (low_digit (λ b. b) differ (λ b. omega (arith, differ-zero (b % 2) (omega arith))) a b)
