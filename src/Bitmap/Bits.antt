-- ===== src/Bitmap/Bits.antt =====
-- bitmap.c, single bits: the packed elements behave as an array of Booleans.
use cs.Base.{
  ℕ, ◌+◌, ◌-◌, ◌/◌, ◌%◌, ◌^◌, ◌≤◌, ◌<◌, ◌≡◌, refl, Bool, true, false, not, ◌⊎◌, none, some, ltb,
  ◌>>=◌, ◌==◌, if◌then◌else◌, length, get_or, set as store, length-set, get_or-set_self,
  get_or-set_ne, ap, arith,
}
use Prim.Native.Nat.{bit_and, bit_or, bit_xor}
use mathlib.Core.Bool.{xor}
use native.Mathlib.Decide.{ℕ_discrete}
use cs.Words.Bit.{bit, bit-bit_or, bit-bit_and, bit-bit_xor, bit-pow, bit-not_pow, mask_test}
use cs.Bitmap.{Bitmap, mark, reset, flip, set, test}

-- The storage is as long as `bitmap_create` asks for, and no `size_t` sum below the size wraps.
pub record IsValid (b : Bitmap) : Type 0 where
  pub storage : length b.bits ≡ (b.bit_cnt + 31) / 32
  pub small : b.bit_cnt + 32 < 2 ^ 32

-- The Boolean array that a bitmap stands for.
unfoldable pub view : Bitmap → ℕ → Bool
unfolding bit
view b i = bit (get_or b.bits (i / 32) 0) (i % 32)

-- One element rewritten by a word operation that acts on each bit by itself.
view-store :
    {b : Bitmap} (i j w : ℕ) (on : Bool → Bool)
    → IsValid b
    → i < b.bit_cnt
    → ((k : ℕ)
        → k < 32
        → bit w k ≡ (
            if i % 32 == k
            then on (bit (get_or b.bits (i / 32) 0) k)
            else bit (get_or b.bits (i / 32) 0) k))
    → bit (get_or (store b.bits (i / 32) w) (j / 32) 0) (j % 32)
      ≡ (if i == j then on (view b j) else view b j)
unfolding view
view-store {b} i j w on v h word = elim (ℕ_discrete (i / 32) (j / 32)) [
  | yes e ↦ ground (
    arith,
    get_or-set_self b.bits (i / 32) w 0 (omega arith),
    word (j % 32) (omega arith),
    ap (λ k. get_or (store b.bits (i / 32) w) k 0) e,
    ap (λ k. get_or b.bits k 0) e,
  )
  | no ne ↦ ground (arith, get_or-set_ne b.bits (i / 32) (j / 32) w 0 ne)
]

-- Marking a bit sets it and no other.
pub view-mark :
    {b : Bitmap} (i j : ℕ)
    → IsValid b
    → i < b.bit_cnt
    → view (mark b i) j ≡ (if i == j then true else view b j)
unfolding view mark
view-mark {b} i j v h =
    view-store i j _ (λ _. true) v h
      (λ k hk.
        ground (arith, bit-bit_or (get_or b.bits (i / 32) 0) (2 ^ (i % 32)) k, bit-pow (i % 32) k))

pub view-reset :
    {b : Bitmap} (i j : ℕ)
    → IsValid b
    → i < b.bit_cnt
    → view (reset b i) j ≡ (if i == j then false else view b j)
unfolding view reset
view-reset {b} i j v h =
    view-store i j _ (λ _. false) v h
      (λ k hk. ground (
        arith,
        bit-bit_and (get_or b.bits (i / 32) 0) (2 ^ 32 - 1 - 2 ^ (i % 32)) k,
        bit-not_pow (i % 32) k,
      ))

pub view-flip :
    {b : Bitmap} (i j : ℕ)
    → IsValid b
    → i < b.bit_cnt
    → view (flip b i) j ≡ (if i == j then not (view b j) else view b j)
unfolding view flip xor
view-flip {b} i j v h = view-store i j _ not v h (λ k hk.
    ground (arith, bit-bit_xor (get_or b.bits (i / 32) 0) (2 ^ (i % 32)) k, bit-pow (i % 32) k))

pub mark-IsValid : {b : Bitmap} (i : ℕ) → IsValid b → IsValid (mark b i)
unfolding mark
mark-IsValid {b} i v =
    ground (arith, length-set b.bits (i / 32) (bit_or (get_or b.bits (i / 32) 0) (2 ^ (i % 32))))

pub reset-IsValid : {b : Bitmap} (i : ℕ) → IsValid b → IsValid (reset b i)
unfolding reset
reset-IsValid {b} i v = ground (
  arith,
  length-set b.bits (i / 32) (bit_and (get_or b.bits (i / 32) 0) (2 ^ 32 - 1 - 2 ^ (i % 32))),
)

pub flip-IsValid : {b : Bitmap} (i : ℕ) → IsValid b → IsValid (flip b i)
unfolding flip
flip-IsValid {b} i v =
    ground (arith, length-set b.bits (i / 32) (bit_xor (get_or b.bits (i / 32) 0) (2 ^ (i % 32))))

-- What a write of `value` to the `cnt` bits from `start` on leaves.
pub record Filled (b : Bitmap) (start cnt : ℕ) (value : Bool) (b' : Bitmap) : Type 0 where
  pub valid : IsValid b'
  pub same_cnt : b'.bit_cnt ≡ b.bit_cnt
  pub inside : (j : ℕ) → start ≤ j → j < start + cnt → view b' j ≡ value
  pub outside : (j : ℕ) → (j < start) ⊎ (start + cnt ≤ j) → view b' j ≡ view b j

pub bit_cnt-mark : (b : Bitmap) (i : ℕ) → (mark b i).bit_cnt ≡ b.bit_cnt
unfolding mark
bit_cnt-mark b i = refl

pub bit_cnt-reset : (b : Bitmap) (i : ℕ) → (reset b i).bit_cnt ≡ b.bit_cnt
unfolding reset
bit_cnt-reset b i = refl

pub bit_cnt-flip : (b : Bitmap) (i : ℕ) → (flip b i).bit_cnt ≡ b.bit_cnt
unfolding flip
bit_cnt-flip b i = refl

-- `bitmap_set` in range succeeds, and writes that one bit.
pub set-Filled :
    {b : Bitmap} (i : ℕ) (value : Bool)
    → IsValid b
    → i < b.bit_cnt
    → (b' : Bitmap) × (set b i value ≡ some b') × Filled b i 1 value b'
unfolding set
set-Filled {b} i true v h = (
  mark b i,
  ground arith,
  record {
    valid = mark-IsValid i v;
    same_cnt = bit_cnt-mark b i;
    inside = λ j p q. ground (arith, view-mark i j v h);
    outside = λ j o. ground (arith, view-mark i j v h);
  },
)
set-Filled {b} i false v h = (
  reset b i,
  ground arith,
  record {
    valid = reset-IsValid i v;
    same_cnt = bit_cnt-reset b i;
    inside = λ j p q. ground (arith, view-reset i j v h);
    outside = λ j o. ground (arith, view-reset i j v h);
  },
)

pub set_panics : (b : Bitmap) (i : ℕ) (value : Bool) → b.bit_cnt ≤ i → set b i value ≡ none
unfolding set
set_panics b i value h = ground arith

pub test_lem : (b : Bitmap) (i : ℕ) → test b i ≡ (if ltb i b.bit_cnt then some (view b i) else none)
unfolding test view
test_lem b i = ground (arith, mask_test (get_or b.bits (i / 32) 0) (i % 32))

-- What `bitmap_test` reads after `bitmap_set`: the written value at the written index, what it
-- read before at every other, and a failed assertion from either call where its index is out of
-- range.
pub test-set :
    {b : Bitmap} (i j : ℕ) (value : Bool)
    → IsValid b
    → (set b i value >>= λ b'. test b' j)
      ≡ (if ltb i b.bit_cnt then (if i == j then some value else test b j) else none)
unfolding set
test-set {b} i j true v =
    ground (arith, test_lem b j, test_lem (mark b i) j, bit_cnt-mark b i, view-mark i j v)
test-set {b} i j false v =
    ground (arith, test_lem b j, test_lem (reset b i) j, bit_cnt-reset b i, view-reset i j v)

-- Flipping a bit negates what `bitmap_test` reads of it, and leaves every other as it was.
pub test-flip :
    {b : Bitmap} (i j : ℕ)
    → IsValid b
    → i < b.bit_cnt
    → test (flip b i) j ≡ (if i == j then some (not (view b j)) else test b j)
test-flip {b} i j v h =
    ground (arith, test_lem b j, test_lem (flip b i) j, bit_cnt-flip b i, view-flip i j v h)
