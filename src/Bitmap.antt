-- ===== src/Bitmap.antt =====
-- fs_PintOS/lib/kernel/bitmap.c: a bitmap is an array of 32-bit elements (`unsigned long` of the
-- i386). A `size_t` sum wraps at 2 ^ 32. `none` is a failed ASSERT; storage past the elements is
-- never written by the code under the invariant of Bitmap/Bits, and a write there changes nothing.
pub mod Bits
pub mod Multiple
pub mod Scan
pub mod Tally
mod Tests
use Prim.Native.Nat.{bit_and, bit_or, bit_xor}
use cs.Base.{
  ℕ, zero, suc, ◌+◌, ◌-◌, ◌*◌, ◌/◌, ◌%◌, ◌^◌, Bool, true, false, not, ◌||◌, Option, none, some,
  List, [], ltb, leb, ◌==◌, eqb, if◌then◌else◌, get_or, set as store, ◌>>=◌, ◌>>◌, assert,
}

abbrev pub elem_bits : ℕ
elem_bits = 32

abbrev pub size_mod : ℕ
size_mod = 2 ^ 32

-- BITMAP_ERROR is SIZE_MAX.
abbrev pub bitmap_error : ℕ
bitmap_error = 2 ^ 32 - 1

-- `struct bitmap`
pub record Bitmap : Type 0 where
  pub bit_cnt : ℕ
  pub bits : List ℕ

abbrev pub add_size : ℕ → ℕ → ℕ
add_size a b = (a + b) % size_mod

abbrev pub elem_idx : ℕ → ℕ
elem_idx bit_idx = bit_idx / elem_bits

abbrev pub bit_mask : ℕ → ℕ
bit_mask bit_idx = 2 ^ (bit_idx % elem_bits)

-- DIV_ROUND_UP adds the divisor less one before the division.
abbrev pub elem_cnt : ℕ → ℕ
elem_cnt bit_cnt = add_size bit_cnt (elem_bits - 1) / elem_bits

unfoldable pub byte_cnt : ℕ → ℕ
byte_cnt bit_cnt = 4 * elem_cnt bit_cnt

pub last_mask : Bitmap → ℕ
last_mask b =
    let last_bits = b.bit_cnt % elem_bits in
    if last_bits == 0 then 2 ^ 32 - 1 else 2 ^ last_bits - 1

pub mark : Bitmap → ℕ → Bitmap
mark b bit_idx =
    let idx = elem_idx bit_idx in
    record b { bits = store b.bits idx (bit_or (get_or b.bits idx 0) (bit_mask bit_idx)) }

-- `~mask` on 32 bits is 2 ^ 32 - 1 - mask.
pub reset : Bitmap → ℕ → Bitmap
reset b bit_idx =
    let idx = elem_idx bit_idx in
    record b {
      bits = store b.bits idx (bit_and (get_or b.bits idx 0) (2 ^ 32 - 1 - bit_mask bit_idx));
    }

pub flip : Bitmap → ℕ → Bitmap
flip b bit_idx =
    let idx = elem_idx bit_idx in
    record b { bits = store b.bits idx (bit_xor (get_or b.bits idx 0) (bit_mask bit_idx)) }

pub set : Bitmap → ℕ → Bool → Option Bitmap
set b idx value = do assert (ltb idx b.bit_cnt); some (if value then mark b idx else reset b idx)

pub test : Bitmap → ℕ → Option Bool
test b idx = do
  assert (ltb idx b.bit_cnt)
  some (not (bit_and (get_or b.bits (elem_idx idx) 0) (bit_mask idx) == 0))

-- The two assertions of the functions over a range.
assert_range : Bitmap → ℕ → ℕ → Option (Unit {0})
assert_range b start cnt = do
  assert (leb start b.bit_cnt)
  assert (leb (add_size start cnt) b.bit_cnt)

-- The loop of `set_multiple` at counter i, with n rounds left.
set_from : Bitmap → ℕ → Bool → ℕ → ℕ → Option Bitmap
set_from b start value zero i = some b
set_from b start value (suc n) i = do
  b' ← set b (add_size start i) value
  set_from b' start value n (i + 1)

pub set_multiple : Bitmap → ℕ → ℕ → Bool → Option Bitmap
unfolding assert_range set_from
set_multiple b start cnt value = do assert_range b start cnt; set_from b start value cnt 0

pub set_all : Bitmap → Bool → Option Bitmap
set_all b value = set_multiple b 0 b.bit_cnt value

-- `buffer` is what the second `malloc` returns: none for NULL, else storage with any content.
-- The outer option is the panic, the inner one the returned pointer.
pub create : Bool → Option (List ℕ) → ℕ → Option (Option Bitmap)
create false buffer bit_cnt = some none
create true (some bits) bit_cnt = do
  b ← set_all (record { bit_cnt = bit_cnt; bits = bits }) false
  some (some b)
create true none bit_cnt =
    if bit_cnt == 0 then some (some (record { bit_cnt = 0; bits = [] })) else some none

count_from : Bitmap → ℕ → Bool → ℕ → ℕ → ℕ → Option ℕ
count_from b start value zero i value_cnt = some value_cnt
count_from b start value (suc n) i value_cnt = do
  t ← test b (add_size start i)
  count_from b start value n (i + 1) (if eqb t value then value_cnt + 1 else value_cnt)

pub count : Bitmap → ℕ → ℕ → Bool → Option ℕ
unfolding assert_range count_from
count b start cnt value = do assert_range b start cnt; count_from b start value cnt 0 0

contains_from : Bitmap → ℕ → Bool → ℕ → ℕ → Option Bool
contains_from b start value zero i = some false
contains_from b start value (suc n) i =
    let rest = contains_from b start value n (i + 1) in
    do t ← test b (add_size start i); if eqb t value then some true else rest

pub contains : Bitmap → ℕ → ℕ → Bool → Option Bool
unfolding assert_range contains_from
contains b start cnt value = do assert_range b start cnt; contains_from b start value cnt 0

pub any : Bitmap → ℕ → ℕ → Option Bool
any b start cnt = contains b start cnt true

pub none_set : Bitmap → ℕ → ℕ → Option Bool
none_set b start cnt = do c ← contains b start cnt true; some (not c)

unfoldable pub all : Bitmap → ℕ → ℕ → Option Bool
all b start cnt = do c ← contains b start cnt false; some (not c)

-- The loop of `scan` at index i, with n rounds left up to `last`.
scan_from : Bitmap → ℕ → Bool → ℕ → ℕ → Option ℕ
scan_from b cnt value zero i = some bitmap_error
scan_from b cnt value (suc n) i =
    let rest = scan_from b cnt value n (i + 1) in
    do c ← contains b i cnt (not value); if c then rest else some i

pub scan : Bitmap → ℕ → ℕ → Bool → Option ℕ
unfolding scan_from
scan b start cnt value = do
  assert (leb start b.bit_cnt)
  if leb cnt b.bit_cnt
      then scan_from b cnt value (b.bit_cnt - cnt + 1 - start) start
      else some bitmap_error

pub scan_and_flip : Bitmap → ℕ → ℕ → Bool → Option (ℕ × Bitmap)
scan_and_flip b start cnt value = do
  idx ← scan b start cnt value
  if idx == bitmap_error
      then some (idx, b)
      else (do b' ← set_multiple b idx cnt (not value); some (idx, b'))
