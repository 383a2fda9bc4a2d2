-- ===== src/Bitmap/Multiple.antt =====
-- bitmap.c, ranges of bits: writing, counting and searching one agrees with the Boolean array.
use cs.Base.{
  ℕ, zero, suc, ◌+◌, ◌/◌, ◌^◌, ◌≤◌, ◌<◌, ◌≡◌, ◌≢◌, inl, inr, refl, ap, ◌∙◌, subst, Bool, true,
  false, not, none, some, List, eqb, if◌then◌else◌, arith, Bool-cases, length,
}
use native.Mathlib.Decide.{dec_lt, ℕ_discrete}
use cs.Bitmap.{
  Bitmap, add_size, assert_range, set_from, set_multiple, set_all, create, count_from, count,
  contains_from, contains,
}
use cs.Bitmap.Bits.{IsValid, view, Filled, set-Filled, test_lem}

assert_range_ok :
    {b : Bitmap} (start cnt : ℕ)
    → IsValid b
    → start + cnt ≤ b.bit_cnt
    → assert_range b start cnt ≡ some tt
unfolding assert_range
assert_range_ok start cnt v h = ground arith

Filled-nothing : {b : Bitmap} {start : ℕ} {value : Bool} → IsValid b → Filled b start 0 value b
Filled-nothing v = record {
  valid = v;
  same_cnt = refl;
  inside = λ j p q. absurd (omega arith);
  outside = λ j o. refl;
}

-- One more bit written behind a range.
Filled-extend :
    {b b' b'' : Bitmap} {start i : ℕ} {value : Bool}
    → Filled b start i value b'
    → Filled b' (start + i) 1 value b''
    → Filled b start (i + 1) value b''
Filled-extend {b} {b'} {b''} {start} {i} {value} f g = record {
  valid = g.valid;
  same_cnt = g.same_cnt ∙ f.same_cnt;
  inside = λ j p q. elim (dec_lt j (start + i)) [
    | yes old ↦ g.outside j (inl old) ∙ f.inside j p old
    | no new ↦ g.inside j (omega arith) (omega arith)
  ];
  outside = λ j o. g.outside j (omega arith) ∙ f.outside j (omega arith);
}

set_from-Filled :
    {b : Bitmap} (start : ℕ) (value : Bool) (n i k : ℕ) (b' : Bitmap)
    → Filled b start i value b'
    → i + n ≡ k
    → start + k ≤ b.bit_cnt
    → (b'' : Bitmap) × (set_from b' start value n i ≡ some b'') × Filled b start k value b''
unfolding set_from
set_from-Filled {b} start value zero i k b' f e h =
    (b', refl, subst (λ m. Filled b start m value b') (omega arith) f)
set_from-Filled {b} start value (suc n) i k b' f e h =
    let here = set-Filled (start + i) value f.valid (omega (arith, f.same_cnt)) in
    let rest =
      set_from-Filled start value n (i + 1) k here.0 (Filled-extend f here.2) (omega arith) h in
    let wraps : add_size start i ≡ start + i = omega (arith, f.same_cnt, f.valid.small) in
    (rest.0, rw (wraps, here.1) rest.1, rest.2)

-- `bitmap_set_multiple` on a range inside the bitmap fails no assertion, writes the value to every
-- bit of the range, and leaves the bits outside it, the size and the invariant as they were.
pub set_multiple-Filled :
    {b : Bitmap} (start cnt : ℕ) (value : Bool)
    → IsValid b
    → start + cnt ≤ b.bit_cnt
    → (b' : Bitmap) × (set_multiple b start cnt value ≡ some b') × Filled b start cnt value b'
unfolding set_multiple
set_multiple-Filled {b} start cnt value v h =
    let loop = set_from-Filled {b = b} start value cnt 0 cnt b (Filled-nothing v) (omega arith) h in
    (loop.0, rw (assert_range_ok start cnt v h) loop.1, loop.2)

-- Whatever the storage that `malloc` returned held, `bitmap_create` gives a valid bitmap with
-- every bit false; without either allocation (or with no storage for a bitmap of some bits) it
-- returns a null pointer.
pub create_lem :
    (bits : List ℕ) (n : ℕ)
    → length bits ≡ (n + 31) / 32
    → n + 32 < 2 ^ 32
    → ((b : Bitmap) × (create true (some bits) n ≡ some (some b))
        × IsValid b
        × (b.bit_cnt ≡ n)
        × ((j : ℕ) → j < n → view b j ≡ false))
      × (create false (some bits) n ≡ some none)
      × (n ≢ 0 → create true none n ≡ some none)
unfolding create set_all
create_lem bits n s h = (
  (
    filled.0,
    rw filled.1 refl,
    filled.2.valid,
    filled.2.same_cnt,
    λ j p. filled.2.inside j (omega arith) (omega arith),
  ),
  refl,
  λ ne. ground arith,
)
  where
    raw : Bitmap
    raw = record { bit_cnt = n; bits = bits }

    filled : (b' : Bitmap) × (set_multiple raw 0 n false ≡ some b') × Filled raw 0 n false b'
    filled =
        set_multiple-Filled {b = raw} 0 n false (record { storage = s; small = h }) (omega arith)

-- The number of bits with the value among the n from index i on.
unfoldable pub tally : (ℕ → Bool) → Bool → ℕ → ℕ → ℕ
tally bits value zero i = 0
tally bits value (suc n) i = (if eqb (bits i) value then 1 else 0) + tally bits value n (i + 1)

count_from-tally :
    {b : Bitmap} (start : ℕ) (value : Bool) (n i acc : ℕ)
    → IsValid b
    → start + i + n ≤ b.bit_cnt
    → count_from b start value n i acc ≡ some (acc + tally (view b) value n (start + i))
unfolding count_from tally
count_from-tally {b} start value zero i acc v h = ap some (omega arith)
count_from-tally {b} start value (suc n) i acc v h =
    let wraps : add_size start i ≡ start + i = omega (arith, v.small) in
    let assoc : start + (i + 1) ≡ start + i + 1 = omega arith in
    rw wraps (
      ground (
        arith,
        test_lem b (start + i),
        ap (tally (view b) value n) assoc,
        count_from-tally {b = b} start value n (i + 1) (acc + 1),
        count_from-tally {b = b} start value n (i + 1) acc,
      ))

-- `bitmap_count` on a range inside the bitmap returns the number of its bits with the value.
pub count-tally :
    {b : Bitmap} (start cnt : ℕ) (value : Bool)
    → IsValid b
    → start + cnt ≤ b.bit_cnt
    → count b start cnt value ≡ some (tally (view b) value cnt start)
unfolding count
count-tally {b} start cnt value v h =
    let e : start + 0 ≡ start = omega arith in
    rw
      (
        assert_range_ok start cnt v h,
        count_from-tally {b = b} start value cnt 0 0 v (omega arith),
        e,
      )
      (ap some (omega arith))

-- What a search of the n bits from i on answers.
pub record Answers (bits : ℕ → Bool) (value : Bool) (i n : ℕ) (found : Bool) : Type 0 where
  pub hit : found ≡ true → (j : ℕ) × (i ≤ j) × (j < i + n) × (bits j ≡ value)
  pub miss : found ≡ false → (j : ℕ) → i ≤ j → j < i + n → bits j ≡ not value

contains_from-Answers :
    {b : Bitmap} (start : ℕ) (value : Bool) (n i : ℕ)
    → IsValid b
    → start + i + n ≤ b.bit_cnt
    → (found : Bool) × (contains_from b start value n i ≡ some found)
      × Answers (view b) value (start + i) n found
unfolding contains_from
contains_from-Answers {b} start value zero i v h =
    (false, refl, record { hit = λ e. cc; miss = λ e j p q. absurd (omega arith) })
contains_from-Answers {b} start value (suc n) i v h =
    let wraps : add_size start i ≡ start + i = omega (arith, v.small) in
    let (found, e, a) = contains_from-Answers {b = b} start value n (i + 1) v (omega arith) in
    elim (Bool-cases (eqb (view b (start + i)) value)) [
      | inl hit ↦ (
        true,
        rw wraps (ground (arith, test_lem b (start + i))),
        record { hit = λ _. (start + i, omega arith, omega arith, ground arith); miss = λ e. cc },
      )
      | inr miss ↦ (
        found,
        rw wraps (ground (arith, test_lem b (start + i))),
        record {
          hit = λ f. let (j, p, q, r) = a.hit f in (j, omega arith, omega arith, r);
          miss = λ f j p q. elim (ℕ_discrete j (start + i)) [
            | yes here ↦ rw here (ground arith)
            | no there ↦ a.miss f j (omega arith) (omega arith)
          ];
        },
      )
    ]

-- `bitmap_contains` on a range inside the bitmap returns true exactly when some bit of the range
-- has the value.
pub contains-Answers :
    {b : Bitmap} (start cnt : ℕ) (value : Bool)
    → IsValid b
    → start + cnt ≤ b.bit_cnt
    → (found : Bool) × (contains b start cnt value ≡ some found)
      × Answers (view b) value start cnt found
unfolding contains
contains-Answers {b} start cnt value v h =
    let (found, e, a) = contains_from-Answers {b = b} start value cnt 0 v (omega arith) in
    let z : start + 0 ≡ start = omega arith in
    (
      found,
      rw (assert_range_ok start cnt v h) e,
      subst (λ k. Answers (view b) value k cnt found) z a,
    )
