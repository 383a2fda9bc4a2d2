-- ===== src/Libc/Text/Copy.antt =====
-- string.c: copying a text into a buffer of a given size.
use cs.Base.{
  ℕ, suc, ◌+◌, ◌<◌, ◌≤◌, ◌≡◌, ◌≢◌, refl, sym, ◌∙◌, ◌⊎◌, inl, inr, some, List, ltb, if◌then◌else◌,
  get_or, set, length, length-set, get_or-set_self, get_or-set_ne, min, arith,
}
use cs.Libc.Memory.{store_lem}
use cs.Libc.Block.Move.{Moved, memcpy-Moved}
use cs.Libc.Text.{strlcpy}
use cs.Libc.Text.Length.{IsText, strlen-IsText}

-- The buffer of `size` bytes at dst holds the first k bytes of the text at src, and nothing
-- outside the buffer changed.
pub record Copied (m : List ℕ) (dst src size k : ℕ) (m' : List ℕ) : Type 0 where
  pub text : IsText m' dst k
  pub letters : (i : ℕ) → i < k → get_or m' (dst + i) 0 ≡ get_or m (src + i) 0
  pub kept : (j : ℕ) → (j < dst) ⊎ (dst + size ≤ j) → get_or m' j 0 ≡ get_or m j 0

-- The null byte behind k bytes that were moved.
Moved-Copied :
    (m m1 : List ℕ) (dst src size k n : ℕ)
    → IsText m src n
    → k ≤ n
    → k < size
    → dst + size ≤ length m
    → Moved m dst src k m1
    → Copied m dst src size k (set m1 (dst + k) 0)
Moved-Copied m m1 dst src size k n t le lt inside r = record {
  text = record {
    inside = omega (arith, r.same_size, length-set m1 (dst + k) 0);
    letters = λ i h e. t.letters i (omega arith) (sym (letter i h) ∙ e);
    ends = get_or-set_self m1 (dst + k) 0 0 (omega (arith, r.same_size));
  };
  letters = letter;
  kept = λ j h. get_or-set_ne m1 (dst + k) j 0 0 (beside j h) ∙ r.kept j (outside j h);
}
  where
    letter : (i : ℕ) → i < k → get_or (set m1 (dst + k) 0) (dst + i) 0 ≡ get_or m (src + i) 0
    letter i h = get_or-set_ne m1 (dst + k) (dst + i) 0 0 (λ e. omega (arith, e)) ∙ r.moved i h

    beside : (j : ℕ) → (j < dst) ⊎ (dst + size ≤ j) → dst + k ≢ j
    beside j (inl a) e = omega (arith, e)
    beside j (inr b) e = omega (arith, e)

    outside : (j : ℕ) → (j < dst) ⊎ (dst + size ≤ j) → (j < dst) ⊎ (dst + k ≤ j)
    outside j (inl a) = inl a
    outside j (inr b) = inr (omega arith)

smaller : (n size : ℕ) → (if ltb n size then n else size) ≡ min n size
smaller n size = ground arith

-- `strlcpy` into a buffer of size + 1 bytes, inside the memory and apart from the text and its
-- null byte, answers the length of the text, puts as many bytes of it into the buffer as fit in
-- front of a null byte, ends them by one, and changes nothing outside the buffer.
pub strlcpy-Copied :
    (m : List ℕ) (dst src size n : ℕ)
    → IsText m src n
    → dst + suc size ≤ length m
    → (dst + suc size ≤ src) ⊎ (src + n < dst)
    → (m' : List ℕ) × (strlcpy m dst src (suc size) ≡ some (n, m'))
      × Copied m dst src (suc size) (min n size) m'
unfolding strlcpy
strlcpy-Copied m dst src size n t inside apart =
    let k = min n size in
    let (m1, e, r) =
      memcpy-Moved m dst src k (omega arith) (omega (arith, t.inside)) (blocks apart) in
    (
      set m1 (dst + k) 0,
      rw
          (
            strlen-IsText m src n t,
            smaller n size,
            e,
            store_lem m1 (dst + k) 0 (omega (arith, r.same_size)),
          )
          refl,
      Moved-Copied m m1 dst src (suc size) k n t (omega arith) (omega arith) inside r,
    )
  where
    blocks :
        (dst + suc size ≤ src) ⊎ (src + n < dst)
        → (dst + min n size ≤ src) ⊎ (src + min n size ≤ dst)
    blocks (inl a) = inl (omega arith)
    blocks (inr b) = inr (omega arith)
