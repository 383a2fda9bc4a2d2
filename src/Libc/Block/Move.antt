-- ===== src/Libc/Block/Move.antt =====
-- string.c: copying a block, with and without an overlap.
use native.Mathlib.Decide.{dec_lt, ℕ_discrete}
use cs.Base.{
  ℕ, zero, suc, ◌+◌, ◌-◌, ◌<◌, ◌≤◌, ◌≡◌, ◌≢◌, refl, ◌∙◌, ◌⊎◌, inl, inr, true, false, some, List,
  ltb, if◌then◌else◌, get_or, set, length, length-set, get_or-set_self, get_or-set_ne, arith,
}
use cs.Libc.Memory.{load_lem, store_lem}
use cs.Libc.Block.{copy_up, copy_down, memcpy, memmove}

-- The bytes from src on stand from dst on, size of them, and no other byte changed.
pub record Moved (m : List ℕ) (dst src size : ℕ) (m' : List ℕ) : Type 0 where
  pub same_size : length m' ≡ length m
  pub moved : (i : ℕ) → i < size → get_or m' (dst + i) 0 ≡ get_or m (src + i) 0
  pub kept : (k : ℕ) → (k < dst) ⊎ (dst + size ≤ k) → get_or m' k 0 ≡ get_or m k 0

Moved-nothing : (m : List ℕ) (dst src : ℕ) → Moved m dst src 0 m
Moved-nothing m dst src = record {
  same_size = refl;
  moved = λ i h. absurd (omega arith);
  kept = λ k h. refl;
}

-- One byte first, and then the others, none of which it overwrote.
Moved-first :
    (m m' : List ℕ) (dst src size : ℕ)
    → dst < length m
    → (dst ≤ src) ⊎ (src + suc size ≤ dst)
    → Moved (set m dst (get_or m src 0)) (dst + 1) (src + 1) size m'
    → Moved m dst src (suc size) m'
Moved-first m m' dst src size lt apart r = record {
  same_size = r.same_size ∙ length-set m dst (get_or m src 0);
  moved = λ i h. elim (ℕ_discrete i 0) [
    | yes z ↦
        let here : dst + i ≡ dst = omega (arith, z) in
        let there : src + i ≡ src = omega (arith, z) in
        rw (here, there, r.kept dst (inl (omega arith)))
          (get_or-set_self m dst (get_or m src 0) 0 lt)
    | no pos ↦
        let here : dst + i ≡ dst + 1 + (i - 1) = omega arith in
        let there : src + i ≡ src + 1 + (i - 1) = omega arith in
        let other : dst ≢ src + 1 + (i - 1) = λ e. clash i h pos e apart in
        rw (here, there, r.moved (i - 1) (omega arith))
          (get_or-set_ne m dst (src + 1 + (i - 1)) (get_or m src 0) 0 other)
  ];
  kept =
      λ k h. r.kept k (outside k h) ∙ get_or-set_ne m dst k (get_or m src 0) 0 (λ e. beside k h e);
}
  where
    clash :
        (i : ℕ)
        → i < suc size
        → i ≢ 0
        → dst ≡ src + 1 + (i - 1)
        → (dst ≤ src) ⊎ (src + suc size ≤ dst)
        → ⊥
    clash i h pos e (inl a) = omega (arith, e)
    clash i h pos e (inr b) = omega (arith, e)

    outside : (k : ℕ) → (k < dst) ⊎ (dst + suc size ≤ k) → (k < dst + 1) ⊎ (dst + 1 + size ≤ k)
    outside k (inl a) = inl (omega arith)
    outside k (inr b) = inr (omega arith)

    beside : (k : ℕ) → (k < dst) ⊎ (dst + suc size ≤ k) → dst ≡ k → ⊥
    beside k (inl a) e = omega (arith, e)
    beside k (inr b) e = omega (arith, e)

-- The last byte first, and then those in front of it.
Moved-last :
    (m m' : List ℕ) (dst src size : ℕ)
    → dst + size < length m
    → src ≤ dst
    → Moved (set m (dst + size) (get_or m (src + size) 0)) dst src size m'
    → Moved m dst src (suc size) m'
Moved-last m m' dst src size lt le r = record {
  same_size = r.same_size ∙ length-set m (dst + size) (get_or m (src + size) 0);
  moved = λ i h. elim (ℕ_discrete i size) [
    | yes z ↦
        rw (z, r.kept (dst + size) (inr (omega arith)))
          (get_or-set_self m (dst + size) (get_or m (src + size) 0) 0 lt)
    | no less ↦
        r.moved i (omega arith)
        ∙ get_or-set_ne m (dst + size) (src + i) (get_or m (src + size) 0) 0 (λ e. omega (arith, e))
  ];
  kept = λ k h.
      r.kept k (outside k h)
      ∙ get_or-set_ne m (dst + size) k (get_or m (src + size) 0) 0 (λ e. beside k h e);
}
  where
    outside : (k : ℕ) → (k < dst) ⊎ (dst + suc size ≤ k) → (k < dst) ⊎ (dst + size ≤ k)
    outside k (inl a) = inl a
    outside k (inr b) = inr (omega arith)

    beside : (k : ℕ) → (k < dst) ⊎ (dst + suc size ≤ k) → dst + size ≡ k → ⊥
    beside k (inl a) e = omega (arith, e)
    beside k (inr b) e = omega (arith, e)

pub copy_up-Moved :
    (m : List ℕ) (dst src size : ℕ)
    → dst + size ≤ length m
    → src + size ≤ length m
    → (dst ≤ src) ⊎ (src + size ≤ dst)
    → (m' : List ℕ) × (copy_up size dst src m ≡ some m') × Moved m dst src size m'
unfolding copy_up
copy_up-Moved m dst src zero hd hs apart = (m, refl, Moved-nothing m dst src)
copy_up-Moved m dst src (suc size) hd hs apart =
    let m1 = set m dst (get_or m src 0) in
    let len : length m1 ≡ length m = length-set m dst (get_or m src 0) in
    let (m', e, r) =
      copy_up-Moved m1 (dst + 1) (src + 1) size (omega (arith, len)) (omega (arith, len))
        (later apart) in
    (
      m',
      rw (load_lem m src (omega arith), store_lem m dst (get_or m src 0) (omega arith)) e,
      Moved-first m m' dst src size (omega arith) apart r,
    )
  where
    later : (dst ≤ src) ⊎ (src + suc size ≤ dst) → (dst + 1 ≤ src + 1) ⊎ (src + 1 + size ≤ dst + 1)
    later (inl a) = inl (omega arith)
    later (inr b) = inr (omega arith)

pub copy_down-Moved :
    (m : List ℕ) (dst src size : ℕ)
    → dst + size ≤ length m
    → src ≤ dst
    → (m' : List ℕ) × (copy_down size (dst + size) (src + size) m ≡ some m')
      × Moved m dst src size m'
unfolding copy_down
copy_down-Moved m dst src zero hd le = (m, refl, Moved-nothing m dst src)
copy_down-Moved m dst src (suc size) hd le =
    let m1 = set m (dst + size) (get_or m (src + size) 0) in
    let len : length m1 ≡ length m = length-set m (dst + size) (get_or m (src + size) 0) in
    let (m', e, r) = copy_down-Moved m1 dst src size (omega (arith, len)) le in
    let from : src + suc size - 1 ≡ src + size = omega arith in
    let to : dst + suc size - 1 ≡ dst + size = omega arith in
    (
      m',
      rw
          (
            from,
            to,
            load_lem m (src + size) (omega arith),
            store_lem m (dst + size) (get_or m (src + size) 0) (omega arith),
          )
          e,
      Moved-last m m' dst src size (omega arith) le r,
    )

-- `memcpy` of blocks that lie in the memory and do not overlap succeeds, copies the block, changes
-- no other byte and returns the destination.
pub memcpy-Moved :
    (m : List ℕ) (dst src size : ℕ)
    → dst + size ≤ length m
    → src + size ≤ length m
    → (dst + size ≤ src) ⊎ (src + size ≤ dst)
    → (m' : List ℕ) × (memcpy m dst src size ≡ some (dst, m')) × Moved m dst src size m'
unfolding memcpy
memcpy-Moved m dst src size hd hs apart =
    let (m', e, r) = copy_up-Moved m dst src size hd hs (weaker apart) in (m', rw e refl, r)
  where
    weaker : (dst + size ≤ src) ⊎ (src + size ≤ dst) → (dst ≤ src) ⊎ (src + size ≤ dst)
    weaker (inl a) = inl (omega arith)
    weaker (inr b) = inr b

-- `memmove` of blocks that lie in the memory succeeds, copies the bytes that the source held
-- before, however the blocks overlap, and changes no other byte. The pointer it returns is the
-- destination only when that does not lie below the source: else it is the end of the block.
pub memmove-Moved :
    (m : List ℕ) (dst src size : ℕ)
    → dst + size ≤ length m
    → src + size ≤ length m
    → (m' : List ℕ) × (memmove m dst src size ≡ some (if ltb dst src then dst + size else dst, m'))
      × Moved m dst src size m'
unfolding memmove
memmove-Moved m dst src size hd hs = elim (dec_lt dst src) [
  | yes lower ↦
      let up : ltb dst src ≡ true = ground arith in
      let (m', e, r) = copy_up-Moved m dst src size hd hs (inl (omega arith)) in
      (m', rw (up, e) refl, r)
  | no higher ↦
      let down : ltb dst src ≡ false = ground arith in
      let back : dst + size - size ≡ dst = omega arith in
      let (m', e, r) = copy_down-Moved m dst src size hd (omega arith) in
      (m', rw (down, e, back) refl, r)
]
