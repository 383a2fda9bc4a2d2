-- ===== src/Fs/Inode/Table.antt =====
-- inode.c, the loops that add blocks to a table of sector numbers.
use cs.Base.{
  ℕ, zero, suc, ◌+◌, ◌-◌, ◌≤◌, ◌<◌, ◌≡◌, refl, inl, ◌∙◌, Bool, some, List, [], ◌∷◌, min, get_or,
  set, length, length-set, get_or-set_self, get_or-set_ne, arith,
}
use cs.Fs.Device.{zeros, put, block_write-put}
use cs.Fs.FreeMap.{Fs, MapFile}
use cs.Fs.FreeMap.Grows.{IsMounted, Grows, Persists, free_cnt, Grows-put}
use cs.Fs.FreeMap.Laid.{Laid, Laid-nothing, Laid-trans, Laid-one}
use cs.Fs.FreeMap.Allocate.{allocate-Grows}
use cs.Fs.Inode.{add_block, fill}

-- The entries of a table replaced from index i on.
unfoldable pub write_at : List ℕ → ℕ → List ℕ → List ℕ
write_at table i [] = table
write_at table i (x ∷ xs) = write_at (set table i x) (i + 1) xs

pub write_at_before :
    (table : List ℕ) (i : ℕ) (xs : List ℕ) (j : ℕ)
    → j < i
    → get_or (write_at table i xs) j 0 ≡ get_or table j 0
unfolding write_at
write_at_before table i [] j h = refl
write_at_before table i (x ∷ xs) j h =
    write_at_before (set table i x) (i + 1) xs j (omega arith)
    ∙ get_or-set_ne table i j x 0 (omega arith)

pub get_or-write_at :
    (table : List ℕ) (i : ℕ) (xs : List ℕ) (j k : ℕ)
    → j < length xs
    → i + length xs ≤ length table
    → k ≡ i + j
    → get_or (write_at table i xs) k 0 ≡ get_or xs j 0
unfolding write_at
get_or-write_at table i [] j k h fit e = absurd (omega arith)
get_or-write_at table i (x ∷ xs) zero k h fit e =
    let here : k ≡ i = omega arith in
    rw here (
      write_at_before (set table i x) (i + 1) xs i (omega arith)
      ∙ get_or-set_self table i x 0 (omega arith))
get_or-write_at table i (x ∷ xs) (suc j) k h fit e =
    get_or-write_at (set table i x) (i + 1) xs j k (omega arith)
      (omega (arith, length-set table i x)) (omega arith)

module _ (file : MapFile) (own : ℕ → Bool) (p : Persists file own) where
  -- With a sector free, a block is added: a sector that was free, now taken and zeroed.
  pub add_block-Grows :
      (fs : Fs) (ptr : ℕ)
      → IsMounted own fs
      → 0 < free_cnt fs
      → (s : ℕ) × (fs' : Fs) × (add_block file fs ptr ≡ some (s, fs'))
        × Grows own fs (s ∷ []) fs'
        × (fs'.device.sector s ≡ zeros)
  unfolding add_block
  add_block-Grows fs ptr m h =
      let (s, fs', e, g, _) = allocate-Grows file own p fs m h in
      let lt : s < fs'.device.size = omega (arith, (g.were_free s (inl refl)).0, g.size) in
      (
        s,
        record fs' { device = put fs'.device s zeros },
        rw (e, block_write-put fs'.device s zeros lt) refl,
        Grows-put own s zeros g (inl refl),
        ground arith,
      )

  -- The loop of a table with n rounds left: as long as sectors remain it adds blocks, and writes
  -- their numbers to the table from `index` on.
  pub fill-Laid :
      (n index remaining : ℕ) (table : List ℕ) (fs : Fs)
      → IsMounted own fs
      → min n remaining ≤ free_cnt fs
      → (xs : List ℕ) × (fs' : Fs) × (fill file n index remaining table fs
          ≡ some (remaining - n, write_at table index xs, fs'))
        × (length xs ≡ min n remaining)
        × Laid own fs xs xs fs'
  unfolding fill write_at
  fill-Laid zero index remaining table fs m h =
      ([], fs, ground arith, omega arith, Laid-nothing own m)
  fill-Laid (suc n) index zero table fs m h =
      ([], fs, ground arith, omega arith, Laid-nothing own m)
  fill-Laid (suc n) index (suc remaining) table fs m h =
      let (s, fs1, e, g, z) = add_block-Grows fs (get_or table index 0) m (omega arith) in
      let (xs, fs', e', c, f) =
        fill-Laid n (index + 1) remaining (set table index s) fs1 g.mounted
          (omega (arith, g.counted)) in
      let less : suc remaining - suc n ≡ remaining - n = omega arith in
      (s ∷ xs, fs', rw (e, e', less) refl, omega (arith, c), Laid-trans own m (Laid-one own g z) f)
