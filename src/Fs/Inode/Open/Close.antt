-- ===== src/Fs/Inode/Open/Close.antt =====
-- inode.c: which sectors `inode_close` gives back.
use cs.Base.{
  ℕ, zero, suc, ◌+◌, ◌-◌, ◌/◌, ◌<◌, ◌≤◌, ◌≡◌, ◌≢◌, refl, sym, ap, ◌∙◌, Bool, true, false, Option,
  none, some, List, [], ◌∷◌, ◌++◌, ltb, ◌==◌, get_or, min, arith, In, Distinct, map, inl, inr,
  ◌>>=◌, bind_congr, bind_assoc,
}
use cs.Fs.FreeMap.{Fs, MapFile, release}
use cs.Fs.FreeMap.Grows.{IsMounted, Persists}
use cs.Fs.FreeMap.Release.{release_all, release_all-Frees, MayFree, Frees}
use cs.Fs.Inode.{Inode, bytes_to_sectors}
use cs.Fs.Inode.Open.{
  free_direct, free_from, free_indirect_block, free_first, free_second, free_blocks, inode_close,
}

-- The k entries of a table from an index on.
abbrev pub slice : List ℕ → ℕ → ℕ → List ℕ
slice table i zero = []
slice table i (suc k) = get_or table i 0 ∷ slice table (i + 1) k

module _ (file : MapFile) where
  free_direct_lem :
      (n freed to_free k : ℕ) (table : List ℕ) (fs : Fs)
      → k ≡ min n (to_free - freed)
      → ((i : ℕ) → i < to_free → get_or table i 0 ≢ 0)
      → free_direct file n freed to_free table fs
        ≡ (release_all file (slice table freed k) fs >>= λ fs'. some (freed + k, fs'))
  unfolding free_direct
  free_direct_lem zero freed to_free zero table fs e used =
      let same : freed + 0 ≡ freed = omega arith in rw same refl
  free_direct_lem zero freed to_free (suc k) table fs e used = absurd (omega (arith, e))
  free_direct_lem (suc n) freed to_free zero table fs e used =
      let all : ltb freed to_free ≡ false = ground (arith, e) in
      let same : freed + 0 ≡ freed = omega arith in rw (all, same) refl
  free_direct_lem (suc n) freed to_free (suc k) table fs e used =
      let more : ltb freed to_free ≡ true = ground (arith, e) in
      let sector : (get_or table freed 0 == 0) ≡ false =
        not_null (get_or table freed 0) (used freed (omega (arith, e))) in
      let count : freed + suc k ≡ freed + 1 + k = omega arith in
      rw (more, sector, count)
        (bind_congr (release file fs (get_or table freed 0) 1) _ _
            (λ fs'. free_direct_lem n (freed + 1) to_free k table fs' (omega (arith, e)) used)
          ∙ sym (bind_assoc (release file fs (get_or table freed 0) 1) _ _))
    where
      not_null : (x : ℕ) → x ≢ 0 → (x == 0) ≡ false
      not_null x ne = ground arith

  free_from_lem :
      (n index freed to_free k : ℕ) (table : List ℕ) (fs : Fs)
      → k ≡ min n ((to_free - (index + freed) + 1) / 2)
      → free_from file n index freed to_free table fs
        ≡ (release_all file (slice table index k) fs >>= λ fs'. some (freed + k, fs'))
  unfolding free_from
  free_from_lem zero index freed to_free zero table fs e =
      let same : freed + 0 ≡ freed = omega arith in rw same refl
  free_from_lem zero index freed to_free (suc k) table fs e = absurd (omega (arith, e))
  free_from_lem (suc n) index freed to_free zero table fs e =
      let all : ltb (index + freed) to_free ≡ false = ground (arith, e) in
      let same : freed + 0 ≡ freed = omega arith in rw (all, same) refl
  free_from_lem (suc n) index freed to_free (suc k) table fs e =
      let more : ltb (index + freed) to_free ≡ true = ground (arith, e) in
      let count : freed + suc k ≡ freed + 1 + k = omega arith in
      rw (more, count)
        (bind_congr (release file fs (get_or table index 0) 1) _ _
            (λ fs'. free_from_lem n (index + 1) (freed + 1) to_free k table fs' (omega (arith, e)))
          ∙ sym (bind_assoc (release file fs (get_or table index 0) 1) _ _))

  -- `free_indirect_block` gives back only the first half of the sectors that are left to free, or
  -- 128 of them, and counts those that it gave back: its two counters both go up in each round of
  -- a loop that compares their sum with the number of sectors.
  pub free_indirect_block-release_all :
      (sectors_freed sectors_to_free : ℕ) (first_lvl_id : List ℕ) (fs : Fs)
      → let k = min 128 ((sectors_to_free - sectors_freed + 1) / 2) in
        free_indirect_block file sectors_freed sectors_to_free first_lvl_id fs
        ≡ (release_all file (slice first_lvl_id 0 k) fs >>= λ fs'. some (sectors_freed + k, fs'))
  unfolding free_indirect_block
  free_indirect_block-release_all sectors_freed sectors_to_free first_lvl_id fs =
      free_from_lem 128 0 sectors_freed sectors_to_free
        (min 128 ((sectors_to_free - sectors_freed + 1) / 2)) first_lvl_id fs (omega arith)

  release_all-append :
      (xs : List ℕ) (s : ℕ) (fs : Fs)
      → (release_all file xs fs >>= λ fs'. release file fs' s 1)
        ≡ release_all file (xs ++ s ∷ []) fs
  release_all-append [] s fs = sym (bind_some (release file fs s 1))
    where
      bind_some : (m : Option Fs) → (m >>= λ fs'. some fs') ≡ m
      bind_some none = refl
      bind_some (some fs') = refl
  release_all-append (x ∷ xs) s fs =
      bind_assoc (release file fs x 1) (release_all file xs) _
      ∙ bind_congr (release file fs x 1) _ _ (λ fs'. release_all-append xs s fs')

  -- What `free_blocks` does after the direct blocks.
  after_direct : Inode → ℕ → ℕ × Fs → Option Fs
  after_direct inode n r = free_first file r.0 n inode.content r.1 >>= λ r2.
      free_second file r2.0 n inode.content r2.1 >>= λ r3. release file r3.1 inode.sector 1

  after_direct_all :
      (inode : Inode) (n k : ℕ) (fs : Fs)
      → n ≤ k
      → after_direct inode n (k, fs) ≡ release file fs inode.sector 1
  unfolding after_direct free_first free_second
  after_direct_all inode n k fs le = let all : ltb k n ≡ false = ground arith in rw (all, all) refl

  free_blocks_parts :
      (inode : Inode) (fs : Fs) (n : ℕ)
      → bytes_to_sectors inode.content.length ≡ n
      → free_blocks file inode fs
        ≡ (free_direct file 122 0 n inode.content.direct_block_sectors fs >>= after_direct inode n)
  unfolding free_blocks after_direct
  free_blocks_parts inode fs n e =
      ap
        (λ k.
          free_direct file 122 0 k inode.content.direct_block_sectors fs >>= after_direct inode k)
        e

  -- The blocks of a removed file of at most 122, and the sector of its inode.
  free_blocks_small :
      (inode : Inode) (fs : Fs) (n : ℕ)
      → bytes_to_sectors inode.content.length ≡ n
      → n ≤ 122
      → ((i : ℕ) → i < n → get_or inode.content.direct_block_sectors i 0 ≢ 0)
      → free_blocks file inode fs
        ≡ release_all file (slice inode.content.direct_block_sectors 0 n ++ inode.sector ∷ []) fs
  free_blocks_small inode fs n e small used =
      let direct =
        free_direct_lem 122 0 n n inode.content.direct_block_sectors fs (omega arith) used in
      let sectors = slice inode.content.direct_block_sectors 0 n in
      free_blocks_parts inode fs n e
      ∙ ap (λ m. m >>= after_direct inode n) direct
      ∙ bind_assoc (release_all file sectors fs) (λ fs'. some (0 + n, fs')) (after_direct inode n)
      ∙ bind_congr (release_all file sectors fs) _ _
          (λ fs'. after_direct_all inode n (0 + n) fs' (omega arith))
      ∙ release_all-append sectors inode.sector fs

  -- The sectors of a removed file of n direct blocks.
  abbrev pub sectors_of : Inode → ℕ → List ℕ
  sectors_of inode n = slice inode.content.direct_block_sectors 0 n ++ inode.sector ∷ []

  -- An inode whose last opener closes it, behind the inodes of other sectors.
  inode_close_last :
      (before : List Inode) (inode : Inode) (rest : List Inode) (fs fs' : Fs)
      → (In inode.sector (map (λ i. i.sector) before) → ⊥)
      → inode.open_cnt ≡ 1
      → inode.removed ≡ true
      → free_blocks file inode fs ≡ some fs'
      → inode_close file (before ++ inode ∷ rest) inode.sector fs ≡ some (before ++ rest, fs')
  unfolding inode_close
  inode_close_last [] inode rest fs fs' out one gone e =
      let here : (inode.sector == inode.sector) ≡ true = ground arith in
      rw (here, one, gone, e) refl
  inode_close_last (other ∷ before) inode rest fs fs' out one gone e =
      let passed : (other.sector == inode.sector) ≡ false =
        is_other other.sector inode.sector (λ same. out (inl (sym same))) in
      rw (passed, inode_close_last before inode rest fs fs' (λ i. out (inr i)) one gone e) refl
    where
      is_other : (m n : ℕ) → m ≢ n → (m == n) ≡ false
      is_other m n ne = ground (arith, ne)

module _ (file : MapFile) (own : ℕ → Bool) (p : Persists file own) where
  -- When the last opener closes a removed file of at most 122 blocks, whose sectors and whose
  -- inode's sector are different, in use, and not the map file's, `inode_close` takes the inode off
  -- the list of open inodes, wherever it stands behind inodes of other sectors, and leaves those on
  -- it; it gives exactly these sectors back to the free map, and no sector but those of the map
  -- file changes.
  pub inode_close-Frees :
      (before : List Inode) (inode : Inode) (rest : List Inode) (fs : Fs)
      → let n = bytes_to_sectors inode.content.length in
        IsMounted own fs
        → fs.map_open ≡ true
        → (In inode.sector (map (λ i. i.sector) before) → ⊥)
        → inode.open_cnt ≡ 1
        → inode.removed ≡ true
        → n ≤ 122
        → ((i : ℕ) → i < n → get_or inode.content.direct_block_sectors i 0 ≢ 0)
        → Distinct (sectors_of file inode n)
        → ((s : ℕ) → In s (sectors_of file inode n) → MayFree own fs s)
        → (fs' : Fs) × (inode_close file (before ++ inode ∷ rest) inode.sector fs
            ≡ some (before ++ rest, fs'))
          × Frees own fs (sectors_of file inode n) fs'
  inode_close-Frees before inode rest fs m opened out one gone small used d ok =
      let n = bytes_to_sectors inode.content.length in
      let (fs', e, f) = release_all-Frees file own p fs (sectors_of file inode n) m opened d ok in
      (
        fs',
        inode_close_last file before inode rest fs fs' out one gone
            (free_blocks_small file inode fs n refl small used ∙ e),
        f,
      )
