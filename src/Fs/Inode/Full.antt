-- ===== src/Fs/Inode/Full.antt =====
-- inode.c, `inode_create` on a full device.
use cs.Base.{
  ℕ, zero, suc, ◌+◌, ◌-◌, ◌/◌, ◌≤◌, ◌<◌, ◌≡◌, ◌≢◌, refl, ◌⊎◌, inl, inr, Bool, true, some, List, [],
  ◌∷◌, min, get_or, set, replicate, arith,
}
use cs.Fs.Device.{InodeDisk, zeros, header, put, block_write-put, no_inode}
use cs.Fs.FreeMap.{Fs, MapFile}
use cs.Fs.FreeMap.Grows.{IsMounted, free_cnt}
use cs.Fs.FreeMap.Allocate.{allocate_full}
use cs.Fs.Inode.{
  bytes_to_sectors, inode_magic, byte_to_sector, take_sector, add_block, fill, create_first,
  create_second, create,
}

-- A table with no sector number in it.
abbrev Empty : List ℕ → Type 0
Empty table = (i : ℕ) → get_or table i 0 ≡ 0

set-Empty : (table : List ℕ) (i : ℕ) → Empty table → Empty (set table i 0)
set-Empty [] i h j = refl
set-Empty (x ∷ xs) zero h zero = refl
set-Empty (x ∷ xs) zero h (suc j) = h (suc j)
set-Empty (x ∷ xs) (suc i) h zero = h zero
set-Empty (x ∷ xs) (suc i) h (suc j) = set-Empty xs i (λ k. h (suc k)) j

replicate-Empty : (n : ℕ) → Empty (replicate n 0)
replicate-Empty zero i = refl
replicate-Empty (suc n) zero = refl
replicate-Empty (suc n) (suc i) = replicate-Empty n i

-- The inode that is written then.
abbrev new_inode : ℕ → Bool → ℕ → List ℕ → InodeDisk
new_inode length' is_dir parent table = record {
  length = length';
  magic = inode_magic;
  is_dir = is_dir;
  parent_dir = parent;
  direct_block_sectors = table;
  indirect_block_sector = 0;
  doubly_indirect_block_sector = 0;
}

-- The free map of fs is full, and its device is there.
abbrev pub IsFullFor : (ℕ → Bool) → Fs → Type 0
IsFullFor own fs = IsMounted own fs × (free_cnt fs ≡ 0) × (0 < fs.device.size)

-- `inode_create` answers true, has written zeros over sector 0, and put it behind every byte.
abbrev pub ClobbersMap : MapFile → Fs → ℕ → ℕ → Bool → Type 0
ClobbersMap file fs sector length' is_dir =
    (content : InodeDisk) × (fs' : Fs) × (create file true sector length' is_dir fs
      ≡ some (true, fs'))
    × (fs'.device.sector 0 ≡ zeros)
    × (fs'.device.sector sector ≡ header content)
    × ((pos : ℕ) → pos < length' → byte_to_sector fs'.device content pos ≡ some 0)

module _ (file : MapFile) (own : ℕ → Bool) where
  abbrev zeroed : Fs → Fs
  zeroed fs = record fs { device = put fs.device 0 zeros }

  add_block_full : (fs : Fs) → IsFullFor own fs → add_block file fs 0 ≡ some (0, zeroed fs)
  unfolding add_block take_sector
  add_block_full fs (m, f, s) =
      rw (allocate_full file own fs m f, block_write-put fs.device 0 zeros s) refl

  zeroed-IsFullFor : (fs : Fs) → IsFullFor own fs → IsFullFor own (zeroed fs)
  zeroed-IsFullFor fs (m, f, s) =
      (record { valid = m.valid; sized = m.sized; owned = m.owned }, f, s)

  fill_full :
      (n index remaining : ℕ) (table : List ℕ) (fs : Fs)
      → IsFullFor own fs
      → Empty table
      → (table' : List ℕ) × (fs' : Fs) × (fill file n index remaining table fs
          ≡ some (remaining - n, table', fs'))
        × Empty table'
        × IsFullFor own fs'
        × (fs'.device.size ≡ fs.device.size)
        × ((fs.device.sector 0 ≡ zeros) ⊎ (0 < min n remaining) → fs'.device.sector 0 ≡ zeros)
  unfolding fill
  fill_full zero index remaining table fs f t = (
    table,
    fs,
    ground arith,
    t,
    f,
    refl,
    λ c. elim c [ inl z ↦ z | inr h ↦ absurd (omega arith) ],
  )
  fill_full (suc n) index zero table fs f t = (
    table,
    fs,
    ground arith,
    t,
    f,
    refl,
    λ c. elim c [ inl z ↦ z | inr h ↦ absurd (omega arith) ],
  )
  fill_full (suc n) index (suc remaining) table fs f t =
      let (table', fs', e, t', f', size, z) =
        fill_full n (index + 1) remaining (set table index 0) (zeroed fs) (zeroed-IsFullFor fs f)
          (set-Empty table index t) in
      let less : suc remaining - suc n ≡ remaining - n = omega arith in
      (
        table',
        fs',
        rw (t index, add_block_full fs f, e, less) refl,
        t',
        f',
        size,
        λ _. z (inl refl),
      )

  -- On a mounted file system with no free sector, and for a length above 0 and an inode sector in
  -- the device other than 0, the code goes on as if each block had been allocated: `inode_create` returns
  -- true for a file of up to 122 blocks, having written zeros over sector 0, the free map's inode,
  -- and put sector 0 behind every byte of the file.
  pub create_full :
      (fs : Fs) (sector length' : ℕ) (is_dir : Bool)
      → IsFullFor own fs
      → sector < fs.device.size
      → sector ≢ 0
      → 0 < length'
      → bytes_to_sectors length' ≤ 122
      → ClobbersMap file fs sector length' is_dir
  unfolding create create_first create_second byte_to_sector
  create_full fs sector length' is_dir f lt ne pos_length fits =
      let (table, fs1, e, t, f', size, z) =
        fill_full 122 0 (bytes_to_sectors length') no_inode.direct_block_sectors fs f
          (replicate-Empty 122) in
      let content = new_inode length' is_dir fs.cwd table in
      let nothing : bytes_to_sectors length' - 122 ≡ 0 = omega arith in
      (
        content,
        record fs1 { device = put fs1.device sector (header content) },
        rw (e, nothing, block_write-put fs1.device sector (header content) (omega (arith, size)))
            refl,
        ground (arith, z (inr (omega arith))),
        ground arith,
        λ pos h. ground (arith, t (pos / 512)),
      )
