-- ===== src/Fs/Inode.antt =====
-- fs_PintOS/filesys/inode.c: the blocks of a file behind an inode of 122 direct sector numbers, one
-- block of 128 more and one block of 128 such blocks. `calloc` of a block buffer succeeds (the code
-- does not look), and `none` is a failed ASSERT or a PANIC.
pub mod Table
pub mod Indirect
pub mod Parts
pub mod Create
pub mod Full
pub mod Access
pub mod Open
use cs.Base.{
  ℕ, zero, suc, ◌+◌, ◌-◌, ◌/◌, ◌%◌, Bool, true, false, Option, none, some, List, [], ltb, ◌==◌,
  if◌then◌else◌, get_or, set, ◌>>=◌, ◌>>◌,
}
use cs.Fs.Device.{
  Device, InodeDisk, Block, zeros, pointers, header, as_pointers, block_read, block_write,
  no_pointers, no_inode, num_direct_ptr, num_ptr_per_block, block_sector_size,
}
use cs.Fs.FreeMap.{Fs, MapFile, allocate}

abbrev pub inode_magic : ℕ
inode_magic = 0x494e4f44

abbrev pub err_value : ℕ
err_value = 99999999

abbrev pub bytes_to_sectors : ℕ → ℕ
bytes_to_sectors size = (size + block_sector_size - 1) / block_sector_size

-- `struct inode`; its list element and lock are left out.
pub record Inode : Type 0 where
  pub sector : ℕ
  pub open_cnt : ℕ
  pub removed : Bool
  pub deny_write_cnt : ℕ
  pub content : InodeDisk

-- A sector read into a `struct indirect_block`, and one of its entries.
pub read_pointers : Device → ℕ → Option (List ℕ)
read_pointers d s = do b ← block_read d s; as_pointers b

pub byte_to_sector : Device → InodeDisk → ℕ → Option ℕ
unfolding read_pointers
byte_to_sector d content pos =
    let location = pos / block_sector_size in
    let second_lvl_offset = location - num_direct_ptr - num_ptr_per_block in
    if ltb pos content.length
    then (if ltb location num_direct_ptr
        then some (get_or content.direct_block_sectors location 0)
        else if ltb location (num_direct_ptr + num_ptr_per_block)
        then (do
          first_lvl_id ← read_pointers d content.indirect_block_sector
          some (get_or first_lvl_id (location - num_direct_ptr) 0))
        else if ltb location content.length
        then (do
          second_lvl_id ← read_pointers d content.doubly_indirect_block_sector
          first_lvl_id ←
              read_pointers d (get_or second_lvl_id (second_lvl_offset / num_ptr_per_block) 0)
          some (get_or first_lvl_id (second_lvl_offset % num_ptr_per_block) 0))
        else some err_value)
    else some err_value

module _ (file : MapFile) where
  -- `free_map_allocate (1, &ptr)` with its answer thrown away: on failure `ptr` stays as it was.
  take_sector : Fs → ℕ → Option (ℕ × Fs)
  take_sector fs ptr = do
    (r, fs') ← allocate file fs 1
    some (elim r [ none ↦ ptr | some s ↦ s ], fs')

  -- The pair of calls by which the code adds each block: allocate it, and write zeros there.
  pub add_block : Fs → ℕ → Option (ℕ × Fs)
  unfolding take_sector
  add_block fs ptr = do
    (s, fs') ← take_sector fs ptr
    d ← block_write fs'.device s zeros
    some (s, record fs' { device = d })

  -- The loop that fills a table of sector numbers from `index` on, with n rounds left, as long as
  -- sectors remain; what remains, the table and the state then.
  pub fill : ℕ → ℕ → ℕ → List ℕ → Fs → Option (ℕ × List ℕ × Fs)
  fill zero index remaining table fs = some (remaining, table, fs)
  fill (suc n) index zero table fs = some (zero, table, fs)
  fill (suc n) index (suc remaining) table fs = do
    (s, fs') ← add_block fs (get_or table index 0)
    fill n (index + 1) remaining (set table index s) fs'

  pub create_indirect : ℕ → List ℕ → Fs → Option (ℕ × List ℕ × Fs)
  create_indirect remaining first_lvl_id fs = fill num_ptr_per_block 0 remaining first_lvl_id fs

  -- One block of sector numbers with its data blocks: the number of the block, what remains.
  pub add_indirect : ℕ → ℕ → Fs → Option (ℕ × ℕ × Fs)
  unfolding create_indirect
  add_indirect remaining ptr fs = do
    (s, fs1) ← add_block fs ptr
    (remaining', first_lvl_id, fs2) ← create_indirect remaining no_pointers fs1
    d ← block_write fs2.device s (pointers first_lvl_id)
    some (s, remaining', record fs2 { device = d })

  -- The loop over the second-level table.
  pub fill_doubly : ℕ → ℕ → ℕ → List ℕ → Fs → Option (ℕ × List ℕ × Fs)
  fill_doubly zero index remaining table fs = some (remaining, table, fs)
  fill_doubly (suc n) index zero table fs = some (zero, table, fs)
  fill_doubly (suc n) index (suc remaining) table fs = do
    (s, remaining', fs') ← add_indirect (suc remaining) (get_or table index 0) fs
    fill_doubly n (index + 1) remaining' (set table index s) fs'

  -- The first-level block, if sectors remain; else its number is NULL.
  pub create_first : ℕ → Fs → Option (ℕ × ℕ × Fs)
  create_first zero fs = some (0, 0, fs)
  create_first (suc remaining) fs = add_indirect (suc remaining) 0 fs

  pub create_second : ℕ → Fs → Option (ℕ × Fs)
  create_second zero fs = some (0, fs)
  create_second (suc remaining) fs = do
    (s, fs1) ← add_block fs 0
    (_, second_lvl_id, fs2) ← fill_doubly num_ptr_per_block 0 (suc remaining) no_pointers fs1
    d ← block_write fs2.device s (pointers second_lvl_id)
    some (s, record fs2 { device = d })

  -- `memory` tells whether the first `calloc` succeeds; the lock is left out.
  pub create : Bool → ℕ → ℕ → Bool → Fs → Option (Bool × Fs)
  create false sector length is_dir fs = some (false, fs)
  create true sector length is_dir fs = do
    (left, direct, fs1) ←
        fill num_direct_ptr 0 (bytes_to_sectors length) no_inode.direct_block_sectors fs
    (indirect, left', fs2) ← create_first left fs1
    (doubly, fs3) ← create_second left' fs2
    d ← block_write fs3.device sector (
        header (record {
          length = length;
          magic = inode_magic;
          is_dir = is_dir;
          parent_dir = fs.cwd;
          direct_block_sectors = direct;
          indirect_block_sector = indirect;
          doubly_indirect_block_sector = doubly;
        }))
    some (true, record fs3 { device = d })
