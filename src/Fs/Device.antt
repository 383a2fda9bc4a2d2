-- ===== src/Fs/Device.antt =====
-- fs_PintOS/devices/block.c, as the file system uses it: sectors that are read and written whole.
-- A sector is known by what was last written there: zeros, data bytes, a block of sector numbers,
-- or an inode. A sector of zeros reads as any of them; to read any other content as what it is
-- not stops the model.
use cs.Base.{
  ℕ, Bool, false, Option, none, some, List, ltb, ◌==◌, if◌then◌else◌, replicate, ◌>>◌, assert, ◌≡◌,
  ◌<◌, arith,
}

abbrev pub block_sector_size : ℕ
block_sector_size = 512

abbrev pub num_direct_ptr : ℕ
num_direct_ptr = 122

abbrev pub num_ptr_per_block : ℕ
num_ptr_per_block = 128

-- `struct inode_disk`
pub record InodeDisk : Type 0 where
  pub length : ℕ
  pub magic : ℕ
  pub is_dir : Bool
  pub parent_dir : ℕ
  pub direct_block_sectors : List ℕ
  pub indirect_block_sector : ℕ
  pub doubly_indirect_block_sector : ℕ

pub data Block : Type 0 where
  zeros : Block
  bytes : List ℕ → Block
  pointers : List ℕ → Block
  header : InodeDisk → Block

-- What `calloc` makes of a block of sector numbers, and of an inode.
abbrev pub no_pointers : List ℕ
no_pointers = replicate num_ptr_per_block 0

abbrev pub no_inode : InodeDisk
no_inode = record {
  length = 0;
  magic = 0;
  is_dir = false;
  parent_dir = 0;
  direct_block_sectors = replicate num_direct_ptr 0;
  indirect_block_sector = 0;
  doubly_indirect_block_sector = 0;
}

-- A sector read into a buffer of a given type.
abbrev pub as_pointers : Block → Option (List ℕ)
as_pointers zeros = some no_pointers
as_pointers (pointers p) = some p
as_pointers _ = none

abbrev pub as_header : Block → Option InodeDisk
as_header zeros = some no_inode
as_header (header i) = some i
as_header _ = none

abbrev pub as_bytes : Block → Option (List ℕ)
as_bytes zeros = some (replicate block_sector_size 0)
as_bytes (bytes b) = some b
as_bytes _ = none

-- `struct block` of the file system, `fs_device`.
pub record Device : Type 0 where
  pub size : ℕ
  pub sector : ℕ → Block

-- `check_sector` stops the kernel on a sector past the end.
unfoldable pub block_read : Device → ℕ → Option Block
block_read d s = do assert (ltb s d.size); some (d.sector s)

-- The device with one sector replaced.
abbrev pub put : Device → ℕ → Block → Device
put d s b = record d { sector = λ t. if s == t then b else d.sector t }

unfoldable pub block_write : Device → ℕ → Block → Option Device
block_write d s b = do assert (ltb s d.size); some (put d s b)

pub block_write-put :
    (d : Device) (s : ℕ) (b : Block) → s < d.size → block_write d s b ≡ some (put d s b)
unfolding block_write
block_write-put d s b h = ground arith

pub block_read_lem : (d : Device) (s : ℕ) → s < d.size → block_read d s ≡ some (d.sector s)
unfolding block_read
block_read_lem d s h = ground arith
