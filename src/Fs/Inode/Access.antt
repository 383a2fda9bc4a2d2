-- ===== src/Fs/Inode/Access.antt =====
-- inode.c, reading and writing the bytes of a file, and extending it. A loop's fuel is the number
-- of bytes that it was asked for: each round but the last moves at least one. Writing an entry past
-- the end of a table of sector numbers, which C leaves undefined, stops the model.
pub mod Read
pub mod Extend
pub mod Round
pub mod Stored
pub mod Sample
mod Tests
pub mod Write
use cs.Base.{
  ℕ, zero, suc, ◌+◌, ◌-◌, ◌*◌, ◌/◌, ◌%◌, Bool, true, false, ◌&&◌, ◌||◌, Option, none, some, List,
  [], ◌∷◌, ◌++◌, ltb, ◌==◌, if◌then◌else◌, get_or, set, take, drop, replicate, min, ◌>>=◌, ◌>>◌,
  assert,
}
use cs.Fs.Device.{
  Device, InodeDisk, Block, zeros, bytes, pointers, header, as_bytes, block_read, block_write,
  no_pointers, num_direct_ptr, num_ptr_per_block, block_sector_size,
}
use cs.Fs.FreeMap.{Fs, MapFile}
use cs.Fs.Inode.{Inode, byte_to_sector, read_pointers, add_block}

unfoldable pub read_bytes : Device → ℕ → Option (List ℕ)
read_bytes d s = do b ← block_read d s; as_bytes b

-- Bytes to copy in one round: what is wanted, left in the file and left in the sector.
abbrev pub chunk_size : ℕ → ℕ → ℕ → ℕ
chunk_size length' size offset =
    min size (min (length' - offset) (block_sector_size - offset % block_sector_size))

-- The loop of `inode_read_at`: the bytes copied to the buffer. `memory` tells whether the bounce
-- buffer, wanted for a part of a sector only, can be allocated.
pub read_from : Bool → Device → InodeDisk → ℕ → ℕ → ℕ → Option (List ℕ)
read_from memory d content zero size offset = some []
read_from memory d content (suc fuel) size offset =
    let chunk = chunk_size content.length size offset in
    let sector_ofs = offset % block_sector_size in
    let whole = (sector_ofs == 0) && (chunk == block_sector_size) in
    let round : Option (List ℕ) = (do
      sector_idx ← byte_to_sector d content offset
      sector ← read_bytes d sector_idx
      rest ← read_from memory d content fuel (size - chunk) (offset + chunk)
      some (take chunk (drop sector_ofs sector) ++ rest)) in
    if (size == 0) || (chunk == 0)
    then some []
    else if whole || memory
    then round
    else (do _ ← byte_to_sector d content offset; some [])

-- The number of bytes read is the length of the list.
pub read_at : Bool → Device → InodeDisk → ℕ → ℕ → Option (List ℕ)
unfolding read_from
read_at memory d content size offset =
    if ltb content.length offset then some [] else read_from memory d content size size offset

-- A sector's bytes with a chunk of the buffer copied over them at an offset; a whole sector comes
-- from the buffer alone.
abbrev merge : ℕ → ℕ → List ℕ → List ℕ → List ℕ
merge sector_ofs chunk old buffer =
    take sector_ofs old ++ (take chunk buffer ++ drop (sector_ofs + chunk) old)

-- What a round of the extension adds: nothing once the direct and first-level parts are full.
module _ (file : MapFile) where
  extend_direct : InodeDisk → ℕ → Fs → Option (InodeDisk × Fs)
  extend_direct content next_index fs = do
    assert (ltb next_index num_direct_ptr)
    (s, fs') ← add_block file fs (get_or content.direct_block_sectors next_index 0)
    some (
      record content { direct_block_sectors = set content.direct_block_sectors next_index s },
      fs',
    )

  -- The first-level block, allocated where its number is NULL: its number, what `calloc` or the
  -- read put in the buffer.
  extend_table : InodeDisk → Fs → Option (ℕ × List ℕ × Fs)
  extend_table content fs =
      if content.indirect_block_sector == 0
      then (do
        (s, fs') ← add_block file fs content.indirect_block_sector
        some (s, no_pointers, fs'))
      else (do
        t ← read_pointers fs.device content.indirect_block_sector
        some (content.indirect_block_sector, t, fs))

  extend_first : InodeDisk → ℕ → Fs → Option (InodeDisk × Fs)
  extend_first content next_index fs = do
    (r, table, fs1) ← extend_table content fs
    let index = next_index - num_direct_ptr
    assert (ltb index num_ptr_per_block)
    (s, fs2) ← add_block file fs1 (get_or table index 0)
    d ← block_write fs2.device r (pointers (set table index s))
    some (record content { indirect_block_sector = r }, record fs2 { device = d })

  extend_round : InodeDisk → ℕ → Fs → Option (InodeDisk × Fs)
  unfolding extend_direct extend_first extend_table
  extend_round content next_index fs =
      if ltb content.length (block_sector_size * num_direct_ptr)
      then extend_direct content next_index fs
      else if ltb content.length (block_sector_size * (num_direct_ptr + num_ptr_per_block))
      then extend_first content next_index fs
      else some (content, fs)

  -- The length after a round; `offset + size` is past the old length here.
  abbrev grown : ℕ → ℕ → ℕ → ℕ
  grown length' size offset =
      if ltb length' offset && ltb 511 (offset + size - length')
      then length' + 512
      else size + offset

  extend_loop : ℕ → InodeDisk → ℕ → ℕ → ℕ → Fs → Option (InodeDisk × Fs)
  extend_loop zero content next_index size offset fs = some (content, fs)
  extend_loop (suc sectors_to_add) content next_index size offset fs = do
    (content', fs') ← extend_round content next_index fs
    extend_loop sectors_to_add (record content' { length = grown content'.length size offset })
        (next_index + 1) size offset fs'

  pub extend_file : Inode → ℕ → ℕ → Fs → Option (InodeDisk × Fs)
  unfolding extend_round extend_loop
  extend_file inode size offset fs = do
    let past = offset + size - inode.content.length
    let sectors_to_add =
        if past % block_sector_size == 0
        then past / block_sector_size
        else past / block_sector_size + 1
    (content, fs') ←
        extend_loop sectors_to_add inode.content (inode.content.length / block_sector_size + 1) size
          offset fs
    d ← block_write fs'.device inode.sector (header content)
    some (content, record fs' { device = d })

  -- The loop of `inode_write_at`: the number of bytes written.
  pub write_from : Bool → InodeDisk → ℕ → ℕ → ℕ → List ℕ → Fs → Option (ℕ × Fs)
  write_from memory content zero size offset buffer fs = some (0, fs)
  write_from memory content (suc fuel) size offset buffer fs =
      let chunk = chunk_size content.length size offset in
      let sector_ofs = offset % block_sector_size in
      let sector_left = block_sector_size - sector_ofs in
      let whole = (sector_ofs == 0) && (chunk == block_sector_size) in
      let bounce : Option (List ℕ) =
        if ltb 0 sector_ofs || ltb chunk sector_left
        then (do
          sector_idx ← byte_to_sector fs.device content offset
          read_bytes fs.device sector_idx)
        else some (replicate block_sector_size 0) in
      let round : Option (ℕ × Fs) = (do
        sector_idx ← byte_to_sector fs.device content offset
        old ← if whole then some [] else bounce
        d ← block_write fs.device sector_idx (bytes (merge sector_ofs chunk old buffer))
        (n, fs') ←
            write_from memory content fuel (size - chunk) (offset + chunk) (drop chunk buffer)
              (record fs { device = d })
        some (chunk + n, fs')) in
      if (size == 0) || (chunk == 0)
      then some (0, fs)
      else if whole || memory
      then round
      else (do _ ← byte_to_sector fs.device content offset; some (0, fs))

  -- A write past the end that stays in the last block.
  lengthen : Inode → ℕ → Fs → Option (InodeDisk × Fs)
  lengthen inode length' fs = do
    let content = record inode.content { length = length' }
    d ← block_write fs.device inode.sector (header content)
    some (content, record fs { device = d })

  -- The inode is written back with its new length in both cases of a write past the end.
  unfoldable pub write_at : Bool → Inode → List ℕ → ℕ → ℕ → Fs → Option (ℕ × Inode × Fs)
  unfolding extend_file write_from lengthen
  write_at memory inode buffer size offset fs =
      let last = (offset + size - 1) / block_sector_size in
      let length' = inode.content.length in
      let both_zero = (last == 0) && (length' == 0) in
      let resized : Option (InodeDisk × Fs) =
        if ltb (length' / block_sector_size) last || both_zero
        then extend_file inode size offset fs
        else if ltb length' (offset + size)
        then lengthen inode (offset + size) fs
        else some (inode.content, fs) in
      if ltb 0 inode.deny_write_cnt then some (0, inode, fs) else (do
        (content, fs1) ← resized
        (n, fs2) ← write_from memory content size size offset buffer fs1
        some (n, record inode { content = content }, fs2))
