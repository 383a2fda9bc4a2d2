-- ===== src/Fs/Inode/Open.antt =====
-- inode.c: the list of open inodes, and what closing a removed one gives back to the free map. An
-- open inode is known by its sector, since `inode_open` keeps one structure for each sector.
pub mod Close
pub mod Table
use cs.Base.{
  ℕ, zero, suc, ◌+◌, ◌-◌, ◌/◌, ◌%◌, Bool, true, false, not, ◌&&◌, Option, none, some, List, [], ◌∷◌,
  ltb, leb, ◌==◌, if◌then◌else◌, get_or, ◌>>=◌, ◌>>◌, assert,
}
use cs.Fs.Device.{InodeDisk, as_header, block_read, num_direct_ptr, num_ptr_per_block}
use cs.Fs.FreeMap.{Fs, MapFile, release}
use cs.Fs.Inode.{Inode, bytes_to_sectors, read_pointers}

pub inode_reopen : Inode → Inode
inode_reopen inode = record inode { open_cnt = inode.open_cnt + 1 }

-- The loop of `inode_open`: the open inode of the sector is opened once more, if there is one.
pub reopen_from : List Inode → ℕ → Option (List Inode)
unfolding inode_reopen
reopen_from [] sector = none
reopen_from (inode ∷ rest) sector =
    let later = reopen_from rest sector in
    if inode.sector == sector
    then some (inode_reopen inode ∷ rest)
    else elim later [ none ↦ none | some rest' ↦ some (inode ∷ rest') ]

-- Whether an inode is returned, and the open inodes then. `memory` tells whether `malloc` succeeds.
pub inode_open : Bool → List Inode → ℕ → Fs → Option (Bool × List Inode)
unfolding reopen_from
inode_open memory open_inodes sector fs = elim (reopen_from open_inodes sector) [
  | some open_inodes' ↦ some (true, open_inodes')
  | none ↦
      let read : Option (Bool × List Inode) = (do
        b ← block_read fs.device sector
        content ← as_header b
        some (
          true,
          record {
            sector = sector;
            open_cnt = 1;
            removed = false;
            deny_write_cnt = 0;
            content = content;
          }
              ∷ open_inodes,
        )) in
      if memory then read else some (false, open_inodes)
]

abbrev pub inode_remove : Inode → Inode
inode_remove inode = record inode { removed = true }

module _ (file : MapFile) where
  -- The loop over the direct blocks, with n rounds left.
  pub free_direct : ℕ → ℕ → ℕ → List ℕ → Fs → Option (ℕ × Fs)
  free_direct zero sectors_freed sectors_to_free table fs = some (sectors_freed, fs)
  free_direct (suc n) sectors_freed sectors_to_free table fs =
      let next : Option (ℕ × Fs) = (do
        fs' ← release file fs (get_or table sectors_freed 0) 1
        free_direct n (sectors_freed + 1) sectors_to_free table fs') in
      if ltb sectors_freed sectors_to_free && not (get_or table sectors_freed 0 == 0)
      then next
      else some (sectors_freed, fs)

  -- The loop of `free_indirect_block` at an index, with n rounds left; both numbers go up.
  pub free_from : ℕ → ℕ → ℕ → ℕ → List ℕ → Fs → Option (ℕ × Fs)
  free_from zero index sectors_freed sectors_to_free first_lvl_id fs = some (sectors_freed, fs)
  free_from (suc n) index sectors_freed sectors_to_free first_lvl_id fs =
      let next : Option (ℕ × Fs) = (do
        fs' ← release file fs (get_or first_lvl_id index 0) 1
        free_from n (index + 1) (sectors_freed + 1) sectors_to_free first_lvl_id fs') in
      if ltb (index + sectors_freed) sectors_to_free then next else some (sectors_freed, fs)

  pub free_indirect_block : ℕ → ℕ → List ℕ → Fs → Option (ℕ × Fs)
  unfolding free_from
  free_indirect_block sectors_freed sectors_to_free first_lvl_id fs =
      free_from num_ptr_per_block 0 sectors_freed sectors_to_free first_lvl_id fs

  -- The loop over the second-level table.
  pub free_doubly : ℕ → ℕ → ℕ → ℕ → List ℕ → Fs → Option (ℕ × Fs)
  free_doubly zero second_lvl_offset sectors_freed sectors_to_free second_lvl_id fs =
      some (sectors_freed, fs)
  free_doubly (suc n) second_lvl_offset sectors_freed sectors_to_free second_lvl_id fs =
      let next : Option (ℕ × Fs) = (do
        first_lvl_id ← read_pointers fs.device (get_or second_lvl_id second_lvl_offset 0)
        (freed, fs') ← free_indirect_block sectors_freed sectors_to_free first_lvl_id fs
        free_doubly n (second_lvl_offset + 1) freed sectors_to_free second_lvl_id fs') in
      if ltb sectors_freed sectors_to_free then next else some (sectors_freed, fs)

  -- The first-level block, then the second-level one, each under its conditions.
  pub free_first : ℕ → ℕ → InodeDisk → Fs → Option (ℕ × Fs)
  free_first sectors_freed sectors_to_free content fs =
      let next : Option (ℕ × Fs) = (do
        first_lvl_id ← read_pointers fs.device content.indirect_block_sector
        free_indirect_block sectors_freed sectors_to_free first_lvl_id fs) in
      if ltb sectors_freed sectors_to_free
        && (leb num_direct_ptr sectors_freed && not (content.indirect_block_sector == 0))
      then next
      else some (sectors_freed, fs)

  pub free_second : ℕ → ℕ → InodeDisk → Fs → Option (ℕ × Fs)
  unfolding free_doubly
  free_second sectors_freed sectors_to_free content fs =
      let next : Option (ℕ × Fs) = (do
        second_lvl_id ← read_pointers fs.device content.doubly_indirect_block_sector
        free_doubly num_ptr_per_block 0 sectors_freed sectors_to_free second_lvl_id fs) in
      if ltb sectors_freed sectors_to_free
        && (leb (num_direct_ptr + num_ptr_per_block) sectors_freed
            && not (content.doubly_indirect_block_sector == 0))
      then next
      else some (sectors_freed, fs)

  -- The blocks of a removed inode, and the sector of the inode itself.
  pub free_blocks : Inode → Fs → Option Fs
  unfolding free_direct free_first free_second
  free_blocks inode fs = do
    let sectors_to_free = bytes_to_sectors inode.content.length
    (n1, fs1) ← free_direct num_direct_ptr 0 sectors_to_free inode.content.direct_block_sectors fs
    (n2, fs2) ← free_first n1 sectors_to_free inode.content fs1
    (_, fs3) ← free_second n2 sectors_to_free inode.content fs2
    release file fs3 inode.sector 1

  -- An opener less; after the last one, the inode leaves the list.
  pub inode_close : List Inode → ℕ → Fs → Option (List Inode × Fs)
  unfolding free_blocks
  inode_close [] sector fs = none
  inode_close (inode ∷ rest) sector fs =
      let later = inode_close rest sector fs in
      let freed : Option (List Inode × Fs) = (do fs' ← free_blocks inode fs; some (rest, fs')) in
      if inode.sector == sector
      then (if inode.open_cnt == 1
          then if inode.removed then freed else some (rest, fs)
          else some (record inode { open_cnt = inode.open_cnt - 1 } ∷ rest, fs))
      else (do (rest', fs') ← later; some (inode ∷ rest', fs'))
