-- ===== src/Fs/Inode/Access/Extend.antt =====
-- inode.c, `inode_write_at` at the end of a file whose blocks are all full.
use cs.Base.{
  ℕ, zero, suc, ◌+◌, ◌-◌, ◌*◌, ◌/◌, ◌%◌, ◌<◌, ◌≡◌, refl, true, false, ◌&&◌, ◌||◌, some, List, [],
  ◌++◌, ltb, ◌==◌, get_or, take, drop, arith,
}
use cs.Fs.Device.{Device, InodeDisk, bytes, header, put, block_write-put}
use cs.Fs.FreeMap.{Fs, MapFile}
use cs.Fs.Inode.{Inode, byte_to_sector}
use cs.Fs.Inode.Access.{chunk_size, write_from, lengthen, write_at}

-- The inode with one block more in its length.
abbrev pub longer : Inode → ℕ → Inode
longer inode size = record inode {
  content = record inode.content { length = inode.content.length + size };
}

-- The state after its inode is written back, and a block's bytes go to sector s.
abbrev pub appended : Inode → ℕ → ℕ → List ℕ → Fs → Fs
appended inode size s buffer fs = record fs {
  device =
      put (put fs.device inode.sector (header (longer inode size).content)) s
        (bytes (take size buffer ++ []));
}

-- The block of a byte behind a direct sector number.
pub direct_sector :
    (d : Device) (content : InodeDisk) (pos : ℕ)
    → pos < content.length
    → (k : ℕ) → pos / 512 ≡ k
    → k < 122
    → byte_to_sector d content pos ≡ some (get_or content.direct_block_sectors k 0)
unfolding byte_to_sector
direct_sector d content pos lt k at near =
    let a : ltb pos content.length ≡ true = ground arith in
    let b : ltb k 122 ≡ true = ground arith in rw (at, a, b) refl

drop_nil : (n : ℕ) → drop {A = ℕ} n [] ≡ []
drop_nil zero = refl
drop_nil (suc n) = refl

write_done :
    (file : MapFile) (content : InodeDisk) (fuel offset : ℕ) (buffer : List ℕ) (fs : Fs)
    → write_from file true content fuel 0 offset buffer fs ≡ some (0, fs)
unfolding write_from
write_done file content zero offset buffer fs = refl
write_done file content (suc fuel) offset buffer fs = refl

-- The loop of `inode_write_at` for a whole block at the end of the file.
write_block :
    (file : MapFile) (content : InodeDisk) (buffer : List ℕ) (fuel size offset s : ℕ) (fs : Fs)
    → size ≡ 512
    → 0 < fuel
    → content.length ≡ offset + size
    → offset % 512 ≡ 0
    → byte_to_sector fs.device content offset ≡ some s
    → s < fs.device.size
    → write_from file true content fuel size offset buffer fs
      ≡ some (size, record fs { device = put fs.device s (bytes (take size buffer ++ [])) })
unfolding write_from
write_block file content buffer zero size offset s fs block pos long whole at lt =
    absurd (omega arith)
write_block file content buffer (suc fuel) size offset s fs block pos long whole at lt =
    let c : chunk_size content.length size offset ≡ size = omega arith in
    let go : ((size == 0) || (size == 0)) ≡ false = ground arith in
    let all : ((0 == 0) && (size == 512)) ≡ true = ground arith in
    let left : size - size ≡ 0 = omega arith in
    let all_written : size + 0 ≡ size = omega arith in
    let after : Fs = record fs { device = put fs.device s (bytes (take size buffer ++ [])) } in
    rw
      (
        c,
        whole,
        go,
        all,
        at,
        drop_nil (0 + size),
        block_write-put fs.device s (bytes (take size buffer ++ [])) lt,
        left,
        write_done file content fuel (offset + size) (drop size buffer) after,
        all_written,
      )
      refl

-- The same for the whole of `inode_write_at`.
append_block :
    (file : MapFile) (inode : Inode) (buffer : List ℕ) (size offset k : ℕ) (fs : Fs)
    → size ≡ 512
    → offset ≡ 512 * k
    → inode.content.length ≡ offset
    → 0 < k
    → k < 122
    → inode.deny_write_cnt ≡ 0
    → inode.sector < fs.device.size
    → get_or inode.content.direct_block_sectors k 0 < fs.device.size
    → write_at file true inode buffer size offset fs
      ≡ some (
        size,
        longer inode size,
        appended inode size (get_or inode.content.direct_block_sectors k 0) buffer fs,
      )
unfolding write_at lengthen
append_block file inode buffer size offset k fs block start len pos near allowed home in_range =
    let last : (offset + size - 1) / 512 ≡ k = omega arith in
    let full : inode.content.length / 512 ≡ k = omega arith in
    let same : ltb k k ≡ false = ground arith in
    let past : ltb inode.content.length (offset + size) ≡ true = ground arith in
    let open_to_all : ltb 0 inode.deny_write_cnt ≡ false = ground arith in
    let content : InodeDisk = record inode.content { length = offset + size } in
    let written : Fs = record fs { device = put fs.device inode.sector (header content) } in
    let at : byte_to_sector written.device content offset
        ≡ some (get_or inode.content.direct_block_sectors k 0) =
      direct_sector written.device content offset (omega arith) k (omega arith) near in
    let first : (k == 0) ≡ false = ground arith in
    rw
      (
        open_to_all,
        last,
        full,
        same,
        first,
        past,
        block_write-put fs.device inode.sector (header content) home,
        write_block file content buffer size size offset
            (get_or inode.content.direct_block_sectors k 0) written block (omega arith) refl
            (omega arith) at in_range,
        len,
      )
      refl

-- Appending a block to a file of k full blocks, for k from 1 to 121: `inode_write_at` answers 512
-- and lengthens the file, but takes no sector: the free map is the same, and the data go to the
-- sector that the entry of the next block already holds, which is 0 after `inode_create`.
pub write_at-appended :
    (file : MapFile) (inode : Inode) (k : ℕ) (buffer : List ℕ) (fs : Fs)
    → inode.content.length ≡ 512 * k
    → 0 < k
    → k < 122
    → inode.deny_write_cnt ≡ 0
    → inode.sector < fs.device.size
    → get_or inode.content.direct_block_sectors k 0 < fs.device.size
    → write_at file true inode buffer 512 (512 * k) fs
      ≡ some (
        512,
        longer inode 512,
        appended inode 512 (get_or inode.content.direct_block_sectors k 0) buffer fs,
      )
write_at-appended file inode k buffer fs len pos near allowed home in_range =
    append_block file inode buffer 512 (512 * k) k fs refl refl len pos near allowed home in_range
