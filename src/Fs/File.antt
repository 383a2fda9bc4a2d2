-- ===== src/Fs/File.antt =====
-- fs_PintOS/filesys/file.c, with `inode_deny_write` and `inode_allow_write` of inode.c. An open
-- file points to an inode that other open files may share, so the operations take the inode it
-- points to beside it, and return both. Opening and closing are left out.
pub mod Sequence
pub mod Deny
use cs.Base.{
  ℕ, suc, ◌+◌, ◌-◌, Bool, true, false, Option, none, some, List, ltb, leb, if◌then◌else◌, length,
  ◌>>=◌, ◌>>◌, assert,
}
use cs.Fs.Device.{Device, InodeDisk}
use cs.Fs.FreeMap.{Fs, MapFile}
use cs.Fs.Inode.{Inode}
use cs.Fs.Inode.Access.{read_at, write_at}

-- `struct file` without its pointer.
pub record File : Type 0 where
  pub pos : ℕ
  pub deny_write : Bool

pub inode_deny_write : Inode → Option Inode
inode_deny_write inode = do
  let cnt = inode.deny_write_cnt + 1
  assert (leb cnt inode.open_cnt)
  some (record inode { deny_write_cnt = cnt })

pub inode_allow_write : Inode → Option Inode
inode_allow_write inode = do
  assert (ltb 0 inode.deny_write_cnt)
  assert (leb inode.deny_write_cnt inode.open_cnt)
  some (record inode { deny_write_cnt = inode.deny_write_cnt - 1 })

-- The bytes that were read, and the file.
pub file_read : Bool → Device → File → Inode → ℕ → Option (List ℕ × File)
file_read memory d file inode size = do
  buffer ← read_at memory d inode.content size file.pos
  some (buffer, record file { pos = file.pos + length buffer })

pub file_read_at : Bool → Device → Inode → ℕ → ℕ → Option (List ℕ)
file_read_at memory d inode size file_ofs = read_at memory d inode.content size file_ofs

pub file_write : MapFile → Bool → File → Inode → List ℕ → ℕ → Fs → Option (ℕ × File × Inode × Fs)
file_write map memory file inode buffer size fs = do
  (bytes_written, inode', fs') ← write_at map memory inode buffer size file.pos fs
  some (bytes_written, record file { pos = file.pos + bytes_written }, inode', fs')

pub file_write_at : MapFile → Bool → Inode → List ℕ → ℕ → ℕ → Fs → Option (ℕ × Inode × Fs)
file_write_at map memory inode buffer size file_ofs fs =
    write_at map memory inode buffer size file_ofs fs

pub file_deny_write : File → Inode → Option (File × Inode)
unfolding inode_deny_write
file_deny_write file inode =
    if file.deny_write
    then some (file, inode)
    else (do inode' ← inode_deny_write inode; some (record file { deny_write = true }, inode'))

pub file_allow_write : File → Inode → Option (File × Inode)
unfolding inode_allow_write
file_allow_write file inode =
    if file.deny_write
    then (do inode' ← inode_allow_write inode; some (record file { deny_write = false }, inode'))
    else some (file, inode)

abbrev pub file_seek : File → ℕ → File
file_seek file new_pos = record file { pos = new_pos }

abbrev pub file_tell : File → ℕ
file_tell file = file.pos

abbrev pub file_length : Inode → ℕ
file_length inode = inode.content.length
