-- ===== src/Fs/File/Deny.antt =====
-- file.c: denying writes.
use cs.Base.{ℕ, ◌+◌, ◌-◌, ◌<◌, ◌≡◌, refl, ap, sym, Bool, true, false, some, List, ltb, leb, arith}
use cs.Fs.FreeMap.{Fs, MapFile}
use cs.Fs.Inode.{Inode}
use cs.Fs.Inode.Access.{write_at}
use cs.Fs.File.{File, file_write, file_deny_write, file_allow_write}

write_at_denied :
    (map : MapFile) (inode : Inode) (buffer : List ℕ) (memory : Bool) (size offset : ℕ) (fs : Fs)
    → 0 < inode.deny_write_cnt
    → write_at map memory inode buffer size offset fs ≡ some (0, inode, fs)
unfolding write_at
write_at_denied map inode buffer memory size offset fs denied =
    let yes_denied : ltb 0 inode.deny_write_cnt ≡ true = ground arith in rw yes_denied refl

-- What holds of a file that denied writes to its inode.
abbrev pub Denied : File → Inode → Type 0
Denied file inode =
    (file' : File) × (inode' : Inode) × (file_deny_write file inode ≡ some (file', inode'))
    × (file_allow_write file' inode' ≡ some (file, inode))
    × ((map : MapFile) (memory : Bool) (buffer : List ℕ) (size : ℕ) (fs : Fs)
        → file_write map memory file' inode' buffer size fs ≡ some (0, file', inode', fs))

-- A file that has not denied writes can deny them, when fewer openers of the inode did so than
-- there are: then no write through it writes or changes anything, and allowing them again brings
-- back the file and the inode of before.
pub file_deny_write-Denied :
    (file : File) (inode : Inode)
    → file.deny_write ≡ false
    → inode.deny_write_cnt < inode.open_cnt
    → Denied file inode
unfolding file_deny_write file_allow_write file_write
file_deny_write-Denied file inode free room =
    let fits : leb (inode.deny_write_cnt + 1) inode.open_cnt ≡ true = ground arith in
    let positive : ltb 0 (inode.deny_write_cnt + 1) ≡ true = ground arith in
    let back : inode.deny_write_cnt + 1 - 1 ≡ inode.deny_write_cnt = omega arith in
    let still : file.pos + 0 ≡ file.pos = omega arith in
    let file' : File = record file { deny_write = true } in
    let inode' : Inode = record inode { deny_write_cnt = inode.deny_write_cnt + 1 } in
    (
      file',
      inode',
      rw (free, fits) refl,
      rw (positive, fits, back)
          (ap (λ b. some (record { pos = file.pos; deny_write = b }, inode)) (sym free)),
      λ map memory buffer size fs.
          rw (write_at_denied map inode' buffer memory size file.pos fs (omega arith), still) refl,
    )
