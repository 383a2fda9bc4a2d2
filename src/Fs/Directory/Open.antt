-- ===== src/Fs/Directory/Open.antt =====
-- directory.c, the operations on the list of open inodes, where a directory and the files that it
-- names may be the same inode; and `dir_readdir`.
use cs.Base.{
  ℕ, zero, suc, ◌+◌, ◌*◌, ◌&&◌, Bool, true, false, Option, none, some, List, [], ◌∷◌, ◌==◌,
  if◌then◌else◌, take, drop, length, ◌>>=◌, ◌>>◌, assert,
}
use cs.Fs.Device.{Device, InodeDisk}
use cs.Fs.FreeMap.{Fs, MapFile, root_dir_sector}
use cs.Fs.Inode.{Inode}
use cs.Fs.Inode
use cs.Fs.Inode.Access.{read_at}
use cs.Fs.Inode.Open.{inode_open, inode_close, inode_remove, inode_reopen}
use cs.Fs.Directory.{entry_size, in_use, inode_sector, text_of, lookup, dir_add, erase, name_max}

-- `struct dir`; its inode is known by its sector.
pub record Dir : Type 0 where
  pub inode : ℕ
  pub pos : ℕ

-- What a pointer to an open inode leads to.
pub inode_at : List Inode → ℕ → Option Inode
inode_at [] sector = none
inode_at (inode ∷ rest) sector =
    let later = inode_at rest sector in if inode.sector == sector then some inode else later

-- An assignment through the pointer.
pub update_at : List Inode → ℕ → Inode → List Inode
update_at [] sector new = []
update_at (inode ∷ rest) sector new =
    let later = update_at rest sector new in
    if inode.sector == sector then new ∷ rest else inode ∷ later

abbrev pub dir_get_inode : Dir → ℕ
dir_get_inode dir = dir.inode

-- The sector of the inode, if one was found and could be opened.
pub dir_lookup : Bool → Bool → List Inode → Dir → List ℕ → Fs → Option (Option ℕ × List Inode)
unfolding inode_at
dir_lookup inode_ok memory open_inodes dir name fs = do
  d ← inode_at open_inodes dir.inode
  found ← lookup memory fs.device d.content name
  elim found [
    | none ↦ some (none, open_inodes)
    | some (e, _) ↦ do
      (opened, open_inodes') ← inode_open inode_ok open_inodes (inode_sector e) fs
      some (if opened then some (inode_sector e) else none, open_inodes')
  ]

-- The loop of `dir_readdir`: the name, cut to 14 bytes, and the position then.
pub readdir_from : Bool → Device → InodeDisk → ℕ → ℕ → Option (Option (List ℕ) × ℕ)
readdir_from memory d content zero pos = none
readdir_from memory d content (suc fuel) pos =
    let later = readdir_from memory d content fuel (pos + entry_size) in
    do
      e ← read_at memory d content entry_size pos
      let named : Option (Option (List ℕ) × ℕ) = (do
        t ← text_of (drop 4 e)
        some (some (take name_max t), pos + entry_size))
      if length e == entry_size then (if in_use e then named else later) else some (none, pos)

-- The fuel is one round for each entry of the file, and one more.
pub dir_readdir : Bool → ℕ → List Inode → Dir → Fs → Option (Option (List ℕ) × Dir)
unfolding readdir_from inode_at
dir_readdir memory fuel open_inodes dir fs = do
  d ← inode_at open_inodes dir.inode
  (name, pos) ← readdir_from memory fs.device d.content fuel dir.pos
  some (name, record dir { pos = pos })

module _ (file : MapFile) where
  -- `inode_close` of a pointer that may be NULL.
  pub close_inode : List Inode → Option ℕ → Fs → Option (List Inode × Fs)
  close_inode open_inodes none fs = some (open_inodes, fs)
  close_inode open_inodes (some sector) fs = inode_close file open_inodes sector fs

  -- `dir_ok` tells whether `calloc` succeeds.
  pub dir_open : Bool → List Inode → Option ℕ → Fs → Option (Option Dir × List Inode × Fs)
  unfolding close_inode
  dir_open true open_inodes (some sector) fs =
      some (some (record { inode = sector; pos = 0 }), open_inodes, fs)
  dir_open dir_ok open_inodes inode fs = do
    (open_inodes', fs') ← close_inode open_inodes inode fs
    some (none, open_inodes', fs')

  pub dir_open_root : Bool → Bool → List Inode → Fs → Option (Option Dir × List Inode × Fs)
  unfolding dir_open
  dir_open_root inode_ok dir_ok open_inodes fs = do
    (opened, open_inodes') ← inode_open inode_ok open_inodes root_dir_sector fs
    dir_open dir_ok open_inodes' (if opened then some root_dir_sector else none) fs

  pub dir_reopen : Bool → List Inode → Dir → Fs → Option (Option Dir × List Inode × Fs)
  unfolding dir_open
  dir_reopen dir_ok open_inodes dir fs = do
    d ← inode_at open_inodes dir.inode
    dir_open dir_ok (update_at open_inodes dir.inode (inode_reopen d)) (some dir.inode) fs

  pub dir_close : List Inode → Option Dir → Fs → Option (List Inode × Fs)
  dir_close open_inodes none fs = some (open_inodes, fs)
  dir_close open_inodes (some dir) fs = inode_close file open_inodes dir.inode fs

  pub dir_remove : Bool → Bool → List Inode → Dir → List ℕ → Fs → Option (Bool × List Inode × Fs)
  unfolding inode_at update_at
  dir_remove inode_ok memory open_inodes dir name fs = do
    d ← inode_at open_inodes dir.inode
    found ← lookup memory fs.device d.content name
    elim found [
      | none ↦ some (false, open_inodes, fs)
      | some (e, ofs) ↦ do
        let sector = inode_sector e
        (opened, inodes1) ← inode_open inode_ok open_inodes sector fs
        if opened
            then (do
              d1 ← inode_at inodes1 dir.inode
              (erased, d2, fs2) ← erase file memory d1 e ofs fs
              let inodes2 = update_at inodes1 dir.inode d2
              inode ← inode_at inodes2 sector
              let inodes3 =
                  if erased then update_at inodes2 sector (inode_remove inode) else inodes2
              (inodes4, fs4) ← inode_close file inodes3 sector fs2
              some (erased, inodes4, fs4))
            else some (false, inodes1, fs)
    ]

  -- `dir_add` through the pointer to the directory's inode.
  pub add_through :
      Bool → List ℕ → List Inode → ℕ → List ℕ → ℕ → Fs → Option (Bool × List Inode × Fs)
  unfolding inode_at update_at
  add_through memory garbage open_inodes dir name sector fs = do
    d ← inode_at open_inodes dir
    (added, d', fs') ← dir_add file memory garbage d name sector fs
    some (added, update_at open_inodes dir d', fs')

  -- `inode_ok` and `create_ok` tell whether the two inode operations get memory; the code goes on
  -- through the NULL pointer that `inode_open` returns when it gets none.
  pub dir_create :
      Bool → Bool → Bool → List ℕ → List Inode → ℕ → ℕ → ℕ → Fs → Option (Bool × List Inode × Fs)
  unfolding add_through
  dir_create create_ok inode_ok memory garbage open_inodes sector entry_cnt parent fs = do
    (created, fs1) ← Inode.create file create_ok sector (entry_cnt * entry_size) true fs
    (opened, inodes1) ← inode_open inode_ok open_inodes sector fs1
    assert opened
    (self, inodes2, fs2) ← add_through memory garbage inodes1 sector (46 ∷ []) sector fs1
    (up, inodes3, fs3) ← add_through memory garbage inodes2 sector (46 ∷ 46 ∷ []) parent fs2
    (inodes4, fs4) ← inode_close file inodes3 sector fs3
    some (created && self && up, inodes4, fs4)
