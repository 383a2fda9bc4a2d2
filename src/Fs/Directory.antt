-- ===== src/Fs/Directory.antt =====
-- fs_PintOS/filesys/directory.c: directories, files of entries of 20 bytes: four for the sector of
-- the entry's inode, lowest first, fifteen for its name, one that tells whether it is in use. A name is
-- a text, the list of its bytes before the null byte; `strcmp` tests whether two texts are the same and
-- `strlcpy` copies one, as Libc/Text shows. `memory` tells whether the bounce buffers of inode.c can be
-- allocated. A directory is known by the sector of its inode in the list of open inodes.
pub mod Entry
pub mod Slots
pub mod Lookup
pub mod Add
pub mod Erase
pub mod Open
mod Tests
use cs.Base.{
  ℕ, zero, suc, ◌+◌, ◌*◌, ◌/◌, ◌%◌, ◌^◌, Bool, true, false, not, ◌&&◌, ◌||◌, Option, none, some,
  List, [], ◌∷◌, ◌++◌, ltb, ◌==◌, if◌then◌else◌, get_or, set, take, drop, min, length, ◌>>=◌, ◌>>◌,
  assert,
}
use cs.Fs.Device.{Device, InodeDisk}
use cs.Fs.FreeMap.{Fs, MapFile}
use cs.Fs.Inode.{Inode}
use cs.Fs.Inode
use cs.Fs.Inode.Access.{read_at, write_at}
use cs.Fs.Inode.Open.{inode_open, inode_close, inode_remove, inode_reopen}

abbrev pub name_max : ℕ
name_max = 14

-- The size of a `struct dir_entry`, and the place of its `in_use`.
abbrev pub entry_size : ℕ
entry_size = 20

abbrev pub in_use_at : ℕ
in_use_at = 19

abbrev pub in_use : List ℕ → Bool
in_use e = not (get_or e in_use_at 0 == 0)

abbrev pub inode_sector : List ℕ → ℕ
inode_sector e = get_or e 0 0 + 256 * (get_or e 1 0 + 256 * (get_or e 2 0 + 256 * get_or e 3 0))

-- The text that begins a list of bytes; `none` when no null byte ends it.
pub text_of : List ℕ → Option (List ℕ)
text_of [] = none
text_of (c ∷ rest) =
    let more = text_of rest in if c == 0 then some [] else (do t ← more; some (c ∷ t))

pub same_text : List ℕ → List ℕ → Bool
same_text [] [] = true
same_text (x ∷ xs) (y ∷ ys) = (x == y) && same_text xs ys
same_text _ _ = false

-- `!strcmp (name, e.name)`, which reads on behind a name that no null byte ends.
pub has_name : List ℕ → List ℕ → Option Bool
unfolding text_of same_text
has_name name e = do t ← text_of (drop 4 e); some (same_text name t)

-- The entry that is written: the bytes of the old one stay behind the name.
pub with_name : List ℕ → ℕ → List ℕ → List ℕ
with_name e sector name =
    let used = set e in_use_at 1 in
    let n = min (length name) name_max in
    sector % 256
    ∷ sector / 256 % 256
    ∷ sector / 256 / 256 % 256
    ∷ sector / 256 / 256 / 256 % 256
    ∷ (take n name ++ 0 ∷ drop (5 + n) used)

-- The loop of `lookup`: the entry and its offset.
pub lookup_from : Bool → Device → InodeDisk → List ℕ → ℕ → ℕ → Option (Option (List ℕ × ℕ))
unfolding has_name
lookup_from memory d content name zero ofs = none
lookup_from memory d content name (suc fuel) ofs =
    let later = lookup_from memory d content name fuel (ofs + entry_size) in
    do
      e ← read_at memory d content entry_size ofs
      let found = (do same ← has_name name e; if same then some (some (e, ofs)) else later)
      if length e == entry_size then (if in_use e then found else later) else some none

-- One round for each entry of the file, and one more.
abbrev pub rounds : InodeDisk → ℕ
rounds content = content.length / entry_size + 1

pub lookup : Bool → Device → InodeDisk → List ℕ → Option (Option (List ℕ × ℕ))
unfolding lookup_from
lookup memory d content name = lookup_from memory d content name (rounds content) 0

-- The loop of `dir_add` that looks for a free entry: its offset, and the bytes of `e` then.
pub slot_from : Bool → Device → InodeDisk → ℕ → ℕ → List ℕ → Option (ℕ × List ℕ)
slot_from memory d content zero ofs e = none
slot_from memory d content (suc fuel) ofs e = do
  bs ← read_at memory d content entry_size ofs
  let e' = bs ++ drop (length bs) e
  let later = slot_from memory d content fuel (ofs + entry_size) e'
  if (length bs == entry_size) && in_use e' then later else some (ofs, e')

module _ (file : MapFile) where
  -- On the inode of the directory; `garbage` is what `e` holds before it is set.
  pub dir_add : Bool → List ℕ → Inode → List ℕ → ℕ → Fs → Option (Bool × Inode × Fs)
  unfolding lookup slot_from with_name
  dir_add memory garbage dir name sector fs =
      let write : Option (Bool × Inode × Fs) = (do
        (ofs, e) ← slot_from memory fs.device dir.content (rounds dir.content) 0 garbage
        (n, dir', fs') ← write_at file memory dir (with_name e sector name) entry_size ofs fs
        some (n == entry_size, dir', fs')) in
      let go : Option (Bool × Inode × Fs) = (do
        found ← lookup memory fs.device dir.content name
        elim found [ none ↦ write | some _ ↦ some (false, dir, fs) ]) in
      if (length name == 0) || ltb name_max (length name) then some (false, dir, fs) else go

  -- The write of `dir_remove`: whether all of the entry was written.
  pub erase : Bool → Inode → List ℕ → ℕ → Fs → Option (Bool × Inode × Fs)
  erase memory dir e ofs fs = do
    (n, dir', fs') ← write_at file memory dir (set e in_use_at 0) entry_size ofs fs
    some (n == entry_size, dir', fs')
