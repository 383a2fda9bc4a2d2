-- ===== src/Fs/FreeMap.antt =====
-- fs_PintOS/filesys/free-map.c: allocation of sectors, on the bitmap of lib/kernel/bitmap.c.
-- `bitmap_write` of the map to its file goes through the file layer, which is given here as the
-- operation `write` of a `MapFile`.
pub mod Allocate
pub mod Grows
pub mod Laid
pub mod Release
use cs.Base.{
  ℕ, ◌+◌, Bool, true, false, not, Option, none, some, List, [], ◌==◌, if◌then◌else◌, ◌>>=◌, ◌>>◌,
  assert,
}
use cs.Bitmap
use cs.Bitmap.{Bitmap, bitmap_error}
use cs.Fs.Device.{Device}

-- `bitmap_write (free_map, free_map_file)`: whether all of it was written, and the device then.
pub record MapFile : Type 0 where
  pub write : Bitmap → Device → Option (Bool × Device)

-- The mounted file system: its device, the free map, whether `free_map_file` is open, and the
-- `current_working_dir` of the running thread.
pub record Fs : Type 0 where
  pub device : Device
  pub free_map : Bitmap
  pub map_open : Bool
  pub cwd : ℕ

abbrev pub free_map_sector : ℕ
free_map_sector = 0

abbrev pub root_dir_sector : ℕ
root_dir_sector = 1

-- `free_map_init`, on the storage that `malloc` returned.
pub init : Bool → Option (List ℕ) → Fs → Option Fs
init struct_ok buffer fs = do
  b ← Bitmap.create struct_ok buffer fs.device.size
  b' ← b
  some (record fs { free_map = Bitmap.mark (Bitmap.mark b' free_map_sector) root_dir_sector })

module _ (file : MapFile) where
  -- The write-through of `free_map_allocate`; with no open file there is none, and no failure.
  pub sync : Fs → Option (Bool × Fs)
  sync fs =
      if fs.map_open
      then (do (done, d) ← file.write fs.free_map fs.device; some (done, record fs { device = d }))
      else some (true, fs)

  -- The sector that goes through `*sectorp`; `none` where the code returns false.
  pub allocate : Fs → ℕ → Option (Option ℕ × Fs)
  allocate fs cnt = do
    (sector, map) ← Bitmap.scan_and_flip fs.free_map 0 cnt false
    if sector == bitmap_error then some (none, record fs { free_map = map }) else (do
      (done, fs') ← sync (record fs { free_map = map })
      if done then some (some sector, fs') else (do
        map' ← Bitmap.set_multiple fs'.free_map sector cnt false
        some (none, record fs' { free_map = map' })))

  -- With no open file the write goes through a null pointer.
  pub release : Fs → ℕ → ℕ → Option Fs
  release fs sector cnt = do
    used ← Bitmap.all fs.free_map sector cnt
    assert used
    map ← Bitmap.set_multiple fs.free_map sector cnt false
    assert fs.map_open
    (_, d) ← file.write map fs.device
    some (record fs { free_map = map; device = d })
