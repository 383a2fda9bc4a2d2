-- ===== src/Fs/Tests.antt =====
-- Runs of the file system, and its theorems at a small device.
use cs.Base.{
  ℕ, ◌<◌, ◌*◌, replicate, ◌≡◌, refl, Bool, true, false, some, none, List, [], ◌∷◌, ◌++◌, ◌+◌, ◌==◌,
  arith, zero, suc, ◌≢◌, get_or, subst, sym, inl, inr, In, ◌>>=◌,
}
use cs.Bitmap.Bits.{view}
use cs.Bitmap.Multiple.{tally}
use cs.Fs.Device.{Device, InodeDisk, zeros, no_inode, block_read, as_header}
use cs.Fs.FreeMap.{Fs, MapFile, allocate}
use cs.Fs.FreeMap.Grows.{IsMounted, Grows, Persists, free_cnt}
use cs.Fs.FreeMap.Allocate.{allocate-Grows, allocate_full}
use cs.Fs.Inode.Create.{CreateSucceeds, create-Created, need}
use cs.Fs.FreeMap.Release.{MayFree, Frees, release_all}
use cs.Fs.Inode.Open.{inode_close, free_indirect_block}
use cs.Fs.Inode.Open.Close.{slice, inode_close-Frees, free_indirect_block-release_all}
use cs.Fs.Inode.{Inode}
use cs.Fs.Inode.Access.{read_bytes, read_at, write_at}
use cs.Fs.Inode.Access.Read.{IsReadable, Reads, read_at-Reads}
use cs.Fs.Inode.Access.Extend.{direct_sector, longer, appended, write_at-appended}
use cs.Fs.File.{File, file_read}
use cs.Fs.File.Sequence.{file_read-append}
use cs.Fs.File.Deny.{Denied, file_deny_write-Denied}
use cs.Fs.Inode.Full.{ClobbersMap, create_full}

-- A map file whose writes succeed and whose sector is 0, and one whose writes fail.
abbrev working : MapFile
working = record { write = λ map d. some (true, d) }

abbrev broken : MapFile
broken = record { write = λ map d. some (false, d) }

abbrev own_map : ℕ → Bool
own_map s = s == 0

working-Persists : Persists working own_map
working-Persists = record { writes = λ map d. (d, refl, refl, λ s o. refl) }

abbrev blank_device : Device
blank_device = record { size = 16; sector = λ s. zeros }

-- Sectors 0, 1 and 5 are taken.
abbrev formatted : Fs
formatted = record {
  device = blank_device;
  free_map = record { bit_cnt = 16; bits = 35 ∷ [] };
  map_open = true;
  cwd = 1;
}

formatted-IsMounted : IsMounted own_map formatted
unfolding view
formatted-IsMounted = record {
  valid = record { storage = refl; small = omega arith };
  sized = refl;
  owned = λ s o. let zero_sector : s ≡ 0 = ground arith in rw zero_sector refl;
}

formatted-free : free_cnt formatted ≡ 13
unfolding tally view
formatted-free = refl

-- The same with every sector taken.
abbrev crowded : Fs
crowded = record formatted { free_map = record { bit_cnt = 16; bits = 65535 ∷ [] } }

crowded-IsMounted : IsMounted own_map crowded
unfolding view
crowded-IsMounted = record {
  valid = record { storage = refl; small = omega arith };
  sized = refl;
  owned = λ s o. let zero_sector : s ≡ 0 = ground arith in rw zero_sector refl;
}

crowded-free : free_cnt crowded ≡ 0
unfolding tally view
crowded-free = refl

allocate-Grows_example :
    (s : ℕ) × (fs' : Fs) × (allocate working formatted 1 ≡ some (some s, fs'))
    × Grows own_map formatted (s ∷ []) fs'
    × ((j : ℕ) → j < s → view formatted.free_map j ≡ true)
allocate-Grows_example =
    allocate-Grows working own_map working-Persists formatted formatted-IsMounted
      (omega (arith, formatted-free))

allocate_full_example : allocate working crowded 1 ≡ some (none, crowded)
allocate_full_example = allocate_full working own_map crowded crowded-IsMounted crowded-free

-- A file of 1,200 bytes takes three sectors.
create-Created_example : CreateSucceeds working own_map formatted 5 1200 false
unfolding need view
create-Created_example =
    create-Created working own_map working-Persists formatted 5 1200 false formatted-IsMounted
      (omega arith) five_taken refl (omega arith) (omega (arith, formatted-free))
  where
    five_taken : view formatted.free_map 5 ≡ true
    five_taken = refl

create_full_example : ClobbersMap working crowded 5 1200 false
create_full_example =
    create_full working own_map crowded 5 1200 false (crowded-IsMounted, crowded-free, omega arith)
      (omega arith) (omega arith) (omega arith) (omega arith)

-- A file of 300 bytes in sector 5.
abbrev short_file : InodeDisk
short_file = record no_inode { length = 300; direct_block_sectors = 5 ∷ replicate 121 0 }

read_five : read_bytes blank_device 5 ≡ some (replicate 512 0)
unfolding read_bytes cs.Fs.Device.block_read
read_five = refl

short_file-IsReadable : IsReadable blank_device short_file
short_file-IsReadable = record {
  blocks = λ pos h. (
    5,
    replicate 512 0,
    direct_sector blank_device short_file pos h 0 (omega arith) (omega arith),
    read_five,
    refl,
  );
}

-- 400 bytes are wanted from byte 100 on.
read_at-Reads_example :
    (bs : List ℕ) × (read_at true blank_device short_file 400 100 ≡ some bs)
    × Reads blank_device short_file 400 100 bs
read_at-Reads_example = read_at-Reads blank_device short_file 400 100 short_file-IsReadable

-- A file of one full block, in sector 5 with its inode in sector 1.
abbrev full_file : Inode
full_file = record {
  sector = 1;
  open_cnt = 1;
  removed = false;
  deny_write_cnt = 0;
  content = record no_inode { length = 512; direct_block_sectors = 5 ∷ replicate 121 0 };
}

write_at-appended_example :
    write_at working true full_file (replicate 512 7) 512 (512 * 1) formatted
    ≡ some (512, longer full_file 512, appended full_file 512 0 (replicate 512 7) formatted)
write_at-appended_example =
    write_at-appended working full_file 1 (replicate 512 7) formatted refl (omega arith)
      (omega arith) refl (omega arith) (omega arith)

-- The short file, opened twice.
abbrev short_inode : Inode
short_inode = record full_file { open_cnt = 2; content = short_file }

abbrev opened : File
opened = record { pos = 100; deny_write = false }

file_read-append_example :
    (as' bs : List ℕ) × (file1 file2 : File) × (file_read true blank_device opened short_inode 150
      ≡ some (as', file1))
    × (file_read true blank_device file1 short_inode 90 ≡ some (bs, file2))
    × (file_read true blank_device opened short_inode (150 + 90) ≡ some (as' ++ bs, file2))
file_read-append_example =
    file_read-append blank_device opened short_inode 150 90 short_file-IsReadable

file_deny_write-Denied_example : Denied opened short_inode
file_deny_write-Denied_example = file_deny_write-Denied opened short_inode refl (omega arith)

-- A removed file of one block in sector 5, its inode in sector 1; no sector holds the map file.
abbrev no_sector : ℕ → Bool
no_sector s = false

working_anywhere : Persists working no_sector
working_anywhere = record { writes = λ map d. (d, refl, refl, λ s o. refl) }

formatted_anywhere : IsMounted no_sector formatted
formatted_anywhere = record { valid = formatted-IsMounted.valid; sized = refl; owned = λ s o. cc o }

abbrev removed_file : Inode
removed_file = record {
  sector = 1;
  open_cnt = 1;
  removed = true;
  deny_write_cnt = 0;
  content = record no_inode { length = 512; direct_block_sectors = 5 ∷ replicate 121 0 };
}

five_may : MayFree no_sector formatted 5
unfolding view
five_may = record { inside = omega arith; used = refl; other = refl }

one_may : MayFree no_sector formatted 1
unfolding view
one_may = record { inside = omega arith; used = refl; other = refl }

read_three : (block_read formatted.device 3 >>= as_header) ≡ some no_inode
unfolding block_read
read_three = refl

-- The removed file stands behind another open inode.
abbrev other_open : Inode
other_open = record short_inode { sector = 3 }

inode_close-Frees_example :
    (fs' : Fs) × (inode_close working (other_open ∷ removed_file ∷ []) 1 formatted
      ≡ some (other_open ∷ [], fs'))
    × Frees no_sector formatted (5 ∷ 1 ∷ []) fs'
inode_close-Frees_example =
    inode_close-Frees working no_sector working_anywhere (other_open ∷ []) removed_file [] formatted
      formatted_anywhere refl others refl refl (omega arith) used ((λ i. apart i), ((λ n. n), tt))
      may
  where
    others : ¬ In 1 (other_open.sector ∷ [])
    others (inl e) = omega (arith, e)
    others (inr n) = n

    used : (i : ℕ) → i < 1 → ◌≢◌ {A = ℕ} (get_or (5 ∷ replicate 121 0) i 0) 0
    used zero h e = omega (arith, e)
    used (suc i) h e = omega arith

    apart : ¬ In 5 (1 ∷ [])
    apart (inl e) = omega (arith, e)
    apart (inr n) = n

    may : (s : ℕ) → In s (5 ∷ 1 ∷ []) → MayFree no_sector formatted s
    may s (inl e) = subst (MayFree no_sector formatted) (sym e) five_may
    may s (inr (inl e)) = subst (MayFree no_sector formatted) (sym e) one_may
    may s (inr (inr n)) = absurd n

-- 100 blocks are left to free, and 50 are.
free_indirect_block-release_all_example :
    free_indirect_block working 122 222 (replicate 128 5) formatted
    ≡ (release_all working (slice (replicate 128 5) 0 50) formatted >>= λ fs'. some (122 + 50, fs'))
free_indirect_block-release_all_example =
    free_indirect_block-release_all working 122 222 (replicate 128 5) formatted
