-- ===== src/Fs/Inode/Access/Sample.antt =====
-- A file of 300 bytes in sector 5 of an empty device.
use cs.Base.{
  ℕ, zero, suc, ◌≡◌, refl, sym, ap, ◌∙◌, false, true, some, some-injective, [], ◌∷◌, get_or,
  replicate, arith,
}
use cs.Fs.Device.{Device, InodeDisk, zeros, no_inode, no_pointers, put, bytes}
use cs.Fs.FreeMap.{Fs, MapFile}
use cs.Fs.Inode.{Inode, read_pointers}
use cs.Fs.Inode.Access.{read_bytes}
use cs.Fs.Inode.Access.Extend.{direct_sector}
use cs.Fs.Inode.Access.Stored.{IsStored, IsNotTable}

abbrev pub blank : Fs
blank = record {
  device = record { size = 40; sector = λ s. zeros };
  free_map = record { bit_cnt = 40; bits = 0 ∷ 0 ∷ [] };
  map_open = false;
  cwd = 1;
}

abbrev pub small : Inode
small = record {
  sector = 4;
  open_cnt = 1;
  removed = false;
  deny_write_cnt = 0;
  content = record no_inode { length = 300; direct_block_sectors = 5 ∷ replicate 121 0 };
}

abbrev pub no_map : MapFile
no_map = record { write = λ map d. some (true, d) }

pub read_five : read_bytes blank.device 5 ≡ some (replicate 512 0)
unfolding read_bytes cs.Fs.Device.block_read
read_five = refl

no_table : read_pointers blank.device 0 ≡ some no_pointers
unfolding read_pointers cs.Fs.Device.block_read
no_table = refl

pub get_or-zeros : (n i : ℕ) → get_or {A = ℕ} (replicate n 0) i 0 ≡ 0
get_or-zeros zero i = refl
get_or-zeros (suc n) zero = refl
get_or-zeros (suc n) (suc i) = get_or-zeros n i

five_apart : IsNotTable blank.device small.content 5
five_apart = record {
  first = λ e. omega (arith, e);
  second = λ e. omega (arith, e);
  inner = λ t e i z.
      let only : no_pointers ≡ t = some-injective _ _ (sym no_table ∙ e) in
      omega (arith, z, ap (λ l. get_or l i 0) only, get_or-zeros 128 i);
}

pub small-IsStored : IsStored blank.device small.content (λ k. 5)
small-IsStored = record {
  found =
      λ pos lt. direct_sector blank.device small.content pos lt 0 (omega (arith, lt)) (omega arith);
  block = λ k lt. (replicate 512 0, read_five, refl);
  in_range = λ k lt. omega arith;
  distinct = λ j k lj lk ne. absurd (ne (omega (arith, lj, lk)));
  apart = λ k lt. five_apart;
}
