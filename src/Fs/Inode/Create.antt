-- ===== src/Fs/Inode/Create.antt =====
-- inode.c, `inode_create` and `byte_to_sector`: a new file has a block of its own, zeroed, behind
-- each of its bytes.
use native.Mathlib.Decide.{ℕ_discrete, dec_lt}
use cs.Base.{
  ℕ, ◌+◌, ◌-◌, ◌*◌, ◌/◌, ◌%◌, ◌≤◌, ◌<◌, ◌≡◌, ◌≢◌, refl, ◌∙◌, sym, ap, subst, Bool, true, false,
  some, List, ltb, false, ◌++◌, min, get_or, length, length-append, get_or-append_left,
  get_or-append_right, arith,
}
use cs.Bitmap.Bits.{view}
use cs.Fs.Device.{Device, InodeDisk, zeros, header, put, block_write-put, no_inode}
use cs.Fs.FreeMap.{Fs, MapFile}
use cs.Fs.FreeMap.Grows.{
  In, Distinct, IsMounted, Persists, free_cnt, Grows-old, In-append_left, In-append_right,
}
use cs.Fs.FreeMap.Laid.{Laid, Laid-trans}
use cs.Fs.Inode.{bytes_to_sectors, byte_to_sector, read_pointers, create, inode_magic}
use cs.Fs.Inode.Table.{write_at, get_or-write_at, fill-Laid}
use cs.Fs.Inode.Indirect.{IndexBlock, IndexBlock-kept}
use cs.Fs.Inode.Parts.{
  DoublyEntry, DoublyEntry-put_other, read_pointers-put_ne, first_need, second_need,
  create_first-Laid, create_second-Laid,
}

-- The inode lists the data blocks ds: the first 122 itself, the next 128 in its first-level block,
-- the rest behind its second-level block.
pub record Lists (d : Device) (taken : List ℕ) (content : InodeDisk) (ds : List ℕ) : Type 0 where
  pub direct :
      (loc : ℕ)
      → loc < 122
      → loc < length ds
      → get_or content.direct_block_sectors loc 0 ≡ get_or ds loc 0
  pub first :
      (loc : ℕ)
      → 122 ≤ loc
      → loc < 250
      → loc < length ds
      → (t : List ℕ) × In content.indirect_block_sector taken
        × (read_pointers d content.indirect_block_sector ≡ some t)
        × (get_or t (loc - 122) 0 ≡ get_or ds loc 0)
  pub second :
      (loc : ℕ)
      → 250 + loc < length ds
      → (t2 : List ℕ) × (t1 : List ℕ) × (read_pointers d content.doubly_indirect_block_sector
          ≡ some t2)
        × (read_pointers d (get_or t2 (loc / 128) 0) ≡ some t1)
        × (get_or t1 (loc % 128) 0 ≡ get_or ds (250 + loc) 0)

-- A byte of the second-level part.
far_byte :
    (d : Device) (content : InodeDisk) (pos : ℕ) (t2 t1 : List ℕ)
    → ¬ (pos / 512 < 250)
    → pos < content.length
    → read_pointers d content.doubly_indirect_block_sector ≡ some t2
    → read_pointers d (get_or t2 ((pos / 512 - 122 - 128) / 128) 0) ≡ some t1
    → byte_to_sector d content pos ≡ some (get_or t1 ((pos / 512 - 122 - 128) % 128) 0)
unfolding byte_to_sector
far_byte d content pos t2 t1 far lt r2 r1 =
    let a : ltb pos content.length ≡ true = ground arith in
    let b : ltb (pos / 512) 122 ≡ false = ground arith in
    let c : ltb (pos / 512) 250 ≡ false = ground arith in
    let e : ltb (pos / 512) content.length ≡ true = ground arith in rw (a, b, c, e, r2, r1) refl

-- `byte_to_sector` finds the block of every byte of such a file.
Lists-byte_to_sector :
    (d : Device) (taken : List ℕ) (content : InodeDisk) (ds : List ℕ) (pos : ℕ)
    → Lists d taken content ds
    → length ds ≡ bytes_to_sectors content.length
    → pos < content.length
    → byte_to_sector d content pos ≡ some (get_or ds (pos / 512) 0)
unfolding byte_to_sector
Lists-byte_to_sector d taken content ds pos l c lt = elim (dec_lt (pos / 512) 122) [
  | yes a ↦ ground (arith, l.direct (pos / 512) a (omega arith))
  | no a ↦ elim (dec_lt (pos / 512) 250) [
    | yes b ↦ let (t, _, r, e) = l.first (pos / 512) (omega arith) b (omega arith) in ground arith
    | no b ↦
        let (t2, t1, r2, r1, e) = l.second (pos / 512 - 122 - 128) (omega arith) in
        let at : 250 + (pos / 512 - 122 - 128) ≡ pos / 512 = omega arith in
        far_byte d content pos t2 t1 b lt r2 r1 ∙ ap some (e ∙ ap (λ k. get_or ds k 0) at)
  ]
]

-- The inode that `inode_create` writes.
abbrev new_inode : ℕ → Bool → ℕ → List ℕ → ℕ → ℕ → InodeDisk
new_inode length' is_dir parent direct r q = record {
  length = length';
  magic = inode_magic;
  is_dir = is_dir;
  parent_dir = parent;
  direct_block_sectors = direct;
  indirect_block_sector = r;
  doubly_indirect_block_sector = q;
}

module _ (own : ℕ → Bool) where
  -- The three parts of a file put together, and the inode written to its sector.
  parts-Lists :
      (fs fs1 fs2 fs3 : Fs) (xs t2 ys t3 zs : List ℕ) (r q k : ℕ) (sector : ℕ) (content : InodeDisk)
      → IsMounted own fs
      → Laid own fs xs xs fs1
      → Laid own fs1 t2 ys fs2
      → Laid own fs2 t3 zs fs3
      → length xs ≡ min 122 k
      → length ys ≡ min 128 (k - 122)
      → length zs ≡ k - 122 - 128
      → (0 < k - 122 → In r t2 × IndexBlock fs2.device r ys)
      → ((loc : ℕ) → loc < k - 122 - 128 → DoublyEntry fs3.device t3 q zs loc)
      → ¬ In sector (xs ++ (t2 ++ t3))
      → content.direct_block_sectors ≡ write_at no_inode.direct_block_sectors 0 xs
      → content.indirect_block_sector ≡ r
      → content.doubly_indirect_block_sector ≡ q
      → Lists (put fs3.device sector (header content)) (xs ++ (t2 ++ t3)) content (xs ++ (ys ++ zs))
  parts-Lists fs fs1 fs2 fs3 xs t2 ys t3 zs r q k sector content m l1 l2 l3 c1 c2 c3 b2 b3 apart ed
        er eq =
      record {
        direct = λ loc near lt.
            let at : loc < length xs = omega (arith, c1, c2, c3, total) in
            ap (λ t. get_or t loc 0) ed
            ∙ get_or-write_at no_inode.direct_block_sectors 0 xs loc loc at (omega (arith, c1))
                (omega arith)
            ∙ sym (get_or-append_left xs (ys ++ zs) loc 0 at);
        first = λ loc lo hi lt.
            let (in_r, b) = b2 (omega (arith, c1, c2, c3, total)) in
            let in_taken = In-append_right r xs (t2 ++ t3) (In-append_left r t2 t3 in_r) in
            let kept = IndexBlock-kept own r l1.grows.mounted l2.grows in_r l3.grows b in
            (
              kept.table,
              subst (λ x. In x (xs ++ (t2 ++ t3))) (sym er) in_taken,
              ap (read_pointers (put fs3.device sector (header content))) er
                  ∙ read_pointers-put_ne fs3.device sector r (header content)
                      (λ e. apart (subst (λ x. In x (xs ++ (t2 ++ t3))) (sym e) in_taken))
                  ∙ kept.readable,
              kept.entries (loc - 122) (omega (arith, c1, c2, c3, total))
                  ∙ sym (get_or-append_left ys zs (loc - 122) 0 (omega (arith, c1, c2, c3, total)))
                  ∙ sym (
                      get_or-append_right xs (ys ++ zs) loc (loc - 122) 0
                        (omega (arith, c1, c2, c3, total))),
            );
        second = λ loc lt.
            let apart3 : ¬ In sector t3 =
              λ h. apart (In-append_right sector xs (t2 ++ t3) (In-append_right sector t2 t3 h)) in
            let (u2, u1, _, _, e2, e1, e) =
              DoublyEntry-put_other fs3.device sector (header content) t3 q zs loc apart3
                (b3 loc (omega (arith, c1, c2, c3, total))) in
            (
              u2,
              u1,
              ap (read_pointers (put fs3.device sector (header content))) eq ∙ e2,
              e1,
              e
                  ∙ sym (
                      get_or-append_right ys zs (128 + loc) loc 0
                        (omega (arith, c1, c2, c3, total)))
                  ∙ sym (
                      get_or-append_right xs (ys ++ zs) (250 + loc) (128 + loc) 0
                        (omega (arith, c1, c2, c3, total))),
            );
      }
    where
      total : length (xs ++ (ys ++ zs)) ≡ length xs + (length ys + length zs)
      total = omega (arith, length-append xs (ys ++ zs), length-append ys zs)

-- What `inode_create` leaves when it succeeds: the inode that it wrote, the blocks of the file, and
-- the state of everything else.
pub record Created (own : ℕ → Bool) (fs : Fs) (sector length' : ℕ) (is_dir : Bool)
    (content : InodeDisk) (taken ds : List ℕ) (fs' : Fs) : Type 0 where
  pub written : fs'.device.sector sector ≡ header content
  pub length_set : content.length ≡ length'
  pub kind : content.is_dir ≡ is_dir
  pub parent : content.parent_dir ≡ fs.cwd
  pub mounted : IsMounted own fs'
  -- The data blocks: as many as the length needs, none twice, all free before and zeroed now.
  pub cnt : length ds ≡ bytes_to_sectors length'
  pub distinct : Distinct ds
  pub inside : (s : ℕ) → In s ds → In s taken
  pub blank : (s : ℕ) → In s ds → fs'.device.sector s ≡ zeros
  pub were_free : (s : ℕ) → In s taken → view fs.free_map s ≡ false
  pub now_used : (s : ℕ) → In s taken → view fs'.free_map s ≡ true
  -- Every byte of the file has its block.
  pub mapped :
      (pos : ℕ)
      → pos < length'
      → byte_to_sector fs'.device content pos ≡ some (get_or ds (pos / 512) 0)
  -- Nothing else changes but the map file.
  pub untaken : (s : ℕ) → ¬ In s taken → view fs'.free_map s ≡ view fs.free_map s
  pub frame :
      (s : ℕ) → own s ≡ false → s ≢ sector → ¬ In s taken → fs'.device.sector s ≡ fs.device.sector s

-- The last write, of the inode itself.
all_Created :
    {own : ℕ → Bool} (fs fs3 : Fs) (sector length' : ℕ) (is_dir : Bool) (content : InodeDisk)
    (taken ds : List ℕ)
    → Laid own fs taken ds fs3
    → view fs.free_map sector ≡ true
    → own sector ≡ false
    → length ds ≡ bytes_to_sectors length'
    → Lists (put fs3.device sector (header content)) taken content ds
    → content.length ≡ length'
    → content.is_dir ≡ is_dir
    → content.parent_dir ≡ fs.cwd
    → Created own fs sector length' is_dir content taken ds
        (record fs3 { device = put fs3.device sector (header content) })
all_Created {own} fs fs3 sector length' is_dir content taken ds all used other cnt lists el ek ep =
    record {
      written = ground arith;
      length_set = el;
      kind = ek;
      parent = ep;
      mounted = record {
        valid = all.grows.mounted.valid;
        sized = all.grows.mounted.sized;
        owned = all.grows.mounted.owned;
      };
      cnt = cnt;
      distinct = all.distinct;
      inside = all.inside;
      blank = λ s h. elim (ℕ_discrete sector s) [
        | yes e ↦ absurd (apart (subst (λ x. In x taken) (sym e) (all.inside s h)))
        | no ne ↦ ground (arith, all.blank s h)
      ];
      were_free = λ s h. (all.grows.were_free s h).1;
      now_used = all.grows.now_used;
      mapped = λ pos lt.
          Lists-byte_to_sector (put fs3.device sector (header content)) taken content ds pos lists
            (cnt ∙ ap bytes_to_sectors (sym el)) (omega (arith, el));
      untaken = all.grows.others;
      frame = λ s o ne h. ground (arith, all.grows.frame s o h);
    }
  where
    apart : ¬ In sector taken
    apart = Grows-old own sector all.grows used

-- The sectors that a file of k blocks takes, with its blocks of sector numbers.
unfoldable pub need : ℕ → ℕ
need k = min 122 k + (first_need (k - 122) + second_need (k - 122 - 128))

-- `inode_create` returns true, and takes from the free map exactly what the file needs.
abbrev pub CreateSucceeds : MapFile → (ℕ → Bool) → Fs → ℕ → ℕ → Bool → Type 0
CreateSucceeds file own fs sector length' is_dir =
    (content : InodeDisk) × (taken ds : List ℕ) × (fs' : Fs) × (create file true sector length'
        is_dir fs
      ≡ some (true, fs'))
    × Created own fs sector length' is_dir content taken ds fs'
    × (free_cnt fs ≡ need (bytes_to_sectors length') + free_cnt fs')

module _ (file : MapFile) (own : ℕ → Bool) (p : Persists file own) where
  -- For a file of at most 122 + 128 + 128 * 128 blocks, on a mounted file system with enough free
  -- sectors and an inode sector that is allocated, `inode_create` returns true. The inode is
  -- written with the length, the kind and the parent directory; as many data blocks as the length
  -- needs were free, are now used, are distinct and hold zeros; `byte_to_sector` finds the block
  -- number pos / 512 of them for every byte pos of the file; no other sector is taken, none but the
  -- inode's and the map file's changes, and the number of free sectors falls by what is needed.
  pub create-Created :
      (fs : Fs) (sector length' : ℕ) (is_dir : Bool)
      → IsMounted own fs
      → sector < fs.device.size
      → view fs.free_map sector ≡ true
      → own sector ≡ false
      → bytes_to_sectors length' ≤ 122 + 128 + 128 * 128
      → need (bytes_to_sectors length') ≤ free_cnt fs
      → CreateSucceeds file own fs sector length' is_dir
  unfolding create need
  create-Created fs sector length' is_dir m lt used other fits room =
      let k = bytes_to_sectors length' in
      let (xs, fs1, e1, c1, l1) =
        fill-Laid file own p 122 0 k no_inode.direct_block_sectors fs m (omega arith) in
      let (r, t2, ys, fs2, e2, c2, n2, l2, b2) =
        create_first-Laid file own p (k - 122) fs1 l1.grows.mounted
          (omega (arith, l1.grows.counted)) in
      let (q, t3, zs, fs3, e3, c3, n3, l3, b3) =
        create_second-Laid file own p (k - 122 - 128) fs2 l2.grows.mounted (omega arith)
          (omega (arith, l1.grows.counted, l2.grows.counted)) in
      let content =
        new_inode length' is_dir fs.cwd (write_at no_inode.direct_block_sectors 0 xs) r q in
      let all = Laid-trans own m l1 (Laid-trans own l1.grows.mounted l2 l3) in
      let apart = Grows-old own sector all.grows used in
      let fits_device : sector < fs3.device.size = omega (arith, all.grows.size) in
      (
        content,
        xs ++ (t2 ++ t3),
        xs ++ (ys ++ zs),
        record fs3 { device = put fs3.device sector (header content) },
        rw (e1, e2, e3, block_write-put fs3.device sector (header content) fits_device) refl,
        all_Created fs fs3 sector length' is_dir content (xs ++ (t2 ++ t3)) (xs ++ (ys ++ zs)) all
            used other (omega (arith, c1, c2, c3, length-append xs (ys ++ zs), length-append ys zs))
            (parts-Lists own fs fs1 fs2 fs3 xs t2 ys t3 zs r q k sector content m l1 l2 l3 c1 c2 c3
              b2 b3 apart refl refl refl)
            refl refl refl,
        omega (arith, l1.grows.counted, l2.grows.counted, l3.grows.counted),
      )
