-- ===== src/Vm/Swap/Load.antt =====
-- swap.c: what `load_swap` reads.
use cs.Base.{
  ℕ, zero, suc, ◌+◌, ◌*◌, ◌-◌, ◌/◌, ◌%◌, ◌^◌, ◌<◌, ◌≤◌, ◌≡◌, refl, sym, ap, ◌∙◌, ◌⊎◌, true, false,
  Bool-cases, inl, inr, none, some, List, ltb, leb, ◌&&◌, ◌==◌, if◌then◌else◌, get_or, arith,
  bind_assoc, ◌>>=◌,
}
use cs.Bitmap
use cs.Bitmap.Bits.{IsValid, view, Filled, set-Filled, test_lem}
use cs.Fs.Device.{Device, bytes, as_bytes, block_read, block_read_lem}
use cs.Kernel.Linked.{Ends}
use cs.Vm.Outcome.{returns}
use cs.Vm.Page.{SupPages, in_memory, change_page_location}
use cs.Vm.Swap.{
  Swap, new_lock, acquire, release_lock, read_sectors, put_bytes, sector_base, load, load_swap,
}

-- The contents of the sectors of a slot, `sector i` for the sector i of it.
abbrev pub Holds : Device → ℕ → (ℕ → List ℕ) → Type 0
Holds device base sector =
    (i : ℕ) → i < 8 → (base + i < device.size) × (device.sector (base + i) ≡ bytes (sector i))

-- The memory after the sectors up to n were read, from sector i on.
abbrev pub loaded : (ℕ → ℕ) → ℕ → ℕ → ℕ → (ℕ → List ℕ) → ℕ → ℕ
loaded memory uaddr i n sector x =
    if leb (512 * i + uaddr) x && ltb x (512 * n + uaddr)
    then get_or (sector ((x - uaddr) / 512)) ((x - uaddr) % 512) 0
    else memory x

-- What stands at x after the sector i was read.
loaded_step :
    (memory : ℕ → ℕ) (uaddr i n : ℕ) (sector : ℕ → List ℕ) (x : ℕ)
    → i < n
    → loaded (put_bytes memory (512 * i + uaddr) (sector i)) uaddr (i + 1) n sector x
      ≡ loaded memory uaddr i n sector x
loaded_step memory uaddr i n sector x lt = elim (Bool-cases (leb (512 * i + uaddr) x)) [
  | inl above ↦ elim (Bool-cases (ltb x (512 * i + uaddr + 512))) [
    | inl below ↦
        let next : leb (512 * (i + 1) + uaddr) x ≡ false = ground arith in
        let more : ltb x (512 * n + uaddr) ≡ true = ground arith in
        let which : (x - uaddr) / 512 ≡ i = ground arith in
        let where_to : (x - uaddr) % 512 ≡ x - (512 * i + uaddr) = ground arith in
        rw (above, below, next, more, which, where_to) refl
    | inr past ↦
        let next : leb (512 * (i + 1) + uaddr) x ≡ true = ground arith in
        rw (above, past, next) refl
  ]
  | inr before ↦
      let next : leb (512 * (i + 1) + uaddr) x ≡ false = ground arith in rw (before, next) refl
]

loaded_all :
    (memory : ℕ → ℕ) (uaddr i : ℕ) (sector : ℕ → List ℕ) (x : ℕ)
    → i ≡ 8
    → memory x ≡ loaded memory uaddr i 8 sector x
loaded_all memory uaddr i sector x e = elim (Bool-cases (leb (512 * i + uaddr) x)) [
  | inl above ↦ let past : ltb x (512 * 8 + uaddr) ≡ false = ground arith in rw (above, past) refl
  | inr before ↦ rw before refl
]

-- One sector of the slot.
read_one :
    (i base : ℕ) (device : Device) (sector : ℕ → List ℕ)
    → i < 8
    → device.size ≤ 2 ^ 32
    → Holds device base sector
    → (block_read device ((base + i) % 2 ^ 32) >>= as_bytes) ≡ some (sector i)
read_one i base device sector lt small h =
    let fits : base + i < device.size = (h i lt).0 in
    let at_i : (base + i) % 2 ^ 32 ≡ base + i = ground arith in
    rw (at_i, block_read_lem device (base + i) fits, (h i lt).1) refl

read_sectors_lem :
    (n i uaddr base : ℕ) (device : Device) (memory : ℕ → ℕ) (sector : ℕ → List ℕ)
    → n + i ≡ 8
    → device.size ≤ 2 ^ 32
    → Holds device base sector
    → (memory' : ℕ → ℕ) × (read_sectors n i device base uaddr memory ≡ some memory')
      × ((x : ℕ) → memory' x ≡ loaded memory uaddr i 8 sector x)
unfolding read_sectors
read_sectors_lem zero i uaddr base device memory sector e small h =
    (memory, refl, λ x. loaded_all memory uaddr i sector x (omega (arith, e)))
read_sectors_lem (suc n) i uaddr base device memory sector e small h =
    let (memory', done, reads) =
      read_sectors_lem n (i + 1) uaddr base device (put_bytes memory (512 * i + uaddr) (sector i))
        sector (omega (arith, e)) small h in
    (
      memory',
      sym (bind_assoc (block_read device ((base + i) % 2 ^ 32)) as_bytes _)
          ∙ ap
              (λ m. m >>= λ content.
                read_sectors n (i + 1) device base uaddr
                  (put_bytes memory (512 * i + uaddr) content))
              (read_one i base device sector (omega (arith, e)) small h)
          ∙ done,
      λ x. reads x ∙ loaded_step memory uaddr i 8 sector x (omega (arith, e)),
    )

-- What `load_swap` leaves: the page in memory, the slot free, the lock free, and the page known to be
-- in memory.
pub record Loads (uaddr swap_index : ℕ) (sector : ℕ → List ℕ) (pages : SupPages) (s s' : Swap)
    : Type 0 where
  pub in_page :
      (x : ℕ)
      → uaddr ≤ x
      → x < uaddr + 4096
      → s'.memory x ≡ get_or (sector ((x - uaddr) / 512)) ((x - uaddr) % 512) 0
  pub outside : (x : ℕ) → (x < uaddr) ⊎ (uaddr + 4096 ≤ x) → s'.memory x ≡ s.memory x
  pub slot : Filled s.swap_bitmap swap_index 1 false s'.swap_bitmap
  pub unlocked : s'.swap_lock ≡ new_lock
  pub device : s'.block_device ≡ s.block_device
  pub located : s'.pages ≡ pages

-- `load_swap` of a slot that is in use, with the lock free, the sectors of the slot on the device and the
-- page in the thread's table, returns: the bytes of the eight sectors are in memory from the
-- address on, and no other byte of memory changes; the slot is free and no other; the lock is free
-- again; and the page is known to be in memory, without a slot.
pub load_swap-Loads :
    (current fuel uaddr swap_index : ℕ) (copy : Ends) (sector : ℕ → List ℕ) (s : Swap)
    (pages : SupPages)
    → s.swap_lock ≡ new_lock
    → IsValid s.swap_bitmap
    → swap_index < s.swap_bitmap.bit_cnt
    → view s.swap_bitmap swap_index ≡ true
    → s.block_device.size ≤ 2 ^ 32
    → Holds s.block_device (swap_index * 8) sector
    → change_page_location fuel copy uaddr in_memory none s.pages ≡ some pages
    → (s' : Swap) × (load_swap current fuel copy uaddr swap_index s ≡ returns s')
      × Loads uaddr swap_index sector pages s s'
unfolding load_swap load acquire release_lock
load_swap-Loads current fuel uaddr swap_index copy sector s pages free valid lt in_use small holds
      page =
    let (memory, read, reads) =
      read_sectors_lem 8 0 uaddr (swap_index * 8) s.block_device s.memory sector (omega arith) small
        holds in
    let (map, cleared, filled) = set-Filled swap_index false valid lt in
    let base : sector_base swap_index ≡ swap_index * 8 =
      (let near : swap_index * 8 + 0 < s.block_device.size = (holds 0 (omega arith)).0 in
        ground arith) in
    let self : (current == current) ≡ true = ground arith in
    let tested : Bitmap.test s.swap_bitmap swap_index ≡ some true =
      (let inside : ltb swap_index s.swap_bitmap.bit_cnt ≡ true = ground arith in
        test_lem s.swap_bitmap swap_index ∙ rw (inside, in_use) refl) in
    (
      record s { memory = memory; swap_bitmap = map; pages = pages; swap_lock = new_lock },
      rw (free, self, tested, base, read, cleared, page) refl,
      record {
        in_page = λ x a b. ground (arith, reads x);
        outside = λ x o. ground (arith, reads x);
        slot = filled;
        unlocked = refl;
        device = refl;
        located = refl;
      },
    )
