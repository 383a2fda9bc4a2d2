-- ===== src/Vm/Swap.antt =====
-- vm_PintOS/vm/swap.c: the pages in the swap device, with the lock around them, which is that of
-- vm_PintOS/threads/synch.c, with its holder and its value: a thread that must wait goes no further
-- here, and the threads that wait are left out. `role` is what
-- `block_get_role` returns. The swap index -1 of a full swap is 2 ^ 32 - 1, and products with it
-- wrap; addresses in a page do not.
pub mod Load
pub mod Round
pub mod Store
use cs.Base.{
  ℕ, zero, suc, ◌+◌, ◌*◌, ◌-◌, ◌/◌, ◌%◌, ◌^◌, Bool, true, false, not, ◌&&◌, Option, none, some,
  List, [], ◌∷◌, ltb, leb, ◌==◌, if◌then◌else◌, get_or, ◌>>=◌, ◌>>◌, assert,
}
use cs.Bitmap
use cs.Bitmap.{Bitmap}
use cs.Fs.Device.{Device, Block, bytes, as_bytes, block_read, block_write}
use cs.Kernel.Linked.{Ends}
use cs.Vm.Outcome.{Outcome, returns, waits, panics, and_then, lift}
use cs.Vm.Page.{SupPages, in_memory, in_swap, change_page_location}

abbrev pub num_sectors_per_page : ℕ
num_sectors_per_page = 8

-- The holder and the value of the semaphore.
pub record SwapLock : Type 0 where
  pub holder : Option ℕ
  pub value : ℕ

abbrev pub new_lock : SwapLock
new_lock = record { holder = none; value = 1 }

abbrev held_by : ℕ → Option ℕ → Bool
held_by current none = false
held_by current (some t) = t == current

pub acquire : ℕ → SwapLock → Outcome SwapLock
acquire current lock =
    if held_by current lock.holder
    then panics
    else if lock.value == 0
    then waits
    else returns (record { holder = some current; value = lock.value - 1 })

pub release_lock : ℕ → SwapLock → Outcome SwapLock
release_lock current lock =
    if held_by current lock.holder
    then returns (record { holder = none; value = lock.value + 1 })
    else panics

-- The variables of swap.c, the memory of the running thread, and its supplemental pages.
pub record Swap : Type 0 where
  pub block_device : Device
  pub swap_bitmap : Bitmap
  pub swap_lock : SwapLock
  pub is_initialized : Bool
  pub memory : ℕ → ℕ
  pub pages : SupPages

-- A sector's worth of bytes from an address on, with n bytes to go, and back.
pub bytes_at : ℕ → (ℕ → ℕ) → ℕ → List ℕ
bytes_at zero memory a = []
bytes_at (suc n) memory a = memory a ∷ bytes_at n memory (a + 1)

abbrev pub put_bytes : (ℕ → ℕ) → ℕ → List ℕ → ℕ → ℕ
put_bytes memory a b = λ x. if leb a x && ltb x (a + 512) then get_or b (x - a) 0 else memory x

-- On what the two allocations of `bitmap_create` return.
pub swap_init : Option Device → Bool → Option (List ℕ) → Swap → Option Swap
swap_init role struct_ok buffer s = do
  device ← role
  made ← Bitmap.create struct_ok buffer ((device.size / num_sectors_per_page) % 2 ^ 32)
  map ← made
  some (record s { block_device = device; swap_bitmap = map; swap_lock = new_lock })

-- Swap is initialized by its first use.
pub start : Option Device → Bool → Option (List ℕ) → Swap → Option Swap
unfolding swap_init
start role struct_ok buffer s =
    if s.is_initialized
    then some s
    else (do s1 ← swap_init role struct_ok buffer s; some (record s1 { is_initialized = true }))

abbrev pub sector_base : ℕ → ℕ
sector_base swap_index = (swap_index * num_sectors_per_page) % 2 ^ 32

-- The loops over the sectors of a page, from i on, with n rounds left.
pub read_sectors : ℕ → ℕ → Device → ℕ → ℕ → (ℕ → ℕ) → Option (ℕ → ℕ)
read_sectors zero i device base uaddr memory = some memory
read_sectors (suc n) i device base uaddr memory = do
  b ← block_read device ((base + i) % 2 ^ 32)
  content ← as_bytes b
  read_sectors n (i + 1) device base uaddr (put_bytes memory (512 * i + uaddr) content)

pub write_sectors : ℕ → ℕ → (ℕ → ℕ) → ℕ → ℕ → Device → Option Device
unfolding bytes_at
write_sectors zero i memory base uaddr device = some device
write_sectors (suc n) i memory base uaddr device = do
  device' ← block_write device ((base + i) % 2 ^ 32) (bytes (bytes_at 512 memory (512 * i + uaddr)))
  write_sectors n (i + 1) memory base uaddr device'

-- `copy` and `fuel` are those of `change_page_location`.
module _ (current fuel : ℕ) (copy : Ends) where
  -- The work of `load_swap` under the lock.
  pub load : ℕ → ℕ → Swap → Option Swap
  unfolding read_sectors
  load uaddr swap_index s = do
    valid_bitmap ← Bitmap.test s.swap_bitmap swap_index
    assert valid_bitmap
    memory ←
        read_sectors num_sectors_per_page 0 s.block_device (sector_base swap_index) uaddr s.memory
    map ← Bitmap.set s.swap_bitmap swap_index false
    pages ← change_page_location fuel copy uaddr in_memory none s.pages
    some (record s { memory = memory; swap_bitmap = map; pages = pages })

  pub load_swap : ℕ → ℕ → Swap → Outcome Swap
  unfolding load acquire release_lock
  load_swap uaddr swap_index s = and_then (acquire current s.swap_lock) λ lock.
      and_then (lift (load uaddr swap_index s)) λ s'.
        and_then (release_lock current lock) λ lock'. returns (record s' { swap_lock = lock' })

  -- The work of `store_swap` between the two calls on the lock.
  pub store : ℕ → Swap → Option (ℕ × Swap)
  unfolding write_sectors
  store uaddr s = do
    (swap_index, map) ← Bitmap.scan_and_flip s.swap_bitmap 0 1 false
    device ←
        write_sectors num_sectors_per_page 0 s.memory (sector_base swap_index) uaddr s.block_device
    pages ← change_page_location fuel copy uaddr in_swap (some swap_index) s.pages
    some (swap_index, record s { swap_bitmap = map; block_device = device; pages = pages })

  -- From the first call of `lock_acquire` on, with the lock that it returns with.
  pub store_locked : ℕ → Swap → SwapLock → Outcome (ℕ × Swap)
  unfolding store acquire
  store_locked uaddr s lock =
      and_then (lift (store uaddr s)) λ r.
        and_then (acquire current lock) λ lock'. returns (r.0, record r.1 { swap_lock = lock' })

  pub store_swap : Option Device → Bool → Option (List ℕ) → ℕ → Swap → Outcome (ℕ × Swap)
  unfolding store_locked acquire
  store_swap role struct_ok buffer uaddr s =
      and_then (lift (start role struct_ok buffer s))
        λ s1. and_then (acquire current s1.swap_lock) (store_locked uaddr s1)
