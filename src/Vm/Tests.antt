-- ===== src/Vm/Tests.antt =====
-- A thread with one page, at the address 4096, which is in the first slot of a small swap.
use cs.Base.{
  ℕ, ◌*◌, ◌<◌, ◌≡◌, ◌≢◌, refl, ap, true, false, none, some, [], ◌∷◌, ◌==◌, if◌then◌else◌, inl, inr,
  arith, In, ◌>>=◌,
}
use cs.Bitmap.Bits.{view}
use cs.Fs.Device.{Device, bytes}
use cs.Kernel.Linked.{Heap, Ends}
use cs.Kernel.Linked.Chain.{nodes}
use cs.Kernel.Linked.Refine.{Represents}
use cs.Vm.Outcome.{returns}
use cs.Vm.Page.{SupPage, SupPages, in_swap, in_memory, set_page, get_sup_page, change_page_location}
use cs.Vm.Page.Walk.{IsLocal, get_sup_page-first_at}
use cs.Vm.Swap.{Swap, new_lock, store, store_swap, load_swap}
use cs.Vm.Swap.Load.{Holds, Loads, load_swap-Loads}
use cs.Vm.Swap.Round.{Restored, store-load_swap}
use cs.Vm.Swap.Store.{store_swap-never}

abbrev ends : Ends
ends = record { head = 0; tail = 1 }

abbrev copy : Ends
copy = record { head = 100; tail = 101 }

abbrev heap : Heap
heap = record {
  prev = λ x. if x == 5 then some 0 else if x == 1 then some 5 else none;
  next = λ x. if x == 0 then some 5 else if x == 5 then some 1 else none;
}

abbrev swapped : SupPage
swapped = record {
  swap_index = some 0;
  v_addr = 4096;
  file = 0;
  offset = 0;
  read_bytes = 0;
  zero_bytes = 4096;
  writable = true;
  page_location = in_swap;
}

abbrev table : SupPages
table = record { heap = heap; page = λ x. swapped; sup_page_table_list = ends }

table-Represents : Represents heap ends (5 ∷ [])
table-Represents = record {
  starts = refl;
  stops = refl;
  linked = (refl, refl, (refl, refl, tt));
  distinct = (head_apart, (five_apart, ((λ n. n), tt)));
}
  where
    head_apart : ¬ In 0 (5 ∷ 1 ∷ [])
    head_apart (inl z) = omega (arith, z)
    head_apart (inr (inl z)) = omega (arith, z)
    head_apart (inr (inr n)) = n

    five_apart : ¬ In 5 (1 ∷ [])
    five_apart (inl z) = omega (arith, z)
    five_apart (inr n) = n

-- An address that is not among four nodes.
out_of : (x a b c d : ℕ) → x ≢ a → x ≢ b → x ≢ c → x ≢ d → ¬ In x (a ∷ b ∷ c ∷ d ∷ [])
out_of x a b c d na nb nc nd (inl e) = na e
out_of x a b c d na nb nc nd (inr (inl e)) = nb e
out_of x a b c d na nb nc nd (inr (inr (inl e))) = nc e
out_of x a b c d na nb nc nd (inr (inr (inr (inl e)))) = nd e
out_of x a b c d na nb nc nd (inr (inr (inr (inr n)))) = n

three_out : (x : ℕ) → 7 < x → ¬ In x (0 ∷ 5 ∷ 1 ∷ [])
three_out x lt (inl e) = omega (arith, lt, e)
three_out x lt (inr (inl e)) = omega (arith, lt, e)
three_out x lt (inr (inr (inl e))) = omega (arith, lt, e)
three_out x lt (inr (inr (inr n))) = n

copy-IsLocal : IsLocal copy (nodes ends (5 ∷ []))
copy-IsLocal = record {
  head_out = three_out 100 (omega arith);
  tail_out = three_out 101 (omega arith);
  apart = λ e. omega (arith, e);
}

copy_more-IsLocal : IsLocal copy (nodes ends (5 ∷ 7 ∷ []))
copy_more-IsLocal = record {
  head_out =
      out_of 100 0 5 7 1 (λ e. omega (arith, e)) (λ e. omega (arith, e)) (λ e. omega (arith, e))
        (λ e. omega (arith, e));
  tail_out =
      out_of 101 0 5 7 1 (λ e. omega (arith, e)) (λ e. omega (arith, e)) (λ e. omega (arith, e))
        (λ e. omega (arith, e));
  apart = λ e. omega (arith, e);
}

found_first : get_sup_page 9 copy 4096 table ≡ some (some 5)
found_first =
    get_sup_page-first_at 9 4096 copy table (5 ∷ []) table-Represents copy-IsLocal (omega arith)

seven_out : ¬ In 7 (nodes ends (5 ∷ []))
seven_out (inl e) = omega (arith, e)
seven_out (inr (inl e)) = omega (arith, e)
seven_out (inr (inr (inl e))) = omega (arith, e)
seven_out (inr (inr (inr n))) = n

other_address : (x : ℕ) → In x (5 ∷ []) → (table.page x).v_addr ≢ 8192
other_address x i e = omega (arith, e)

-- Each sector of the swap begins with its number.
abbrev device : Device
device = record { size = 8; sector = λ t. bytes (t ∷ []) }

abbrev full : Swap
full = record {
  block_device = device;
  swap_bitmap = record { bit_cnt = 1; bits = 1 ∷ [] };
  swap_lock = new_lock;
  is_initialized = true;
  memory = λ a. 0;
  pages = table;
}

in_use : view full.swap_bitmap 0 ≡ true
unfolding view
in_use = refl

device-Holds : Holds device (0 * 8) (λ i. i ∷ [])
device-Holds i lt = ((omega (arith, lt)), ap (λ n. bytes (n ∷ [])) (omega arith))

abbrev back : SupPages
back = set_page table 5 (record swapped { page_location = in_memory; swap_index = none })

back_located : change_page_location 9 copy 4096 in_memory none table ≡ some back
unfolding change_page_location
back_located =
    ap
      (λ m. m >>= λ found. found >>= λ spage. some (
        set_page table spage
          (record (table.page spage) { page_location = in_memory; swap_index = none })))
      found_first

load_swap-Loads_example :
    (s' : Swap) × (load_swap 1 9 copy 4096 0 full ≡ returns s')
    × Loads 4096 0 (λ i. i ∷ []) back full s'
load_swap-Loads_example =
    load_swap-Loads 1 9 4096 0 copy (λ i. i ∷ []) full back refl
      (record { storage = refl; small = omega arith }) (omega arith) in_use (omega arith)
      device-Holds back_located

store_swap-never_example : store_swap 1 9 copy (some device) true none 4096 full ≢ returns (0, full)
store_swap-never_example = store_swap-never 1 9 4096 copy (some device) true none full (0, full)

-- The swap with its only slot free.
abbrev empty : Swap
empty = record full { swap_bitmap = record { bit_cnt = 1; bits = 0 ∷ [] } }

empty_free : view empty.swap_bitmap 0 ≡ false
unfolding view
empty_free = refl

abbrev stored : ℕ → SupPages
stored k = set_page table 5 (record swapped { page_location = in_swap; swap_index = some k })

stored_out : (k : ℕ) → change_page_location 9 copy 4096 in_swap (some k) table ≡ some (stored k)
unfolding change_page_location
stored_out k =
    ap
      (λ m. m >>= λ found. found >>= λ spage. some (
        set_page table spage
          (record (table.page spage) { page_location = in_swap; swap_index = some k })))
      found_first

found_stored : (k : ℕ) → get_sup_page 9 copy 4096 (stored k) ≡ some (some 5)
found_stored k =
    get_sup_page-first_at 9 4096 copy (stored k) (5 ∷ []) table-Represents copy-IsLocal
      (omega arith)

abbrev brought : ℕ → SupPages
brought k =
    set_page (stored k) 5
      (record ((stored k).page 5) { page_location = in_memory; swap_index = none })

brought_back :
    (k : ℕ) → change_page_location 9 copy 4096 in_memory none (stored k) ≡ some (brought k)
unfolding change_page_location
brought_back k =
    ap
      (λ m. m >>= λ found. found >>= λ spage. some (
        set_page (stored k) spage
          (record ((stored k).page spage) { page_location = in_memory; swap_index = none })))
      (found_stored k)

store-load_swap_example :
    (k : ℕ) × (s1 : Swap) × (store 1 9 copy 4096 empty ≡ some (k, s1))
    × (s2 : Swap) × (load_swap 1 9 copy 4096 k (record s1 { memory = λ a. 1; swap_lock = new_lock })
        ≡ returns s2)
    × Restored 4096 empty s2
store-load_swap_example =
    store-load_swap 1 9 4096 copy empty stored brought
      (record { storage = refl; small = omega arith }) (omega arith) (omega arith) stored_out
      brought_back 0 (λ a. 1) (omega arith) empty_free
