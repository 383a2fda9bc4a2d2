-- ===== src/Vm/Page.antt =====
-- vm_PintOS/vm/page.c and change_page_location of swap.c: the supplemental pages of the running
-- thread, on the linked list of Kernel/Linked. The list element is the first field of a page, so
-- that a page and its element have one address. `page` is what stands at an address, page or not.
pub mod Walk
pub mod Create
use cs.Base.{ℕ, zero, suc, Bool, Option, none, some, ◌==◌, if◌then◌else◌, ◌>>=◌, ◌>>◌}
use cs.Kernel.Linked.{
  Heap, Ends, set_prev, set_next, list_begin, list_end, list_next, list_push_back, list_remove,
}

-- `location`
pub data Location : Type 0 where
  in_memory in_swap in_disk all_zero : Location

-- `struct sup_page`; the swap index -1 is `none`.
pub record SupPage : Type 0 where
  pub swap_index : Option ℕ
  pub v_addr : ℕ
  pub file : ℕ
  pub offset : ℕ
  pub read_bytes : ℕ
  pub zero_bytes : ℕ
  pub writable : Bool
  pub page_location : Location

-- The memory of the pages, and `sup_page_table_list` of the thread.
pub record SupPages : Type 0 where
  pub heap : Heap
  pub page : ℕ → SupPage
  pub sup_page_table_list : Ends

abbrev pub set_page : SupPages → ℕ → SupPage → SupPages
set_page s a p = record s { page = λ x. if a == x then p else s.page x }

-- The assignment of a `struct list` to a local variable at another address: its head and tail
-- hold the pointers of the original, and the elements point to the original's ends as before.
abbrev pub copied : Heap → Ends → Ends → Heap
copied h list copy =
    let h1 = set_next (set_prev h copy.head (h.prev list.head)) copy.head (h.next list.head) in
    set_next (set_prev h1 copy.tail (h.prev list.tail)) copy.tail (h.next list.tail)

pub add_sup_page : SupPages → ℕ → Option SupPages
add_sup_page s a = do
  h ← list_push_back s.heap s.sup_page_table_list a
  some (record s { heap = h })

-- On the storage that `malloc` returned.
pub create_sup_page : Option ℕ → ℕ → ℕ → ℕ → ℕ → ℕ → Bool → SupPages → Option (ℕ × SupPages)
unfolding add_sup_page
create_sup_page storage f ofs addr r_bytes z_bytes write s = do
  a ← storage
  let page : SupPage = record {
    swap_index = none;
    v_addr = addr;
    file = f;
    offset = ofs;
    read_bytes = r_bytes;
    zero_bytes = z_bytes;
    writable = write;
    page_location = in_memory;
  }
  s' ← add_sup_page (set_page s a page) a
  some (a, s')

-- The loop of `get_sup_page` from the element e on. The inner `none` is NULL.
pub get_from : ℕ → Heap → Ends → (ℕ → SupPage) → ℕ → ℕ → Option (Option ℕ)
get_from zero h copy page addr e = none
get_from (suc fuel) h copy page addr e =
    let later : Option (Option ℕ) = (do e' ← list_next h e; get_from fuel h copy page addr e') in
    if e == list_end copy
    then some none
    else if (page e).v_addr == addr
    then some (some e)
    else later

-- `copy` is the local variable; the fuel is the number of elements of the list and 2, or more.
pub get_sup_page : ℕ → Ends → ℕ → SupPages → Option (Option ℕ)
unfolding get_from
get_sup_page fuel copy addr s = do
  let h = copied s.heap s.sup_page_table_list copy
  b ← list_begin h copy
  get_from fuel h copy s.page addr b

unfoldable pub change_page_location :
    ℕ → Ends → ℕ → Location → Option ℕ → SupPages → Option SupPages
unfolding get_sup_page
change_page_location fuel copy addr t swap_index s = do
  found ← get_sup_page fuel copy addr s
  spage ← found
  some (set_page s spage (record (s.page spage) { page_location = t; swap_index = swap_index }))
