-- ===== src/Kernel/Linked.antt =====
-- fs_PintOS/lib/kernel/list.c, the doubly linked list: the elements live in a heap, each with the
-- pointers `prev` and `next`, NULL being `none`. A list is the pair of its head and tail elements.
-- `none` as a result is a failed ASSERT, a read through NULL, or a walk that does not end.
pub mod Chain
pub mod Refine
pub mod Remove
pub mod Size
use cs.Base.{
  ℕ, zero, suc, Bool, true, false, not, ◌&&◌, ◌||◌, Option, none, some, ◌==◌, if◌then◌else◌, ◌>>=◌,
  ◌>>◌, assert,
}

pub record Heap : Type 0 where
  pub prev : ℕ → Option ℕ
  pub next : ℕ → Option ℕ

-- `struct list`
pub record Ends : Type 0 where
  pub head : ℕ
  pub tail : ℕ

abbrev pub at : (ℕ → Option ℕ) → ℕ → Option ℕ → ℕ → Option ℕ
at f e v = λ x. if e == x then v else f x

abbrev pub set_prev : Heap → ℕ → Option ℕ → Heap
set_prev h e v = record h { prev = at h.prev e v }

abbrev pub set_next : Heap → ℕ → Option ℕ → Heap
set_next h e v = record h { next = at h.next e v }

abbrev is_some : Option ℕ → Bool
is_some none = false
is_some (some _) = true

abbrev pub is_head : Heap → ℕ → Bool
is_head h elem' = not (is_some (h.prev elem')) && is_some (h.next elem')

abbrev pub is_interior : Heap → ℕ → Bool
is_interior h elem' = is_some (h.prev elem') && is_some (h.next elem')

abbrev pub is_tail : Heap → ℕ → Bool
is_tail h elem' = is_some (h.prev elem') && not (is_some (h.next elem'))

pub list_init : Heap → Ends → Heap
list_init h list =
    let h1 = set_prev h list.head none in
    let h2 = set_next h1 list.head (some list.tail) in
    let h3 = set_prev h2 list.tail (some list.head) in set_next h3 list.tail none

abbrev pub list_begin : Heap → Ends → Option ℕ
list_begin h list = h.next list.head

abbrev pub list_end : Ends → ℕ
list_end list = list.tail

pub list_next : Heap → ℕ → Option ℕ
list_next h elem' = do assert (is_head h elem' || is_interior h elem'); h.next elem'

pub list_prev : Heap → ℕ → Option ℕ
list_prev h elem' = do assert (is_interior h elem' || is_tail h elem'); h.prev elem'

pub list_insert : Heap → ℕ → ℕ → Option Heap
list_insert h before elem' = do
  assert (is_interior h before || is_tail h before)
  let h1 = set_prev h elem' (h.prev before)
  let h2 = set_next h1 elem' (some before)
  p ← h2.prev before
  let h3 = set_next h2 p (some elem')
  some (set_prev h3 before (some elem'))

-- The element that followed, and the heap.
pub list_remove : Heap → ℕ → Option (ℕ × Heap)
list_remove h elem' = do
  assert (is_interior h elem')
  p ← h.prev elem'
  let h1 = set_next h p (h.next elem')
  n ← h1.next elem'
  let h2 = set_prev h1 n (h1.prev elem')
  r ← h2.next elem'
  some (r, h2)

pub list_push_front : Heap → Ends → ℕ → Option Heap
unfolding list_insert
list_push_front h list elem' = do b ← list_begin h list; list_insert h b elem'

unfoldable pub list_push_back : Heap → Ends → ℕ → Option Heap
unfolding list_insert
list_push_back h list elem' = list_insert h (list_end list) elem'

pub list_empty : Heap → Ends → Option Bool
list_empty h list = do b ← list_begin h list; some (b == list_end list)

pub list_front : Heap → Ends → Option ℕ
unfolding list_empty
list_front h list = do e ← list_empty h list; assert (not e); h.next list.head

pub list_back : Heap → Ends → Option ℕ
unfolding list_empty
list_back h list = do e ← list_empty h list; assert (not e); h.prev list.tail

pub list_pop_front : Heap → Ends → Option (ℕ × Heap)
unfolding list_front list_remove
list_pop_front h list = do
  front ← list_front h list
  (_, h') ← list_remove h front
  some (front, h')

pub list_pop_back : Heap → Ends → Option (ℕ × Heap)
unfolding list_back list_remove
list_pop_back h list = do back ← list_back h list; (_, h') ← list_remove h back; some (back, h')

-- The walk of `list_size` from e on.
pub size_from : ℕ → Heap → Ends → ℕ → Option ℕ
size_from zero h list e = none
size_from (suc fuel) h list e =
    if e == list_end list
    then some 0
    else (do e' ← list_next h e; n ← size_from fuel h list e'; some (suc n))

-- The fuel is the number of elements in the heap, or more.
pub list_size : ℕ → Heap → Ends → Option ℕ
unfolding size_from list_next
list_size fuel h list = do b ← list_begin h list; size_from fuel h list b
