-- ===== src/Kernel/Hash.antt =====
-- fs_PintOS/lib/kernel/hash.c: hash tables with a list of elements for each bucket. An element is its
-- address, a bucket the sequence of the elements of its list. The `hash` and `less` functions of a
-- table are those of a `Hasher`, with their auxiliary data. `none` is a loop that does not end.
pub mod Count
pub mod Buckets
pub mod Unlink
pub mod Find
pub mod Rehash
pub mod Refine
mod Tests
use Prim.Native.Nat.{bit_and, bit_xor}
use cs.Base.{
  ℕ, zero, suc, ◌+◌, ◌-◌, ◌*◌, ◌/◌, ◌%◌, ◌^◌, Bool, true, false, not, ◌&&◌, Option, none, some,
  List, [], ◌∷◌, ◌++◌, ltb, ◌==◌, if◌then◌else◌, get_or, set, replicate, map, ◌>>=◌,
}

pub record Hasher : Type 0 where
  pub hash : ℕ → ℕ
  pub less : ℕ → ℕ → Bool

-- `struct hash`
pub record Hash : Type 0 where
  pub elem_cnt : ℕ
  pub bucket_cnt : ℕ
  pub buckets : List (List ℕ)

-- The arithmetic of size_t.
abbrev pub up : ℕ → ℕ
up n = (n + 1) % 2 ^ 32

abbrev pub down : ℕ → ℕ
down n = (n + (2 ^ 32 - 1)) % 2 ^ 32

pub turn_off_least_1bit : ℕ → ℕ
turn_off_least_1bit x = bit_and x (down x)

pub is_power_of_2 : ℕ → Bool
unfolding turn_off_least_1bit
is_power_of_2 x = not (x == 0) && (turn_off_least_1bit x == 0)

-- The loop of `rehash` that rounds down to a power of 2.
pub round_down : ℕ → ℕ → Option ℕ
unfolding is_power_of_2
round_down zero x = none
round_down (suc fuel) x =
    let next = round_down fuel (turn_off_least_1bit x) in if is_power_of_2 x then some x else next

-- The number of buckets for a number of elements: one for two, and four at least.
pub new_bucket_cnt : ℕ → Option ℕ
unfolding round_down
new_bucket_cnt elem_cnt =
    let n = elem_cnt / 2 in let wanted = if ltb n 4 then 4 else n in round_down (wanted + 1) wanted

-- `list_remove` of an element that is in the list, or not.
pub unlink : ℕ → List ℕ → List ℕ
unlink e [] = []
unlink e (x ∷ xs) = let rest = unlink e xs in if x == e then xs else x ∷ rest

-- `hash_size`, `hash_empty`
abbrev pub hash_size : Hash → ℕ
hash_size h = h.elem_cnt

abbrev pub hash_empty : Hash → Bool
hash_empty h = h.elem_cnt == 0

-- The elements, bucket by bucket: the order in which `hash_apply` and `hash_clear` hand them to
-- their action.
pub elements : List (List ℕ) → List ℕ
elements [] = []
elements (bucket ∷ rest) = bucket ++ elements rest

abbrev pub hash_apply : Hash → List ℕ
hash_apply t = elements t.buckets

-- What the destructor is called for, if there is one, and the table: all its lists are made empty.
pub hash_clear : Bool → Hash → List ℕ × Hash
unfolding elements
hash_clear destructor t = (
  if destructor then elements t.buckets else [],
  record { elem_cnt = 0; bucket_cnt = t.bucket_cnt; buckets = replicate t.bucket_cnt [] },
)

-- What the destructor is called for, if there is one, before the buckets are freed.
abbrev pub hash_destroy : Bool → Hash → List ℕ
hash_destroy destructor t = if destructor then (hash_clear true t).0 else []

-- `memory` tells whether the `malloc` of the buckets succeeds.
pub hash_init : Bool → Option Hash
hash_init memory =
    if memory
    then some (record { elem_cnt = 0; bucket_cnt = 4; buckets = replicate 4 [] })
    else none

-- The loop of `hash_bytes` and `hash_string` over the bytes of a buffer, from a hash on.
pub hash_from : ℕ → List ℕ → ℕ
hash_from hash [] = hash
hash_from hash (byte ∷ rest) = hash_from (bit_xor ((hash * 16777619) % 2 ^ 32) byte) rest

abbrev pub hash_bytes : List ℕ → ℕ
hash_bytes buf = hash_from 2166136261 buf

module _ (h : Hasher) where
  -- The index of the bucket that an element belongs in, among n.
  abbrev pub home : ℕ → ℕ → ℕ
  home n e = bit_and (h.hash e) (down n)

  abbrev pub find_bucket : Hash → ℕ → ℕ
  find_bucket t e = home t.bucket_cnt e

  -- Whether two elements are equal: neither is less than the other.
  abbrev pub same : ℕ → ℕ → Bool
  same a b = not (h.less a b) && not (h.less b a)

  pub find_elem : List ℕ → ℕ → Option ℕ
  find_elem [] e = none
  find_elem (hi ∷ rest) e = let later = find_elem rest e in if same hi e then some hi else later

  abbrev pub hash_find : Hash → ℕ → Option ℕ
  hash_find t e = find_elem (get_or t.buckets (find_bucket t e) []) e

  -- `list_push_front` on the bucket at index i.
  abbrev pub push : List (List ℕ) → ℕ → ℕ → List (List ℕ)
  push buckets i e = set buckets i (e ∷ get_or buckets i [])

  abbrev pub insert_elem : Hash → ℕ → ℕ → Hash
  insert_elem t bucket e = record t { elem_cnt = up t.elem_cnt; buckets = push t.buckets bucket e }

  -- The element is in one list at most.
  abbrev pub remove_elem : Hash → ℕ → Hash
  remove_elem t e = record t { elem_cnt = down t.elem_cnt; buckets = map (unlink e) t.buckets }

  -- The two loops of `rehash` over the old elements.
  pub move_bucket : ℕ → List ℕ → List (List ℕ) → List (List ℕ)
  move_bucket n [] new_buckets = new_buckets
  move_bucket n (e ∷ es) new_buckets = move_bucket n es (push new_buckets (home n e) e)

  pub move_all : ℕ → List (List ℕ) → List (List ℕ) → List (List ℕ)
  unfolding move_bucket
  move_all n [] new_buckets = new_buckets
  move_all n (bucket ∷ rest) new_buckets = move_all n rest (move_bucket n bucket new_buckets)

  -- `memory` tells whether the `malloc` of the new buckets succeeds.
  pub rehash : Bool → Hash → Option Hash
  unfolding new_bucket_cnt move_all
  rehash memory t = do
    n ← new_bucket_cnt t.elem_cnt
    let moved = record t { bucket_cnt = n; buckets = move_all n t.buckets (replicate n []) }
    some (if n == t.bucket_cnt then t else if memory then moved else t)

  -- The element that was in the table already, if any, and the table.
  pub hash_insert : Bool → Hash → ℕ → Option (Option ℕ × Hash)
  unfolding rehash
  hash_insert memory t new =
      let old = hash_find t new in
      do
        t' ← rehash memory (elim old [ none ↦ insert_elem t (find_bucket t new) new | some _ ↦ t ])
        some (old, t')

  pub hash_replace : Bool → Hash → ℕ → Option (Option ℕ × Hash)
  unfolding rehash
  hash_replace memory t new =
      let old = hash_find t new in
      let t1 : Hash = elim old [ none ↦ t | some e ↦ remove_elem t e ] in
      do t' ← rehash memory (insert_elem t1 (find_bucket t new) new); some (old, t')

  -- `hash_delete`, from what was found.
  pub delete_found : Bool → Hash → Option ℕ → Option (Option ℕ × Hash)
  unfolding rehash
  delete_found memory t none = some (none, t)
  delete_found memory t (some found) = do
    t' ← rehash memory (remove_elem t found)
    some (some found, t')

  abbrev pub hash_delete : Bool → Hash → ℕ → Option (Option ℕ × Hash)
  hash_delete memory t e = delete_found memory t (hash_find t e)
