-- ===== src/Kernel/Hash/Tests.antt =====
-- Elements are equal when they end in the same decimal digit, which is their hash: a table of 13.
use cs.Base.{ℕ, ◌%◌, ◌≡◌, refl, subst, ◌∙◌, ◌⊎◌, true, none, some, [], ◌∷◌, ltb, not, ◌&&◌, arith}
use cs.Kernel.Hash.{
  Hasher, Hash, hash_init, find_elem, hash_find, hash_insert, hash_replace, hash_delete,
  insert_elem, find_bucket,
}
use cs.Kernel.Hash.Buckets.{IsHasher}
use cs.Kernel.Hash.Find.{Finds}
use cs.Kernel.Hash.Rehash.{IsTable}
use cs.Kernel.Hash.Refine.{
  Inserted, Deleted, Replaced, Empty, insert_elem-IsTable, hash_init-IsTable, hash_find-Finds,
  hash_insert-Inserted, hash_replace-Replaced, hash_delete-Deleted,
}

abbrev by_digit : Hasher
by_digit = record { hash = λ e. e % 10; less = λ a b. ltb (a % 10) (b % 10) }

same_digit : (m n : ℕ) → (not (ltb m n) && not (ltb n m)) ≡ true → m ≡ n
same_digit m n e = ground arith

digit_same : (n : ℕ) → (not (ltb n n) && not (ltb n n)) ≡ true
digit_same n = ground arith

by_digit-IsHasher : IsHasher by_digit
by_digit-IsHasher = record {
  same_refl = λ a. digit_same (a % 10);
  same_trans = λ a b c ab bc.
      subst (λ m. (not (ltb (a % 10) m) && not (ltb m (a % 10))) ≡ true)
        (same_digit (a % 10) (b % 10) ab ∙ same_digit (b % 10) (c % 10) bc) (digit_same (a % 10));
  hash_same = λ a b e. same_digit (a % 10) (b % 10) e;
}

abbrev empty : Hash
empty = record { elem_cnt = 0; bucket_cnt = 4; buckets = [] ∷ [] ∷ [] ∷ [] ∷ [] }

empty-IsTable : IsTable by_digit Empty empty
unfolding hash_init
empty-IsTable = hash_init-IsTable by_digit empty refl

abbrev one : Hash
one = insert_elem by_digit empty (find_bucket by_digit empty 13) 13

abbrev Thirteen : ℕ → Type 0
Thirteen x = (x ≡ 13) ⊎ ⊥

one-IsTable : IsTable by_digit Thirteen one
one-IsTable =
    insert_elem-IsTable by_digit Empty empty 13 empty-IsTable (omega arith) (λ x none. absurd none)

found : hash_find by_digit one 23 ≡ some 13
unfolding find_elem
found = refl

hash_find-Finds_example : Finds by_digit Thirteen 23 (hash_find by_digit one 23)
hash_find-Finds_example = hash_find-Finds by_digit Thirteen one 23 by_digit-IsHasher one-IsTable

hash_insert-Inserted_example :
    Finds by_digit Thirteen 24 (hash_find by_digit one 24)
    × (t' : Hash) × (hash_insert by_digit true one 24 ≡ some (hash_find by_digit one 24, t'))
    × IsTable by_digit (Inserted Thirteen 24 (hash_find by_digit one 24)) t'
hash_insert-Inserted_example =
    hash_insert-Inserted by_digit Thirteen true one by_digit-IsHasher one-IsTable 24 (omega arith)

hash_replace-Replaced_example :
    Finds by_digit Thirteen 23 (hash_find by_digit one 23)
    × (t' : Hash) × (hash_replace by_digit true one 23 ≡ some (hash_find by_digit one 23, t'))
    × IsTable by_digit (Replaced Thirteen 23 (hash_find by_digit one 23)) t'
hash_replace-Replaced_example =
    hash_replace-Replaced by_digit Thirteen true one by_digit-IsHasher one-IsTable 23 (omega arith)

hash_delete-Deleted_example :
    Finds by_digit Thirteen 23 (hash_find by_digit one 23)
    × (t' : Hash) × (hash_delete by_digit true one 23 ≡ some (hash_find by_digit one 23, t'))
    × IsTable by_digit (Deleted Thirteen (hash_find by_digit one 23)) t'
    × ((hash_find by_digit one 23 ≡ none) → t' ≡ one)
hash_delete-Deleted_example =
    hash_delete-Deleted by_digit Thirteen true one by_digit-IsHasher one-IsTable 23
