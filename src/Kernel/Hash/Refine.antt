-- ===== src/Kernel/Hash/Refine.antt =====
-- hash.c: a hash table is a set of elements, no two of them equal.
use cs.Base.{
  ℕ, ◌+◌, ◌-◌, ◌^◌, ◌<◌, ◌≡◌, ◌≢◌, refl, sym, ap, ◌∙◌, subst, ◌⊎◌, inl, inr, Bool, true, false,
  Bool-cases, Option-cases, Option, none, some, List, [], ◌∷◌, map, get_or, length, In,
  some-injective, arith,
}
use Prim.Native.Nat.{bit_and}
use cs.Kernel.Hash.{
  Hasher, Hash, up, down, home, same, push, unlink, elements, find_bucket, insert_elem, remove_elem,
  hash_find, hash_insert, hash_replace, hash_delete, delete_found, hash_init, hash_clear,
}
use cs.Kernel.Hash.Buckets.{IsHasher, same_symm, Apart, Has, push-Has, replicate-Has}
use cs.Kernel.Hash.Unlink.{unlink-Has}
use cs.Kernel.Hash.Find.{Finds, find_elem-Finds}
use cs.Kernel.Hash.Rehash.{IsTable, rehash-IsTable, elements-In, elements-Has}

Apart-only :
    (h : Hasher) (l : List ℕ) (x y : ℕ) → Apart h l → In x l → In y l → same h x y ≡ true → x ≡ y
Apart-only h [] x y d i j hit = absurd i
Apart-only h (z ∷ zs) x y d (inl e) (inl e') hit = e ∙ sym e'
Apart-only h (z ∷ zs) x y d (inl e) (inr j) hit = absurd (cc (hit, ap (λ w. same h w y) e, d.0 y j))
Apart-only h (z ∷ zs) x y d (inr i) (inl e) hit =
    absurd (cc (hit, ap (same h x) e, same_symm h x z, d.0 x i))
Apart-only h (z ∷ zs) x y d (inr i) (inr j) hit = Apart-only h zs x y d.1 i j hit

-- Equal elements of a table are one.
Has-only :
    (h : Hasher) (n k : ℕ) (S : ℕ → Type 0) (bs : List (List ℕ)) (x y : ℕ)
    → IsHasher h
    → Has h n k S bs
    → S x
    → S y
    → same h x y ≡ true
    → x ≡ y
Has-only h n k S bs x y ok t sx sy hit =
    let at : home h n x ≡ home h n y = ap (λ a. bit_and a (down n)) (ok.hash_same x y hit) in
    Apart-only h (get_or bs (home h n y) []) x y (t.apart (home h n y))
      (subst (λ i. In x (get_or bs i [])) at (t.from x sx)) (t.from y sy) hit

In-pos : (x : ℕ) (l : List ℕ) → In x l → 0 < length l
In-pos x [] i = absurd i
In-pos x (y ∷ ys) i = omega arith

-- The table after one element came, or went.
pub insert_elem-IsTable :
    (h : Hasher) (S : ℕ → Type 0) (t : Hash) (e : ℕ)
    → IsTable h S t
    → t.elem_cnt + 1 < 2 ^ 32
    → ((x : ℕ) → S x → same h e x ≡ false)
    → IsTable h (λ x. (x ≡ e) ⊎ S x) (insert_elem h t (find_bucket h t e) e)
insert_elem-IsTable h S t e v room new =
    let more : t.elem_cnt + 1 ≡ up t.elem_cnt = omega (arith, room) in
    record {
      has =
          subst
            (λ k.
              Has h t.bucket_cnt k (λ x. (x ≡ e) ⊎ S x) (push h t.buckets (find_bucket h t e) e))
            more
            (push-Has h t.bucket_cnt t.elem_cnt e S t.buckets v.has v.some_buckets v.few_buckets
              new);
      some_buckets = v.some_buckets;
      few_buckets = v.few_buckets;
      few_elements = omega (arith, room, more);
    }

remove_elem-IsTable :
    (h : Hasher) (S : ℕ → Type 0) (t : Hash) (e : ℕ)
    → IsHasher h
    → IsTable h S t
    → S e
    → (IsTable h (λ x. S x × (x ≢ e)) (remove_elem h t e))
      × ((remove_elem h t e).elem_cnt + 1 < 2 ^ 32)
remove_elem-IsTable h S t e ok v s =
    let at =
      In-pos e (elements t.buckets)
        (elements-In e (home h t.bucket_cnt e) t.buckets (v.has.from e s)) in
    let pos : 0 < t.elem_cnt = omega (arith, at, v.has.total) in
    let fewer : t.elem_cnt - 1 ≡ down t.elem_cnt = omega (arith, pos, v.few_elements) in
    let back : t.elem_cnt ≡ t.elem_cnt - 1 + 1 = omega (arith, pos) in
    (
      record {
        has =
            subst (λ k. Has h t.bucket_cnt k (λ x. S x × (x ≢ e)) (map (unlink e) t.buckets)) fewer
              (unlink-Has h t.bucket_cnt (t.elem_cnt - 1) e S t.buckets ok
                (subst (λ k. Has h t.bucket_cnt k S t.buckets) back v.has) v.some_buckets
                v.few_buckets s);
        some_buckets = v.some_buckets;
        few_buckets = v.few_buckets;
        few_elements = omega (arith, fewer, v.few_elements);
      },
      omega (arith, fewer, v.few_elements, pos),
    )

-- The set after each operation, from what was found.
abbrev pub Inserted : (ℕ → Type 0) → ℕ → Option ℕ → ℕ → Type 0
Inserted S new none x = (x ≡ new) ⊎ S x
Inserted S new (some _) x = S x

abbrev pub Deleted : (ℕ → Type 0) → Option ℕ → ℕ → Type 0
Deleted S none x = S x
Deleted S (some e) x = S x × (x ≢ e)

abbrev pub Replaced : (ℕ → Type 0) → ℕ → Option ℕ → ℕ → Type 0
Replaced S new old x = (x ≡ new) ⊎ Deleted S old x

-- `hash_find` in a table of the set S returns the element of S that is equal to the one given, or
-- NULL when there is none.
pub hash_find-Finds :
    (h : Hasher) (S : ℕ → Type 0) (t : Hash) (q : ℕ)
    → IsHasher h
    → IsTable h S t
    → Finds h S q (hash_find h t q)
hash_find-Finds h S t q ok v = find_elem-Finds h t.bucket_cnt t.elem_cnt q S t.buckets ok v.has

module _ (h : Hasher) (S : ℕ → Type 0) (memory : Bool) (t : Hash) (ok : IsHasher h)
    (v : IsTable h S t) where
  -- Nothing that is left once the equal element went is equal to the new one.
  left-differs :
      (new old x : ℕ) → S old → same h old new ≡ true → S x × (x ≢ old) → same h new x ≡ false
  left-differs new old x so hit (sx, other) = elim (Bool-cases (same h new x)) [
    | inr miss ↦ miss
    | inl again ↦ absurd (
        other (
          sym (
            Has-only h t.bucket_cnt t.elem_cnt S t.buckets old x ok v.has so sx
              (ok.same_trans old new x hit again))))
  ]

  -- `hash_insert` into a table of the set S, of fewer than 2 ^ 32 - 1 elements, returns the equal
  -- element that it finds there and then leaves the set as it was; when there is none it returns NULL,
  -- and the new element is in the set. This holds whether or not the rehash gets memory.
  pub hash_insert-Inserted :
      (new : ℕ)
      → t.elem_cnt + 1 < 2 ^ 32
      → Finds h S new (hash_find h t new)
        × (t' : Hash) × (hash_insert h memory t new ≡ some (hash_find h t new, t'))
        × IsTable h (Inserted S new (hash_find h t new)) t'
  unfolding hash_insert
  hash_insert-Inserted new room =
      let found = hash_find-Finds h S t new ok v in
      elim (Option-cases (hash_find h t new)) [
        | inl e ↦
            let none_equal = subst (Finds h S new) e found in
            let (t', run, v') =
              rehash-IsTable h (λ x. (x ≡ new) ⊎ S x) memory
                (insert_elem h t (find_bucket h t new) new) ok
                (insert_elem-IsTable h S t new v room
                  (λ x s. same_symm h new x ∙ none_equal x s)) in
            (found, t', rw (e, run) refl, rw e v')
        | inr (old, e) ↦
            let (t', run, v') = rehash-IsTable h S memory t ok v in
            (found, t', rw (e, run) refl, rw e v')
      ]

  -- `hash_replace` in a table of the set S, of fewer than 2 ^ 32 - 1 elements, returns the equal
  -- element that it finds there, or NULL; the set has then the new element in its place.
  pub hash_replace-Replaced :
      (new : ℕ)
      → t.elem_cnt + 1 < 2 ^ 32
      → Finds h S new (hash_find h t new)
        × (t' : Hash) × (hash_replace h memory t new ≡ some (hash_find h t new, t'))
        × IsTable h (Replaced S new (hash_find h t new)) t'
  unfolding hash_replace
  hash_replace-Replaced new room =
      let found = hash_find-Finds h S t new ok v in
      elim (Option-cases (hash_find h t new)) [
        | inl e ↦
            let none_equal = subst (Finds h S new) e found in
            let (t', run, v') =
              rehash-IsTable h (λ x. (x ≡ new) ⊎ S x) memory
                (insert_elem h t (find_bucket h t new) new) ok
                (insert_elem-IsTable h S t new v room
                  (λ x s. same_symm h new x ∙ none_equal x s)) in
            (found, t', rw (e, run) refl, rw e v')
        | inr (old, e) ↦
            let (so, hit) = subst (Finds h S new) e found in
            let (v1, room1) = remove_elem-IsTable h S t old ok v so in
            let (t', run, v') =
              rehash-IsTable h (λ x. (x ≡ new) ⊎ (S x × (x ≢ old))) memory
                (insert_elem h (remove_elem h t old) (find_bucket h t new) new) ok
                (insert_elem-IsTable h (λ x. S x × (x ≢ old)) (remove_elem h t old) new v1 room1
                  (λ x left. left-differs new old x so hit left)) in
            (found, t', rw (e, run) refl, rw e v')
      ]

  -- `hash_delete` from a table of the set S returns the equal element that it finds there and takes it
  -- from the set; when there is none it returns NULL and leaves the table as it was.
  pub hash_delete-Deleted :
      (e : ℕ)
      → Finds h S e (hash_find h t e)
        × (t' : Hash) × (hash_delete h memory t e ≡ some (hash_find h t e, t'))
        × IsTable h (Deleted S (hash_find h t e)) t'
        × ((hash_find h t e ≡ none) → t' ≡ t)
  unfolding delete_found
  hash_delete-Deleted e =
      let found = hash_find-Finds h S t e ok v in
      elim (Option-cases (hash_find h t e)) [
        | inl q ↦ (found, t, rw q refl, rw q v, λ _. refl)
        | inr (old, q) ↦
            let (so, hit) = subst (Finds h S e) q found in
            let (v1, room1) = remove_elem-IsTable h S t old ok v so in
            let (t', run, v') =
              rehash-IsTable h (λ x. S x × (x ≢ old)) memory (remove_elem h t old) ok v1 in
            (found, t', rw (q, run) refl, rw q v', λ no. absurd (cc (q, no)))
      ]

-- The set of a table without elements.
abbrev pub Empty : ℕ → Type 0
Empty _ = ⊥

-- A table that `hash_init` got memory for is one of the empty set.
pub hash_init-IsTable : (h : Hasher) (t : Hash) → hash_init true ≡ some t → IsTable h Empty t
unfolding hash_init
hash_init-IsTable h t e = subst (IsTable h Empty) (some-injective _ _ e) (record {
  has = replicate-Has h 4;
  some_buckets = omega arith;
  few_buckets = omega arith;
  few_elements = omega arith;
})

-- `hash_clear` of a table of the set S leaves a table of the empty set, and hands all elements of S,
-- and no others, to the destructor when there is one.
pub hash_clear-IsTable :
    (h : Hasher) (S : ℕ → Type 0) (destructor : Bool) (t : Hash)
    → IsTable h S t
    → IsTable h Empty (hash_clear destructor t).1
      × ((x : ℕ) → (In x (hash_clear true t).0 → S x) × (S x → In x (hash_clear true t).0))
      × ((hash_clear false t).0 ≡ [])
unfolding hash_clear
hash_clear-IsTable h S destructor t v = (
  record {
    has = replicate-Has h t.bucket_cnt;
    some_buckets = v.some_buckets;
    few_buckets = v.few_buckets;
    few_elements = omega arith;
  },
  λ x. elements-Has h t.bucket_cnt t.elem_cnt S t.buckets x v.has,
  refl,
)
