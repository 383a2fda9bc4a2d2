-- ===== src/Kernel/Hash/Rehash.antt =====
-- hash.c, `rehash`: another number of buckets holds the same elements.
use cs.Base.{
  ℕ, zero, suc, ◌+◌, ◌^◌, ◌<◌, ◌≡◌, ◌≢◌, refl, sym, ap, ◌∙◌, subst, ◌⊎◌, inl, inr, Bool, false,
  Bool-cases, some, List, [], ◌∷◌, ◌++◌, ◌==◌, get_or, length, replicate, In, In-append,
  In-append_left, In-append_right, arith,
}
use Prim.Native.Nat.{bit_and}
use cs.Kernel.Hash.{Hasher, Hash, down, home, same, push, elements, move_bucket, move_all, rehash}
use cs.Kernel.Hash.Count.{new_bucket_cnt-some}
use cs.Kernel.Hash.Buckets.{IsHasher, same_symm, Apart, Has, Has-same, push-Has, replicate-Has}

-- The two nested loops are one over all elements.
move_bucket-append :
    (h : Hasher) (n : ℕ) (as' bs : List ℕ) (fresh : List (List ℕ))
    → move_bucket h n (as' ++ bs) fresh ≡ move_bucket h n bs (move_bucket h n as' fresh)
unfolding move_bucket
move_bucket-append h n [] bs fresh = refl
move_bucket-append h n (a ∷ as') bs fresh =
    move_bucket-append h n as' bs (push h fresh (home h n a) a)

move_all-elements :
    (h : Hasher) (n : ℕ) (bs fresh : List (List ℕ))
    → move_all h n bs fresh ≡ move_bucket h n (elements bs) fresh
unfolding move_all elements
move_all-elements h n [] fresh = refl
move_all-elements h n (b ∷ bs) fresh =
    move_all-elements h n bs (move_bucket h n b fresh)
    ∙ sym (move_bucket-append h n b (elements bs) fresh)

move_bucket-Has :
    (h : Hasher) (n k : ℕ) (S : ℕ → Type 0) (es : List ℕ) (fresh : List (List ℕ))
    → 0 < n
    → n < 2 ^ 32
    → Has h n k S fresh
    → Apart h es
    → ((x y : ℕ) → In x es → S y → same h x y ≡ false)
    → Has h n (k + length es) (λ x. In x es ⊎ S x) (move_bucket h n es fresh)
unfolding move_bucket
move_bucket-Has h n k S [] fresh pos small t d new =
    subst (λ m. Has h n m (λ x. ⊥ ⊎ S x) fresh) (omega arith)
      (Has-same h n k S (λ x. ⊥ ⊎ S x) fresh (λ x s. inr s)
        (λ x m. elim m [ inl z ↦ absurd z | inr s ↦ s ]) t)
move_bucket-Has h n k S (e ∷ es) fresh pos small t d new =
    let step = push-Has h n k e S fresh t pos small (λ x s. new e x (inl refl) s) in
    let all =
      move_bucket-Has h n (k + 1) (λ x. (x ≡ e) ⊎ S x) es (push h fresh (home h n e) e) pos small
        step d.1
        (λ x y i m. elim m [
          | inl z ↦ ap (same h x) z ∙ same_symm h x e ∙ d.0 x i
          | inr s ↦ new x y (inr i) s
        ]) in
    subst
      (λ m. Has h n m (λ x. In x (e ∷ es) ⊎ S x) (move_bucket h n es (push h fresh (home h n e) e)))
      (omega arith)
      (Has-same h n (k + 1 + length es) (λ x. In x es ⊎ ((x ≡ e) ⊎ S x)) (λ x. In x (e ∷ es) ⊎ S x)
        (move_bucket h n es (push h fresh (home h n e) e))
        (λ x m. elim m [
          | inl i ↦ inl (inr i)
          | inr w ↦ elim w [ inl z ↦ inl (inl z) | inr s ↦ inr s ]
        ])
        (λ x m. elim m [
          | inl i ↦ elim i [ inl z ↦ inr (inl z) | inr later ↦ inl later ]
          | inr s ↦ inr (inr s)
        ])
        all)

Apart-append :
    (h : Hasher) (as' bs : List ℕ)
    → Apart h as'
    → Apart h bs
    → ((x y : ℕ) → In x as' → In y bs → same h x y ≡ false)
    → Apart h (as' ++ bs)
Apart-append h [] bs da db apart = db
Apart-append h (a ∷ as') bs da db apart = (
  λ y i. elim (In-append y as' bs i) [ inl m ↦ da.0 y m | inr m ↦ apart a y (inl refl) m ],
  Apart-append h as' bs da.1 db (λ x y i j. apart x y (inr i) j),
)

In-elements : (x : ℕ) (bs : List (List ℕ)) → In x (elements bs) → (i : ℕ) × In x (get_or bs i [])
unfolding elements
In-elements x [] m = absurd m
In-elements x (b ∷ bs) m = elim (In-append x b (elements bs) m) [
  | inl here ↦ (0, here)
  | inr later ↦ let (i, j) = In-elements x bs later in (suc i, j)
]

pub elements-In : (x i : ℕ) (bs : List (List ℕ)) → In x (get_or bs i []) → In x (elements bs)
unfolding elements
elements-In x i [] m = m
elements-In x zero (b ∷ bs) m = In-append_left x b (elements bs) m
elements-In x (suc i) (b ∷ bs) m = In-append_right x b (elements bs) (elements-In x i bs m)

elements-Apart :
    (h : Hasher) (bs : List (List ℕ))
    → ((i : ℕ) → Apart h (get_or bs i []))
    → ((i j x y : ℕ) → i ≢ j → In x (get_or bs i []) → In y (get_or bs j []) → same h x y ≡ false)
    → Apart h (elements bs)
unfolding elements
elements-Apart h [] d apart = tt
elements-Apart h (b ∷ bs) d apart =
    Apart-append h b (elements bs) (d 0)
      (elements-Apart h bs (λ i. d (suc i))
        (λ i j x y ne. apart (suc i) (suc j) x y (λ z. ne (omega (arith, z)))))
      (λ x y i m.
        let (j, at) = In-elements y bs m in apart 0 (suc j) x y (λ z. omega (arith, z)) i at)

-- The elements of all buckets are those of the set.
pub elements-Has :
    (h : Hasher) (n k : ℕ) (S : ℕ → Type 0) (bs : List (List ℕ)) (x : ℕ)
    → Has h n k S bs
    → (In x (elements bs) → S x) × (S x → In x (elements bs))
elements-Has h n k S bs x t = (
  λ i.
      let (j, at) = In-elements x bs i in
      t.into x (subst (λ l. In x (get_or bs l [])) (sym (t.homes j x at)) at),
  λ s. elements-In x (home h n x) bs (t.from x s),
)

-- All elements moved into other buckets.
pub move_all-Has :
    (h : Hasher) (n n' k : ℕ) (S : ℕ → Type 0) (bs : List (List ℕ))
    → IsHasher h
    → 0 < n'
    → n' < 2 ^ 32
    → Has h n k S bs
    → Has h n' k S (move_all h n' bs (replicate n' []))
move_all-Has h n n' k S bs ok pos small t =
    let apart_homes : (i j x y : ℕ)
        → i ≢ j
        → In x (get_or bs i [])
        → In y (get_or bs j [])
        → same h x y ≡ false =
      λ i j x y ne mx my. elim (Bool-cases (same h x y)) [
        | inr miss ↦ miss
        | inl hit ↦ absurd (
            ne (
              sym (t.homes i x mx)
              ∙ ap (λ a. bit_and a (down n)) (ok.hash_same x y hit)
              ∙ t.homes j y my))
      ] in
    let moved =
      move_bucket-Has h n' 0 (λ x. ⊥) (elements bs) (replicate n' []) pos small (replicate-Has h n')
        (elements-Apart h bs t.apart apart_homes) (λ x y i m. absurd m) in
    let as_set =
      Has-same h n' (0 + length (elements bs)) (λ x. In x (elements bs) ⊎ ⊥) S
        (move_bucket h n' (elements bs) (replicate n' []))
        (λ x m. elim m [ inl i ↦ (elements-Has h n k S bs x t).0 i | inr z ↦ absurd z ])
        (λ x s. inl ((elements-Has h n k S bs x t).1 s)) moved in
    subst (Has h n' k S) (sym (move_all-elements h n' bs (replicate n' []))) (
      subst (λ m. Has h n' m S (move_bucket h n' (elements bs) (replicate n' [])))
        (omega (arith, t.total)) as_set)

-- A table of the set S.
pub record IsTable (h : Hasher) (S : ℕ → Type 0) (t : Hash) : Type 0 where
  pub has : Has h t.bucket_cnt t.elem_cnt S t.buckets
  pub some_buckets : 0 < t.bucket_cnt
  pub few_buckets : t.bucket_cnt < 2 ^ 32
  pub few_elements : t.elem_cnt < 2 ^ 32

-- `rehash` ends, and keeps the set, whether or not there is memory.
pub rehash-IsTable :
    (h : Hasher) (S : ℕ → Type 0) (memory : Bool) (t : Hash)
    → IsHasher h
    → IsTable h S t
    → (t' : Hash) × (rehash h memory t ≡ some t') × IsTable h S t'
unfolding rehash
rehash-IsTable h S memory t ok v =
    let (n, e, pos, small, _) = new_bucket_cnt-some t.elem_cnt v.few_elements in
    elim (Bool-cases (n == t.bucket_cnt)) [
      | inl same_cnt ↦ (t, rw (e, same_cnt) refl, v)
      | inr other ↦ elim (Bool-cases memory) [
        | inr full ↦ (t, rw (e, other, full) refl, v)
        | inl room ↦ (
          record t { bucket_cnt = n; buckets = move_all h n t.buckets (replicate n []) },
          rw (e, other, room) refl,
          record {
            has = move_all-Has h t.bucket_cnt n t.elem_cnt S t.buckets ok pos small v.has;
            some_buckets = pos;
            few_buckets = small;
            few_elements = v.few_elements;
          },
        )
      ]
    ]
