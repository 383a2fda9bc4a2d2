-- ===== src/Kernel/Hash/Buckets.antt =====
-- hash.c: the buckets of a table, as a set of elements.
use native.Mathlib.Decide.{ℕ_discrete}
use cs.Base.{
  ℕ, zero, suc, ◌+◌, ◌^◌, ◌<◌, ◌≡◌, ◌≢◌, refl, sym, ap, ◌∙◌, subst, ◌⊎◌, inl, inr, Bool, true,
  false, not, ◌&&◌, List, [], ◌∷◌, get_or, set, length, length-set, length-append, get_or-set_self,
  get_or-set_ne, replicate, length-replicate, In, arith,
}
use cs.Kernel.Hash.{Hasher, home, same, push, elements}
use cs.Kernel.Hash.Count.{home-lt}

-- What a table asks of its functions: `same` is an equivalence, and equal elements have one hash.
pub record IsHasher (h : Hasher) : Type 0 where
  pub same_refl : (a : ℕ) → same h a a ≡ true
  pub same_trans : (a b c : ℕ) → same h a b ≡ true → same h b c ≡ true → same h a c ≡ true
  pub hash_same : (a b : ℕ) → same h a b ≡ true → h.hash a ≡ h.hash b

pub same_symm : (h : Hasher) (a b : ℕ) → same h a b ≡ same h b a
same_symm h a b = swap (not (h.less a b)) (not (h.less b a))
  where
    swap : (x y : Bool) → (x && y) ≡ (y && x)
    swap true true = refl
    swap true false = refl
    swap false true = refl
    swap false false = refl

-- No two elements of the list are equal.
abbrev pub Apart : Hasher → List ℕ → Type 0
Apart h [] = Unit {0}
Apart h (x ∷ xs) = ((y : ℕ) → In y xs → same h x y ≡ false) × Apart h xs

-- n buckets that hold k elements, those of the set S: each in its bucket, and no two equal.
pub record Has (h : Hasher) (n k : ℕ) (S : ℕ → Type 0) (bs : List (List ℕ)) : Type 0 where
  pub width : length bs ≡ n
  pub total : length (elements bs) ≡ k
  pub homes : (i x : ℕ) → In x (get_or bs i []) → home h n x ≡ i
  pub apart : (i : ℕ) → Apart h (get_or bs i [])
  pub into : (x : ℕ) → In x (get_or bs (home h n x) []) → S x
  pub from : (x : ℕ) → S x → In x (get_or bs (home h n x) [])

-- The same set, by another name.
pub Has-same :
    (h : Hasher) (n k : ℕ) (S T : ℕ → Type 0) (bs : List (List ℕ))
    → ((x : ℕ) → S x → T x)
    → ((x : ℕ) → T x → S x)
    → Has h n k S bs
    → Has h n k T bs
Has-same h n k S T bs to back t = record {
  width = t.width;
  total = t.total;
  homes = t.homes;
  apart = t.apart;
  into = λ x i. to x (t.into x i);
  from = λ x m. t.from x (back x m);
}

length-elements-set :
    (bs : List (List ℕ)) (j : ℕ) (c : List ℕ)
    → j < length bs
    → length (elements (set bs j c)) + length (get_or bs j []) ≡ length (elements bs) + length c
unfolding elements
length-elements-set [] j c lt = absurd (omega (arith, lt))
length-elements-set (b ∷ bs) zero c lt =
    omega (arith, length-append c (elements bs), length-append b (elements bs))
length-elements-set (b ∷ bs) (suc j) c lt = omega (
  arith,
  length-append b (elements (set bs j c)),
  length-append b (elements bs),
  length-elements-set bs j c (omega (arith, lt)),
)

module _ (h : Hasher) (n k k' j : ℕ) (S T : ℕ → Type 0) (bs : List (List ℕ)) (c : List ℕ)
    (t : Has h n k S bs) (fits : j < n) where
  -- A bucket with other elements in it.
  pub set-Has :
      k' + length (get_or bs j []) ≡ k + length c
      → ((x : ℕ) → In x c → home h n x ≡ j)
      → Apart h c
      → ((x : ℕ) → In x c → T x)
      → ((x : ℕ) → home h n x ≢ j → S x → T x)
      → ((x : ℕ) → home h n x ≡ j → T x → In x c)
      → ((x : ℕ) → home h n x ≢ j → T x → S x)
      → Has h n k' T (set bs j c)
  set-Has sum at_home different to_c to_s from_c from_s =
      let inside : j < length bs = omega (arith, fits, t.width) in
      let here : get_or (set bs j c) j [] ≡ c = get_or-set_self bs j c [] inside in
      let there : (i : ℕ) → j ≢ i → get_or (set bs j c) i [] ≡ get_or bs i [] =
        λ i ne. get_or-set_ne bs j i c [] ne in
      record {
        width = length-set bs j c ∙ t.width;
        total = omega (arith, length-elements-set bs j c inside, t.total, sum);
        homes = λ i x m. elim (ℕ_discrete j i) [
          | yes e ↦
              at_home x (subst (In x) (ap (λ l. get_or (set bs j c) l []) (sym e) ∙ here) m) ∙ e
          | no ne ↦ t.homes i x (subst (In x) (there i ne) m)
        ];
        apart = λ i. elim (ℕ_discrete j i) [
          | yes e ↦ subst (Apart h) (sym here ∙ ap (λ l. get_or (set bs j c) l []) e) different
          | no ne ↦ subst (Apart h) (sym (there i ne)) (t.apart i)
        ];
        into = λ x m. elim (ℕ_discrete j (home h n x)) [
          | yes e ↦ to_c x (subst (In x) (ap (λ l. get_or (set bs j c) l []) (sym e) ∙ here) m)
          | no ne ↦ to_s x (λ z. ne (sym z)) (t.into x (subst (In x) (there (home h n x) ne) m))
        ];
        from = λ x m. elim (ℕ_discrete j (home h n x)) [
          | yes e ↦
              subst (In x) (sym here ∙ ap (λ l. get_or (set bs j c) l []) e) (from_c x (sym e) m)
          | no ne ↦
              subst (In x) (sym (there (home h n x) ne)) (t.from x (from_s x (λ z. ne (sym z)) m))
        ];
      }

-- `list_push_front` of a new element on its bucket.
pub push-Has :
    (h : Hasher) (n k e : ℕ) (S : ℕ → Type 0) (bs : List (List ℕ))
    → Has h n k S bs
    → 0 < n
    → n < 2 ^ 32
    → ((x : ℕ) → S x → same h e x ≡ false)
    → Has h n (k + 1) (λ x. (x ≡ e) ⊎ S x) (push h bs (home h n e) e)
push-Has h n k e S bs t pos small new =
    let j = home h n e in
    let old = get_or bs j [] in
    let member : (x : ℕ) → In x old → S x =
      λ x i. t.into x (subst (λ l. In x (get_or bs l [])) (sym (t.homes j x i)) i) in
    set-Has h n k (k + 1) j S (λ x. (x ≡ e) ⊎ S x) bs (e ∷ old) t (home-lt h n e pos small)
      (omega arith) (λ x i. elim i [ inl z ↦ ap (home h n) z | inr later ↦ t.homes j x later ])
      ((λ y i. new y (member y i)), t.apart j)
      (λ x i. elim i [ inl z ↦ inl z | inr later ↦ inr (member x later) ]) (λ x ne s. inr s)
      (λ x at m. elim m [
        | inl z ↦ inl z
        | inr s ↦ inr (subst (λ l. In x (get_or bs l [])) at (t.from x s))
      ])
      (λ x ne m. elim m [ inl z ↦ absurd (ne (ap (home h n) z)) | inr s ↦ s ])

get_or-replicate : (n i : ℕ) → get_or {A = List ℕ} (replicate n []) i [] ≡ []
get_or-replicate zero i = refl
get_or-replicate (suc n) zero = refl
get_or-replicate (suc n) (suc i) = get_or-replicate n i

elements-replicate : (n : ℕ) → elements (replicate n []) ≡ []
unfolding elements
elements-replicate zero = refl
elements-replicate (suc n) = elements-replicate n

-- Empty buckets.
pub replicate-Has : (h : Hasher) (n : ℕ) → Has h n 0 (λ x. ⊥) (replicate n [])
replicate-Has h n = record {
  width = length-replicate n [];
  total = ap length (elements-replicate n);
  homes = λ i x m. absurd (subst (In x) (get_or-replicate n i) m);
  apart = λ i. subst (Apart h) (sym (get_or-replicate n i)) tt;
  into = λ x m. subst (In x) (get_or-replicate n (home h n x)) m;
  from = λ x m. absurd m;
}
