-- ===== src/Kernel/Hash/Unlink.antt =====
-- hash.c, `remove_elem`: an element leaves the table.
use native.Mathlib.Decide.{ℕ_discrete}
use cs.Base.{
  ℕ, zero, suc, ◌+◌, ◌^◌, ◌<◌, ◌≡◌, ◌≢◌, refl, sym, ap, ◌∙◌, subst, inl, inr, true, false, List, [],
  ◌∷◌, map, ◌==◌, get_or, set, length, In, arith,
}
use cs.Kernel.Hash.{Hasher, home, same, unlink}
use cs.Kernel.Hash.Count.{home-lt}
use cs.Kernel.Hash.Buckets.{IsHasher, Apart, Has, set-Has}

unlink_none : (e : ℕ) (l : List ℕ) → ¬ In e l → unlink e l ≡ l
unfolding unlink
unlink_none e [] out = refl
unlink_none e (x ∷ xs) out =
    let ne : x ≢ e = λ z. out (inl (sym z)) in
    let other : (x == e) ≡ false = ground arith in
    rw other (ap (λ l. x ∷ l) (unlink_none e xs (λ i. out (inr i))))

-- Elements that are not equal are not the same.
Apart-out :
    (h : Hasher)
    → IsHasher h
    → (x : ℕ) (xs : List ℕ) → ((y : ℕ) → In y xs → same h x y ≡ false)
    → ¬ In x xs
Apart-out h ok x xs d i = absurd (cc (d x i, ok.same_refl x))

-- What remains of a bucket without e.
pub record Without (h : Hasher) (e : ℕ) (l l' : List ℕ) : Type 0 where
  pub shorter : length l' + 1 ≡ length l
  pub different : Apart h l'
  pub kept : (x : ℕ) → In x l' → In x l × (x ≢ e)
  pub others : (x : ℕ) → In x l → x ≢ e → In x l'

unlink-Without :
    (h : Hasher) (e : ℕ) (l : List ℕ) → IsHasher h → Apart h l → In e l → Without h e l (unlink e l)
unfolding unlink
unlink-Without h e [] ok d i = absurd i
unlink-Without h e (x ∷ xs) ok d i = elim (ℕ_discrete x e) [
  | yes z ↦
      let here : (x == e) ≡ true = ground arith in
      rw here (record {
        shorter = omega arith;
        different = d.1;
        kept = λ y m. (inr m, λ w. Apart-out h ok x xs d.0 (subst (λ v. In v xs) (w ∙ sym z) m));
        others = λ y m ne. elim m [ inl w ↦ absurd (ne (w ∙ z)) | inr later ↦ later ];
      })
  | no ne ↦
      let there : (x == e) ≡ false = ground arith in
      let later : In e xs = elim i [ inl z ↦ absurd (ne (sym z)) | inr m ↦ m ] in
      let w = unlink-Without h e xs ok d.1 later in
      rw there (record {
        shorter = omega (arith, w.shorter);
        different = ((λ y m. d.0 y (w.kept y m).0), w.different);
        kept = λ y m. elim m [
          | inl z ↦ (inl z, λ v. ne (sym z ∙ v))
          | inr m' ↦ (inr (w.kept y m').0, (w.kept y m').1)
        ];
        others = λ y m out. elim m [ inl z ↦ inl z | inr m' ↦ inr (w.others y m' out) ];
      })
]

unlink_nowhere :
    (e : ℕ) (bs : List (List ℕ)) → ((i : ℕ) → ¬ In e (get_or bs i [])) → map (unlink e) bs ≡ bs
unlink_nowhere e [] out = refl
unlink_nowhere e (b ∷ bs) out =
    ap (λ l. l ∷ map (unlink e) bs) (unlink_none e b (out 0))
    ∙ ap (λ l. b ∷ l) (unlink_nowhere e bs (λ i. out (suc i)))

-- An element that is in one bucket only is unlinked from that one.
unlink_one :
    (e : ℕ) (bs : List (List ℕ)) (j : ℕ)
    → ((i : ℕ) → i ≢ j → ¬ In e (get_or bs i []))
    → map (unlink e) bs ≡ set bs j (unlink e (get_or bs j []))
unlink_one e [] j out = refl
unlink_one e (b ∷ bs) zero out =
    ap (λ l. unlink e b ∷ l) (unlink_nowhere e bs (λ i. out (suc i) (λ z. omega (arith, z))))
unlink_one e (b ∷ bs) (suc j) out =
    ap (λ l. l ∷ map (unlink e) bs) (unlink_none e b (out 0 (λ z. omega (arith, z))))
    ∙ ap (λ l. b ∷ l) (unlink_one e bs j (λ i ne. out (suc i) (λ z. ne (omega (arith, z)))))

-- `remove_elem` of an element of the table.
pub unlink-Has :
    (h : Hasher) (n k e : ℕ) (S : ℕ → Type 0) (bs : List (List ℕ))
    → IsHasher h
    → Has h n (k + 1) S bs
    → 0 < n
    → n < 2 ^ 32
    → S e
    → Has h n k (λ x. S x × (x ≢ e)) (map (unlink e) bs)
unlink-Has h n k e S bs ok t pos small s =
    let j = home h n e in
    let old = get_or bs j [] in
    let w = unlink-Without h e old ok (t.apart j) (t.from e s) in
    subst (Has h n k (λ x. S x × (x ≢ e)))
      (sym (unlink_one e bs j (λ i ne m. ne (sym (t.homes i e m)))))
      (set-Has h n (k + 1) k j S (λ x. S x × (x ≢ e)) bs (unlink e old) t (home-lt h n e pos small)
        (omega (arith, w.shorter)) (λ x i. t.homes j x (w.kept x i).0) w.different
        (λ x i. (
          t.into x (
              subst (λ l. In x (get_or bs l [])) (sym (t.homes j x (w.kept x i).0)) (w.kept x i).0),
          (w.kept x i).1,
        ))
        (λ x ne m. (m, λ z. ne (ap (home h n) z)))
        (λ x at m. w.others x (subst (λ l. In x (get_or bs l [])) at (t.from x m.0)) m.1)
        (λ x ne m. m.0))
