-- ===== src/Kernel/Hash/Find.antt =====
-- hash.c, `find_elem`: the equal element of a table is found.
use Prim.Native.Nat.{bit_and}
use cs.Base.{
  ℕ, ◌≡◌, refl, sym, ap, ◌∙◌, subst, ◌⊎◌, inl, inr, true, false, Bool-cases, Option, none, some,
  List, [], ◌∷◌, get_or, In,
}
use cs.Kernel.Hash.{Hasher, down, home, same, find_elem}
use cs.Kernel.Hash.Buckets.{IsHasher, Has}

find_elem_lem :
    (h : Hasher) (l : List ℕ) (q : ℕ)
    → ((find_elem h l q ≡ none) × ((x : ℕ) → In x l → same h x q ≡ false))
      ⊎ ((x : ℕ) × (find_elem h l q ≡ some x) × In x l × (same h x q ≡ true))
unfolding find_elem
find_elem_lem h [] q = inl (refl, λ x i. absurd i)
find_elem_lem h (y ∷ ys) q = elim (Bool-cases (same h y q)) [
  | inl hit ↦ inr (y, rw hit refl, inl refl, hit)
  | inr miss ↦ elim (find_elem_lem h ys q) [
    | inl (e, out) ↦ inl (
      rw miss e,
      λ x i. elim i [ inl z ↦ ap (λ w. same h w q) z ∙ miss | inr later ↦ out x later ],
    )
    | inr (x, e, i, hit) ↦ inr (x, rw miss e, inr i, hit)
  ]
]

-- What a table of the set S finds for an element: the equal one, or that there is none.
abbrev pub Finds : Hasher → (ℕ → Type 0) → ℕ → Option ℕ → Type 0
Finds h S q none = (x : ℕ) → S x → same h x q ≡ false
Finds h S q (some x) = S x × (same h x q ≡ true)

pub find_elem-Finds :
    (h : Hasher) (n k q : ℕ) (S : ℕ → Type 0) (bs : List (List ℕ))
    → IsHasher h
    → Has h n k S bs
    → Finds h S q (find_elem h (get_or bs (home h n q) []) q)
find_elem-Finds h n k q S bs ok t = elim (find_elem_lem h (get_or bs (home h n q) []) q) [
  | inl (e, out) ↦ subst (Finds h S q) (sym e) (λ x s. elim (Bool-cases (same h x q)) [
    | inr miss ↦ miss
    | inl hit ↦
        let at : home h n x ≡ home h n q = ap (λ a. bit_and a (down n)) (ok.hash_same x q hit) in
        out x (subst (λ i. In x (get_or bs i [])) at (t.from x s))
  ])
  | inr (x, e, i, hit) ↦
      subst (Finds h S q) (sym e)
        (t.into x (subst (λ j. In x (get_or bs j [])) (sym (t.homes (home h n q) x i)) i), hit)
]
