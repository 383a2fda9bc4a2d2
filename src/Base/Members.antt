-- ===== src/Base/Members.antt =====
-- Membership in a list of numbers, and lists without repetition.
use Prim.Native.Nat.{ℕ}
use mathlib.Core.Path.{◌≡◌, refl, subst}
use mathlib.Core.Logic.{◌⊎◌, inl, inr}
use mathlib.Core.List.{List, [], ◌∷◌, ◌++◌}

abbrev pub In : ℕ → List ℕ → Type 0
In s [] = ⊥
In s (x ∷ xs) = (s ≡ x) ⊎ In s xs

abbrev pub Distinct : List ℕ → Type 0
Distinct [] = Unit {0}
Distinct (x ∷ xs) = ¬ In x xs × Distinct xs

pub In-append : (s : ℕ) (xs ys : List ℕ) → In s (xs ++ ys) → In s xs ⊎ In s ys
In-append s [] ys h = inr h
In-append s (x ∷ xs) ys (inl e) = inl (inl e)
In-append s (x ∷ xs) ys (inr h) = elim (In-append s xs ys h) [ inl a ↦ inl (inr a) | inr b ↦ inr b ]

pub In-append_left : (s : ℕ) (xs ys : List ℕ) → In s xs → In s (xs ++ ys)
In-append_left s [] ys h = absurd h
In-append_left s (x ∷ xs) ys (inl e) = inl e
In-append_left s (x ∷ xs) ys (inr h) = inr (In-append_left s xs ys h)

pub In-append_right : (s : ℕ) (xs ys : List ℕ) → In s ys → In s (xs ++ ys)
In-append_right s [] ys h = h
In-append_right s (x ∷ xs) ys h = inr (In-append_right s xs ys h)

pub Distinct-append :
    (xs ys : List ℕ)
    → Distinct xs
    → Distinct ys
    → ((s : ℕ) → In s xs → In s ys → ⊥)
    → Distinct (xs ++ ys)
Distinct-append [] ys dx dy apart = dy
Distinct-append (x ∷ xs) ys dx dy apart = (
  λ h. elim (In-append x xs ys h) [ inl a ↦ dx.0 a | inr b ↦ apart x (inl refl) b ],
  Distinct-append xs ys dx.1 dy (λ s a b. apart s (inr a) b),
)

pub Distinct-parts :
    (xs ys : List ℕ)
    → Distinct (xs ++ ys)
    → Distinct xs × Distinct ys × ((s : ℕ) → In s xs → In s ys → ⊥)
Distinct-parts [] ys d = (tt, d, λ s h k. h)
Distinct-parts (x ∷ xs) ys d =
    let (dx, dy, apart) = Distinct-parts xs ys d.1 in
    (
      (λ h. d.0 (In-append_left x xs ys h), dx),
      dy,
      λ s h k. elim h [
        | inl e ↦ d.0 (In-append_right x xs ys (subst (λ t. In t ys) e k))
        | inr later ↦ apart s later k
      ],
    )
