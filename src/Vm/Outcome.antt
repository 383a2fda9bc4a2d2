-- ===== src/Vm/Outcome.antt =====
-- Code of vm_PintOS that takes locks: it returns, waits for a lock, or stops the kernel.
use cs.Base.{Option, none, some, ◌≡◌, refl, ap}

pub data Outcome {ℓ} (A : Type ℓ) : Type ℓ where
  returns : A → Outcome A
  waits : Outcome A
  panics : Outcome A

abbrev pub and_then {ℓ κ} : {A : Type ℓ} {B : Type κ} → Outcome A → (A → Outcome B) → Outcome B
and_then (returns a) f = f a
and_then waits f = waits
and_then panics f = panics

-- Code that takes no lock.
abbrev pub lift {ℓ} : {A : Type ℓ} → Option A → Outcome A
lift none = panics
lift (some a) = returns a

-- What returns has returned from its first part.
pub and_then-returns {ℓ κ} :
    {A : Type ℓ} {B : Type κ} (m : Outcome A) (f : A → Outcome B) (b : B)
    → and_then m f ≡ returns b
    → (a : A) × (m ≡ returns a) × (f a ≡ returns b)
and_then-returns (returns a) f b e = (a, refl, e)
and_then-returns waits f b e = absurd (cc e)
and_then-returns panics f b e = absurd (cc e)

pub returns-injective {ℓ} :
    {A : Type ℓ} (a b : A) → ◌≡◌ {A = Outcome A} (returns a) (returns b) → a ≡ b
returns-injective a b e = ap (λ m. elim m [ returns x ↦ x | waits ↦ a | panics ↦ a ]) e
