-- ===== src/Libc/Block/Compare.antt =====
-- string.c: comparing two blocks.
use native.Mathlib.Decide.{ℕ_discrete, dec_lt}
use cs.Base.{
  ℕ, zero, suc, ◌+◌, ◌<◌, ◌≤◌, ◌≡◌, refl, ap, ◌∙◌, ◌⊎◌, inl, inr, false, true, some, List, ltb,
  ◌==◌, get_or, length, arith,
}
use cs.Libc.Memory.{load_lem}
use cs.Libc.Block.{Sign, below, same, above, memcmp}

-- The blocks at a and b hold the same bytes.
abbrev pub Matches : List ℕ → ℕ → ℕ → ℕ → Type 0
Matches m a b size = (i : ℕ) → i < size → get_or m (a + i) 0 ≡ get_or m (b + i) 0

abbrev pub Orders : Sign → ℕ → ℕ → Type 0
Orders below x y = x < y
Orders same x y = ⊥
Orders above x y = y < x

-- The blocks differ, at first where the answer says how.
pub record Differs (m : List ℕ) (a b size : ℕ) (r : Sign) : Type 0 where
  pub at : ℕ
  pub inside : at < size
  pub common : Matches m a b at
  pub order : Orders r (get_or m (a + at) 0) (get_or m (b + at) 0)

abbrev pub Compares : List ℕ → ℕ → ℕ → ℕ → Type 0
Compares m a b size =
    ((memcmp m a b size ≡ some same) × Matches m a b size)
    ⊎ ((r : Sign) × (memcmp m a b size ≡ some r) × Differs m a b size r)

place : (m : List ℕ) (p q : ℕ) → p ≡ q → get_or m p 0 ≡ get_or m q 0
place m p q e = ap (λ k. get_or m k 0) e

Matches-cons :
    (m : List ℕ) (a b size : ℕ)
    → get_or m a 0 ≡ get_or m b 0
    → Matches m (a + 1) (b + 1) size
    → Matches m a b (suc size)
Matches-cons m a b size e h zero lt =
    place m (a + 0) a (omega arith) ∙ e ∙ place m b (b + 0) (omega arith)
Matches-cons m a b size e h (suc i) lt =
    place m (a + suc i) (a + 1 + i) (omega arith)
    ∙ h i (omega arith)
    ∙ place m (b + 1 + i) (b + suc i) (omega arith)

Differs-now :
    (m : List ℕ) (a b size : ℕ) (r : Sign)
    → Orders r (get_or m a 0) (get_or m b 0)
    → Differs m a b (suc size) r
Differs-now m a b size r h =
    let ea : a + 0 ≡ a = omega arith in
    let eb : b + 0 ≡ b = omega arith in
    record {
      at = 0;
      inside = omega arith;
      common = λ i lt. absurd (omega arith);
      order = rw (ea, eb) h;
    }

Differs-later :
    (m : List ℕ) (a b size : ℕ) (r : Sign)
    → get_or m a 0 ≡ get_or m b 0
    → Differs m (a + 1) (b + 1) size r
    → Differs m a b (suc size) r
Differs-later m a b size r e d =
    let ea : a + suc d.at ≡ a + 1 + d.at = omega arith in
    let eb : b + suc d.at ≡ b + 1 + d.at = omega arith in
    record {
      at = suc d.at;
      inside = omega (arith, d.inside);
      common = Matches-cons m a b d.at e d.common;
      order = rw (ea, eb) d.order;
    }

-- `memcmp` of two blocks in the memory answers that they are the same exactly when they hold the
-- same bytes; else it answers below or above, as the first bytes that differ stand.
pub memcmp-Compares :
    (m : List ℕ) (a b size : ℕ) → a + size ≤ length m → b + size ≤ length m → Compares m a b size
unfolding memcmp
memcmp-Compares m a b zero ha hb = inl (refl, λ i lt. absurd (omega arith))
memcmp-Compares m a b (suc size) ha hb =
    let la = load_lem m a (omega arith) in
    let lb = load_lem m b (omega arith) in
    elim (ℕ_discrete (get_or m a 0) (get_or m b 0)) [
      | yes e ↦
          let goes : (get_or m a 0 == get_or m b 0) ≡ true = ground arith in
          elim (memcmp-Compares m (a + 1) (b + 1) size (omega arith) (omega arith)) [
            | inl (er, h) ↦ inl (rw (la, lb, goes) er, Matches-cons m a b size e h)
            | inr (r, er, d) ↦ inr (r, rw (la, lb, goes) er, Differs-later m a b size r e d)
          ]
      | no ne ↦
          let stops : (get_or m a 0 == get_or m b 0) ≡ false = ground arith in
          elim (dec_lt (get_or m b 0) (get_or m a 0)) [
            | yes higher ↦
                let up : ltb (get_or m b 0) (get_or m a 0) ≡ true = ground arith in
                inr (above, rw (la, lb, stops, up) refl, Differs-now m a b size above higher)
            | no lower ↦
                let down : ltb (get_or m b 0) (get_or m a 0) ≡ false = ground arith in
                inr
                  (below, rw (la, lb, stops, down) refl, Differs-now m a b size below (omega arith))
          ]
    ]

-- Blocks that differ do not match.
pub Differs-Matches :
    (m : List ℕ) (a b size : ℕ) (r : Sign) → Differs m a b size r → ¬ Matches m a b size
Differs-Matches m a b size r d h = apart r d.order (h d.at d.inside)
  where
    apart : (r : Sign) {x y : ℕ} → Orders r x y → x ≡ y → ⊥
    apart below lt e = omega (arith, e)
    apart same h e = h
    apart above lt e = omega (arith, e)
