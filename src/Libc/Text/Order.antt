-- ===== src/Libc/Text/Order.antt =====
-- string.c: comparing two texts.
use native.Mathlib.Decide.{ℕ_discrete, dec_lt}
use cs.Base.{
  ℕ, zero, suc, ◌+◌, ◌<◌, ◌≡◌, ◌≢◌, refl, sym, ap, ◌∙◌, false, true, not, ◌&&◌, some, List, ltb,
  ◌==◌, get_or, length, arith,
}
use cs.Libc.Memory.{load_lem}
use cs.Libc.Block.{Sign, below, same, above}
use cs.Libc.Text.{strcmp, strcmp_from}
use cs.Libc.Text.Length.{IsText, IsText-next}

-- What the answer says of the first bytes that decide it.
abbrev pub Tells : Sign → ℕ → ℕ → Type 0
Tells below x y = x < y
Tells same x y = (x ≡ 0) × (y ≡ 0)
Tells above x y = y < x

-- Two texts have the first i bytes in common, and the next ones decide.
pub record Decides (m : List ℕ) (a b : ℕ) (r : Sign) : Type 0 where
  pub at : ℕ
  pub common : (j : ℕ) → j < at → get_or m (a + j) 0 ≡ get_or m (b + j) 0
  pub letters : (j : ℕ) → j < at → get_or m (a + j) 0 ≢ 0
  pub tells : Tells r (get_or m (a + at) 0) (get_or m (b + at) 0)

same_place : (m : List ℕ) (p q : ℕ) → p ≡ q → get_or m p 0 ≡ get_or m q 0
same_place m p q e = ap (λ k. get_or m k 0) e

Decides-now :
    (m : List ℕ) (a b : ℕ) (r : Sign) → Tells r (get_or m a 0) (get_or m b 0) → Decides m a b r
Decides-now m a b r h =
    let ea : a + 0 ≡ a = omega arith in
    let eb : b + 0 ≡ b = omega arith in
    record {
      at = 0;
      common = λ j lt. absurd (omega arith);
      letters = λ j lt. absurd (omega arith);
      tells = rw (ea, eb) h;
    }

Decides-later :
    (m : List ℕ) (a b : ℕ) (r : Sign)
    → get_or m a 0 ≡ get_or m b 0
    → get_or m a 0 ≢ 0
    → Decides m (a + 1) (b + 1) r
    → Decides m a b r
Decides-later m a b r e letter d =
    let ea : a + suc d.at ≡ a + 1 + d.at = omega arith in
    let eb : b + suc d.at ≡ b + 1 + d.at = omega arith in
    record { at = suc d.at; common = common; letters = letters; tells = rw (ea, eb) d.tells }
  where
    common : (j : ℕ) → j < suc d.at → get_or m (a + j) 0 ≡ get_or m (b + j) 0
    common zero lt = same_place m (a + 0) a (omega arith) ∙ e ∙ same_place m b (b + 0) (omega arith)
    common (suc j) lt =
        same_place m (a + suc j) (a + 1 + j) (omega arith)
        ∙ d.common j (omega arith)
        ∙ same_place m (b + 1 + j) (b + suc j) (omega arith)

    letters : (j : ℕ) → j < suc d.at → get_or m (a + j) 0 ≢ 0
    letters zero lt z = letter (same_place m a (a + 0) (omega arith) ∙ z)
    letters (suc j) lt z =
        d.letters j (omega arith) (same_place m (a + 1 + j) (a + suc j) (omega arith) ∙ z)

strcmp_from-Decides :
    (m : List ℕ) (fuel a b n k : ℕ)
    → IsText m a n
    → IsText m b k
    → n < fuel
    → (r : Sign) × (strcmp_from m fuel a b ≡ some r) × Decides m a b r
unfolding strcmp_from
strcmp_from-Decides m zero a b n k ta tb lt = absurd (omega arith)
strcmp_from-Decides m (suc fuel) a b n k ta tb lt =
    let la = load_lem m a (omega (arith, ta.inside)) in
    let lb = load_lem m b (omega (arith, tb.inside)) in
    elim (dec_lt (get_or m a 0) (get_or m b 0)) [
      | yes lower ↦
          let stop : (not (get_or m a 0 == 0) && (get_or m a 0 == get_or m b 0)) ≡ false =
            differ (get_or m a 0) (get_or m b 0) (λ e. omega (arith, e)) in
          let here : ltb (get_or m a 0) (get_or m b 0) ≡ true = ground arith in
          (below, rw (la, lb, stop, here) refl, Decides-now m a b below lower)
      | no high ↦ elim (dec_lt (get_or m b 0) (get_or m a 0)) [
        | yes higher ↦
            let stop : (not (get_or m a 0 == 0) && (get_or m a 0 == get_or m b 0)) ≡ false =
              differ (get_or m a 0) (get_or m b 0) (λ e. omega (arith, e)) in
            let here : ltb (get_or m a 0) (get_or m b 0) ≡ false = ground arith in
            let there : ltb (get_or m b 0) (get_or m a 0) ≡ true = ground arith in
            (above, rw (la, lb, stop, here, there) refl, Decides-now m a b above higher)
        | no level ↦
            let e : get_or m a 0 ≡ get_or m b 0 = omega arith in
            let here : ltb (get_or m a 0) (get_or m b 0) ≡ false = ground arith in
            let there : ltb (get_or m b 0) (get_or m a 0) ≡ false = ground arith in
            elim (ℕ_discrete (get_or m a 0) 0) [
              | yes z ↦
                  let stop : (not (get_or m a 0 == 0) && (get_or m a 0 == get_or m b 0)) ≡ false =
                    null (get_or m a 0) (get_or m b 0) z in
                  (same, rw (la, lb, stop, here, there) refl, Decides-now m a b same (z, sym e ∙ z))
              | no letter ↦
                  let goes : (not (get_or m a 0 == 0) && (get_or m a 0 == get_or m b 0)) ≡ true =
                    alike (get_or m a 0) (get_or m b 0) letter e in
                  let (n', en, ta') = IsText-next m a n ta letter in
                  let (k', ek, tb') = IsText-next m b k tb (λ z. letter (e ∙ z)) in
                  let (r, er, d) =
                    strcmp_from-Decides m fuel (a + 1) (b + 1) n' k' ta' tb' (omega (arith, en)) in
                  (r, rw (la, lb, goes) er, Decides-later m a b r e letter d)
            ]
      ]
    ]
  where
    differ : (x y : ℕ) → x ≢ y → (not (x == 0) && (x == y)) ≡ false
    differ x y ne = ground arith

    null : (x y : ℕ) → x ≡ 0 → (not (x == 0) && (x == y)) ≡ false
    null x y z = ground arith

    alike : (x y : ℕ) → x ≢ 0 → x ≡ y → (not (x == 0) && (x == y)) ≡ true
    alike x y letter e = ground arith

-- `strcmp` of two texts ends inside the memory, and its answer is right: the texts have their first
-- bytes in common, none of them null, and then the byte of the first is smaller (below), or that
-- of the second is (above), or both texts end (same).
pub strcmp-Decides :
    (m : List ℕ) (a b n k : ℕ)
    → IsText m a n
    → IsText m b k
    → (r : Sign) × (strcmp m a b ≡ some r) × Decides m a b r
unfolding strcmp
strcmp-Decides m a b n k ta tb =
    strcmp_from-Decides m (length m) a b n k ta tb (omega (arith, ta.inside))
