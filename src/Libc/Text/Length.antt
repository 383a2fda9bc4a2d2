-- ===== src/Libc/Text/Length.antt =====
-- string.c: how long a text is.
use cs.Base.{
  ℕ, zero, suc, ◌+◌, ◌<◌, ◌≡◌, ◌≢◌, refl, sym, ap, ◌∙◌, false, some, List, ◌==◌, get_or, length,
  arith,
}
use cs.Libc.Memory.{load_lem}
use cs.Libc.Text.{strlen, strlen_from}

-- A text of n bytes starts at p: its bytes are not null, and the one behind them is.
pub record IsText (m : List ℕ) (p n : ℕ) : Type 0 where
  pub inside : p + n < length m
  pub letters : (i : ℕ) → i < n → get_or m (p + i) 0 ≢ 0
  pub ends : get_or m (p + n) 0 ≡ 0

pub IsText-rest : (m : List ℕ) (p n : ℕ) → IsText m p (suc n) → IsText m (p + 1) n
IsText-rest m p n t = record {
  inside = omega (arith, t.inside);
  letters = λ i h.
      let at : p + 1 + i ≡ p + suc i = omega arith in
      λ e. t.letters (suc i) (omega arith) (sym (ap (λ k. get_or m k 0) at) ∙ e);
  ends = let at : p + 1 + n ≡ p + suc n = omega arith in ap (λ k. get_or m k 0) at ∙ t.ends;
}

pub IsText-first : (m : List ℕ) (p n : ℕ) → IsText m p (suc n) → get_or m p 0 ≢ 0
IsText-first m p n t e =
    let at : p + 0 ≡ p = omega arith in t.letters 0 (omega arith) (ap (λ k. get_or m k 0) at ∙ e)

pub IsText-empty : (m : List ℕ) (p : ℕ) → IsText m p 0 → get_or m p 0 ≡ 0
IsText-empty m p t = let at : p ≡ p + 0 = omega arith in ap (λ k. get_or m k 0) at ∙ t.ends

-- A text that does not start with the null byte has a rest.
pub IsText-next :
    (m : List ℕ) (p n : ℕ)
    → IsText m p n
    → get_or m p 0 ≢ 0
    → (n' : ℕ) × (n ≡ suc n') × IsText m (p + 1) n'
IsText-next m p zero t letter = absurd (letter (IsText-empty m p t))
IsText-next m p (suc n) t letter = (n, refl, IsText-rest m p n t)

strlen_from-IsText :
    (m : List ℕ) (fuel p n : ℕ) → IsText m p n → n < fuel → strlen_from m fuel p ≡ some n
unfolding strlen_from
strlen_from-IsText m zero p n t lt = absurd (omega arith)
strlen_from-IsText m (suc fuel) p zero t lt =
    rw (load_lem m p (omega (arith, t.inside)), IsText-empty m p t) refl
strlen_from-IsText m (suc fuel) p (suc n) t lt =
    let first = IsText-first m p n t in
    let letter : (get_or m p 0 == 0) ≡ false = ground arith in
    rw
      (
        load_lem m p (omega (arith, t.inside)),
        letter,
        strlen_from-IsText m fuel (p + 1) n (IsText-rest m p n t) (omega arith),
      )
      refl

-- `strlen` of a text answers its length.
pub strlen-IsText : (m : List ℕ) (p n : ℕ) → IsText m p n → strlen m p ≡ some n
unfolding strlen
strlen-IsText m p n t = strlen_from-IsText m (length m) p n t (omega (arith, t.inside))
