-- ===== src/Libc/Tests.antt =====
-- The functions of string.c in a small memory: the text "abab" at 0, "ab" at 5, and a buffer of four
-- bytes at 8.
use cs.Base.{
  ℕ, ◌+◌, ◌-◌, ◌≡◌, ◌≢◌, refl, some, List, [], ◌∷◌, ltb, if◌then◌else◌, inr, min, get_or, ◌<◌, zero,
  suc, arith,
}
use cs.Libc.Block.{memmove}
use cs.Libc.Block.Move.{Moved, memmove-Moved}
use cs.Libc.Text.{strlcpy, strstr}
use cs.Libc.Text.Length.{IsText}
use cs.Libc.Text.Copy.{Copied, strlcpy-Copied}
use cs.Libc.Text.Search.{Finds, strstr-Finds}

abbrev memory : List ℕ
memory = 97 ∷ 98 ∷ 97 ∷ 98 ∷ 0 ∷ 97 ∷ 98 ∷ 0 ∷ 1 ∷ 1 ∷ 1 ∷ 1 ∷ []

abab-IsText : IsText memory 0 4
abab-IsText = record { inside = omega arith; letters = letters; ends = refl }
  where
    letters : (i : ℕ) → i < 4 → get_or memory (0 + i) 0 ≢ 0
    letters zero h e = omega (arith, e)
    letters (suc zero) h e = omega (arith, e)
    letters (suc (suc zero)) h e = omega (arith, e)
    letters (suc (suc (suc zero))) h e = omega (arith, e)
    letters (suc (suc (suc (suc i)))) h e = omega arith

ab-IsText : IsText memory 5 2
ab-IsText = record { inside = omega arith; letters = letters; ends = refl }
  where
    letters : (i : ℕ) → i < 2 → get_or memory (5 + i) 0 ≢ 0
    letters zero h e = omega (arith, e)
    letters (suc zero) h e = omega (arith, e)
    letters (suc (suc i)) h e = omega arith

-- The blocks overlap.
memmove-Moved_example :
    (m' : List ℕ) × (memmove memory 1 0 4 ≡ some (if ltb 1 0 then 5 else 1, m'))
    × Moved memory 1 0 4 m'
memmove-Moved_example = memmove-Moved memory 1 0 4 (omega arith) (omega arith)

strlcpy-Copied_example :
    (m' : List ℕ) × (strlcpy memory 8 0 4 ≡ some (4, m')) × Copied memory 8 0 4 (min 4 3) m'
strlcpy-Copied_example = strlcpy-Copied memory 8 0 3 4 abab-IsText (omega arith) (inr (omega arith))

strstr-Finds_example : Finds memory 0 5 2 0 (4 + 1 - 2) (strstr memory 0 5)
strstr-Finds_example = strstr-Finds memory 0 5 4 2 abab-IsText ab-IsText
