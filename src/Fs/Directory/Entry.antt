-- ===== src/Fs/Directory/Entry.antt =====
-- directory.c: the bytes of an entry.
use cs.Base.{
  ℕ, zero, suc, ◌+◌, ◌-◌, ◌^◌, ◌≤◌, ◌<◌, ◌≡◌, ◌≢◌, refl, ap, ◌∙◌, Bool, true, false, ◌&&◌, some,
  List, [], ◌∷◌, ◌++◌, ◌==◌, get_or, set, take, drop, min, length, length-append, length-take,
  length-drop, length-set, get_or-append_right, get_or-drop, get_or-set_self, arith,
}
use cs.Fs.Directory.{in_use, inode_sector, text_of, same_text, with_name}

-- No byte of the text is null.
abbrev pub IsName : List ℕ → Type 0
IsName [] = Unit {0}
IsName (c ∷ rest) = (c ≢ 0) × IsName rest

text_of-append : (t rest : List ℕ) → IsName t → text_of (t ++ 0 ∷ rest) ≡ some t
unfolding text_of
text_of-append [] rest n = refl
text_of-append (c ∷ t) rest n =
    let go : (c == 0) ≡ false = (let ne = n.0 in ground arith) in
    rw (go, text_of-append t rest n.1) refl

pub same_text_self : (t : List ℕ) → same_text t t ≡ true
unfolding same_text
same_text_self [] = refl
same_text_self (c ∷ t) =
    let here : (c == c) ≡ true = ground arith in rw (here, same_text_self t) refl

both : (a b : Bool) → (a && b) ≡ true → (a ≡ true) × (b ≡ true)
both true b e = (refl, e)
both false b e = absurd (cc e)

pub same_text-equal : (s t : List ℕ) → same_text s t ≡ true → s ≡ t
unfolding same_text
same_text-equal [] [] e = refl
same_text-equal [] (y ∷ ys) e = absurd (cc e)
same_text-equal (x ∷ xs) [] e = absurd (cc e)
same_text-equal (x ∷ xs) (y ∷ ys) e =
    let (here, later) = both (x == y) (same_text xs ys) e in
    let same : x ≡ y = ground arith in
    ap (λ z. z ∷ xs) same ∙ ap (λ l. y ∷ l) (same_text-equal xs ys later)

take_all : (n : ℕ) (xs : List ℕ) → length xs ≤ n → take n xs ≡ xs
take_all zero [] le = refl
take_all zero (x ∷ xs) le = absurd (omega (arith, le))
take_all (suc n) [] le = refl
take_all (suc n) (x ∷ xs) le = ap (λ l. x ∷ l) (take_all n xs (omega (arith, le)))

-- What an entry that `dir_add` writes reads as.
pub record Entry (e : List ℕ) (sector : ℕ) (name : List ℕ) : Type 0 where
  pub full : length e ≡ 20
  pub used : in_use e ≡ true
  pub named : text_of (drop 4 e) ≡ some name
  pub at : inode_sector e ≡ sector

pub with_name-Entry :
    (e : List ℕ) (sector : ℕ) (name : List ℕ)
    → length e ≡ 20
    → sector < 2 ^ 32
    → IsName name
    → length name ≤ 14
    → Entry (with_name e sector name) sector name
unfolding with_name
with_name-Entry e sector name full lt n short =
    let m = min (length name) 14 in
    let exact : m ≡ length name = omega (arith, short) in
    let used = set e 19 1 in
    let back = drop (5 + m) used in
    let front : take m name ≡ name = take_all m name (omega (arith, exact)) in
    let lb : length back ≡ 15 - m =
      omega (arith, length-drop (5 + m) used, length-set e 19 1, full) in
    let lt' : length (take m name) ≡ m = omega (arith, length-take m name, exact) in
    let byte : get_or (take m name ++ 0 ∷ back) 15 0 ≡ 1 =
      get_or-append_right (take m name) (0 ∷ back) 15 (suc (14 - m)) 0
        (omega (arith, lt', exact, short))
      ∙ get_or-drop (5 + m) used (14 - m) 19 0 (omega (arith, exact, short))
      ∙ get_or-set_self e 19 1 0 (omega (arith, full)) in
    record {
      full =
          omega
            (arith, length-append (take m name) (0 ∷ back), length-take m name, lb, exact, short);
      used = rw byte refl;
      named = rw front (text_of-append name back n);
      at = omega (arith, lt);
    }
