-- ===== src/Kernel/Order/Sort.antt =====
-- list.c, `list_sort`: it ends, and the list is in order and has the elements that it had.
use mathlib.Core.List.{Permᴰ, append_assoc}
use mathlib.Core.List.Permᴰ
use cs.Base.{
  ◌⊎◌, ℕ, zero, suc, ◌+◌, ◌≤◌, ◌<◌, ◌≡◌, refl, sym, ap, ◌∙◌, subst, Bool, true, false, List, [],
  ◌∷◌, ◌++◌, length, length-append, Bool-cases, inl, inr, arith, some, ltb,
}
use native.Mathlib.Decide.{dec_lt}
use cs.Kernel.Order.{find_end_of_run, merge_before, merge, inplace_merge, pass, passes, list_sort}
use cs.Kernel.Order.Runs.{
  Chain, Sorted, is_sorted-Sorted, runs, runs-Sorted, Sorted-runs, runs-append, runs-length,
  RunEnds, find_end_of_run-RunEnds,
}

-- The comparison is asymmetric: of two elements at most one is less than the other.
abbrev pub IsAsym {ℓ} : {A : Type ℓ} → (A → A → Bool) → Type ℓ
IsAsym {A = A} less = (a b : A) → less a b ≡ true → less b a ≡ false

module _ {ℓ} {A : Type ℓ} (less : A → A → Bool) where
  -- What sorting means: the elements as before, and in order.
  pub record IsSortedOf (list out : List A) : Type ℓ where
    pub in_order : Sorted less out
    pub same_elements : Permᴰ out list

module _ {ℓ} {A : Type ℓ} (less : A → A → Bool) (asym : IsAsym less) where
  merge_before-Chain :
      (rest : List A → List A) (a : A) (as' : List A)
      → Chain less a as'
      → ((bs : List A) → Chain less a bs → Chain less a (rest bs))
      → (x : A) (bs : List A) → less a x ≡ false
      → Chain less x bs
      → Chain less x (merge_before less rest a as' bs)
  merge_before-Chain rest a as' ca later x [] h cb = (h, ca)
  merge_before-Chain rest a as' ca later x (b ∷ bs) h cb = elim (Bool-cases (less b a)) [
    | inl down ↦ rw down ((cb.0, merge_before-Chain rest a as' ca later b bs (asym b a down) cb.1))
    | inr up ↦ rw up ((h, later (b ∷ bs) (up, cb.1)))
  ]

  -- Merging two runs that may both follow x.
  merge-Chain :
      (x : A) (as' bs : List A)
      → Chain less x as'
      → Chain less x bs
      → Chain less x (merge less as' bs)
  merge-Chain x [] bs ca cb = cb
  merge-Chain x (a ∷ as') bs ca cb =
      merge_before-Chain (merge less as') a as' ca.1 (λ bs' c. merge-Chain a as' bs' ca.1 c) x bs
        ca.0 cb

  merge-Sorted :
      (a b : A) (as' bs : List A)
      → Chain less a as'
      → Chain less b bs
      → Sorted less (merge less (a ∷ as') (b ∷ bs))
  merge-Sorted a b as' bs ca cb = elim (Bool-cases (less b a)) [
    | inl down ↦ rw down (merge-Chain b (a ∷ as') bs (asym b a down, ca) cb)
    | inr up ↦ rw up (merge-Chain a as' (b ∷ bs) ca (up, cb))
  ]

  merge_before-Perm :
      (rest : List A → List A) (a : A) (as' : List A)
      → ((bs : List A) → Permᴰ (rest bs) (as' ++ bs))
      → (bs : List A) → Permᴰ (merge_before less rest a as' bs) (a ∷ (as' ++ bs))
  merge_before-Perm rest a as' later [] = Permᴰ.symm (Permᴰ.append-nil (a ∷ as'))
  merge_before-Perm rest a as' later (b ∷ bs) = elim (Bool-cases (less b a)) [
    | inl down ↦ rw down (
        Permᴰ.trans (Permᴰ.cons refl (merge_before-Perm rest a as' later bs))
          (Permᴰ.symm (Permᴰ.middle b (a ∷ as') bs)))
    | inr up ↦ rw up (Permᴰ.cons refl (later (b ∷ bs)))
  ]

  merge-Perm : (as' bs : List A) → Permᴰ (merge less as' bs) (as' ++ bs)
  merge-Perm [] bs = Permᴰ.refl bs
  merge-Perm (a ∷ as') bs = merge_before-Perm (merge less as') a as' (merge-Perm as') bs

  -- What a pass makes of a list: c runs come out, at most half as many as there were.
  record Passed (list : List A) (c : ℕ) (out : List A) : Type ℓ where
    few : c + c ≤ runs less list + 1
    left : runs less out ≤ c
    same : Permᴰ out list

  inplace_merge_lem :
      (as' bs : List A)
      → Sorted less as'
      → Sorted less bs
      → inplace_merge less as' bs ≡ some (merge less as' bs)
  unfolding inplace_merge
  inplace_merge_lem as' bs sa sb =
      rw (is_sorted-Sorted less as' sa, is_sorted-Sorted less bs sb) refl

  last_run :
      (a : A) (rest run : List A) → RunEnds less a rest run [] → Passed (a ∷ rest) 1 (a ∷ run)
  last_run a rest run r = record {
    few = omega arith;
    left = Sorted-runs less (a ∷ run) r.rises;
    same =
        Permᴰ.cons refl
          (subst (λ l. Permᴰ run l) (sym r.split) (Permᴰ.symm (Permᴰ.append-nil run)));
  }

  two_runs :
      (a b : A) (rest run1 later1 run2 later2 : List A) (c : ℕ) (out : List A)
      → RunEnds less a rest run1 (b ∷ later1)
      → RunEnds less b later1 run2 later2
      → Passed later2 c out
      → Passed (a ∷ rest) (suc c) (merge less (a ∷ run1) (b ∷ run2) ++ out)
  two_runs a b rest run1 later1 run2 later2 c out r1 r2 p = record {
    few = omega (arith, r1.fewer, r2.fewer, p.few);
    left = omega (
      arith,
      runs-append less merged out,
      p.left,
      Sorted-runs less merged (merge-Sorted a b run1 run2 r1.rises r2.rises),
    );
    same = Permᴰ.trans (Permᴰ.append_right out (merge-Perm (a ∷ run1) (b ∷ run2))) (
        subst (λ l. Permᴰ (((a ∷ run1) ++ (b ∷ run2)) ++ out) (a ∷ l)) (sym whole)
          (subst (λ l. Permᴰ (((a ∷ run1) ++ (b ∷ run2)) ++ out) (a ∷ l))
            (append_assoc run1 (b ∷ run2) later2)
            (Permᴰ.append_left ((a ∷ run1) ++ (b ∷ run2)) p.same)));
  }
    where
      merged : List A
      merged = merge less (a ∷ run1) (b ∷ run2)

      whole : rest ≡ run1 ++ (b ∷ (run2 ++ later2))
      whole = r1.split ∙ ap (λ l. run1 ++ (b ∷ l)) r2.split

  shorter :
      (a : A) (rest run later : List A) → RunEnds less a rest run later → length later ≤ length rest
  shorter a rest run later r = omega (arith, ap length r.split, length-append run later)

  -- The two ways in which a round of a pass goes.
  pass_end :
      (fuel : ℕ) (a : A) (rest : List A)
      → (find_end_of_run less a rest).1 ≡ []
      → pass less (suc fuel) (a ∷ rest) ≡ some (1, a ∷ (find_end_of_run less a rest).0)
  unfolding pass
  pass_end fuel a rest e = rw (pass, e) refl

  pass_step :
      (fuel : ℕ) (a b : A) (rest later merged out : List A) (c : ℕ)
      → (find_end_of_run less a rest).1 ≡ b ∷ later
      → inplace_merge less
          (a ∷ (find_end_of_run less a rest).0)
          (b ∷ (find_end_of_run less b later).0)
        ≡ some merged
      → pass less fuel (find_end_of_run less b later).1 ≡ some (c, out)
      → pass less (suc fuel) (a ∷ rest) ≡ some (suc c, merged ++ out)
  unfolding pass
  pass_step fuel a b rest later merged out c e m p = rw (pass, e, m, p) refl

  -- A pass ends and merges the runs two by two.
  pass-Passed :
      (fuel : ℕ) (list : List A)
      → length list ≤ fuel
      → (c : ℕ) × (out : List A) × (pass less fuel list ≡ some (c, out)) × Passed list c out
  unfolding pass
  pass-Passed zero [] le =
      (0, [], refl, record { few = omega arith; left = omega arith; same = Permᴰ.nil })
  pass-Passed (suc fuel) [] le =
      (0, [], refl, record { few = omega arith; left = omega arith; same = Permᴰ.nil })
  pass-Passed zero (a ∷ rest) le = absurd (omega arith)
  pass-Passed (suc fuel) (a ∷ rest) le =
      let r1 = find_end_of_run-RunEnds less a rest in
      elim (ends (find_end_of_run less a rest).1) [
        | inl e ↦ (
          1,
          a ∷ (find_end_of_run less a rest).0,
          pass_end fuel a rest e,
          last_run a rest (find_end_of_run less a rest).0
              (subst (λ l. RunEnds less a rest (find_end_of_run less a rest).0 l) e r1),
        )
        | inr (b, later, e) ↦
            let run1 = (find_end_of_run less a rest).0 in
            let run2 = (find_end_of_run less b later).0 in
            let later2 = (find_end_of_run less b later).1 in
            let r1' = subst (λ l. RunEnds less a rest run1 l) e r1 in
            let r2 = find_end_of_run-RunEnds less b later in
            let (c, out, e2, p) = pass-Passed fuel later2 (
              omega (arith, shorter a rest run1 (b ∷ later) r1', shorter b later run2 later2 r2)) in
            let merged = inplace_merge_lem (a ∷ run1) (b ∷ run2) r1.rises r2.rises in
            (
              suc c,
              merge less (a ∷ run1) (b ∷ run2) ++ out,
              pass_step fuel a b rest later (merge less (a ∷ run1) (b ∷ run2)) out c e merged e2,
              two_runs a b rest run1 later run2 later2 c out r1' r2 p,
            )
      ]
    where
      ends : (l : List A) → (l ≡ []) ⊎ ((b : A) × (later : List A) × (l ≡ b ∷ later))
      ends [] = inl refl
      ends (b ∷ later) = inr (b, later, refl)

  passes-IsSortedOf :
      (fuel : ℕ) (list : List A)
      → runs less list < fuel
      → (out : List A) × (passes less fuel list ≡ some out) × IsSortedOf less list out
  unfolding passes
  passes-IsSortedOf zero list lt = absurd (omega arith)
  passes-IsSortedOf (suc fuel) list lt =
      let (c, out, e, p) = pass-Passed (length list) list (omega arith) in
      elim (dec_lt 1 c) [
        | yes more ↦
            let again : ltb 1 c ≡ true = ground arith in
            let (final, e', s) = passes-IsSortedOf fuel out (omega (arith, p.few, p.left)) in
            (
              final,
              rw (e, again) e',
              record { in_order = s.in_order; same_elements = Permᴰ.trans s.same_elements p.same },
            )
        | no one ↦
            let stops : ltb 1 c ≡ false = ground arith in
            let sorted = runs-Sorted less out (omega (arith, p.left)) in
            (
              out,
              rw (e, stops, is_sorted-Sorted less out sorted) refl,
              record { in_order = sorted; same_elements = p.same },
            )
      ]

  -- When of two elements at most one is less than the other, `list_sort` ends, no ASSERT in it
  -- fails, and the list has the elements that it had, none less than the one before it.
  pub list_sort-IsSortedOf :
      (list : List A) → (out : List A) × (list_sort less list ≡ some out) × IsSortedOf less list out
  unfolding list_sort
  list_sort-IsSortedOf list =
      passes-IsSortedOf (length list + 1) list (omega (arith, runs-length less list))
