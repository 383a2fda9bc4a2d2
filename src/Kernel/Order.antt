-- ===== src/Kernel/Order.antt =====
-- fs_PintOS/lib/kernel/list.c, the operations on ordered lists. A list is the sequence of its
-- elements from head to tail, a pair of element pointers the elements from the one to before the
-- other. `none` is a failed ASSERT, or fuel that ran out.
pub mod Insert
pub mod Runs
pub mod Sort
use cs.Base.{
  ℕ, zero, suc, ◌+◌, Bool, true, false, Option, none, some, List, [], ◌∷◌, ◌++◌, length, ltb,
  if◌then◌else◌, ◌>>=◌, ◌>>◌, assert,
}

module _ {ℓ} {A : Type ℓ} (less : A → A → Bool) where
  -- The list and then the element, as in C.
  pub insert_ordered : List A → A → List A
  insert_ordered [] elem' = elem' ∷ []
  insert_ordered (e ∷ es) elem' =
      let rest = insert_ordered es elem' in if less elem' e then elem' ∷ e ∷ es else e ∷ rest

  -- The loop of `is_sorted` after element a.
  abbrev pub sorted_from : A → List A → Bool
  sorted_from a [] = true
  sorted_from a (b ∷ rest) = let more = sorted_from b rest in if less b a then false else more

  abbrev pub is_sorted : List A → Bool
  is_sorted [] = true
  is_sorted (a ∷ rest) = sorted_from a rest

  -- The run that starts with a: its later elements, and those from its end on.
  pub find_end_of_run : A → List A → List A × List A
  find_end_of_run a [] = ([], [])
  find_end_of_run a (b ∷ rest) =
      let more = find_end_of_run b rest in if less b a then ([], b ∷ rest) else (b ∷ more.0, more.1)

  -- The loop of `inplace_merge` while the first run starts with a: elements of the second run move
  -- in front of it, and `rest` is the loop after a.
  abbrev pub merge_before : (List A → List A) → A → List A → List A → List A
  merge_before rest a as' [] = a ∷ as'
  merge_before rest a as' (b ∷ bs) =
      let moved = merge_before rest a as' bs in if less b a then b ∷ moved else a ∷ rest (b ∷ bs)

  abbrev pub merge : List A → List A → List A
  merge [] bs = bs
  merge (a ∷ as') bs = merge_before (merge as') a as' bs

  pub inplace_merge : List A → List A → Option (List A)
  inplace_merge as' bs = do assert (is_sorted as'); assert (is_sorted bs); some (merge as' bs)

  -- One pass over the list: the number of runs that come out, and the list then. Each round takes
  -- at least one element, so the length is enough fuel.
  pub pass : ℕ → List A → Option (ℕ × List A)
  pass fuel [] = some (0, [])
  pass zero (a ∷ rest) = none
  pass (suc fuel) (a ∷ rest) =
      let first = find_end_of_run a rest in
      elim first.1 [
        | [] ↦ some (1, a ∷ first.0)
        | b ∷ rest' ↦
            let second = find_end_of_run b rest' in
            do
              merged ← inplace_merge (a ∷ first.0) (b ∷ second.0)
              (output_run_cnt, out) ← pass fuel second.1
              some (suc output_run_cnt, merged ++ out)
      ]

  -- The passes, until one run is left.
  pub passes : ℕ → List A → Option (List A)
  passes zero list = none
  passes (suc fuel) list = do
    (output_run_cnt, out) ← pass (length list) list
    let again = passes fuel out
    if ltb 1 output_run_cnt then again else (do assert (is_sorted out); some out)

  -- Each pass but the last leaves fewer runs than there were, so one round for each element and
  -- one more are enough.
  pub list_sort : List A → Option (List A)
  unfolding passes pass inplace_merge
  list_sort list = passes (length list + 1) list

  -- The loop of `list_unique` at elem, with the list of duplicates so far.
  pub unique_from : A → List A → List A → List A × List A
  unique_from elem' [] duplicates = (elem' ∷ [], duplicates)
  unique_from elem' (next ∷ rest) duplicates =
      let dropped = unique_from elem' rest (duplicates ++ next ∷ []) in
      let kept = unique_from next rest duplicates in
      if less elem' next
      then (elem' ∷ kept.0, kept.1)
      else if less next elem'
      then (elem' ∷ kept.0, kept.1)
      else dropped

  pub list_unique : List A → List A → List A × List A
  list_unique [] duplicates = ([], duplicates)
  list_unique (elem' ∷ rest) duplicates = unique_from elem' rest duplicates
