-- ===== src/Libc/Search.antt =====
-- fs_PintOS/lib/stdlib.c, `binary_search`: an array is the sequence of its elements, and a pointer
-- into it the index of an element. `none` is a read outside the array, or a lack of fuel.
pub mod Half
mod Tests
use cs.Base.{
  ℕ, zero, suc, ◌+◌, ◌-◌, ◌/◌, Bool, true, false, Option, none, some, List, ltb, if◌then◌else◌,
  get_elem?, length, ◌>>=◌,
}
use cs.Libc.Block.{Sign, below, same, above}

module _ {ℓ} {A : Type ℓ} (compare : A → A → Sign) (key : A) (array : List A) where
  -- The loop: the element from `first` to `last` that is the same as the key, if any.
  pub search_from : ℕ → ℕ → ℕ → Option (Option ℕ)
  search_from zero first last = none
  search_from (suc fuel) first last =
      let middle = first + (last - first) / 2 in
      elim (ltb first last) [
        | false ↦ some none
        | true ↦ do
          element ← get_elem? array middle
          elim (compare key element) [
            | below ↦ search_from fuel first middle
            | above ↦ search_from fuel (middle + 1) last
            | same ↦ some (some middle)
          ]
      ]

  pub binary_search : Option (Option ℕ)
  unfolding search_from
  binary_search = search_from (length array + 1) 0 (length array)
