-- ===== src/Fs/Directory/Tests.antt =====
-- A new directory of 300 bytes, room for fifteen entries, in sector 5 of an empty device.
use native.Mathlib.Decide.{ℕ_discrete}
use cs.Base.{
  ℕ, ◌+◌, ◌*◌, ◌%◌, ◌<◌, ◌≡◌, refl, sym, ap, ◌∙◌, true, false, Option, none, some, some-injective,
  List, [], ◌∷◌, get_or, drop, replicate, length, arith, not, ◌==◌,
}
use cs.Fs.Device.{Device}
use cs.Fs.FreeMap.{Fs}
use cs.Fs.Inode.Access.{read_at, write_at}
use cs.Fs.Inode.Access.Read.{file_byte, read_at-Reads}
use cs.Fs.Inode.Access.Stored.{IsStored-IsReadable}
use cs.Fs.Inode.Access.Sample.{blank, small, no_map, read_five, get_or-zeros, small-IsStored}
use cs.Fs.Inode.Access.Write.{Writes}
use cs.Fs.Inode.Access.Round.{write_at-Writes}
use cs.Fs.Directory.{in_use, text_of, lookup, dir_add, with_name, erase}
use cs.Fs.Directory.Entry.{Entry, with_name-Entry}
use cs.Fs.Directory.Erase.{Erased, erase-Erased}
use cs.Fs.Directory.Slots.{IsDirectory, IsAt, reads_written, reads_elsewhere}
use cs.Fs.Directory.Lookup.{Finds, lookup-Finds}
use cs.Fs.Directory.Add.{IsFree, Added, dir_add-Added}

small_byte : (pos : ℕ) → pos < 300 → file_byte blank.device small.content pos ≡ some 0
unfolding file_byte
small_byte pos lt =
    rw (small-IsStored.found pos lt, read_five) (ap some (get_or-zeros 512 (pos % 512)))

-- No entry is in use.
all_free :
    (i : ℕ) (e : List ℕ)
    → read_at true blank.device small.content 20 (20 * i) ≡ some e
    → length e ≡ 20
    → in_use e ≡ false
all_free i e reads full =
    let readable = IsStored-IsReadable blank.device small.content (λ k. 5) small-IsStored in
    let (bs, same, r) = read_at-Reads blank.device small.content 20 (20 * i) readable in
    let alike : e ≡ bs = some-injective _ _ (sym reads ∙ same) in
    let len : length bs ≡ 20 = sym (ap length alike) ∙ full in
    let last : get_or e 19 0 ≡ 0 =
      ap (λ l. get_or l 19 0) alike
      ∙ some-injective _ _ (
          sym (r.right 19 (omega (arith, len)))
          ∙ small_byte (20 * i + 19) (omega (arith, r.cnt, len))) in
    ap (λ n. not (n == 0)) last

small-IsDirectory : IsDirectory blank.device small.content
small-IsDirectory = record {
  readable = IsStored-IsReadable blank.device small.content (λ k. 5) small-IsStored;
  ends = λ i e reads full used. absurd (cc (used, all_free i e reads full));
}

lookup-Finds_example :
    (r : Option (List ℕ × ℕ)) × (lookup true blank.device small.content (97 ∷ []) ≡ some r)
    × Finds blank.device small.content (97 ∷ []) 0 r
lookup-Finds_example = lookup-Finds blank.device small.content (97 ∷ []) small-IsDirectory

nobody : lookup true blank.device small.content (97 ∷ []) ≡ some none
nobody = let (r, found, f) = lookup-Finds_example in found ∙ ap some (is_none r f)
  where
    is_none : (r : Option (List ℕ × ℕ)) → Finds blank.device small.content (97 ∷ []) 0 r → r ≡ none
    is_none none f = refl
    is_none (some (e, ofs)) (k, _, _, a, _) = absurd (cc (a.used, all_free k e a.reads a.full))

first-IsFree : IsFree blank.device small.content 0
first-IsFree =
    let (bs, reads, r) = read_at-Reads blank.device small.content 20 0 small-IsDirectory.readable in
    let full : length bs ≡ 20 = omega (arith, r.cnt) in
    record { entry = bs; reads = reads; full = full; free = all_free 0 bs reads full }

-- The file "a" in sector 9.
dir_add-Added_example :
    (fs' : Fs) × (dir_add no_map true (replicate 20 0) small (97 ∷ []) 9 blank
      ≡ some (true, small, fs'))
    × Added blank.device fs'.device small.content (97 ∷ []) 9
dir_add-Added_example =
    dir_add-Added no_map small (λ k. 5) (replicate 20 0) (97 ∷ []) 9 0 blank small-IsStored
      small-IsDirectory refl ((λ e. omega (arith, e)), tt) (omega arith) (omega arith) (omega arith)
      refl nobody first-IsFree

-- The same directory with the file "a" in sector 9 as its first entry.
abbrev entry_a : List ℕ
entry_a = with_name (replicate 20 0) 9 (97 ∷ [])

entry_a-Entry : Entry entry_a 9 (97 ∷ [])
entry_a-Entry =
    with_name-Entry (replicate 20 0) 9 (97 ∷ []) refl (omega arith) ((λ e. omega (arith, e)), tt)
      (omega arith)

filled :
    (d' : Device) × (write_at no_map true small entry_a 20 0 blank
      ≡ some (20, small, record blank { device = d' }))
    × Writes small.content (λ k. 5) 20 0 entry_a blank.device d'
filled =
    write_at-Writes no_map small (λ k. 5) 20 0 entry_a blank small-IsStored refl (omega arith)
      (omega arith) (omega (arith, entry_a-Entry.full))

abbrev one_file : Fs
one_file = record blank { device = filled.0 }

a_at : IsAt one_file.device small.content (97 ∷ []) 0 entry_a
a_at = record {
  reads =
      reads_written blank.device filled.0 small.content (λ k. 5) 0 entry_a filled.2
        entry_a-Entry.full (omega arith);
  full = entry_a-Entry.full;
  used = entry_a-Entry.used;
  named = entry_a-Entry.named;
}

first_only :
    (j : ℕ) (e : List ℕ)
    → read_at true one_file.device small.content 20 (20 * j) ≡ some e
    → length e ≡ 20
    → in_use e ≡ true
    → j ≡ 0
first_only j e reads full used = elim (ℕ_discrete j 0) [
  | yes same ↦ same
  | no other ↦
      let before =
        reads_elsewhere blank.device filled.0 small.content (λ k. 5) 0 j entry_a
          small-IsDirectory.readable filled.2 other in
      absurd (cc (used, all_free j e (sym before ∙ reads) full))
]

one_file-IsDirectory : IsDirectory one_file.device small.content
one_file-IsDirectory = record {
  readable = IsStored-IsReadable one_file.device small.content (λ k. 5) filled.2.stored;
  ends = λ i e reads full used. (
    97 ∷ [],
    ap (λ x. text_of (drop 4 x))
          (some-injective _ _ (
            sym reads
            ∙ ap (λ j. read_at true one_file.device small.content 20 (20 * j))
                (first_only i e reads full used)
            ∙ a_at.reads))
        ∙ a_at.named,
  );
}

erase-Erased_example :
    (lookup true one_file.device small.content (97 ∷ []) ≡ some (some (entry_a, 20 * 0)))
    × (fs' : Fs) × (erase no_map true small entry_a (20 * 0) one_file ≡ some (true, small, fs'))
    × Erased one_file.device fs'.device small.content (97 ∷ [])
erase-Erased_example =
    erase-Erased no_map small (λ k. 5) (97 ∷ []) entry_a 0 one_file filled.2.stored
      one_file-IsDirectory refl a_at (λ j e' b. first_only j e' b.reads b.full b.used)
