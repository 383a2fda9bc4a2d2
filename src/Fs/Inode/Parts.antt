-- ===== src/Fs/Inode/Parts.antt =====
-- inode.c, `inode_create`: the first-level and the second-level part of a new file.
use native.Mathlib.Decide.{ℕ_discrete}
use cs.Base.{
  ℕ, zero, suc, ◌+◌, ◌-◌, ◌*◌, ◌/◌, ◌%◌, ◌≤◌, ◌<◌, ◌≡◌, ◌≢◌, refl, inl, inr, ◌∙◌, sym, subst, Bool,
  some, List, [], ◌∷◌, min, get_or, length, arith,
}
use cs.Fs.Device.{Device, Block, pointers, put, block_write-put, block_read, no_pointers}
use cs.Fs.FreeMap.{Fs, MapFile}
use cs.Fs.FreeMap.Grows.{
  In, IsMounted, Grows, Persists, free_cnt, Grows-put, Grows-trans, Grows-old,
}
use cs.Fs.FreeMap.Laid.{Laid, Laid-nothing}
use cs.Fs.Inode.{read_pointers, create_first, create_second}
use cs.Fs.Inode.Table.{write_at, get_or-write_at, add_block-Grows}
use cs.Fs.Inode.Indirect.{IndexBlock, Entry, add_indirect-Laid, fill_doubly-Laid}

-- Data block loc of the second-level part, found through the second-level block r and a table
-- block, both among the sectors taken.
abbrev pub DoublyEntry : Device → List ℕ → ℕ → List ℕ → ℕ → Type 0
DoublyEntry d taken r ds loc =
    (t2 : List ℕ) × (t1 : List ℕ) × In r taken
    × In (get_or t2 (loc / 128) 0) taken
    × (read_pointers d r ≡ some t2)
    × (read_pointers d (get_or t2 (loc / 128) 0) ≡ some t1)
    × (get_or t1 (loc % 128) 0 ≡ get_or ds loc 0)

get_or-In : (xs : List ℕ) (i : ℕ) → i < length xs → In (get_or xs i 0) xs
get_or-In [] i h = absurd (omega arith)
get_or-In (x ∷ xs) zero h = inl refl
get_or-In (x ∷ xs) (suc i) h = inr (get_or-In xs i (omega arith))

pub read_pointers-put_ne :
    (d : Device) (s t : ℕ) (b : Block) → s ≢ t → read_pointers (put d s b) t ≡ read_pointers d t
unfolding read_pointers block_read
read_pointers-put_ne d s t b ne = ground arith

read_pointers-put :
    (d : Device) (s : ℕ) (p : List ℕ) → s < d.size → read_pointers (put d s (pointers p)) s ≡ some p
unfolding read_pointers block_read
read_pointers-put d s p h = ground arith

-- Writing the second-level table to its sector r, which is none of the tables that it lists.
DoublyEntry-put :
    (d : Device) (r : ℕ) (taken ss ds : List ℕ) (loc : ℕ)
    → r < d.size
    → ¬ In r taken
    → ((x : ℕ) → In x ss → In x taken)
    → length ss ≤ 128
    → loc / 128 < length ss
    → Entry d ss ds loc
    → DoublyEntry (put d r (pointers (write_at no_pointers 0 ss))) (r ∷ taken) r ds loc
DoublyEntry-put d r taken ss ds loc lt apart tables fit inside (t, readable, entry) =
    let table = write_at no_pointers 0 ss in
    let same : get_or table (loc / 128) 0 ≡ get_or ss (loc / 128) 0 =
      get_or-write_at no_pointers 0 ss (loc / 128) (loc / 128) inside (omega arith) (omega arith) in
    let ne : r ≢ get_or ss (loc / 128) 0 =
      λ e. apart (subst (λ k. In k taken) (sym e) (tables _ (get_or-In ss (loc / 128) inside))) in
    (
      table,
      t,
      inl refl,
      inr (subst (λ k. In k taken) (sym same) (tables _ (get_or-In ss (loc / 128) inside))),
      read_pointers-put d r table lt,
      rw same (read_pointers-put_ne d r _ (pointers table) ne ∙ readable),
      entry,
    )

-- A write to any other sector leaves it so.
pub DoublyEntry-put_other :
    (d : Device) (x : ℕ) (b : Block) (taken : List ℕ) (r : ℕ) (ds : List ℕ) (loc : ℕ)
    → ¬ In x taken
    → DoublyEntry d taken r ds loc
    → DoublyEntry (put d x b) taken r ds loc
DoublyEntry-put_other d x b taken r ds loc apart (t2, t1, in_r, in_t, e2, e1, e) =
    let ne : (y : ℕ) → In y taken → x ≢ y = λ y h q. apart (subst (λ k. In k taken) (sym q) h) in
    (
      t2,
      t1,
      in_r,
      in_t,
      read_pointers-put_ne d x r b (ne _ in_r) ∙ e2,
      read_pointers-put_ne d x _ b (ne _ in_t) ∙ e1,
      e,
    )

-- The sectors that each part takes: its blocks, and the blocks of numbers for them.
abbrev pub first_need : ℕ → ℕ
first_need zero = 0
first_need (suc k) = 1 + min 128 (suc k)

abbrev pub second_need : ℕ → ℕ
second_need zero = 0
second_need (suc k) = 1 + (suc k + (suc k + 127) / 128)

module _ (own : ℕ → Bool) where
  -- The second-level block: its sector r, then its tables and their blocks, then the table of
  -- tables written to r.
  second_step :
      (fs fs1 fs2 : Fs) (r : ℕ) (taken ss ds : List ℕ)
      → IsMounted own fs
      → Grows own fs (r ∷ []) fs1
      → Laid own fs1 taken ds fs2
      → ((x : ℕ) → In x ss → In x taken)
      → length ss ≤ 128
      → length ss ≡ (length ds + 127) / 128
      → ((loc : ℕ) → loc < length ds → Entry fs2.device ss ds loc)
      → let d = put fs2.device r (pointers (write_at no_pointers 0 ss)) in
        Laid own fs (r ∷ taken) ds (record fs2 { device = d })
        × ((loc : ℕ) → loc < length ds → DoublyEntry d (r ∷ taken) r ds loc)
  second_step fs fs1 fs2 r taken ss ds m g f tables fit cs entries =
      let table = pointers (write_at no_pointers 0 ss) in
      let apart : ¬ In r taken = Grows-old own r f.grows (g.now_used r (inl refl)) in
      let lt : r < fs2.device.size =
        omega (arith, (g.were_free r (inl refl)).0, g.size, f.grows.size) in
      (
        record {
          grows = Grows-put own r table (Grows-trans own g f.grows) (inl refl);
          inside = λ t h. inr (f.inside t h);
          distinct = f.distinct;
          blank = λ t h. elim (ℕ_discrete r t) [
            | yes e ↦ absurd (apart (subst (λ k. In k taken) (sym e) (f.inside t h)))
            | no ne ↦ ground (arith, f.blank t h)
          ];
        },
        λ loc h.
            DoublyEntry-put fs2.device r taken ss ds loc lt apart tables fit (omega arith)
              (entries loc h),
      )

module _ (file : MapFile) (own : ℕ → Bool) (p : Persists file own) where
  pub create_first-Laid :
      (remaining : ℕ) (fs : Fs)
      → IsMounted own fs
      → first_need remaining ≤ free_cnt fs
      → (r : ℕ) × (taken xs : List ℕ) × (fs' : Fs) × (create_first file remaining fs
          ≡ some (r, remaining - 128, fs'))
        × (length xs ≡ min 128 remaining)
        × (length taken ≡ first_need remaining)
        × Laid own fs taken xs fs'
        × (0 < remaining → In r taken × IndexBlock fs'.device r xs)
  unfolding create_first
  create_first-Laid zero fs m h =
      (0, [], [], fs, refl, refl, refl, Laid-nothing own m, λ lt. absurd (omega arith))
  create_first-Laid (suc k) fs m h =
      let (s, xs, fs', e, c, f, b) = add_indirect-Laid file own p (suc k) 0 fs m h in
      (s, s ∷ xs, xs, fs', e, c, omega (arith, c), f, λ _. (inl refl, b))

  pub create_second-Laid :
      (remaining : ℕ) (fs : Fs)
      → IsMounted own fs
      → remaining ≤ 128 * 128
      → second_need remaining ≤ free_cnt fs
      → (r : ℕ) × (taken ds : List ℕ) × (fs' : Fs) × (create_second file remaining fs
          ≡ some (r, fs'))
        × (length ds ≡ remaining)
        × (length taken ≡ second_need remaining)
        × Laid own fs taken ds fs'
        × ((loc : ℕ) → loc < remaining → DoublyEntry fs'.device taken r ds loc)
  unfolding create_second
  create_second-Laid zero fs m room h =
      (0, [], [], fs, refl, refl, refl, Laid-nothing own m, λ loc lt. absurd (omega arith))
  create_second-Laid (suc k) fs m room h =
      let (s, fs1, e, g, z) = add_block-Grows file own p fs 0 m (omega arith) in
      let (ss, taken, ds, fs2, e', cs, cd, ct, f, tables, entries) =
        fill_doubly-Laid file own p 128 0 (suc k) no_pointers fs1 g.mounted room
          (omega (arith, g.counted)) in
      let table = pointers (write_at no_pointers 0 ss) in
      let lt : s < fs2.device.size =
        omega (arith, (g.were_free s (inl refl)).0, g.size, f.grows.size) in
      let (laid, found) =
        second_step own fs fs1 fs2 s taken ss ds m g f tables (omega arith) (omega (arith, cs, cd))
          entries in
      (
        s,
        s ∷ taken,
        ds,
        record fs2 { device = put fs2.device s table },
        rw (e, e', block_write-put fs2.device s table lt) refl,
        cd,
        omega (arith, ct),
        laid,
        λ loc h. found loc (omega (arith, cd)),
      )
