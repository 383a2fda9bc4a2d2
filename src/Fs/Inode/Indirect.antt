-- ===== src/Fs/Inode/Indirect.antt =====
-- inode.c, blocks of sector numbers: one with its data blocks, and the second-level loop.
use native.Mathlib.Decide.{ℕ_discrete, dec_lt}
use cs.Base.{
  ℕ, zero, suc, ◌+◌, ◌-◌, ◌*◌, ◌/◌, ◌%◌, ◌≤◌, ◌<◌, ◌≡◌, refl, inl, inr, ◌∙◌, sym, subst, Bool, some,
  List, [], ◌∷◌, ◌++◌, min, get_or, set, length, length-append, get_or-append_left,
  get_or-append_right, arith,
}
use cs.Fs.Device.{Device, pointers, put, block_write-put, block_read_lem, no_pointers}
use cs.Fs.FreeMap.{Fs, MapFile}
use cs.Fs.FreeMap.Grows.{
  In, In-append_right, IsMounted, Grows, Persists, free_cnt, Grows-trans, Grows-put, Grows-kept,
  Grows-old,
}
use cs.Fs.FreeMap.Laid.{Laid, Laid-nothing, Laid-trans}
use cs.Fs.Inode.{add_indirect, fill_doubly, read_pointers}
use cs.Fs.Inode.Table.{write_at, get_or-write_at, add_block-Grows, fill-Laid}

-- Sector s holds a table that begins with the sector numbers ds.
pub record IndexBlock (d : Device) (s : ℕ) (ds : List ℕ) : Type 0 where
  pub table : List ℕ
  pub readable : read_pointers d s ≡ some table
  pub entries : (j : ℕ) → j < length ds → get_or table j 0 ≡ get_or ds j 0

module _ (own : ℕ → Bool) where
  -- A table block survives what is taken later.
  pub IndexBlock-kept :
      {fs fs' fs'' : Fs} {t u ds : List ℕ} (s : ℕ)
      → IsMounted own fs
      → Grows own fs t fs'
      → In s t
      → Grows own fs' u fs''
      → IndexBlock fs'.device s ds
      → IndexBlock fs''.device s ds
  unfolding read_pointers
  IndexBlock-kept {fs' = fs'} {fs'' = fs''} s m f h g b =
      let lt : s < fs'.device.size = omega (arith, (f.were_free s h).0, f.size) in
      let lt' : s < fs''.device.size = omega (arith, lt, g.size) in
      record {
        table = b.table;
        readable =
            rw (block_read_lem fs''.device s lt', Grows-kept own s m f h g)
              (rw (block_read_lem fs'.device s lt) at b.readable);
        entries = b.entries;
      }

  -- One table block: its sector s, then the data blocks xs, then the table written to s.
  pub indirect_step :
      (fs fs1 fs2 : Fs) (s : ℕ) (xs : List ℕ)
      → IsMounted own fs
      → Grows own fs (s ∷ []) fs1
      → Laid own fs1 xs xs fs2
      → length xs ≤ 128
      → let fs3 = record fs2 { device = put fs2.device s (pointers (write_at no_pointers 0 xs)) } in
        Laid own fs (s ∷ xs) xs fs3 × IndexBlock fs3.device s xs
  unfolding read_pointers
  indirect_step fs fs1 fs2 s xs m g f le =
      let all =
        Grows-put own s (pointers (write_at no_pointers 0 xs)) (Grows-trans own g f.grows)
          (inl refl) in
      let lt : s < fs2.device.size =
        omega (arith, (g.were_free s (inl refl)).0, g.size, f.grows.size) in
      (
        record {
          grows = all;
          inside = λ t h. inr h;
          distinct = f.distinct;
          blank = λ t h. elim (ℕ_discrete s t) [
            | yes e ↦
                absurd (
                  Grows-old own s f.grows (g.now_used s (inl refl))
                    (subst (λ k. In k xs) (sym e) h))
            | no ne ↦ ground (arith, f.blank t h)
          ];
        },
        record {
          table = write_at no_pointers 0 xs;
          readable =
              rw (block_read_lem (put fs2.device s (pointers (write_at no_pointers 0 xs))) s lt)
                (ground arith);
          entries = λ j h. get_or-write_at no_pointers 0 xs j j h (omega arith) (omega arith);
        },
      )

-- Entry loc of a file's second-level part, found through its table sector.
abbrev pub Entry : Device → List ℕ → List ℕ → ℕ → Type 0
Entry d ss ds loc =
    (t : List ℕ) × (read_pointers d (get_or ss (loc / 128) 0) ≡ some t)
    × (get_or t (loc % 128) 0 ≡ get_or ds loc 0)

-- Behind a full first table.
Entry-far :
    (d : Device) (s : ℕ) (xs ss ds : List ℕ) (loc : ℕ)
    → length xs ≡ 128
    → 128 ≤ loc
    → Entry d ss ds (loc - 128)
    → Entry d (s ∷ ss) (xs ++ ds) loc
Entry-far d s xs ss ds loc full far (t, readable, entry) =
    let q : loc / 128 ≡ suc ((loc - 128) / 128) = omega arith in
    let r : loc % 128 ≡ (loc - 128) % 128 = omega arith in
    (
      t,
      rw q readable,
      rw r (entry ∙ sym (get_or-append_right xs ds loc (loc - 128) 0 (omega arith))),
    )

-- The entries of a first full table and of the ones behind it.
Entry-cons :
    (d : Device) (s : ℕ) (xs ss ds : List ℕ) (k loc : ℕ)
    → IndexBlock d s xs
    → ((l : ℕ) → l < length ds → Entry d ss ds l)
    → length xs ≡ min 128 k
    → length ds ≡ k - 128
    → loc < k
    → Entry d (s ∷ ss) (xs ++ ds) loc
Entry-cons d s xs ss ds k loc b rest cx cd lt = elim (dec_lt loc 128) [
  | yes near ↦
      let q : loc / 128 ≡ 0 = omega arith in
      let r : loc % 128 ≡ loc = omega arith in
      let inx : loc < length xs = omega arith in
      (
        b.table,
        rw q b.readable,
        rw r (b.entries loc inx ∙ sym (get_or-append_left xs ds loc 0 inx)),
      )
  | no far ↦ Entry-far d s xs ss ds loc (omega arith) (omega arith) (rest (loc - 128) (omega arith))
]

module _ (file : MapFile) (own : ℕ → Bool) (p : Persists file own) where
  -- One table block with as many data blocks as remain, up to its 128 entries.
  pub add_indirect-Laid :
      (remaining ptr : ℕ) (fs : Fs)
      → IsMounted own fs
      → 1 + min 128 remaining ≤ free_cnt fs
      → (s : ℕ) × (xs : List ℕ) × (fs' : Fs) × (add_indirect file remaining ptr fs
          ≡ some (s, remaining - 128, fs'))
        × (length xs ≡ min 128 remaining)
        × Laid own fs (s ∷ xs) xs fs'
        × IndexBlock fs'.device s xs
  unfolding add_indirect
  add_indirect-Laid remaining ptr fs m h =
      let (s, fs1, e, g, z) = add_block-Grows file own p fs ptr m (omega arith) in
      let (xs, fs2, e', c, f) =
        fill-Laid file own p 128 0 remaining no_pointers fs1 g.mounted (omega (arith, g.counted)) in
      let lt : s < fs2.device.size =
        omega (arith, (g.were_free s (inl refl)).0, g.size, f.grows.size) in
      let table = pointers (write_at no_pointers 0 xs) in
      let (laid, block) = indirect_step own fs fs1 fs2 s xs m g f (omega arith) in
      (
        s,
        xs,
        record fs2 { device = put fs2.device s table },
        rw (e, e', block_write-put fs2.device s table lt) refl,
        c,
        laid,
        block,
      )

  -- The second-level loop, with room for what remains: tables and data blocks for all of it.
  pub fill_doubly-Laid :
      (n index remaining : ℕ) (table : List ℕ) (fs : Fs)
      → IsMounted own fs
      → remaining ≤ 128 * n
      → remaining + (remaining + 127) / 128 ≤ free_cnt fs
      → (ss : List ℕ) × (taken ds : List ℕ) × (fs' : Fs) × (fill_doubly file n index remaining table
            fs
          ≡ some (0, write_at table index ss, fs'))
        × (length ss ≡ (remaining + 127) / 128)
        × (length ds ≡ remaining)
        × (length taken ≡ remaining + (remaining + 127) / 128)
        × Laid own fs taken ds fs'
        × ((x : ℕ) → In x ss → In x taken)
        × ((loc : ℕ) → loc < length ds → Entry fs'.device ss ds loc)
  unfolding fill_doubly write_at
  fill_doubly-Laid zero index remaining table fs m room h =
      let none_left : remaining ≡ 0 = omega arith in
      (
        [],
        [],
        [],
        fs,
        rw none_left refl,
        omega arith,
        omega arith,
        omega arith,
        Laid-nothing own m,
        λ x h. h,
        λ loc lt. absurd (omega arith),
      )
  fill_doubly-Laid (suc n) index zero table fs m room h = (
    [],
    [],
    [],
    fs,
    refl,
    refl,
    refl,
    refl,
    Laid-nothing own m,
    λ x h. h,
    λ loc lt. absurd (omega arith),
  )
  fill_doubly-Laid (suc n) index (suc remaining) table fs m room h =
      let (s, xs, fs1, e, c, f, b) =
        add_indirect-Laid (suc remaining) (get_or table index 0) fs m (omega arith) in
      let (ss, taken, ds, fs2, e', cs, cd, ct, g, tables, entries) =
        fill_doubly-Laid n (index + 1) (suc remaining - 128) (set table index s) fs1 f.grows.mounted
          (omega arith) (omega (arith, f.grows.counted, c)) in
      (
        s ∷ ss,
        (s ∷ xs) ++ taken,
        xs ++ ds,
        fs2,
        rw (e, e') refl,
        omega (arith, cs),
        omega (arith, c, cd, length-append xs ds),
        omega (arith, c, ct, length-append xs taken),
        Laid-trans own m f g,
        λ x h. elim h [
          | inl e ↦ inl e
          | inr later ↦ In-append_right x (s ∷ xs) taken (tables x later)
        ],
        λ loc lt.
            Entry-cons fs2.device s xs ss ds (suc remaining) loc
              (IndexBlock-kept own s m f.grows (inl refl) g.grows b) entries c cd
              (omega (arith, c, cd, length-append xs ds, lt)),
      )
