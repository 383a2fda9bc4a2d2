-- ===== src/Fs/Directory/Add.antt =====
-- directory.c, `dir_add`: the new entry is found, and every other as before.
use native.Mathlib.Decide.{ℕ_discrete}
use cs.Base.{
  ℕ, zero, suc, ◌+◌, ◌*◌, ◌^◌, ◌≤◌, ◌<◌, ◌≡◌, ◌≢◌, refl, sym, ap, ◌∙◌, subst, true, false,
  Bool-cases, inl, inr, ◌||◌, Option, none, some, some-injective, List, [], ◌∷◌, ◌++◌, ltb, ◌==◌,
  drop, length, length-append, length-drop, arith,
}
use mathlib.Core.List.{append-nil}
use cs.Fs.Device.{Device, InodeDisk}
use cs.Fs.FreeMap.{Fs, MapFile}
use cs.Fs.Inode.{Inode}
use cs.Fs.Inode.Access.{read_at}
use cs.Fs.Inode.Access.Read.{IsReadable, read_at-Reads}
use cs.Fs.Inode.Access.Stored.{IsStored, IsStored-IsReadable}
use cs.Fs.Inode.Access.Write.{Writes}
use cs.Fs.Inode.Access.Round.{write_at-Writes}
use cs.Fs.Directory.{in_use, inode_sector, text_of, with_name, lookup, slot_from, dir_add, rounds}
use cs.Fs.Directory.Entry.{IsName, Entry, with_name-Entry}
use cs.Fs.Directory.Slots.{
  IsDirectory, IsAt, read_at-length, read_at_once, reads_elsewhere, reads_written,
}
use cs.Fs.Directory.Lookup.{Finds, lookup-Finds}

-- The entry at index i is there, and free.
pub record IsFree (d : Device) (content : InodeDisk) (i : ℕ) : Type 0 where
  pub entry : List ℕ
  pub reads : read_at true d content 20 (20 * i) ≡ some entry
  pub full : length entry ≡ 20
  pub free : in_use entry ≡ false

drop_all : (n : ℕ) (xs : List ℕ) → length xs ≤ n → drop n xs ≡ []
drop_all zero [] le = refl
drop_all zero (x ∷ xs) le = absurd (omega (arith, le))
drop_all (suc n) [] le = refl
drop_all (suc n) (x ∷ xs) le = drop_all n xs (omega (arith, le))

-- A full read leaves nothing of what was there.
no_rest : (bs e : List ℕ) → length e ≤ length bs → bs ++ drop (length bs) e ≡ bs
no_rest bs e le = ap (λ l. bs ++ l) (drop_all (length bs) e le) ∙ append-nil bs

-- The loop of `dir_add` stops at a free entry, when there is one at f.
slot_from-IsFree :
    (d : Device) (content : InodeDisk) (f fuel i ofs : ℕ) (e : List ℕ)
    → IsReadable d content
    → IsFree d content f
    → ofs ≡ 20 * i
    → i ≤ f
    → f < i + fuel
    → length e ≡ 20
    → (k : ℕ) × (e' : List ℕ) × (slot_from true d content fuel ofs e ≡ some (20 * k, e'))
      × (length e' ≡ 20)
      × IsFree d content k
unfolding slot_from
slot_from-IsFree d content f zero i ofs e r free at le lt len = absurd (omega (arith, le, lt))
slot_from-IsFree d content f (suc fuel) i ofs e r free at le lt len =
    let (bs, reads, _) = read_at-Reads d content 20 ofs r in
    let here : read_at true d content 20 (20 * i) ≡ some bs =
      ap (read_at true d content 20) (sym at) ∙ reads in
    let l = read_at-length d content ofs bs r reads in
    let lf = read_at-length d content (20 * f) free.entry r free.reads in
    let full : length bs ≡ 20 = omega (arith, l, lf, free.full, le, at) in
    let e' = bs ++ drop (length bs) e in
    let le' : length e' ≡ 20 =
      omega (arith, length-append bs (drop (length bs) e), length-drop (length bs) e, full, len) in
    let whole : e' ≡ bs = no_rest bs e (omega (arith, full, len)) in
    let is_full : (length bs == 20) ≡ true = ground arith in
    elim (Bool-cases (in_use e')) [
      | inl used ↦
          let passed : i ≢ f = λ same.
            let alike : bs ≡ free.entry =
              some-injective _ _
                (sym here ∙ ap (λ j. read_at true d content 20 (20 * j)) same ∙ free.reads) in
            absurd (cc (used, ap in_use whole, ap in_use alike, free.free)) in
          let (k, e'', run, l2, rest) =
            slot_from-IsFree d content f fuel (i + 1) (ofs + 20) e' r free (omega (arith, at))
              (omega (arith, le, passed)) (omega (arith, lt)) le' in
          (k, e'', rw (reads, is_full, used) run, l2, rest)
      | inr unused ↦ (
        i,
        e',
        rw (reads, is_full, unused) (ap (λ o. some (o, e')) at),
        le',
        record { entry = bs; reads = here; full = full; free = ap in_use (sym whole) ∙ unused },
      )
    ]

-- The same entries are there, and so a lookup answers the same.
pub Finds-unchanged :
    (d d' : Device) (content : InodeDisk) (name : List ℕ) (r r' : Option (List ℕ × ℕ))
    → ((j : ℕ) (e : List ℕ) → IsAt d content name j e → IsAt d' content name j e)
    → ((j : ℕ) (e : List ℕ) → IsAt d' content name j e → IsAt d content name j e)
    → Finds d content name 0 r
    → Finds d' content name 0 r'
    → r' ≡ r
Finds-unchanged d d' content name none none there back f f' = refl
Finds-unchanged d d' content name none (some (e, ofs)) there back f (k, le, at, a, _) =
    absurd (f k (omega arith) e (back k e a))
Finds-unchanged d d' content name (some (e, ofs)) none there back (k, le, at, a, _) f' =
    absurd (f' k (omega arith) e (there k e a))
Finds-unchanged d d' content name (some (e, ofs)) (some (e', ofs')) there back (k, _, at, a, before)
      (k', _, at', a', before') =
    elim (Bool-cases (ltb k' k)) [
      | inl lower ↦ absurd (before k' (omega arith) (ground arith) e' (back k' e' a'))
      | inr no_lower ↦ elim (ℕ_discrete k k') [
        | no apart ↦ absurd (before' k (omega arith) (ground arith) e (there k e a))
        | yes same ↦
            let alike : e' ≡ e =
              read_at_once d content name k e e' a.reads
                (subst (λ j. IsAt d content name j e') (sym same) (back k' e' a')) in
            let offsets : ofs' ≡ ofs = omega (arith, at, at', same) in
            ap (λ x. some (x, ofs')) alike ∙ ap (λ o. some (e, o)) offsets
      ]
    ]

-- The directory with the entry at index k written.
module _ (d d' : Device) (content : InodeDisk) (sector_of : ℕ → ℕ) (k sector : ℕ) (e name : List ℕ)
    (dir : IsDirectory d content) (entry : Entry e sector name) (was_free : IsFree d content k)
    (w : Writes content sector_of 20 (20 * k) e d d') where
  within : 20 * k + 20 ≤ content.length
  within =
      let l = read_at-length d content (20 * k) was_free.entry dir.readable was_free.reads in
      omega (arith, l, was_free.full)

  readable' : IsReadable d' content
  readable' = IsStored-IsReadable d' content sector_of w.stored

  reads_new : read_at true d' content 20 (20 * k) ≡ some e
  reads_new = reads_written d d' content sector_of k e w entry.full within

  -- What is read at k is the new entry.
  only_new : (i : ℕ) (e' : List ℕ) → i ≡ k → read_at true d' content 20 (20 * i) ≡ some e' → e' ≡ e
  only_new i e' same reads =
      some-injective _ _
        (sym reads ∙ ap (λ j. read_at true d' content 20 (20 * j)) same ∙ reads_new)

  reads_other :
      (j : ℕ) → j ≢ k → read_at true d' content 20 (20 * j) ≡ read_at true d content 20 (20 * j)
  reads_other j = reads_elsewhere d d' content sector_of k j e dir.readable w

  pub still-IsDirectory : IsDirectory d' content
  still-IsDirectory = record {
    readable = readable';
    ends = λ i e' reads full used. elim (ℕ_discrete i k) [
      | yes same ↦ (name, ap (λ x. text_of (drop 4 x)) (only_new i e' same reads) ∙ entry.named)
      | no other ↦ dir.ends i e' (sym (reads_other i other) ∙ reads) full used
    ];
  }

  there : (q : List ℕ) (j : ℕ) (e' : List ℕ) → IsAt d content q j e' → IsAt d' content q j e'
  there q j e' a = record {
    reads = reads_other j not_k ∙ a.reads;
    full = a.full;
    used = a.used;
    named = a.named;
  }
    where
      not_k : j ≢ k
      not_k same =
          let alike : e' ≡ was_free.entry =
            some-injective _ _
              (sym a.reads ∙ ap (λ i. read_at true d content 20 (20 * i)) same ∙ was_free.reads) in
          absurd (cc (a.used, ap in_use alike, was_free.free))

  back :
      (q : List ℕ) (j : ℕ) (e' : List ℕ) → q ≢ name → IsAt d' content q j e' → IsAt d content q j e'
  back q j e' other a = elim (ℕ_discrete j k) [
    | yes same ↦ absurd (
        other (
          some-injective _ _ (
            sym a.named ∙ ap (λ x. text_of (drop 4 x)) (only_new j e' same a.reads) ∙ entry.named)))
    | no apart ↦ record {
      reads = sym (reads_other j apart) ∙ a.reads;
      full = a.full;
      used = a.used;
      named = a.named;
    }
  ]

  -- The new name is found, when it was not there before.
  found_new :
      (r : Option (List ℕ × ℕ))
      → ((j : ℕ) (e' : List ℕ) → ¬ IsAt d content name j e')
      → Finds d' content name 0 r
      → (ofs : ℕ) × (r ≡ some (e, ofs))
  found_new none absent f = absurd (
      f k (omega arith) e
        record { reads = reads_new; full = entry.full; used = entry.used; named = entry.named })
  found_new (some (e', ofs)) absent (j, _, at, a, before) = elim (ℕ_discrete j k) [
    | yes same ↦ (ofs, ap (λ x. some (x, ofs)) (only_new j e' same a.reads))
    | no other ↦ absurd (
        absent j e' record {
          reads = sym (reads_other j other) ∙ a.reads;
          full = a.full;
          used = a.used;
          named = a.named;
        })
  ]

-- A directory after a file was added to it.
pub record Added (d d' : Device) (content : InodeDisk) (name : List ℕ) (sector : ℕ) : Type 0 where
  pub directory : IsDirectory d' content
  pub found :
      (e : List ℕ) × (ofs : ℕ) × (lookup true d' content name ≡ some (some (e, ofs)))
      × (inode_sector e ≡ sector)
  pub others :
      (other : List ℕ) → other ≢ name → lookup true d' content other ≡ lookup true d content other

written-Added :
    (d d' : Device) (content : InodeDisk) (sector_of : ℕ → ℕ) (k sector : ℕ) (e name : List ℕ)
    → IsDirectory d content
    → Entry e sector name
    → IsFree d content k
    → Writes content sector_of 20 (20 * k) e d d'
    → lookup true d content name ≡ some none
    → Added d d' content name sector
written-Added d d' content sector_of k sector e name dir entry was_free w absent =
    let dir' = still-IsDirectory d d' content sector_of k sector e name dir entry was_free w in
    let (r, found, f) = lookup-Finds d content name dir in
    let (r', found', f') = lookup-Finds d' content name dir' in
    let nobody : Finds d content name 0 none =
      subst (Finds d content name 0) (some-injective _ _ (sym found ∙ absent)) f in
    let (ofs, new) =
      found_new d d' content sector_of k sector e name dir entry was_free w r'
        (λ j e' a. nobody j (omega arith) e' a) f' in
    record {
      directory = dir';
      found = (e, ofs, found' ∙ ap some new, entry.at);
      others = λ other ne.
          let (q, was, g) = lookup-Finds d content other dir in
          let (q', is, g') = lookup-Finds d' content other dir' in
          is
          ∙ ap some (
              Finds-unchanged d d' content other q q'
                (there d d' content sector_of k sector e name dir entry was_free w other)
                (λ j e' a.
                  back d d' content sector_of k sector e name dir entry was_free w other j e' ne a)
                g g')
          ∙ sym was;
    }

-- Let the blocks of a directory stand in sectors of their own, the name of every entry in use end,
-- an entry be free, and the directory's inode allow writes. When no entry has the name, which has 1
-- to 14 bytes, `dir_add` succeeds; the directory is as before but for this: `lookup` of the name now
-- finds an entry with that sector. `lookup` of every other name answers what it did.
pub dir_add-Added :
    (file : MapFile) (dir : Inode) (sector_of : ℕ → ℕ) (garbage name : List ℕ) (sector f : ℕ)
    (fs : Fs)
    → IsStored fs.device dir.content sector_of
    → IsDirectory fs.device dir.content
    → dir.deny_write_cnt ≡ 0
    → IsName name
    → 0 < length name
    → length name ≤ 14
    → sector < 2 ^ 32
    → length garbage ≡ 20
    → lookup true fs.device dir.content name ≡ some none
    → IsFree fs.device dir.content f
    → (fs' : Fs) × (dir_add file true garbage dir name sector fs ≡ some (true, dir, fs'))
      × Added fs.device fs'.device dir.content name sector
unfolding dir_add
dir_add-Added file dir sector_of garbage name sector f fs st d allowed text pos short word len
      absent free =
    let lf = read_at-length fs.device dir.content (20 * f) free.entry d.readable free.reads in
    let (k, e, slot, le, here) =
      slot_from-IsFree fs.device dir.content f (rounds dir.content) 0 0 garbage d.readable free refl
        (omega arith) (omega (arith, lf, free.full)) len in
    let lk = read_at-length fs.device dir.content (20 * k) here.entry d.readable here.reads in
    let entry = with_name-Entry e sector name le word text short in
    let (d', wrote, w) =
      write_at-Writes file dir sector_of 20 (20 * k) (with_name e sector name) fs st allowed
        (omega arith) (omega (arith, lk, here.full)) (omega (arith, entry.full)) in
    let checked : ((length name == 0) || ltb 14 (length name)) ≡ false = ground arith in
    (
      record fs { device = d' },
      rw (checked, absent, slot, wrote) refl,
      written-Added fs.device d' dir.content sector_of k sector (with_name e sector name) name d
          entry here w absent,
    )
