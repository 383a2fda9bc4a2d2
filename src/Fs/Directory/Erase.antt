-- ===== src/Fs/Directory/Erase.antt =====
-- directory.c, `dir_remove`: the name is not found any more, and every other as before.
use native.Mathlib.Decide.{ℕ_discrete}
use cs.Base.{
  ℕ, ◌*◌, ◌≡◌, ◌≢◌, refl, sym, ap, ◌∙◌, subst, true, false, not, Option, none, some, some-injective,
  List, ◌==◌, set, drop, length-set, get_or-set_self, arith,
}
use cs.Fs.Device.{Device, InodeDisk}
use cs.Fs.FreeMap.{Fs, MapFile}
use cs.Fs.Inode.{Inode}
use cs.Fs.Inode.Access.{read_at}
use cs.Fs.Inode.Access.Stored.{IsStored, IsStored-IsReadable}
use cs.Fs.Inode.Access.Write.{Writes}
use cs.Fs.Inode.Access.Round.{write_at-Writes}
use cs.Fs.Directory.{in_use, text_of, lookup, erase}
use cs.Fs.Directory.Slots.{
  IsDirectory, IsAt, read_at-length, read_at_once, reads_elsewhere, reads_written,
}
use cs.Fs.Directory.Lookup.{Finds, lookup-Finds}
use cs.Fs.Directory.Add.{Finds-unchanged}

-- A directory after the entries with a name were taken from it.
pub record Erased (d d' : Device) (content : InodeDisk) (name : List ℕ) : Type 0 where
  pub directory : IsDirectory d' content
  pub gone : lookup true d' content name ≡ some none
  pub others :
      (other : List ℕ) → other ≢ name → lookup true d' content other ≡ lookup true d content other

-- The entry at k written as free.
module _ (d d' : Device) (content : InodeDisk) (sector_of : ℕ → ℕ) (k : ℕ) (e name : List ℕ)
    (dir : IsDirectory d content) (a : IsAt d content name k e)
    (w : Writes content sector_of 20 (20 * k) (set e 19 0) d d') where
  free : in_use (set e 19 0) ≡ false
  free = ap (λ n. not (n == 0)) (get_or-set_self e 19 0 0 (omega (arith, a.full)))

  new : read_at true d' content 20 (20 * k) ≡ some (set e 19 0)
  new =
      reads_written d d' content sector_of k (set e 19 0) w (length-set e 19 0 ∙ a.full)
        (omega (arith, read_at-length d content (20 * k) e dir.readable a.reads, a.full))

  -- An entry in use is at another index, and was there before.
  old_place :
      (j : ℕ) (e' : List ℕ)
      → read_at true d' content 20 (20 * j) ≡ some e'
      → in_use e' ≡ true
      → j ≢ k
  old_place j e' reads used same =
      let alike : e' ≡ set e 19 0 =
        some-injective _ _ (sym reads ∙ ap (λ i. read_at true d' content 20 (20 * i)) same ∙ new) in
      absurd (cc (used, ap in_use alike, free))

  kept : (j : ℕ) → j ≢ k → read_at true d' content 20 (20 * j) ≡ read_at true d content 20 (20 * j)
  kept j = reads_elsewhere d d' content sector_of k j (set e 19 0) dir.readable w

  was_there : (q : List ℕ) (j : ℕ) (e' : List ℕ) → IsAt d' content q j e' → IsAt d content q j e'
  was_there q j e' b = record {
    reads = sym (kept j (old_place j e' b.reads b.used)) ∙ b.reads;
    full = b.full;
    used = b.used;
    named = b.named;
  }

  stays :
      (q : List ℕ) (j : ℕ) (e' : List ℕ) → q ≢ name → IsAt d content q j e' → IsAt d' content q j e'
  stays q j e' other b = elim (ℕ_discrete j k) [
    | yes same ↦
        let there = subst (λ i. IsAt d content q i e') same b in
        let alike = read_at_once d content q k e e' a.reads there in
        absurd
          (other (some-injective _ _ (sym b.named ∙ ap (λ x. text_of (drop 4 x)) alike ∙ a.named)))
    | no apart ↦ record {
      reads = kept j apart ∙ b.reads;
      full = b.full;
      used = b.used;
      named = b.named;
    }
  ]

  gone_now :
      ((j : ℕ) (e' : List ℕ) → IsAt d content name j e' → j ≡ k)
      → (r : Option (List ℕ × ℕ)) → Finds d' content name 0 r
      → r ≡ none
  gone_now only none f = refl
  gone_now only (some (e', ofs)) (j, _, _, b, _) =
      absurd (old_place j e' b.reads b.used (only j e' (was_there name j e' b)))

  erased-IsDirectory : IsDirectory d' content
  erased-IsDirectory = record {
    readable = IsStored-IsReadable d' content sector_of w.stored;
    ends = λ i e' reads full used.
        dir.ends i e' (sym (kept i (old_place i e' reads used)) ∙ reads) full used;
  }

-- Let the blocks of a directory stand in sectors of their own, the name of every entry in use end,
-- and the directory's inode allow writes. When the entry at k is the only one with the name,
-- `lookup` finds it, the write of `dir_remove` succeeds, and after it `lookup` of the name finds
-- nothing; `lookup` of every other name answers what it did.
pub erase-Erased :
    (file : MapFile) (dir : Inode) (sector_of : ℕ → ℕ) (name e : List ℕ) (k : ℕ) (fs : Fs)
    → IsStored fs.device dir.content sector_of
    → IsDirectory fs.device dir.content
    → dir.deny_write_cnt ≡ 0
    → IsAt fs.device dir.content name k e
    → ((j : ℕ) (e' : List ℕ) → IsAt fs.device dir.content name j e' → j ≡ k)
    → (lookup true fs.device dir.content name ≡ some (some (e, 20 * k)))
      × (fs' : Fs) × (erase file true dir e (20 * k) fs ≡ some (true, dir, fs'))
      × Erased fs.device fs'.device dir.content name
unfolding erase
erase-Erased file dir sector_of name e k fs st d allowed a only =
    let l = read_at-length fs.device dir.content (20 * k) e d.readable a.reads in
    let (d', wrote, w) =
      write_at-Writes file dir sector_of 20 (20 * k) (set e 19 0) fs st allowed (omega arith)
        (omega (arith, l, a.full)) (omega (arith, length-set e 19 0, a.full)) in
    let dir' = erased-IsDirectory fs.device d' dir.content sector_of k e name d a w in
    let (r, found, f) = lookup-Finds fs.device dir.content name d in
    let (r', found', f') = lookup-Finds d' dir.content name dir' in
    (
      found ∙ ap some (finds_it fs.device dir.content name r f e k a only),
      record fs { device = d' },
      rw wrote refl,
      record {
        directory = dir';
        gone =
            found'
            ∙ ap some (gone_now fs.device d' dir.content sector_of k e name d a w only r' f');
        others = λ other ne.
            let (q, was, g) = lookup-Finds fs.device dir.content other d in
            let (q', is, g') = lookup-Finds d' dir.content other dir' in
            is
            ∙ ap some (
                Finds-unchanged fs.device d' dir.content other q q'
                  (λ j e' b.
                    stays fs.device d' dir.content sector_of k e name d a w other j e' ne b)
                  (was_there fs.device d' dir.content sector_of k e name d a w other) g g')
            ∙ sym was;
      },
    )
  where
    finds_it :
        (v : Device) (content : InodeDisk) (q : List ℕ) (r : Option (List ℕ × ℕ))
        → Finds v content q 0 r
        → (x : List ℕ) (i : ℕ) → IsAt v content q i x
        → ((j : ℕ) (e' : List ℕ) → IsAt v content q j e' → j ≡ i)
        → r ≡ some (x, 20 * i)
    finds_it v content q none f x i b single = absurd (f i (omega arith) x b)
    finds_it v content q (some (y, ofs)) (j, _, at, c, _) x i b single =
        let same : j ≡ i = single j y c in
        let alike : y ≡ x =
          read_at_once v content q i x y b.reads (subst (λ n. IsAt v content q n y) same c) in
        ap (λ z. some (z, ofs)) alike ∙ ap (λ o. some (x, o)) (at ∙ ap (λ n. 20 * n) same)
