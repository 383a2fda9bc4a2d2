-- ===== src/Fs/Directory/Slots.antt =====
-- directory.c: the entries of a directory as they are read.
use cs.Base.{
  ℕ, ◌⊎◌, inl, inr, ◌≢◌, subst, Bool-cases, ltb, ◌+◌, ◌-◌, ◌*◌, ◌≤◌, ◌<◌, ◌≡◌, sym, ap, ◌∙◌, true,
  some, some-injective, List, drop, min, length, arith,
}
use cs.Fs.Device.{Device, InodeDisk}
use cs.Fs.Inode.Access.{read_at}
use cs.Fs.Inode.Access.Read.{IsReadable, read_at-Reads}
use cs.Fs.Inode.Access.Stored.{IsStored-IsReadable}
use cs.Fs.Inode.Access.Write.{Writes}
use cs.Fs.Inode.Access.Round.{Writes-read_at, read_at_same}
use cs.Fs.Directory.{in_use, text_of}

-- Every byte of the directory can be read, and the name of every entry in use ends.
pub record IsDirectory (d : Device) (content : InodeDisk) : Type 0 where
  pub readable : IsReadable d content
  pub ends :
      (i : ℕ) (e : List ℕ)
      → read_at true d content 20 (20 * i) ≡ some e
      → length e ≡ 20
      → in_use e ≡ true
      → (t : List ℕ) × (text_of (drop 4 e) ≡ some t)

-- The entry at index i is e, in use and with that name.
pub record IsAt (d : Device) (content : InodeDisk) (name : List ℕ) (i : ℕ) (e : List ℕ)
    : Type 0 where
  pub reads : read_at true d content 20 (20 * i) ≡ some e
  pub full : length e ≡ 20
  pub used : in_use e ≡ true
  pub named : text_of (drop 4 e) ≡ some name

-- How much of an entry there is to read.
pub read_at-length :
    (d : Device) (content : InodeDisk) (ofs : ℕ) (e : List ℕ)
    → IsReadable d content
    → read_at true d content 20 ofs ≡ some e
    → length e ≡ min 20 (content.length - ofs)
read_at-length d content ofs e r reads =
    let (bs, same, rd) = read_at-Reads d content 20 ofs r in
    ap length (some-injective _ _ (sym reads ∙ same)) ∙ rd.cnt

-- One entry is read at an index.
pub read_at_once :
    (d : Device) (content : InodeDisk) (name : List ℕ) (i : ℕ) (e e' : List ℕ)
    → read_at true d content 20 (20 * i) ≡ some e
    → IsAt d content name i e'
    → e' ≡ e
read_at_once d content name i e e' reads a = some-injective _ _ (sym a.reads ∙ reads)

apart_range : (i j k : ℕ) → i < 20 → j ≢ k → (20 * j + i < 20 * k) ⊎ (20 * k + 20 ≤ 20 * j + i)
apart_range i j k lt ne = elim (Bool-cases (ltb j k)) [
  | inl below ↦ let h : j < k = ground arith in inl (omega (arith, h, lt))
  | inr above ↦ let h : k ≤ j = ground arith in inr (omega (arith, h, ne))
]

-- A write of the entry at index k leaves the others.
pub reads_elsewhere :
    (d d' : Device) (content : InodeDisk) (sector_of : ℕ → ℕ) (k j : ℕ) (e : List ℕ)
    → IsReadable d content
    → Writes content sector_of 20 (20 * k) e d d'
    → j ≢ k
    → read_at true d' content 20 (20 * j) ≡ read_at true d content 20 (20 * j)
reads_elsewhere d d' content sector_of k j e r w ne =
    read_at_same d d' content 20 (20 * j) r (IsStored-IsReadable d' content sector_of w.stored)
      (λ i lt inside. w.written.outside (20 * j + i) inside (apart_range i j k lt ne))

-- A write of 20 bytes as the entry at index k is read there.
pub reads_written :
    (d d' : Device) (content : InodeDisk) (sector_of : ℕ → ℕ) (k : ℕ) (e : List ℕ)
    → Writes content sector_of 20 (20 * k) e d d'
    → length e ≡ 20
    → 20 * k + 20 ≤ content.length
    → read_at true d' content 20 (20 * k) ≡ some e
reads_written d d' content sector_of k e w full within =
    ap (λ n. read_at true d' content n (20 * k)) (sym full)
    ∙ Writes-read_at content sector_of (20 * k) e d d'
        (subst (λ n. Writes content sector_of n (20 * k) e d d') (sym full) w)
        (omega (arith, within, full))
