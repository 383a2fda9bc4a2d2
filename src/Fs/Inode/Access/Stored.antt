-- ===== src/Fs/Inode/Access/Stored.antt =====
-- inode.c: files whose blocks all stand on the device, and what a write to one block does to them.
use native.Mathlib.Decide.{ℕ_discrete}
use cs.Base.{
  ℕ, ◌-◌, ◌*◌, ◌/◌, ◌%◌, ◌<◌, ◌≡◌, ◌≢◌, refl, sym, ap, ◌∙◌, true, false, some, List, ltb, ◌==◌,
  if◌then◌else◌, get_or, length, ◌>>=◌, arith, Option-cases, inl, inr,
}
use cs.Fs.Device.{Device, InodeDisk, Block, bytes, as_bytes, as_pointers, put, block_read}
use cs.Fs.Inode.{byte_to_sector, read_pointers}
use cs.Fs.Inode.Access.{read_bytes}
use cs.Fs.Inode.Access.Read.{file_byte, IsReadable}

-- The sector holds no table of sector numbers of the file.
pub record IsNotTable (d : Device) (content : InodeDisk) (s : ℕ) : Type 0 where
  pub first : s ≢ content.indirect_block_sector
  pub second : s ≢ content.doubly_indirect_block_sector
  pub inner :
      (t : List ℕ)
      → read_pointers d content.doubly_indirect_block_sector ≡ some t
      → (i : ℕ) → s ≢ get_or t i 0

-- A write to another sector.
pub block_read-put :
    (d : Device) (s r : ℕ) (b : Block) → s ≢ r → block_read (put d s b) r ≡ block_read d r
unfolding block_read
block_read-put d s r b ne = let other : (s == r) ≡ false = ground arith in rw other refl

read_pointers-put :
    (d : Device) (s r : ℕ) (b : Block) → s ≢ r → read_pointers (put d s b) r ≡ read_pointers d r
unfolding read_pointers
read_pointers-put d s r b ne = ap (λ m. m >>= as_pointers) (block_read-put d s r b ne)

pub byte_to_sector-put :
    (d : Device) (content : InodeDisk) (s pos : ℕ) (b : Block)
    → IsNotTable d content s
    → byte_to_sector (put d s b) content pos ≡ byte_to_sector d content pos
unfolding byte_to_sector
byte_to_sector-put d content s pos b n =
    let first = read_pointers-put d s content.indirect_block_sector b n.first in
    let second = read_pointers-put d s content.doubly_indirect_block_sector b n.second in
    elim (Option-cases (read_pointers d content.doubly_indirect_block_sector)) [
      | inl e ↦ rw (first, second, e) refl
      | inr (t, e) ↦
          let inner =
            read_pointers-put d s (get_or t ((pos / 512 - 122 - 128) / 128) 0) b
              (n.inner t e ((pos / 512 - 122 - 128) / 128)) in
          rw (first, second, e, inner) refl
    ]

-- Each block of the file stands in a sector of its own, which is no table of the file.
pub record IsStored (d : Device) (content : InodeDisk) (sector_of : ℕ → ℕ) : Type 0 where
  pub found :
      (pos : ℕ) → pos < content.length → byte_to_sector d content pos ≡ some (sector_of (pos / 512))
  pub block :
      (k : ℕ)
      → k * 512 < content.length
      → (b : List ℕ) × (read_bytes d (sector_of k) ≡ some b) × (length b ≡ 512)
  pub in_range : (k : ℕ) → k * 512 < content.length → sector_of k < d.size
  pub distinct :
      (j k : ℕ)
      → j * 512 < content.length
      → k * 512 < content.length
      → j ≢ k
      → sector_of j ≢ sector_of k
  pub apart : (k : ℕ) → k * 512 < content.length → IsNotTable d content (sector_of k)

pub IsStored-IsReadable :
    (d : Device) (content : InodeDisk) (sector_of : ℕ → ℕ)
    → IsStored d content sector_of
    → IsReadable d content
IsStored-IsReadable d content sector_of st = record {
  blocks = λ pos lt.
      let (b, e, len) = st.block (pos / 512) (omega (arith, lt)) in
      (sector_of (pos / 512), b, st.found pos lt, e, len);
}

read_bytes-put_self :
    (d : Device) (s : ℕ) (b : List ℕ) → s < d.size → read_bytes (put d s (bytes b)) s ≡ some b
unfolding read_bytes block_read
read_bytes-put_self d s b lt =
    let here : (s == s) ≡ true = ground arith in
    let within : ltb s d.size ≡ true = ground arith in rw (within, here) refl

read_bytes-put_other :
    (d : Device) (s r : ℕ) (b : Block) → s ≢ r → read_bytes (put d s b) r ≡ read_bytes d r
unfolding read_bytes
read_bytes-put_other d s r b ne = ap (λ m. m >>= as_bytes) (block_read-put d s r b ne)

module _ (d : Device) (content : InodeDisk) (sector_of : ℕ → ℕ) (st : IsStored d content sector_of)
    (k : ℕ) (inside : k * 512 < content.length) (b : List ℕ) (full : length b ≡ 512) where
  -- A write of a whole block keeps the file stored.
  pub put-IsStored : IsStored (put d (sector_of k) (bytes b)) content sector_of
  put-IsStored = record {
    found = λ pos lt.
        byte_to_sector-put d content (sector_of k) pos (bytes b) (st.apart k inside)
        ∙ st.found pos lt;
    block = λ j lt. elim (ℕ_discrete k j) [
      | yes same ↦ (
        b,
        ap (λ i. read_bytes (put d (sector_of k) (bytes b)) (sector_of i)) (sym same)
            ∙ read_bytes-put_self d (sector_of k) b (st.in_range k inside),
        full,
      )
      | no other ↦
          let (b', e, len) = st.block j lt in
          (
            b',
            read_bytes-put_other d (sector_of k) (sector_of j) (bytes b)
                  (st.distinct k j inside lt other)
                ∙ e,
            len,
          )
    ];
    in_range = st.in_range;
    distinct = st.distinct;
    apart = λ j lt. record {
      first = (st.apart j lt).first;
      second = (st.apart j lt).second;
      inner = λ t e i.
          (st.apart j lt).inner t
            (sym (
                read_pointers-put d (sector_of k) content.doubly_indirect_block_sector (bytes b)
                  (st.apart k inside).second)
              ∙ e)
            i;
    };
  }

  -- What a byte of the file is after it.
  pub file_byte-put :
      (pos : ℕ)
      → pos < content.length
      → file_byte (put d (sector_of k) (bytes b)) content pos
        ≡ (if pos / 512 == k then some (get_or b (pos % 512) 0) else file_byte d content pos)
  unfolding file_byte
  file_byte-put pos lt =
      let look = byte_to_sector-put d content (sector_of k) pos (bytes b) (st.apart k inside) in
      elim (ℕ_discrete (pos / 512) k) [
        | yes same ↦
            let here : (pos / 512 == k) ≡ true = ground arith in
            let at_k : byte_to_sector d content pos ≡ some (sector_of k) =
              st.found pos lt ∙ ap (λ i. some (sector_of i)) same in
            rw (here, look, at_k, read_bytes-put_self d (sector_of k) b (st.in_range k inside)) refl
        | no other ↦
            let there : (pos / 512 == k) ≡ false = ground arith in
            let ne = st.distinct k (pos / 512) inside (omega (arith, lt)) (λ e. other (sym e)) in
            rw
              (
                there,
                look,
                st.found pos lt,
                read_bytes-put_other d (sector_of k) (sector_of (pos / 512)) (bytes b) ne,
              )
              refl
      ]
