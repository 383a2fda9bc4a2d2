-- ===== src/Fs/Inode/Access/Round.antt =====
-- inode.c: what is written into a file is read back.
use cs.Base.{
  ℕ, suc, ◌+◌, ◌-◌, ◌/◌, ◌≤◌, ◌<◌, ◌≡◌, refl, sym, ap, ◌∙◌, Bool, true, false, ◌&&◌, some,
  some-injective, List, [], ◌∷◌, ltb, ◌==◌, get_or, length, arith,
}
use cs.Fs.Device.{Device, InodeDisk}
use cs.Fs.FreeMap.{Fs, MapFile}
use cs.Fs.Inode.{Inode}
use cs.Fs.Inode.Access.{write_at, read_at}
use cs.Fs.Inode.Access.Read.{file_byte, IsReadable, read_at-Reads}
use cs.Fs.Inode.Access.Stored.{IsStored, IsStored-IsReadable}
use cs.Fs.Inode.Access.Write.{Writes, write_from-Writes}

-- A write inside a file whose blocks all stand in sectors of their own, by an inode that allows
-- writes: `inode_write_at` fails nowhere, answers that it wrote all bytes, and leaves the inode and the
-- free map as they were. The bytes of the file from the offset on are those of the buffer, its other
-- bytes are unchanged, and so are all sectors but those of its blocks.
pub write_at-Writes :
    (file : MapFile) (inode : Inode) (sector_of : ℕ → ℕ) (size offset : ℕ) (buffer : List ℕ)
    (fs : Fs)
    → IsStored fs.device inode.content sector_of
    → inode.deny_write_cnt ≡ 0
    → 0 < size
    → offset + size ≤ inode.content.length
    → size ≤ length buffer
    → (d' : Device) × (write_at file true inode buffer size offset fs
        ≡ some (size, inode, record fs { device = d' }))
      × Writes inode.content sector_of size offset buffer fs.device d'
unfolding write_at
write_at-Writes file inode sector_of size offset buffer fs st allowed pos fits enough =
    let inside : ltb (inode.content.length / 512) ((offset + size - 1) / 512) ≡ false =
      ground arith in
    let some_bytes : (inode.content.length == 0) ≡ false = ground arith in
    let no_growth : ltb inode.content.length (offset + size) ≡ false = ground arith in
    let open_to_all : ltb 0 inode.deny_write_cnt ≡ false = ground arith in
    let (d', done, w) =
      write_from-Writes file inode.content sector_of size size offset buffer fs st (omega arith)
        fits enough in
    (
      d',
      rw
          (
            open_to_all,
            inside,
            some_bytes,
            and_false ((offset + size - 1) / 512 == 0),
            no_growth,
            done,
          )
          refl,
      w,
    )
  where
    and_false : (b : Bool) → (b && false) ≡ false
    and_false true = refl
    and_false false = refl

-- Lists with the same entries.
same_entries :
    (xs ys : List ℕ)
    → length xs ≡ length ys
    → ((i : ℕ) → i < length xs → get_or xs i 0 ≡ get_or ys i 0)
    → xs ≡ ys
same_entries [] [] e h = refl
same_entries [] (y ∷ ys) e h = absurd (omega (arith, e))
same_entries (x ∷ xs) [] e h = absurd (omega (arith, e))
same_entries (x ∷ xs) (y ∷ ys) e h =
    ap (λ z. z ∷ xs) (h 0 (omega arith))
    ∙ ap (λ l. y ∷ l)
        (same_entries xs ys (omega (arith, e)) (λ i lt. h (suc i) (omega (arith, lt))))

-- A read of the range that was written.
pub Writes-read_at :
    (content : InodeDisk) (sector_of : ℕ → ℕ) (offset : ℕ) (buffer : List ℕ) (d d' : Device)
    → Writes content sector_of (length buffer) offset buffer d d'
    → offset + length buffer ≤ content.length
    → read_at true d' content (length buffer) offset ≡ some buffer
Writes-read_at content sector_of offset buffer d d' w fits =
    let (bs, read, r) =
      read_at-Reads d' content (length buffer) offset
        (IsStored-IsReadable d' content sector_of w.stored) in
    let cnt : length bs ≡ length buffer = omega (arith, r.cnt, fits) in
    read
    ∙ ap some (
        same_entries bs buffer cnt (λ i lt.
          some-injective _ _ (sym (r.right i lt) ∙ w.written.inside i (omega (arith, lt, cnt)))))

-- A read of bytes that are the same on two devices.
pub read_at_same :
    (d d' : Device) (content : InodeDisk) (size offset : ℕ)
    → IsReadable d content
    → IsReadable d' content
    → ((i : ℕ)
        → i < size
        → offset + i < content.length
        → file_byte d' content (offset + i) ≡ file_byte d content (offset + i))
    → read_at true d' content size offset ≡ read_at true d content size offset
read_at_same d d' content size offset a b same =
    let (bs, read, r) = read_at-Reads d content size offset a in
    let (bs', read', r') = read_at-Reads d' content size offset b in
    let cnt : length bs' ≡ length bs = r'.cnt ∙ sym r.cnt in
    read'
    ∙ ap some (
        same_entries bs' bs cnt (λ i lt. some-injective _ _ (
          sym (r'.right i lt)
          ∙ same i (omega (arith, lt, r'.cnt)) (omega (arith, lt, r'.cnt))
          ∙ r.right i (omega (arith, lt, cnt)))))
    ∙ sym read

-- Under the same conditions `inode_read_at` at the offset then returns the buffer.
pub write_at-read_at :
    (file : MapFile) (inode : Inode) (sector_of : ℕ → ℕ) (offset : ℕ) (buffer : List ℕ) (fs : Fs)
    → IsStored fs.device inode.content sector_of
    → inode.deny_write_cnt ≡ 0
    → 0 < length buffer
    → offset + length buffer ≤ inode.content.length
    → (fs' : Fs) × (write_at file true inode buffer (length buffer) offset fs
        ≡ some (length buffer, inode, fs'))
      × (read_at true fs'.device inode.content (length buffer) offset ≡ some buffer)
write_at-read_at file inode sector_of offset buffer fs st allowed pos fits =
    let (d', wrote, w) =
      write_at-Writes file inode sector_of (length buffer) offset buffer fs st allowed pos fits
        (omega arith) in
    (
      record fs { device = d' },
      wrote,
      Writes-read_at inode.content sector_of offset buffer fs.device d' w fits,
    )
