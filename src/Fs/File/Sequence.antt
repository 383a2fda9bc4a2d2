-- ===== src/Fs/File/Sequence.antt =====
-- file.c: reading a file piece by piece.
use native.Mathlib.Decide.{dec_lt}
use cs.Base.{
  ℕ, suc, ◌+◌, ◌-◌, ◌<◌, ◌≡◌, refl, sym, ap, ◌∙◌, true, some, List, [], ◌∷◌, ◌++◌, length,
  length-append, get_or, get_or-append_left, get_or-append_right, arith,
}
use cs.Fs.Device.{Device, InodeDisk}
use cs.Fs.Inode.{Inode}
use cs.Fs.Inode.Access.Read.{file_byte, IsReadable, Reads, read_at-Reads}
use cs.Fs.File.{File, file_read}

-- Lists of one length with the same entries.
same_entries :
    (xs ys : List ℕ)
    → length xs ≡ length ys
    → ((i : ℕ) → i < length xs → get_or xs i 0 ≡ get_or ys i 0)
    → xs ≡ ys
same_entries [] [] e h = refl
same_entries [] (y ∷ ys) e h = absurd (omega (arith, e))
same_entries (x ∷ xs) [] e h = absurd (omega (arith, e))
same_entries (x ∷ xs) (y ∷ ys) e h =
    let rest : xs ≡ ys = same_entries xs ys (omega (arith, e)) (λ i lt. h (suc i) (omega arith)) in
    ap (λ z. z ∷ xs) (h 0 (omega arith)) ∙ ap (λ zs. y ∷ zs) rest

some_inj : (a b : ℕ) → some a ≡ some b → a ≡ b
some_inj a b e = cc e

-- What two reads one after the other read is what one read of both sizes reads.
Reads-append :
    (d : Device) (content : InodeDisk) (n m offset : ℕ) (as' bs cs : List ℕ)
    → Reads d content n offset as'
    → Reads d content m (offset + length as') bs
    → Reads d content (n + m) offset cs
    → cs ≡ as' ++ bs
Reads-append d content n m offset as' bs cs ra rb rc =
    same_entries cs (as' ++ bs) (omega (arith, length-append as' bs, ra.cnt, rb.cnt, rc.cnt))
      entries
  where
    entries : (i : ℕ) → i < length cs → get_or cs i 0 ≡ get_or (as' ++ bs) i 0
    entries i lt = elim (dec_lt i (length as')) [
      | yes near ↦ some_inj (get_or cs i 0) (get_or (as' ++ bs) i 0) (
          sym (rc.right i lt)
          ∙ ra.right i near
          ∙ ap some (sym (get_or-append_left as' bs i 0 near)))
      | no far ↦
          let k = i - length as' in
          let at : offset + i ≡ offset + length as' + k = omega arith in
          some_inj (get_or cs i 0) (get_or (as' ++ bs) i 0) (
            sym (rc.right i lt)
            ∙ ap (file_byte d content) at
            ∙ rb.right k (omega (arith, ra.cnt, rb.cnt, rc.cnt))
            ∙ ap some (sym (get_or-append_right as' bs i k 0 (omega arith))))
    ]

-- When every byte of the file has a block, two calls of `file_read` in a row succeed, and one call
-- for both sizes together reads the same bytes and leaves the file at the same position.
pub file_read-append :
    (d : Device) (file : File) (inode : Inode) (n m : ℕ)
    → IsReadable d inode.content
    → (as' bs : List ℕ) × (file1 file2 : File) × (file_read true d file inode n ≡ some (as', file1))
      × (file_read true d file1 inode m ≡ some (bs, file2))
      × (file_read true d file inode (n + m) ≡ some (as' ++ bs, file2))
unfolding file_read
file_read-append d file inode n m r =
    let (as', ea, ra) = read_at-Reads d inode.content n file.pos r in
    let (bs, eb, rb) = read_at-Reads d inode.content m (file.pos + length as') r in
    let (cs, ec, rc) = read_at-Reads d inode.content (n + m) file.pos r in
    let whole = Reads-append d inode.content n m file.pos as' bs cs ra rb rc in
    let far : file.pos + length (as' ++ bs) ≡ file.pos + length as' + length bs =
      omega (arith, length-append as' bs) in
    let file1 : File = record file { pos = file.pos + length as' } in
    let file2 : File = record file { pos = file.pos + length as' + length bs } in
    (as', bs, file1, file2, rw ea refl, rw eb refl, rw (ec, whole, far) refl)
