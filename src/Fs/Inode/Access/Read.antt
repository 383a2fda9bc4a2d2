-- ===== src/Fs/Inode/Access/Read.antt =====
-- inode.c, `inode_read_at`: it returns the bytes of the file, as many as there are.
use native.Mathlib.Decide.{ℕ_discrete, dec_lt}
use cs.Base.{
  ℕ, zero, suc, ◌+◌, ◌-◌, ◌/◌, ◌%◌, ◌≤◌, ◌<◌, ◌≡◌, refl, sym, ap, ◌∙◌, Bool, true, false, ◌||◌,
  Option, some, List, [], ◌++◌, ltb, ◌==◌, get_or, take, drop, min, length, length-take,
  length-drop, length-append, get_or-take, get_or-drop, get_or-append_left, get_or-append_right,
  ◌>>=◌, arith,
}
use cs.Fs.Device.{Device, InodeDisk}
use cs.Fs.Inode.{byte_to_sector}
use cs.Fs.Inode.Access.{read_bytes, chunk_size, read_from, read_at}

-- The byte of the file at a position, straight from its block.
unfoldable pub file_byte : Device → InodeDisk → ℕ → Option ℕ
file_byte d content pos = do
  s ← byte_to_sector d content pos
  b ← read_bytes d s
  some (get_or b (pos % 512) 0)

-- Each byte of the file has a block of 512 bytes behind it.
pub record IsReadable (d : Device) (content : InodeDisk) : Type 0 where
  pub blocks :
      (pos : ℕ)
      → pos < content.length
      → (s : ℕ) × (b : List ℕ) × (byte_to_sector d content pos ≡ some s)
        × (read_bytes d s ≡ some b)
        × (length b ≡ 512)

-- Two bytes of one block.
same_block :
    (d : Device) (content : InodeDisk) (p q : ℕ)
    → p < content.length
    → q < content.length
    → p / 512 ≡ q / 512
    → byte_to_sector d content p ≡ byte_to_sector d content q
unfolding byte_to_sector
same_block d content p q hp hq e =
    let a : ltb p content.length ≡ true = ground arith in
    let b : ltb q content.length ≡ true = ground arith in rw (a, b, e) refl

-- The bytes that a loop has read from `offset` on.
pub record Reads (d : Device) (content : InodeDisk) (size offset : ℕ) (bs : List ℕ) : Type 0 where
  pub cnt : length bs ≡ min size (content.length - offset)
  pub right : (i : ℕ) → i < length bs → file_byte d content (offset + i) ≡ some (get_or bs i 0)

-- One chunk in front of what the later rounds read.
Reads-cons :
    (d : Device) (content : InodeDisk) (size offset chunk s : ℕ) (b rest : List ℕ)
    → chunk ≡ chunk_size content.length size offset
    → offset < content.length
    → byte_to_sector d content offset ≡ some s
    → read_bytes d s ≡ some b
    → length b ≡ 512
    → Reads d content (size - chunk) (offset + chunk) rest
    → Reads d content size offset (take chunk (drop (offset % 512) b) ++ rest)
unfolding file_byte
Reads-cons d content size offset chunk s b rest ec lt es eb cb r =
    let part = take chunk (drop (offset % 512) b) in
    let len : length part ≡ chunk =
      omega (arith, length-take chunk (drop (offset % 512) b), length-drop (offset % 512) b) in
    record {
      cnt = omega (arith, length-append part rest, len, r.cnt);
      right = λ i h. elim (dec_lt i chunk) [
        | yes near ↦
            let e1 : byte_to_sector d content (offset + i) ≡ some s =
              sym (same_block d content offset (offset + i) lt (omega arith) (omega arith)) ∙ es in
            let e2 : (offset + i) % 512 ≡ offset % 512 + i = omega arith in
            rw (e1, eb, e2)
              (ap some (
                sym (
                  get_or-append_left part rest i 0 (omega (arith, len))
                  ∙ get_or-take chunk (drop (offset % 512) b) i 0 near
                  ∙ get_or-drop (offset % 512) b i (offset % 512 + i) 0 refl)))
        | no far ↦
            let at : offset + i ≡ offset + chunk + (i - chunk) = omega arith in
            ap (file_byte d content) at
            ∙ r.right (i - chunk) (omega (arith, length-append part rest, len))
            ∙ ap some (sym (get_or-append_right part rest i (i - chunk) 0 (omega (arith, len))))
      ];
    }

or_true : (b : Bool) → (b || true) ≡ true
or_true true = refl
or_true false = refl

read_from-Reads :
    (d : Device) (content : InodeDisk) (fuel size offset : ℕ)
    → IsReadable d content
    → size ≤ fuel
    → (bs : List ℕ) × (read_from true d content fuel size offset ≡ some bs)
      × Reads d content size offset bs
unfolding read_from
read_from-Reads d content zero size offset r le =
    ([], refl, record { cnt = omega arith; right = λ i h. absurd (omega arith) })
read_from-Reads d content (suc fuel) size offset r le =
    elim (ℕ_discrete (chunk_size content.length size offset) 0) [
      | yes stop ↦
          let stops : ((size == 0) || (chunk_size content.length size offset == 0)) ≡ true =
            ground arith in
          ([], rw stops refl, record { cnt = omega arith; right = λ i h. absurd (omega arith) })
      | no go ↦
          let goes : ((size == 0) || (chunk_size content.length size offset == 0)) ≡ false =
            ground arith in
          let (s, b, es, eb, cb) = r.blocks offset (omega arith) in
          let (rest, e, reads) =
            read_from-Reads d content fuel (size - chunk_size content.length size offset)
              (offset + chunk_size content.length size offset) r (omega arith) in
          (
            take (chunk_size content.length size offset) (drop (offset % 512) b) ++ rest,
            rw (goes, or_true, es, eb, e) refl,
            Reads-cons d content size offset (chunk_size content.length size offset) s b rest refl
                (omega arith) es eb cb reads,
          )
    ]

-- When the bounce buffer can be allocated and every byte of the file has a readable block,
-- `inode_read_at` fails nowhere. It reads as many bytes as were asked for and lie between the
-- offset and the end of the file (none from beyond the end), and each is the byte of the file at
-- its position.
pub read_at-Reads :
    (d : Device) (content : InodeDisk) (size offset : ℕ)
    → IsReadable d content
    → (bs : List ℕ) × (read_at true d content size offset ≡ some bs)
      × Reads d content size offset bs
unfolding read_at
read_at-Reads d content size offset r = elim (dec_lt content.length offset) [
  | yes beyond ↦
      let past : ltb content.length offset ≡ true = ground arith in
      ([], rw past refl, record { cnt = omega arith; right = λ i h. absurd (omega arith) })
  | no within ↦
      let inside : ltb content.length offset ≡ false = ground arith in
      let (bs, e, reads) = read_from-Reads d content size size offset r (omega arith) in
      (bs, rw inside e, reads)
]
