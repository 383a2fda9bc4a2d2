-- ===== src/Fs/Inode/Access/Write.antt =====
-- inode.c, `inode_write_at` inside a file: it writes the bytes of the buffer, and nothing else.
use native.Mathlib.Decide.{ℕ_discrete, dec_lt}
use cs.Base.{
  ℕ, zero, suc, ◌+◌, ◌-◌, ◌*◌, ◌/◌, ◌%◌, ◌≤◌, ◌<◌, ◌≡◌, ◌≢◌, ◌⊎◌, refl, sym, ap, ◌∙◌, Bool, true,
  false, Bool-cases, ◌||◌, ◌&&◌, some, List, [], ◌++◌, ltb, ◌==◌, if◌then◌else◌, get_or, take, drop,
  length, length-take, replicate, length-drop, length-append, get_or-take, get_or-drop,
  get_or-append_left, get_or-append_right, arith, inl, inr,
}
use cs.Fs.Device.{Device, InodeDisk, Block, bytes, put, block_write-put}
use cs.Fs.FreeMap.{Fs, MapFile}
use cs.Fs.Inode.Access.{read_bytes, chunk_size, write_from, merge}
use cs.Fs.Inode.Access.Read.{file_byte}
use cs.Fs.Inode.Access.Stored.{IsStored, put-IsStored, file_byte-put}

-- What a block is after a chunk of the buffer was copied over it.
pub record Merged (ofs chunk : ℕ) (b buffer nb : List ℕ) : Type 0 where
  pub full : length nb ≡ 512
  pub inside : (i : ℕ) → i < chunk → get_or nb (ofs + i) 0 ≡ get_or buffer i 0
  pub outside : (j : ℕ) → j < 512 → (j < ofs) ⊎ (ofs + chunk ≤ j) → get_or nb j 0 ≡ get_or b j 0

merge-Merged :
    (ofs chunk : ℕ) (b buffer : List ℕ)
    → length b ≡ 512
    → chunk ≤ length buffer
    → ofs + chunk ≤ 512
    → Merged ofs chunk b buffer (merge ofs chunk b buffer)
merge-Merged ofs chunk b buffer full enough fits =
    let front = take ofs b in
    let middle = take chunk buffer in
    let back = drop (ofs + chunk) b in
    let lf : length front ≡ ofs = omega (arith, length-take ofs b) in
    let lm : length middle ≡ chunk = omega (arith, length-take chunk buffer) in
    record {
      full = omega (
        arith,
        length-append front (middle ++ back),
        length-append middle back,
        lf,
        lm,
        length-drop (ofs + chunk) b,
      );
      inside = λ i lt.
          get_or-append_right front (middle ++ back) (ofs + i) i 0 (omega (arith, lf))
          ∙ get_or-append_left middle back i 0 (omega (arith, lm, lt))
          ∙ get_or-take chunk buffer i 0 lt;
      outside = λ j lt o. elim o [
        | inl before ↦
            get_or-append_left front (middle ++ back) j 0 (omega (arith, lf, before))
            ∙ get_or-take ofs b j 0 before
        | inr behind ↦
            get_or-append_right front (middle ++ back) j (j - ofs) 0 (omega (arith, lf, behind))
            ∙ get_or-append_right middle back (j - ofs) (j - ofs - chunk) 0
                (omega (arith, lm, behind))
            ∙ get_or-drop (ofs + chunk) b (j - ofs - chunk) j 0 (omega (arith, behind))
      ];
    }

-- A whole block comes from the buffer alone.
whole-Merged :
    (b buffer : List ℕ) (chunk : ℕ)
    → chunk ≡ 512
    → chunk ≤ length buffer
    → Merged 0 chunk b buffer (merge 0 chunk [] buffer)
whole-Merged b buffer chunk e enough =
    let middle = take chunk buffer in
    let rest = drop {A = ℕ} (0 + chunk) [] in
    let lm : length middle ≡ chunk = omega (arith, length-take chunk buffer) in
    let lr : length rest ≡ 0 = omega (arith, length-drop {A = ℕ} (0 + chunk) []) in
    record {
      full = omega (arith, length-append middle rest, lm, lr, e);
      inside = λ i lt.
          ap (λ j. get_or (middle ++ rest) j 0) (omega arith)
          ∙ get_or-append_left middle rest i 0 (omega (arith, lm, lt))
          ∙ get_or-take chunk buffer i 0 lt;
      outside =
          λ j lt o. absurd (elim o [ inl z ↦ omega (arith, z) | inr z ↦ omega (arith, z, e, lt) ]);
    }

-- The file after a write of n bytes of the buffer at the offset.
pub record Written (content : InodeDisk) (n offset : ℕ) (buffer : List ℕ) (d d' : Device)
    : Type 0 where
  pub inside : (i : ℕ) → i < n → file_byte d' content (offset + i) ≡ some (get_or buffer i 0)
  pub outside :
      (pos : ℕ)
      → pos < content.length
      → (pos < offset) ⊎ (offset + n ≤ pos)
      → file_byte d' content pos ≡ file_byte d content pos

-- One block of the file replaced by its merge with a chunk.
put-Written :
    (d : Device) (content : InodeDisk) (sector_of : ℕ → ℕ) (offset chunk : ℕ) (b nb buffer : List ℕ)
    → IsStored d content sector_of
    → read_bytes d (sector_of (offset / 512)) ≡ some b
    → offset + chunk ≤ content.length
    → 0 < chunk
    → offset % 512 + chunk ≤ 512
    → Merged (offset % 512) chunk b buffer nb
    → Written content chunk offset buffer d (put d (sector_of (offset / 512)) (bytes nb))
unfolding file_byte
put-Written d content sector_of offset chunk b nb buffer st was within pos fits m =
    let changed =
      file_byte-put d content sector_of st (offset / 512) (omega (arith, within, pos)) nb m.full in
    record {
      inside = λ i lt.
          let same : ((offset + i) / 512 == offset / 512) ≡ true = ground arith in
          let at : (offset + i) % 512 ≡ offset % 512 + i = omega (arith, lt, fits) in
          changed (offset + i) (omega (arith, lt, within))
          ∙ rw (same, at) (ap some (m.inside i lt));
      outside = λ p lt o. elim (ℕ_discrete (p / 512) (offset / 512)) [
        | yes same ↦
            let here : (p / 512 == offset / 512) ≡ true = ground arith in
            changed p lt
            ∙ rw here (
                ap some (
                  m.outside (p % 512) (omega arith) (elim o [
                    | inl before ↦ inl (omega (arith, before, same))
                    | inr behind ↦ inr (omega (arith, behind, same))
                  ]))
                ∙ sym (stored_byte p lt same))
        | no other ↦
            let there : (p / 512 == offset / 512) ≡ false = ground arith in
            changed p lt ∙ rw there refl
      ];
    }
  where
    stored_byte :
        (p : ℕ)
        → p < content.length
        → p / 512 ≡ offset / 512
        → file_byte d content p ≡ some (get_or b (p % 512) 0)
    stored_byte p lt same = rw (st.found p lt, same, was) refl

Written-append :
    (content : InodeDisk) (size chunk offset : ℕ) (buffer : List ℕ) (d d1 d2 : Device)
    → chunk ≤ size
    → offset + size ≤ content.length
    → Written content chunk offset buffer d d1
    → Written content (size - chunk) (offset + chunk) (drop chunk buffer) d1 d2
    → Written content size offset buffer d d2
Written-append content size chunk offset buffer d d1 d2 le fits w1 w2 = record {
  inside = λ i lt. elim (dec_lt i chunk) [
    | yes near ↦
        w2.outside (offset + i) (omega (arith, lt, fits)) (inl (omega (arith, near)))
        ∙ w1.inside i near
    | no far ↦
        ap (file_byte d2 content) (omega (arith, far))
        ∙ w2.inside (i - chunk) (omega (arith, lt, far))
        ∙ ap some (get_or-drop chunk buffer (i - chunk) i 0 (omega (arith, far)))
  ];
  outside = λ pos lt o. elim o [
    | inl before ↦ w2.outside pos lt (inl (omega (arith, before))) ∙ w1.outside pos lt (inl before)
    | inr behind ↦
        w2.outside pos lt (inr (omega (arith, behind, le)))
        ∙ w1.outside pos lt (inr (omega (arith, behind, le)))
  ];
}

-- The device after a write: the file's bytes, and no sector but those of its blocks.
pub record Writes (content : InodeDisk) (sector_of : ℕ → ℕ) (n offset : ℕ) (buffer : List ℕ)
    (d d' : Device) : Type 0 where
  pub written : Written content n offset buffer d d'
  pub stored : IsStored d' content sector_of
  pub same_size : d'.size ≡ d.size
  pub elsewhere :
      (s : ℕ) → ((k : ℕ) → k * 512 < content.length → s ≢ sector_of k) → d'.sector s ≡ d.sector s

-- What a round merges with the buffer: the block as it was, unless the buffer covers it.
old_block :
    (d : Device) (s chunk offset : ℕ) (b buffer : List ℕ)
    → read_bytes d s ≡ some b
    → length b ≡ 512
    → chunk ≤ length buffer
    → offset % 512 + chunk ≤ 512
    → (old : List ℕ) × ((if (offset % 512 == 0) && (chunk == 512)
          then some []
          else (if ltb 0 (offset % 512) || ltb chunk (512 - offset % 512)
              then read_bytes d s
              else some (replicate 512 0)))
        ≡ some old)
      × Merged (offset % 512) chunk b buffer (merge (offset % 512) chunk old buffer)
old_block d s chunk offset b buffer was full enough fits =
    elim (Bool-cases ((offset % 512 == 0) && (chunk == 512))) [
      | inl whole ↦
          let start : offset % 512 ≡ 0 = ground arith in
          let all : chunk ≡ 512 = ground arith in
          ([], rw whole refl, rw start (whole-Merged b buffer chunk all enough))
      | inr part ↦
          let reads : (ltb 0 (offset % 512) || ltb chunk (512 - offset % 512)) ≡ true =
            ground arith in
          (b, rw (part, reads) was, merge-Merged (offset % 512) chunk b buffer full enough fits)
    ]

Writes-none :
    (content : InodeDisk) (sector_of : ℕ → ℕ) (size offset : ℕ) (buffer : List ℕ) (d : Device)
    → IsStored d content sector_of
    → size ≡ 0
    → Writes content sector_of size offset buffer d d
Writes-none content sector_of size offset buffer d st e = record {
  written = record { inside = λ i lt. absurd (omega (arith, lt, e)); outside = λ pos lt o. refl };
  stored = st;
  same_size = refl;
  elsewhere = λ s out. refl;
}

put_elsewhere : (d : Device) (s t : ℕ) (b : Block) → t ≢ s → (put d s b).sector t ≡ d.sector t
put_elsewhere d s t b ne = let other : (s == t) ≡ false = ground arith in rw other refl

no_bounce : (b : Bool) → (b || true) ≡ true
no_bounce true = refl
no_bounce false = refl

pub write_from-Writes :
    (file : MapFile) (content : InodeDisk) (sector_of : ℕ → ℕ) (fuel size offset : ℕ)
    (buffer : List ℕ) (fs : Fs)
    → IsStored fs.device content sector_of
    → size ≤ fuel
    → offset + size ≤ content.length
    → size ≤ length buffer
    → (d' : Device) × (write_from file true content fuel size offset buffer fs
        ≡ some (size, record fs { device = d' }))
      × Writes content sector_of size offset buffer fs.device d'
unfolding write_from
write_from-Writes file content sector_of zero size offset buffer fs st le fits enough = (
  fs.device,
  ap (λ n. some (n, fs)) (omega (arith, le)),
  Writes-none content sector_of size offset buffer fs.device st (omega (arith, le)),
)
write_from-Writes file content sector_of (suc fuel) size offset buffer fs st le fits enough =
    elim (ℕ_discrete size 0) [
      | yes none_left ↦
          let stops : ((size == 0) || (chunk_size content.length size offset == 0)) ≡ true =
            ground arith in
          (
            fs.device,
            rw stops (ap (λ n. some (n, fs)) (sym none_left)),
            Writes-none content sector_of size offset buffer fs.device st none_left,
          )
      | no more ↦
          let chunk = chunk_size content.length size offset in
          let goes : ((size == 0) || (chunk == 0)) ≡ false = ground arith in
          let (b, was, full) = st.block (offset / 512) (omega arith) in
          let at = st.found offset (omega arith) in
          let (old, taken, m) =
            old_block fs.device (sector_of (offset / 512)) chunk offset b buffer was full
              (omega arith) (omega arith) in
          let nb = merge (offset % 512) chunk old buffer in
          let d1 = put fs.device (sector_of (offset / 512)) (bytes nb) in
          let w1 =
            put-Written fs.device content sector_of offset chunk b nb buffer st was (omega arith)
              (omega arith) (omega arith) m in
          let st1 =
            put-IsStored fs.device content sector_of st (offset / 512) (omega arith) nb m.full in
          let (d', rest, w2) =
            write_from-Writes file content sector_of fuel (size - chunk) (offset + chunk)
              (drop chunk buffer) (record fs { device = d1 }) st1 (omega arith) (omega arith)
              (omega (arith, enough, length-drop chunk buffer)) in
          let sum : chunk + (size - chunk) ≡ size = omega arith in
          (
            d',
            rw
                (
                  goes,
                  no_bounce ((offset % 512 == 0) && (chunk == 512)),
                  at,
                  taken,
                  block_write-put fs.device (sector_of (offset / 512)) (bytes nb)
                      (st.in_range (offset / 512) (omega arith)),
                  rest,
                  sum,
                )
                refl,
            record {
              written =
                  Written-append content size chunk offset buffer fs.device d1 d' (omega arith) fits
                    w1 w2.written;
              stored = w2.stored;
              same_size = w2.same_size;
              elsewhere = λ s out.
                  w2.elsewhere s out
                  ∙ put_elsewhere fs.device (sector_of (offset / 512)) s (bytes nb)
                      (out (offset / 512) (omega arith));
            },
          )
    ]
