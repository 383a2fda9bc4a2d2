-- ===== src/Vm/Swap/Round.antt =====
-- swap.c: a page that was stored is loaded again.
use native.Mathlib.Decide.{ℕ_discrete}
use cs.Base.{
  ℕ, zero, suc, ◌+◌, ◌*◌, ◌-◌, ◌/◌, ◌%◌, ◌^◌, ◌<◌, ◌≤◌, ◌≡◌, ◌≢◌, refl, sym, ap, ◌∙◌, ◌⊎◌, true,
  false, Bool-cases, inl, inr, none, some, List, ltb, ◌==◌, get_or, arith, ◌>>=◌,
}
use cs.Bitmap
use cs.Bitmap.{Bitmap, bitmap_error}
use cs.Bitmap.Bits.{IsValid, view, Filled}
use cs.Bitmap.Scan.{FirstFit, scan_and_flip-Filled}
use cs.Fs.Device.{Device, Block, bytes, put, block_write, block_write-put}
use cs.Kernel.Linked.{Ends}
use cs.Vm.Outcome.{returns}
use cs.Vm.Page.{SupPages, in_memory, in_swap, change_page_location}
use cs.Vm.Swap.{Swap, new_lock, bytes_at, write_sectors, sector_base, store, load_swap}
use cs.Vm.Swap.Load.{Holds, load_swap-Loads}

get_or-bytes_at :
    (n a j : ℕ) (memory : ℕ → ℕ) → j < n → get_or (bytes_at n memory a) j 0 ≡ memory (a + j)
unfolding bytes_at
get_or-bytes_at zero a j memory lt = absurd (omega (arith, lt))
get_or-bytes_at (suc n) a zero memory lt = ap memory (omega arith)
get_or-bytes_at (suc n) a (suc j) memory lt =
    get_or-bytes_at n (a + 1) j memory (omega (arith, lt)) ∙ ap memory (omega arith)

-- The sectors of the slot at `base` after those from i on were written.
pub record Wrote (memory : ℕ → ℕ) (uaddr base i : ℕ) (d d' : Device) : Type 0 where
  pub same_size : d'.size ≡ d.size
  pub written :
      (j : ℕ) → i ≤ j → j < 8 → d'.sector (base + j) ≡ bytes (bytes_at 512 memory (512 * j + uaddr))
  pub kept : (t : ℕ) → (t < base + i) ⊎ (base + 8 ≤ t) → d'.sector t ≡ d.sector t

write_one :
    (base i : ℕ) (d : Device) (content : Block)
    → base + i < d.size
    → d.size ≤ 2 ^ 32
    → block_write d ((base + i) % 2 ^ 32) content ≡ some (put d (base + i) content)
write_one base i d content fits small =
    let at_i : (base + i) % 2 ^ 32 ≡ base + i = ground arith in
    ap (λ t. block_write d t content) at_i ∙ block_write-put d (base + i) content fits

put_self : (d : Device) (s : ℕ) (b : Block) → (put d s b).sector s ≡ b
put_self d s b = let here : (s == s) ≡ true = ground arith in rw here refl

put_other : (d : Device) (s t : ℕ) (b : Block) → s ≢ t → (put d s b).sector t ≡ d.sector t
put_other d s t b ne = let other : (s == t) ≡ false = ground arith in rw other refl

write_sectors-Wrote :
    (n i uaddr base : ℕ) (memory : ℕ → ℕ) (d : Device)
    → n + i ≡ 8
    → base + 8 ≤ d.size
    → d.size ≤ 2 ^ 32
    → (d' : Device) × (write_sectors n i memory base uaddr d ≡ some d')
      × Wrote memory uaddr base i d d'
unfolding write_sectors
write_sectors-Wrote zero i uaddr base memory d e room small = (
  d,
  refl,
  record {
    same_size = refl;
    written = λ j a b. absurd (omega (arith, a, b, e));
    kept = λ t o. refl;
  },
)
write_sectors-Wrote (suc n) i uaddr base memory d e room small =
    let content = bytes (bytes_at 512 memory (512 * i + uaddr)) in
    let fits : base + i < d.size = omega (arith, room, e) in
    let (d', done, w) =
      write_sectors-Wrote n (i + 1) uaddr base memory (put d (base + i) content) (omega (arith, e))
        room small in
    (
      d',
      ap (λ m. m >>= write_sectors n (i + 1) memory base uaddr)
            (write_one base i d content fits small)
          ∙ done,
      record {
        same_size = w.same_size;
        written = λ j a b. elim (ℕ_discrete i j) [
          | yes same ↦
              w.kept (base + j) (inl (omega (arith, same)))
              ∙ ap (λ t. (put d (base + i) content).sector (base + t)) (sym same)
              ∙ put_self d (base + i) content
              ∙ ap (λ t. bytes (bytes_at 512 memory (512 * t + uaddr))) same
          | no other ↦ w.written j (omega (arith, a, other)) b
        ];
        kept = λ t o.
            w.kept t (elim o [ inl a ↦ inl (omega (arith, a)) | inr b ↦ inr b ])
            ∙ put_other d (base + i) t content
                (λ z. elim o [ inl a ↦ omega (arith, a, z) | inr b ↦ omega (arith, b, z, e) ]);
      },
    )

-- A scan from the start finds a free slot when there is one.
found_free :
    (b : Bitmap) (r j : ℕ)
    → IsValid b
    → FirstFit (view b) false 1 b.bit_cnt 0 r
    → j < b.bit_cnt
    → view b j ≡ false
    → r ≢ bitmap_error
found_free b r j v f lt free e =
    let small : b.bit_cnt + 32 < 2 ^ 32 = v.small in
    let (i, lo, hi, used) =
      f.first j (omega arith) (omega (arith, e, lt, small)) (omega (arith, lt)) in
    let same : i ≡ j = omega (arith, lo, hi) in absurd (cc (used, same, free))

-- The page is in memory again, and the same slots are in use.
pub record Restored (uaddr : ℕ) (s s' : Swap) : Type 0 where
  pub in_page : (x : ℕ) → uaddr ≤ x → x < uaddr + 4096 → s'.memory x ≡ s.memory x
  pub slots : (i : ℕ) → view s'.swap_bitmap i ≡ view s.swap_bitmap i

Filled-freed :
    (b b' b'' : Bitmap) (k i : ℕ)
    → Filled b k 1 true b'
    → Filled b' k 1 false b''
    → view b k ≡ false
    → view b'' i ≡ view b i
Filled-freed b b' b'' k i f g free = elim (ℕ_discrete i k) [
  | yes same ↦
      g.inside i (omega (arith, same)) (omega (arith, same)) ∙ sym (ap (view b) same ∙ free)
  | no other ↦
      let apart : (i < k) ⊎ (k + 1 ≤ i) = elim (Bool-cases (ltb i k)) [
        | inl below ↦ inl (ground arith)
        | inr above ↦ inr (ground (arith, other))
      ] in
      g.outside i apart ∙ f.outside i apart
]

store_lem :
    (current fuel uaddr k : ℕ) (copy : Ends) (s : Swap) (map : Bitmap) (d : Device)
    (pages : SupPages)
    → Bitmap.scan_and_flip s.swap_bitmap 0 1 false ≡ some (k, map)
    → sector_base k ≡ k * 8
    → write_sectors 8 0 s.memory (k * 8) uaddr s.block_device ≡ some d
    → change_page_location fuel copy uaddr in_swap (some k) s.pages ≡ some pages
    → store current fuel copy uaddr s
      ≡ some (k, record s { swap_bitmap = map; block_device = d; pages = pages })
unfolding store
store_lem current fuel uaddr k copy s map d pages scanned base done page =
    rw (scanned, base, done, page) refl

module _ (current fuel uaddr : ℕ) (copy : Ends) (s : Swap) (stored brought : ℕ → SupPages)
    (valid : IsValid s.swap_bitmap) (room : s.swap_bitmap.bit_cnt * 8 ≤ s.block_device.size)
    (small : s.block_device.size ≤ 2 ^ 32)
    (out : (k : ℕ)
      → change_page_location fuel copy uaddr in_swap (some k) s.pages ≡ some (stored k))
    (back : (k : ℕ)
      → change_page_location fuel copy uaddr in_memory none (stored k) ≡ some (brought k)) where
  -- What a store leaves.
  pub record Stored (k : ℕ) (s1 : Swap) : Type 0 where
    pub was_free : view s.swap_bitmap k ≡ false
    pub within : k < s.swap_bitmap.bit_cnt
    pub slot : Filled s.swap_bitmap k 1 true s1.swap_bitmap
    pub sectors : Wrote s.memory uaddr (k * 8) 0 s.block_device s1.block_device
    pub pages : s1.pages ≡ stored k

  store-Stored :
      (j : ℕ)
      → j < s.swap_bitmap.bit_cnt
      → view s.swap_bitmap j ≡ false
      → (k : ℕ) × (s1 : Swap) × (store current fuel copy uaddr s ≡ some (k, s1)) × Stored k s1
  store-Stored j lt free =
      let (k, map, scanned, f, _, fill) =
        scan_and_flip-Filled {b = s.swap_bitmap} 0 1 false valid (omega arith) in
      let ne = found_free s.swap_bitmap k j valid f lt free in
      let (_, hi, run) = f.fits ne in
      let within : k < s.swap_bitmap.bit_cnt = omega (arith, hi) in
      let fits : k * 8 + 8 ≤ s.block_device.size = omega (arith, within, room) in
      let base : sector_base k ≡ k * 8 = ground arith in
      let (d, done, w) =
        write_sectors-Wrote 8 0 uaddr (k * 8) s.memory s.block_device (omega arith) fits small in
      (
        k,
        record s { swap_bitmap = map; block_device = d; pages = stored k },
        store_lem current fuel uaddr k copy s map d (stored k) scanned base done (out k),
        record {
          was_free = run k (omega arith) (omega arith);
          within = within;
          slot = fill ne;
          sectors = w;
          pages = refl;
        },
      )

  -- Let the slots of the swap fit on its device, which has at most 2 ^ 32 sectors, and let the
  -- thread's table have the page at the address, before and after the store. When a slot is free,
  -- `store`, the work of `store_swap` under its lock, puts the page into a slot; when the lock is
  -- then free, and whatever the memory of the thread holds by then, `load_swap` of that slot
  -- returns, the page is in memory as it was stored, and the same slots are in use as before.
  pub store-load_swap :
      (j : ℕ) (memory : ℕ → ℕ)
      → j < s.swap_bitmap.bit_cnt
      → view s.swap_bitmap j ≡ false
      → (k : ℕ) × (s1 : Swap) × (store current fuel copy uaddr s ≡ some (k, s1))
        × (s2 : Swap) × (load_swap current fuel copy uaddr k
              (record s1 { memory = memory; swap_lock = new_lock })
            ≡ returns s2)
        × Restored uaddr s s2
  store-load_swap j memory lt free =
      let (k, s1, did, st) = store-Stored j lt free in
      let w = st.sectors in
      let sector : ℕ → List ℕ = λ i. bytes_at 512 s.memory (512 * i + uaddr) in
      let wide : k * 8 + 8 ≤ s.block_device.size = omega (arith, st.within, room) in
      let holds : Holds s1.block_device (k * 8) sector =
        λ i fits. (omega (arith, fits, wide, w.same_size), w.written i (omega arith) fits) in
      let (s2, loads, l) =
        load_swap-Loads current fuel uaddr k copy sector
          (record s1 { memory = memory; swap_lock = new_lock }) (brought k) refl st.slot.valid
          (omega (arith, st.within, st.slot.same_cnt))
          (st.slot.inside k (omega arith) (omega arith)) (omega (arith, small, w.same_size)) holds
          (ap (change_page_location fuel copy uaddr in_memory none) st.pages ∙ back k) in
      (
        k,
        s1,
        did,
        s2,
        loads,
        record {
          in_page = λ x a b.
              l.in_page x a b
              ∙ get_or-bytes_at 512 (512 * ((x - uaddr) / 512) + uaddr) ((x - uaddr) % 512) s.memory
                  (omega arith)
              ∙ ap s.memory (omega (arith, a));
          slots = λ i.
              Filled-freed s.swap_bitmap s1.swap_bitmap s2.swap_bitmap k i st.slot l.slot
                st.was_free;
        },
      )
