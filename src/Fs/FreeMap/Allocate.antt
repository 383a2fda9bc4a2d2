-- ===== src/Fs/FreeMap/Allocate.antt =====
-- free-map.c: what allocating and releasing sectors does, on every branch.
use native.Mathlib.Decide.{ℕ_discrete, dec_lt}
use cs.Base.{
  ℕ, ◌+◌, ◌≤◌, ◌<◌, ◌≡◌, ◌≢◌, refl, sym, inl, inr, ◌∙◌, ap, subst, ◌^◌, Bool, true, false, none,
  some, [], ◌∷◌, ◌==◌, arith, Bool-cases,
}
use cs.Bitmap.{Bitmap, bitmap_error}
use cs.Bitmap.Bits.{IsValid, view, Filled}
use cs.Bitmap.Multiple.{tally, set_multiple-Filled}
use cs.Bitmap.Scan.{FirstFit, scan_and_flip-Filled}
use cs.Bitmap.Tally.{tally_pos, tally_zero, tally_take}
use cs.Fs.Device.{Device}
use cs.Fs.FreeMap.{Fs, MapFile, sync, allocate}
use cs.Fs.FreeMap.Grows.{IsMounted, Grows, Persists, free_cnt}

module _ (file : MapFile) (own : ℕ → Bool) (p : Persists file own) where
  -- The write-through changes the device in the map file's sectors only.
  sync_ok :
      (fs : Fs)
      → (d : Device) × (sync file fs ≡ some (true, record fs { device = d }))
        × (d.size ≡ fs.device.size)
        × ((s : ℕ) → own s ≡ false → d.sector s ≡ fs.device.sector s)
  unfolding sync
  sync_ok fs = elim (Bool-cases fs.map_open) [
    | inl on ↦ let (d, e, z, keep) = p.writes fs.free_map fs.device in (d, rw (on, e) refl, z, keep)
    | inr off ↦ (fs.device, rw off refl, refl, λ s o. refl)
  ]

  -- One sector taken: from the facts that the scan and the write-through give.
  taken-Grows :
      (fs : Fs) (s : ℕ) (map : Bitmap) (d : Device)
      → IsMounted own fs
      → s < fs.free_map.bit_cnt
      → view fs.free_map s ≡ false
      → Filled fs.free_map s 1 true map
      → d.size ≡ fs.device.size
      → ((t : ℕ) → own t ≡ false → d.sector t ≡ fs.device.sector t)
      → Grows own fs (s ∷ []) (record fs { device = d; free_map = map })
  taken-Grows fs s map d m lt free fill size keep = record {
    mounted = record {
      valid = fill.valid;
      sized = fill.same_cnt ∙ m.sized ∙ sym size;
      owned = λ t o. elim (ℕ_discrete t s) [
        | yes here ↦ fill.inside t (omega arith) (omega arith)
        | no there ↦ fill.outside t (omega arith) ∙ m.owned t o
      ];
    };
    size = size;
    same_cwd = refl;
    were_free = λ t h. elim h [
      | inl e ↦ (omega (arith, m.sized), rw e free)
      | inr none_left ↦ absurd none_left
    ];
    now_used = λ t h. elim h [
      | inl e ↦ fill.inside t (omega arith) (omega arith)
      | inr none_left ↦ absurd none_left
    ];
    others = λ t ne. elim (ℕ_discrete t s) [
      | yes here ↦ absurd (ne (inl here))
      | no there ↦ fill.outside t (omega arith)
    ];
    distinct = (λ h. h, tt);
    frame = λ t o ne. keep t o;
    counted = omega (
      arith,
      tally_take (view fs.free_map) (view map) fs.free_map.bit_cnt 0 s (omega arith) (omega arith)
          free (fill.inside s (omega arith) (omega arith)) (λ j o. fill.outside j (omega arith)),
      ap (λ n. tally (view map) false n 0) fill.same_cnt,
    );
  }

  -- With a sector free, the scan of `allocate` finds the lowest one.
  scan_finds :
      (fs : Fs) (r : ℕ)
      → 0 < free_cnt fs
      → FirstFit (view fs.free_map) false 1 fs.free_map.bit_cnt 0 r
      → IsMounted own fs
      → (r ≢ bitmap_error)
        × (r < fs.free_map.bit_cnt)
        × (view fs.free_map r ≡ false)
        × ((j : ℕ) → j < r → view fs.free_map j ≡ true)
  scan_finds fs r h fit m =
      let (j, lo, hi, free) = tally_pos (view fs.free_map) fs.free_map.bit_cnt 0 h in
      let small : fs.free_map.bit_cnt + 32 < 2 ^ 32 = m.valid.small in
      let found : r ≢ bitmap_error = λ e.
        let (k, a, b, g) = fit.first j lo (omega arith) (omega arith) in
        let same : k ≡ j = omega arith in cc (g, free, ap (view fs.free_map) same) in
      let (start, fits, run) = fit.fits found in
      (
        found,
        omega arith,
        run r (omega arith) (omega arith),
        λ k lt.
            let (k', a, b, g) = fit.first k (omega arith) lt (omega arith) in
            subst (λ t. view fs.free_map t ≡ true) (omega arith) g,
      )

  -- Allocating one sector when one is free succeeds with the lowest free sector, and takes that
  -- sector and nothing else.
  pub allocate-Grows :
      (fs : Fs)
      → IsMounted own fs
      → 0 < free_cnt fs
      → (s : ℕ) × (fs' : Fs) × (allocate file fs 1 ≡ some (some s, fs'))
        × Grows own fs (s ∷ []) fs'
        × ((j : ℕ) → j < s → view fs.free_map j ≡ true)
  unfolding allocate
  allocate-Grows fs m h =
      let (r, map, e, fit, _, filled) =
        scan_and_flip-Filled {b = fs.free_map} 0 1 false m.valid (omega arith) in
      let (found, lt, free, lowest) = scan_finds fs r h fit m in
      let (d, e', z, keep) = sync_ok (record fs { free_map = map }) in
      (
        r,
        record fs { device = d; free_map = map },
        rw (e, e') (ground arith),
        taken-Grows fs r map d m lt free (filled found) z keep,
        lowest,
      )

-- Setting a free range and clearing it again.
Filled-undone :
    (b b' b'' : Bitmap) (r cnt : ℕ)
    → ((j : ℕ) → r ≤ j → j < r + cnt → view b j ≡ false)
    → Filled b r cnt true b'
    → Filled b' r cnt false b''
    → (s : ℕ) → view b'' s ≡ view b s
Filled-undone b b' b'' r cnt run f g s = elim (dec_lt s r) [
  | yes below ↦ g.outside s (inl below) ∙ f.outside s (inl below)
  | no at ↦ elim (dec_lt s (r + cnt)) [
    | yes inside ↦ g.inside s (omega arith) inside ∙ sym (run s (omega arith) inside)
    | no above ↦ g.outside s (inr (omega arith)) ∙ f.outside s (inr (omega arith))
  ]
]

module _ (file : MapFile) (own : ℕ → Bool) where
  -- With no sector free, allocating one returns false and changes nothing.
  pub allocate_full :
      (fs : Fs) → IsMounted own fs → free_cnt fs ≡ 0 → allocate file fs 1 ≡ some (none, fs)
  unfolding allocate
  allocate_full fs m h =
      let (r, map, e, fit, same, filled) =
        scan_and_flip-Filled {b = fs.free_map} 0 1 false m.valid (omega arith) in
      elim (ℕ_discrete r bitmap_error) [
        | yes fail ↦ rw (e, fail, same fail) refl
        | no found ↦
            let (_, fits, run) = fit.fits found in
            let used =
              tally_zero (view fs.free_map) fs.free_map.bit_cnt 0 r h (omega arith) (omega arith) in
            cc (used, run r (omega arith) (omega arith))
      ]

  -- When the map file cannot be written, an allocation of any number of sectors returns false, and
  -- every sector is as free in the map as before it.
  pub allocate_rolls_back :
      (fs : Fs) (cnt : ℕ)
      → IsMounted own fs
      → fs.map_open ≡ true
      → ((map : Bitmap) → (d : Device) × (file.write map fs.device ≡ some (false, d)))
      → (fs' : Fs) × (allocate file fs cnt ≡ some (none, fs'))
        × IsValid fs'.free_map
        × ((s : ℕ) → view fs'.free_map s ≡ view fs.free_map s)
  unfolding allocate sync
  allocate_rolls_back fs cnt m on broken =
      let (r, map, e, fit, same, filled) =
        scan_and_flip-Filled {b = fs.free_map} 0 cnt false m.valid (omega arith) in
      elim (ℕ_discrete r bitmap_error) [
        | yes fail ↦ (fs, rw (e, fail, same fail) refl, m.valid, λ s. refl)
        | no found ↦
            let (_, fits, run) = fit.fits found in
            let taken = filled found in
            let (d, de) = broken map in
            let (map', e', back) =
              set_multiple-Filled {b = map} r cnt false taken.valid
                (omega (arith, taken.same_cnt)) in
            let ok : (r == bitmap_error) ≡ false = ground arith in
            (
              record fs { device = d; free_map = map' },
              rw (e, ok, on, de, e') refl,
              back.valid,
              Filled-undone fs.free_map map map' r cnt run taken back,
            )
      ]
