-- ===== src/Fs/FreeMap/Grows.antt =====
-- What it means that sectors were taken from the free map, one operation after another.
use cs.Base.{
  ℕ, ◌+◌, ◌<◌, ◌≡◌, refl, sym, inl, inr, ◌∙◌, Bool, true, false, some, List, [], ◌++◌, length,
  arith, length-append, subst, Bool-cases,
}
use cs.Bitmap.{Bitmap}
use cs.Bitmap.Bits.{IsValid, view}
use cs.Bitmap.Multiple.{tally}
use cs.Fs.Device.{Device, Block, put}
use native.Mathlib.Decide.{ℕ_discrete}
use cs.Fs.FreeMap.{Fs, MapFile}
pub use cs.Base.{In, Distinct, In-append, In-append_left, In-append_right, Distinct-append}

-- The number of free sectors.
abbrev pub free_cnt : Fs → ℕ
free_cnt fs = tally (view fs.free_map) false fs.free_map.bit_cnt 0

-- The write-through to the map file, where it is open, succeeds and touches only the sectors of
-- that file, which `own` tells.
pub record Persists (file : MapFile) (own : ℕ → Bool) : Type 0 where
  pub writes :
      (map : Bitmap) (d : Device)
      → (d' : Device) × (file.write map d ≡ some (true, d'))
        × (d'.size ≡ d.size)
        × ((s : ℕ) → own s ≡ false → d'.sector s ≡ d.sector s)

module _ (own : ℕ → Bool) where
  -- The free map has a bit for each sector of the device, and the map file's sectors are taken.
  pub record IsMounted (fs : Fs) : Type 0 where
    pub valid : IsValid fs.free_map
    pub sized : fs.free_map.bit_cnt ≡ fs.device.size
    pub owned : (s : ℕ) → own s ≡ true → view fs.free_map s ≡ true

  -- From fs to fs' the sectors xs, and no other, were taken: all were free, none twice; no other
  -- sector changed its content but those of the map file.
  pub record Grows (fs : Fs) (xs : List ℕ) (fs' : Fs) : Type 0 where
    pub mounted : IsMounted fs'
    pub size : fs'.device.size ≡ fs.device.size
    pub same_cwd : fs'.cwd ≡ fs.cwd
    pub were_free : (s : ℕ) → In s xs → (s < fs.device.size) × (view fs.free_map s ≡ false)
    pub now_used : (s : ℕ) → In s xs → view fs'.free_map s ≡ true
    pub others : (s : ℕ) → ¬ In s xs → view fs'.free_map s ≡ view fs.free_map s
    pub distinct : Distinct xs
    pub frame : (s : ℕ) → own s ≡ false → ¬ In s xs → fs'.device.sector s ≡ fs.device.sector s
    pub counted : free_cnt fs ≡ length xs + free_cnt fs'

  pub Grows-nothing : {fs : Fs} → IsMounted fs → Grows fs [] fs
  Grows-nothing m = record {
    mounted = m;
    size = refl;
    same_cwd = refl;
    were_free = λ s h. absurd h;
    now_used = λ s h. absurd h;
    others = λ s h. refl;
    distinct = tt;
    frame = λ s o h. refl;
    counted = omega arith;
  }

  -- A sector that was used before is none of those taken.
  pub Grows-old :
      {fs fs' : Fs} {xs : List ℕ} (s : ℕ) → Grows fs xs fs' → view fs.free_map s ≡ true → ¬ In s xs
  Grows-old s g u h = cc (g.were_free s h).1

  pub Grows-trans :
      {fs fs' fs'' : Fs} {xs ys : List ℕ}
      → Grows fs xs fs'
      → Grows fs' ys fs''
      → Grows fs (xs ++ ys) fs''
  Grows-trans {fs} {fs'} {fs''} {xs} {ys} f g = record {
    mounted = g.mounted;
    size = g.size ∙ f.size;
    same_cwd = g.same_cwd ∙ f.same_cwd;
    were_free = λ s h. elim (In-append s xs ys h) [
      | inl a ↦ f.were_free s a
      | inr b ↦
          let apart : ¬ In s xs = λ a. cc (f.now_used s a, (g.were_free s b).1) in
          (omega (arith, (g.were_free s b).0, f.size), sym (f.others s apart) ∙ (g.were_free s b).1)
    ];
    now_used = λ s h. elim (In-append s xs ys h) [
      | inl a ↦ g.others s (Grows-old s g (f.now_used s a)) ∙ f.now_used s a
      | inr b ↦ g.now_used s b
    ];
    others = λ s h.
        g.others s (λ b. h (In-append_right s xs ys b))
        ∙ f.others s (λ a. h (In-append_left s xs ys a));
    distinct =
        Distinct-append xs ys f.distinct g.distinct (λ s a b. Grows-old s g (f.now_used s a) b);
    frame = λ s o h.
        g.frame s o (λ b. h (In-append_right s xs ys b))
        ∙ f.frame s o (λ a. h (In-append_left s xs ys a));
    counted = omega (arith, f.counted, g.counted, length-append xs ys);
  }

  -- Writing one of the sectors that were taken.
  pub Grows-put :
      {fs fs' : Fs} {xs : List ℕ} (s : ℕ) (b : Block)
      → Grows fs xs fs'
      → In s xs
      → Grows fs xs (record fs' { device = put fs'.device s b })
  Grows-put {xs = xs} s b g h = record {
    mounted = record { valid = g.mounted.valid; sized = g.mounted.sized; owned = g.mounted.owned };
    size = g.size;
    same_cwd = g.same_cwd;
    were_free = g.were_free;
    now_used = g.now_used;
    others = g.others;
    distinct = g.distinct;
    frame = λ t o ne. elim (ℕ_discrete s t) [
      | yes e ↦ absurd (ne (subst (λ k. In k xs) e h))
      | no other ↦ ground (arith, g.frame t o ne)
    ];
    counted = g.counted;
  }

  -- A sector that the operation took is not the map file's.
  pub Grows-own :
      {fs fs' : Fs} {xs : List ℕ} (s : ℕ) → IsMounted fs → Grows fs xs fs' → In s xs → own s ≡ false
  Grows-own s m g h = elim (Bool-cases (own s)) [
    | inl mine ↦ cc (m.owned s mine, (g.were_free s h).1)
    | inr other ↦ other
  ]

  -- A later operation leaves the content of a sector taken before.
  pub Grows-kept :
      {fs fs' fs'' : Fs} {xs ys : List ℕ} (s : ℕ)
      → IsMounted fs
      → Grows fs xs fs'
      → In s xs
      → Grows fs' ys fs''
      → fs''.device.sector s ≡ fs'.device.sector s
  Grows-kept s m f h g = g.frame s (Grows-own s m f h) (Grows-old s g (f.now_used s h))
