-- ===== src/Fs/FreeMap/Laid.antt =====
-- Data blocks laid out: sectors taken from the free map, some of them as data blocks of a file.
use cs.Base.{ℕ, ◌≡◌, inl, inr, ◌∙◌, Bool, List, [], ◌∷◌, ◌++◌}
use cs.Fs.Device.{zeros}
use cs.Fs.FreeMap.{Fs}
use cs.Fs.FreeMap.Grows.{
  In, Distinct, Distinct-append, In-append, In-append_left, In-append_right, IsMounted, Grows,
  Grows-nothing, Grows-trans, Grows-kept, Grows-old,
}

module _ (own : ℕ → Bool) where
  -- The sectors taken from fs to fs', and those among them that are data blocks, in order: none
  -- twice, and each holding zeros.
  pub record Laid (fs : Fs) (taken ds : List ℕ) (fs' : Fs) : Type 0 where
    pub grows : Grows own fs taken fs'
    pub inside : (s : ℕ) → In s ds → In s taken
    pub distinct : Distinct ds
    pub blank : (s : ℕ) → In s ds → fs'.device.sector s ≡ zeros

  pub Laid-nothing : {fs : Fs} → IsMounted own fs → Laid fs [] [] fs
  Laid-nothing m = record {
    grows = Grows-nothing own m;
    inside = λ s h. h;
    distinct = tt;
    blank = λ s h. absurd h;
  }

  pub Laid-trans :
      {fs fs' fs'' : Fs} {t u ds es : List ℕ}
      → IsMounted own fs
      → Laid fs t ds fs'
      → Laid fs' u es fs''
      → Laid fs (t ++ u) (ds ++ es) fs''
  Laid-trans {t = t} {u = u} {ds = ds} {es = es} m f g = record {
    grows = Grows-trans own f.grows g.grows;
    inside = λ s h. elim (In-append s ds es h) [
      | inl a ↦ In-append_left s t u (f.inside s a)
      | inr b ↦ In-append_right s t u (g.inside s b)
    ];
    distinct =
        Distinct-append ds es f.distinct g.distinct
          (λ s a b. Grows-old own s g.grows (f.grows.now_used s (f.inside s a)) (g.inside s b));
    blank = λ s h. elim (In-append s ds es h) [
      | inl a ↦ Grows-kept own s m f.grows (f.inside s a) g.grows ∙ f.blank s a
      | inr b ↦ g.blank s b
    ];
  }

  -- A single block added and zeroed.
  pub Laid-one :
      {fs fs' : Fs} {s : ℕ}
      → Grows own fs (s ∷ []) fs'
      → fs'.device.sector s ≡ zeros
      → Laid fs (s ∷ []) (s ∷ []) fs'
  Laid-one {s = s} g z = record {
    grows = g;
    inside = λ t h. h;
    distinct = (λ h. h, tt);
    blank = λ t h. elim h [ inl e ↦ rw e z | inr none_left ↦ absurd none_left ];
  }
