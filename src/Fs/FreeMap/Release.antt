-- ===== src/Fs/FreeMap/Release.antt =====
-- free-map.c, `free_map_release`: the sectors given back.
use native.Mathlib.Decide.{dec_lt}
use cs.Base.{
  ℕ, ◌+◌, ◌<◌, ◌≤◌, ◌≡◌, ◌≢◌, refl, sym, ap, ◌∙◌, subst, ◌⊎◌, inl, inr, Bool, true, false, Option,
  some, List, [], ◌∷◌, Bool-cases, arith, In, Distinct, ◌>>=◌,
}
use cs.Bitmap
use cs.Bitmap.{Bitmap}
use cs.Bitmap.Bits.{IsValid, view}
use cs.Bitmap.Multiple.{set_multiple-Filled, contains-Answers}
use cs.Fs.FreeMap.{Fs, MapFile, release}
use cs.Fs.FreeMap.Grows.{IsMounted, Persists}

-- From fs to fs' the sectors xs were given back, and nothing else changed but the map file.
pub record Frees (own : ℕ → Bool) (fs : Fs) (xs : List ℕ) (fs' : Fs) : Type 0 where
  pub mounted : IsMounted own fs'
  pub still_open : fs'.map_open ≡ true
  pub size : fs'.device.size ≡ fs.device.size
  pub freed : (s : ℕ) → In s xs → view fs'.free_map s ≡ false
  pub others : (s : ℕ) → ¬ In s xs → view fs'.free_map s ≡ view fs.free_map s
  pub frame : (s : ℕ) → own s ≡ false → fs'.device.sector s ≡ fs.device.sector s

-- `bitmap_all` of one bit.
all_one :
    {b : Bitmap} (s : ℕ)
    → IsValid b
    → s < b.bit_cnt
    → view b s ≡ true
    → Bitmap.all b s 1 ≡ some true
unfolding Bitmap.all
all_one {b} s v lt used =
    let (found, e, a) = contains-Answers {b = b} s 1 false v (omega arith) in
    elim (Bool-cases found) [
      | inl hit ↦
          let (j, lo, hi, free) = a.hit hit in
          let same : j ≡ s = omega arith in absurd (cc (ap (view b) same, free, used))
      | inr miss ↦ rw (e, miss) refl
    ]

module _ (file : MapFile) (own : ℕ → Bool) (p : Persists file own) where
  pub release-Frees :
      (fs : Fs) (s : ℕ)
      → IsMounted own fs
      → fs.map_open ≡ true
      → s < fs.device.size
      → view fs.free_map s ≡ true
      → own s ≡ false
      → (fs' : Fs) × (release file fs s 1 ≡ some fs') × Frees own fs (s ∷ []) fs'
  unfolding release
  release-Frees fs s m opened lt used other =
      let inside : s + 1 ≤ fs.free_map.bit_cnt = omega (arith, m.sized) in
      let (b, e, f) = set_multiple-Filled {b = fs.free_map} s 1 false m.valid inside in
      let (d, ed, size, kept) = p.writes b fs.device in
      let one = all_one {b = fs.free_map} s m.valid (omega arith) used in
      let outside : (t : ℕ) → s ≢ t → view b t ≡ view fs.free_map t =
        (λ t ne. f.outside t (beside s t ne)) in
      (
        record fs { free_map = b; device = d },
        rw (one, e, opened, ed) refl,
        record {
          mounted = record {
            valid = f.valid;
            sized = f.same_cnt ∙ m.sized ∙ sym size;
            owned = λ t o.
                outside t (λ z. cc (subst (λ x. own x ≡ true) (sym z) o, other)) ∙ m.owned t o;
          };
          still_open = opened;
          size = size;
          freed = λ t i. elim i [
            | inl z ↦ f.inside t (omega (arith, z)) (omega (arith, z))
            | inr n ↦ absurd n
          ];
          others = λ t out. outside t (λ z. out (inl (sym z)));
          frame = kept;
        },
      )
    where
      beside : (s t : ℕ) → s ≢ t → (t < s) ⊎ (s + 1 ≤ t)
      beside s t ne = elim (dec_lt t s) [ yes below ↦ inl below | no above ↦ inr (omega arith) ]

-- One sector after another is given back.
abbrev pub release_all : MapFile → List ℕ → Fs → Option Fs
release_all file [] fs = some fs
release_all file (s ∷ rest) fs = release file fs s 1 >>= release_all file rest

-- A sector that may be given back: it is in use, and not one of the map file's.
pub record MayFree (own : ℕ → Bool) (fs : Fs) (s : ℕ) : Type 0 where
  pub inside : s < fs.device.size
  pub used : view fs.free_map s ≡ true
  pub other : own s ≡ false

Frees-trans :
    {own : ℕ → Bool} {fs fs1 fs2 : Fs} {x : ℕ} {xs : List ℕ}
    → ¬ In x xs
    → Frees own fs (x ∷ []) fs1
    → Frees own fs1 xs fs2
    → Frees own fs (x ∷ xs) fs2
Frees-trans {x = x} {xs = xs} out f g = record {
  mounted = g.mounted;
  still_open = g.still_open;
  size = g.size ∙ f.size;
  freed = λ s i. elim i [
    | inl z ↦ g.others s (λ k. out (subst (λ t. In t xs) z k)) ∙ f.freed s (inl z)
    | inr later ↦ g.freed s later
  ];
  others = λ s o.
      g.others s (λ k. o (inr k))
      ∙ f.others s (λ k. o (elim k [ inl z ↦ inl z | inr n ↦ absurd n ]));
  frame = λ s o. g.frame s o ∙ f.frame s o;
}

module _ (file : MapFile) (own : ℕ → Bool) (p : Persists file own) where
  -- Different sectors that may all be given back: `free_map_release` of one after another succeeds,
  -- each of them is free then, no other bit changes, and no sector but those of the map file does.
  pub release_all-Frees :
      (fs : Fs) (xs : List ℕ)
      → IsMounted own fs
      → fs.map_open ≡ true
      → Distinct xs
      → ((s : ℕ) → In s xs → MayFree own fs s)
      → (fs' : Fs) × (release_all file xs fs ≡ some fs') × Frees own fs xs fs'
  release_all-Frees fs [] m opened d ok = (
    fs,
    refl,
    record {
      mounted = m;
      still_open = opened;
      size = refl;
      freed = λ s n. absurd n;
      others = λ s n. refl;
      frame = λ s o. refl;
    },
  )
  release_all-Frees fs (x ∷ xs) m opened d ok =
      let now = ok x (inl refl) in
      let (fs1, e, f) = release-Frees file own p fs x m opened now.inside now.used now.other in
      let (fs2, e2, g) = release_all-Frees fs1 xs f.mounted f.still_open d.1 (λ s i.
        let old = ok s (inr i) in
        record {
          inside = omega (arith, old.inside, f.size);
          used = f.others s (λ k. d.0 (subst (λ t. In t xs) (sole s k) i)) ∙ old.used;
          other = old.other;
        }) in
      (fs2, rw e e2, Frees-trans d.0 f g)
    where
      sole : (s : ℕ) → In s (x ∷ []) → s ≡ x
      sole s (inl z) = z
      sole s (inr n) = absurd n
