-- ===== src/Bitmap/Scan.antt =====
-- bitmap.c, `bitmap_scan` and `bitmap_scan_and_flip`: first fit over the Boolean array.
use native.Mathlib.Decide.{ℕ_discrete, dec_le}
use cs.Base.{
  ℕ, max, zero, suc, ◌+◌, ◌-◌, ◌≤◌, ◌<◌, ◌≡◌, ◌≢◌, inl, inr, refl, Bool, not, some, arith,
  Bool-cases,
}
use cs.Bitmap.{Bitmap, bitmap_error, scan_from, scan, scan_and_flip}
use cs.Bitmap.Bits.{IsValid, view, Filled}
use cs.Bitmap.Multiple.{contains-Answers, set_multiple-Filled}

-- All of the cnt bits from i on have the value.
abbrev pub Run : (ℕ → Bool) → Bool → ℕ → ℕ → Type 0
Run bits value cnt i = (j : ℕ) → i ≤ j → j < i + cnt → bits j ≡ value

-- Some bit among the cnt from i on has not the value.
abbrev pub Gap : (ℕ → Bool) → Bool → ℕ → ℕ → Type 0
Gap bits value cnt i = (j : ℕ) × (i ≤ j) × (j < i + cnt) × (bits j ≡ not value)

-- The answer of a scan from `start` over a bitmap of n bits.
pub record FirstFit (bits : ℕ → Bool) (value : Bool) (cnt n start r : ℕ) : Type 0 where
  pub fits : r ≢ bitmap_error → (start ≤ r) × (r + cnt ≤ n) × Run bits value cnt r
  pub first : (i : ℕ) → start ≤ i → i < r → i + cnt ≤ n → Gap bits value cnt i

scan_from-FirstFit :
    {b : Bitmap} (cnt : ℕ) (value : Bool) (n i : ℕ)
    → IsValid b
    → i + n + cnt ≤ max (b.bit_cnt + 1) (i + cnt)
    → b.bit_cnt + 1 ≤ i + n + cnt
    → (r : ℕ) × (scan_from b cnt value n i ≡ some r) × FirstFit (view b) value cnt b.bit_cnt i r
unfolding scan_from
scan_from-FirstFit {b} cnt value zero i v lo hi = (
  bitmap_error,
  refl,
  record { fits = λ ne. absurd (ne refl); first = λ j p q f. absurd (omega arith) },
)
scan_from-FirstFit {b} cnt value (suc n) i v lo hi =
    let here = contains-Answers {b = b} i cnt (not value) v (omega arith) in
    let (r, e, f) = scan_from-FirstFit {b = b} cnt value n (i + 1) v (omega arith) (omega arith) in
    elim (Bool-cases here.0) [
      | inl gap ↦ (
        r,
        rw here.1 (ground arith),
        record {
          fits = λ ne. let (p, q, run) = f.fits ne in (omega arith, q, run);
          first = λ j p q fit. elim (ℕ_discrete j i) [
            | yes at ↦ rw at (here.2.hit gap)
            | no after ↦ f.first j (omega arith) q fit
          ];
        },
      )
      | inr free ↦ (
        i,
        rw here.1 (ground arith),
        record {
          fits = λ _.
              (omega arith, omega arith, λ j p q. let m = here.2.miss free j p q in ground arith);
          first = λ j p q fit. absurd (omega arith);
        },
      )
    ]

-- `bitmap_scan` fails no assertion when `start` is within the bitmap. It returns the first index
-- at or after `start` from which cnt bits inside the bitmap all have the value, and BITMAP_ERROR
-- exactly when there is none.
pub scan-FirstFit :
    {b : Bitmap} (start cnt : ℕ) (value : Bool)
    → IsValid b
    → start ≤ b.bit_cnt
    → (r : ℕ) × (scan b start cnt value ≡ some r) × FirstFit (view b) value cnt b.bit_cnt start r
unfolding scan
scan-FirstFit {b} start cnt value v h = elim (dec_le cnt b.bit_cnt) [
  | yes fit ↦
      let (r, e, f) =
        scan_from-FirstFit {b = b} cnt value (b.bit_cnt - cnt + 1 - start) start v (omega arith)
          (omega arith) in
      (r, ground arith, f)
  | no big ↦ (
    bitmap_error,
    ground arith,
    record { fits = λ ne. absurd (ne refl); first = λ j p q fit. absurd (omega arith) },
  )
]

-- `bitmap_scan_and_flip` on success negates exactly the run that the scan found; on failure it
-- returns BITMAP_ERROR and leaves the bitmap as it was.
pub scan_and_flip-Filled :
    {b : Bitmap} (start cnt : ℕ) (value : Bool)
    → IsValid b
    → start ≤ b.bit_cnt
    → (r : ℕ) × (b' : Bitmap) × (scan_and_flip b start cnt value ≡ some (r, b'))
      × FirstFit (view b) value cnt b.bit_cnt start r
      × (r ≡ bitmap_error → b' ≡ b)
      × (r ≢ bitmap_error → Filled b r cnt (not value) b')
unfolding scan_and_flip
scan_and_flip-Filled {b} start cnt value v h =
    let (r, e, f) = scan-FirstFit {b = b} start cnt value v h in
    elim (ℕ_discrete r bitmap_error) [
      | yes fail ↦ (r, b, rw e (ground arith), f, λ _. refl, λ ne. absurd (ne fail))
      | no ok ↦
          let (lo, hi, run) = f.fits ok in
          let (b', set, filled) = set_multiple-Filled {b = b} r cnt (not value) v hi in
          (r, b', rw e (ground arith), f, λ bad. absurd (ok bad), λ _. filled)
    ]
