-- ===== src/Bitmap/Tests.antt =====
-- Runs of the bitmap operations, and the theorems at concrete bitmaps.
use cs.Base.{◌+◌, ◌*◌, ◌^◌, ◌≡◌, refl, true, false, some, [], ◌∷◌, arith}
use cs.Bitmap.{
  Bitmap, bitmap_error, set, test, flip, set_multiple, create, count, contains, scan, scan_and_flip,
}
use cs.Bitmap
use cs.Bitmap.Bits.{IsValid}

-- 40 bits, of which 0, 1 and 33 are set.
abbrev spotted : Bitmap
spotted = record { bit_cnt = 40; bits = 3 ∷ 2 ∷ [] }

spotted-IsValid : IsValid spotted
spotted-IsValid = record { storage = refl; small = omega arith }

scan_run : scan spotted 0 4 false ≡ some 2
unfolding scan contains test
scan_run = refl

scan_run_full : scan spotted 30 7 false ≡ some bitmap_error
unfolding scan contains test
scan_run_full = refl

-- A scan for no bits answers `start`, not 0.
scan_nothing : scan spotted 5 0 false ≡ some 5
unfolding scan contains
scan_nothing = refl

set_multiple_run :
    set_multiple spotted 30 4 true
    ≡ some (record { bit_cnt = 40; bits = (3 + 3 * 2 ^ 30) ∷ 3 ∷ [] })
unfolding set_multiple set Bitmap.mark
set_multiple_run = refl
