-- ===== src/Devices/Tests.antt =====
-- The interrupt queue with a byte in it.
use cs.Base.{
  ℕ, ◌<◌, ◌≡◌, refl, true, false, some, none, List, [], ◌∷◌, replicate, length, ◌⊎◌, arith,
}
use cs.Devices.Intq.{Intq, free_lock}
use cs.Devices.Intq.Refine.{
  IsValid, contents, Puts, Gets, BlocksPut, BlocksGet, intq_putc-refines, intq_getc-refines,
}

-- The byte 7 at the end of the storage; thread 4 waits for room.
abbrev one_byte : Intq
one_byte = record {
  lock = free_lock;
  not_full = some 4;
  not_empty = none;
  buf = replicate 64 7;
  head = 0;
  tail = 63;
}

one_byte-IsValid : IsValid one_byte
one_byte-IsValid = record { head_inside = omega arith; tail_inside = omega arith; room = refl }

intq_putc-refines_example :
    ((length (contents one_byte) < 63) × Puts true 1 one_byte 8)
    ⊎ ((length (contents one_byte) ≡ 63) × BlocksPut true 1 one_byte 8)
intq_putc-refines_example = intq_putc-refines true 1 one_byte 8 one_byte-IsValid

intq_getc-refines_example :
    ((byte : ℕ) × (rest : List ℕ) × (contents one_byte ≡ byte ∷ rest)
      × Gets false 1 one_byte byte rest)
    ⊎ ((contents one_byte ≡ []) × BlocksGet false 1 one_byte)
intq_getc-refines_example = intq_getc-refines false 1 one_byte one_byte-IsValid
