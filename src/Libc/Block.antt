-- ===== src/Libc/Block.antt =====
-- fs_PintOS/lib/string.c, the functions on blocks of bytes. A loop recurs on the bytes left.
pub mod Move
pub mod Compare
use cs.Base.{ℕ, zero, suc, ◌+◌, ◌-◌, ◌%◌, Option, none, some, List, ltb, ◌==◌, if◌then◌else◌, ◌>>=◌}
use cs.Libc.Memory.{load, store}

-- What a comparison answers: below 0, 0, or above.
pub data Sign : Type 0 where
  below same above : Sign

-- `while (size-- > 0) *dst++ = *src++`
pub copy_up : ℕ → ℕ → ℕ → List ℕ → Option (List ℕ)
copy_up zero dst src m = some m
copy_up (suc size) dst src m = do
  byte ← load m src
  m' ← store m dst byte
  copy_up size (dst + 1) (src + 1) m'

-- `while (size-- > 0) *--dst = *--src`
pub copy_down : ℕ → ℕ → ℕ → List ℕ → Option (List ℕ)
copy_down zero dst src m = some m
copy_down (suc size) dst src m = do
  byte ← load m (src - 1)
  m' ← store m (dst - 1) byte
  copy_down size (dst - 1) (src - 1) m'

pub memcpy : List ℕ → ℕ → ℕ → ℕ → Option (ℕ × List ℕ)
unfolding copy_up
memcpy m dst src size = do m' ← copy_up size dst src m; some (dst, m')

-- The pointer that is returned is the one that the loop moved.
pub memmove : List ℕ → ℕ → ℕ → ℕ → Option (ℕ × List ℕ)
unfolding copy_up copy_down
memmove m dst src size =
    if ltb dst src
    then (do m' ← copy_up size dst src m; some (dst + size, m'))
    else (do m' ← copy_down size (dst + size) (src + size) m; some (dst + size - size, m'))

pub memcmp : List ℕ → ℕ → ℕ → ℕ → Option Sign
memcmp m a b zero = some same
memcmp m a b (suc size) =
    let rest = memcmp m (a + 1) (b + 1) size in
    do x ← load m a; y ← load m b; if x == y then rest else some (if ltb y x then above else below)

pub memchr : List ℕ → ℕ → ℕ → ℕ → Option (Option ℕ)
memchr m block ch zero = some none
memchr m block ch (suc size) =
    let rest = memchr m (block + 1) ch size in
    do byte ← load m block; if byte == ch % 256 then some (some block) else rest

pub set_bytes : ℕ → ℕ → ℕ → List ℕ → Option (List ℕ)
set_bytes zero dst value m = some m
set_bytes (suc size) dst value m = do
  m' ← store m dst (value % 256)
  set_bytes size (dst + 1) value m'

pub memset : List ℕ → ℕ → ℕ → ℕ → Option (ℕ × List ℕ)
unfolding set_bytes
memset m dst value size = do m' ← set_bytes size dst value m; some (dst, m')
