-- ===== src/Libc/Memory.antt =====
-- The memory that the functions of fs_PintOS/lib/string.c work on: bytes, a pointer being the index
-- of one. No pointer is NULL here; NULL as an answer is `none` inside the option whose own `none` is
-- a read or a write outside the memory.
use cs.Base.{ℕ, ◌<◌, ◌≡◌, Option, none, some, List, ltb, if◌then◌else◌, get_or, set, length, arith}

abbrev pub load : List ℕ → ℕ → Option ℕ
load m p = if ltb p (length m) then some (get_or m p 0) else none

abbrev pub store : List ℕ → ℕ → ℕ → Option (List ℕ)
store m p byte = if ltb p (length m) then some (set m p byte) else none

pub load_lem : (m : List ℕ) (p : ℕ) → p < length m → load m p ≡ some (get_or m p 0)
load_lem m p h = ground arith

pub store_lem : (m : List ℕ) (p byte : ℕ) → p < length m → store m p byte ≡ some (set m p byte)
store_lem m p byte h = ground arith
