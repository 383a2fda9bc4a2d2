-- ===== src/Libc/Text.antt =====
-- fs_PintOS/lib/string.c, the functions on text that a null byte ends. Their loops move through the
-- memory byte by byte, so its size is fuel enough: a loop that runs out of it has left the memory.
pub mod Length
pub mod Order
pub mod Copy
pub mod Search
use cs.Base.{
  ℕ, zero, suc, ◌+◌, ◌-◌, ◌%◌, Bool, true, false, eqb, not, ◌&&◌, Option, none, some, List, length,
  ltb, leb, ◌==◌, if◌then◌else◌, ◌>>=◌, min,
}
use cs.Libc.Memory.{load, store}
use cs.Libc.Block.{Sign, below, same, above, memcmp, memcpy}

abbrev is_same : Sign → Bool
is_same same = true
is_same _ = false

module _ (m : List ℕ) where
  pub strlen_from : ℕ → ℕ → Option ℕ
  strlen_from zero p = none
  strlen_from (suc fuel) p =
      let rest = strlen_from fuel (p + 1) in
      do c ← load m p; if c == 0 then some 0 else (do n ← rest; some (suc n))

  pub strlen : ℕ → Option ℕ
  unfolding strlen_from
  strlen string = strlen_from (length m) string

  -- The test reads the byte at maxlen, too.
  pub strnlen : ℕ → ℕ → Option ℕ
  strnlen string zero = do _ ← load m string; some 0
  strnlen string (suc maxlen) =
      let rest = strnlen (string + 1) maxlen in
      do c ← load m string; if c == 0 then some 0 else (do n ← rest; some (suc n))

  pub strcmp_from : ℕ → ℕ → ℕ → Option Sign
  strcmp_from zero a b = none
  strcmp_from (suc fuel) a b =
      let rest = strcmp_from fuel (a + 1) (b + 1) in
      do
        x ← load m a
        y ← load m b
        let r = if ltb x y then below else if ltb y x then above else same
        if not (x == 0) && (x == y) then rest else some r

  pub strcmp : ℕ → ℕ → Option Sign
  unfolding strcmp_from
  strcmp a b = strcmp_from (length m) a b

  pub strchr_from : ℕ → ℕ → ℕ → Option (Option ℕ)
  strchr_from zero string c = none
  strchr_from (suc fuel) string c =
      let rest = strchr_from fuel (string + 1) c in
      do
        x ← load m string
        if x == c then some (some string) else if x == 0 then some none else rest

  pub strchr : ℕ → ℕ → Option (Option ℕ)
  unfolding strchr_from
  strchr string c = strchr_from (length m) string (c % 256)

  -- Whether a byte stands in a text: `strchr (stop, byte) != NULL`.
  pub occurs : ℕ → ℕ → Option Bool
  unfolding strchr
  occurs stop c = do r ← strchr stop c; some (elim r [ none ↦ false | some _ ↦ true ])

  -- The loops of `strcspn` and `strspn`: they go on while the byte occurs in the other text, or
  -- while it does not.
  pub span_from : Bool → ℕ → ℕ → ℕ → Option ℕ
  span_from inside zero string other = none
  span_from inside (suc fuel) string other =
      let rest = span_from inside fuel (string + 1) other in
      do
        c ← load m string
        if c == 0 then some 0 else (do
          found ← occurs other c
          if eqb found inside then (do n ← rest; some (suc n)) else some 0)

  pub strcspn : ℕ → ℕ → Option ℕ
  unfolding span_from occurs
  strcspn string stop = span_from false (length m) string stop

  pub strspn : ℕ → ℕ → Option ℕ
  unfolding span_from occurs
  strspn string skip = span_from true (length m) string skip

  pub strpbrk_from : ℕ → ℕ → ℕ → Option (Option ℕ)
  strpbrk_from zero string stop = none
  strpbrk_from (suc fuel) string stop =
      let rest = strpbrk_from fuel (string + 1) stop in
      do
        c ← load m string
        if c == 0
            then some none
            else (do found ← occurs stop c; if found then some (some string) else rest)

  pub strpbrk : ℕ → ℕ → Option (Option ℕ)
  unfolding strpbrk_from occurs
  strpbrk string stop = strpbrk_from (length m) string stop

  -- With the last place found so far.
  pub strrchr_from : ℕ → ℕ → ℕ → Option ℕ → Option (Option ℕ)
  strrchr_from zero string c p = none
  strrchr_from (suc fuel) string c p = do
    x ← load m string
    let rest = strrchr_from fuel (string + 1) c (if x == c then some string else p)
    if x == 0 then some p else rest

  pub strrchr : ℕ → ℕ → Option (Option ℕ)
  unfolding strrchr_from
  strrchr string c = strrchr_from (length m) string (c % 256) none

  -- The loop of `strstr` from i on, with the rounds left.
  pub strstr_from : ℕ → ℕ → ℕ → ℕ → ℕ → Option (Option ℕ)
  strstr_from zero i haystack needle needle_len = some none
  strstr_from (suc rounds) i haystack needle needle_len =
      let rest = strstr_from rounds (i + 1) haystack needle needle_len in
      do
        r ← memcmp m (haystack + i) needle needle_len
        if is_same r then some (some (haystack + i)) else rest

  pub strstr : ℕ → ℕ → Option (Option ℕ)
  unfolding strstr_from strlen
  strstr haystack needle = do
    haystack_len ← strlen haystack
    needle_len ← strlen needle
    if leb needle_len haystack_len
        then strstr_from (haystack_len - needle_len + 1) 0 haystack needle needle_len
        else some none

  -- The two loops of `strtok_r`: past the delimiters, to none at the end of the text; and past the
  -- other bytes. The null byte occurs in every text.
  pub skip_delimiters : ℕ → ℕ → ℕ → Option (ℕ × Bool)
  skip_delimiters zero s delimiters = none
  skip_delimiters (suc fuel) s delimiters =
      let rest = skip_delimiters fuel (s + 1) delimiters in
      do
        c ← load m s
        found ← occurs delimiters c
        if found then (if c == 0 then some (s, true) else rest) else some (s, false)

  pub skip_token : ℕ → ℕ → ℕ → Option ℕ
  skip_token zero s delimiters = none
  skip_token (suc fuel) s delimiters =
      let rest = skip_token fuel (s + 1) delimiters in
      do c ← load m s; found ← occurs delimiters c; if found then some s else rest

pub strlcpy : List ℕ → ℕ → ℕ → ℕ → Option (ℕ × List ℕ)
unfolding strlen
strlcpy m dst src zero = do src_len ← strlen m src; some (src_len, m)
strlcpy m dst src (suc size) = do
  src_len ← strlen m src
  let dst_len = if ltb src_len size then src_len else size
  (_, m1) ← memcpy m dst src dst_len
  m2 ← store m1 (dst + dst_len) 0
  some (src_len, m2)

pub strlcat : List ℕ → ℕ → ℕ → ℕ → Option (ℕ × List ℕ)
unfolding strlen
strlcat m dst src size = do
  src_len ← strlen m src
  dst_len ← strlen m dst
  if ltb 0 size && ltb dst_len size
      then (do
        let room = size - dst_len - 1
        let copy_cnt = if ltb src_len room then src_len else room
        (_, m1) ← memcpy m (dst + dst_len) src copy_cnt
        m2 ← store m1 (dst + dst_len + copy_cnt) 0
        some (src_len + dst_len, m2))
      else some (src_len + dst_len, m)

-- The token, or NULL, the position that is saved, and the memory. `s` is `none` for NULL.
pub strtok_r : List ℕ → Option ℕ → ℕ → ℕ → Option (Option ℕ × ℕ × List ℕ)
unfolding skip_delimiters skip_token occurs
strtok_r m s delimiters save_ptr = do
  let start : ℕ = elim s [ none ↦ save_ptr | some p ↦ p ]
  (token, at_end) ← skip_delimiters m (length m) start delimiters
  if at_end then some (none, token, m) else (do
    stop ← skip_token m (length m) token delimiters
    c ← load m stop
    let cut = (do m' ← store m stop 0; some (some token, stop + 1, m'))
    if c == 0 then some (some token, stop, m) else cut)
