-- ===== src/Devices/Intq/Refine.antt =====
-- intq.c as a queue of at most 63 bytes.
use native.Mathlib.Decide.{dec_lt}
use cs.Base.{
  ℕ, zero, suc, ◌+◌, ◌-◌, ◌%◌, ◌<◌, ◌≡◌, ◌≢◌, refl, sym, ap, ◌∙◌, Bool, true, false, Bool-cases,
  none, some, List, [], ◌∷◌, ◌++◌, ◌==◌, if◌then◌else◌, get_or, set, length, length-set,
  get_or-set_self, get_or-set_ne, arith, ◌⊎◌, inl, inr,
}
use cs.Devices.Intq.{
  Intq, QueueLock, begins, in_lock, in_wait, waits, done, next, is_held_by, woken_of, intq_init,
  intq_empty, intq_full, intq_getc, intq_putc, get_loop, put_loop, wait_to_get, wait_to_put,
  wait_not_empty, wait_not_full, signal_not_empty, signal_not_full,
}

pub record IsValid (q : Intq) : Type 0 where
  pub head_inside : q.head < 64
  pub tail_inside : q.tail < 64
  pub room : length q.buf ≡ 64

-- How many bytes wait in the queue.
abbrev pub size : Intq → ℕ
size q = (q.head + 64 - q.tail) % 64

-- The n bytes that follow each other from a position on.
abbrev pub bytes_from : List ℕ → ℕ → ℕ → List ℕ
bytes_from buf pos zero = []
bytes_from buf pos (suc n) = get_or buf pos 0 ∷ bytes_from buf (next pos) n

-- The bytes in the queue, the oldest first.
abbrev pub contents : Intq → List ℕ
contents q = bytes_from q.buf q.tail (size q)

-- A byte written behind the last one.
bytes_from-set :
    (buf : List ℕ) (x n pos at : ℕ)
    → length buf ≡ 64
    → pos < 64
    → n < 64
    → at ≡ (pos + n) % 64
    → bytes_from (set buf at x) pos (suc n) ≡ bytes_from buf pos n ++ x ∷ []
bytes_from-set buf x zero pos at room inside few e =
    let here : at ≡ pos = omega arith in rw (here, get_or-set_self buf pos x 0 (omega arith)) refl
bytes_from-set buf x (suc n) pos at room inside few e =
    let apart : at ≢ pos = λ h. omega (arith, e, h) in
    let later : at ≡ (next pos + n) % 64 = omega arith in
    rw
      (
        get_or-set_ne buf at pos x 0 apart,
        bytes_from-set buf x n (next pos) at room (omega arith) (omega arith) later,
      )
      refl

-- The state that a call leaves is valid and holds these bytes.
pub record Holds (q : Intq) (bs : List ℕ) : Type 0 where
  pub valid : IsValid q
  pub bytes : contents q ≡ bs

-- A put that goes through: the byte stands behind the others, and the thread that waited for a
-- byte is unblocked and forgotten.
abbrev pub Puts : Bool → ℕ → Intq → ℕ → Type 0
Puts intr current q byte =
    (q' : Intq) × (intq_putc intr current begins q byte ≡ some (done tt, woken_of q.not_empty, q'))
    × Holds q' (contents q ++ byte ∷ [])
    × (q'.not_empty ≡ none)
    × (q'.not_full ≡ q.not_full)
    × (q'.lock ≡ q.lock)

-- A get that goes through: the byte was the oldest, and the thread that waited for room is
-- unblocked and forgotten.
abbrev pub Gets : Bool → ℕ → Intq → ℕ → List ℕ → Type 0
Gets intr current q byte rest =
    (q' : Intq) × (intq_getc intr current begins q ≡ some (done byte, woken_of q.not_full, q'))
    × Holds q' rest
    × (q'.not_full ≡ none)
    × (q'.not_empty ≡ q.not_empty)
    × (q'.lock ≡ q.lock)

-- The lock with a thread behind those that wait for it, and in the hands of a thread.
abbrev pub queued : ℕ → QueueLock → QueueLock
queued current lock = record lock { waiters = lock.waiters ++ current ∷ [] }

abbrev pub taken : ℕ → QueueLock → QueueLock
taken current lock = record lock { holder = some current; value = lock.value - 1 }

length-contents : (buf : List ℕ) (pos n : ℕ) → length (bytes_from buf pos n) ≡ n
length-contents buf pos zero = refl
length-contents buf pos (suc n) = ap suc (length-contents buf (next pos) n)

put_done :
    (intr : Bool) (current : ℕ) (q : Intq) (byte : ℕ)
    → IsValid q
    → size q < 63
    → Puts intr current q byte
unfolding intq_putc put_loop signal_not_empty
put_done intr current q byte v room =
    let h = v.head_inside in
    let t = v.tail_inside in
    let free : intq_full q ≡ false = ground arith in
    let filled : (next q.head == q.tail) ≡ false = free in
    let longer : (next q.head + 64 - q.tail) % 64 ≡ suc (size q) = omega arith in
    let q' : Intq = record q {
      buf = set q.buf q.head byte;
      head = next q.head;
      not_empty = none;
    } in
    (
      q',
      rw filled refl,
      record {
        valid = record {
          head_inside = omega arith;
          tail_inside = t;
          room = length-set q.buf q.head byte ∙ v.room;
        };
        bytes =
            rw longer (
              bytes_from-set q.buf byte (size q) q.tail q.head v.room t (omega arith)
                (omega arith));
      },
      refl,
      refl,
      refl,
    )

get_done :
    (intr : Bool) (current : ℕ) (q : Intq) (byte : ℕ) (rest : List ℕ)
    → IsValid q
    → contents q ≡ byte ∷ rest
    → Gets intr current q byte rest
unfolding intq_getc get_loop signal_not_full
get_done intr current q byte rest v e =
    let h = v.head_inside in
    let t = v.tail_inside in
    let some_left : 0 < size q =
      omega (arith, ap length e, length-contents q.buf q.tail (size q)) in
    let filled : intq_empty q ≡ false = ground arith in
    let room : (next q.head == next q.tail) ≡ false = ground arith in
    let n = size q - 1 in
    let counted : size q ≡ suc n = omega (arith, some_left) in
    let fewer : (q.head + 64 - next q.tail) % 64 ≡ n = omega (arith, some_left) in
    let parts : get_or q.buf q.tail 0 ∷ bytes_from q.buf (next q.tail) n ≡ byte ∷ rest =
      ap (bytes_from q.buf q.tail) (sym counted) ∙ e in
    let oldest : get_or q.buf q.tail 0 ≡ byte = cc parts in
    (
      record q { tail = next q.tail; not_full = none },
      rw (filled, room, oldest) refl,
      record {
        valid = record { head_inside = h; tail_inside = omega arith; room = v.room };
        bytes = rw fewer (cc parts);
      },
      refl,
      refl,
      refl,
    )

-- What the operations answer that could not go through: they fail in an interrupt handler, or when
-- the thread holds the lock; while the semaphore of the lock is down the thread waits for the lock;
-- else it takes the lock and is registered as the one that waits.
abbrev pub BlocksPut : Bool → ℕ → Intq → ℕ → Type 0
BlocksPut intr current q byte = intq_putc intr current begins q byte ≡ (
    if intr
    then none
    else if is_held_by q.lock current
    then none
    else if q.lock.value == 0
    then some (waits in_lock, [], record q { lock = queued current q.lock })
    else some
        (waits in_wait, [], record q { lock = taken current q.lock; not_full = some current }))

abbrev pub BlocksGet : Bool → ℕ → Intq → Type 0
BlocksGet intr current q = intq_getc intr current begins q ≡ (
    if intr
    then none
    else if is_held_by q.lock current
    then none
    else if q.lock.value == 0
    then some (waits in_lock, [], record q { lock = queued current q.lock })
    else some
        (waits in_wait, [], record q { lock = taken current q.lock; not_empty = some current }))

wait_to_put_taken :
    (current : ℕ) (q : Intq) (lock : QueueLock)
    → intq_full q ≡ true
    → wait_to_put false current q (true, lock)
      ≡ some (waits in_wait, [], record q { lock = lock; not_full = some current })
unfolding wait_to_put wait_not_full
wait_to_put_taken current q lock full = rw full refl

wait_to_get_taken :
    (current : ℕ) (q : Intq) (lock : QueueLock)
    → intq_empty q ≡ true
    → wait_to_get false current q (true, lock)
      ≡ some (waits in_wait, [], record q { lock = lock; not_empty = some current })
unfolding wait_to_get wait_not_empty
wait_to_get_taken current q lock empty = rw empty refl

put_blocks :
    (intr : Bool) (current : ℕ) (q : Intq) (byte : ℕ)
    → IsValid q
    → size q ≡ 63
    → BlocksPut intr current q byte
unfolding intq_putc put_loop wait_to_put
put_blocks intr current q byte v full =
    let h = v.head_inside in
    let t = v.tail_inside in
    let filled : intq_full q ≡ true = ground arith in
    elim (Bool-cases intr) [
      | inl handler ↦ rw (filled, handler) refl
      | inr thread ↦ elim (Bool-cases (is_held_by q.lock current)) [
        | inl own ↦ rw (filled, thread, own) refl
        | inr not_own ↦ elim (Bool-cases (q.lock.value == 0)) [
          | inl down ↦ rw (filled, thread, not_own, down) refl
          | inr up ↦
              rw (filled, thread, not_own, up)
                (wait_to_put_taken current q (taken current q.lock) filled)
        ]
      ]
    ]

get_blocks :
    (intr : Bool) (current : ℕ) (q : Intq) → IsValid q → contents q ≡ [] → BlocksGet intr current q
unfolding intq_getc get_loop wait_to_get
get_blocks intr current q v none_left =
    let h = v.head_inside in
    let t = v.tail_inside in
    let n : size q ≡ 0 = sym (length-contents q.buf q.tail (size q)) ∙ ap length none_left in
    let empty : intq_empty q ≡ true = ground (arith, n) in
    elim (Bool-cases intr) [
      | inl handler ↦ rw (empty, handler) refl
      | inr thread ↦ elim (Bool-cases (is_held_by q.lock current)) [
        | inl own ↦ rw (empty, thread, own) refl
        | inr not_own ↦ elim (Bool-cases (q.lock.value == 0)) [
          | inl down ↦ rw (empty, thread, not_own, down) refl
          | inr up ↦
              rw (empty, thread, not_own, up)
                (wait_to_get_taken current q (taken current q.lock) empty)
        ]
      ]
    ]

-- A call of `intq_putc` on a valid queue is a put into a queue of at most 63 bytes. With fewer bytes
-- in it, the byte comes behind them, and the thread that waited for one is unblocked and forgotten.
-- With 63 bytes the call fails in an interrupt handler, and in a thread that holds the lock of the
-- queue; a thread waits for the lock, and changes nothing more, while its semaphore is down, and else
-- takes it and is registered as the thread that waits for room.
pub intq_putc-refines :
    (intr : Bool) (current : ℕ) (q : Intq) (byte : ℕ)
    → IsValid q
    → ((length (contents q) < 63) × Puts intr current q byte)
      ⊎ ((length (contents q) ≡ 63) × BlocksPut intr current q byte)
intq_putc-refines intr current q byte v =
    let n = length-contents q.buf q.tail (size q) in
    elim (dec_lt (size q) 63) [
      | yes room ↦ inl (omega (arith, n), put_done intr current q byte v room)
      | no full ↦
          let all : size q ≡ 63 = omega arith in
          inr (omega (arith, n), put_blocks intr current q byte v all)
    ]

-- A call of `intq_getc` on a valid queue takes the oldest byte, and the thread that waited for room is
-- unblocked and forgotten. On an empty one the call fails in an interrupt handler, and in a thread
-- that holds the lock of the queue; a thread waits for the lock, and changes nothing more, while its
-- semaphore is down, and else takes it and is registered as the thread that waits for a byte.
pub intq_getc-refines :
    (intr : Bool) (current : ℕ) (q : Intq)
    → IsValid q
    → ((byte : ℕ) × (rest : List ℕ) × (contents q ≡ byte ∷ rest) × Gets intr current q byte rest)
      ⊎ ((contents q ≡ []) × BlocksGet intr current q)
intq_getc-refines intr current q v = elim (list_cases (contents q)) [
  | inl e ↦ inr (e, get_blocks intr current q v e)
  | inr (byte, rest, e) ↦ inl (byte, rest, e, get_done intr current q byte rest v e)
]
  where
    list_cases : (l : List ℕ) → (l ≡ []) ⊎ ((x : ℕ) × (rest : List ℕ) × (l ≡ x ∷ rest))
    list_cases [] = inl refl
    list_cases (x ∷ rest) = inr (x, rest, refl)

-- `intq_init` makes a valid empty queue of any 64 bytes of storage.
pub intq_init-Holds : (buf : List ℕ) → length buf ≡ 64 → Holds (intq_init buf) []
unfolding intq_init
intq_init-Holds buf e = record {
  valid = record { head_inside = omega arith; tail_inside = omega arith; room = e };
  bytes = refl;
}
