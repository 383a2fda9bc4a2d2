-- ===== src/Devices/Intq.antt =====
-- fs_PintOS/devices/intq.c: the circular queue of bytes between threads and interrupt handlers, with
-- the lock of fs_PintOS/threads/synch.c that lets one thread wait at a time. Interrupts are off
-- throughout. A call that must wait ends where the thread is blocked, for the lock or for a byte or
-- room, and goes on from there when the thread runs again. The threads that are unblocked are a
-- result. `none` is a failed ASSERT.
pub mod Refine
use cs.Base.{
  ℕ, ◌+◌, ◌-◌, ◌%◌, Bool, true, false, not, Option, none, some, List, [], ◌∷◌, ◌++◌, ◌==◌,
  if◌then◌else◌, get_or, set, ◌>>=◌, ◌>>◌, assert,
}

abbrev pub intq_bufsize : ℕ
intq_bufsize = 64

-- `struct lock`, with the value and the waiting threads of its semaphore.
pub record QueueLock : Type 0 where
  pub holder : Option ℕ
  pub value : ℕ
  pub waiters : List ℕ

-- `struct intq`; NULL is `none`.
pub record Intq : Type 0 where
  pub lock : QueueLock
  pub not_full : Option ℕ
  pub not_empty : Option ℕ
  pub buf : List ℕ
  pub head : ℕ
  pub tail : ℕ

-- Where a call goes on: at its loop, blocked in `lock_acquire`, or blocked in `wait`.
pub data Point : Type 0 where
  begins in_lock in_wait : Point

-- How far a call came: the thread is blocked, or the call is done.
pub data Turn {ℓ} (A : Type ℓ) : Type ℓ where
  waits : Point → Turn A
  done : A → Turn A

abbrev pub next : ℕ → ℕ
next pos = (pos + 1) % intq_bufsize

abbrev pub free_lock : QueueLock
free_lock = record { holder = none; value = 1; waiters = [] }

-- `buf` is what the storage held.
pub intq_init : List ℕ → Intq
intq_init buf = record {
  lock = free_lock;
  not_full = none;
  not_empty = none;
  buf = buf;
  head = 0;
  tail = 0;
}

abbrev pub is_held_by : QueueLock → ℕ → Bool
is_held_by lock current = elim lock.holder [ none ↦ false | some t ↦ t == current ]

-- `lock_acquire` from the loop of `sema_down` on: whether the thread has the lock, or waits.
abbrev pub down_lock : ℕ → QueueLock → Bool × QueueLock
down_lock current lock =
    if lock.value == 0
    then (false, record lock { waiters = lock.waiters ++ current ∷ [] })
    else (true, record lock { holder = some current; value = lock.value - 1 })

-- `lock_acquire`
abbrev pub take_lock : Bool → ℕ → QueueLock → Option (Bool × QueueLock)
take_lock intr_context current lock = do
  assert (not intr_context)
  assert (not (is_held_by lock current))
  some (down_lock current lock)

-- `lock_release`, with the thread that is unblocked.
pub give_lock : ℕ → QueueLock → Option (List ℕ × QueueLock)
give_lock current lock = do
  assert (is_held_by lock current)
  some (elim lock.waiters [
    | [] ↦ ([], record lock { holder = none; value = lock.value + 1 })
    | t ∷ rest ↦ (t ∷ [], record { holder = none; value = lock.value + 1; waiters = rest })
  ])

abbrev pub intq_empty : Intq → Bool
intq_empty q = q.head == q.tail

abbrev pub intq_full : Intq → Bool
intq_full q = next q.head == q.tail

-- `wait`, for either condition.
pub wait_not_empty : Bool → ℕ → Intq → Option Intq
wait_not_empty intr_context current q = do
  assert (not intr_context)
  assert (intq_empty q)
  some (record q { not_empty = some current })

pub wait_not_full : Bool → ℕ → Intq → Option Intq
wait_not_full intr_context current q = do
  assert (not intr_context)
  assert (intq_full q)
  some (record q { not_full = some current })

abbrev pub woken_of : Option ℕ → List ℕ
woken_of none = []
woken_of (some t) = t ∷ []

-- `signal`, for either condition, with the thread that is unblocked.
pub signal_not_empty : Intq → Option (List ℕ × Intq)
signal_not_empty q = do
  assert (not (intq_empty q))
  some (woken_of q.not_empty, record q { not_empty = none })

pub signal_not_full : Intq → Option (List ℕ × Intq)
signal_not_full q = do
  assert (not (intq_full q))
  some (woken_of q.not_full, record q { not_full = none })

-- The body of the loop of `intq_getc` behind `lock_acquire`, or that waits.
pub wait_to_get : Bool → ℕ → Intq → Bool × QueueLock → Option (Turn ℕ × List ℕ × Intq)
unfolding wait_not_empty
wait_to_get intr_context current q (true, lock) = do
  q' ← wait_not_empty intr_context current (record q { lock = lock })
  some (waits in_wait, [], q')
wait_to_get intr_context current q (false, lock) =
    some (waits in_lock, [], record q { lock = lock })

-- `intq_getc` from a test of its loop on.
pub get_loop : Bool → ℕ → Intq → Option (Turn ℕ × List ℕ × Intq)
unfolding wait_to_get signal_not_full
get_loop intr_context current q =
    if intq_empty q
    then (do
      assert (not intr_context)
      r ← take_lock intr_context current q.lock
      wait_to_get intr_context current q r)
    else (do
      let byte = get_or q.buf q.tail 0
      (woken, q') ← signal_not_full (record q { tail = next q.tail })
      some (done byte, woken, q'))

pub intq_getc : Bool → ℕ → Point → Intq → Option (Turn ℕ × List ℕ × Intq)
unfolding get_loop
intq_getc intr_context current begins q = get_loop intr_context current q
intq_getc intr_context current in_lock q =
    wait_to_get intr_context current q (down_lock current q.lock)
intq_getc intr_context current in_wait q = do
  (woken, lock) ← give_lock current q.lock
  (turn, more, q') ← get_loop intr_context current (record q { lock = lock })
  some (turn, woken ++ more, q')

-- The same for `intq_putc`.
pub wait_to_put : Bool → ℕ → Intq → Bool × QueueLock → Option (Turn (Unit {0}) × List ℕ × Intq)
unfolding wait_not_full
wait_to_put intr_context current q (true, lock) = do
  q' ← wait_not_full intr_context current (record q { lock = lock })
  some (waits in_wait, [], q')
wait_to_put intr_context current q (false, lock) =
    some (waits in_lock, [], record q { lock = lock })

pub put_loop : Bool → ℕ → Intq → ℕ → Option (Turn (Unit {0}) × List ℕ × Intq)
unfolding wait_to_put signal_not_empty
put_loop intr_context current q byte =
    if intq_full q
    then (do
      assert (not intr_context)
      r ← take_lock intr_context current q.lock
      wait_to_put intr_context current q r)
    else (do
      (woken, q') ← signal_not_empty (record q { buf = set q.buf q.head byte; head = next q.head })
      some (done tt, woken, q'))

pub intq_putc : Bool → ℕ → Point → Intq → ℕ → Option (Turn (Unit {0}) × List ℕ × Intq)
unfolding put_loop
intq_putc intr_context current begins q byte = put_loop intr_context current q byte
intq_putc intr_context current in_lock q byte =
    wait_to_put intr_context current q (down_lock current q.lock)
intq_putc intr_context current in_wait q byte = do
  (woken, lock) ← give_lock current q.lock
  (turn, more, q') ← put_loop intr_context current (record q { lock = lock }) byte
  some (turn, woken ++ more, q')
