-- ===== src/Threads/Synch.antt =====
-- Project1/synch.c: semaphores and locks. Interrupts are off inside the operations of a semaphore,
-- and the caller is a thread, not an interrupt handler, as the assertion of `sema_down` wants.
-- An operation that must wait goes up to the switch to another thread: when the thread runs again,
-- it goes on with the test of the loop, which is the same operation once more. The functions of a
-- lock run with interrupts on: each is given part by part (Phase). The debugging
-- branch of `lock_acquire` that does nothing is left out, and so are the condition variables, whose
-- list compares the priorities of threads where there are none.
pub mod Change
pub mod Owner
pub mod Exclusion
pub mod Wake
use cs.Base.{
  ℕ, ◌+◌, ◌-◌, Bool, true, false, not, Option, none, some, List, [], ◌∷◌, ltb, ◌==◌, if◌then◌else◌,
  ◌>>=◌, ◌>>◌, assert,
}
use cs.Kernel.Order.{insert_ordered}
use cs.Threads.Scheduler.{Threads, value_less, thread_block, thread_unblock}

-- `struct semaphore` and `struct lock`
pub record Semaphore : Type 0 where
  pub value : ℕ
  pub waiters : List ℕ

pub record Lock : Type 0 where
  pub holder : Option ℕ
  pub semaphore : Semaphore

abbrev pub sema_init : ℕ → Semaphore
sema_init value = record { value = value; waiters = [] }

-- Whether the operation is done, or the thread waits.
unfoldable pub sema_down : Semaphore → Threads → Option (Bool × Semaphore × Threads)
sema_down sema s =
    let wait : Option (Bool × Semaphore × Threads) = (do
      let waiters = insert_ordered (value_less s.priority) sema.waiters s.current
      s' ← thread_block s
      some (false, record sema { waiters = waiters }, s')) in
    if sema.value == 0 then wait else some (true, record sema { value = sema.value - 1 }, s)

pub sema_try_down : Semaphore → Bool × Semaphore
sema_try_down sema =
    if ltb 0 sema.value then (true, record sema { value = sema.value - 1 }) else (false, sema)

unfoldable pub sema_up : Semaphore → Threads → Option (Semaphore × Threads)
sema_up sema s = elim sema.waiters [
  | [] ↦ some (record sema { value = sema.value + 1 }, s)
  | t ∷ waiters ↦ do
    s' ← thread_unblock s t
    some (record { value = sema.value + 1; waiters = waiters }, s')
]

abbrev pub lock_init : Lock
lock_init = record { holder = none; semaphore = sema_init 1 }

abbrev pub lock_held_by_current_thread : Lock → Threads → Bool
lock_held_by_current_thread lock s = elim lock.holder [ none ↦ false | some t ↦ t == s.current ]

-- How far a thread is in the functions of a lock, where an interrupt can come between two parts:
-- in none of them; before `sema_down` or `sema_try_down`, its assertions hold; with the semaphore
-- down and the holder not written yet; before and after the write of NULL in `lock_release`.
pub data Phase : Type 0 where
  outside acquires tries downed releases cleared : Phase

-- The part of the function that comes next for the running thread; `none` as well for a phase that
-- is not in the function. A thread that waits stays before `sema_down`, whose loop it goes on with.
unfoldable pub lock_acquire : Bool → Phase → Lock → Threads → Option (Phase × Lock × Threads)
unfolding sema_down
lock_acquire intr_context outside lock s = do
  assert (not intr_context)
  assert (not (lock_held_by_current_thread lock s))
  some (acquires, lock, s)
lock_acquire intr_context acquires lock s = do
  (done, sema, s') ← sema_down lock.semaphore s
  some (if done then downed else acquires, record lock { semaphore = sema }, s')
lock_acquire intr_context downed lock s = some (outside, record lock { holder = some s.current }, s)
lock_acquire intr_context tries lock s = none
lock_acquire intr_context releases lock s = none
lock_acquire intr_context cleared lock s = none

-- It returns true behind the write of the holder, and false where it has not got the semaphore.
pub lock_try_acquire : Phase → Lock → Threads → Option (Phase × Lock × Threads)
unfolding sema_try_down
lock_try_acquire outside lock s = do
  assert (not (lock_held_by_current_thread lock s))
  some (tries, lock, s)
lock_try_acquire tries lock s =
    let r = sema_try_down lock.semaphore in
    some (if r.0 then downed else outside, record lock { semaphore = r.1 }, s)
lock_try_acquire downed lock s = some (outside, record lock { holder = some s.current }, s)
lock_try_acquire acquires lock s = none
lock_try_acquire releases lock s = none
lock_try_acquire cleared lock s = none

pub lock_release : Phase → Lock → Threads → Option (Phase × Lock × Threads)
unfolding sema_up
lock_release outside lock s = do
  assert (lock_held_by_current_thread lock s)
  some (releases, lock, s)
lock_release releases lock s = some (cleared, record lock { holder = none }, s)
lock_release cleared lock s = do
  (sema, s') ← sema_up lock.semaphore s
  some (outside, record lock { semaphore = sema }, s')
lock_release acquires lock s = none
lock_release tries lock s = none
lock_release downed lock s = none
