-- ===== src/Threads/Timer.antt =====
-- Project1/timer.c: sleeping threads, and the interrupt handler that wakes them; with `thread_tick` of
-- thread.c. The fields `wakeupTime` and `sema_sleep` of the threads are functions of their numbers.
-- The handler calls `sema_up` and `thread_unblock` in an interrupt, where a yield fails the assertion
-- of `thread_yield`. `none` is that, another failed ASSERT, or an overflow of the signed clock.

pub mod Unblock
pub mod Wake
pub mod Sleep
mod Tests
use cs.Base.{
  ℕ, zero, suc, ◌+◌, ◌^◌, ◌%◌, Bool, true, false, not, ◌&&◌, Option, none, some, List, [], ◌∷◌, ltb,
  leb, ◌==◌, if◌then◌else◌, ◌>>=◌, ◌>>◌, assert,
}
use cs.Kernel.Order.{insert_ordered}
use cs.Threads.Scheduler.{Threads, ready, is_blocked, set_status, enqueue, head_is_higher}
use cs.Threads.Synch.{Semaphore, sema_down}

pub data ℤ : Type 0 where
  pos negsuc : ℕ → ℤ

-- The static variables of timer.c and of `thread_tick`, and the fields of the threads.
pub record Timer : Type 0 where
  pub ticks : ℕ
  pub wait_list : List ℕ
  pub wakeup_time : ℕ → ℕ
  pub sema_sleep : ℕ → Semaphore
  pub idle_ticks : ℕ
  pub kernel_ticks : ℕ
  pub thread_ticks : ℕ
  pub yield_on_return : Bool

abbrev pub time_slice : ℕ
time_slice = 4

-- The thread that wakes up sooner comes first.
abbrev pub value_less : (ℕ → ℕ) → ℕ → ℕ → Bool
value_less wakeup_time a b = ltb (wakeup_time a) (wakeup_time b)

abbrev pub set_sleep : Timer → ℕ → Semaphore → Timer
set_sleep t u sema = record t { sema_sleep = λ v. if v == u then sema else t.sema_sleep v }

-- The thread on the wait list, before it waits.
abbrev pub put_to_wait : Timer → ℕ → ℕ → Timer
put_to_wait t u stop =
    let wakeup_time : ℕ → ℕ = λ v. if v == u then stop else t.wakeup_time v in
    record t {
      wakeup_time = wakeup_time;
      wait_list = insert_ordered (value_less wakeup_time) t.wait_list u;
    }

-- Whether the thread goes on, or waits. No interrupt comes before the semaphore is down.
pub timer_sleep : Bool → ℤ → Timer → Threads → Option (Bool × Timer × Threads)
timer_sleep intr_on (negsuc _) t s = do assert intr_on; some (true, t, s)
timer_sleep intr_on (pos zero) t s = do assert intr_on; some (true, t, s)
timer_sleep intr_on (pos (suc n)) t s = do
  assert intr_on
  let stop = t.ticks + suc n
  assert (ltb stop (2 ^ 63))
  let t' = put_to_wait t s.current stop
  (done, sema, s') ← sema_down (t'.sema_sleep s.current) s
  some (done, set_sleep t' s.current sema, s')

pub thread_tick : Timer → Threads → Timer
thread_tick t s =
    let idle = s.current == s.idle_thread in
    let n = (t.thread_ticks + 1) % 2 ^ 32 in
    record t {
      idle_ticks = if idle then t.idle_ticks + 1 else t.idle_ticks;
      kernel_ticks = if idle then t.kernel_ticks else t.kernel_ticks + 1;
      thread_ticks = n;
      yield_on_return = if leb time_slice n then true else t.yield_on_return;
    }

-- The end of `thread_unblock`, which yields to a head of the ready list that has a higher priority.
pub no_yield : Threads → List ℕ → Option Threads
no_yield s [] = some s
no_yield s (ready_head ∷ _) =
    if head_is_higher s ready_head && not (s.current == s.idle_thread) then none else some s

-- `thread_unblock` in an interrupt handler.
pub unblock_in_handler : Threads → ℕ → Option Threads
unfolding no_yield
unblock_in_handler s t = do
  assert (is_blocked (s.status t))
  let s' = set_status (enqueue s t) t ready
  no_yield s' s'.ready_list

-- `sema_up` in an interrupt handler.
pub sema_up_in_handler : Semaphore → Threads → Option (Semaphore × Threads)
unfolding unblock_in_handler
sema_up_in_handler sema s = elim sema.waiters [
  | [] ↦ some (record sema { value = sema.value + 1 }, s)
  | t ∷ waiters ↦ do
    s' ← unblock_in_handler s t
    some (record { value = sema.value + 1; waiters = waiters }, s')
]

-- The loop of `timer_interrupt` over the wait list, from whose front `list_remove` takes.
pub wake_from : List ℕ → Timer → Threads → Option (Timer × Threads)
unfolding sema_up_in_handler
wake_from [] t s = some (t, s)
wake_from (u ∷ rest) t s =
    if leb (t.wakeup_time u) t.ticks
    then (do
      (sema, s') ← sema_up_in_handler (t.sema_sleep u) s
      wake_from rest (set_sleep (record t { wait_list = rest }) u sema) s')
    else some (t, s)

-- The timer when the loop starts.
abbrev pub ticked : Timer → Threads → Timer
ticked t s = thread_tick (record t { ticks = t.ticks + 1 }) s

pub timer_interrupt : Timer → Threads → Option (Timer × Threads)
unfolding wake_from thread_tick
timer_interrupt t s = do assert (ltb (t.ticks + 1) (2 ^ 63)); wake_from t.wait_list (ticked t s) s
