-- ===== src/Threads/Scheduler.antt =====
-- Project1/thread.c: the scheduler with priorities. A thread is its number, the fields of its
-- `struct thread` are functions of that number, and the ready list the sequence of its threads. An
-- operation goes up to the switch to the next thread; what follows the switch in the caller is the
-- interrupt level only, which is left out, as are the page tables and the memory of a dying thread.
-- The caller is a thread, not an interrupt handler, and that assertion of `thread_yield` holds.
-- `none` is any other failed ASSERT, or a read behind the end of the ready list, which C leaves undefined.
pub mod Fair
pub mod Awake
use cs.Base.{
  ℕ, Bool, true, false, not, ◌&&◌, Option, none, some, List, [], ◌∷◌, ltb, leb, ◌==◌, if◌then◌else◌,
  ◌>>=◌, ◌>>◌, assert,
}
use cs.Kernel.Order.{insert_ordered}

pub data Status : Type 0 where
  running ready blocked dying : Status

-- The static variables of thread.c, and the fields of the threads.
pub record Threads : Type 0 where
  pub current : ℕ
  pub idle_thread : ℕ
  pub ready_list : List ℕ
  pub status : ℕ → Status
  pub priority : ℕ → ℕ

abbrev pub pri_max : ℕ
pri_max = 63

abbrev pub is_running : Status → Bool
is_running running = true
is_running _ = false

abbrev pub is_blocked : Status → Bool
is_blocked blocked = true
is_blocked _ = false

-- The threads of higher priority come first.
abbrev pub value_less : (ℕ → ℕ) → ℕ → ℕ → Bool
value_less priority a b = ltb (priority b) (priority a)

abbrev pub set_status : Threads → ℕ → Status → Threads
set_status s t st = record s { status = λ u. if u == t then st else s.status u }

-- The list operation on the ready list.
unfoldable pub enqueue : Threads → ℕ → Threads
enqueue s t = record s { ready_list = insert_ordered (value_less s.priority) s.ready_list t }

pub next_thread_to_run : Threads → ℕ × Threads
next_thread_to_run s = elim s.ready_list [
  | [] ↦ (s.idle_thread, s)
  | t ∷ rest ↦ (t, record s { ready_list = rest })
]

-- With the part of `thread_schedule_tail` that marks the new thread as running.
pub schedule : Threads → Option Threads
schedule s =
    let next = next_thread_to_run s in
    do
      assert (not (is_running (s.status s.current)))
      some (set_status (record next.1 { current = next.0 }) next.0 running)

pub thread_yield : Threads → Option Threads
thread_yield s =
    let queued = if s.current == s.idle_thread then s else enqueue s s.current in
    schedule (set_status queued s.current ready)

unfoldable pub thread_block : Threads → Option Threads
thread_block s = schedule (set_status s s.current blocked)

pub thread_exit : Threads → Option Threads
thread_exit s = schedule (set_status s s.current dying)

-- The test that two functions make before they yield, of the head of the ready list.
abbrev pub head_is_higher : Threads → ℕ → Bool
head_is_higher s ready_head = ltb (s.priority s.current) (s.priority ready_head)

-- The running thread yields to the head of the ready list, given beside the state, if that has a
-- higher priority; the idle thread does not.
pub yield_to_head : Threads → List ℕ → Option Threads
yield_to_head s [] = some s
yield_to_head s (ready_head ∷ _) =
    if head_is_higher s ready_head && not (s.current == s.idle_thread)
    then thread_yield s
    else some s

pub thread_unblock : Threads → ℕ → Option Threads
unfolding yield_to_head
thread_unblock s t = do
  assert (is_blocked (s.status t))
  let s' = set_status (enqueue s t) t ready
  yield_to_head s' s'.ready_list

pub thread_set_priority : Threads → ℕ → Option Threads
thread_set_priority s new_priority = do
  assert (leb new_priority pri_max)
  let s' = record s { priority = λ u. if u == s.current then new_priority else s.priority u }
  elim s'.ready_list [
    | [] ↦ none
    | ready_head ∷ _ ↦ if head_is_higher s' ready_head then thread_yield s' else some s'
  ]
