-- ===== src/Threads/Synch/Wake.antt =====
-- synch.c: a semaphore keeps its waiting threads in order of priority and wakes the highest.
use cs.Base.{
  ℕ, ◌+◌, ◌-◌, ◌≡◌, refl, sym, subst, ◌⊎◌, inl, inr, true, false, some, List, [], ◌∷◌, ◌==◌,
  Bool-cases, arith,
}
use cs.Base.{In, In-append_right}
use cs.Kernel.Order.{insert_ordered}
use cs.Kernel.Order.Runs.{Sorted}
use cs.Kernel.Order.Insert.{insert_ordered-Placed, insert_ordered-Sorted}
use cs.Threads.Scheduler.{Threads, blocked, value_less}
use cs.Threads.Scheduler.Fair.{
  IsFair, value_less-IsAsym, thread_block-Succeeds, thread_unblock-Succeeds, Chain-Sorted,
}
use cs.Threads.Scheduler.Awake.{Awake, thread_unblock-Awake}
use cs.Threads.Synch.{Semaphore, sema_down, sema_up}

-- The waiting threads are in order of priority, the highest first, and blocked.
pub record IsQueue (waiters : List ℕ) (s : Threads) : Type 0 where
  pub in_order : Sorted (value_less s.priority) waiters
  pub asleep : (t : ℕ) → In t waiters → s.status t ≡ blocked

-- The threads that still wait when the first was woken.
abbrev pub rest_of : List ℕ → List ℕ
rest_of [] = []
rest_of (t ∷ rest) = rest

-- What became of the waiting threads: without one nothing changes; the first one is awake, and the
-- others still wait in order.
abbrev pub WakesFirst : List ℕ → Threads → Threads → Type 0
WakesFirst [] s s' = s' ≡ s
WakesFirst (t ∷ rest) s s' = Awake t s' × Sorted (value_less s.priority) rest

sema_up_from :
    (sema : Semaphore) (s : Threads) (waiters : List ℕ)
    → sema.waiters ≡ waiters
    → IsFair s
    → IsQueue waiters s
    → (s' : Threads) × (sema_up sema s
        ≡ some (record { value = sema.value + 1; waiters = rest_of waiters }, s'))
      × IsFair s'
      × WakesFirst waiters s s'
unfolding sema_up
sema_up_from sema s [] w f q = (s, rw w refl, f, refl)
sema_up_from sema s (t ∷ rest) w f q =
    let (s', e, f') = thread_unblock-Succeeds s t f (q.asleep t (inl refl)) in
    (
      s',
      rw (w, e) refl,
      f',
      (thread_unblock-Awake s s' t e, Chain-Sorted s.priority t rest q.in_order),
    )

-- `sema_up` of a semaphore whose waiting threads are blocked and in order of priority succeeds and
-- adds one to the value. Without a waiting thread no thread changes; else the one of the highest
-- priority leaves the list, and is ready or runs at once, and the others still wait in order. No
-- ready thread has a higher priority than the running one then, unless that is the idle thread.
pub sema_up-Leaves :
    (sema : Semaphore) (s : Threads)
    → IsFair s
    → IsQueue sema.waiters s
    → (s' : Threads) × (sema_up sema s
        ≡ some (record { value = sema.value + 1; waiters = rest_of sema.waiters }, s'))
      × IsFair s'
      × WakesFirst sema.waiters s s'
sema_up-Leaves sema s = sema_up_from sema s sema.waiters refl

queued_In :
    (s : Threads) (waiters : List ℕ)
    → In s.current (insert_ordered (value_less s.priority) waiters s.current)
queued_In s waiters =
    let p = insert_ordered-Placed (value_less s.priority) waiters s.current in
    subst (In s.current) (sym p.placed)
      (In-append_right s.current p.before (s.current ∷ p.after) (inl refl))

-- `sema_down` of a semaphore of value zero whose waiting threads are in order of priority succeeds:
-- the running thread waits too, in its place by priority, and another thread runs, fairly; of
-- any other semaphore it takes one and the running thread goes on.
pub sema_down-Leaves :
    (sema : Semaphore) (s : Threads)
    → IsFair s
    → Sorted (value_less s.priority) sema.waiters
    → ((sema.value ≡ 0)
        × (waiters : List ℕ) × (s' : Threads) × (sema_down sema s
            ≡ some (false, record { value = sema.value; waiters = waiters }, s'))
        × Sorted (value_less s.priority) waiters
        × In s.current waiters
        × IsFair s')
      ⊎ (sema_down sema s ≡ some (true, record sema { value = sema.value - 1 }, s))
unfolding sema_down
sema_down-Leaves sema s f q = elim (Bool-cases (sema.value == 0)) [
  | inl down ↦
      let (s', e, f') = (thread_block-Succeeds s f.in_order).0 in
      inl (
        (ground arith),
        insert_ordered (value_less s.priority) sema.waiters s.current,
        s',
        rw (down, e) refl,
        insert_ordered-Sorted (value_less s.priority) sema.waiters s.current
            (value_less-IsAsym s.priority) q,
        queued_In s sema.waiters,
        f',
      )
  | inr up ↦ inr (rw up refl)
]
