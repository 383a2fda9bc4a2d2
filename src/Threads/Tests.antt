-- ===== src/Threads/Tests.antt =====
-- The scheduler with a few threads: 1 runs, 3 is ready, 2 is blocked and has the highest priority.
use cs.Base.{ℕ, ◌≡◌, refl, inl, false, some, none, ◌==◌, if◌then◌else◌, [], ◌∷◌, inr, In}
use cs.Threads.Scheduler.{Threads, running, ready, blocked}
use cs.Threads.Scheduler.Fair.{IsFair}
use cs.Threads.Synch.{
  Lock, Semaphore, Phase, outside, acquires, downed, lock_init, lock_acquire, lock_try_acquire,
  sema_down, sema_up,
}
use cs.Threads.Synch.Owner.{at_phase, IsExclusive, IsOwned}
use cs.Threads.Synch.Exclusion.{
  System, Reachable, start, step, acquire, Until, Reachable-IsExclusive, lock_acquire-Excludes,
}
use cs.Threads.Synch.Wake.{IsQueue, WakesFirst, sema_up-Leaves}

abbrev three : Threads
three = record {
  current = 1;
  idle_thread = 0;
  ready_list = 3 ∷ [];
  status = λ t. if t == 1 then running else if t == 2 then blocked else ready;
  priority = λ t. if t == 2 then 50 else if t == 3 then 20 else 31;
}

three-IsFair : IsFair three
three-IsFair = record { in_order = tt; highest = inr (refl, tt); marked = refl }

-- Thread 1 has the semaphore of the lock, and has not written the holder yet.
abbrev lowered : Lock
lowered = record { holder = none; semaphore = record { value = 0; waiters = [] } }

abbrev asking : ℕ → Phase
asking = at_phase (λ _. outside) 1 acquires

abbrev behind : ℕ → Phase
behind = at_phase asking 1 downed

asks : lock_acquire false outside lock_init three ≡ some (acquires, lock_init, three)
unfolding lock_acquire
asks = refl

gets : lock_acquire false acquires lock_init three ≡ some (downed, lowered, three)
unfolding lock_acquire sema_down
gets = refl

Reachable-behind : Reachable (lowered, three, behind)
Reachable-behind = step (step start (acquire asks)) (acquire gets)

Reachable-IsExclusive_example : IsExclusive lowered behind
Reachable-IsExclusive_example = Reachable-IsExclusive (lowered, three, behind) Reachable-behind

lock_acquire-Excludes_example :
    (lowered.holder ≡ none)
    × (l' : Lock) × (lock_acquire false (behind 1) lowered three ≡ some (outside, l', three))
    × (lock_try_acquire (behind 1) lowered three ≡ some (outside, l', three))
    × (l'.holder ≡ some 1)
    × ((b : System)
        → Until 1 (l', three, at_phase behind 1 outside) b
        → (b.0.holder ≡ some 1) × IsOwned b.0 b.2 1)
lock_acquire-Excludes_example = lock_acquire-Excludes lowered three behind Reachable-behind refl

-- Thread 2 waits for a semaphore.
abbrev wanted : Semaphore
wanted = record { value = 0; waiters = 2 ∷ [] }

wanted-IsQueue : IsQueue (2 ∷ []) three
wanted-IsQueue = record { in_order = tt; asleep = asleep }
  where
    asleep : (t : ℕ) → In t (2 ∷ []) → three.status t ≡ blocked
    asleep t (inl e) = rw e refl
    asleep t (inr h) = absurd h

sema_up-Leaves_example :
    (s' : Threads) × (sema_up wanted three ≡ some (record { value = 1; waiters = [] }, s'))
    × IsFair s'
    × WakesFirst (2 ∷ []) three s'
sema_up-Leaves_example = sema_up-Leaves wanted three three-IsFair wanted-IsQueue
