-- ===== src/Threads/Timer/Tests.antt =====
-- At tick 9 thread 2 sleeps until tick 10; 1 runs, 3 is ready. Later thread 4 sleeps, which has the
-- highest priority.
use cs.Base.{
  ℕ, ◌≡◌, refl, true, false, none, some, [], ◌∷◌, In, ◌==◌, if◌then◌else◌, inl, inr, arith,
}
use cs.Threads.Scheduler.{Threads, running, ready, blocked}
use cs.Threads.Scheduler.Fair.{IsFair}
use cs.Threads.Synch.{sema_init}
use cs.Threads.Timer.{Timer, pos, ticked, timer_interrupt, timer_sleep}
use cs.Threads.Timer.Unblock.{MayStay}
use cs.Threads.Timer.Wake.{IsAsleep, Woken, slept_on, timer_interrupt-Woken, timer_interrupt_fails}
use cs.Threads.Timer.Sleep.{timer_sleep-IsAsleep}

abbrev four : Threads
four = record {
  current = 1;
  idle_thread = 0;
  ready_list = 3 ∷ [];
  status = λ t.
      if t == 1 then running else if t == 2 then blocked else if t == 4 then blocked else ready;
  priority = λ t. if t == 1 then 31 else if t == 2 then 10 else if t == 4 then 50 else 20;
}

four-IsFair : IsFair four
four-IsFair = record { in_order = tt; highest = inr (refl, tt); marked = refl }

abbrev night : ℕ → Timer
night u = record {
  ticks = 9;
  wait_list = u ∷ [];
  wakeup_time = λ _. 10;
  sema_sleep = λ v. if v == 1 then sema_init 0 else slept_on v;
  idle_ticks = 0;
  kernel_ticks = 9;
  thread_ticks = 1;
  yield_on_return = false;
}

two-IsAsleep : IsAsleep (2 ∷ []) (night 2) four
two-IsAsleep = record {
  in_order = tt;
  distinct = (λ z. z, tt);
  asleep = λ u i. elim i [ inl e ↦ rw e refl | inr z ↦ absurd z ];
  waits = λ u i. elim i [ inl e ↦ rw e refl | inr z ↦ absurd z ];
}

four-IsAsleep : IsAsleep (4 ∷ []) (night 4) four
four-IsAsleep = record {
  in_order = tt;
  distinct = (λ z. z, tt);
  asleep = λ u i. elim i [ inl e ↦ rw e refl | inr z ↦ absurd z ];
  waits = λ u i. elim i [ inl e ↦ rw e refl | inr z ↦ absurd z ];
}

two_may : (x : ℕ) → In x (2 ∷ []) → MayStay four x
two_may x (inl e) = rw e (inr (omega arith))
two_may x (inr z) = absurd z

ready_marked : (u : ℕ) → In u (3 ∷ []) → four.status u ≡ ready
ready_marked u (inl e) = rw e refl
ready_marked u (inr z) = absurd z

idle_awake : In 0 (2 ∷ []) → ⊥
idle_awake (inl e) = omega (arith, e)
idle_awake (inr z) = z

timer_interrupt-Woken_example :
    (t' : Timer) × (s' : Threads) × (timer_interrupt (night 2) four ≡ some (t', s'))
    × Woken (2 ∷ []) (ticked (night 2) four) four t' s'
timer_interrupt-Woken_example =
    timer_interrupt-Woken (night 2) four (omega arith) four-IsFair two-IsAsleep
      (λ x i _. two_may x i)

timer_interrupt_fails_example : timer_interrupt (night 4) four ≡ none
timer_interrupt_fails_example =
    timer_interrupt_fails (night 4) four 4 [] refl four-IsFair four-IsAsleep (omega arith)
      (λ e. omega (arith, e)) (omega arith)

timer_sleep-IsAsleep_example :
    (t' : Timer) × (s' : Threads) × (timer_sleep true (pos 3) (night 2) four ≡ some (false, t', s'))
    × IsAsleep t'.wait_list t' s'
    × In 1 t'.wait_list
    × (t'.wakeup_time 1 ≡ 12)
    × IsFair s'
timer_sleep-IsAsleep_example =
    timer_sleep-IsAsleep (night 2) four 2 (omega arith) four-IsFair two-IsAsleep refl
      (λ e. omega (arith, e)) idle_awake ready_marked
