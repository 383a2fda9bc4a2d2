-- ===== src/Threads/Timer/Sleep.antt =====
-- timer.c: a thread goes to sleep.
use cs.Base.{
  ℕ, suc, ◌+◌, ◌^◌, ◌<◌, ◌≡◌, ◌≢◌, refl, sym, ap, ◌∙◌, subst, true, false, some, List, [], ◌∷◌, In,
  ltb, ◌==◌, if◌then◌else◌, ◌>>=◌, some-injective, arith, ◌⊎◌, inl, inr,
}
use cs.Kernel.Order.{insert_ordered}
use cs.Kernel.Order.Runs.{Chain, Sorted}
use cs.Kernel.Order.Sort.{IsAsym}
use cs.Kernel.Order.Insert.{
  insert_ordered-Sorted, insert_ordered-IsBefore, In-insert_ordered_self, In-of_insert_ordered,
  Distinct-insert_ordered,
}
use cs.Threads.Scheduler.{Threads, running, ready, blocked, set_status, thread_block}
use cs.Threads.Scheduler.Fair.{
  IsFair, switched, schedule_empty, schedule_next, list_cases, given_up, thread_block-Succeeds,
}
use cs.Threads.Scheduler
use cs.Threads.Synch.{sema_init, sema_down}
use cs.Threads.Timer.{Timer, pos, value_less, set_sleep, put_to_wait, timer_sleep}
use cs.Threads.Timer.Wake.{IsAsleep, slept_on}

less-IsAsym : (wakeup : ℕ → ℕ) → IsAsym (value_less wakeup)
less-IsAsym wakeup a b h = ground arith

is_self : (n : ℕ) → (n == n) ≡ true
is_self n = ground arith

is_other : (n u : ℕ) → n ≢ u → (n == u) ≡ false
is_other n u ne = ground (arith, ne)

-- Another wakeup time of a thread that is not on the list.
abbrev with_time : (ℕ → ℕ) → ℕ → ℕ → ℕ → ℕ
with_time wakeup u stop v = if v == u then stop else wakeup v

Chain-with_time :
    (wakeup : ℕ → ℕ) (u stop a : ℕ) (l : List ℕ)
    → (In u (a ∷ l) → ⊥)
    → Chain (value_less wakeup) a l
    → Chain (value_less (with_time wakeup u stop)) a l
Chain-with_time wakeup u stop a [] out c = tt
Chain-with_time wakeup u stop a (b ∷ l) out c = (
  rw (is_other a u (λ e. out (inl (sym e))), is_other b u (λ e. out (inr (inl (sym e))))) (c.0),
  Chain-with_time wakeup u stop b l (λ i. out (inr i)) c.1,
)

Sorted-with_time :
    (wakeup : ℕ → ℕ) (u stop : ℕ) (l : List ℕ)
    → (In u l → ⊥)
    → Sorted (value_less wakeup) l
    → Sorted (value_less (with_time wakeup u stop)) l
Sorted-with_time wakeup u stop [] out o = tt
Sorted-with_time wakeup u stop (a ∷ l) out o = Chain-with_time wakeup u stop a l out o

-- The thread that runs after the current one is blocked: a ready one, or the idle thread.
thread_block_next :
    (s : Threads)
    → IsFair s
    → (n : ℕ) × (rest : List ℕ) × (thread_block s
        ≡ some (switched (set_status s s.current blocked) n rest))
      × (In n s.ready_list ⊎ (n ≡ s.idle_thread))
unfolding thread_block
thread_block_next s f = elim (list_cases s.ready_list) [
  | inl e ↦ (
    s.idle_thread,
    s.ready_list,
    schedule_empty (set_status s s.current blocked) e (given_up s blocked refl),
    inr refl,
  )
  | inr (n, rest, e) ↦ (
    n,
    rest,
    schedule_next (set_status s s.current blocked) n rest e (given_up s blocked refl),
    inl (subst (In n) (sym e) (inl refl)),
  )
]

sleep_down :
    (s s1 : Threads)
    → thread_block s ≡ some s1
    → sema_down (sema_init 0) s ≡ some (false, slept_on s.current, s1)
unfolding sema_down
sleep_down s s1 run =
    ap
      (λ r. r >>= (λ s'. some (
        false,
        record {
          value = 0;
          waiters = insert_ordered (Scheduler.value_less s.priority) [] s.current;
        },
        s',
      )))
      run
    ∙ ap (λ w. some (false, record { value = 0; waiters = w }, s1))
        (insert_ordered-IsBefore (Scheduler.value_less s.priority) [] s.current tt)

-- The states after thread c went to sleep, and thread m runs.
slept-IsAsleep :
    (t : Timer) (s : Threads) (stop c m : ℕ) (rest : List ℕ)
    → IsAsleep t.wait_list t s
    → (In c t.wait_list → ⊥)
    → (In m t.wait_list → ⊥)
    → c ≢ m
    → IsAsleep
        (put_to_wait t c stop).wait_list
        (set_sleep (put_to_wait t c stop) c (slept_on c))
        (switched (set_status s c blocked) m rest)
slept-IsAsleep t s stop c m rest a out not_asleep ne = record {
  in_order =
      insert_ordered-Sorted (value_less (with_time t.wakeup_time c stop)) t.wait_list c
        (less-IsAsym (with_time t.wakeup_time c stop))
        (Sorted-with_time t.wakeup_time c stop t.wait_list out a.in_order);
  distinct = Distinct-insert_ordered _ t.wait_list c out a.distinct;
  asleep = λ x i. elim (In-of_insert_ordered _ t.wait_list c x i) [
    | inl e ↦ rw (e, is_other c m ne, is_self c) refl
    | inr j ↦
        rw
          (
            is_other x m (λ e. not_asleep (subst (λ y. In y t.wait_list) e j)),
            is_other x c (λ e. out (subst (λ y. In y t.wait_list) e j)),
          )
          (a.asleep x j)
  ];
  waits = λ x i. elim (In-of_insert_ordered _ t.wait_list c x i) [
    | inl e ↦ rw (e, is_self c) refl
    | inr j ↦ rw (is_other x c (λ e. out (subst (λ y. In y t.wait_list) e j))) (a.waits x j)
  ];
}

-- `timer_sleep` of a positive number of ticks, with interrupts on and a clock that does not overflow,
-- by a running thread that is neither the idle one nor has its semaphore raised, while the sleeping
-- threads are in order and the idle thread is not among them, and the ready ones are marked so: the
-- thread waits, is among the sleeping threads, which are in order, and wakes up that much later.
pub timer_sleep-IsAsleep :
    (t : Timer) (s : Threads) (n : ℕ)
    → t.ticks + suc n < 2 ^ 63
    → IsFair s
    → IsAsleep t.wait_list t s
    → t.sema_sleep s.current ≡ sema_init 0
    → s.current ≢ s.idle_thread
    → (In s.idle_thread t.wait_list → ⊥)
    → ((u : ℕ) → In u s.ready_list → s.status u ≡ ready)
    → (t' : Timer) × (s' : Threads) × (timer_sleep true (pos (suc n)) t s ≡ some (false, t', s'))
      × IsAsleep t'.wait_list t' s'
      × In s.current t'.wait_list
      × (t'.wakeup_time s.current ≡ t.ticks + suc n)
      × IsFair s'
unfolding timer_sleep
timer_sleep-IsAsleep t s n room f a low busy awake marked =
    let c = s.current in
    let small : ltb (t.ticks + suc n) (2 ^ 63) ≡ true = ground (arith, room) in
    let out : In c t.wait_list → ⊥ = λ i. cc (f.marked, a.asleep c i) in
    let (m, rest, run, is_next) = thread_block_next s f in
    let ne : c ≢ m =
      λ e. elim is_next [ inl i ↦ cc (f.marked, e, marked m i) | inr idle ↦ busy (e ∙ idle) ] in
    let not_asleep : In m t.wait_list → ⊥ = λ i. elim is_next [
      | inl j ↦ cc (a.asleep m i, marked m j)
      | inr idle ↦ awake (subst (λ y. In y t.wait_list) idle i)
    ] in
    let (s', succeeds, f') = (thread_block-Succeeds s f.in_order).0 in
    let down : t.sema_sleep c ≡ sema_init 0 = low in
    let waits = sleep_down s (switched (set_status s c blocked) m rest) run in
    (
      set_sleep (put_to_wait t c (t.ticks + suc n)) c (slept_on c),
      switched (set_status s c blocked) m rest,
      rw (small, down, waits) refl,
      slept-IsAsleep t s (t.ticks + suc n) c m rest a out not_asleep ne,
      In-insert_ordered_self _ t.wait_list c,
      rw (is_self c) refl,
      subst IsFair (some-injective _ _ (sym succeeds ∙ run)) f',
    )
