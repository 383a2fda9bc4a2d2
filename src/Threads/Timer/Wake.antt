-- ===== src/Threads/Timer/Wake.antt =====
-- timer.c: the threads that the interrupt handler wakes.
use cs.Base.{
  ℕ, ◌+◌, ◌^◌, ◌≤◌, ◌<◌, ◌≡◌, ◌≢◌, refl, sym, ap, ◌∙◌, subst, true, false, none, some, List, [],
  ◌∷◌, In, Distinct, ltb, leb, ◌==◌, arith, ◌⊎◌, inl, inr, Bool-cases,
}
use cs.Kernel.Order.Runs.{Chain, Sorted}
use cs.Threads.Scheduler.{Threads, ready, blocked, enqueue}
use cs.Kernel.Order.Insert.{In-insert_ordered, In-insert_ordered_self}
use cs.Threads.Scheduler.Fair.{IsFair, unblocked}
use cs.Threads.Synch.{Semaphore}
use cs.Threads.Timer.{
  Timer, value_less, set_sleep, sema_up_in_handler, wake_from, thread_tick, ticked, timer_interrupt,
}
use cs.Threads.Timer.Unblock.{MayStay, unblock_in_handler-IsFair, unblock_in_handler_fails}

-- The semaphore of a thread that sleeps, and of one that was woken.
abbrev pub slept_on : ℕ → Semaphore
slept_on u = record { value = 0; waiters = u ∷ [] }

abbrev pub raised : Semaphore
raised = record { value = 1; waiters = [] }

-- The threads of the list sleep, in the order in which they wake up.
pub record IsAsleep (l : List ℕ) (t : Timer) (s : Threads) : Type 0 where
  pub in_order : Sorted (value_less t.wakeup_time) l
  pub distinct : Distinct l
  pub asleep : (u : ℕ) → In u l → s.status u ≡ blocked
  pub waits : (u : ℕ) → In u l → t.sema_sleep u ≡ slept_on u

-- What waking the threads of the list changes: those whose time has come are ready.
pub record Woken (l : List ℕ) (t : Timer) (s : Threads) (t' : Timer) (s' : Threads) : Type 0 where
  pub clock : (t'.ticks ≡ t.ticks) × (t'.wakeup_time ≡ t.wakeup_time)
  pub in_order : Sorted (value_less t.wakeup_time) t'.wait_list
  pub left : (u : ℕ) → In u t'.wait_list → In u l × (t.ticks < t.wakeup_time u)
  pub stays : (u : ℕ) → In u l → t.ticks < t.wakeup_time u → In u t'.wait_list
  pub due :
      (u : ℕ)
      → In u l
      → t.wakeup_time u ≤ t.ticks
      → (s'.status u ≡ ready) × In u s'.ready_list × (t'.sema_sleep u ≡ raised)
  pub others :
      (u : ℕ)
      → ((In u l → ⊥) ⊎ (t.ticks < t.wakeup_time u))
      → (s'.status u ≡ s.status u) × (t'.sema_sleep u ≡ t.sema_sleep u)
  pub kept : (u : ℕ) → In u s.ready_list → In u s'.ready_list
  pub current : s'.current ≡ s.current
  pub fair : IsFair s'

tail_in_order :
    (wakeup : ℕ → ℕ) (u : ℕ) (rest : List ℕ)
    → Chain (value_less wakeup) u rest
    → Sorted (value_less wakeup) rest
tail_in_order wakeup u [] c = tt
tail_in_order wakeup u (x ∷ rest) c = c.1

later :
    (wakeup : ℕ → ℕ) (u : ℕ) (rest : List ℕ) (x : ℕ)
    → Chain (value_less wakeup) u rest
    → In x rest
    → wakeup u ≤ wakeup x
later wakeup u [] x c i = absurd i
later wakeup u (y ∷ rest) x c (inl e) = ground (arith, c.0, ap wakeup e)
later wakeup u (y ∷ rest) x c (inr i) =
    let after = later wakeup y rest x c.1 i in ground (arith, c.0, after)

-- The states after thread u woke up.
abbrev timer_after : Timer → List ℕ → ℕ → Timer
timer_after t rest u = set_sleep (record t { wait_list = rest }) u raised

sema_up_in_handler_lem :
    (t : Timer) (s : Threads) (u : ℕ)
    → IsFair s
    → s.status u ≡ blocked
    → t.sema_sleep u ≡ slept_on u
    → MayStay s u
    → sema_up_in_handler (t.sema_sleep u) s ≡ some (raised, unblocked s u)
unfolding sema_up_in_handler
sema_up_in_handler_lem t s u f b w stay = rw (w, (unblock_in_handler-IsFair s u f b stay).0) refl

is_self : (n : ℕ) → (n == n) ≡ true
is_self n = ground arith

is_other : (n u : ℕ) → n ≢ u → (n == u) ≡ false
is_other n u ne = ground (arith, ne)

after-IsAsleep :
    (t : Timer) (s : Threads) (u : ℕ) (rest : List ℕ)
    → IsAsleep (u ∷ rest) t s
    → IsAsleep rest (timer_after t rest u) (unblocked s u)
unfolding enqueue
after-IsAsleep t s u rest a =
    let other : (x : ℕ) → In x rest → (x == u) ≡ false =
      λ x i. is_other x u (λ e. a.distinct.0 (subst (λ y. In y rest) e i)) in
    record {
      in_order = tail_in_order t.wakeup_time u rest a.in_order;
      distinct = a.distinct.1;
      asleep = λ x i. rw (other x i) (a.asleep x (inr i));
      waits = λ x i. rw (other x i) (a.waits x (inr i));
    }

-- One more thread was woken before.
Woken-cons :
    (t : Timer) (s : Threads) (u : ℕ) (rest : List ℕ) (t' : Timer) (s' : Threads)
    → IsAsleep (u ∷ rest) t s
    → t.wakeup_time u ≤ t.ticks
    → Woken rest (timer_after t rest u) (unblocked s u) t' s'
    → Woken (u ∷ rest) t s t' s'
unfolding enqueue
Woken-cons t s u rest t' s' a now w = record {
  clock = w.clock;
  in_order = w.in_order;
  left = λ x i. let (m, lt) = w.left x i in (inr m, lt);
  stays = λ x i lt. elim i [
    | inl e ↦ absurd (omega (arith, ap t.wakeup_time e, lt, now))
    | inr m ↦ w.stays x m lt
  ];
  due = λ x i le. elim i [
    | inl e ↦
        let out : In x rest → ⊥ = λ m. a.distinct.0 (subst (λ y. In y rest) e m) in
        let same : (x == u) ≡ true = ap (λ y. y == u) e ∙ is_self u in
        let (status, sema) = w.others x (inl out) in
        (
          status ∙ rw same refl,
          w.kept x (
              subst (λ y. In y (unblocked s u).ready_list) (sym e)
                (In-insert_ordered_self _ s.ready_list u)),
          sema ∙ rw same refl,
        )
    | inr m ↦ w.due x m le
  ];
  others = λ x h.
      let ne : x ≢ u = λ e. elim h [
        | inl out ↦ out (inl e)
        | inr lt ↦ omega (arith, ap t.wakeup_time e, lt, now)
      ] in
      let rest_h : (In x rest → ⊥) ⊎ (t.ticks < t.wakeup_time x) = elim h [
        | inl out ↦ inl (λ m. out (inr m))
        | inr lt ↦ inr lt
      ] in
      let (status, sema) = w.others x rest_h in
      (status ∙ rw (is_other x u ne) refl, sema ∙ rw (is_other x u ne) refl);
  kept = λ x i. w.kept x (In-insert_ordered _ s.ready_list u x i);
  current = w.current;
  fair = w.fair;
}

-- Nothing to wake.
Woken-none :
    (t : Timer) (s : Threads) (l : List ℕ)
    → t.wait_list ≡ l
    → IsFair s
    → Sorted (value_less t.wakeup_time) l
    → ((x : ℕ) → In x l → t.ticks < t.wakeup_time x)
    → Woken l t s t s
Woken-none t s l e f o all = record {
  clock = (refl, refl);
  in_order = subst (Sorted (value_less t.wakeup_time)) (sym e) o;
  left = λ x i. let m : In x l = subst (In x) e i in (m, all x m);
  stays = λ x i lt. subst (In x) (sym e) i;
  due = λ x i le. absurd (omega (arith, all x i, le));
  others = λ x h. (refl, refl);
  kept = λ x i. i;
  current = refl;
  fair = f;
}

wake_from-Woken :
    (l : List ℕ) (t : Timer) (s : Threads)
    → t.wait_list ≡ l
    → IsFair s
    → IsAsleep l t s
    → ((x : ℕ) → In x l → t.wakeup_time x ≤ t.ticks → MayStay s x)
    → (t' : Timer) × (s' : Threads) × (wake_from l t s ≡ some (t', s')) × Woken l t s t' s'
unfolding wake_from enqueue
wake_from-Woken [] t s e f a stay = (t, s, refl, Woken-none t s [] e f tt (λ x i. absurd i))
wake_from-Woken (u ∷ rest) t s e f a stay = elim (Bool-cases (leb (t.wakeup_time u) t.ticks)) [
  | inr not_yet ↦ (
    t,
    s,
    rw not_yet refl,
    Woken-none t s (u ∷ rest) e f a.in_order (λ x i. elim i [
      | inl z ↦ ground (arith, not_yet, ap t.wakeup_time z)
      | inr m ↦
          let after = later t.wakeup_time u rest x a.in_order m in ground (arith, not_yet, after)
    ]),
  )
  | inl come ↦
      let now : t.wakeup_time u ≤ t.ticks = ground (arith, come) in
      let may = stay u (inl refl) now in
      let b = a.asleep u (inl refl) in
      let up = sema_up_in_handler_lem t s u f b (a.waits u (inl refl)) may in
      let (t', s', run, w) =
        wake_from-Woken rest (timer_after t rest u) (unblocked s u) refl
          (unblock_in_handler-IsFair s u f b may).1 (after-IsAsleep t s u rest a)
          (λ x i le. stay x (inr i) le) in
      (t', s', rw (come, up) run, Woken-cons t s u rest t' s' a now w)
]

-- The timer interrupt, while the threads of the wait list sleep in order, the clock does not
-- overflow, and no thread whose time has come has a higher priority than the running one, unless
-- that is the idle thread: the handler ends, each thread whose time has come by the new tick is
-- ready and off the list, and every other thread is as before.
pub timer_interrupt-Woken :
    (t : Timer) (s : Threads)
    → t.ticks + 1 < 2 ^ 63
    → IsFair s
    → IsAsleep t.wait_list t s
    → ((x : ℕ) → In x t.wait_list → t.wakeup_time x ≤ t.ticks + 1 → MayStay s x)
    → (t' : Timer) × (s' : Threads) × (timer_interrupt t s ≡ some (t', s'))
      × Woken t.wait_list (ticked t s) s t' s'
unfolding timer_interrupt thread_tick
timer_interrupt-Woken t s room f a stay =
    let small : ltb (t.ticks + 1) (2 ^ 63) ≡ true = ground (arith, room) in
    let (t', s', run, w) =
      wake_from-Woken t.wait_list (ticked t s) s refl f
        (record {
          in_order = a.in_order;
          distinct = a.distinct;
          asleep = a.asleep;
          waits = a.waits;
        })
        stay in
    (t', s', rw small run, w)

-- When the first sleeping thread's time has come and it has a higher priority than the running
-- thread, which is not the idle one, the interrupt handler fails an assertion.
pub timer_interrupt_fails :
    (t : Timer) (s : Threads) (u : ℕ) (rest : List ℕ)
    → t.wait_list ≡ u ∷ rest
    → IsFair s
    → IsAsleep t.wait_list t s
    → t.wakeup_time u ≤ t.ticks + 1
    → s.current ≢ s.idle_thread
    → s.priority s.current < s.priority u
    → timer_interrupt t s ≡ none
unfolding timer_interrupt thread_tick wake_from sema_up_in_handler
timer_interrupt_fails t s u rest e f a now busy high =
    let come : leb (t.wakeup_time u) (t.ticks + 1) ≡ true = ground (arith, now) in
    let waits = a.waits u (subst (In u) (sym e) (inl refl)) in
    let fails = unblock_in_handler_fails s u f busy high in
    elim (Bool-cases (ltb (t.ticks + 1) (2 ^ 63))) [
      | inr over ↦ rw over refl
      | inl small ↦ rw (small, e, come, waits, fails) refl
    ]
