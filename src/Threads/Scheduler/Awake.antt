-- ===== src/Threads/Scheduler/Awake.antt =====
-- thread.c: an unblocked thread runs, or is ready.
use cs.Base.{
  ℕ, ◌≡◌, ◌≢◌, refl, sym, ap, ◌∙◌, subst, true, false, not, ◌&&◌, some, some-injective, List, [],
  ◌∷◌, ◌==◌, if◌then◌else◌, arith, ◌⊎◌, inl, inr, Bool-cases, In, bind_inv, assert,
}
use native.Mathlib.Decide.{ℕ_discrete}
use cs.Kernel.Order.Insert.{In-insert_ordered, In-insert_ordered_self}
use cs.Threads.Scheduler.{
  Threads, running, ready, is_blocked, is_running, set_status, enqueue, thread_yield,
  thread_unblock, yield_to_head, schedule, head_is_higher,
}
use cs.Threads.Scheduler.Fair.{unblocked, switched, schedule_next, given_up, list_cases}

-- The thread is ready and on the ready list, or it runs.
abbrev pub Awake : ℕ → Threads → Type 0
Awake t s = ((s.status t ≡ ready) × In t s.ready_list) ⊎ ((s.status t ≡ running) × (s.current ≡ t))

is_self : (n : ℕ) → (n == n) ≡ true
is_self n = ground arith

is_other : (n u : ℕ) → n ≢ u → (n == u) ≡ false
is_other n u ne = ground (arith, ne)

-- A ready thread, when the processor goes to the head of the ready list.
schedule-Awake :
    (s s' : Threads) (t : ℕ)
    → s.status t ≡ ready
    → In t s.ready_list
    → is_running (s.status s.current) ≡ false
    → schedule s ≡ some s'
    → Awake t s'
schedule-Awake s s' t r i gave_up e = elim (list_cases s.ready_list) [
  | inl none_left ↦ absurd (subst (In t) none_left i)
  | inr (h, rest, parts) ↦
      let same : switched s h rest ≡ s' =
        some-injective _ _ (sym (schedule_next s h rest parts gave_up) ∙ e) in
      subst (Awake t) same (elim (ℕ_discrete t h) [
        | yes first ↦ inr (rw (ap (λ n. n == h) first ∙ is_self h) refl, sym first)
        | no other ↦ inl (rw (is_other t h other) r, later h rest other (subst (In t) parts i))
      ])
]
  where
    later : (h : ℕ) (rest : List ℕ) → t ≢ h → In t (h ∷ rest) → In t rest
    later h rest ne (inl same) = absurd (ne same)
    later h rest ne (inr m) = m

-- The running thread c gives up.
give_up-Awake :
    (q s' : Threads) (t : ℕ)
    → q.status t ≡ ready
    → In t q.ready_list
    → schedule (set_status q q.current ready) ≡ some s'
    → Awake t s'
give_up-Awake q s' t r i e =
    schedule-Awake (set_status q q.current ready) s' t still i (given_up q ready refl) e
  where
    still : (set_status q q.current ready).status t ≡ ready
    still = elim (Bool-cases (t == q.current)) [ inl same ↦ rw same refl | inr other ↦ rw other r ]

thread_yield-Awake :
    (s s' : Threads) (t : ℕ)
    → s.status t ≡ ready
    → In t s.ready_list
    → thread_yield s ≡ some s'
    → Awake t s'
unfolding thread_yield enqueue
thread_yield-Awake s s' t r i e = elim (Bool-cases (s.current == s.idle_thread)) [
  | inl idle ↦ give_up-Awake s s' t r i (
      subst
        (λ b.
          schedule (set_status (if b then s else enqueue s s.current) s.current ready) ≡ some s')
        idle e)
  | inr other ↦
      give_up-Awake (enqueue s s.current) s' t r (In-insert_ordered _ s.ready_list s.current t i) (
        subst
          (λ b.
            schedule (set_status (if b then s else enqueue s s.current) s.current ready) ≡ some s')
          other e)
]

yield_to_head-Awake :
    (s s' : Threads) (l : List ℕ) (t : ℕ)
    → s.status t ≡ ready
    → In t s.ready_list
    → yield_to_head s l ≡ some s'
    → Awake t s'
unfolding yield_to_head
yield_to_head-Awake s s' [] t r i e = subst (Awake t) (some-injective _ _ e) (inl (r, i))
yield_to_head-Awake s s' (h ∷ rest) t r i e =
    elim (Bool-cases (head_is_higher s h && not (s.current == s.idle_thread))) [
      | inl yields ↦
          thread_yield-Awake s s' t r i
            (subst (λ b. (if b then thread_yield s else some s) ≡ some s') yields e)
      | inr stays ↦
          subst (Awake t)
            (some-injective _ _
              (subst (λ b. (if b then thread_yield s else some s) ≡ some s') stays e))
            (inl (r, i))
    ]

-- A thread that `thread_unblock` was called for is ready, or runs at once.
pub thread_unblock-Awake : (s s' : Threads) (t : ℕ) → thread_unblock s t ≡ some s' → Awake t s'
unfolding thread_unblock enqueue
thread_unblock-Awake s s' t e =
    let (_, _, run) =
      bind_inv (assert (is_blocked (s.status t)))
        (λ _. yield_to_head (unblocked s t) (unblocked s t).ready_list) s' e in
    yield_to_head-Awake (unblocked s t) s' (unblocked s t).ready_list t (rw (is_self t) refl)
      (In-insert_ordered_self _ s.ready_list t) run
