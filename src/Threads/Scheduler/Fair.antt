-- ===== src/Threads/Scheduler/Fair.antt =====
-- thread.c: the running thread has the highest priority.
use cs.Base.{
  ℕ, ◌≡◌, refl, sym, ap, ◌∙◌, subst, Bool, true, false, not, ◌&&◌, Option, some, List, [], ◌∷◌,
  ◌==◌, arith, ◌⊎◌, inl, inr, Bool-cases,
}
use cs.Kernel.Order.Runs.{Chain, Sorted}
use cs.Kernel.Order.Sort.{IsAsym}
use cs.Kernel.Order.Insert.{insert_ordered-Sorted}
use cs.Threads.Scheduler.{
  Threads, Status, running, ready, blocked, dying, is_running, value_less, set_status, enqueue,
  next_thread_to_run, schedule, thread_yield, thread_block, thread_unblock, yield_to_head,
  thread_exit, head_is_higher,
}

pub value_less-IsAsym : (priority : ℕ → ℕ) → IsAsym (value_less priority)
value_less-IsAsym priority a b h = ground arith

-- The ready list is in order of priority, the highest first.
abbrev pub Ordered : Threads → Type 0
Ordered s = Sorted (value_less s.priority) s.ready_list

-- No ready thread has a higher priority than the running one, unless that is the idle thread, and
-- the running thread is marked so.
pub record IsFair (s : Threads) : Type 0 where
  pub in_order : Ordered s
  pub highest : (s.current ≡ s.idle_thread) ⊎ Chain (value_less s.priority) s.current s.ready_list
  pub marked : s.status s.current ≡ running

-- An operation succeeds, and fairness holds after it.
abbrev pub Succeeds : Option Threads → Type 0
Succeeds r = (s' : Threads) × (r ≡ some s') × IsFair s'

pub enqueue-Ordered : (s : Threads) (t : ℕ) → Ordered s → Ordered (enqueue s t)
unfolding enqueue
enqueue-Ordered s t o =
    insert_ordered-Sorted (value_less s.priority) s.ready_list t (value_less-IsAsym s.priority) o

is_self : (n : ℕ) → (n == n) ≡ true
is_self n = ground arith

-- The state in which thread t was switched to, and `rest` is ready.
abbrev pub switched : Threads → ℕ → List ℕ → Threads
switched s t rest = set_status (record s { current = t; ready_list = rest }) t running

pub Chain-Sorted :
    (priority : ℕ → ℕ) (t : ℕ) (rest : List ℕ)
    → Chain (value_less priority) t rest
    → Sorted (value_less priority) rest
Chain-Sorted priority t [] c = tt
Chain-Sorted priority t (u ∷ rest) c = c.1

switched-IsFair :
    (s : Threads) (t : ℕ) (rest : List ℕ)
    → (t ≡ s.idle_thread) ⊎ Chain (value_less s.priority) t rest
    → Sorted (value_less s.priority) rest
    → IsFair (switched s t rest)
switched-IsFair s t rest h o = record { in_order = o; highest = h; marked = rw (is_self t) refl }

pub schedule_empty :
    (s : Threads)
    → s.ready_list ≡ []
    → is_running (s.status s.current) ≡ false
    → schedule s ≡ some (switched s s.idle_thread s.ready_list)
unfolding schedule next_thread_to_run
schedule_empty s e gave_up = rw (gave_up, e) refl

pub schedule_next :
    (s : Threads) (t : ℕ) (rest : List ℕ)
    → s.ready_list ≡ t ∷ rest
    → is_running (s.status s.current) ≡ false
    → schedule s ≡ some (switched s t rest)
unfolding schedule next_thread_to_run
schedule_next s t rest e gave_up = rw (gave_up, e) refl

pub list_cases : (l : List ℕ) → (l ≡ []) ⊎ ((t : ℕ) × (rest : List ℕ) × (l ≡ t ∷ rest))
list_cases [] = inl refl
list_cases (t ∷ rest) = inr (t, rest, refl)

-- `schedule` from an ordered ready list, when the current thread gave up.
schedule-Succeeds :
    (s : Threads) → Ordered s → is_running (s.status s.current) ≡ false → Succeeds (schedule s)
schedule-Succeeds s o gave_up = elim (list_cases s.ready_list) [
  | inl e ↦ (
    switched s s.idle_thread s.ready_list,
    schedule_empty s e gave_up,
    switched-IsFair s s.idle_thread s.ready_list (inl refl) o,
  )
  | inr (t, rest, e) ↦
      let chain : Chain (value_less s.priority) t rest =
        subst (Sorted (value_less s.priority)) e o in
      (
        switched s t rest,
        schedule_next s t rest e gave_up,
        switched-IsFair s t rest (inr chain) (Chain-Sorted s.priority t rest chain),
      )
]

-- The current thread gave up its status.
pub given_up :
    (s : Threads) (st : Status)
    → is_running st ≡ false
    → is_running ((set_status s s.current st).status s.current) ≡ false
given_up s st h = rw (is_self s.current) h

-- From a state with an ordered ready list `thread_yield` succeeds, and after it the ready list is
-- in order and no ready thread has a higher priority than the running one, unless that is the
-- idle thread.
pub thread_yield-Succeeds : (s : Threads) → Ordered s → Succeeds (thread_yield s)
unfolding thread_yield enqueue
thread_yield-Succeeds s o = elim (Bool-cases (s.current == s.idle_thread)) [
  | inl idle ↦ rw idle (schedule-Succeeds (set_status s s.current ready) o (given_up s ready refl))
  | inr other ↦ rw other (
      schedule-Succeeds (set_status (enqueue s s.current) s.current ready)
        (enqueue-Ordered s s.current o) (given_up (enqueue s s.current) ready refl))
]

-- From a state with an ordered ready list `thread_block` and `thread_exit` succeed, and after
-- each the ready list is in order and no ready thread has a higher priority than the running one,
-- unless that is the idle thread.
pub thread_block-Succeeds :
    (s : Threads) → Ordered s → Succeeds (thread_block s) × Succeeds (thread_exit s)
unfolding thread_block thread_exit
thread_block-Succeeds s o = (
  schedule-Succeeds (set_status s s.current blocked) o (given_up s blocked refl),
  schedule-Succeeds (set_status s s.current dying) o (given_up s dying refl),
)

-- The state that `thread_unblock` looks at before it may yield.
abbrev pub unblocked : Threads → ℕ → Threads
unblocked s t = set_status (enqueue s t) t ready

-- Another thread was marked as ready.
pub still_running :
    (s : Threads) (t : ℕ)
    → s.status s.current ≡ running
    → s.status t ≡ blocked
    → (unblocked s t).status s.current ≡ running
unfolding enqueue
still_running s t m b = elim (Bool-cases (s.current == t)) [
  | inl same ↦ let e : s.current ≡ t = ground arith in absurd (apart (sym m ∙ ap s.status e ∙ b))
  | inr other ↦ rw other m
]
  where
    apart : ¬ (running ≡ blocked)
    apart e = cc e

lower : (a c : Bool) → c ≡ false → (a && not c) ≡ false → a ≡ false
lower true c h k = absurd (cc (ap not h, k))
lower false c h k = refl

yield_to_head-Succeeds :
    (s : Threads) (l : List ℕ)
    → s.ready_list ≡ l
    → Ordered s
    → s.status s.current ≡ running
    → Succeeds (yield_to_head s l)
unfolding yield_to_head
yield_to_head-Succeeds s [] e o m = (
  s,
  refl,
  record {
    in_order = o;
    highest = inr (subst (Chain (value_less s.priority) s.current) (sym e) tt);
    marked = m;
  },
)
yield_to_head-Succeeds s (head ∷ rest) e o m =
    elim (Bool-cases (head_is_higher s head && not (s.current == s.idle_thread))) [
      | inl yields ↦ rw yields (thread_yield-Succeeds s o)
      | inr stays ↦ rw stays (s, refl, record { in_order = o; highest = highest stays; marked = m })
    ]
  where
    highest :
        (head_is_higher s head && not (s.current == s.idle_thread)) ≡ false
        → (s.current ≡ s.idle_thread) ⊎ Chain (value_less s.priority) s.current s.ready_list
    highest stays = elim (Bool-cases (s.current == s.idle_thread)) [
      | inl idle ↦ inl (ground arith)
      | inr other ↦ inr (
          subst (Chain (value_less s.priority) s.current) (sym e) (
            lower (head_is_higher s head) (s.current == s.idle_thread) other stays,
            subst (Sorted (value_less s.priority)) e o,
          ))
    ]

pub thread_unblock-Succeeds :
    (s : Threads) (t : ℕ) → IsFair s → s.status t ≡ blocked → Succeeds (thread_unblock s t)
unfolding thread_unblock enqueue
thread_unblock-Succeeds s t f b = rw b (
    yield_to_head-Succeeds (unblocked s t) (unblocked s t).ready_list refl
      (enqueue-Ordered s t f.in_order) (still_running s t f.marked b))
