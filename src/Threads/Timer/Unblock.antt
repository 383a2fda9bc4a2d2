-- ===== src/Threads/Timer/Unblock.antt =====
-- timer.c: a thread is woken in the interrupt handler.
use cs.Base.{
  ℕ, ◌≤◌, ◌<◌, ◌≡◌, ◌≢◌, refl, subst, true, false, not, ◌&&◌, none, some, List, [], ◌∷◌, ltb, ◌==◌,
  arith, ◌⊎◌, inl, inr, Bool-cases,
}
use cs.Kernel.Order.{insert_ordered}
use cs.Kernel.Order.Runs.{Chain}
use cs.Kernel.Order.Insert.{IsBefore, insert_ordered-Chain, insert_ordered-IsBefore}
use cs.Threads.Scheduler.{Threads, blocked, value_less, enqueue, head_is_higher, is_blocked}
use cs.Threads.Scheduler.Fair.{IsFair, value_less-IsAsym, enqueue-Ordered, still_running, unblocked}
use cs.Threads.Timer.{no_yield, unblock_in_handler}

-- The running thread may stay when thread u becomes ready.
abbrev pub MayStay : Threads → ℕ → Type 0
MayStay s u = (s.current ≡ s.idle_thread) ⊎ (s.priority u ≤ s.priority s.current)

unblocked-IsFair :
    (s : Threads) (u : ℕ) → IsFair s → s.status u ≡ blocked → MayStay s u → IsFair (unblocked s u)
unfolding enqueue
unblocked-IsFair s u f b stay = record {
  in_order = enqueue-Ordered s u f.in_order;
  highest = elim f.highest [
    | inl idle ↦ inl idle
    | inr chain ↦ elim stay [
      | inl idle ↦ inl idle
      | inr low ↦ inr (
          insert_ordered-Chain (value_less s.priority) s.current u s.ready_list
            (value_less-IsAsym s.priority) (ground (arith, low)) chain)
    ]
  ];
  marked = still_running s u f.marked b;
}

no_yield_lem : (s : Threads) (l : List ℕ) → s.ready_list ≡ l → IsFair s → no_yield s l ≡ some s
unfolding no_yield
no_yield_lem s [] e f = refl
no_yield_lem s (head ∷ rest) e f = rw (stays f.highest) refl
  where
    stays :
        (s.current ≡ s.idle_thread) ⊎ Chain (value_less s.priority) s.current s.ready_list
        → (head_is_higher s head && not (s.current == s.idle_thread)) ≡ false
    stays (inl idle) = ground (arith, idle)
    stays (inr chain) =
        let c = subst (Chain (value_less s.priority) s.current) e chain in rw (c.0) refl

-- A blocked thread that lets the running one stay becomes ready.
pub unblock_in_handler-IsFair :
    (s : Threads) (u : ℕ)
    → IsFair s
    → s.status u ≡ blocked
    → MayStay s u
    → (unblock_in_handler s u ≡ some (unblocked s u)) × IsFair (unblocked s u)
unfolding unblock_in_handler
unblock_in_handler-IsFair s u f b stay =
    let f' = unblocked-IsFair s u f b stay in
    (rw b (no_yield_lem (unblocked s u) (unblocked s u).ready_list refl f'), f')

goes_first :
    (s : Threads) (u : ℕ) (l : List ℕ)
    → Chain (value_less s.priority) s.current l
    → s.priority s.current < s.priority u
    → IsBefore (value_less s.priority) u l
goes_first s u [] c high = tt
goes_first s u (h ∷ rest) c high = ground (arith, c.0, high)

-- A thread of higher priority fails the assertion.
pub unblock_in_handler_fails :
    (s : Threads) (u : ℕ)
    → IsFair s
    → s.current ≢ s.idle_thread
    → s.priority s.current < s.priority u
    → unblock_in_handler s u ≡ none
unfolding unblock_in_handler enqueue no_yield
unblock_in_handler_fails s u f busy high =
    let first : insert_ordered (value_less s.priority) s.ready_list u ≡ u ∷ s.ready_list =
      insert_ordered-IsBefore (value_less s.priority) s.ready_list u (elim f.highest [
        | inl idle ↦ absurd (busy idle)
        | inr chain ↦ goes_first s u s.ready_list chain high
      ]) in
    let yields : (ltb (s.priority s.current) (s.priority u) && not (s.current == s.idle_thread))
        ≡ true =
      ground (arith, high, busy) in
    elim (Bool-cases (is_blocked (s.status u))) [
      | inr other ↦ rw other refl
      | inl waits ↦ rw (waits, first, yields) refl
    ]
