-- ===== src/Vm/Swap/Store.antt =====
-- swap.c: `store_swap` takes its lock twice.
use cs.Base.{
  ℕ, ◌≡◌, ◌≢◌, sym, ap, Bool, true, Bool-cases, inl, inr, Option, some, List, ◌==◌, arith,
}
use cs.Fs.Device.{Device}
use cs.Kernel.Linked.{Ends}
use cs.Vm.Outcome.{returns, and_then, lift, and_then-returns, returns-injective}
use cs.Vm.Swap.{Swap, SwapLock, acquire, start, store, store_locked, store_swap, held_by}

-- A lock that was taken is held by the thread.
acquire-held :
    (current : ℕ) (lock lock' : SwapLock)
    → acquire current lock ≡ returns lock'
    → lock'.holder ≡ some current
unfolding acquire
acquire-held current lock lock' e = elim (Bool-cases (held_by current lock.holder)) [
  | inl held ↦ absurd (cc (rw held at e))
  | inr free ↦ elim (Bool-cases (lock.value == 0)) [
    | inl down ↦ absurd (cc (rw (free, down) at e))
    | inr up ↦ ap (λ l. l.holder) (sym (returns-injective _ lock' (rw (free, up) at e)))
  ]
]

-- A thread that holds the lock gets no further.
acquire_again :
    (current : ℕ) (lock lock' : SwapLock)
    → lock.holder ≡ some current
    → acquire current lock ≢ returns lock'
unfolding acquire
acquire_again current lock lock' h e =
    let self : (current == current) ≡ true = ground arith in absurd (cc (rw (h, self) at e))

-- `store_swap` never returns, whatever the state: it ends with a second `lock_acquire` by the thread
-- that holds the lock already.
pub store_swap-never :
    (current fuel uaddr : ℕ) (copy : Ends) (role : Option Device) (struct_ok : Bool)
    (buffer : Option (List ℕ)) (s : Swap) (r : ℕ × Swap)
    → store_swap current fuel copy role struct_ok buffer uaddr s ≢ returns r
unfolding store_swap store_locked
store_swap-never current fuel uaddr copy role struct_ok buffer s r e =
    let (s1, _, e1) =
      and_then-returns (lift (start role struct_ok buffer s))
        (λ s1. and_then (acquire current s1.swap_lock) (store_locked current fuel copy uaddr s1)) r
        e in
    let (lock, taken, e2) =
      and_then-returns (acquire current s1.swap_lock) (store_locked current fuel copy uaddr s1) r
        e1 in
    let (q, _, e3) =
      and_then-returns (lift (store current fuel copy uaddr s1))
        (λ q. and_then (acquire current lock) λ l. returns (q.0, record q.1 { swap_lock = l })) r
        e2 in
    let (lock', again, _) =
      and_then-returns (acquire current lock) (λ l. returns (q.0, record q.1 { swap_lock = l })) r
        e3 in
    acquire_again current lock lock' (acquire-held current s1.swap_lock lock taken) again
