-- ===== src/Threads/Synch/Exclusion.antt =====
-- synch.c: a lock is held by one thread at most, with interrupts between the parts of its functions.
use cs.Base.{ℕ, ◌≡◌, refl, sym, subst, inl, inr, false, none, some}
use native.Mathlib.Decide.{ℕ_discrete}
use cs.Threads.Scheduler.{Threads}
use cs.Threads.Synch.{
  Lock, Phase, outside, downed, lock_init, lock_acquire, lock_try_acquire, lock_release,
}
use cs.Threads.Synch.Change.{lock_acquire-Change, lock_try_acquire-Change, lock_release-Change}
use cs.Threads.Synch.Owner.{
  at_phase, IsExclusive, IsOwned, IsOwner, owner_holds, Change-IsExclusive, Change-holder,
}

-- A lock, the threads, and how far each of them is in the functions of the lock.
abbrev pub System : Type 0
System = Lock × Threads × (ℕ → Phase)

-- What the system does: the running thread runs the next part of a function of the lock, or
-- anything else happens to the threads, another one running then.
pub data Step : System → System → Type 0 where
  acquire :
      {l l' : Lock} {s s' : Threads} {phase : ℕ → Phase} {p : Phase}
      → lock_acquire false (phase s.current) l s ≡ some (p, l', s')
      → Step (l, s, phase) (l', s', at_phase phase s.current p)
  try_acquire :
      {l l' : Lock} {s s' : Threads} {phase : ℕ → Phase} {p : Phase}
      → lock_try_acquire (phase s.current) l s ≡ some (p, l', s')
      → Step (l, s, phase) (l', s', at_phase phase s.current p)
  release :
      {l l' : Lock} {s s' : Threads} {phase : ℕ → Phase} {p : Phase}
      → lock_release (phase s.current) l s ≡ some (p, l', s')
      → Step (l, s, phase) (l', s', at_phase phase s.current p)
  elsewhere : {l : Lock} {s s' : Threads} {phase : ℕ → Phase} → Step (l, s, phase) (l, s', phase)

pub data Reachable : System → Type 0 where
  start : {s : Threads} → Reachable (lock_init, s, λ _. outside)
  step : {a b : System} → Reachable a → Step a b → Reachable b

-- A step keeps the lock exclusive.
Step-IsExclusive : (a b : System) → Step a b → IsExclusive a.0 a.2 → IsExclusive b.0 b.2
Step-IsExclusive _ _ (acquire {l} {l'} {s} {s'} {phase} {p} e) x =
    Change-IsExclusive s.current l l' (phase s.current) p phase refl
      (lock_acquire-Change (phase s.current) p l l' s s' e) x
Step-IsExclusive _ _ (try_acquire {l} {l'} {s} {s'} {phase} {p} e) x =
    Change-IsExclusive s.current l l' (phase s.current) p phase refl
      (lock_try_acquire-Change (phase s.current) p l l' s s' e) x
Step-IsExclusive _ _ (release {l} {l'} {s} {s'} {phase} {p} e) x =
    Change-IsExclusive s.current l l' (phase s.current) p phase refl
      (lock_release-Change (phase s.current) p l l' s s' e) x
Step-IsExclusive _ _ elsewhere x = x

-- In every state that is reached from a new lock by the parts of `lock_acquire`, `lock_try_acquire`
-- and `lock_release` of any threads, with any switches of threads between two parts: either the
-- semaphore is one, the lock has no holder and no thread is behind the semaphore; or the semaphore is
-- zero and exactly one thread is, which is the holder unless it has not written the holder yet or has
-- reset it already, when there is none.
pub Reachable-IsExclusive : (a : System) → Reachable a → IsExclusive a.0 a.2
Reachable-IsExclusive _ start = inl (refl, refl, λ u. refl)
Reachable-IsExclusive _ (step {a} {b} r next) =
    Step-IsExclusive a b next (Reachable-IsExclusive a r)

-- The step is a part of a `lock_release` of thread t.
abbrev pub IsReleaseBy : ℕ → {a b : System} → Step a b → Type 0
IsReleaseBy t (release {s} _) = s.current ≡ t
IsReleaseBy t _ = ⊥

-- Any steps from one state to another, but no part of a `lock_release` of thread t.
pub data Until (t : ℕ) (a : System) : System → Type 0 where
  here : Until t a a
  more : {b c : System} → Until t a b → (next : Step b c) → (IsReleaseBy t next → ⊥) → Until t a c

Step-holder :
    (t : ℕ) (a b : System) (next : Step a b)
    → (IsReleaseBy t next → ⊥)
    → IsExclusive a.0 a.2
    → a.0.holder ≡ some t
    → b.0.holder ≡ some t
unfolding lock_acquire lock_try_acquire
Step-holder t _ _ (acquire {l} {l'} {s} {s'} {phase} {p} e) keeps x holds =
    Change-holder s.current l l' (phase s.current) p phase refl t
      (lock_acquire-Change (phase s.current) p l l' s s' e) x holds
      (λ at. absurd (cc (subst (λ q. lock_acquire false q l s ≡ some (p, l', s')) at e)))
Step-holder t _ _ (try_acquire {l} {l'} {s} {s'} {phase} {p} e) keeps x holds =
    Change-holder s.current l l' (phase s.current) p phase refl t
      (lock_try_acquire-Change (phase s.current) p l l' s s' e) x holds
      (λ at. absurd (cc (subst (λ q. lock_try_acquire q l s ≡ some (p, l', s')) at e)))
Step-holder t _ _ (release {l} {l'} {s} {s'} {phase} {p} e) keeps x holds =
    Change-holder s.current l l' (phase s.current) p phase refl t
      (lock_release-Change (phase s.current) p l l' s s' e) x holds (λ at. keeps)
Step-holder t _ _ elsewhere keeps x holds = holds

-- The holder stays the holder, in exclusive states.
Until-holder :
    (t : ℕ) (a b : System)
    → Until t a b
    → IsExclusive a.0 a.2
    → a.0.holder ≡ some t
    → (b.0.holder ≡ some t) × IsExclusive b.0 b.2
Until-holder t a _ here x holds = (holds, x)
Until-holder t a _ (more {b} {c} run next keeps) x holds =
    let (held, exclusive) = Until-holder t a b run x holds in
    (Step-holder t b c next keeps exclusive held, Step-IsExclusive b c next exclusive)

-- Only the holder is behind the semaphore.
holder-IsOwned :
    (t : ℕ) (l : Lock) (phase : ℕ → Phase)
    → IsExclusive l phase
    → l.holder ≡ some t
    → IsOwned l phase t
holder-IsOwned t l phase (inl (none_holds, _, _)) holds = absurd (cc (none_holds, holds))
holder-IsOwned t l phase (inr (o, owned)) holds =
    subst (IsOwned l phase) (owner_holds (phase o) l.holder o t owned.1 holds) owned

downed-free :
    (l : Lock) (phase : ℕ → Phase) (c : ℕ)
    → IsExclusive l phase
    → phase c ≡ downed
    → l.holder ≡ none
downed-free l phase c (inl (free, _, _)) at = free
downed-free l phase c (inr (o, owned)) at = elim (ℕ_discrete c o) [
  | no other ↦ absurd (cc (owned.2 c other, at))
  | yes self ↦
      let own : IsOwner (phase c) l.holder c = (subst (IsOwned l phase) (sym self) owned).1 in
      subst (λ q. IsOwner q l.holder c) at own
]

-- When a thread in a reachable state comes to the end of `lock_acquire`, or of `lock_try_acquire` with
-- the semaphore down, the lock had no holder and the thread is the holder then. Whatever the threads
-- do from there, it stays the holder and no other thread gets behind the semaphore, as long as the
-- thread itself does not call `lock_release`: those that wait do not get the lock, and neither do
-- those that come.
pub lock_acquire-Excludes :
    (l : Lock) (s : Threads) (phase : ℕ → Phase)
    → Reachable (l, s, phase)
    → phase s.current ≡ downed
    → (l.holder ≡ none)
      × (l' : Lock) × (lock_acquire false (phase s.current) l s ≡ some (outside, l', s))
      × (lock_try_acquire (phase s.current) l s ≡ some (outside, l', s))
      × (l'.holder ≡ some s.current)
      × ((b : System)
          → Until s.current (l', s, at_phase phase s.current outside) b
          → (b.0.holder ≡ some s.current) × IsOwned b.0 b.2 s.current)
unfolding lock_acquire lock_try_acquire
lock_acquire-Excludes l s phase r at =
    let l' : Lock = record l { holder = some s.current } in
    let e : lock_acquire false (phase s.current) l s ≡ some (outside, l', s) = rw at refl in
    let e' : lock_try_acquire (phase s.current) l s ≡ some (outside, l', s) = rw at refl in
    let before = Reachable-IsExclusive (l, s, phase) r in
    let after =
      Step-IsExclusive (l, s, phase) (l', s, at_phase phase s.current outside) (acquire e) before in
    (
      downed-free l phase s.current before at,
      l',
      e,
      e',
      refl,
      λ b run.
          let (held, x) =
            Until-holder s.current (l', s, at_phase phase s.current outside) b run after refl in
          (held, holder-IsOwned s.current b.0 b.2 x held),
    )
