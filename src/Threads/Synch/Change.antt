-- ===== src/Threads/Synch/Change.antt =====
-- synch.c: what one part of a function of a lock changes.
use cs.Base.{
  ℕ, ◌+◌, ◌-◌, ◌≡◌, ◌≢◌, refl, sym, ap, ◌∙◌, ◌⊎◌, inl, inr, Bool, true, false, not, Option, none,
  some, List, [], ◌∷◌, ltb, ◌==◌, if◌then◌else◌, Bool-cases, arith, ◌>>=◌, assert, bind_inv,
  some-injective,
}
use cs.Kernel.Order.{insert_ordered}
use cs.Threads.Scheduler.{Threads, thread_block, thread_unblock, value_less}
use cs.Threads.Synch.{
  Lock, Semaphore, Phase, outside, acquires, tries, downed, releases, cleared, sema_down,
  sema_try_down, sema_up, lock_acquire, lock_try_acquire, lock_release, lock_held_by_current_thread,
}

-- A thread in this phase asks for the lock, or has to do with it not at all.
abbrev pub is_asking : Phase → Bool
is_asking acquires = true
is_asking tries = true
is_asking _ = false

abbrev pub is_quiet : Phase → Bool
is_quiet outside = true
is_quiet p = is_asking p

-- A part of a function that thread c runs, from phase p to p'.
pub data Change (c : ℕ) (l l' : Lock) (p p' : Phase) : Type 0 where
  asks : p ≡ outside → is_asking p' ≡ true → l.holder ≢ some c → l' ≡ l → Change c l l' p p'
  fails :
      is_asking p ≡ true
      → is_quiet p' ≡ true
      → l'.holder ≡ l.holder
      → l'.semaphore.value ≡ l.semaphore.value
      → Change c l l' p p'
  downs :
      is_asking p ≡ true
      → p' ≡ downed
      → l'.holder ≡ l.holder
      → l.semaphore.value ≢ 0
      → l'.semaphore.value ≡ l.semaphore.value - 1
      → Change c l l' p p'
  owns :
      p ≡ downed
      → p' ≡ outside
      → l'.holder ≡ some c
      → l'.semaphore ≡ l.semaphore
      → Change c l l' p p'
  checks : p ≡ outside → p' ≡ releases → l.holder ≡ some c → l' ≡ l → Change c l l' p p'
  clears :
      p ≡ releases
      → p' ≡ cleared
      → l'.holder ≡ none
      → l'.semaphore ≡ l.semaphore
      → Change c l l' p p'
  ups :
      p ≡ cleared
      → p' ≡ outside
      → l'.holder ≡ l.holder
      → l'.semaphore.value ≡ l.semaphore.value + 1
      → Change c l l' p p'

held_by : (o : Option ℕ) (c : ℕ) → elim o [ none ↦ false | some t ↦ t == c ] ≡ true → o ≡ some c
held_by none c e = absurd (cc e)
held_by (some t) c e = ap some (same t c e)
  where
    same : (t c : ℕ) → (t == c) ≡ true → t ≡ c
    same t c e = ground (arith, e)

unheld :
    (l : Lock) (s : Threads) → lock_held_by_current_thread l s ≡ false → l.holder ≢ some s.current
unheld l s e h =
    cc (
      e,
      ap {B = Bool} (λ o. elim o [ none ↦ false | some t ↦ t == s.current ]) h,
      is_self s.current,
    )
  where
    is_self : (n : ℕ) → (n == n) ≡ true
    is_self n = ground arith

assert-true : (b : Bool) {u : Unit {0}} → assert b ≡ some u → b ≡ true
assert-true true e = refl
assert-true false e = absurd (cc e)

negated : (b : Bool) → not b ≡ true → b ≡ false
negated true e = absurd (cc e)
negated false e = refl

queued : Semaphore → Threads → Semaphore
queued sema s = record sema {
  waiters = insert_ordered (value_less s.priority) sema.waiters s.current;
}

sema_down_waits :
    (sema : Semaphore) (s : Threads)
    → (sema.value == 0) ≡ true
    → sema_down sema s ≡ (thread_block s >>= λ s'. some (false, queued sema s, s'))
unfolding sema_down queued
sema_down_waits sema s down = rw down refl

sema_down_done :
    (sema : Semaphore) (s : Threads)
    → (sema.value == 0) ≡ false
    → sema_down sema s ≡ some (true, record sema { value = sema.value - 1 }, s)
unfolding sema_down
sema_down_done sema s up = rw up refl

-- What `sema_down` leads to.
sema_down_cases :
    (sema sema' : Semaphore) (s s' : Threads) (done : Bool)
    → sema_down sema s ≡ some (done, sema', s')
    → ((done ≡ true) × (sema.value ≢ 0) × (sema'.value ≡ sema.value - 1))
      ⊎ ((done ≡ false) × (sema'.value ≡ sema.value))
unfolding queued
sema_down_cases sema sema' s s' done e = elim (Bool-cases (sema.value == 0)) [
  | inl down ↦
      let (t, _, g) =
        bind_inv (thread_block s) (λ t. some (false, queued sema s, t)) (done, sema', s')
          (sym (sema_down_waits sema s down) ∙ e) in
      let h = some-injective _ _ g in inr (sym (ap (λ r. r.0) h), sym (ap (λ r. r.1.value) h))
  | inr up ↦
      let h = some-injective _ _ (sym (sema_down_done sema s up) ∙ e) in
      inl (sym (ap (λ r. r.0) h), (λ z. ground (arith, up, z)), sym (ap (λ r. r.1.value) h))
]

pub lock_acquire-Change :
    (p p' : Phase) (l l' : Lock) (s s' : Threads)
    → lock_acquire false p l s ≡ some (p', l', s')
    → Change s.current l l' p p'
unfolding lock_acquire
lock_acquire-Change outside p' l l' s s' e =
    let (_, free, g) =
      bind_inv (assert (not (lock_held_by_current_thread l s))) (λ _. some (acquires, l, s))
        (p', l', s') e in
    let h = some-injective _ _ g in
    asks refl (ap is_asking (sym (ap (λ r. r.0) h)))
      (unheld l s (negated (lock_held_by_current_thread l s) (assert-true _ free)))
      (sym (ap (λ r. r.1) h))
lock_acquire-Change acquires p' l l' s s' e =
    let ((done, sema, t), down, g) =
      bind_inv (sema_down l.semaphore s)
        (λ r. some (if r.0 then downed else acquires, record l { semaphore = r.1 }, r.2))
        (p', l', s') e in
    let h = some-injective _ _ g in
    let phase : p' ≡ (if done then downed else acquires) = sym (ap (λ r. r.0) h) in
    let holder : l'.holder ≡ l.holder = sym (ap (λ r. r.1.holder) h) in
    let value : l'.semaphore.value ≡ sema.value = sym (ap (λ r. r.1.semaphore.value) h) in
    elim (sema_down_cases l.semaphore sema s t done down) [
      | inl (got, up, v) ↦
          downs refl (phase ∙ ap (λ b. if b then downed else acquires) got) holder up (value ∙ v)
      | inr (missed, v) ↦
          fails refl (ap is_quiet (phase ∙ ap (λ b. if b then downed else acquires) missed)) holder
            (value ∙ v)
    ]
lock_acquire-Change downed p' l l' s s' e =
    let h = some-injective _ _ e in
    owns refl (sym (ap (λ r. r.0) h)) (sym (ap (λ r. r.1.holder) h))
      (sym (ap (λ r. r.1.semaphore) h))
lock_acquire-Change tries p' l l' s s' e = absurd (cc e)
lock_acquire-Change releases p' l l' s s' e = absurd (cc e)
lock_acquire-Change cleared p' l l' s s' e = absurd (cc e)

-- `sema_try_down`, as far as the value goes.
sema_try_down_cases :
    (sema : Semaphore)
    → (((sema_try_down sema).0 ≡ true)
        × (sema.value ≢ 0)
        × ((sema_try_down sema).1.value ≡ sema.value - 1))
      ⊎ (((sema_try_down sema).0 ≡ false) × ((sema_try_down sema).1.value ≡ sema.value))
unfolding sema_try_down
sema_try_down_cases sema = elim (Bool-cases (ltb 0 sema.value)) [
  | inl up ↦ inl (rw up refl, (λ z. ground (arith, up, z)), rw up refl)
  | inr down ↦ inr (rw down refl, rw down refl)
]

pub lock_try_acquire-Change :
    (p p' : Phase) (l l' : Lock) (s s' : Threads)
    → lock_try_acquire p l s ≡ some (p', l', s')
    → Change s.current l l' p p'
unfolding lock_try_acquire
lock_try_acquire-Change outside p' l l' s s' e =
    let (_, free, g) =
      bind_inv (assert (not (lock_held_by_current_thread l s))) (λ _. some (tries, l, s))
        (p', l', s') e in
    let h = some-injective _ _ g in
    asks refl (ap is_asking (sym (ap (λ r. r.0) h)))
      (unheld l s (negated (lock_held_by_current_thread l s) (assert-true _ free)))
      (sym (ap (λ r. r.1) h))
lock_try_acquire-Change tries p' l l' s s' e =
    let h = some-injective _ _ e in
    let phase : p' ≡ (if (sema_try_down l.semaphore).0 then downed else outside) =
      sym (ap (λ r. r.0) h) in
    let holder : l'.holder ≡ l.holder = sym (ap (λ r. r.1.holder) h) in
    let value : l'.semaphore.value ≡ (sema_try_down l.semaphore).1.value =
      sym (ap (λ r. r.1.semaphore.value) h) in
    elim (sema_try_down_cases l.semaphore) [
      | inl (got, up, v) ↦
          downs refl (phase ∙ ap (λ b. if b then downed else outside) got) holder up (value ∙ v)
      | inr (missed, v) ↦
          fails refl (ap is_quiet (phase ∙ ap (λ b. if b then downed else outside) missed)) holder
            (value ∙ v)
    ]
lock_try_acquire-Change downed p' l l' s s' e =
    let h = some-injective _ _ e in
    owns refl (sym (ap (λ r. r.0) h)) (sym (ap (λ r. r.1.holder) h))
      (sym (ap (λ r. r.1.semaphore) h))
lock_try_acquire-Change acquires p' l l' s s' e = absurd (cc e)
lock_try_acquire-Change releases p' l l' s s' e = absurd (cc e)
lock_try_acquire-Change cleared p' l l' s s' e = absurd (cc e)

sema_up_empty :
    (sema : Semaphore) (s : Threads)
    → sema.waiters ≡ []
    → sema_up sema s ≡ some (record sema { value = sema.value + 1 }, s)
unfolding sema_up
sema_up_empty sema s w = rw w refl

sema_up_next :
    (sema : Semaphore) (s : Threads) (t : ℕ) (rest : List ℕ)
    → sema.waiters ≡ t ∷ rest
    → sema_up sema s
      ≡ (thread_unblock s t >>= λ s'. some (record { value = sema.value + 1; waiters = rest }, s'))
unfolding sema_up
sema_up_next sema s t rest w = rw w refl

-- `sema_up` adds one, whether or not a thread waits.
sema_up-value :
    (sema sema' : Semaphore) (s s' : Threads) (waiters : List ℕ)
    → sema.waiters ≡ waiters
    → sema_up sema s ≡ some (sema', s')
    → sema'.value ≡ sema.value + 1
sema_up-value sema sema' s s' [] w e =
    let h = some-injective _ _ (sym (sema_up_empty sema s w) ∙ e) in ap (λ q. q.0.value) (sym h)
sema_up-value sema sema' s s' (t ∷ rest) w e =
    let (_, _, g) =
      bind_inv (thread_unblock s t)
        (λ t'. some (record { value = sema.value + 1; waiters = rest }, t')) (sema', s')
        (sym (sema_up_next sema s t rest w) ∙ e) in
    ap (λ q. q.0.value) (sym (some-injective _ _ g))

pub lock_release-Change :
    (p p' : Phase) (l l' : Lock) (s s' : Threads)
    → lock_release p l s ≡ some (p', l', s')
    → Change s.current l l' p p'
unfolding lock_release
lock_release-Change outside p' l l' s s' e =
    let (_, held, g) =
      bind_inv (assert (lock_held_by_current_thread l s)) (λ _. some (releases, l, s)) (p', l', s')
        e in
    let h = some-injective _ _ g in
    checks refl (sym (ap (λ r. r.0) h)) (held_by l.holder s.current (assert-true _ held))
      (sym (ap (λ r. r.1) h))
lock_release-Change releases p' l l' s s' e =
    let h = some-injective _ _ e in
    clears refl (sym (ap (λ r. r.0) h)) (sym (ap (λ r. r.1.holder) h))
      (sym (ap (λ r. r.1.semaphore) h))
lock_release-Change cleared p' l l' s s' e =
    let ((sema, t), up, g) =
      bind_inv (sema_up l.semaphore s) (λ r. some (outside, record l { semaphore = r.0 }, r.1))
        (p', l', s') e in
    let h = some-injective _ _ g in
    ups refl (sym (ap (λ r. r.0) h)) (sym (ap (λ r. r.1.holder) h)) (
      sym (ap (λ r. r.1.semaphore.value) h)
      ∙ sema_up-value l.semaphore sema s t l.semaphore.waiters refl up)
lock_release-Change acquires p' l l' s s' e = absurd (cc e)
lock_release-Change tries p' l l' s s' e = absurd (cc e)
lock_release-Change downed p' l l' s s' e = absurd (cc e)
