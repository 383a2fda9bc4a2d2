-- ===== src/Threads/Synch/Owner.antt =====
-- synch.c: which thread has a lock, part by part of its functions.
use native.Mathlib.Decide.{ℕ_discrete}
use cs.Base.{
  ℕ, ◌+◌, ◌-◌, ◌≡◌, ◌≢◌, refl, sym, ap, ◌∙◌, subst, ◌⊎◌, inl, inr, true, false, Option, none, some,
  some-injective, ◌==◌, if◌then◌else◌, arith,
}
use cs.Threads.Synch.{Lock, Phase, outside, acquires, tries, downed, releases, cleared}
use cs.Threads.Synch.Change.{
  is_asking, is_quiet, Change, asks, fails, downs, owns, checks, clears, ups,
}

-- A thread in another phase.
abbrev pub at_phase : (ℕ → Phase) → ℕ → Phase → ℕ → Phase
at_phase phase c p u = if u == c then p else phase u

-- What the holder is while a thread in that phase has the lock.
abbrev pub IsOwner : Phase → Option ℕ → ℕ → Type 0
IsOwner outside holder t = holder ≡ some t
IsOwner releases holder t = holder ≡ some t
IsOwner downed holder t = holder ≡ none
IsOwner cleared holder t = holder ≡ none
IsOwner acquires holder t = ⊥
IsOwner tries holder t = ⊥

-- Nobody has the lock: no thread is behind the semaphore.
abbrev pub IsFree : Lock → (ℕ → Phase) → Type 0
IsFree l phase = (l.holder ≡ none) × (l.semaphore.value ≡ 1) × ((u : ℕ) → is_quiet (phase u) ≡ true)

-- Thread t has the lock, and no other thread is behind the semaphore.
abbrev pub IsOwned : Lock → (ℕ → Phase) → ℕ → Type 0
IsOwned l phase t =
    (l.semaphore.value ≡ 0)
    × IsOwner (phase t) l.holder t
    × ((u : ℕ) → u ≢ t → is_quiet (phase u) ≡ true)

abbrev pub IsExclusive : Lock → (ℕ → Phase) → Type 0
IsExclusive l phase = IsFree l phase ⊎ ((t : ℕ) × IsOwned l phase t)

quiet : (p : Phase) → is_asking p ≡ true → is_quiet p ≡ true
quiet outside e = refl
quiet acquires e = refl
quiet tries e = refl
quiet downed e = e
quiet releases e = e
quiet cleared e = e

asking_not_owner : (p : Phase) (h : Option ℕ) (t : ℕ) → is_asking p ≡ true → IsOwner p h t → ⊥
asking_not_owner outside h t e o = cc e
asking_not_owner acquires h t e o = o
asking_not_owner tries h t e o = o
asking_not_owner downed h t e o = cc e
asking_not_owner releases h t e o = cc e
asking_not_owner cleared h t e o = cc e

-- A thread with the lock is the holder, or there is none yet.
pub owner_holds : (p : Phase) (h : Option ℕ) (t c : ℕ) → IsOwner p h t → h ≡ some c → t ≡ c
owner_holds outside h t c o e = some-injective _ _ (sym o ∙ e)
owner_holds releases h t c o e = some-injective _ _ (sym o ∙ e)
owner_holds downed h t c o e = absurd (cc (o, e))
owner_holds cleared h t c o e = absurd (cc (o, e))
owner_holds acquires h t c o e = absurd o
owner_holds tries h t c o e = absurd o

is_self : (n : ℕ) → (n == n) ≡ true
is_self n = ground arith

is_other : (n u : ℕ) → n ≢ u → (n == u) ≡ false
is_other n u ne = ground (arith, ne)

module _ (c : ℕ) (l l' : Lock) (p p' : Phase) (phase : ℕ → Phase) (at : phase c ≡ p) where
  -- Which threads are quiet after thread c went on.
  quiet_after :
      is_quiet p' ≡ true
      → (u : ℕ) → (u ≢ c → is_quiet (phase u) ≡ true)
      → is_quiet (at_phase phase c p' u) ≡ true
  quiet_after e u others = elim (ℕ_discrete u c) [
    | yes same ↦ rw (same, is_self c) e
    | no other ↦ rw (is_other u c other) (others other)
  ]

  self_after : at_phase phase c p' c ≡ p'
  self_after = rw (is_self c) refl

  others_after :
      ((u : ℕ) → u ≢ c → is_quiet (phase u) ≡ true)
      → (u : ℕ) → u ≢ c
      → is_quiet (at_phase phase c p' u) ≡ true
  others_after others u other = rw (is_other u c other) (others u other)

  -- From a free lock.
  free-Change : Change c l l' p p' → IsFree l phase → IsExclusive l' (at_phase phase c p')
  free-Change (asks e asking h same) (none_holds, one, all) = inl (
    ap (λ k. k.holder) same ∙ none_holds,
    ap (λ k. k.semaphore.value) same ∙ one,
    λ u. quiet_after (quiet p' asking) u (λ _. all u),
  )
  free-Change (fails asking q h v) (none_holds, one, all) =
      inl (h ∙ none_holds, v ∙ one, λ u. quiet_after q u (λ _. all u))
  free-Change (downs asking e h up v) (none_holds, one, all) = inr (
    c,
    (
      v ∙ ap (λ n. n - 1) one,
      subst (λ q. IsOwner q l'.holder c) (sym (self_after ∙ e)) (h ∙ none_holds),
      others_after (λ u _. all u),
    ),
  )
  free-Change (owns e e' h v) (none_holds, one, all) = absurd (cc (all c, at, e))
  free-Change (checks e e' h same) (none_holds, one, all) = absurd (cc (none_holds, h))
  free-Change (clears e e' h v) (none_holds, one, all) = absurd (cc (all c, at, e))
  free-Change (ups e e' h v) (none_holds, one, all) = absurd (cc (all c, at, e))

  -- The thread that has the lock goes on.
  owner-Change : Change c l l' p p' → IsOwned l phase c → IsExclusive l' (at_phase phase c p')
  owner-Change (asks e asking h same) (zero_left, own, others) =
      absurd (h (subst (λ q. IsOwner q l.holder c) (at ∙ e) own))
  owner-Change (fails asking q h v) (zero_left, own, others) =
      absurd (asking_not_owner p l.holder c asking (subst (λ q. IsOwner q l.holder c) at own))
  owner-Change (downs asking e h up v) (zero_left, own, others) = absurd (up zero_left)
  owner-Change (owns e e' h same) (zero_left, own, others) = inr (
    c,
    (
      ap (λ k. k.value) same ∙ zero_left,
      subst (λ q. IsOwner q l'.holder c) (sym (self_after ∙ e')) h,
      others_after others,
    ),
  )
  owner-Change (checks e e' h same) (zero_left, own, others) = inr (
    c,
    (
      ap (λ k. k.semaphore.value) same ∙ zero_left,
      subst (λ q. IsOwner q l'.holder c) (sym (self_after ∙ e')) (ap (λ k. k.holder) same ∙ h),
      others_after others,
    ),
  )
  owner-Change (clears e e' h same) (zero_left, own, others) = inr (
    c,
    (
      ap (λ k. k.value) same ∙ zero_left,
      subst (λ q. IsOwner q l'.holder c) (sym (self_after ∙ e')) h,
      others_after others,
    ),
  )
  owner-Change (ups e e' h v) (zero_left, own, others) = inl (
    h ∙ subst (λ q. IsOwner q l.holder c) (at ∙ e) own,
    v ∙ ap (λ n. n + 1) zero_left,
    λ u. quiet_after (ap is_quiet e') u (others u),
  )

  -- Another thread goes on.
  other-Change :
      (t : ℕ) → c ≢ t → Change c l l' p p' → IsOwned l phase t → IsOwned l' (at_phase phase c p') t
  other-Change t ne change (zero_left, own, others) = go change
    where
      stays :
          is_quiet p' ≡ true
          → l'.holder ≡ l.holder
          → l'.semaphore.value ≡ l.semaphore.value
          → IsOwned l' (at_phase phase c p') t
      stays q h v = (
        v ∙ zero_left,
        rw (is_other t c (λ e. ne (sym e))) (subst (λ o. IsOwner (phase t) o t) (sym h) own),
        λ u other. quiet_after q u (λ _. others u other),
      )

      go : Change c l l' p p' → IsOwned l' (at_phase phase c p') t
      go (asks e asking h same) =
          stays (quiet p' asking) (ap (λ k. k.holder) same) (ap (λ k. k.semaphore.value) same)
      go (fails asking q h v) = stays q h v
      go (downs asking e h up v) = absurd (up zero_left)
      go (owns e e' h same) = absurd (cc (others c ne, at, e))
      go (checks e e' h same) = absurd (ne (sym (owner_holds (phase t) l.holder t c own h)))
      go (clears e e' h same) = absurd (cc (others c ne, at, e))
      go (ups e e' h v) = absurd (cc (others c ne, at, e))

  pub Change-IsExclusive :
      Change c l l' p p' → IsExclusive l phase → IsExclusive l' (at_phase phase c p')
  Change-IsExclusive change (inl free) = free-Change change free
  Change-IsExclusive change (inr (t, owned)) = elim (ℕ_discrete c t) [
    | yes e ↦ owner-Change change (subst (IsOwned l phase) (sym e) owned)
    | no ne ↦ inr (t, other-Change t ne change owned)
  ]

  -- The holder is written by the thread that has the lock alone.
  pub Change-holder :
      (t : ℕ)
      → Change c l l' p p'
      → IsExclusive l phase
      → l.holder ≡ some t
      → (p ≡ releases → c ≢ t)
      → l'.holder ≡ some t
  Change-holder t (asks e asking h same) x holds busy = ap (λ k. k.holder) same ∙ holds
  Change-holder t (checks e e' h same) x holds busy = ap (λ k. k.holder) same ∙ holds
  Change-holder t (fails asking q h v) x holds busy = h ∙ holds
  Change-holder t (downs asking e h up v) x holds busy = h ∙ holds
  Change-holder t (ups e e' h v) x holds busy = h ∙ holds
  Change-holder t (owns e e' h same) (inl (none_holds, _, _)) holds busy =
      absurd (cc (none_holds, holds))
  Change-holder t (owns e e' h same) (inr (o, owned)) holds busy = elim (ℕ_discrete c o) [
    | no other ↦ absurd (cc (owned.2 c other, at, e))
    | yes self ↦
        let own : IsOwner (phase c) l.holder c = (subst (IsOwned l phase) (sym self) owned).1 in
        let none_holds : l.holder ≡ none = subst (λ q. IsOwner q l.holder c) (at ∙ e) own in
        absurd (cc (none_holds, holds))
  ]
  Change-holder t (clears e e' h same) (inl (none_holds, _, _)) holds busy =
      absurd (cc (none_holds, holds))
  Change-holder t (clears e e' h same) (inr (o, owned)) holds busy = elim (ℕ_discrete c o) [
    | no other ↦ absurd (cc (owned.2 c other, at, e))
    | yes self ↦
        let own : IsOwner (phase c) l.holder c = (subst (IsOwned l phase) (sym self) owned).1 in
        let held : l.holder ≡ some c = subst (λ q. IsOwner q l.holder c) (at ∙ e) own in
        absurd (busy e (some-injective _ _ (sym held ∙ holds)))
  ]
