-- ===== src/Shell/Jobs/Add.antt =====
-- jobs.c: adding and deleting a job, entry by entry.
use cs.Base.{
  ℕ, zero, suc, ◌+◌, ◌<◌, ◌≡◌, ◌≢◌, refl, sym, ap, ◌∙◌, ◌⊎◌, inl, inr, true, false, some, List, [],
  ◌∷◌, set, length, arith, ltb, get_or-set_self, get_or-set_ne, length-set,
}
use cs.Shell.Jobs.{
  Job, JobState, Table, clearjob, first, has_pid, next_after, addjob, deletejob, getjobpid, pid2jid,
  maxjid,
}
use cs.Shell.Jobs.First.{entry, IsFirst, NoneIs, first-cases, first-found}

-- The job that `addjob` writes.
abbrev pub new_job : Table → ℕ → JobState → List ℕ → Job
new_job t pid state cmdline = record {
  pid = pid;
  jid = t.nextjid;
  state = state;
  cmdline = cmdline;
}

-- `addjob` says no and changes nothing: the pid is below 1, or no entry is free.
abbrev pub Refuses : Table → ℕ → JobState → List ℕ → Type 0
Refuses t pid state cmdline =
    ((pid ≡ 0) ⊎ NoneIs (has_pid 0) t.jobs) × (addjob t pid state cmdline ≡ (false, t))

-- `addjob` says yes and writes the job, with the next job number, into the first free entry.
abbrev pub Adds : Table → ℕ → JobState → List ℕ → Type 0
Adds t pid state cmdline =
    (i : ℕ) × IsFirst (has_pid 0) t.jobs i
    × (0 < pid)
    × (addjob t pid state cmdline ≡ (
      true,
      record { nextjid = next_after t.nextjid; jobs = set t.jobs i (new_job t pid state cmdline) },
    ))

-- `addjob` either refuses and changes nothing, when the pid is below 1 or no entry is free, or
-- writes the job with the next job number into the first free entry, and nothing else.
pub addjob_cases :
    (t : Table) (pid : ℕ) (state : JobState) (cmdline : List ℕ)
    → Refuses t pid state cmdline ⊎ Adds t pid state cmdline
unfolding addjob
addjob_cases t zero state cmdline = inl (inl refl, refl)
addjob_cases t (suc n) state cmdline =
    let positive : ltb (suc n) 1 ≡ false = ground arith in
    elim (first-cases (has_pid 0) t.jobs) [
      | inl (i, e, f) ↦ inr (i, f, omega arith, rw (positive, e) refl)
      | inr (e, n) ↦ inl (inr n, rw (positive, e) refl)
    ]

-- Deleting: the answer no changes nothing; the answer yes clears the first entry with the pid, and
-- the next job number is one more than the largest left.
pub deletejob_cases :
    (t : Table) (pid : ℕ)
    → (((pid ≡ 0) ⊎ NoneIs (has_pid pid) t.jobs) × (deletejob t pid ≡ (false, t)))
      ⊎ ((i : ℕ) × IsFirst (has_pid pid) t.jobs i
          × (0 < pid)
          × (deletejob t pid ≡ (
            true,
            record { nextjid = maxjid (set t.jobs i clearjob) + 1; jobs = set t.jobs i clearjob },
          )))
unfolding deletejob
deletejob_cases t zero = inl (inl refl, refl)
deletejob_cases t (suc n) =
    let positive : ltb (suc n) 1 ≡ false = ground arith in
    elim (first-cases (has_pid (suc n)) t.jobs) [
      | inl (i, e, f) ↦ inr (i, f, omega arith, rw (positive, e) refl)
      | inr (e, none_has) ↦ inl (inr none_has, rw (positive, e) refl)
    ]

-- The entries of the array after one was written.
pub entry-set_self :
    (jobs : List Job) (i : ℕ) (job : Job) → i < length jobs → entry (set jobs i job) i ≡ job
entry-set_self jobs i job lt = get_or-set_self jobs i job clearjob lt

pub entry-set_ne :
    (jobs : List Job) (i k : ℕ) (job : Job) → i ≢ k → entry (set jobs i job) k ≡ entry jobs k
entry-set_ne jobs i k job ne = get_or-set_ne jobs i k job clearjob ne

pub has_pid_self : (pid : ℕ) (job : Job) → job.pid ≡ pid → has_pid pid job ≡ true
has_pid_self pid job e = ground arith

pub has_pid_inv : (pid : ℕ) (job : Job) → has_pid pid job ≡ true → job.pid ≡ pid
has_pid_inv pid job e = ground arith

pub has_pid_other : (pid : ℕ) (job : Job) → job.pid ≢ pid → has_pid pid job ≡ false
has_pid_other pid job ne = ground arith

-- A pid that no entry has.
abbrev pub Unused : Table → ℕ → Type 0
Unused t pid = (k : ℕ) → (entry t.jobs k).pid ≢ pid

-- The entry of a job that was just added under a new pid is the first with that pid.
pub addjob_found :
    (t : Table) (pid : ℕ) (state : JobState) (cmdline : List ℕ)
    → Unused t pid
    → 0 < pid
    → (i : ℕ) → IsFirst (has_pid 0) t.jobs i
    → IsFirst (has_pid pid) (set t.jobs i (new_job t pid state cmdline)) i
addjob_found t pid state cmdline unused pos i f = record {
  inside = omega (arith, f.inside, length-set t.jobs i (new_job t pid state cmdline));
  passes =
      has_pid_self pid (entry (set t.jobs i (new_job t pid state cmdline)) i)
        (ap Job.pid (entry-set_self t.jobs i (new_job t pid state cmdline) f.inside));
  least = λ k lt.
      let old : entry (set t.jobs i (new_job t pid state cmdline)) k ≡ entry t.jobs k =
        entry-set_ne t.jobs i k (new_job t pid state cmdline) (λ e. omega (arith, e)) in
      has_pid_other pid (entry (set t.jobs i (new_job t pid state cmdline)) k)
        (λ e. unused k (sym (ap Job.pid old) ∙ e));
}

set_same : (jobs : List Job) (i : ℕ) → i < length jobs → set jobs i (entry jobs i) ≡ jobs
set_same [] i lt = refl
set_same (job ∷ jobs) zero lt = refl
set_same (job ∷ jobs) (suc i) lt = ap (λ js. job ∷ js) (set_same jobs i (omega arith))

set_twice : (jobs : List Job) (i : ℕ) (a b : Job) → set (set jobs i a) i b ≡ set jobs i b
set_twice [] i a b = refl
set_twice (job ∷ jobs) zero a b = refl
set_twice (job ∷ jobs) (suc i) a b = ap (λ js. job ∷ js) (set_twice jobs i a b)

-- What the operations do with a pid after a job was added under it.
abbrev pub Follows : Table → ℕ → JobState → List ℕ → Type 0
Follows t pid state cmdline =
    (i : ℕ) × (t' : Table) × (addjob t pid state cmdline ≡ (true, t'))
    × (getjobpid t'.jobs pid ≡ some i)
    × (pid2jid t'.jobs pid ≡ t.nextjid)
    × (deletejob t' pid ≡ (true, record { nextjid = maxjid t.jobs + 1; jobs = t.jobs }))

-- When the pid is at least 1 and no entry has it, some entry is free, and free entries are cleared
-- ones, `addjob` says yes; then `getjobpid` finds an entry for the pid and `pid2jid` answers the
-- job number that was next; `deletejob` of the pid says yes and brings back the array of before,
-- the next job number one more than the largest in it.
pub addjob-Follows :
    (t : Table) (pid : ℕ) (state : JobState) (cmdline : List ℕ)
    → Unused t pid
    → 0 < pid
    → ((k : ℕ) → (entry t.jobs k).pid ≡ 0 → entry t.jobs k ≡ clearjob)
    → ¬ NoneIs (has_pid 0) t.jobs
    → Follows t pid state cmdline
unfolding getjobpid pid2jid deletejob
addjob-Follows t pid state cmdline unused pos clear free = elim (addjob_cases t pid state cmdline) [
  | inl (inl low, e) ↦ absurd (omega (arith, low))
  | inl (inr full, e) ↦ absurd (free full)
  | inr (i, f, p, e) ↦
      let added = set t.jobs i (new_job t pid state cmdline) in
      let positive : ltb pid 1 ≡ false = ground arith in
      let at : first (has_pid pid) added ≡ some i =
        first-found (has_pid pid) added i (addjob_found t pid state cmdline unused pos i f) in
      let empty : (entry t.jobs i).pid ≡ 0 = has_pid_inv 0 (entry t.jobs i) f.passes in
      let back : set added i clearjob ≡ t.jobs =
        set_twice t.jobs i (new_job t pid state cmdline) clearjob
        ∙ ap (λ job. set t.jobs i job) (sym (clear i empty))
        ∙ set_same t.jobs i f.inside in
      (
        i,
        record { nextjid = next_after t.nextjid; jobs = added },
        e,
        rw (positive, at) refl,
        rw (positive, at)
            (ap Job.jid (entry-set_self t.jobs i (new_job t pid state cmdline) f.inside)),
        rw (positive, at, back) refl,
      )
]
