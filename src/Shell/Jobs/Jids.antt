-- ===== src/Shell/Jobs/Jids.antt =====
-- jobs.c: the numbers of the jobs.
use native.Mathlib.Decide.{ℕ_discrete}
use cs.Base.{
  ℕ, zero, suc, ◌+◌, ◌<◌, ◌≤◌, ◌≡◌, ◌≢◌, refl, sym, ap, ◌∙◌, ◌⊎◌, inl, inr, Bool, true, List, [],
  ◌∷◌, set, length, arith, if◌then◌else◌, ltb, subst,
}
use cs.Shell.Jobs.{
  Job, JobState, Table, clearjob, has_pid, next_after, initjobs, addjob, deletejob, maxjid,
  maxjid_from,
}
use cs.Shell.Jobs.First.{entry, IsFirst}
use cs.Shell.Jobs.Add.{
  new_job, addjob_cases, deletejob_cases, entry-set_self, entry-set_ne, has_pid_inv, Unused,
}

-- Free entries are cleared ones, jobs have a number, and no pid and no number stands twice.
pub record IsValid (t : Table) : Type 0 where
  pub cleared : (k : ℕ) → (entry t.jobs k).pid ≡ 0 → entry t.jobs k ≡ clearjob
  pub numbered : (k : ℕ) → (entry t.jobs k).pid ≢ 0 → 0 < (entry t.jobs k).jid
  pub one_pid :
      (k l : ℕ) → (entry t.jobs k).pid ≢ 0 → (entry t.jobs k).pid ≡ (entry t.jobs l).pid → k ≡ l
  pub one_jid :
      (k l : ℕ) → (entry t.jobs k).pid ≢ 0 → (entry t.jobs k).jid ≡ (entry t.jobs l).jid → k ≡ l
  pub positive : 0 < t.nextjid

-- The next job number is above every number in use.
abbrev pub IsAhead : Table → Type 0
IsAhead t = (k : ℕ) → (entry t.jobs k).jid < t.nextjid

larger :
    (most jid : ℕ)
    → (most ≤ (if ltb most jid then jid else most)) × (jid ≤ (if ltb most jid then jid else most))
larger most jid = (ground arith, ground arith)

maxjid_from-ge : (jobs : List Job) (most : ℕ) → most ≤ maxjid_from jobs most
maxjid_from-ge [] most = omega arith
maxjid_from-ge (job ∷ jobs) most = omega (
  arith,
  maxjid_from-ge jobs (if ltb most job.jid then job.jid else most),
  (larger most job.jid).0,
)

-- `maxjid` is at least every job number.
maxjid_lem : (jobs : List Job) (most k : ℕ) → (entry jobs k).jid ≤ maxjid_from jobs most
maxjid_lem [] most k = omega arith
maxjid_lem (job ∷ jobs) most zero = omega (
  arith,
  maxjid_from-ge jobs (if ltb most job.jid then job.jid else most),
  (larger most job.jid).1,
)
maxjid_lem (job ∷ jobs) most (suc k) =
    maxjid_lem jobs (if ltb most job.jid then job.jid else most) k

-- The job that comes to entry i shares no pid and no number with the others, in use or not.
record Fits (t : Table) (i : ℕ) (job : Job) : Type 0 where
  inside : i < length t.jobs
  blank : job.pid ≡ 0 → job ≡ clearjob
  number : job.pid ≢ 0 → 0 < job.jid
  apart :
      (k : ℕ)
      → i ≢ k
      → ((entry t.jobs k).pid ≢ 0) ⊎ (job.pid ≢ 0)
      → ((entry t.jobs k).pid ≢ job.pid) × ((entry t.jobs k).jid ≢ job.jid)

-- An entry after one was written.
written :
    (jobs : List Job) (i k : ℕ) (job : Job)
    → i < length jobs
    → ((i ≡ k) × (entry (set jobs i job) k ≡ job))
      ⊎ ((i ≢ k) × (entry (set jobs i job) k ≡ entry jobs k))
written jobs i k job lt = elim (ℕ_discrete i k) [
  | yes e ↦ inl (e, subst (λ x. entry (set jobs i job) x ≡ job) e (entry-set_self jobs i job lt))
  | no ne ↦ inr (ne, entry-set_ne jobs i k job ne)
]

set-IsValid :
    (t : Table) (i next : ℕ) (job : Job)
    → IsValid t
    → Fits t i job
    → 0 < next
    → IsValid (record { nextjid = next; jobs = set t.jobs i job })
set-IsValid t i next job v f pos = record {
  cleared = λ k h. elim (written t.jobs i k job f.inside) [
    | inl (_, e) ↦ e ∙ f.blank (sym (ap Job.pid e) ∙ h)
    | inr (_, e) ↦ e ∙ v.cleared k (sym (ap Job.pid e) ∙ h)
  ];
  numbered = λ k h. elim (written t.jobs i k job f.inside) [
    | inl (_, e) ↦ subst (λ n. 0 < n) (sym (ap Job.jid e)) (f.number (λ z. h (ap Job.pid e ∙ z)))
    | inr (_, e) ↦
        subst (λ n. 0 < n) (sym (ap Job.jid e)) (v.numbered k (λ z. h (ap Job.pid e ∙ z)))
  ];
  one_pid = λ k l h same. one k l Job.pid h same v.one_pid (λ m ne busy. (f.apart m ne busy).0);
  one_jid = λ k l h same. one k l Job.jid h same v.one_jid (λ m ne busy. (f.apart m ne busy).1);
  positive = pos;
}
  where
    one :
        (k l : ℕ) (part : Job → ℕ)
        → (entry (set t.jobs i job) k).pid ≢ 0
        → part (entry (set t.jobs i job) k) ≡ part (entry (set t.jobs i job) l)
        → ((k l : ℕ)
            → (entry t.jobs k).pid ≢ 0
            → part (entry t.jobs k) ≡ part (entry t.jobs l)
            → k ≡ l)
        → ((m : ℕ)
            → i ≢ m
            → ((entry t.jobs m).pid ≢ 0) ⊎ (job.pid ≢ 0)
            → part (entry t.jobs m) ≢ part job)
        → k ≡ l
    one k l part h same old new = elim (written t.jobs i k job f.inside) [
      | inl (a, e) ↦ elim (written t.jobs i l job f.inside) [
        | inl (b, e') ↦ sym a ∙ b
        | inr (b, e') ↦
            absurd (
              new l b (inr (λ z. h (ap Job.pid e ∙ z))) (sym (sym (ap part e) ∙ same ∙ ap part e')))
      ]
      | inr (a, e) ↦ elim (written t.jobs i l job f.inside) [
        | inl (b, e') ↦
            absurd (new k a (inl (λ z. h (ap Job.pid e ∙ z))) (sym (ap part e) ∙ same ∙ ap part e'))
        | inr (b, e') ↦ old k l (λ z. h (ap Job.pid e ∙ z)) (sym (ap part e) ∙ same ∙ ap part e')
      ]
    ]

-- `addjob` keeps a valid list valid, whatever it answers, when no job has the pid and the next job
-- number is above all those in use; then the next number is again above all those in use, unless
-- it wrapped.
pub addjob-IsValid :
    (t : Table) (pid : ℕ) (state : JobState) (cmdline : List ℕ)
    → IsValid t
    → IsAhead t
    → Unused t pid
    → IsValid (addjob t pid state cmdline).1
      × (t.nextjid < 16 → IsAhead (addjob t pid state cmdline).1)
addjob-IsValid t pid state cmdline v ahead unused = elim (addjob_cases t pid state cmdline) [
  | inl (_, e) ↦ subst Good (sym (ap second e)) (v, λ low. ahead)
  | inr (i, f, pos, e) ↦ subst Good (sym (ap second e)) (
    set-IsValid t i (next_after t.nextjid) (new_job t pid state cmdline) v (fits i f pos)
        (ground arith),
    λ low k.
        let next : next_after t.nextjid ≡ t.nextjid + 1 = ground arith in
        elim (written t.jobs i k (new_job t pid state cmdline) f.inside) [
          | inl (_, e') ↦ omega (arith, next, ap Job.jid e')
          | inr (_, e') ↦ omega (arith, next, ap Job.jid e', ahead k)
        ],
  )
]
  where
    second : Bool × Table → Table
    second r = r.1

    Good : Table → Type 0
    Good t' = IsValid t' × (t.nextjid < 16 → IsAhead t')

    fits : (i : ℕ) → IsFirst (has_pid 0) t.jobs i → 0 < pid → Fits t i (new_job t pid state cmdline)
    fits i f pos = record {
      inside = f.inside;
      blank = λ z. absurd (omega (arith, z));
      number = λ h. v.positive;
      apart = λ k ne busy. (unused k, λ same. omega (arith, ahead k, same));
    }

-- `deletejob` keeps a valid list valid; when it says yes, the next job number is above all those
-- in use, wherever it was before.
pub deletejob-IsValid :
    (t : Table) (pid : ℕ)
    → IsValid t
    → IsValid (deletejob t pid).1 × ((deletejob t pid).0 ≡ true → IsAhead (deletejob t pid).1)
deletejob-IsValid t pid v = elim (deletejob_cases t pid) [
  | inl (_, e) ↦ subst Good (sym e) (v, λ said. absurd (cc said))
  | inr (i, f, pos, e) ↦ subst Good (sym e) (
    set-IsValid t i (maxjid (set t.jobs i clearjob) + 1) clearjob v (fits i f) (omega arith),
    λ said k. omega (arith, maxjid_lem (set t.jobs i clearjob) 0 k),
  )
]
  where
    Good : Bool × Table → Type 0
    Good r = IsValid r.1 × (r.0 ≡ true → IsAhead r.1)

    fits : (i : ℕ) → IsFirst (has_pid pid) t.jobs i → Fits t i clearjob
    fits i f = record {
      inside = f.inside;
      blank = λ z. refl;
      number = λ h. absurd (h refl);
      apart = λ k ne busy. elim busy [
        | inl used ↦ (used, λ same. omega (arith, v.numbered k used, same))
        | inr never ↦ absurd (never refl)
      ];
    }

pub entry-initjobs : (jobs : List Job) (k : ℕ) → entry (initjobs jobs) k ≡ clearjob
unfolding initjobs
entry-initjobs [] k = refl
entry-initjobs (job ∷ jobs) zero = refl
entry-initjobs (job ∷ jobs) (suc k) = entry-initjobs jobs k

-- The list that the shell starts with, after `initjobs` and with the next job number 1, is valid,
-- and 1 is above every number in use.
pub initjobs-IsValid :
    (jobs : List Job)
    → IsValid (record { nextjid = 1; jobs = initjobs jobs })
      × IsAhead (record { nextjid = 1; jobs = initjobs jobs })
initjobs-IsValid jobs = (
  record {
    cleared = λ k h. entry-initjobs jobs k;
    numbered = λ k h. absurd (h (ap Job.pid (entry-initjobs jobs k)));
    one_pid = λ k l h same. absurd (h (ap Job.pid (entry-initjobs jobs k)));
    one_jid = λ k l h same. absurd (h (ap Job.pid (entry-initjobs jobs k)));
    positive = omega arith;
  },
  λ k. omega (arith, ap Job.jid (entry-initjobs jobs k)),
)

-- What a yes of `addjob` means.
added :
    (t t' : Table) (pid : ℕ) (state : JobState) (cmdline : List ℕ)
    → addjob t pid state cmdline ≡ (true, t')
    → (i : ℕ) × IsFirst (has_pid 0) t.jobs i
      × (t'.nextjid ≡ next_after t.nextjid)
      × (t'.jobs ≡ set t.jobs i (new_job t pid state cmdline))
added t t' pid state cmdline took = elim (addjob_cases t pid state cmdline) [
  | inl (_, e) ↦ absurd (cc (e, took))
  | inr (i, f, _, e) ↦
      let same = sym took ∙ e in (i, f, ap (λ r. r.1.nextjid) same, ap (λ r. r.1.jobs) same)
]

-- A job stays where it is while others are added.
added-kept :
    (t t' : Table) (pid : ℕ) (state : JobState) (cmdline : List ℕ) (k : ℕ)
    → (entry t.jobs k).pid ≢ 0
    → addjob t pid state cmdline ≡ (true, t')
    → entry t'.jobs k ≡ entry t.jobs k
added-kept t t' pid state cmdline k used took =
    let (i, f, _, e) = added t t' pid state cmdline took in
    ap (λ js. entry js k) e
    ∙ entry-set_ne t.jobs i k (new_job t pid state cmdline) (λ same.
      used (subst (λ x. (entry t.jobs x).pid ≡ 0) same (has_pid_inv 0 (entry t.jobs i) f.passes)))

-- Once the next job number is 16, the second of two jobs that are added gets the number 1, and
-- shares it with a job that has it already.
pub addjob_repeats :
    (t t1 t2 : Table) (pid1 pid2 k : ℕ) (state : JobState) (cmdline : List ℕ)
    → t.nextjid ≡ 16
    → (entry t.jobs k).pid ≢ 0
    → (entry t.jobs k).jid ≡ 1
    → addjob t pid1 state cmdline ≡ (true, t1)
    → addjob t1 pid2 state cmdline ≡ (true, t2)
    → (l : ℕ) × (l ≢ k)
      × ((entry t2.jobs l).pid ≡ pid2)
      × ((entry t2.jobs l).jid ≡ 1)
      × ((entry t2.jobs k).jid ≡ 1)
addjob_repeats t t1 t2 pid1 pid2 k state cmdline last used first_job took1 took2 =
    let (_, _, wrapped, _) = added t t1 pid1 state cmdline took1 in
    let (l, f, _, e) = added t1 t2 pid2 state cmdline took2 in
    let kept1 = added-kept t t1 pid1 state cmdline k used took1 in
    let used1 : (entry t1.jobs k).pid ≢ 0 = λ z. used (sym (ap Job.pid kept1) ∙ z) in
    let kept2 = added-kept t1 t2 pid2 state cmdline k used1 took2 in
    let new : entry t2.jobs l ≡ new_job t1 pid2 state cmdline =
      ap (λ js. entry js l) e ∙ entry-set_self t1.jobs l (new_job t1 pid2 state cmdline) f.inside in
    let one : next_after t.nextjid ≡ 1 = ground arith in
    (
      l,
      λ same.
          used1 (
            subst (λ x. (entry t1.jobs x).pid ≡ 0) same (has_pid_inv 0 (entry t1.jobs l) f.passes)),
      ap Job.pid new,
      ap Job.jid new ∙ wrapped ∙ one,
      ap Job.jid (kept2 ∙ kept1) ∙ first_job,
    )
