-- ===== src/Shell/Jobs.antt =====
-- Project0/jobs.c: the list of jobs, an array of MAXJOBS entries that every function scans from the
-- front, and the next job number. A pid is a natural number: a negative one meets the same first
-- test as 0. The messages on the terminal are left out, and so is the size of a command line.
pub mod First
pub mod Add
pub mod Jids
use cs.Base.{
  ℕ, zero, suc, ◌+◌, ◌<◌, Bool, true, false, Option, none, some, List, [], ◌∷◌, map, ltb, ◌==◌,
  if◌then◌else◌, get_or, set,
}

abbrev pub max_jobs : ℕ
max_jobs = 16

pub data JobState : Type 0 where
  undef fg bg st : JobState

-- `struct job_t`
pub record Job : Type 0 where
  pub pid : ℕ
  pub jid : ℕ
  pub state : JobState
  pub cmdline : List ℕ

-- The array with the static `nextjid`.
pub record Table : Type 0 where
  pub nextjid : ℕ
  pub jobs : List Job

abbrev pub is_fg : JobState → Bool
is_fg fg = true
is_fg _ = false

-- What `clearjob` leaves in an entry.
abbrev pub clearjob : Job
clearjob = record { pid = 0; jid = 0; state = undef; cmdline = [] }

unfoldable pub initjobs : List Job → List Job
initjobs jobs = map (λ job. clearjob) jobs

-- The loop of `maxjid`, with the largest number so far.
abbrev pub maxjid_from : List Job → ℕ → ℕ
maxjid_from [] most = most
maxjid_from (job ∷ jobs) most = maxjid_from jobs (if ltb most job.jid then job.jid else most)

abbrev pub maxjid : List Job → ℕ
maxjid jobs = maxjid_from jobs 0

-- The scan of the array: the index of the first entry that passes a test.
unfoldable pub first : (Job → Bool) → List Job → Option ℕ
first p [] = none
first p (job ∷ jobs) =
    let rest = first p jobs in
    if p job then some 0 else elim rest [ none ↦ none | some i ↦ some (suc i) ]

abbrev pub has_pid : ℕ → Job → Bool
has_pid pid job = job.pid == pid

abbrev pub has_jid : ℕ → Job → Bool
has_jid jid job = job.jid == jid

-- `nextjid++` with its wrap.
abbrev pub next_after : ℕ → ℕ
next_after jid = if ltb max_jobs (jid + 1) then 1 else jid + 1

unfoldable pub addjob : Table → ℕ → JobState → List ℕ → Bool × Table
addjob t pid state cmdline = if ltb pid 1 then (false, t) else elim (first (has_pid 0) t.jobs) [
  | none ↦ (false, t)
  | some i ↦ (
    true,
    record {
      nextjid = next_after t.nextjid;
      jobs = set t.jobs i (record { pid = pid; jid = t.nextjid; state = state; cmdline = cmdline });
    },
  )
]

pub deletejob : Table → ℕ → Bool × Table
deletejob t pid = if ltb pid 1 then (false, t) else elim (first (has_pid pid) t.jobs) [
  | none ↦ (false, t)
  | some i ↦
      let jobs = set t.jobs i clearjob in (true, record { nextjid = maxjid jobs + 1; jobs = jobs })
]

pub fgpid : List Job → ℕ
fgpid jobs = elim (first (λ job. is_fg job.state) jobs) [
  | none ↦ 0
  | some i ↦ (get_or jobs i clearjob).pid
]

-- The pointer that is returned, as an index into the array.
pub getjobpid : List Job → ℕ → Option ℕ
getjobpid jobs pid = if ltb pid 1 then none else first (has_pid pid) jobs

pub getjobjid : List Job → ℕ → Option ℕ
getjobjid jobs jid = if ltb jid 1 then none else first (has_jid jid) jobs

pub pid2jid : List Job → ℕ → ℕ
pid2jid jobs pid =
    if ltb pid 1
    then 0
    else elim (first (has_pid pid) jobs) [ none ↦ 0 | some i ↦ (get_or jobs i clearjob).jid ]
