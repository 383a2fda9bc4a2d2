-- ===== src/Shell/Tests.antt =====
-- Runs of the shell's job list, and its theorems at small job lists.
use cs.Base.{ℕ, ◌≡◌, ◌≢◌, refl, true, [], ◌∷◌, replicate, arith, ◌<◌}
use cs.Shell.Jobs.{fg, bg, Table, clearjob, initjobs, has_pid, first, addjob, deletejob}
use cs.Shell.Jobs.First.{entry, NoneIs}
use cs.Shell.Jobs.Add.{Unused}
use cs.Shell.Jobs.Jids.{
  IsValid, IsAhead, addjob-IsValid, deletejob-IsValid, initjobs-IsValid, entry-initjobs,
  addjob_repeats,
}

abbrev empty : Table
empty = record { nextjid = 1; jobs = initjobs (replicate 16 clearjob) }

-- Two jobs with the numbers 1 and 15, and 16 to come next.
abbrev late : Table
late = record {
  nextjid = 16;
  jobs =
      record { pid = 101; jid = 1; state = bg; cmdline = [] }
      ∷ record { pid = 115; jid = 15; state = bg; cmdline = [] }
      ∷ replicate 14 clearjob;
}

-- The state after an addition.
abbrev with_job : Table → ℕ → Table
with_job t pid = (addjob t pid fg []).1

empty-IsValid : IsValid empty × IsAhead empty
empty-IsValid = initjobs-IsValid (replicate 16 clearjob)

empty-Unused : Unused empty 7
empty-Unused k h = cc (entry-initjobs (replicate 16 clearjob) k, h)

room : ¬ NoneIs (has_pid 0) empty.jobs
unfolding initjobs
room n = cc (n 0 (omega arith))

addjob-IsValid_example : IsValid (with_job empty 7) × (1 < 16 → IsAhead (with_job empty 7))
addjob-IsValid_example =
    addjob-IsValid empty 7 fg [] (initjobs-IsValid (replicate 16 clearjob)).0
      (initjobs-IsValid (replicate 16 clearjob)).1 empty-Unused

deletejob-IsValid_example :
    IsValid (deletejob (with_job empty 7) 7).1
    × ((deletejob (with_job empty 7) 7).0 ≡ true → IsAhead (deletejob (with_job empty 7) 7).1)
deletejob-IsValid_example = deletejob-IsValid (with_job empty 7) 7 addjob-IsValid_example.0

first_added : addjob late 116 fg [] ≡ (true, with_job late 116)
unfolding addjob first
first_added = refl

second_added : addjob (with_job late 116) 117 fg [] ≡ (true, with_job (with_job late 116) 117)
unfolding addjob first
second_added = refl

addjob_repeats_example :
    (l : ℕ) × (◌≢◌ {A = ℕ} l 0)
    × ((entry (with_job (with_job late 116) 117).jobs l).pid ≡ 117)
    × ((entry (with_job (with_job late 116) 117).jobs l).jid ≡ 1)
    × ((entry (with_job (with_job late 116) 117).jobs 0).jid ≡ 1)
addjob_repeats_example =
    addjob_repeats late (with_job late 116) (with_job (with_job late 116) 117) 116 117 0 fg [] refl
      (λ h. omega (arith, h)) refl first_added second_added
