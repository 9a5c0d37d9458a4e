-- ===== src/Jobs/Examples.antt =====
-- Tests of the workflow queue (mas/runtime/work_queue.py), and the theorems at concrete inputs.
use v.Prelude.{◌≡◌, refl, none, ◌⊎◌, some, [], ◌∷◌, arith}
use v.Runs.Table.{Table}
use v.Runs.Memory.{new_run}
use mathlib.Core.List.{Memᴰ}
use v.Jobs.Queue.{
  WorkflowJobRecord, Jobs, new_job, claim_next_workflow_job, claimed, mark_job_succeeded, next_job,
}
use v.Jobs.Ready.{IsReady}
use v.Jobs.Claims.{claim_next_lem, IsClaim}
use v.Jobs.Writes.{IsQueue}
use v.Jobs.Bounds.{Served, Served-IsQueue}

abbrev runs : Table
runs = new_run 0 "r" "p" "1" ∷ new_run 0 "s" "q" "1" ∷ []

abbrev late_job : WorkflowJobRecord
late_job = new_job 5 "j" "r" "p" 1

abbrev early_job : WorkflowJobRecord
early_job = new_job 3 "k" "s" "q" 2

abbrev jobs : Jobs
jobs = late_job ∷ early_job ∷ []

claim_test : (claim_next_workflow_job 9 runs jobs).1 ≡ some (claimed 9 early_job)
unfolding claim_next_workflow_job next_job
claim_test = refl

claim_next_lem_example :
    (((claim_next_workflow_job 9 runs jobs).1 ≡ none)
      × ((claim_next_workflow_job 9 runs jobs).0 ≡ jobs)
      × ((k : WorkflowJobRecord) → Memᴰ k jobs → ¬ IsReady 9 runs k))
    ⊎ ((given : WorkflowJobRecord) × ((claim_next_workflow_job 9 runs jobs).1 ≡ some given)
        × IsClaim 9 runs jobs (claim_next_workflow_job 9 runs jobs).0 given)
claim_next_lem_example = claim_next_lem 9 runs jobs

jobs-IsQueue : IsQueue jobs
jobs-IsQueue = record { ids = refl; index = refl; attempts = omega arith }

Served-IsQueue_example :
    IsQueue (mark_job_succeeded 10 (claim_next_workflow_job 9 runs jobs).0 "k").0
Served-IsQueue_example =
    Served-IsQueue jobs-IsQueue (Served.done 10 "k" (Served.given 9 runs Served.here))
