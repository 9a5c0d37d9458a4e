-- ===== src/Jobs/Queue.antt =====
-- mas/runtime/work_queue.py: the durable queue of workflow jobs, as functions on the rows of the
-- table `workflow_jobs` in the order of insertion. `now` is NOW(), `new_id` a new UUID; the runs are
-- the rows of `workflow_runs`.
use v.Prelude.{
  ℕ, ◌+◌, String, Bool, true, false, ◌&&◌, ◌||◌, Option, none, some, List, [], ◌∷◌, ◌++◌, any,
  select, count_if, str_eq, ltb, leb, ◌==◌, if◌then◌else◌, max,
}
use v.Prelude.Int.{pos, negsuc}
use v.Runs.Record.{is_active as run_is_active, Setting, number}
use v.Runs.Table.{Table}

pub data JobStatus : Type 0 where
  queued running succeeded failed : JobStatus

pub record WorkflowJobRecord : Type 0 where
  pub job_id : String
  pub run_id : String
  pub project_id : String
  pub status : JobStatus
  pub attempt_count : ℕ
  pub max_attempts : ℕ
  pub created_at : ℕ
  pub available_at : ℕ
  pub started_at : Option ℕ
  pub finished_at : Option ℕ
  pub error_summary : String

pub record WorkflowJobEnqueue : Type 0 where
  pub created : Bool
  pub job : WorkflowJobRecord
  pub durable : Bool

abbrev pub Jobs : Type 0
Jobs = List WorkflowJobRecord

abbrev pub default_max_workflow_job_attempts : ℕ
default_max_workflow_job_attempts = 1

-- `_normalize_max_attempts`; `blank` stands for None
unfoldable pub normalize_max_attempts : Setting → ℕ
normalize_max_attempts (number (pos n)) = max 1 n
normalize_max_attempts (number (negsuc n)) = 1
normalize_max_attempts _ = default_max_workflow_job_attempts

abbrev pub is_queued : JobStatus → Bool
is_queued queued = true
is_queued _ = false

-- status IN ('queued', 'running')
abbrev pub is_active : JobStatus → Bool
is_active queued = true
is_active running = true
is_active _ = false

-- run_id = $1 AND status IN ('queued', 'running')
abbrev pub works_on : String → WorkflowJobRecord → Bool
works_on run_id job = str_eq job.run_id run_id && is_active job.status

abbrev pub new_job : ℕ → String → String → String → ℕ → WorkflowJobRecord
new_job now new_id run_id project_id attempts = record {
  job_id = new_id;
  run_id = run_id;
  project_id = project_id;
  status = queued;
  attempt_count = 0;
  max_attempts = attempts;
  created_at = now;
  available_at = now;
  started_at = none;
  finished_at = none;
  error_summary = "";
}

-- ORDER BY created_at DESC LIMIT 1
abbrev pub newest : Option WorkflowJobRecord → Jobs → Option WorkflowJobRecord
newest best [] = best
newest none (job ∷ jobs) = newest (some job) jobs
newest (some b) (job ∷ jobs) =
    newest (some (if ltb b.created_at job.created_at then job else b)) jobs

unfoldable pub fetch_active_run_job : Jobs → String → Option WorkflowJobRecord
fetch_active_run_job jobs run_id = newest none (select (works_on run_id) jobs)

abbrev existing_job : Option WorkflowJobRecord → Option WorkflowJobEnqueue
existing_job none = none
existing_job (some job) = some (record { created = false; job = job; durable = true })

-- `enqueue_workflow_job` on a working pool; `none` is the WorkflowQueueError at its end.
unfoldable pub enqueue_workflow_job :
    ℕ → String → Jobs → String → String → Setting → Jobs × Option WorkflowJobEnqueue
unfolding fetch_active_run_job
enqueue_workflow_job now new_id jobs run_id project_id max_attempts =
    let job = new_job now new_id run_id project_id (normalize_max_attempts max_attempts) in
    if any (works_on run_id) jobs
    then (jobs, existing_job (fetch_active_run_job jobs run_id))
    else (jobs ++ job ∷ [], some (record { created = true; job = job; durable = true }))

-- The WHERE of the claim: the job is queued, due, has attempts left, and its run is active.
abbrev pub is_claimable : ℕ → Table → WorkflowJobRecord → Bool
is_claimable now runs job =
    is_queued job.status
    && (leb job.available_at now
        && (ltb job.attempt_count job.max_attempts
            && any (λ r. str_eq r.run_id job.run_id && run_is_active r.status) runs))

-- ORDER BY available_at ASC, created_at ASC; of two jobs as early, the earlier row
abbrev pub is_before : WorkflowJobRecord → WorkflowJobRecord → Bool
is_before a b =
    ltb a.available_at b.available_at
    || (a.available_at == b.available_at && ltb a.created_at b.created_at)

abbrev pub earliest : Option WorkflowJobRecord → Jobs → Option WorkflowJobRecord
earliest best [] = best
earliest none (job ∷ jobs) = earliest (some job) jobs
earliest (some b) (job ∷ jobs) = earliest (some (if is_before job b then job else b)) jobs

abbrev pub claimed : ℕ → WorkflowJobRecord → WorkflowJobRecord
claimed now job = record job {
  status = running;
  started_at = some now;
  attempt_count = job.attempt_count + 1;
  error_summary = "";
}

-- UPDATE ... WHERE job_id = id
abbrev pub update_job_rows : String → (WorkflowJobRecord → WorkflowJobRecord) → Jobs → Jobs
update_job_rows id f [] = []
update_job_rows id f (job ∷ jobs) =
    (if str_eq job.job_id id then f job else job) ∷ update_job_rows id f jobs

unfoldable pub next_job : ℕ → Table → Jobs → Option WorkflowJobRecord
next_job now runs jobs = earliest none (select (is_claimable now runs) jobs)

-- FOR UPDATE SKIP LOCKED is left out: no row is locked by another transaction.
unfoldable pub claim_next_workflow_job : ℕ → Table → Jobs → Jobs × Option WorkflowJobRecord
claim_next_workflow_job now runs jobs = elim (next_job now runs jobs) [
  | none ↦ (jobs, none)
  | some job ↦ (update_job_rows job.job_id (claimed now) jobs, some (claimed now job))
]

unfoldable pub get_workflow_job : Jobs → String → Option WorkflowJobRecord
get_workflow_job [] id = none
get_workflow_job (job ∷ jobs) id =
    if str_eq job.job_id id then some job else get_workflow_job jobs id

abbrev pub finished_job : ℕ → JobStatus → String → WorkflowJobRecord → WorkflowJobRecord
finished_job now status error_summary job = record job {
  status = status;
  finished_at = some now;
  error_summary = error_summary;
}

-- `_update_job` with set_finished, as both its callers have it
unfoldable pub update_job : ℕ → Jobs → String → JobStatus → String → Jobs × Option WorkflowJobRecord
unfolding get_workflow_job
update_job now jobs id status error_summary =
    let written = update_job_rows id (finished_job now status error_summary) jobs in
    (written, get_workflow_job written id)

unfoldable pub mark_job_succeeded : ℕ → Jobs → String → Jobs × Option WorkflowJobRecord
unfolding update_job
mark_job_succeeded now jobs id = update_job now jobs id succeeded ""

-- `summary` is what `run_state.sanitize_error_summary` returns.
unfoldable pub mark_job_failed : ℕ → Jobs → String → String → Jobs × Option WorkflowJobRecord
unfolding update_job
mark_job_failed now jobs id summary = update_job now jobs id failed summary

abbrev is_running : JobStatus → Bool
is_running running = true
is_running _ = false

abbrev is_failed : JobStatus → Bool
is_failed failed = true
is_failed _ = false

-- What `_get_ready_pool` gives: it raises, None, a pool whose statements fail, or a working one.
pub data Pool : Type 0 where
  broken absent faulty : Pool
  ready : Jobs → Pool

pub record QueuePosture : Type 0 where
  pub status : String
  pub durable_queue_active : Bool
  pub queued_job_count : ℕ
  pub running_job_count : ℕ
  pub failed_job_count : ℕ
  pub message : String

abbrev inactive : String → String → QueuePosture
inactive status message = record {
  status = status;
  durable_queue_active = false;
  queued_job_count = 0;
  running_job_count = 0;
  failed_job_count = 0;
  message = message;
}

-- `get_queue_posture` with `count_workflow_jobs`, without its constant entries
unfoldable pub get_queue_posture : Pool → QueuePosture
get_queue_posture broken = inactive "fail" "Workflow queue table is unavailable; see server logs."
get_queue_posture absent =
    inactive "degraded" "Workflow queue is inactive because Postgres is unavailable."
get_queue_posture faulty = inactive "fail" "Workflow queue counts are unavailable; see server logs."
get_queue_posture (ready jobs) = record {
  status = "ok";
  durable_queue_active = true;
  queued_job_count = count_if (λ j. is_queued j.status) jobs;
  running_job_count = count_if (λ j. is_running j.status) jobs;
  failed_job_count = count_if (λ j. is_failed j.status) jobs;
  message = "Workflow jobs are persisted in Postgres and drained by the API process.";
}
