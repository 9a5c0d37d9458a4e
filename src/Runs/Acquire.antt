-- ===== src/Runs/Acquire.antt =====
-- mas/runtime/run_state.py: `create_workflow_run` and the recovery and readiness reports, over the
-- pool of connections. The statements of one call follow one another with no other writer between.
use v.Prelude.{
  ℕ, String, Bool, true, false, not, Option, none, some, List, count_if, max, min, if◌then◌else◌,
  ◌==◌, str_eq,
}
use v.Prelude.Int.{ℤ, pos, negsuc}
use v.Runs.Record.{
  WorkflowRunRecord, WorkflowRunAcquisition, WorkflowRunRecoveryResult, Setting,
  normalize_stale_after_seconds, normalize_project_id_list, is_active,
}
use v.Runs.Memory.{Memory, memory_active_count, memory_stale_active_count}
use v.Runs.Table.{
  Table, insert_workflow_run, recover_project_run, fetch_active_project_run, recover_stale_rows,
  count_stale,
}

-- What `_get_ready_pool` gives: it raises, None, a pool whose statements fail, or a working one.
pub data Pool : Type 0 where
  broken absent faulty : Pool
  ready : Table → Pool

-- WorkflowRunStateError is `none` beside the table.
abbrev acquired : WorkflowRunRecord → Bool → Option WorkflowRunAcquisition
acquired run created = some (record { created = created; run = run; durable = true })

abbrev existing_run : Table → String → Table × Option WorkflowRunAcquisition
existing_run rows project_id = (
  rows,
  elim (fetch_active_project_run rows project_id) [ none ↦ none | some run ↦ acquired run false ],
)

-- The second round of the loop.
abbrev second_attempt : ℕ → String → Table → String → String → Table × Option WorkflowRunAcquisition
second_attempt now id rows project_id version =
    let (inserted, row) = insert_workflow_run now id rows project_id version in
    elim row [ none ↦ existing_run inserted project_id | some run ↦ (inserted, acquired run true) ]

-- `create_workflow_run` on a working pool; `id` and `id'` are the new UUIDs of its two rounds.
unfoldable pub create_workflow_run :
    ℕ → String → String → Table → String → String → ℕ → Table × Option WorkflowRunAcquisition
unfolding insert_workflow_run recover_project_run fetch_active_project_run
create_workflow_run now id id' rows project_id version threshold =
    let (inserted, row) = insert_workflow_run now id rows project_id version in
    let (recovered, n) = recover_project_run now inserted project_id threshold in
    elim row [
      | some run ↦ (inserted, acquired run true)
      | none ↦
          if n == 0
          then existing_run recovered project_id
          else second_attempt now id' recovered project_id version
    ]

-- max(1, min(int(limit or 1), 1000))
unfoldable pub bounded_limit : ℤ → ℕ
bounded_limit (pos n) = if n == 0 then 1 else max 1 (min n 1000)
bounded_limit (negsuc n) = 1

abbrev recovery_failed : Bool → ℕ → WorkflowRunRecoveryResult
recovery_failed durable threshold = record {
  status = "fail";
  durable = durable;
  recovered_count = 0;
  stale_active_run_count = 0;
  stale_after_seconds = threshold;
  message = "Workflow run-state recovery failed; see server logs.";
}

-- The message of a recovery that found rows, with the count that it shows.
abbrev recovered_message : ℕ → String
recovered_message n =
    if n == 0
    then "No abandoned workflow runs required recovery."
    else "Recovered abandoned workflow run(s)."

unfoldable pub recover_stale_active_runs :
    ℕ → Memory → Pool → Setting → List String → ℤ → Pool × WorkflowRunRecoveryResult
unfolding recover_stale_rows count_stale
recover_stale_active_runs now memory broken setting exclude limit =
    (broken, recovery_failed false (normalize_stale_after_seconds setting))
recover_stale_active_runs now memory absent setting exclude limit = (
  absent,
  record {
    status = "degraded";
    durable = false;
    recovered_count = 0;
    stale_active_run_count =
        memory_stale_active_count now (normalize_stale_after_seconds setting)
          (normalize_project_id_list exclude) memory;
    stale_after_seconds = normalize_stale_after_seconds setting;
    message = "Stale run recovery requires Postgres durable run state.";
  },
)
recover_stale_active_runs now memory faulty setting exclude limit =
    (faulty, recovery_failed true (normalize_stale_after_seconds setting))
recover_stale_active_runs now memory (ready rows) setting exclude limit =
    let threshold = normalize_stale_after_seconds setting in
    let excluded = normalize_project_id_list exclude in
    let (written, n) = recover_stale_rows now threshold (bounded_limit limit) excluded rows in
    (
      ready written,
      record {
        status = "ok";
        durable = true;
        recovered_count = n;
        stale_active_run_count = count_stale now threshold excluded written;
        stale_after_seconds = threshold;
        message = recovered_message n;
      },
    )

pub record RunStatePosture : Type 0 where
  pub status : String
  pub durable_run_state_active : Bool
  pub workflow_run_tracking : String
  pub cross_process_run_guard_enabled : Bool
  pub active_run_count : ℕ
  pub stale_recovery_available : Bool
  pub stale_active_run_count : ℕ
  pub last_recovery_check_status : String
  pub recovered_count : ℕ
  pub stale_after_seconds : ℕ
  pub local_running_count : ℕ

abbrev posture_of :
    ℕ → Memory → Pool × WorkflowRunRecoveryResult → ℕ → List String → ℕ → RunStatePosture
posture_of now memory (broken, recovery) threshold excluded running = record {
  status = "fail";
  durable_run_state_active = false;
  workflow_run_tracking = "unknown";
  cross_process_run_guard_enabled = false;
  active_run_count = 0;
  stale_recovery_available = false;
  stale_active_run_count = recovery.stale_active_run_count;
  last_recovery_check_status = recovery.status;
  recovered_count = recovery.recovered_count;
  stale_after_seconds = threshold;
  local_running_count = running;
}
posture_of now memory (absent, recovery) threshold excluded running = record {
  status = "degraded";
  durable_run_state_active = false;
  workflow_run_tracking = "process_local";
  cross_process_run_guard_enabled = false;
  active_run_count = memory_active_count memory;
  stale_recovery_available = false;
  stale_active_run_count = recovery.stale_active_run_count;
  last_recovery_check_status = recovery.status;
  recovered_count = recovery.recovered_count;
  stale_after_seconds = threshold;
  local_running_count = running;
}
posture_of now memory (faulty, recovery) threshold excluded running = record {
  status = "fail";
  durable_run_state_active = false;
  workflow_run_tracking = "unknown";
  cross_process_run_guard_enabled = false;
  active_run_count = 0;
  stale_recovery_available = false;
  stale_active_run_count = 0;
  last_recovery_check_status = "fail";
  recovered_count = recovery.recovered_count;
  stale_after_seconds = threshold;
  local_running_count = running;
}
posture_of now memory (ready rows, recovery) threshold excluded running = record {
  status = if str_eq recovery.status "fail" then "fail" else "ok";
  durable_run_state_active = true;
  workflow_run_tracking = "durable_postgres";
  cross_process_run_guard_enabled = true;
  active_run_count = count_if (λ row. is_active row.status) rows;
  stale_recovery_available = not (str_eq recovery.status "fail");
  stale_active_run_count = count_stale now threshold excluded rows;
  last_recovery_check_status = recovery.status;
  recovered_count = recovery.recovered_count;
  stale_after_seconds = threshold;
  local_running_count = running;
}

-- `get_run_state_posture`, without its message; the pool is in one condition throughout. The
-- recovery runs at its default limit of 100.
unfoldable pub get_run_state_posture :
    ℕ → Memory → Pool → Setting → ℕ → List String → Pool × RunStatePosture
unfolding recover_stale_active_runs
get_run_state_posture now memory pool setting running local_ids =
    let threshold = normalize_stale_after_seconds setting in
    let excluded = normalize_project_id_list local_ids in
    let recovery =
      recover_stale_active_runs now memory pool (Setting.number (pos threshold)) excluded
        (pos 100) in
    (recovery.0, posture_of now memory recovery threshold excluded running)
