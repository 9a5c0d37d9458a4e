-- ===== src/Runs/Memory.antt =====
-- mas/runtime/run_state.py: the run state of one process, which stands in where there is no
-- Postgres. `now` is the reading of the clock, `new_id` the text of a new UUID.
use v.Prelude.{
  ℕ, String, Bool, true, false, not, ◌&&◌, Option, none, some, List, any, count_if, str_eq,
  if◌then◌else◌,
}
use v.Prelude.Dict.{Dict, get, put, pop, values}
use v.Runs.Record.{
  RunStatus, queued, running, succeeded, failed, WorkflowRunRecord, WorkflowRunAcquisition,
  is_active, is_terminal, or_else, first_some, is_late,
}

-- `_memory_runs` and `_memory_active_by_project`
pub record Memory : Type 0 where
  pub runs : Dict WorkflowRunRecord
  pub active_by_project : Dict String

-- An id that is empty counts as none.
abbrev pub truthy : Option String → Option String
truthy none = none
truthy (some s) = if str_eq s "" then none else some s

abbrev pub if_active : Option WorkflowRunRecord → Option WorkflowRunRecord
if_active none = none
if_active (some run) = if is_active run.status then some run else none

abbrev pub run_of : Memory → Option String → Option WorkflowRunRecord
run_of m none = none
run_of m (some id) = get m.runs id

-- `get_active_project_run` without a pool
unfoldable pub get_active_memory_run : Memory → String → Option WorkflowRunRecord
get_active_memory_run m project_id =
    if_active (run_of m (truthy (get m.active_by_project project_id)))

abbrev pub new_run : ℕ → String → String → String → WorkflowRunRecord
new_run now new_id project_id code_version = record {
  run_id = new_id;
  project_id = project_id;
  status = queued;
  current_phase = "";
  created_at = now;
  started_at = none;
  finished_at = none;
  heartbeat_at = some now;
  error_summary = "";
  code_version = code_version;
}

abbrev pub add_run : Memory → WorkflowRunRecord → Memory
add_run m run = record {
  runs = put m.runs run.run_id run;
  active_by_project = put m.active_by_project run.project_id run.run_id;
}

unfoldable pub create_memory_run :
    ℕ → String → Memory → String → String → Memory × WorkflowRunAcquisition
create_memory_run now new_id m project_id code_version = elim (get_active_memory_run m project_id) [
  | some active ↦ (m, record { created = false; run = active; durable = false })
  | none ↦ (
    add_run m (new_run now new_id project_id code_version),
    record { created = true; run = new_run now new_id project_id code_version; durable = false },
  )
]

-- The arguments of `_update_run`, beside the id.
pub record RunUpdate : Type 0 where
  pub status : Option RunStatus
  pub current_phase : Option String
  pub error_summary : Option String
  pub set_started : Bool
  pub set_finished : Bool
  pub touch_heartbeat : Bool

-- The record that an update writes over `existing`.
unfoldable pub updated_run : ℕ → WorkflowRunRecord → RunUpdate → WorkflowRunRecord
updated_run now existing u = record existing {
  status = or_else u.status existing.status;
  current_phase = or_else u.current_phase existing.current_phase;
  started_at = first_some existing.started_at (if u.set_started then some now else none);
  finished_at = if u.set_finished then some now else existing.finished_at;
  heartbeat_at = if u.touch_heartbeat then some now else existing.heartbeat_at;
  error_summary = or_else u.error_summary existing.error_summary;
}

abbrev pub guard_after : RunStatus → WorkflowRunRecord → String → Dict String → Dict String
guard_after next existing run_id active =
    if is_terminal next
    then pop active existing.project_id
    else if is_active next
    then put active existing.project_id run_id
    else active

unfoldable pub update_memory_run :
    ℕ → Memory → String → RunUpdate → Memory × Option WorkflowRunRecord
unfolding updated_run
update_memory_run now m run_id u = elim (get m.runs run_id) [
  | none ↦ (m, none)
  | some existing ↦ (
    record {
      runs = put m.runs run_id (updated_run now existing u);
      active_by_project =
          guard_after (updated_run now existing u).status existing run_id m.active_by_project;
    },
    some (updated_run now existing u),
  )
]

-- mark_run_running, mark_run_phase, mark_run_succeeded, mark_run_failed; `summary` is what
-- `sanitize_error_summary` returns.
abbrev pub running_update : String → RunUpdate
running_update phase = record {
  status = some running;
  current_phase = some phase;
  error_summary = none;
  set_started = true;
  set_finished = false;
  touch_heartbeat = true;
}

abbrev pub phase_update : String → RunUpdate
phase_update phase = record {
  status = none;
  current_phase = some phase;
  error_summary = none;
  set_started = false;
  set_finished = false;
  touch_heartbeat = true;
}

abbrev pub succeeded_update : String → RunUpdate
succeeded_update phase = record {
  status = some succeeded;
  current_phase = some phase;
  error_summary = some "";
  set_started = false;
  set_finished = true;
  touch_heartbeat = true;
}

abbrev pub failed_update : String → String → RunUpdate
failed_update summary phase = record {
  status = some failed;
  current_phase = some phase;
  error_summary = some summary;
  set_started = false;
  set_finished = true;
  touch_heartbeat = true;
}

abbrev is_live : Memory → String → Bool
is_live m id = elim (get m.runs id) [ none ↦ false | some run ↦ is_active run.status ]

unfoldable pub memory_active_count : Memory → ℕ
memory_active_count m = count_if (is_live m) (values m.active_by_project)

abbrev is_stale : ℕ → ℕ → List String → Option WorkflowRunRecord → Bool
is_stale now threshold excluded none = false
is_stale now threshold excluded (some run) =
    is_active run.status
    && (not (any (λ p. str_eq p run.project_id) excluded) && is_late now threshold run)

unfoldable pub memory_stale_active_count : ℕ → ℕ → List String → Memory → ℕ
memory_stale_active_count now threshold excluded m =
    count_if (λ id. is_stale now threshold excluded (get m.runs id)) (values m.active_by_project)
