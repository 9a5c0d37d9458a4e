-- ===== src/Runs/Record.antt =====
-- mas/runtime/run_state.py: the record of a workflow run. An instant is a number of microseconds:
-- the text of `datetime.isoformat()` and the timestamps of Postgres are read as that number.
use v.Prelude.{
  ℕ, ◌+◌, ◌*◌, String, Bool, true, false, Option, none, some, List, [], ◌∷◌, str_eq, ltb, leb,
  if◌then◌else◌, max,
}
use v.Prelude.Int.{ℤ, pos}

pub data RunStatus : Type 0 where
  queued running succeeded failed : RunStatus

pub record WorkflowRunRecord : Type 0 where
  pub run_id : String
  pub project_id : String
  pub status : RunStatus
  pub current_phase : String
  pub created_at : ℕ
  pub started_at : Option ℕ
  pub finished_at : Option ℕ
  pub heartbeat_at : Option ℕ
  pub error_summary : String
  pub code_version : String

pub record WorkflowRunAcquisition : Type 0 where
  pub created : Bool
  pub run : WorkflowRunRecord
  pub durable : Bool

pub record WorkflowRunRecoveryResult : Type 0 where
  pub status : String
  pub durable : Bool
  pub recovered_count : ℕ
  pub stale_active_run_count : ℕ
  pub stale_after_seconds : ℕ
  pub message : String

-- status in ACTIVE_RUN_STATUSES
abbrev pub is_active : RunStatus → Bool
is_active queued = true
is_active running = true
is_active _ = false

-- status in TERMINAL_RUN_STATUSES
abbrev pub is_terminal : RunStatus → Bool
is_terminal succeeded = true
is_terminal failed = true
is_terminal _ = false

abbrev pub default_stale_after_seconds : ℕ
default_stale_after_seconds = 3600

abbrev pub min_stale_after_seconds : ℕ
min_stale_after_seconds = 300

abbrev pub abandoned_run_error_summary : String
abandoned_run_error_summary =
    "Workflow run marked failed because it appeared abandoned after runtime restart or timeout."

abbrev pub seconds : ℕ → ℕ
seconds n = n * 1_000_000

abbrev pub or_else : {A : Type 0} → Option A → A → A
or_else none b = b
or_else (some a) b = a

abbrev pub first_some : {A : Type 0} → Option A → Option A → Option A
first_some none b = b
first_some (some a) b = some a

-- COALESCE(heartbeat_at, started_at, created_at)
abbrev pub observed_at : WorkflowRunRecord → ℕ
observed_at run = or_else (first_some run.heartbeat_at run.started_at) run.created_at

-- observed < now - threshold
abbrev pub is_late : ℕ → ℕ → WorkflowRunRecord → Bool
is_late now threshold run = ltb (observed_at run + seconds threshold) now

-- What `_normalize_stale_after_seconds` is given: None or a blank text, a text that `int` refuses,
-- or a number.
pub data Setting : Type 0 where
  blank malformed : Setting
  number : ℤ → Setting

unfoldable pub normalize_stale_after_seconds : Setting → ℕ
normalize_stale_after_seconds (number (pos n)) =
    if leb n 0 then default_stale_after_seconds else max n min_stale_after_seconds
normalize_stale_after_seconds _ = default_stale_after_seconds

-- [str(p) for p in project_ids if str(p)]
unfoldable pub normalize_project_id_list : List String → List String
normalize_project_id_list [] = []
normalize_project_id_list (p ∷ ps) =
    let rest = normalize_project_id_list ps in if str_eq p "" then rest else p ∷ rest
