-- ===== src/Runs/Table.antt =====
-- mas/runtime/run_state.py: the statements on the table `workflow_runs`. A table is the list of its
-- rows in the order of insertion; a statement that breaks the unique index on the active run of a
-- project is an error and changes nothing. `now` is NOW(), `new_id` a new UUID.
use v.Prelude.{
  ℕ, zero, suc, String, Bool, true, not, ◌&&◌, Option, none, some, List, [], ◌∷◌, ◌++◌, any, select,
  count_if, str_eq, ltb, leb, if◌then◌else◌,
}
use v.Runs.Record.{
  failed, WorkflowRunRecord, is_active, observed_at, is_late, abandoned_run_error_summary,
}
use v.Runs.Memory.{RunUpdate, updated_run, new_run}

abbrev pub Table : Type 0
Table = List WorkflowRunRecord

-- project_id = $1 AND status IN ('queued', 'running')
abbrev pub holds : String → WorkflowRunRecord → Bool
holds project_id row = str_eq row.project_id project_id && is_active row.status

-- INSERT ... ON CONFLICT (project_id) WHERE status IN ('queued', 'running') DO NOTHING
unfoldable pub insert_workflow_run :
    ℕ → String → Table → String → String → Table × Option WorkflowRunRecord
insert_workflow_run now new_id rows project_id code_version =
    if any (holds project_id) rows then (rows, none) else (
      rows ++ new_run now new_id project_id code_version ∷ [],
      some (new_run now new_id project_id code_version),
    )

-- The row that a recovery writes.
abbrev pub abandoned : ℕ → WorkflowRunRecord → WorkflowRunRecord
abandoned now row = record row {
  status = failed;
  finished_at = some now;
  heartbeat_at = some now;
  error_summary = abandoned_run_error_summary;
}

-- `UPDATE ... WHERE p`
abbrev pub update_where :
    (WorkflowRunRecord → Bool) → (WorkflowRunRecord → WorkflowRunRecord) → Table → Table
update_where p f [] = []
update_where p f (row ∷ rows) = (if p row then f row else row) ∷ update_where p f rows

abbrev pub stale_of : ℕ → ℕ → String → WorkflowRunRecord → Bool
stale_of now threshold project_id row = holds project_id row && is_late now threshold row

-- `_recover_stale_project_run_with_conn`: the new table, and whether a row was returned
unfoldable pub recover_project_run : ℕ → Table → String → ℕ → Table × ℕ
recover_project_run now rows project_id threshold = (
  update_where (stale_of now threshold project_id) (abandoned now) rows,
  if any (stale_of now threshold project_id) rows then 1 else 0,
)

-- ORDER BY created_at DESC LIMIT 1; of two rows as new, the earlier one
abbrev pub newest : Option WorkflowRunRecord → Table → Option WorkflowRunRecord
newest best [] = best
newest none (row ∷ rows) = newest (some row) rows
newest (some b) (row ∷ rows) =
    newest (some (if ltb b.created_at row.created_at then row else b)) rows

unfoldable pub fetch_active_project_run : Table → String → Option WorkflowRunRecord
fetch_active_project_run rows project_id = newest none (select (holds project_id) rows)

-- SELECT ... WHERE run_id = $1 (the primary key)
unfoldable pub fetch_run : Table → String → Option WorkflowRunRecord
fetch_run [] id = none
fetch_run (row ∷ rows) id = if str_eq row.run_id id then some row else fetch_run rows id

-- The unique index: no two active rows of one project.
unfoldable pub index_holds : Table → Bool
index_holds [] = true
index_holds (row ∷ rows) =
    not (is_active row.status && any (holds row.project_id) rows) && index_holds rows

-- `_update_run`: none where the statement breaks the index
unfoldable pub update_run :
    ℕ → Table → String → RunUpdate → Option (Table × Option WorkflowRunRecord)
unfolding updated_run index_holds
update_run now rows id u =
    let written = update_where (λ row. str_eq row.run_id id) (λ row. updated_run now row u) rows in
    if index_holds written then some (written, fetch_run written id) else none

abbrev pub excluded_from : List String → WorkflowRunRecord → Bool
excluded_from excluded row = any (λ p. str_eq p row.project_id) excluded

abbrev pub stale_row : ℕ → ℕ → List String → WorkflowRunRecord → Bool
stale_row now threshold excluded row =
    is_active row.status && (not (excluded_from excluded row) && is_late now threshold row)

-- SELECT COUNT(*) ... of `count_stale_active_runs`
unfoldable pub count_stale : ℕ → ℕ → List String → Table → ℕ
count_stale now threshold excluded rows = count_if (stale_row now threshold excluded) rows

-- ORDER BY observed_at ASC
unfoldable pub insert_by_age : WorkflowRunRecord → Table → Table
insert_by_age row [] = row ∷ []
insert_by_age row (r ∷ rows) =
    if leb (observed_at row) (observed_at r) then row ∷ r ∷ rows else r ∷ insert_by_age row rows

unfoldable pub sort_by_age : Table → Table
sort_by_age [] = []
sort_by_age (row ∷ rows) = insert_by_age row (sort_by_age rows)

-- LIMIT n
abbrev pub take : {A : Type 0} → ℕ → List A → List A
take zero xs = []
take (suc n) [] = []
take (suc n) (x ∷ xs) = x ∷ take n xs

abbrev pub one_of : Table → WorkflowRunRecord → Bool
one_of chosen row = any (λ c. str_eq c.run_id row.run_id) chosen

-- The statement of `recover_stale_active_runs`: the new table, and how many rows it returns.
unfoldable pub recover_stale_rows : ℕ → ℕ → ℕ → List String → Table → Table × ℕ
unfolding sort_by_age insert_by_age
recover_stale_rows now threshold limit excluded rows =
    let chosen = take limit (sort_by_age (select (stale_row now threshold excluded) rows)) in
    (update_where (one_of chosen) (abandoned now) rows, count_if (one_of chosen) rows)
