-- ===== src/Runs/Examples.antt =====
-- Tests of the run state (mas/runtime/run_state.py), and the theorems at concrete inputs.
use v.Prelude.{ℕ, ◌≡◌, ◌++◌, refl, true, false, some, [], ◌∷◌, arith, eq_iff}
use v.Prelude.Dict.{get}
use v.Runs.Record.{running, succeeded, WorkflowRunRecord, seconds}
use v.Runs.Memory.{Memory, new_run, create_memory_run}
use v.Runs.Table.{Table, index_holds, abandoned, update_where, stale_of, recover_stale_rows}
use v.Runs.Acquire.{create_workflow_run}
use v.Runs.Unique.{fresh_of}
use v.Runs.Acquisition.{create_workflow_run-busy, create_workflow_run-free}
use v.Runs.Guard.{IsGuarded, Uses, Uses-IsGuarded}

abbrev run_a : WorkflowRunRecord
run_a = record (new_run 0 "a" "p" "1") { status = succeeded }

abbrev run_b : WorkflowRunRecord
run_b = record (new_run 5 "b" "p" "1") { status = running }

abbrev run_c : WorkflowRunRecord
run_c = new_run 7 "c" "q" "1"

abbrev rows : Table
rows = run_a ∷ run_b ∷ run_c ∷ []

abbrev later : ℕ
later = seconds 400

create_workflow_run-busy_example :
    (r : WorkflowRunRecord) × (create_workflow_run 9 "d" "e" rows "p" "1" 300
      ≡ (rows, some (record { created = false; run = r; durable = true })))
    × (fresh_of 9 300 "p" r ≡ true)
unfolding index_holds
create_workflow_run-busy_example = create_workflow_run-busy 9 300 "p" "d" "e" "1" rows refl refl

create_workflow_run-free_example : create_workflow_run later "d" "e" rows "p" "1" 300 ≡ (
  update_where (stale_of later 300 "p") (abandoned later) rows ++ new_run later "e" "p" "1" ∷ [],
  some (record { created = true; run = new_run later "e" "p" "1"; durable = true }),
)
create_workflow_run-free_example = create_workflow_run-free later 300 "p" "d" "e" "1" rows refl

recover_test : (recover_stale_rows later 300 1 [] rows).1 ≡ 1
unfolding recover_stale_rows
recover_test = refl

abbrev empty_memory : Memory
empty_memory = record { runs = []; active_by_project = [] }

empty-IsGuarded : IsGuarded empty_memory
unfolding get
empty-IsGuarded = record { named = λ k r e. cc; guarded = λ k r e a. cc }

one_run : Uses empty_memory (create_memory_run 3 "a" empty_memory "p" "1").0
unfolding get
one_run = Uses.create 3 "a" "p" "1" Uses.here refl (λ e. ground (arith, e, eq_iff "a" ""))

Uses-IsGuarded_example : IsGuarded (create_memory_run 3 "a" empty_memory "p" "1").0
Uses-IsGuarded_example = Uses-IsGuarded empty-IsGuarded one_run

abbrev memory : Memory
memory = record { runs = ("a", run_a) ∷ ("b", run_b) ∷ []; active_by_project = ("p", "b") ∷ [] }
