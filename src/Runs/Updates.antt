-- ===== src/Runs/Updates.antt =====
-- mas/runtime/run_state.py: `_update_run` on the table, and the unique index on active runs.
use v.Prelude.{ℕ, String, ◌≡◌, refl, Bool, true, some, [], ◌∷◌, any, All, arith, eq_iff, str_eq}
use v.Runs.Record.{WorkflowRunRecord, is_active, or_else}
use v.Runs.Memory.{RunUpdate, updated_run, phase_update, succeeded_update, failed_update}
use v.Runs.Table.{Table, holds, update_where, index_holds, update_run, fetch_run}

-- An update that activates no row: it ends the run, or keeps the status that it has.
abbrev pub activates : RunUpdate → WorkflowRunRecord → Bool
activates u row = is_active (or_else u.status row.status)

-- Where the rows with the id are active if the update leaves them active, it activates none.
abbrev pub Quiet : String → RunUpdate → Table → Type 0
Quiet id u rows =
    All (λ row. row.run_id ≡ id → activates u row ≡ true → is_active row.status ≡ true) rows

module _ (now : ℕ) (id : String) (u : RunUpdate) where
  abbrev written : Table → Table
  written rows = update_where (λ row. str_eq row.run_id id) (λ row. updated_run now row u) rows

  updated_frame :
      (row : WorkflowRunRecord)
      → ((updated_run now row u).run_id ≡ row.run_id)
        × ((updated_run now row u).project_id ≡ row.project_id)
        × ((updated_run now row u).status ≡ or_else u.status row.status)
  unfolding updated_run
  updated_frame row = (refl, refl, refl)

  any-written :
      (p : String) (rows : Table)
      → Quiet id u rows
      → any (holds p) (written rows) ≡ true
      → any (holds p) rows ≡ true
  any-written p [] q h = h
  any-written p (r ∷ rows) q h =
      ground (arith, q.0, updated_frame r, any-written p rows q.1, eq_iff r.run_id id)

  index-written :
      (rows : Table) → Quiet id u rows → index_holds rows ≡ true → index_holds (written rows) ≡ true
  unfolding index_holds
  index-written [] q h = refl
  index-written (r ∷ rows) q h = ground (
    arith,
    q.0,
    updated_frame r,
    index-written rows q.1,
    any-written r.project_id rows q.1,
    eq_iff r.run_id id,
  )

  fetch-written :
      (rows : Table) (row : WorkflowRunRecord)
      → fetch_run rows id ≡ some row
      → fetch_run (written rows) id ≡ some (updated_run now row u)
  unfolding fetch_run
  fetch-written [] row h = cc
  fetch-written (r ∷ rows) row h = ground (arith, updated_frame r, fetch-written rows row)

  -- Under the unique index, an update that activates no run that had ended is never refused, keeps
  -- the index, and returns the row that it wrote.
  pub update_run_lem :
      (rows : Table) (row : WorkflowRunRecord)
      → index_holds rows ≡ true
      → Quiet id u rows
      → fetch_run rows id ≡ some row
      → (update_run now rows id u ≡ some (written rows, some (updated_run now row u)))
        × (index_holds (written rows) ≡ true)
  unfolding update_run
  update_run_lem rows row h q f = ground (arith, index-written rows q h, fetch-written rows row f)

-- The updates that end a run, and that report its phase, activate no run.
pub ending-Quiet :
    (id phase summary : String) (rows : Table)
    → Quiet id (succeeded_update phase) rows
      × Quiet id (failed_update summary phase) rows
      × Quiet id (phase_update phase) rows
ending-Quiet id phase summary [] = (tt, tt, tt)
ending-Quiet id phase summary (r ∷ rows) =
    let (a, b, c) = ending-Quiet id phase summary rows in
    ((λ e h. cc, a), (λ e h. cc, b), (λ e h. h, c))
