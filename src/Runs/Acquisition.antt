-- ===== src/Runs/Acquisition.antt =====
-- mas/runtime/run_state.py: what `create_workflow_run` promises on a working pool.
use v.Prelude.{
  ℕ, String, ◌≡◌, true, false, none, some, [], ◌∷◌, ◌++◌, any, arith, if◌then◌else◌, Bool-cases,
  Option-cases, inl, inr, select,
}
use v.Runs.Record.{WorkflowRunRecord}
use v.Runs.Memory.{new_run}
use v.Runs.Table.{Table, holds, abandoned, update_where, stale_of, newest, index_holds}
use v.Runs.Acquire.{create_workflow_run}
use v.Runs.Unique.{
  index-append, index-abandoned, update_where-none, fresh_of, any-stale, any-fresh, fresh_not_stale,
  any-recovered, newest-select, newest-any,
}

module _ (now threshold : ℕ) (p id id' version : String) (rows : Table) where
  any-holds_of_fresh : any (fresh_of now threshold p) rows ≡ true → any (holds p) rows ≡ true
  any-holds_of_fresh h = ground (arith, any-fresh now threshold p rows)

  -- While the project has an active run with a recent sign of life, `create_workflow_run` changes
  -- no row and returns that run as the existing one.
  pub create_workflow_run-busy :
      index_holds rows ≡ true
      → any (fresh_of now threshold p) rows ≡ true
      → (r : WorkflowRunRecord) × (create_workflow_run now id id' rows p version threshold
          ≡ (rows, some (record { created = false; run = r; durable = true })))
        × (fresh_of now threshold p r ≡ true)
  unfolding create_workflow_run
  create_workflow_run-busy h f = elim (Option-cases (newest none (select (holds p) rows))) [
    | inl missing ↦
        absurd (newest-any (holds p) (stale_of now threshold p) rows (any-holds_of_fresh f) missing)
    | inr (r, found) ↦ (
      r,
      ground (
        arith,
        any-holds_of_fresh f,
        fresh_not_stale now threshold p rows,
        update_where-none (stale_of now threshold p) now rows,
        found,
      ),
      ground (
        arith,
        newest-select (holds p) (stale_of now threshold p) rows r,
        fresh_not_stale now threshold p rows,
      ),
    )
  ]

  -- The UUID that ends up in the table: that of the second round where a run was in the way.
  abbrev pub acquired_id : String
  acquired_id = if any (holds p) rows then id' else id

  stale_of_blocked :
      any (holds p) rows ≡ true
      → any (fresh_of now threshold p) rows ≡ false
      → any (stale_of now threshold p) rows ≡ true
  stale_of_blocked h f = ground (arith, all_stale rows h f)
    where
      all_stale :
          (xs : Table)
          → any (holds p) xs ≡ true
          → any (fresh_of now threshold p) xs ≡ false
          → any (stale_of now threshold p) xs ≡ true
      all_stale [] h f = cc
      all_stale (x ∷ xs) h f = ground (arith, all_stale xs)

  -- While the project has no active run with a recent sign of life, `create_workflow_run` fails the
  -- project's abandoned runs, changes no other row, adds one queued run and returns it as created.
  pub create_workflow_run-free :
      any (fresh_of now threshold p) rows ≡ false
      → create_workflow_run now id id' rows p version threshold ≡ (
        update_where (stale_of now threshold p) (abandoned now) rows
            ++ new_run now acquired_id p version ∷ [],
        some (record { created = true; run = new_run now acquired_id p version; durable = true }),
      )
  unfolding create_workflow_run
  create_workflow_run-free f = elim (Bool-cases (any (holds p) rows)) [
    | inl blocked ↦
        ground (arith, blocked, stale_of_blocked blocked f, any-recovered now threshold p rows)
    | inr open_way ↦ ground (
      arith,
      open_way,
      any-stale now threshold p rows,
      update_where-none (stale_of now threshold p) now rows,
    )
  ]

  -- At most one run of a project is active: if the table has the unique index before, it has it
  -- after `create_workflow_run`.
  pub create_workflow_run-index :
      index_holds rows ≡ true
      → index_holds (create_workflow_run now id id' rows p version threshold).0 ≡ true
  create_workflow_run-index h = elim (Bool-cases (any (fresh_of now threshold p) rows)) [
    | inl busy ↦ rw (create_workflow_run-busy h busy).1 h
    | inr free ↦ rw (create_workflow_run-free free) (
        index-append (update_where (stale_of now threshold p) (abandoned now) rows)
          (new_run now acquired_id p version)
          (index-abandoned (stale_of now threshold p) now rows h)
          (ground (arith, any-recovered now threshold p rows, free)))
  ]
