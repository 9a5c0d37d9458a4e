-- ===== src/Runs/Unique.antt =====
-- mas/runtime/run_state.py: the statements on `workflow_runs` and the active-run guard.
use v.Prelude.{
  ℕ, String, ◌≡◌, ◌≢◌, refl, Bool, true, false, not, ◌&&◌, none, some, [], ◌∷◌, ◌++◌, any, arith,
  eq_iff, if◌then◌else◌, select, ltb,
}
use v.Runs.Record.{WorkflowRunRecord, is_late}
use v.Runs.Table.{Table, holds, abandoned, update_where, stale_of, newest, index_holds}

pub any-append :
    (p : WorkflowRunRecord → Bool) (rows : Table) (row : WorkflowRunRecord)
    → any p (rows ++ row ∷ []) ≡ (if any p rows then true else p row)
any-append p [] row = ground arith
any-append p (r ∷ rows) row = ground (arith, any-append p rows row)

-- A second active row is refused by the index, and only that.
pub index-append :
    (rows : Table) (row : WorkflowRunRecord)
    → index_holds rows ≡ true
    → any (holds row.project_id) rows ≡ false
    → index_holds (rows ++ row ∷ []) ≡ true
unfolding index_holds
index-append [] row h n = ground arith
index-append (r ∷ rows) row h n = ground (
  arith,
  index-append rows row,
  any-append (holds r.project_id) rows row,
  eq_iff r.project_id row.project_id,
  eq_iff row.project_id r.project_id,
)

-- A write that deactivates the rows it changes.
module _ (q : WorkflowRunRecord → Bool) (now : ℕ) where
  any-abandoned :
      (p : String) (rows : Table)
      → any (holds p) (update_where q (abandoned now) rows) ≡ true
      → any (holds p) rows ≡ true
  any-abandoned p [] h = h
  any-abandoned p (r ∷ rows) h = ground (arith, any-abandoned p rows)

  pub index-abandoned :
      (rows : Table)
      → index_holds rows ≡ true
      → index_holds (update_where q (abandoned now) rows) ≡ true
  unfolding index_holds
  index-abandoned [] h = refl
  index-abandoned (r ∷ rows) h =
      ground (arith, index-abandoned rows, any-abandoned r.project_id rows)

  pub update_where-none :
      (rows : Table) → any q rows ≡ false → update_where q (abandoned now) rows ≡ rows
  update_where-none [] h = refl
  update_where-none (r ∷ rows) h = ground (arith, update_where-none rows)

-- A row of the project that is active and whose last sign of life is recent.
abbrev pub fresh_of : ℕ → ℕ → String → WorkflowRunRecord → Bool
fresh_of now threshold project_id row = holds project_id row && not (is_late now threshold row)

module _ (now threshold : ℕ) (p : String) where
  pub any-stale :
      (rows : Table) → any (holds p) rows ≡ false → any (stale_of now threshold p) rows ≡ false
  any-stale [] h = refl
  any-stale (r ∷ rows) h = ground (arith, any-stale rows)

  pub any-fresh :
      (rows : Table) → any (holds p) rows ≡ false → any (fresh_of now threshold p) rows ≡ false
  any-fresh [] h = refl
  any-fresh (r ∷ rows) h = ground (arith, any-fresh rows)

  -- One active row is not both fresh and stale.
  pub fresh_not_stale :
      (rows : Table)
      → index_holds rows ≡ true
      → any (fresh_of now threshold p) rows ≡ true
      → any (stale_of now threshold p) rows ≡ false
  unfolding index_holds
  fresh_not_stale [] h f = refl
  fresh_not_stale (r ∷ rows) h f =
      ground (arith, fresh_not_stale rows, any-stale rows, any-fresh rows, eq_iff r.project_id p)

  -- After the recovery the project's active rows are the fresh ones.
  pub any-recovered :
      (rows : Table)
      → any (holds p) (update_where (stale_of now threshold p) (abandoned now) rows)
        ≡ any (fresh_of now threshold p) rows
  any-recovered [] = refl
  any-recovered (r ∷ rows) = ground (arith, any-recovered rows)

newest-some : (b : WorkflowRunRecord) (rows : Table) → newest (some b) rows ≢ none
newest-some b [] = cc
newest-some b (r ∷ rows) = newest-some (if ltb b.created_at r.created_at then r else b) rows

-- What `newest` picks of the rows with `q` has `q`, and not `s` where no row has it.
module _ (q s : WorkflowRunRecord → Bool) where
  newest-kept :
      (b : WorkflowRunRecord) (rows : Table) (r : WorkflowRunRecord)
      → newest (some b) (select q rows) ≡ some r
      → q b ≡ true
      → s b ≡ false
      → any s rows ≡ false
      → (q r ≡ true) × (s r ≡ false)
  newest-kept b [] r h k l n = ground arith
  newest-kept b (x ∷ rows) r h k l n = ground (
    arith,
    newest-kept b rows r,
    newest-kept (if ltb b.created_at x.created_at then x else b) rows r,
  )

  pub newest-select :
      (rows : Table) (r : WorkflowRunRecord)
      → newest none (select q rows) ≡ some r
      → any s rows ≡ false
      → (q r ≡ true) × (s r ≡ false)
  newest-select [] r h n = cc
  newest-select (x ∷ rows) r h n = ground (arith, newest-select rows r, newest-kept x rows r)

  pub newest-any : (rows : Table) → any q rows ≡ true → newest none (select q rows) ≢ none
  newest-any [] h = cc
  newest-any (x ∷ rows) h = ground (arith, newest-any rows, newest-some x (select q rows))
