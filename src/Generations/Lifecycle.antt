-- ===== src/Generations/Lifecycle.antt =====
-- mas/state_coherence.py, mas/sql/v64_decision_state_coherence_foundation.sql and
-- `_accept_completed_analysis` of mas/api.py: the operations on generations. A transaction that
-- raises leaves the database as it was. New UUIDs, digests and the clock are arguments.
use v.Prelude.{
  ℕ, String, Bool, true, false, Option, none, some, List, [], ◌∷◌, ◌++◌, not, ◌&&◌, str_eq,
  if◌then◌else◌,
}
use v.Generations.Tables.{
  candidate, accepted, failed, aborted, is_candidate, Generation, CurrentBinding, Database,
  not_distinct, is_null, binding_of, upsert, find_generation, update_generation,
  guard_current_binding, is_complete_analysis,
}

-- StateCoherenceError, CandidateNotValidatedError, StalePromotionError, and an exception of the
-- database.
pub data CoherenceError : Type 0 where
  state_coherence candidate_not_validated stale_promotion database_error : CoherenceError

pub data Result (F : Type 0) : Type 0 where
  committed : Database F → Result F
  raised : CoherenceError → Result F

abbrev pub has_raised : {F : Type 0} → Result F → Bool
has_raised (committed d) = false
has_raised (raised e) = true

module _ {F : Type 0} where
  -- The expected base is null, or a generation of the same project and decision.
  unfoldable pub base_in_scope : List (Generation F) → Generation F → Bool
  unfolding find_generation
  base_in_scope rows g = elim g.expected_base [
    | none ↦ true
    | some base ↦ elim (find_generation rows base) [
      | none ↦ false
      | some b ↦ str_eq b.project_id g.project_id && str_eq b.decision_id g.decision_id
    ]
  ]

  -- The row that `create_candidate` inserts.
  abbrev pub as_candidate : Generation F → Generation F
  as_candidate g = record g {
    lifecycle_status = candidate;
    validated_at = none;
    promoted_at = none;
    terminal_at = none;
  }

  -- The INSERT of `create_candidate`: the primary key, the foreign key and the check hold, or it
  -- raises.
  unfoldable pub create_candidate : Database F → Generation F → Result F
  unfolding find_generation base_in_scope
  create_candidate db g =
      let row = as_candidate g in
      elim (find_generation db.generations g.id) [
        | some taken ↦ raised database_error
        | none ↦
            if base_in_scope db.generations row
            then committed (record db { generations = db.generations ++ row ∷ [] })
            else raised database_error
      ]

  -- What follows on an UPDATE of one row.
  abbrev pub written : Database F → Option (List (Generation F)) → Result F
  written db none = raised database_error
  written db (some rows) = committed (record db { generations = rows })

  unfoldable pub validate_candidate : Database F → ℕ → String → Result F
  unfolding find_generation update_generation is_complete_analysis
  validate_candidate db now id = elim (find_generation db.generations id) [
    | none ↦ raised state_coherence
    | some g ↦
        if not (is_candidate g.lifecycle_status)
        then raised state_coherence
        else if not (is_complete_analysis g.state)
        then raised candidate_not_validated
        else written db
            (update_generation db.generations g (record g { validated_at = some now }) false)
  ]

  unfoldable pub abandon_candidate : Database F → ℕ → String → Bool → Result F
  unfolding find_generation update_generation
  abandon_candidate db now id is_failed = elim (find_generation db.generations id) [
    | none ↦ raised state_coherence
    | some g ↦
        if not (is_candidate g.lifecycle_status)
        then raised state_coherence
        else written db (
            update_generation db.generations g
              (record g {
                lifecycle_status = if is_failed then failed else aborted;
                terminal_at = some now;
              })
              true)
  ]

  -- The row of a candidate as the current one of its scope.
  abbrev pub binding_for : Generation F → CurrentBinding
  binding_for g = record {
    project_id = g.project_id;
    decision_id = g.decision_id;
    generation_id = g.id;
  }

  -- The two writes of `promote_analysis_generation`.
  unfoldable pub bind_current : Database F → Generation F → Option (List (Generation F)) → Result F
  unfolding upsert guard_current_binding
  bind_current db g none = raised database_error
  bind_current db g (some rows) =
      if guard_current_binding rows (binding_for g)
      then committed (record { generations = rows; current = upsert db.current (binding_for g) })
      else raised database_error

  -- `promote_candidate` and `promote_analysis_generation`
  unfoldable pub promote_candidate : Database F → ℕ → String → Option String → Result F
  unfolding find_generation update_generation binding_of bind_current
  promote_candidate db now id expected_base = elim (find_generation db.generations id) [
    | none ↦ raised state_coherence
    | some g ↦
        if not (is_candidate g.lifecycle_status)
        then raised state_coherence
        else if is_null g.validated_at
        then raised candidate_not_validated
        else if not (not_distinct g.expected_base expected_base)
        then raised stale_promotion
        else if not (not_distinct (binding_of db.current g.project_id g.decision_id) expected_base)
        then raised stale_promotion
        else bind_current db g (
            update_generation db.generations g
              (record g { lifecycle_status = accepted; promoted_at = some now }) true)
  ]

  abbrev pub as_baseline : ℕ → Generation F → Generation F
  as_baseline now g = record g {
    lifecycle_status = accepted;
    validated_at = some now;
    promoted_at = some now;
    terminal_at = none;
    expected_base = none;
  }

  -- The INSERT of `bootstrap_analysis_generation`, ON CONFLICT (id) DO NOTHING.
  unfoldable pub insert_or_keep : List (Generation F) → Generation F → List (Generation F)
  unfolding find_generation
  insert_or_keep rows g = elim (find_generation rows g.id) [
    | none ↦ rows ++ g ∷ []
    | some kept ↦ rows
  ]

  -- `bootstrap_current_analysis` and `bootstrap_analysis_generation`, for the baseline row `g`: the
  -- database, and the identity of the current generation if it is of the same input and state.
  unfoldable pub bootstrap_current_analysis :
      Database F → ℕ → Generation F → Result F × Option String
  unfolding find_generation binding_of bind_current is_complete_analysis insert_or_keep
  bootstrap_current_analysis db now g =
      let row = as_baseline now g in
      if not (is_complete_analysis g.state)
      then (raised candidate_not_validated, none)
      else elim (binding_of db.current g.project_id g.decision_id) [
        | some current ↦ elim (find_generation db.generations current) [
          | none ↦ (raised database_error, none)
          | some c ↦
              if str_eq c.snapshot_id g.snapshot_id && str_eq c.state_sha256 g.state_sha256
              then (committed db, some current)
              else (committed db, none)
        ]
        | none ↦ (bind_current db row (some (insert_or_keep db.generations row)), some g.id)
      ]

  -- What `_accept_completed_analysis` does on the database after `create_candidate`: a candidate that
  -- is not validated or not promoted is abandoned as failed.
  abbrev pub database_after : Database F → Result F → Database F
  database_after db (committed d) = d
  database_after db (raised e) = db

  unfoldable pub settled : Result F → Database F → ℕ → String → Result F × Database F
  unfolding abandon_candidate
  settled (committed d) db now id = (committed d, d)
  settled (raised e) db now id = (raised e, database_after db (abandon_candidate db now id true))

  unfoldable pub promoted_or_failed :
      Result F → Database F → ℕ → String → Option String → Result F × Database F
  unfolding promote_candidate settled
  promoted_or_failed (committed d) db now id expected_base =
      settled (promote_candidate d now id expected_base) d now id
  promoted_or_failed (raised e) db now id expected_base = settled (raised e) db now id

  -- `_accept_completed_analysis` with the schema installed: its outcome, and the database after it.
  unfoldable pub accept_completed_analysis : Database F → ℕ → Generation F → Result F × Database F
  unfolding create_candidate validate_candidate promoted_or_failed settled
  accept_completed_analysis db now g = elim (create_candidate db g) [
    | raised e ↦ (raised e, db)
    | committed d ↦ promoted_or_failed (validate_candidate d now g.id) d now g.id g.expected_base
  ]
