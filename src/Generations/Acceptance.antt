-- ===== src/Generations/Acceptance.antt =====
-- mas/api.py: what `_accept_completed_analysis` does to the current generations.
use v.Prelude.{
  ℕ, String, Bool, true, Option, none, some, List, [], ◌∷◌, ◌≡◌, refl, ◌∙◌, not, arith,
  Option-cases, inl, inr, if-elim,
}
use v.Generations.Tables.{is_candidate, Generation, Database, find_generation, is_complete_analysis}
use v.Workflow.State.{Workflow}
use v.Workflow.Invalidation.{first_unfinished, is_workflow_complete}
use v.Generations.Lifecycle.{
  Result, committed, raised, has_raised, create_candidate, base_in_scope, as_candidate, written,
  validate_candidate, abandon_candidate, promote_candidate, database_after, settled,
  promoted_or_failed, accept_completed_analysis,
}

module _ {F : Type 0} where
  -- The result leaves the current generations as they were.
  abbrev SameCurrent : Database F → Result F → Type 0
  SameCurrent db (committed d) = d.current ≡ db.current
  SameCurrent db (raised e) = Unit

  written-SameCurrent :
      (db : Database F) (o : Option (List (Generation F))) → SameCurrent db (written db o)
  written-SameCurrent db none = tt
  written-SameCurrent db (some rows) = refl

  create-SameCurrent : (db : Database F) (g : Generation F) → SameCurrent db (create_candidate db g)
  unfolding create_candidate
  create-SameCurrent db g = elim (Option-cases (find_generation db.generations g.id)) [
    | inr (taken, e) ↦ rw (e, create_candidate) tt
    | inl e ↦
        rw (e, create_candidate)
          (if-elim (SameCurrent db) _ _ (base_in_scope db.generations (as_candidate g)) (λ s. refl)
            (λ s. tt))
  ]

  validate-SameCurrent :
      (db : Database F) (now : ℕ) (id : String) → SameCurrent db (validate_candidate db now id)
  unfolding validate_candidate
  validate-SameCurrent db now id = elim (Option-cases (find_generation db.generations id)) [
    | inl e ↦ rw (e, validate_candidate) tt
    | inr (g, e) ↦
        rw (e, validate_candidate)
          (if-elim (SameCurrent db) _ _ (not (is_candidate g.lifecycle_status)) (λ f. tt)
            (λ f.
              if-elim (SameCurrent db) _ _ (not (is_complete_analysis g.state)) (λ c. tt)
                (λ c. written-SameCurrent db _)))
  ]

  abandon-SameCurrent :
      (db : Database F) (now : ℕ) (id : String) (is_failed : Bool)
      → SameCurrent db (abandon_candidate db now id is_failed)
  unfolding abandon_candidate
  abandon-SameCurrent db now id is_failed =
      elim (Option-cases (find_generation db.generations id)) [
        | inl e ↦ rw (e, abandon_candidate) tt
        | inr (g, e) ↦
            rw (e, abandon_candidate)
              (if-elim (SameCurrent db) _ _ (not (is_candidate g.lifecycle_status)) (λ f. tt)
                (λ f. written-SameCurrent db _))
      ]

  after-SameCurrent :
      (db : Database F) (r : Result F)
      → SameCurrent db r
      → (database_after db r).current ≡ db.current
  after-SameCurrent db (committed d) h = h
  after-SameCurrent db (raised e) h = refl

  settled-current :
      (r : Result F) (db : Database F) (now : ℕ) (id : String)
      → has_raised (settled r db now id).0 ≡ true
      → (settled r db now id).1.current ≡ db.current
  unfolding settled
  settled-current (committed d) db now id h = absurd (ground (arith, h))
  settled-current (raised e) db now id h =
      after-SameCurrent db (abandon_candidate db now id true) (abandon-SameCurrent db now id true)

  promoted-current :
      (r : Result F) (db : Database F) (now : ℕ) (id : String) (base : Option String)
      → SameCurrent db r
      → has_raised (promoted_or_failed r db now id base).0 ≡ true
      → (promoted_or_failed r db now id base).1.current ≡ db.current
  unfolding promoted_or_failed
  promoted-current (committed d) db now id base s h =
      settled-current (promote_candidate d now id base) d now id h ∙ s
  promoted-current (raised e) db now id base s h = settled-current (raised e) db now id h

  -- Accepting a completed analysis that raises, at the insert, the validation or the promotion,
  -- leaves the current generation of every project and decision as it was.
  pub accept_completed_analysis-raised :
      (db : Database F) (now : ℕ) (g : Generation F)
      → has_raised (accept_completed_analysis db now g).0 ≡ true
      → (accept_completed_analysis db now g).1.current ≡ db.current
  unfolding accept_completed_analysis
  accept_completed_analysis-raised db now g h =
      go (create_candidate db g) (create-SameCurrent db g) h
    where
      go :
          (r : Result F)
          → SameCurrent db r
          → (let z : Result F × Database F = elim r [
            | raised e ↦ (raised e, db)
            | committed d ↦
                promoted_or_failed (validate_candidate d now g.id) d now g.id g.expected_base
          ] in
              has_raised z.0 ≡ true → z.1.current ≡ db.current)
      go (raised e) s h = refl
      go (committed d) s h =
          promoted-current (validate_candidate d now g.id) d now g.id g.expected_base
            (validate-SameCurrent d now g.id) h
          ∙ s

  -- `is_complete_analysis` says of a state what `is_workflow_complete` of the orchestrator says.
  pub is_complete_analysis-is_workflow_complete :
      (w : Workflow F) (sequence : List String)
      → is_complete_analysis (record { workflow = w; sequence = sequence })
        ≡ is_workflow_complete w sequence
  unfolding is_complete_analysis is_workflow_complete first_unfinished
  is_complete_analysis-is_workflow_complete w [] = refl
  is_complete_analysis-is_workflow_complete w (p ∷ ps) =
      ground (arith, is_complete_analysis-is_workflow_complete w ps)
