-- ===== src/Generations/Steps.antt =====
-- mas/state_coherence.py: every operation is a sequence of writes of the three kinds of
-- `Reach`.
use v.Prelude.{
  ℕ, String, Bool, true, false, Option, none, some, List, [], ◌∷◌, ◌++◌, ◌≡◌, refl, ap, ◌∙◌, not,
  ◌&&◌, str_eq, arith, Bool-cases, Option-cases, inl, inr, if◌then◌else◌, if-elim,
}
use v.Generations.Tables.{
  accepted, failed, aborted, is_candidate, is_null, not_distinct, Generation, CurrentBinding,
  Database, binding_of, upsert, find_generation, replace, has_shape, guard_current_binding,
  guard_generation_mutation, update_generation, is_complete_analysis,
}
use v.Generations.Rows.{find-id}
use v.Generations.Lifecycle.{
  Result, committed, raised, create_candidate, written, validate_candidate, abandon_candidate,
  binding_for, bind_current, promote_candidate, insert_or_keep, bootstrap_current_analysis,
  as_candidate, as_baseline, base_in_scope, database_after, settled, promoted_or_failed,
  accept_completed_analysis,
}

module _ {F : Type 0} where
  -- The databases that come from `db` by inserting rows of ids that are not there, by updating rows
  -- that are candidates, and by binding a scope to an accepted row of it.
  pub data Reach (db : Database F) : Database F → Type 0 where
    here : Reach db db
    inserted :
        {d : Database F} (c : Database F) (g : Generation F)
        → Reach db c
        → find_generation c.generations g.id ≡ none
        → has_shape g ≡ true
        → d ≡ record c { generations = c.generations ++ g ∷ [] }
        → Reach db d
    updated :
        {d : Database F} (c : Database F) (old new : Generation F)
        → Reach db c
        → find_generation c.generations new.id ≡ some old
        → is_candidate old.lifecycle_status ≡ true
        → has_shape new ≡ true
        → d ≡ record c { generations = replace c.generations new }
        → Reach db d
    bound_to :
        {d : Database F} (c : Database F) (b : CurrentBinding)
        → Reach db c
        → guard_current_binding c.generations b ≡ true
        → d ≡ record c { current = upsert c.current b }
        → Reach db d

  pub Reach-trans : (a b c : Database F) → Reach a b → Reach b c → Reach a c
  Reach-trans a b c r here = r
  Reach-trans a b c r (inserted d g s f h e) = inserted d g (Reach-trans a b d r s) f h e
  Reach-trans a b c r (updated d old new s f w h e) =
      updated d old new (Reach-trans a b d r s) f w h e
  Reach-trans a b c r (bound_to d x s g e) = bound_to d x (Reach-trans a b d r s) g e

  abbrev pub Reaches : Database F → Result F → Type 0
  Reaches db (committed d) = Reach db d
  Reaches db (raised e) = Unit

  update-rows :
      (db : Database F) (old new : Generation F) (same : Bool) (rows : List (Generation F))
      → find_generation db.generations new.id ≡ some old
      → update_generation db.generations old new same ≡ some rows
      → Reach db (record db { generations = rows })
  unfolding update_generation guard_generation_mutation
  update-rows db old new same rows f u =
      elim (Bool-cases (guard_generation_mutation old new same && has_shape new)) [
        | inr e ↦ absurd (ground (arith, e, u))
        | inl e ↦
            updated db old new here f (ground (arith, e)) (ground (arith, e)) (ground (arith, e, u))
      ]

  written-Reach :
      (db : Database F) (old new : Generation F) (same : Bool)
      → find_generation db.generations new.id ≡ some old
      → Reaches db (written db (update_generation db.generations old new same))
  written-Reach db old new same f =
      elim (Option-cases (update_generation db.generations old new same)) [
        | inl e ↦ rw e tt
        | inr (rows, e) ↦ rw e (update-rows db old new same rows f e)
      ]

  bind-Reach :
      (db : Database F) (g : Generation F) (rows : List (Generation F))
      → Reach db (record db { generations = rows })
      → Reaches db (bind_current db g (some rows))
  unfolding bind_current
  bind-Reach db g rows r =
      if-elim (Reaches db) _ _ (guard_current_binding rows (binding_for g))
        (λ e. bound_to (record db { generations = rows }) (binding_for g) r e refl) (λ e. tt)

  pub create-Reach : (db : Database F) (g : Generation F) → Reaches db (create_candidate db g)
  unfolding create_candidate has_shape
  create-Reach db g = elim (Option-cases (find_generation db.generations g.id)) [
    | inr (taken, e) ↦ rw (e, create_candidate) tt
    | inl e ↦
        let row : Generation F = as_candidate g in
        let kept : Reach db (record db { generations = db.generations ++ row ∷ [] }) =
          inserted db row here e refl refl in
        rw (e, create_candidate)
          (if-elim (Reaches db) _ _ (base_in_scope db.generations row) (λ s. kept) (λ s. tt))
  ]

  pub validate-Reach :
      (db : Database F) (now : ℕ) (id : String) → Reaches db (validate_candidate db now id)
  unfolding validate_candidate
  validate-Reach db now id = elim (Option-cases (find_generation db.generations id)) [
    | inl e ↦ rw (e, validate_candidate) tt
    | inr (g, e) ↦
        let found : find_generation db.generations g.id ≡ some g =
          ap (find_generation db.generations) (find-id db.generations id g e) ∙ e in
        rw (e, validate_candidate)
          (if-elim (Reaches db) _ _ (not (is_candidate g.lifecycle_status)) (λ f. tt)
            (λ f.
              if-elim (Reaches db) _ _ (not (is_complete_analysis g.state)) (λ c. tt)
                (λ c. written-Reach db g (record g { validated_at = some now }) false found)))
  ]

  pub abandon-Reach :
      (db : Database F) (now : ℕ) (id : String) (is_failed : Bool)
      → Reaches db (abandon_candidate db now id is_failed)
  unfolding abandon_candidate
  abandon-Reach db now id is_failed = elim (Option-cases (find_generation db.generations id)) [
    | inl e ↦ rw (e, abandon_candidate) tt
    | inr (g, e) ↦
        let found : find_generation db.generations g.id ≡ some g =
          ap (find_generation db.generations) (find-id db.generations id g e) ∙ e in
        let new : Generation F = record g {
          lifecycle_status = if is_failed then failed else aborted;
          terminal_at = some now;
        } in
        rw (e, abandon_candidate)
          (if-elim (Reaches db) _ _ (not (is_candidate g.lifecycle_status)) (λ f. tt)
            (λ f. written-Reach db g new true found))
  ]

  bind-updated :
      (db : Database F) (g old new : Generation F) (same : Bool)
      → find_generation db.generations new.id ≡ some old
      → Reaches db (bind_current db g (update_generation db.generations old new same))
  unfolding bind_current
  bind-updated db g old new same f =
      elim (Option-cases (update_generation db.generations old new same)) [
        | inl e ↦ rw (e, bind_current) tt
        | inr (rows, e) ↦ rw e (bind-Reach db g rows (update-rows db old new same rows f e))
      ]

  pub promote-Reach :
      (db : Database F) (now : ℕ) (id : String) (expected_base : Option String)
      → Reaches db (promote_candidate db now id expected_base)
  unfolding promote_candidate
  promote-Reach db now id expected_base = elim (Option-cases (find_generation db.generations id)) [
    | inl e ↦ rw (e, promote_candidate) tt
    | inr (g, e) ↦
        let found : find_generation db.generations g.id ≡ some g =
          ap (find_generation db.generations) (find-id db.generations id g e) ∙ e in
        let new : Generation F = record g { lifecycle_status = accepted; promoted_at = some now } in
        rw (e, promote_candidate)
          (if-elim (Reaches db) _ _ (not (is_candidate g.lifecycle_status)) (λ a. tt)
            (λ a.
              if-elim (Reaches db) _ _ (is_null g.validated_at) (λ b. tt)
                (λ b.
                  if-elim (Reaches db) _ _ (not (not_distinct g.expected_base expected_base))
                    (λ c. tt)
                    (λ c.
                      if-elim (Reaches db) _ _
                        (not (
                          not_distinct (binding_of db.current g.project_id g.decision_id)
                            expected_base))
                        (λ d. tt) (λ d. bind-updated db g g new true found)))))
  ]

  insert-Reach :
      (db : Database F) (g : Generation F)
      → has_shape g ≡ true
      → Reach db (record db { generations = insert_or_keep db.generations g })
  unfolding insert_or_keep
  insert-Reach db g s = elim (Option-cases (find_generation db.generations g.id)) [
    | inr (kept, e) ↦ rw (e, insert_or_keep) here
    | inl e ↦ rw (e, insert_or_keep) (inserted db g here e s refl)
  ]

  pub bootstrap-Reach :
      (db : Database F) (now : ℕ) (g : Generation F)
      → Reaches db (bootstrap_current_analysis db now g).0
  unfolding bootstrap_current_analysis has_shape
  bootstrap-Reach db now g =
      let kept =
        bind-Reach db (as_baseline now g) (insert_or_keep db.generations (as_baseline now g))
          (insert-Reach db (as_baseline now g) refl) in
      if-elim (λ (r : Result F × Option String). Reaches db r.0) _ _
        (not (is_complete_analysis g.state)) (λ e. tt)
        (λ e. elim (Option-cases (binding_of db.current g.project_id g.decision_id)) [
          | inl none_yet ↦ rw none_yet kept
          | inr (current, f) ↦ elim (Option-cases (find_generation db.generations current)) [
            | inl lost ↦ rw (f, lost) tt
            | inr (c, found) ↦
                rw (f, found)
                  (if-elim (λ (r : Result F × Option String). Reaches db r.0) _ _
                    (str_eq c.snapshot_id g.snapshot_id && str_eq c.state_sha256 g.state_sha256)
                    (λ s. here) (λ s. here))
          ]
        ])

  pub database_after-Reach :
      (db : Database F) (r : Result F) → Reaches db r → Reach db (database_after db r)
  database_after-Reach db (committed d) k = k
  database_after-Reach db (raised e) k = here

  settled-Reach :
      (r : Result F) (db : Database F) (now : ℕ) (id : String)
      → Reaches db r
      → Reach db (settled r db now id).1
  unfolding settled
  settled-Reach (committed d) db now id k = k
  settled-Reach (raised e) db now id k =
      database_after-Reach db (abandon_candidate db now id true) (abandon-Reach db now id true)

  promoted-Reach :
      (r : Result F) (db : Database F) (now : ℕ) (id : String) (base : Option String)
      → Reaches db r
      → Reach db (promoted_or_failed r db now id base).1
  unfolding promoted_or_failed settled
  promoted-Reach (committed d) db now id base k =
      step (promote_candidate d now id base)
        (settled-Reach (promote_candidate d now id base) d now id (promote-Reach d now id base))
    where
      step : (r : Result F) → Reach d (settled r d now id).1 → Reach db (settled r d now id).1
      step r s = Reach-trans db d (settled r d now id).1 k s
  promoted-Reach (raised e) db now id base k = settled-Reach (raised e) db now id tt

  pub accept-Reach :
      (db : Database F) (now : ℕ) (g : Generation F)
      → Reach db (accept_completed_analysis db now g).1
  unfolding accept_completed_analysis
  accept-Reach db now g = go (create_candidate db g) (create-Reach db g)
    where
      go :
          (r : Result F)
          → Reaches db r
          → Reach db (
              let z : Result F × Database F = elim r [
                | raised e ↦ (raised e, db)
                | committed d ↦
                    promoted_or_failed (validate_candidate d now g.id) d now g.id g.expected_base
              ] in
              z.1)
      go (raised e) k = here
      go (committed d) k =
          Reach-trans db d
            (promoted_or_failed (validate_candidate d now g.id) d now g.id g.expected_base).1 k
            (promoted-Reach (validate_candidate d now g.id) d now g.id g.expected_base
              (validate-Reach d now g.id))
