-- ===== src/Generations/Promotion.antt =====
-- mas/state_coherence.py: runs of the operations, and what a promotion compares and swaps.
use v.Prelude.{
  ℕ, String, Bool, true, false, Option, some, List, [], ◌∷◌, ◌≡◌, refl, ap, subst, ◌∙◌, str_eq,
  arith, eq_iff, All, Bool-cases, Option-cases, inl, inr,
}
use v.Generations.Tables.{
  accepted, is_candidate, is_null, not_distinct, Generation, Database, binding_of, upsert,
  find_generation, replace, has_shape, guard_current_binding,
}
use v.Generations.Rows.{find-replace, find-id}
use v.Generations.Lifecycle.{
  committed, create_candidate, validate_candidate, abandon_candidate, binding_for, bind_current,
  promote_candidate, bootstrap_current_analysis, database_after, accept_completed_analysis,
}
use v.Generations.Steps.{
  Reach, here, Reach-trans, create-Reach, validate-Reach, abandon-Reach, promote-Reach,
  bootstrap-Reach, accept-Reach, database_after-Reach,
}
use v.Generations.Coherent.{IsCoherent, IsCoherent-Reach, Settled-Reach}

-- The operations, with their arguments and the reading of the clock.
pub data Call (F : Type 0) : Type 0 where
  creates : Generation F → Call F
  validates : ℕ → String → Call F
  abandons : ℕ → String → Bool → Call F
  promotes : ℕ → String → Option String → Call F
  bootstraps : ℕ → Generation F → Call F
  accepts : ℕ → Generation F → Call F

module _ {F : Type 0} where
  unfoldable pub perform : Database F → Call F → Database F
  unfolding create_candidate validate_candidate abandon_candidate promote_candidate
      bootstrap_current_analysis accept_completed_analysis
  perform db (creates g) = database_after db (create_candidate db g)
  perform db (validates now id) = database_after db (validate_candidate db now id)
  perform db (abandons now id is_failed) = database_after db (abandon_candidate db now id is_failed)
  perform db (promotes now id base) = database_after db (promote_candidate db now id base)
  perform db (bootstraps now g) = database_after db (bootstrap_current_analysis db now g).0
  perform db (accepts now g) = (accept_completed_analysis db now g).1

  unfoldable pub perform_all : Database F → List (Call F) → Database F
  unfolding perform
  perform_all db [] = db
  perform_all db (c ∷ cs) = perform_all (perform db c) cs

  perform-Reach : (db : Database F) (c : Call F) → Reach db (perform db c)
  unfolding perform
  perform-Reach db (creates g) = database_after-Reach db _ (create-Reach db g)
  perform-Reach db (validates now id) = database_after-Reach db _ (validate-Reach db now id)
  perform-Reach db (abandons now id is_failed) =
      database_after-Reach db _ (abandon-Reach db now id is_failed)
  perform-Reach db (promotes now id base) = database_after-Reach db _ (promote-Reach db now id base)
  perform-Reach db (bootstraps now g) = database_after-Reach db _ (bootstrap-Reach db now g)
  perform-Reach db (accepts now g) = accept-Reach db now g

  perform_all-Reach : (db : Database F) (cs : List (Call F)) → Reach db (perform_all db cs)
  unfolding perform_all
  perform_all-Reach db [] = here
  perform_all-Reach db (c ∷ cs) =
      Reach-trans db (perform db c) (perform_all (perform db c) cs) (perform-Reach db c)
        (perform_all-Reach (perform db c) cs)

  -- Any sequence of the operations keeps the tables coherent: every row has the instants of its
  -- status, every project and decision has one current generation at most, and that one is an
  -- accepted generation of them.
  pub perform_all-IsCoherent :
      (db : Database F) (cs : List (Call F)) → IsCoherent db → IsCoherent (perform_all db cs)
  perform_all-IsCoherent db cs h =
      IsCoherent-Reach db (perform_all db cs) (perform_all-Reach db cs) h

  -- A generation that is accepted, failed or aborted stays as it is under any sequence of the
  -- operations.
  pub perform_all-settled :
      (db : Database F) (cs : List (Call F)) (id : String) (g : Generation F)
      → is_candidate g.lifecycle_status ≡ false
      → find_generation db.generations id ≡ some g
      → find_generation (perform_all db cs).generations id ≡ some g
  perform_all-settled db cs id g n h =
      Settled-Reach db (perform_all db cs) id g (perform_all-Reach db cs) n h

  -- What a promotion of the generation `id` on the base asks for.
  pub record Promotable (db : Database F) (id : String) (base : Option String) : Type 0 where
    pub row : Generation F
    pub found : find_generation db.generations id ≡ some row
    pub waits : is_candidate row.lifecycle_status ≡ true
    pub validated : is_null row.validated_at ≡ false
    pub expected : not_distinct row.expected_base base ≡ true
    pub current : not_distinct (binding_of db.current row.project_id row.decision_id) base ≡ true

  found-shape :
      (rows : List (Generation F)) (id : String) (g : Generation F)
      → All (λ r. has_shape r ≡ true) rows
      → find_generation rows id ≡ some g
      → has_shape g ≡ true
  unfolding find_generation
  found-shape [] id g h f = absurd (ground (arith, f))
  found-shape (r ∷ rows) id g h f = elim (Bool-cases (str_eq r.id id)) [
    | inl e ↦ let same : r ≡ g = ground (arith, e, f) in subst (λ x. has_shape x ≡ true) same h.0
    | inr e ↦ found-shape rows id g h.1 (ground (arith, e, f))
  ]

  -- The row of a promotion.
  abbrev pub promoted_row : ℕ → Generation F → Generation F
  promoted_row now g = record g { lifecycle_status = accepted; promoted_at = some now }

  -- The database after one.
  abbrev pub promoted : Database F → ℕ → Generation F → Database F
  promoted db now g = record {
    generations = replace db.generations (promoted_row now g);
    current = upsert db.current (binding_for g);
  }

  not_ended :
      (g : Generation F)
      → has_shape g ≡ true
      → is_candidate g.lifecycle_status ≡ true
      → is_null g.terminal_at ≡ true
  unfolding has_shape
  not_ended g s c = ground (arith, s, c)

  guards :
      (rows : List (Generation F)) (now : ℕ) (g : Generation F)
      → find_generation rows g.id ≡ some g
      → guard_current_binding (replace rows (promoted_row now g)) (binding_for g) ≡ true
  unfolding guard_current_binding
  guards rows now g f =
      let found = find-replace rows (promoted_row now g) g.id in
      ground (
        arith,
        f,
        found,
        eq_iff g.id g.id,
        eq_iff g.project_id g.project_id,
        eq_iff g.decision_id g.decision_id,
      )

  pub promote-committed :
      (db : Database F) (now : ℕ) (id : String) (base : Option String)
      → IsCoherent db
      → (p : Promotable db id base)
      → promote_candidate db now id base ≡ committed (promoted db now p.row)
  unfolding promote_candidate bind_current
  promote-committed db now id base h p =
      let g : Generation F = p.row in
      let found : find_generation db.generations g.id ≡ some g =
        ap (find_generation db.generations) (find-id db.generations id g p.found) ∙ p.found in
      let shape = found-shape db.generations id g h.shaped p.found in
      rw
        (
          p.found,
          promote_candidate,
          p.waits,
          p.validated,
          p.expected,
          p.current,
          not_ended g shape p.waits,
          guards db.generations now g found,
        )
        refl

  pub promote-asks :
      (db d : Database F) (now : ℕ) (id : String) (base : Option String)
      → promote_candidate db now id base ≡ committed d
      → Promotable db id base
  unfolding promote_candidate
  promote-asks db d now id base h = elim (Option-cases (find_generation db.generations id)) [
    | inl e ↦ absurd (ground (arith, e, h))
    | inr (g, e) ↦ record {
      row = g;
      found = e;
      waits = ground (arith, e, h);
      validated = ground (arith, e, h);
      expected = ground (arith, e, h);
      current = ground (arith, e, h);
    }
  ]
