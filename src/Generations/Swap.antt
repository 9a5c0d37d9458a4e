-- ===== src/Generations/Swap.antt =====
-- mas/state_coherence.py: a promotion is a compare-and-swap of the current generation.
use v.Prelude.{
  ℕ, String, true, false, Option, none, some, List, [], ◌∷◌, ◌≡◌, ◌↔◌, refl, sym, ap, ◌∙◌, str_eq,
  arith, eq_iff, All, Bool-cases, Option-cases, inl, inr,
}
use v.Generations.Tables.{
  is_candidate, is_accepted, not_distinct, Generation, CurrentBinding, Database, at_scope,
  binding_of, upsert, find_generation, guard_current_binding,
}
use v.Generations.Rows.{find-id, binding_of-upsert}
use v.Generations.Lifecycle.{Result, committed, raised, has_raised, binding_for, promote_candidate}
use v.Generations.Coherent.{IsCoherent}
use v.Generations.Promotion.{Promotable, promoted, promote-committed, promote-asks}

distinct_from :
    (a : String) (o base : Option String)
    → not_distinct (some a) base ≡ true
    → not_distinct o base ≡ true
    → not_distinct o (some a) ≡ true
distinct_from a none none h k = ground (arith, h)
distinct_from a none (some c) h k = ground (arith, k)
distinct_from a (some x) none h k = ground (arith, h)
distinct_from a (some x) (some c) h k = ground (arith, h, k, eq_iff a c, eq_iff x c, eq_iff x a)

module _ {F : Type 0} where
  -- Of coherent tables a promotion succeeds exactly if its row is a validated candidate that was
  -- made on the base and the base is the current generation of its project and decision.
  pub promote_candidate_iff :
      (db : Database F) (now : ℕ) (id : String) (base : Option String)
      → IsCoherent db
      → ((d : Database F) × (promote_candidate db now id base ≡ committed d))
        ↔ Promotable db id base
  promote_candidate_iff db now id base h = (
    λ s. promote-asks db s.0 now id base s.1,
    λ p. (promoted db now p.row, promote-committed db now id base h p),
  )

  committed-injective : (c d : Database F) → committed c ≡ committed d → c ≡ d
  committed-injective c d h = ground (arith, h)

  -- The current generation of a scope is accepted.
  bound-accepted :
      (rows : List (Generation F)) (bs : List CurrentBinding) (project decision id : String)
      → All (λ b. guard_current_binding rows b ≡ true) bs
      → binding_of bs project decision ≡ some id
      → (g : Generation F) × (find_generation rows id ≡ some g)
        × (is_accepted g.lifecycle_status ≡ true)
  unfolding binding_of guard_current_binding
  bound-accepted rows [] project decision id h e = absurd (ground (arith, e))
  bound-accepted rows (b ∷ bs) project decision id h e =
      elim (Bool-cases (at_scope project decision b)) [
        | inr f ↦ bound-accepted rows bs project decision id h.1 (ground (arith, e, f))
        | inl f ↦
            let same : b.generation_id ≡ id = ground (arith, e, f) in
            elim (Option-cases (find_generation rows b.generation_id)) [
              | inl lost ↦ absurd (ground (arith, h.0, lost))
              | inr (g, found) ↦
                  (g, ap (find_generation rows) (sym same) ∙ found, ground (arith, h.0, found))
            ]
      ]

  -- A candidate is not the current generation of any scope.
  candidate-unbound :
      (db : Database F) (project decision id : String) (g : Generation F)
      → IsCoherent db
      → find_generation db.generations id ≡ some g
      → is_candidate g.lifecycle_status ≡ true
      → not_distinct (binding_of db.current project decision) (some id) ≡ false
  candidate-unbound db project decision id g h f c =
      elim (Option-cases (binding_of db.current project decision)) [
        | inl e ↦ ground (arith, e)
        | inr (current, e) ↦
            let a = bound-accepted db.generations db.current project decision current h.bound e in
            elim (Bool-cases (str_eq current id)) [
              | inr other ↦ ground (arith, e, other)
              | inl same ↦
                  let one : some a.0 ≡ some g =
                    sym a.1
                    ∙ ap (find_generation db.generations) ((eq_iff current id).0 same)
                    ∙ f in
                  absurd (clash a.0 g one a.2 c)
            ]
      ]
    where
      clash :
          (x y : Generation F)
          → some x ≡ some y
          → is_accepted x.lifecycle_status ≡ true
          → is_candidate y.lifecycle_status ≡ true
          → ⊥
      clash x y e a b = ground (arith, e, a, b)

  scope_of :
      (bs : List CurrentBinding) (g : Generation F) (project decision : String)
      → project ≡ g.project_id
      → decision ≡ g.decision_id
      → binding_of (upsert bs (binding_for g)) project decision ≡ some g.id
  scope_of bs g project decision p q =
      let after = binding_of-upsert bs (binding_for g) project decision in
      ground (arith, p, q, after, eq_iff g.project_id project, eq_iff g.decision_id decision)

  second-promotion :
      (db d e : Database F) (now later : ℕ) (id other : String) (base : Option String)
      (g r : Generation F)
      → IsCoherent db
      → promote_candidate db now id base ≡ committed d
      → find_generation db.generations id ≡ some g
      → find_generation d.generations other ≡ some r
      → r.project_id ≡ g.project_id
      → r.decision_id ≡ g.decision_id
      → promote_candidate d later other base ≡ committed e
      → ⊥
  second-promotion db d e now later id other base g r h first found seen project decision second =
      let p = promote-asks db d now id base first in
      let q = promote-asks d e later other base second in
      let done =
        committed-injective (promoted db now p.row) d
          (sym (promote-committed db now id base h p) ∙ first) in
      let row : p.row ≡ g = ground (arith, p.found, found) in
      let other_row : q.row ≡ r = ground (arith, q.found, seen) in
      let bound : binding_of d.current q.row.project_id q.row.decision_id ≡ some p.row.id =
        ap (λ (x : Database F). binding_of x.current q.row.project_id q.row.decision_id) (sym done)
        ∙ scope_of db.current p.row q.row.project_id q.row.decision_id
            (ground (arith, row, other_row, project)) (ground (arith, row, other_row, decision)) in
      let same : find_generation db.generations p.row.id ≡ some p.row =
        ap (find_generation db.generations) (find-id db.generations id p.row p.found) ∙ p.found in
      let free =
        candidate-unbound db p.row.project_id p.row.decision_id p.row.id p.row h same p.waits in
      let now_current : not_distinct (some p.row.id) base ≡ true =
        ap (λ o. not_distinct o base) (sym bound) ∙ q.current in
      let was_current =
        distinct_from p.row.id (binding_of db.current p.row.project_id p.row.decision_id) base
          now_current p.current in
      absurd (ground (arith, free, was_current))

  -- Of the candidates of a project and decision that were made on one base, one is promoted: if the
  -- tables are coherent and the promotion of `id` on the base commits, the promotion on the same
  -- base of any generation of the same project and decision raises on the tables after it.
  pub promote_candidate-once :
      (db d : Database F) (now later : ℕ) (id other : String) (base : Option String)
      (g r : Generation F)
      → IsCoherent db
      → promote_candidate db now id base ≡ committed d
      → find_generation db.generations id ≡ some g
      → find_generation d.generations other ≡ some r
      → r.project_id ≡ g.project_id
      → r.decision_id ≡ g.decision_id
      → has_raised (promote_candidate d later other base) ≡ true
  promote_candidate-once db d now later id other base g r h first found seen project decision =
      go (promote_candidate d later other base) refl
    where
      go : (x : Result F) → promote_candidate d later other base ≡ x → has_raised x ≡ true
      go (raised e) second = refl
      go (committed e) second = absurd (
          second-promotion db d e now later id other base g r h first found seen project decision
            second)
