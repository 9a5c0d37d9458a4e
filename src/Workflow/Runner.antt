-- ===== src/Workflow/Runner.antt =====
-- mas/orchestrator.py: what a round of the linear runner does to the other phases.
use v.Prelude.{
  if-elim, String, ◌≡◌, ◌≢◌, refl, ◌∙◌, true, false, not, ◌&&◌, none, List, [], ◌∷◌, str_eq, any,
  arith, eq_iff, Bool-cases, inl, inr,
}
use v.Prelude.Dict.{get}
use v.Prelude.Float.{FloatOps}
use v.Prelude.Texts.{one_of}
use v.Workflow.State.{running, failed, Workflow, status_of, is_completed, is_there, set_confidence}
use v.Workflow.Invalidation.{
  strategy_derived_phases, is_met, first_unfinished, invalidate_strategy_dependency_cone,
  missing_prerequisites,
}
use v.Workflow.Gate.{check_gate, is_structural}
use v.Workflow.Frame.{
  Agree, Agree-trans, Agree-refl, retold, if-Agree, set_status-Agree, gated_phase-Agree,
}
use v.Workflow.Clear.{Lost, Agree-Lost, Fewer-Lost, if-Lost}
use v.Workflow.Cone.{cone-Lost, cone-Agree, prerequisite_failure-Fewer, prerequisite_failure-Agree}
use v.Workflow.Reply.{Attempt, diagnostic, no_missing}
use v.Workflow.Phase.{replaced, run_phase_node}
use v.Workflow.Order.{spares}
use v.Workflow.Sequence.{
  Run, Turn, go_on, return_with, scored, blocked_by_gate, has_gate, pass_gate, entered, after_phase,
  turn,
}

module _ {F : Type 0} where
  abbrev pub state_of : Turn F → Workflow F
  state_of (go_on w) = w
  state_of (return_with w) = w

  -- The phase of a round that goes on is met.
  abbrev pub Passed : String → Turn F → Type 0
  Passed phase (go_on w) = is_met w phase ≡ true
  Passed phase (return_with w) = Unit

  -- Behind a phase that is not complete with output, none is.
  unfoldable pub Front : Workflow F → List String → Type 0
  Front w [] = Unit
  Front w (p ∷ ps) =
      (is_met w p ≡ false → (q : String) → one_of ps q ≡ true → is_met w q ≡ false) × Front w ps

  pub unmet-Front :
      (w : Workflow F) (ps : List String)
      → ((q : String) → one_of ps q ≡ true → is_met w q ≡ false)
      → Front w ps
  unfolding Front
  unmet-Front w [] h = tt
  unmet-Front w (p ∷ ps) h =
      (λ e q i. h q (ground (arith, i)), unmet-Front w ps (λ q i. h q (ground (arith, i))))

  pub met-Front : (w : Workflow F) (ps : List String) → first_unfinished w ps ≡ none → Front w ps
  unfolding Front first_unfinished
  met-Front w [] h = tt
  met-Front w (p ∷ ps) h =
      (λ e q i. absurd (ground (arith, h, e)), met-Front w ps (ground (arith, h)))

module _ {F : Type 0} ⦃fl : FloatOps F⦄ where
  replaced-Agree :
      (q : String) (sequence : List String) (w : Workflow F) (phase : String)
      → spares sequence q phase ≡ true
      → Agree q (replaced w phase) w
  replaced-Agree q sequence w phase s =
      if-elim (λ v. Agree q v w) (invalidate_strategy_dependency_cone w) w (str_eq phase "strategy")
        (λ e. cone-Agree q w (ground (arith, s, e)) (ground (arith, s, e, eq_iff "strategy" q)))
        (λ e. Agree-refl)

  -- One run of a phase leaves the phases that it spares as they are.
  run_phase_node-Agree :
      (q : String) (sequence : List String) (now : F) (a : Attempt F) (w : Workflow F)
      (phase : String)
      → spares sequence q phase ≡ true
      → Agree q (run_phase_node sequence now a w phase) w
  unfolding run_phase_node
  run_phase_node-Agree q sequence now a w phase s =
      let v = replaced w phase in
      let d : phase ≢ q = ground (arith, s, eq_iff phase q) in
      Agree-trans
        (if-Agree (no_missing (missing_prerequisites v phase)) (gated_phase-Agree now a v d) (
          prerequisite_failure-Agree q sequence v phase (diagnostic "prerequisite_failed") d
            (ground (arith, s))))
        (replaced-Agree q sequence w phase s)

  replaced-Lost :
      (q : String) (w : Workflow F) (phase : String)
      → phase ≢ q
      → Lost q w
      → Lost q (replaced w phase)
  replaced-Lost q w phase d h =
      if-elim (Lost q) (invalidate_strategy_dependency_cone w) w (str_eq phase "strategy")
        (λ e. elim (Bool-cases (one_of strategy_derived_phases q)) [
          | inl in_cone ↦ cone-Lost q w in_cone
          | inr out ↦ Agree-Lost (cone-Agree q w out (λ f. d (str-true e ∙ f))) h
        ])
        (λ e. h)
    where
      str-true : str_eq phase "strategy" ≡ true → phase ≡ "strategy"
      str-true e = ground (arith, e, eq_iff phase "strategy")

  -- A phase that is run gives no other phase an output.
  run_phase_node-Lost :
      (q : String) (sequence : List String) (now : F) (a : Attempt F) (w : Workflow F)
      (phase : String)
      → phase ≢ q
      → Lost q w
      → Lost q (run_phase_node sequence now a w phase)
  unfolding run_phase_node
  run_phase_node-Lost q sequence now a w phase d h =
      let v = replaced w phase in
      let gone = replaced-Lost q w phase d h in
      if-Lost (no_missing (missing_prerequisites v phase))
        (Agree-Lost (gated_phase-Agree now a v d) gone)
        (Fewer-Lost
          (prerequisite_failure-Fewer q sequence v phase (diagnostic "prerequisite_failed") d) gone)

  -- Only the phase itself is touched by the rest of a round.
  pub scored-Agree :
      (q : String) (run : Run F) (w : Workflow F) (phase : String) → Agree q (scored run w phase) w
  scored-Agree q run w phase =
      if-Agree (str_eq phase "strategy")
        (if-Agree (is_there (get w.outputs phase)) (retold Agree-refl refl refl) Agree-refl)
        (if-Agree (str_eq phase "sqi") (retold Agree-refl refl refl) Agree-refl)

  blocked-Agree :
      {q phase : String} (w : Workflow F) → phase ≢ q → Agree q (blocked_by_gate w phase) w
  blocked-Agree {q} {phase} w d =
      if-Agree (str_eq phase "") (set_status-Agree w failed d)
        (retold (set_status-Agree w failed d) refl refl)

  pass_gate-Agree :
      (q : String) (w : Workflow F) (phase : String)
      → phase ≢ q
      → Agree q (state_of (pass_gate w phase)) w
  unfolding pass_gate
  pass_gate-Agree q w phase d =
      let noted = set_confidence w phase (check_gate w phase).confidence in
      if-elim (λ t. Agree q (state_of t) w) _ _ (has_gate phase)
        (λ e.
          if-elim (λ t. Agree q (state_of t) w) _ _
            (not (check_gate w phase).passed && any is_structural (check_gate w phase).blocking)
            (λ f. Agree-trans (blocked-Agree noted d) (retold Agree-refl refl refl))
            (λ f. retold Agree-refl refl refl))
        (λ e. Agree-refl)

  after_phase-Agree :
      (q : String) (w : Workflow F) (phase : String)
      → phase ≢ q
      → Agree q (state_of (after_phase w phase)) w
  unfolding after_phase
  after_phase-Agree q w phase d =
      if-elim (λ t. Agree q (state_of t) w) _ _ (is_completed (status_of w phase))
        (λ e. pass_gate-Agree q w phase d) (λ e. Agree-refl)

  entered-Agree : {q phase : String} (w : Workflow F) → phase ≢ q → Agree q (entered w phase) w
  entered-Agree w d = retold (set_status-Agree w running d) refl refl

  pub turn-Agree :
      (q : String) (sequence : List String) (run : Run F) (w : Workflow F) (phase : String)
      → spares sequence q phase ≡ true
      → Agree q (state_of (turn sequence run w phase)) w
  unfolding turn
  turn-Agree q sequence run w phase s =
      let d : phase ≢ q = ground (arith, s, eq_iff phase q) in
      let inside = entered w phase in
      let ran = run_phase_node sequence run.now run.attempt inside phase in
      if-elim (λ t. Agree q (state_of t) w) _ _ (is_met w phase) (λ e. Agree-refl)
        (λ e. Agree-trans (after_phase-Agree q (scored run ran phase) phase d) (
          Agree-trans (scored-Agree q run ran phase) (
            Agree-trans (run_phase_node-Agree q sequence run.now run.attempt inside phase s)
              (entered-Agree w d))))

  pub turn-Lost :
      (q : String) (sequence : List String) (run : Run F) (w : Workflow F) (phase : String)
      → phase ≢ q
      → Lost q w
      → Lost q (state_of (turn sequence run w phase))
  unfolding turn
  turn-Lost q sequence run w phase d h =
      let inside = entered w phase in
      let ran = run_phase_node sequence run.now run.attempt inside phase in
      if-elim {A = Turn F} (λ t. Lost q (state_of t)) _ _ (is_met w phase) (λ e. h)
        (λ e. Agree-Lost (after_phase-Agree q (scored run ran phase) phase d) (
          Agree-Lost (scored-Agree q run ran phase) (
            run_phase_node-Lost q sequence run.now run.attempt inside phase d
              (Agree-Lost (entered-Agree w d) h))))
