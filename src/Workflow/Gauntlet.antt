-- ===== src/Workflow/Gauntlet.antt =====
-- mas/orchestrator.py: where the graph goes behind a node of the hypotheses that ran the gauntlet.
use v.Prelude.{
  String, ◌≡◌, refl, sym, Bool, true, false, none, List, str_eq, if◌then◌else◌, if-elim, arith,
  eq_iff, subst,
}
use v.Prelude.Dict.{Dict, get, put, get-put}
use v.Prelude.Float.{FloatOps}
use v.Policy.PhaseRun.{enter_phase}
use v.Workflow.State.{PhaseStatus, running, failed, Workflow, is_completed, status_of, set_status}
use v.Workflow.Invalidation.{missing_prerequisites}
use v.Workflow.Reply.{Attempt}
use v.Workflow.Phase.{sanitized_first, gated_phase, run_phase_node}
use v.Workflow.Graph.{
  is_failed, at_least, hypotheses_gate_edges, hypotheses_node, convergence_gate_node,
  route_after_gate,
}
use v.Workflow.Entered.{started_phase-Here, enter-current}
use v.Workflow.Routes.{route_after_gate-gauntlet}

module _ {F : Type 0} where
  -- A phase that is COMPLETED is the current one.
  record IsCurrent (phase : String) (w : Workflow F) : Type 0 where
    current : is_completed (status_of w phase) ≡ true → w.policy.current_phase ≡ phase

  failed-IsCurrent :
      {phase : String} {v : Workflow F} (d : Dict PhaseStatus)
      → v.phase_status ≡ put d phase failed
      → IsCurrent phase v
  failed-IsCurrent {phase} {v} d e = record {
    current = λ h. absurd (ground (arith, h, e, get-put d phase phase failed, eq_iff phase phase));
  }

  if-IsCurrent :
      {phase : String} {u v : Workflow F} (b : Bool)
      → IsCurrent phase u
      → IsCurrent phase v
      → IsCurrent phase (if b then u else v)
  if-IsCurrent true h k = h
  if-IsCurrent false h k = k

  completed-other :
      (w : Workflow F) (phase : String)
      → is_completed (status_of w phase) ≡ true
      → is_failed (get w.phase_status phase) ≡ false
  completed-other w phase h = ground (arith, h)

module _ {F : Type 0} ⦃fl : FloatOps F⦄ where
  gated_phase-IsCurrent :
      (now : F) (a : Attempt F) (w : Workflow F) (phase : String)
      → IsCurrent phase (gated_phase now a w phase)
  unfolding gated_phase
  gated_phase-IsCurrent now a w phase =
      let noted = sanitized_first now a w phase in
      let gate = enter_phase now noted.policy phase in
      let inside = set_status (record noted { policy = gate.0 }) phase running in
      if-elim {A = Workflow F} (IsCurrent phase) _ _ gate.1.allowed
        (λ e. record {
          current = λ h.
              (started_phase-Here now a inside phase
                (record { here = enter-current now noted.policy phase e })).here;
        })
        (λ e. if-IsCurrent (str_eq phase "") (failed-IsCurrent _ refl) (failed-IsCurrent _ refl))

  gauntlet-gated :
      (sequence : List String) (now : F) (a : Attempt F) (w : Workflow F)
      → run_phase_node sequence now a w "gauntlet" ≡ gated_phase now a w "gauntlet"
  unfolding run_phase_node missing_prerequisites
  gauntlet-gated sequence now a w = refl

  ran-gauntlet :
      (sequence : List String) (now : F) (first second : Attempt F) (w : Workflow F)
      → at_least 3 (get (run_phase_node sequence now first w "hypotheses").outputs "hypotheses")
        ≡ true
      → hypotheses_node sequence now first second w
        ≡ gated_phase now second (run_phase_node sequence now first w "hypotheses") "gauntlet"
  unfolding hypotheses_node
  ran-gauntlet sequence now first second w h =
      let ran = run_phase_node sequence now first w "hypotheses" in
      if-elim {A = Workflow F} (λ v. v ≡ gated_phase now second ran "gauntlet")
        (run_phase_node sequence now second ran "gauntlet") ran
        (at_least 3 (get ran.outputs "hypotheses")) (λ e. gauntlet-gated sequence now second ran)
        (λ e. absurd (ground (arith, h, e)))

  routed :
      (v : Workflow F)
      → v.policy.current_phase ≡ "gauntlet"
      → is_failed (get v.phase_status "gauntlet") ≡ false
      → get hypotheses_gate_edges (route_after_gate (convergence_gate_node v)).1 ≡ none
  unfolding convergence_gate_node
  routed v c f = (route_after_gate-gauntlet (convergence_gate_node v) c f).1

  -- If the node of the hypotheses has three or more and its gauntlet completes, the graph has nowhere
  -- to go: the gauntlet is then the current phase, it has no gate and is no phase of PHASE_ORDER, and
  -- what the routing behind the gate returns is no key of the conditional edges of that gate.
  pub hypotheses_node-gauntlet :
      (sequence : List String) (now : F) (first second : Attempt F) (w : Workflow F)
      → at_least 3 (get (run_phase_node sequence now first w "hypotheses").outputs "hypotheses")
        ≡ true
      → is_completed (status_of (hypotheses_node sequence now first second w) "gauntlet") ≡ true
      → get hypotheses_gate_edges
          (route_after_gate (convergence_gate_node (hypotheses_node sequence now first second w))).1
        ≡ none
  hypotheses_node-gauntlet sequence now first second w h c =
      let ran = run_phase_node sequence now first w "hypotheses" in
      let at_end : IsCurrent "gauntlet" (hypotheses_node sequence now first second w) =
        subst (IsCurrent "gauntlet") (sym (ran-gauntlet sequence now first second w h))
          (gated_phase-IsCurrent now second ran "gauntlet") in
      routed (hypotheses_node sequence now first second w) (at_end.current c)
        (completed-other (hypotheses_node sequence now first second w) "gauntlet" c)
