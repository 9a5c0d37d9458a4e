-- ===== src/Workflow/Fired.antt =====
-- mas/orchestrator.py: `run_phase_node` leaves the list of the triggers that have fired as it is.
use v.Prelude.{String, not, ◌&&◌, ◌||◌, Option, none, some, List, str_eq, if◌then◌else◌}
use v.Prelude.Float.{FloatOps}
use v.Policy.PhaseRun.{enter_phase}
use v.Workflow.State.{
  PhaseStatus, PhaseFailureDiagnostic, Workflow, is_there, phase_has_output, set_status,
}
use v.Workflow.Invalidation.{
  strategy_derived_phases, invalidate_strategy_dependency_cone, missing_prerequisites,
}
use v.Workflow.Reply.{
  populates, keeps, raises, Parsed, unparsed, misshaped, payload, Reply, Attempt, Candidate,
  candidate, unusable, is_readiness, is_known, evidence_checked, diagnostic, no_missing,
}
use v.Workflow.Phase.{
  meter, keep_raw, populate, accept, reject, chosen, retries_parse, stored_repair, store_candidate,
  store_json, store_report, summarize, kept_strategy, call_phase, called, started_phase,
  sanitized_first, noted_findings, gated_phase, replaced, run_phase_node,
}
use v.Workflow.Listed.{
  HasFired, if-HasFired, fail_phase-HasFired, drop_all-HasFired, prerequisite_failure-HasFired,
}

module _ {F : Type 0} ⦃fl : FloatOps F⦄ {ts : List String} where
  replaced-HasFired :
      (w : Workflow F) (phase : String) → HasFired ts w → HasFired ts (replaced w phase)
  unfolding invalidate_strategy_dependency_cone
  replaced-HasFired w phase h =
      if-HasFired _ _ (str_eq phase "strategy") (drop_all-HasFired w strategy_derived_phases h) h

  keep_raw-HasFired :
      (w : Workflow F) (phase t : String) → HasFired ts w → HasFired ts (keep_raw w phase t)
  keep_raw-HasFired w phase t h =
      if-HasFired _ _ (str_eq phase "audit") h (if-HasFired _ _ (str_eq phase "strategy") h h)

  meter-HasFired :
      (now : F) (w : Workflow F) (r : Reply F) → HasFired ts w → HasFired ts (meter now w r)
  unfolding meter
  meter-HasFired now w r h = h

  reject-HasFired :
      (w : Workflow F) (phase : String) (r : Reply F) (f : PhaseFailureDiagnostic)
      → HasFired ts w
      → HasFired ts (reject w phase r f)
  unfolding reject
  reject-HasFired w phase r f h =
      fail_phase-HasFired (keep_raw w phase r.reply_text) phase f
        (keep_raw-HasFired w phase r.reply_text h)

  accept-HasFired :
      (a : Attempt F) (w : Workflow F) (phase : String) (r : Reply F)
      → HasFired ts w
      → HasFired ts (accept a w phase r)
  unfolding accept
  accept-HasFired a w phase r h =
      if-HasFired _ _ (is_known phase && not (phase_has_output w phase))
        (fail_phase-HasFired (keep_raw w phase r.reply_text) phase (diagnostic "missing_output")
          (keep_raw-HasFired w phase r.reply_text h))
        (if-HasFired _ _ (str_eq phase "hypotheses") h h)

  stored_repair-HasFired :
      (a : Attempt F) (w : Workflow F) (phase : String) (r : Reply F) (p : Parsed F)
      → HasFired ts w
      → HasFired ts (stored_repair a w phase r p)
  stored_repair-HasFired a w phase r (payload (populates o)) h =
      accept-HasFired a (populate w phase o) phase r h
  stored_repair-HasFired a w phase r (payload keeps) h = accept-HasFired a w phase r h
  stored_repair-HasFired a w phase r (payload raises) h =
      reject-HasFired w phase r (diagnostic "schema_validation") h
  stored_repair-HasFired a w phase r unparsed h =
      reject-HasFired w phase r (diagnostic "json_parse") h
  stored_repair-HasFired a w phase r misshaped h =
      reject-HasFired w phase r (diagnostic "json_shape") h

  store_candidate-HasFired :
      (now : F) (a : Attempt F) (w : Workflow F) (phase : String) (c : Candidate F)
      → HasFired ts w
      → HasFired ts (store_candidate now a w phase c)
  unfolding store_candidate
  store_candidate-HasFired now a w phase (unusable f r) h = reject-HasFired w phase r f h
  store_candidate-HasFired now a w phase (candidate (populates o) r retried) h =
      accept-HasFired a (populate w phase o) phase r h
  store_candidate-HasFired now a w phase (candidate keeps r retried) h =
      accept-HasFired a w phase r h
  store_candidate-HasFired now a w phase (candidate raises r retried) h =
      let metered = meter now w a.second in
      let m : HasFired ts metered = meter-HasFired now w a.second h in
      if-HasFired _ _ ((is_readiness phase || str_eq phase "strategy") && not retried)
        (if-HasFired _ _ a.second.outcome.success
          (stored_repair-HasFired a metered phase a.second a.second.parsed m)
          (reject-HasFired metered phase a.second a.second.failure m))
        (reject-HasFired w phase r (diagnostic "schema_validation") h)

  store_json-HasFired :
      (now : F) (a : Attempt F) (w : Workflow F) (phase : String)
      → HasFired ts w
      → HasFired ts (store_json now a w phase)
  unfolding store_json
  store_json-HasFired now a w phase h =
      store_candidate-HasFired now a (if retries_parse a then meter now w a.second else w) phase
        (chosen a) (if-HasFired _ _ (retries_parse a) (meter-HasFired now w a.second h) h)

  call_phase-HasFired :
      (now : F) (a : Attempt F) (w : Workflow F) (phase : String)
      → HasFired ts w
      → HasFired ts (call_phase now a w phase)
  unfolding call_phase store_report summarize
  call_phase-HasFired now a w phase h =
      let metered = meter now w a.first in
      let m : HasFired ts metered = meter-HasFired now w a.first h in
      if-HasFired _ _ (not a.first.outcome.success)
        (fail_phase-HasFired (kept_strategy metered phase a.first.reply_text) phase a.first.failure
          (if-HasFired _ _ (str_eq phase "strategy" && not (str_eq a.first.reply_text "")) m m))
        (if-HasFired _ _ (str_eq phase "report") m (store_json-HasFired now a metered phase m))

  started_phase-HasFired :
      (now : F) (a : Attempt F) (w : Workflow F) (phase : String)
      → HasFired ts w
      → HasFired ts (started_phase now a w phase)
  unfolding started_phase
  started_phase-HasFired now a w phase h =
      if-HasFired _ _ (not (is_known phase))
        (fail_phase-HasFired w phase (diagnostic "phase_configuration") h)
        (called-HasFired (evidence_checked phase a.evidence_block))
    where
      called-HasFired : (b : Option PhaseFailureDiagnostic) → HasFired ts (called now a w phase b)
      called-HasFired none = call_phase-HasFired now a w phase h
      called-HasFired (some f) = fail_phase-HasFired w phase f h

  gated_phase-HasFired :
      (now : F) (a : Attempt F) (w : Workflow F) (phase : String)
      → HasFired ts w
      → HasFired ts (gated_phase now a w phase)
  unfolding gated_phase
  gated_phase-HasFired now a w phase h =
      let noted = sanitized_first now a w phase in
      let n : HasFired ts noted =
        if-HasFired _ _ (str_eq phase "classify" && not (is_there w.intake_sanitization_findings))
          (found-HasFired a.sanitized) h in
      let gate = enter_phase now noted.policy phase in
      let inside = set_status (record noted { policy = gate.0 }) phase PhaseStatus.running in
      if-HasFired _ _ gate.1.allowed (started_phase-HasFired now a inside phase n) (
        fail_phase-HasFired (record noted { policy = gate.0 }) phase (diagnostic "policy_blocked")
          n)
    where
      found-HasFired : (o : Option String) → HasFired ts (noted_findings now w o)
      found-HasFired none = h
      found-HasFired (some t) = h

  pub run_phase_node-HasFired :
      (sequence : List String) (now : F) (a : Attempt F) (w : Workflow F) (phase : String)
      → HasFired ts w
      → HasFired ts (run_phase_node sequence now a w phase)
  unfolding run_phase_node
  run_phase_node-HasFired sequence now a w phase h =
      let v = replaced w phase in
      let r : HasFired ts v = replaced-HasFired w phase h in
      if-HasFired _ _ (no_missing (missing_prerequisites v phase))
        (gated_phase-HasFired now a v phase r)
        (prerequisite_failure-HasFired sequence v phase (diagnostic "prerequisite_failed") r)
