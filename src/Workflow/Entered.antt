-- ===== src/Workflow/Entered.antt =====
-- mas/orchestrator.py: the current phase of a run, and where the graph goes behind the gauntlet.
use v.Prelude.{
  String, ◌≡◌, refl, ◌∙◌, Bool, true, false, not, ◌&&◌, ◌||◌, Option, none, some, str_eq,
  if◌then◌else◌, arith,
}
use v.Prelude.Float.{FloatOps}
use v.Policy.PhaseRun.{enter_phase}
use v.Policy.Budget.{record_consumption_to_state}
use v.Policy.Gate.{log_policy_event}
use v.Policy.Types.{ProjectState}
use v.Workflow.State.{PhaseFailureDiagnostic, Workflow, phase_has_output, fail_phase}
use v.Workflow.Reply.{
  populates, keeps, raises, Parsed, unparsed, misshaped, payload, Reply, Attempt, Candidate,
  candidate, unusable, is_readiness, is_known, evidence_checked, diagnostic,
}
use v.Workflow.Phase.{
  meter, keep_raw, populate, accept, reject, chosen, retries_parse, stored_repair, store_candidate,
  store_json, store_report, summarize, kept_strategy, call_phase, called, started_phase,
}

module _ {F : Type 0} where
  -- The phase is the current one.
  pub record Here (phase : String) (w : Workflow F) : Type 0 where
    pub here : w.policy.current_phase ≡ phase

  still-Here :
      {phase : String} {v w : Workflow F}
      → Here phase w
      → v.policy.current_phase ≡ w.policy.current_phase
      → Here phase v
  still-Here h e = record { here = e ∙ h.here }

  if-Here :
      {phase : String} {u v : Workflow F} (b : Bool)
      → Here phase u
      → Here phase v
      → Here phase (if b then u else v)
  if-Here true h k = h
  if-Here false h k = k

  fail_phase-Here :
      {phase : String} (w : Workflow F) (p : String) (f : PhaseFailureDiagnostic)
      → Here phase w
      → Here phase (fail_phase w p f)
  fail_phase-Here w p f h = if-Here (str_eq p "") (still-Here h refl) (still-Here h refl)

module _ {F : Type 0} ⦃fl : FloatOps F⦄ where
  meter-Here :
      {phase : String} (now : F) (w : Workflow F) (r : Reply F)
      → Here phase w
      → Here phase (meter now w r)
  unfolding meter record_consumption_to_state log_policy_event
  meter-Here now w r h = still-Here h refl

  keep_raw-Here :
      {phase : String} (w : Workflow F) (p t : String) → Here phase w → Here phase (keep_raw w p t)
  keep_raw-Here w p t h =
      if-Here (str_eq p "audit") (still-Here h refl)
        (if-Here (str_eq p "strategy") (still-Here h refl) h)

  accept-Here :
      {phase : String} (a : Attempt F) (w : Workflow F) (p : String) (r : Reply F)
      → Here phase w
      → Here phase (accept a w p r)
  unfolding accept
  accept-Here a w p r h =
      if-Here (is_known p && not (phase_has_output w p))
        (fail_phase-Here (keep_raw w p r.reply_text) p (diagnostic "missing_output")
          (keep_raw-Here w p r.reply_text h))
        (if-Here (str_eq p "hypotheses") (still-Here h refl) (still-Here h refl))

  reject-Here :
      {phase : String} (w : Workflow F) (p : String) (r : Reply F) (f : PhaseFailureDiagnostic)
      → Here phase w
      → Here phase (reject w p r f)
  unfolding reject
  reject-Here w p r f h =
      fail_phase-Here (keep_raw w p r.reply_text) p f (keep_raw-Here w p r.reply_text h)

  stored_repair-Here :
      {phase : String} (a : Attempt F) (w : Workflow F) (p : String) (r : Reply F) (o : Parsed F)
      → Here phase w
      → Here phase (stored_repair a w p r o)
  stored_repair-Here a w p r (payload (populates o)) h =
      accept-Here a (populate w p o) p r (still-Here h refl)
  stored_repair-Here a w p r (payload keeps) h = accept-Here a w p r h
  stored_repair-Here a w p r (payload raises) h =
      reject-Here w p r (diagnostic "schema_validation") h
  stored_repair-Here a w p r unparsed h = reject-Here w p r (diagnostic "json_parse") h
  stored_repair-Here a w p r misshaped h = reject-Here w p r (diagnostic "json_shape") h

  store_candidate-Here :
      {phase : String} (now : F) (a : Attempt F) (w : Workflow F) (p : String) (c : Candidate F)
      → Here phase w
      → Here phase (store_candidate now a w p c)
  unfolding store_candidate
  store_candidate-Here now a w p (unusable f r) h = reject-Here w p r f h
  store_candidate-Here now a w p (candidate (populates o) r retried) h =
      accept-Here a (populate w p o) p r (still-Here h refl)
  store_candidate-Here now a w p (candidate keeps r retried) h = accept-Here a w p r h
  store_candidate-Here now a w p (candidate raises r retried) h =
      if-Here ((is_readiness p || str_eq p "strategy") && not retried)
        (if-Here a.second.outcome.success
          (stored_repair-Here a (meter now w a.second) p a.second a.second.parsed
            (meter-Here now w a.second h))
          (reject-Here (meter now w a.second) p a.second a.second.failure
            (meter-Here now w a.second h)))
        (reject-Here w p r (diagnostic "schema_validation") h)

  store_report-Here :
      {phase : String} (now : F) (a : Attempt F) (w : Workflow F) (p : String)
      → Here phase w
      → Here phase (store_report now a w p)
  unfolding store_report log_policy_event
  store_report-Here now a w p h = still-Here h refl

  summarize-Here :
      {phase : String} (a : Attempt F) (w : Workflow F) (p : String)
      → Here phase w
      → Here phase (summarize a w p)
  unfolding summarize
  summarize-Here a w p h = still-Here h refl

  call_phase-Here :
      {phase : String} (now : F) (a : Attempt F) (w : Workflow F) (p : String)
      → Here phase w
      → Here phase (call_phase now a w p)
  unfolding call_phase store_json
  call_phase-Here now a w p h =
      let metered = meter now w a.first in
      let m = meter-Here now w a.first h in
      let again = if retries_parse a then meter now metered a.second else metered in
      if-Here (not a.first.outcome.success)
        (fail_phase-Here (kept_strategy metered p a.first.reply_text) p a.first.failure (
          if-Here (str_eq p "strategy" && not (str_eq a.first.reply_text "")) (still-Here m refl)
            m))
        (if-Here (str_eq p "report")
          (summarize-Here a (store_report now a metered p) p (store_report-Here now a metered p m))
          (summarize-Here a (store_json now a metered p) p (
            store_candidate-Here now a again p (chosen a)
              (if-Here (retries_parse a) (meter-Here now metered a.second m) m))))

  called-Here :
      {phase : String} (now : F) (a : Attempt F) (w : Workflow F) (p : String)
      (b : Option PhaseFailureDiagnostic)
      → Here phase w
      → Here phase (called now a w p b)
  called-Here now a w p none h = call_phase-Here now a w p h
  called-Here now a w p (some f) h = fail_phase-Here w p f h

  pub started_phase-Here :
      {phase : String} (now : F) (a : Attempt F) (w : Workflow F) (p : String)
      → Here phase w
      → Here phase (started_phase now a w p)
  unfolding started_phase
  started_phase-Here now a w p h =
      if-Here (not (is_known p)) (fail_phase-Here w p (diagnostic "phase_configuration") h)
        (called-Here now a w p (evidence_checked p a.evidence_block) h)

  pub enter-current :
      (now : F) (s : ProjectState F) (phase : String)
      → (enter_phase now s phase).1.allowed ≡ true
      → (enter_phase now s phase).0.current_phase ≡ phase
  unfolding enter_phase
  enter-current now s phase h = ground (arith, h)
