-- ===== src/Workflow/Completion.antt =====
-- mas/orchestrator.py: what COMPLETED says of a phase.
use v.Prelude.{
  String, ◌≡◌, refl, ap, ◌∙◌, Bool, true, false, not, ◌&&◌, ◌||◌, Option, none, some, List, str_eq,
  if◌then◌else◌, arith, eq_iff,
}
use v.Prelude.Dict.{Dict, get, put, get-put}
use v.Prelude.Float.{FloatOps}
use v.Policy.PhaseRun.{enter_phase}
use v.Workflow.State.{
  PhaseStatus, completed, failed, written, PhaseFailureDiagnostic, Workflow, is_completed,
  is_output, status_of, phase_has_output, set_status, fail_phase,
}
use v.Workflow.Invalidation.{missing_prerequisites, record_prerequisite_failure}
use v.Workflow.Reply.{
  populates, keeps, raises, Parsed, unparsed, misshaped, payload, Reply, Attempt, Candidate,
  candidate, unusable, is_readiness, is_known, evidence_checked, diagnostic, no_missing,
}
use v.Workflow.Phase.{
  meter, keep_raw, populate, sealed_at, complete, accept, reject, chosen, retries_parse,
  stored_repair, store_candidate, store_json, store_report, summarize, kept_strategy, call_phase,
  called, started_phase, sanitized_first, gated_phase, replaced, run_phase_node,
}

module _ {F : Type 0} where
  -- A phase that is COMPLETED has output.
  pub record Sound (phase : String) (w : Workflow F) : Type 0 where
    pub output_there : is_completed (status_of w phase) ≡ true → phase_has_output w phase ≡ true

  if-Sound :
      {phase : String} {u v : Workflow F} (b : Bool)
      → Sound phase u
      → Sound phase v
      → Sound phase (if b then u else v)
  if-Sound true h k = h
  if-Sound false h k = k

  failed-Sound :
      {phase : String} {v : Workflow F} (d : Dict PhaseStatus)
      → v.phase_status ≡ put d phase failed
      → Sound phase v
  failed-Sound {phase} {v} d e = record {
    output_there = λ h. ground (arith, h, e, get-put d phase phase failed, eq_iff phase phase);
  }

  fail_phase-Sound :
      {phase : String} (w : Workflow F) (f : PhaseFailureDiagnostic)
      → Sound phase (fail_phase w phase f)
  fail_phase-Sound {phase} w f =
      if-Sound (str_eq phase "") (failed-Sound w.phase_status refl)
        (failed-Sound w.phase_status refl)

module _ {F : Type 0} ⦃fl : FloatOps F⦄ where
  completes-Sound :
      {phase : String} (today : String) (w : Workflow F)
      → phase_has_output w phase ≡ true
      → Sound phase (sealed_at today (complete w phase) phase)
  unfolding phase_has_output
  completes-Sound {phase} today w h =
      if-Sound (str_eq phase "hypotheses") (record { output_there = λ c. h })
        (record { output_there = λ c. h })

  if-known :
      {phase : String} {u v : Workflow F} (known there : Bool)
      → known ≡ true
      → Sound phase u
      → (there ≡ true → Sound phase v)
      → Sound phase (if known && not there then u else v)
  if-known true true e h k = k refl
  if-known true false e h k = h
  if-known false there e h k = absurd (ground (arith, e))

  accept-Sound :
      {phase : String} (a : Attempt F) (w : Workflow F) (r : Reply F)
      → is_known phase ≡ true
      → Sound phase (accept a w phase r)
  unfolding accept
  accept-Sound {phase} a w r e =
      if-known (is_known phase) (phase_has_output w phase) e
        (fail_phase-Sound (keep_raw w phase r.reply_text) (diagnostic "missing_output"))
        (completes-Sound a.today w)

  reject-Sound :
      {phase : String} (w : Workflow F) (r : Reply F) (f : PhaseFailureDiagnostic)
      → Sound phase (reject w phase r f)
  unfolding reject
  reject-Sound {phase} w r f = fail_phase-Sound (keep_raw w phase r.reply_text) f

  stored_repair-Sound :
      {phase : String} (a : Attempt F) (w : Workflow F) (r : Reply F) (p : Parsed F)
      → is_known phase ≡ true
      → Sound phase (stored_repair a w phase r p)
  stored_repair-Sound {phase} a w r (payload (populates o)) e =
      accept-Sound a (populate w phase o) r e
  stored_repair-Sound a w r (payload keeps) e = accept-Sound a w r e
  stored_repair-Sound a w r (payload raises) e = reject-Sound w r (diagnostic "schema_validation")
  stored_repair-Sound a w r unparsed e = reject-Sound w r (diagnostic "json_parse")
  stored_repair-Sound a w r misshaped e = reject-Sound w r (diagnostic "json_shape")

  store_candidate-Sound :
      {phase : String} (now : F) (a : Attempt F) (w : Workflow F) (c : Candidate F)
      → is_known phase ≡ true
      → Sound phase (store_candidate now a w phase c)
  unfolding store_candidate
  store_candidate-Sound now a w (unusable f r) e = reject-Sound w r f
  store_candidate-Sound {phase} now a w (candidate (populates o) r retried) e =
      accept-Sound a (populate w phase o) r e
  store_candidate-Sound now a w (candidate keeps r retried) e = accept-Sound a w r e
  store_candidate-Sound {phase} now a w (candidate raises r retried) e =
      if-Sound ((is_readiness phase || str_eq phase "strategy") && not retried)
        (if-Sound a.second.outcome.success
          (stored_repair-Sound a (meter now w a.second) a.second a.second.parsed e)
          (reject-Sound (meter now w a.second) a.second a.second.failure))
        (reject-Sound w r (diagnostic "schema_validation"))

  summarize-Sound :
      {phase : String} (a : Attempt F) (w : Workflow F)
      → Sound phase w
      → Sound phase (summarize a w phase)
  unfolding summarize phase_has_output
  summarize-Sound a w h = record { output_there = h.output_there }

  if-not :
      {phase : String} (u : Workflow F) {v : Workflow F} (b : Bool)
      → b ≡ false
      → Sound phase v
      → Sound phase (if b then u else v)
  if-not u true e h = absurd (ground (arith, e))
  if-not u false e h = h

  call_phase-Sound :
      {phase : String} (now : F) (a : Attempt F) (w : Workflow F)
      → is_known phase ≡ true
      → str_eq phase "report" ≡ false
      → Sound phase (call_phase now a w phase)
  unfolding call_phase store_json
  call_phase-Sound {phase} now a w e n =
      let metered = meter now w a.first in
      if-Sound (not a.first.outcome.success)
        (fail_phase-Sound (kept_strategy metered phase a.first.reply_text) a.first.failure)
        (if-not _ (str_eq phase "report") n (
          summarize-Sound a (store_json now a metered phase) (
            store_candidate-Sound now a
              (if retries_parse a then meter now metered a.second else metered) (chosen a) e)))

  called-Sound :
      {phase : String} (now : F) (a : Attempt F) (w : Workflow F)
      (b : Option PhaseFailureDiagnostic)
      → is_known phase ≡ true
      → str_eq phase "report" ≡ false
      → Sound phase (called now a w phase b)
  called-Sound now a w none e n = call_phase-Sound now a w e n
  called-Sound now a w (some f) e n = fail_phase-Sound w f

  gated_phase-Sound :
      {phase : String} (now : F) (a : Attempt F) (w : Workflow F)
      → is_known phase ≡ true
      → str_eq phase "report" ≡ false
      → Sound phase (gated_phase now a w phase)
  unfolding gated_phase started_phase
  gated_phase-Sound {phase} now a w e n =
      let noted = sanitized_first now a w phase in
      let gate = enter_phase now noted.policy phase in
      let inside = set_status (record noted { policy = gate.0 }) phase PhaseStatus.running in
      if-Sound gate.1.allowed
        (if-Sound (not (is_known phase))
          (fail_phase-Sound inside (diagnostic "phase_configuration"))
          (called-Sound now a inside (evidence_checked phase a.evidence_block) e n))
        (fail_phase-Sound (record noted { policy = gate.0 }) (diagnostic "policy_blocked"))

  prerequisite_failure-Sound :
      {phase : String} (sequence : List String) (w : Workflow F) (f : PhaseFailureDiagnostic)
      → Sound phase (record_prerequisite_failure sequence w phase f)
  unfolding record_prerequisite_failure
  prerequisite_failure-Sound {phase} sequence w f =
      if-Sound (str_eq phase "") (failed-Sound _ refl) (failed-Sound _ refl)

  -- A phase that is in one of the sequences, the report left out, is COMPLETED after its run only
  -- with output there, whatever the model, the repairs and the gates do. That it is this
  -- run that stored the output is not said.
  pub run_phase_node-Sound :
      (sequence : List String) (now : F) (a : Attempt F) (w : Workflow F) (phase : String)
      → is_known phase ≡ true
      → str_eq phase "report" ≡ false
      → is_completed (status_of (run_phase_node sequence now a w phase) phase) ≡ true
      → phase_has_output (run_phase_node sequence now a w phase) phase ≡ true
  unfolding run_phase_node
  run_phase_node-Sound sequence now a w phase e n =
      let v = replaced w phase in
      (if-Sound (no_missing (missing_prerequisites v phase)) (gated_phase-Sound now a v e n)
        (prerequisite_failure-Sound sequence v (diagnostic "prerequisite_failed"))).output_there

  -- The report is the exception: a reply with an empty text completes it, while the state says that
  -- it has no output, so that the runner starts there again.
  pub store_report-empty :
      (now : F) (a : Attempt F) (w : Workflow F)
      → a.first.reply_text ≡ ""
      → (is_completed (status_of (store_report now a w "report") "report") ≡ true)
        × (phase_has_output (store_report now a w "report") "report" ≡ false)
  unfolding store_report phase_has_output
  store_report-empty now a w e = (
    ground (arith, get-put w.phase_status "report" "report" completed),
    ap is_output (get-put w.outputs "report" "report" (written a.first.reply_text))
        ∙ ap (λ t. is_output {F = F} (some (written t))) e,
  )

  -- A run of the hypotheses whose reply holds no valid one completes on the list of an earlier run.
  pub store_candidate-earlier :
      (now : F) (a : Attempt F) (w : Workflow F) (r : Reply F) (retried : Bool)
      → phase_has_output w "hypotheses" ≡ true
      → let v = store_candidate now a w "hypotheses" (candidate keeps r retried) in
        (is_completed (status_of v "hypotheses") ≡ true)
        × (get v.outputs "hypotheses" ≡ get w.outputs "hypotheses")
  unfolding store_candidate accept
  store_candidate-earlier now a w r retried h = ground (
    arith,
    h,
    get-put w.phase_status "hypotheses" "hypotheses" completed,
    eq_iff "hypotheses" "hypotheses",
  )
