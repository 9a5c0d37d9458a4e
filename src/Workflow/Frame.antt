-- ===== src/Workflow/Frame.antt =====
-- mas/orchestrator.py: what a run of one phase leaves as it is.
use v.Prelude.{
  String, ◌≡◌, ◌≢◌, refl, ◌∙◌, Bool, true, false, not, ◌&&◌, ◌||◌, Option, none, some, str_eq,
  if◌then◌else◌, arith, eq_iff,
}
use v.Prelude.Dict.{get, get-put}
use v.Prelude.Float.{FloatOps}
use v.Policy.PhaseRun.{enter_phase}
use v.Workflow.State.{
  PhaseStatus, Output, PhaseFailureDiagnostic, Workflow, phase_has_output, set_status, fail_phase,
  is_there, written,
}
use v.Workflow.Reply.{
  populates, keeps, raises, Parsed, unparsed, misshaped, payload, Reply, Attempt, Candidate,
  candidate, unusable, is_readiness, is_known, evidence_checked, diagnostic,
}
use v.Workflow.Phase.{
  meter, keep_raw, populate, sealed_at, complete, accept, reject, chosen, retries_parse, repaired,
  store_candidate, store_json, store_report, summarize, kept_strategy, call_phase, started_phase,
  sanitized_first, gated_phase, stored_repair, with_report, called, noted_findings,
}

module _ {F : Type 0} where
  -- Two states agree on a phase: on its output and its status.
  pub record Agree (q : String) (v w : Workflow F) : Type 0 where
    pub same_output : get v.outputs q ≡ get w.outputs q
    pub same_status : get v.phase_status q ≡ get w.phase_status q

  pub Agree-trans : {q : String} {u v w : Workflow F} → Agree q u v → Agree q v w → Agree q u w
  Agree-trans h k = record {
    same_output = h.same_output ∙ k.same_output;
    same_status = h.same_status ∙ k.same_status;
  }

  pub Agree-refl : {q : String} {w : Workflow F} → Agree q w w
  Agree-refl = record { same_output = refl; same_status = refl }

  pub if-Agree :
      {q : String} {u v w : Workflow F} (b : Bool)
      → Agree q u w
      → Agree q v w
      → Agree q (if b then u else v) w
  if-Agree true h k = h
  if-Agree false h k = k

  pub set_status-Agree :
      {q phase : String} (w : Workflow F) (s : PhaseStatus)
      → phase ≢ q
      → Agree q (set_status w phase s) w
  set_status-Agree {q} {phase} w s d = record {
    same_output = refl;
    same_status = ground (arith, d, eq_iff phase q, get-put w.phase_status phase q s);
  }

  -- A state with the outputs and the statuses of another.
  pub retold :
      {q : String} {u v w : Workflow F}
      → Agree q u w
      → get v.outputs q ≡ get u.outputs q
      → get v.phase_status q ≡ get u.phase_status q
      → Agree q v w
  retold h o s = record { same_output = o ∙ h.same_output; same_status = s ∙ h.same_status }

  fail_phase-Agree :
      {q phase : String} (w : Workflow F) (f : PhaseFailureDiagnostic)
      → phase ≢ q
      → Agree q (fail_phase w phase f) w
  fail_phase-Agree {q} {phase} w f d =
      if-Agree (str_eq phase "") (retold (set_status-Agree w PhaseStatus.failed d) refl refl)
        (retold (set_status-Agree w PhaseStatus.failed d) refl refl)

module _ {F : Type 0} ⦃fl : FloatOps F⦄ where
  keep_raw-Agree : {q : String} (w : Workflow F) (phase t : String) → Agree q (keep_raw w phase t) w
  keep_raw-Agree w phase t =
      if-Agree (str_eq phase "audit") (retold Agree-refl refl refl)
        (if-Agree (str_eq phase "strategy") (retold Agree-refl refl refl) Agree-refl)

  complete-Agree :
      {q : String} (w : Workflow F) (phase : String) → phase ≢ q → Agree q (complete w phase) w
  complete-Agree w phase d = retold (set_status-Agree w PhaseStatus.completed d) refl refl

  populate-Agree :
      {q phase : String} (w : Workflow F) (o : Output F)
      → phase ≢ q
      → Agree q (populate w phase o) w
  populate-Agree {q} {phase} w o d = record {
    same_output = ground (arith, d, eq_iff phase q, get-put w.outputs phase q o);
    same_status = refl;
  }

  reject-Agree :
      {q phase : String} (w : Workflow F) (r : Reply F) (f : PhaseFailureDiagnostic)
      → phase ≢ q
      → Agree q (reject w phase r f) w
  unfolding reject
  reject-Agree {q} {phase} w r f d =
      Agree-trans (fail_phase-Agree (keep_raw w phase r.reply_text) f d)
        (keep_raw-Agree w phase r.reply_text)

  meter-Agree : {q : String} (now : F) (w : Workflow F) (r : Reply F) → Agree q (meter now w r) w
  unfolding meter
  meter-Agree now w r = record { same_output = refl; same_status = refl }

  sealed_at-Agree :
      {q : String} (today : String) (w : Workflow F) (phase : String)
      → Agree q (sealed_at today w phase) w
  sealed_at-Agree today w phase =
      if-Agree (str_eq phase "hypotheses") (retold Agree-refl refl refl) Agree-refl

  accept-Agree :
      {q phase : String} (a : Attempt F) (w : Workflow F) (r : Reply F)
      → phase ≢ q
      → Agree q (accept a w phase r) w
  unfolding accept
  accept-Agree {q} {phase} a w r d =
      if-Agree (is_known phase && not (phase_has_output w phase))
        (Agree-trans
          (fail_phase-Agree (keep_raw w phase r.reply_text) (diagnostic "missing_output") d)
          (keep_raw-Agree w phase r.reply_text))
        (Agree-trans (sealed_at-Agree a.today (complete w phase) phase) (complete-Agree w phase d))

  by_parsed-Agree :
      {q phase : String} (a : Attempt F) (w : Workflow F) (r : Reply F) (p : Parsed F)
      → phase ≢ q
      → Agree q (stored_repair a w phase r p) w
  by_parsed-Agree {q} {phase} a w r (payload (populates o)) d =
      Agree-trans (accept-Agree a (populate w phase o) r d) (populate-Agree w o d)
  by_parsed-Agree a w r (payload keeps) d = accept-Agree a w r d
  by_parsed-Agree a w r (payload raises) d = reject-Agree w r (diagnostic "schema_validation") d
  by_parsed-Agree a w r unparsed d = reject-Agree w r (diagnostic "json_parse") d
  by_parsed-Agree a w r misshaped d = reject-Agree w r (diagnostic "json_shape") d

  repaired-Agree :
      {q phase : String} (now : F) (a : Attempt F) (w : Workflow F)
      → phase ≢ q
      → Agree q (repaired now a w phase) w
  repaired-Agree {q} {phase} now a w d =
      Agree-trans
        (if-Agree a.second.outcome.success
          (by_parsed-Agree a (meter now w a.second) a.second a.second.parsed d)
          (reject-Agree (meter now w a.second) a.second a.second.failure d))
        (meter-Agree now w a.second)

  store_candidate-Agree :
      {q phase : String} (now : F) (a : Attempt F) (w : Workflow F) (c : Candidate F)
      → phase ≢ q
      → Agree q (store_candidate now a w phase c) w
  unfolding store_candidate
  store_candidate-Agree now a w (unusable failure r) d = reject-Agree w r failure d
  store_candidate-Agree {q} {phase} now a w (candidate (populates o) r retried) d =
      Agree-trans (accept-Agree a (populate w phase o) r d) (populate-Agree w o d)
  store_candidate-Agree now a w (candidate keeps r retried) d = accept-Agree a w r d
  store_candidate-Agree {q} {phase} now a w (candidate raises r retried) d =
      if-Agree ((is_readiness phase || str_eq phase "strategy") && not retried)
        (repaired-Agree now a w d) (reject-Agree w r (diagnostic "schema_validation") d)

  store_json-Agree :
      {q phase : String} (now : F) (a : Attempt F) (w : Workflow F)
      → phase ≢ q
      → Agree q (store_json now a w phase) w
  unfolding store_json
  store_json-Agree now a w d =
      Agree-trans
        (store_candidate-Agree now a (if retries_parse a then meter now w a.second else w)
          (chosen a) d)
        (if-Agree (retries_parse a) (meter-Agree now w a.second) Agree-refl)

  store_report-Agree :
      {q phase : String} (now : F) (a : Attempt F) (w : Workflow F)
      → phase ≢ q
      → Agree q (store_report now a w phase) w
  unfolding store_report
  store_report-Agree {q = q} {phase = phase} now a w d =
      Agree-trans (complete-Agree (with_report now a w phase) phase d)
        (retold (populate-Agree {q = q} {phase = phase} w (written a.first.reply_text) d) refl refl)

  summarize-Agree :
      {q : String} (a : Attempt F) (w : Workflow F) (phase : String)
      → Agree q (summarize a w phase) w
  unfolding summarize
  summarize-Agree a w phase = retold Agree-refl refl refl

  call_phase-Agree :
      {q phase : String} (now : F) (a : Attempt F) (w : Workflow F)
      → phase ≢ q
      → Agree q (call_phase now a w phase) w
  unfolding call_phase
  call_phase-Agree {q} {phase} now a w d =
      let metered = meter now w a.first in
      Agree-trans
        (if-Agree (not a.first.outcome.success)
          (Agree-trans
            (fail_phase-Agree (kept_strategy metered phase a.first.reply_text) a.first.failure d)
            (if-Agree (str_eq phase "strategy" && not (str_eq a.first.reply_text ""))
              (retold Agree-refl refl refl) Agree-refl))
          (if-Agree (str_eq phase "report")
            (Agree-trans (summarize-Agree a (store_report now a metered phase) phase)
              (store_report-Agree now a metered d))
            (Agree-trans (summarize-Agree a (store_json now a metered phase) phase)
              (store_json-Agree now a metered d))))
        (meter-Agree now w a.first)

  started_phase-Agree :
      {q phase : String} (now : F) (a : Attempt F) (w : Workflow F)
      → phase ≢ q
      → Agree q (started_phase now a w phase) w
  unfolding started_phase
  started_phase-Agree {q} {phase} now a w d =
      if-Agree (not (is_known phase)) (fail_phase-Agree w (diagnostic "phase_configuration") d)
        (by_block (evidence_checked phase a.evidence_block))
    where
      by_block : (b : Option PhaseFailureDiagnostic) → Agree q (called now a w phase b) w
      by_block none = call_phase-Agree now a w d
      by_block (some f) = fail_phase-Agree w f d

  sanitized_first-Agree :
      {q : String} (now : F) (a : Attempt F) (w : Workflow F) (phase : String)
      → Agree q (sanitized_first now a w phase) w
  sanitized_first-Agree {q = q} now a w phase =
      if-Agree (str_eq phase "classify" && not (is_there w.intake_sanitization_findings))
        (noted a.sanitized) Agree-refl
    where
      noted : (o : Option String) → Agree q (noted_findings now w o) w
      noted none = Agree-refl
      noted (some f) = retold Agree-refl refl refl

  -- From the policy gate on, the run of a phase leaves the output and the status of every other
  -- phase as they are.
  pub gated_phase-Agree :
      {q phase : String} (now : F) (a : Attempt F) (w : Workflow F)
      → phase ≢ q
      → Agree q (gated_phase now a w phase) w
  unfolding gated_phase
  gated_phase-Agree {q} {phase} now a w d =
      let noted = sanitized_first now a w phase in
      let gate = enter_phase now noted.policy phase in
      Agree-trans
        (if-Agree gate.1.allowed
          (Agree-trans
            (started_phase-Agree now a
              (set_status (record noted { policy = gate.0 }) phase PhaseStatus.running) d)
            (retold (set_status-Agree noted PhaseStatus.running d) refl refl))
          (Agree-trans
            (fail_phase-Agree (record noted { policy = gate.0 }) (diagnostic "policy_blocked") d)
            (retold Agree-refl refl refl)))
        (sanitized_first-Agree now a w phase)
