-- ===== src/Workflow/Graph.antt =====
-- mas/orchestrator.py: the graph of the workflow: its nodes without a model, its routing functions
-- and its conditional edges. A trigger of a re-entry is kept as its target. The Brier score and the
-- decision objects are left out.
use v.Prelude.{
  ℕ, suc, String, Bool, true, false, ◌&&◌, Option, none, some, List, [], ◌∷◌, ◌++◌, ltb, leb,
  if◌then◌else◌,
}
use v.Prelude.Dict.{Dict, get, put}
use v.Prelude.Float.{FloatOps}
use v.Prelude.Texts.{one_of}
use v.Workflow.State.{
  PhaseStatus, failed, Output, items, Workflow, is_completed, status_of, is_there, set_confidence,
}
use v.Workflow.Templates.{phases_after}
use v.Workflow.Invalidation.{is_met, invalidate_downstream}
use v.Workflow.Gate.{or_zero, check_gate}
use v.Workflow.Reply.{Attempt}
use v.Workflow.Phase.{run_phase_node}

abbrev pub phase_order : List String
phase_order = "classify" ∷ "hypotheses" ∷ "audit" ∷ "strategy" ∷ "monitor" ∷ "report" ∷ []

abbrev pub is_failed : Option PhaseStatus → Bool
is_failed (some failed) = true
is_failed _ = false

-- PHASE_ORDER[idx + 1], or "complete"; PHASE_ORDER[0] for a phase that it does not name
abbrev first_or_complete : List String → String
first_or_complete [] = "complete"
first_or_complete (p ∷ ps) = p

abbrev pub next_phase : String → String
next_phase phase =
    if one_of phase_order phase
    then first_or_complete (phases_after phase phase_order)
    else "classify"

abbrev pub max_reentries : ℕ
max_reentries = 2

-- The targets of R1, R4, R5 and R6, which are all that `evaluate_reentry_triggers` fires
abbrev pub reentry_targets : List String
reentry_targets = "hypotheses" ∷ "hypotheses" ∷ "hypotheses" ∷ "audit" ∷ []

-- latest.get("target", "strategy") of the last trigger
abbrev pub latest_target : List String → Option String
latest_target [] = none
latest_target (t ∷ []) = some t
latest_target (t ∷ u ∷ ts) = latest_target (u ∷ ts)

-- The conditional edges of the gates behind Classify, the hypotheses and the audit.
abbrev pub classify_gate_edges : Dict String
classify_gate_edges =
    ("hypotheses", "hypotheses")
    ∷ ("classify", "classify")
    ∷ ("force_proceed", "hypotheses")
    ∷ ("abort", "END")
    ∷ []

abbrev pub hypotheses_gate_edges : Dict String
hypotheses_gate_edges =
    ("audit", "audit")
    ∷ ("hypotheses", "hypotheses")
    ∷ ("force_proceed", "audit")
    ∷ ("abort", "END")
    ∷ []

abbrev pub audit_gate_edges : Dict String
audit_gate_edges =
    ("strategy", "strategy")
    ∷ ("audit", "audit")
    ∷ ("force_proceed", "strategy")
    ∷ ("abort", "END")
    ∷ []

module _ {F : Type 0} ⦃fl : FloatOps F⦄ where
  unfoldable pub convergence_gate_node : Workflow F → Workflow F
  unfolding check_gate
  convergence_gate_node w =
      set_confidence w w.policy.current_phase (check_gate w w.policy.current_phase).confidence

  abbrev pub count_of : Workflow F → String → ℕ
  count_of w phase = or_zero (get w.re_entry_count phase)

  abbrev counted : Workflow F → String → Workflow F
  counted w phase = record w {
    re_entry_count = put w.re_entry_count phase (suc (count_of w phase));
  }

  unfoldable pub route_after_gate : Workflow F → Workflow F × String
  unfolding check_gate phases_after
  route_after_gate w =
      let phase = w.policy.current_phase in
      if is_failed (get w.phase_status phase)
      then (w, "abort")
      else if (check_gate w phase).passed
      then (w, next_phase phase)
      else if ltb (count_of w phase) max_reentries
      then (counted w phase, phase)
      else (w, "force_proceed")

  abbrev to_target : List String → Workflow F → String → Workflow F × String
  to_target sequence w target =
      if one_of phase_order target
      then (invalidate_downstream sequence w target, target)
      else (w, "monitor")

  unfoldable pub route_after_reentry : List String → Workflow F → Workflow F × String
  unfolding invalidate_downstream
  route_after_reentry sequence w = elim (latest_target w.reentry_triggers_fired) [
    | none ↦ (w, "monitor")
    | some target ↦ to_target sequence w target
  ]

  unfoldable pub reentry_check_node : List String → Workflow F → Workflow F
  reentry_check_node triggers w = record w {
    reentry_triggers_fired = w.reentry_triggers_fired ++ triggers;
  }

  unfoldable pub route_after_strategy : Workflow F → String
  route_after_strategy w = if is_met w "strategy" then "scoring" else "abort"

  unfoldable pub scoring_node : F → Workflow F → Workflow F
  scoring_node scores w =
      if is_there (get w.outputs "strategy") then record w { det_scores = some scores } else w

  abbrev pub at_least : ℕ → Option (Output F) → Bool
  at_least n (some (items m)) = leb n m
  at_least n _ = false

  unfoldable pub hypotheses_node : List String → F → Attempt F → Attempt F → Workflow F → Workflow F
  unfolding run_phase_node
  hypotheses_node sequence now first second w =
      let ran = run_phase_node sequence now first w "hypotheses" in
      if at_least 3 (get ran.outputs "hypotheses")
      then run_phase_node sequence now second ran "gauntlet"
      else ran

  unfoldable pub strategy_node : List String → F → Attempt F → Attempt F → Workflow F → Workflow F
  unfolding run_phase_node
  strategy_node sequence now first second w =
      let ran = run_phase_node sequence now first w "strategy" in
      if is_completed (status_of ran "strategy") && is_there (get ran.outputs "strategy")
      then run_phase_node sequence now second ran "sqi"
      else ran
