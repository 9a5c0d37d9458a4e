-- ===== src/Workflow/Walks.antt =====
-- mas/orchestrator.py: the nodes and the routings of the graph one after another, in any order, which
-- includes the order of `build_workflow_graph`, and where the check of the re-entries leads on the
-- way.
use v.Prelude.{
  String, ◌≡◌, ◌≢◌, refl, ap, ◌∙◌, Bool, true, some, List, [], ◌∷◌, ◌++◌, all, arith, eq_iff, ◌&&◌,
  Option-cases, inl, inr,
}
use v.Prelude.Dict.{get}
use v.Prelude.Float.{FloatOps}
use v.Prelude.Texts.{one_of}
use v.Workflow.State.{Workflow, is_there, is_completed, status_of}
use v.Workflow.Reply.{Attempt}
use v.Workflow.Phase.{run_phase_node}
use v.Workflow.Graph.{
  phase_order, reentry_targets, latest_target, at_least, convergence_gate_node, route_after_gate,
  route_after_reentry, reentry_check_node, scoring_node, hypotheses_node, strategy_node,
}
use v.Workflow.Listed.{HasFired, if-HasFired, invalidate_downstream-HasFired}
use v.Workflow.Fired.{run_phase_node-HasFired}

abbrev pub is_target : String → Bool
is_target t = one_of reentry_targets t

last-target :
    (t : String) (ts : List String)
    → all is_target (t ∷ ts) ≡ true
    → (u : String) × ((latest_target (t ∷ ts) ≡ some u) × (is_target u ≡ true))
last-target t [] h = (t, (refl, ground (arith, h)))
last-target t (s ∷ ts) h = last-target s ts (ground (arith, h))

all-append :
    (p : String → Bool) (xs ys : List String)
    → all p xs ≡ true
    → all p ys ≡ true
    → all p (xs ++ ys) ≡ true
all-append p [] ys h k = k
all-append p (x ∷ xs) ys h k = ground (arith, h, k, all-append p xs ys)

target-in-order :
    (t : String) → is_target t ≡ true → (one_of phase_order t ≡ true) × (t ≢ "monitor")
target-in-order t h = ground (
  arith,
  h,
  eq_iff "monitor" t,
  eq_iff t "monitor",
  eq_iff "hypotheses" t,
  eq_iff "classify" t,
  eq_iff "audit" t,
  eq_iff "strategy" t,
  eq_iff "hypotheses" "monitor",
  eq_iff "classify" "monitor",
  eq_iff "audit" "monitor",
  eq_iff "strategy" "monitor",
)

module _ {F : Type 0} ⦃fl : FloatOps F⦄ where
  -- The states that the nodes and the routings of the graph lead to from `w`. A check fires triggers
  -- with a target of `evaluate_reentry_triggers`, or none.
  pub data Walk (sequence : List String) (w : Workflow F) : Workflow F → Type 0 where
    no_step : Walk sequence w w
    phase_run :
        {v : Workflow F} (now : F) (a : Attempt F) (phase : String)
        → Walk sequence w v
        → Walk sequence w (run_phase_node sequence now a v phase)
    hypotheses_run :
        {v : Workflow F} (now : F) (first second : Attempt F)
        → Walk sequence w v
        → Walk sequence w (hypotheses_node sequence now first second v)
    strategy_run :
        {v : Workflow F} (now : F) (first second : Attempt F)
        → Walk sequence w v
        → Walk sequence w (strategy_node sequence now first second v)
    scoring_run :
        {v : Workflow F} (scores : F) → Walk sequence w v → Walk sequence w (scoring_node scores v)
    gated : {v : Workflow F} → Walk sequence w v → Walk sequence w (convergence_gate_node v)
    gate_routed : {v : Workflow F} → Walk sequence w v → Walk sequence w (route_after_gate v).0
    checked :
        {v : Workflow F} (triggers : List String)
        → all is_target triggers ≡ true
        → Walk sequence w v
        → Walk sequence w (reentry_check_node triggers v)
    reentered :
        {v : Workflow F} → Walk sequence w v → Walk sequence w (route_after_reentry sequence v).0

  -- At least one trigger has fired, and every one that has has a target of the triggers.
  record Fires (w : Workflow F) : Type 0 where
    first_fired : String
    later_fired : List String
    in_list : HasFired (first_fired ∷ later_fired) w
    all_known : all is_target (first_fired ∷ later_fired) ≡ true

  Fires-kept :
      (w v : Workflow F) → ((ts : List String) → HasFired ts w → HasFired ts v) → Fires w → Fires v
  Fires-kept w v k f = record {
    first_fired = f.first_fired;
    later_fired = f.later_fired;
    in_list = k (f.first_fired ∷ f.later_fired) f.in_list;
    all_known = f.all_known;
  }

  route_after_gate-HasFired :
      {ts : List String} (w : Workflow F) → HasFired ts w → HasFired ts (route_after_gate w).0
  unfolding route_after_gate
  route_after_gate-HasFired w h = ground (arith, h)

  hypotheses_node-HasFired :
      {ts : List String} (sequence : List String) (now : F) (first second : Attempt F)
      (w : Workflow F)
      → HasFired ts w
      → HasFired ts (hypotheses_node sequence now first second w)
  unfolding hypotheses_node
  hypotheses_node-HasFired {ts} sequence now first second w h =
      let ran = run_phase_node sequence now first w "hypotheses" in
      let r : HasFired ts ran = run_phase_node-HasFired sequence now first w "hypotheses" h in
      if-HasFired _ _ (at_least 3 (get ran.outputs "hypotheses"))
        (run_phase_node-HasFired sequence now second ran "gauntlet" r) r

  strategy_node-HasFired :
      {ts : List String} (sequence : List String) (now : F) (first second : Attempt F)
      (w : Workflow F)
      → HasFired ts w
      → HasFired ts (strategy_node sequence now first second w)
  unfolding strategy_node
  strategy_node-HasFired {ts} sequence now first second w h =
      let ran = run_phase_node sequence now first w "strategy" in
      let r : HasFired ts ran = run_phase_node-HasFired sequence now first w "strategy" h in
      if-HasFired _ _
        (is_completed (status_of ran "strategy") && is_there (get ran.outputs "strategy"))
        (run_phase_node-HasFired sequence now second ran "sqi" r) r

  scoring_node-HasFired :
      {ts : List String} (scores : F) (w : Workflow F)
      → HasFired ts w
      → HasFired ts (scoring_node scores w)
  unfolding scoring_node
  scoring_node-HasFired scores w h = if-HasFired _ _ (is_there (get w.outputs "strategy")) h h

  gate_node-HasFired :
      {ts : List String} (w : Workflow F) → HasFired ts w → HasFired ts (convergence_gate_node w)
  unfolding convergence_gate_node
  gate_node-HasFired w h = h

  reentry-HasFired :
      {ts : List String} (sequence : List String) (w : Workflow F)
      → HasFired ts w
      → HasFired ts (route_after_reentry sequence w).0
  unfolding route_after_reentry
  reentry-HasFired sequence w h = elim (Option-cases (latest_target w.reentry_triggers_fired)) [
    | inl none_fired ↦ ground (arith, h, none_fired)
    | inr (target, e) ↦
        let down = invalidate_downstream-HasFired sequence w target h in ground (arith, h, e, down)
  ]

  check-Fires :
      (triggers : List String) (w : Workflow F)
      → all is_target triggers ≡ true
      → Fires w
      → Fires (reentry_check_node triggers w)
  unfolding reentry_check_node
  check-Fires triggers w k f = record {
    first_fired = f.first_fired;
    later_fired = f.later_fired ++ triggers;
    in_list = ap (λ ts. ts ++ triggers) f.in_list;
    all_known = all-append is_target (f.first_fired ∷ f.later_fired) triggers f.all_known k;
  }

  Walk-Fires : {sequence : List String} {w v : Workflow F} → Walk sequence w v → Fires w → Fires v
  Walk-Fires no_step f = f
  Walk-Fires {sequence} (phase_run now a p s) f =
      Fires-kept _ _ (λ ts. run_phase_node-HasFired sequence now a _ p) (Walk-Fires s f)
  Walk-Fires {sequence} (hypotheses_run now a b s) f =
      Fires-kept _ _ (λ ts. hypotheses_node-HasFired sequence now a b _) (Walk-Fires s f)
  Walk-Fires {sequence} (strategy_run now a b s) f =
      Fires-kept _ _ (λ ts. strategy_node-HasFired sequence now a b _) (Walk-Fires s f)
  Walk-Fires (scoring_run scores s) f =
      Fires-kept _ _ (λ ts. scoring_node-HasFired scores _) (Walk-Fires s f)
  Walk-Fires (gated s) f = Fires-kept _ _ (λ ts. gate_node-HasFired _) (Walk-Fires s f)
  Walk-Fires (gate_routed s) f = Fires-kept _ _ (λ ts. route_after_gate-HasFired _) (Walk-Fires s f)
  Walk-Fires (checked ts k s) f = check-Fires ts _ k (Walk-Fires s f)
  Walk-Fires {sequence} (reentered s) f =
      Fires-kept _ _ (λ ts. reentry-HasFired sequence _) (Walk-Fires s f)

  Fires-stuck :
      (sequence : List String) (w : Workflow F)
      → Fires w
      → (is_target (route_after_reentry sequence w).1 ≡ true)
        × ((route_after_reentry sequence w).1 ≢ "monitor")
  unfolding route_after_reentry
  Fires-stuck sequence w f =
      let (u, (last, valid)) = last-target f.first_fired f.later_fired f.all_known in
      let (known, other) = target-in-order u valid in
      let e = ap latest_target f.in_list ∙ last in ground (arith, e, known, other, valid)

  -- Once a trigger has fired, no check of the re-entries leads to the monitor: from a state whose list
  -- holds a trigger, and only triggers with a target of `evaluate_reentry_triggers`, the routing after
  -- any walk over the nodes and the routings of the graph, in whatever order, with whatever replies of
  -- the models and whatever such triggers fired on the way, leads to one of those targets.
  pub Walk-stuck :
      (sequence : List String) (w v : Workflow F) (t : String) (ts : List String)
      → w.reentry_triggers_fired ≡ t ∷ ts
      → all is_target (t ∷ ts) ≡ true
      → Walk sequence w v
      → (is_target (route_after_reentry sequence v).1 ≡ true)
        × ((route_after_reentry sequence v).1 ≢ "monitor")
  Walk-stuck sequence w v t ts e k walk =
      Fires-stuck sequence v
        (Walk-Fires walk (record { first_fired = t; later_fired = ts; in_list = e; all_known = k }))
