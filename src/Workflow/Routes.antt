-- ===== src/Workflow/Routes.antt =====
-- mas/orchestrator.py: where the routing functions of the graph lead.
use v.Prelude.{
  not, ◌&&◌, str_eq, String, ◌≡◌, refl, sym, ap, ◌∙◌, Bool, true, false, none, arith, subst,
}
use v.Prelude.Dict.{get}
use v.Prelude.Float.{FloatOps}
use v.Workflow.State.{Workflow}
use v.Workflow.Templates.{phases_after}
use v.Workflow.Gate.{check_gate}
use v.Workflow.Graph.{is_failed, next_phase, hypotheses_gate_edges, route_after_gate}

-- The phase that follows is another one, and neither word of a way out is the phase.
abbrev moves_on : String → Bool
moves_on p =
    not (str_eq (next_phase p) p) && (not (str_eq "abort" p) && not (str_eq "force_proceed" p))

module _ {F : Type 0} ⦃fl : FloatOps F⦄ where
  passed-routes :
      (w : Workflow F)
      → is_failed (get w.phase_status w.policy.current_phase) ≡ false
      → (check_gate w w.policy.current_phase).passed ≡ true
      → (route_after_gate w).1 ≡ next_phase w.policy.current_phase
  unfolding route_after_gate
  passed-routes w f g = ground (arith, f, g)

  gauntlet-passes : (w : Workflow F) → (check_gate w "gauntlet").passed ≡ true
  unfolding check_gate get
  gauntlet-passes w = refl

  -- Behind the gauntlet the gate of the hypotheses leads nowhere: the gauntlet has no gate and is no
  -- phase of PHASE_ORDER, so that the route is its first phase, which is no edge of that gate.
  pub route_after_gate-gauntlet :
      (w : Workflow F)
      → w.policy.current_phase ≡ "gauntlet"
      → is_failed (get w.phase_status "gauntlet") ≡ false
      → ((route_after_gate w).1 ≡ "classify")
        × (get hypotheses_gate_edges (route_after_gate w).1 ≡ none)
  unfolding phases_after get
  route_after_gate-gauntlet w p f =
      let e : (route_after_gate w).1 ≡ "classify" =
        passed-routes w (subst (λ x. is_failed (get w.phase_status x) ≡ false) (sym p) f)
          (subst (λ x. (check_gate w x).passed ≡ true) (sym p) (gauntlet-passes w))
        ∙ ap next_phase p in
      (e, ap (λ r. get hypotheses_gate_edges r) e)
