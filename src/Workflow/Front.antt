-- ===== src/Workflow/Front.antt =====
-- mas/orchestrator.py: that the linear runner completes no phase behind one that is not complete.
use v.Prelude.{
  if-elim, String, ◌≡◌, refl, sym, ap, ◌∙◌, true, false, not, ◌&&◌, Option, none, some, List, [],
  ◌∷◌, str_eq, any, all, arith, eq_iff, Bool-cases, inl, inr, subst,
}
use v.Prelude.Float.{FloatOps}
use v.Prelude.Texts.{one_of}
use v.Workflow.State.{Workflow, status_or_pending, status_of, is_completed, phase_has_output}
use v.Workflow.Templates.{get_workflow_phase_sequence, phases_from}
use v.Workflow.Invalidation.{
  to_invalidate, is_met, is_unfinished, first_unfinished, invalidate_downstream,
}
use v.Workflow.Gate.{check_gate, is_structural}
use v.Workflow.Frame.{Agree, Agree-trans, Agree-refl}
use v.Workflow.Clear.{Lost, invalidate_phases-Lost, invalidate_phases-Agree}
use v.Workflow.Reply.{is_known}
use v.Workflow.Phase.{run_phase_node}
use v.Workflow.Completion.{run_phase_node-Sound}
use v.Workflow.Coherence.{sequence-cases, met-Agree, met-Lost}
use v.Workflow.Order.{
  spares, in_order, all-one_of, nothing-later, clash, all-in-order, Ordered, ordered, later-other,
  all-from, phases_from-here, phases_from-other,
}
use v.Workflow.Sequence.{
  Run, Turn, go_on, return_with, scored, has_gate, pass_gate, entered, after_phase, turn,
  run_phases, run_workflow_sequence,
}
use v.Workflow.Runner.{
  state_of, Passed, Front, unmet-Front, met-Front, scored-Agree, turn-Agree, turn-Lost,
}

module _ {F : Type 0} ⦃fl : FloatOps F⦄ where
  pass_gate-Passed :
      (w : Workflow F) (phase : String) → is_met w phase ≡ true → Passed phase (pass_gate w phase)
  unfolding pass_gate phase_has_output
  pass_gate-Passed w phase m =
      if-elim {A = Turn F} (Passed phase) _ _ (has_gate phase)
        (λ e.
          if-elim {A = Turn F} (Passed phase) _ _
            (not (check_gate w phase).passed && any is_structural (check_gate w phase).blocking)
            (λ f. tt) (λ f. m))
        (λ e. m)

  ran-met :
      (run : Run F) (w : Workflow F) (phase : String)
      → (is_completed (status_of w phase) ≡ true → phase_has_output w phase ≡ true)
      → is_completed (status_of (scored run w phase) phase) ≡ true
      → is_met (scored run w phase) phase ≡ true
  unfolding phase_has_output
  ran-met run w phase h c =
      let a = scored-Agree phase run w phase in
      let d : is_completed (status_of w phase) ≡ true =
        ap (λ o. is_completed (status_or_pending o)) (sym a.same_status) ∙ c in
      met-Agree a ∙ ground (arith, d, h d)

  -- A round that goes on leaves its phase complete with output, the report left out.
  turn-Passed :
      (sequence : List String) (run : Run F) (w : Workflow F) (phase : String)
      → is_known phase ≡ true
      → str_eq phase "report" ≡ false
      → Passed phase (turn sequence run w phase)
  unfolding turn after_phase
  turn-Passed sequence run w phase k n =
      let inside = entered w phase in
      let ran = run_phase_node sequence run.now run.attempt inside phase in
      if-elim {A = Turn F} (Passed phase) _ _ (is_met w phase) (λ e. e)
        (λ e.
          if-elim {A = Turn F} (Passed phase) _ _
            (is_completed (status_of (scored run ran phase) phase))
            (λ c. pass_gate-Passed (scored run ran phase) phase (
              ran-met run ran phase
                (run_phase_node-Sound sequence run.now run.attempt inside phase k n) c))
            (λ c. tt))

  turned-Agree :
      (q : String) (sequence : List String) (runs : String → Run F) (w : Workflow F)
      (ps : List String) (t : Turn F)
      → ((v : Workflow F) → Agree q (run_phases sequence runs v ps) v)
      → Agree q (state_of t) w
      → Agree q (elim t [ go_on v ↦ run_phases sequence runs v ps | return_with v ↦ v ]) w
  turned-Agree q sequence runs w ps (go_on v) rest a = Agree-trans (rest v) a
  turned-Agree q sequence runs w ps (return_with v) rest a = a

  run_phases-Agree :
      (q : String) (sequence : List String) (runs : String → Run F) (w : Workflow F)
      (ps : List String)
      → all (spares sequence q) ps ≡ true
      → Agree q (run_phases sequence runs w ps) w
  unfolding run_phases
  run_phases-Agree q sequence runs w [] h = Agree-refl
  run_phases-Agree q sequence runs w (p ∷ ps) h =
      turned-Agree q sequence runs w ps (turn sequence (runs p) w p)
        (λ v. run_phases-Agree q sequence runs v ps (ground (arith, h)))
        (turn-Agree q sequence (runs p) w p (ground (arith, h)))

  -- The phases behind the first of a list have no output.
  abbrev LostBehind : Workflow F → List String → Type 0
  LostBehind w [] = Unit
  LostBehind w (p ∷ ps) = (q : String) → one_of ps q ≡ true → Lost q w

  behind-tail :
      (w : Workflow F) (ps : List String)
      → ((q : String) → one_of ps q ≡ true → Lost q w)
      → LostBehind w ps
  behind-tail w [] l = tt
  behind-tail w (p ∷ ps) l = λ q i. l q (ground (arith, i))

  turned-Front :
      (sequence : List String) (runs : String → Run F) (p : String) (ps : List String) (t : Turn F)
      → Ordered sequence p ps
      → ((v : Workflow F) → LostBehind v ps → Front (run_phases sequence runs v ps) ps)
      → (str_eq p "report" ≡ false → Passed p t)
      → ((q : String) → one_of ps q ≡ true → Lost q (state_of t))
      → Front (elim t [ go_on v ↦ run_phases sequence runs v ps | return_with v ↦ v ]) (p ∷ ps)
  unfolding Front
  turned-Front sequence runs p ps (return_with v) o rest m l =
      (λ e q i. met-Lost (l q i), unmet-Front v ps (λ q i. met-Lost (l q i)))
  turned-Front sequence runs p ps (go_on v) o rest m l = (
    λ e q i. elim (Bool-cases (str_eq p "report")) [
      | inl r ↦ absurd (nothing-later ps q (o.report_last r) i)
      | inr n ↦ absurd (clash (met-Agree (run_phases-Agree p sequence runs v ps o.spared) ∙ m n) e)
    ],
    rest v (behind-tail v ps l),
  )

  run_phases-Front :
      (sequence : List String) (runs : String → Run F) (w : Workflow F) (ps : List String)
      → in_order sequence ps ≡ true
      → LostBehind w ps
      → Front (run_phases sequence runs w ps) ps
  unfolding run_phases Front
  run_phases-Front sequence runs w [] o l = tt
  run_phases-Front sequence runs w (p ∷ ps) o l =
      let first = ordered sequence p ps o in
      turned-Front sequence runs p ps (turn sequence (runs p) w p) first
        (λ v k. run_phases-Front sequence runs v ps first.tail k)
        (λ n. turn-Passed sequence (runs p) w p first.known n)
        (λ q i.
          turn-Lost q sequence (runs p) w p (later-other sequence p ps q first.spared i) (l q i))

  first-among :
      (w : Workflow F) (ps : List String) (start : String)
      → first_unfinished w ps ≡ some start
      → one_of ps start ≡ true
  unfolding first_unfinished
  first-among w [] start h = absurd (ground (arith, h))
  first-among w (p ∷ ps) start h = elim (Bool-cases (is_unfinished w p)) [
    | inl u ↦ ground (arith, h, u, eq_iff p start)
    | inr m ↦ ground (arith, h, m, first-among w ps start)
  ]

  -- Where the first phase of the list is the one to start with.
  here-Front :
      (sequence : List String) (runs : String → Run F) (w : Workflow F) (p : String)
      (ps : List String)
      → in_order sequence (p ∷ ps) ≡ true
      → Front
          (run_phases sequence runs (invalidate_downstream sequence w p) (phases_from p (p ∷ ps)))
          (p ∷ ps)
  unfolding invalidate_downstream
  here-Front sequence runs w p ps o =
      subst
        (λ qs. Front (run_phases sequence runs (invalidate_downstream sequence w p) qs) (p ∷ ps))
        (sym (phases_from-here p ps))
        (run_phases-Front sequence runs (invalidate_downstream sequence w p) (p ∷ ps) o (λ q i.
          invalidate_phases-Lost q w (to_invalidate sequence p) (
            all-one_of (one_of (to_invalidate sequence p)) ps q
              (ordered sequence p ps o).invalidates i)))

  -- A finished phase before the start keeps its output and its status.
  before-met :
      (sequence : List String) (runs : String → Run F) (w : Workflow F) (start p : String)
      (ps : List String)
      → all (spares sequence p) ps ≡ true
      → one_of ps start ≡ true
      → is_met w p ≡ true
      → is_met
          (run_phases sequence runs (invalidate_downstream sequence w start) (phases_from start ps))
          p
        ≡ true
  unfolding invalidate_downstream
  before-met sequence runs w start p ps s i m =
      let k : spares sequence p start ≡ true = all-one_of (spares sequence p) ps start s i in
      met-Agree (
        Agree-trans
          (run_phases-Agree p sequence runs (invalidate_downstream sequence w start)
            (phases_from start ps) (all-from (spares sequence p) start ps s))
          (invalidate_phases-Agree p w (to_invalidate sequence start) (ground (arith, k))))
      ∙ m

  -- From the first phase that is not finished on.
  started-Front :
      (sequence : List String) (runs : String → Run F) (w : Workflow F) (start : String)
      (ps : List String)
      → in_order sequence ps ≡ true
      → first_unfinished w ps ≡ some start
      → Front
          (run_phases sequence runs (invalidate_downstream sequence w start) (phases_from start ps))
          ps
  unfolding Front first_unfinished
  started-Front sequence runs w start [] o h = tt
  started-Front sequence runs w start (p ∷ ps) o h = elim (Bool-cases (is_unfinished w p)) [
    | inl u ↦
        let e : p ≡ start = ground (arith, h, u) in
        subst
          (λ x.
            Front
              (run_phases sequence runs (invalidate_downstream sequence w x)
                (phases_from x (p ∷ ps)))
              (p ∷ ps))
          e (here-Front sequence runs w p ps o)
    | inr m ↦
        let first = ordered sequence p ps o in
        let rest : first_unfinished w ps ≡ some start = ground (arith, h, m) in
        let among = first-among w ps start rest in
        subst
          (λ qs.
            Front (run_phases sequence runs (invalidate_downstream sequence w start) qs) (p ∷ ps))
          (sym (phases_from-other start p ps (later-other sequence p ps start first.spared among)))
          (
            λ e q i. absurd (
                clash (before-met sequence runs w start p ps first.spared among (ground (arith, m)))
                  e),
            started-Front sequence runs w start ps first.tail rest,
          )
  ]

  -- In the sequence of every project type and from every state, the runner leaves no phase complete
  -- with output behind one that is not.
  pub run_workflow_sequence-Front :
      (clean : String → String) (t : Option String) (sequence : List String) (runs : String → Run F)
      (w : Workflow F)
      → get_workflow_phase_sequence clean t ≡ some sequence
      → Front (run_workflow_sequence sequence runs w) sequence
  unfolding run_workflow_sequence
  run_workflow_sequence-Front clean t sequence runs w g =
      by_start (first_unfinished w sequence) refl
    where
      by_start :
          (o : Option String)
          → first_unfinished w sequence ≡ o
          → Front
              (elim o [
                | none ↦ w
                | some start ↦
                    run_phases sequence runs
                      (invalidate_downstream sequence w start)
                      (phases_from start sequence)
              ])
              sequence
      by_start none e = met-Front w sequence e
      by_start (some start) e =
          started-Front sequence runs w start sequence
            (all-in-order sequence (sequence-cases clean t sequence g)) e
