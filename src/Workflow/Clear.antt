-- ===== src/Workflow/Clear.antt =====
-- mas/orchestrator.py, mas/state.py, mas/tools/scoring.py: what the invalidation of phases drops and
-- what it leaves as it is.
use v.Prelude.{
  String, ◌≡◌, ◌≢◌, refl, ◌∙◌, Bool, true, false, none, List, [], ◌∷◌, str_eq, if◌then◌else◌, arith,
  eq_iff, Bool-cases, inl, inr, subst, subst,
}
use v.Prelude.Dict.{get, pop, get-pop}
use v.Prelude.Texts.{one_of}
use v.Workflow.State.{stale, Workflow}
use v.Workflow.Invalidation.{
  cleared, had_something, unsealed, invalidate_phase, invalidate_phases, forgotten, named,
  forget_all,
}
use v.Workflow.Frame.{Agree, Agree-trans, Agree-refl, retold, if-Agree, set_status-Agree}

module _ {F : Type 0} where
  -- The output of a phase is not there.
  pub record Lost (q : String) (w : Workflow F) : Type 0 where
    pub is_lost : get w.outputs q ≡ none

  -- The second state has lost the output of the phase, or the two agree on it.
  pub data Fewer (q : String) (v w : Workflow F) : Type 0 where
    lost : Lost q v → Fewer q v w
    kept : Agree q v w → Fewer q v w

  pub Agree-Lost : {q : String} {v w : Workflow F} → Agree q v w → Lost q w → Lost q v
  Agree-Lost h k = record { is_lost = h.same_output ∙ k.is_lost }

  pub Fewer-trans : {q : String} {u v w : Workflow F} → Fewer q u v → Fewer q v w → Fewer q u w
  Fewer-trans (lost h) k = lost h
  Fewer-trans (kept h) (lost k) = lost (Agree-Lost h k)
  Fewer-trans (kept h) (kept k) = kept (Agree-trans h k)

  pub Fewer-Lost : {q : String} {v w : Workflow F} → Fewer q v w → Lost q w → Lost q v
  Fewer-Lost (lost h) k = h
  Fewer-Lost (kept h) k = Agree-Lost h k

  pub if-Lost :
      {q : String} {u v : Workflow F} (b : Bool) → Lost q u → Lost q v → Lost q (if b then u else v)
  if-Lost true h k = h
  if-Lost false h k = k

  pub Lost-again :
      {q : String} {u v : Workflow F} → Lost q u → get v.outputs q ≡ get u.outputs q → Lost q v
  Lost-again h e = record { is_lost = e ∙ h.is_lost }

  pub popped-Lost :
      {q : String} {v : Workflow F} (w : Workflow F) (phase : String)
      → v.outputs ≡ pop w.outputs phase
      → phase ≡ q
      → Lost q v
  popped-Lost {q} {v} w phase e s = record {
    is_lost = ground (arith, e, s, eq_iff phase q, eq_iff q q, get-pop w.outputs phase q);
  }

  pub cleared-Agree :
      {q : String} (w : Workflow F) (phase : String) → phase ≢ q → Agree q (cleared w phase) w
  cleared-Agree {q} w phase d = record {
    same_output = ground (arith, d, get-pop w.outputs phase q, eq_iff phase q);
    same_status = refl;
  }

  unsealed-Agree : {q : String} (w : Workflow F) (phase : String) → Agree q (unsealed w phase) w
  unsealed-Agree w phase =
      if-Agree (str_eq phase "hypotheses") (retold Agree-refl refl refl) Agree-refl

  invalidate_phase-Lost : (w : Workflow F) (phase : String) → Lost phase (invalidate_phase w phase)
  unfolding invalidate_phase
  invalidate_phase-Lost w phase =
      let gone = popped-Lost {v = cleared w phase} w phase refl refl in
      let still =
        if-Lost {u = record (cleared w phase) { sealed = false; seal_date = none }}
          (str_eq phase "hypotheses") (Lost-again gone refl) gone in
      if-Lost (had_something w phase) (Lost-again still refl) still

  invalidate_phase-Agree :
      {q : String} (w : Workflow F) (phase : String)
      → phase ≢ q
      → Agree q (invalidate_phase w phase) w
  unfolding invalidate_phase
  invalidate_phase-Agree {q} w phase d =
      let kept =
        Agree-trans (unsealed-Agree {q = q} (cleared w phase) phase) (cleared-Agree w phase d) in
      if-Agree (had_something w phase)
        (Agree-trans
          (retold (set_status-Agree (unsealed (cleared w phase) phase) stale d) refl refl) kept)
        kept

  invalidate_phase-Fewer :
      (q : String) (w : Workflow F) (phase : String) → Fewer q (invalidate_phase w phase) w
  invalidate_phase-Fewer q w phase = elim (Bool-cases (str_eq phase q)) [
    | inl same ↦
        let e : phase ≡ q = ground (arith, same, eq_iff phase q) in
        lost (subst (λ x. Lost x (invalidate_phase w phase)) e (invalidate_phase-Lost w phase))
    | inr other ↦ kept (invalidate_phase-Agree w phase (ground (arith, other, eq_iff phase q)))
  ]

  pub invalidate_phases-Fewer :
      (q : String) (w : Workflow F) (ps : List String) → Fewer q (invalidate_phases w ps) w
  unfolding invalidate_phases
  invalidate_phases-Fewer q w [] = kept Agree-refl
  invalidate_phases-Fewer q w (p ∷ ps) =
      Fewer-trans (invalidate_phases-Fewer q (invalidate_phase w p) ps)
        (invalidate_phase-Fewer q w p)

  pub invalidate_phases-Agree :
      (q : String) (w : Workflow F) (ps : List String)
      → one_of ps q ≡ false
      → Agree q (invalidate_phases w ps) w
  unfolding invalidate_phases
  invalidate_phases-Agree q w [] h = Agree-refl
  invalidate_phases-Agree q w (p ∷ ps) h =
      Agree-trans (invalidate_phases-Agree q (invalidate_phase w p) ps (ground (arith, h)))
        (invalidate_phase-Agree w p (ground (arith, h, eq_iff p q)))

  pub invalidate_phases-Lost :
      (q : String) (w : Workflow F) (ps : List String)
      → one_of ps q ≡ true
      → Lost q (invalidate_phases w ps)
  unfolding invalidate_phases
  invalidate_phases-Lost q w [] h = absurd (ground (arith, h))
  invalidate_phases-Lost q w (p ∷ ps) h = elim (Bool-cases (str_eq p q)) [
    | inl same ↦
        let e : p ≡ q = ground (arith, same, eq_iff p q) in
        Fewer-Lost (invalidate_phases-Fewer q (invalidate_phase w p) ps)
          (subst (λ x. Lost x (invalidate_phase w p)) e (invalidate_phase-Lost w p))
    | inr other ↦ invalidate_phases-Lost q (invalidate_phase w p) ps (ground (arith, h, other))
  ]

  pub forget_all-Fewer :
      (q : String) (w : Workflow F) (ps : List String) → Fewer q (forget_all w ps) w
  forget_all-Fewer q w [] = kept Agree-refl
  forget_all-Fewer q w (p ∷ ps) =
      Fewer-trans (forget_all-Fewer q (forgotten w p) ps) (elim (Bool-cases (str_eq p q)) [
        | inl same ↦ lost (popped-Lost w p refl (ground (arith, same, eq_iff p q)))
        | inr other ↦
            kept (retold (cleared-Agree w p (ground (arith, other, eq_iff p q))) refl refl)
      ])

  pub forget_all-Agree :
      (q : String) (w : Workflow F) (ps : List String)
      → one_of ps q ≡ false
      → Agree q (forget_all w ps) w
  forget_all-Agree q w [] h = Agree-refl
  forget_all-Agree q w (p ∷ ps) h =
      Agree-trans (forget_all-Agree q (forgotten w p) ps (ground (arith, h)))
        (retold (cleared-Agree w p (ground (arith, h, eq_iff p q))) refl refl)

  pub named-among :
      (q : String) (w : Workflow F) (ps : List String)
      → one_of ps q ≡ false
      → one_of (named w ps) q ≡ false
  named-among q w [] h = refl
  named-among q w (p ∷ ps) h = ground (arith, h, named-among q (invalidate_phase w p) ps)
